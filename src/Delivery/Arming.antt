-- ===== src/Delivery/Arming.antt =====
-- What `armSendAttempt` does on each branch.
use home_server_infra.Prelude.{
  ℕ, String, true, ◌&&◌, Option, none, some, [], ◌∷◌, ◌++◌, ◌==◌, if◌then◌else◌, ◌≡◌, arith,
}
use home_server_infra.Shared.Types.{SendAttemptRow, SendAttemptState, attempt_eq}
use home_server_infra.Shared.Failure.{Failure}
use home_server_infra.Database.Store.{Database, ok, thrown}
use home_server_infra.Database.Requests.{find_request}
use home_server_infra.Database.Attempts.{find_latest_attempt, create_attempt, new_attempt}
use home_server_infra.Delivery.Transitions.{arm_send_attempt, is_staged}

-- The number that a request's next attempt may have, from its latest one.
abbrev pub next_number : Option SendAttemptRow → Option ℕ
next_number none = some 1
next_number (some a) =
    if a.attempt_no == 1 && attempt_eq a.state SendAttemptState.no_send_proven then some 2 else none

-- A throw leaves the database as it was.
pub arm_send_attempt-thrown :
    (id : String) (t now : ℕ) (d : Database) (e : Failure)
    → (arm_send_attempt id t now d).0 ≡ thrown e
    → (arm_send_attempt id t now d).1 ≡ d
unfolding arm_send_attempt create_attempt
arm_send_attempt-thrown id t now d e h = ground arith

-- Arming returns only for a staged request and its next number, and has then appended that attempt.
pub arm_send_attempt-ok :
    (id : String) (t now : ℕ) (d : Database) (n : ℕ)
    → (arm_send_attempt id t now d).0 ≡ ok n
    → (next_number (find_latest_attempt id d) ≡ some n)
      × (is_staged (find_request id d) ≡ true)
      × ((arm_send_attempt id t now d).1.send_attempts ≡ d.send_attempts ++ new_attempt id n t ∷ [])
unfolding arm_send_attempt create_attempt
arm_send_attempt-ok id t now d n h = ground arith
