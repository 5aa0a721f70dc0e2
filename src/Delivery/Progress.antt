-- ===== src/Delivery/Progress.antt =====
-- When `armSendAttempt` returns, and what it has then written.
use home_server_infra.Prelude.{ℕ, String, none, some, [], ◌∷◌, ◌++◌, ◌≡◌, arith}
use home_server_infra.Prelude.Rows.{count, update_where}
use home_server_infra.Prelude.Counting.{count-find_row, count_mono, find_row-of-count}
use home_server_infra.Shared.Types.{RequestRow, RequestStatus, status_eq}
use home_server_infra.Database.Store.{Database, ok}
use home_server_infra.Database.Requests.{find_request, has_id}
use home_server_infra.Database.Attempts.{
  find_latest_attempt, find_attempt, create_attempt, new_attempt, is_attempt,
}
use home_server_infra.Delivery.Transitions.{arm_send_attempt, has_status, set_sending}
use home_server_infra.Delivery.Arming.{next_number}
use home_server_infra.Delivery.AtMostOnce.{IsGuarded, before_arming}

no_row_yet :
    (id : String) (d : Database) (n : ℕ)
    → IsGuarded d.send_attempts
    → next_number (find_latest_attempt id d) ≡ some n
    → find_attempt id n d ≡ none
unfolding find_attempt
no_row_yet id d n g h =
    find_row-of-count (is_attempt id n) d.send_attempts (before_arming id d n g h).3

one_staged :
    (id : String) (d : Database) (r : RequestRow)
    → count (has_id id) d.requests ≡ 1
    → find_request id d ≡ some r
    → r.status ≡ RequestStatus.staged
    → count (has_status id RequestStatus.staged) d.requests ≡ 1
unfolding find_request
one_staged id d r one found staged = omega (
  arith,
  one,
  count-find_row (has_id id) (λ x. status_eq x.status RequestStatus.staged) d.requests found
      (ground arith),
  count_mono (has_status id RequestStatus.staged) (has_id id) d.requests (λ x h. ground arith),
)

-- For a guarded table, and a staged request that is the only row of its id and may have an attempt
-- `n`, arming returns `n`, has appended the armed attempt, and has set the request to sending.
pub arm_send_attempt-returns :
    (id : String) (t now : ℕ) (d : Database) (n : ℕ) (r : RequestRow)
    → IsGuarded d.send_attempts
    → count (has_id id) d.requests ≡ 1
    → find_request id d ≡ some r
    → r.status ≡ RequestStatus.staged
    → next_number (find_latest_attempt id d) ≡ some n
    → arm_send_attempt id t now d ≡ (
      ok n,
      record d {
        requests = update_where (has_status id RequestStatus.staged) (set_sending now) d.requests;
        send_attempts = d.send_attempts ++ new_attempt id n t ∷ [];
      },
    )
unfolding arm_send_attempt create_attempt
arm_send_attempt-returns id t now d n r g one found staged number = ground (
  arith,
  no_row_yet id d n g number,
  one_staged id d r one found staged,
  before_arming id d n g number,
)
