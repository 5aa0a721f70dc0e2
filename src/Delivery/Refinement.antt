-- ===== src/Delivery/Refinement.antt =====
-- Each operation that writes `send_attempts` is a step of the machine, whether it returns or throws.
use home_server_infra.Prelude.{
  ℕ, String, Option, some, List, [], ◌∷◌, ◌≡◌, arith, refl, Option-cases, ◌⊎◌, inl, inr, ap,
}
use home_server_infra.Prelude.Rows.{update_where}
use home_server_infra.Shared.Types.{RequestStatus, SendAttemptRow, SendAttemptState, SendResult}
use home_server_infra.Shared.Failure.{Failure}
use home_server_infra.Database.Store.{Database, Tx, Result, ok, thrown}
use home_server_infra.Database.Attempts.{
  find_latest_attempt, is_attempt_in, set_attempt, TurnIds, transition_attempt,
}
use home_server_infra.Database.Usage.{record_usage}
use home_server_infra.Delivery.Anchor.{SendAnchor, StoredSendAnchor}
use home_server_infra.Delivery.Transitions.{
  has_status, set_generating, arm_send_attempt, confirmed_ids, confirm_send_attempt,
  record_usage_for,
}
use home_server_infra.Delivery.Reconciliation.{anchor_ids, mark_send_uncertain}
use home_server_infra.Delivery.Arming.{arm_send_attempt-thrown, arm_send_attempt-ok}
use home_server_infra.Delivery.Machine.{Step, stays, arms, moves, confirms, loses}

-- What an action leaves of the table is a step of the machine.
abbrev pub Refines : {A : Type 0} → Tx A → Type 0
Refines m = (d : Database) → Step d (m d).1.send_attempts

pub Result-cases :
    {A : Type 0} (r : Result A) → ((a : A) × (r ≡ ok a)) ⊎ ((e : Failure) × (r ≡ thrown e))
Result-cases (ok a) = inl (a, refl)
Result-cases (thrown e) = inr (e, refl)

pub arm-Refines : (id : String) (t now : ℕ) → Refines (arm_send_attempt id t now)
arm-Refines id t now d = elim (Result-cases (arm_send_attempt id t now d).0) [
  | inl (n, e) ↦
      let (number, staged, rows) = arm_send_attempt-ok id t now d n e in arms id n t number rows
  | inr (f, e) ↦
      stays (ap (λ (x : Database). x.send_attempts) (arm_send_attempt-thrown id t now d f e))
]

pub send_attempts-record_usage_for :
    (id : String) (label : Option String) (now : ℕ) (d : Database)
    → (record_usage_for id label now d).1.send_attempts ≡ d.send_attempts
unfolding record_usage_for record_usage
send_attempts-record_usage_for id label now d = ground arith

confirm-thrown :
    (id : String) (r : SendResult) (t now : ℕ) (d : Database) (e : Failure)
    → (confirm_send_attempt id r t now d).0 ≡ thrown e
    → (confirm_send_attempt id r t now d).1 ≡ d
unfolding confirm_send_attempt
confirm-thrown id r t now d e h = ground arith

-- The row table after a transition from `source` to `state`.
abbrev pub moved :
    String → ℕ → SendAttemptState → SendAttemptState → TurnIds → ℕ → Database → List SendAttemptRow
moved id n source state ids now d =
    update_where (is_attempt_in id n (source ∷ [])) (set_attempt state ids now) d.send_attempts

confirm-ok :
    (id : String) (r : SendResult) (t now : ℕ) (d : Database) (s : SendAttemptState)
    → (confirm_send_attempt id r t now d).0 ≡ ok s
    → (a : SendAttemptRow) × (find_latest_attempt id d ≡ some a)
      × ((confirm_send_attempt id r t now d).1.send_attempts
          ≡ moved id a.attempt_no SendAttemptState.armed SendAttemptState.confirmed
              (confirmed_ids r)
              t
              d)
unfolding confirm_send_attempt transition_attempt
confirm-ok id r t now d s h = elim (Option-cases (find_latest_attempt id d)) [
  | inl e ↦ absurd (ground arith)
  | inr (a, e) ↦ (
    a,
    e,
    ground (
      arith,
      send_attempts-record_usage_for id r.model_label now (record d {
        requests =
            update_where (has_status id RequestStatus.sending)
              (set_generating r.conversation_url now) d.requests;
        send_attempts =
            moved id a.attempt_no SendAttemptState.armed SendAttemptState.confirmed
              (confirmed_ids r) t d;
      }),
    ),
  )
]

-- `immediate` gives the database back where the action throws.
pub confirm-Refines :
    (id : String) (r : SendResult) (t now : ℕ) → Refines (confirm_send_attempt id r t now)
confirm-Refines id r t now d = elim (Result-cases (confirm_send_attempt id r t now d).0) [
  | inl (s, e) ↦
      let (a, latest, rows) = confirm-ok id r t now d s e in
      moves id a.attempt_no SendAttemptState.armed SendAttemptState.confirmed (confirmed_ids r) t
        confirms rows
  | inr (f, e) ↦ stays (ap (λ (x : Database). x.send_attempts) (confirm-thrown id r t now d f e))
]

uncertain-thrown :
    (stringify : StoredSendAnchor → String) (id detail : String) (anchor : Option SendAnchor)
    (t now : ℕ) (d : Database) (e : Failure)
    → (mark_send_uncertain stringify id detail anchor t now d).0 ≡ thrown e
    → (mark_send_uncertain stringify id detail anchor t now d).1 ≡ d
unfolding mark_send_uncertain
uncertain-thrown stringify id detail anchor t now d e h = ground arith

uncertain-ok :
    (stringify : StoredSendAnchor → String) (id detail : String) (anchor : Option SendAnchor)
    (t now : ℕ) (d : Database) (s : SendAttemptState)
    → (mark_send_uncertain stringify id detail anchor t now d).0 ≡ ok s
    → (a : SendAttemptRow) × (find_latest_attempt id d ≡ some a)
      × ((mark_send_uncertain stringify id detail anchor t now d).1.send_attempts
          ≡ moved id a.attempt_no SendAttemptState.armed SendAttemptState.uncertain
              (anchor_ids anchor)
              t
              d)
unfolding mark_send_uncertain transition_attempt
uncertain-ok stringify id detail anchor t now d s h =
    elim (Option-cases (find_latest_attempt id d)) [
      | inl e ↦ absurd (ground arith)
      | inr (a, e) ↦ (a, e, ground arith)
    ]

pub uncertain-Refines :
    (stringify : StoredSendAnchor → String) (id detail : String) (anchor : Option SendAnchor)
    (t now : ℕ)
    → Refines (mark_send_uncertain stringify id detail anchor t now)
uncertain-Refines stringify id detail anchor t now d =
    elim (Result-cases (mark_send_uncertain stringify id detail anchor t now d).0) [
      | inl (s, e) ↦
          let (a, latest, rows) = uncertain-ok stringify id detail anchor t now d s e in
          moves id a.attempt_no SendAttemptState.armed SendAttemptState.uncertain
            (anchor_ids anchor) t loses rows
      | inr (f, e) ↦ stays (
          ap (λ (x : Database). x.send_attempts)
            (uncertain-thrown stringify id detail anchor t now d f e))
    ]
