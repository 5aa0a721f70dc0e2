-- ===== src/Delivery/Resolution.antt =====
-- The steps of the machine that settle an uncertain attempt, a click that was ruled out, or a label.
use home_server_infra.Prelude.{
  ℕ, String, Option, none, some, [], ◌∷◌, ◌≡◌, arith, refl, ◌⊎◌, inl, inr, ap,
}
use home_server_infra.Prelude.Rows.{update_where}
use home_server_infra.Shared.Types.{
  RequestStatus, SendAttemptRow, SendAttemptState, ReconcileResult,
}
use home_server_infra.Shared.Failure.{Failure}
use home_server_infra.Database.Store.{Database, ok, thrown}
use home_server_infra.Database.Attempts.{
  transition_attempt, rebind_assistant_turn_id, no_ids, is_rebindable, is_generating,
}
use home_server_infra.Database.Requests.{find_request}
use home_server_infra.Delivery.Transitions.{has_status, set_generating}
use home_server_infra.Delivery.Reconciliation.{
  ReconcileDecision, found_ids, reconcile_found, reconcile_absent,
}
use home_server_infra.Delivery.Machine.{stays, moves, relabels, disproves, reconciles, clears}
use home_server_infra.Delivery.Refinement.{
  Refines, Result-cases, moved, send_attempts-record_usage_for,
}

found-ok :
    (id : String) (a : SendAttemptRow) (r : ReconcileResult) (url : String) (t now : ℕ)
    (d : Database) (s : ReconcileDecision)
    → (reconcile_found id a r url t now d).0 ≡ ok s
    → (reconcile_found id a r url t now d).1.send_attempts
      ≡ moved id a.attempt_no SendAttemptState.uncertain SendAttemptState.reconciled
          (found_ids r)
          t
          d
unfolding reconcile_found transition_attempt
found-ok id a r url t now d s h = ground (
  arith,
  send_attempts-record_usage_for id none now (record d {
    requests =
        update_where (has_status id RequestStatus.uncertain) (set_generating url now) d.requests;
    send_attempts =
        moved id a.attempt_no SendAttemptState.uncertain SendAttemptState.reconciled (found_ids r) t
          d;
  }),
)

found-thrown :
    (id : String) (a : SendAttemptRow) (r : ReconcileResult) (url : String) (t now : ℕ)
    (d : Database) (e : Failure)
    → (reconcile_found id a r url t now d).0 ≡ thrown e
    → (reconcile_found id a r url t now d).1 ≡ d
unfolding reconcile_found
found-thrown id a r url t now d e h = ground arith

pub found-Refines :
    (id : String) (a : SendAttemptRow) (r : ReconcileResult) (url : String) (t now : ℕ)
    → Refines (reconcile_found id a r url t now)
found-Refines id a r url t now d = elim (Result-cases (reconcile_found id a r url t now d).0) [
  | inl (s, e) ↦
      moves id a.attempt_no SendAttemptState.uncertain SendAttemptState.reconciled (found_ids r) t
        reconciles (found-ok id a r url t now d s e)
  | inr (f, e) ↦
      stays (ap (λ (x : Database). x.send_attempts) (found-thrown id a r url t now d f e))
]

absent-ok :
    (id : String) (a : SendAttemptRow) (t now : ℕ) (d : Database) (s : ReconcileDecision)
    → (reconcile_absent id a t now d).0 ≡ ok s
    → (reconcile_absent id a t now d).1.send_attempts
      ≡ moved id a.attempt_no SendAttemptState.uncertain SendAttemptState.no_send_proven no_ids t d
unfolding reconcile_absent transition_attempt
absent-ok id a t now d s h = ground arith

absent-thrown :
    (id : String) (a : SendAttemptRow) (t now : ℕ) (d : Database) (e : Failure)
    → (reconcile_absent id a t now d).0 ≡ thrown e
    → (reconcile_absent id a t now d).1 ≡ d
unfolding reconcile_absent
absent-thrown id a t now d e h = ground arith

pub absent-Refines :
    (id : String) (a : SendAttemptRow) (t now : ℕ) → Refines (reconcile_absent id a t now)
absent-Refines id a t now d = elim (Result-cases (reconcile_absent id a t now d).0) [
  | inl (s, e) ↦
      moves id a.attempt_no SendAttemptState.uncertain SendAttemptState.no_send_proven no_ids t
        clears (absent-ok id a t now d s e)
  | inr (f, e) ↦ stays (ap (λ (x : Database). x.send_attempts) (absent-thrown id a t now d f e))
]

pub pre_click-Refines :
    (id : String) (n now : ℕ)
    → Refines (
        transition_attempt id n
          (SendAttemptState.armed ∷ [])
          SendAttemptState.no_send_proven
          no_ids
          now)
unfolding transition_attempt
pre_click-Refines id n now d =
    moves id n SendAttemptState.armed SendAttemptState.no_send_proven no_ids now disproves
      (ground arith)

abbrev rebound : String → ℕ → SendAttemptRow → SendAttemptRow
rebound observed now a = record a { assistant_turn_id = some observed; updated_at = now }

rebind_rows :
    (id : String) (n : ℕ) (turn : String) (expected : Option String) (observed : String) (now : ℕ)
    (d : Database)
    → let rows = (rebind_assistant_turn_id id n turn expected observed now d).1.send_attempts in
      (rows ≡ d.send_attempts)
      ⊎ (rows
          ≡ update_where
              (is_rebindable id n turn expected (is_generating (find_request id d)))
              (rebound observed now)
              d.send_attempts)
unfolding rebind_assistant_turn_id
rebind_rows id n turn expected observed now d = ground arith

pub rebind-Refines :
    (id : String) (n : ℕ) (turn : String) (expected : Option String) (observed : String) (now : ℕ)
    → Refines (rebind_assistant_turn_id id n turn expected observed now)
rebind-Refines id n turn expected observed now d =
    elim (rebind_rows id n turn expected observed now d) [
      | inl e ↦ stays e
      | inr e ↦ relabels _ (rebound observed now) (λ a. (refl, refl, refl)) e
    ]
