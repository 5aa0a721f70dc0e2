-- ===== src/Delivery/Machine.antt =====
-- The send attempts as a state machine: what one transaction may do to the `send_attempts` table.
use home_server_infra.Prelude.{
  ℕ, String, Bool, false, some, List, [], ◌∷◌, ◌++◌, ◌≡◌, arith, refl, ◌∙◌,
}
use home_server_infra.Prelude.Rows.{update_where}
use home_server_infra.Prelude.Counting.{count-update_where}
use home_server_infra.Shared.Types.{SendAttemptRow, SendAttemptState, attempt_eq}
use home_server_infra.Database.Store.{Database}
use home_server_infra.Database.Attempts.{
  find_latest_attempt, new_attempt, is_attempt_in, is_attempt, set_attempt, TurnIds,
}
use home_server_infra.Delivery.Arming.{next_number}
use home_server_infra.Delivery.AtMostOnce.{IsGuarded, is_live, arm-IsGuarded, transition-IsGuarded}

-- The transitions of one attempt.
pub data Allowed : SendAttemptState → SendAttemptState → Type 0 where
  confirms : Allowed SendAttemptState.armed SendAttemptState.confirmed
  disproves : Allowed SendAttemptState.armed SendAttemptState.no_send_proven
  loses : Allowed SendAttemptState.armed SendAttemptState.uncertain
  reconciles : Allowed SendAttemptState.uncertain SendAttemptState.reconciled
  clears : Allowed SendAttemptState.uncertain SendAttemptState.no_send_proven

Allowed-source :
    {s t : SendAttemptState} → Allowed s t → attempt_eq s SendAttemptState.no_send_proven ≡ false
Allowed-source confirms = refl
Allowed-source disproves = refl
Allowed-source loses = refl
Allowed-source reconciles = refl
Allowed-source clears = refl

-- An update that leaves each row its request, its number and its state.
abbrev pub IsLabelling : (SendAttemptRow → SendAttemptRow) → Type 0
IsLabelling f =
    (a : SendAttemptRow)
    → ((f a).request_id ≡ a.request_id)
      × ((f a).attempt_no ≡ a.attempt_no)
      × ((f a).state ≡ a.state)

-- From the database `d` to the rows `rows`.
pub data Step (d : Database) (rows : List SendAttemptRow) : Type 0 where
  stays : rows ≡ d.send_attempts → Step d rows
  arms :
      (id : String) (n now : ℕ)
      → next_number (find_latest_attempt id d) ≡ some n
      → rows ≡ d.send_attempts ++ new_attempt id n now ∷ []
      → Step d rows
  moves :
      (id : String) (n : ℕ) (source state : SendAttemptState) (ids : TurnIds) (now : ℕ)
      → Allowed source state
      → rows
        ≡ update_where
            (is_attempt_in id n (source ∷ []))
            (set_attempt state ids now)
            d.send_attempts
      → Step d rows
  relabels :
      (p : SendAttemptRow → Bool) (f : SendAttemptRow → SendAttemptRow)
      → IsLabelling f
      → rows ≡ update_where p f d.send_attempts
      → Step d rows

relabel-IsGuarded :
    (p : SendAttemptRow → Bool) (f : SendAttemptRow → SendAttemptRow) (rows : List SendAttemptRow)
    → IsLabelling f
    → IsGuarded rows
    → IsGuarded (update_where p f rows)
relabel-IsGuarded p f rows same g = record {
  numbered = count-update_where _ p f rows (λ a. ground (arith, same a)) ∙ g.numbered;
  unique = λ id n.
      rw (count-update_where (is_attempt id n) p f rows (λ a. ground (arith, same a)))
        (g.unique id n);
  live =
      λ id. rw (count-update_where (is_live id) p f rows (λ a. ground (arith, same a))) (g.live id);
}

-- Every step of the machine keeps the table guarded.
pub Step-IsGuarded :
    {d : Database} {rows : List SendAttemptRow}
    → Step d rows
    → IsGuarded d.send_attempts
    → IsGuarded rows
Step-IsGuarded (stays e) g = rw e g
Step-IsGuarded {d} (arms id n now h e) g = rw e (arm-IsGuarded id d n now g h)
Step-IsGuarded {d} (moves id n source state ids now a e) g =
    rw e (transition-IsGuarded id n source state ids now d.send_attempts (Allowed-source a) g)
Step-IsGuarded {d} (relabels p f same e) g = rw e (relabel-IsGuarded p f d.send_attempts same g)
