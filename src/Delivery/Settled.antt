-- ===== src/Delivery/Settled.antt =====
-- An outcome that is known stays known.
use home_server_infra.Prelude.{
  ℕ, ◌≤◌, ◌<◌, String, Bool, true, false, ◌&&◌, ◌||◌, List, [], ◌∷◌, ◌≡◌, refl, arith,
}
use home_server_infra.Prelude.Rows.{count}
use home_server_infra.Prelude.Rows.{count-append}
use home_server_infra.Prelude.Counting.{count-update_where, count-update_where-ge}
use home_server_infra.Shared.Types.{SendAttemptRow, SendAttemptState, attempt_eq}
use home_server_infra.Database.Store.{Database}
use home_server_infra.Database.Attempts.{
  of_request, is_attempt, is_attempt_in, set_attempt, is_landed, TurnIds, new_attempt,
}
use home_server_infra.Delivery.Anchor.{StoredSendAnchor}
use home_server_infra.Delivery.Machine.{
  Step, stays, arms, moves, relabels, Allowed, confirms, disproves, loses, reconciles, clears,
  IsLabelling,
}
use home_server_infra.Delivery.Calls.{Call, perform, history}
use home_server_infra.Delivery.Exclusive.{perform-Step}

-- confirmed, reconciled or proved unsent
abbrev pub is_settled : SendAttemptState → Bool
is_settled s = is_landed s || attempt_eq s SendAttemptState.no_send_proven

-- attempt `n` of request `id`, in state `t`
abbrev pub is_attempt_as : String → ℕ → SendAttemptState → SendAttemptRow → Bool
is_attempt_as id n t a = is_attempt id n a && attempt_eq a.state t

-- an attempt of the request that reached the provider for certain
abbrev pub has_landed : String → SendAttemptRow → Bool
has_landed id a = of_request id a && is_landed a.state

Allowed-unsettled : {s t : SendAttemptState} → Allowed s t → is_settled s ≡ false
Allowed-unsettled confirms = refl
Allowed-unsettled disproves = refl
Allowed-unsettled loses = refl
Allowed-unsettled reconciles = refl
Allowed-unsettled clears = refl

-- A test of settled rows, by what a labelling keeps.
module _ (q : SendAttemptRow → Bool)
    (settled : (a : SendAttemptRow) → q a ≡ true → is_settled a.state ≡ true)
    (labels : (f : SendAttemptRow → SendAttemptRow)
      → IsLabelling f
      → (a : SendAttemptRow) → q (f a) ≡ q a) where
  moves-keeps :
      (id : String) (n : ℕ) (source state : SendAttemptState) (ids : TurnIds) (now : ℕ)
      (a : SendAttemptRow)
      → Allowed source state
      → is_attempt_in id n (source ∷ []) a ≡ true
      → q a ≡ true
      → q (set_attempt state ids now a) ≡ true
  moves-keeps id n source state ids now a m p h =
      absurd (ground (arith, settled a h, Allowed-unsettled m))

  Step-keeps :
      {d : Database} {rows : List SendAttemptRow}
      → Step d rows
      → count q d.send_attempts ≤ count q rows
  Step-keeps {d} (stays e) = rw e (omega arith)
  Step-keeps {d} (arms id n now h e) =
      rw e (omega (arith, count-append q d.send_attempts (new_attempt id n now ∷ [])))
  Step-keeps {d} (moves id n source state ids now m e) =
      rw e (
        count-update_where-ge q _ _ d.send_attempts
          (λ a. moves-keeps id n source state ids now a m))
  Step-keeps {d} (relabels p f same e) =
      rw e (omega (arith, count-update_where q p f d.send_attempts (labels f same)))

  history-keeps :
      (locale_leb : String → String → Bool) (stringify : StoredSendAnchor → String) (cs : List Call)
      (d : Database)
      → count q d.send_attempts ≤ count q (history locale_leb stringify cs d).send_attempts
  unfolding history
  history-keeps locale_leb stringify [] d = omega arith
  history-keeps locale_leb stringify (c ∷ cs) d =
      let next = perform locale_leb stringify c d in
      omega (
        arith,
        Step-keeps (perform-Step locale_leb stringify c d),
        history-keeps locale_leb stringify cs next,
      )

-- Once an attempt is confirmed, reconciled or proved unsent, no later history of transactions takes
-- that state from it.
pub history-settled :
    (locale_leb : String → String → Bool) (stringify : StoredSendAnchor → String) (cs : List Call)
    (d : Database) (id : String) (n : ℕ) (t : SendAttemptState)
    → is_settled t ≡ true
    → 0 < count (is_attempt_as id n t) d.send_attempts
    → 0 < count (is_attempt_as id n t) (history locale_leb stringify cs d).send_attempts
history-settled locale_leb stringify cs d id n t s h = omega (
  arith,
  history-keeps (is_attempt_as id n t) (λ a k. ground arith) (λ f same a. ground (arith, same a))
      locale_leb stringify cs d,
)

pub Step-landed :
    (id : String) (d : Database) (rows : List SendAttemptRow)
    → Step d rows
    → count (has_landed id) d.send_attempts ≤ count (has_landed id) rows
Step-landed id d rows st =
    Step-keeps (has_landed id) (λ a k. ground arith) (λ f same a. ground (arith, same a)) st
