-- ===== src/Slots/Capacity.antt =====
-- A claim keeps every slot within `maxConcurrent`.
use home_server_infra.Prelude.{
  ℕ, ◌≤◌, ◌<◌, String, Bool, true, false, none, some, ◌≡◌, arith, ◌⊎◌, inl, inr, Bool-cases,
  Option-cases, eq_iff, str_eq, subst,
}
use home_server_infra.Prelude.Text.{opt_eq, truthy}
use home_server_infra.Prelude.Rows.{count, update_where}
use home_server_infra.Prelude.Counting.{count-update_where-le, count-update_where-add, count-congr}
use home_server_infra.Prelude.Sorting.{IsOrder}
use home_server_infra.Shared.Types.{RequestRow, SlotConfig}
use home_server_infra.Database.Store.{Database}
use home_server_infra.Database.Requests.{count_active_for_slot, is_active_on}
use home_server_infra.Slots.Claim.{
  Pool, select_slot, claim_slot_for_request, is_claimable, take_slot,
}
use home_server_infra.Slots.Selection.{select_slot-IsBest}

active_count :
    (slot : String) (e : Database)
    → count_active_for_slot slot none e ≡ count (is_active_on slot) e.requests
unfolding count_active_for_slot truthy
active_count slot e = count-congr _ _ e.requests (λ r. ground arith)

module _ (locale_leb : String → String → Bool) (pool : Pool) (id : String) (now : ℕ)
    (d : Database) where
  abbrev after_claim : Database
  after_claim = (claim_slot_for_request locale_leb pool id now d).1

  -- A claim writes one row of `requests`, for the slot that was selected, or none.
  claim_rows :
      (selected : SlotConfig)
      → select_slot locale_leb d pool now ≡ some selected
      → (after_claim.requests ≡ d.requests)
        ⊎ ((count (is_claimable id) d.requests ≡ 1)
            × (after_claim.requests
                ≡ update_where (is_claimable id) (take_slot selected.id now) d.requests))
  unfolding claim_slot_for_request
  claim_rows selected e = ground (arith, e)

  claim_none : select_slot locale_leb d pool now ≡ none → after_claim.requests ≡ d.requests
  unfolding claim_slot_for_request
  claim_none e = ground (arith, e)

  -- A selected slot has room for one more.
  selected-room :
      (selected : SlotConfig)
      → IsOrder locale_leb
      → select_slot locale_leb d pool now ≡ some selected
      → count_active_for_slot selected.id none d < pool.max_concurrent
  selected-room selected o e =
      let best = select_slot-IsBest locale_leb d pool now selected o e in
      rw (best.same_id) best.eligible.has_room

  claimed_count :
      (selected : SlotConfig) (slot : String)
      → count (is_claimable id) d.requests ≡ 1
      → count (is_active_on selected.id) d.requests < pool.max_concurrent
      → count (is_active_on slot) d.requests ≤ pool.max_concurrent
      → count
          (is_active_on slot)
          (update_where (is_claimable id) (take_slot selected.id now) d.requests)
        ≤ pool.max_concurrent
  unfolding opt_eq
  claimed_count selected slot one room within =
      let claim = take_slot selected.id now in
      elim (Bool-cases (str_eq selected.id slot)) [
        | inl e ↦
            subst
              (λ s.
                count (is_active_on s) (update_where (is_claimable id) claim d.requests)
                ≤ pool.max_concurrent)
              ((eq_iff selected.id slot).0 e)
              (omega (
                arith,
                count-update_where-add (is_active_on selected.id) (is_claimable id) claim
                    d.requests,
              ))
        | inr e ↦ omega (
          arith,
          count-update_where-le (is_active_on slot) (is_claimable id) claim d.requests
              (λ r p q. other_slot r e q),
        )
      ]
    where
      other_slot :
          (r : RequestRow)
          → str_eq selected.id slot ≡ false
          → is_active_on slot (take_slot selected.id now r) ≡ true
          → is_active_on slot r ≡ true
      other_slot r e q = ground arith

-- If no slot has more active requests than `maxConcurrent`, none has after a claim, whether the
-- claim returns or throws.
pub claim_slot_for_request-capacity :
    (locale_leb : String → String → Bool) (pool : Pool) (id : String) (now : ℕ) (d : Database)
    → IsOrder locale_leb
    → ((slot : String) → count_active_for_slot slot none d ≤ pool.max_concurrent)
    → (slot : String)
    → count_active_for_slot slot none (claim_slot_for_request locale_leb pool id now d).1
      ≤ pool.max_concurrent
claim_slot_for_request-capacity locale_leb pool id now d o within slot =
    let after = (claim_slot_for_request locale_leb pool id now d).1 in
    let before = within slot in
    elim (Option-cases (select_slot locale_leb d pool now)) [
      | inl e ↦
          rw (active_count slot after, claim_none locale_leb pool id now d e, ← active_count slot d)
            before
      | inr (selected, e) ↦ elim (claim_rows locale_leb pool id now d selected e) [
        | inl same ↦ rw (active_count slot after, same, ← active_count slot d) before
        | inr (one, rows) ↦
            rw (active_count slot after, rows)
              (claimed_count locale_leb pool id now d selected slot one
                (rw (← active_count selected.id d)
                  (selected-room locale_leb pool id now d selected o e))
                (rw (← active_count slot d) before))
      ]
    ]
