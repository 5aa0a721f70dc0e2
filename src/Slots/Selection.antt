-- ===== src/Slots/Selection.antt =====
-- Which slot `selectSlot` of stacks/gpt-webai-pro/src/supervisor/slots.ts picks.
use mathlib.Core.List.{Memᴰ}
use mathlib.Core.List.Memᴰ
use home_server_infra.Prelude.{
  ℕ, String, Bool, true, none, some, List, map, ◌≡◌, sym, ap, ◌∙◌, arith, inl, inr, Option-cases,
  ◌↔◌, subst, is_some,
}
use home_server_infra.Prelude.Rows.{select_where, order_by}
use home_server_infra.Prelude.Sorting.{IsOrder, head-order_by}
use home_server_infra.Prelude.Members.{
  mem-select_where, mem-of-select_where, mem-order_by, mem-of-order_by, mem-of-head,
  not-mem-of-none, mem-of-count,
}
use home_server_infra.Shared.Types.{SlotRow, SlotConfig}
use home_server_infra.Database.Store.{Database}
use home_server_infra.Database.Slots.{list_slots}
use home_server_infra.Slots.Claim.{
  Candidate, Pool, candidate, is_eligible, goes_before, best_candidate, select_slot, configured,
}
use home_server_infra.Slots.Eligible.{
  IsEligible, IsEligible-of-is_eligible, is_eligible-of-IsEligible, IsAhead, goes_before-IsAhead,
  map_get-Memᴰ,
}

goes_before-IsOrder :
    {locale_leb : String → String → Bool} → IsOrder locale_leb → IsOrder (goes_before locale_leb)
goes_before-IsOrder {locale_leb} o = record {
  total = λ a b. ground (arith, o.total a.slot.id b.slot.id);
  trans = λ a b c h k. ground (arith, o.trans a.slot.id b.slot.id c.slot.id);
}

-- A row of the table that may be taken, ahead of which no other row that may be taken stands; and
-- its configuration is one of the pool's.
pub record IsBest (locale_leb : String → String → Bool) (d : Database) (pool : Pool) (now : ℕ)
    (config : SlotConfig) : Type 0 where
  pub row : SlotRow
  pub in_table : Memᴰ row d.slots
  pub in_pool : Memᴰ config pool.config
  pub same_id : config.id ≡ row.id
  pub eligible : IsEligible d pool now row
  pub foremost :
      (r : SlotRow) → Memᴰ r d.slots → IsEligible d pool now r → IsAhead locale_leb d row r

module _ (locale_leb : String → String → Bool) (d : Database) (pool : Pool) (now : ℕ) where
  abbrev eligible_candidates : List Candidate
  eligible_candidates = select_where (is_eligible d pool now) (map (candidate d) (list_slots d))

  -- An eligible row of the table is one of the candidates, and a candidate is such a row.
  is_candidate :
      (r : SlotRow)
      → Memᴰ r d.slots
      → IsEligible d pool now r
      → Memᴰ (candidate d r) eligible_candidates
  unfolding list_slots
  is_candidate r m h =
      mem-select_where (is_eligible d pool now) (map (candidate d) (list_slots d))
        (Memᴰ.map (candidate d) (mem-order_by _ d.slots m))
        (is_eligible-of-IsEligible d pool now r h)

  row_of_candidate :
      (c : Candidate)
      → Memᴰ c eligible_candidates
      → (s : SlotRow) × Memᴰ s d.slots × (candidate d s ≡ c) × IsEligible d pool now s
  unfolding list_slots
  row_of_candidate c m =
      let (listed, h) =
        mem-of-select_where (is_eligible d pool now) (map (candidate d) (list_slots d)) m in
      let (s, there, same) = Memᴰ.of_map (candidate d) (list_slots d) listed in
      (
        s,
        mem-of-order_by _ d.slots there,
        same,
        IsEligible-of-is_eligible d pool now s
            (subst (λ x. is_eligible d pool now x ≡ true) (sym same) h),
      )

  best_candidate-IsBest :
      (c : Candidate) (config : SlotConfig)
      → IsOrder locale_leb
      → best_candidate locale_leb d pool now ≡ some c
      → configured pool c.slot.id ≡ some config
      → IsBest locale_leb d pool now config
  unfolding best_candidate
  best_candidate-IsBest c config o e found =
      let (s, there, same, eligible) =
        row_of_candidate c (mem-of-order_by _ eligible_candidates (mem-of-head _ e)) in
      let (in_pool, id) = map_get-Memᴰ c.slot.id pool.config config found in
      let first = head-order_by (goes_before-IsOrder o) eligible_candidates e in
      record {
        row = s;
        in_table = there;
        in_pool = in_pool;
        same_id = id ∙ ap (λ (x : Candidate). x.slot.id) (sym same);
        eligible = eligible;
        foremost = λ r m h. goes_before-IsAhead locale_leb d s r (
            subst (λ x. goes_before locale_leb x (candidate d r) ≡ true) (sym same)
              (mem-of-count (goes_before locale_leb c) eligible_candidates first
                (is_candidate r m h)));
      }

  no_candidate :
      best_candidate locale_leb d pool now ≡ none
      → (r : SlotRow) → Memᴰ r d.slots
      → IsEligible d pool now r
      → ⊥
  unfolding best_candidate
  no_candidate e r m h =
      not-mem-of-none (order_by (goes_before locale_leb) eligible_candidates) e
        (mem-order_by _ eligible_candidates (is_candidate r m h))

  configured_candidate :
      (c : Candidate)
      → best_candidate locale_leb d pool now ≡ some c
      → is_some (configured pool c.slot.id) ≡ true
  unfolding best_candidate
  configured_candidate c e =
      let (listed, h) =
        mem-of-select_where (is_eligible d pool now) (map (candidate d) (list_slots d))
          (mem-of-order_by (goes_before locale_leb) eligible_candidates (mem-of-head _ e)) in
      ground (arith, h)

some_row :
    (locale_leb : String → String → Bool) (d : Database) (pool : Pool) (now : ℕ) (c : Candidate)
    → best_candidate locale_leb d pool now ≡ some c
    → ((r : SlotRow) → Memᴰ r d.slots → IsEligible d pool now r → ⊥)
    → ⊥
unfolding best_candidate
some_row locale_leb d pool now c e h =
    let (s, there, _, eligible) = row_of_candidate locale_leb d pool now c (
      mem-of-order_by (goes_before locale_leb) (eligible_candidates locale_leb d pool now)
        (mem-of-head _ e)) in
    h s there eligible

-- The slot that is selected stands in the table and in the configuration: it is configured, was not
-- tried yet, has room for one more request, is idle or has cooled down, and its account is below its
-- weekly limit; and each other such slot has more active requests, or as many and was used later, or
-- at the same time and does not come before it by name.
pub select_slot-IsBest :
    (locale_leb : String → String → Bool) (d : Database) (pool : Pool) (now : ℕ)
    (config : SlotConfig)
    → IsOrder locale_leb
    → select_slot locale_leb d pool now ≡ some config
    → IsBest locale_leb d pool now config
unfolding select_slot
select_slot-IsBest locale_leb d pool now config o e =
    elim (Option-cases (best_candidate locale_leb d pool now)) [
      | inl missing ↦ absurd (ground arith)
      | inr (c, best) ↦ best_candidate-IsBest locale_leb d pool now c config o best (ground arith)
    ]

-- No slot is selected exactly where no slot of the table is configured, was not tried yet, has room
-- for one more request, is idle or has cooled down, and is below its weekly limit, all at once.
pub select_slot-eq-none :
    (locale_leb : String → String → Bool) (d : Database) (pool : Pool) (now : ℕ)
    → (select_slot locale_leb d pool now ≡ none)
      ↔ ((r : SlotRow) → Memᴰ r d.slots → IsEligible d pool now r → ⊥)
unfolding select_slot
select_slot-eq-none locale_leb d pool now = (
  λ e. elim (Option-cases (best_candidate locale_leb d pool now)) [
    | inl missing ↦ no_candidate locale_leb d pool now missing
    | inr (c, best) ↦ absurd (ground (arith, configured_candidate locale_leb d pool now c best))
  ],
  λ h. elim (Option-cases (best_candidate locale_leb d pool now)) [
    | inl missing ↦ ground arith
    | inr (c, best) ↦ absurd (some_row locale_leb d pool now c best h)
  ],
)
