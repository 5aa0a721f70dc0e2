-- ===== src/Slots/Eligible.antt =====
-- Which slots a request may take, and which of two it takes first, as `selectSlot` in
-- stacks/gpt-webai-pro/src/supervisor/slots.ts means it.
use mathlib.Core.List.{Memᴰ}
use mathlib.Core.List.Memᴰ
use home_server_infra.Prelude.{
  ℕ, ◌-◌, ◌≤◌, ◌<◌, ltb, ◌&&◌, ◌||◌, String, Bool, true, false, any, Option, none, some, List, [],
  ◌∷◌, map, All, is_some, str_eq, ◌≡◌, ◌≢◌, refl, sym, ap, ◌∙◌, arith, ◌⊎◌, inl, inr, Bool-cases,
  Option-cases, eq_iff, subst,
}
use home_server_infra.Shared.Types.{SlotRow, SlotConfig, SlotState}
use home_server_infra.Database.Store.{Database}
use home_server_infra.Database.Requests.{count_active_for_slot}
use home_server_infra.Database.Usage.{count_usage_since}
use home_server_infra.Slots.Usage.{map_get, limit_of, week_ms, weekly_usage_for}
use home_server_infra.Slots.Claim.{
  Pool, candidate, is_eligible, is_usable, configured, goes_before, age_lt, age_eq,
}

-- A configured slot that was not tried yet, has room for one more request, is idle or has cooled
-- down, and whose account is below its weekly limit, if it has one.
pub record IsEligible (d : Database) (pool : Pool) (now : ℕ) (s : SlotRow) : Type 0 where
  pub configuration : (c : SlotConfig) × Memᴰ c pool.config × (c.id ≡ s.id)
  pub untried : All (λ id. s.id ≢ id) pool.excluded
  pub has_room : count_active_for_slot s.id none d < pool.max_concurrent
  pub usable :
      (s.state ≡ SlotState.idle)
      ⊎ ((s.state ≡ SlotState.provider_limit)
          × (until : ℕ) × (s.cooldown_until ≡ some until)
          × (until ≤ now))
  pub below_limit :
      (limit : ℕ)
      → limit_of pool.weekly_limits s.id ≡ some limit
      → count_usage_since s.id (now - week_ms) d < limit

pub map_get-Memᴰ :
    (id : String) (configs : List SlotConfig) (config : SlotConfig)
    → map_get id (map (λ (c : SlotConfig). (c.id, c)) configs) ≡ some config
    → Memᴰ config configs × (config.id ≡ id)
unfolding map_get
map_get-Memᴰ id [] config e = absurd (cc)
map_get-Memᴰ id (c ∷ cs) config e =
    elim (Option-cases (map_get id (map (λ (c : SlotConfig). (c.id, c)) cs))) [
      | inl none_later ↦ elim (Bool-cases (str_eq c.id id)) [
        | inl same ↦
            let this : c ≡ config = ground arith in
            (
              Memᴰ.head (sym this),
              subst (λ (k : SlotConfig). k.id ≡ id) this ((eq_iff c.id id).0 same),
            )
        | inr other ↦ absurd (ground arith)
      ]
      | inr (last, later) ↦
          let same : last ≡ config = ground arith in
          let (m, h) = map_get-Memᴰ id cs last later in
          (Memᴰ.tail (Memᴰ.cast (sym same) m), subst (λ (k : SlotConfig). k.id ≡ id) same h)
    ]

configured-of-Memᴰ :
    (id : String) (configs : List SlotConfig) (c : SlotConfig)
    → Memᴰ c configs
    → c.id ≡ id
    → is_some (map_get id (map (λ (c : SlotConfig). (c.id, c)) configs)) ≡ true
unfolding map_get
configured-of-Memᴰ id [] c m e = absurd (Memᴰ.not-nil m)
configured-of-Memᴰ id (k ∷ ks) c (Memᴰ.head same) e =
    let here : k.id ≡ id = ap (λ (x : SlotConfig). x.id) (sym same) ∙ e in
    ground (arith, eq_iff k.id id)
configured-of-Memᴰ id (k ∷ ks) c (Memᴰ.tail m) e = ground (arith, configured-of-Memᴰ id ks c m e)

none_excluded :
    (id : String) (ids : List String) → any (str_eq id) ids ≡ false → All (λ x. id ≢ x) ids
none_excluded id [] e = tt
none_excluded id (x ∷ xs) e =
    (λ same. absurd (ground (arith, eq_iff id x)), none_excluded id xs (ground arith))

any-of-All : (id : String) (ids : List String) → All (λ x. id ≢ x) ids → any (str_eq id) ids ≡ false
any-of-All id [] a = refl
any-of-All id (x ∷ xs) a = elim (Bool-cases (str_eq id x)) [
  | inl same ↦ absurd (a.0 ((eq_iff id x).0 same))
  | inr other ↦ ground (arith, any-of-All id xs a.1)
]

module _ (d : Database) (pool : Pool) (now : ℕ) (s : SlotRow) where
  usable_row :
      is_usable s now ≡ true
      → (s.state ≡ SlotState.idle)
        ⊎ ((s.state ≡ SlotState.provider_limit)
            × (until : ℕ) × (s.cooldown_until ≡ some until)
            × (until ≤ now))
  usable_row e = by_state s.state refl (Option-cases s.cooldown_until)
    where
      by_state :
          (state : SlotState)
          → s.state ≡ state
          → (s.cooldown_until ≡ none) ⊎ ((until : ℕ) × (s.cooldown_until ≡ some until))
          → (s.state ≡ SlotState.idle)
            ⊎ ((s.state ≡ SlotState.provider_limit)
                × (until : ℕ) × (s.cooldown_until ≡ some until)
                × (until ≤ now))
      by_state SlotState.idle here c = inl here
      by_state SlotState.provider_limit here (inl absent) = absurd (ground (arith, e, here, absent))
      by_state SlotState.provider_limit here (inr (until, set)) =
          inr (here, until, set, ground (arith, e, here, set))
      by_state SlotState.needs_login here c = absurd (ground (arith, e, here))

  below :
      (weekly_usage_for d s.id (limit_of pool.weekly_limits s.id) now).exhausted ≡ false
      → (limit : ℕ) → limit_of pool.weekly_limits s.id ≡ some limit
      → count_usage_since s.id (now - week_ms) d < limit
  unfolding weekly_usage_for
  below e limit l = ground (arith, e, l)

  pub IsEligible-of-is_eligible :
      is_eligible d pool now (candidate d s) ≡ true → IsEligible d pool now s
  IsEligible-of-is_eligible e = elim (Option-cases (configured pool s.id)) [
    | inl absent ↦ absurd (ground (arith, absent))
    | inr (c, found) ↦ record {
      configuration = let (m, h) = map_get-Memᴰ s.id pool.config c found in (c, m, h);
      untried = none_excluded s.id pool.excluded (ground arith);
      has_room = ground arith;
      usable = usable_row (ground arith);
      below_limit = below (ground arith);
    }
  ]

  usable_of :
      (s.state ≡ SlotState.idle)
        ⊎ ((s.state ≡ SlotState.provider_limit)
            × (until : ℕ) × (s.cooldown_until ≡ some until)
            × (until ≤ now))
      → is_usable s now ≡ true
  usable_of (inl idle) = rw idle refl
  usable_of (inr (limited, until, set, past)) = rw (limited, set) (ground arith)

  not_exhausted :
      ((limit : ℕ)
        → limit_of pool.weekly_limits s.id ≡ some limit
        → count_usage_since s.id (now - week_ms) d < limit)
      → (weekly_usage_for d s.id (limit_of pool.weekly_limits s.id) now).exhausted ≡ false
  unfolding weekly_usage_for
  not_exhausted h = elim (Option-cases (limit_of pool.weekly_limits s.id)) [
    | inl none_set ↦ rw none_set refl
    | inr (limit, set) ↦ rw set (ground (arith, h limit set))
  ]

  pub is_eligible-of-IsEligible :
      IsEligible d pool now s → is_eligible d pool now (candidate d s) ≡ true
  is_eligible-of-IsEligible h =
      let (c, m, same) = h.configuration in
      ground (
        arith,
        configured-of-Memᴰ s.id pool.config c m same,
        any-of-All s.id pool.excluded h.untried,
        h.has_room,
        usable_of h.usable,
        not_exhausted h.below_limit,
      )

-- Used longer ago, where one that was never used comes first.
abbrev pub IsOlder : Option ℕ → Option ℕ → Type 0
IsOlder none none = ⊥
IsOlder none (some t) = Unit
IsOlder (some u) none = ⊥
IsOlder (some u) (some t) = u < t

-- The slot with fewer active requests first, then the one that was used longer ago, then by name.
abbrev pub IsAhead : (String → String → Bool) → Database → SlotRow → SlotRow → Type 0
IsAhead locale_leb d s r =
    let left = count_active_for_slot s.id none d in
    let right = count_active_for_slot r.id none d in
    (left < right)
    ⊎ ((left ≡ right)
        × (IsOlder s.last_used_at r.last_used_at
            ⊎ ((s.last_used_at ≡ r.last_used_at) × (locale_leb s.id r.id ≡ true))))

ahead_by_age :
    (a b : Option ℕ) (named : Bool)
    → (age_lt a b || (age_eq a b && named)) ≡ true
    → IsOlder a b ⊎ ((a ≡ b) × (named ≡ true))
ahead_by_age none none named e = inr (refl, e)
ahead_by_age none (some t) named e = inl tt
ahead_by_age (some u) none named e = absurd (cc)
ahead_by_age (some u) (some t) named e = elim (Bool-cases (ltb u t)) [
  | inl less ↦ inl (ground arith)
  | inr other ↦ inr (ap some (ground arith), ground arith)
]

pub goes_before-IsAhead :
    (locale_leb : String → String → Bool) (d : Database) (s r : SlotRow)
    → goes_before locale_leb (candidate d s) (candidate d r) ≡ true
    → IsAhead locale_leb d s r
goes_before-IsAhead locale_leb d s r e =
    elim (Bool-cases
      (ltb (count_active_for_slot s.id none d) (count_active_for_slot r.id none d))) [
        | inl less ↦ inl (ground arith)
        | inr other ↦ inr (
          ground arith,
          ahead_by_age s.last_used_at r.last_used_at (locale_leb s.id r.id) (ground arith),
        )
      ]
