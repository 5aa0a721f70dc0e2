-- ===== src/Slots/Window.antt =====
-- The seven-day window of `weeklyUsageFor`.
use home_server_infra.Prelude.{
  ℕ, ◌+◌, ◌-◌, ◌≤◌, ◌<◌, String, true, ◌&&◌, not, none, some, List, [], ◌∷◌, leb, ltb, ◌≡◌, refl,
  arith, inl, inr, Bool-cases, Option-cases, ◌==◌,
}
use home_server_infra.Prelude.Rows.{count, select_where}
use home_server_infra.Prelude.Counting.{
  count-congr, count_mono, count-none, count-split, count-select_where,
}
use home_server_infra.Shared.Types.{UsageEventRow}
use home_server_infra.Database.Store.{Database}
use home_server_infra.Database.Usage.{
  is_use_since, count_usage_since, oldest_usage_since, min_sent_at,
}
use home_server_infra.Slots.Usage.{week_ms, weekly_usage_for}

min-none : (us : List UsageEventRow) → min_sent_at us ≡ none → us ≡ []
unfolding min_sent_at
min-none [] e = refl
min-none (u ∷ us) e = ground arith

-- `MIN(sent_at)` is a lower bound …
min-lower :
    (us : List UsageEventRow) (t : ℕ)
    → min_sent_at us ≡ some t
    → count (λ u. ltb u.sent_at t) us ≡ 0
unfolding min_sent_at count
min-lower [] t e = refl
min-lower (u ∷ us) t e = elim (Option-cases (min_sent_at us)) [
  | inl none_left ↦ rw (min-none us none_left) (ground (arith, none_left))
  | inr (m, some_left) ↦ ground (
    arith,
    some_left,
    min-lower us m some_left,
    count_mono (λ v. ltb v.sent_at t) (λ v. ltb v.sent_at m) us (λ v h. ground (arith, some_left)),
  )
]

-- … that some row meets.
min-met :
    (us : List UsageEventRow) (t : ℕ) → min_sent_at us ≡ some t → 0 < count (λ u. u.sent_at == t) us
unfolding min_sent_at count
min-met [] t e = absurd (cc)
min-met (u ∷ us) t e = elim (Option-cases (min_sent_at us)) [
  | inl none_left ↦ ground (arith, none_left)
  | inr (m, some_left) ↦ ground (arith, some_left, min-met us m some_left)
]

module _ (d : Database) (slot_id : String) (since t : ℕ) where
  -- Its time is one of the window's.
  oldest_found :
      oldest_usage_since slot_id since d ≡ some t
      → 0 < count (λ u. is_use_since slot_id since u && u.sent_at == t) d.usage_events
  unfolding oldest_usage_since
  oldest_found e =
      rw (← count-select_where (λ u. u.sent_at == t) (is_use_since slot_id since) d.usage_events)
        (min-met (select_where (is_use_since slot_id since) d.usage_events) t e)

  oldest-ge : oldest_usage_since slot_id since d ≡ some t → since ≤ t
  oldest-ge e = elim (Bool-cases (leb since t)) [
    | inl h ↦ ground arith
    | inr h ↦ absurd (
        omega (
          arith,
          oldest_found e,
          count-none (λ u. is_use_since slot_id since u && u.sent_at == t) d.usage_events
              (λ u. ground arith),
        ))
  ]

  -- The rows of the window are those since its oldest row.
  oldest-window :
      oldest_usage_since slot_id since d ≡ some t
      → count_usage_since slot_id t d ≡ count_usage_since slot_id since d
  unfolding oldest_usage_since count_usage_since
  oldest-window e =
      let in_window = is_use_since slot_id since in
      let below = oldest-ge e in
      omega (
        arith,
        count-split (λ u. ltb u.sent_at t) in_window d.usage_events,
        count-select_where (λ u. ltb u.sent_at t) in_window d.usage_events,
        min-lower (select_where in_window d.usage_events) t e,
        count-congr (λ u. in_window u && not (ltb u.sent_at t)) (is_use_since slot_id t)
            d.usage_events (λ u. ground arith),
      )

  -- A window that begins after it is smaller.
  oldest-drops :
      oldest_usage_since slot_id since d ≡ some t
      → count_usage_since slot_id (t + 1) d < count_usage_since slot_id t d
  unfolding count_usage_since
  oldest-drops e =
      let here = is_use_since slot_id t in
      let below = oldest-ge e in
      omega (
        arith,
        oldest_found e,
        count-split (λ u. u.sent_at == t) here d.usage_events,
        count_mono (λ u. is_use_since slot_id since u && u.sent_at == t)
            (λ u. here u && u.sent_at == t) d.usage_events (λ u h. ground arith),
        count_mono (is_use_since slot_id (t + 1)) (λ u. here u && not (u.sent_at == t))
            d.usage_events (λ u h. ground arith),
      )

-- An account that has reached its limit at `now` and resets at `r` is still at its limit at `r`,
-- with as many sends in the window, and has fewer a millisecond later, if it sends nothing.
pub weekly_usage_for-reset :
    (d : Database) (slot_id : String) (limit now r : ℕ)
    → (weekly_usage_for d slot_id (some limit) now).reset_at ≡ some r
    → ((weekly_usage_for d slot_id (some limit) r).used
        ≡ (weekly_usage_for d slot_id (some limit) now).used)
      × ((weekly_usage_for d slot_id (some limit) r).exhausted ≡ true)
      × ((weekly_usage_for d slot_id (some limit) (r + 1)).used
          < (weekly_usage_for d slot_id (some limit) now).used)
      × (now ≤ r)
unfolding weekly_usage_for
weekly_usage_for-reset d slot_id limit now r e =
    let since = now - week_ms in
    elim (Option-cases (oldest_usage_since slot_id since d)) [
      | inl missing ↦ absurd (ground (arith, missing))
      | inr (t, oldest) ↦
          let reset : r ≡ t + week_ms = ground (arith, oldest) in
          let reached : leb limit (count_usage_since slot_id since d) ≡ true =
            ground (arith, oldest) in
          let back : r - week_ms ≡ t = omega arith in
          let next : r + 1 - week_ms ≡ t + 1 = omega arith in
          let same = oldest-window d slot_id since t oldest in
          (
            rw back same,
            rw (back, same) reached,
            rw next (omega (arith, same, oldest-drops d slot_id since t oldest)),
            omega (arith, oldest-ge d slot_id since t oldest),
          )
    ]
