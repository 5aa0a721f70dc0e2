-- ===== src/Slots/Usage.antt =====
-- The weekly limits of the accounts: `resolveWeeklyLimits` and `weeklyUsageFor`.
use home_server_infra.Prelude.{
  ℕ, ◌+◌, ◌-◌, String, Bool, false, Option, none, some, List, [], ◌∷◌, map, leb, str_eq,
  if◌then◌else◌,
}
use home_server_infra.Shared.Types.{SlotsConfig}
use home_server_infra.Database.Store.{Database}
use home_server_infra.Database.Usage.{count_usage_since, oldest_usage_since}

abbrev pub provider_cooldown_ms : ℕ
provider_cooldown_ms = 180000

abbrev pub week_ms : ℕ
week_ms = 604800000

pub record WeeklyUsage : Type 0 where
  pub used : ℕ
  pub limit : Option ℕ
  pub reset_at : Option ℕ
  pub exhausted : Bool

-- `a ?? b`
abbrev pub coalesce {ℓ} : {A : Type ℓ} → Option A → Option A → Option A
coalesce none b = b
coalesce (some a) b = some a

-- A `Map` as its entries in order of insertion: of two entries for a key the later one holds.
unfoldable pub map_get : {V : Type 0} → String → List (String × V) → Option V
map_get key [] = none
map_get key ((k, v) ∷ entries) =
    coalesce (map_get key entries) (if str_eq k key then some v else none)

abbrev pub WeeklyLimits : Type 0
WeeklyLimits = List (String × Option ℕ)

unfoldable pub resolve_weekly_limits : SlotsConfig → WeeklyLimits
resolve_weekly_limits config =
    map (λ s. (s.id, coalesce s.weekly_limit config.weekly_limit)) config.slots

-- `weeklyLimits.get(id) ?? null`
abbrev pub limit_of : WeeklyLimits → String → Option ℕ
limit_of limits id = elim (map_get id limits) [ none ↦ none | some limit ↦ limit ]

abbrev is_reached : Option ℕ → ℕ → Bool
is_reached none used = false
is_reached (some limit) used = leb limit used

abbrev plus_week : Option ℕ → Option ℕ
plus_week none = none
plus_week (some t) = some (t + week_ms)

-- No event is older than time 0, so a window that begins before it holds all of them, as does one
-- that begins at 0: the truncated difference serves.
unfoldable pub weekly_usage_for : Database → String → Option ℕ → ℕ → WeeklyUsage
weekly_usage_for d slot_id limit now =
    let since = now - week_ms in
    let used = count_usage_since slot_id since d in
    let exhausted = is_reached limit used in
    record {
      used = used;
      limit = limit;
      reset_at = plus_week (if exhausted then oldest_usage_since slot_id since d else none);
      exhausted = exhausted;
    }
