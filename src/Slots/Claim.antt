-- ===== src/Slots/Claim.antt =====
-- `claimSlotForRequest`, `selectSlot` and the marks on a slot. `localeCompare` depends on the
-- runtime's locale data: `locale_leb a b` stands for `a.localeCompare(b) <= 0`.
use Prim.Native.String.{◌++◌}
use home_server_infra.Prelude.{
  ℕ, ◌+◌, String, Bool, true, false, ◌&&◌, ◌||◌, not, Option, none, some, List, ◌==◌, ltb, leb,
  str_eq, any, map, head?, is_some, if◌then◌else◌,
}
use home_server_infra.Prelude.Text.{truthy, opt_eq}
use home_server_infra.Prelude.Rows.{select_where, find_row, order_by}
use home_server_infra.Shared.Types.{
  RequestRow, RequestStatus, status_eq, SlotRow, SlotState, SlotConfig,
}
use home_server_infra.Shared.Failure.{error}
use home_server_infra.Database.Store.{
  Database, Tx, pure, query, check, require_some, immediate, ◌>>=◌, ◌>>◌,
}
use home_server_infra.Database.Requests.{get_request, has_id, changing, count_active_for_slot}
use home_server_infra.Database.Slots.{list_slots, changing_slot}
use home_server_infra.Slots.Usage.{
  provider_cooldown_ms, map_get, WeeklyLimits, limit_of, weekly_usage_for,
}

pub record Candidate : Type 0 where
  pub slot : SlotRow
  pub active : ℕ

-- `-Infinity` stands before every time, and its difference with itself is no order (`NaN || …`).
abbrev pub age_lt : Option ℕ → Option ℕ → Bool
age_lt none none = false
age_lt none (some t) = true
age_lt (some s) none = false
age_lt (some s) (some t) = ltb s t

abbrev pub age_eq : Option ℕ → Option ℕ → Bool
age_eq none none = true
age_eq (some s) (some t) = s == t
age_eq _ _ = false

abbrev pub is_due : SlotRow → ℕ → Bool
is_due s now = elim s.cooldown_until [ none ↦ false | some t ↦ leb t now ]

-- idle, or cooled down
abbrev is_usable_in : SlotState → Bool → Bool
is_usable_in SlotState.idle due = true
is_usable_in SlotState.provider_limit due = due
is_usable_in SlotState.needs_login due = false

abbrev pub is_usable : SlotRow → ℕ → Bool
is_usable s now = is_usable_in s.state (is_due s now)

-- What a claim depends on beside the database.
pub record Pool : Type 0 where
  pub config : List SlotConfig
  pub max_concurrent : ℕ
  pub excluded : List String
  pub weekly_limits : WeeklyLimits

-- `configured.get(id)`
abbrev pub configured : Pool → String → Option SlotConfig
configured pool id = map_get id (map (λ c. (c.id, c)) pool.config)

abbrev pub is_eligible : Database → Pool → ℕ → Candidate → Bool
is_eligible d pool now c =
    is_some (configured pool c.slot.id)
    && not (any (str_eq c.slot.id) pool.excluded)
    && ltb c.active pool.max_concurrent
    && is_usable c.slot now
    && not (weekly_usage_for d c.slot.id (limit_of pool.weekly_limits c.slot.id) now).exhausted

abbrev pub candidate : Database → SlotRow → Candidate
candidate d s = record { slot = s; active = count_active_for_slot s.id none d }

module _ (locale_leb : String → String → Bool) where
  -- the sign of the comparator of `eligible.sort`
  abbrev pub goes_before : Candidate → Candidate → Bool
  goes_before a b =
      ltb a.active b.active
      || (a.active == b.active
          && (age_lt a.slot.last_used_at b.slot.last_used_at
              || (age_eq a.slot.last_used_at b.slot.last_used_at
                  && locale_leb a.slot.id b.slot.id)))

  unfoldable pub best_candidate : Database → Pool → ℕ → Option Candidate
  best_candidate d pool now = head? (
      order_by goes_before
        (select_where (is_eligible d pool now) (map (candidate d) (list_slots d))))

  unfoldable pub select_slot : Database → Pool → ℕ → Option SlotConfig
  unfolding best_candidate
  select_slot d pool now = elim (best_candidate d pool now) [
    | none ↦ none
    | some c ↦ configured pool c.slot.id
  ]

pub record Claim : Type 0 where
  pub request : Option RequestRow
  pub slot : Option SlotConfig

-- WHERE id = ? AND status = 'staged' AND slot_id IS NULL
abbrev pub is_claimable : String → RequestRow → Bool
is_claimable id r =
    has_id id r && status_eq r.status RequestStatus.staged && not (is_some r.slot_id)

abbrev pub take_slot : String → ℕ → RequestRow → RequestRow
take_slot slot_id now r = record r { slot_id = some slot_id; updated_at = now }

abbrev claim_selected : String → ℕ → RequestRow → Option SlotConfig → Tx Claim
claim_selected request_id now request none = pure (record { request = some request; slot = none })
claim_selected request_id now request (some selected) = do
  changing_slot selected.id (λ s. record s { last_used_at = some now })
  changes ← changing (is_claimable request_id) (take_slot selected.id now)
  check (changes == 1) (error ("request " ++ request_id ++ " could not claim a slot"))
  request' ← get_request request_id
  pure (record { request = request'; slot = some selected })

unfoldable pub claim_slot_for_request : (String → String → Bool) → Pool → String → ℕ → Tx Claim
claim_slot_for_request locale_leb pool request_id now = immediate do
  found ← get_request request_id
  request ← require_some found (error ("unknown request " ++ request_id))
  if truthy request.slot_id
      then pure (record {
        request = some request;
        slot = find_row (λ (c : SlotConfig). opt_eq request.slot_id (some c.id)) pool.config;
      })
      else if not (status_eq request.status RequestStatus.staged)
      then pure (record { request = some request; slot = none })
      else do
        selected ← query λ d. select_slot locale_leb d pool now
        claim_selected request_id now request selected

unfoldable pub mark_slot_needs_login : String → Tx (Unit {0})
mark_slot_needs_login id =
    changing_slot id (λ s. record s { state = SlotState.needs_login; cooldown_until = none })

unfoldable pub mark_slot_provider_limit : String → ℕ → Tx ℕ
mark_slot_provider_limit id now = do
  changing_slot id λ s. record s {
    state = SlotState.provider_limit;
    cooldown_until = some (now + provider_cooldown_ms);
  }
  pure (now + provider_cooldown_ms)

unfoldable pub mark_slot_idle : String → Tx (Unit {0})
mark_slot_idle id =
    changing_slot id (λ s. record s { state = SlotState.idle; cooldown_until = none })
