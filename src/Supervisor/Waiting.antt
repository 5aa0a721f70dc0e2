-- ===== src/Supervisor/Waiting.antt =====
-- What a request without a slot waits for and when an uncertain one is tried again at once, from
-- `Supervisor.continueOwned`, and the report of
-- `Supervisor.status`: stacks/gpt-webai-pro/src/supervisor/run.ts.
use Prim.Native.String.{◌++◌}
use home_server_infra.Prelude.{
  ℕ, ◌+◌, ◌*◌, ltb, ◌-◌, ◌/◌, min, String, Bool, true, false, ◌&&◌, ◌||◌, not, Option, none, some,
  List, [], ◌∷◌, any, all, map, leb, length, str_eq, if◌then◌else◌,
}
use home_server_infra.Prelude.Text.{opt_eq}
use home_server_infra.Prelude.Rows.{select_where}
use home_server_infra.Shared.Types.{
  SlotRow, SlotState, SlotsConfig, RequestRow, RequestStatus, status_eq,
}
use home_server_infra.Database.Store.{Database}
use home_server_infra.Database.Requests.{count_active_for_slot, list_nonterminal_requests}
use home_server_infra.Database.Slots.{list_slots}
use home_server_infra.Slots.Usage.{
  WeeklyUsage, WeeklyLimits, limit_of, weekly_usage_for, resolve_weekly_limits,
}
use home_server_infra.Slots.Claim.{is_usable}

abbrev is_limited : SlotRow → Bool
is_limited s = elim s.state [
  | SlotState.idle ↦ false
  | SlotState.needs_login ↦ false
  | SlotState.provider_limit ↦ true
]

abbrev is_logged_out : SlotRow → Bool
is_logged_out s = elim s.state [
  | SlotState.idle ↦ false
  | SlotState.needs_login ↦ true
  | SlotState.provider_limit ↦ false
]

-- a recovering envelope's kind and message, or the end of the request for want of a login
pub data Waiting : Type 0 where
  recovers : String → String → Waiting
  ends_logged_out : Waiting

-- the earliest of the times that are there
abbrev earliest : List WeeklyUsage → Option ℕ
earliest [] = none
earliest (u ∷ us) = elim u.reset_at [
  | none ↦ earliest us
  | some t ↦ elim (earliest us) [ none ↦ some t | some t' ↦ some (min t t') ]
]

module _ (to_iso : ℕ → String) (max_concurrent : ℕ) (tried : List String) (limits : WeeklyLimits)
    (saw_provider_limit saw_login : Bool) (now : ℕ) (d : Database) where
  abbrev pub is_capacity_blocked : Bool
  is_capacity_blocked =
      any (λ s. is_usable s now && leb max_concurrent (count_active_for_slot s.id none d))
        (list_slots d)

  abbrev usages : List WeeklyUsage
  usages =
      map (λ (s : SlotRow). weekly_usage_for d s.id (limit_of limits s.id) now)
        (select_where (λ (s : SlotRow). not (any (str_eq s.id) tried) && is_usable s now)
          (list_slots d))

  abbrev when : String
  when = elim (earliest usages) [ none ↦ "unknown" | some t ↦ to_iso t ]

  unfoldable pub waiting : Waiting
  waiting =
      if leb 1 (length usages)
        && all (λ (u : WeeklyUsage). u.exhausted) usages
        && not is_capacity_blocked
      then recovers "weekly_limit"
          ("all usable accounts reached the weekly limit; earliest reset at " ++ when)
      else if (saw_provider_limit || any is_limited (list_slots d)) && not is_capacity_blocked
      then recovers "provider_limit" "all currently usable accounts are cooling down"
      else if saw_login && all is_logged_out (list_slots d)
      then ends_logged_out
      else recovers "pool_busy" "no idle slot is currently available"

-- TERMINAL_STATUSES
abbrev pub is_terminal_status : RequestStatus → Bool
is_terminal_status RequestStatus.complete = true
is_terminal_status RequestStatus.needs_user_action = true
is_terminal_status RequestStatus.failed = true
is_terminal_status _ = false

-- the guard of `retryUncertainInline`, for the outcome's kind, the tries so far and the request's
-- status; `deadline - now < backoff * 2` is written without a negative number
unfoldable pub may_retry_inline : Option String → ℕ → ℕ → ℕ → ℕ → ℕ → RequestStatus → Bool
may_retry_inline kind tries max_tries deadline now backoff status = not (
    not (opt_eq kind (some "send_uncertain"))
    || leb max_tries tries
    || ltb deadline (now + backoff * 2)
    || not (status_eq status RequestStatus.uncertain))

pub record WeeklyStatus : Type 0 where
  pub weekly_used : ℕ
  pub weekly_limit : Option ℕ
  pub weekly_reset_at : Option ℕ

abbrev weekly_status : WeeklyUsage → WeeklyStatus
weekly_status usage = record {
  weekly_used = usage.used;
  weekly_limit = usage.limit;
  weekly_reset_at = usage.reset_at;
}

pub record SlotReport : Type 0 where
  pub id : String
  pub account : String
  pub state : SlotState
  pub cooldown_until : Option ℕ
  pub last_used_at : Option ℕ
  pub active_requests : ℕ
  pub weekly : WeeklyStatus

pub record RequestReport : Type 0 where
  pub id : String
  pub status : RequestStatus
  pub slot_id : Option String
  pub age_seconds : ℕ
  pub conversation_url : Option String

pub record StatusReport : Type 0 where
  pub slots : List SlotReport
  pub requests : List RequestReport

abbrev slot_report : Database → SlotRow → WeeklyUsage → SlotReport
slot_report d s usage = record {
  id = s.id;
  account = s.account;
  state = s.state;
  cooldown_until = s.cooldown_until;
  last_used_at = s.last_used_at;
  active_requests = count_active_for_slot s.id none d;
  weekly = weekly_status usage;
}

unfoldable pub status : SlotsConfig → ℕ → Database → StatusReport
status config now d =
    let limits = resolve_weekly_limits config in
    record {
      slots =
          map
            (λ (s : SlotRow). slot_report d s (weekly_usage_for d s.id (limit_of limits s.id) now))
            (list_slots d);
      requests =
          map
            (λ (r : RequestRow). record {
              id = r.id;
              status = r.status;
              slot_id = r.slot_id;
              age_seconds = (now - r.created_at) / 1000;
              conversation_url = r.conversation_url;
            })
            (list_nonterminal_requests d);
    }
