-- ===== src/Tests/Slots.antt =====
-- Claims, the weekly window, and a slot that left the configuration.
use home_server_infra.Prelude.{
  ◌+◌, ◌≤◌, ◌<◌, ◌≡◌, refl, true, none, some, [], ◌∷◌, String, arith, ◌↔◌,
}
use home_server_infra.Prelude.Rows.{
  count, find_row, select_where, update_where, order_by, insert_by,
}
use home_server_infra.Prelude.Text.{opt_eq, truthy}
use home_server_infra.Shared.Types.{UsageEventRow}
use home_server_infra.Shared.Failure.{constraint_failed}
use home_server_infra.Database.Store.{Database, fresh_database, thrown}
use home_server_infra.Database.Requests.{create_request, find_request, count_active_for_slot}
use home_server_infra.Database.Usage.{count_usage_since, oldest_usage_since, min_sent_at}
use home_server_infra.Database.Slots.{
  sync_slots, upsert_slots, upsert_slot, delete_orphans, delete_slot, list_slots,
}
use home_server_infra.Database.Sync.{sync_slots-stuck}
use home_server_infra.Slots.Usage.{map_get, weekly_usage_for, week_ms}
use mathlib.Core.List.{Memᴰ}
use home_server_infra.Shared.Types.{SlotRow}
use home_server_infra.Slots.Eligible.{IsEligible}
use home_server_infra.Slots.Claim.{claim_slot_for_request, select_slot, best_candidate}
use home_server_infra.Slots.Selection.{IsBest, select_slot-IsBest, select_slot-eq-none}
use home_server_infra.Slots.Capacity.{claim_slot_for_request-capacity}
use home_server_infra.Slots.Window.{weekly_usage_for-reset}
use home_server_infra.Tests.Samples.{shorter, shorter-IsOrder, slot_a, slot_b, pool}

-- Two idle slots and a staged request.
abbrev idle_pool : Database
idle_pool = (create_request "req_1" "sha" 10 (sync_slots (slot_a ∷ slot_b ∷ []) fresh_database).1).1

-- The same after a send of slot-a at time 7.
abbrev one_send : UsageEventRow
one_send = record { request_id = "req_0"; slot_id = "slot-a"; model_label = none; sent_at = 7 }

abbrev sent : Database
sent = record idle_pool { usage_events = one_send ∷ [] }

opened : select_slot shorter idle_pool pool 20 ≡ some slot_a
unfolding sync_slots upsert_slots upsert_slot delete_orphans delete_slot list_slots create_request
    find_request select_slot best_candidate count_active_for_slot find_row select_where update_where
    order_by insert_by count opt_eq truthy map_get weekly_usage_for count_usage_since
    oldest_usage_since min_sent_at
opened = refl

select_slot-IsBest_example : IsBest shorter idle_pool pool 20 slot_a
select_slot-IsBest_example =
    select_slot-IsBest shorter idle_pool pool 20 slot_a shorter-IsOrder opened

-- slot-a has reached its limit of one send.
next_account : select_slot shorter sent pool 20 ≡ some slot_b
unfolding opened
next_account = refl

select_slot-eq-none_example :
    (select_slot shorter idle_pool pool 20 ≡ none)
    ↔ ((r : SlotRow) → Memᴰ r idle_pool.slots → IsEligible idle_pool pool 20 r → ⊥)
select_slot-eq-none_example = select_slot-eq-none shorter idle_pool pool 20

none_active : (slot : String) → count_active_for_slot slot none idle_pool ≤ pool.max_concurrent
unfolding opened
none_active slot = omega arith

claim_slot_for_request-capacity_example :
    count_active_for_slot "slot-a" none (claim_slot_for_request shorter pool "req_1" 20 idle_pool).1
    ≤ pool.max_concurrent
claim_slot_for_request-capacity_example =
    claim_slot_for_request-capacity shorter pool "req_1" 20 idle_pool shorter-IsOrder none_active
      "slot-a"

weekly_usage_for-reset_example :
    ((weekly_usage_for sent "slot-a" (some 1) (7 + week_ms)).used
      ≡ (weekly_usage_for sent "slot-a" (some 1) 20).used)
    × ((weekly_usage_for sent "slot-a" (some 1) (7 + week_ms)).exhausted ≡ true)
    × ((weekly_usage_for sent "slot-a" (some 1) (7 + week_ms + 1)).used
        < (weekly_usage_for sent "slot-a" (some 1) 20).used)
    × (20 ≤ 7 + week_ms)
unfolding opened
weekly_usage_for-reset_example = weekly_usage_for-reset sent "slot-a" 1 20 (7 + week_ms) refl

sync_slots-stuck_example :
    sync_slots (slot_b ∷ []) sent
    ≡ (thrown (constraint_failed "FOREIGN KEY constraint failed"), sent)
unfolding opened
sync_slots-stuck_example = sync_slots-stuck (slot_b ∷ []) sent (omega arith)
