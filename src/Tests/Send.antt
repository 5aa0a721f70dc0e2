-- ===== src/Tests/Send.antt =====
-- Deliveries of a prompt, with nothing else going on.
use home_server_infra.Prelude.{false, none, some, [], ◌∷◌, ◌≡◌, refl, is_some, if◌then◌else◌}
use home_server_infra.Shared.Types.{RequestStatus, SendResult}
use home_server_infra.Shared.Failure.{Failure, SendPhase, error}
use home_server_infra.Database.Store.{Result, ok, thrown}
use home_server_infra.Supervisor.World.{World, done}
use home_server_infra.Supervisor.Outside.{Outside, SendProgress}
use home_server_infra.Supervisor.Failing.{
  with_progress_anchors, is_pre_click, anchor_of, kind_of, reported, with_progress_anchors_lem,
}
use home_server_infra.Supervisor.Send.{send}
use home_server_infra.Supervisor.World.{catch, finally, ◌>>=◌}
use home_server_infra.Supervisor.Send.{
  with_lock, send_locked, call_daemon, settle_send, fail_send, after_click,
}
use home_server_infra.Shared.Failure.{error_message}
use home_server_infra.Delivery.Calls.{history, perform}
use home_server_infra.Delivery.Transitions.{
  arm_send_attempt, confirm_send_attempt, record_usage_for,
}
use home_server_infra.Delivery.Reconciliation.{mark_send_uncertain}
use home_server_infra.Delivery.Anchor.{encode_send_anchor}
use home_server_infra.Database.Attempts.{
  find_latest_attempt, find_attempt, transition_attempt, create_attempt,
}
use home_server_infra.Database.Requests.{create_request, find_request, count_active_for_slot}
use home_server_infra.Database.Images.{image_chunk_for_request}
use home_server_infra.Database.Usage.{
  record_usage, find_slot, count_usage_since, oldest_usage_since,
}
use home_server_infra.Database.Slots.{
  sync_slots, upsert_slots, upsert_slot, delete_orphans, delete_slot, list_slots,
}
use home_server_infra.Prelude.Rows.{
  find_row, select_where, update_where, order_by, insert_by, count,
}
use home_server_infra.Prelude.Text.{opt_eq, truthy}
use home_server_infra.Slots.Usage.{map_get, weekly_usage_for}
use home_server_infra.Slots.Claim.{claim_slot_for_request, select_slot, best_candidate}
use home_server_infra.Tests.Samples.{detail_only, slot_a, landed, not_found}
use home_server_infra.Tests.Delivery.{staged, staged_row, statuses}

-- A process alone, whose daemon answers every send with `answer`.
abbrev pub alone : Result SendResult → Outside (Unit {0}) (Unit {0}) (Unit {0})
alone answer = record {
  meanwhile = done tt;
  now = done 30;
  read_prompt = λ id. done "hello";
  read_continue_url = λ id. done "";
  read_answer = λ id. done "";
  rpc_files = λ id slot. done [];
  try_send_lock = λ id. done (some tt);
  release = λ l. done tt;
  call_send = λ client params. done (answer, none);
  connect_daemon = λ slot. done tt;
  call_reconcile = λ client params limit. done not_found;
  close = λ client. done tt;
  log = λ id status. done tt;
  release_runtime = λ r. done tt;
  stop_slot_if_no_live_owners = λ slot. done tt;
  is_direct_network_failure = λ e. false;
}

abbrev start : World (Unit {0})
start = record { db = staged; outside = tt }

abbrev progress : SendProgress
progress = record {
  step = "click";
  phase = SendPhase.post_click;
  elapsed_ms = 2600;
  step_elapsed_ms = 100;
  pending_user_turn_id = some "turn-1";
  pending_conversation_url = none;
  pre_click_baseline = none;
  match_debug = none;
}

abbrev closed : Failure
closed = error "socket closed"

with_progress_anchors_lem_example :
    (is_pre_click (with_progress_anchors closed (some progress)) ≡ is_pre_click closed)
    × (anchor_of (with_progress_anchors closed (some progress))
        ≡ (if is_some (kind_of closed) then anchor_of closed else reported (some progress)))
with_progress_anchors_lem_example = with_progress_anchors_lem closed (some progress)

-- A send that lands leaves its request generating, and one that loses the daemon leaves it uncertain.
sent_statuses :
    statuses (send (alone (ok landed)) detail_only staged_row slot_a tt start).1.db
    ≡ RequestStatus.generating ∷ []
unfolding send with_lock send_locked call_daemon settle_send catch finally ◌>>=◌ arm_send_attempt
    create_attempt find_latest_attempt find_attempt transition_attempt confirm_send_attempt
    record_usage_for record_usage history perform sync_slots upsert_slots upsert_slot delete_orphans
    delete_slot list_slots create_request find_request claim_slot_for_request select_slot
    best_candidate count_active_for_slot find_slot image_chunk_for_request find_row select_where
    update_where order_by insert_by count opt_eq truthy map_get weekly_usage_for count_usage_since
    oldest_usage_since
sent_statuses = refl

lost_statuses :
    statuses (send (alone (thrown closed)) detail_only staged_row slot_a tt start).1.db
    ≡ RequestStatus.uncertain ∷ []
unfolding sent_statuses fail_send after_click with_progress_anchors mark_send_uncertain
    encode_send_anchor error_message
lost_statuses = refl
