-- ===== src/Tests/Recover.antt =====
-- The recovery of a send whose owner lost its daemon, with nothing else going on.
use home_server_infra.Prelude.{true, none, some, [], ◌∷◌, head?}
use home_server_infra.Shared.Types.{RequestStatus, RequestRow}
use home_server_infra.Shared.Failure.{error}
use home_server_infra.Database.Store.{ok, thrown, fresh_database}
use home_server_infra.Database.Requests.{new_request}
use home_server_infra.Prelude.{not, str_eq, ◌≡◌, true, refl}
use home_server_infra.Database.Store.{Database}
use home_server_infra.Prelude.Rows.{find_row}
use home_server_infra.Prelude.Text.{truthy}
use home_server_infra.Database.Requests.{find_request}
use home_server_infra.Delivery.Settlement.{
  Pointers, update_conversation_pointer, has_lasting_pointer, update_conversation_pointer-lasting,
}
use home_server_infra.Supervisor.World.{World, catch, finally, ◌>>=◌}
use home_server_infra.Delivery.Calls.{history, perform}
use home_server_infra.Delivery.Transitions.{arm_send_attempt}
use home_server_infra.Delivery.Reconciliation.{
  mark_send_uncertain, decide_reconcile, reconcile_absent,
}
use home_server_infra.Delivery.Anchor.{encode_send_anchor, decode_send_anchor}
use home_server_infra.Delivery.Settlement.{fail_generating}
use home_server_infra.Shared.Failure.{error_message}
use home_server_infra.Database.Attempts.{
  find_latest_attempt, find_attempt, transition_attempt, create_attempt,
}
use home_server_infra.Database.Requests.{create_request, count_active_for_slot}
use home_server_infra.Database.Images.{image_chunk_for_request}
use home_server_infra.Database.Usage.{find_slot, count_usage_since, oldest_usage_since}
use home_server_infra.Database.Slots.{
  sync_slots, upsert_slots, upsert_slot, delete_orphans, delete_slot, list_slots,
}
use home_server_infra.Prelude.Rows.{select_where, update_where, order_by, insert_by, count}
use home_server_infra.Prelude.Text.{opt_eq}
use home_server_infra.Slots.Usage.{map_get, weekly_usage_for}
use home_server_infra.Slots.Claim.{claim_slot_for_request, select_slot, best_candidate}
use home_server_infra.Supervisor.Settle.{
  finish_generating_failure, fail_under, fail_current, fail_text, finish_failing,
}
use home_server_infra.Supervisor.Recover.{
  Runtime, recover_send_state, recover_under, recover_locked, recover_sending, recover_armed,
  reconcile_if_uncertain, start_reconcile, finish_reconcile, ask_and_decide, ask_daemon,
  report_decision,
}
use home_server_infra.Tests.Samples.{detail_only, slot_a, slot_b}
use home_server_infra.Tests.Delivery.{lost, run, statuses}
use home_server_infra.Tests.Send.{alone}

abbrev runtime : Runtime
runtime = record {
  stringify = detail_only;
  parse = λ s. none;
  is_valid_conversation_pointer = λ s. true;
}

abbrev after_loss : World (Unit {0})
after_loss = record { db = run lost fresh_database; outside = tt }

abbrev lost_row : RequestRow
lost_row = elim (head? (run lost fresh_database).requests) [
  | none ↦ new_request "req_1" "sha" 10
  | some r ↦ r
]

-- The daemon proves that nothing was sent: the request goes on, and nothing is told to the caller.
recovered :
    (recover_send_state
      (alone (thrown (error "no answer")))
      runtime
      (slot_a ∷ slot_b ∷ [])
      lost_row
      1000
      after_loss).0
    ≡ ok none
unfolding recover_send_state recover_under recover_locked recover_sending recover_armed
    reconcile_if_uncertain start_reconcile finish_reconcile ask_and_decide ask_daemon
    report_decision mark_send_uncertain decide_reconcile encode_send_anchor decode_send_anchor
    error_message catch finally ◌>>=◌ history perform arm_send_attempt create_attempt
    find_latest_attempt find_attempt transition_attempt sync_slots upsert_slots upsert_slot
    delete_orphans delete_slot list_slots create_request find_request claim_slot_for_request
    select_slot best_candidate count_active_for_slot find_slot image_chunk_for_request find_row
    select_where update_where order_by insert_by count opt_eq truthy map_get weekly_usage_for
    count_usage_since oldest_usage_since reconcile_absent
recovered = refl

-- Addresses of conversations: any text but the empty one, and the provisional one.
abbrev pointers : Pointers
pointers = record { is_valid = λ s. not (str_eq s ""); is_temporary = λ s. str_eq s "/c/WEB:1" }

abbrev pointed : Database
pointed = record fresh_database {
  requests =
      record (new_request "req_1" "sha" 10) {
        status = RequestStatus.generating;
        conversation_url = some "/c/1";
      }
      ∷ [];
}

update_conversation_pointer-lasting_example :
    has_lasting_pointer pointers
      (find_request "req_1" (update_conversation_pointer pointers "req_1" "/c/WEB:1" 20 pointed).1)
    ≡ true
unfolding find_request find_row truthy
update_conversation_pointer-lasting_example =
    update_conversation_pointer-lasting pointers "req_1" "/c/WEB:1" 20 pointed refl refl

-- A poll of the answer that failed.
abbrev polled : World (Unit {0})
polled = record { db = pointed; outside = tt }

ended_statuses :
    statuses
      (finish_generating_failure
        (alone (thrown (error "unused")))
        detail_only
        (λ id. "answer.md")
        "req_1"
        "internal"
        "page closed"
        polled).1.db
    ≡ RequestStatus.failed ∷ []
unfolding finish_generating_failure fail_under fail_current fail_text finish_failing fail_generating
    catch finally ◌>>=◌ find_request find_row update_where select_where image_chunk_for_request
    truthy count opt_eq
ended_statuses = refl
