-- ===== src/Tests/Delivery.antt =====
-- Histories of transactions.
use home_server_infra.Prelude.{
  true, ◌++◌, head?, ◌≤◌, ◌<◌, some, none, List, [], ◌∷◌, ◌≡◌, refl, arith, map,
}
use home_server_infra.Prelude.Rows.{count}
use home_server_infra.Shared.Types.{SendAttemptRow, SendAttemptState, RequestRow, RequestStatus}
use home_server_infra.Database.Store.{Database, fresh_database, ok}
use home_server_infra.Delivery.AtMostOnce.{is_live}
use home_server_infra.Delivery.Machine.{Step}
use home_server_infra.Delivery.Calls.{
  Call, creates, claims, arms, confirms, loses, clears, syncs, perform, history,
}
use home_server_infra.Delivery.Exclusive.{
  perform-Step, history-IsGuarded, fresh-IsGuarded, history-at_most_once,
}
use home_server_infra.Delivery.Progress.{arm_send_attempt-returns}
use home_server_infra.Delivery.AtMostOnce.{IsGuarded}
use home_server_infra.Delivery.Settled.{is_attempt_as, history-settled}
use home_server_infra.Delivery.Arming.{next_number, arm_send_attempt-ok}
use home_server_infra.Delivery.Transitions.{
  is_staged, has_status, set_sending, arm_send_attempt, confirm_send_attempt, record_usage_for,
}
use home_server_infra.Delivery.Reconciliation.{mark_send_uncertain, reconcile_absent}
use home_server_infra.Delivery.Anchor.{encode_send_anchor}
use home_server_infra.Database.Attempts.{
  find_latest_attempt, find_attempt, transition_attempt, create_attempt, new_attempt,
}
use home_server_infra.Database.Requests.{
  new_request, create_request, find_request, count_active_for_slot,
}
use home_server_infra.Database.Usage.{
  record_usage, find_slot, count_usage_since, oldest_usage_since,
}
use home_server_infra.Database.Slots.{
  sync_slots, upsert_slots, upsert_slot, delete_orphans, delete_slot, list_slots,
}
use home_server_infra.Prelude.Rows.{find_row, select_where, update_where, order_by, insert_by}
use home_server_infra.Prelude.Text.{opt_eq, truthy}
use home_server_infra.Slots.Usage.{map_get, weekly_usage_for}
use home_server_infra.Slots.Claim.{claim_slot_for_request, select_slot, best_candidate}
use home_server_infra.Tests.Samples.{
  shorter, detail_only, slot_a, slot_b, pool, landed, first_attempt,
}

-- A first attempt that is lost, proved unsent, and followed by a second one that lands.
abbrev pub lost : List Call
lost =
    syncs (slot_a ∷ slot_b ∷ [])
    ∷ creates "req_1" "sha" 10
    ∷ claims pool "req_1" 20
    ∷ arms "req_1" 30 30
    ∷ loses "req_1" "socket closed" none 40 40
    ∷ []

abbrev retried : List Call
retried =
    clears "req_1" first_attempt 50 50 ∷ arms "req_1" 60 60 ∷ confirms "req_1" landed 70 70 ∷ []

abbrev pub run : List Call → Database → Database
run = history shorter detail_only

abbrev pub states : Database → List SendAttemptState
states d = map (λ (a : SendAttemptRow). a.state) d.send_attempts

abbrev pub statuses : Database → List RequestStatus
statuses d = map (λ (r : RequestRow). r.status) d.requests

retried_states :
    states (run retried (run lost fresh_database))
    ≡ SendAttemptState.no_send_proven ∷ SendAttemptState.confirmed ∷ []
unfolding history perform sync_slots upsert_slots upsert_slot delete_orphans delete_slot list_slots
    create_request find_request claim_slot_for_request select_slot best_candidate
    count_active_for_slot arm_send_attempt create_attempt find_latest_attempt find_attempt
    mark_send_uncertain transition_attempt reconcile_absent confirm_send_attempt record_usage_for
    record_usage encode_send_anchor find_slot find_row select_where update_where order_by insert_by
    count opt_eq truthy map_get weekly_usage_for count_usage_since oldest_usage_since
retried_states = refl

statuses_at_end : statuses (run retried (run lost fresh_database)) ≡ RequestStatus.generating ∷ []
unfolding retried_states
statuses_at_end = refl

history-at_most_once_example : count (is_live "req_1") (run lost fresh_database).send_attempts ≤ 1
history-at_most_once_example = history-at_most_once shorter detail_only lost "req_1"

perform-Step_example :
    Step
      (run lost fresh_database)
      (perform shorter detail_only
        (clears "req_1" first_attempt 50 50)
        (run lost fresh_database)).send_attempts
perform-Step_example =
    perform-Step shorter detail_only (clears "req_1" first_attempt 50 50) (run lost fresh_database)

abbrev cleared : List Call
cleared = clears "req_1" first_attempt 50 50 ∷ []

history-settled_example :
    0
    < count
        (is_attempt_as "req_1" 1 SendAttemptState.no_send_proven)
        (run
          (arms "req_1" 60 60 ∷ confirms "req_1" landed 70 70 ∷ [])
          (run cleared (run lost fresh_database))).send_attempts
unfolding retried_states
history-settled_example =
    history-settled shorter detail_only (arms "req_1" 60 60 ∷ confirms "req_1" landed 70 70 ∷ [])
      (run cleared (run lost fresh_database)) "req_1" 1 SendAttemptState.no_send_proven refl
      (omega arith)

-- The database before a request's first attempt, and the second before its second one.
abbrev pub staged : Database
staged =
    run (syncs (slot_a ∷ slot_b ∷ []) ∷ creates "req_1" "sha" 10 ∷ claims pool "req_1" 20 ∷ [])
      fresh_database

abbrev pub staged_row : RequestRow
staged_row = elim (head? staged.requests) [ none ↦ new_request "req_1" "sha" 10 | some r ↦ r ]

pub staged_database-IsGuarded : IsGuarded staged.send_attempts
staged_database-IsGuarded =
    history-IsGuarded shorter detail_only
      (syncs (slot_a ∷ slot_b ∷ []) ∷ creates "req_1" "sha" 10 ∷ claims pool "req_1" 20 ∷ [])
      fresh_database (fresh-IsGuarded shorter detail_only)

arm_send_attempt-returns_example : arm_send_attempt "req_1" 30 30 staged ≡ (
  ok 1,
  record staged {
    requests =
        update_where (has_status "req_1" RequestStatus.staged) (set_sending 30) staged.requests;
    send_attempts = staged.send_attempts ++ new_attempt "req_1" 1 30 ∷ [];
  },
)
unfolding retried_states
arm_send_attempt-returns_example =
    arm_send_attempt-returns "req_1" 30 30 staged 1 staged_row staged_database-IsGuarded refl refl
      refl refl

arm_send_attempt-ok_example :
    (next_number (find_latest_attempt "req_1" staged) ≡ some 1)
    × (is_staged (find_request "req_1" staged) ≡ true)
    × ((arm_send_attempt "req_1" 30 30 staged).1.send_attempts
        ≡ staged.send_attempts ++ new_attempt "req_1" 1 30 ∷ [])
unfolding retried_states
arm_send_attempt-ok_example = arm_send_attempt-ok "req_1" 30 30 staged 1 refl
