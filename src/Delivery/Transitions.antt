-- ===== src/Delivery/Transitions.antt =====
-- The guarded transitions of a send attempt and of its request, each one transaction. Every call of
-- `Date.now()` is an argument.
use home_server_infra.Prelude.{
  ℕ, String, Bool, false, ◌&&◌, ◌||◌, not, Option, none, some, [], ◌∷◌, ◌==◌, leb, if◌then◌else◌,
}
use home_server_infra.Prelude.Text.{truthy}
use home_server_infra.Shared.Types.{
  RequestRow, RequestStatus, status_eq, SendAttemptRow, SendAttemptState, attempt_eq, SendResult,
}
use home_server_infra.Shared.Failure.{Failure, error}
use home_server_infra.Database.Store.{Tx, pure, throw, check, require_some, immediate, ◌>>=◌, ◌>>◌}
use home_server_infra.Database.Requests.{get_request, has_id, changing}
use home_server_infra.Database.Attempts.{
  latest_attempt, create_attempt, TurnIds, no_ids, transition_attempt, is_landed,
}
use home_server_infra.Database.Usage.{record_usage}

-- WHERE id = ? AND status = ?
abbrev pub has_status : String → RequestStatus → RequestRow → Bool
has_status id status r = has_id id r && status_eq r.status status

abbrev pub is_staged : Option RequestRow → Bool
is_staged none = false
is_staged (some r) = status_eq r.status RequestStatus.staged

abbrev is_exhausted : Option SendAttemptRow → Bool
is_exhausted none = false
is_exhausted (some a) = leb 2 a.attempt_no

next_attempt_no : Option SendAttemptRow → Tx ℕ
next_attempt_no none = pure 1
next_attempt_no (some a) =
    if a.attempt_no == 1 && attempt_eq a.state SendAttemptState.no_send_proven
    then pure 2
    else throw (error "attempt 2 requires attempt 1 to be no_send_proven")

abbrev pub set_sending : ℕ → RequestRow → RequestRow
set_sending now r = record r {
  status = RequestStatus.sending;
  error_kind = none;
  error_detail = none;
  updated_at = now;
}

unfoldable pub arm_send_attempt : String → ℕ → ℕ → Tx ℕ
unfolding next_attempt_no
arm_send_attempt request_id created_at now = immediate do
  previous ← latest_attempt request_id
  check (not (is_exhausted previous)) (error "send attempt limit exceeded")
  request ← get_request request_id
  check (is_staged request) (error "send attempt requires a staged request")
  attempt_no ← next_attempt_no previous
  _ ← create_attempt request_id attempt_no created_at
  changes ← changing (has_status request_id RequestStatus.staged) (set_sending now)
  check (changes == 1) (error "send attempt lost its staged request")
  pure attempt_no

abbrev pub set_generating : String → ℕ → RequestRow → RequestRow
set_generating conversation_url now r = record r {
  status = RequestStatus.generating;
  conversation_url = some conversation_url;
  error_kind = none;
  error_detail = none;
  updated_at = now;
}

abbrev slot_of : Option RequestRow → Option String
slot_of none = none
slot_of (some r) = r.slot_id

abbrev record_for : Option String → String → Option String → ℕ → Tx (Unit {0})
record_for none request_id model_label now = pure tt
record_for (some slot_id) request_id model_label now = do
  _ ← record_usage request_id slot_id model_label now
  pure tt

unfoldable pub record_usage_for : String → Option String → ℕ → Tx (Unit {0})
record_usage_for request_id model_label now = do
  request ← get_request request_id
  if truthy (slot_of request)
      then record_for (slot_of request) request_id model_label now
      else pure tt

-- `if (!attempt) throw`, and the landed states that a lost transition gives back
abbrev pub landed_or_throw : SendAttemptRow → Failure → Tx SendAttemptState
landed_or_throw row e = if is_landed row.state then pure row.state else throw e

abbrev pub confirmed_ids : SendResult → TurnIds
confirmed_ids result = record {
  user_turn_id = some (some result.user_turn_id);
  assistant_turn_id = elim result.assistant_turn_id [ none ↦ none | some t ↦ some (some t) ];
}

unfoldable pub confirm_send_attempt : String → SendResult → ℕ → ℕ → Tx SendAttemptState
confirm_send_attempt request_id result transitioned_at now = immediate do
  found ← latest_attempt request_id
  attempt ← require_some found (error "confirmed send requires an armed attempt")
  transition ←
      transition_attempt request_id attempt.attempt_no (SendAttemptState.armed ∷ [])
        SendAttemptState.confirmed (confirmed_ids result) transitioned_at
  if not transition.changed
      then landed_or_throw transition.row (error "confirmed send requires an armed attempt")
      else do
        _ ←
            changing (has_status request_id RequestStatus.sending)
              (set_generating result.conversation_url now)
        record_usage_for request_id result.model_label now
        pure SendAttemptState.confirmed

-- What `markPreClickNoSend` does after it has read the latest attempt; the update guards itself.
unfoldable pub disprove_attempt : String → Option SendAttemptRow → ℕ → Tx SendAttemptState
disprove_attempt request_id found now = do
  attempt ← require_some found (error "pre-click failure requires an armed attempt")
  transition ←
      transition_attempt request_id attempt.attempt_no (SendAttemptState.armed ∷ [])
        SendAttemptState.no_send_proven no_ids now
  if transition.changed || attempt_eq transition.row.state SendAttemptState.no_send_proven
      then pure SendAttemptState.no_send_proven
      else landed_or_throw transition.row (error "pre-click failure requires an armed attempt")

-- Not in one transaction: other processes may commit between the read and the update.
unfoldable pub mark_pre_click_no_send : String → ℕ → Tx SendAttemptState
unfolding disprove_attempt
mark_pre_click_no_send request_id now = do
  found ← latest_attempt request_id
  disprove_attempt request_id found now
