-- ===== src/Delivery/Reconciliation.antt =====
-- A send whose outcome is not known: `markSendUncertain` and `applyReconcileResult` of run.ts.
use home_server_infra.Prelude.{
  ℕ, String, Bool, ◌&&◌, ◌||◌, not, Option, none, some, [], ◌∷◌, ◌==◌, ltb, is_some, if◌then◌else◌,
}
use home_server_infra.Prelude.Text.{opt_eq, truthy}
use home_server_infra.Shared.Types.{
  RequestRow, RequestStatus, SendAttemptRow, SendAttemptState, attempt_eq, ReconcileResult,
}
use home_server_infra.Shared.Failure.{error}
use home_server_infra.Database.Store.{Tx, pure, throw, check, require_some, immediate, ◌>>=◌, ◌>>◌}
use home_server_infra.Database.Requests.{changing}
use home_server_infra.Database.Attempts.{
  latest_attempt, TurnIds, no_ids, transition_attempt, is_landed,
}
use home_server_infra.Delivery.Anchor.{SendAnchor, StoredSendAnchor, encode_send_anchor, anchor_url}
use home_server_infra.Delivery.Transitions.{
  has_status, set_generating, record_usage_for, landed_or_throw,
}

abbrev anchor_turn : Option SendAnchor → Option String
anchor_turn none = none
anchor_turn (some a) = a.pending_user_turn_id

abbrev pub anchor_ids : Option SendAnchor → TurnIds
anchor_ids anchor =
    if truthy (anchor_turn anchor)
    then record no_ids { user_turn_id = some (anchor_turn anchor) }
    else no_ids

-- CASE WHEN (url IS NULL OR url = '') AND ? IS NOT NULL THEN ? ELSE url END
abbrev pub fill_url : Option String → Option String → Option String
fill_url pending url = if not (truthy url) && is_some pending then pending else url

abbrev pub set_uncertain : String → Option String → ℕ → RequestRow → RequestRow
set_uncertain detail pending now r = record r {
  status = RequestStatus.uncertain;
  error_kind = some "send_uncertain";
  error_detail = some detail;
  conversation_url = fill_url pending r.conversation_url;
  updated_at = now;
}

unfoldable pub mark_send_uncertain :
    (StoredSendAnchor → String) → String → String → Option SendAnchor → ℕ → ℕ → Tx SendAttemptState
mark_send_uncertain stringify request_id detail anchor transitioned_at now = immediate do
  found ← latest_attempt request_id
  attempt ← require_some found (error "uncertain send requires an armed attempt")
  transition ←
      transition_attempt request_id attempt.attempt_no (SendAttemptState.armed ∷ [])
        SendAttemptState.uncertain (anchor_ids anchor) transitioned_at
  if not transition.changed
      then (if attempt_eq transition.row.state SendAttemptState.uncertain
          then pure SendAttemptState.uncertain
          else landed_or_throw transition.row (error "uncertain send requires an armed attempt"))
      else do
        changes ←
            changing (has_status request_id RequestStatus.sending)
              (set_uncertain (encode_send_anchor stringify detail anchor) (anchor_url anchor) now)
        check (changes == 1) (error "uncertain send lost its sending request")
        pure SendAttemptState.uncertain

pub data ReconcileDecision : Type 0 where
  found retry_send exhausted unproven : ReconcileDecision

abbrev pub lost_reconcile : Tx ReconcileDecision
lost_reconcile = throw (error "reconcile requires an uncertain attempt")

abbrev pub found_ids : ReconcileResult → TurnIds
found_ids result = record {
  user_turn_id = some result.user_turn_id;
  assistant_turn_id = some result.assistant_turn_id;
}

-- The transaction for a send that was found. The attempt was read before it.
unfoldable pub reconcile_found :
    String → SendAttemptRow → ReconcileResult → String → ℕ → ℕ → Tx ReconcileDecision
reconcile_found request_id attempt result conversation_url transitioned_at now = immediate do
  transition ←
      transition_attempt request_id attempt.attempt_no (SendAttemptState.uncertain ∷ [])
        SendAttemptState.reconciled (found_ids result) transitioned_at
  if not transition.changed
      then (if is_landed transition.row.state then pure ReconcileDecision.found else lost_reconcile)
      else do
        _ ←
            changing (has_status request_id RequestStatus.uncertain)
              (set_generating conversation_url now)
        record_usage_for request_id none now
        pure ReconcileDecision.found

abbrev pub set_staged_again : ℕ → RequestRow → RequestRow
set_staged_again now r = record r {
  status = RequestStatus.staged;
  error_kind = none;
  error_detail = none;
  updated_at = now;
}

abbrev pub set_exhausted : ℕ → RequestRow → RequestRow
set_exhausted now r = record r {
  status = RequestStatus.needs_user_action;
  error_kind = some "send_uncertain";
  error_detail = some "two attempts ended without a confirmed send";
  updated_at = now;
}

-- The transaction for a send that is proved not to have happened.
unfoldable pub reconcile_absent : String → SendAttemptRow → ℕ → ℕ → Tx ReconcileDecision
reconcile_absent request_id attempt transitioned_at now = immediate do
  transition ←
      transition_attempt request_id attempt.attempt_no (SendAttemptState.uncertain ∷ [])
        SendAttemptState.no_send_proven no_ids transitioned_at
  if not transition.changed && is_landed transition.row.state
      then pure ReconcileDecision.found
      else if not transition.changed
          && not (attempt_eq transition.row.state SendAttemptState.no_send_proven)
      then lost_reconcile
      else if ltb attempt.attempt_no 2
      then (do
        _ ← changing (has_status request_id RequestStatus.uncertain) (set_staged_again now)
        pure ReconcileDecision.retry_send)
      else do
        _ ← changing (has_status request_id RequestStatus.uncertain) (set_exhausted now)
        pure ReconcileDecision.exhausted

-- the claim of a found send that cannot be checked, or that names another user turn
abbrev pub contradicts : SendAttemptRow → ReconcileResult → Bool
contradicts attempt result =
    truthy attempt.user_turn_id
    && (not result.found || not (opt_eq result.user_turn_id attempt.user_turn_id))

abbrev pub or_empty : Option String → String
or_empty none = ""
or_empty (some s) = s

abbrev pub is_unusable : (String → Bool) → ReconcileResult → Bool
is_unusable is_valid_conversation_pointer result =
    not (truthy result.conversation_url)
    || not (truthy result.user_turn_id)
    || not (is_valid_conversation_pointer (or_empty result.conversation_url))

-- What `applyReconcileResult` does after it has read the latest attempt.
-- `isValidConversationPointer` parses its URL by the runtime's `URL`, and is an argument.
unfoldable pub decide_reconcile :
    (String → Bool)
    → String
    → Option SendAttemptRow
    → ReconcileResult
    → ℕ
    → ℕ
    → Tx ReconcileDecision
decide_reconcile is_valid_conversation_pointer request_id latest result transitioned_at now = do
  attempt ← require_some latest (error "reconcile requires an uncertain attempt")
  if contradicts attempt result
      then pure ReconcileDecision.unproven
      else if result.found && is_unusable is_valid_conversation_pointer result
      then pure ReconcileDecision.unproven
      else if result.found && truthy result.conversation_url && truthy result.user_turn_id
      then reconcile_found request_id attempt result (or_empty result.conversation_url)
          transitioned_at now
      else if not result.proven
      then (if is_landed attempt.state
          then pure ReconcileDecision.found
          else if attempt_eq attempt.state SendAttemptState.uncertain
          then pure ReconcileDecision.unproven
          else lost_reconcile)
      else reconcile_absent request_id attempt transitioned_at now

-- Other processes may commit between the read and the decision's transaction.
unfoldable pub apply_reconcile_result :
    (String → Bool) → String → ReconcileResult → ℕ → ℕ → Tx ReconcileDecision
unfolding decide_reconcile
apply_reconcile_result is_valid_conversation_pointer request_id result transitioned_at now = do
  latest ← latest_attempt request_id
  decide_reconcile is_valid_conversation_pointer request_id latest result transitioned_at now
