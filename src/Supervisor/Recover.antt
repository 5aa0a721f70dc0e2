-- ===== src/Supervisor/Recover.antt =====
-- `Supervisor.recoverSendState` and `Supervisor.reconcile` of
-- stacks/gpt-webai-pro/src/supervisor/run.ts: what becomes of a send whose outcome is not known.
use Prim.Native.String.{◌++◌}
use home_server_infra.Prelude.{
  ℕ, ◌+◌, ◌-◌, min, max, String, Bool, true, false, ◌&&◌, not, Option, none, some, List, str_eq,
  if◌then◌else◌,
}
use home_server_infra.Prelude.Text.{truthy}
use home_server_infra.Prelude.Rows.{find_row}
use home_server_infra.Shared.Types.{
  RequestRow, RequestStatus, status_eq, SendAttemptRow, SendAttemptState, attempt_eq,
  ReconcileResult, MatchedBy, SlotConfig,
}
use home_server_infra.Shared.Failure.{error_message, error}
use home_server_infra.Database.Store.{query}
use home_server_infra.Database.Attempts.{latest_attempt, is_landed}
use home_server_infra.Slots.Usage.{coalesce}
use home_server_infra.Delivery.Anchor.{
  StoredSendAnchor, ParsedAnchor, decode_send_anchor, if_truthy,
}
use home_server_infra.Delivery.Reconciliation.{
  mark_send_uncertain, ReconcileDecision, decide_reconcile, or_empty,
}
use home_server_infra.Envelope.{Envelope, running_envelope, action_envelope}
use home_server_infra.Supervisor.World.{Io, done, fail, catch, finally, best_effort, ◌>>=◌, ◌>>◌}
use home_server_infra.Supervisor.Outside.{Outside, ReconcileParams, on_database, on_database_at}
use home_server_infra.Delivery.Settlement.{session}
use home_server_infra.Supervisor.Send.{
  image_count, set_status, release_current, in_progress_message,
}

abbrev pub slot_or_fail : {S : Type 0} → String → Option SlotConfig → Io S SlotConfig
slot_or_fail id none = fail (error ("slot " ++ id ++ " is absent from config"))
slot_or_fail id (some c) = done c

-- `Supervisor.requireSlotConfig`
abbrev pub require_slot_config : {S : Type 0} → List SlotConfig → String → Io S SlotConfig
require_slot_config config id = slot_or_fail id (find_row (λ c. str_eq c.id id) config)

abbrev state_is : SendAttemptState → Option SendAttemptRow → Bool
state_is s none = false
state_is s (some a) = attempt_eq a.state s

abbrev has_landed_state : Option SendAttemptRow → Bool
has_landed_state none = false
has_landed_state (some a) = is_landed a.state

abbrev user_turn_of : Option SendAttemptRow → Option String
user_turn_of none = none
user_turn_of (some a) = a.user_turn_id

abbrev stored_url : Option StoredSendAnchor → Option String
stored_url none = none
stored_url (some a) = a.pending_conversation_url

abbrev stored_baseline : Option StoredSendAnchor → Option (List String)
stored_baseline none = none
stored_baseline (some a) = a.pre_click_baseline

-- `matchedBy && matchedBy !== "strict"`
abbrev is_matched_otherwise : Option MatchedBy → Bool
is_matched_otherwise none = false
is_matched_otherwise (some MatchedBy.strict) = false
is_matched_otherwise (some _) = true

abbrev uncertain_envelope : String → String → Bool → Envelope
uncertain_envelope id message resumable =
    action_envelope (some id) (some "send_uncertain") message resumable

-- The texts of anchors are parsed, and URLs are checked, by the runtime.
pub record Runtime : Type 0 where
  pub stringify : StoredSendAnchor → String
  pub parse : String → Option ParsedAnchor
  pub is_valid_conversation_pointer : String → Bool

-- How far `reconcile` comes without waiting: it has its result, or the daemon is to be asked.
pub data Reconciling : Type 0 where
  settled : Option Envelope → Reconciling
  asks : RequestRow → Option SendAttemptRow → Reconciling

module _ {S Client Lock : Type 0} (o : Outside S Client Lock) (runtime : Runtime)
    (config : List SlotConfig) where
  abbrev pub log_if : Bool → String → Io S (Unit {0})
  log_if b id = if b then o.log id "uncertain" else done tt

  -- what the daemon is asked
  abbrev pub reconcile_params :
      RequestRow → Option SendAttemptRow → String → String → Option ℕ → ReconcileParams
  reconcile_params request attempt prompt prompt_sha256 images =
      let anchor = decode_send_anchor runtime.parse request.error_detail in
      record {
        prompt = prompt;
        prompt_sha256 = prompt_sha256;
        image_count = images;
        conversation_url =
            if truthy request.conversation_url
              && runtime.is_valid_conversation_pointer (or_empty request.conversation_url)
            then request.conversation_url
            else none;
        pending_conversation_url =
            if_truthy (coalesce (stored_url anchor) request.conversation_url);
        pending_user_turn_id = if_truthy (user_turn_of attempt);
        pre_click_baseline = stored_baseline anchor;
      }

  -- The question to the daemon: its client is closed whatever comes of it.
  unfoldable pub ask_daemon : RequestRow → Option SendAttemptRow → ℕ → Client → Io S ReconcileResult
  ask_daemon request attempt deadline client =
      catch
        (do
          prompt ← o.read_prompt request.id
          current ← on_database o (session request.id)
          images ← on_database o (query (image_count request.id))
          now ← o.now
          result ←
              o.call_reconcile client
                (reconcile_params request attempt prompt current.prompt_sha256 images)
                (max 5000 (min 120000 (deadline + 5000 - now)))
          o.close client
          done result)
        (λ e. best_effort (o.close client) >>= λ _. fail e)

  unfoldable pub report_decision : String → ReconcileDecision → Io S (Option Envelope)
  report_decision id ReconcileDecision.found = o.log id "generating" >>= λ _. done none
  report_decision id ReconcileDecision.retry_send = o.log id "staged" >>= λ _. done none
  report_decision id ReconcileDecision.exhausted = do
    release_current o runtime.stringify id
    done (some (uncertain_envelope id "two attempts ended without a confirmed send" false))
  report_decision id ReconcileDecision.unproven = done (
      some
        (uncertain_envelope id "the open ChatGPT tabs cannot prove whether the send occurred" true))

  -- the `try` of `reconcile`
  unfoldable pub ask_and_decide : RequestRow → Option SendAttemptRow → ℕ → Io S (Option Envelope)
  ask_and_decide request attempt deadline = do
    slot ← require_slot_config config (or_empty request.slot_id)
    client ← o.connect_daemon slot
    result ← ask_daemon request attempt deadline client
    log_if (is_matched_otherwise result.matched_by) request.id
    log_if (truthy result.evidence) request.id
    latest ← on_database o (latest_attempt request.id)
    t ← o.now
    decision ←
        on_database_at o
          (decide_reconcile runtime.is_valid_conversation_pointer request.id latest result t)
    report_decision request.id decision

  -- the rest of `reconcile`, from its first `await` on
  unfoldable pub finish_reconcile : ℕ → Reconciling → Io S (Option Envelope)
  finish_reconcile deadline (settled outcome) = done outcome
  finish_reconcile deadline (asks request attempt) =
      catch (ask_and_decide request attempt deadline) (λ e. done (
        some (
          uncertain_envelope request.id
            ("reconcile could not prove the send state: " ++ error_message e) true)))

  -- what `reconcile` does before its first `await`
  unfoldable pub start_reconcile : RequestRow → Io S Reconciling
  start_reconcile request = do
    attempt ← on_database o (latest_attempt request.id)
    if not (state_is SendAttemptState.uncertain attempt)
        then (do
          _ ←
              set_status o runtime.stringify request.id RequestStatus.failed "internal"
                "uncertain request has no uncertain attempt"
          done (settled none))
        else if not (truthy request.slot_id)
        then done
            (settled (some (uncertain_envelope request.id "the original slot is unknown" true)))
        else done (asks request attempt)

  -- the last step: the daemon is asked about an uncertain request only
  unfoldable pub reconcile_if_uncertain : RequestRow → Io S Reconciling
  reconcile_if_uncertain current =
      if not (status_eq current.status RequestStatus.uncertain)
      then done (settled none)
      else start_reconcile current

  unfoldable pub recover_unarmed : String → Option SendAttemptRow → Io S Reconciling
  recover_unarmed id attempt = if has_landed_state attempt then done (settled none) else do
    _ ←
        set_status o runtime.stringify id RequestStatus.failed "internal"
          "sending request has no armed attempt"
    done (settled none)

  -- The owner of the send is gone, as its lock is free.
  unfoldable pub recover_armed : String → Io S Reconciling
  recover_armed id = do
    t ← o.now
    final_state ← on_database_at o (
        mark_send_uncertain runtime.stringify id "send owner exited after the attempt was armed"
          none t)
    if is_landed final_state then done (settled none) else do
      o.log id "uncertain"
      current ← on_database o (session id)
      reconcile_if_uncertain current

  unfoldable pub recover_sending : String → Io S Reconciling
  recover_sending id = do
    attempt ← on_database o (latest_attempt id)
    if not (state_is SendAttemptState.armed attempt)
        then recover_unarmed id attempt
        else recover_armed id

  unfoldable pub recover_locked : String → Io S Reconciling
  recover_locked id = do
    current ← on_database o (session id)
    if status_eq current.status RequestStatus.sending
        then recover_sending id
        else reconcile_if_uncertain current

  -- `return this.reconcile(…)` does not wait: the lock is released at the first `await` of
  -- `reconcile`, and the daemon is asked without it. Where the release throws, so does the whole.
  unfoldable pub recover_under : RequestRow → ℕ → Option Lock → Io S (Option Envelope)
  recover_under request deadline none =
      done (some (running_envelope request.id (some in_progress_message)))
  recover_under request deadline (some lock) =
      finally (recover_locked request.id) (o.release lock) >>= finish_reconcile deadline

  unfoldable pub recover_send_state : RequestRow → ℕ → Io S (Option Envelope)
  recover_send_state request deadline =
      o.try_send_lock request.id >>= λ lock. recover_under request deadline lock
