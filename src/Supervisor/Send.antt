-- ===== src/Supervisor/Send.antt =====
-- `Supervisor.send` of stacks/gpt-webai-pro/src/supervisor/run.ts: one delivery of a staged
-- request's prompt, under the request's lock. `none` asks the caller to look at the request again.
use home_server_infra.Prelude.{
  ℕ, String, true, false, ◌||◌, not, Option, none, some, List, length, ◌==◌, if◌then◌else◌,
}
use home_server_infra.Prelude.Text.{opt_eq}
use home_server_infra.Shared.Types.{RequestRow, RequestStatus, status_eq, SendResult, SlotConfig}
use home_server_infra.Shared.Failure.{Failure, ErrorKind, error_message}
use home_server_infra.Database.Store.{Database, Result, ok, thrown, query}
use home_server_infra.Database.Requests.{update_request, set_request_status, no_patch}
use home_server_infra.Database.Attempts.{latest_attempt, is_landed}
use home_server_infra.Database.Images.{image_chunk_for_request}
use home_server_infra.Slots.Claim.{mark_slot_needs_login, mark_slot_provider_limit}
use home_server_infra.Delivery.Anchor.{StoredSendAnchor, if_truthy}
use home_server_infra.Delivery.Settlement.{session}
use home_server_infra.Delivery.Transitions.{
  arm_send_attempt, confirm_send_attempt, disprove_attempt,
}
use home_server_infra.Delivery.Reconciliation.{mark_send_uncertain}
use home_server_infra.Envelope.{
  Envelope, running_envelope, action_envelope, failed_envelope, network_failure_envelope,
}
use home_server_infra.Supervisor.World.{Io, done, fail, catch, finally, best_effort, ◌>>=◌, ◌>>◌}
use home_server_infra.Supervisor.Outside.{
  Outside, SendProgress, RpcFile, on_database, on_database_at,
}
use home_server_infra.Supervisor.Failing.{with_progress_anchors, is_pre_click, kind_of, anchor_of}

abbrev pub in_progress_message : String
in_progress_message = "전송 진행 중(소유 프로세스 생존)"

-- `imageItems(id)?.length`, where it is not 0
abbrev pub image_count : String → Database → Option ℕ
image_count id d = elim (image_chunk_for_request id d) [
  | none ↦ none
  | some c ↦ if length c.items == 0 then none else some (length c.items)
]

module _ {S Client Lock : Type 0} (o : Outside S Client Lock)
    (stringify : StoredSendAnchor → String) where
  abbrev pub set_status : String → RequestStatus → String → String → Io S RequestRow
  set_status id status kind detail =
      on_database_at o (set_request_status id status (some kind) (some detail))

  -- the request's row, for `releaseRuntime`
  abbrev pub release_current : String → Io S (Unit {0})
  release_current id = on_database o (session id) >>= λ r. o.release_runtime r

  -- The slot is unusable: the request goes back to the pool.
  abbrev pub give_back : String → SlotConfig → Client → Io S (Option Envelope)
  give_back id slot client = do
    _ ← on_database_at o (
        update_request id
          (record no_patch { status = some RequestStatus.staged; slot_id = some none }))
    best_effort (o.close client)
    o.stop_slot_if_no_live_owners slot
    done none

  abbrev pub end_send :
      String → RequestStatus → String → String → Client → Envelope → Io S (Option Envelope)
  end_send id status kind detail client envelope = do
    _ ← set_status id status kind detail
    best_effort (o.close client)
    release_current id
    done (some envelope)

  -- the message was proved not to be sent
  unfoldable pub fail_unsent :
      String → SlotConfig → Client → Failure → Option ErrorKind → Io S (Option Envelope)
  fail_unsent id slot client failure (some ErrorKind.model_unavailable) =
      end_send id RequestStatus.needs_user_action "model_unavailable" (error_message failure) client
        (action_envelope (some id) (some "model_unavailable") (error_message failure) false)
  fail_unsent id slot client failure (some ErrorKind.needs_login) = do
    on_database o (mark_slot_needs_login slot.id)
    give_back id slot client
  fail_unsent id slot client failure (some ErrorKind.provider_limit) = do
    _ ← on_database_at o (mark_slot_provider_limit slot.id)
    give_back id slot client
  fail_unsent id slot client failure _ =
      if o.is_direct_network_failure failure
      then end_send id RequestStatus.failed "network_disconnected" (error_message failure) client
          (network_failure_envelope (some id) (error_message failure))
      else end_send id RequestStatus.failed "internal" (error_message failure) client
          (failed_envelope (some id) "internal" (error_message failure))

  -- phase "pre_click"
  unfoldable pub before_click : String → SlotConfig → Client → Failure → Io S (Option Envelope)
  before_click id slot client failure = do
    found ← on_database o (latest_attempt id)
    final_state ← on_database_at o (disprove_attempt id found)
    if is_landed final_state
        then (best_effort (o.close client) >>= λ _. done none)
        else fail_unsent id slot client failure (kind_of failure)

  -- any other error: a click cannot be ruled out
  unfoldable pub after_click : String → Client → Failure → Io S (Option Envelope)
  after_click id client failure = do
    t ← o.now
    final_state ←
        on_database_at o
          (mark_send_uncertain stringify id (error_message failure) (anchor_of failure) t)
    best_effort (o.close client)
    if is_landed final_state
        then done none
        else (o.log id "uncertain" >>= λ _.
            done (
              some
                (action_envelope (some id) (some "send_uncertain") (error_message failure) true)))

  unfoldable pub fail_send : String → SlotConfig → Client → Failure → Io S (Option Envelope)
  fail_send id slot client failure =
      if is_pre_click failure
      then before_click id slot client failure
      else after_click id client failure

  unfoldable pub settle_send : String → Client → Result SendResult → Io S (Option Envelope)
  settle_send id client (thrown e) = fail e
  settle_send id client (ok result) = do
    t ← o.now
    _ ← on_database_at o (confirm_send_attempt id result t)
    o.log id "generating"
    o.close client
    done none

  -- The call's own error and its last progress are kept together, since both are looked at later.
  unfoldable pub call_daemon :
      String
      → String
      → List RpcFile
      → String
      → Client
      → Io S (Result SendResult × Option SendProgress)
  call_daemon id prompt files url client =
      catch
        (on_database o (query (image_count id)) >>= λ images. o.call_send client (record {
          prompt = prompt;
          files = files;
          conversation_url = if_truthy (some url);
          image_count = images;
        }))
        (λ e. done (thrown e, none))

  -- under the lock
  unfoldable pub send_locked :
      String → SlotConfig → Client → String → List RpcFile → String → Io S (Option Envelope)
  send_locked id slot client prompt files url = do
    current ← on_database o (session id)
    if not (status_eq current.status RequestStatus.staged)
          || not (opt_eq current.slot_id (some slot.id))
        then (best_effort (o.close client) >>= λ _. done none)
        else do
          t ← o.now
          _ ← on_database_at o (arm_send_attempt id t)
          o.log id "sending"
          outcome ← call_daemon id prompt files url client
          catch (settle_send id client outcome.0)
              (λ raw. fail_send id slot client (with_progress_anchors raw outcome.1))

  unfoldable pub with_lock :
      String
      → SlotConfig
      → Client
      → String
      → List RpcFile
      → String
      → Result (Option Lock)
      → Io S (Option Envelope)
  with_lock id slot client prompt files url (thrown e) =
      end_send id RequestStatus.failed "internal" (error_message e) client
        (failed_envelope (some id) "internal" (error_message e))
  with_lock id slot client prompt files url (ok none) = do
    best_effort (o.close client)
    done (some (running_envelope id (some in_progress_message)))
  with_lock id slot client prompt files url (ok (some lock)) =
      finally (send_locked id slot client prompt files url) (o.release lock)

  unfoldable pub send : RequestRow → SlotConfig → Client → Io S (Option Envelope)
  send request slot client = do
    prompt ← o.read_prompt request.id
    files ← o.rpc_files request.id slot
    url ← catch (o.read_continue_url request.id) (λ e. done "")
    lock ← catch (o.try_send_lock request.id >>= λ l. done (ok l)) (λ e. done (thrown e))
    with_lock request.id slot client prompt files url lock
