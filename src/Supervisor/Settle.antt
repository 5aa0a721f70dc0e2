-- ===== src/Supervisor/Settle.antt =====
-- `Supervisor.finishGeneratingFailure` of stacks/gpt-webai-pro/src/supervisor/run.ts, and the action
-- that makes a request's envelope.
use home_server_infra.Prelude.{
  String, Bool, true, false, not, Option, none, some, is_some, str_eq, if◌then◌else◌,
}
use home_server_infra.Shared.Types.{RequestRow, RequestStatus, status_eq}
use home_server_infra.Database.Store.{Result, ok, thrown, query}
use home_server_infra.Database.Requests.{update_request, no_patch}
use home_server_infra.Database.Images.{image_chunk_for_request}
use home_server_infra.Delivery.Anchor.{StoredSendAnchor}
use home_server_infra.Delivery.Settlement.{session, fail_generating}
use home_server_infra.Envelope.{
  Envelope, resume_command, running_envelope, action_envelope, failed_envelope,
  network_failure_envelope,
}
use home_server_infra.Supervisor.World.{Io, done, catch, finally, ◌>>=◌, ◌>>◌}
use home_server_infra.Supervisor.Outside.{Outside, on_database, on_database_at}
use home_server_infra.Supervisor.Report.{envelope_for, public_artifacts}
use home_server_infra.Supervisor.Send.{release_current}

-- What there is to return when the lock is released: an envelope, or the request to make one of.
pub data Failing : Type 0 where
  answers : Envelope → Failing
  reports : RequestRow → Failing

module _ {S Client Lock : Type 0} (o : Outside S Client Lock)
    (stringify : StoredSendAnchor → String) (answer_path : String → String) where
  -- `envelopeFor(request)`: the answer's file is read for a complete request only
  unfoldable pub read_answer_if : Bool → String → Io S (Result String)
  read_answer_if true id =
      catch (o.read_answer id >>= λ answer. done (ok answer)) (λ e. done (thrown e))
  read_answer_if false id = done (ok "")

  unfoldable pub report : RequestRow → Io S Envelope
  report request = do
    answer ← read_answer_if (status_eq request.status RequestStatus.complete) request.id
    on_database o (λ d. (envelope_for answer_path (λ path. answer) request d, d))

  -- an image request: what is there stays, and can be looked at again
  unfoldable pub keep_images : String → String → String → Io S Envelope
  keep_images id kind detail = do
    _ ← on_database_at o (
        update_request id (record no_patch {
          error_kind = some (some "image_poll_failed");
          error_detail = some (some detail);
        }))
    artifacts ← on_database o (query (public_artifacts id))
    if str_eq kind "network_disconnected"
        then done (record (network_failure_envelope (some id) detail) {
          resume_command = some (resume_command id);
          artifacts = artifacts;
        })
        else done (record (action_envelope (some id) (some "image_poll_failed") detail true) {
          artifacts = artifacts;
        })

  unfoldable pub fail_text : String → String → String → Io S Envelope
  fail_text id kind detail = do
    on_database_at o (fail_generating id kind detail)
    release_current o stringify id
    if str_eq kind "network_disconnected"
        then done (network_failure_envelope (some id) detail)
        else done (failed_envelope (some id) "internal" detail)

  unfoldable pub fail_current : RequestRow → String → String → String → Io S Failing
  fail_current current id kind detail =
      if not (status_eq current.status RequestStatus.generating) then done (reports current) else do
        images ← on_database o (query (image_chunk_for_request id))
        envelope ← if is_some images then keep_images id kind detail else fail_text id kind detail
        done (answers envelope)

  -- The envelope of a request that is not generating is made without the lock.
  unfoldable pub finish_failing : Failing → Io S Envelope
  finish_failing (answers envelope) = done envelope
  finish_failing (reports current) = report current

  unfoldable pub fail_under : String → String → String → Option Lock → Io S Envelope
  fail_under id kind detail none = done (running_envelope id none)
  fail_under id kind detail (some lock) =
      finally (on_database o (session id) >>= λ current. fail_current current id kind detail)
        (o.release lock)
      >>= finish_failing

  unfoldable pub finish_generating_failure : String → String → String → Io S Envelope
  finish_generating_failure id kind detail =
      o.try_send_lock id >>= λ lock. fail_under id kind detail lock
