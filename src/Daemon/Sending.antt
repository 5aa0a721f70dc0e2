-- ===== src/Daemon/Sending.antt =====
-- `sendMessage` of stacks/gpt-webai-pro/src/daemon/actions/send.ts: a prompt is typed, sent by one
-- click, and looked for on the page.
pub mod State
pub mod Preparing
pub mod Confirming
pub mod Unclicked
pub mod BeforeClick
pub mod Phase
use Prim.Native.String.{◌++◌}
use home_server_infra.Prelude.{
  ℕ, zero, suc, ◌+◌, ◌-◌, ◌*◌, min, max, String, Bool, true, false, Option, none, some, List, [],
  ◌∷◌, any, map, ltb, length, str_eq, ◌==◌, ◌&&◌, ◌||◌, not, if◌then◌else◌,
}
use home_server_infra.Prelude.Rows.{select_where, find_row}
use home_server_infra.Prelude.Text.{truthy}
use home_server_infra.Shared.Types.{SendResult, MatchedBy}
use home_server_infra.Shared.Failure.{
  Failure, GwpError, ErrorKind, SendPhase, gwp_error, error_message,
}
use home_server_infra.Delivery.Anchor.{if_truthy}
use home_server_infra.Supervisor.Outside.{SendProgress, SendParams, RpcFile}
use home_server_infra.Daemon.Act.{Act, returns, throws, reads, catch, ◌>>=◌, ◌>>◌}
use home_server_infra.Daemon.Session.{
  Browser, TurnObservation, is_user, is_conversation_url, open_page, new_conversation,
}
use home_server_infra.Daemon.Composer.{
  Composer, fill_composer, attach_files, wait_for_expected_chips, wait_for_send_button,
  pre_click_failure,
}
use home_server_infra.Daemon.Reconcile.Verdict.{Matching}
use home_server_infra.Daemon.Sending.State.{
  SendState, Sending, Context, lift, assign, fresh_state, uncertain, not_confirmed, wants_images,
  bad_count, Described, described, rethrown, Ready, Step,
}
use home_server_infra.Daemon.Sending.Preparing.{prepare, click}
use home_server_infra.Daemon.Sending.Confirming.{confirm}

module _ {S Page Locator : Type 0} (x : Context S Page Locator) where
  open x use {browser, composer, outbox_dir}

  abbrev pub send_steps : Step S Page SendResult
  send_steps = prepare x >>= λ r. click x r >> confirm x r

  abbrev pub is_mismatch : Option ErrorKind → Bool
  is_mismatch (some ErrorKind.chip_mismatch) = true
  is_mismatch _ = false

  -- a snapshot of the page for the attachments that do not match
  abbrev pub snapshot : Page → String → Step S Page String
  snapshot page dir = lift (
      catch
        (composer.capture_inspection page dir >>= λ path.
          returns ("; attachment diagnostic: " ++ path))
        (λ e. returns ("; attachment capture failed: " ++ browser.show_error e)))

  abbrev pub diagnose : Option ErrorKind → Option Page → Option String → Step S Page String
  diagnose kind (some page) (some dir) =
      if is_mismatch kind && not (str_eq dir "") then snapshot page dir else returns ""
  diagnose kind (some page) none = returns ""
  diagnose kind none dir = returns ""

  abbrev pub pending_url : SendState Page → Option Page → S → Option String
  pending_url l none s = none
  pending_url l (some page) s = if l.click_started then some (browser.url page s) else none

  abbrev pub rethrow : Described → String → Step S Page SendResult
  rethrow d diagnostic =
      reads (λ w. rethrown d diagnostic w.locals (pending_url w.locals w.locals.page w.outside))
      >>= throws

  unfoldable pub on_error : Failure → Step S Page SendResult
  on_error e = do
    l ← reads (λ w. w.locals)
    diagnostic ← diagnose (described browser.show_error e).kind l.page outbox_dir
    rethrow (described browser.show_error e) diagnostic

  unfoldable pub run_send : Step S Page SendResult
  run_send = catch send_steps on_error

module _ {S Page Locator : Type 0} (x : Context S Page Locator) where
  abbrev pub started : ℕ → Act S SendResult
  started now s =
      let (r, w) =
        run_send (record x { started_at = now })
          (record { outside = s; locals = fresh_state now }) in
      (r, w.outside)

  unfoldable pub send_message : Act S SendResult
  send_message = x.browser.now >>= started
