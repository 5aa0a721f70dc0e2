-- ===== src/Daemon/Wire/Unsent.antt =====
-- From the click in the daemon, stacks/gpt-webai-pro/src/daemon/actions/send.ts, to the supervisor
-- that takes the message for unsent, stacks/gpt-webai-pro/src/supervisor/run.ts.
use home_server_infra.Prelude.{String, Bool, true, false, Option, some, ◌≡◌, arith}
use home_server_infra.Shared.Failure.{Failure, GwpError, SendPhase, gwp_error}
use home_server_infra.Database.Store.{thrown}
use home_server_infra.Supervisor.Failing.{is_pre_click, with_progress_anchors}
use home_server_infra.Supervisor.Outside.{SendProgress}
use home_server_infra.Daemon.Sending.State.{SendState, Context, Described, rethrown}
use home_server_infra.Daemon.Sending.{send_message}
use home_server_infra.Daemon.Sending.Unclicked.{ClicksNothingElse}
use home_server_infra.Daemon.Sending.Phase.{unclicked_of_error}
use home_server_infra.Daemon.Wire.{encode_error, decode_error, decode_error-encode_error}

-- The error of a send, as the supervisor holds it after the daemon, the wire and the last progress.
abbrev pub received : Option SendProgress → Failure → Failure
received progress e = with_progress_anchors (decode_error (encode_error true e)) progress

abbrev says_clicked : Option SendPhase → Bool
says_clicked (some SendPhase.post_click) = true
says_clicked _ = false

received-is_pre_click :
    (progress : Option SendProgress) (e : GwpError)
    → is_pre_click (received progress (gwp_error e)) ≡ true
    → says_clicked e.phase ≡ false
unfolding with_progress_anchors
received-is_pre_click progress e h = ground (arith, decode_error-encode_error true e)

module _ {S Page Locator : Type 0} (x : Context S Page Locator) (clicked : S → Bool)
    (k : ClicksNothingElse x.browser x.composer clicked) (progress : Option SendProgress) where
  before_click :
      (d : Described) (diagnostic : String) (l : SendState Page) (url : Option String)
      → is_pre_click (received progress (rethrown d diagnostic l url)) ≡ true
      → l.click_started ≡ false
  unfolding rethrown
  before_click d diagnostic l url h = ground (arith, received-is_pre_click progress _ h)

  -- Where only the click of the send button counts as a click: if the supervisor takes the error of
  -- a send for one from before the click, whatever progress it knew, the daemon has not clicked.
  pub received-unclicked :
      (s : S) (e : Failure)
      → clicked s ≡ false
      → (send_message x s).0 ≡ thrown e
      → is_pre_click (received progress e) ≡ true
      → clicked (send_message x s).1 ≡ false
  received-unclicked =
      unclicked_of_error (λ e. is_pre_click (received progress e)) before_click x clicked k
