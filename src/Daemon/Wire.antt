-- ===== src/Daemon/Wire.antt =====
-- An error on its way from the daemon to the supervisor: what `handleMessage` of
-- stacks/gpt-webai-pro/src/daemon/main.ts writes of it, and what `RpcClient.onMessage` of
-- stacks/gpt-webai-pro/src/supervisor/rpc-client.ts reads. The JSON text between them is made and
-- read by the runtime; a member of a wrong type is not modelled.
pub mod Unsent
use home_server_infra.Prelude.{
  String, Bool, true, false, Option, none, some, List, str_eq, ◌&&◌, not, if◌then◌else◌, ◌≡◌, refl,
  arith,
}
use home_server_infra.Prelude.Text.{truthy}
use home_server_infra.Shared.Failure.{
  Failure, GwpError, ErrorKind, SendPhase, gwp_error, error_message,
}
use home_server_infra.Delivery.Anchor.{if_truthy}
use home_server_infra.Daemon.Sending.State.{phase_or}

-- the literals of `PUBLIC_ERROR_KINDS` and `DAEMON_ERROR_KINDS`
unfoldable pub kind_name : ErrorKind → String
kind_name ErrorKind.needs_login = "needs_login"
kind_name ErrorKind.provider_limit = "provider_limit"
kind_name ErrorKind.model_unavailable = "model_unavailable"
kind_name ErrorKind.send_uncertain = "send_uncertain"
kind_name ErrorKind.pool_busy = "pool_busy"
kind_name ErrorKind.daemon_unreachable = "daemon_unreachable"
kind_name ErrorKind.network_disconnected = "network_disconnected"
kind_name ErrorKind.internal = "internal"
kind_name ErrorKind.nav_failed = "nav_failed"
kind_name ErrorKind.compose_failed = "compose_failed"
kind_name ErrorKind.chip_mismatch = "chip_mismatch"
kind_name ErrorKind.click_uncertain = "click_uncertain"
kind_name ErrorKind.turn_not_found = "turn_not_found"
kind_name ErrorKind.artifact_failed = "artifact_failed"

-- the kind with this name among `DAEMON_ERROR_KINDS`, else "internal"
unfoldable pub daemon_kind : String → ErrorKind
daemon_kind s =
    if str_eq s "needs_login"
    then ErrorKind.needs_login
    else if str_eq s "provider_limit"
    then ErrorKind.provider_limit
    else if str_eq s "model_unavailable"
    then ErrorKind.model_unavailable
    else if str_eq s "nav_failed"
    then ErrorKind.nav_failed
    else if str_eq s "compose_failed"
    then ErrorKind.compose_failed
    else if str_eq s "chip_mismatch"
    then ErrorKind.chip_mismatch
    else if str_eq s "click_uncertain"
    then ErrorKind.click_uncertain
    else if str_eq s "turn_not_found"
    then ErrorKind.turn_not_found
    else if str_eq s "artifact_failed"
    then ErrorKind.artifact_failed
    else ErrorKind.internal

unfoldable pub phase_name : SendPhase → String
phase_name SendPhase.pre_click = "pre_click"
phase_name SendPhase.post_click = "post_click"

-- `phase === "pre_click" || phase === "post_click" ? { phase } : {}`
unfoldable pub phase_named : String → Option SendPhase
phase_named s =
    if str_eq s "pre_click"
    then some SendPhase.pre_click
    else if str_eq s "post_click"
    then some SendPhase.post_click
    else none

-- `error` of a response
pub record WireError : Type 0 where
  pub message : String
  pub kind : Option String
  pub phase : Option String
  pub detail : Option String
  pub pending_user_turn_id : Option String
  pub pending_conversation_url : Option String
  pub pre_click_baseline : Option (List String)

abbrev internal_error : String → GwpError
internal_error message = record {
  kind = ErrorKind.internal;
  phase = none;
  detail = message;
  network_evidence = false;
  pending_user_turn_id = none;
  pending_conversation_url = none;
  pre_click_baseline = none;
}

abbrev pub as_gwp : Failure → GwpError
as_gwp (gwp_error e) = e
as_gwp e = internal_error (error_message e)

abbrev named_phase : Option SendPhase → Option String
named_phase none = none
named_phase (some p) = some (phase_name p)

-- the phase that is sent: a send without one was not clicked
abbrev pub sent_phase : Bool → Option SendPhase → Option SendPhase
sent_phase is_send phase = if is_send then some (phase_or phase) else phase

-- the handler of errors in `handleMessage`, of a request that is or is not a `send`
unfoldable pub encode_error : Bool → Failure → WireError
unfolding phase_name
encode_error is_send failure =
    let e = as_gwp failure in
    record {
      message = e.detail;
      kind = some (kind_name e.kind);
      phase = named_phase (sent_phase is_send e.phase);
      detail = some e.detail;
      pending_user_turn_id = if_truthy e.pending_user_turn_id;
      pending_conversation_url = if_truthy e.pending_conversation_url;
      pre_click_baseline = e.pre_click_baseline;
    }

abbrev text_or : String → Option String → String
text_or s none = s
text_or s (some t) = t

abbrev phase_of : Option String → Option SendPhase
phase_of none = none
phase_of (some s) = phase_named s

-- the rejection in `onMessage`
unfoldable pub decode_error : WireError → Failure
unfolding phase_named daemon_kind
decode_error w = gwp_error (record {
  kind = daemon_kind (text_or "internal" w.kind);
  detail = text_or w.message w.detail;
  phase = phase_of w.phase;
  network_evidence = false;
  pending_user_turn_id = if_truthy w.pending_user_turn_id;
  pending_conversation_url = w.pending_conversation_url;
  pre_click_baseline = w.pre_click_baseline;
})

-- Which kinds the daemon may send.
abbrev pub is_daemon_kind : ErrorKind → Bool
is_daemon_kind ErrorKind.send_uncertain = false
is_daemon_kind ErrorKind.pool_busy = false
is_daemon_kind ErrorKind.daemon_unreachable = false
is_daemon_kind ErrorKind.network_disconnected = false
is_daemon_kind _ = true

daemon_kind-kind_name :
    (k : ErrorKind)
    → daemon_kind (kind_name k) ≡ (if is_daemon_kind k then k else ErrorKind.internal)
unfolding daemon_kind kind_name
daemon_kind-kind_name ErrorKind.needs_login = refl
daemon_kind-kind_name ErrorKind.provider_limit = refl
daemon_kind-kind_name ErrorKind.model_unavailable = refl
daemon_kind-kind_name ErrorKind.send_uncertain = refl
daemon_kind-kind_name ErrorKind.pool_busy = refl
daemon_kind-kind_name ErrorKind.daemon_unreachable = refl
daemon_kind-kind_name ErrorKind.network_disconnected = refl
daemon_kind-kind_name ErrorKind.internal = refl
daemon_kind-kind_name ErrorKind.nav_failed = refl
daemon_kind-kind_name ErrorKind.compose_failed = refl
daemon_kind-kind_name ErrorKind.chip_mismatch = refl
daemon_kind-kind_name ErrorKind.click_uncertain = refl
daemon_kind-kind_name ErrorKind.turn_not_found = refl
daemon_kind-kind_name ErrorKind.artifact_failed = refl

phase_named-phase_name : (p : SendPhase) → phase_named (phase_name p) ≡ some p
unfolding phase_named phase_name
phase_named-phase_name SendPhase.pre_click = refl
phase_named-phase_name SendPhase.post_click = refl

named_phase-sent : (p : Option SendPhase) → phase_of (named_phase p) ≡ p
named_phase-sent none = refl
named_phase-sent (some p) = phase_named-phase_name p

if_truthy_twice : (v : Option String) → if_truthy (if_truthy v) ≡ if_truthy v
unfolding truthy
if_truthy_twice none = refl
if_truthy_twice (some s) = ground arith

-- What the supervisor receives of an error of the daemon: its detail and baseline, its kind if the
-- daemon may send that, its phase, which for a send is never absent, and its anchors where they are
-- not empty. The evidence of a failed network is lost.
pub decode_error-encode_error :
    (is_send : Bool) (e : GwpError)
    → decode_error (encode_error is_send (gwp_error e))
      ≡ gwp_error (record {
        kind = if is_daemon_kind e.kind then e.kind else ErrorKind.internal;
        detail = e.detail;
        phase = sent_phase is_send e.phase;
        network_evidence = false;
        pending_user_turn_id = if_truthy e.pending_user_turn_id;
        pending_conversation_url = if_truthy e.pending_conversation_url;
        pre_click_baseline = e.pre_click_baseline;
      })
unfolding decode_error encode_error
decode_error-encode_error is_send e =
    rw
      (
        daemon_kind-kind_name e.kind,
        named_phase-sent (sent_phase is_send e.phase),
        if_truthy_twice e.pending_user_turn_id,
      )
      refl
