-- ===== src/Supervisor/Failing.antt =====
-- `withProgressAnchors` of stacks/gpt-webai-pro/src/supervisor/run.ts: what is made of an error of a
-- send, and how the errors of a send are told apart.
use Prim.Native.String.{◌++◌}
use home_server_infra.Prelude.{
  ℕ, ◌+◌, ◌/◌, Bool, true, false, Option, none, some, ◌≡◌, arith, if◌then◌else◌, is_some,
}
use home_server_infra.Prelude.Text.{decimal}
use home_server_infra.Shared.Failure.{Failure, ErrorKind, SendPhase, error_message, gwp_error}
use home_server_infra.Delivery.Anchor.{SendAnchor, if_truthy}
use home_server_infra.Supervisor.Outside.{SendProgress}

-- `Math.round(elapsedMs / 1_000)`
abbrev seconds : ℕ → ℕ
seconds ms = (ms + 500) / 1000

abbrev anchored : Failure → SendProgress → Failure
anchored failure progress = gwp_error (record {
  kind = ErrorKind.click_uncertain;
  phase = some SendPhase.post_click;
  detail =
      error_message failure
      ++ " (last step: "
      ++ progress.step
      ++ " +"
      ++ decimal (seconds progress.elapsed_ms)
      ++ "s)";
  network_evidence = false;
  pending_user_turn_id = if_truthy progress.pending_user_turn_id;
  pending_conversation_url = if_truthy progress.pending_conversation_url;
  pre_click_baseline = progress.pre_click_baseline;
})

unfoldable pub with_progress_anchors : Failure → Option SendProgress → Failure
with_progress_anchors (gwp_error e) progress = gwp_error e
with_progress_anchors failure none = failure
with_progress_anchors failure (some progress) = anchored failure progress

-- `error instanceof GwpError ? error.phase : undefined`, against "pre_click"
abbrev pub is_pre_click : Failure → Bool
is_pre_click (gwp_error e) = elim e.phase [
  | none ↦ false
  | some SendPhase.pre_click ↦ true
  | some SendPhase.post_click ↦ false
]
is_pre_click failure = false

abbrev pub kind_of : Failure → Option ErrorKind
kind_of (gwp_error e) = some e.kind
kind_of failure = none

abbrev pub anchor_of : Failure → Option SendAnchor
anchor_of (gwp_error e) = some (record {
  pending_user_turn_id = if_truthy e.pending_user_turn_id;
  pending_conversation_url = if_truthy e.pending_conversation_url;
  pre_click_baseline = e.pre_click_baseline;
})
anchor_of failure = none

-- what the last progress knew of the message
abbrev pub reported : Option SendProgress → Option SendAnchor
reported none = none
reported (some p) = some (record {
  pending_user_turn_id = if_truthy p.pending_user_turn_id;
  pending_conversation_url = if_truthy p.pending_conversation_url;
  pre_click_baseline = p.pre_click_baseline;
})

-- Adding the last progress to an error never turns it into one from before the click, nor hides
-- one; the anchor that is kept is the error's own if it is a `GwpError`, else the progress's.
pub with_progress_anchors_lem :
    (failure : Failure) (progress : Option SendProgress)
    → (is_pre_click (with_progress_anchors failure progress) ≡ is_pre_click failure)
      × (anchor_of (with_progress_anchors failure progress)
          ≡ (if is_some (kind_of failure) then anchor_of failure else reported progress))
unfolding with_progress_anchors
with_progress_anchors_lem failure progress = ground arith
