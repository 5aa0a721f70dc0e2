-- ===== src/Daemon/Poll/Loop.antt =====
-- The loop of `pollConversation` in stacks/gpt-webai-pro/src/daemon/actions/poll.ts. The reads of the
-- page by scripts, the patterns of texts and the digest are arguments. A round reads the clock once
-- when it has seen the page.
use home_server_infra.Prelude.{
  ℕ, zero, suc, ◌+◌, ◌-◌, min, max, String, Bool, false, Option, none, some, List, [], ◌∷◌, length,
  ltb, leb, str_eq, ◌&&◌, ◌||◌, not, if◌then◌else◌,
}
use home_server_infra.Daemon.Act.{Act, returns, reads, ◌>>=◌}
use home_server_infra.Daemon.Session.{Browser, TurnObservation}
use home_server_infra.Daemon.Poll.Turns.{PollParams, matching_user, matching_assistant}
use home_server_infra.Daemon.Poll.Stability.{Stable, Shown, observe, is_settled}

pub record ArtifactControl : Type 0 where
  pub index : ℕ
  pub label : String

-- `state: "generating"` or `"complete"`, with the members that each has
pub data PollResult : Type 0 where
  generating : String → Option String → PollResult
  complete : String → Option String → String → String → List ArtifactControl → PollResult

pub record PageTools (S Page : Type 0) : Type 0 where
  pub sha256 : String → String
  pub generation_active : Page → Act S Bool
  pub read_assistant_answer : Page → String → Act S String
  pub answer_action_visible : Page → String → Act S Bool
  pub artifact_controls : Page → String → Act S (List ArtifactControl)
  pub generated_image_controls : Page → String → Act S (List ArtifactControl)
  pub image_answer_action_visible : Page → List ArtifactControl → Option String → Act S Bool
  pub generated_images_loaded : Page → List ArtifactControl → Act S Bool
  -- `FILENAME_PATTERN`, `ARTIFACT_HINT`, `!text.trim()`, `stripArtifactActionLines`
  pub names_file : String → Bool
  pub hints_artifact : String → Bool
  pub is_blank : String → Bool
  pub strip_artifact_action_lines : String → String
  pub image_label : ℕ → String

abbrev pub truthy_text : String → Bool
truthy_text s = not (str_eq s "")

module _ {S Page : Type 0} (b : Browser S Page) (t : PageTools S Page) where
  -- `hasArtifactHint`
  abbrev pub has_artifact_hint : String → String → Bool
  has_artifact_hint raw answer = t.is_blank answer || t.names_file raw || t.hints_artifact raw

  abbrev pub poll_pause : ℕ → ℕ → ℕ
  poll_pause deadline now = min 250 (max 1 (deadline - now))

  -- the loop of `settledArtifactControls`, with the controls that were seen last
  unfoldable pub controls_loop :
      ℕ → ℕ → Page → String → List ArtifactControl → Act S (List ArtifactControl)
  controls_loop zero deadline page id controls = returns controls
  controls_loop (suc fuel) deadline page id controls = b.now >>= λ now.
      if ltb now deadline
      then (b.now >>= λ later. b.wait_for_timeout page (min 500 (deadline - later)) >>= λ _.
          t.artifact_controls page id >>= λ seen.
          if ltb 0 (length seen) then returns seen else controls_loop fuel deadline page id seen)
      else returns controls

  unfoldable pub settled_artifact_controls :
      ℕ → Page → String → Bool → ℕ → Act S (Option (List ArtifactControl))
  settled_artifact_controls fuel page id hint poll_deadline =
      t.artifact_controls page id >>= λ controls.
      if ltb 0 (length controls) || not hint
      then returns (some controls)
      else (b.now >>= λ now.
          controls_loop fuel (min poll_deadline (now + 8000)) page id controls >>= λ last.
          returns
            (if ltb 0 (length last) || leb (now + 8000) poll_deadline then some last else none))

  -- what the assistant's turn shows; `none` where there is no such turn
  unfoldable pub show_turn : Page → Option TurnObservation → Act S (Option Shown)
  show_turn page none = (t.generation_active page >>= λ _. returns none)
  show_turn page (some turn) = do
    active ← t.generation_active page
    answer ← t.read_assistant_answer page turn.data_message_id
    let hint = has_artifact_hint turn.text answer
    let stability =
        if truthy_text answer
        then answer
        else if hint
        then (if truthy_text turn.text then turn.text else "\0")
        else ""
    ready ←
        if truthy_text stability
        then t.answer_action_visible page turn.data_message_id
        else returns false
    returns (
        some (record {
          id = turn.data_message_id;
          answer = answer;
          hint = hint;
          stability = stability;
          settled = not active && truthy_text stability && ready;
        }))

  module _ (params : PollParams) where
    abbrev pub still_generating : Page → Option String → Act S PollResult
    still_generating page id = reads (λ s. generating (b.url page s) id)

    abbrev finished : Page → Shown → List ArtifactControl → String → Act S PollResult
    finished page shown controls answer =
        reads (λ s. complete (b.url page s) (some shown.id) answer (t.sha256 answer) controls)

    -- after the controls have settled; `none` is `break`
    unfoldable pub finish : Page → Shown → Option (List ArtifactControl) → Act S PollResult
    finish page shown none = still_generating page (some shown.id)
    finish page shown (some []) =
        if truthy_text shown.answer
        then finished page shown [] shown.answer
        else still_generating page (some shown.id)
    finish page shown (some (c ∷ cs)) = t.read_assistant_answer page shown.id >>= λ answer.
        finished page shown (c ∷ cs) (t.strip_artifact_action_lines answer)

    abbrev pub shown_id : Option Shown → Option String
    shown_id none = none
    shown_id (some s) = some s.id

    abbrev pub one_round : Page → Act S (Option Shown)
    one_round page = b.read_turns page >>= λ turns.
        show_turn page
          (matching_assistant turns (matching_user t.sha256 turns params) params.assistant_turn_id)

    abbrev pub complete_with : ℕ → ℕ → Page → Shown → Act S PollResult
    complete_with fuel deadline page s =
        settled_artifact_controls fuel page s.id s.hint deadline >>= finish page s

    -- the end of a round: the deadline, the pause and the next round
    abbrev pub go_on : ℕ → Page → Option String → Act S PollResult → Act S PollResult
    go_on deadline page id again = b.now >>= λ now.
        if leb deadline now
        then still_generating page id
        else (b.now >>= λ later. b.wait_for_timeout page (poll_pause deadline later) >>= λ _.
            b.now >>= λ woken. if leb woken deadline then again else still_generating page id)

    -- the loop, each round of which waits a millisecond or more
    unfoldable pub poll_loop : ℕ → ℕ → Page → Stable → Act S PollResult
    poll_loop zero deadline page stable = still_generating page none
    poll_loop (suc fuel) deadline page stable = do
      shown ← one_round page
      seen_at ← b.now
      let again = poll_loop fuel deadline page (observe seen_at shown stable)
      elim (is_settled seen_at shown stable) [
        | none ↦ go_on deadline page (shown_id shown) again
        | some s ↦ complete_with fuel deadline page s
      ]
