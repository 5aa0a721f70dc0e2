-- ===== src/Daemon/Composer.antt =====
-- What `sendMessage` of stacks/gpt-webai-pro/src/daemon/actions/send.ts does to the page before the
-- click: the text, the attachments and the wait for the button, over the calls of Playwright and
-- of the page's scripts that it makes.
use Prim.Native.String.{◌++◌}
use home_server_infra.Prelude.{
  ℕ, zero, suc, ◌+◌, min, max, String, Bool, false, Option, none, some, List, [], all, length, map,
  ltb, ◌==◌, ◌&&◌, if◌then◌else◌,
}
use home_server_infra.Shared.Failure.{Failure, ErrorKind, SendPhase, gwp_error}
use home_server_infra.Supervisor.Outside.{SendProgress}
use home_server_infra.Daemon.Act.{Act, returns, throws, catch, ◌>>=◌, ◌>>◌}
use home_server_infra.Daemon.Session.{Browser}
use home_server_infra.Daemon.Chips.{counts, same_counts}

pub record ChipObservation : Type 0 where
  pub filename : String
  pub is_complete : Bool

pub record Composer (S Page Locator : Type 0) : Type 0 where
  -- `visibleFirst` of the selectors of the text box, the upload control and the send button
  pub text_box : Page → Act S (Option Locator)
  pub upload_control : Page → Act S (Option Locator)
  pub send_button : Page → Act S (Option Locator)
  -- the first file input of the page, if there is one
  pub file_input : Page → Act S (Option Locator)
  pub click_text_box : Locator → Act S (Unit {0})
  pub click_send : Locator → Act S (Unit {0})
  pub is_enabled : Locator → Act S Bool
  pub fill : Locator → String → ℕ → Act S (Unit {0})
  -- the keys that select all, then the text
  pub press_select_all : Page → Act S (Unit {0})
  pub insert_text : Page → String → Act S (Unit {0})
  pub set_input_files : Locator → List String → Act S (Unit {0})
  -- the click on the upload control and the answer of the file chooser that it opens
  pub choose_files : Page → Locator → List String → Act S (Unit {0})
  pub observe_attachment_chips : Page → Act S (List ChipObservation)
  pub normalize_chip_stem : String → String
  -- `ensureIntelligence`, with the labels of images or the usual ones
  pub ensure_intelligence : Page → Bool → Act S String
  pub compose_image_prompt : Page → String → Act S (Unit {0})
  -- `captureInspection`: the path of the snapshot
  pub capture_inspection : Page → String → Act S String
  -- the observer of the progress
  pub on_progress : SendProgress → Act S (Unit {0})
  -- `text.length`
  pub text_length : String → ℕ
  pub show_chips : List String → List ChipObservation → String

abbrev pub pre_click_failure : ErrorKind → String → Failure
pre_click_failure kind detail = gwp_error (record {
  kind = kind;
  phase = some SendPhase.pre_click;
  detail = detail;
  network_evidence = false;
  pending_user_turn_id = none;
  pending_conversation_url = none;
  pre_click_baseline = none;
})

module _ {S Page Locator : Type 0} (b : Browser S Page) (c : Composer S Page Locator) where
  abbrev pub type_in : Page → String → Locator → Act S (Unit {0})
  type_in page prompt composer = do
    c.click_text_box composer
    catch (c.fill composer prompt (max 10000 (min 60000 (c.text_length prompt))))
        (λ _. do c.press_select_all page; c.insert_text page prompt)

  abbrev pub fill_found : Page → String → Option Locator → Act S (Unit {0})
  fill_found page prompt none =
      throws (pre_click_failure ErrorKind.compose_failed "composer is not visible")
  fill_found page prompt (some composer) = type_in page prompt composer

  unfoldable pub fill_composer : Page → String → Act S (Unit {0})
  fill_composer page prompt = c.text_box page >>= fill_found page prompt

  abbrev pub upload : Page → List String → Option Locator → Act S (Unit {0})
  upload page files none =
      throws (pre_click_failure ErrorKind.compose_failed "upload control is not available")
  upload page files (some control) = c.choose_files page control files

  abbrev pub attach_to : Page → List String → Option Locator → Act S (Unit {0})
  attach_to page files none = c.upload_control page >>= upload page files
  attach_to page files (some input) = c.set_input_files input files

  unfoldable pub attach_files : Page → List String → Act S (Unit {0})
  attach_files page files = c.file_input page >>= attach_to page files

  -- the condition of the loop of `waitForExpectedChips`
  abbrev pub chips_match : List String → List ChipObservation → Bool
  chips_match names chips =
      length chips == length names
      && all (λ (chip : ChipObservation). chip.is_complete) chips
      && same_counts (counts (map c.normalize_chip_stem names))
          (counts (map (λ (chip : ChipObservation). c.normalize_chip_stem chip.filename) chips))

  abbrev mismatch : List String → List ChipObservation → Failure
  mismatch names latest =
      pre_click_failure ErrorKind.chip_mismatch
        ("attachment chips did not match: " ++ c.show_chips names latest)

  -- each round waits 250 milliseconds
  unfoldable pub chips_loop : ℕ → ℕ → Page → List String → List ChipObservation → Act S (Unit {0})
  chips_loop zero deadline page names latest = throws (mismatch names latest)
  chips_loop (suc fuel) deadline page names latest = b.now >>= λ now.
      if ltb now deadline
      then (c.observe_attachment_chips page >>= λ chips.
          if chips_match names chips
          then returns tt
          else (b.wait_for_timeout page 250 >>= λ _. chips_loop fuel deadline page names chips))
      else throws (mismatch names latest)

  unfoldable pub wait_for_expected_chips : ℕ → Page → List String → ℕ → Act S (Unit {0})
  wait_for_expected_chips fuel page names timeout_ms =
      b.now >>= λ now. chips_loop fuel (now + timeout_ms) page names []

  -- a button that cannot be asked counts as disabled
  abbrev pub enabled : Option Locator → Act S Bool
  enabled none = returns false
  enabled (some send) = catch (c.is_enabled send) (λ _. returns false)

  unfoldable pub button_loop : ℕ → ℕ → Page → Act S (Option Locator)
  button_loop zero deadline page = returns none
  button_loop (suc fuel) deadline page = b.now >>= λ now.
      if ltb now deadline
      then (c.send_button page >>= λ send. enabled send >>= λ ready.
          if ready
          then returns send
          else (b.wait_for_timeout page 250 >>= λ _. button_loop fuel deadline page))
      else returns none

  unfoldable pub wait_for_send_button : ℕ → Page → ℕ → Act S (Option Locator)
  wait_for_send_button fuel page timeout_ms =
      b.now >>= λ now. button_loop fuel (now + timeout_ms) page
