-- ===== src/Daemon/Sending/Preparing.antt =====
-- `sendMessage` of stacks/gpt-webai-pro/src/daemon/actions/send.ts up to the click. The heartbeat
-- repeats the progress that `emit` gives and is left out.
use Prim.Native.String.{◌++◌}
use home_server_infra.Prelude.{
  ℕ, ◌-◌, ◌*◌, min, max, String, true, Option, none, some, List, [], ◌∷◌, map, ltb, length, str_eq,
  ◌&&◌, not, if◌then◌else◌,
}
use home_server_infra.Prelude.Rows.{select_where}
use home_server_infra.Prelude.Text.{truthy}
use home_server_infra.Shared.Failure.{ErrorKind, SendPhase}
use home_server_infra.Delivery.Anchor.{if_truthy}
use home_server_infra.Supervisor.Outside.{SendProgress, RpcFile}
use home_server_infra.Daemon.Act.{Act, returns, throws, reads, catch, ◌>>=◌, ◌>>◌}
use home_server_infra.Daemon.Session.{TurnObservation, open_page, new_conversation}
use home_server_infra.Daemon.Composer.{
  fill_composer, attach_files, wait_for_expected_chips, wait_for_send_button, pre_click_failure,
}
use home_server_infra.Daemon.Sending.State.{
  SendState, Context, lift, assign, uncertain, wants_images, bad_count, Ready, Step,
}

module _ {S Page Locator : Type 0} (x : Context S Page Locator) where
  open x use {browser, composer, fuel, params, started_at}

  abbrev progress : SendState Page → ℕ → SendProgress
  progress l now = record {
    step = l.step;
    phase = l.phase;
    elapsed_ms = now - started_at;
    step_elapsed_ms = now - l.step_started_at;
    pending_user_turn_id = if_truthy l.pending_user_turn_id;
    pending_conversation_url = if_truthy l.pending_conversation_url;
    pre_click_baseline = l.pre_click_baseline;
    match_debug = if_truthy l.match_debug;
  }

  unfoldable pub emit : Step S Page (Unit {0})
  emit = lift browser.now >>= λ now.
      reads (λ w. w.locals) >>= λ l. lift (composer.on_progress (progress l now))

  -- `step(name)`, and `step(name, "post_click")`
  unfoldable pub enter : String → (SendPhase → SendPhase) → Step S Page (Unit {0})
  enter name phase = lift browser.now >>= λ now.
      assign (λ l. record l { step = name; phase = phase l.phase; step_started_at = now }) >> emit

  abbrev pub step : String → Step S Page (Unit {0})
  step name = enter name (λ p. p)

  abbrev pub post : SendPhase → SendPhase
  post p = SendPhase.post_click

  abbrev pub page_for : Option String → Act S Page
  page_for none = new_conversation browser
  page_for (some url) = if str_eq url "" then new_conversation browser else open_page browser url

  abbrev pub get_page : Step S Page Page
  get_page = lift (page_for params.conversation_url)

  abbrev pub write_prompt : Page → Step S Page (Unit {0})
  write_prompt page =
      if wants_images params
      then step "select_image_tool" >> lift (composer.compose_image_prompt page params.prompt)
      else lift (fill_composer browser composer page params.prompt)

  abbrev file_path : RpcFile → String
  file_path f = f.container_path

  abbrev file_name : RpcFile → String
  file_name f = f.name

  abbrev pub attach : Page → Step S Page (Unit {0})
  attach page =
      if ltb 0 (length params.files)
      then step "attach"
        >> lift (attach_files browser composer page (map file_path params.files))
        >> step "verify_chips"
        >> lift
            (wait_for_expected_chips browser composer fuel page (map file_name params.files) 30000)
      else returns tt

  -- `new Set(baseline.map(…))`, in the order of insertion
  abbrev pub ids_of : List TurnObservation → List String
  ids_of [] = []
  ids_of (t ∷ ts) =
      t.data_message_id ∷ select_where (λ i. not (str_eq i t.data_message_id)) (ids_of ts)

  abbrev pub button_wait : ℕ
  button_wait = max 30000 (min 180000 (composer.text_length params.prompt * 2))

  -- the checks of the parameters
  abbrev pub check_params : Step S Page (Unit {0})
  check_params =
      if bad_count params
      then throws (pre_click_failure ErrorKind.compose_failed "imageCount must be from 1 through 5")
      else if wants_images params && truthy params.conversation_url
      then throws
          (pre_click_failure ErrorKind.compose_failed "image batches require a new conversation")
      else returns tt

  abbrev pub ready_button : Option Locator → Step S Page Locator
  ready_button none = throws (pre_click_failure ErrorKind.compose_failed "send button is not ready")
  ready_button (some send) = returns send

  unfoldable pub prepare : Step S Page (Ready Page Locator)
  prepare = do
    emit
    check_params
    page ← get_page
    assign (λ l. record l { page = some page })
    step "ensure_model"
    first_label ← lift (composer.ensure_intelligence page (wants_images params))
    step "compose"
    write_prompt page
    attach page
    model_label ←
        if wants_images params
        then lift (composer.ensure_intelligence page true)
        else returns first_label
    step "baseline"
    turns ← lift (browser.read_turns_shallow page)
    step "wait_send_button"
    found ← lift (wait_for_send_button browser composer fuel page button_wait)
    send ← ready_button found
    returns
        (record { page = page; model_label = model_label; send = send; baseline = ids_of turns })

  -- from `clickStarted = true` on
  abbrev pub press : Ready Page Locator → Step S Page (Unit {0})
  press r =
      catch (lift (composer.click_send r.send))
        (λ e. throws (uncertain ("send click did not return cleanly: " ++ browser.show_error e)))

  unfoldable pub click : Ready Page Locator → Step S Page (Unit {0})
  click r =
      assign (λ l. record l { pre_click_baseline = some r.baseline; click_started = true })
      >> (enter "click" post >> press r)
