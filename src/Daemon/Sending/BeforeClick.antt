-- ===== src/Daemon/Sending/BeforeClick.antt =====
-- The phase in an error of `sendMessage`, stacks/gpt-webai-pro/src/daemon/actions/send.ts: whether
-- the send button was clicked.
use home_server_infra.Prelude.{
  ℕ, zero, suc, String, Bool, true, false, Option, none, some, List, [], ◌∷◌, ◌≡◌, refl, ltb,
  length, str_eq, ◌&&◌, not, sym, ◌∙◌,
}
use home_server_infra.Prelude.Text.{truthy}
use home_server_infra.Shared.Failure.{Failure, SendPhase, ErrorKind}
use home_server_infra.Daemon.Act.{Act, returns, ◌>>=◌, ◌>>◌}
use home_server_infra.Daemon.Stays.{
  Stays, returns-Stays, throws-Stays, reads-Stays, bind-Stays, catch-Stays, if-Stays, option-Stays,
}
use home_server_infra.Daemon.Session.{TurnObservation}
use home_server_infra.Daemon.Sending.State.{
  SendState, Sending, Context, lift, assign, wants_images, bad_count, Ready, Step,
}
use home_server_infra.Daemon.Sending.Preparing.{
  emit, enter, step, page_for, write_prompt, attach, check_params, ready_button, prepare, click,
  button_wait, post,
}
use home_server_infra.Daemon.Sending.Confirming.{
  keep_anchor, find_match, matched_by, no_match, landed, give_up, confirm_loop, confirm,
}
use home_server_infra.Daemon.Sending.{
  send_steps, diagnose, snapshot, is_mismatch, on_error, run_send,
}
use home_server_infra.Daemon.Sending.Unclicked.{
  ClicksNothingElse, Unclicked, new_conversation-Stays, open_page-Stays, fill_composer-Stays,
  attach_files-Stays, wait_for_expected_chips-Stays, wait_for_send_button-Stays,
}

module _ {S Page Locator : Type 0} (x : Context S Page Locator) (clicked : S → Bool)
    (k : ClicksNothingElse x.browser x.composer clicked) where
  -- While the click is not begun, nothing was clicked.
  abbrev pub Honest : Sending S Page → Type 0
  Honest w = w.locals.click_started ≡ false → clicked w.outside ≡ false

  both :
      {A B : Type 0} (m : Step S Page A) (f : A → Step S Page B)
      → Stays Honest m
      → ((a : A) → Stays Honest (f a))
      → Stays Honest (m >>= f)
  both = bind-Stays Honest

  done : {A : Type 0} (a : A) → Stays Honest (returns a)
  done a = returns-Stays Honest a

  lifted :
      {A : Type 0} (m : Act S A)
      → Stays (Unclicked x.browser x.composer clicked) m
      → Stays Honest (lift m)
  unfolding lift
  lifted m h = record { holds = λ w i e. h.holds w.outside (i e) }

  assigned :
      (f : SendState Page → SendState Page)
      → ((l : SendState Page) → (f l).click_started ≡ l.click_started)
      → Stays Honest (assign f)
  assigned f h = record { holds = λ w i e. i (sym (h w.locals) ∙ e) }

  emit-Stays : Stays Honest (emit x)
  unfolding emit
  emit-Stays =
      both _ _ (lifted _ k.now)
        λ now. both _ _ (reads-Stays Honest _) λ l. lifted _ (k.on_progress _)

  enter-Stays : (name : String) (phase : SendPhase → SendPhase) → Stays Honest (enter x name phase)
  unfolding enter
  enter-Stays name phase =
      both _ _ (lifted _ k.now) λ now. both _ _ (assigned _ λ l. refl) λ _. emit-Stays

  step-Stays : (name : String) → Stays Honest (step x name)
  step-Stays name = enter-Stays name (λ p. p)

  page_for-Stays :
      (url : Option String) → Stays (Unclicked x.browser x.composer clicked) (page_for x url)
  page_for-Stays none = new_conversation-Stays x.browser x.composer clicked k
  page_for-Stays (some url) =
      if-Stays _ (str_eq url "") _ _ (new_conversation-Stays x.browser x.composer clicked k)
        (open_page-Stays x.browser x.composer clicked k url)

  check_params-Stays : Stays Honest (check_params x)
  check_params-Stays = if-Stays Honest (bad_count x.params) _ _ (throws-Stays Honest _ _) (
      if-Stays Honest (wants_images x.params && truthy x.params.conversation_url) _ _
        (throws-Stays Honest _ _) (done tt))

  write_prompt-Stays : (p : Page) → Stays Honest (write_prompt x p)
  write_prompt-Stays p =
      if-Stays Honest (wants_images x.params) _ _
        (both _ _ (step-Stays _) λ _. lifted _ (k.compose_image_prompt p x.params.prompt))
        (lifted _ (fill_composer-Stays x.browser x.composer clicked k p x.params.prompt))

  attach-Stays : (p : Page) → Stays Honest (attach x p)
  attach-Stays p =
      if-Stays Honest (ltb 0 (length x.params.files)) _ _
        (both _ _
          (both _ _
            (both _ _ (step-Stays _)
              λ _. lifted _ (attach_files-Stays x.browser x.composer clicked k p _))
            λ _. step-Stays _)
          λ _.
            lifted _
              (wait_for_expected_chips-Stays x.browser x.composer clicked k x.fuel p _ 30000))
        (done tt)

  ready_button-Stays : (o : Option Locator) → Stays Honest (ready_button x o)
  ready_button-Stays none = throws-Stays Honest _ _
  ready_button-Stays (some l) = done l

  prepare-Stays : Stays Honest (prepare x)
  unfolding prepare
  prepare-Stays = both _ _ emit-Stays λ _. both _ _ check_params-Stays λ _.
      both _ _ (lifted _ (page_for-Stays x.params.conversation_url)) λ page.
        both _ _ (assigned _ λ l. refl) λ _. both _ _ (step-Stays _) λ _.
          both _ _ (lifted _ (k.ensure_intelligence page _)) λ first. both _ _ (step-Stays _) λ _.
            both _ _ (write_prompt-Stays page) λ _. both _ _ (attach-Stays page) λ _.
              both _ _
                (if-Stays Honest (wants_images x.params) _ _
                  (lifted _ (k.ensure_intelligence page true)) (done first))
                λ label. both _ _ (step-Stays _) λ _.
                  both _ _ (lifted _ (k.read_turns_shallow page)) λ turns.
                    both _ _ (step-Stays _) λ _.
                      both _ _
                        (lifted _ (
                          wait_for_send_button-Stays x.browser x.composer clicked k x.fuel page
                            (button_wait x)))
                        λ found. both _ _ (ready_button-Stays found) λ send. done _

  abbrev Started : Sending S Page → Type 0
  Started w = w.locals.click_started ≡ true

  kept : {A : Type 0} (m : Act S A) → Stays Started (lift m)
  unfolding lift
  kept m = record { holds = λ w i. i }

  emit-Started : Stays Started (emit x)
  unfolding emit
  emit-Started =
      bind-Stays Started _ _ (kept _)
        λ now. bind-Stays Started _ _ (reads-Stays Started _) λ l. kept _

  enter-Started :
      (name : String) (phase : SendPhase → SendPhase) → Stays Started (enter x name phase)
  unfolding enter
  enter-Started name phase =
      bind-Stays Started _ _ (kept _)
        λ now. bind-Stays Started _ _ (record { holds = λ w i. i }) λ _. emit-Started

  begin_click-Started :
      (m : Step S Page (Unit {0})) (f : SendState Page → SendState Page)
      → ((l : SendState Page) → (f l).click_started ≡ true)
      → Stays Started m
      → (w : Sending S Page) → Started ((assign f >> m) w).1
  unfolding ◌>>=◌
  begin_click-Started m f h hm w = hm.holds (record w { locals = f w.locals }) (h w.locals)

  click-Started : (r : Ready Page Locator) (w : Sending S Page) → Started (click x r w).1
  unfolding click
  click-Started r =
      begin_click-Started _ _ (λ l. refl)
        (bind-Stays Started _ _ (enter-Started "click" (post x))
          λ _. catch-Stays Started _ _ (kept _) λ e. throws-Stays Started _ _)

  click-Stays : (r : Ready Page Locator) → Stays Honest (click x r)
  click-Stays r = record { holds = λ w i e. cc (click-Started r w) }

  no_match-Stays : (text : String) → Stays Honest (no_match x text)
  no_match-Stays text = assigned _ λ l. refl

  keep_anchor-Stays : (p : Page) (ts : List TurnObservation) → Stays Honest (keep_anchor x p ts)
  keep_anchor-Stays p [] = done tt
  keep_anchor-Stays p (t ∷ ts) =
      both _ _ (lifted _ (reads-Stays _ _)) λ url. both _ _ (assigned _ λ l. refl) λ _. emit-Stays

  find_match-Stays :
      (p : Page) (users : ℕ) (ts : List TurnObservation) → Stays Honest (find_match x p users ts)
  unfolding find_match
  find_match-Stays p users [] = done none
  find_match-Stays p users (t ∷ ts) =
      both _ _ (lifted _ (k.read_turn_text_by_id p t.data_message_id _)) λ text.
        option-Stays Honest text _ _ (find_match-Stays p users ts) λ text.
          option-Stays Honest (matched_by x users text) _ _
            (both _ _ (no_match-Stays text) λ _. find_match-Stays p users ts)
            λ by. done (some (t, by))

  give_up-Stays : Stays Honest (give_up x)
  give_up-Stays = both _ _ (reads-Stays Honest _) λ l. throws-Stays Honest _ _

  confirm_loop-Stays :
      (left deadline : ℕ) (r : Ready Page Locator) → Stays Honest (confirm_loop x left deadline r)
  unfolding confirm_loop
  confirm_loop-Stays zero deadline r = give_up-Stays
  confirm_loop-Stays (suc left) deadline r = both _ _ (lifted _ k.now) λ now.
      if-Stays Honest (ltb now deadline) _ _
        (both _ _ (lifted _ (k.read_turns_shallow r.page)) λ turns.
          both _ _ (keep_anchor-Stays r.page _) λ _. both _ _ (find_match-Stays r.page _ _) λ user.
            both _ _ (lifted _ (reads-Stays _ _)) λ url.
              option-Stays Honest (landed x r turns url user) _ _
                (both _ _ (lifted _ (k.wait_for_timeout r.page 250))
                  λ _. confirm_loop-Stays left deadline r)
                λ result. done result)
        give_up-Stays

  confirm-Stays : (r : Ready Page Locator) → Stays Honest (confirm x r)
  unfolding confirm
  confirm-Stays r =
      both _ _ (step-Stays "confirm") λ _. both _ _ (lifted _ k.now) λ now. confirm_loop-Stays _ _ r

  send_steps-Stays : Stays Honest (send_steps x)
  send_steps-Stays = both _ _ prepare-Stays λ r. both _ _ (click-Stays r) λ _. confirm-Stays r

  snapshot-Stays : (p : Page) (dir : String) → Stays Honest (snapshot x p dir)
  snapshot-Stays p dir = lifted _ (
      catch-Stays _ _ _ (bind-Stays _ _ _ (k.capture_inspection p dir) λ path. returns-Stays _ _)
        λ e. returns-Stays _ _)

  diagnose-Stays :
      (kind : Option ErrorKind) (page : Option Page) (dir : Option String)
      → Stays Honest (diagnose x kind page dir)
  diagnose-Stays kind (some page) (some dir) =
      if-Stays Honest (is_mismatch x kind && not (str_eq dir "")) _ _ (snapshot-Stays page dir)
        (done "")
  diagnose-Stays kind (some page) none = done ""
  diagnose-Stays kind none dir = done ""

  on_error-Stays : (e : Failure) → Stays Honest (on_error x e)
  unfolding on_error
  on_error-Stays e = both _ _ (reads-Stays Honest _) λ l.
      both _ _ (diagnose-Stays _ l.page x.outbox_dir)
        λ d. both _ _ (reads-Stays Honest _) λ f. throws-Stays Honest _ f

  pub run_send-Stays : Stays Honest (run_send x)
  unfolding run_send
  run_send-Stays = catch-Stays Honest _ _ send_steps-Stays on_error-Stays
