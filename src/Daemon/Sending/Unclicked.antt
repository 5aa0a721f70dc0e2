-- ===== src/Daemon/Sending/Unclicked.antt =====
-- What `sendMessage` of stacks/gpt-webai-pro/src/daemon/actions/send.ts does to the page before the
-- click never clicks the send button.
use home_server_infra.Prelude.{
  ℕ, zero, suc, ◌+◌, String, Bool, false, Option, none, some, List, [], ◌≡◌, ltb,
}
use home_server_infra.Supervisor.Outside.{SendProgress}
use home_server_infra.Daemon.Act.{Act, returns, ◌>>=◌}
use home_server_infra.Daemon.Stays.{
  Stays, returns-Stays, throws-Stays, reads-Stays, bind-Stays, catch-Stays, if-Stays,
}
use home_server_infra.Daemon.Session.{
  Browser, relevant_pages, find_conversation_page, navigate, new_conversation, open_page, opened_at,
  or_open, is_conversation_url,
}
use home_server_infra.Daemon.Composer.{
  Composer, ChipObservation, fill_composer, fill_found, attach_files, attach_to, upload, chips_loop,
  chips_match, wait_for_expected_chips, enabled, button_loop, wait_for_send_button,
}

module _ {S Page Locator : Type 0} (b : Browser S Page) (c : Composer S Page Locator)
    (clicked : S → Bool) where
  abbrev pub Unclicked : S → Type 0
  Unclicked s = clicked s ≡ false

  -- Only a click of the send button counts as one.
  pub record ClicksNothingElse : Type 0 where
    pub pages : Stays Unclicked b.pages
    pub new_page : Stays Unclicked b.new_page
    pub goto : (p : Page) (u : String) → Stays Unclicked (b.goto p u)
    pub now : Stays Unclicked b.now
    pub wait_for_timeout : (p : Page) (n : ℕ) → Stays Unclicked (b.wait_for_timeout p n)
    pub read_turns_shallow : (p : Page) → Stays Unclicked (b.read_turns_shallow p)
    pub read_turn_text_by_id :
        (p : Page) (id : String) (i : Bool) → Stays Unclicked (b.read_turn_text_by_id p id i)
    pub text_box : (p : Page) → Stays Unclicked (c.text_box p)
    pub upload_control : (p : Page) → Stays Unclicked (c.upload_control p)
    pub send_button : (p : Page) → Stays Unclicked (c.send_button p)
    pub file_input : (p : Page) → Stays Unclicked (c.file_input p)
    pub click_text_box : (l : Locator) → Stays Unclicked (c.click_text_box l)
    pub is_enabled : (l : Locator) → Stays Unclicked (c.is_enabled l)
    pub fill : (l : Locator) (s : String) (n : ℕ) → Stays Unclicked (c.fill l s n)
    pub press_select_all : (p : Page) → Stays Unclicked (c.press_select_all p)
    pub insert_text : (p : Page) (s : String) → Stays Unclicked (c.insert_text p s)
    pub set_input_files :
        (l : Locator) (files : List String) → Stays Unclicked (c.set_input_files l files)
    pub choose_files :
        (p : Page) (l : Locator) (files : List String) → Stays Unclicked (c.choose_files p l files)
    pub observe_attachment_chips : (p : Page) → Stays Unclicked (c.observe_attachment_chips p)
    pub ensure_intelligence : (p : Page) (i : Bool) → Stays Unclicked (c.ensure_intelligence p i)
    pub compose_image_prompt :
        (p : Page) (s : String) → Stays Unclicked (c.compose_image_prompt p s)
    pub capture_inspection : (p : Page) (d : String) → Stays Unclicked (c.capture_inspection p d)
    pub on_progress : (p : SendProgress) → Stays Unclicked (c.on_progress p)

  module _ (k : ClicksNothingElse) where
    both :
        {A B : Type 0} (m : Act S A) (f : A → Act S B)
        → Stays Unclicked m
        → ((a : A) → Stays Unclicked (f a))
        → Stays Unclicked (m >>= f)
    both = bind-Stays Unclicked

    done : {A : Type 0} (a : A) → Stays Unclicked (returns a)
    done a = returns-Stays Unclicked a

    relevant_pages-Stays : Stays Unclicked (relevant_pages b)
    unfolding relevant_pages
    relevant_pages-Stays = both _ _ k.pages λ pages. reads-Stays Unclicked _

    opened_at-Stays : (url : String) → Stays Unclicked (opened_at b url)
    unfolding navigate
    opened_at-Stays url = both _ _ k.new_page λ p.
        both _ _ (catch-Stays Unclicked _ _ (k.goto p url) λ e. throws-Stays Unclicked _ _)
          λ _. done p

    pub new_conversation-Stays : Stays Unclicked (new_conversation b)
    unfolding new_conversation
    new_conversation-Stays = opened_at-Stays b.base_url

    or_open-Stays :
        (url : String) (existing : Option Page) → Stays Unclicked (or_open b url existing)
    or_open-Stays url none = opened_at-Stays url
    or_open-Stays url (some p) = done p

    pub open_page-Stays : (url : String) → Stays Unclicked (open_page b url)
    unfolding open_page find_conversation_page
    open_page-Stays url =
        if-Stays Unclicked (is_conversation_url b url) _ _
          (both _ _ (both _ _ relevant_pages-Stays λ pages. reads-Stays Unclicked _)
            (or_open-Stays url))
          (throws-Stays Unclicked _ _)

    fill_found-Stays :
        (p : Page) (prompt : String) (o : Option Locator)
        → Stays Unclicked (fill_found b c p prompt o)
    fill_found-Stays p prompt none = throws-Stays Unclicked _ _
    fill_found-Stays p prompt (some l) = both _ _ (k.click_text_box l) λ _.
        catch-Stays Unclicked _ _ (k.fill l prompt _)
          λ e. both _ _ (k.press_select_all p) λ _. k.insert_text p prompt

    pub fill_composer-Stays :
        (p : Page) (prompt : String) → Stays Unclicked (fill_composer b c p prompt)
    unfolding fill_composer
    fill_composer-Stays p prompt = both _ _ (k.text_box p) (fill_found-Stays p prompt)

    attach_to-Stays :
        (p : Page) (files : List String) (o : Option Locator)
        → Stays Unclicked (attach_to b c p files o)
    attach_to-Stays p files (some input) = k.set_input_files input files
    attach_to-Stays p files none = both _ _ (k.upload_control p) upload-Stays
      where
        upload-Stays : (o : Option Locator) → Stays Unclicked (upload b c p files o)
        upload-Stays none = throws-Stays Unclicked _ _
        upload-Stays (some control) = k.choose_files p control files

    pub attach_files-Stays :
        (p : Page) (files : List String) → Stays Unclicked (attach_files b c p files)
    unfolding attach_files
    attach_files-Stays p files = both _ _ (k.file_input p) (attach_to-Stays p files)

    chips_loop-Stays :
        (fuel deadline : ℕ) (p : Page) (names : List String) (latest : List ChipObservation)
        → Stays Unclicked (chips_loop b c fuel deadline p names latest)
    unfolding chips_loop
    chips_loop-Stays zero deadline p names latest = throws-Stays Unclicked _ _
    chips_loop-Stays (suc fuel) deadline p names latest = both _ _ k.now λ now.
        if-Stays Unclicked (ltb now deadline) _ _
          (both _ _ (k.observe_attachment_chips p) λ chips.
            if-Stays Unclicked (chips_match b c names chips) _ _ (done tt) (
              both _ _ (k.wait_for_timeout p 250)
                λ _. chips_loop-Stays fuel deadline p names chips))
          (throws-Stays Unclicked _ _)

    pub wait_for_expected_chips-Stays :
        (fuel : ℕ) (p : Page) (names : List String) (ms : ℕ)
        → Stays Unclicked (wait_for_expected_chips b c fuel p names ms)
    unfolding wait_for_expected_chips
    wait_for_expected_chips-Stays fuel p names ms =
        both _ _ k.now λ now. chips_loop-Stays fuel (now + ms) p names []

    enabled-Stays : (o : Option Locator) → Stays Unclicked (enabled b c o)
    enabled-Stays none = done false
    enabled-Stays (some l) = catch-Stays Unclicked _ _ (k.is_enabled l) λ e. done false

    button_loop-Stays :
        (fuel deadline : ℕ) (p : Page) → Stays Unclicked (button_loop b c fuel deadline p)
    unfolding button_loop
    button_loop-Stays zero deadline p = done none
    button_loop-Stays (suc fuel) deadline p = both _ _ k.now λ now.
        if-Stays Unclicked (ltb now deadline) _ _
          (both _ _ (k.send_button p) λ send. both _ _ (enabled-Stays send) λ ready.
            if-Stays Unclicked ready _ _ (done send)
              (both _ _ (k.wait_for_timeout p 250) λ _. button_loop-Stays fuel deadline p))
          (done none)

    pub wait_for_send_button-Stays :
        (fuel : ℕ) (p : Page) (ms : ℕ) → Stays Unclicked (wait_for_send_button b c fuel p ms)
    unfolding wait_for_send_button
    wait_for_send_button-Stays fuel p ms = both _ _ k.now λ now. button_loop-Stays fuel (now + ms) p
