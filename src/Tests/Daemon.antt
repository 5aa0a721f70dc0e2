-- ===== src/Tests/Daemon.antt =====
-- A browser with one tab on a conversation, and what the daemon makes of it.
use home_server_infra.Prelude.{
  ℕ, ◌+◌, ◌<◌, String, Bool, true, false, none, some, List, [], ◌∷◌, ◌≡◌, refl, ◌↔◌, all, length,
  str_eq, ◌∙◌,
}
use home_server_infra.Prelude.Text.{truthy}
use home_server_infra.Prelude.Rows.{select_where, find_row}
use home_server_infra.Shared.Types.{ReconcileResult}
use home_server_infra.Shared.Failure.{Failure, ErrorKind}
use home_server_infra.Database.Store.{ok, thrown}
use home_server_infra.Supervisor.Outside.{ReconcileParams}
use home_server_infra.Supervisor.Failing.{is_pre_click, with_progress_anchors}
use home_server_infra.Daemon.Act.{Act, returns, catch, ◌>>=◌}
use home_server_infra.Daemon.Stays.{Stays}
use home_server_infra.Daemon.Session.{
  user, assistant, TurnObservation, Browser, relevant_pages, relevant, is_conversation_url,
  is_conversation_path, new_conversation, navigate,
}
use home_server_infra.Daemon.Composer.{
  Composer, fill_composer, attach_files, wait_for_send_button, button_loop, pre_click_failure,
}
use home_server_infra.Daemon.Reconcile.{
  reconcile_send, scan_pages, observe, render_loop, wait_for_turn_render,
}
use home_server_infra.Daemon.Reconcile.Verdict.{
  Matching, Seen, new_users, verdict, judge_all, judge,
}
use home_server_infra.Daemon.Reconcile.Hits.{is_quiet, all_hits}
use home_server_infra.Daemon.Reconcile.Worth.{
  found_result, named, found_result-verdict, verdict-proven,
}
use home_server_infra.Daemon.Reconcile.FailClosed.{HasAddress, QuietPages, reconcile_send-proven}
use home_server_infra.Daemon.Sending.{send_message, run_send, on_error}
use home_server_infra.Daemon.Sending.State.{Context, lift, rethrown}
use home_server_infra.Daemon.Sending.Preparing.{emit, enter, prepare}
use home_server_infra.Daemon.Sending.Unclicked.{ClicksNothingElse}
use home_server_infra.Daemon.Sending.Phase.{send_message-unclicked}
use home_server_infra.Daemon.Wire.{encode_error, decode_error}
use home_server_infra.Daemon.Wire.Unsent.{received, received-unclicked}

-- the state: the time and whether the send button was clicked
record Tab : Type 0 where
  time : ℕ
  clicked : Bool

abbrev address : String
address = "https://chatgpt.com/c/1"

abbrev question : TurnObservation
question = record { role = user; data_message_id = "m1"; text = "hi"; dom_index = 0 }

abbrev reply : TurnObservation
reply = record { role = assistant; data_message_id = "m2"; text = "hello"; dom_index = 1 }

abbrev skip : {A : Type 0} → A → Act Tab A
skip a = returns a

abbrev one_tab : Browser Tab (Unit {0})
one_tab = record {
  base_url = "https://chatgpt.com";
  base_origin = "https://chatgpt.com";
  origin = λ u. some "https://chatgpt.com";
  pathname = λ u. some "/c/1";
  pages = skip (tt ∷ []);
  is_closed = λ p s. false;
  url = λ p s. address;
  new_page = skip tt;
  goto = λ p u. skip tt;
  close = λ p. skip tt;
  now = λ s. (ok s.time, s);
  wait_for_timeout = λ p ms s. (ok tt, record s { time = s.time + ms });
  is_direct_network_failure = λ e. false;
  show_error = λ e. "error";
  read_turns = λ p. skip (question ∷ reply ∷ []);
  read_turns_shallow = λ p. skip (question ∷ reply ∷ []);
  read_turn_text_by_id = λ p id i. skip (some "hi");
}

abbrev same_text : Matching
same_text = record {
  strict = str_eq;
  loose = λ a b. false;
  length_sane = λ a b. false;
  image_sent = λ a b. false;
  evidence = λ a b. "";
}

abbrev asking : String → List String → ReconcileParams
asking prompt baseline = record {
  prompt = prompt;
  prompt_sha256 = "";
  image_count = none;
  conversation_url = some address;
  pending_conversation_url = none;
  pending_user_turn_id = none;
  pre_click_baseline = some baseline;
}

abbrev seen_tab : List TurnObservation → Seen
seen_tab users = record {
  url = address;
  turns = some (question ∷ reply ∷ []);
  new_users = some users;
}

abbrev on_chat : String → Bool
on_chat u = str_eq u address

found_result-verdict_example :
    found_result
      (verdict same_text on_chat (asking "hi" []) true true (seen_tab (question ∷ []) ∷ []))
    ≡ named same_text
        (asking "hi" [])
        true
        on_chat
        (all_hits same_text (asking "hi" []) true on_chat (seen_tab (question ∷ []) ∷ []))
found_result-verdict_example =
    found_result-verdict same_text (asking "hi" []) true on_chat true
      (seen_tab (question ∷ []) ∷ [])

verdict-proven_example :
    (((verdict same_text on_chat (asking "p" []) true true (seen_tab [] ∷ [])).found ≡ false)
      × ((verdict same_text on_chat (asking "p" []) true true (seen_tab [] ∷ [])).proven ≡ true))
    ↔ ((true ≡ true)
        × (0 < length (seen_tab [] ∷ []))
        × (all (is_quiet same_text (asking "p" []) true on_chat) (seen_tab [] ∷ []) ≡ true))
verdict-proven_example =
    verdict-proven same_text (asking "p" []) true on_chat true (seen_tab [] ∷ [])

-- The only turn is from before the click: nothing was sent.
abbrev nothing_sent : ReconcileResult
nothing_sent = record {
  found = false;
  conversation_url = none;
  user_turn_id = none;
  assistant_turn_id = none;
  proven = true;
  matched_by = none;
  evidence = none;
}

abbrev start : Tab
start = record { time = 5; clicked = false }

scanned :
    (reconcile_send one_tab same_text 3 20000 (asking "p" ("m1" ∷ [])) start).0 ≡ ok nothing_sent
unfolding reconcile_send scan_pages observe render_loop wait_for_turn_render relevant_pages relevant
    is_conversation_url is_conversation_path new_users verdict judge_all judge select_where find_row
    ◌>>=◌ catch truthy
scanned = refl

reconcile_send-proven_example :
    (truthy (asking "p" ("m1" ∷ [])).pending_user_turn_id ≡ false)
    × HasAddress one_tab same_text 3 20000 (asking "p" ("m1" ∷ []))
    × QuietPages one_tab same_text 3 20000 (asking "p" ("m1" ∷ [])) start
reconcile_send-proven_example =
    reconcile_send-proven one_tab same_text 3 20000 (asking "p" ("m1" ∷ [])) start nothing_sent
      scanned refl refl

-- A page with a text box whose send button never shows.
abbrev no_button : Composer Tab (Unit {0}) (Unit {0})
no_button = record {
  text_box = λ p. skip (some tt);
  upload_control = λ p. skip none;
  send_button = λ p. skip none;
  file_input = λ p. skip none;
  click_text_box = λ l. skip tt;
  click_send = λ l s. (ok tt, record s { clicked = true });
  is_enabled = λ l. skip true;
  fill = λ l s n. skip tt;
  press_select_all = λ p. skip tt;
  insert_text = λ p s. skip tt;
  set_input_files = λ l files. skip tt;
  choose_files = λ p l files. skip tt;
  observe_attachment_chips = λ p. skip [];
  normalize_chip_stem = λ s. s;
  ensure_intelligence = λ p i. skip "Pro";
  compose_image_prompt = λ p s. skip tt;
  capture_inspection = λ p d. skip "/outbox/1";
  on_progress = λ p. skip tt;
  text_length = λ s. 1;
  show_chips = λ names chips. "";
}

abbrev sending : Context Tab (Unit {0}) (Unit {0})
sending = record {
  browser = one_tab;
  composer = no_button;
  matching = same_text;
  fuel = 2;
  confirm_window_ms = 300000;
  outbox_dir = some "/outbox";
  params = record { prompt = "p"; files = []; conversation_url = none; image_count = none };
  started_at = 0;
}

abbrev kept :
    {A : Type 0} (m : Act Tab A)
    → ((s : Tab) → (m s).1.clicked ≡ s.clicked)
    → Stays (λ (s : Tab). s.clicked ≡ false) m
kept m h = record { holds = λ s e. h s ∙ e }

only_send_clicks : ClicksNothingElse one_tab no_button (λ (s : Tab). s.clicked)
only_send_clicks = record {
  pages = kept _ (λ s. refl);
  new_page = kept _ (λ s. refl);
  goto = λ p u. kept _ (λ s. refl);
  now = kept _ (λ s. refl);
  wait_for_timeout = λ p n. kept _ (λ s. refl);
  read_turns_shallow = λ p. kept _ (λ s. refl);
  read_turn_text_by_id = λ p id i. kept _ (λ s. refl);
  text_box = λ p. kept _ (λ s. refl);
  upload_control = λ p. kept _ (λ s. refl);
  send_button = λ p. kept _ (λ s. refl);
  file_input = λ p. kept _ (λ s. refl);
  click_text_box = λ l. kept _ (λ s. refl);
  is_enabled = λ l. kept _ (λ s. refl);
  fill = λ l s n. kept _ (λ s. refl);
  press_select_all = λ p. kept _ (λ s. refl);
  insert_text = λ p s. kept _ (λ s. refl);
  set_input_files = λ l files. kept _ (λ s. refl);
  choose_files = λ p l files. kept _ (λ s. refl);
  observe_attachment_chips = λ p. kept _ (λ s. refl);
  ensure_intelligence = λ p i. kept _ (λ s. refl);
  compose_image_prompt = λ p s. kept _ (λ s. refl);
  capture_inspection = λ p d. kept _ (λ s. refl);
  on_progress = λ p. kept _ (λ s. refl);
}

abbrev button_missing : Failure
button_missing = pre_click_failure ErrorKind.compose_failed "send button is not ready"

refused : (send_message sending start).0 ≡ thrown button_missing
unfolding send_message run_send on_error prepare emit enter lift fill_composer attach_files
    wait_for_send_button button_loop new_conversation navigate rethrown truthy select_where ◌>>=◌
    catch
refused = refl

send_message-unclicked_example : (send_message sending start).1.clicked ≡ false
send_message-unclicked_example =
    send_message-unclicked sending (λ (s : Tab). s.clicked) only_send_clicks start button_missing
      refl refused refl

arrived : is_pre_click (received none button_missing) ≡ true
unfolding encode_error decode_error with_progress_anchors truthy
arrived = refl

received-unclicked_example : (send_message sending start).1.clicked ≡ false
received-unclicked_example =
    received-unclicked sending (λ (s : Tab). s.clicked) only_send_clicks none start button_missing
      refl refused arrived
