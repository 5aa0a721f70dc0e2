-- ===== src/Tests/Poll.antt =====
-- A poll of a page that shows the same answer in each round, and turns of it.
use home_server_infra.Prelude.{ℕ, ◌+◌, true, false, none, some, List, [], ◌∷◌}
use home_server_infra.Database.Store.{ok}
use home_server_infra.Daemon.Act.{Act, returns}
use home_server_infra.Daemon.Session.{user, assistant, TurnObservation, Browser}
use home_server_infra.Daemon.Poll.Turns.{PollParams}
use home_server_infra.Daemon.Poll.Loop.{PollResult, complete, PageTools}

abbrev skip : {A : Type 0} → A → Act ℕ A
skip a = returns a

abbrev turns : List TurnObservation
turns =
    record { role = user; data_message_id = "m1"; text = "hi"; dom_index = 0 }
    ∷ record { role = assistant; data_message_id = "m2"; text = "hello"; dom_index = 1 }
    ∷ []

-- The state is the time; each wait takes two seconds.
abbrev quiet_page : Browser ℕ (Unit {0})
quiet_page = record {
  base_url = "https://chatgpt.com";
  base_origin = "https://chatgpt.com";
  origin = λ u. some "https://chatgpt.com";
  pathname = λ u. some "/c/1";
  pages = skip (tt ∷ []);
  is_closed = λ p s. false;
  url = λ p s. "https://chatgpt.com/c/1";
  new_page = skip tt;
  goto = λ p u. skip tt;
  close = λ p. skip tt;
  now = λ s. (ok s, s);
  wait_for_timeout = λ p ms s. (ok tt, s + 2000);
  is_direct_network_failure = λ e. false;
  show_error = λ e. "error";
  read_turns = λ p. skip turns;
  read_turns_shallow = λ p. skip turns;
  read_turn_text_by_id = λ p id i. skip (some "hi");
}

abbrev done_page : PageTools ℕ (Unit {0})
done_page = record {
  sha256 = λ s. s;
  generation_active = λ p. skip false;
  read_assistant_answer = λ p id. skip "hello";
  answer_action_visible = λ p id. skip true;
  artifact_controls = λ p id. skip [];
  generated_image_controls = λ p id. skip [];
  image_answer_action_visible = λ p controls id. skip false;
  generated_images_loaded = λ p controls. skip true;
  names_file = λ s. false;
  hints_artifact = λ s. false;
  is_blank = λ s. false;
  strip_artifact_action_lines = λ s. s;
  image_label = λ n. "";
}

abbrev polled : PollParams
polled = record {
  conversation_url = "https://chatgpt.com/c/1";
  prompt_sha256 = "hi";
  user_turn_id = some "m1";
  assistant_turn_id = none;
  wait_ms = 60000;
  image_count = none;
}

abbrev answered : PollResult
answered = complete "https://chatgpt.com/c/1" (some "m2") "hello" "hello" []
