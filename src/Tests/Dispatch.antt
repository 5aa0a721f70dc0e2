-- ===== src/Tests/Dispatch.antt =====
-- A daemon that counts its sends, asked about one of them; and two lists of names.
use home_server_infra.Prelude.{
  ℕ, ◌+◌, String, true, false, none, some, List, [], ◌∷◌, ◌≡◌, refl, arith, ◌↔◌,
}
use home_server_infra.Prelude.Maps.{lookup, insert, erase}
use home_server_infra.Shared.Types.{SendResult, ReconcileResult}
use home_server_infra.Database.Store.{ok}
use home_server_infra.Supervisor.Outside.{SendParams, ReconcileParams}
use home_server_infra.Daemon.Act.{returns, throws}
use home_server_infra.Daemon.Chips.{same_counts, counts, occurrences}
use home_server_infra.Daemon.Chips.SameCounts.{same_counts-counts}
use home_server_infra.Daemon.SendCache.{
  new_cache, begin_attempt, set_result, cached, forget_attempts, forget_entries,
}
use home_server_infra.Daemon.SendCache.Soundness.{begun, WasSet}
use home_server_infra.Daemon.Dispatch.{
  Served, Request, send, reconcile, reconciled, Methods, from_cache, dispatch, dispatch_send,
  dispatch_reconcile, serve,
}
use home_server_infra.Daemon.Dispatch.Answers.{dispatch-from_cache}
use home_server_infra.Shared.Failure.{Failure}

abbrev answered : SendResult
answered = record {
  conversation_url = "https://chatgpt.com/c/2";
  user_turn_id = "m7";
  model_label = none;
  assistant_turn_id = none;
  matched_by = none;
}

abbrev nothing_found : ReconcileResult
nothing_found = record {
  found = false;
  conversation_url = none;
  user_turn_id = none;
  assistant_turn_id = none;
  proven = false;
  matched_by = none;
  evidence = none;
}

abbrev counting : Methods ℕ (Unit {0}) (Unit {0})
counting = record {
  send_message = λ p n. (ok answered, n + 1);
  reconcile_send = λ p. returns nothing_found;
  poll_conversation = λ p. throws (Failure.error "no page");
  close_conversation = λ url. returns tt;
  other = λ o. returns tt;
  prompt_cache_key = λ prompt. prompt;
}

abbrev asks : String → SendParams
asks prompt = record { prompt = prompt; files = []; conversation_url = none; image_count = none }

abbrev about : String → ReconcileParams
about prompt = record {
  prompt = prompt;
  prompt_sha256 = prompt;
  image_count = none;
  conversation_url = none;
  pending_conversation_url = none;
  pending_user_turn_id = none;
  pre_click_baseline = none;
}

-- "again" is sent twice, "hi" once.
abbrev requests : List (Request (Unit {0}))
requests =
    send (asks "again") ∷ send (asks "hi") ∷ reconcile (about "again") ∷ send (asks "again") ∷ []

abbrev at_start : Served ℕ
at_start = record { outside = 0; cache = new_cache }

kept : cached "hi" (serve counting requests at_start).1.cache ≡ some answered
unfolding serve dispatch dispatch_send dispatch_reconcile begin_attempt forget_attempts set_result
    forget_entries lookup insert erase
kept = refl

dispatch-from_cache_example :
    ((dispatch counting (reconcile (about "hi")) (serve counting requests at_start).1).0
      ≡ ok (reconciled (from_cache answered)))
    × (begun "hi" (serve counting requests at_start).0 ≡ 1)
    × WasSet "hi" answered (serve counting requests at_start).0
unfolding serve dispatch dispatch_send dispatch_reconcile begin_attempt forget_attempts set_result
    forget_entries lookup insert erase
dispatch-from_cache_example =
    dispatch-from_cache counting requests 0 (about "hi") answered (omega arith) kept

abbrev uploaded : List String
uploaded = "a.txt" ∷ "b.txt" ∷ "a.txt" ∷ []

abbrev shown : List String
shown = "b.txt" ∷ "a.txt" ∷ "a.txt" ∷ []

same_counts-counts_example :
    (same_counts (counts uploaded) (counts shown) ≡ true)
    ↔ ((q : String) → occurrences q uploaded ≡ occurrences q shown)
same_counts-counts_example = same_counts-counts uploaded shown
