-- ===== src/Daemon/Poll/Binding.antt =====
-- The page of a request that is polled: `bindPollPage` of
-- stacks/gpt-webai-pro/src/daemon/actions/poll.ts.
use home_server_infra.Prelude.{
  String, Bool, true, false, Option, none, some, List, [], ◌∷◌, str_eq, not, if◌then◌else◌, is_some,
}
use home_server_infra.Prelude.Rows.{find_row, select_where}
use home_server_infra.Shared.Failure.{Failure, ErrorKind, gwp_error}
use home_server_infra.Daemon.Act.{Act, returns, throws, reads, attempt, catch, ◌>>=◌}
use home_server_infra.Daemon.Session.{
  Browser, TurnObservation, is_conversation_url, relevant_pages, inspection_page, open_page,
}
use home_server_infra.Daemon.Poll.Turns.{PollParams, has_confirmed_turn, matching_prompt_user}

abbrev pub turn_not_found : String → Failure
turn_not_found detail = gwp_error (record {
  kind = ErrorKind.turn_not_found;
  phase = none;
  detail = detail;
  network_evidence = false;
  pending_user_turn_id = none;
  pending_conversation_url = none;
  pre_click_baseline = none;
})

abbrev none_read : Option (List TurnObservation) → List TurnObservation
none_read none = []
none_read (some turns) = turns

abbrev pub first_of : {A : Type 0} → List A → Option A
first_of [] = none
first_of (x ∷ xs) = some x

-- `same` tells two pages apart, as `!==` does; `sha256` is the digest
module _ {S Page : Type 0} (b : Browser S Page) (same : Page → Page → Bool)
    (sha256 : String → String) where
  -- an unreadable page counts as one without turns
  unfoldable pub find_pages : (List TurnObservation → Bool) → List Page → Act S (List Page)
  find_pages matches [] = returns []
  find_pages matches (p ∷ ps) = attempt (b.read_turns p) >>= λ turns.
      find_pages matches ps >>= λ found.
      returns (if matches (none_read turns) then p ∷ found else found)

  abbrev pub find_page : (List TurnObservation → Bool) → List Page → Act S (Option Page)
  find_page matches pages = find_pages matches pages >>= λ found. returns (first_of found)

  abbrev by_prompt : List Page → Act S (Option Page)
  by_prompt (_ ∷ _ ∷ _) = throws (
      turn_not_found
        "multiple open conversations matched the prompt without a durable turn or URL anchor")
  by_prompt (p ∷ []) = returns (some p)
  by_prompt [] = returns none

  abbrev or_by_prompt : PollParams → List Page → Option Page → Act S (Option Page)
  or_by_prompt params pages (some p) = returns (some p)
  or_by_prompt params pages none =
      find_pages (λ turns. is_some (matching_prompt_user sha256 turns params)) pages >>= by_prompt

  unfoldable pub find_fallback_page : PollParams → Act S (Option Page)
  find_fallback_page params = relevant_pages b >>= λ pages.
      find_page (λ turns. has_confirmed_turn turns params) pages >>= or_by_prompt params pages

  abbrev current_first : Option Page → List Page → List Page
  current_first none relevant = relevant
  current_first (some p) relevant = p ∷ select_where (λ q. not (same q p)) relevant

  -- the page that was found in place of the address, or the error
  abbrev or_fail : Failure → Option Page → Act S Page
  or_fail e none = throws e
  or_fail e (some p) = returns p

  abbrev opened : PollParams → Page → Act S Page
  opened params p = reads (λ s. is_conversation_url b (b.url p s)) >>= λ here.
      if here
      then returns p
      else (find_fallback_page params
          >>= or_fail (
              turn_not_found
                "stored conversation URL redirected outside /c/ and no open tab matched the request"))

  abbrev no_page : PollParams → Failure → Act S (Option Page)
  no_page params e = find_fallback_page params >>= λ found. elim found [
    | none ↦ throws e
    | some p ↦ returns (some p)
  ]

  -- the page that was opened, or the fallback where that failed, which is not looked at again
  abbrev open_stored : PollParams → Act S Page
  open_stored params =
      catch (open_page b params.conversation_url >>= λ p. returns (p, true)) (λ e.
        no_page params e >>= λ found. elim found [ none ↦ throws e | some p ↦ returns (p, false) ])
      >>= λ (p, is_opened). if is_opened then opened params p else returns p

  abbrev stored_or_open : PollParams → List Page → Option Page → Act S Page
  stored_or_open params pages (some p) = returns p
  stored_or_open params pages none =
      reads (λ s. find_row (λ p. str_eq (b.url p s) params.conversation_url) pages) >>= λ stored.
      elim stored [ none ↦ open_stored params | some p ↦ returns p ]

  unfoldable pub bind_poll_page : PollParams → Act S Page
  bind_poll_page params = inspection_page b >>= λ current. relevant_pages b >>= λ relevant.
      find_page (λ turns. has_confirmed_turn turns params) (current_first current relevant)
      >>= stored_or_open params (current_first current relevant)
