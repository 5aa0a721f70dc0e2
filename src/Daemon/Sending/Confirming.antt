-- ===== src/Daemon/Sending/Confirming.antt =====
-- `sendMessage` of stacks/gpt-webai-pro/src/daemon/actions/send.ts after the click: the loop that
-- looks for the message on the page.
use home_server_infra.Prelude.{
  ℕ, zero, suc, ◌+◌, String, Option, none, some, List, [], ◌∷◌, any, ltb, length, str_eq, ◌==◌,
  ◌&&◌, ◌||◌, not, if◌then◌else◌,
}
use home_server_infra.Prelude.Rows.{select_where, find_row}
use home_server_infra.Prelude.Text.{truthy}
use home_server_infra.Shared.Types.{SendResult, MatchedBy}
use home_server_infra.Delivery.Anchor.{if_truthy}
use home_server_infra.Daemon.Act.{returns, throws, reads, ◌>>=◌, ◌>>◌}
use home_server_infra.Daemon.Session.{TurnObservation, is_user, is_conversation_url}
use home_server_infra.Daemon.Sending.State.{
  Context, lift, assign, uncertain, not_confirmed, wants_images, Ready, Step,
}
use home_server_infra.Daemon.Sending.Preparing.{emit, step}

module _ {S Page Locator : Type 0} (x : Context S Page Locator) where
  open x use {browser, matching, fuel, confirm_window_ms, params}

  abbrev pub new_users : List String → List TurnObservation → List TurnObservation
  new_users baseline =
      select_where (λ t. is_user t && not (any (str_eq t.data_message_id) baseline))

  -- a durable anchor is kept as soon as a new turn is there
  abbrev pub keep_anchor : Page → List TurnObservation → Step S Page (Unit {0})
  keep_anchor page [] = returns tt
  keep_anchor page (first ∷ _) = do
    url ← lift (reads (browser.url page))
    assign (λ l. record l {
      pending_user_turn_id =
          if truthy l.pending_user_turn_id
          then l.pending_user_turn_id
          else some first.data_message_id;
      pending_conversation_url = some url;
    })
    emit x

  abbrev pub matched_by : ℕ → String → Option MatchedBy
  matched_by users text =
      if matching.strict text params.prompt
        || (wants_images params && matching.image_sent text params.prompt)
      then some MatchedBy.strict
      else if users == 1 && matching.loose text params.prompt
      then some MatchedBy.loose
      else if users == 1 && matching.length_sane text params.prompt
      then some MatchedBy.single_turn
      else none

  abbrev pub no_match : String → Step S Page (Unit {0})
  no_match text =
      assign (λ l. record l { match_debug = some (matching.evidence text params.prompt) })

  -- the loop over the new turns, of which there are `users`
  unfoldable pub find_match :
      Page → ℕ → List TurnObservation → Step S Page (Option (TurnObservation × MatchedBy))
  find_match page users [] = returns none
  find_match page users (t ∷ ts) =
      lift (browser.read_turn_text_by_id page t.data_message_id (wants_images params)) >>= λ text.
      elim text [
        | none ↦ find_match page users ts
        | some text ↦ elim (matched_by users text) [
          | some by ↦ returns (some (t, by))
          | none ↦ (no_match text >> find_match page users ts)
        ]
      ]

  abbrev id_of : Option TurnObservation → Option String
  id_of none = none
  id_of (some t) = some t.data_message_id

  abbrev pub landed :
      Ready Page Locator
      → List TurnObservation
      → String
      → Option (TurnObservation × MatchedBy)
      → Option SendResult
  landed r turns url none = none
  landed r turns url (some (t, by)) =
      if is_conversation_url browser url
      then some (record {
        conversation_url = url;
        user_turn_id = t.data_message_id;
        model_label = some r.model_label;
        assistant_turn_id = id_of (
            find_row
              (λ a.
                not (is_user a)
                && not (any (str_eq a.data_message_id) r.baseline)
                && ltb t.dom_index a.dom_index)
              turns);
        matched_by = some by;
      })
      else none

  abbrev pub give_up : Step S Page SendResult
  give_up =
      reads (λ w. w.locals) >>= λ l. throws (uncertain (not_confirmed (if_truthy l.match_debug)))

  -- each round waits 250 milliseconds
  unfoldable pub confirm_loop : ℕ → ℕ → Ready Page Locator → Step S Page SendResult
  confirm_loop zero deadline r = give_up
  confirm_loop (suc left) deadline r = lift browser.now >>= λ now.
      if ltb now deadline
      then (do
        turns ← lift (browser.read_turns_shallow r.page)
        keep_anchor r.page (new_users r.baseline turns)
        user ← find_match r.page (length (new_users r.baseline turns)) (new_users r.baseline turns)
        url ← lift (reads (browser.url r.page))
        elim (landed r turns url user) [
          | some result ↦ returns result
          | none ↦ (lift (browser.wait_for_timeout r.page 250) >> confirm_loop left deadline r)
        ])
      else give_up

  unfoldable pub confirm : Ready Page Locator → Step S Page SendResult
  confirm r =
      step x "confirm"
      >> (lift browser.now >>= λ now. confirm_loop fuel (now + confirm_window_ms) r)
