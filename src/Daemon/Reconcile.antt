-- ===== src/Daemon/Reconcile.antt =====
-- Where a send of unknown outcome landed, from what the open pages show:
-- stacks/gpt-webai-pro/src/daemon/actions/reconcile.ts. A page is observed by an action, and what
-- was observed is judged by functions. The comparisons of texts are arguments.
pub mod Verdict
pub mod Hits
pub mod Worth
pub mod Named
pub mod FailClosed
use home_server_infra.Prelude.{
  ℕ, zero, suc, ◌+◌, String, Bool, true, false, Option, none, some, List, [], ◌∷◌, str_eq, ◌==◌,
  ◌&&◌, ◌||◌, not, any, length, ltb, is_some, if◌then◌else◌,
}
use home_server_infra.Prelude.Rows.{select_where, find_row}
use home_server_infra.Prelude.Text.{truthy}
use home_server_infra.Shared.Types.{ReconcileResult}
use home_server_infra.Supervisor.Outside.{ReconcileParams}
use home_server_infra.Daemon.Act.{Act, returns, reads, attempt, ◌>>=◌, ◌>>◌}
use home_server_infra.Daemon.Session.{
  Browser, TurnObservation, is_conversation_url, relevant_pages, open_page,
}
use home_server_infra.Daemon.Reconcile.Verdict.{
  Seen, Matching, new_users, has_images, verdict, anchor_verdict, PageTurns, unproven,
}

-- `uniqueStrings`
abbrev pub unique_strings : List (Option String) → List String
unique_strings [] = []
unique_strings (v ∷ vs) = elim v [
  | none ↦ unique_strings vs
  | some s ↦
      if str_eq s ""
      then unique_strings vs
      else s ∷ select_where (λ t. not (str_eq t s)) (unique_strings vs)
]

module _ {S Page : Type 0} (b : Browser S Page) where
  -- the loop of `waitForTurnRender`, given its deadline; each round waits 500 milliseconds
  unfoldable pub render_loop : ℕ → ℕ → Page → Act S (Unit {0})
  render_loop zero deadline p = returns tt
  render_loop (suc fuel) deadline p = do
    now ← b.now
    if ltb now deadline
        then (attempt (b.read_turns_shallow p) >>= λ turns. elim turns [
          | none ↦ returns tt
          | some (_ ∷ _) ↦ returns tt
          | some [] ↦ (b.wait_for_timeout p 500 >> render_loop fuel deadline p)
        ])
        else returns tt

  unfoldable pub wait_for_turn_render : ℕ → ℕ → Page → Act S (Unit {0})
  wait_for_turn_render fuel wait_ms p = b.now >>= λ now. render_loop fuel (now + wait_ms) p

  abbrev pub wait_for_each : ℕ → ℕ → List Page → Act S (Unit {0})
  wait_for_each fuel wait_ms [] = returns tt
  wait_for_each fuel wait_ms (p ∷ ps) = do
    wait_for_turn_render fuel wait_ms p
    wait_for_each fuel wait_ms ps

  -- the texts of the new turns of an image batch, read again one by one; none where one is gone
  unfoldable pub reread : Page → List TurnObservation → Act S (Option (List TurnObservation))
  reread p [] = returns (some [])
  reread p (t ∷ ts) = do
    text ← attempt (b.read_turn_text_by_id p t.data_message_id true)
    elim text [
      | some (some text) ↦
          (reread p ts >>= λ rest. elim rest [
            | none ↦ returns none
            | some ts' ↦ returns (some (record t { text = text } ∷ ts'))
          ])
      | some none ↦ returns none
      | none ↦ returns none
    ]

  abbrev pub new_users_of :
      ReconcileParams → Page → Option (List TurnObservation) → Act S (Option (List TurnObservation))
  new_users_of params p none = returns none
  new_users_of params p (some turns) =
      let users = new_users params turns in
      if has_images params then reread p users else returns (some users)

  unfoldable pub observe : ReconcileParams → Page → Act S Seen
  observe params p = do
    url ← reads (b.url p)
    turns ← attempt (b.read_turns p)
    users ← new_users_of params p turns
    returns (record { url = url; turns = turns; new_users = users })

  abbrev pub observe_all : ReconcileParams → List Page → Act S (List Seen)
  observe_all params [] = returns []
  observe_all params (p ∷ ps) = do
    seen ← observe params p
    rest ← observe_all params ps
    returns (seen ∷ rest)

  module _ (m : Matching) where
    unfoldable pub scan_pages : ReconcileParams → Bool → Bool → List Page → Act S ReconcileResult
    scan_pages params can_prove anchored pages = observe_all params pages >>= λ seen.
        returns (verdict m (is_conversation_url b) params can_prove anchored seen)

    abbrev pub read_all : List Page → Act S (List PageTurns)
    read_all [] = returns []
    read_all (p ∷ ps) = do
      turns ← attempt (b.read_turns p)
      rest ← read_all ps
      url ← reads (b.url p)
      returns (record { url = url; turns = turns } ∷ rest)

    unfoldable pub scan_user_turn_anchor : List Page → String → Act S ReconcileResult
    scan_user_turn_anchor pages id =
        read_all pages >>= λ seen. returns (anchor_verdict (is_conversation_url b) id seen)

    module _ (fuel wait_ms : ℕ) where
      -- `for (const anchor of anchors.filter(…))` with a turn's id at hand
      unfoldable pub rebind : List String → String → Act S ReconcileResult
      rebind [] id = returns (unproven none)
      rebind (anchor ∷ anchors) id =
          if is_conversation_url b anchor
          then (do
            opened ← attempt (open_page b anchor)
            elim opened [ none ↦ returns tt | some p ↦ wait_for_turn_render fuel wait_ms p ]
            pages ← relevant_pages b
            rebound ← scan_user_turn_anchor pages id
            if rebound.found then returns rebound else rebind anchors id)
          else rebind anchors id

      -- the open pages at the first anchor that is a conversation and has one
      abbrev pub exact_pages : List Page → List String → S → Option (List Page)
      exact_pages pages [] s = none
      exact_pages pages (anchor ∷ anchors) s =
          let exact = select_where (λ p. str_eq (b.url p s) anchor) pages in
          let rest = exact_pages pages anchors s in
          if ltb 0 (length exact) && is_conversation_url b anchor then some exact else rest

      -- the scan of all that is open, which proves no absence
      unfoldable pub scan_unanchored : ReconcileParams → Act S ReconcileResult
      scan_unanchored params = relevant_pages b >>= λ pages. scan_pages params false false pages

      -- the page that was opened, where it stayed on a conversation; none falls through
      abbrev pub open_anchor : ReconcileParams → String → Act S (Option ReconcileResult)
      open_anchor params url = do
        opened ← open_page b url
        here ← reads (λ s. is_conversation_url b (b.url opened s))
        if here
            then (do
              wait_for_turn_render fuel wait_ms opened
              r ← scan_pages params true true (opened ∷ [])
              returns (some r))
            else returns none

      abbrev pub or_unanchored :
          ReconcileParams → Option (Option ReconcileResult) → Act S ReconcileResult
      or_unanchored params (some (some r)) = returns r
      or_unanchored params _ = scan_unanchored params

      -- from `navigationUrl` on
      abbrev pub without_exact : ReconcileParams → Option String → Act S ReconcileResult
      without_exact params none = scan_unanchored params
      without_exact params (some url) = attempt (open_anchor params url) >>= or_unanchored params

      abbrev pub anchors_of : ReconcileParams → List String
      anchors_of params =
          unique_strings (params.pending_conversation_url ∷ params.conversation_url ∷ [])

      abbrev pub by_turn : List Page → ReconcileParams → String → Act S ReconcileResult
      by_turn pages params id = do
        observed ← scan_user_turn_anchor pages id
        if observed.found then returns observed else rebind (anchors_of params) id

      abbrev pub at_exact : ReconcileParams → Option (List Page) → Act S ReconcileResult
      at_exact params none =
          without_exact params (find_row (is_conversation_url b) (anchors_of params))
      at_exact params (some exact) =
          wait_for_each fuel wait_ms exact >> scan_pages params true true exact

      abbrev pub by_address : List Page → ReconcileParams → Act S ReconcileResult
      by_address pages params = reads (exact_pages pages (anchors_of params)) >>= at_exact params

      abbrev pub by_turn_id : List Page → ReconcileParams → Option String → Act S ReconcileResult
      by_turn_id pages params none = by_address pages params
      by_turn_id pages params (some id) =
          if str_eq id "" then by_address pages params else by_turn pages params id

      unfoldable pub reconcile_send : ReconcileParams → Act S ReconcileResult
      reconcile_send params =
          relevant_pages b >>= λ pages. by_turn_id pages params params.pending_user_turn_id
