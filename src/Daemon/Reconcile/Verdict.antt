-- ===== src/Daemon/Reconcile/Verdict.antt =====
-- What `scanPages` and `scanUserTurnAnchor` of
-- stacks/gpt-webai-pro/src/daemon/actions/reconcile.ts make of what they read.
use home_server_infra.Prelude.{
  ℕ, ◌+◌, String, Bool, true, false, Option, none, some, List, [], ◌∷◌, ◌++◌, str_eq, ◌==◌, ◌&&◌,
  ◌||◌, not, any, all, length, ltb, is_some, if◌then◌else◌,
}
use home_server_infra.Prelude.Rows.{select_where}
use home_server_infra.Shared.Types.{ReconcileResult, MatchedBy}
use home_server_infra.Delivery.Anchor.{if_truthy}
use home_server_infra.Supervisor.Outside.{ReconcileParams}
use home_server_infra.Daemon.Session.{TurnObservation, is_user, is_user_turn, assistant_after}

-- a page as `scanPages` reads it: its turns, and the turns of users outside the baseline with the
-- texts that are compared; none where the read failed
pub record Seen : Type 0 where
  pub url : String
  pub turns : Option (List TurnObservation)
  pub new_users : Option (List TurnObservation)

-- `renderedTurnMatchesPrompt`, `renderedTurnMatchesPromptLoose`, `renderedTurnLengthSane`,
-- `imageSentTurnMatches` and `renderedTurnMatchEvidence`, of the text on the page and the prompt
pub record Matching : Type 0 where
  pub strict : String → String → Bool
  pub loose : String → String → Bool
  pub length_sane : String → String → Bool
  pub image_sent : String → String → Bool
  pub evidence : String → String → String

abbrev baseline_of : ReconcileParams → List String
baseline_of params = elim params.pre_click_baseline [ none ↦ [] | some ids ↦ ids ]

unfoldable pub new_users : ReconcileParams → List TurnObservation → List TurnObservation
new_users params =
    select_where (λ t. is_user t && not (any (str_eq t.data_message_id) (baseline_of params)))

abbrev pub unproven : Option String → ReconcileResult
unproven evidence = record {
  found = false;
  conversation_url = none;
  user_turn_id = none;
  assistant_turn_id = none;
  proven = false;
  matched_by = none;
  evidence = if_truthy evidence;
}

abbrev id_of : Option TurnObservation → Option String
id_of none = none
id_of (some t) = some t.data_message_id

-- `params.imageCount` as a condition
abbrev pub has_images : ReconcileParams → Bool
has_images params = elim params.image_count [ none ↦ false | some n ↦ not (n == 0) ]

abbrev pub found_at :
    String → List TurnObservation → TurnObservation → Option MatchedBy → ReconcileResult
found_at url turns user matched_by = record {
  found = true;
  conversation_url = some url;
  user_turn_id = some user.data_message_id;
  assistant_turn_id = id_of (assistant_after turns user.dom_index);
  proven = true;
  matched_by = matched_by;
  evidence = none;
}

-- the variables of the loop of `scanPages`
pub record Scan : Type 0 where
  pub unreadable : Bool
  pub ambiguous : Bool
  pub unbound_match : Bool
  pub unmatched_new_users : Bool
  pub readable : ℕ
  pub evidence : Option String
  pub matches : List ReconcileResult

abbrev pub fresh_scan : Scan
fresh_scan = record {
  unreadable = false;
  ambiguous = false;
  unbound_match = false;
  unmatched_new_users = false;
  readable = 0;
  evidence = none;
  matches = [];
}

abbrev pub is_empty : List TurnObservation → Bool
is_empty [] = true
is_empty (_ ∷ _) = false

module _ (m : Matching) (params : ReconcileParams) (anchored : Bool) where
  abbrev strict_matches : List TurnObservation → List TurnObservation
  strict_matches = select_where (λ t.
      m.strict t.text params.prompt || (has_images params && m.image_sent t.text params.prompt))

  abbrev loose_matches : List TurnObservation → List TurnObservation
  loose_matches users =
      if anchored && length users == 1
      then select_where (λ t. m.loose t.text params.prompt) users
      else []

  abbrev single_matches : List TurnObservation → List TurnObservation → List TurnObservation
  single_matches turns users =
      if anchored && length users == 1 && length (select_where is_user turns) == 1
      then select_where (λ t. m.length_sane t.text params.prompt) users
      else []

  -- `promptMatches` and `matchedBy`
  unfoldable pub prompt_matches :
      List TurnObservation → List TurnObservation → List TurnObservation × Option MatchedBy
  prompt_matches turns users = elim (strict_matches users) [
    | t ∷ ts ↦ (t ∷ ts, some MatchedBy.strict)
    | [] ↦ elim (loose_matches users) [
      | t ∷ ts ↦ (t ∷ ts, some MatchedBy.loose)
      | [] ↦ elim (single_matches turns users) [
        | t ∷ ts ↦ (t ∷ ts, some MatchedBy.single_turn)
        | [] ↦ ([], none)
      ]
    ]
  ]

  abbrev pub first_evidence : Option String → List TurnObservation → Option String
  first_evidence (some e) users = some e
  first_evidence none [] = none
  first_evidence none (t ∷ ts) = some (m.evidence t.text params.prompt)

  -- a page whose turns were all read, after `readable += 1`
  abbrev pub judge_matches :
      (String → Bool)
      → String
      → List TurnObservation
      → List TurnObservation
      → List TurnObservation × Option MatchedBy
      → Scan
      → Scan
  judge_matches is_conversation url turns users ([], by) scan =
      if ltb 0 (length users)
      then record scan {
        unmatched_new_users = true;
        evidence = if anchored then first_evidence scan.evidence users else scan.evidence;
      }
      else scan
  judge_matches is_conversation url turns users (t ∷ [], by) scan =
      if is_conversation url
      then record scan { matches = scan.matches ++ found_at url turns t by ∷ [] }
      else record scan { unbound_match = true }
  judge_matches is_conversation url turns users (t ∷ t' ∷ ts, by) scan = record scan {
    ambiguous = true;
  }

  -- one round of the loop
  unfoldable pub judge : (String → Bool) → Seen → Scan → Scan
  unfolding prompt_matches
  judge is_conversation seen scan = elim seen.turns [
    | none ↦ record scan { unreadable = true }
    | some turns ↦
        if anchored && is_empty turns
        then record scan { unreadable = true }
        else elim seen.new_users [
          | none ↦ record scan { unreadable = true; readable = scan.readable + 1 }
          | some users ↦
              judge_matches is_conversation seen.url turns users (prompt_matches turns users)
                (record scan { readable = scan.readable + 1 })
        ]
  ]

  unfoldable pub judge_all : (String → Bool) → List Seen → Scan → Scan
  judge_all is_conversation [] scan = scan
  judge_all is_conversation (s ∷ rest) scan =
      judge_all is_conversation rest (judge is_conversation s scan)

  -- after the loop
  unfoldable pub conclude : Bool → ℕ → Scan → ReconcileResult
  conclude can_prove pages scan = elim scan.matches [
    | r ∷ [] ↦ if not scan.ambiguous && not scan.unbound_match then r else unproven scan.evidence
    | _ ∷ _ ∷ _ ↦ unproven scan.evidence
    | [] ↦
        if scan.unreadable || scan.ambiguous || scan.unbound_match
        then unproven scan.evidence
        else record (unproven scan.evidence) {
          proven =
              can_prove && ltb 0 pages && scan.readable == pages && not scan.unmatched_new_users;
        }
  ]

unfoldable pub verdict :
    Matching → (String → Bool) → ReconcileParams → Bool → Bool → List Seen → ReconcileResult
unfolding conclude
verdict m is_conversation params can_prove anchored seen =
    conclude m params anchored can_prove (length seen)
      (judge_all m params anchored is_conversation seen fresh_scan)

-- a page as `scanUserTurnAnchor` reads it
pub record PageTurns : Type 0 where
  pub url : String
  pub turns : Option (List TurnObservation)

abbrev with_page : PageTurns → List TurnObservation → List (PageTurns × TurnObservation)
with_page p [] = []
with_page p (t ∷ ts) = (p, t) ∷ with_page p ts

-- `matches`: the turns that have the id, each with its page
unfoldable pub holders : String → List PageTurns → List (PageTurns × TurnObservation)
holders id [] = []
holders id (p ∷ ps) = elim p.turns [
  | none ↦ holders id ps
  | some turns ↦ with_page p (select_where (is_user_turn id) turns) ++ holders id ps
]

abbrev was_read : PageTurns → Bool
was_read p = is_some p.turns

abbrev turns_of : PageTurns → List TurnObservation
turns_of p = elim p.turns [ none ↦ [] | some turns ↦ turns ]

unfoldable pub anchor_verdict : (String → Bool) → String → List PageTurns → ReconcileResult
unfolding holders
anchor_verdict is_conversation id seen = elim (holders id seen) [
  | [] ↦ unproven none
  | (p, user) ∷ [] ↦
      if all was_read seen && is_conversation p.url
      then record (found_at p.url (turns_of p) user (some MatchedBy.turn_anchor)) {
        user_turn_id = some id;
      }
      else unproven none
  | _ ∷ _ ∷ _ ↦ unproven none
]
