-- ===== src/Daemon/Reconcile/Hits.antt =====
-- What the loop of `scanPages` in stacks/gpt-webai-pro/src/daemon/actions/reconcile.ts gathers: the
-- user turns that match, and whether anything forbids a proof of absence.
use mathlib.Core.List.{append-nil, map-append}
use home_server_infra.Prelude.{
  ◌+◌, String, Bool, true, false, Option, none, some, List, [], ◌∷◌, ◌++◌, ◌&&◌, ◌||◌, not, all,
  length, ltb, map, if◌then◌else◌, ◌≡◌, refl, arith, append_assoc, length-append, all-append,
  Bool-cases, sym, subst, ◌∙◌, ◌≤◌, inl, inr, ◌⊎◌,
}
use home_server_infra.Prelude.Rows.{select_where}
use home_server_infra.Shared.Types.{ReconcileResult, MatchedBy}
use home_server_infra.Supervisor.Outside.{ReconcileParams}
use home_server_infra.Daemon.Session.{TurnObservation}
use home_server_infra.Daemon.Reconcile.Verdict.{
  Seen, Matching, Scan, prompt_matches, judge, judge_all, found_at, is_empty, judge_matches,
}

-- A user turn that matches, on a page with its turns.
pub record Hit : Type 0 where
  pub url : String
  pub turns : List TurnObservation
  pub turn : TurnObservation
  pub matched_by : Option MatchedBy

abbrev pub result_of : Hit → ReconcileResult
result_of h = found_at h.url h.turns h.turn h.matched_by

abbrev none_new : Option (List TurnObservation) → Bool
none_new none = false
none_new (some []) = true
none_new (some (_ ∷ _)) = false

List-cases {ℓ} : {A : Type ℓ} (xs : List A) → (xs ≡ []) ⊎ ((x : A) × (ys : List A) × (xs ≡ x ∷ ys))
List-cases [] = inl refl
List-cases (x ∷ xs) = inr (x, xs, refl)

module _ (m : Matching) (params : ReconcileParams) (anchored : Bool)
    (is_conversation : String → Bool) where
  -- The page was read, is not an empty conversation, and has no new turn of a user.
  abbrev pub is_quiet : Seen → Bool
  is_quiet s = elim s.turns [
    | none ↦ false
    | some turns ↦ not (anchored && is_empty turns) && none_new s.new_users
  ]

  abbrev each : String → List TurnObservation → List TurnObservation → Option MatchedBy → List Hit
  each url turns [] by = []
  each url turns (t ∷ ts) by =
      record { url = url; turns = turns; turn = t; matched_by = by } ∷ each url turns ts by

  abbrev each_of :
      String → List TurnObservation → List TurnObservation × Option MatchedBy → List Hit
  each_of url turns (ts, by) = each url turns ts by

  abbrev pub hits : Seen → List Hit
  hits s = elim s.turns [
    | none ↦ []
    | some turns ↦ if anchored && is_empty turns then [] else elim s.new_users [
      | none ↦ []
      | some users ↦ each_of s.url turns (prompt_matches m params anchored turns users)
    ]
  ]

  abbrev pub all_hits : List Seen → List Hit
  all_hits [] = []
  all_hits (s ∷ rest) = hits s ++ all_hits rest

  abbrev pub has_match : Scan → Bool
  has_match scan = elim scan.matches [ [] ↦ false | _ ∷ _ ↦ true ]

  -- Something was seen that forbids a proof of absence.
  abbrev pub is_spoilt : Scan → Bool
  is_spoilt scan =
      scan.unreadable
      || scan.ambiguous
      || scan.unbound_match
      || scan.unmatched_new_users
      || has_match scan

  no_users : (turns : List TurnObservation) → prompt_matches m params anchored turns [] ≡ ([], none)
  unfolding prompt_matches select_where
  no_users turns = ground arith

  abbrev judged :
      String
      → List TurnObservation
      → List TurnObservation
      → List TurnObservation × Option MatchedBy
      → Scan
      → Scan
  judged = judge_matches m params anchored is_conversation

  judge_matches-spoilt :
      (url : String) (turns : List TurnObservation) (t : TurnObservation)
      (users : List TurnObservation) (found : List TurnObservation × Option MatchedBy) (scan : Scan)
      → is_spoilt (judged url turns (t ∷ users) found scan) ≡ true
  judge_matches-spoilt url turns t users ([], by) scan = ground arith
  judge_matches-spoilt url turns t users (u ∷ [], by) scan = elim (List-cases scan.matches) [
    | inl e ↦ ground arith
    | inr e ↦ ground arith
  ]
  judge_matches-spoilt url turns t users (u ∷ v ∷ us, by) scan = ground arith

  judge-spoilt :
      (s : Seen) (scan : Scan)
      → is_spoilt (judge m params anchored is_conversation s scan)
        ≡ (is_spoilt scan || not (is_quiet s))
  unfolding judge
  judge-spoilt s scan = on s.url s.turns s.new_users
    where
      on :
          (url : String) (turns : Option (List TurnObservation))
          (users : Option (List TurnObservation))
          → is_spoilt (
              judge m params anchored is_conversation
                (record { url = url; turns = turns; new_users = users })
                scan)
            ≡ (is_spoilt scan
                || not (is_quiet (record { url = url; turns = turns; new_users = users })))
      on url none users = ground arith
      on url (some turns) none = ground arith
      on url (some turns) (some []) = ground (arith, no_users turns)
      on url (some turns) (some (t ∷ users)) = ground (
        arith,
        judge_matches-spoilt url turns t users (prompt_matches m params anchored turns (t ∷ users))
            (record scan { readable = scan.readable + 1 }),
      )

  judge-readable :
      (s : Seen) (scan : Scan)
      → is_quiet s ≡ true
      → (judge m params anchored is_conversation s scan).readable ≡ scan.readable + 1
  unfolding judge
  judge-readable s scan h = on s.url s.turns s.new_users h
    where
      on :
          (url : String) (turns : Option (List TurnObservation))
          (users : Option (List TurnObservation))
          → is_quiet (record { url = url; turns = turns; new_users = users }) ≡ true
          → (judge m params anchored is_conversation
              (record { url = url; turns = turns; new_users = users })
              scan).readable
            ≡ scan.readable + 1
      on url none users k = ground arith
      on url (some turns) none k = ground arith
      on url (some turns) (some []) k = ground (arith, no_users turns)
      on url (some turns) (some (t ∷ users)) k = ground arith

  pub judge_all-spoilt :
      (seen : List Seen) (scan : Scan)
      → is_spoilt (judge_all m params anchored is_conversation seen scan)
        ≡ (is_spoilt scan || not (all is_quiet seen))
  unfolding judge_all
  judge_all-spoilt [] scan = ground arith
  judge_all-spoilt (s ∷ rest) scan = ground (
    arith,
    judge-spoilt s scan,
    judge_all-spoilt rest (judge m params anchored is_conversation s scan),
  )

  pub judge_all-readable :
      (seen : List Seen) (scan : Scan)
      → all is_quiet seen ≡ true
      → (judge_all m params anchored is_conversation seen scan).readable
        ≡ scan.readable + length seen
  unfolding judge_all
  judge_all-readable [] scan h = omega arith
  judge_all-readable (s ∷ rest) scan h = ground (
    arith,
    judge-readable s scan,
    judge_all-readable rest (judge m params anchored is_conversation s scan),
  )

  abbrev pub is_bound : Hit → Bool
  is_bound h = is_conversation h.url

  -- The hits of the pages so far are the loop's matches, unless a page had more than one or one
  -- that is on no conversation.
  pub record Fits (hs : List Hit) (scan : Scan) : Type 0 where
    pub matching :
        scan.ambiguous ≡ false → scan.unbound_match ≡ false → scan.matches ≡ map result_of hs
    pub clear :
        length hs ≤ 1
        → all is_bound hs ≡ true
        → (scan.ambiguous ≡ false) × (scan.unbound_match ≡ false)
    pub bound : scan.ambiguous ≡ false → scan.unbound_match ≡ false → all is_bound hs ≡ true

  judge_matches-Fits :
      (url : String) (turns users : List TurnObservation)
      (found : List TurnObservation × Option MatchedBy) (hs : List Hit) (scan : Scan)
      → Fits hs scan
      → Fits (hs ++ each_of url turns found) (judged url turns users found scan)
  judge_matches-Fits url turns users ([], by) hs scan f =
      let same : hs ++ [] ≡ hs = append-nil hs in
      elim (Bool-cases (ltb 0 (length users))) [
        | inl some_new ↦
            rw (same, some_new) (record { matching = f.matching; clear = f.clear; bound = f.bound })
        | inr none_new ↦ rw (same, none_new) f
      ]
  judge_matches-Fits url turns users (t ∷ [], by) hs scan f =
      let h : Hit = record { url = url; turns = turns; turn = t; matched_by = by } in
      elim (Bool-cases (is_conversation url)) [
        | inl here ↦ rw here (record {
          matching = λ a u. rw (f.matching a u) (sym (map-append result_of hs (h ∷ [])));
          clear = λ n b.
              f.clear (omega (arith, length-append hs (h ∷ [])))
                (ground (arith, all-append is_bound hs (h ∷ [])));
          bound = λ a u. ground (arith, f.bound a u, all-append is_bound hs (h ∷ []));
        })
        | inr nowhere ↦ rw nowhere (record {
          matching = λ a u. absurd (cc);
          clear = λ n b. absurd (ground (arith, all-append is_bound hs (h ∷ [])));
          bound = λ a u. absurd (cc);
        })
      ]
  judge_matches-Fits url turns users (t ∷ t' ∷ ts, by) hs scan f = record {
    matching = λ a u. absurd (cc);
    clear = λ n b. absurd (omega (arith, length-append hs (each url turns (t ∷ t' ∷ ts) by)));
    bound = λ a u. absurd (cc);
  }

  -- What `matches`, `ambiguous` and `unboundMatch` do not show does not matter.
  Fits-same :
      (hs : List Hit) (scan scan' : Scan)
      → Fits hs scan
      → scan'.ambiguous ≡ scan.ambiguous
      → scan'.unbound_match ≡ scan.unbound_match
      → scan'.matches ≡ scan.matches
      → Fits hs scan'
  Fits-same hs scan scan' f a u e = record {
    matching = λ x y. e ∙ f.matching (sym a ∙ x) (sym u ∙ y);
    clear = λ x y. (a ∙ (f.clear x y).0, u ∙ (f.clear x y).1);
    bound = λ x y. f.bound (sym a ∙ x) (sym u ∙ y);
  }

  Fits-no_more : (hs : List Hit) (scan : Scan) → Fits hs scan → Fits (hs ++ []) scan
  Fits-no_more hs scan f = subst (λ l. Fits l scan) (sym (append-nil hs)) f

  judge_with-Fits :
      (url : String) (turns : Option (List TurnObservation)) (users : Option (List TurnObservation))
      (hs : List Hit) (scan : Scan)
      → Fits hs scan
      → Fits (hs ++ hits (record { url = url; turns = turns; new_users = users })) (
          judge m params anchored is_conversation
            (record { url = url; turns = turns; new_users = users })
            scan)
  unfolding judge
  judge_with-Fits url none users hs scan f =
      Fits-no_more hs _ (Fits-same hs scan _ f refl refl refl)
  judge_with-Fits url (some turns) none hs scan f = elim (Bool-cases (anchored && is_empty turns)) [
    | inl e ↦ rw e (Fits-no_more hs _ (Fits-same hs scan _ f refl refl refl))
    | inr e ↦ rw e (Fits-no_more hs _ (Fits-same hs scan _ f refl refl refl))
  ]
  judge_with-Fits url (some turns) (some users) hs scan f =
      elim (Bool-cases (anchored && is_empty turns)) [
        | inl e ↦ rw e (Fits-no_more hs _ (Fits-same hs scan _ f refl refl refl))
        | inr e ↦ rw e (
            judge_matches-Fits url turns users (prompt_matches m params anchored turns users) hs _
              (Fits-same hs scan _ f refl refl refl))
      ]

  pub judge_all-Fits :
      (seen : List Seen) (hs : List Hit) (scan : Scan)
      → Fits hs scan
      → Fits (hs ++ all_hits seen) (judge_all m params anchored is_conversation seen scan)
  unfolding judge_all
  judge_all-Fits [] hs scan f = Fits-no_more hs scan f
  judge_all-Fits (s ∷ rest) hs scan f =
      subst (λ l. Fits l (judge_all m params anchored is_conversation (s ∷ rest) scan))
        (append_assoc hs (hits s) (all_hits rest))
        (judge_all-Fits rest (hs ++ hits s) _ (judge_with-Fits s.url s.turns s.new_users hs scan f))
