-- ===== src/Daemon/Reconcile/Worth.antt =====
-- What a verdict of `scanPages` in stacks/gpt-webai-pro/src/daemon/actions/reconcile.ts is worth:
-- when it proves that nothing was sent, and when it names a turn.
use home_server_infra.Prelude.{
  ℕ, ◌<◌, String, Bool, true, false, Option, none, some, List, [], ◌∷◌, ◌==◌, ◌&&◌, not, all,
  length, ltb, if◌then◌else◌, ◌≡◌, refl, ◌↔◌, arith, Bool-cases, sym, inl, inr,
}
use home_server_infra.Shared.Types.{ReconcileResult}
use home_server_infra.Supervisor.Outside.{ReconcileParams}
use home_server_infra.Daemon.Reconcile.Verdict.{
  Seen, Matching, Scan, fresh_scan, judge_all, conclude, verdict,
}
use home_server_infra.Daemon.Reconcile.Hits.{
  Hit, result_of, is_quiet, all_hits, is_spoilt, Fits, judge_all-spoilt, judge_all-readable,
  judge_all-Fits,
}

-- a result that names a turn
abbrev pub found_result : ReconcileResult → Option ReconcileResult
found_result r = if r.found then some r else none

module _ (m : Matching) (params : ReconcileParams) (anchored : Bool)
    (is_conversation : String → Bool) where
  fresh-Fits : Fits m params anchored is_conversation [] fresh_scan
  fresh-Fits = record { matching = λ a u. refl; clear = λ n b. (refl, refl); bound = λ a u. refl }

  conclude-found :
      (can_prove : Bool) (pages : ℕ) (hs : List Hit) (scan : Scan)
      → Fits m params anchored is_conversation hs scan
      → (conclude m params anchored can_prove pages scan).found ≡ true
      → (h : Hit) × (hs ≡ h ∷ [])
        × (is_conversation h.url ≡ true)
        × (conclude m params anchored can_prove pages scan ≡ result_of h)
  unfolding conclude
  conclude-found can_prove pages [] scan f e =
      absurd (ground (arith, f.matching, f.clear (omega arith) refl))
  conclude-found can_prove pages (h ∷ []) scan f e = elim (Bool-cases (scan.ambiguous)) [
    | inl a ↦ absurd (ground arith)
    | inr a ↦ elim (Bool-cases (scan.unbound_match)) [
      | inl u ↦ absurd (ground arith)
      | inr u ↦ (h, refl, ground (arith, f.bound a u), rw (f.matching a u, a, u) refl)
    ]
  ]
  conclude-found can_prove pages (h ∷ h' ∷ hs) scan f e = elim (Bool-cases (scan.ambiguous)) [
    | inl a ↦ absurd (ground arith)
    | inr a ↦ elim (Bool-cases (scan.unbound_match)) [
      | inl u ↦ absurd (ground arith)
      | inr u ↦ absurd (ground (arith, f.matching a u))
    ]
  ]

  conclude-absent :
      (can_prove : Bool) (pages : ℕ) (hs : List Hit) (scan : Scan)
      → Fits m params anchored is_conversation hs scan
      → ((conclude m params anchored can_prove pages scan).found ≡ false)
      → (conclude m params anchored can_prove pages scan).proven ≡ (
          can_prove
          && ltb 0 pages
          && scan.readable == pages
          && not (is_spoilt m params anchored is_conversation scan))
  unfolding conclude
  conclude-absent can_prove pages [] scan f e = ground (arith, f.matching)
  conclude-absent can_prove pages (h ∷ hs) scan f e = ground (arith, f.matching)

  -- After the loop over all pages, nothing was seen before it.
  scanned-Fits :
      (seen : List Seen)
      → Fits m params anchored is_conversation
          (all_hits m params anchored is_conversation seen)
          (judge_all m params anchored is_conversation seen fresh_scan)
  scanned-Fits seen = judge_all-Fits m params anchored is_conversation seen [] fresh_scan fresh-Fits

  found-spoilt :
      (can_prove : Bool) (pages : ℕ) (scan : Scan)
      → (conclude m params anchored can_prove pages scan).found ≡ true
      → is_spoilt m params anchored is_conversation scan ≡ true
  unfolding conclude
  found-spoilt can_prove pages scan e = ground arith

  -- the result of the only hit, where that is on a conversation
  abbrev pub named : List Hit → Option ReconcileResult
  named [] = none
  named (h ∷ []) = if is_conversation h.url then some (result_of h) else none
  named (_ ∷ _ ∷ _) = none

  named-found :
      (can_prove : Bool) (pages : ℕ) (hs : List Hit) (scan : Scan)
      → Fits m params anchored is_conversation hs scan
      → found_result (conclude m params anchored can_prove pages scan) ≡ named hs
  unfolding conclude
  named-found can_prove pages hs scan f =
      elim (Bool-cases (conclude m params anchored can_prove pages scan).found) [
        | inl e ↦
            let (h, one, here, same) = conclude-found can_prove pages hs scan f e in
            rw (same, one, here) refl
        | inr e ↦ rw e (sym (unnamed hs f e))
      ]
    where
      unnamed :
          (hs : List Hit)
          → Fits m params anchored is_conversation hs scan
          → (conclude m params anchored can_prove pages scan).found ≡ false
          → named hs ≡ none
      unnamed [] f e = refl
      unnamed (h ∷ []) f e = elim (Bool-cases (is_conversation h.url)) [
        | inl here ↦
            let (a, u) = f.clear (omega arith) (ground arith) in
            absurd (ground (arith, f.matching a u))
        | inr nowhere ↦ rw nowhere refl
      ]
      unnamed (h ∷ h' ∷ hs) f e = refl

  -- A scan names a turn exactly where one user turn alone matches on all the pages that were read,
  -- and its page has a conversation's address; then the result is that turn on that page.
  pub found_result-verdict :
      (can_prove : Bool) (seen : List Seen)
      → found_result (verdict m is_conversation params can_prove anchored seen)
        ≡ named (all_hits m params anchored is_conversation seen)
  unfolding verdict
  found_result-verdict can_prove seen =
      named-found can_prove (length seen) (all_hits m params anchored is_conversation seen)
        (judge_all m params anchored is_conversation seen fresh_scan) (scanned-Fits seen)

  -- A scan finds nothing and proves that nothing was sent exactly where it may prove so, there is a
  -- page, and each page was read, is no empty conversation, and has no new turn of a user at all.
  pub verdict-proven :
      (can_prove : Bool) (seen : List Seen)
      → (((verdict m is_conversation params can_prove anchored seen).found ≡ false)
          × ((verdict m is_conversation params can_prove anchored seen).proven ≡ true))
        ↔ ((can_prove ≡ true)
            × (0 < length seen)
            × (all (is_quiet m params anchored is_conversation) seen ≡ true))
  unfolding verdict
  verdict-proven can_prove seen =
      let scan = judge_all m params anchored is_conversation seen fresh_scan in
      let spoilt = judge_all-spoilt m params anchored is_conversation seen fresh_scan in
      let count = judge_all-readable m params anchored is_conversation seen fresh_scan in
      let absent =
        conclude-absent can_prove (length seen) (all_hits m params anchored is_conversation seen)
          scan (scanned-Fits seen) in
      (
        λ (e, p). (ground (arith, absent e), ground (arith, absent e), ground (arith, absent e)),
        λ (c, n, q).
            elim (Bool-cases (conclude m params anchored can_prove (length seen) scan).found) [
              | inl f ↦ absurd (ground (arith, found-spoilt can_prove (length seen) scan f))
              | inr f ↦ (f, ground (arith, absent f, count q))
            ],
      )
