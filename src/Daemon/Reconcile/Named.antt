-- ===== src/Daemon/Reconcile/Named.antt =====
-- Which parts of `reconcileSend` in stacks/gpt-webai-pro/src/daemon/actions/reconcile.ts never prove
-- that nothing was sent: the looks for a turn by its id, and the scan of all that is open.
use home_server_infra.Prelude.{
  ℕ, String, Bool, true, false, List, [], ◌∷◌, ◌||◌, not, if◌then◌else◌, ◌≡◌, refl, arith,
  Bool-cases, inl, inr,
}
use home_server_infra.Shared.Types.{ReconcileResult}
use home_server_infra.Supervisor.Outside.{ReconcileParams}
use home_server_infra.Daemon.Act.{
  Act, Ensures, returns, ◌>>=◌, returns-Ensures, bind-Ensures, then-Ensures, if-Ensures,
}
use home_server_infra.Daemon.Session.{Browser, is_conversation_url}
use home_server_infra.Daemon.Reconcile.{
  scan_pages, scan_user_turn_anchor, scan_unanchored, rebind, anchors_of, by_turn,
}
use home_server_infra.Daemon.Reconcile.Verdict.{Seen, Matching, verdict, anchor_verdict, PageTurns}
use home_server_infra.Daemon.Reconcile.Worth.{verdict-proven}

module _ {S Page : Type 0} (b : Browser S Page) (m : Matching) (fuel wait_ms : ℕ)
    (params : ReconcileParams) where
  -- The result names a turn, or proves nothing.
  abbrev pub IsNamed : ReconcileResult → Type 0
  IsNamed r = (r.found || not r.proven) ≡ true

  anchor-IsNamed :
      (id : String) (seen : List PageTurns)
      → IsNamed (anchor_verdict (is_conversation_url b) id seen)
  unfolding anchor_verdict
  anchor-IsNamed id seen = ground arith

  scan_user-IsNamed :
      (pages : List Page) (id : String) → Ensures IsNamed (scan_user_turn_anchor b m pages id)
  unfolding scan_user_turn_anchor
  scan_user-IsNamed pages id =
      then-Ensures IsNamed _ _ λ seen. returns-Ensures IsNamed _ (anchor-IsNamed id seen)

  -- A scan that may prove no absence proves none.
  unproved :
      (anchored : Bool) (seen : List Seen)
      → IsNamed (verdict m (is_conversation_url b) params false anchored seen)
  unproved anchored seen =
      let v = verdict m (is_conversation_url b) params false anchored seen in
      elim (Bool-cases (v.found || not v.proven)) [
        | inl e ↦ e
        | inr e ↦
            let grounds =
              (verdict-proven m params anchored (is_conversation_url b) false seen).0
                (ground arith, ground arith) in
            absurd (cc (grounds.0))
      ]

  pub unanchored-IsNamed : Ensures IsNamed (scan_unanchored b m fuel wait_ms params)
  unfolding scan_unanchored scan_pages
  unanchored-IsNamed =
      then-Ensures IsNamed _ _
        λ pages. then-Ensures IsNamed _ _ λ seen. returns-Ensures IsNamed _ (unproved false seen)

  abbrev rest : List String → String → Act S ReconcileResult
  rest anchors id = rebind b m fuel wait_ms anchors id

  -- the scan for the turn, and what follows where it is not there
  once_more :
      (pages : List Page) (anchors : List String) (id : String)
      → Ensures IsNamed (rest anchors id)
      → Ensures IsNamed (
          scan_user_turn_anchor b m pages id >>= λ r.
          if r.found then returns r else rest anchors id)
  once_more pages anchors id h =
      bind-Ensures IsNamed IsNamed _ _ (scan_user-IsNamed pages id) λ r f.
        if-Ensures IsNamed r.found (returns r) (rest anchors id) (λ _. returns-Ensures IsNamed r f)
          (λ _. h)

  rebind-IsNamed : (anchors : List String) (id : String) → Ensures IsNamed (rest anchors id)
  unfolding rebind
  rebind-IsNamed [] id = returns-Ensures IsNamed _ refl
  rebind-IsNamed (anchor ∷ anchors) id =
      if-Ensures IsNamed (is_conversation_url b anchor) _ (rest anchors id)
        (λ _. then-Ensures IsNamed _ _ λ opened. then-Ensures IsNamed _ _ λ _.
          then-Ensures IsNamed _ _ λ pages. once_more pages anchors id (rebind-IsNamed anchors id))
        (λ _. rebind-IsNamed anchors id)

  pub by_turn-IsNamed :
      (pages : List Page) (id : String) → Ensures IsNamed (by_turn b m fuel wait_ms pages params id)
  by_turn-IsNamed pages id =
      once_more pages (anchors_of b m fuel wait_ms params) id
        (rebind-IsNamed (anchors_of b m fuel wait_ms params) id)
