-- ===== src/Daemon/Reconcile/FailClosed.antt =====
-- `reconcileSend` of stacks/gpt-webai-pro/src/daemon/actions/reconcile.ts never takes a missing page
-- for a missing message: on what grounds it proves that nothing was sent.
use home_server_infra.Prelude.{
  ℕ, ◌<◌, String, true, false, Option, none, some, List, [], ◌∷◌, ◌||◌, not, all, any, length, ◌≡◌,
  refl, arith, Bool-cases, ◌⊎◌, inl, inr, str_eq, ap, sym, ◌∙◌, subst, eq_iff, ltb, ◌&&◌,
}
use home_server_infra.Prelude.Rows.{find_row, select_where}
use home_server_infra.Prelude.Text.{truthy}
use home_server_infra.Shared.Types.{ReconcileResult}
use home_server_infra.Database.Store.{ok}
use home_server_infra.Supervisor.Outside.{ReconcileParams}
use home_server_infra.Daemon.Act.{attempt}
use home_server_infra.Daemon.Returns.{
  Returns, of_result, bind-Returns, returns-Returns, reads-Returns, if-Returns, attempt-Returns,
}
use mathlib.Core.Option.{some-injective}
use home_server_infra.Daemon.Session.{open_page, Browser, is_conversation_url, relevant_pages}
use home_server_infra.Daemon.Reconcile.{
  reconcile_send, scan_pages, scan_unanchored, observe_all, anchors_of, open_anchor, or_unanchored,
  without_exact, at_exact, by_turn_id, by_address, exact_pages, unique_strings, wait_for_each,
  wait_for_turn_render,
}
use home_server_infra.Daemon.Reconcile.Verdict.{Seen, Matching}
use home_server_infra.Daemon.Reconcile.Hits.{is_quiet}
use home_server_infra.Daemon.Reconcile.Worth.{verdict-proven}
use home_server_infra.Daemon.Reconcile.Named.{IsNamed, unanchored-IsNamed, by_turn-IsNamed}

module _ {S Page : Type 0} (b : Browser S Page) (m : Matching) (fuel wait_ms : ℕ)
    (params : ReconcileParams) where
  abbrev pub anchors : List String
  anchors = anchors_of b m fuel wait_ms params

  abbrev pub HasAddress : Type 0
  HasAddress = any (is_conversation_url b) anchors ≡ true

  -- One of the two addresses that are known, and that of a conversation.
  abbrev pub IsAnchor : String → Type 0
  IsAnchor url =
      ((params.pending_conversation_url ≡ some url) ⊎ (params.conversation_url ≡ some url))
      × (is_conversation_url b url ≡ true)

  abbrev pub pages_at : String → List Page → S → List Page
  pages_at url tabs u = select_where (λ p. str_eq (b.url p u) url) tabs

  -- The pages that the run from a state looks at, and the state in which it does: those that were
  -- open at an anchor, or one that was opened there and is at a conversation; once they have rendered.
  pub data Looked (s : S) : List Page → S → Type 0 where
    were_open :
        {tabs : List Page} {u t : S} {anchor : String}
        → Returns (relevant_pages b) s tabs u
        → IsAnchor anchor
        → Returns (wait_for_each b fuel wait_ms (pages_at anchor tabs u)) u tt t
        → Looked s (pages_at anchor tabs u) t
    was_opened :
        {tabs : List Page} {u v t : S} {anchor : String} {p : Page}
        → Returns (relevant_pages b) s tabs u
        → IsAnchor anchor
        → Returns (open_page b anchor) u p v
        → is_conversation_url b (b.url p v) ≡ true
        → Returns (wait_for_turn_render b fuel wait_ms p) v tt t
        → Looked s (p ∷ []) t

  -- The pages that the run looked at were all read, none of them empty and none with a new turn of a
  -- user.
  pub record QuietPages (s : S) : Type 0 where
    pub pages : List Page
    pub at : S
    pub looked : Looked s pages at
    pub seen : List Seen
    pub observed : (observe_all b params pages at).0 ≡ ok seen
    pub there : 0 < length seen
    pub quiet : all (is_quiet m params true (is_conversation_url b)) seen ≡ true

  -- What a scan with an anchor tells: a turn, nothing, or that the pages were quiet.
  scan-quiet :
      (s : S) (pages : List Page) (at t : S) (r : ReconcileResult)
      → Looked s pages at
      → Returns (scan_pages b m params true true pages) at r t
      → IsNamed b m fuel wait_ms params r ⊎ QuietPages s
  unfolding scan_pages
  scan-quiet s pages at t r looked e =
      let (seen, u, observed, last) = bind-Returns _ _ at t r e in
      let (same, _) = returns-Returns _ r u t last in
      elim (Bool-cases (r.found || not r.proven)) [
        | inl n ↦ inl n
        | inr n ↦
            let (_, some_page, quiet) =
              (verdict-proven m params true (is_conversation_url b) true seen).0
                (rw same (ground arith), rw same (ground arith)) in
            inr (record {
              pages = pages;
              at = at;
              looked = looked;
              seen = seen;
              observed = ap (λ x. x.0) observed;
              there = some_page;
              quiet = quiet;
            })
      ]

  known :
      (p c : Option String) (url : String)
      → any (str_eq url) (unique_strings (p ∷ c ∷ [])) ≡ true
      → (p ≡ some url) ⊎ (c ≡ some url)
  unfolding select_where
  known none none url e = absurd (cc)
  known none (some c) url e = inr (ground (arith, eq_iff url c))
  known (some p) none url e = inl (ground (arith, eq_iff url p))
  known (some p) (some c) url e = elim (Bool-cases (str_eq url p)) [
    | inl same ↦ inl (ap some (sym ((eq_iff url p).0 same)))
    | inr other ↦ inr (ground (arith, eq_iff url p, eq_iff url c))
  ]

  exact-pages_at :
      (tabs : List Page) (urls : List String) (u : S) (exact : List Page)
      → exact_pages b m fuel wait_ms tabs urls u ≡ some exact
      → (anchor : String) × (any (str_eq anchor) urls ≡ true)
        × (is_conversation_url b anchor ≡ true)
        × (pages_at anchor tabs u ≡ exact)
  exact-pages_at tabs [] u exact e = absurd (cc)
  exact-pages_at tabs (url ∷ urls) u exact e =
      elim (Bool-cases (ltb 0 (length (pages_at url tabs u)) && is_conversation_url b url)) [
        | inl here ↦ (url, ground (arith, eq_iff url url), ground arith, ground arith)
        | inr other ↦
            let (anchor, there, conversation, same) =
              exact-pages_at tabs urls u exact (ground arith) in
            (anchor, ground arith, conversation, same)
      ]

  find-known :
      (urls : List String) (url : String)
      → find_row (is_conversation_url b) urls ≡ some url
      → (any (str_eq url) urls ≡ true) × (is_conversation_url b url ≡ true)
  unfolding find_row
  find-known [] url e = absurd (cc)
  find-known (v ∷ urls) url e = elim (Bool-cases (is_conversation_url b v)) [
    | inl here ↦
        let same : v ≡ url = ground arith in
        (ground (arith, eq_iff url v, same), subst (λ w. is_conversation_url b w ≡ true) same here)
    | inr other ↦
        let (there, conversation) = find-known urls url (ground arith) in
        (ground arith, conversation)
  ]

  has_address :
      (urls : List String) (url : String)
      → any (str_eq url) urls ≡ true
      → is_conversation_url b url ≡ true
      → any (is_conversation_url b) urls ≡ true
  has_address [] url e c = absurd (cc)
  has_address (v ∷ urls) url e c = elim (Bool-cases (str_eq url v)) [
    | inl same ↦
        let here : is_conversation_url b v ≡ true =
          subst (λ w. is_conversation_url b w ≡ true) ((eq_iff url v).0 same) c in
        ground arith
    | inr other ↦ ground (arith, has_address urls url (ground arith) c)
  ]

  -- What a result tells, where a turn's id is not known.
  abbrev Told : S → ReconcileResult → Type 0
  Told s r = IsNamed b m fuel wait_ms params r ⊎ (HasAddress × QuietPages s)

  with_address :
      (s : S) (r : ReconcileResult) (url : String)
      → any (str_eq url) anchors ≡ true
      → is_conversation_url b url ≡ true
      → IsNamed b m fuel wait_ms params r ⊎ QuietPages s
      → Told s r
  with_address s r url known_url conversation (inl n) = inl n
  with_address s r url known_url conversation (inr q) =
      inr (has_address anchors url known_url conversation, q)

  unanchored-Told :
      (s u t : S) (r : ReconcileResult)
      → Returns (scan_unanchored b m fuel wait_ms params) u r t
      → Told s r
  unanchored-Told s u t r e =
      inl ((unanchored-IsNamed b m fuel wait_ms params).holds u r (ap (λ x. x.0) e))

  opened-Told :
      (s u v : S) (tabs : List Page) (url : String) (r : ReconcileResult)
      → Returns (relevant_pages b) s tabs u
      → find_row (is_conversation_url b) anchors ≡ some url
      → Returns (open_anchor b m fuel wait_ms params url) u (some r) v
      → Told s r
  opened-Told s u v tabs url r first found e =
      let (there, conversation) = find-known anchors url found in
      let (p, w, opened, rest) = bind-Returns _ _ u v (some r) e in
      let (here, x, read, decided) = bind-Returns _ _ w v (some r) rest in
      let (is_here, same) = reads-Returns (λ q. is_conversation_url b (b.url p q)) here w x read in
      elim (if-Returns here _ _ x v (some r) decided) [
        | inr (fails, nothing) ↦
            let (none_there, _) = returns-Returns none (some r) x v nothing in absurd (cc)
        | inl (holds, looked) ↦
            let (_, y, waited, scanning) = bind-Returns _ _ x v (some r) looked in
            let (r', z, scanned, last) = bind-Returns _ _ y v (some r) scanning in
            let (same_result, _) = returns-Returns (some r') (some r) z v last in
            let same_r : r' ≡ r = some-injective _ _ same_result in
            with_address s r url there conversation (
              subst (λ q. IsNamed b m fuel wait_ms params q ⊎ QuietPages s) same_r
                (scan-quiet s (p ∷ []) y z r'
                  (was_opened first
                    (
                      known params.pending_conversation_url params.conversation_url url there,
                      conversation,
                    )
                    opened (is_here ∙ holds)
                    (subst (λ q. Returns (wait_for_turn_render b fuel wait_ms p) q tt y) (sym same)
                      waited))
                  scanned))
      ]

  tried-Told :
      (s u v t : S) (tabs : List Page) (url : String) (r : ReconcileResult)
      (o : Option (Option ReconcileResult))
      → Returns (relevant_pages b) s tabs u
      → find_row (is_conversation_url b) anchors ≡ some url
      → Returns (attempt (open_anchor b m fuel wait_ms params url)) u o v
      → Returns (or_unanchored b m fuel wait_ms params o) v r t
      → Told s r
  tried-Told s u v t tabs url r none first found e last = unanchored-Told s v t r last
  tried-Told s u v t tabs url r (some none) first found e last = unanchored-Told s v t r last
  tried-Told s u v t tabs url r (some (some r')) first found e last =
      let (same, _) = returns-Returns r' r v t last in
      subst (Told s) same
        (opened-Told s u v tabs url r' first found (attempt-Returns _ u v (some r') e))

  without_exact-Told :
      (s u t : S) (tabs : List Page) (r : ReconcileResult) (o : Option String)
      → Returns (relevant_pages b) s tabs u
      → find_row (is_conversation_url b) anchors ≡ o
      → Returns (without_exact b m fuel wait_ms params o) u r t
      → Told s r
  without_exact-Told s u t tabs r none first found e = unanchored-Told s u t r e
  without_exact-Told s u t tabs r (some url) first found e =
      let (o, v, tried, last) = bind-Returns _ _ u t r e in
      tried-Told s u v t tabs url r o first found tried last

  at_exact-Told :
      (s u t : S) (tabs : List Page) (r : ReconcileResult) (o : Option (List Page))
      → Returns (relevant_pages b) s tabs u
      → exact_pages b m fuel wait_ms tabs anchors u ≡ o
      → Returns (at_exact b m fuel wait_ms params o) u r t
      → Told s r
  at_exact-Told s u t tabs r none first e run = without_exact-Told s u t tabs r _ first refl run
  at_exact-Told s u t tabs r (some exact) first e run =
      let (anchor, there, conversation, same) = exact-pages_at tabs anchors u exact e in
      let (_, at, waited, scanned) = bind-Returns _ _ u t r run in
      with_address s r anchor there conversation (
        scan-quiet s exact at t r
          (subst (λ pages. Looked s pages at) same
            (were_open first
              (
                known params.pending_conversation_url params.conversation_url anchor there,
                conversation,
              )
              (subst (λ pages. Returns (wait_for_each b fuel wait_ms pages) u tt at) (sym same)
                waited)))
          scanned)

  by_address-Told :
      (s u t : S) (tabs : List Page) (r : ReconcileResult)
      → Returns (relevant_pages b) s tabs u
      → Returns (by_address b m fuel wait_ms tabs params) u r t
      → Told s r
  by_address-Told s u t tabs r first e =
      let (o, v, read, last) = bind-Returns _ _ u t r e in
      let (exact, same) = reads-Returns (exact_pages b m fuel wait_ms tabs anchors) o u v read in
      at_exact-Told s u t tabs r o first exact
        (subst (λ w. Returns (at_exact b m fuel wait_ms params o) w r t) (sym same) last)

  -- The grounds of a proof of absence: no turn's id is known, there is a conversation's address,
  -- and the pages at it were quiet.
  abbrev IsGrounded : S → ReconcileResult → Type 0
  IsGrounded s r =
      IsNamed b m fuel wait_ms params r
      ⊎ ((truthy params.pending_user_turn_id ≡ false) × HasAddress × QuietPages s)

  grounded :
      (s : S)
      → truthy params.pending_user_turn_id ≡ false
      → (r : ReconcileResult) → Told s r
      → IsGrounded s r
  grounded s t r (inl n) = inl n
  grounded s t r (inr (h, q)) = inr (t, h, q)

  by_turn_id-IsGrounded :
      (s u t : S) (tabs : List Page) (r : ReconcileResult) (id : Option String)
      → params.pending_user_turn_id ≡ id
      → Returns (relevant_pages b) s tabs u
      → Returns (by_turn_id b m fuel wait_ms tabs params id) u r t
      → IsGrounded s r
  unfolding truthy
  by_turn_id-IsGrounded s u t tabs r none e first run =
      grounded s (rw e refl) r (by_address-Told s u t tabs r first run)
  by_turn_id-IsGrounded s u t tabs r (some id) e first run =
      elim (if-Returns (str_eq id "") _ _ u t r run) [
        | inl (empty, by) ↦
            grounded s (rw (e, empty) refl) r (by_address-Told s u t tabs r first by)
        | inr (other, by) ↦
            inl ((by_turn-IsNamed b m fuel wait_ms params tabs id).holds u r (ap (λ x. x.0) by))
      ]

  absent :
      (s : S) (r : ReconcileResult)
      → IsGrounded s r
      → r.found ≡ false
      → r.proven ≡ true
      → (truthy params.pending_user_turn_id ≡ false) × HasAddress × QuietPages s
  absent s r (inl n) f p = absurd (ground arith)
  absent s r (inr g) f p = g

  -- Where a reconciliation finds nothing and proves that nothing was sent, it knew no turn's id, it
  -- had a conversation's address, and the pages that this run looked at, those that were open at a
  -- known address of a conversation or the one that was opened there, were one or more, each of
  -- which was read, was not empty, and had no new turn of a user.
  pub reconcile_send-proven :
      (s : S) (r : ReconcileResult)
      → (reconcile_send b m fuel wait_ms params s).0 ≡ ok r
      → r.found ≡ false
      → r.proven ≡ true
      → (truthy params.pending_user_turn_id ≡ false) × HasAddress × QuietPages s
  unfolding reconcile_send
  reconcile_send-proven s r e =
      let (tabs, u, first, rest) =
        bind-Returns _ _ s (reconcile_send b m fuel wait_ms params s).1 r
          (of_result (reconcile_send b m fuel wait_ms params) s r e) in
      absent s r (
        by_turn_id-IsGrounded s u (reconcile_send b m fuel wait_ms params s).1 tabs r
          params.pending_user_turn_id refl first rest)
