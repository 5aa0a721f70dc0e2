-- ===== src/Supervisor/Docker/Ownership.antt =====
-- What an inspected container tells of its mounts: stacks/gpt-webai-pro/src/supervisor/docker.ts.
use home_server_infra.Prelude.{
  String, true, Option, none, some, List, [], ◌∷◌, ◌≡◌, refl, sym, ap, arith, eq_iff, subst, ◌∙◌,
  inl, inr,
}
use home_server_infra.Prelude.Text.{truthy, opt_eq}
use home_server_infra.Prelude.Rows.{select_where}
use home_server_infra.Database.Store.{ok}
use home_server_infra.Daemon.Returns.{
  Returns, bind-Returns, returns-Returns, throws-Returns, if-Returns, catch-Returns,
}
use home_server_infra.Database.Store.{Result, thrown}
use home_server_infra.Supervisor.Docker.{
  ContainerState, SlotPaths, Mount, ContainerInspection, DockerManager, Host, expected_mounts,
  is_at, sole_source, same_place, check_source, check_mounts, inspect_owned_container, paths,
  inspect, mismatch, no_id, state_of, lifted, container_name, absent,
}

-- The only mount at a place is a bind mount of `source`.
abbrev pub IsBoundTo : List Mount → String → String → Type 0
IsBoundTo mounts destination source =
    (m : Mount) × (select_where (is_at destination) mounts ≡ m ∷ [])
    × (m.mount_type ≡ some "bind")
    × (m.source ≡ some source)

bind_type : (t : Option String) → opt_eq t (some "bind") ≡ true → t ≡ some "bind"
unfolding opt_eq
bind_type none e = absurd (cc)
bind_type (some t) e = ap some ((eq_iff t "bind").0 e)

bound_of :
    (ms : List Mount) (source : String)
    → sole_source ms ≡ some source
    → (m : Mount) × (ms ≡ m ∷ []) × (m.mount_type ≡ some "bind") × (m.source ≡ some source)
unfolding sole_source
bound_of [] source e = absurd (cc)
bound_of (m ∷ []) source e = (m, refl, bind_type m.mount_type (ground arith), ground arith)
bound_of (m ∷ n ∷ ms) source e = absurd (cc)

bound :
    (destination : String) (mounts : List Mount) (source : String)
    → sole_source (select_where (is_at destination) mounts) ≡ some source
    → IsBoundTo mounts destination source
bound destination mounts source e = bound_of (select_where (is_at destination) mounts) source e

module _ {S Client : Type 0} (h : Host S Client) where
  -- One after another, each place's only mount is a bind mount, whose source was resolved to the same
  -- path as the slot's own directory; from the state it started in to the one it ended in.
  pub data Checked (mounts : List Mount) : List (String × String) → S → S → Type 0 where
    nothing : {s : S} → Checked mounts [] s s
    next :
        {s t u v : S} {destination expected source path : String} {es : List (String × String)}
        → IsBoundTo mounts destination source
        → Returns (h.realpath source) s path t
        → Returns (h.realpath expected) t path u
        → Checked mounts es u v
        → Checked mounts ((destination, expected) ∷ es) s v

  same_place-Returns :
      (destination expected source : String) (s t : S)
      → Returns (same_place h destination expected source) s tt t
      → (path : String) × (u : S) × Returns (h.realpath source) s path u
        × Returns (h.realpath expected) u path t
  same_place-Returns destination expected source s t e =
      let (same, u, compared, decided) = bind-Returns _ _ s t tt e in
      elim (if-Returns same _ _ u t tt decided) [
        | inr (fails, failed) ↦ throws-Returns (mismatch destination) tt u t failed
        | inl (holds, kept) ↦ elim (catch-Returns _ _ s u same compared) [
          | inr (x, v, failed) ↦ throws-Returns (mismatch destination) same v u failed
          | inl both ↦
              let (actual, v, first, then) = bind-Returns _ _ s u same both in
              let (path, w, second, last) = bind-Returns _ _ v u same then in
              let (eq, at) = returns-Returns _ same w u last in
              let (_, at') = returns-Returns tt tt u t kept in
              let one : actual ≡ path = (eq_iff actual path).0 (eq ∙ holds) in
              (actual, v, first, second ∙ (λ i. (ok (sym one i), (at ∙ at') i)))
        ]
      ]

  check_source-Returns :
      (destination expected : String) (o : Option String) (s t : S)
      → Returns (check_source h destination expected o) s tt t
      → (source : String) × (o ≡ some source)
        × Returns (same_place h destination expected source) s tt t
  check_source-Returns destination expected none s t e =
      throws-Returns (mismatch destination) tt s t e
  check_source-Returns destination expected (some source) s t e = (source, refl, e)

  check_mounts-Checked :
      (es : List (String × String)) (mounts : List Mount) (s t : S)
      → Returns (check_mounts h es mounts) s tt t
      → Checked mounts es s t
  unfolding check_mounts
  check_mounts-Checked [] mounts s t e =
      subst (Checked mounts [] s) (returns-Returns tt tt s t e).1 nothing
  check_mounts-Checked ((destination, expected) ∷ es) mounts s t e =
      let (_, u, first, rest) = bind-Returns _ _ s t tt e in
      let (source, found, compared) =
        check_source-Returns destination expected
          (sole_source (select_where (is_at destination) mounts)) s u first in
      let (path, v, actual, own) = same_place-Returns destination expected source s u compared in
      next (bound destination mounts source found) actual own
        (check_mounts-Checked es mounts u t rest)

  -- From `s` to `t` the inspection of a container was read and found to be as it should.
  inspect_owned-Checked :
      (o : Option ContainerInspection) (places : SlotPaths) (s t : S) (state : ContainerState)
      → Returns (inspect_owned_container h o places) s state t
      → (item : ContainerInspection) × (o ≡ some item)
        × (state_of h item ≡ state)
        × Checked item.mounts (expected_mounts places) s t
  unfolding inspect_owned_container
  inspect_owned-Checked none places s t state e = throws-Returns (no_id h) state s t e
  inspect_owned-Checked (some item) places s t state e =
      elim (if-Returns (truthy item.id) _ _ s t state e) [
        | inr (fails, failed) ↦ throws-Returns (no_id h) state s t failed
        | inl (holds, checked) ↦
            let (_, u, first, last) = bind-Returns _ _ s t state checked in
            let (same, end) = returns-Returns _ state u t last in
            (
              item,
              refl,
              same,
              subst (Checked item.mounts (expected_mounts places) s) end
                  (check_mounts-Checked (expected_mounts places) item.mounts s u first),
            )
      ]

  lifted-Returns :
      {A : Type 0} (r : Result A) (s t : S) (a : A)
      → Returns (lifted r) s a t
      → (r ≡ ok a) × (s ≡ t)
  lifted-Returns (ok b) s t a e = (cc, cc)
  lifted-Returns (thrown x) s t a e = throws-Returns x a s t e

  module _ (d : DockerManager) where
    -- What docker, asked from `s` on about the slot's container, printed is the inspection of a
    -- container with this id, and up to `t` its mounts were checked against the slot's directories.
    abbrev pub IsOwned : String → S → String → S → Type 0
    IsOwned slot_id s id t =
        (output : String) × (item : ContainerInspection) × (u : S) × Returns
          (h.docker ("inspect" ∷ container_name h d slot_id ∷ [])) s output u
        × (h.parse_inspection output ≡ ok (some item))
        × (item.id ≡ some id)
        × Checked item.mounts (expected_mounts (paths h d slot_id)) u t

    -- Where the inspection of a slot gives the id of a container, docker printed an inspection with
    -- that id, in which each of the three places has exactly one mount, a bind mount whose source and
    -- the slot's own directory were resolved, one after the other, to the same path.
    pub inspect-IsOwned :
        (slot_id : String) (s t : S) (state : ContainerState) (id : String)
        → Returns (inspect h d slot_id) s state t
        → state.id ≡ some id
        → IsOwned slot_id s id t
    unfolding inspect
    inspect-IsOwned slot_id s t state id e named = elim (catch-Returns _ _ s t state e) [
      | inr (x, u, handled) ↦ elim (if-Returns (h.is_no_such x) _ _ u t state handled) [
        | inr (fails, failed) ↦ throws-Returns x state u t failed
        | inl (holds, gone) ↦ let (same, end) = returns-Returns absent state u t gone in absurd (cc)
      ]
      | inl run ↦
          let (output, u, asked, parsing) = bind-Returns _ _ s t state run in
          let (o, v, read, checking) = bind-Returns _ _ u t state parsing in
          let (parsed, at) = lifted-Returns (h.parse_inspection output) u v o read in
          let (item, found, same, checked) =
            inspect_owned-Checked o (paths h d slot_id) v t state checking in
          (
            output,
            item,
            u,
            asked,
            parsed ∙ ap ok found,
            ap (λ (c : ContainerState). c.id) same ∙ named,
            subst (λ w. Checked item.mounts (expected_mounts (paths h d slot_id)) w t) (sym at)
                checked,
          )
    ]
