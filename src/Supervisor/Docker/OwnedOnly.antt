-- ===== src/Supervisor/Docker/OwnedOnly.antt =====
-- Which containers the docker manager touches: stacks/gpt-webai-pro/src/supervisor/docker.ts.
use home_server_infra.Prelude.{
  ℕ, zero, suc, String, not, ltb, Bool, true, false, Option, none, some, List, [], ◌∷◌, ◌≡◌, refl,
  str_eq, if◌then◌else◌, Bool-cases, inl, inr,
}
use home_server_infra.Prelude.Text.{truthy}
use home_server_infra.Shared.Types.{SlotConfig}
use home_server_infra.Shared.Failure.{Failure}
use home_server_infra.Database.Store.{Result, ok, thrown}
use home_server_infra.Daemon.Act.{Act, returns, ◌>>=◌, goes_on}
use home_server_infra.Daemon.Returns.{Returns, of_result}
use home_server_infra.Daemon.Stays.{
  Stays, returns-Stays, throws-Stays, bind-Stays, catch-Stays, attempt-Stays, if-Stays,
}
use home_server_infra.Supervisor.Docker.{
  ContainerState, SlotPaths, Mount, ContainerInspection, DockerManager, Host, check_source,
  check_mounts, inspect_owned_container, rotate_daemon_token, try_daemon, pause_unless, wait_loop,
  wait_for_daemon, paths, lifted, inspect, run_docker, create, create_arguments, with_id, start,
  stop, remove, renew, refresh, await_daemon, ensure,
}
use home_server_infra.Supervisor.Docker.Ownership.{IsOwned, inspect-IsOwned}

goes_on-Stays :
    {S A B : Type 0} (I : S → Type 0) (r : Result A) (f : A → Act S B) (s : S)
    → ((a : A) → r ≡ ok a → I (f a s).1)
    → I s
    → I (goes_on r f s).1
goes_on-Stays I (ok a) f s k i = k a refl
goes_on-Stays I (thrown e) f s k i = i

-- An action keeps a fact whose second part keeps it after what the first one did.
after-Stays :
    {S A B : Type 0} (I : S → Type 0) (m : Act S A) (f : A → Act S B)
    → Stays I m
    → ((s t : S) (a : A) → Returns m s a t → I t → I (f a t).1)
    → Stays I (m >>= f)
unfolding ◌>>=◌
after-Stays I m f hm hf = record {
  holds = λ s i.
      goes_on-Stays I (m s).0 f (m s).1 (λ a e. hf s (m s).1 a (of_result m s a e) (hm.holds s i))
        (hm.holds s i);
}

module _ {S Client : Type 0} (h : Host S Client) where
  module _ (d : DockerManager) where
    -- What is outside keeps `I`; so do the commands that start, stop and remove a container, in the
    -- state in which an inspection of the slot that gave this container's id ended.
    pub record Keeps (I : S → Type 0) (slot_id : String) : Type 0 where
      pub inspects : (name : String) → Stays I (h.docker ("inspect" ∷ name ∷ []))
      pub creates : (args : List String) → Stays I (h.docker ("create" ∷ args))
      pub starts :
          (id : String) (s t : S)
          → IsOwned h d slot_id s id t
          → I t
          → I (h.docker ("start" ∷ id ∷ []) t).1
      pub stops :
          (id : String) (s t : S)
          → IsOwned h d slot_id s id t
          → I t
          → I (h.docker ("stop" ∷ "-t" ∷ "40" ∷ id ∷ []) t).1
      pub removes :
          (id : String) (s t : S)
          → IsOwned h d slot_id s id t
          → I t
          → I (h.docker ("rm" ∷ id ∷ []) t).1
      pub realpath : (p : String) → Stays I (h.realpath p)
      pub mkdirp : (p : String) → Stays I (h.mkdirp p)
      pub chmod : (p : String) (mode : ℕ) → Stays I (h.chmod p mode)
      pub atomic_write : (p text : String) (mode : ℕ) → Stays I (h.atomic_write p text mode)
      pub random_token : Stays I h.random_token
      pub now : Stays I h.now
      pub sleep : (ms : ℕ) → Stays I (h.sleep ms)
      pub connect : (port : ℕ) (p : String) (ms : ℕ) → Stays I (h.connect port p ms)
      pub health : (c : Client) (ms : ℕ) → Stays I (h.health c ms)
      pub close : (c : Client) → Stays I (h.close c)

    module _ (I : S → Type 0) (slot_id : String) (k : Keeps I slot_id) where
      check_source-Stays :
          (destination expected : String) (o : Option String)
          → Stays I (check_source h destination expected o)
      check_source-Stays destination expected none = throws-Stays I _ _
      check_source-Stays destination expected (some source) =
          bind-Stays I _ _
            (catch-Stays I _ _
              (bind-Stays I _ _ (k.realpath source)
                (λ a. bind-Stays I _ _ (k.realpath expected) (λ e. returns-Stays I _)))
              (λ x. throws-Stays I _ _))
            (λ same. if-Stays I same _ _ (returns-Stays I _) (throws-Stays I _ _))

      check_mounts-Stays :
          (es : List (String × String)) (mounts : List Mount) → Stays I (check_mounts h es mounts)
      unfolding check_mounts
      check_mounts-Stays [] mounts = returns-Stays I _
      check_mounts-Stays ((destination, expected) ∷ es) mounts =
          bind-Stays I _ _ (check_source-Stays destination expected _)
            (λ u. check_mounts-Stays es mounts)

      inspect_owned-Stays :
          (o : Option ContainerInspection) (places : SlotPaths)
          → Stays I (inspect_owned_container h o places)
      unfolding inspect_owned_container
      inspect_owned-Stays none places = throws-Stays I _ _
      inspect_owned-Stays (some item) places =
          if-Stays I (truthy item.id) _ _
            (bind-Stays I _ _ (check_mounts-Stays _ _) (λ u. returns-Stays I _))
            (throws-Stays I _ _)

      lifted-Stays : {A : Type 0} (r : Result A) → Stays I (lifted r)
      lifted-Stays (ok a) = returns-Stays I a
      lifted-Stays (thrown e) = throws-Stays I _ e

      inspect-Stays : Stays I (inspect h d slot_id)
      unfolding inspect
      inspect-Stays =
          catch-Stays I _ _
            (bind-Stays I _ _ (k.inspects _) (λ output.
              bind-Stays I _ _ (lifted-Stays (h.parse_inspection output))
                (λ item. inspect_owned-Stays item (paths h d slot_id))))
            (λ e. if-Stays I (h.is_no_such e) _ _ (returns-Stays I _) (throws-Stays I _ e))

      run-Stays : (args : List String) → Stays I (h.docker args) → Stays I (run_docker h args)
      run-Stays args kept = bind-Stays I _ _ kept (λ out. returns-Stays I _)

      run_at : (args : List String) (t : S) → I (h.docker args t).1 → I (run_docker h args t).1
      unfolding ◌>>=◌
      run_at args t kept =
          goes_on-Stays I (h.docker args t).0 (λ _. returns tt) (h.docker args t).1 (λ out e. kept)
            kept

      with_id_at :
          (o : Option String) (act : String → Act S (Unit {0})) (none_there : Act S (Unit {0}))
          (t : S)
          → ((id : String) → o ≡ some id → I (act id t).1)
          → I (none_there t).1
          → I (with_id o act none_there t).1
      with_id_at none act none_there t ka kn = kn
      with_id_at (some id) act none_there t ka kn = elim (Bool-cases (str_eq id "")) [
        | inl e ↦ rw e kn
        | inr e ↦ rw e (ka id refl)
      ]

      start-Stays : Stays I (start h d slot_id)
      unfolding start
      start-Stays = after-Stays I _ _ inspect-Stays (λ s t state e i.
          with_id_at state.id _ _ t
            (λ id named.
              run_at _ t (k.starts id s t (inspect-IsOwned h d slot_id s t state id e named) i))
            i)

      stop_at :
          (running : Bool) (args : List String) (t : S)
          → I (h.docker args t).1
          → I t
          → I ((if running then run_docker h args else returns tt) t).1
      stop_at true args t kept i = run_at args t kept
      stop_at false args t kept i = i

      stop-Stays : Stays I (stop h d slot_id)
      unfolding stop
      stop-Stays = after-Stays I _ _ inspect-Stays (λ s t state e i.
          with_id_at state.id _ _ t
            (λ id named.
              stop_at state.running _ t
                (k.stops id s t (inspect-IsOwned h d slot_id s t state id e named) i) i)
            i)

      remove-Stays : Stays I (remove h d slot_id)
      unfolding remove
      remove-Stays = after-Stays I _ _ inspect-Stays (λ s t state e i.
          with_id_at state.id _ _ t
            (λ id named.
              run_at _ t (k.removes id s t (inspect-IsOwned h d slot_id s t state id e named) i))
            i)

      rotate-Stays : (p : String) → Stays I (rotate_daemon_token h p)
      unfolding rotate_daemon_token
      rotate-Stays p = bind-Stays I _ _ k.random_token (λ token.
          bind-Stays I _ _ (bind-Stays I _ _ (k.atomic_write p _ 384) (λ u. k.chmod p 384))
            (λ v. returns-Stays I token))

      creates-Stays :
          (b : Bool) (e : Failure) (rest : List String)
          → Stays I
              (lifted (if b then thrown e else ok ("create" ∷ rest)) >>= λ args. run_docker h args)
      unfolding ◌>>=◌
      creates-Stays true e rest = throws-Stays I _ e
      creates-Stays false e rest = run-Stays _ (k.creates rest)

      create-Stays :
          (slot : SlotConfig) (token : String) (places : SlotPaths) (login_mode : Bool)
          → Stays I (create h d slot token places login_mode)
      unfolding create create_arguments
      create-Stays slot token places login_mode = creates-Stays _ _ _

      renew-Stays :
          (slot : SlotConfig) (login_mode : Bool)
          → slot.id ≡ slot_id
          → Stays I (renew h d slot login_mode)
      unfolding renew
      renew-Stays slot login_mode e =
          bind-Stays I _ _ (rotate-Stays _) (λ token.
            bind-Stays I _ _ (create-Stays slot token _ login_mode) (λ u. rw e start-Stays))

      refresh-Stays :
          (slot : SlotConfig) (login_mode : Bool) (state : ContainerState)
          → slot.id ≡ slot_id
          → Stays I (refresh h d slot login_mode state)
      unfolding refresh
      refresh-Stays slot login_mode state e =
          let remove_old : Stays I (if state.exists then remove h d slot.id else returns tt) =
            if-Stays I state.exists _ _ (rw e remove-Stays) (returns-Stays I tt) in
          if-Stays I login_mode _ _
            (bind-Stays I _ _
              (bind-Stays I _ _
                (if-Stays I state.running _ _ (rw e stop-Stays) (returns-Stays I tt))
                (λ u. remove_old))
              (λ v. renew-Stays slot login_mode e))
            (if-Stays I (not state.running) _ _
              (bind-Stays I _ _ remove_old (λ v. renew-Stays slot login_mode e))
              (returns-Stays I tt))

      try_daemon-Stays : (port : ℕ) (p : String) (ms : ℕ) → Stays I (try_daemon h port p ms)
      unfolding try_daemon
      try_daemon-Stays port p ms = bind-Stays I _ _ (k.connect port p ms) (λ client.
          catch-Stays I _ _
            (bind-Stays I _ _ (k.health client ms)
              (λ healthy. bind-Stays I _ _ (k.close client) (λ u. returns-Stays I healthy)))
            (λ e. bind-Stays I _ _ (attempt-Stays I _ (k.close client)) (λ u. throws-Stays I _ e)))

      pause-Stays :
          (tried : Option Bool) (rest : Act S (Unit {0}))
          → Stays I rest
          → Stays I (pause_unless h tried rest)
      pause-Stays (some true) rest kept = returns-Stays I tt
      pause-Stays (some false) rest kept = bind-Stays I _ _ (k.sleep 100) (λ u. kept)
      pause-Stays none rest kept = bind-Stays I _ _ (k.sleep 100) (λ u. kept)

      wait_loop-Stays :
          (fuel port : ℕ) (p : String) (deadline : ℕ) → Stays I (wait_loop h fuel port p deadline)
      unfolding wait_loop
      wait_loop-Stays zero port p deadline = throws-Stays I _ _
      wait_loop-Stays (suc fuel) port p deadline = bind-Stays I _ _ k.now (λ time.
          if-Stays I (ltb time deadline) _ _
            (bind-Stays I _ _ k.now (λ later.
              bind-Stays I _ _ (attempt-Stays I _ (try_daemon-Stays port p _))
                (λ tried. pause-Stays tried _ (wait_loop-Stays fuel port p deadline))))
            (throws-Stays I _ _))

      await-Stays :
          (fuel : ℕ) (slot : SlotConfig) (ms : ℕ) → Stays I (await_daemon h d fuel slot ms)
      unfolding wait_for_daemon
      await-Stays fuel slot ms =
          bind-Stays I _ _
            (bind-Stays I _ _ (k.chmod _ 384)
              (λ u. bind-Stays I _ _ k.now (λ time. wait_loop-Stays fuel slot.port _ _)))
            (λ v. returns-Stays I _)

  -- Where all else keeps a fact, and the commands that start, stop and remove a container keep it
  -- right after docker printed an inspection with that container's id whose mounts were found to be
  -- the slot's three directories, making a slot ready keeps it: no other container is touched.
  pub ensure-Stays :
      (d : DockerManager) (I : S → Type 0) (slot : SlotConfig)
      → Keeps d I slot.id
      → (fuel timeout_ms : ℕ) (login_mode : Bool)
      → Stays I (ensure h d fuel slot timeout_ms login_mode)
  unfolding ensure
  ensure-Stays d I slot k fuel timeout_ms login_mode =
      let waits = await-Stays d I slot.id k fuel slot timeout_ms in
      if-Stays I slot.unmanaged _ _ waits (
        bind-Stays I _ _
          (bind-Stays I _ _
            (bind-Stays I _ _ (bind-Stays I _ _ (k.mkdirp _) (λ a. k.mkdirp _)) (λ b. k.mkdirp _))
            (λ c.
              bind-Stays I _ _ (inspect-Stays d I slot.id k)
                (λ state. refresh-Stays d I slot.id k slot login_mode state refl)))
          (λ u. waits))
