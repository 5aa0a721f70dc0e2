-- ===== src/Supervisor/Docker.antt =====
-- stacks/gpt-webai-pro/src/supervisor/docker.ts: `DockerManager`, the containers of the slots. The
-- docker command, the files, the clock and the client of a daemon are arguments, as is what
-- `JSON.parse` and `Date.parse` read. `Promise.all` runs its promises one after another, and what
-- is redacted of an error's text is left out.
pub mod Ownership
pub mod OwnedOnly
use Prim.Native.String.{◌++◌}
use home_server_infra.Prelude.{
  ℕ, zero, suc, ◌+◌, ◌-◌, max, min, String, Bool, true, false, not, ◌&&◌, Option, none, some, List,
  [], ◌∷◌, ◌++◌ as append, ltb, str_eq, if◌then◌else◌,
}
use home_server_infra.Prelude.Text.{truthy, opt_eq, decimal}
use home_server_infra.Prelude.Rows.{select_where}
use home_server_infra.Shared.Types.{SlotConfig}
use home_server_infra.Shared.Failure.{Failure}
use home_server_infra.Database.Store.{Result, ok, thrown}
use home_server_infra.Daemon.Act.{Act, returns, throws, catch, attempt, ◌>>=◌, ◌>>◌}

pub record ContainerState : Type 0 where
  pub id : Option String
  pub exists : Bool
  pub running : Bool
  pub started_at : Option ℕ

pub record SlotPaths : Type 0 where
  pub profile : String
  pub token_path : String
  pub inbox : String
  pub outbox : String

pub record Mount : Type 0 where
  pub mount_type : Option String
  pub source : Option String
  pub destination : Option String

-- `State?.Running === true`, `State?.StartedAt`, and no mounts where there is no list of them
pub record ContainerInspection : Type 0 where
  pub id : Option String
  pub running : Bool
  pub started_at : Option String
  pub mounts : List Mount

pub record DockerManager : Type 0 where
  pub state_dir : String
  pub image : String
  pub base_url : String

pub record Host (S Client : Type 0) : Type 0 where
  pub docker : List String → Act S String
  -- `JSON.parse(output)[0]`
  pub parse_inspection : String → Result (Option ContainerInspection)
  -- `Date.parse`, where it is a number
  pub parse_date : String → Option ℕ
  -- /No such object|No such container/i on the message
  pub is_no_such : Failure → Bool
  pub realpath : String → Act S String
  pub join : List String → String
  pub mkdirp : String → Act S (Unit {0})
  pub chmod : String → ℕ → Act S (Unit {0})
  pub atomic_write : String → String → ℕ → Act S (Unit {0})
  -- 16 random bytes in hexadecimal digits
  pub random_token : Act S String
  pub uid : ℕ
  pub gid : ℕ
  pub now : Act S ℕ
  pub sleep : ℕ → Act S (Unit {0})
  pub connect : ℕ → String → ℕ → Act S Client
  -- the call of `health`: whether both of its fields are `true`
  pub health : Client → ℕ → Act S Bool
  pub close : Client → Act S (Unit {0})

abbrev pub container_outbox : String
container_outbox = "/outbox"

abbrev pub expected_mounts : SlotPaths → List (String × String)
expected_mounts paths =
    ("/profile", paths.profile) ∷ ("/inbox", paths.inbox) ∷ (container_outbox, paths.outbox) ∷ []

abbrev pub mismatch : String → Failure
mismatch destination = Failure.error (
    "container ownership mismatch at " ++ destination
    ++ "; use a separate slot ID and daemon port for another state directory")

abbrev pub is_at : String → Mount → Bool
is_at destination mount = opt_eq mount.destination (some destination)

-- the source of the only mount there is, where it is a bind mount
unfoldable pub sole_source : List Mount → Option String
sole_source (m ∷ []) =
    if opt_eq m.mount_type (some "bind") && truthy m.source then m.source else none
sole_source _ = none

abbrev pub create_limit_args : List String
create_limit_args =
    "--memory" ∷ "3g" ∷ "--cpus" ∷ "2" ∷ "--pids-limit" ∷ "1024" ∷ "--shm-size" ∷ "1g"
    ∷ "--security-opt" ∷ "no-new-privileges" ∷ "--cap-drop" ∷ "ALL" ∷ []

abbrev pub absent : ContainerState
absent = record { id = none; exists = false; running = false; started_at = none }

abbrev pub lifted : {S A : Type 0} → Result A → Act S A
lifted (ok a) = returns a
lifted (thrown e) = throws e

-- `if (id)`
abbrev pub with_id :
    {S : Type 0} → Option String → (String → Act S (Unit {0})) → Act S (Unit {0}) → Act S (Unit {0})
with_id none act none_there = none_there
with_id (some id) act none_there = if str_eq id "" then none_there else act id

module _ {S Client : Type 0} (h : Host S Client) where
  abbrev pub same_place : String → String → String → Act S (Unit {0})
  same_place destination expected source =
      catch
        (h.realpath source >>= λ actual.
          h.realpath expected >>= λ path. returns (str_eq actual path))
        (λ _. throws (mismatch destination))
      >>= λ same. if same then returns tt else throws (mismatch destination)

  abbrev pub check_source : String → String → Option String → Act S (Unit {0})
  check_source destination expected none = throws (mismatch destination)
  check_source destination expected (some source) = same_place destination expected source

  unfoldable pub check_mounts : List (String × String) → List Mount → Act S (Unit {0})
  check_mounts [] mounts = returns tt
  check_mounts ((destination, expected) ∷ rest) mounts =
      check_source destination expected (sole_source (select_where (is_at destination) mounts))
      >> check_mounts rest mounts

  abbrev pub started : Option String → Option ℕ
  started none = none
  started (some text) = if str_eq text "" then none else h.parse_date text

  abbrev pub state_of : ContainerInspection → ContainerState
  state_of item = record {
    id = item.id;
    exists = true;
    running = item.running;
    started_at = started item.started_at;
  }

  abbrev pub no_id : Failure
  no_id = Failure.error "container inspection omitted its ID; ownership cannot be established"

  unfoldable pub inspect_owned_container :
      Option ContainerInspection → SlotPaths → Act S ContainerState
  inspect_owned_container none paths = throws no_id
  inspect_owned_container (some item) paths =
      if truthy item.id
      then check_mounts (expected_mounts paths) item.mounts >> returns (state_of item)
      else throws no_id

  unfoldable pub rotate_daemon_token : String → Act S String
  rotate_daemon_token path = h.random_token >>= λ token.
      h.atomic_write path (token ++ "\n") 384 >> h.chmod path 384 >> returns token

  -- a round of `waitForDaemon`: whether the daemon is healthy
  unfoldable pub try_daemon : ℕ → String → ℕ → Act S Bool
  try_daemon port path ms = h.connect port path ms >>= λ client.
      catch (h.health client ms >>= λ healthy. h.close client >> returns healthy)
        (λ e. attempt (h.close client) >>= λ _. throws e)

  -- done with a healthy daemon, and a pause before the next round without one
  abbrev pub pause_unless : Option Bool → Act S (Unit {0}) → Act S (Unit {0})
  pause_unless (some true) rest = returns tt
  pause_unless (some false) rest = h.sleep 100 >> rest
  pause_unless none rest = h.sleep 100 >> rest

  unfoldable pub wait_loop : ℕ → ℕ → String → ℕ → Act S (Unit {0})
  wait_loop zero port path deadline =
      throws (Failure.error ("daemon did not become healthy on 127.0.0.1:" ++ decimal port))
  wait_loop (suc fuel) port path deadline =
      let rest = wait_loop fuel port path deadline in
      h.now >>= λ time.
      if ltb time deadline
      then (h.now >>= λ later.
          attempt (try_daemon port path (min 1000 (max 1 (deadline - later)))) >>= λ tried.
          pause_unless tried rest)
      else throws (Failure.error ("daemon did not become healthy on 127.0.0.1:" ++ decimal port))

  unfoldable pub wait_for_daemon : ℕ → ℕ → String → ℕ → Act S (Unit {0})
  wait_for_daemon fuel port path timeout_ms =
      h.now >>= λ time. wait_loop fuel port path (time + timeout_ms)

  abbrev pub run_docker : List String → Act S (Unit {0})
  run_docker args = h.docker args >>= λ _. returns tt

  module _ (d : DockerManager) where
    unfoldable pub paths : String → SlotPaths
    paths slot_id =
        let root = h.join (d.state_dir ∷ "slots" ∷ slot_id ∷ []) in
        record {
          profile = h.join (root ∷ "profile" ∷ []);
          token_path = h.join (root ∷ "daemon.token" ∷ []);
          inbox = h.join (root ∷ "inbox" ∷ []);
          outbox = h.join (root ∷ "outbox" ∷ []);
        }

    abbrev pub container_name : String → String
    container_name slot_id = "gwp-" ++ slot_id

    abbrev pub published : ℕ → List String
    published port = "--publish" ∷ ("127.0.0.1:" ++ decimal port ++ ":" ++ decimal port) ∷ []

    unfoldable pub create_arguments : SlotConfig → String → SlotPaths → Bool → Result (List String)
    create_arguments slot token places login_mode =
        let no_vnc_port = slot.port + 600 in
        if login_mode && ltb 65535 no_vnc_port
        then thrown (Failure.error ("noVNC port is out of range for " ++ slot.id))
        else ok (
            append ("create" ∷ "--name" ∷ container_name slot.id ∷ create_limit_args) (
              append
                ("--user"
                  ∷ (decimal h.uid ++ ":" ++ decimal h.gid)
                  ∷ "--restart"
                  ∷ "no"
                  ∷ published slot.port)
                (append (if login_mode then published no_vnc_port else []) (
                  append
                    ("--mount"
                      ∷ ("type=bind,src=" ++ places.profile ++ ",dst=/profile")
                      ∷ "--mount"
                      ∷ ("type=bind,src=" ++ places.inbox ++ ",dst=/inbox,readonly")
                      ∷ "--mount"
                      ∷ ("type=bind,src=" ++ places.outbox ++ ",dst=" ++ container_outbox)
                      ∷ "--env"
                      ∷ ("GWP_BASE_URL=" ++ d.base_url)
                      ∷ "--env"
                      ∷ "GWP_CDP_URL=http://127.0.0.1:9222"
                      ∷ "--env"
                      ∷ ("GWP_DAEMON_PORT=" ++ decimal slot.port)
                      ∷ "--env"
                      ∷ ("GWP_DAEMON_TOKEN=" ++ token)
                      ∷ "--env"
                      ∷ ("GWP_OUTBOX_DIR=" ++ container_outbox)
                      ∷ [])
                    (append
                      (if login_mode
                        then "--env"
                          ∷ "GWP_LOGIN_MODE=1"
                          ∷ "--env"
                          ∷ ("GWP_NOVNC_PORT=" ++ decimal no_vnc_port)
                          ∷ []
                        else [])
                      (d.image ∷ []))))))

    unfoldable pub inspect : String → Act S ContainerState
    inspect slot_id =
        catch
          (h.docker ("inspect" ∷ container_name slot_id ∷ []) >>= λ output.
            lifted (h.parse_inspection output) >>= λ item.
            inspect_owned_container item (paths slot_id))
          (λ e. if h.is_no_such e then returns absent else throws e)

    unfoldable pub create : SlotConfig → String → SlotPaths → Bool → Act S (Unit {0})
    create slot token places login_mode =
        lifted (create_arguments slot token places login_mode) >>= λ args. run_docker args

    unfoldable pub start : String → Act S (Unit {0})
    start slot_id = inspect slot_id >>= λ state.
        with_id state.id (λ id. run_docker ("start" ∷ id ∷ []))
          (throws (Failure.error ("slot container does not exist: " ++ slot_id)))

    unfoldable pub stop : String → Act S (Unit {0})
    stop slot_id = inspect slot_id >>= λ state.
        with_id state.id
          (λ id. if state.running then run_docker ("stop" ∷ "-t" ∷ "40" ∷ id ∷ []) else returns tt)
          (returns tt)

    unfoldable pub remove : String → Act S (Unit {0})
    remove slot_id = inspect slot_id >>= λ state.
        with_id state.id (λ id. run_docker ("rm" ∷ id ∷ [])) (returns tt)

    -- a fresh container with a fresh token
    unfoldable pub renew : SlotConfig → Bool → Act S (Unit {0})
    renew slot login_mode = rotate_daemon_token (paths slot.id).token_path >>= λ token.
        create slot token (paths slot.id) login_mode >> start slot.id

    unfoldable pub refresh : SlotConfig → Bool → ContainerState → Act S (Unit {0})
    refresh slot login_mode state =
        if login_mode
        then ((if state.running then stop slot.id else returns tt)
            >> (if state.exists then remove slot.id else returns tt)
            >> renew slot login_mode)
        else if not state.running
        then ((if state.exists then remove slot.id else returns tt) >> renew slot login_mode)
        else returns tt

    -- `chmod` of the token and `waitForDaemon`
    abbrev pub await_daemon : ℕ → SlotConfig → ℕ → Act S (ℕ × String)
    await_daemon fuel slot timeout_ms =
        h.chmod (paths slot.id).token_path 384
        >> wait_for_daemon fuel slot.port (paths slot.id).token_path timeout_ms
        >> returns (slot.port, (paths slot.id).token_path)

    unfoldable pub ensure : ℕ → SlotConfig → ℕ → Bool → Act S (ℕ × String)
    ensure fuel slot timeout_ms login_mode =
        if slot.unmanaged
        then await_daemon fuel slot timeout_ms
        else (h.mkdirp (paths slot.id).profile
            >> h.mkdirp (paths slot.id).inbox
            >> h.mkdirp (paths slot.id).outbox
            >> (inspect slot.id >>= λ state. refresh slot login_mode state)
            >> await_daemon fuel slot timeout_ms)
