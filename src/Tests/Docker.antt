-- ===== src/Tests/Docker.antt =====
-- A machine that notes which containers are touched.
use home_server_infra.Prelude.{
  String, true, false, ◌||◌, none, some, List, [], ◌∷◌, ◌++◌, ◌≡◌, refl, str_eq, All, if◌then◌else◌,
}
use home_server_infra.Shared.Types.{SlotConfig}
use home_server_infra.Database.Store.{ok}
use home_server_infra.Daemon.Act.{Act, returns, catch, ◌>>=◌}
use home_server_infra.Daemon.Returns.{Returns}
use home_server_infra.Daemon.Stays.{Stays}
use home_server_infra.Prelude.Text.{truthy, opt_eq}
use home_server_infra.Prelude.Rows.{select_where}
use home_server_infra.Supervisor.Docker.{
  Mount, ContainerState, ContainerInspection, DockerManager, Host, paths, ensure, refresh, inspect,
  inspect_owned_container, check_mounts, sole_source, renew, remove, start, create,
  create_arguments, rotate_daemon_token, wait_for_daemon, wait_loop, try_daemon,
}
use home_server_infra.Supervisor.Docker.Ownership.{IsOwned, inspect-IsOwned}
use home_server_infra.Supervisor.Docker.OwnedOnly.{Keeps, ensure-Stays}

abbrev last_one : List String → List String
last_one [] = []
last_one (x ∷ []) = x ∷ []
last_one (x ∷ xs) = last_one xs

abbrev touched : List String → List String
touched [] = []
touched (command ∷ args) =
    if str_eq command "inspect" || str_eq command "create" then [] else last_one args

abbrev bound_to : String → String → Mount
bound_to destination source = record {
  mount_type = some "bind";
  source = some source;
  destination = some destination;
}

abbrev stopped : ContainerInspection
stopped = record {
  id = some "c1";
  running = false;
  started_at = none;
  mounts =
      bound_to "/profile" "profile" ∷ bound_to "/inbox" "inbox" ∷ bound_to "/outbox" "outbox" ∷ [];
}

abbrev done : {A : Type 0} → A → Act (List String) A
done a = returns a

abbrev last_of : List String → String
last_of [] = ""
last_of (x ∷ []) = x
last_of (x ∷ xs) = last_of xs

abbrev machine : Host (List String) (Unit {0})
machine = record {
  docker = λ args s. (ok "", touched args ++ s);
  parse_inspection = λ text. ok (some stopped);
  parse_date = λ text. none;
  is_no_such = λ e. false;
  realpath = λ p. done p;
  join = last_of;
  mkdirp = λ p. done tt;
  chmod = λ p mode. done tt;
  atomic_write = λ p text mode. done tt;
  random_token = done "token";
  uid = 1000;
  gid = 1000;
  now = done 0;
  sleep = λ ms. done tt;
  connect = λ port p ms. done tt;
  health = λ c ms. done true;
  close = λ c. done tt;
}

abbrev manager : DockerManager
manager = record { state_dir = "/state"; image = "daemon"; base_url = "https://chatgpt.com" }

abbrev slot : SlotConfig
slot = record { id = "slot-1"; account = "a"; port = 9001; unmanaged = false; weekly_limit = none }

abbrev OnlyOwned : List String → Type 0
OnlyOwned ids =
    All (λ id. (s : List String) × (t : List String) × IsOwned machine manager "slot-1" s id t) ids

machine-Keeps : Keeps machine manager OnlyOwned "slot-1"
machine-Keeps = record {
  inspects = λ name. record { holds = λ s all. all };
  creates = λ args. record { holds = λ s all. all };
  starts = λ id s t owned all. ((s, t, owned), all);
  stops = λ id s t owned all. ((s, t, owned), all);
  removes = λ id s t owned all. ((s, t, owned), all);
  realpath = λ p. record { holds = λ s all. all };
  mkdirp = λ p. record { holds = λ s all. all };
  chmod = λ p mode. record { holds = λ s all. all };
  atomic_write = λ p text mode. record { holds = λ s all. all };
  random_token = record { holds = λ s all. all };
  now = record { holds = λ s all. all };
  sleep = λ ms. record { holds = λ s all. all };
  connect = λ port p ms. record { holds = λ s all. all };
  health = λ c ms. record { holds = λ s all. all };
  close = λ c. record { holds = λ s all. all };
}

-- The stopped container is removed, and the new one started.
renewed : (ensure machine manager 1 slot 60000 false []).1 ≡ "c1" ∷ "c1" ∷ []
unfolding ensure refresh inspect inspect_owned_container check_mounts sole_source renew remove start
    create create_arguments rotate_daemon_token wait_for_daemon wait_loop try_daemon paths ◌>>=◌
    catch truthy opt_eq select_where
renewed = refl

ensure-Stays_example : Stays OnlyOwned (ensure machine manager 1 slot 60000 false)
ensure-Stays_example = ensure-Stays machine manager OnlyOwned slot machine-Keeps 1 60000 false

abbrev inspected : ContainerState
inspected = record { id = some "c1"; exists = true; running = false; started_at = none }

found : Returns (inspect machine manager "slot-1") [] inspected []
unfolding renewed
found = refl

inspect-IsOwned_example : IsOwned machine manager "slot-1" [] "c1" []
inspect-IsOwned_example = inspect-IsOwned machine manager "slot-1" [] [] inspected "c1" found refl
