-- ===== src/Supervisor/Outside.antt =====
-- What `Supervisor` of stacks/gpt-webai-pro/src/supervisor/run.ts calls outside this model, as
-- actions that are arguments: the files, the locks of the kernel, the clock, the daemon's client,
-- the runtime's containers and the other processes.
use home_server_infra.Prelude.{ℕ, String, Bool, Option, List}
use home_server_infra.Shared.Types.{SendResult, ReconcileResult, SlotConfig, RequestRow}
use home_server_infra.Shared.Failure.{Failure, SendPhase}
use home_server_infra.Database.Store.{Tx, Result}
use home_server_infra.Supervisor.World.{Io, atomically, ◌>>=◌}

pub record RpcFile : Type 0 where
  pub name : String
  pub container_path : String

-- `step` is the literal that `SendStep` names.
pub record SendProgress : Type 0 where
  pub step : String
  pub phase : SendPhase
  pub elapsed_ms : ℕ
  pub step_elapsed_ms : ℕ
  pub pending_user_turn_id : Option String
  pub pending_conversation_url : Option String
  pub pre_click_baseline : Option (List String)
  pub match_debug : Option String

pub record SendParams : Type 0 where
  pub prompt : String
  pub files : List RpcFile
  pub conversation_url : Option String
  pub image_count : Option ℕ

pub record ReconcileParams : Type 0 where
  pub prompt : String
  pub prompt_sha256 : String
  pub image_count : Option ℕ
  pub conversation_url : Option String
  pub pending_conversation_url : Option String
  pub pending_user_turn_id : Option String
  pub pre_click_baseline : Option (List String)

pub record Outside (S Client Lock : Type 0) : Type 0 where
  -- what other processes commit before this one's next database method
  pub meanwhile : Io S (Unit {0})
  pub now : Io S ℕ
  pub read_prompt : String → Io S String
  pub read_continue_url : String → Io S String
  pub read_answer : String → Io S String
  pub rpc_files : String → SlotConfig → Io S (List RpcFile)
  -- `tryAcquireFileLock(sendLockPath(id))` and the lock's `release`
  pub try_send_lock : String → Io S (Option Lock)
  pub release : Lock → Io S (Unit {0})
  -- the call of the daemon's `send`, what it came to, and the last progress that it reported
  pub call_send : Client → SendParams → Io S (Result SendResult × Option SendProgress)
  -- `connectDaemon`, and the call of the daemon's `reconcile` with its time limit
  pub connect_daemon : SlotConfig → Io S Client
  pub call_reconcile : Client → ReconcileParams → ℕ → Io S ReconcileResult
  pub close : Client → Io S (Unit {0})
  -- a line of the request's log with this status, whose text is left out and whose failure is
  -- ignored
  pub log : String → String → Io S (Unit {0})
  pub release_runtime : RequestRow → Io S (Unit {0})
  pub stop_slot_if_no_live_owners : SlotConfig → Io S (Unit {0})
  -- the regular expression of `isDirectNetworkFailure` on the error's message
  pub is_direct_network_failure : Failure → Bool

module _ {S Client Lock : Type 0} (o : Outside S Client Lock) where
  -- a method of the database, with what is committed before it
  abbrev pub on_database : {A : Type 0} → Tx A → Io S A
  on_database m = o.meanwhile >>= λ _. atomically m

  -- the same for a method that reads the clock
  abbrev pub on_database_at : {A : Type 0} → (ℕ → Tx A) → Io S A
  on_database_at m = o.now >>= λ now. on_database (m now)
