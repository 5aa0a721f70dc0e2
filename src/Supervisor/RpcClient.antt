-- ===== src/Supervisor/RpcClient.antt =====
-- `RpcClient` of stacks/gpt-webai-pro/src/supervisor/rpc-client.ts: the calls that wait for the
-- daemon, their timers and the replies. The socket and the JSON texts belong to the runtime; what
-- it tells the client is an `Event`.
pub mod Settles
use Prim.Native.String.{◌++◌}
use home_server_infra.Prelude.{
  ℕ, ◌+◌, String, Bool, true, false, Option, none, some, List, [], ◌∷◌, ◌==◌, not, str_eq, map,
  if◌then◌else◌,
}
use mathlib.Core.List.{◌++◌ as append}
use home_server_infra.Prelude.Rows.{select_where, find_row, update_where}
use home_server_infra.Prelude.Text.{decimal}
use home_server_infra.Shared.Failure.{Failure}
use home_server_infra.Supervisor.Outside.{SendProgress}
use home_server_infra.Daemon.Wire.{WireError, decode_error}

pub record PendingCall : Type 0 where
  pub id : ℕ
  pub method : String
  pub due : ℕ
  pub inactivity_ms : Option ℕ
  pub inactivity_due : Option ℕ

-- what `resolve` or `reject` was called with
pub data Outcome (R : Type 0) : Type 0 where
  resolved : R → Outcome R
  rejected : Failure → Outcome R

pub record Settled (R : Type 0) : Type 0 where
  pub id : ℕ
  pub outcome : Outcome R

pub record RpcClient (R : Type 0) : Type 0 where
  pub next_id : ℕ
  pub pending : List PendingCall
  -- the promises that were settled, and the progress that was given to observers
  pub settled : List (Settled R)
  pub observed : List (ℕ × SendProgress)

abbrev pub new_client : {R : Type 0} → RpcClient R
new_client = record { next_id = 1; pending = []; settled = []; observed = [] }

-- a message that was parsed: a notification has no id
pub data Message (R : Type 0) : Type 0 where
  notification : String → Option ℕ → Option SendProgress → Message R
  failure : ℕ → WireError → Message R
  success : ℕ → R → Message R

abbrev pub send_progress_method : String
send_progress_method = "gwp.sendProgress"

abbrev pub has_id : ℕ → PendingCall → Bool
has_id id p = p.id == id

abbrev pub is_other : ℕ → PendingCall → Bool
is_other id p = not (p.id == id)

-- `resolved.inactivityMs ? … : {}`
abbrev pub nonzero : Option ℕ → Option ℕ
nonzero none = none
nonzero (some n) = if n == 0 then none else some n

abbrev pub from_now : ℕ → Option ℕ → Option ℕ
from_now now none = none
from_now now (some ms) = some (now + ms)

-- `clearTimeout` and a new timer, where the call has a limit on inactivity
abbrev pub renew : ℕ → PendingCall → PendingCall
renew now p = record p { inactivity_due = from_now now p.inactivity_ms }

pub data Event (R : Type 0) : Type 0 where
  calls : ℕ → String → ℕ → Option ℕ → Event R
  receives : ℕ → Option (Message R) → Event R
  timer_fires : PendingCall → Event R
  inactivity_fires : Bool → PendingCall → ℕ → Event R
  send_fails : ℕ → Failure → Event R
  disconnects : Failure → Event R

module _ {R : Type 0} where
  -- `call`, with its two limits
  unfoldable pub call : ℕ → String → ℕ → Option ℕ → RpcClient R → ℕ × RpcClient R
  call now method timeout_ms inactivity_ms c = (
    c.next_id,
    record c {
      next_id = c.next_id + 1;
      pending = append c.pending (
          record {
            id = c.next_id;
            method = method;
            due = now + timeout_ms;
            inactivity_ms = nonzero inactivity_ms;
            inactivity_due = from_now now (nonzero inactivity_ms);
          }
          ∷ []);
    },
  )

  abbrev pub take_out : ℕ → Outcome R → Option PendingCall → RpcClient R → RpcClient R
  take_out id outcome none c = c
  take_out id outcome (some p) c = record c {
    pending = select_where (is_other id) c.pending;
    settled = append c.settled (record { id = id; outcome = outcome } ∷ []);
  }

  -- a reply, a timer or an error of the socket for one call
  unfoldable pub settle : ℕ → Outcome R → RpcClient R → RpcClient R
  settle id outcome c = take_out id outcome (find_row (has_id id) c.pending) c

  abbrev pub reject_with : Failure → PendingCall → Settled R
  reject_with e p = record { id = p.id; outcome = rejected e }

  unfoldable pub reject_all : Failure → RpcClient R → RpcClient R
  reject_all e c = record c {
    pending = [];
    settled = append c.settled (map (reject_with e) c.pending);
  }

  abbrev pub observe : ℕ → ℕ → SendProgress → Option PendingCall → RpcClient R → RpcClient R
  observe now id progress none c = c
  observe now id progress (some p) c = record c {
    pending = update_where (has_id id) (renew now) c.pending;
    observed = append c.observed ((id, progress) ∷ []);
  }

  unfoldable pub on_progress_notification :
      ℕ → Option ℕ → Option SendProgress → RpcClient R → RpcClient R
  on_progress_notification now (some id) (some progress) c =
      observe now id progress (find_row (has_id id) c.pending) c
  on_progress_notification now (some id) none c = c
  on_progress_notification now none progress c = c

  -- `none` is a text that is no JSON
  unfoldable pub on_message : ℕ → Option (Message R) → RpcClient R → RpcClient R
  unfolding on_progress_notification settle reject_all
  on_message now none c = reject_all (Failure.error "daemon returned invalid JSON") c
  on_message now (some (notification method call_id progress)) c =
      if str_eq method send_progress_method
      then on_progress_notification now call_id progress c
      else c
  on_message now (some (failure id e)) c = settle id (rejected (decode_error e)) c
  on_message now (some (success id r)) c = settle id (resolved r) c

  unfoldable pub on_timer : PendingCall → RpcClient R → RpcClient R
  unfolding settle
  on_timer p = settle p.id (rejected (Failure.error (("RPC " ++ p.method) ++ " timed out")))

  -- the timer that `call` sets, or the one that replaced it, which names `send` in its error
  unfoldable pub on_inactivity : Bool → PendingCall → ℕ → RpcClient R → RpcClient R
  unfolding settle
  on_inactivity renewed p ms = settle p.id (
      rejected (
        Failure.error (
          ((("RPC " ++ (if renewed then "send" else p.method)) ++ " made no progress for ")
            ++ decimal ms)
          ++ "ms")))

  unfoldable pub on_event : Event R → RpcClient R → RpcClient R
  unfolding call settle reject_all on_message on_timer on_inactivity
  on_event (calls now method timeout_ms inactivity_ms) c =
      (call now method timeout_ms inactivity_ms c).1
  on_event (receives now message) c = on_message now message c
  on_event (timer_fires p) c = on_timer p c
  on_event (inactivity_fires renewed p ms) c = on_inactivity renewed p ms c
  on_event (send_fails id e) c = settle id (rejected e) c
  on_event (disconnects e) c = reject_all e c

  unfoldable pub run : List (Event R) → RpcClient R → RpcClient R
  run [] c = c
  run (x ∷ xs) c = run xs (on_event x c)
