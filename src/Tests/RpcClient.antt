-- ===== src/Tests/RpcClient.antt =====
-- Calls of the daemon that are answered, time out or go on, and the cache of its sends.
use home_server_infra.Prelude.{
  ℕ, zero, suc, ◌+◌, true, false, none, some, List, [], ◌∷◌, ◌++◌, ◌≡◌, refl, arith,
}
use home_server_infra.Prelude.Text.{truthy, decimal}
use home_server_infra.Prelude.Maps.{lookup, insert, erase}
use home_server_infra.Prelude.Rows.{find_row, update_where}
use home_server_infra.Shared.Types.{SendResult}
use home_server_infra.Shared.Failure.{Failure, SendPhase, GwpError, ErrorKind, gwp_error}
use home_server_infra.Supervisor.Outside.{SendProgress}
use home_server_infra.Supervisor.RpcClient.{
  RpcClient, PendingCall, new_client, success, Event, calls, receives, disconnects, run, call,
  has_id, on_message, on_progress_notification, notification, send_progress_method,
}
use home_server_infra.Supervisor.RpcClient.Settles.{waits, settlements, was_made, run-balance}
use home_server_infra.Daemon.Wire.{encode_error, decode_error, decode_error-encode_error}
use home_server_infra.Daemon.SendCache.{
  new_cache, CacheCall, begins, sets, run as run_cache, cached, begin_attempt, forget_attempts,
  set_result, forget_entries,
}
use home_server_infra.Daemon.SendCache.Soundness.{IsSound, WasSet, begun, run-IsSound, run-begun}

-- The first call is answered twice, the second one is cut off.
abbrev exchange : List (Event ℕ)
exchange =
    calls 0 "health" 65000 none
    ∷ calls 1 "send" 600000 (some 30000)
    ∷ receives 2 (some (success 1 7))
    ∷ receives 3 (some (success 1 8))
    ∷ disconnects (Failure.error "daemon connection closed")
    ∷ []

run-balance_example :
    waits 1 (run exchange new_client) + settlements 1 (run exchange new_client)
    ≡ was_made 1 (run exchange new_client)
run-balance_example = run-balance exchange 1

abbrev one_call : RpcClient ℕ
one_call = (call 1 "send" 600000 (some 30000) new_client).1

abbrev send_call : PendingCall
send_call = record {
  id = 1;
  method = "send";
  due = 600001;
  inactivity_ms = some 30000;
  inactivity_due = some 30001;
}

in_flight : find_row (has_id 1) one_call.pending ≡ some send_call
unfolding call find_row
in_flight = refl

abbrev typing : SendProgress
typing = record {
  step = "compose";
  phase = SendPhase.pre_click;
  elapsed_ms = 2500;
  step_elapsed_ms = 500;
  pending_user_turn_id = none;
  pending_conversation_url = none;
  pre_click_baseline = none;
  match_debug = none;
}

-- Progress at 2501 starts the limit on inactivity again, and not the other one.
postponed :
    (on_message {R = ℕ} 2501
      (some (notification send_progress_method (some 1) (some typing)))
      one_call).pending
    ≡ record send_call { inactivity_due = some 32501 } ∷ []
unfolding call on_message on_progress_notification find_row update_where
postponed = refl

abbrev limited : GwpError
limited = record {
  kind = ErrorKind.provider_limit;
  phase = none;
  detail = "limit reached";
  network_evidence = false;
  pending_user_turn_id = none;
  pending_conversation_url = none;
  pre_click_baseline = none;
}

decode_error-encode_error_example :
    decode_error (encode_error true (gwp_error limited))
    ≡ gwp_error (record limited { phase = some SendPhase.pre_click })
unfolding truthy
decode_error-encode_error_example = decode_error-encode_error true limited

abbrev landed : SendResult
landed = record {
  conversation_url = "https://chatgpt.com/c/1";
  user_turn_id = "m1";
  model_label = none;
  assistant_turn_id = none;
  matched_by = none;
}

abbrev sends : List CacheCall
sends = begins "a" ∷ sets "a" landed ∷ begins "b" ∷ begins "b" ∷ sets "b" landed ∷ []

run-IsSound_example : IsSound (run_cache sends new_cache)
run-IsSound_example = run-IsSound sends

hit : cached "a" (run_cache sends new_cache) ≡ some landed
unfolding begin_attempt forget_attempts set_result forget_entries lookup insert erase
hit = refl

run-begun_example : (begun "a" sends ≡ 1) × WasSet "a" landed sends
run-begun_example = run-begun "a" sends landed (omega arith) hit

abbrev numbered : ℕ → List CacheCall
numbered zero = []
numbered (suc n) = begins (decimal n) ∷ numbered n

-- Sixty-four other prompts make the cache forget that "k" was begun twice, and the third time its
-- result is kept.
forgotten :
    cached "k" (
      run_cache
        (begins "k" ∷ begins "k" ∷ (numbered 64 ++ (begins "k" ∷ sets "k" landed ∷ [])))
        new_cache)
    ≡ some landed
unfolding begin_attempt forget_attempts set_result forget_entries lookup insert erase decimal
forgotten = refl
