-- ===== src/Supervisor/RpcClient/Settles.antt =====
-- Each call of the client in stacks/gpt-webai-pro/src/supervisor/rpc-client.ts waits or is settled,
-- and is settled only once.
use home_server_infra.Prelude.{
  ℕ, ◌+◌, ◌≤◌, ◌<◌, String, Bool, Option, none, some, List, [], ◌∷◌, ◌==◌, ◌&&◌, leb, ltb, map,
  if◌then◌else◌, ◌≡◌, refl, arith, Bool-cases, Option-cases, inl, inr, str_eq, subst,
}
use home_server_infra.Prelude.Rows.{select_where, find_row, count, count-append}
use home_server_infra.Prelude.Counting.{
  count-snoc, count-map, count-update_where, count-of-find_row,
}
use home_server_infra.Shared.Failure.{Failure}
use home_server_infra.Supervisor.Outside.{SendProgress}
use home_server_infra.Supervisor.RpcClient.{
  PendingCall, Outcome, Settled, RpcClient, new_client, Message, notification, failure, success,
  has_id, is_other, renew, Event, calls, receives, timer_fires, inactivity_fires, send_fails,
  disconnects, call, settle, reject_all, on_progress_notification, on_message, on_timer,
  on_inactivity, on_event, run, take_out, observe, send_progress_method, nonzero, from_now,
  reject_with,
}

left_out :
    (id j : ℕ) (ps : List PendingCall)
    → count (has_id j) (select_where (is_other id) ps)
      ≡ (if id == j then 0 else count (has_id j) ps)
unfolding count select_where
left_out id j [] = ground arith
left_out id j (p ∷ ps) = ground (arith, left_out id j ps)

module _ {R : Type 0} where
  abbrev pub is_settled : ℕ → Settled R → Bool
  is_settled id s = s.id == id

  -- How often the call waits, and how often it was settled.
  abbrev pub waits : ℕ → RpcClient R → ℕ
  waits id c = count (has_id id) c.pending

  abbrev pub settlements : ℕ → RpcClient R → ℕ
  settlements id c = count (is_settled id) c.settled

  abbrev pub was_made : ℕ → RpcClient R → ℕ
  was_made id c = if leb 1 id && ltb id c.next_id then 1 else 0

  record IsBalanced (c : RpcClient R) : Type 0 where
    first : 1 ≤ c.next_id
    each : (id : ℕ) → waits id c + settlements id c ≡ was_made id c

  call-IsBalanced :
      (now : ℕ) (method : String) (timeout_ms : ℕ) (inactivity_ms : Option ℕ) (c : RpcClient R)
      → IsBalanced c
      → IsBalanced (call now method timeout_ms inactivity_ms c).1
  unfolding call
  call-IsBalanced now method timeout_ms inactivity_ms c b =
      let entry : PendingCall = record {
        id = c.next_id;
        method = method;
        due = now + timeout_ms;
        inactivity_ms = nonzero inactivity_ms;
        inactivity_due = from_now now (nonzero inactivity_ms);
      } in
      record {
        first = omega (arith, b.first);
        each = λ id. ground (arith, b.first, b.each id, count-snoc (has_id id) c.pending entry);
      }

  taken :
      (id : ℕ) (outcome : Outcome R) (p : PendingCall) (c : RpcClient R)
      → find_row (has_id id) c.pending ≡ some p
      → IsBalanced c
      → IsBalanced (take_out id outcome (some p) c)
  taken id outcome p c e b = record {
    first = b.first;
    each = λ j.
        let added = count-snoc (is_settled j) c.settled (record { id = id; outcome = outcome }) in
        elim (Bool-cases (id == j)) [
          | inl same ↦
              let here : id ≡ j = ground arith in
              ground (
                arith,
                added,
                left_out id j c.pending,
                b.each j,
                b.each id,
                subst (λ k. 0 < count (has_id k) c.pending) here
                    (count-of-find_row (has_id id) c.pending e),
              )
          | inr other ↦ ground (arith, added, left_out id j c.pending, b.each j)
        ];
  }

  settle-IsBalanced :
      (id : ℕ) (outcome : Outcome R) (c : RpcClient R)
      → IsBalanced c
      → IsBalanced (settle id outcome c)
  unfolding settle
  settle-IsBalanced id outcome c b = elim (Option-cases (find_row (has_id id) c.pending)) [
    | inl e ↦ rw e b
    | inr (p, e) ↦ rw e (taken id outcome p c e b)
  ]

  reject_all-IsBalanced :
      (e : Failure) (c : RpcClient R) → IsBalanced c → IsBalanced (reject_all e c)
  unfolding reject_all count
  reject_all-IsBalanced e c b = record {
    first = b.first;
    each = λ j. ground (
      arith,
      b.each j,
      count-append (is_settled j) c.settled (map (reject_with e) c.pending),
      count-map (is_settled j) (reject_with {R = R} e) c.pending,
    );
  }

  renewed :
      (now : ℕ) (id : ℕ) (progress : SendProgress) (o : Option PendingCall) (c : RpcClient R)
      → IsBalanced c
      → IsBalanced (observe now id progress o c)
  renewed now id progress none c b = b
  renewed now id progress (some p) c b = record {
    first = b.first;
    each = λ j. ground (
      arith,
      b.each j,
      count-update_where (has_id j) (has_id id) (renew now) c.pending (λ p. refl),
    );
  }

  progress-IsBalanced :
      (now : ℕ) (id : Option ℕ) (progress : Option SendProgress) (c : RpcClient R)
      → IsBalanced c
      → IsBalanced (on_progress_notification now id progress c)
  unfolding on_progress_notification
  progress-IsBalanced now (some id) (some progress) c b = renewed now id progress _ c b
  progress-IsBalanced now (some id) none c b = b
  progress-IsBalanced now none (some progress) c b = b
  progress-IsBalanced now none none c b = b

  message-IsBalanced :
      (now : ℕ) (m : Option (Message R)) (c : RpcClient R)
      → IsBalanced c
      → IsBalanced (on_message now m c)
  unfolding on_message
  message-IsBalanced now none c b = reject_all-IsBalanced _ c b
  message-IsBalanced now (some (notification method id progress)) c b =
      elim (Bool-cases (str_eq method send_progress_method)) [
        | inl e ↦ rw e (progress-IsBalanced now id progress c b)
        | inr e ↦ rw e b
      ]
  message-IsBalanced now (some (failure id e)) c b = settle-IsBalanced id _ c b
  message-IsBalanced now (some (success id r)) c b = settle-IsBalanced id _ c b

  event-IsBalanced : (x : Event R) (c : RpcClient R) → IsBalanced c → IsBalanced (on_event x c)
  unfolding on_event on_timer on_inactivity
  event-IsBalanced (calls now method timeout_ms inactivity_ms) c b =
      call-IsBalanced now method timeout_ms inactivity_ms c b
  event-IsBalanced (receives now m) c b = message-IsBalanced now m c b
  event-IsBalanced (timer_fires p) c b = settle-IsBalanced p.id _ c b
  event-IsBalanced (inactivity_fires renewed p ms) c b = settle-IsBalanced p.id _ c b
  event-IsBalanced (send_fails id e) c b = settle-IsBalanced id _ c b
  event-IsBalanced (disconnects e) c b = reject_all-IsBalanced e c b

  run_from-IsBalanced :
      (xs : List (Event R)) (c : RpcClient R) → IsBalanced c → IsBalanced (run xs c)
  unfolding run
  run_from-IsBalanced [] c b = b
  run_from-IsBalanced (x ∷ xs) c b = run_from-IsBalanced xs (on_event x c) (event-IsBalanced x c b)

  new_client-IsBalanced : IsBalanced (new_client {R = R})
  unfolding count
  new_client-IsBalanced = record { first = omega arith; each = λ id. ground arith }

  -- Whatever calls, replies, timers and errors come in whatever order, a call that was made waits or
  -- was settled, exactly one of them and once; and nothing else was settled.
  pub run-balance :
      (xs : List (Event R)) (id : ℕ)
      → waits id (run xs new_client) + settlements id (run xs new_client)
        ≡ was_made id (run xs new_client)
  run-balance xs id = (run_from-IsBalanced xs new_client new_client-IsBalanced).each id
