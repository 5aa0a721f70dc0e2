-- ===== src/Supervisor/OwnerLock.antt =====
-- `waitForOwnerLock` of stacks/gpt-webai-pro/src/supervisor/run.ts. What its options do, the clock,
-- the lock, the request's state and the sleep, are arguments on a state of the world; time passes
-- in the two that are awaited.
use home_server_infra.Prelude.{
  ℕ, zero, suc, ◌+◌, ◌-◌, ◌≤◌, ◌<◌, min, ◌==◌, inl, inr, Bool-cases, Option-cases, Bool, true,
  false, Option, none, some, ◌≡◌, arith, ltb, if◌then◌else◌,
}

pub data Attachment (Lock : Type 0) : Type 0 where
  acquired : Lock → Attachment Lock
  terminal timeout : Attachment Lock

pub record Options (S Lock : Type 0) : Type 0 where
  pub try_lock : S → Option Lock × S
  pub is_terminal : S → Bool
  pub deadline : ℕ
  pub poll_ms : ℕ
  pub now : S → ℕ
  pub sleep : ℕ → S → S

module _ {S Lock : Type 0} (options : Options S Lock) where
  -- the `return` after the loop
  abbrev pub give_up : S → Attachment Lock × S
  give_up s = (if options.is_terminal s then terminal else timeout, s)

  -- The loop: the lock is tried once before its condition is looked at, then after each sleep that
  -- ends before the deadline. `none` is a loop that has not ended within `fuel` rounds.
  unfoldable pub lock_loop : ℕ → S → Option (Attachment Lock × S)
  lock_loop zero s = none
  lock_loop (suc fuel) s =
      let (lock, tried) = options.try_lock s in
      let remaining = options.deadline - options.now tried in
      let slept = options.sleep (min options.poll_ms remaining) tried in
      let again = lock_loop fuel slept in
      elim lock [
        | some l ↦ some (acquired l, tried)
        | none ↦
            if options.is_terminal tried
            then some (terminal, tried)
            else if remaining == 0
            then some (give_up tried)
            else if ltb (options.now slept) options.deadline
            then again
            else some (give_up slept)
      ]

  -- A round of the loop is at least a millisecond long, so this many are enough.
  abbrev pub wait_for_owner_lock : S → Option (Attachment Lock × S)
  wait_for_owner_lock s = lock_loop (suc (options.deadline - options.now s)) s

  -- What is relied on: trying takes no negative time, and a sleep lasts as long as it is told to.
  pub record IsClock : Type 0 where
    pub try_ahead : (s : S) → options.now s ≤ options.now (options.try_lock s).1
    pub sleep_ahead : (ms : ℕ) (s : S) → options.now s + ms ≤ options.now (options.sleep ms s)

-- What an outcome says of the world that it is returned in.
abbrev pub IsTrue : {S Lock : Type 0} → Options S Lock → Attachment Lock × S → Type 0
IsTrue {S} {Lock} options (acquired l, s) = (before : S) × (options.try_lock before ≡ (some l, s))
IsTrue options (terminal, s) = options.is_terminal s ≡ true
IsTrue options (timeout, s) = (options.is_terminal s ≡ false) × (options.deadline ≤ options.now s)

give_up-IsTrue :
    {S Lock : Type 0} (options : Options S Lock) (s : S)
    → options.deadline ≤ options.now s
    → IsTrue options (give_up options s)
give_up-IsTrue options s late = elim (Bool-cases (options.is_terminal s)) [
  | inl h ↦ rw h h
  | inr h ↦ rw h (h, late)
]

module _ {S Lock : Type 0} (options : Options S Lock) (clock : IsClock options)
    (poll : 0 < options.poll_ms) where
  abbrev Ends : ℕ → S → Type 0
  Ends fuel s = (r : Attachment Lock × S) × (lock_loop options fuel s ≡ some r) × IsTrue options r

  -- The rest of a round in which the lock was not free.
  after_trying :
      (fuel : ℕ) (s : S)
      → options.deadline - options.now s < suc fuel
      → ((later : S) → options.deadline - options.now later < fuel → Ends fuel later)
      → (options.try_lock s).0 ≡ none
      → Ends (suc fuel) s
  unfolding lock_loop
  after_trying fuel s enough later busy =
      let tried = (options.try_lock s).1 in
      let remaining = options.deadline - options.now tried in
      let slept = options.sleep (min options.poll_ms remaining) tried in
      let asleep = clock.sleep_ahead (min options.poll_ms remaining) tried in
      elim (Bool-cases (options.is_terminal tried)) [
        | inl h ↦ ((terminal, tried), ground (arith, busy, h), h)
        | inr h ↦ elim (Bool-cases (remaining == 0)) [
          | inl over ↦ (
            give_up options tried,
            ground (arith, busy, h, over),
            give_up-IsTrue options tried (ground arith),
          )
          | inr left ↦ elim (Bool-cases (ltb (options.now slept) options.deadline)) [
            | inl again ↦
                let (r, e, t) = later slept (ground (arith, clock.try_ahead s, asleep)) in
                (r, ground (arith, busy, h, left, again, e), t)
            | inr late ↦ (
              give_up options slept,
              ground (arith, busy, h, left, late),
              give_up-IsTrue options slept (ground arith),
            )
          ]
        ]
      ]

  lock_loop-Ends : (fuel : ℕ) (s : S) → options.deadline - options.now s < fuel → Ends fuel s
  unfolding lock_loop
  lock_loop-Ends zero s enough = absurd (omega arith)
  lock_loop-Ends (suc fuel) s enough = elim (Option-cases (options.try_lock s).0) [
    | inl busy ↦ after_trying fuel s enough (lock_loop-Ends fuel) busy
    | inr (l, got) ↦
        ((acquired l, (options.try_lock s).1), ground (arith, got), (s, ground (arith, got)))
  ]

-- Where a sleep lasts as long as asked and polls are a millisecond or more apart, the wait always
-- ends: with a lock that was just obtained, in a terminal state, or after the deadline.
pub wait_for_owner_lock-returns :
    {S Lock : Type 0} (options : Options S Lock) (s : S)
    → IsClock options
    → 0 < options.poll_ms
    → (r : Attachment Lock × S) × (wait_for_owner_lock options s ≡ some r) × IsTrue options r
wait_for_owner_lock-returns options s clock poll =
    lock_loop-Ends options clock poll (suc (options.deadline - options.now s)) s (omega arith)
