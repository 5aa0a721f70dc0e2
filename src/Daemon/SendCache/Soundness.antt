-- ===== src/Daemon/SendCache/Soundness.antt =====
-- What the cache of finished sends promises at any time: bounded size, and no result for a prompt
-- that was begun twice, of `SendResultCache` in stacks/gpt-webai-pro/src/daemon/main.ts.
use home_server_infra.Prelude.{
  ℕ, zero, suc, ◌+◌, ◌≤◌, String, none, some, List, [], ◌∷◌, ◌++◌, ltb, length, if◌then◌else◌, ◌==◌,
  ◌≡◌, ◌⊎◌, refl, true, is_some, arith, Option-cases, sym, subst, eq_iff, str_eq, Bool-cases, inl,
  inr,
}
use home_server_infra.Prelude.Maps.{
  lookup, insert, erase, lookup-insert, lookup-erase, length-erase-le, length-insert-le,
}
use home_server_infra.Shared.Types.{SendResult}
use home_server_infra.Daemon.SendCache.{
  SendResultCache, new_cache, attempts_of, forget_attempts, begin_attempt, forget_entries,
  set_result, cached, CacheCall, begins, sets, call, run,
}

-- Each cached prompt was begun once since its count was last dropped.
abbrev pub Marked : SendResultCache → Type 0
Marked c = (sha : String) → is_some (cached sha c) ≡ true → lookup sha c.attempts ≡ some 1

pub record IsSound (c : SendResultCache) : Type 0 where
  pub few_attempts : length c.attempts ≤ 64
  pub few_entries : length c.entries ≤ 16
  pub once : Marked c

erase_head {ℓ} :
    {V : Type ℓ} (k : String) (v : V) (m : List (String × V))
    → length (erase k ((k, v) ∷ m)) ≤ length m
unfolding erase
erase_head k v m = ground (arith, eq_iff k k, length-erase-le k m)

forget_attempts-length :
    (fuel limit : ℕ) (results : List (String × SendResult)) (counts : List (String × ℕ))
    → length counts ≤ fuel + limit
    → (length
          (forget_attempts fuel limit (record { entries = results; attempts = counts })).attempts
        ≤ limit)
      × (length
            (forget_attempts fuel limit (record { entries = results; attempts = counts })).entries
          ≤ length results)
unfolding forget_attempts
forget_attempts-length zero limit results counts h = omega arith
forget_attempts-length (suc fuel) limit results [] h = omega arith
forget_attempts-length (suc fuel) limit results ((k, n) ∷ counts) h = ground (
  arith,
  erase_head k n counts,
  length-erase-le k results,
  forget_attempts-length fuel limit (erase k results) (erase k ((k, n) ∷ counts)),
)

erase-Marked :
    (k : String) (c : SendResultCache)
    → Marked c
    → Marked (record { entries = erase k c.entries; attempts = erase k c.attempts })
erase-Marked k c h sha e =
    ground (arith, h sha, lookup-erase k sha c.entries, lookup-erase k sha c.attempts)

forget_attempts-Marked :
    (fuel limit : ℕ) (results : List (String × SendResult)) (counts : List (String × ℕ))
    → Marked (record { entries = results; attempts = counts })
    → Marked (forget_attempts fuel limit (record { entries = results; attempts = counts }))
unfolding forget_attempts
forget_attempts-Marked zero limit results counts h sha e = h sha e
forget_attempts-Marked (suc fuel) limit results [] h sha e = h sha e
forget_attempts-Marked (suc fuel) limit results ((k, n) ∷ counts) h sha e = ground (
  arith,
  h sha,
  forget_attempts-Marked fuel limit (erase k results) (erase k ((k, n) ∷ counts))
      (erase-Marked k (record { entries = results; attempts = (k, n) ∷ counts }) h) sha,
)

begin-Marked :
    (sha : String) (c : SendResultCache)
    → Marked c
    → Marked (record {
      entries = if ltb 1 (attempts_of sha c + 1) then erase sha c.entries else c.entries;
      attempts = insert sha (attempts_of sha c + 1) c.attempts;
    })
begin-Marked sha c h q e = ground (
  arith,
  h q,
  eq_iff sha q,
  lookup-erase sha q c.entries,
  lookup-insert sha q (attempts_of sha c + 1) c.attempts,
)

pub begin-IsSound : (sha : String) (c : SendResultCache) → IsSound c → IsSound (begin_attempt sha c)
unfolding begin_attempt
begin-IsSound sha c s =
    let results = if ltb 1 (attempts_of sha c + 1) then erase sha c.entries else c.entries in
    let counts = insert sha (attempts_of sha c + 1) c.attempts in
    let short = forget_attempts-length (length counts) 64 results counts (omega arith) in
    record {
      few_attempts = short.0;
      few_entries = ground (arith, short.1, s.few_entries, length-erase-le sha c.entries);
      once = forget_attempts-Marked (length counts) 64 results counts (begin-Marked sha c s.once);
    }

forget_entries-length :
    (fuel limit : ℕ) (m : List (String × SendResult))
    → length m ≤ fuel + limit
    → length (forget_entries fuel limit m) ≤ limit
unfolding forget_entries
forget_entries-length zero limit m h = omega arith
forget_entries-length (suc fuel) limit [] h = omega arith
forget_entries-length (suc fuel) limit ((k, r) ∷ m) h =
    ground (arith, erase_head k r m, forget_entries-length fuel limit (erase k ((k, r) ∷ m)))

-- The loop only forgets.
forget_entries-keeps :
    (fuel limit : ℕ) (m : List (String × SendResult)) (sha : String) (r : SendResult)
    → lookup sha (forget_entries fuel limit m) ≡ some r
    → lookup sha m ≡ some r
unfolding forget_entries
forget_entries-keeps zero limit m sha r e = e
forget_entries-keeps (suc fuel) limit [] sha r e = e
forget_entries-keeps (suc fuel) limit ((k, v) ∷ m) sha r e = ground (
  arith,
  lookup-erase k sha ((k, v) ∷ m),
  forget_entries-keeps fuel limit (erase k ((k, v) ∷ m)) sha r,
)

lookup-snoc :
    (k q : String) (v : SendResult) (m : List (String × SendResult))
    → lookup q (m ++ (k, v) ∷ [])
      ≡ (elim (lookup q m) [ none ↦ if str_eq k q then some v else none | some w ↦ some w ])
unfolding lookup
lookup-snoc k q v [] = refl
lookup-snoc k q v ((j, w) ∷ m) = ground (arith, lookup-snoc k q v m)

-- What is there after a `set` was there before it, or is what was set of a prompt begun once.
pub cached-set_result :
    (sha : String) (r : SendResult) (c : SendResultCache) (q : String) (v : SendResult)
    → cached q (set_result sha r c) ≡ some v
    → (cached q c ≡ some v) ⊎ ((sha ≡ q) × (r ≡ v) × (attempts_of sha c ≡ 1))
unfolding set_result
cached-set_result sha r c q v e = elim (Bool-cases (attempts_of sha c == 1)) [
  | inl once ↦
      let there =
        forget_entries-keeps (length (erase sha c.entries ++ (sha, r) ∷ [])) 16
          (erase sha c.entries ++ (sha, r) ∷ []) q v (rw once at e) in
      elim (Bool-cases (str_eq sha q)) [
        | inl same ↦ inr (
          (eq_iff sha q).0 same,
          ground (
            arith,
            lookup-snoc sha q r (erase sha c.entries),
            lookup-erase sha q c.entries,
            eq_iff sha q,
          ),
          ground arith,
        )
        | inr other ↦ inl (
            ground (
              arith,
              lookup-snoc sha q r (erase sha c.entries),
              lookup-erase sha q c.entries,
              eq_iff sha q,
            ))
      ]
  | inr other ↦ inl (rw other at e)
]

set-attempts :
    (sha : String) (r : SendResult) (c : SendResultCache)
    → (set_result sha r c).attempts ≡ c.attempts
unfolding set_result
set-attempts sha r c = ground arith

set-few :
    (sha : String) (r : SendResult) (c : SendResultCache)
    → length c.entries ≤ 16
    → length (set_result sha r c).entries ≤ 16
unfolding set_result
set-few sha r c h =
    let results = erase sha c.entries ++ (sha, r) ∷ [] in
    ground (arith, forget_entries-length (length results) 16 results)

set-once :
    (sha : String) (r : SendResult) (c : SendResultCache) → Marked c → Marked (set_result sha r c)
set-once sha r c h q e = elim (Option-cases (cached q (set_result sha r c))) [
  | inl nothing ↦ cc
  | inr (v, there) ↦ elim (cached-set_result sha r c q v there) [
    | inl before ↦ rw (set-attempts sha r c) (h q (rw before refl))
    | inr (same, _, once) ↦ rw (set-attempts sha r c) (rw (← same) (ground arith))
  ]
]

pub set-IsSound :
    (sha : String) (r : SendResult) (c : SendResultCache) → IsSound c → IsSound (set_result sha r c)
set-IsSound sha r c s = record {
  few_attempts = rw (set-attempts sha r c) s.few_attempts;
  few_entries = set-few sha r c s.few_entries;
  once = set-once sha r c s.once;
}

call-IsSound : (x : CacheCall) (c : SendResultCache) → IsSound c → IsSound (call x c)
call-IsSound (begins sha) c s = begin-IsSound sha c s
call-IsSound (sets sha r) c s = set-IsSound sha r c s

run_from-IsSound : (xs : List CacheCall) (c : SendResultCache) → IsSound c → IsSound (run xs c)
run_from-IsSound [] c s = s
run_from-IsSound (x ∷ xs) c s = run_from-IsSound xs (call x c) (call-IsSound x c s)

new_cache-IsSound : IsSound new_cache
unfolding lookup
new_cache-IsSound = record {
  few_attempts = omega arith;
  few_entries = omega arith;
  once = λ sha e. absurd (cc);
}

-- Whatever sends are begun and finished, the cache counts at most 64 prompts and holds at most 16
-- results, each of a prompt that was begun once since its count was last dropped.
pub run-IsSound : (xs : List CacheCall) → IsSound (run xs new_cache)
run-IsSound xs = run_from-IsSound xs new_cache new_cache-IsSound

abbrev pub begun : String → List CacheCall → ℕ
begun q [] = 0
begun q (begins sha ∷ xs) = (if str_eq sha q then 1 else 0) + begun q xs
begun q (sets sha r ∷ xs) = begun q xs

abbrev pub all_begun : List CacheCall → ℕ
all_begun [] = 0
all_begun (begins sha ∷ xs) = 1 + all_begun xs
all_begun (sets sha r ∷ xs) = all_begun xs

forget_attempts-none :
    (fuel limit : ℕ) (results : List (String × SendResult)) (counts : List (String × ℕ))
    → length counts ≤ limit
    → (forget_attempts fuel limit (record { entries = results; attempts = counts })).attempts
      ≡ counts
unfolding forget_attempts
forget_attempts-none zero limit results counts h = refl
forget_attempts-none (suc fuel) limit results [] h = refl
forget_attempts-none (suc fuel) limit results ((k, n) ∷ counts) h = ground arith

begin-attempts :
    (sha : String) (c : SendResultCache)
    → length c.attempts + 1 ≤ 64
    → (begin_attempt sha c).attempts ≡ insert sha (attempts_of sha c + 1) c.attempts
unfolding begin_attempt
begin-attempts sha c h =
    let counts = insert sha (attempts_of sha c + 1) c.attempts in
    forget_attempts-none (length counts) 64
      (if ltb 1 (attempts_of sha c + 1) then erase sha c.entries else c.entries) counts
      (omega (arith, length-insert-le sha (attempts_of sha c + 1) c.attempts))

run-attempts_of :
    (q : String) (xs : List CacheCall) (c : SendResultCache)
    → length c.attempts + all_begun xs ≤ 64
    → attempts_of q (run xs c) ≡ attempts_of q c + begun q xs
run-attempts_of q [] c h = omega arith
run-attempts_of q (begins sha ∷ xs) c h = ground (
  arith,
  begin-attempts sha c,
  length-insert-le sha (attempts_of sha c + 1) c.attempts,
  lookup-insert sha q (attempts_of sha c + 1) c.attempts,
  eq_iff sha q,
  run-attempts_of q xs (begin_attempt sha c),
)
run-attempts_of q (sets sha r ∷ xs) c h =
    ground (arith, set-attempts sha r c, run-attempts_of q xs (set_result sha r c))

-- A `set` of this result for this prompt.
pub data WasSet (q : String) (r : SendResult) : List CacheCall → Type 0 where
  now : {xs : List CacheCall} → WasSet q r (sets q r ∷ xs)
  later : {x : CacheCall} {xs : List CacheCall} → WasSet q r xs → WasSet q r (x ∷ xs)

forget_attempts-keeps :
    (fuel limit : ℕ) (results : List (String × SendResult)) (counts : List (String × ℕ))
    (q : String) (r : SendResult)
    → cached q (forget_attempts fuel limit (record { entries = results; attempts = counts }))
      ≡ some r
    → lookup q results ≡ some r
unfolding forget_attempts
forget_attempts-keeps zero limit results counts q r e = e
forget_attempts-keeps (suc fuel) limit results [] q r e = e
forget_attempts-keeps (suc fuel) limit results ((k, n) ∷ counts) q r e = ground (
  arith,
  lookup-erase k q results,
  forget_attempts-keeps fuel limit (erase k results) (erase k ((k, n) ∷ counts)) q r,
)

cached-begin_attempt :
    (sha : String) (c : SendResultCache) (q : String) (r : SendResult)
    → cached q (begin_attempt sha c) ≡ some r
    → cached q c ≡ some r
unfolding begin_attempt
cached-begin_attempt sha c q r e =
    let counts = insert sha (attempts_of sha c + 1) c.attempts in
    let kept =
      forget_attempts-keeps (length counts) 64
        (if ltb 1 (attempts_of sha c + 1) then erase sha c.entries else c.entries) counts q r e in
    ground (arith, lookup-erase sha q c.entries)

cached-run :
    (q : String) (r : SendResult) (xs : List CacheCall) (c : SendResultCache)
    → cached q (run xs c) ≡ some r
    → (cached q c ≡ some r) ⊎ WasSet q r xs
cached-run q r [] c e = inl e
cached-run q r (begins sha ∷ xs) c e = elim (cached-run q r xs (begin_attempt sha c) e) [
  | inl kept ↦ inl (cached-begin_attempt sha c q r kept)
  | inr w ↦ inr (later w)
]
cached-run q r (sets sha v ∷ xs) c e = elim (cached-run q r xs (set_result sha v c) e) [
  | inl kept ↦ elim (cached-set_result sha v c q r kept) [
    | inl before ↦ inl before
    | inr (same, was, _) ↦ inr (
        subst (λ k. WasSet q r (sets k v ∷ xs)) (sym same)
          (subst (λ w. WasSet q r (sets q w ∷ xs)) (sym was) now))
  ]
  | inr w ↦ inr (later w)
]

-- Among 64 sends at most, a result is found only for a prompt that was begun exactly once, and is
-- one that was set for it: a prompt begun twice is never answered from the cache.
pub run-begun :
    (q : String) (xs : List CacheCall) (r : SendResult)
    → all_begun xs ≤ 64
    → cached q (run xs new_cache) ≡ some r
    → (begun q xs ≡ 1) × WasSet q r xs
unfolding lookup
run-begun q xs r few e =
    let once = (run-IsSound xs).once q (rw e refl) in
    let counted = run-attempts_of q xs new_cache (omega arith) in
    (ground arith, elim (cached-run q r xs new_cache e) [ inl nothing ↦ absurd (cc) | inr w ↦ w ])
