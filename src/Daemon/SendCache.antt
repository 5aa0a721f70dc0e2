-- ===== src/Daemon/SendCache.antt =====
-- `SendResultCache` of stacks/gpt-webai-pro/src/daemon/main.ts: the results of finished sends, by
-- the digest of their prompts.
pub mod Soundness
use home_server_infra.Prelude.{
  ℕ, zero, suc, ◌+◌, ◌*◌, String, Option, none, some, List, [], ◌∷◌, ◌++◌, ltb, length,
  if◌then◌else◌, ◌==◌,
}
use home_server_infra.Prelude.Maps.{lookup, insert, erase}
use home_server_infra.Shared.Types.{SendResult}

abbrev pub send_cache_limit : ℕ
send_cache_limit = 16

pub record SendResultCache : Type 0 where
  pub entries : List (String × SendResult)
  pub attempts : List (String × ℕ)

abbrev pub new_cache : SendResultCache
new_cache = record { entries = []; attempts = [] }

abbrev pub or_zero : Option ℕ → ℕ
or_zero none = 0
or_zero (some n) = n

-- `this.attempts.get(promptSha256) ?? 0`
abbrev pub attempts_of : String → SendResultCache → ℕ
attempts_of sha c = or_zero (lookup sha c.attempts)

-- the loop of `beginAttempt`; each round takes a key away, so `fuel` of the size is enough
unfoldable pub forget_attempts : ℕ → ℕ → SendResultCache → SendResultCache
forget_attempts zero limit c = c
forget_attempts (suc fuel) limit c = elim c.attempts [
  | [] ↦ c
  | (oldest, _) ∷ _ ↦
      let rest =
        forget_attempts fuel limit
          (record { entries = erase oldest c.entries; attempts = erase oldest c.attempts }) in
      if ltb limit (length c.attempts) then rest else c
]

unfoldable pub begin_attempt : String → SendResultCache → SendResultCache
unfolding forget_attempts
begin_attempt sha c =
    let count = attempts_of sha c + 1 in
    let attempts = insert sha count c.attempts in
    forget_attempts (length attempts) (send_cache_limit * 4) (record {
      entries = if ltb 1 count then erase sha c.entries else c.entries;
      attempts = attempts;
    })

-- the loop of `set`
unfoldable pub forget_entries : ℕ → ℕ → List (String × SendResult) → List (String × SendResult)
forget_entries zero limit m = m
forget_entries (suc fuel) limit [] = []
forget_entries (suc fuel) limit ((oldest, r) ∷ m) =
    let rest = forget_entries fuel limit (erase oldest ((oldest, r) ∷ m)) in
    if ltb limit (length ((oldest, r) ∷ m)) then rest else (oldest, r) ∷ m

unfoldable pub set_result : String → SendResult → SendResultCache → SendResultCache
unfolding forget_entries
set_result sha result c =
    let entries = erase sha c.entries ++ (sha, result) ∷ [] in
    if attempts_of sha c == 1
    then record c { entries = forget_entries (length entries) send_cache_limit entries }
    else c

-- `get`
abbrev pub cached : String → SendResultCache → Option SendResult
cached sha c = lookup sha c.entries

-- what the queue of mutations does with the cache, in the order in which it does it
pub data CacheCall : Type 0 where
  begins : String → CacheCall
  sets : String → SendResult → CacheCall

abbrev pub call : CacheCall → SendResultCache → SendResultCache
call (begins sha) c = begin_attempt sha c
call (sets sha r) c = set_result sha r c

abbrev pub run : List CacheCall → SendResultCache → SendResultCache
run [] c = c
run (x ∷ xs) c = run xs (call x c)
