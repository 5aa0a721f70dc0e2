-- ===== src/Daemon/Chips.antt =====
-- Whether the attachments that a page shows are the ones that were given: `counts` and `sameCounts`
-- of stacks/gpt-webai-pro/src/daemon/actions/send.ts.
pub mod SameCounts
use home_server_infra.Prelude.{
  ℕ, ◌+◌, String, Bool, false, Option, none, some, List, [], ◌∷◌, all, length, str_eq, ◌==◌, ◌&&◌,
  if◌then◌else◌, ◌≡◌, arith, eq_iff,
}
use home_server_infra.Prelude.Maps.{lookup, insert, lookup-insert}

abbrev pub or_zero : Option ℕ → ℕ
or_zero none = 0
or_zero (some n) = n

-- the loop of `counts`, from the counts so far
unfoldable pub counts_from : List (String × ℕ) → List String → List (String × ℕ)
counts_from m [] = m
counts_from m (v ∷ vs) = counts_from (insert v (or_zero (lookup v m) + 1) m) vs

abbrev pub counts : List String → List (String × ℕ)
counts values = counts_from [] values

abbrev pub count_is : Option ℕ → ℕ → Bool
count_is none n = false
count_is (some k) n = k == n

abbrev pub agrees : List (String × ℕ) → String × ℕ → Bool
agrees right (key, n) = count_is (lookup key right) n

unfoldable pub same_counts : List (String × ℕ) → List (String × ℕ) → Bool
same_counts left right = length left == length right && all (agrees right) left

-- How often a text occurs.
abbrev pub occurrences : String → List String → ℕ
occurrences q [] = 0
occurrences q (v ∷ vs) = (if str_eq v q then 1 else 0) + occurrences q vs

pub lookup-counts_from :
    (q : String) (m : List (String × ℕ)) (vs : List String)
    → or_zero (lookup q (counts_from m vs)) ≡ or_zero (lookup q m) + occurrences q vs
unfolding counts_from
lookup-counts_from q m [] = omega arith
lookup-counts_from q m (v ∷ vs) = ground (
  arith,
  eq_iff v q,
  lookup-insert v q (or_zero (lookup v m) + 1) m,
  lookup-counts_from q (insert v (or_zero (lookup v m) + 1) m) vs,
)
