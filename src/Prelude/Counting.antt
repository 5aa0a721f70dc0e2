-- ===== src/Prelude/Counting.antt =====
-- How many rows fit, after the statements of `Prelude.Rows`. That every row fits is said as "none
-- fails to", so that one number carries a fact through sorting, selecting and updating.
use Prim.Native.Nat.{◌+◌, ◌≤◌, ◌<◌}
use mathlib.Core.Path.{◌≡◌, refl}
use mathlib.Core.Logic.{◌⊎◌, inl, inr}
use mathlib.Core.Bool.{Bool, true, false, not, ◌&&◌}
use mathlib.Core.Option.{none, some}
use mathlib.Core.List.{List, [], ◌∷◌, ◌++◌, map}
use native.Mathlib.Omega.{arith}
use home_server_infra.Prelude.Tests.{if◌then◌else◌, Bool-cases}
use home_server_infra.Prelude.Rows.{
  select_where, find_row, count, update_where, insert_by, order_by, count-append,
}

module _ {ℓ} {A : Type ℓ} where
  pub count-single : (q : A → Bool) (x : A) → count q (x ∷ []) ≡ (if q x then 1 else 0)
  unfolding count
  count-single q x = refl

  -- One more row at the end.
  pub count-snoc :
      (q : A → Bool) (xs : List A) (x : A)
      → count q (xs ++ x ∷ []) ≡ count q xs + (if q x then 1 else 0)
  count-snoc q xs x = omega (arith, count-append q xs (x ∷ []), count-single q x)

  pub count-update_where-le :
      (q p : A → Bool) (f : A → A) (xs : List A)
      → ((x : A) → p x ≡ true → q (f x) ≡ true → q x ≡ true)
      → count q (update_where p f xs) ≤ count q xs
  unfolding count update_where
  count-update_where-le q p f [] h = omega arith
  count-update_where-le q p f (x ∷ xs) h = ground (arith, count-update_where-le q p f xs h, h x)

  pub count-update_where :
      (q p : A → Bool) (f : A → A) (xs : List A)
      → ((x : A) → q (f x) ≡ q x)
      → count q (update_where p f xs) ≡ count q xs
  unfolding count update_where
  count-update_where q p f [] h = refl
  count-update_where q p f (x ∷ xs) h = ground (arith, count-update_where q p f xs h, h x)

  pub count-update_where-ge :
      (q p : A → Bool) (f : A → A) (xs : List A)
      → ((x : A) → p x ≡ true → q x ≡ true → q (f x) ≡ true)
      → count q xs ≤ count q (update_where p f xs)
  unfolding count update_where
  count-update_where-ge q p f [] h = omega arith
  count-update_where-ge q p f (x ∷ xs) h = ground (arith, count-update_where-ge q p f xs h, h x)

  -- An update of exactly one row leaves a row that fits, if what it writes does.
  pub count-update_where-hit :
      (q p : A → Bool) (f : A → A) (xs : List A)
      → ((x : A) → p x ≡ true → q (f x) ≡ true)
      → 0 < count p xs
      → 0 < count q (update_where p f xs)
  unfolding count update_where
  count-update_where-hit q p f [] h n = absurd (omega arith)
  count-update_where-hit q p f (x ∷ xs) h n = ground (arith, count-update_where-hit q p f xs h, h x)

  pub count-update_where-add :
      (q p : A → Bool) (f : A → A) (xs : List A)
      → count q (update_where p f xs) ≤ count q xs + count p xs
  unfolding count update_where
  count-update_where-add q p f [] = omega arith
  count-update_where-add q p f (x ∷ xs) = ground (arith, count-update_where-add q p f xs)

  pub count-select_where :
      (q p : A → Bool) (xs : List A) → count q (select_where p xs) ≡ count (λ x. p x && q x) xs
  unfolding count select_where
  count-select_where q p [] = refl
  count-select_where q p (x ∷ xs) = ground (arith, count-select_where q p xs)

  pub count-insert_by :
      (q : A → Bool) (before : A → A → Bool) (x : A) (xs : List A)
      → count q (insert_by before x xs) ≡ count q (x ∷ xs)
  unfolding count insert_by
  count-insert_by q before x [] = refl
  count-insert_by q before x (y ∷ ys) = ground (arith, count-insert_by q before x ys)

  pub count-order_by :
      (q : A → Bool) (before : A → A → Bool) (xs : List A)
      → count q (order_by before xs) ≡ count q xs
  unfolding count order_by
  count-order_by q before [] = refl
  count-order_by q before (x ∷ xs) =
      ground (arith, count-order_by q before xs, count-insert_by q before x (order_by before xs))

  pub count_mono :
      (q p : A → Bool) (xs : List A) → ((x : A) → q x ≡ true → p x ≡ true) → count q xs ≤ count p xs
  unfolding count
  count_mono q p [] h = omega arith
  count_mono q p (x ∷ xs) h = ground (arith, count_mono q p xs h, h x)

  pub count-congr : (q p : A → Bool) (xs : List A) → ((x : A) → q x ≡ p x) → count q xs ≡ count p xs
  unfolding count
  count-congr q p [] h = refl
  count-congr q p (x ∷ xs) h = ground (arith, count-congr q p xs h, h x)

  pub count-union :
      (q p r : A → Bool) (xs : List A)
      → ((x : A) → q x ≡ true → (p x ≡ true) ⊎ (r x ≡ true))
      → count q xs ≤ count p xs + count r xs
  unfolding count
  count-union q p r [] h = omega arith
  count-union q p r (x ∷ xs) h = ground (arith, count-union q p r xs h, h x)

  -- The rows that fit are those that also fit `q`, and those that do not.
  pub count-split :
      (q p : A → Bool) (xs : List A)
      → count p xs ≡ count (λ x. p x && q x) xs + count (λ x. p x && not (q x)) xs
  unfolding count
  count-split q p [] = omega arith
  count-split q p (x ∷ xs) = ground (arith, count-split q p xs)

  pub count-of-find_row :
      (p : A → Bool) (xs : List A) {x : A} → find_row p xs ≡ some x → 0 < count p xs
  unfolding count find_row
  count-of-find_row p [] e = absurd (cc)
  count-of-find_row p (y ∷ ys) {x} e = ground (arith, count-of-find_row p ys {x = x})

  pub find_row-eq-none : (p : A → Bool) (xs : List A) → find_row p xs ≡ none → count p xs ≡ 0
  unfolding count find_row
  find_row-eq-none p [] e = refl
  find_row-eq-none p (y ∷ ys) e = ground (arith, find_row-eq-none p ys)

  pub find_row-of-count : (p : A → Bool) (xs : List A) → count p xs ≡ 0 → find_row p xs ≡ none
  unfolding count find_row
  find_row-of-count p [] e = refl
  find_row-of-count p (y ∷ ys) e = ground (arith, find_row-of-count p ys)

  -- A row that is found is counted by every test that it passes.
  pub count-find_row :
      (p q : A → Bool) (xs : List A) {x : A}
      → find_row p xs ≡ some x
      → q x ≡ true
      → 0 < count (λ y. p y && q y) xs
  unfolding count find_row
  count-find_row p q [] e h = absurd (cc)
  count-find_row p q (y ∷ ys) {x} e h = elim (Bool-cases (p y)) [
    | inl t ↦ ground arith
    | inr t ↦ ground (arith, count-find_row p q ys {x = x})
  ]

module _ {ℓ κ} {A : Type ℓ} {B : Type κ} where
  pub count-map :
      (q : B → Bool) (f : A → B) (xs : List A) → count q (map f xs) ≡ count (λ x. q (f x)) xs
  unfolding count
  count-map q f [] = refl
  count-map q f (x ∷ xs) = ground (arith, count-map q f xs)

module _ {ℓ} {A : Type ℓ} where
  pub count-none : (q : A → Bool) (xs : List A) → ((x : A) → q x ≡ false) → count q xs ≡ 0
  unfolding count
  count-none q [] h = refl
  count-none q (x ∷ xs) h = ground (arith, count-none q xs h, h x)
