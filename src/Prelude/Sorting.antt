-- ===== src/Prelude/Sorting.antt =====
-- ORDER BY yields the same rows, in an order in which none stands ahead of an earlier one.
use mathlib.Core.Path.{◌≡◌, refl, sym, ◌∙◌, subst}
use mathlib.Core.Logic.{◌⊎◌, inl, inr}
use mathlib.Core.Bool.{Bool, true, not}
use mathlib.Core.Option.{none, some, some-injective}
use mathlib.Core.List.{List, [], ◌∷◌}
use native.Mathlib.Omega.{arith}
use Prim.Native.Nat.{◌<◌}
use home_server_infra.Prelude.Tests.{Bool-cases}
use home_server_infra.Prelude.Lists.{All, head?}
use home_server_infra.Prelude.Rows.{count, insert_by, order_by}
use home_server_infra.Prelude.Counting.{count-order_by}

module _ {ℓ} {A : Type ℓ} where
  -- A comparison that ORDER BY can sort by.
  pub record IsOrder (before : A → A → Bool) : Type ℓ where
    pub total : (a b : A) → (before a b ≡ true) ⊎ (before b a ≡ true)
    pub trans : (a b c : A) → before a b ≡ true → before b c ≡ true → before a c ≡ true

  abbrev pub IsSorted : (A → A → Bool) → List A → Type 0
  IsSorted before [] = Unit
  IsSorted before (x ∷ xs) = All (λ y. before x y ≡ true) xs × IsSorted before xs

module _ {ℓ} {A : Type ℓ} {before : A → A → Bool} (o : IsOrder before) where
  All-before :
      (x y : A) (xs : List A)
      → before x y ≡ true
      → All (λ z. before y z ≡ true) xs
      → All (λ z. before x z ≡ true) xs
  All-before x y [] h a = tt
  All-before x y (z ∷ zs) h a = (o.trans x y z h a.0, All-before x y zs h a.1)

  All-insert_by :
      (w x : A) (xs : List A)
      → before w x ≡ true
      → All (λ z. before w z ≡ true) xs
      → All (λ z. before w z ≡ true) (insert_by before x xs)
  unfolding insert_by
  All-insert_by w x [] h a = (h, tt)
  All-insert_by w x (y ∷ ys) h a = elim (Bool-cases (before x y)) [
    | inl t ↦ rw t (h, a)
    | inr t ↦ rw t (a.0, All-insert_by w x ys h a.1)
  ]

  insert_by-IsSorted :
      (x : A) (xs : List A) → IsSorted before xs → IsSorted before (insert_by before x xs)
  unfolding insert_by
  insert_by-IsSorted x [] s = (tt, tt)
  insert_by-IsSorted x (y ∷ ys) s = elim (Bool-cases (before x y)) [
    | inl t ↦ rw t ((t, All-before x y ys t s.0), s)
    | inr t ↦ rw t (
      All-insert_by y x ys (elim (o.total x y) [ inl a ↦ cc | inr a ↦ a ]) s.0,
      insert_by-IsSorted x ys s.1,
    )
  ]

  pub order_by-IsSorted : (xs : List A) → IsSorted before (order_by before xs)
  unfolding order_by
  order_by-IsSorted [] = tt
  order_by-IsSorted (x ∷ xs) = insert_by-IsSorted x (order_by before xs) (order_by-IsSorted xs)

  count-All :
      (x : A) (xs : List A) → All (λ y. before x y ≡ true) xs → count (λ y. not (before x y)) xs ≡ 0
  unfolding count
  count-All x [] a = refl
  count-All x (y ∷ ys) a = ground (arith, count-All x ys a.1)

  before_refl : (x : A) → before x x ≡ true
  before_refl x = elim (o.total x x) [ inl h ↦ h | inr h ↦ h ]

  count-first :
      (y : A) (ys : List A) → IsSorted before (y ∷ ys) → count (λ w. not (before y w)) (y ∷ ys) ≡ 0
  unfolding count
  count-first y ys s = ground (arith, count-All y ys s.0, before_refl y)

  count-head :
      (ys : List A) {x : A}
      → IsSorted before ys
      → head? ys ≡ some x
      → count (λ y. not (before x y)) ys ≡ 0
  unfolding count
  count-head [] s e = absurd (cc)
  count-head (y ∷ ys) {x} s e =
      subst (λ z. count (λ w. not (before z w)) (y ∷ ys) ≡ 0) (some-injective _ _ e)
        (count-first y ys s)

  -- The first row: no row of the table has to stand ahead of it.
  pub head-order_by :
      (xs : List A) {x : A}
      → head? (order_by before xs) ≡ some x
      → count (λ y. not (before x y)) xs ≡ 0
  head-order_by xs {x} e =
      sym (count-order_by (λ y. not (before x y)) before xs)
      ∙ count-head (order_by before xs) (order_by-IsSorted xs) e

module _ {ℓ} {A : Type ℓ} (before : A → A → Bool) where
  count-of-head :
      (q : A → Bool) (ys : List A) {x : A} → head? ys ≡ some x → q x ≡ true → 0 < count q ys
  unfolding count
  count-of-head q [] e h = absurd (cc)
  count-of-head q (y ∷ ys) {x} e h = ground arith

  -- The first row is a row of the table.
  pub count-of-head-order_by :
      (q : A → Bool) (xs : List A) {x : A}
      → head? (order_by before xs) ≡ some x
      → q x ≡ true
      → 0 < count q xs
  count-of-head-order_by q xs e h =
      rw (← count-order_by q before xs) (count-of-head q (order_by before xs) e h)

  -- There is no first row only in an empty table.
  pub head-order_by-eq-none :
      (q : A → Bool) (xs : List A) → head? (order_by before xs) ≡ none → count q xs ≡ 0
  unfolding count
  head-order_by-eq-none q xs e =
      sym (count-order_by q before xs) ∙ count-of-none (order_by before xs) e
    where
      count-of-none : (ys : List A) → head? ys ≡ none → count q ys ≡ 0
      count-of-none [] e = refl
      count-of-none (y ∷ ys) e = absurd (cc)
