-- ===== src/Prelude/Members.antt =====
-- Which rows the statements of `Prelude.Rows` yield, one by one.
use mathlib.Core.Path.{◌≡◌, sym, subst}
use mathlib.Core.Logic.{◌⊎◌, inl, inr}
use mathlib.Core.Bool.{Bool, true, not}
use mathlib.Core.Option.{none, some, some-injective}
use mathlib.Core.List.{List, [], ◌∷◌}
use mathlib.Core.List.{Memᴰ}
use mathlib.Core.List.Memᴰ
use native.Mathlib.Omega.{arith}
use home_server_infra.Prelude.Tests.{Bool-cases}
use home_server_infra.Prelude.Lists.{head?}
use home_server_infra.Prelude.Rows.{select_where, count, insert_by, order_by}

module _ {ℓ} {A : Type ℓ} where
  pub mem-select_where :
      (p : A → Bool) (xs : List A) {x : A} → Memᴰ x xs → p x ≡ true → Memᴰ x (select_where p xs)
  unfolding select_where
  mem-select_where p [] m h = absurd (Memᴰ.not-nil m)
  mem-select_where p (y ∷ ys) {x} (Memᴰ.head e) h =
      let here : p y ≡ true = subst (λ z. p z ≡ true) e h in rw here (Memᴰ.head e)
  mem-select_where p (y ∷ ys) {x} (Memᴰ.tail m) h = elim (Bool-cases (p y)) [
    | inl t ↦ rw t (Memᴰ.tail (mem-select_where p ys m h))
    | inr t ↦ rw t (mem-select_where p ys m h)
  ]

  pub mem-of-select_where :
      (p : A → Bool) (xs : List A) {x : A} → Memᴰ x (select_where p xs) → Memᴰ x xs × (p x ≡ true)
  unfolding select_where
  mem-of-select_where p [] m = absurd (Memᴰ.not-nil m)
  mem-of-select_where p (y ∷ ys) {x} m = elim (Bool-cases (p y)) [
    | inl t ↦ elim (Memᴰ.cases_cons (rw t at m)) [
      | inl e ↦ (Memᴰ.head e, subst (λ z. p z ≡ true) (sym e) t)
      | inr later ↦ let (there, h) = mem-of-select_where p ys {x = x} later in (Memᴰ.tail there, h)
    ]
    | inr t ↦ let (there, h) = mem-of-select_where p ys {x = x} (rw t at m) in (Memᴰ.tail there, h)
  ]

  mem-insert_by :
      (before : A → A → Bool) (x : A) (xs : List A) {z : A}
      → (z ≡ x) ⊎ Memᴰ z xs
      → Memᴰ z (insert_by before x xs)
  unfolding insert_by
  mem-insert_by before x [] (inl e) = Memᴰ.head e
  mem-insert_by before x [] (inr m) = absurd (Memᴰ.not-nil m)
  mem-insert_by before x (y ∷ ys) {z} (inl e) = elim (Bool-cases (before x y)) [
    | inl t ↦ rw t (Memᴰ.head e)
    | inr t ↦ rw t (Memᴰ.tail (mem-insert_by before x ys (inl e)))
  ]
  mem-insert_by before x (y ∷ ys) {z} (inr m) = elim (Bool-cases (before x y)) [
    | inl t ↦ rw t (Memᴰ.tail m)
    | inr t ↦ rw t (elim (Memᴰ.cases_cons m) [
      | inl e ↦ Memᴰ.head e
      | inr later ↦ Memᴰ.tail (mem-insert_by before x ys (inr later))
    ])
  ]

  mem-of-insert_by :
      (before : A → A → Bool) (x : A) (xs : List A) {z : A}
      → Memᴰ z (insert_by before x xs)
      → (z ≡ x) ⊎ Memᴰ z xs
  unfolding insert_by
  mem-of-insert_by before x [] m = Memᴰ.cases_cons m
  mem-of-insert_by before x (y ∷ ys) {z} m = elim (Bool-cases (before x y)) [
    | inl t ↦ Memᴰ.cases_cons (rw t at m)
    | inr t ↦ elim (Memᴰ.cases_cons (rw t at m)) [
      | inl e ↦ inr (Memᴰ.head e)
      | inr later ↦ elim (mem-of-insert_by before x ys later) [
        | inl e ↦ inl e
        | inr n ↦ inr (Memᴰ.tail n)
      ]
    ]
  ]

  pub mem-order_by :
      (before : A → A → Bool) (xs : List A) {z : A} → Memᴰ z xs → Memᴰ z (order_by before xs)
  unfolding order_by
  mem-order_by before [] m = m
  mem-order_by before (x ∷ xs) (Memᴰ.head e) = mem-insert_by before x (order_by before xs) (inl e)
  mem-order_by before (x ∷ xs) (Memᴰ.tail m) =
      mem-insert_by before x (order_by before xs) (inr (mem-order_by before xs m))

  pub mem-of-order_by :
      (before : A → A → Bool) (xs : List A) {z : A} → Memᴰ z (order_by before xs) → Memᴰ z xs
  unfolding order_by
  mem-of-order_by before [] m = m
  mem-of-order_by before (x ∷ xs) {z} m = elim (mem-of-insert_by before x (order_by before xs) m) [
    | inl e ↦ Memᴰ.head e
    | inr n ↦ Memᴰ.tail (mem-of-order_by before xs n)
  ]

  pub mem-of-head : (xs : List A) {x : A} → head? xs ≡ some x → Memᴰ x xs
  mem-of-head [] e = absurd (cc)
  mem-of-head (y ∷ ys) {x} e = Memᴰ.head (sym (some-injective _ _ e))

  pub not-mem-of-none : (xs : List A) {x : A} → head? xs ≡ none → Memᴰ x xs → ⊥
  not-mem-of-none [] e m = Memᴰ.not-nil m
  not-mem-of-none (y ∷ ys) e m = absurd (cc)

  -- No member fails a test that none fails.
  pub mem-of-count :
      (p : A → Bool) (xs : List A) {x : A} → count (λ y. not (p y)) xs ≡ 0 → Memᴰ x xs → p x ≡ true
  unfolding count
  mem-of-count p [] h m = absurd (Memᴰ.not-nil m)
  mem-of-count p (y ∷ ys) {x} h (Memᴰ.head e) =
      let here : p y ≡ true = ground arith in subst (λ z. p z ≡ true) (sym e) here
  mem-of-count p (y ∷ ys) {x} h (Memᴰ.tail m) = mem-of-count p ys {x = x} (ground arith) m
