-- ===== src/Daemon/Chips/SameCounts.antt =====
-- `sameCounts` of `counts` in stacks/gpt-webai-pro/src/daemon/actions/send.ts compares two lists of
-- names whatever their order.
use home_server_infra.Prelude.{
  ℕ, ◌+◌, String, true, none, some, List, [], ◌∷◌, all, length, str_eq, ◌≡◌, refl, arith, ◌↔◌,
  eq_iff, Bool-cases, inl, inr, sym, ◌∙◌, subst, ◌≢◌,
}
use home_server_infra.Prelude.Maps.{lookup, insert, erase, lookup-insert, lookup-erase}
use home_server_infra.Daemon.Chips.{
  or_zero, counts_from, counts, agrees, same_counts, occurrences, lookup-counts_from,
}

abbrev Counts : Type 0
Counts = List (String × ℕ)

-- No key stands twice.
abbrev IsDistinct : Counts → Type 0
IsDistinct [] = Unit
IsDistinct ((k, n) ∷ m) = (lookup k m ≡ none) × IsDistinct m

insert-IsDistinct : (k : String) (n : ℕ) (m : Counts) → IsDistinct m → IsDistinct (insert k n m)
unfolding lookup insert
insert-IsDistinct k n [] d = (refl, tt)
insert-IsDistinct k n ((j, w) ∷ m) d = elim (Bool-cases (str_eq j k)) [
  | inl e ↦ rw e (subst (λ i. lookup i m ≡ none) ((eq_iff j k).0 e) d.0, d.1)
  | inr e ↦
      rw e
        (ground (arith, eq_iff j k, eq_iff k j, lookup-insert k j n m), insert-IsDistinct k n m d.1)
]

erase_absent : (k : String) (m : Counts) → lookup k m ≡ none → erase k m ≡ m
unfolding lookup erase
erase_absent k [] e = refl
erase_absent k ((j, w) ∷ m) e = ground (arith, erase_absent k m)

erase-IsDistinct : (k : String) (m : Counts) → IsDistinct m → IsDistinct (erase k m)
unfolding erase
erase-IsDistinct k [] d = tt
erase-IsDistinct k ((j, w) ∷ m) d = elim (Bool-cases (str_eq j k)) [
  | inl e ↦ rw e (erase-IsDistinct k m d.1)
  | inr e ↦ rw e (ground (arith, lookup-erase k j m), erase-IsDistinct k m d.1)
]

length-erase :
    (k : String) (n : ℕ) (m : Counts)
    → IsDistinct m
    → lookup k m ≡ some n
    → length m ≡ length (erase k m) + 1
unfolding lookup erase
length-erase k n [] d e = absurd (cc)
length-erase k n ((j, w) ∷ m) d e = elim (Bool-cases (str_eq j k)) [
  | inl same ↦
      rw (same, erase_absent k m (subst (λ i. lookup i m ≡ none) ((eq_iff j k).0 same) d.0))
        (omega arith)
  | inr other ↦ rw other (omega (arith, length-erase k n m d.1 (ground arith)))
]

-- Without a key that is not asked for, the tests are the same.
all-agrees-erase :
    (k : String) (left right : Counts)
    → lookup k left ≡ none
    → all (agrees (erase k right)) left ≡ all (agrees right) left
unfolding lookup
all-agrees-erase k [] right e = refl
all-agrees-erase k ((j, n) ∷ left) right e =
    ground (arith, eq_iff j k, eq_iff k j, lookup-erase k j right, all-agrees-erase k left right)

lookup_of_agreeing :
    (left right : Counts)
    → IsDistinct left
    → IsDistinct right
    → length left ≡ length right
    → all (agrees right) left ≡ true
    → (q : String) → lookup q right ≡ lookup q left
unfolding lookup
lookup_of_agreeing [] [] dl dr n a q = refl
lookup_of_agreeing [] (x ∷ right) dl dr n a q = absurd (omega arith)
lookup_of_agreeing ((k, n) ∷ left) right dl dr len a q =
    let here : lookup k right ≡ some n = ground arith in
    let fewer = length-erase k n right dr here in
    let rest =
      lookup_of_agreeing left (erase k right) dl.1 (erase-IsDistinct k right dr) (omega arith)
        (all-agrees-erase k left right dl.0 ∙ ground arith) q in
    ground (arith, eq_iff k q, lookup-erase k q right)

without :
    (k : String) (n : ℕ) (left right : Counts)
    → lookup k left ≡ none
    → (q : String) → lookup q right ≡ lookup q ((k, n) ∷ left)
    → lookup q (erase k right) ≡ lookup q left
unfolding lookup
without k n left right e q h = ground (arith, eq_iff k q, lookup-erase k q right)

agreeing_of_lookup :
    (left right : Counts)
    → IsDistinct left
    → IsDistinct right
    → ((q : String) → lookup q right ≡ lookup q left)
    → (length left ≡ length right) × (all (agrees right) left ≡ true)
unfolding lookup
agreeing_of_lookup [] [] dl dr h = (refl, refl)
agreeing_of_lookup [] ((k, n) ∷ right) dl dr h = absurd (ground (arith, h k, eq_iff k k))
agreeing_of_lookup ((k, n) ∷ left) right dl dr h =
    let here : lookup k right ≡ some n = ground (arith, h k, eq_iff k k) in
    let (len, agree) =
      agreeing_of_lookup left (erase k right) dl.1 (erase-IsDistinct k right dr)
        (λ q. without k n left right dl.0 q (h q)) in
    (
      omega (arith, len, length-erase k n right dr here),
      ground (arith, agree, all-agrees-erase k left right dl.0),
    )

-- No count is zero.
abbrev IsPositive : Counts → Type 0
IsPositive m = (q : String) → lookup q m ≢ some 0

insert-IsPositive :
    (k : String) (n : ℕ) (m : Counts) → IsPositive m → IsPositive (insert k (n + 1) m)
insert-IsPositive k n m h q e = h q (ground (arith, lookup-insert k q (n + 1) m))

counts_from-IsDistinct :
    (m : Counts) (vs : List String) → IsDistinct m → IsDistinct (counts_from m vs)
unfolding counts_from
counts_from-IsDistinct m [] d = d
counts_from-IsDistinct m (v ∷ vs) d =
    counts_from-IsDistinct (insert v (or_zero (lookup v m) + 1) m) vs
      (insert-IsDistinct v (or_zero (lookup v m) + 1) m d)

counts_from-IsPositive :
    (m : Counts) (vs : List String) → IsPositive m → IsPositive (counts_from m vs)
unfolding counts_from
counts_from-IsPositive m [] h = h
counts_from-IsPositive m (v ∷ vs) h =
    counts_from-IsPositive (insert v (or_zero (lookup v m) + 1) m) vs
      (insert-IsPositive v (or_zero (lookup v m)) m h)

none_counted : IsPositive []
unfolding lookup
none_counted q e = absurd (cc)

occurrences-lookup :
    (q : String) (vs : List String) → or_zero (lookup q (counts vs)) ≡ occurrences q vs
unfolding lookup
occurrences-lookup q vs = omega (arith, lookup-counts_from q [] vs)

lookup_from_occurrences :
    (xs ys : List String) (q : String)
    → occurrences q xs ≡ occurrences q ys
    → lookup q (counts ys) ≡ lookup q (counts xs)
lookup_from_occurrences xs ys q e = ground (
  arith,
  occurrences-lookup q xs,
  occurrences-lookup q ys,
  counts_from-IsPositive [] xs none_counted q,
  counts_from-IsPositive [] ys none_counted q,
)

-- Two lists of names have the same counts exactly where each text occurs as often in the one as in
-- the other.
pub same_counts-counts :
    (xs ys : List String)
    → (same_counts (counts xs) (counts ys) ≡ true)
      ↔ ((q : String) → occurrences q xs ≡ occurrences q ys)
unfolding same_counts
same_counts-counts xs ys =
    let dx = counts_from-IsDistinct [] xs tt in
    let dy = counts_from-IsDistinct [] ys tt in
    (
      λ e q.
          let same =
            lookup_of_agreeing (counts xs) (counts ys) dx dy (ground arith) (ground arith) q in
          sym (occurrences-lookup q xs) ∙ rw same at (occurrences-lookup q ys),
      λ h.
          let (len, agree) =
            agreeing_of_lookup (counts xs) (counts ys) dx dy
              (λ q. lookup_from_occurrences xs ys q (h q)) in
          ground arith,
    )
