-- ===== src/Daemon/Returns.antt =====
-- What an action that returned did before: the parts of a run, from the state it started from to the
-- one it ended in.
use home_server_infra.Prelude.{
  Bool, true, false, none, some, if◌then◌else◌, ◌≡◌, refl, ap, ◌∙◌, ◌⊎◌, inl, inr,
}
use home_server_infra.Shared.Failure.{Failure}
use home_server_infra.Database.Store.{Result, ok, thrown}
use home_server_infra.Daemon.Act.{
  Act, returns, throws, reads, catch, attempt, ◌>>=◌, goes_on, caught,
}

-- From `s` the action returns `a`, and ends in `t`.
abbrev pub Returns : {S A : Type 0} → Act S A → S → A → S → Type 0
Returns m s a t = m s ≡ (ok a, t)

pub of_result :
    {S A : Type 0} (m : Act S A) (s : S) (a : A) → (m s).0 ≡ ok a → Returns m s a (m s).1
of_result m s a e = ap (λ r. (r, (m s).1)) e

module _ {S A : Type 0} where
  pub returns-Returns : (a b : A) (s t : S) → Returns (returns a) s b t → (a ≡ b) × (s ≡ t)
  returns-Returns a b s t e = (cc, cc)

  pub reads-Returns : (f : S → A) (b : A) (s t : S) → Returns (reads f) s b t → (f s ≡ b) × (s ≡ t)
  reads-Returns f b s t e = (cc, cc)

  pub throws-Returns {ℓ} :
      {B : Type ℓ} (x : Failure) (a : A) (s t : S) → Returns (throws x) s a t → B
  throws-Returns x a s t e = absurd (cc)

  goes_on-Returns :
      {B : Type 0} (r : Result B) (f : B → Act S A) (s t : S) (a : A)
      → goes_on r f s ≡ (ok a, t)
      → (b : B) × (r ≡ ok b) × Returns (f b) s a t
  goes_on-Returns (ok b) f s t a e = (b, refl, e)
  goes_on-Returns (thrown x) f s t a e = absurd (cc)

  pub bind-Returns :
      {B : Type 0} (m : Act S B) (f : B → Act S A) (s t : S) (a : A)
      → Returns (m >>= f) s a t
      → (b : B) × (u : S) × Returns m s b u × Returns (f b) u a t
  unfolding ◌>>=◌
  bind-Returns m f s t a e =
      let (b, r, next) = goes_on-Returns (m s).0 f (m s).1 t a e in
      (b, (m s).1, of_result m s b r, next)

  pub if-Returns :
      (c : Bool) (m n : Act S A) (s t : S) (a : A)
      → Returns (if c then m else n) s a t
      → ((c ≡ true) × Returns m s a t) ⊎ ((c ≡ false) × Returns n s a t)
  if-Returns true m n s t a e = inl (refl, e)
  if-Returns false m n s t a e = inr (refl, e)

  caught-Returns :
      (f : Failure → Act S A) (r : Result A) (s t : S) (a : A)
      → caught f r s ≡ (ok a, t)
      → ((r ≡ ok a) × (s ≡ t)) ⊎ ((x : Failure) × Returns (f x) s a t)
  caught-Returns f (ok b) s t a e = inl (cc, cc)
  caught-Returns f (thrown x) s t a e = inr (x, e)

  pub catch-Returns :
      (m : Act S A) (f : Failure → Act S A) (s t : S) (a : A)
      → Returns (catch m f) s a t
      → Returns m s a t ⊎ ((x : Failure) × (u : S) × Returns (f x) u a t)
  unfolding catch
  catch-Returns m f s t a e = elim (caught-Returns f (m s).0 (m s).1 t a e) [
    | inl (r, same) ↦ inl (of_result m s a r ∙ ap (λ u. (ok a, u)) same)
    | inr (x, next) ↦ inr (x, (m s).1, next)
  ]

-- What an attempt that gives a result did.
pub attempt-Returns :
    {S A : Type 0} (m : Act S A) (s t : S) (a : A)
    → Returns (attempt m) s (some a) t
    → Returns m s a t
attempt-Returns {S} {A} m s t a e =
    elim (catch-Returns (m >>= λ b. returns (some b)) (λ _. returns none) s t (some a) e) [
      | inl done ↦
          let (b, u, r, last) = bind-Returns m (λ b. returns (some b)) s t (some a) done in
          let (same, end) = returns-Returns (some b) (some a) u t last in cc
      | inr (x, u, last) ↦ absurd (cc)
    ]
