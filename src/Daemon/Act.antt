-- ===== src/Daemon/Act.antt =====
-- Asynchronous code, of the daemon in stacks/gpt-webai-pro/src/daemon and of the docker manager, as
-- actions on a state that holds the browser, the clock and whatever else is outside; and what an
-- action ensures.
use home_server_infra.Prelude.{
  Bool, true, false, Option, none, some, ◌≡◌, refl, subst, if◌then◌else◌,
}
use home_server_infra.Shared.Failure.{Failure}
use home_server_infra.Database.Store.{Result, ok, thrown}

abbrev pub Act : Type 0 → Type 0 → Type 0
Act S A = S → Result A × S

module _ {S A : Type 0} where
  abbrev pub returns : A → Act S A
  returns a s = (ok a, s)

  abbrev pub throws : Failure → Act S A
  throws e s = (thrown e, s)

  abbrev pub reads : (S → A) → Act S A
  reads f s = (ok (f s), s)

  abbrev pub caught : (Failure → Act S A) → Result A → Act S A
  caught f (ok a) = returns a
  caught f (thrown e) = f e

  unfoldable pub catch : Act S A → (Failure → Act S A) → Act S A
  catch m f s = let (r, s') = m s in caught f r s'

abbrev pub goes_on : {S A B : Type 0} → Result A → (A → Act S B) → Act S B
goes_on (ok a) f = f a
goes_on (thrown e) f = throws e

infixl 5 ◌>>=◌ ◌>>◌
unfoldable pub ◌>>=◌ : {S A B : Type 0} → Act S A → (A → Act S B) → Act S B
◌>>=◌ m f s = let (r, s') = m s in goes_on r f s'

abbrev pub ◌>>◌ : {S B : Type 0} → Act S (Unit {0}) → Act S B → Act S B
m >> k = m >>= λ _. k

-- `m.catch(() => null)`
abbrev pub attempt : {S A : Type 0} → Act S A → Act S (Option A)
attempt m = catch (m >>= λ a. returns (some a)) (λ _. returns none)

-- Whatever it starts from, a result that is returned meets `P`.
pub record Ensures {S A : Type 0} (P : A → Type 0) (m : Act S A) : Type 0 where
  pub holds : (s : S) (a : A) → (m s).0 ≡ ok a → P a

module _ {S A : Type 0} (P : A → Type 0) where
  pub returns-Ensures : (a : A) → P a → Ensures {S = S} P (returns a)
  returns-Ensures a h = record { holds = λ s b e. subst P (cc) h }

  goes_on-holds :
      {B : Type 0} (r : Result B) (f : B → Act S A) (s : S) (a : A)
      → ((b : B) → r ≡ ok b → Ensures P (f b))
      → (goes_on r f s).0 ≡ ok a
      → P a
  goes_on-holds (ok b) f s a h e = (h b refl).holds s a e
  goes_on-holds (thrown x) f s a h e = absurd (cc)

  pub bind-Ensures :
      {B : Type 0} (Q : B → Type 0) (m : Act S B) (f : B → Act S A)
      → Ensures Q m
      → ((b : B) → Q b → Ensures P (f b))
      → Ensures P (m >>= f)
  unfolding ◌>>=◌
  bind-Ensures Q m f hm hf = record {
    holds = λ s a e. goes_on-holds (m s).0 f (m s).1 a (λ b eb. hf b (hm.holds s b eb)) e;
  }

  -- the same where the first result does not matter
  pub then-Ensures :
      {B : Type 0} (m : Act S B) (f : B → Act S A)
      → ((b : B) → Ensures P (f b))
      → Ensures P (m >>= f)
  then-Ensures m f h =
      bind-Ensures (λ _. Unit {0}) m f (record { holds = λ s b e. tt }) (λ b u. h b)

  pub if-Ensures :
      (b : Bool) (m n : Act S A)
      → (b ≡ true → Ensures P m)
      → (b ≡ false → Ensures P n)
      → Ensures P (if b then m else n)
  if-Ensures true m n hm hn = hm refl
  if-Ensures false m n hm hn = hn refl
