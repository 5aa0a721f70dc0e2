-- ===== src/Daemon/Stays.antt =====
-- Actions of the daemon that keep a fact about the state, whether they return or throw.
use home_server_infra.Prelude.{Bool, true, false, Option, none, some, if◌then◌else◌}
use home_server_infra.Shared.Failure.{Failure}
use home_server_infra.Database.Store.{Result, ok, thrown}
use home_server_infra.Daemon.Act.{
  Act, returns, throws, reads, catch, attempt, ◌>>=◌, goes_on, caught,
}

pub record Stays {S A : Type 0} (I : S → Type 0) (m : Act S A) : Type 0 where
  pub holds : (s : S) → I s → I (m s).1

module _ {S : Type 0} (I : S → Type 0) where
  pub returns-Stays : {A : Type 0} (a : A) → Stays I (returns {S = S} a)
  returns-Stays a = record { holds = λ s h. h }

  pub throws-Stays : (A : Type 0) (e : Failure) → Stays I (throws {S = S} {A = A} e)
  throws-Stays A e = record { holds = λ s h. h }

  pub reads-Stays : {A : Type 0} (f : S → A) → Stays I (reads f)
  reads-Stays f = record { holds = λ s h. h }

  goes_on-holds :
      {A B : Type 0} (r : Result A) (f : A → Act S B) (s : S)
      → ((a : A) → Stays I (f a))
      → I s
      → I (goes_on r f s).1
  goes_on-holds (ok a) f s k h = (k a).holds s h
  goes_on-holds (thrown e) f s k h = h

  pub bind-Stays :
      {A B : Type 0} (m : Act S A) (f : A → Act S B)
      → Stays I m
      → ((a : A) → Stays I (f a))
      → Stays I (m >>= f)
  unfolding ◌>>=◌
  bind-Stays m f hm hf = record { holds = λ s h. goes_on-holds (m s).0 f (m s).1 hf (hm.holds s h) }

  caught-holds :
      {A : Type 0} (f : Failure → Act S A) (r : Result A) (s : S)
      → ((e : Failure) → Stays I (f e))
      → I s
      → I (caught f r s).1
  caught-holds f (ok a) s k h = h
  caught-holds f (thrown e) s k h = (k e).holds s h

  pub catch-Stays :
      {A : Type 0} (m : Act S A) (f : Failure → Act S A)
      → Stays I m
      → ((e : Failure) → Stays I (f e))
      → Stays I (catch m f)
  unfolding catch
  catch-Stays m f hm hf = record { holds = λ s h. caught-holds f (m s).0 (m s).1 hf (hm.holds s h) }

  pub attempt-Stays : {A : Type 0} (m : Act S A) → Stays I m → Stays I (attempt m)
  attempt-Stays m h =
      catch-Stays _ _ (bind-Stays m _ h (λ a. returns-Stays _)) (λ e. returns-Stays _)

  pub if-Stays :
      {A : Type 0} (b : Bool) (m n : Act S A) → Stays I m → Stays I n → Stays I (if b then m else n)
  if-Stays true m n hm hn = hm
  if-Stays false m n hm hn = hn

  pub option-Stays :
      {A B : Type 0} (o : Option A) (m : Act S B) (f : A → Act S B)
      → Stays I m
      → ((a : A) → Stays I (f a))
      → Stays I (elim o [ none ↦ m | some a ↦ f a ])
  option-Stays none m f hm hf = hm
  option-Stays (some a) m f hm hf = hf a
