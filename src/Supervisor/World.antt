-- ===== src/Supervisor/World.antt =====
-- What a supervisor process of stacks/gpt-webai-pro/src/supervisor/run.ts works on: the shared
-- database, and everything outside it, as the daemon, the files, the locks, the clock and the other
-- processes. An asynchronous method is an action of `Io`.
use home_server_infra.Shared.Failure.{Failure}
use home_server_infra.Database.Store.{Database, Tx, Result, ok, thrown}

pub record World (S : Type 0) : Type 0 where
  pub db : Database
  pub outside : S

abbrev pub Io : Type 0 → Type 0 → Type 0
Io S A = World S → Result A × World S

module _ {S A : Type 0} where
  abbrev pub done : A → Io S A
  done a w = (ok a, w)

  abbrev pub fail : Failure → Io S A
  fail e w = (thrown e, w)

  -- a database method, which no other process interrupts
  abbrev pub atomically : Tx A → Io S A
  atomically m w = let (r, d) = m w.db in (r, record w { db = d })

  -- a read of the database
  abbrev pub reads : (Database → A) → Io S A
  reads f w = (ok (f w.db), w)

  abbrev handle : (Failure → Io S A) → Result A → Io S A
  handle f (ok a) = done a
  handle f (thrown e) = f e

  -- try { m } catch (e) { f e }
  unfoldable pub catch : Io S A → (Failure → Io S A) → Io S A
  catch m f w = let (r, w') = m w in handle f r w'

abbrev and_then : {S A B : Type 0} → Result A → (A → Io S B) → Io S B
and_then (ok a) f = f a
and_then (thrown e) f = fail e

infixl 5 ◌>>=◌ ◌>>◌
unfoldable pub ◌>>=◌ : {S A B : Type 0} → Io S A → (A → Io S B) → Io S B
◌>>=◌ m f w = let (r, w') = m w in and_then r f w'

abbrev pub ◌>>◌ : {S B : Type 0} → Io S (Unit {0}) → Io S B → Io S B
m >> k = m >>= λ _. k

abbrev after : {S A : Type 0} → Result A → Io S (Unit {0}) → Io S A
after r last = last >>= λ _ w. (r, w)

-- try { m } finally { last }: an error of `last` takes the place of the result
unfoldable pub finally : {S A : Type 0} → Io S A → Io S (Unit {0}) → Io S A
unfolding ◌>>=◌
finally m last w = let (r, w') = m w in after r last w'

-- `.catch(() => undefined)`
abbrev pub best_effort : {S : Type 0} → Io S (Unit {0}) → Io S (Unit {0})
best_effort m = catch m (λ _. done tt)
