-- ===== src/Database/Relates.antt =====
-- Actions whose every run, returning or throwing, relates the database before to the one after.
use home_server_infra.Prelude.{Bool, true, false, if◌then◌else◌}
use home_server_infra.Database.Store.{
  Database, Tx, Result, ok, thrown, immediate, commit_or_rollback, ◌>>=◌,
}

abbrev pub Relates : (Database → Database → Type 0) → {A : Type 0} → Tx A → Type 0
Relates R m = (d : Database) → R d (m d).1

-- A relation that holds across a sequence of actions.
pub record IsPreorder (R : Database → Database → Type 0) : Type 0 where
  pub refl : (d : Database) → R d d
  pub trans : (c d e : Database) → R c d → R d e → R c e

module _ (R : Database → Database → Type 0) (o : IsPreorder R) {A : Type 0} where
  continue-Relates :
      {B : Type 0} (f : A → Tx B) (c : Database) (r : Result A) (d : Database)
      → ((a : A) → Relates R (f a))
      → R c d
      → R c (((λ (_ : Database). (r, d)) >>= f) c).1
  continue-Relates f c (ok a) d h s = o.trans c d (f a d).1 s (h a d)
  continue-Relates f c (thrown e) d h s = s

  pub bind-Relates :
      {B : Type 0} (m : Tx A) (f : A → Tx B)
      → Relates R m
      → ((a : A) → Relates R (f a))
      → Relates R (m >>= f)
  bind-Relates m f hm hf d = continue-Relates f d (m d).0 (m d).1 hf (hm d)

  pub if-Relates :
      (b : Bool) (m n : Tx A) → Relates R m → Relates R n → Relates R (if b then m else n)
  if-Relates true m n hm hn = hm
  if-Relates false m n hm hn = hn

  rollback-Relates :
      (d : Database) (r : Result A) (e : Database) → R d e → R d (commit_or_rollback d (r, e)).1
  rollback-Relates d (ok a) e h = h
  rollback-Relates d (thrown f) e h = o.refl d

  pub immediate-Relates : (m : Tx A) → Relates R m → Relates R (immediate m)
  immediate-Relates m h d = rollback-Relates d (m d).0 (m d).1 (h d)
