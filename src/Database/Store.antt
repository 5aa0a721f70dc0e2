-- ===== src/Database/Store.antt =====
-- The tables of the DDL in db.ts, and methods as actions that may throw. A row table is the list of
-- its rows, oldest first. What an action wrote before it threw stays written, unless `immediate`
-- rolls it back.
use home_server_infra.Prelude.{
  ℕ, String, Bool, true, false, Option, none, some, List, [], ◌≡◌, arith,
}
use home_server_infra.Shared.Types.{
  RequestRow, SendAttemptRow, ArtifactRow, SlotRow, UsageEventRow, ImageChunkRow,
}
use home_server_infra.Shared.Failure.{Failure}

-- a row of `image_batches`, which has no type of its own in types.ts
pub record ImageBatchRow : Type 0 where
  pub id : String
  pub created_at : ℕ

pub record Database : Type 0 where
  pub requests : List RequestRow
  pub send_attempts : List SendAttemptRow
  pub artifacts : List ArtifactRow
  pub slots : List SlotRow
  pub usage_events : List UsageEventRow
  pub image_batches : List ImageBatchRow
  pub image_chunks : List ImageChunkRow

-- the tables after `connection.exec(DDL)`
abbrev pub fresh_database : Database
fresh_database = record {
  requests = [];
  send_attempts = [];
  artifacts = [];
  slots = [];
  usage_events = [];
  image_batches = [];
  image_chunks = [];
}

pub data Result (A : Type 0) : Type 0 where
  ok : A → Result A
  thrown : Failure → Result A

abbrev pub Tx : Type 0 → Type 0
Tx A = Database → Result A × Database

module _ {A : Type 0} where
  abbrev pub pure : A → Tx A
  pure a d = (ok a, d)

  abbrev pub throw : Failure → Tx A
  throw e d = (thrown e, d)

  -- a read of the tables
  abbrev pub query : (Database → A) → Tx A
  query f d = (ok (f d), d)

  abbrev pub commit_or_rollback : Database → Result A × Database → Result A × Database
  commit_or_rollback d (ok a, d') = (ok a, d')
  commit_or_rollback d (thrown e, d') = (thrown e, d)

  -- BEGIN IMMEDIATE; operation; COMMIT, or ROLLBACK and the error again
  abbrev pub immediate : Tx A → Tx A
  immediate operation d = commit_or_rollback d (operation d)

-- a write of the tables
abbrev pub execute : (Database → Database) → Tx (Unit {0})
execute f d = (ok tt, f d)

infixl 5 ◌>>=◌ ◌>>◌
abbrev pub ◌>>=◌ : {A B : Type 0} → Tx A → (A → Tx B) → Tx B
◌>>=◌ m f d = let (r, d') = m d in elim r [ ok a ↦ f a d' | thrown e ↦ (thrown e, d') ]

abbrev pub ◌>>◌ : {B : Type 0} → Tx (Unit {0}) → Tx B → Tx B
m >> k = m >>= λ _. k

-- `if (!row) throw e`
abbrev pub require_some : {A : Type 0} → Option A → Failure → Tx A
require_some none e = throw e
require_some (some a) e = pure a

abbrev pub check : Bool → Failure → Tx (Unit {0})
check true e = pure tt
check false e = throw e

-- A transaction that throws leaves no trace.
pub immediate-thrown :
    {A : Type 0} (m : Tx A) (d : Database) (e : Failure)
    → (immediate m d).0 ≡ thrown e
    → (immediate m d).1 ≡ d
immediate-thrown m d e h = ground arith
