-- ===== src/Store.antt =====
-- The database of tiauth: `Store`, its transactions and its tables in
-- tiauth/tiauth-core/src/store.rs, over the crate redb as a parameter.
pub mod Keys
use mono_old.Common.{ℕ, ◌≡◌, Bool, true, false, ◌&&◌, Option, some, List, Result, ok, if◌then◌else◌}
use mono_old.Proof.Names.{same}
use mono_old.Users.{Tables}

pub data TableName : Type 0 where
  users : TableName
  claims : TableName
  keys : TableName

abbrev pub eq_table : TableName → TableName → Bool
eq_table users users = true
eq_table claims claims = true
eq_table keys keys = true
eq_table t u = false

-- What the code relies on: reads see what is stored, a transaction starts from what is stored and
-- sees its own writes, and only a commit that succeeds stores them. A transaction that is dropped
-- is aborted. `read` opens a transaction and a table of its own, `get` a table of its own.
pub record Redb (StoreError : Type 0) : Type 1 where
  pub Database : Type 0
  pub WriteTx : Type 0
  pub stored : Database → TableName → List ℕ → Option (List ℕ)
  pub pending : WriteTx → TableName → List ℕ → Option (List ℕ)
  pub read : Database → TableName → List ℕ → Result (Option (List ℕ)) StoreError
  pub read_session : Database → List ℕ → Result (Option (ℕ × ℕ)) StoreError
  pub open_write : Database → Result WriteTx StoreError
  pub get : WriteTx → TableName → List ℕ → Result (Option (List ℕ)) StoreError
  pub insert : WriteTx → TableName → List ℕ → List ℕ → Result WriteTx StoreError
  pub commit : WriteTx → Result Database StoreError
  pub read-stored :
      (db : Database) (t : TableName) (k : List ℕ) (v : Option (List ℕ))
      → read db t k ≡ ok v
      → v ≡ stored db t k
  pub open_write-pending :
      (db : Database) (tx : WriteTx) (t : TableName) (k : List ℕ)
      → open_write db ≡ ok tx
      → pending tx t k ≡ stored db t k
  pub get-pending :
      (tx : WriteTx) (t : TableName) (k : List ℕ) (v : Option (List ℕ))
      → get tx t k ≡ ok v
      → v ≡ pending tx t k
  pub insert-pending :
      (tx tx' : WriteTx) (t u : TableName) (k j v : List ℕ)
      → insert tx t k v ≡ ok tx'
      → pending tx' u j ≡ (if eq_table t u && same k j then some v else pending tx u j)
  pub commit-stored :
      (tx : WriteTx) (db : Database) (t : TableName) (k : List ℕ)
      → commit tx ≡ ok db
      → stored db t k ≡ pending tx t k

module _ {StoreError : Type 0} (redb : Redb StoreError) (sha512 : List ℕ → List ℕ) where
  -- The reads of the table of users and of the one of sessions.
  abbrev pub tables_of : redb.Database → Tables StoreError
  tables_of db = record {
    get_user = redb.read db users;
    get_session = redb.read_session db;
    sha512 = sha512;
  }
