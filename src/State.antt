-- ===== src/State.antt =====
-- The start of an application in tiauth/tiauth-core/src/state.rs: `init_app_state`, which reads its
-- keys from the store, and `load_app_state`. The generator of random bytes, the setup of OPAQUE, the
-- text encoding and the form of public keys are parameters.
pub mod Entries
pub mod Restart
pub mod Stored
use mono_old.Common.{
  ℕ, zero, suc, ◌+◌, ◌^◌, Bool, true, false, Option, none, some, List, [], ◌∷◌, Outcome, returns,
  panics, Result, ok, err, if◌then◌else◌, length, ◌==◌,
}
use mono_old.Decimal.{to_string, parse}
use mono_old.RangeSet
use mono_old.Counter
use mono_old.Store.{Redb}
use mono_old.Store.Keys.{
  get_opaque_or_create, get_session_key_or_create, get_ephemeral_secret_or_create,
  get_ephemeral_time_or_create, get_ephemeral_valid_or_create, overwrite_public_key_or_get,
}
use mono_old.Ops.Answer.{Answer, pure, fail, try, broaden, ◌>>=◌}
use mono_old.Ops.ProofToken.{AppState}

-- `StoreError` with the errors of the bytes that were read: `DataDeserializationErrorSource`.
pub data LoadError (StoreError : Type 0) : Type 0 where
  database : StoreError → LoadError StoreError
  invalid_utf8 : LoadError StoreError
  invalid_key : LoadError StoreError
  invalid_length : LoadError StoreError
  parse_error : LoadError StoreError
  no_public_key : LoadError StoreError

-- What the code calls that is not in the repository.
pub record Material (G PublicKey : Type 0) : Type 0 where
  pub fill_bytes : ℕ → G → List ℕ × G
  pub is_utf8 : List ℕ → Bool
  pub load_public_key : List ℕ → Option PublicKey
  pub save_public_key : PublicKey → List ℕ

-- A session key is its 32 bytes.
pub record AppInitState (PublicKey : Type 0) : Type 0 where
  pub opaque : List ℕ
  pub ephemeral_secret : List ℕ
  pub public_key : PublicKey
  pub session_keys : List (List ℕ)
  pub ephemeral_valid : ℕ
  pub ephemeral_time : ℕ

module _ {StoreError : Type 0} where
  -- `String::from_utf8(..).to_deser_err(..)?`
  abbrev pub from_utf8 : (List ℕ → Bool) → List ℕ → Answer (LoadError StoreError) (List ℕ)
  from_utf8 is_utf8 bytes = if is_utf8 bytes then pure bytes else fail invalid_utf8

  -- `SessionKey::from_saved_bytes`
  abbrev pub from_saved_bytes : List ℕ → Answer (LoadError StoreError) (List ℕ)
  from_saved_bytes bytes = if length bytes == 32 then pure bytes else fail invalid_key

  -- `TryInto::<[u8; 32]>`
  abbrev pub to_array : List ℕ → Answer (LoadError StoreError) (List ℕ)
  to_array bytes = if length bytes == 32 then pure bytes else fail invalid_length

  abbrev pub or_fail :
      {A : Type 0} → LoadError StoreError → Option A → Answer (LoadError StoreError) A
  or_fail e (some a) = pure a
  or_fail e none = fail e

module _ {StoreError G PublicKey : Type 0} (redb : Redb StoreError)
    (material : Material G PublicKey) where
  -- `SessionKey::create`, in its saved bytes.
  abbrev pub create_session_key : G → List ℕ × G
  create_session_key g = material.fill_bytes 32 g

  -- The keys from a number on, of which there are so many, in order.
  unfoldable pub load_session_keys :
      redb.WriteTx → ℕ → ℕ → G → Answer (LoadError StoreError) (List (List ℕ) × G)
  unfolding get_session_key_or_create
  load_session_keys tx zero i g = pure ([], g)
  load_session_keys tx (suc count) i g = do
    (bytes, g') ← broaden database (get_session_key_or_create redb tx i create_session_key g)
    key ← from_saved_bytes bytes
    (keys, g'') ← load_session_keys tx count (suc i) g'
    pure (key ∷ keys, g'')

  unfoldable pub load_number : ℕ → List ℕ → Answer (LoadError StoreError) ℕ
  unfolding parse
  load_number bound bytes = do
    text ← from_utf8 material.is_utf8 bytes
    or_fail parse_error (parse bound text)

  unfoldable pub load_public :
      redb.WriteTx → Option PublicKey → Answer (LoadError StoreError) (redb.WriteTx × PublicKey)
  unfolding overwrite_public_key_or_get
  load_public tx public_key = do
    (tx', stored) ← broaden database (
        overwrite_public_key_or_get redb tx
          (elim public_key [ none ↦ none | some k ↦ some (material.save_public_key k) ]))
    bytes ← or_fail no_public_key stored
    pem ← from_utf8 material.is_utf8 bytes
    key ← or_fail invalid_key (material.load_public_key pem)
    pure (tx', key)

  -- The setup of OPAQUE, the session keys, and the secret of the ephemeral keys.
  abbrev pub Secrets : Type 0
  Secrets = List ℕ × List (List ℕ) × List ℕ × G

  unfoldable pub read_secrets :
      redb.WriteTx → ℕ → List ℕ → G → Answer (LoadError StoreError) Secrets
  unfolding get_opaque_or_create load_session_keys get_ephemeral_secret_or_create
  read_secrets tx count create_setup g = do
    (setup, g1) ← broaden database (get_opaque_or_create redb tx (λ r. (create_setup, r)) g)
    opaque ← from_utf8 material.is_utf8 setup
    (session_keys, g2) ← load_session_keys tx count 0 g1
    (secret, g3) ←
        broaden database (get_ephemeral_secret_or_create redb tx (material.fill_bytes 32) g2)
    ephemeral_secret ← to_array secret
    pure (opaque, session_keys, ephemeral_secret, g3)

  -- The reference time of the ephemeral keys, and how many of them are valid.
  unfoldable pub read_numbers : redb.WriteTx → ℕ → G → Answer (LoadError StoreError) (ℕ × ℕ × G)
  unfolding get_ephemeral_time_or_create get_ephemeral_valid_or_create load_number to_string
  read_numbers tx now g = do
    (time, g1) ← broaden database (get_ephemeral_time_or_create redb tx (λ r. (to_string now, r)) g)
    ephemeral_time ← load_number (2 ^ 64) time
    (amount, g2) ←
        broaden database (get_ephemeral_valid_or_create redb tx (λ r. (to_string 2, r)) g1)
    ephemeral_valid ← load_number (2 ^ 32) amount
    pure (ephemeral_time, ephemeral_valid, g2)

  -- What the block of `init_app_state` reads: the table after it, and the generator.
  unfoldable pub read_app_state :
      redb.WriteTx
      → ℕ
      → List ℕ
      → Option PublicKey
      → G
      → ℕ
      → Answer (LoadError StoreError) (redb.WriteTx × AppInitState PublicKey × G)
  unfolding read_secrets read_numbers load_public
  read_app_state tx count create_setup public_key g now = do
    (opaque, session_keys, ephemeral_secret, g3) ← read_secrets tx count create_setup g
    (ephemeral_time, ephemeral_valid, g') ← read_numbers tx now g3
    (tx', key) ← load_public tx public_key
    pure (
      tx',
      record {
        opaque = opaque;
        ephemeral_secret = ephemeral_secret;
        public_key = key;
        session_keys = session_keys;
        ephemeral_valid = ephemeral_valid;
        ephemeral_time = ephemeral_time;
      },
      g',
    )

  unfoldable pub init_app_state :
      redb.Database
      → ℕ
      → List ℕ
      → Option PublicKey
      → G
      → ℕ
      → Answer (LoadError StoreError) (redb.Database × AppInitState PublicKey × G)
  unfolding read_app_state
  init_app_state db count create_setup public_key g now = do
    tx ← try database (redb.open_write db)
    (tx', state, g') ← read_app_state tx count create_setup public_key g now
    db' ← try database (redb.commit tx')
    pure (db', state, g')

  -- The state of an application that starts: its counter and its range set are new.
  unfoldable pub load_app_state :
      redb.Database
      → List ℕ
      → Option PublicKey
      → G
      → ℕ
      → Answer (LoadError StoreError) (redb.Database × AppState PublicKey)
  unfolding init_app_state
  load_app_state db create_setup public_key g now = do
    (db', state, g') ← init_app_state db 2 create_setup public_key g now
    pure (
      db',
      record {
        public_key = state.public_key;
        counter = Counter.new;
        compact_set = RangeSet.new 64;
        ephemeral_time = state.ephemeral_time;
        ephemeral_secret = state.ephemeral_secret;
        ephemeral_valid = state.ephemeral_valid;
      },
    )
