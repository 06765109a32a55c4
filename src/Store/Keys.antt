-- ===== src/Store/Keys.antt =====
-- The module `keys` of tiauth/tiauth-core/src/store.rs: the entries of the table of keys. A closure
-- that creates an entry may change the generator of random bytes.
use mono_old.Common.{ℕ, Option, none, some, List, [], ◌∷◌, ◌++◌}
use mono_old.Decimal.{to_string}
use mono_old.Store.{Redb, keys}
use mono_old.Ops.Answer.{Answer, pure, try, ◌>>=◌}

abbrev pub opaque_setup_name : List ℕ
opaque_setup_name = 111 ∷ 112 ∷ 97 ∷ 113 ∷ 117 ∷ 101 ∷ 95 ∷ 115 ∷ 101 ∷ 116 ∷ 117 ∷ 112 ∷ []

abbrev pub session_key_prefix : List ℕ
session_key_prefix = 115 ∷ 101 ∷ 115 ∷ 115 ∷ 105 ∷ 111 ∷ 110 ∷ 95 ∷ 107 ∷ 101 ∷ 121 ∷ 95 ∷ []

abbrev pub ephemeral_secret_name : List ℕ
ephemeral_secret_name =
    101 ∷ 112 ∷ 104 ∷ 101 ∷ 109 ∷ 101 ∷ 114 ∷ 97 ∷ 108 ∷ 95 ∷ 115 ∷ 101 ∷ 99 ∷ 114 ∷ 101 ∷ 116 ∷ []

abbrev pub ephemeral_time_name : List ℕ
ephemeral_time_name =
    101 ∷ 112 ∷ 104 ∷ 101 ∷ 109 ∷ 101 ∷ 114 ∷ 97 ∷ 108 ∷ 95 ∷ 116 ∷ 105 ∷ 109 ∷ 101 ∷ []

abbrev pub ephemeral_valid_name : List ℕ
ephemeral_valid_name =
    101 ∷ 112 ∷ 104 ∷ 101 ∷ 109 ∷ 101 ∷ 114 ∷ 97 ∷ 108 ∷ 95 ∷ 118 ∷ 97 ∷ 108 ∷ 105 ∷ 100 ∷ []

abbrev pub public_key_name : List ℕ
public_key_name = 112 ∷ 117 ∷ 98 ∷ 108 ∷ 105 ∷ 99 ∷ 95 ∷ 107 ∷ 101 ∷ 121 ∷ []

-- `format!("session_key_{}", i)`
unfoldable pub session_key_name : ℕ → List ℕ
unfolding to_string
session_key_name i = session_key_prefix ++ to_string i

-- Of an entry that is not there, the closure creates the bytes.
abbrev pub got_or_created : {G : Type 0} → Option (List ℕ) → (G → List ℕ × G) → G → List ℕ × G
got_or_created (some bytes) f g = (bytes, g)
got_or_created none f g = f g

module _ {StoreError : Type 0} (redb : Redb StoreError) where
  unfoldable pub get_or_create :
      {G : Type 0} → redb.WriteTx → List ℕ → (G → List ℕ × G) → G → Answer StoreError (List ℕ × G)
  get_or_create tx key f g = do
    found ← try (λ e. e) (redb.get tx keys key)
    pure (got_or_created found f g)

  -- The table after the call, and the value in it.
  unfoldable pub overwrite_or_get :
      redb.WriteTx → List ℕ → Option (List ℕ) → Answer StoreError (redb.WriteTx × Option (List ℕ))
  overwrite_or_get tx key (some value) = do
    tx' ← try (λ e. e) (redb.insert tx keys key value)
    pure (tx', some value)
  overwrite_or_get tx key none = do found ← try (λ e. e) (redb.get tx keys key); pure (tx, found)

  unfoldable pub overwrite_public_key_or_get :
      redb.WriteTx → Option (List ℕ) → Answer StoreError (redb.WriteTx × Option (List ℕ))
  unfolding overwrite_or_get
  overwrite_public_key_or_get tx value = overwrite_or_get tx public_key_name value

  module _ {G : Type 0} (tx : redb.WriteTx) where
    unfoldable pub get_opaque_or_create : (G → List ℕ × G) → G → Answer StoreError (List ℕ × G)
    unfolding get_or_create
    get_opaque_or_create f g = get_or_create tx opaque_setup_name f g

    unfoldable pub get_session_key_or_create :
        ℕ → (G → List ℕ × G) → G → Answer StoreError (List ℕ × G)
    unfolding get_or_create session_key_name
    get_session_key_or_create i f g = get_or_create tx (session_key_name i) f g

    unfoldable pub get_ephemeral_secret_or_create :
        (G → List ℕ × G) → G → Answer StoreError (List ℕ × G)
    unfolding get_or_create
    get_ephemeral_secret_or_create f g = get_or_create tx ephemeral_secret_name f g

    unfoldable pub get_ephemeral_time_or_create :
        (G → List ℕ × G) → G → Answer StoreError (List ℕ × G)
    unfolding get_or_create
    get_ephemeral_time_or_create f g = get_or_create tx ephemeral_time_name f g

    unfoldable pub get_ephemeral_valid_or_create :
        (G → List ℕ × G) → G → Answer StoreError (List ℕ × G)
    unfolding get_or_create
    get_ephemeral_valid_or_create f g = get_or_create tx ephemeral_valid_name f g
