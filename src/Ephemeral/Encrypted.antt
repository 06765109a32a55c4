-- ===== src/Ephemeral/Encrypted.antt =====
-- `Ephemeral::create_expires`, `create` and `decrypt_bytes` of tiauth/tiauth-core/src/proof.rs. The
-- cipher and the random nonce are parameters.
pub mod Opened
use mono_old.Common.{
  ℕ, ◌+◌, ◌*◌, ◌%◌, ◌^◌, Bool, List, Outcome, panics, Result, ok, err, if◌then◌else◌,
}
use mono_old.Rmp.{Rmp}
use mono_old.Crypto.{Cipher, symmetric_encrypt, symmetric_decrypt}
use mono_old.Ephemeral.{EphemeralType, InvalidEphemeral, invalid_ephemeral}
use mono_old.Ephemeral.Keys.{interval}
use mono_old.Ephemeral.Bytes.{serialize}

module _ (rmp : Rmp) (c : Cipher) where
  open c use {SymmetricKey}

  -- The type is asserted to be one that the state is for.
  unfoldable pub create_expires :
      SymmetricKey
      → List ℕ
      → (EphemeralType → Bool)
      → List ℕ
      → EphemeralType
      → ℕ
      → List ℕ
      → List ℕ
      → Outcome (List ℕ)
  create_expires key user_id is_valid_type state eph_type expires data_bytes iv =
      if is_valid_type eph_type
      then symmetric_encrypt c
          (serialize rmp (record {
            user_id = user_id;
            expires = expires;
            state = state;
            eph_type = eph_type;
            data_bytes = data_bytes;
          }))
          key iv
      else panics

  unfoldable pub create :
      SymmetricKey
      → List ℕ
      → (EphemeralType → Bool)
      → List ℕ
      → EphemeralType
      → ℕ
      → List ℕ
      → List ℕ
      → Outcome (List ℕ)
  unfolding create_expires
  create key user_id is_valid_type state eph_type time data_bytes iv =
      create_expires key user_id is_valid_type state eph_type ((time + interval * 2) % 2 ^ 64)
        data_bytes iv

  unfoldable pub decrypt_bytes : List ℕ → List SymmetricKey → Result (List ℕ) InvalidEphemeral
  decrypt_bytes bytes keys = elim (symmetric_decrypt c bytes keys) [
    | err e ↦ err invalid_ephemeral
    | ok decrypted ↦ ok decrypted
  ]
