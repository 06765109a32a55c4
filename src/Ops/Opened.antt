-- ===== src/Ops/Opened.antt =====
-- An ephemeral of the server opens with the keys of the server while its key is valid.
use mono_old.Common.{ℕ, ◌-◌, ◌/◌, ◌+◌, ◌^◌, ◌≤◌, ◌<◌, ◌≡◌, Bool, List, returns, ok, length}
use mono_old.Rmp.{Rmp}
use mono_old.Crypto.{Cipher, OnlyOpensTo}
use mono_old.Ephemeral.{EphemeralType}
use mono_old.Ephemeral.Keys.{interval, issued-among_last}
use mono_old.Ephemeral.Content.{EphemeralContent}
use mono_old.Ephemeral.Bytes.{serialize}
use mono_old.Ephemeral.Encrypted.{create_expires, decrypt_bytes}
use mono_old.Ephemeral.Encrypted.Opened.{decrypt_bytes-created}
use mono_old.Ops.ProofToken.{AppState, ephemeral_key, eph_veri_keys}

-- The key of a time is among the keys that are valid later: fewer intervals began since than keys
-- are valid.
pub record IsValidKey {PublicKey : Type 0} (s : AppState PublicKey) (time later : ℕ) : Type 0 where
  pub low : s.ephemeral_time ≤ time
  pub order : time ≤ later
  pub fits : later < 2 ^ 64
  pub near :
      (later - s.ephemeral_time) / interval
      < (time - s.ephemeral_time) / interval + s.ephemeral_valid

module _ (rmp : Rmp) (c : Cipher) (derive_key : List ℕ → ℕ → c.SymmetricKey)
    {PublicKey : Type 0} where
  pub opens-later :
      (s : AppState PublicKey) (time later : ℕ) (is_valid_type : EphemeralType → Bool)
      (e : EphemeralContent) (iv bytes : List ℕ)
      → IsValidKey s time later
      → length iv ≡ 12
      → OnlyOpensTo c
          (eph_veri_keys c derive_key s later)
          (ephemeral_key c derive_key s time)
          iv
          (serialize rmp e)
      → create_expires rmp c
          (ephemeral_key c derive_key s time)
          e.user_id
          is_valid_type
          e.state
          e.eph_type
          e.expires
          e.data_bytes
          iv
        ≡ returns bytes
      → decrypt_bytes rmp c bytes (eph_veri_keys c derive_key s later) ≡ ok (serialize rmp e)
  unfolding ephemeral_key eph_veri_keys
  opens-later s time later is_valid_type e iv bytes valid size only made =
      let (pre, post, keys) =
        issued-among_last (derive_key s.ephemeral_secret) time later s.ephemeral_time
          s.ephemeral_valid valid.low valid.order valid.fits valid.near in
      decrypt_bytes-created rmp c pre _ post (eph_veri_keys c derive_key s later) is_valid_type e iv
        bytes keys size only made
