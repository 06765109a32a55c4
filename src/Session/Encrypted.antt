-- ===== src/Session/Encrypted.antt =====
-- `Session::create`, `decrypt` and `DecryptedSession::read` of tiauth/tiauth-core/src/proof.rs. The
-- cipher and the random nonce are parameters.
use mono_old.Common.{ℕ, ◌+◌, ◌%◌, ◌^◌, List, Outcome, Result, ok, err}
use mono_old.Rmp.{Rmp}
use mono_old.Crypto.{Cipher, symmetric_encrypt, symmetric_decrypt}
use mono_old.Session.Content.{SessionContent, InvalidSession, invalid_session}
use mono_old.Session.Status.{SessionStatus, valid}
use mono_old.Session.Bytes.{RmpSerde, to_bytes}

abbrev pub new : List ℕ → ℕ → ℕ → List ℕ → List ℕ → SessionContent
new user_id issued expires pw_file_hash session_claims = record {
  user_id = user_id;
  issued = issued;
  expires = expires;
  pw_file_hash = pw_file_hash;
  session_claims = session_claims;
}

-- What `create` encrypts.
abbrev pub created : List ℕ → ℕ → List ℕ → List ℕ → ℕ → SessionContent
created user_id expires_in pw_file_hash session_claims time =
    new user_id time ((expires_in + time) % 2 ^ 64) pw_file_hash session_claims

module _ (rmp : Rmp) (serde : RmpSerde) (c : Cipher) where
  open c use {SymmetricKey}

  unfoldable pub create :
      List ℕ → ℕ → List ℕ → List ℕ → SymmetricKey → ℕ → List ℕ → Outcome (List ℕ)
  create user_id expires_in pw_file_hash session_claims key time iv =
      symmetric_encrypt c
        (to_bytes rmp serde (created user_id expires_in pw_file_hash session_claims time)) key iv

module _ (c : Cipher) where
  open c use {SymmetricKey}

  -- A session as the bytes that it holds, whose status is asked for first.
  unfoldable pub decrypt :
      {E : Type 0}
      → List ℕ
      → ℕ
      → List SymmetricKey
      → (List ℕ → Result SessionStatus E)
      → (InvalidSession → E)
      → Result (List ℕ) E
  decrypt encrypted time keys status convert = elim (status encrypted) [
    | err e ↦ err e
    | ok s ↦ elim (valid s time) [
      | err e ↦ err (convert e)
      | ok _ ↦ elim (symmetric_decrypt c encrypted keys) [
        | err e ↦ err (convert invalid_session)
        | ok decrypted ↦ ok decrypted
      ]
    ]
  ]
