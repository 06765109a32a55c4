-- ===== src/Ops/Register.antt =====
-- `start_register`, `user_change_ephemeral` and `register_finish` of
-- tiauth/tiauth-core/src/ops/register.rs. The OPAQUE protocol, the database, the cipher and the hash
-- of a password file are parameters.
pub mod Records
pub mod Once
pub mod Completed
use mono_old.Common.{
  ℕ, Bool, true, false, Option, none, some, List, [], Outcome, returns, panics, Result, ok, err,
  if◌then◌else◌,
}
use mono_old.Rmp.{Rmp}
use mono_old.Crypto.{Cipher}
use mono_old.Users.{UserPassword, serialize, deserialize}
use mono_old.Store.{Redb, users}
use mono_old.Proof.Names.{same}
use mono_old.Ephemeral.{
  EphemeralType, new_user, change_password, set_password, login, proof_token, InvalidEphemeral,
}
use mono_old.Ephemeral.State.{is_new_user, is_change_password}
use mono_old.Ephemeral.Content.{EphemeralContent, verify_state_equal}
use mono_old.Ephemeral.Bytes.{read}
use mono_old.Ephemeral.Encrypted.{create, decrypt_bytes}
use mono_old.Ops.Answer.{
  ServerError, ChangeError, store_error, opaque_error, change_error, ephemeral_refused,
  state_mismatch, not_found, Answer, pure, fail, try, broaden, run, ◌>>=◌,
}
use mono_old.Ops.ProofToken.{AppState, ephemeral_key, eph_veri_keys, deserialize_unit}

-- The crate opaque_borink, with the setup of the server.
pub record Opaque (OpaqueError : Type 0) : Type 0 where
  pub register_server : List ℕ → List ℕ → Result (List ℕ) OpaqueError
  pub register_server_finish : List ℕ → Result (List ℕ) OpaqueError
  pub login_server : List ℕ → List ℕ → List ℕ → Result (List ℕ × List ℕ) OpaqueError
  pub login_server_finish : List ℕ → List ℕ → Result (List ℕ) OpaqueError

module _ (rmp : Rmp) (c : Cipher) (derive_key : List ℕ → ℕ → c.SymmetricKey)
    {PublicKey OpaqueError : Type 0} (opaque : Opaque OpaqueError) where
  unfoldable pub start_register :
      AppState PublicKey → List ℕ → List ℕ → ℕ → List ℕ → Answer OpaqueError (List ℕ × List ℕ)
  unfolding ephemeral_key
  start_register s request user_id time iv = do
    response ← try (λ e. e) (opaque.register_server request user_id)
    ephemeral ← run (
        create rmp c (ephemeral_key c derive_key s time) user_id is_new_user [] new_user time [] iv)
    pure (response, ephemeral)

-- `verify_state_equal(..).unwrap()`, whose data is read as the unit.
abbrev pub unwrap_unit :
    Result (Outcome (Unit {0})) InvalidEphemeral → Answer ChangeError (Unit {0})
unwrap_unit (ok d) = run d
unwrap_unit (err e) = panics

-- `verify_state_equal(..).map_err(..)?`
abbrev pub match_unit : Result (Outcome (Unit {0})) InvalidEphemeral → Answer ChangeError (Unit {0})
match_unit (ok d) = run d
match_unit (err e) = fail state_mismatch

abbrev pub asserted : Bool → UserPassword → Answer ChangeError UserPassword
asserted b user = if b then pure user else panics

module _ (rmp : Rmp) (create_hash : List ℕ → List ℕ) where
  abbrev pub changed :
      EphemeralContent → ℕ → List ℕ → UserPassword → Answer ChangeError UserPassword
  changed entry time password_file user = do
    _ ← match_unit (
        verify_state_equal deserialize_unit is_change_password (create_hash user.password_file)
          entry time)
    asserted (same user.user_id entry.user_id)
        (record { user_id = entry.user_id; password_file = password_file })

  -- By the type of the ephemeral, and whether there is a record of the user.
  abbrev pub change_by_type :
      EphemeralType
      → Option (List ℕ)
      → EphemeralContent
      → ℕ
      → List ℕ
      → Answer ChangeError UserPassword
  change_by_type new_user (some old_login_bytes) entry time password_file =
      run (deserialize rmp old_login_bytes)
  change_by_type new_user none entry time password_file = do
    _ ← unwrap_unit (verify_state_equal deserialize_unit is_new_user [] entry time)
    pure (record { user_id = entry.user_id; password_file = password_file })
  change_by_type change_password none entry time password_file = fail not_found
  change_by_type change_password (some old_login_bytes) entry time password_file = do
    user ← run (deserialize rmp old_login_bytes)
    changed entry time password_file user
  change_by_type set_password old entry time password_file = fail ephemeral_refused
  change_by_type login old entry time password_file = fail ephemeral_refused
  change_by_type proof_token old entry time password_file = fail ephemeral_refused

  unfoldable pub user_change_ephemeral :
      EphemeralContent → ℕ → Option (List ℕ) → List ℕ → Answer ChangeError UserPassword
  unfolding verify_state_equal deserialize_unit deserialize
  user_change_ephemeral entry time old_login_bytes password_file =
      change_by_type entry.eph_type old_login_bytes entry time password_file

module _ (rmp : Rmp) (create_hash : List ℕ → List ℕ) {StoreError OpaqueError : Type 0}
    (opaque : Opaque OpaqueError) (redb : Redb StoreError) where
  -- The write of `register_finish`: the database that a commit leaves. After an error it is as before.
  unfoldable pub write_user :
      redb.Database
      → EphemeralContent
      → ℕ
      → List ℕ
      → Answer (ServerError StoreError OpaqueError) redb.Database
  unfolding user_change_ephemeral
  write_user db content time password_file = do
    tx ← try store_error (redb.open_write db)
    old_login_bytes ← try store_error (redb.get tx users content.user_id)
    user ←
        broaden change_error
          (user_change_ephemeral rmp create_hash content time old_login_bytes password_file)
    tx' ← try store_error (redb.insert tx users content.user_id (serialize rmp user))
    try store_error (redb.commit tx')

module _ (rmp : Rmp) (c : Cipher) (derive_key : List ℕ → ℕ → c.SymmetricKey)
    (create_hash : List ℕ → List ℕ) {PublicKey StoreError OpaqueError : Type 0}
    (opaque : Opaque OpaqueError) (redb : Redb StoreError) where
  -- The time is asked for twice.
  unfoldable pub register_finish :
      AppState PublicKey
      → redb.Database
      → List ℕ
      → List ℕ
      → ℕ
      → ℕ
      → Answer (ServerError StoreError OpaqueError) redb.Database
  unfolding eph_veri_keys write_user
  register_finish s db request register_eph time later = do
    password_file ← try opaque_error (opaque.register_server_finish request)
    decrypted ←
        try (λ _. change_error ephemeral_refused)
          (decrypt_bytes rmp c register_eph (eph_veri_keys c derive_key s time))
    content ← run (read rmp decrypted)
    write_user rmp create_hash opaque redb db content later password_file
