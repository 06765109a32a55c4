-- ===== src/Ops/Modify.antt =====
-- `reset_password`, `change_password` and `user_set_claims` of
-- tiauth/tiauth-core/src/ops/modify.rs. The database, the cipher, signatures, the hash of a password
-- file and the bytes of claims are parameters.
pub mod SetClaims
pub mod Reset
use mono_old.Common.{
  ℕ, Bool, true, false, Option, none, some, List, [], ◌∷◌, Outcome, returns, panics, Result, ok,
  err, if◌then◌else◌,
}
use mono_old.Rmp.{Rmp}
use mono_old.Crypto.{Cipher}
use mono_old.Claims.{Ordered, Claims, ModifyClaimError, to_claims_sorted}
use mono_old.Users.{UserPassword, Tables, get_login}
use mono_old.Users.Granted.{UserClaims}
use mono_old.Users.Granted
use mono_old.Store.{Redb, claims}
use mono_old.Proof.{InvalidProof, invalid_proof, Str, reset_password, set_claims}
use mono_old.Proof.Validate.{UnvalidatedProofObject, validate, validate_single}
use mono_old.Ephemeral.{change_password}
use mono_old.Ephemeral.State.{is_change_password}
use mono_old.Ephemeral.Encrypted.{create}
use mono_old.Session.Content.{SessionContent}
use mono_old.Session.Bytes.{RmpSerde, from_bytes}
use mono_old.Ops.Answer.{
  ProofError, unstored, proof_refused, claims_unsorted, Answer, pure, fail, try, run, ◌>>=◌,
  Stateful, and_then,
}
use mono_old.Ops.ProofToken.{AppState, ephemeral_key, verify_proof}
use mono_old.Ops.Sessions.{SessionError, decrypt_session, verify_session}

-- `CHANGE_AGE`, in seconds.
abbrev pub change_age : ℕ
change_age = 600

-- `try_deserialize` of the unit, with its error as the proof's.
abbrev pub try_unit : List ℕ → Result (Unit {0}) InvalidProof
try_unit [] = ok tt
try_unit (b ∷ bytes) = err invalid_proof

-- A user without a record has no password to reset.
abbrev pub or_refused :
    {StoreError : Type 0} → Option UserPassword → Answer (ProofError StoreError) UserPassword
or_refused (some user) = pure user
or_refused none = fail proof_refused

module _ (rmp : Rmp) (c : Cipher) (derive_key : List ℕ → ℕ → c.SymmetricKey) {PublicKey : Type 0}
    (create_hash : List ℕ → List ℕ) where
  -- The ephemeral for a change of password, made in the state of the password file.
  unfoldable pub change_entry :
      AppState PublicKey → List ℕ → List ℕ → ℕ → ℕ → List ℕ → Outcome (List ℕ)
  unfolding ephemeral_key
  change_entry s user_id password_file key_time time iv =
      create rmp c (ephemeral_key c derive_key s key_time) user_id is_change_password
        (create_hash password_file) change_password time [] iv

module _ (rmp : Rmp) (c : Cipher) (derive_key : List ℕ → ℕ → c.SymmetricKey) {PublicKey : Type 0}
    (verify_signature : List ℕ → List ℕ → PublicKey → Bool) (create_hash : List ℕ → List ℕ)
    {StoreError : Type 0} where
  -- What follows a proof that verified, at the time after the read of the user.
  unfoldable pub reset_user :
      Tables StoreError
      → ℕ
      → List ℕ
      → AppState PublicKey
      → UnvalidatedProofObject (List ℕ)
      → Answer (ProofError StoreError) (List ℕ)
  unfolding get_login change_entry validate validate_single
  reset_user tables later iv s p = do
    validated ← try (λ _. proof_refused) (validate try_unit p (reset_password ∷ []) validate_single)
    answer ← run (get_login rmp tables (validated.1))
    stored ← try unstored answer
    user ← or_refused stored
    run (change_entry rmp c derive_key create_hash s user.user_id user.password_file later later iv)

  unfoldable pub reset_with_proof :
      Tables StoreError
      → AppState PublicKey
      → List ℕ × List ℕ
      → ℕ
      → ℕ
      → List ℕ
      → Stateful (AppState PublicKey) (ProofError StoreError) (List ℕ)
  unfolding verify_proof reset_user
  reset_with_proof tables s proof time later iv =
      and_then (λ _. proof_refused) (verify_proof rmp c derive_key verify_signature s proof time)
        (reset_user tables later iv)

module _ (rmp : Rmp) (serde : RmpSerde) (c : Cipher) (derive_key : List ℕ → ℕ → c.SymmetricKey)
    {PublicKey : Type 0} (create_hash : List ℕ → List ℕ) {StoreError : Type 0} where
  -- A session that is at most ten minutes old, at a time before and one after its checks.
  unfoldable pub change_with_session :
      Tables StoreError
      → AppState PublicKey
      → List c.SymmetricKey
      → List ℕ
      → ℕ
      → ℕ
      → List ℕ
      → Answer (SessionError StoreError) (List ℕ)
  unfolding decrypt_session verify_session change_entry
  change_with_session tables s keys session_encrypted time later iv = do
    decrypted ← try (λ e. e) (decrypt_session c tables keys session_encrypted time)
    session ← run (from_bytes rmp serde decrypted)
    answer ← run (verify_session create_hash rmp tables session time (some change_age))
    verified ← try (λ e. e) answer
    run (change_entry rmp c derive_key create_hash s session.user_id (verified.1) time later iv)

module _ {K V : Type 0} ⦃order : Ordered K⦄ (rmp : Rmp)
    (try_deserialize : List ℕ → Result (Claims K V) InvalidProof)
    (claims_bytes : Claims K V → List ℕ) {StoreError : Type 0} (redb : Redb StoreError) where
  -- The write of the claims: the database that a commit leaves.
  unfoldable pub write_claims :
      redb.Database → List ℕ → Claims K V → Answer (ProofError StoreError) redb.Database
  unfolding Granted.serialize
  write_claims db user_id sorted = do
    tx ← try unstored (redb.open_write db)
    tx' ← try unstored (
        redb.insert tx claims user_id
          (Granted.serialize rmp (record { user_id = user_id; claims = claims_bytes sorted })))
    try unstored (redb.commit tx')

  unfoldable pub set_user_claims :
      {S : Type 0}
      → redb.Database
      → S
      → UnvalidatedProofObject (List ℕ)
      → Answer (ProofError StoreError) redb.Database
  unfolding validate validate_single to_claims_sorted write_claims
  set_user_claims db s p = do
    validated ←
        try (λ _. proof_refused) (validate try_deserialize p (set_claims ∷ []) validate_single)
    sorted ← try (λ _. claims_unsorted) (to_claims_sorted (validated.0))
    write_claims db (validated.1) sorted

module _ {K V : Type 0} ⦃order : Ordered K⦄ (rmp : Rmp) (c : Cipher)
    (derive_key : List ℕ → ℕ → c.SymmetricKey) {PublicKey : Type 0}
    (verify_signature : List ℕ → List ℕ → PublicKey → Bool)
    (try_deserialize : List ℕ → Result (Claims K V) InvalidProof)
    (claims_bytes : Claims K V → List ℕ) {StoreError : Type 0} (redb : Redb StoreError) where
  unfoldable pub user_set_claims :
      AppState PublicKey
      → redb.Database
      → List ℕ × List ℕ
      → ℕ
      → Stateful (AppState PublicKey) (ProofError StoreError) redb.Database
  unfolding verify_proof set_user_claims
  user_set_claims s db proof time =
      and_then (λ _. proof_refused) (verify_proof rmp c derive_key verify_signature s proof time)
        (set_user_claims rmp try_deserialize claims_bytes redb db)
