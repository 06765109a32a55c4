-- ===== src/Ops/Modify/Reset.antt =====
-- A password that was reset by a proof can be registered anew.
use mono_old.Common.{
  ℕ, ◌+◌, ◌*◌, ◌%◌, ◌^◌, ◌<◌, ◌≡◌, refl, ap, ◌∙◌, subst, Bool, true, false, Option, none, some,
  List, [], ◌∷◌, returns, ok, length, arith,
}
use mono_old.Rmp.{Rmp}
use mono_old.Crypto.{Cipher, OnlyOpensTo}
use mono_old.Users.{UserPassword, Tables, get_login, deserialize-serialize, deserialize}
use mono_old.Users
use mono_old.Store.{Redb, users, tables_of}
use mono_old.Proof.{reset_password}
use mono_old.Proof.Content.{ProofContent, is_expired}
use mono_old.Proof.Names.{same_refl}
use mono_old.Proof.Validate.{validate, validate_single, validate-exact, is_action_valid}
use mono_old.Ephemeral.{change_password}
use mono_old.Ephemeral.Keys.{interval}
use mono_old.Ephemeral.State.{is_change_password}
use mono_old.Ephemeral.Content.{EphemeralContent, verify_state_equal}
use mono_old.Ephemeral.Bytes.{key_name, serialize, read-serialize}
use mono_old.Ephemeral.Encrypted.{create, decrypt_bytes}
use mono_old.Ops.Answer.{
  unstored, proof_refused, pure, try, run, bind-ok, try-ok, run-ok, and_then-ok,
}
use mono_old.Ops.Opened.{IsValidKey, opens-later}
use mono_old.Ops.ProofToken.{
  AppState, ephemeral_key, eph_veri_keys, deserialize_unit, checked, proof_object, verify_proof,
}
use mono_old.Ops.ProofToken.Sound.{verify_proof-checked}
use mono_old.Ops.Register.{Opaque, user_change_ephemeral, register_finish}
use mono_old.Ops.Register.Records.{IsStr}
use mono_old.Ops.Register.Completed.{finish-stores}
use mono_old.Ops.Modify.{try_unit, or_refused, change_entry, reset_user, reset_with_proof}

-- The content of an ephemeral for a change of password.
abbrev pub change_content : List ℕ → List ℕ → ℕ → EphemeralContent
change_content user_id hash time = record {
  user_id = user_id;
  expires = (time + interval * 2) % 2 ^ 64;
  state = hash;
  eph_type = change_password;
  data_bytes = [];
}

refused-ok :
    {StoreError : Type 0} (o : Option UserPassword) (user : UserPassword)
    → or_refused {StoreError = StoreError} o ≡ pure user
    → o ≡ some user
refused-ok (some u) user h = cc
refused-ok none user h = cc

module _ (rmp : Rmp) (create_hash : List ℕ → List ℕ) where
  -- For a user whose password file is the one that it was made for, the ephemeral allows a new one.
  change-renewed :
      (user : UserPassword) (password_file : List ℕ) (time later : ℕ)
      → IsStr rmp user.user_id
      → IsStr rmp user.password_file
      → is_expired later ((time + interval * 2) % 2 ^ 64) ≡ false
      → user_change_ephemeral rmp create_hash
          (change_content user.user_id (create_hash user.password_file) time)
          later
          (some (Users.serialize rmp user))
          password_file
        ≡ pure (record { user_id = user.user_id; password_file = password_file })
  unfolding user_change_ephemeral verify_state_equal deserialize_unit
  change-renewed user password_file time later named fits fresh =
      rw
        (
          deserialize-serialize rmp user named.0 named.1 fits.0 fits.1,
          fresh,
          same_refl (create_hash user.password_file),
          same_refl user.user_id,
        )
        refl

module _ (rmp : Rmp) (c : Cipher) (derive_key : List ℕ → ℕ → c.SymmetricKey) {PublicKey : Type 0}
    (verify_signature : List ℕ → List ℕ → PublicKey → Bool) (create_hash : List ℕ → List ℕ)
    {StoreError : Type 0} where
  -- A reset that the proof of a password's reset for one user asks for.
  pub record Resetting (tables : Tables StoreError) (s s' : AppState PublicKey)
      (proof : List ℕ × List ℕ) (time later : ℕ) (iv eph : List ℕ) : Type 0 where
    pub content : ProofContent
    pub named : List ℕ
    pub user : UserPassword
    pub passed : checked rmp c derive_key verify_signature s proof time ≡ ok content
    pub action : is_action_valid (reset_password ∷ []) content.action ≡ true
    pub target : validate_single content.target content.target_data ≡ ok named
    pub found : get_login rmp tables named ≡ returns (ok (some user))
    pub made :
        change_entry rmp c derive_key create_hash s' user.user_id user.password_file later later iv
        ≡ returns eph

  -- A password is reset only by a proof that passed the checks of its signature and its expiry and
  -- asks for the reset of one user, who has a record. What is handed out is the ephemeral for a
  -- change of the password in that record.
  pub reset_with_proof-Resetting :
      (tables : Tables StoreError) (s s' : AppState PublicKey) (proof : List ℕ × List ℕ)
      (time later : ℕ) (iv eph : List ℕ)
      → reset_with_proof rmp c derive_key verify_signature create_hash tables s proof time later iv
        ≡ returns (s', ok eph)
      → Resetting tables s s' proof time later iv eph
  unfolding reset_with_proof reset_user
  reset_with_proof-Resetting tables s s' proof time later iv eph h =
      let (p, verified, reset) =
        and_then-ok (λ _. proof_refused)
          (verify_proof rmp c derive_key verify_signature s proof time)
          (reset_user rmp c derive_key verify_signature create_hash tables later iv) s' eph h in
      let (content, passed, object) =
        verify_proof-checked rmp c derive_key verify_signature s s' proof time p verified in
      let reset' =
        subst
          (λ o.
            reset_user rmp c derive_key verify_signature create_hash tables later iv s' o
            ≡ pure eph)
          object reset in
      let (validated, valid, h1) =
        bind-ok
          (try (λ _. proof_refused)
            (validate try_unit (proof_object content) (reset_password ∷ []) validate_single))
          _ eph reset' in
      let (answer, read_user, h2) = bind-ok (run (get_login rmp tables (validated.1))) _ eph h1 in
      let (stored, answered, h3) = bind-ok (try unstored answer) _ eph h2 in
      let (user, there, h4) = bind-ok (or_refused stored) _ eph h3 in
      let facts =
        (validate-exact try_unit (proof_object content) (reset_password ∷ []) validate_single
            (validated.0) (validated.1)).0
          (try-ok (λ _. proof_refused) _ validated valid) in
      record {
        content = content;
        named = validated.1;
        user = user;
        passed = passed;
        action = facts.1;
        target = facts.0;
        found =
            run-ok (get_login rmp tables (validated.1)) answer read_user
            ∙ ap returns
                (try-ok unstored answer stored answered ∙ ap ok (refused-ok stored user there));
        made = run-ok _ eph h4;
      }

module _ (rmp : Rmp) (c : Cipher) (derive_key : List ℕ → ℕ → c.SymmetricKey)
    (create_hash : List ℕ → List ℕ) {PublicKey StoreError OpaqueError : Type 0}
    (opaque : Opaque OpaqueError) (redb : Redb StoreError) where
  -- With an ephemeral for a change of password that the server made for the record of a user, a
  -- registration finishes in a later state with the same keys of ephemerals, while its key is
  -- valid, it has not expired and the record is the same, where the calls of the database and the
  -- last step of OPAQUE succeed, strings fit the format, the nonce has 12 bytes, and none of the
  -- valid keys opens the ephemeral to another text. The user is stored with the new password file,
  -- and the next login reads this record.
  pub change_entry-registers :
      (sha512 : List ℕ → List ℕ) (s u : AppState PublicKey) (db db' : redb.Database)
      (tx tx' : redb.WriteTx) (request eph iv password_file : List ℕ) (time later later' : ℕ)
      (user : UserPassword) (found : Option (List ℕ))
      → change_entry rmp c derive_key create_hash s user.user_id user.password_file time time iv
        ≡ returns eph
      → length iv ≡ 12
      → OnlyOpensTo c
          (eph_veri_keys c derive_key s later)
          (ephemeral_key c derive_key s time)
          iv
          (serialize rmp (change_content user.user_id (create_hash user.password_file) time))
      → IsStr rmp user.user_id
      → IsStr rmp user.password_file
      → length (create_hash user.password_file) < 2 ^ 32
      → rmp.is_utf8 (key_name change_password) ≡ true
      → IsValidKey s time later
      → eph_veri_keys c derive_key u later ≡ eph_veri_keys c derive_key s later
      → is_expired later' ((time + interval * 2) % 2 ^ 64) ≡ false
      → opaque.register_server_finish request ≡ ok password_file
      → IsStr rmp password_file
      → redb.open_write db ≡ ok tx
      → redb.get tx users user.user_id ≡ ok (some (Users.serialize rmp user))
      → redb.insert tx users user.user_id
          (Users.serialize rmp (record { user_id = user.user_id; password_file = password_file }))
        ≡ ok tx'
      → redb.commit tx' ≡ ok db'
      → redb.read db' users user.user_id ≡ ok found
      → (register_finish rmp c derive_key create_hash opaque redb u db request eph later later'
          ≡ pure db')
        × (get_login rmp (tables_of redb sha512 db') user.user_id
            ≡ returns
                (ok (some (record { user_id = user.user_id; password_file = password_file }))))
  unfolding change_entry create
  change_entry-registers sha512 s u db db' tx tx' request eph iv password_file time later later'
        user found made size only named old_fits hashed utf8 valid keys fresh finished fits began
        got inserted committed seen =
      let content : EphemeralContent =
        change_content user.user_id (create_hash user.password_file) time in
      let opened =
        ap (decrypt_bytes rmp c eph) keys
        ∙ opens-later rmp c derive_key s time later is_change_password content iv eph valid size
            only made in
      let reads = read-serialize rmp content (record {
        user_id = named;
        expires = omega arith;
        state = hashed;
        eph_type = utf8;
        data_bytes = omega arith;
      }) in
      finish-stores rmp c derive_key create_hash opaque redb sha512 u db db' tx tx' request eph
        (serialize rmp content) password_file later later' content (some (Users.serialize rmp user))
        found finished opened reads
        (change-renewed rmp create_hash user password_file time later' named old_fits fresh) named
        fits began got inserted committed seen
