-- ===== src/Ops/Register/Completed.antt =====
-- A registration that was started comes to a record of the user.
use mono_old.Common.{
  ℕ, ◌+◌, ◌*◌, ◌%◌, ◌^◌, ◌≡◌, refl, sym, ap, ◌∙◌, subst, true, false, Option, none, some, List, [],
  returns, ok, length, arith,
}
use mono_old.Rmp.{Rmp}
use mono_old.Crypto.{Cipher, OnlyOpensTo}
use mono_old.Users.{UserPassword, get_login, get_login-stored}
use mono_old.Users
use mono_old.Store.{Redb, users, tables_of}
use mono_old.Proof.Names.{same_refl}
use mono_old.Proof.Content.{is_expired}
use mono_old.Ephemeral.{new_user}
use mono_old.Ephemeral.Keys.{interval}
use mono_old.Ephemeral.State.{is_new_user}
use mono_old.Ephemeral.Content.{EphemeralContent, verify_state_equal}
use mono_old.Ephemeral.Bytes.{key_name, serialize, read, read-serialize}
use mono_old.Ephemeral.Encrypted.{create, decrypt_bytes}
use mono_old.Ops.Answer.{pure, try, run, bind-ok, run-ok}
use mono_old.Ops.ProofToken.{AppState, ephemeral_key, eph_veri_keys, deserialize_unit}
use mono_old.Ops.Opened.{IsValidKey, opens-later}
use mono_old.Ops.Register.{
  Opaque, start_register, user_change_ephemeral, write_user, register_finish,
}
use mono_old.Ops.Register.Records.{IsStr, renewed, pure-eq, write_user-Written}

-- The content of an ephemeral for a new user.
abbrev pub new_content : List ℕ → ℕ → EphemeralContent
new_content user_id time = record {
  user_id = user_id;
  expires = (time + interval * 2) % 2 ^ 64;
  state = [];
  eph_type = new_user;
  data_bytes = [];
}

module _ (rmp : Rmp) (c : Cipher) (derive_key : List ℕ → ℕ → c.SymmetricKey)
    {PublicKey OpaqueError : Type 0} (opaque : Opaque OpaqueError) where
  start_register-creates :
      (s : AppState PublicKey) (request user_id response eph iv : List ℕ) (time : ℕ)
      → start_register rmp c derive_key opaque s request user_id time iv ≡ pure (response, eph)
      → create rmp c (ephemeral_key c derive_key s time) user_id is_new_user [] new_user time [] iv
        ≡ returns eph
  unfolding start_register
  start_register-creates s request user_id response eph iv time h =
      let (response', registered, h1) =
        bind-ok (try (λ e. e) (opaque.register_server request user_id)) _ (response, eph) h in
      let (eph', made, h2) =
        bind-ok
          (run (
            create rmp c (ephemeral_key c derive_key s time) user_id is_new_user [] new_user time []
              iv))
          _ (response, eph) h1 in
      let e : eph' ≡ eph = cc h2 in run-ok _ eph' made ∙ ap returns e

module _ (rmp : Rmp) (create_hash : List ℕ → List ℕ) where
  -- An ephemeral for a new user makes the record of a user that has none.
  new_user-renewed :
      (user_id password_file : List ℕ) (time later : ℕ)
      → is_expired later ((time + interval * 2) % 2 ^ 64) ≡ false
      → user_change_ephemeral rmp create_hash (new_content user_id time) later none password_file
        ≡ pure (record { user_id = user_id; password_file = password_file })
  unfolding user_change_ephemeral verify_state_equal deserialize_unit
  new_user-renewed user_id password_file time later fresh = rw fresh refl

  module _ {StoreError OpaqueError : Type 0} (opaque : Opaque OpaqueError)
      (redb : Redb StoreError) where
    -- A write whose calls of the database succeed.
    write_user-succeeds :
        (db db' : redb.Database) (tx tx' : redb.WriteTx) (old : Option (List ℕ))
        (content : EphemeralContent) (time : ℕ) (password_file : List ℕ) (user : UserPassword)
        → redb.open_write db ≡ ok tx
        → redb.get tx users content.user_id ≡ ok old
        → user_change_ephemeral rmp create_hash content time old password_file ≡ pure user
        → redb.insert tx users content.user_id (Users.serialize rmp user) ≡ ok tx'
        → redb.commit tx' ≡ ok db'
        → write_user rmp create_hash opaque redb db content time password_file ≡ pure db'
    unfolding write_user
    write_user-succeeds db db' tx tx' old content time password_file user began got allowed inserted
          committed =
        rw (began, got, allowed, inserted, committed) refl

module _ (rmp : Rmp) (c : Cipher) (derive_key : List ℕ → ℕ → c.SymmetricKey)
    (create_hash : List ℕ → List ℕ) {PublicKey StoreError OpaqueError : Type 0}
    (opaque : Opaque OpaqueError) (redb : Redb StoreError) where
  finish_steps :
      (s : AppState PublicKey) (db db' : redb.Database)
      (request eph decrypted password_file : List ℕ) (time later : ℕ) (content : EphemeralContent)
      → opaque.register_server_finish request ≡ ok password_file
      → decrypt_bytes rmp c eph (eph_veri_keys c derive_key s time) ≡ ok decrypted
      → read rmp decrypted ≡ returns content
      → write_user rmp create_hash opaque redb db content later password_file ≡ pure db'
      → register_finish rmp c derive_key create_hash opaque redb s db request eph time later
        ≡ pure db'
  unfolding register_finish
  finish_steps s db db' request eph decrypted password_file time later content finished opened reads
        writes =
      rw (finished, opened, reads) writes

  -- A registration whose ephemeral allows a new password and whose calls of the database succeed
  -- stores the user with it, and the next login reads this record.
  pub finish-stores :
      (sha512 : List ℕ → List ℕ) (u : AppState PublicKey) (db db' : redb.Database)
      (tx tx' : redb.WriteTx) (request eph decrypted password_file : List ℕ) (time later : ℕ)
      (content : EphemeralContent) (old found : Option (List ℕ))
      → opaque.register_server_finish request ≡ ok password_file
      → decrypt_bytes rmp c eph (eph_veri_keys c derive_key u time) ≡ ok decrypted
      → read rmp decrypted ≡ returns content
      → user_change_ephemeral rmp create_hash content later old password_file
        ≡ pure (renewed rmp create_hash content password_file)
      → IsStr rmp content.user_id
      → IsStr rmp password_file
      → redb.open_write db ≡ ok tx
      → redb.get tx users content.user_id ≡ ok old
      → redb.insert tx users content.user_id
          (Users.serialize rmp (renewed rmp create_hash content password_file))
        ≡ ok tx'
      → redb.commit tx' ≡ ok db'
      → redb.read db' users content.user_id ≡ ok found
      → (register_finish rmp c derive_key create_hash opaque redb u db request eph time later
          ≡ pure db')
        × (get_login rmp (tables_of redb sha512 db') content.user_id
            ≡ returns (ok (some (renewed rmp create_hash content password_file))))
  finish-stores sha512 u db db' tx tx' request eph decrypted password_file time later content old
        found finished opened reads allowed named fits began got inserted committed seen =
      let user : UserPassword = renewed rmp create_hash content password_file in
      let writes =
        write_user-succeeds rmp create_hash opaque redb db db' tx tx' old content later
          password_file user began got allowed inserted committed in
      let was : redb.stored db users content.user_id ≡ old =
        sym (redb.open_write-pending db tx users content.user_id began)
        ∙ sym (redb.get-pending tx users content.user_id old got) in
      let (stored_user, run', written) =
        write_user-Written rmp create_hash opaque redb db db' content later password_file writes in
      let run'' : pure user ≡ pure stored_user =
        sym allowed
        ∙ subst
            (λ o.
              user_change_ephemeral rmp create_hash content later o password_file
              ≡ pure stored_user)
            was run' in
      let here : found ≡ some (Users.serialize rmp user) =
        redb.read-stored db' users content.user_id found seen
        ∙ written users content.user_id
        ∙ rw (same_refl content.user_id)
            (ap (λ r. some (Users.serialize rmp r)) (sym (pure-eq user stored_user run''))) in
      (
        finish_steps u db db' request eph decrypted password_file time later content finished opened
            reads writes,
        get_login-stored rmp (tables_of redb sha512 db') user named.0 named.1 fits.0 fits.1
            (seen ∙ ap ok here),
      )

  -- A registration that the server started finishes in a later state with the same keys of
  -- ephemerals, for a user who has no record then, while the key of its ephemeral is valid and the
  -- ephemeral has not expired, where the calls of the database and the last step of OPAQUE succeed,
  -- strings fit the format, the nonce has 12 bytes, and none of the valid keys opens the ephemeral
  -- to another text. The user is stored with the new password file, and the next login reads this
  -- record.
  pub register_finish-registers :
      (sha512 : List ℕ → List ℕ) (s u : AppState PublicKey) (db db' : redb.Database)
      (tx tx' : redb.WriteTx) (request later_request user_id response eph iv password_file : List ℕ)
      (time later later' : ℕ) (found : Option (List ℕ))
      → start_register rmp c derive_key opaque s request user_id time iv ≡ pure (response, eph)
      → length iv ≡ 12
      → OnlyOpensTo c
          (eph_veri_keys c derive_key s later)
          (ephemeral_key c derive_key s time)
          iv
          (serialize rmp (new_content user_id time))
      → IsStr rmp user_id
      → rmp.is_utf8 (key_name new_user) ≡ true
      → IsValidKey s time later
      → eph_veri_keys c derive_key u later ≡ eph_veri_keys c derive_key s later
      → is_expired later' ((time + interval * 2) % 2 ^ 64) ≡ false
      → opaque.register_server_finish later_request ≡ ok password_file
      → IsStr rmp password_file
      → redb.open_write db ≡ ok tx
      → redb.get tx users user_id ≡ ok none
      → redb.insert tx users user_id
          (Users.serialize rmp (record { user_id = user_id; password_file = password_file }))
        ≡ ok tx'
      → redb.commit tx' ≡ ok db'
      → redb.read db' users user_id ≡ ok found
      → (register_finish rmp c derive_key create_hash opaque redb u db later_request eph later
            later'
          ≡ pure db')
        × (get_login rmp (tables_of redb sha512 db') user_id
            ≡ returns (ok (some (record { user_id = user_id; password_file = password_file }))))
  unfolding create
  register_finish-registers sha512 s u db db' tx tx' request later_request user_id response eph iv
        password_file time later later' found started size only named utf8 valid keys fresh finished
        fits began got inserted committed seen =
      let content : EphemeralContent = new_content user_id time in
      let made =
        start_register-creates rmp c derive_key opaque s request user_id response eph iv time
          started in
      let opened =
        ap (decrypt_bytes rmp c eph) keys
        ∙ opens-later rmp c derive_key s time later is_new_user content iv eph valid size only
            made in
      let reads = read-serialize rmp content (record {
        user_id = named;
        expires = omega arith;
        state = omega arith;
        eph_type = utf8;
        data_bytes = omega arith;
      }) in
      finish-stores sha512 u db db' tx tx' later_request eph (serialize rmp content) password_file
        later later' content none found finished opened reads
        (new_user-renewed rmp create_hash user_id password_file time later' fresh) named fits began
        got inserted committed seen
