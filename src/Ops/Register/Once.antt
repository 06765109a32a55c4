-- ===== src/Ops/Register/Once.antt =====
-- An ephemeral for a change of password works while the password is the one that it was made for.
use mono_old.Common.{
  ℕ, ◌≡◌, ◌≢◌, refl, sym, ap, ◌∙◌, subst, Option, none, some, List, Outcome, returns, Result, ok,
  err,
}
use mono_old.Rmp.{Rmp}
use mono_old.Crypto.{Cipher}
use mono_old.Users.{UserPassword, serialize, deserialize, deserialize-serialize}
use mono_old.Store.{Redb, users}
use mono_old.Proof.Names.{same_refl}
use mono_old.Ephemeral.{change_password, InvalidEphemeral}
use mono_old.Ephemeral.State.{is_change_password}
use mono_old.Ephemeral.Content.{EphemeralContent, verify_state_equal, verify_state_equal-exact}
use mono_old.Ephemeral.Bytes.{read}
use mono_old.Ephemeral.Encrypted.{decrypt_bytes}
use mono_old.Ops.Answer.{
  opaque_error, change_error, ephemeral_refused, pure, try, run, bind-ok, try-ok, run-ok,
}
use mono_old.Ops.ProofToken.{AppState, eph_veri_keys, deserialize_unit}
use mono_old.Ops.Register.{
  Opaque, match_unit, change_by_type, user_change_ephemeral, write_user, register_finish,
}
use mono_old.Ops.Register.Records.{IsStr, renewed, changed-renewed, unique, write_user-Written}

matched-ok :
    (r : Result (Outcome (Unit {0})) InvalidEphemeral) (d : Unit {0})
    → match_unit r ≡ pure d
    → (m : Outcome (Unit {0})) × (r ≡ ok m)
matched-ok (ok m) d h = (m, refl)
matched-ok (err e) d h = cc

module _ (rmp : Rmp) (create_hash : List ℕ → List ℕ) where
  -- What a change of password that succeeds has found.
  pub record Changes (old : Option (List ℕ)) (entry : EphemeralContent) (password_file : List ℕ)
      (user : UserPassword) : Type 0 where
    pub before : UserPassword
    pub bytes : List ℕ
    pub there : old ≡ some bytes
    pub reads : deserialize rmp bytes ≡ returns before
    pub state : create_hash before.password_file ≡ entry.state
    pub after : renewed rmp create_hash entry password_file ≡ user

  change_password-Changes :
      (old : Option (List ℕ)) (entry : EphemeralContent) (time : ℕ) (password_file : List ℕ)
      (user : UserPassword)
      → change_by_type rmp create_hash change_password old entry time password_file ≡ pure user
      → Changes old entry password_file user
  change_password-Changes none entry time password_file user h = absurd (cc h)
  change_password-Changes (some bytes) entry time password_file user h =
      let (before, reads, h1) = bind-ok (run (deserialize rmp bytes)) _ user h in
      let check =
        verify_state_equal deserialize_unit is_change_password (create_hash before.password_file)
          entry time in
      let (d, matched, h2) = bind-ok (match_unit check) _ user h1 in
      let (m, passed) = matched-ok check d matched in
      let facts =
        (verify_state_equal-exact deserialize_unit is_change_password
            (create_hash before.password_file) entry time m).0
          passed in
      record {
        before = before;
        bytes = bytes;
        there = refl;
        reads = run-ok (deserialize rmp bytes) before reads;
        state = facts.2;
        after = changed-renewed rmp create_hash entry time password_file before user h1;
      }

module _ (rmp : Rmp) (create_hash : List ℕ → List ℕ) {StoreError OpaqueError : Type 0}
    (opaque : Opaque OpaqueError) (redb : Redb StoreError) where
  changed_by :
      (db db' : redb.Database) (content : EphemeralContent) (time : ℕ) (password_file : List ℕ)
      → content.eph_type ≡ change_password
      → write_user rmp create_hash opaque redb db content time password_file ≡ pure db'
      → (user : UserPassword) × Changes rmp create_hash
          (redb.stored db users content.user_id)
          content
          password_file
          user
        × (redb.stored db' users content.user_id ≡ some (serialize rmp user))
  unfolding user_change_ephemeral
  changed_by db db' content time password_file kind h =
      let (user, allowed, written) =
        write_user-Written rmp create_hash opaque redb db db' content time password_file h in
      let here : redb.stored db' users content.user_id ≡ some (serialize rmp user) =
        written users content.user_id ∙ rw (same_refl content.user_id) refl in
      (
        user,
        change_password-Changes rmp create_hash (redb.stored db users content.user_id) content time
            password_file user
            (subst
              (λ k.
                change_by_type rmp create_hash k (redb.stored db users content.user_id) content time
                  password_file
                ≡ pure user)
              kind allowed),
        here,
      )

module _ (rmp : Rmp) (c : Cipher) (derive_key : List ℕ → ℕ → c.SymmetricKey)
    (create_hash : List ℕ → List ℕ) {PublicKey StoreError OpaqueError : Type 0}
    (opaque : Opaque OpaqueError) (redb : Redb StoreError) where
  -- A registration that finishes wrote the content of its ephemeral.
  pub register_finish-writes :
      (s : AppState PublicKey) (db db' : redb.Database) (request register_eph decrypted : List ℕ)
      (time later : ℕ) (content : EphemeralContent)
      → decrypt_bytes rmp c register_eph (eph_veri_keys c derive_key s time) ≡ ok decrypted
      → read rmp decrypted ≡ returns content
      → register_finish rmp c derive_key create_hash opaque redb s db request register_eph time
          later
        ≡ pure db'
      → (password_file : List ℕ) × (opaque.register_server_finish request ≡ ok password_file)
        × (write_user rmp create_hash opaque redb db content later password_file ≡ pure db')
  unfolding register_finish
  register_finish-writes s db db' request register_eph decrypted time later content opened reads h =
      let (password_file, finished, h1) =
        bind-ok (try opaque_error (opaque.register_server_finish request)) _ db' h in
      let (text, decryption, h2) =
        bind-ok
          (try (λ _. change_error ephemeral_refused)
            (decrypt_bytes rmp c register_eph (eph_veri_keys c derive_key s time)))
          _ db' h1 in
      let (content', reading, h3) = bind-ok (run (read rmp text)) _ db' h2 in
      let e : text ≡ decrypted =
        cc (try-ok (λ _. change_error ephemeral_refused) _ text decryption, opened) in
      let e' : content' ≡ content =
        unique (read rmp decrypted) content' content
          (subst (λ t. read rmp t ≡ returns content') e (run-ok (read rmp text) content' reading))
          reads in
      (
        password_file,
        try-ok opaque_error (opaque.register_server_finish request) password_file finished,
        subst (λ r. write_user rmp create_hash opaque redb db r later password_file ≡ pure db') e'
            h3,
      )

  -- After a change of password to a file with another hash, the same ephemeral finishes no further
  -- registration, as long as the user's record stays.
  pub register_finish-once :
      (s s' : AppState PublicKey) (db db' later_db last_db : redb.Database)
      (request later_request register_eph decrypted password_file : List ℕ)
      (time later time' later' : ℕ) (content : EphemeralContent)
      → IsStr rmp content.user_id
      → opaque.register_server_finish request ≡ ok password_file
      → IsStr rmp password_file
      → create_hash password_file ≢ content.state
      → content.eph_type ≡ change_password
      → read rmp decrypted ≡ returns content
      → decrypt_bytes rmp c register_eph (eph_veri_keys c derive_key s time) ≡ ok decrypted
      → register_finish rmp c derive_key create_hash opaque redb s db request register_eph time
          later
        ≡ pure db'
      → redb.stored later_db users content.user_id ≡ redb.stored db' users content.user_id
      → decrypt_bytes rmp c register_eph (eph_veri_keys c derive_key s' time') ≡ ok decrypted
      → register_finish rmp c derive_key create_hash opaque redb s' later_db later_request
          register_eph time' later'
        ≢ pure last_db
  register_finish-once s s' db db' later_db last_db request later_request register_eph decrypted
        password_file time later time' later' content named finished fits other kind reads opened
        first stays opened' second =
      let (file, finished', write) =
        register_finish-writes s db db' request register_eph decrypted time later content opened
          reads first in
      let (file2, finished2, write2) =
        register_finish-writes s' later_db last_db later_request register_eph decrypted time' later'
          content opened' reads second in
      let same_file : file ≡ password_file = cc (finished, finished') in
      let (user, change, here) =
        changed_by rmp create_hash opaque redb db db' content later file kind write in
      let (user2, change2, here2) =
        changed_by rmp create_hash opaque redb later_db last_db content later' file2 kind write2 in
      let after : UserPassword = renewed rmp create_hash content file in
      let there : serialize rmp user ≡ change2.bytes = cc (sym here ∙ sym stays ∙ change2.there) in
      let stored_after : serialize rmp after ≡ change2.bytes =
        ap (serialize rmp) change.after ∙ there in
      let (short, utf8) = subst (IsStr rmp) (sym same_file) fits in
      let back : deserialize rmp change2.bytes ≡ returns after =
        ap (deserialize rmp) (sym stored_after)
        ∙ deserialize-serialize rmp after named.0 named.1 short utf8 in
      let e : after ≡ change2.before =
        unique (deserialize rmp change2.bytes) after change2.before back change2.reads in
      other (ap create_hash (sym same_file ∙ ap (λ u. u.password_file) e) ∙ change2.state)
