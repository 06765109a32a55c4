-- ===== src/Ops/Sessions/Created.antt =====
-- What becomes of a session that was created with a key of the server.
use mono_old.Common.{
  ℕ, ◌+◌, ◌%◌, ◌^◌, ◌<◌, ◌≡◌, refl, Bool, true, false, Option, none, some, List, ◌∷◌, ◌++◌, returns,
  ok, err, if◌then◌else◌, length, arith, Bool-cases, inl, inr,
}
use mono_old.Rmp.{Rmp}
use mono_old.Crypto.{Cipher, OnlyOpensTo, symmetric_decrypt-encrypt}
use mono_old.Users.{UserPassword, Tables, get_login, get_login-stored, serialize}
use mono_old.Claims.{Ordered, Claims}
use mono_old.Proof.Names.{same}
use mono_old.Proof.Content.{is_expired}
use mono_old.Session.Content.{SessionContent, verify}
use mono_old.Session.Status.{SessionStatus, valid, session_status}
use mono_old.Session.Bytes.{RmpSerde, Fits, to_bytes, from_bytes, from_bytes-to_bytes}
use mono_old.Session.Encrypted.{created, create, decrypt}
use mono_old.Ops.Sessions.{
  session_refused, decrypt_session, verify_session, view_claims, check_session,
}

module _ {StoreError : Type 0} (tables : Tables StoreError) where
  -- A created session opens with the keys of the server while its status is valid.
  decrypt_session-created :
      (rmp : Rmp) (serde : RmpSerde) (c : Cipher) (pre : List c.SymmetricKey) (key : c.SymmetricKey)
      (post : List c.SymmetricKey) (user_id hash claims iv session : List ℕ)
      (expires_in time later : ℕ) (status : SessionStatus)
      → length iv ≡ 12
      → OnlyOpensTo c
          (pre ++ (key ∷ post))
          key
          iv
          (to_bytes rmp serde (created user_id expires_in hash claims time))
      → create rmp serde c user_id expires_in hash claims key time iv ≡ returns session
      → session_status tables session ≡ ok status
      → valid status later ≡ ok tt
      → decrypt_session c tables (pre ++ (key ∷ post)) session later
        ≡ ok (to_bytes rmp serde (created user_id expires_in hash claims time))
  unfolding create decrypt_session decrypt
  decrypt_session-created rmp serde c pre key post user_id hash claims iv session expires_in time
        later status size only made known fine =
      let opened =
        symmetric_decrypt-encrypt c pre key post iv
          (to_bytes rmp serde (created user_id expires_in hash claims time)) session size only
          made in
      ground (arith, known, fine, opened)

  verify_session-stored :
      (create_hash : List ℕ → List ℕ) (rmp : Rmp) (session : SessionContent) (user : UserPassword)
      (later : ℕ)
      → get_login rmp tables session.user_id ≡ returns (ok (some user))
      → is_expired later session.expires ≡ false
      → verify_session create_hash rmp tables session later none
        ≡ returns (
            if same session.pw_file_hash (create_hash user.password_file)
            then ok (session.session_claims, user.password_file)
            else err session_refused)
  unfolding verify_session verify
  verify_session-stored create_hash rmp session user later stored fresh =
      rw (stored, fresh)
        (elim (Bool-cases (same session.pw_file_hash (create_hash user.password_file))) [
          | inl e ↦ rw e refl
          | inr e ↦ rw e refl
        ])

module _ {K V StoreError : Type 0} ⦃order : Ordered K⦄ (tables : Tables StoreError) where
  -- The check of a session comes to its steps.
  check_session_lem :
      (rmp : Rmp) (serde : RmpSerde) (c : Cipher) (create_hash : List ℕ → List ℕ)
      (try_deserialize : List ℕ → Option (Claims K V)) (keys : List c.SymmetricKey)
      (session decrypted password_file : List ℕ) (content : SessionContent) (later : ℕ)
      (fits : Bool)
      → decrypt_session c tables keys session later ≡ ok decrypted
      → from_bytes rmp serde decrypted ≡ returns content
      → verify_session create_hash rmp tables content later none
        ≡ returns (if fits then ok (content.session_claims, password_file) else err session_refused)
      → check_session rmp serde c create_hash try_deserialize tables keys session later
        ≡ returns (
            if fits
            then view_claims try_deserialize content.session_claims
            else err session_refused)
  unfolding check_session
  check_session_lem rmp serde c create_hash try_deserialize keys session decrypted password_file
        content later true opened read verified =
      ground (arith, opened, read, verified)
  check_session_lem rmp serde c create_hash try_deserialize keys session decrypted password_file
        content later false opened read verified =
      ground (arith, opened, read, verified)

  -- A session that was created with one of the keys of the server, fits the format, is tracked as
  -- valid or not at all, and has not expired, is answered with the view of its claims, which is an
  -- error for claims that do not read or are not in order, when the password file that is stored
  -- for its user has the hash that it was created for; otherwise it is refused. Here the stored
  -- user fits the format, the nonce has 12 bytes, and none of the keys of the server opens the
  -- session to another text.
  pub check_session-created :
      (rmp : Rmp) (serde : RmpSerde) (c : Cipher) (create_hash : List ℕ → List ℕ)
      (try_deserialize : List ℕ → Option (Claims K V)) (pre : List c.SymmetricKey)
      (key : c.SymmetricKey) (post : List c.SymmetricKey) (user : UserPassword)
      (hash claims iv session : List ℕ) (expires_in time later : ℕ) (status : SessionStatus)
      → length iv ≡ 12
      → OnlyOpensTo c
          (pre ++ (key ∷ post))
          key
          iv
          (to_bytes rmp serde (created user.user_id expires_in hash claims time))
      → Fits rmp serde (created user.user_id expires_in hash claims time)
      → create rmp serde c user.user_id expires_in hash claims key time iv ≡ returns session
      → session_status tables session ≡ ok status
      → valid status later ≡ ok tt
      → is_expired later ((expires_in + time) % 2 ^ 64) ≡ false
      → length user.user_id < 2 ^ 32
      → rmp.is_utf8 user.user_id ≡ true
      → length user.password_file < 2 ^ 32
      → rmp.is_utf8 user.password_file ≡ true
      → tables.get_user user.user_id ≡ ok (some (serialize rmp user))
      → check_session rmp serde c create_hash try_deserialize tables
          (pre ++ (key ∷ post))
          session
          later
        ≡ returns (
            if same hash (create_hash user.password_file)
            then view_claims try_deserialize claims
            else err session_refused)
  check_session-created rmp serde c create_hash try_deserialize pre key post user hash claims iv
        session expires_in time later status size only fits made known fine fresh short utf8 short'
        utf8' stored =
      let content : SessionContent = created user.user_id expires_in hash claims time in
      let opened =
        decrypt_session-created tables rmp serde c pre key post user.user_id hash claims iv session
          expires_in time later status size only made known fine in
      let login = get_login-stored rmp tables user short utf8 short' utf8' stored in
      let verified = verify_session-stored tables create_hash rmp content user later login fresh in
      check_session_lem rmp serde c create_hash try_deserialize (pre ++ (key ∷ post)) session
        (to_bytes rmp serde content) user.password_file content later
        (same hash (create_hash user.password_file)) opened
        (from_bytes-to_bytes rmp serde content fits) verified
