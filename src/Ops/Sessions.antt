-- ===== src/Ops/Sessions.antt =====
-- `decrypt_session`, `verify_session` and `check_session` of tiauth/tiauth-core/src/ops/verify.rs.
-- The tables, the cipher, the hash of a password file and the reading of claims are parameters.
pub mod Created
use mono_old.Common.{
  ℕ, Bool, true, false, Option, none, some, List, Outcome, returns, panics, ◌>>=◌, Result, ok, err,
  if◌then◌else◌,
}
use mono_old.Rmp.{Rmp}
use mono_old.Crypto.{Cipher}
use mono_old.Users.{UserPassword, Tables, get_login}
use mono_old.Claims.{Ordered, Claims, to_claims_sorted}
use mono_old.Session.Content.{
  SessionContent, InvalidSession, invalid_session, verify, verify_max_age,
}
use mono_old.Session.Status.{session_status}
use mono_old.Session.Bytes.{RmpSerde, from_bytes}
use mono_old.Session.Encrypted.{decrypt}

-- The errors of the operations on a session, of which `decrypt_session` and `verify_session` have
-- the first two.
pub data SessionError (StoreError : Type 0) : Type 0 where
  store_error : StoreError → SessionError StoreError
  session_refused : SessionError StoreError
  invalid_claims_bytes : SessionError StoreError
  claims_unsorted : SessionError StoreError

abbrev pub to_one_of :
    {A StoreError : Type 0} → Result A StoreError → Result A (SessionError StoreError)
to_one_of (ok a) = ok a
to_one_of (err e) = err (store_error e)

abbrev pub with_file :
    {StoreError : Type 0}
    → List ℕ
    → Result (List ℕ) InvalidSession
    → Result (List ℕ × List ℕ) (SessionError StoreError)
with_file password_file (ok claims) = ok (claims, password_file)
with_file password_file (err e) = err session_refused

module _ (create_hash : List ℕ → List ℕ) {StoreError : Type 0} where
  abbrev pub verify_user :
      SessionContent
      → ℕ
      → Option ℕ
      → Result (Option UserPassword) StoreError
      → Result (List ℕ × List ℕ) (SessionError StoreError)
  verify_user session time max_age (err e) = err (store_error e)
  verify_user session time max_age (ok none) = err session_refused
  verify_user session time none (ok (some user)) =
      with_file user.password_file (verify create_hash session time user.password_file)
  verify_user session time (some age) (ok (some user)) =
      with_file user.password_file (verify_max_age create_hash session time user.password_file age)

  unfoldable pub verify_session :
      Rmp
      → Tables StoreError
      → SessionContent
      → ℕ
      → Option ℕ
      → Outcome (Result (List ℕ × List ℕ) (SessionError StoreError))
  unfolding get_login verify verify_max_age
  verify_session rmp tables session time max_age = get_login rmp tables session.user_id >>= λ login.
      returns (verify_user session time max_age login)

module _ {K V StoreError : Type 0} ⦃order : Ordered K⦄ where
  -- The view of the claims of a session, in order.
  unfoldable pub view_claims :
      (List ℕ → Option (Claims K V)) → List ℕ → Result (Claims K V) (SessionError StoreError)
  unfolding to_claims_sorted
  view_claims try_deserialize claims = elim (try_deserialize claims) [
    | none ↦ err invalid_claims_bytes
    | some view ↦ elim (to_claims_sorted view) [ err e ↦ err claims_unsorted | ok c ↦ ok c ]
  ]

module _ (c : Cipher) {StoreError : Type 0} where
  unfoldable pub decrypt_session :
      Tables StoreError
      → List c.SymmetricKey
      → List ℕ
      → ℕ
      → Result (List ℕ) (SessionError StoreError)
  unfolding decrypt session_status
  decrypt_session tables keys session time =
      decrypt c session time keys (λ s. to_one_of (session_status tables s)) (λ e. session_refused)

module _ {K V StoreError : Type 0} ⦃order : Ordered K⦄ where
  abbrev view_verified :
      (List ℕ → Option (Claims K V))
      → Result (List ℕ × List ℕ) (SessionError StoreError)
      → Result (Claims K V) (SessionError StoreError)
  view_verified try_deserialize (err e) = err e
  view_verified try_deserialize (ok (claims, password_file)) = view_claims try_deserialize claims

  unfoldable pub check_session :
      Rmp
      → RmpSerde
      → (c : Cipher) → (List ℕ → List ℕ)
      → (List ℕ → Option (Claims K V))
      → Tables StoreError
      → List c.SymmetricKey
      → List ℕ
      → ℕ
      → Outcome (Result (Claims K V) (SessionError StoreError))
  unfolding decrypt_session verify_session view_claims
  check_session rmp serde c create_hash try_deserialize tables keys session time =
      elim (decrypt_session c tables keys session time) [
        | err e ↦ returns (err e)
        | ok decrypted ↦ from_bytes rmp serde decrypted >>= λ content.
            verify_session create_hash rmp tables content time none >>= λ verified.
            returns (view_verified try_deserialize verified)
      ]
