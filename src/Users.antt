-- ===== src/Users.antt =====
-- The users of tiauth: the bytes of `UserPassword` in tiauth/tiauth-core/src/data.rs and `get_login`
-- of tiauth/tiauth-core/src/store.rs. The tables of the crate redb are a parameter.
pub mod Granted
use mono_old.Common.{
  ℕ, ◌^◌, ◌<◌, ◌≡◌, refl, true, Option, none, some, List, [], ◌++◌, Outcome, returns, panics, ◌>>=◌,
  Result, ok, err, ◌==◌, if◌then◌else◌, length, arith,
}
use mono_old.Rmp.{Rmp}
use mono_old.Cursor.{unwrap, slice_str, slice_str-law}

pub record UserPassword : Type 0 where
  pub user_id : List ℕ
  pub password_file : List ℕ

-- A read of the table of users, and of the one of sessions by the SHA-512 of a session. Each opens
-- a transaction of its own.
pub record Tables (StoreError : Type 0) : Type 0 where
  pub get_user : List ℕ → Result (Option (List ℕ)) StoreError
  pub get_session : List ℕ → Result (Option (ℕ × ℕ)) StoreError
  pub sha512 : List ℕ → List ℕ

module _ (rmp : Rmp) where
  unfoldable pub serialize : UserPassword → List ℕ
  serialize u =
      rmp.write_array_len 2 ++ (rmp.write_str u.user_id ++ (rmp.write_str u.password_file ++ []))

  abbrev read_fields : List ℕ → Outcome UserPassword
  read_fields bytes = do
    named ← slice_str rmp bytes
    password ← slice_str rmp (named.1)
    returns (record { user_id = named.0; password_file = password.0 })

  -- The length of the array is asserted.
  unfoldable pub deserialize : List ℕ → Outcome UserPassword
  deserialize bytes =
      unwrap (rmp.read_array_len bytes) >>= λ p. if p.0 == 2 then read_fields (p.1) else panics

  pub deserialize-serialize :
      (u : UserPassword)
      → length u.user_id < 2 ^ 32
      → rmp.is_utf8 u.user_id ≡ true
      → length u.password_file < 2 ^ 32
      → rmp.is_utf8 u.password_file ≡ true
      → deserialize (serialize u) ≡ returns u
  unfolding deserialize serialize
  deserialize-serialize u short utf8 short' utf8' =
      let tail = rmp.write_str u.password_file ++ [] in
      rw
        (
          rmp.array_len-law 2 (rmp.write_str u.user_id ++ tail) (omega arith),
          slice_str-law rmp u.user_id tail short utf8,
          slice_str-law rmp u.password_file [] short' utf8',
        )
        refl

  module _ {StoreError : Type 0} where
    abbrev found_user : Option (List ℕ) → Outcome (Result (Option UserPassword) StoreError)
    found_user none = returns (ok none)
    found_user (some login_bytes) = deserialize login_bytes >>= λ user. returns (ok (some user))

    unfoldable pub get_login :
        Tables StoreError → List ℕ → Outcome (Result (Option UserPassword) StoreError)
    unfolding deserialize
    get_login tables user_id = elim (tables.get_user user_id) [
      | err e ↦ returns (err e)
      | ok access ↦ found_user access
    ]

    pub get_login-stored :
        (tables : Tables StoreError) (user : UserPassword)
        → length user.user_id < 2 ^ 32
        → rmp.is_utf8 user.user_id ≡ true
        → length user.password_file < 2 ^ 32
        → rmp.is_utf8 user.password_file ≡ true
        → tables.get_user user.user_id ≡ ok (some (serialize user))
        → get_login tables user.user_id ≡ returns (ok (some user))
    unfolding get_login
    get_login-stored tables user short utf8 short' utf8' stored =
        ground (arith, stored, deserialize-serialize user short utf8 short' utf8')
