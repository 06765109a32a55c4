-- ===== src/Users/Granted.antt =====
-- `UserClaims` and `SessionClaims` of tiauth/tiauth-core/src/data.rs: the claims that are stored for
-- a user, and those that a session asks for.
use mono_old.Common.{
  ℕ, ◌^◌, ◌<◌, ◌≡◌, refl, Bool, true, false, Option, none, some, List, [], ◌++◌, Outcome, returns,
  panics, ◌>>=◌, Result, ok, err, ◌==◌, if◌then◌else◌, length, arith,
}
use mono_old.Rmp.{Rmp, rmp_read_str, rmp_read_str-law}
use mono_old.Cursor.{unwrap, slice_bin, slice_bin-law}

pub record UserClaims : Type 0 where
  pub user_id : List ℕ
  pub claims : List ℕ

module _ (rmp : Rmp) where
  unfoldable pub serialize : UserClaims → List ℕ
  serialize u = rmp.write_array_len 2 ++ (rmp.write_str u.user_id ++ (rmp.write_bin u.claims ++ []))

  abbrev read_fields : List ℕ → Outcome UserClaims
  read_fields bytes = do
    named ← unwrap (rmp_read_str rmp bytes)
    granted ← slice_bin rmp (named.1)
    returns (record { user_id = named.0; claims = granted.0 })

  -- The length of the array is asserted.
  pub deserialize : List ℕ → Outcome UserClaims
  deserialize bytes =
      unwrap (rmp.read_array_len bytes) >>= λ p. if p.0 == 2 then read_fields (p.1) else panics

  deserialize-serialize :
      (u : UserClaims)
      → length u.user_id < 2 ^ 32
      → rmp.is_utf8 u.user_id ≡ true
      → length u.claims < 2 ^ 32
      → deserialize (serialize u) ≡ returns u
  unfolding deserialize serialize
  deserialize-serialize u short utf8 short' =
      let tail = rmp.write_bin u.claims ++ [] in
      rw
        (
          rmp.array_len-law 2 (rmp.write_str u.user_id ++ tail) (omega arith),
          rmp_read_str-law rmp u.user_id tail short utf8,
          slice_bin-law rmp u.claims [] short',
        )
        refl

-- What a session asks for: all claims, or some names.
pub data SessionClaims : Type 0 where
  every : SessionClaims
  named : List (List ℕ) → SessionClaims

pub data InvalidRequest : Type 0 where
  all_and_some : InvalidRequest

from_options : Option Bool → Option (List (List ℕ)) → Result SessionClaims InvalidRequest
from_options (some true) (some requested_claims) = err all_and_some
from_options (some false) (some requested_claims) = ok (named requested_claims)
from_options none (some requested_claims) = ok (named requested_claims)
from_options (some true) none = ok every
from_options (some false) none = ok (named [])
from_options none none = ok (named [])

-- All claims are granted exactly when they are asked for, and no names are given.
from_options-every :
    (all_claims : Option Bool) (requested_claims : Option (List (List ℕ)))
    → from_options all_claims requested_claims ≡ ok every
    → (all_claims ≡ some true) × (requested_claims ≡ none)
unfolding from_options
from_options-every (some true) none h = (refl, refl)
from_options-every (some true) (some r) h = cc
from_options-every (some false) (some r) h = cc
from_options-every none (some r) h = cc
from_options-every (some false) none h = cc
from_options-every none none h = cc
