-- ===== src/Ephemeral/Bytes.antt =====
-- The bytes of `EphemeralContent` and the encryption of an ephemeral, in
-- tiauth/tiauth-core/src/proof.rs.
use mono_old.Common.{
  ℕ, ◌^◌, ◌<◌, ◌≡◌, refl, true, List, [], ◌∷◌, ◌++◌, Outcome, returns, panics, Result, ok, err,
  ◌==◌, if◌then◌else◌, length, arith,
}
use mono_old.Rmp.{
  Rmp, RmpDeserError, Read, ◌>>=◌, pure, fail, rmp_read_bin, rmp_read_bin-law, rmp_read_str,
  rmp_read_str-law,
}
use mono_old.Proof.Names.{same}
use mono_old.Ephemeral.{
  EphemeralType, new_user, change_password, set_password, login, proof_token, InvalidEphemeral,
  invalid_ephemeral,
}
use mono_old.Ephemeral.Content.{EphemeralContent}

unfoldable pub key_name : EphemeralType → List ℕ
key_name new_user = 110 ∷ 101 ∷ 119 ∷ 95 ∷ 117 ∷ 115 ∷ 101 ∷ 114 ∷ []
key_name change_password = 99 ∷ 104 ∷ 97 ∷ 110 ∷ 103 ∷ 101 ∷ 95 ∷ 112 ∷ 97 ∷ 115 ∷ 115 ∷ []
key_name set_password = 115 ∷ 101 ∷ 116 ∷ 95 ∷ 112 ∷ 97 ∷ 115 ∷ 115 ∷ []
key_name login = 108 ∷ 111 ∷ 103 ∷ 105 ∷ 110 ∷ []
key_name proof_token = 112 ∷ 114 ∷ 111 ∷ 111 ∷ 102 ∷ 95 ∷ 116 ∷ 111 ∷ 107 ∷ 101 ∷ 110 ∷ []

unfoldable pub from_key_name : List ℕ → Result EphemeralType InvalidEphemeral
unfolding key_name
from_key_name s =
    if same s (key_name new_user)
    then ok new_user
    else if same s (key_name change_password)
    then ok change_password
    else if same s (key_name set_password)
    then ok set_password
    else if same s (key_name login)
    then ok login
    else if same s (key_name proof_token)
    then ok proof_token
    else err invalid_ephemeral

from_key_name-key_name : (t : EphemeralType) → from_key_name (key_name t) ≡ ok t
unfolding from_key_name
from_key_name-key_name new_user = refl
from_key_name-key_name change_password = refl
from_key_name-key_name set_password = refl
from_key_name-key_name login = refl
from_key_name-key_name proof_token = refl

key_name-short : (t : EphemeralType) → length (key_name t) < 2 ^ 32
unfolding key_name
key_name-short new_user = omega arith
key_name-short change_password = omega arith
key_name-short set_password = omega arith
key_name-short login = omega arith
key_name-short proof_token = omega arith

module _ (rmp : Rmp) where
  unfoldable pub serialize : EphemeralContent → List ℕ
  serialize c =
      rmp.write_array_len 5
      ++ (rmp.write_str c.user_id
          ++ (rmp.write_u64 c.expires
              ++ (rmp.write_bin c.state
                  ++ (rmp.write_str (key_name c.eph_type) ++ (rmp.write_bin c.data_bytes ++ [])))))

  abbrev read_fields : Read (List ℕ × ℕ × List ℕ)
  read_fields = do
    user_id ← rmp_read_str rmp
    expires ← rmp.read_u64
    state ← rmp_read_bin rmp
    pure (user_id, expires, state)

  -- The reads up to the state.
  abbrev read_head : Read (List ℕ × ℕ × List ℕ)
  read_head = do len ← rmp.read_array_len; if len == 5 then read_fields else fail

  abbrev with_data :
      List ℕ × ℕ × List ℕ
      → EphemeralType
      → Result (List ℕ × List ℕ) RmpDeserError
      → Result EphemeralContent InvalidEphemeral
  with_data head eph_type (err e) = err invalid_ephemeral
  with_data head eph_type (ok (data_bytes, rest)) = ok (record {
    user_id = head.0;
    expires = head.1;
    state = head.2;
    eph_type = eph_type;
    data_bytes = data_bytes;
  })

  abbrev with_type :
      List ℕ × ℕ × List ℕ
      → Result EphemeralType InvalidEphemeral
      → List ℕ
      → Result EphemeralContent InvalidEphemeral
  with_type head (err e) rest = err invalid_ephemeral
  with_type head (ok eph_type) rest = with_data head eph_type (rmp_read_bin rmp rest)

  -- The read of the type's name is unwrapped.
  abbrev with_name :
      List ℕ × ℕ × List ℕ
      → Result (List ℕ × List ℕ) RmpDeserError
      → Outcome (Result EphemeralContent InvalidEphemeral)
  with_name head (err e) = panics
  with_name head (ok (eph_type, rest)) = returns (with_type head (from_key_name eph_type) rest)

  abbrev after_head :
      Result ((List ℕ × ℕ × List ℕ) × List ℕ) RmpDeserError
      → Outcome (Result EphemeralContent InvalidEphemeral)
  after_head (err e) = returns (err invalid_ephemeral)
  after_head (ok (head, rest)) = with_name head (rmp_read_str rmp rest)

  unfoldable pub deserialize : List ℕ → Outcome (Result EphemeralContent InvalidEphemeral)
  deserialize bytes = after_head (read_head bytes)

  -- `DecryptedEphemeral::read`, which unwraps.
  unfoldable pub read : List ℕ → Outcome EphemeralContent
  unfolding deserialize
  read decrypted = elim (deserialize decrypted) [
    | panics ↦ panics
    | returns r ↦ elim r [ err e ↦ panics | ok c ↦ returns c ]
  ]

  -- What the format can hold.
  pub record Fits (c : EphemeralContent) : Type 0 where
    pub user_id : (length c.user_id < 2 ^ 32) × (rmp.is_utf8 c.user_id ≡ true)
    pub expires : c.expires < 2 ^ 64
    pub state : length c.state < 2 ^ 32
    pub eph_type : rmp.is_utf8 (key_name c.eph_type) ≡ true
    pub data_bytes : length c.data_bytes < 2 ^ 32

  pub deserialize-serialize :
      (c : EphemeralContent) → Fits c → deserialize (serialize c) ≡ returns (ok c)
  unfolding deserialize serialize
  deserialize-serialize c fits =
      let tail = rmp.write_bin c.data_bytes ++ [] in
      let named = rmp.write_str (key_name c.eph_type) ++ tail in
      let stated = rmp.write_bin c.state ++ named in
      let timed = rmp.write_u64 c.expires ++ stated in
      rw
        (
          rmp.array_len-law 5 (rmp.write_str c.user_id ++ timed) (omega arith),
          rmp_read_str-law rmp c.user_id timed fits.user_id.0 fits.user_id.1,
          rmp.u64-law c.expires stated fits.expires,
          rmp_read_bin-law rmp c.state named fits.state,
          rmp_read_str-law rmp (key_name c.eph_type) tail (key_name-short c.eph_type) fits.eph_type,
          from_key_name-key_name c.eph_type,
          rmp_read_bin-law rmp c.data_bytes [] fits.data_bytes,
        )
        refl

  pub read-serialize : (c : EphemeralContent) → Fits c → read (serialize c) ≡ returns c
  unfolding read
  read-serialize c fits = ground (arith, deserialize-serialize c fits)
