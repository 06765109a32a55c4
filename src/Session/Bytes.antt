-- ===== src/Session/Bytes.antt =====
-- The bytes of `SessionContent` in tiauth/tiauth-core/src/proof.rs. The crate rmp_serde is a
-- parameter.
use mono_old.Common.{
  ℕ, ◌^◌, ◌<◌, ◌≡◌, refl, Option, some, List, [], ◌++◌, Outcome, returns, ◌>>=◌, length, arith,
}
use mono_old.Rmp.{Rmp, rmp_read_bin, rmp_read_bin-law}
use mono_old.Cursor.{unwrap, unwrap_some, slice_bin, slice_bin-law}
use mono_old.Ephemeral.State.{hash_from_bytes}
use mono_old.Session.Content.{SessionContent}

pub record SessionCreate : Type 0 where
  pub user_id : List ℕ
  pub issued : ℕ
  pub expires : ℕ

-- A struct of a string and two numbers serializes, and reads back.
pub record RmpSerde : Type 0 where
  pub to_vec : SessionCreate → List ℕ
  pub from_slice : List ℕ → Option SessionCreate
  pub from_slice-to_vec : (about : SessionCreate) → from_slice (to_vec about) ≡ some about

abbrev pub about_of : SessionContent → SessionCreate
about_of s = record { user_id = s.user_id; issued = s.issued; expires = s.expires }

module _ (rmp : Rmp) (serde : RmpSerde) where
  unfoldable pub to_bytes : SessionContent → List ℕ
  to_bytes s =
      rmp.write_bin (serde.to_vec (about_of s))
      ++ (rmp.write_bin s.pw_file_hash ++ (rmp.write_bin s.session_claims ++ []))

  unfoldable pub from_bytes : List ℕ → Outcome SessionContent
  from_bytes bytes = do
    about ← slice_bin rmp bytes
    pw_file_hash ← unwrap (rmp_read_bin rmp (about.1))
    claims ← slice_bin rmp (pw_file_hash.1)
    created ← unwrap_some (serde.from_slice (about.0))
    hash ← hash_from_bytes (pw_file_hash.0)
    returns (record {
      user_id = created.user_id;
      issued = created.issued;
      expires = created.expires;
      pw_file_hash = hash;
      session_claims = claims.0;
    })

  -- What the format can hold.
  pub record Fits (s : SessionContent) : Type 0 where
    pub about : length (serde.to_vec (about_of s)) < 2 ^ 32
    pub pw_file_hash : length s.pw_file_hash ≡ 32
    pub session_claims : length s.session_claims < 2 ^ 32

  pub from_bytes-to_bytes : (s : SessionContent) → Fits s → from_bytes (to_bytes s) ≡ returns s
  unfolding from_bytes to_bytes
  from_bytes-to_bytes s fits =
      let claims = rmp.write_bin s.session_claims ++ [] in
      rw
        (
          slice_bin-law rmp (serde.to_vec (about_of s)) (rmp.write_bin s.pw_file_hash ++ claims)
              fits.about,
          rmp_read_bin-law rmp s.pw_file_hash claims (omega (arith, fits.pw_file_hash)),
          slice_bin-law rmp s.session_claims [] fits.session_claims,
          serde.from_slice-to_vec (about_of s),
          fits.pw_file_hash,
        )
        refl
