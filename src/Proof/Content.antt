-- ===== src/Proof/Content.antt =====
-- The content of a proof in tiauth/tiauth-core/src/proof.rs: its fields, its bytes and its expiry.
use mono_old.Common.{
  ℕ, zero, suc, ◌+◌, ◌%◌, ◌^◌, ◌<◌, ◌≡◌, refl, ap, Bool, true, List, [], ◌∷◌, ◌++◌, Result, ok, err,
  ◌==◌, leb, if◌then◌else◌, length, All, arith,
}
use mono_old.Rmp.{
  Rmp, RmpDeserError, Read, ◌>>=◌, pure, fail, rmp_read_bin, rmp_read_bin-law, rmp_read_str,
  rmp_read_str-law,
}
use mono_old.Proof.{ActionType, Target, InvalidProof, invalid_proof, Str, TargetList}
use mono_old.Proof.Names.{
  name, from_name, target_name, target_from_name, from_name-name, target_from_name-name, name-short,
  target_name-short,
}

pub record ProofContent : Type 0 where
  pub action : ActionType
  pub target : Target
  pub target_data : TargetList
  pub expires : ℕ
  pub ephemeral : List ℕ
  pub data_bytes : List ℕ

abbrev pub leeway : ℕ
leeway = 10

-- `time >= expires + LEEWAY`, on 64 bits.
abbrev pub is_expired : ℕ → ℕ → Bool
is_expired time expires = leb ((expires + leeway) % 2 ^ 64) time

module _ (rmp : Rmp) where
  abbrev strs_bytes : TargetList → List ℕ → List ℕ
  strs_bytes [] rest = rest
  strs_bytes (s ∷ ss) rest = rmp.write_str s ++ strs_bytes ss rest

  unfoldable pub serialize : ProofContent → List ℕ
  serialize c =
      rmp.write_array_len 6
      ++ (rmp.write_str (name c.action)
          ++ (rmp.write_str (target_name c.target)
              ++ (rmp.write_array_len (length c.target_data % 2 ^ 32)
                  ++ strs_bytes c.target_data (
                      rmp.write_u64 c.expires
                      ++ (rmp.write_bin c.ephemeral ++ (rmp.write_bin c.data_bytes ++ []))))))

  abbrev lifted : {A : Type 0} → Result A InvalidProof → Read A
  lifted (ok a) = pure a
  lifted (err e) = fail

  unfoldable pub read_strs : ℕ → Read TargetList
  read_strs zero = pure []
  read_strs (suc n) = do s ← rmp_read_str rmp; ss ← read_strs n; pure (s ∷ ss)

  abbrev read_tail : ActionType → Target → TargetList → Read ProofContent
  read_tail action target target_data = do
    expires ← rmp.read_u64
    ephemeral ← rmp_read_bin rmp
    data_bytes ← rmp_read_bin rmp
    pure (record {
      action = action;
      target = target;
      target_data = target_data;
      expires = expires;
      ephemeral = ephemeral;
      data_bytes = data_bytes;
    })

  abbrev read_fields : Read ProofContent
  read_fields = do
    action_name ← rmp_read_str rmp
    action ← lifted (from_name action_name)
    name_of_target ← rmp_read_str rmp
    target ← lifted (target_from_name name_of_target)
    array_len ← rmp.read_array_len
    targets ← read_strs array_len
    read_tail action target targets

  unfoldable pub read_content : Read ProofContent
  read_content = do array_len ← rmp.read_array_len; if array_len == 6 then read_fields else fail

  abbrev mapped : {A : Type 0} → Result (A × List ℕ) RmpDeserError → Result A InvalidProof
  mapped (ok (a, rest)) = ok a
  mapped (err e) = err invalid_proof

  unfoldable pub deserialize : List ℕ → Result ProofContent InvalidProof
  deserialize bytes = mapped (read_content bytes)

  abbrev pub IsStr : Str → Type 0
  IsStr s = (length s < 2 ^ 32) × (rmp.is_utf8 s ≡ true)

  -- What the format can hold.
  pub record Fits (c : ProofContent) : Type 0 where
    pub action_name : rmp.is_utf8 (name c.action) ≡ true
    pub name_of_target : rmp.is_utf8 (target_name c.target) ≡ true
    pub few : length c.target_data < 2 ^ 32
    pub target_data : All IsStr c.target_data
    pub expires : c.expires < 2 ^ 64
    pub ephemeral : length c.ephemeral < 2 ^ 32
    pub data_bytes : length c.data_bytes < 2 ^ 32

  read_strs-law :
      (ss : TargetList) (rest : List ℕ)
      → All IsStr ss
      → read_strs (length ss) (strs_bytes ss rest) ≡ ok (ss, rest)
  unfolding read_strs
  read_strs-law [] rest fits = refl
  read_strs-law (s ∷ ss) rest (fits, later) =
      rw (rmp_read_str-law rmp s (strs_bytes ss rest) fits.0 fits.1, read_strs-law ss rest later)
        refl

  read_tail-law :
      (c : ProofContent)
      → Fits c
      → read_tail c.action c.target c.target_data (
          rmp.write_u64 c.expires
          ++ (rmp.write_bin c.ephemeral ++ (rmp.write_bin c.data_bytes ++ [])))
        ≡ ok (c, [])
  read_tail-law c fits =
      rw
        (
          rmp.u64-law c.expires (rmp.write_bin c.ephemeral ++ (rmp.write_bin c.data_bytes ++ []))
              fits.expires,
          rmp_read_bin-law rmp c.ephemeral (rmp.write_bin c.data_bytes ++ []) fits.ephemeral,
          rmp_read_bin-law rmp c.data_bytes [] fits.data_bytes,
        )
        refl

  read_fields-law :
      (c : ProofContent) (tail : List ℕ) (n : ℕ)
      → Fits c
      → n ≡ length c.target_data
      → read_tail c.action c.target c.target_data tail ≡ ok (c, [])
      → read_fields (
          rmp.write_str (name c.action)
          ++ (rmp.write_str (target_name c.target)
              ++ (rmp.write_array_len n ++ strs_bytes c.target_data tail)))
        ≡ ok (c, [])
  read_fields-law c tail n fits e ends =
      let after_target = rmp.write_array_len n ++ strs_bytes c.target_data tail in
      rw
        (
          rmp_read_str-law rmp (name c.action)
              (rmp.write_str (target_name c.target) ++ after_target) (name-short c.action)
              fits.action_name,
          from_name-name c.action,
          rmp_read_str-law rmp (target_name c.target) after_target (target_name-short c.target)
              fits.name_of_target,
          target_from_name-name c.target,
          e,
          rmp.array_len-law (length c.target_data) (strs_bytes c.target_data tail) fits.few,
          read_strs-law c.target_data tail fits.target_data,
        )
        ends

  -- Where `rmp` reads back what it writes, a proof content that fits the format reads back from its
  -- bytes.
  pub deserialize-serialize : (c : ProofContent) → Fits c → deserialize (serialize c) ≡ ok c
  unfolding deserialize serialize read_content
  deserialize-serialize c fits =
      let tail =
        rmp.write_u64 c.expires
        ++ (rmp.write_bin c.ephemeral ++ (rmp.write_bin c.data_bytes ++ [])) in
      let n = length c.target_data % 2 ^ 32 in
      let fields =
        rmp.write_str (name c.action)
        ++ (rmp.write_str (target_name c.target)
            ++ (rmp.write_array_len n ++ strs_bytes c.target_data tail)) in
      let same : n ≡ length c.target_data = omega (arith, fits.few) in
      rw (rmp.array_len-law 6 fields (omega arith))
        (ap mapped (read_fields-law c tail n fits same (read_tail-law c fits)))
