-- ===== src/RangeSet/Saved.antt =====
-- The bytes that a range set is saved as: `Range::serialize` and `deserialize`, `to_saved_bytes`
-- and `from_saved_bytes` of tiauth/tiauth-core/src/counter.rs. Every failed read is unwrapped.
pub mod Whole
use mono_old.Common.{
  ℕ, zero, suc, ◌%◌, ◌^◌, ◌<◌, ◌≡◌, refl, ◌∙◌, sym, ap, Bool, true, false, Option, none, some, List,
  [], ◌∷◌, ◌++◌, Outcome, returns, panics, Returns, Result, ok, err, ◌==◌, if◌then◌else◌, length,
  arith, ==_refl,
}
use mono_old.Rmp.{Rmp, RmpDeserError, Read, ◌>>=◌, pure, fail, rmp_read_bin, rmp_read_bin-law}
use mono_old.RangeSet.{Ranges}
use mono_old.RangeSet.Range.{Range, Expiry, at, unknown}

abbrev unwrap : {A : Type 0} → Result (A × List ℕ) RmpDeserError → Outcome A
unwrap (err e) = panics
unwrap (ok (a, rest)) = returns a

abbrev is_byte : List ℕ → ℕ → Bool
is_byte (x ∷ []) b = x == b
is_byte bytes b = false

module _ (rmp : Rmp) where
  abbrev members_bytes : Option (List ℕ) → List ℕ → List ℕ
  members_bytes (some members) rest = rmp.write_bin (244 ∷ []) ++ (rmp.write_bin members ++ rest)
  members_bytes none rest = rmp.write_bin (133 ∷ []) ++ rest

  abbrev expires_bytes : Expiry → List ℕ → List ℕ
  expires_bytes (at t) rest = rmp.write_bin (66 ∷ []) ++ (rmp.write_u64 t ++ rest)
  expires_bytes unknown rest = rmp.write_bin (55 ∷ []) ++ rest

  unfoldable pub serialize : Range → List ℕ
  serialize r =
      members_bytes r.members
        (rmp.write_u64 r.min ++ (rmp.write_u64 r.max ++ expires_bytes r.expires []))

  abbrev sized : ℕ → List ℕ → Read (Option (List ℕ))
  sized size members = if length members == size then pure (some members) else fail

  abbrev read_members : ℕ → List ℕ → Read (Option (List ℕ))
  read_members size members_byte =
      if is_byte members_byte 244
      then (rmp_read_bin rmp >>= sized size)
      else (if is_byte members_byte 133 then pure none else fail)

  abbrev read_expires : List ℕ → Read Expiry
  read_expires expires_byte =
      if is_byte expires_byte 66
      then (rmp.read_u64 >>= λ t. pure (at t))
      else (if is_byte expires_byte 55 then pure unknown else fail)

  -- What is read after the members.
  abbrev read_rest : Option (List ℕ) → Read Range
  read_rest members = do
    min ← rmp.read_u64
    max ← rmp.read_u64
    expires_byte ← rmp_read_bin rmp
    expires ← read_expires expires_byte
    pure (record { members = members; min = min; max = max; expires = expires })

  read_range : ℕ → Read Range
  read_range size = do
    members_byte ← rmp_read_bin rmp
    members ← read_members size members_byte
    read_rest members

  pub deserialize : ℕ → List ℕ → Outcome Range
  deserialize size bytes = unwrap (read_range size bytes)

  -- What the format can hold.
  abbrev pub MembersFit : ℕ → Option (List ℕ) → Type 0
  MembersFit size none = Unit
  MembersFit size (some members) = length members ≡ size

  abbrev pub ExpiresFits : Expiry → Type 0
  ExpiresFits unknown = Unit
  ExpiresFits (at t) = t < 2 ^ 64

  pub record Fits (size : ℕ) (r : Range) : Type 0 where
    pub members : MembersFit size r.members
    pub min : r.min < 2 ^ 64
    pub max : r.max < 2 ^ 64
    pub expires : ExpiresFits r.expires
    pub short : length (serialize r) < 2 ^ 32

  members-law :
      {B : Type 0} (size : ℕ) (o : Option (List ℕ)) (rest : List ℕ) (k : Option (List ℕ) → Read B)
      → size < 2 ^ 32
      → MembersFit size o
      → (rmp_read_bin rmp >>= λ b. read_members size b >>= k) (members_bytes o rest) ≡ k o rest
  members-law size none rest k narrow fits =
      rw (rmp_read_bin-law rmp (133 ∷ []) rest (omega arith)) refl
  members-law size (some members) rest k narrow fits =
      rw (rmp_read_bin-law rmp (244 ∷ []) (rmp.write_bin members ++ rest) (omega arith))
        (rw (rmp_read_bin-law rmp members rest (omega arith), fits, ==_refl size) refl)

  expires-law :
      {B : Type 0} (e : Expiry) (k : Expiry → Read B)
      → ExpiresFits e
      → (rmp_read_bin rmp >>= λ b. read_expires b >>= k) (expires_bytes e []) ≡ k e []
  expires-law unknown k fits = rw (rmp_read_bin-law rmp (55 ∷ []) [] (omega arith)) refl
  expires-law (at t) k fits =
      rw (rmp_read_bin-law rmp (66 ∷ []) (rmp.write_u64 t ++ []) (omega arith))
        (rw (rmp.u64-law t [] fits) refl)

  -- A range whose fields fit the format reads back from its bytes.
  pub deserialize-serialize :
      (size : ℕ) (r : Range)
      → size < 2 ^ 32
      → Fits size r
      → deserialize size (serialize r) ≡ returns r
  unfolding deserialize serialize read_range
  deserialize-serialize size r narrow fits =
      let bounds = rmp.write_u64 r.min ++ (rmp.write_u64 r.max ++ expires_bytes r.expires []) in
      let rest : read_rest r.members bounds ≡ ok (r, []) =
        rw
          (
            rmp.u64-law r.min (rmp.write_u64 r.max ++ expires_bytes r.expires []) fits.min,
            rmp.u64-law r.max (expires_bytes r.expires []) fits.max,
          )
          (expires-law r.expires
            (λ e. pure (record { members = r.members; min = r.min; max = r.max; expires = e }))
            fits.expires) in
      ap unwrap (members-law size r.members bounds read_rest narrow fits.members ∙ rest)
