-- ===== src/RangeSet/Saved/Whole.antt =====
-- `to_saved_bytes` and `from_saved_bytes` of a whole range set.
use mono_old.Common.{
  ℕ, zero, suc, ◌%◌, ◌^◌, ◌<◌, ◌≡◌, refl, List, [], ◌∷◌, ◌++◌, Outcome, returns, panics, ◌>>=◌,
  Result, ok, err, length, All, arith,
}
use mono_old.Rmp.{Rmp, rmp_read_bin, rmp_read_bin-law}
use mono_old.RangeSet.{Ranges}
use mono_old.RangeSet.Saved.{serialize, deserialize, Fits, deserialize-serialize}

module _ (rmp : Rmp) where
  abbrev pub ranges_bytes : Ranges → List ℕ
  ranges_bytes [] = []
  ranges_bytes (r ∷ rs) = rmp.write_bin (serialize rmp r) ++ ranges_bytes rs

  -- `ranges.len() as u32`
  pub to_saved_bytes : Ranges → List ℕ
  to_saved_bytes ranges = rmp.write_array_len (length ranges % 2 ^ 32) ++ ranges_bytes ranges

  abbrev unwrap {ℓ} : {A : Type ℓ} {E : Type 0} → Result A E → Outcome A
  unwrap (ok a) = returns a
  unwrap (err e) = panics

  pub read_ranges : ℕ → ℕ → List ℕ → Outcome Ranges
  read_ranges size zero bytes = returns []
  read_ranges size (suc n) bytes = unwrap (rmp_read_bin rmp bytes) >>= λ b.
      deserialize rmp size b.0 >>= λ r. read_ranges size n b.1 >>= λ rs. returns (r ∷ rs)

  pub from_saved_bytes : ℕ → List ℕ → Outcome Ranges
  from_saved_bytes size bytes =
      unwrap (rmp.read_array_len bytes) >>= λ len. read_ranges size len.0 len.1

  read_ranges-law :
      (size : ℕ) (ranges : Ranges)
      → size < 2 ^ 32
      → All (Fits rmp size) ranges
      → read_ranges size (length ranges) (ranges_bytes ranges) ≡ returns ranges
  unfolding read_ranges
  read_ranges-law size [] narrow fits = refl
  read_ranges-law size (r ∷ ranges) narrow (fits, rest) =
      rw
        (
          rmp_read_bin-law rmp (serialize rmp r) (ranges_bytes ranges) fits.short,
          deserialize-serialize rmp size r narrow fits,
          read_ranges-law size ranges narrow rest,
        )
        refl

  -- Where `rmp` reads back what it writes, fewer than 2^32 ranges, each of which fits the format,
  -- read back from the bytes that they are saved as.
  pub from_saved_bytes-to :
      (size : ℕ) (ranges : Ranges)
      → size < 2 ^ 32
      → length ranges < 2 ^ 32
      → All (Fits rmp size) ranges
      → from_saved_bytes size (to_saved_bytes ranges) ≡ returns ranges
  unfolding from_saved_bytes to_saved_bytes
  from_saved_bytes-to size ranges narrow few fits =
      let n : length ranges % 2 ^ 32 ≡ length ranges = omega arith in
      rw (n, rmp.array_len-law (length ranges) (ranges_bytes ranges) few)
        (read_ranges-law size ranges narrow fits)
