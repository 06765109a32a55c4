-- ===== src/Cursor.antt =====
-- The unwrapped reads of tiauth/tiauth-core: `cursor_slice` of tiauth/tiauth-core/src/util.rs and
-- what it is used with, on the bytes that a cursor has left.
use mono_old.Common.{
  ℕ, ◌^◌, ◌<◌, ◌≡◌, refl, true, Option, none, some, List, ◌++◌, Outcome, returns, panics, ◌>>=◌,
  Result, ok, err, ltb, ltb-false, if◌then◌else◌, length, take, drop, arith, length-append,
  take-append, drop-append,
}
use mono_old.Rmp.{Rmp, RmpDeserError}

abbrev pub unwrap : {A : Type 0} → Result A RmpDeserError → Outcome A
unwrap (ok a) = returns a
unwrap (err e) = panics

abbrev pub unwrap_some : {A : Type 0} → Option A → Outcome A
unwrap_some (some a) = returns a
unwrap_some none = panics

unfoldable pub cursor_slice : ℕ → List ℕ → Outcome (List ℕ × List ℕ)
cursor_slice len bytes =
    if ltb (length bytes) len then panics else returns (take len bytes, drop len bytes)

cursor_slice-append : (b rest : List ℕ) → cursor_slice (length b) (b ++ rest) ≡ returns (b, rest)
unfolding cursor_slice
cursor_slice-append b rest =
    rw
      (
        ltb-false (length (b ++ rest)) (length b) (omega (arith, length-append b rest)),
        take-append b rest,
        drop-append b rest,
      )
      refl

module _ (rmp : Rmp) where
  -- A length, unwrapped, and the bytes of that length.
  unfoldable pub slice_bin : List ℕ → Outcome (List ℕ × List ℕ)
  unfolding cursor_slice
  slice_bin bytes = unwrap (rmp.read_bin_len bytes) >>= λ p. cursor_slice p.0 p.1

  abbrev as_str : List ℕ × List ℕ → Outcome (List ℕ × List ℕ)
  as_str (s, rest) = if rmp.is_utf8 s then returns (s, rest) else panics

  unfoldable pub slice_str : List ℕ → Outcome (List ℕ × List ℕ)
  unfolding cursor_slice
  slice_str bytes = unwrap (rmp.read_str_len bytes) >>= λ p. cursor_slice p.0 p.1 >>= as_str

  pub slice_bin-law :
      (b rest : List ℕ)
      → length b < 2 ^ 32
      → slice_bin (rmp.write_bin b ++ rest) ≡ returns (b, rest)
  unfolding slice_bin
  slice_bin-law b rest short = rw (rmp.bin-law b rest short) (cursor_slice-append b rest)

  pub slice_str-law :
      (s rest : List ℕ)
      → length s < 2 ^ 32
      → rmp.is_utf8 s ≡ true
      → slice_str (rmp.write_str s ++ rest) ≡ returns (s, rest)
  unfolding slice_str
  slice_str-law s rest short utf8 =
      rw (rmp.str-law s rest short, cursor_slice-append s rest, utf8) refl
