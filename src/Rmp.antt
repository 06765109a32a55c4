-- ===== src/Rmp.antt =====
-- MessagePack as tiauth/tiauth-core uses it: the crate `rmp`, a parameter, and the reads of
-- tiauth/tiauth-core/src/util.rs, on the bytes that a cursor has left.
use mono_old.Common.{
  ℕ, Bool, true, ◌^◌, ◌<◌, ◌≡◌, refl, List, ◌++◌, Result, ok, err, ltb, ltb-false, if◌then◌else◌,
  length, take, drop, arith, length-append, take-append, drop-append,
}

pub data RmpDeserError : Type 0 where
  expected_len : RmpDeserError
  not_enough_bytes : RmpDeserError
  utf8_error : RmpDeserError
  rmp_error : RmpDeserError

-- A read yields a value and the bytes after it.
abbrev pub Read : Type 0 → Type 0
Read A = List ℕ → Result (A × List ℕ) RmpDeserError

-- What is written reads back, whatever follows it.
pub record Rmp : Type 0 where
  pub write_array_len : ℕ → List ℕ
  pub read_array_len : Read ℕ
  pub write_u64 : ℕ → List ℕ
  pub read_u64 : Read ℕ
  pub write_bin : List ℕ → List ℕ
  pub read_bin_len : Read ℕ
  pub write_str : List ℕ → List ℕ
  pub read_str_len : Read ℕ
  -- `std::str::from_utf8` succeeds on these bytes.
  pub is_utf8 : List ℕ → Bool
  pub array_len-law :
      (n : ℕ) (rest : List ℕ)
      → n < 2 ^ 32
      → read_array_len (write_array_len n ++ rest) ≡ ok (n, rest)
  pub u64-law : (n : ℕ) (rest : List ℕ) → n < 2 ^ 64 → read_u64 (write_u64 n ++ rest) ≡ ok (n, rest)
  pub bin-law :
      (b rest : List ℕ)
      → length b < 2 ^ 32
      → read_bin_len (write_bin b ++ rest) ≡ ok (length b, b ++ rest)
  pub str-law :
      (s rest : List ℕ)
      → length s < 2 ^ 32
      → read_str_len (write_str s ++ rest) ≡ ok (length s, s ++ rest)

abbrev pub and_then :
    {A B : Type 0}
    → Result (A × List ℕ) RmpDeserError
    → (A → Read B)
    → Result (B × List ℕ) RmpDeserError
and_then (err e) f = err e
and_then (ok (a, rest)) f = f a rest

infixl 5 ◌>>=◌
abbrev pub ◌>>=◌ : {A B : Type 0} → Read A → (A → Read B) → Read B
(m >>= f) bytes = and_then (m bytes) f

abbrev pub pure : {A : Type 0} → A → Read A
pure a bytes = ok (a, bytes)

abbrev pub fail : {A : Type 0} → Read A
fail bytes = err rmp_error

-- The next `len` bytes, when there are as many.
unfoldable pub try_cursor_slice : ℕ → Read (List ℕ)
try_cursor_slice len bytes =
    if ltb (length bytes) len then err not_enough_bytes else ok (take len bytes, drop len bytes)

module _ (rmp : Rmp) where
  unfoldable pub rmp_read_bin : Read (List ℕ)
  rmp_read_bin = do len ← rmp.read_bin_len; try_cursor_slice len

  unfoldable pub rmp_read_str : Read (List ℕ)
  rmp_read_str = do
    len ← rmp.read_str_len
    str_bytes ← try_cursor_slice len
    if rmp.is_utf8 str_bytes then pure str_bytes else (λ rest. err utf8_error)

  slice-append : (b rest : List ℕ) → try_cursor_slice (length b) (b ++ rest) ≡ ok (b, rest)
  unfolding try_cursor_slice
  slice-append b rest =
      rw
        (
          ltb-false (length (b ++ rest)) (length b) (omega (arith, length-append b rest)),
          take-append b rest,
          drop-append b rest,
        )
        refl

  pub rmp_read_bin-law :
      (b rest : List ℕ) → length b < 2 ^ 32 → rmp_read_bin (rmp.write_bin b ++ rest) ≡ ok (b, rest)
  unfolding rmp_read_bin
  rmp_read_bin-law b rest h = rw (rmp.bin-law b rest h) (slice-append b rest)

  pub rmp_read_str-law :
      (s rest : List ℕ)
      → length s < 2 ^ 32
      → rmp.is_utf8 s ≡ true
      → rmp_read_str (rmp.write_str s ++ rest) ≡ ok (s, rest)
  unfolding rmp_read_str
  rmp_read_str-law s rest h utf8 = rw (rmp.str-law s rest h, slice-append s rest, utf8) refl
