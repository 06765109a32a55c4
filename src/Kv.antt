-- ===== src/Kv.antt =====
-- The metadata of the key-value store, borink-core/borink-kv/src/lib.rs. A byte string is a list of
-- numbers below 256.
pub mod Meta
pub mod Prefix
use mono_old.Common.{
  ℕ, suc, ◌+◌, ◌*◌, ◌/◌, ◌%◌, ◌^◌, Bool, true, false, Option, none, some, List, [], ◌∷◌, ◌++◌,
  Outcome, returns, panics, Result, ok, err, ltb, if◌then◌else◌, length, take, drop,
}

abbrev pub bytes_or_empty : Option (List ℕ) → List ℕ
bytes_or_empty none = []
bytes_or_empty (some bytes) = bytes

-- `(search_bytes.len() as u16).to_le_bytes()` after the three bytes of the prefix.
pub join_prefix_with_meta : ℕ × ℕ × ℕ → List ℕ → Option (List ℕ) → Outcome (List ℕ)
join_prefix_with_meta prefix search_bytes meta_bytes =
    let n = length search_bytes % 2 ^ 16 in
    if ltb 65535 (length search_bytes)
    then panics
    else returns (
        prefix.0
        ∷ prefix.1
        ∷ prefix.2
        ∷ (n % 256)
        ∷ (n / 256)
        ∷ (search_bytes ++ bytes_or_empty meta_bytes))

pub record KvMetadata : Type 0 where
  pub prefix : ℕ × ℕ × ℕ
  pub search_bytes : List ℕ
  pub meta_bytes : List ℕ

pub data InvalidMetadata : Type 0 where
  too_short : InvalidMetadata
  not_search_length : InvalidMetadata

pub read_after : ℕ × ℕ × ℕ → ℕ → List ℕ → Result KvMetadata InvalidMetadata
read_after prefix search_length rest =
    if ltb (5 + length rest) (5 + search_length)
    then err not_search_length
    else ok (record {
      prefix = prefix;
      search_bytes = take search_length rest;
      meta_bytes = drop search_length rest;
    })

pub read_meta : List ℕ → Result KvMetadata InvalidMetadata
read_meta (a ∷ b ∷ c ∷ low ∷ high ∷ rest) = read_after (a, b, c) (low + high * 256) rest
read_meta meta = err too_short

-- The loop from the last byte to the first, and whether it ran through without a return.
pub increment : List ℕ → List ℕ × Bool
increment [] = ([], true)
increment (x ∷ xs) =
    let (result, overflow) = increment xs in
    if overflow
    then (if ltb x 255 then (suc x ∷ result, false) else (0 ∷ result, true))
    else (x ∷ result, false)

-- After the loop, `extended_result[0] = 1` is a write to an empty vector.
pub prefix_range : List ℕ → Outcome (List ℕ)
prefix_range start =
    let (result, overflow) = increment start in if overflow then panics else returns result
