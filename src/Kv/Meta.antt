-- ===== src/Kv/Meta.antt =====
-- Laws of `join_prefix_with_meta` and `read_meta` of borink-core/borink-kv/src/lib.rs.
use mono_old.Common.{
  ℕ, ◌+◌, ◌*◌, ◌/◌, ◌%◌, ◌^◌, ◌≤◌, ◌≡◌, refl, Option, List, ◌∷◌, ◌++◌, Returns, ok, arith,
  ltb-false, length, length-append, take-append, drop-append,
}
use mono_old.Kv.{bytes_or_empty, join_prefix_with_meta, read_after, read_meta}

read_after-append :
    (prefix : ℕ × ℕ × ℕ) (n : ℕ) (search meta : List ℕ)
    → n ≡ length search
    → read_after prefix n (search ++ meta)
      ≡ ok (record { prefix = prefix; search_bytes = search; meta_bytes = meta })
unfolding read_after
read_after-append prefix n search meta e =
    rw
      (
        e,
        ltb-false (5 + length (search ++ meta)) (5 + length search)
            (omega (arith, length-append search meta)),
        take-append search meta,
        drop-append search meta,
      )
      refl

-- For search bytes of at most 65535 bytes, joining returns, and reading the result gives the
-- prefix, the search bytes and the metadata bytes, where absent ones are empty.
pub read_meta-join :
    (prefix : ℕ × ℕ × ℕ) (search : List ℕ) (meta : Option (List ℕ))
    → length search ≤ 65535
    → Returns (join_prefix_with_meta prefix search meta) λ bytes.
      read_meta bytes
      ≡ ok (record { prefix = prefix; search_bytes = search; meta_bytes = bytes_or_empty meta })
unfolding join_prefix_with_meta read_meta
read_meta-join prefix search meta h =
    let n = length search % 2 ^ 16 in
    (
      prefix.0 ∷ prefix.1 ∷ prefix.2 ∷ (n % 256) ∷ (n / 256) ∷ (search ++ bytes_or_empty meta),
      rw (ltb-false 65535 (length search) h) refl,
      read_after-append prefix (n % 256 + n / 256 * 256) search (bytes_or_empty meta) (omega arith),
    )
