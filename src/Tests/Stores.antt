-- ===== src/Tests/Stores.antt =====
-- Runs of the metadata, the lazy values and the checkout machine.
use mono_old.Common.{
  ℕ, ◌+◌, ◌≡◌, refl, Bool, true, false, not, ◌&&◌, ◌↔◌, some, List, [], ◌∷◌, returns, panics,
  Returns, Result, ok, err, All, arith,
}
use mono_old.Kv.{join_prefix_with_meta, read_meta, prefix_range}
use mono_old.Kv.Meta.{read_meta-join}
use mono_old.Kv.Prefix.{precedes, starts_with, prefix_range-exact, prefix_range-panics}
use mono_old.Lazy.{from_bytes, inner, bytes, take, take_bytes}
use mono_old.Lazy.Laws.{Stands, as_bytes, operations-Stands}
use mono_old.Git.{single_loop}
use mono_old.Git.Laws.{direct, single_loop-direct}
use mono_old.Tests.Instances.{counting}

read_meta-join_example :
    Returns (join_prefix_with_meta (1, 2, 3) (7 ∷ 8 ∷ []) (some (9 ∷ []))) λ joined.
      read_meta joined
      ≡ ok (record { prefix = (1, 2, 3); search_bytes = 7 ∷ 8 ∷ []; meta_bytes = 9 ∷ [] })
read_meta-join_example = read_meta-join (1, 2, 3) (7 ∷ 8 ∷ []) (some (9 ∷ [])) (omega arith)

less_than_255 : ¬ All (λ (b : ℕ). b ≡ 255) (1 ∷ 255 ∷ [])
less_than_255 h = let bad : 1 ≡ 255 = h.0 in ground (arith, bad)

prefix_range-exact_example : Returns (prefix_range (1 ∷ 255 ∷ [])) λ end.
    not (precedes (1 ∷ 255 ∷ 4 ∷ []) (1 ∷ 255 ∷ [])) && precedes (1 ∷ 255 ∷ 4 ∷ []) end
    ≡ starts_with (1 ∷ 255 ∷ []) (1 ∷ 255 ∷ 4 ∷ [])
prefix_range-exact_example =
    prefix_range-exact (1 ∷ 255 ∷ []) (1 ∷ 255 ∷ 4 ∷ []) (omega arith, (omega arith, tt))
      (omega arith, (omega arith, (omega arith, tt))) less_than_255 (omega arith)

prefix_range-panics_example :
    (prefix_range (255 ∷ 255 ∷ []) ≡ panics) ↔ All (λ (b : ℕ). b ≡ 255) (255 ∷ 255 ∷ [])
prefix_range-panics_example = prefix_range-panics (255 ∷ 255 ∷ []) (omega arith, (omega arith, tt))

-- A deserializer of one number, and what it reads back.
abbrev read_one : List ℕ → Result ℕ Bool
read_one (x ∷ []) = ok x
read_one b = err false

abbrev write_one : ℕ → List ℕ
write_one x = x ∷ []

operations-Stands_example :
    (Returns
      (inner read_one write_one (from_bytes (5 ∷ [])))
      λ r. (r.1 ≡ 5) × Stands read_one write_one r.0 5)
    × (Returns
        (bytes read_one write_one (from_bytes (5 ∷ [])))
        λ r. (read_one r.1 ≡ ok 5) × Stands read_one write_one r.0 5)
    × (take read_one write_one (from_bytes (5 ∷ [])) ≡ returns 5)
    × (Returns (take_bytes read_one write_one (from_bytes (5 ∷ []))) λ b. read_one b ≡ ok 5)
operations-Stands_example =
    operations-Stands read_one write_one (from_bytes (5 ∷ [])) 5 (λ u. refl)
      (as_bytes (5 ∷ []) 5 refl)

single_loop-direct_example : single_loop counting (9 + 0) true false 5 ≡ direct counting true 5
single_loop-direct_example = single_loop-direct counting 0 true 5
