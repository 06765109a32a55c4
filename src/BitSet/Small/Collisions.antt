-- ===== src/BitSet/Small/Collisions.antt =====
-- The panics and the histories of `AtomicSmallBitSet` of tiauth/tiauth-core/src/counter.rs.
use mono_old.Common.{
  All, ℕ, ◌%◌, ◌≤◌, ◌<◌, ◌≡◌, refl, ◌∙◌, ◌⊎◌, inl, inr, ◌↔◌, true, false, none, List, [], ◌∷◌, map,
  returns, panics, ◌≢◌, arith, lt→ltb, get_elem?-ge,
}
use mono_old.BitSet.Trait.{of_bits, num_exists}
use native.Mathlib.Decide.{dec_lt}
use mono_old.BitSet.Trait.Tracking.{run, report, run-report}
use mono_old.BitSet.Small.{new, max_n, create_up_to, exists_at, small_set}
use mono_old.BitSet.Small.Laws.{IsArray, num_exists-residue, exists_at-diagonal, small-Tracks}

-- An array of 32 words is out of range from residue 32 up, and numbers past `max_n` are refused.
num_exists-panics_high :
    (atoms : List ℕ) (n : ℕ)
    → IsArray atoms
    → n < 2048
    → 32 ≤ n % 64
    → num_exists small_set atoms n 0 none ≡ panics
unfolding exists_at
num_exists-panics_high atoms n valid h high =
    rw (num_exists-residue atoms n h, get_elem?-ge atoms (n % 64) (omega (arith, valid.size))) refl

num_exists-panics_above :
    (atoms : List ℕ) (n : ℕ) → 2048 ≤ n → num_exists small_set atoms n 0 none ≡ panics
unfolding num_exists create_up_to
num_exists-panics_above atoms n h = rw (lt→ltb max_n n (omega arith)) refl

-- On a well-formed set `num_exists` panics exactly at the numbers past 2047 and at those whose
-- remainder modulo 64 is 32 or more.
pub num_exists-panics :
    (atoms : List ℕ) (n : ℕ)
    → IsArray atoms
    → (num_exists small_set atoms n 0 none ≡ panics) ↔ ((2048 ≤ n) ⊎ (32 ≤ n % 64))
num_exists-panics atoms n valid = (panic_cause, panic)
  where
    panic_cause : num_exists small_set atoms n 0 none ≡ panics → (2048 ≤ n) ⊎ (32 ≤ n % 64)
    panic_cause e = elim (dec_lt n 2048) [
      | no h ↦ inl (omega arith)
      | yes h ↦ elim (dec_lt (n % 64) 32) [
        | no high ↦ inr (omega arith)
        | yes low ↦
            let (r, call, rest) = exists_at-diagonal atoms (n % 64) valid low in
            cc (num_exists-residue atoms n h, call, e)
      ]
    ]

    panic : (2048 ≤ n) ⊎ (32 ≤ n % 64) → num_exists small_set atoms n 0 none ≡ panics
    panic (inl h) = num_exists-panics_above atoms n h
    panic (inr high) = elim (dec_lt n 2048) [
      | no h ↦ num_exists-panics_above atoms n (omega arith)
      | yes h ↦ num_exists-panics_high atoms n valid h high
    ]

-- From the new set on, the answers to numbers that do not panic are right for the remainders
-- modulo 64, and not for the numbers themselves.
pub run-residues :
    (ns : List ℕ)
    → All (λ n. (n < 2048) × (n % 64 < 32)) ns
    → run (of_bits small_set) new ns ≡ returns (report [] (map (λ n. n % 64) ns))
run-residues ns allowed = run-report small-Tracks ns allowed

-- Two different numbers with one remainder modulo 64 below 32: the second is reported as seen
-- when it is asked about for the first time.
pub run-collides :
    (m n : ℕ)
    → m < 2048
    → n < 2048
    → m ≢ n
    → m % 64 ≡ n % 64
    → n % 64 < 32
    → run (of_bits small_set) new (m ∷ n ∷ []) ≡ returns (false ∷ true ∷ [])
unfolding report
run-collides m n hm hn ne same low =
    run-residues (m ∷ n ∷ []) ((hm, omega arith), ((hn, low), tt)) ∙ ground arith
