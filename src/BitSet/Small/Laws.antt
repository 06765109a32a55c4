-- ===== src/BitSet/Small/Laws.antt =====
-- Laws of `AtomicSmallBitSet` of tiauth/tiauth-core/src/counter.rs, in terms of the bit `m` of each
-- atom `m`.
use mono_old.Bits.{test, test-zero}
use mono_old.Common.{
  ap, subst, Option-cases, ℕ, zero, suc, ◌-◌, ◌*◌, ◌/◌, ◌%◌, ◌^◌, ◌<◌, ◌≡◌, refl, ◌∙◌, sym, Bool,
  false, ◌||◌, Option, none, some, List, [], ◌∷◌, Returns, arith, ◌==◌, ltb, if◌then◌else◌,
  ltb-false, Bool-cases, inl, inr, ==_iff, ==_refl, length, get_elem?, get_elem?-lt, get_elem?-set,
  length-set, set, get_elem?-replicate,
}
use mono_old.BitSet.Trait.{of_bits, num_exists}
use mono_old.BitSet.Trait.Tracking.{Tracks}
use mono_old.BitSet.Word.Laws.{exists_lem}
use mono_old.BitSet.Small.{
  small_size, new, max_n, create_up_to, exists_at, exists, small_set, reset,
}

-- Bit `m` of atom `m`.
abbrev bit_of : ℕ → Option ℕ → Bool
bit_of m none = false
bit_of m (some w) = test w m

pub diagonal : List ℕ → ℕ → Bool
diagonal atoms m = bit_of m (get_elem? atoms m)

pub record IsArray (atoms : List ℕ) : Type 0 where
  pub size : length atoms ≡ small_size
  pub words : (i w : ℕ) → get_elem? atoms i ≡ some w → w < 2 ^ 64

get_elem?-new : (i : ℕ) → get_elem? new i ≡ (if ltb i 32 then some 0 else none)
get_elem?-new i = get_elem?-replicate 32 0 i

pub new-IsArray : IsArray new
new-IsArray = record { size = refl; words = λ i w h. ground (arith, get_elem?-new i) }

pub diagonal-new : (m : ℕ) → diagonal new m ≡ false
unfolding diagonal
diagonal-new m = ground (arith, get_elem?-new m, test-zero m)

set-IsArray :
    (atoms : List ℕ) (i w : ℕ)
    → i < length atoms
    → w < 2 ^ 64
    → IsArray atoms
    → IsArray (set atoms i w)
set-IsArray atoms i w h fits valid = record {
  size = length-set atoms i w ∙ valid.size;
  words = λ j v e. ground (arith, get_elem?-set atoms i w j h, valid.words j v);
}

diagonal-set :
    (atoms : List ℕ) (i old w : ℕ)
    → get_elem? atoms i ≡ some old
    → i < length atoms
    → ((m : ℕ) → test w m ≡ i == m || test old m)
    → (m : ℕ) → diagonal (set atoms i w) m ≡ i == m || diagonal atoms m
unfolding diagonal
diagonal-set atoms i old w at h sets m = elim (Bool-cases (i == m)) [
  | inl same ↦
      let e : m ≡ i = sym ((==_iff i m).0 same) in
      rw (e, get_elem?-set atoms i w i h, ==_refl i, sets i) (ground arith)
  | inr other ↦ rw (get_elem?-set atoms i w m h, other) refl
]

-- One atom is asked for its own index.
pub exists_at-diagonal :
    (atoms : List ℕ) (i : ℕ)
    → IsArray atoms
    → i < 32
    → Returns (exists_at atoms i (get_elem? atoms i)) λ r.
      (r.1 ≡ diagonal atoms i)
      × IsArray r.0
      × ((m : ℕ) → diagonal r.0 m ≡ i == m || diagonal atoms m)
unfolding exists_at diagonal
exists_at-diagonal atoms i valid h =
    let inside : i < length atoms = omega (arith, valid.size) in
    let (w, at) = get_elem?-lt atoms i inside in
    let (r, call, (answer, fits, sets)) = exists_lem w i (omega arith) (valid.words i w at) in
    (
      (set atoms i r.0, r.1),
      rw (at, call) refl,
      (
        rw at answer,
        set-IsArray atoms i r.0 inside fits valid,
        diagonal-set atoms i w r.0 at inside sets,
      ),
    )

-- The call in the words of its residue.
pub num_exists-residue :
    (atoms : List ℕ) (n : ℕ)
    → n < 2048
    → num_exists small_set atoms n 0 none ≡ exists_at atoms (n % 64) (get_elem? atoms (n % 64))
unfolding num_exists create_up_to exists
num_exists-residue atoms n h =
    let index : n - n / 64 * 64 ≡ n % 64 = omega arith in
    rw (ltb-false max_n n (omega arith), index) refl

-- A call at a residue below 32 returns the bit of the residue, and sets it.
pub num_exists-diagonal :
    (atoms : List ℕ) (n : ℕ)
    → IsArray atoms
    → n < 2048
    → n % 64 < 32
    → Returns (num_exists small_set atoms n 0 none) λ r.
      (r.1 ≡ diagonal atoms (n % 64))
      × IsArray r.0
      × ((m : ℕ) → diagonal r.0 m ≡ (n % 64) == m || diagonal atoms m)
num_exists-diagonal atoms n valid h low =
    rw (num_exists-residue atoms n h) (exists_at-diagonal atoms (n % 64) valid low)

-- The small set tells apart only residues modulo 64.
pub small-Tracks : Tracks (of_bits small_set) new (λ n. n % 64) (λ n. (n < 2048) × (n % 64 < 32))
small-Tracks = record {
  seen = diagonal;
  IsValid = IsArray;
  new-IsValid = new-IsArray;
  seen-new = diagonal-new;
  records = λ atoms n valid h. num_exists-diagonal atoms n valid h.0 h.1;
}

length-cleared : (atoms : List ℕ) → length (reset atoms) ≡ length atoms
unfolding reset
length-cleared [] = refl
length-cleared (a ∷ atoms) = ap suc (length-cleared atoms)

get_elem?-cleared : (atoms : List ℕ) (i w : ℕ) → get_elem? (reset atoms) i ≡ some w → w ≡ 0
unfolding reset
get_elem?-cleared [] i w e = cc e
get_elem?-cleared (a ∷ atoms) zero w e = cc e
get_elem?-cleared (a ∷ atoms) (suc i) w e = get_elem?-cleared atoms i w e

pub reset-IsArray : (atoms : List ℕ) → IsArray atoms → IsArray (reset atoms)
reset-IsArray atoms valid = record {
  size = length-cleared atoms ∙ valid.size;
  words = λ i w e. ground (arith, get_elem?-cleared atoms i w e);
}

pub diagonal-reset : (atoms : List ℕ) (m : ℕ) → diagonal (reset atoms) m ≡ false
unfolding diagonal
diagonal-reset atoms m = elim (Option-cases (get_elem? (reset atoms) m)) [
  | inl absent ↦ rw absent refl
  | inr (w, present) ↦
      rw present
        (subst (λ x. test x m ≡ false) (sym (get_elem?-cleared atoms m w present)) (test-zero m))
]
