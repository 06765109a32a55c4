-- ===== src/BitSet/Word/Laws.antt =====
-- Laws of `AtomicU64BitSet` of tiauth/tiauth-core/src/counter.rs, in terms of the bits of its word.
use Prim.Native.Nat.{bit_and, bit_or}
use mono_old.Bits.{
  test, test-zero, test-pow, lt-pow_of_test, bit_and-pow_positive, test-bit_or-pow, bit_or-pow-lt,
}
use mono_old.Common.{ℕ, ◌^◌, ◌≤◌, ◌<◌, ◌≡◌, ◌∙◌, ◌||◌, ◌==◌, panics, Returns, arith, ltb, ltb-false}
use mono_old.BitSet.Trait.{of_bits, num_exists}
use mono_old.BitSet.Trait.Tracking.{Tracks}
use mono_old.BitSet.Word.{shl_one, new, exists, create_up_to, u64_set}

shl_one-eq-pow : (n : ℕ) → n < 64 → shl_one n ≡ 2 ^ n
shl_one-eq-pow n h =
    let fits : 2 ^ n < 2 ^ 64 = lt-pow_of_test 64 (2 ^ n) (λ m le. rw test-pow (ground arith)) in
    omega arith

-- A call returns the old bit, sets it, and leaves the other bits and the width.
pub exists_lem :
    (w n : ℕ)
    → n < 64
    → w < 2 ^ 64
    → Returns
        (exists w n)
        λ r. (r.1 ≡ test w n) × (r.0 < 2 ^ 64) × ((m : ℕ) → test r.0 m ≡ n == m || test w m)
unfolding exists
exists_lem w n h fits = (
  (bit_or w (2 ^ n), ltb 0 (bit_and w (2 ^ n))),
  rw (shl_one-eq-pow n h) (ground arith),
  (
    bit_and-pow_positive w n,
    bit_or-pow-lt 64 w n fits h,
    λ m. test-bit_or-pow w n m ∙ ground arith,
  ),
)

pub exists-panics : (w n : ℕ) → 64 ≤ n → exists w n ≡ panics
unfolding exists
exists-panics w n h = ground arith

-- Below 64 the word is a record of the numbers that it was asked about.
pub u64-Tracks : Tracks (of_bits u64_set) new (λ n. n) (λ n. n < 64)
unfolding num_exists create_up_to
u64-Tracks = record {
  seen = test;
  IsValid = λ w. w < 2 ^ 64;
  new-IsValid = omega arith;
  seen-new = test-zero;
  records = λ w n fits h.
      let (r, call, rest) = exists_lem w n h fits in
      (r, rw (ltb-false 63 n (omega arith), call), rest);
}
