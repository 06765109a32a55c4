-- ===== src/Bits.antt =====
-- Single bits of a machine word: what `1 << n`, `&` and `|` do, for words of any width.
use Prim.Native.Nat.{bit_and, bit_or, digits, bit_and-bitwise, bit_or-bitwise, max}
use native.Mathlib.Nat.{pow-suc, pow-zero}
use mono_old.Common.{
  ℕ, zero, suc, ◌+◌, ◌*◌, ◌/◌, ◌%◌, ◌^◌, ◌≤◌, ◌<◌, min, ◌≡◌, refl, ◌∙◌, Bool, true, false, ◌||◌,
  ◌&&◌, arith, ◌==◌, ltb, Bool-cases, inl, inr, ==_iff, lt→ltb, sym,
}

-- Bit `n` of a word, counted from the lowest.
pub test : ℕ → ℕ → Bool
test w zero = w % 2 == 1
test w (suc n) = test (w / 2) n

pub test-zero : (n : ℕ) → test 0 n ≡ false
unfolding test
test-zero zero = refl
test-zero (suc n) = test-zero n

-- The native operations stand for a recursion on digits with fuel.
test-digits_or : (k a b n : ℕ) → a ≤ k → test (digits (λ y. y) max k a b) n ≡ test a n || test b n
unfolding test
test-digits_or zero zero b n h = rw test-zero refl
test-digits_or zero (suc a) b n h = elim h [ ]
test-digits_or (suc k) zero b n h = rw test-zero refl
test-digits_or (suc k) (suc a) b zero h = ground arith
test-digits_or (suc k) (suc a) b (suc n) h =
    let d = digits (λ y. y) max k (suc a / 2) (b / 2) in
    let e : (d * 2 + max (suc a % 2) (b % 2)) / 2 ≡ d = ground arith in
    rw e (test-digits_or k (suc a / 2) (b / 2) n (omega arith))

test-digits_and : (k a b n : ℕ) → a ≤ k → test (digits (λ y. 0) min k a b) n ≡ test a n && test b n
unfolding test
test-digits_and zero zero b n h = rw test-zero refl
test-digits_and zero (suc a) b n h = elim h [ ]
test-digits_and (suc k) zero b n h = rw test-zero refl
test-digits_and (suc k) (suc a) b zero h = ground arith
test-digits_and (suc k) (suc a) b (suc n) h =
    let d = digits (λ y. 0) min k (suc a / 2) (b / 2) in
    let e : (d * 2 + min (suc a % 2) (b % 2)) / 2 ≡ d = ground arith in
    rw e (test-digits_and k (suc a / 2) (b / 2) n (omega arith))

pub test-bit_or : (a b n : ℕ) → test (bit_or a b) n ≡ test a n || test b n
test-bit_or a b n = simp bit_or-bitwise (test-digits_or a a b n (omega arith))

pub test-bit_and : (a b n : ℕ) → test (bit_and a b) n ≡ test a n && test b n
test-bit_and a b n = simp bit_and-bitwise (test-digits_and a a b n (omega arith))

-- `1 << m` has the one bit `m`.
pub test-pow : (m n : ℕ) → test (2 ^ m) n ≡ m == n
unfolding test
test-pow zero zero = refl
test-pow zero (suc n) = rw (test-zero n) (ground arith)
test-pow (suc m) zero = rw pow-suc (ground arith)
test-pow (suc m) (suc n) =
    let e : 2 ^ suc m / 2 ≡ 2 ^ m = rw pow-suc (omega arith) in rw e (test-pow m n ∙ ground arith)

-- A word with no bit from `k` up is below `2 ^ k`, and the other way round.
zero_of_test : (k w : ℕ) → w ≤ k → ((n : ℕ) → test w n ≡ false) → w ≡ 0
unfolding test
zero_of_test zero w h none = omega arith
zero_of_test (suc k) w h none =
    let half : w / 2 ≡ 0 = zero_of_test k (w / 2) (omega arith) (λ n. none (suc n)) in
    ground (arith, none 0)

pub lt-pow_of_test : (k w : ℕ) → ((n : ℕ) → k ≤ n → test w n ≡ false) → w < 2 ^ k
unfolding test
lt-pow_of_test zero w none =
    rw pow-zero (omega (arith, zero_of_test w w (omega arith) (λ n. none n (omega arith))))
lt-pow_of_test (suc k) w none =
    rw pow-suc (omega (arith, lt-pow_of_test k (w / 2) (λ n h. none (suc n) (omega arith))))

pub test_of_lt-pow : (k w n : ℕ) → w < 2 ^ k → k ≤ n → test w n ≡ false
unfolding test
test_of_lt-pow zero w n h le =
    let h' : w < 1 = rw pow-zero at h in let e : w ≡ 0 = omega arith in rw e (test-zero n)
test_of_lt-pow (suc k) w zero h le = elim le [ ]
test_of_lt-pow (suc k) w (suc n) h le =
    let h' : w < 2 ^ k * 2 = rw pow-suc at h in
    test_of_lt-pow k (w / 2) n (omega arith) (omega arith)

positive_of_test : (v n : ℕ) → test v n ≡ true → 0 < v
positive_of_test zero n h = ground (arith, test-zero n)
positive_of_test (suc v) n h = omega arith

test-bit_and-pow : (w n m : ℕ) → test w n ≡ false → test (bit_and w (2 ^ n)) m ≡ false
test-bit_and-pow w n m h =
    rw (test-bit_and, test-pow)
      (elim (Bool-cases (n == m)) [
        | inl same ↦ let e : m ≡ n = sym ((==_iff n m).0 same) in rw (e, h) refl
        | inr other ↦ rw other (ground arith)
      ])

-- `(w & (1 << n)) > 0` reads bit `n`.
pub bit_and-pow_positive : (w n : ℕ) → ltb 0 (bit_and w (2 ^ n)) ≡ test w n
bit_and-pow_positive w n = elim (Bool-cases (test w n)) [
  | inl on ↦
      let both : test (bit_and w (2 ^ n)) n ≡ true =
        test-bit_and w (2 ^ n) n ∙ (rw (on, test-pow) (ground arith)) in
      rw on (lt→ltb _ _ (positive_of_test (bit_and w (2 ^ n)) n both))
  | inr off ↦
      let e : bit_and w (2 ^ n) ≡ 0 =
        let v = bit_and w (2 ^ n) in
        zero_of_test v v (omega arith) (λ m. test-bit_and-pow w n m off) in
      rw (off, e) refl
]

-- `w | (1 << n)` sets bit `n` and no other.
pub test-bit_or-pow : (w m n : ℕ) → test (bit_or w (2 ^ m)) n ≡ test w n || m == n
test-bit_or-pow w m n = rw (test-bit_or, test-pow) refl

-- It stays a word.
pub bit_or-pow-lt : (k w m : ℕ) → w < 2 ^ k → m < k → bit_or w (2 ^ m) < 2 ^ k
bit_or-pow-lt k w m h lt =
    lt-pow_of_test k _ λ n le. rw (test-bit_or-pow, test_of_lt-pow k w n h le) (ground arith)
