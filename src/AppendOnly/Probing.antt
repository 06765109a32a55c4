-- ===== src/AppendOnly/Probing.antt =====
-- Triangular numbers, by which `search` moves from slot to slot.
use mono_old.Common.{ℕ, zero, suc, ◌+◌, ◌-◌, ◌*◌, ◌^◌, ◌%◌, ◌<◌, ◌≡◌, ap, ◌⊎◌, inl, inr, arith}
use native.Mathlib.Nat.{pow-suc, mod-add-mod, mul-add-mod_self_left, mod-eq_of_lt}

unfoldable pub triangle : ℕ → ℕ
triangle zero = 0
triangle (suc n) = triangle n + suc n

triangle-step : (m n : ℕ) → m ≡ n + 1 → triangle m ≡ triangle n + n + 1
unfolding triangle
triangle-step zero n e = absurd (omega arith)
triangle-step (suc m) n e = let p : m ≡ n = omega arith in rw p (omega arith)

-- The number and its mirror image below 2 * (i + c + 1) differ by an odd multiple of i + c + 1.
triangle-mirror : (i c : ℕ) → triangle (i + (2 * c + 1)) ≡ triangle i + (2 * c + 1) * (i + c + 1)
triangle-mirror i zero = omega (arith, triangle-step (i + 1) i)
triangle-mirror i (suc c) =
    let a : triangle (i + (2 * c + 2)) ≡ triangle (i + (2 * c + 1)) + (i + (2 * c + 1)) + 1 =
      triangle-step (i + (2 * c + 2)) (i + (2 * c + 1)) (omega arith) in
    let b : triangle (i + (2 * c + 3)) ≡ triangle (i + (2 * c + 2)) + (i + (2 * c + 2)) + 1 =
      triangle-step (i + (2 * c + 3)) (i + (2 * c + 2)) (omega arith) in
    let e : (2 * suc c + 1) * (i + suc c + 1) ≡ (2 * c + 1) * (i + c + 1) + (2 * i + 4 * c + 5) =
      grind arith in
    let f : i + (2 * suc c + 1) ≡ i + (2 * c + 3) = omega arith in
    rw f (omega (arith, triangle-mirror i c))

-- `a` and `b` are the same modulo `m`.
abbrev Same : ℕ → ℕ → ℕ → Type 0
Same m a b = (q r : ℕ) × (a + m * q ≡ b + m * r)

half_cases : (n : ℕ) → ((h : ℕ) × (n ≡ 2 * h)) ⊎ ((h : ℕ) × (n ≡ 2 * h + 1))
half_cases zero = inl (0, omega arith)
half_cases (suc n) = elim (half_cases n) [
  | inl (h, e) ↦ inr (h, omega arith)
  | inr (h, e) ↦ inl (h + 1, omega arith)
]

-- The mirror image of `i` below twice `p`.
mirror : (p i : ℕ) → i < p → triangle (2 * p - 1 - i) ≡ triangle i + p * (2 * (p - 1 - i) + 1)
mirror p i h =
    let c : ℕ = p - 1 - i in
    let e : 2 * p - 1 - i ≡ i + (2 * c + 1) = omega arith in
    let f : i + c + 1 ≡ p = omega arith in
    let g : (2 * c + 1) * (i + c + 1) ≡ p * (2 * c + 1) = rw f (grind arith) in
    rw e (omega (arith, triangle-mirror i c, g))

even_times : (p a : ℕ) → 2 * p * a ≡ p * (2 * a)
even_times p a = grind arith

odd_times : (p a : ℕ) → p * (2 * a + 1) ≡ 2 * p * a + p
odd_times p a = grind arith

two_times : (p a b : ℕ) → p * (a + b) ≡ p * a + p * b
two_times p a b = grind arith

three_times : (p a b : ℕ) → p * (a + b + 1) ≡ p * a + p * b + p
three_times p a b = grind arith

refine_at :
    (p t i q r : ℕ)
    → i < p
    → triangle i + p * q ≡ t + p * r
    → ((a : ℕ) × (q ≡ 2 * a)) ⊎ ((a : ℕ) × (q ≡ 2 * a + 1))
    → ((b : ℕ) × (r ≡ 2 * b)) ⊎ ((b : ℕ) × (r ≡ 2 * b + 1))
    → (j : ℕ) × (j < 2 * p) × Same (2 * p) (triangle j) t
refine_at p t i q r h e (inl (a, u)) (inl (b, v)) =
    (i, omega arith, (a, b, rw (even_times p a, even_times p b, ← u, ← v) e))
refine_at p t i q r h e (inr (a, u)) (inr (b, v)) = (
  i,
  omega arith,
  (
    a,
    b,
    omega (arith, odd_times p a, odd_times p b, ap (λ (n : ℕ). p * n) u, ap (λ (n : ℕ). p * n) v),
  ),
)
refine_at p t i q r h e (inl (a, u)) (inr (b, v)) =
    let d : ℕ = p - 1 - i in
    (
      2 * p - 1 - i,
      omega arith,
      (
        a,
        b + d + 1,
        omega (
          arith,
          mirror p i h,
          odd_times p d,
          odd_times p b,
          even_times p a,
          ap (λ (n : ℕ). p * n) u,
          ap (λ (n : ℕ). p * n) v,
          three_times (2 * p) b d,
        ),
      ),
    )
refine_at p t i q r h e (inr (a, u)) (inl (b, v)) =
    let d : ℕ = p - 1 - i in
    (
      2 * p - 1 - i,
      omega arith,
      (
        a,
        b + d,
        omega (
          arith,
          mirror p i h,
          odd_times p d,
          odd_times p a,
          even_times p b,
          ap (λ (n : ℕ). p * n) u,
          ap (λ (n : ℕ). p * n) v,
          two_times (2 * p) b d,
        ),
      ),
    )

-- What meets a remainder modulo `p`, or else its mirror image, meets it modulo twice `p`.
refine :
    (p t i : ℕ)
    → i < p
    → Same p (triangle i) t
    → (j : ℕ) × (j < 2 * p) × Same (2 * p) (triangle j) t
refine p t i h (q, r, e) = refine_at p t i q r h e (half_cases q) (half_cases r)

-- Below a power of two, the triangular numbers meet every remainder.
triangle-hits : (k t : ℕ) → (i : ℕ) × (i < 2 ^ k) × Same (2 ^ k) (triangle i) t
triangle-hits zero t = (0, omega arith, (t, 0, unfold triangle in omega arith))
triangle-hits (suc k) t =
    let (i, h, same) = triangle-hits k t in
    let e : 2 ^ suc k ≡ 2 * 2 ^ k = omega (arith, pow-suc 2 k) in rw e (refine (2 ^ k) t i h same)

mod_eq : (c a j q r : ℕ) → j < c → a + c * q ≡ j + c * r → a % c ≡ j
mod_eq c a j q r h e =
    let f : c * q + a ≡ c * r + j = omega (arith, e) in
    let g : (c * q + a) % c ≡ (c * r + j) % c = ap (λ n. n % c) f in
    let u : (c * q + a) % c ≡ a % c = mul-add-mod_self_left c q a in
    let v : (c * r + j) % c ≡ j % c = mul-add-mod_self_left c r j in
    omega (arith, g, u, v, mod-eq_of_lt h)

pub probe-hits :
    (k hash j : ℕ) → j < 2 ^ k → (i : ℕ) × (i < 2 ^ k) × ((hash + triangle i) % 2 ^ k ≡ j)
probe-hits k hash j h =
    let r : ℕ = hash % 2 ^ k in
    let bound : r < 2 ^ k = grind arith in
    let (i, below, (a, b, e)) = triangle-hits k (j + 2 ^ k - r) in
    let m : r + triangle i + 2 ^ k * a ≡ j + 2 ^ k * (b + 1) =
      omega (arith, e, two_times (2 ^ k) b 1) in
    (
      i,
      below,
      rw (← mod-add-mod hash (2 ^ k) (triangle i))
          (mod_eq (2 ^ k) (r + triangle i) j a (b + 1) h m),
    )
