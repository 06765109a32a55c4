-- ===== src/AppendOnly/Map/Powers.antt =====
-- `next_power_of_two`, which sizes a map.
use native.Mathlib.Nat.{pow-suc, pow-le-pow_right}
use mono_old.Common.{
  ℕ, zero, suc, ◌+◌, ◌*◌, ◌^◌, ◌≤◌, ◌<◌, ◌≡◌, refl, sym, ap, ◌∙◌, leb, leb→le, arith, Bool-cases,
  inl, inr, ◌⊎◌,
}
use mono_old.AppendOnly.Map.{next_power_of_two, power_from}
use mono_old.AppendOnly.Map.Search.{pow_pos}

le_or_lt : (a b : ℕ) → (a ≤ b) ⊎ (b < a)
le_or_lt a b = ground arith

-- With rounds enough, the doublings reach a power of two that is large enough, and the least.
power_from-fits :
    (rounds p n : ℕ)
    → n ≤ 2 ^ (p + rounds)
    → (q : ℕ) × (power_from rounds (2 ^ p) n ≡ 2 ^ q)
      × (n ≤ 2 ^ q)
      × (p ≤ q)
      × ((p ≡ q) ⊎ (2 ^ q < 2 * n))
unfolding power_from
power_from-fits zero p n h =
    let e : 2 ^ (p + 0) ≡ 2 ^ p = ap (λ m. 2 ^ m) (omega arith) in
    (p, refl, omega (arith, e), omega arith, inl refl)
power_from-fits (suc rounds) p n h =
    let double : 2 ^ suc p ≡ 2 * 2 ^ p = omega (arith, pow-suc 2 p) in
    let e : 2 ^ (p + suc rounds) ≡ 2 ^ (suc p + rounds) = ap (λ m. 2 ^ m) (omega arith) in
    elim (Bool-cases (leb n (2 ^ p))) [
      | inl enough ↦ (p, ground (arith, enough), leb→le n (2 ^ p) enough, omega arith, inl refl)
      | inr short ↦
          let (q, run, above, further, least) =
            power_from-fits rounds (suc p) n (omega (arith, e)) in
          let power : power_from rounds (2 * 2 ^ p) n ≡ 2 ^ q =
            ap (λ m. power_from rounds m n) (sym double) ∙ run in
          (
            q,
            ground (arith, short, power),
            above,
            omega arith,
            elim least [
              | inl here ↦
                  let f : 2 ^ suc p ≡ 2 ^ q = ap (λ m. 2 ^ m) here in
                  inr (ground (arith, f, double, short))
              | inr below ↦ inr below
            ],
          )
    ]

pow_reflects : (p q : ℕ) → 2 ^ p < 2 * 2 ^ q → p ≤ q
pow_reflects p q h = elim (le_or_lt p q) [
  | inl e ↦ e
  | inr e ↦
      absurd
        (omega (arith, pow-le-pow_right {n = 2} (omega arith) {i = suc q} {j = p} e, pow-suc 2 q))
]

-- The result is the least power of two that is not below the number.
pub next_power_of_two_lem :
    (n : ℕ)
    → n ≤ 2 ^ 63
    → (q : ℕ) × (next_power_of_two n ≡ 2 ^ q) × (n ≤ 2 ^ q) × ((0 ≡ q) ⊎ (2 ^ q < 2 * n))
unfolding next_power_of_two
next_power_of_two_lem n h =
    let (q, run, above, _, least) = power_from-fits 63 0 n h in (q, run, above, least)

next_power_of_two-pow : (q : ℕ) → 2 ^ q ≤ 2 ^ 63 → next_power_of_two (2 ^ q) ≡ 2 ^ q
next_power_of_two-pow q h =
    let (r, run, above, least) = next_power_of_two_lem (2 ^ q) h in
    let le : q ≤ r = pow_reflects q r (omega (arith, above, pow_pos r)) in
    let ge : r ≤ q = elim least [ inl e ↦ omega arith | inr e ↦ pow_reflects r q e ] in
    let same : r ≡ q = omega arith in run ∙ ap (λ m. 2 ^ m) same

-- The second doubling of `new` changes nothing.
pub next_power_of_two_twice :
    (n : ℕ) → n ≤ 2 ^ 63 → next_power_of_two (next_power_of_two n) ≡ next_power_of_two n
next_power_of_two_twice n h =
    let (q, power, above, least) = next_power_of_two_lem n h in
    let small : q ≤ 63 = elim least [
      | inl e ↦ omega arith
      | inr e ↦ pow_reflects q 63 (omega arith)
    ] in
    let bound : 2 ^ q ≤ 2 ^ 63 = pow-le-pow_right {n = 2} (omega arith) {i = q} {j = 63} small in
    ap next_power_of_two power ∙ next_power_of_two-pow q bound ∙ sym power
