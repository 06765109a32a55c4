-- ===== src/Kv/Prefix.antt =====
-- Laws of `prefix_range` of borink-core/borink-kv/src/lib.rs, over the order of byte strings.
use mono_old.Common.{
  ℕ, suc, ◌≤◌, ◌≡◌, refl, Bool, true, false, not, ◌&&◌, ◌||◌, ◌↔◌, List, [], ◌∷◌, panics, Returns,
  arith, ◌==◌, ltb, if◌then◌else◌, length, All, subst, Bool-cases, inl, inr,
}
use mono_old.Kv.{increment, prefix_range}

-- The order of byte strings in which the store compares metadata.
unfoldable pub precedes : List ℕ → List ℕ → Bool
precedes xs [] = false
precedes [] (y ∷ ys) = true
precedes (x ∷ xs) (y ∷ ys) = ltb x y || (x == y && precedes xs ys)

unfoldable pub starts_with : List ℕ → List ℕ → Bool
starts_with [] key = true
starts_with (x ∷ xs) [] = false
starts_with (x ∷ xs) (k ∷ ks) = k == x && starts_with xs ks

abbrev pub AreBytes : List ℕ → Type 0
AreBytes = All (λ b. b ≤ 255)

-- The step of the loop at one byte.
abbrev over_first : ℕ → List ℕ → Bool → List ℕ × Bool
over_first x result overflow =
    if overflow
    then (if ltb x 255 then (suc x ∷ result, false) else (0 ∷ result, true))
    else (x ∷ result, false)

lowest_first :
    (x k : ℕ) (result ks : List ℕ)
    → (over_first x result true).1 ≡ true
    → precedes ks result ≡ false
    → precedes (k ∷ ks) (over_first x result true).0 ≡ false
unfolding precedes
lowest_first x k result ks h low = ground arith

last_byte :
    (x k : ℕ) (result xs ks : List ℕ)
    → (over_first x result true).1 ≡ false
    → precedes ks result ≡ false
    → not (precedes ks xs) ≡ starts_with xs ks
    → not (precedes (k ∷ ks) (x ∷ xs)) && precedes (k ∷ ks) (over_first x result true).0
      ≡ starts_with (x ∷ xs) (k ∷ ks)
unfolding precedes starts_with
last_byte x k result xs ks h low high = ground arith

-- After an overflow every byte is the lowest, and no key of that length comes before.
overflow-lowest :
    (xs key : List ℕ)
    → (increment xs).1 ≡ true
    → length xs ≤ length key
    → precedes key (increment xs).0 ≡ false
unfolding increment precedes
overflow-lowest [] key h long = refl
overflow-lowest (x ∷ xs) [] h long = elim long [ ]
overflow-lowest (x ∷ xs) (k ∷ ks) h long = elim (Bool-cases (increment xs).1) [
  | inl over ↦ rw over (
      lowest_first x k (increment xs).0 ks
        (subst (λ b. (over_first x (increment xs).0 b).1 ≡ true) over h)
        (overflow-lowest xs ks over (omega arith)))
  | inr stopped ↦ cc (subst (λ b. (over_first x (increment xs).0 b).1 ≡ true) stopped h)
]

-- Before an overflow every byte was the highest.
overflow-highest :
    (xs key : List ℕ)
    → (increment xs).1 ≡ true
    → AreBytes key
    → length xs ≤ length key
    → not (precedes key xs) ≡ starts_with xs key
unfolding increment precedes starts_with
overflow-highest [] key h bytes long = refl
overflow-highest (x ∷ xs) [] h bytes long = elim long [ ]
overflow-highest (x ∷ xs) (k ∷ ks) h (byte, bytes) long = elim (Bool-cases (increment xs).1) [
  | inl over ↦
      let h' = subst (λ b. (over_first x (increment xs).0 b).1 ≡ true) over h in
      ground (arith, overflow-highest xs ks over bytes (omega arith))
  | inr stopped ↦ cc (subst (λ b. (over_first x (increment xs).0 b).1 ≡ true) stopped h)
]

range-exact :
    (start key : List ℕ)
    → AreBytes start
    → AreBytes key
    → (increment start).1 ≡ false
    → length start ≤ length key
    → not (precedes key start) && precedes key (increment start).0 ≡ starts_with start key
unfolding increment precedes starts_with
range-exact [] key bytes bytes' h long = cc h
range-exact (x ∷ xs) [] bytes bytes' h long = elim long [ ]
range-exact (x ∷ xs) (k ∷ ks) (byte, bytes) (byte', bytes') h long =
    elim (Bool-cases (increment xs).1) [
      | inl over ↦
          let h' = subst (λ b. (over_first x (increment xs).0 b).1 ≡ false) over h in
          rw over (
            last_byte x k (increment xs).0 xs ks h' (overflow-lowest xs ks over (omega arith))
              (overflow-highest xs ks over bytes' (omega arith)))
      | inr stopped ↦
          rw stopped (ground (arith, range-exact xs ks bytes bytes' stopped (omega arith)))
    ]

increment-All_255 :
    (start : List ℕ) → AreBytes start → ((increment start).1 ≡ true) ↔ All (λ b. b ≡ 255) start
unfolding increment
increment-All_255 [] bytes = (λ _. tt, λ _. refl)
increment-All_255 (x ∷ xs) (byte, bytes) = elim (Bool-cases (increment xs).1) [
  | inl over ↦ rw over (ground (arith, (increment-All_255 xs bytes).0 over))
  | inr stopped ↦ rw stopped (ground (arith, (increment-All_255 xs bytes).1))
]

-- `prefix_range` of a prefix that is not all 255 returns, and a key that is at least as long as the
-- prefix stands between the prefix and the result exactly when it starts with the prefix.
pub prefix_range-exact :
    (start key : List ℕ)
    → AreBytes start
    → AreBytes key
    → ¬ All (λ b. b ≡ 255) start
    → length start ≤ length key
    → Returns
        (prefix_range start)
        λ end. not (precedes key start) && precedes key end ≡ starts_with start key
unfolding prefix_range
prefix_range-exact start key bytes bytes' some_less long = elim (Bool-cases (increment start).1) [
  | inl over ↦ elim (some_less ((increment-All_255 start bytes).0 over)) [ ]
  | inr stopped ↦
      ((increment start).0, rw stopped refl, range-exact start key bytes bytes' stopped long)
]

-- `prefix_range` panics exactly when every byte of the prefix is 255, the empty prefix included.
pub prefix_range-panics :
    (start : List ℕ) → AreBytes start → (prefix_range start ≡ panics) ↔ All (λ b. b ≡ 255) start
unfolding prefix_range
prefix_range-panics start bytes = elim (Bool-cases (increment start).1) [
  | inl over ↦ rw over ((λ _. (increment-All_255 start bytes).0 over), λ _. refl)
  | inr stopped ↦
      rw stopped
        ((λ returned. cc returned), λ all. cc ((increment-All_255 start bytes).1 all, stopped))
]
