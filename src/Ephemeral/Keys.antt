-- ===== src/Ephemeral/Keys.antt =====
-- `EphemeralKey::compute` and `last` of tiauth/tiauth-core/src/proof.rs. The derivation of a key
-- from the secret and the number of passed intervals is a parameter.
use mono_old.Common.{
  ℕ, zero, suc, ◌+◌, ◌-◌, ◌*◌, ◌/◌, ◌%◌, ◌^◌, ◌≤◌, ◌<◌, ◌≡◌, refl, ◌∙◌, ap, List, [], ◌∷◌, ◌++◌,
  map, min, arith,
}
use native.Mathlib.Decide.{dec_lt}

-- `EPHEMERAL_INTERVAL`, six hours.
abbrev pub interval : ℕ
interval = 21600

-- Subtraction on 64 bits.
abbrev pub wrapping_sub : ℕ → ℕ → ℕ
wrapping_sub a b = (a + 2 ^ 64 - b) % 2 ^ 64

-- `(0..n).rev()`
unfoldable pub countdown : ℕ → List ℕ
countdown zero = []
countdown (suc n) = n ∷ countdown n

module _ {K : Type 0} (derive_key : ℕ → K) where
  unfoldable pub compute : ℕ → ℕ → K
  compute now ref_time = derive_key (wrapping_sub now ref_time / interval)

  unfoldable pub last : ℕ → ℕ → ℕ → List K
  last now ref_time amount_valid =
      let key_amount = min amount_valid (wrapping_sub now ref_time / interval + 1) in
      map (λ i. compute (wrapping_sub now (i * interval)) ref_time) (countdown key_amount)

Contains : {A : Type 0} → A → List A → Type 0
Contains {A} x xs = (pre : List A) × (post : List A) × (xs ≡ pre ++ (x ∷ post))

countdown-Contains : (n i : ℕ) → i < n → Contains i (countdown n)
unfolding countdown Contains
countdown-Contains zero i h = elim h [ ]
countdown-Contains (suc n) i h = elim (dec_lt i n) [
  | yes less ↦
      let (pre, post, e) = countdown-Contains n i less in (n ∷ pre, post, ap (λ xs. n ∷ xs) e)
  | no last_one ↦ let e : n ≡ i = omega arith in ([], countdown n, ap (λ x. x ∷ countdown n) e)
]

map-append : {A B : Type 0} (f : A → B) (xs ys : List A) → map f (xs ++ ys) ≡ map f xs ++ map f ys
map-append f [] ys = refl
map-append f (x ∷ xs) ys = ap (λ zs. f x ∷ zs) (map-append f xs ys)

map-Contains :
    {A B : Type 0} (f : A → B) (x : A) (xs : List A) → Contains x xs → Contains (f x) (map f xs)
unfolding Contains
map-Contains f x xs (pre, post, e) =
    (map f pre, map f post, ap (map f) e ∙ map-append f pre (x ∷ post))

intervals-back :
    (issued now ref_time i : ℕ)
    → ref_time ≤ issued
    → issued ≤ now
    → now < 2 ^ 64
    → i + (issued - ref_time) / interval ≡ (now - ref_time) / interval
    → wrapping_sub (wrapping_sub now (i * interval)) ref_time / interval
      ≡ wrapping_sub issued ref_time / interval
intervals-back issued now ref_time i low order fits e =
    let back : wrapping_sub now (i * interval) ≡ now - i * interval = omega arith in
    let passed : wrapping_sub (now - i * interval) ref_time ≡ now - i * interval - ref_time =
      omega arith in
    let passed' : wrapping_sub issued ref_time ≡ issued - ref_time = omega arith in
    rw (back, passed, passed') (omega arith)

-- A key that was computed at `issued`, no earlier than the reference time, is among the last keys
-- at `now`, when fewer intervals began in between than there are valid keys.
pub issued-among_last :
    {K : Type 0} (derive_key : ℕ → K) (issued now ref_time amount_valid : ℕ)
    → ref_time ≤ issued
    → issued ≤ now
    → now < 2 ^ 64
    → (now - ref_time) / interval < (issued - ref_time) / interval + amount_valid
    → (pre : List K) × (post : List K) × (last derive_key now ref_time amount_valid
        ≡ pre ++ (compute derive_key issued ref_time ∷ post))
unfolding last compute Contains
issued-among_last derive_key issued now ref_time amount_valid low order fits near =
    let i = (now - ref_time) / interval - (issued - ref_time) / interval in
    let passed : wrapping_sub now ref_time ≡ now - ref_time = omega arith in
    let key_amount = min amount_valid (wrapping_sub now ref_time / interval + 1) in
    let key_at = λ (j : ℕ). compute derive_key (wrapping_sub now (j * interval)) ref_time in
    let (pre, post, e) =
      map-Contains key_at i (countdown key_amount)
        (countdown-Contains key_amount i (omega (arith, passed))) in
    let same : key_at i ≡ compute derive_key issued ref_time =
      ap derive_key (intervals-back issued now ref_time i low order fits (omega arith)) in
    (pre, post, e ∙ ap (λ k. pre ++ (k ∷ post)) same)
