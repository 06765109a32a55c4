-- ===== src/RangeSet/Range/Slots.antt =====
-- Lists of distinct numbers up to a bound, for the slots of a range of
-- tiauth/tiauth-core/src/counter.rs.
use mono_old.Common.{
  ℕ, zero, suc, ◌≤◌, ◌≡◌, refl, Bool, true, false, not, ◌&&◌, ◌||◌, List, [], ◌∷◌, ◌++◌, arith,
  ◌==◌, if◌then◌else◌, Bool-cases, inl, inr, length, member,
}

unfoldable pub distinct : List ℕ → Bool
distinct [] = true
distinct (x ∷ xs) = not (member x xs) && distinct xs

abbrev pub IsWithin : ℕ → List ℕ → Type 0
IsWithin n xs = (x : ℕ) → member x xs ≡ true → (1 ≤ x) × (x ≤ n)

abbrev remove : ℕ → List ℕ → List ℕ
remove n [] = []
remove n (x ∷ xs) = let rest = remove n xs in if n == x then rest else x ∷ rest

member-remove : (n x : ℕ) (xs : List ℕ) → member x (remove n xs) ≡ not (n == x) && member x xs
member-remove n x [] = ground arith
member-remove n x (y ∷ xs) = ground (arith, member-remove n x xs)

remove-absent : (n : ℕ) (xs : List ℕ) → member n xs ≡ false → remove n xs ≡ xs
remove-absent n [] h = refl
remove-absent n (x ∷ xs) h = ground (arith, remove-absent n xs)

distinct-remove : (n : ℕ) (xs : List ℕ) → distinct xs ≡ true → distinct (remove n xs) ≡ true
unfolding distinct
distinct-remove n [] h = refl
distinct-remove n (x ∷ xs) h = ground (arith, distinct-remove n xs, member-remove n x xs)

length-remove : (n : ℕ) (xs : List ℕ) → distinct xs ≡ true → length xs ≤ suc (length (remove n xs))
unfolding distinct
length-remove n [] h = omega arith
length-remove n (x ∷ xs) h = elim (Bool-cases (n == x)) [
  | inl same ↦ rw (same, remove-absent n xs (ground arith)) (omega arith)
  | inr other ↦ rw other (omega (arith, length-remove n xs (ground arith)))
]

member-head : (x : ℕ) (xs : List ℕ) → member x (x ∷ xs) ≡ true
member-head x xs = ground arith

length-IsWithin : (n : ℕ) (xs : List ℕ) → distinct xs ≡ true → IsWithin n xs → length xs ≤ n
length-IsWithin n [] d h = omega arith
length-IsWithin zero (x ∷ xs) d h = omega (arith, h x (member-head x xs))
length-IsWithin (suc n) (x ∷ xs) d h =
    let smaller =
      length-IsWithin n (remove (suc n) (x ∷ xs)) (distinct-remove (suc n) (x ∷ xs) d)
        (λ y e. ground (arith, member-remove (suc n) y (x ∷ xs), h y)) in
    omega (arith, length-remove (suc n) (x ∷ xs) d)

-- As many distinct numbers as there are leave none out.
pub member-full :
    (n : ℕ) (xs : List ℕ)
    → distinct xs ≡ true
    → IsWithin n xs
    → length xs ≡ n
    → (m : ℕ) → 1 ≤ m
    → m ≤ n
    → member m xs ≡ true
unfolding distinct
member-full n xs d h size m low high = elim (Bool-cases (member m xs)) [
  | inl inside ↦ inside
  | inr outside ↦
      let longer = length-IsWithin n (m ∷ xs) (rw (outside, d) refl) (λ y e. ground (arith, h y)) in
      ground (arith, longer)
]

pub member-append : (m : ℕ) (xs ys : List ℕ) → member m (xs ++ ys) ≡ member m xs || member m ys
member-append m [] ys = refl
member-append m (x ∷ xs) ys = ground (arith, member-append m xs ys)

pub distinct-append_one :
    (m : ℕ) (xs : List ℕ)
    → distinct xs ≡ true
    → member m xs ≡ false
    → distinct (xs ++ m ∷ []) ≡ true
unfolding distinct
distinct-append_one m [] d h = refl
distinct-append_one m (x ∷ xs) d h =
    ground (arith, member-append x xs (m ∷ []), distinct-append_one m xs)
