-- ===== src/Decimal.antt =====
-- `to_string` of numbers and `parse` of the standard library, by which
-- tiauth/tiauth-core/src/state.rs and the module `keys` of tiauth/tiauth-core/src/store.rs write and
-- read numbers as text. A text is the list of its bytes.
use mono_old.Common.{
  ℕ, zero, suc, ◌+◌, ◌*◌, ◌-◌, ◌/◌, ◌%◌, ◌<◌, ◌≡◌, ◌≢◌, refl, sym, ap, ◌∙◌, true, ◌&&◌, Option,
  none, some, List, [], ◌∷◌, ◌++◌, ltb, leb, ◌==◌, if◌then◌else◌, arith, Bool-cases, inl, inr,
}

-- The digits of a number, with fuel for one more digit than it has.
unfoldable pub digits : ℕ → ℕ → List ℕ
digits zero n = []
digits (suc fuel) n =
    let before = digits fuel (n / 10) in
    if ltb n 10 then (48 + n) ∷ [] else before ++ (48 + n % 10) ∷ []

unfoldable pub to_string : ℕ → List ℕ
unfolding digits
to_string n = digits (suc n) n

-- `checked_mul` and `checked_add` below the bound of the type.
abbrev pub next_digit : ℕ → ℕ → ℕ → Option ℕ
next_digit bound n c =
    if leb 48 c && leb c 57 && ltb (n * 10 + (c - 48)) bound then some (n * 10 + (c - 48)) else none

unfoldable pub parse_digits : ℕ → Option ℕ → List ℕ → Option ℕ
parse_digits bound n [] = n
parse_digits bound none (c ∷ cs) = none
parse_digits bound (some n) (c ∷ cs) = parse_digits bound (next_digit bound n c) cs

-- A sign is read, and a text without digits is none.
unfoldable pub parse : ℕ → List ℕ → Option ℕ
unfolding parse_digits
parse bound [] = none
parse bound (c ∷ []) = parse_digits bound (some 0) (c ∷ [])
parse bound (c ∷ d ∷ cs) =
    if c == 43
    then parse_digits bound (some 0) (d ∷ cs)
    else parse_digits bound (some 0) (c ∷ d ∷ cs)

parse_digits-none : (bound : ℕ) (cs : List ℕ) → parse_digits bound none cs ≡ none
unfolding parse_digits
parse_digits-none bound [] = refl
parse_digits-none bound (c ∷ cs) = refl

parse_digits-append :
    (bound : ℕ) (n : Option ℕ) (cs ds : List ℕ)
    → parse_digits bound n (cs ++ ds) ≡ parse_digits bound (parse_digits bound n cs) ds
unfolding parse_digits
parse_digits-append bound n [] ds = refl
parse_digits-append bound none (c ∷ cs) ds = sym (parse_digits-none bound ds)
parse_digits-append bound (some n) (c ∷ cs) ds =
    parse_digits-append bound (next_digit bound n c) cs ds

next_digit-digit :
    (bound n d : ℕ) → d < 10 → n * 10 + d < bound → next_digit bound n (48 + d) ≡ some (n * 10 + d)
next_digit-digit bound n d small fits = ground (arith, small, fits)

parse_digits-digits :
    (bound fuel n : ℕ) → n < fuel → n < bound → parse_digits bound (some 0) (digits fuel n) ≡ some n
unfolding parse_digits digits
parse_digits-digits bound zero n enough fits = absurd (omega arith)
parse_digits-digits bound (suc fuel) n enough fits = elim (Bool-cases (ltb n 10)) [
  | inl e ↦
      let small : n < 10 = ground (arith, e) in
      rw e (next_digit-digit bound 0 n small (omega arith) ∙ ap some (omega arith))
  | inr e ↦
      let large : ¬ (n < 10) = ground (arith, e) in
      let rest = parse_digits-digits bound fuel (n / 10) (omega arith) (omega arith) in
      rw (e, parse_digits-append bound (some 0) (digits fuel (n / 10)) ((48 + n % 10) ∷ []), rest)
        (next_digit-digit bound (n / 10) (n % 10) (omega arith) (omega arith)
          ∙ ap some (omega arith))
]

sign-none : (bound c : ℕ) → (c == 43) ≡ true → next_digit bound 0 c ≡ none
sign-none bound c h = ground (arith, h)

parse-unsigned :
    (bound n : ℕ) (cs : List ℕ)
    → parse_digits bound (some 0) cs ≡ some n
    → cs ≢ []
    → parse bound cs ≡ some n
unfolding parse parse_digits
parse-unsigned bound n [] h full = absurd (full refl)
parse-unsigned bound n (c ∷ []) h full = h
parse-unsigned bound n (c ∷ d ∷ cs) h full = elim (Bool-cases (c == 43)) [
  | inl e ↦
      let stuck : parse_digits bound (next_digit bound 0 c) (d ∷ cs) ≡ none =
        ap (λ o. parse_digits bound o (d ∷ cs)) (sign-none bound c e) in
      absurd (cc (sym stuck ∙ h))
  | inr e ↦ rw e h
]

append-full : (xs : List ℕ) (x : ℕ) → xs ++ x ∷ [] ≢ []
append-full [] x h = cc h
append-full (y ∷ xs) x h = cc h

digits-full : (fuel n : ℕ) → digits (suc fuel) n ≢ []
unfolding digits
digits-full fuel n = elim (Bool-cases (ltb n 10)) [
  | inl e ↦ rw e (λ h. cc h)
  | inr e ↦ rw e (append-full (digits fuel (n / 10)) (48 + n % 10))
]

-- A number that fits its type reads back from its text.
pub parse-to_string : (bound n : ℕ) → n < bound → parse bound (to_string n) ≡ some n
unfolding to_string
parse-to_string bound n fits =
    parse-unsigned bound n (digits (suc n) n)
      (parse_digits-digits bound (suc n) n (omega arith) fits) (digits-full n n)
