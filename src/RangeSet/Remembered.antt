-- ===== src/RangeSet/Remembered.antt =====
-- What a range set holds is within its chain, and what it was asked for stays held.
use mono_old.Common.{
  ℕ, ◌≤◌, ◌≡◌, refl, ◌∙◌, ap, Bool, true, false, ◌||◌, ◌&&◌, Option, [], ◌∷◌, Returns, arith, ◌==◌,
  ==_refl, Bool-cases, inl, inr, leb, leb→le, leb-true, subst, if◌then◌else◌,
}
use mono_old.RangeSet.Range.{Range}
use mono_old.RangeSet.Range.Laws.{holds}
use mono_old.RangeSet.Deque.Chain.{starts, held, reach, reach_from, IsChain, starts-later}
use mono_old.RangeSet.Expired.{num_exists-Keeps}
use mono_old.RangeSet.{Ranges, num_exists}

-- The number lies between the ends of the chain.
abbrev pub Within : Ranges → ℕ → Type 0
Within ranges num = (starts ranges num ≡ true) × (num ≤ reach ranges)

ends-le : (size : ℕ) (r : Range) (rs : Ranges) → IsChain size (r ∷ rs) → r.max ≤ reach_from r.max rs
ends-le size r [] chain = omega arith
ends-le size r (n ∷ rs) (valid, joins, chain) = omega (arith, joins.2, ends-le size n rs chain)

both : (a b c : Bool) → a && b && c ≡ true → (a ≡ true) × (b ≡ true)
both true true c h = (refl, refl)
both true false c h = cc
both false b c h = cc

holds-ends : (r : Range) (num : ℕ) → holds r num ≡ true → (r.min ≤ num) × (num ≤ r.max)
unfolding holds
holds-ends r num h =
    let (low, high) = both (leb r.min num) (leb num r.max) _ h in
    (leb→le r.min num low, leb→le num r.max high)

starts_nonempty : (rs : Ranges) (num d : ℕ) → starts rs num ≡ true → reach rs ≡ reach_from d rs
starts_nonempty [] num d h = cc
starts_nonempty (r ∷ rs) num d h = refl

pub held-Within :
    (size : ℕ) (rs : Ranges) (num : ℕ) → IsChain size rs → held rs num ≡ true → Within rs num
unfolding held
held-Within size [] num chain h = cc
held-Within size (r ∷ rs) num (valid, joins, chain) h = elim (Bool-cases (starts rs num)) [
  | inr outer ↦
      let own : holds r num ≡ true =
        subst (λ s. (if s then held rs num else holds r num) ≡ true) outer h in
      let (low, high) = holds-ends r num own in
      (leb-true r.min num low, omega (arith, ends-le size r rs (valid, joins, chain)))
  | inl inner ↦
      let later : held rs num ≡ true =
        subst (λ s. (if s then held rs num else holds r num) ≡ true) inner h in
      let (_, far) = held-Within size rs num chain later in
      (
        leb-true r.min num (starts-later r rs num joins inner),
        omega (arith, starts_nonempty rs num r.max inner),
      )
]

-- On a number within its chain, the call holds the number afterwards, and still what it held.
pub num_exists-adds :
    (size : ℕ) (ranges : Ranges) (num expires : ℕ) (time : Option ℕ)
    → size ≤ 255
    → IsChain size ranges
    → Within ranges num
    → Returns (num_exists size ranges num expires time) λ out.
      (out.1 ≡ held ranges num)
      × IsChain size out.0
      × (held out.0 num ≡ true)
      × ((m : ℕ) → held ranges m ≡ true → held out.0 m ≡ true)
num_exists-adds size ranges num expires time narrow chain (on, far) =
    let (out, call, (answer, chain', (mid, e, keeps))) =
      num_exists-Keeps size ranges num expires time narrow chain on far in
    (
      out,
      call,
      (
        answer,
        chain',
        keeps.kept num (e.holds_more num on ∙ ap (λ b. b || held ranges num) (==_refl num)),
        λ m before.
            keeps.kept m (
              more (num == m) m (e.holds_more m (held-Within size ranges m chain before).0) before),
      ),
    )
  where
    more : {o : Bool} (a : Bool) (m : ℕ) → o ≡ a || held ranges m → held ranges m ≡ true → o ≡ true
    more true m e h = e
    more false m e h = e ∙ h
