-- ===== src/RangeSet/Deque/Growth.antt =====
-- Laws of `add_num_ranges` of tiauth/tiauth-core/src/counter.rs past the last range.
use mono_old.Common.{
  get_elem?-append, ℕ, zero, suc, ◌+◌, ◌-◌, ◌^◌, ◌≤◌, ◌<◌, ◌≡◌, refl, ◌∙◌, sym, ap, Bool, true,
  false, ◌&&◌, some, List, [], ◌∷◌, ◌++◌, Outcome, returns, Returns, arith, ◌==◌, ==_refl, ltb,
  leb-true, ltb-false, lt→ltb, if◌then◌else◌, length, get_elem?, length-append, subst,
}
use native.Mathlib.Decide.{dec_lt}
use mono_old.RangeSet.Range.{Range, new}
use mono_old.RangeSet.Range.Laws.{IsRange, holds, member-zeros, new-AreSlots}
use mono_old.RangeSet.Deque.{grow, add_at, add_num_ranges}
use mono_old.RangeSet.Deque.Chain.{starts, held, reach, reach_from, IsChain}
use mono_old.RangeSet.Deque.Gap.{locate}
use mono_old.RangeSet.Deque.Laws.{held-append}

new-IsRange :
    (size min : ℕ) → 1 ≤ size → 1 ≤ min → min + size ≤ 2 ^ 64 → IsRange size (new size min)
new-IsRange size min low pos fits = record {
  starts = pos;
  ends = omega arith;
  room = omega arith;
  members = (omega arith, new-AreSlots size low);
}

-- One more range at the end of a chain.
push-IsChain :
    (size : ℕ) (r : Range) (rs : List Range)
    → 2 ≤ size
    → reach (r ∷ rs) + size ≤ 2 ^ 64
    → IsChain size (r ∷ rs)
    → IsChain size ((r ∷ rs) ++ (new size (reach (r ∷ rs)) ∷ []))
push-IsChain size r [] low fits (valid, joins, chain) =
    let pos : 1 ≤ r.max = omega (arith, valid.starts, valid.room) in
    (
      valid,
      (omega (arith, valid.room, low), omega arith, omega (arith, low, fits)),
      (new-IsRange size r.max (omega arith) pos fits, tt, tt),
    )
push-IsChain size r (n ∷ rs) low fits (valid, joins, chain) =
    (valid, joins, push-IsChain size n rs low fits chain)

reach-push : (d : ℕ) (rs : List Range) (n : Range) → reach_from d (rs ++ (n ∷ [])) ≡ n.max
reach-push d [] n = refl
reach-push d (r ∷ rs) n = reach-push r.max rs n

starts-push :
    (rs : List Range) (n : Range) (m : ℕ) → starts rs m ≡ true → starts (rs ++ (n ∷ [])) m ≡ true
starts-push [] n m h = cc h
starts-push (r ∷ rs) n m h = h

start_max :
    (size : ℕ) (r : Range) (rs : List Range) → IsChain size (r ∷ rs) → r.max ≤ reach_from r.max rs
start_max size r [] chain = omega arith
start_max size r (n ∷ rs) (valid, joins, chain) = omega (arith, joins.2, start_max size n rs chain)

-- In a chain, a number past the end is past every start.
starts-past :
    (size : ℕ) (r : Range) (rs : List Range) (num : ℕ)
    → 1 ≤ size
    → IsChain size (r ∷ rs)
    → reach (r ∷ rs) < num
    → starts (r ∷ rs) num ≡ true
starts-past size r rs num low (valid, joins, chain) h =
    leb-true r.min num (omega (arith, valid.room, start_max size r rs (valid, joins, chain)))

held-push :
    (size : ℕ) (r : Range) (rs : List Range) (n : Range) (num : ℕ)
    → 1 ≤ size
    → IsChain size (r ∷ rs)
    → reach (r ∷ rs) < num
    → n.min ≤ num
    → held ((r ∷ rs) ++ (n ∷ [])) num ≡ holds n num
unfolding held
held-push size r [] n num low chain h inside = rw (leb-true n.min num inside) refl
held-push size r (x ∷ rs) n num low (valid, joins, chain) h inside =
    rw (starts-past size x rs num low chain h) (held-push size x rs n num low chain h inside)

fresh-empty : (size min num : ℕ) → min ≤ num → holds (new size min) num ≡ false
unfolding holds
fresh-empty size min num h = ground (arith, member-zeros (num - min + 1) size)

-- What growing leaves: a chain that reaches the number and does not hold it.
abbrev Grown : ℕ → ℕ → List Range → Type 0
Grown size num rs =
    IsChain size rs
    × (num ≤ reach rs)
    × (held rs num ≡ false)
    × (1 ≤ length rs)
    × (starts rs num ≡ true)

grow-Grown :
    (size fuel num : ℕ) (r : Range) (rs : List Range)
    → 2 ≤ size
    → num + size ≤ 2 ^ 64
    → num ≤ reach (r ∷ rs) + fuel
    → IsChain size (r ∷ rs)
    → held (r ∷ rs) num ≡ false
    → starts (r ∷ rs) num ≡ true
    → Grown size num (grow size fuel (r ∷ rs) num (reach (r ∷ rs)))
unfolding grow
grow-Grown size zero num r rs low fits enough chain absent on =
    (chain, omega arith, absent, omega arith, on)
grow-Grown size (suc fuel) num r rs low fits enough chain absent on =
    let max = reach (r ∷ rs) in
    elim (dec_lt max num) [
      | no there ↦
          rw (ltb-false max num (omega arith)) (chain, omega arith, absent, omega arith, on)
      | yes past ↦
          let n = new size max in
          let empty =
            held-push size r rs n num (omega arith) chain past (omega arith)
            ∙ fresh-empty size max num (omega arith) in
          let end = reach-push r.max rs n in
          let step =
            grow-Grown size fuel num r (rs ++ (n ∷ [])) low fits (omega (arith, end))
              (push-IsChain size r rs low (omega arith) chain) empty on in
          rw (lt→ltb max num past)
            (subst (λ e. Grown size num (grow size fuel (r ∷ (rs ++ (n ∷ []))) num e)) end step)
    ]

-- The search ends at the last range of a chain that ends before the number.
last_located :
    (size : ℕ) (pre : List Range) (r : Range) (post : List Range) (num d : ℕ)
    → IsChain size (pre ++ (r ∷ post))
    → 1 ≤ size
    → starts post num ≡ false
    → reach_from d (pre ++ (r ∷ post)) < num
    → (post ≡ []) × (r.max ≡ reach_from d (pre ++ (r ∷ post)))
last_located size [] r [] num d chain low above past = (refl, refl)
last_located size [] r (n ∷ post) num d (valid, joins, chain) low above past =
    cc (starts-past size n post num low chain past, above)
last_located size (p ∷ pre) r post num d (valid, joins, chain) low above past =
    last_located size pre r post num p.max chain low above past

past-empty : (r : Range) (num : ℕ) → r.max < num → holds r num ≡ false
unfolding holds
past-empty r num h = ground arith

grows :
    (size : ℕ) (rs : List Range) (i n max end num : ℕ) (other : Outcome (List Range × ℕ × Bool))
    → n ≡ i
    → max ≡ end
    → end < num
    → (if (i == n) && ltb max num
        then returns (grow size num rs num max, length (grow size num rs num max) - 1, false)
        else other)
      ≡ returns (grow size num rs num end, length (grow size num rs num end) - 1, false)
grows size rs i n max end num other e e' h = rw (e, e', ==_refl i, lt→ltb end num h) refl

-- For ranges of 2 numbers or more and a number past the last range of a chain, of which one range
-- more still fits below 2^64, `add_num_ranges` answers that the number was not there, and leaves a
-- chain that reaches the number and does not hold it.
pub add_num_ranges-forgets :
    (size : ℕ) (r : Range) (rs : List Range) (num : ℕ)
    → 2 ≤ size
    → IsChain size (r ∷ rs)
    → reach (r ∷ rs) < num
    → num + size ≤ 2 ^ 64
    → Returns
        (add_num_ranges size (r ∷ rs) num)
        λ out. (out.2 ≡ false) × IsChain size out.0 × (num ≤ reach out.0) × (held out.0 num ≡ false)
unfolding add_num_ranges add_at
add_num_ranges-forgets size r rs num low chain past fits =
    let on = starts-past size r rs num (omega arith) chain past in
    let l = locate (r ∷ rs) num on in
    let (no_more, end) =
      last_located size l.pre l.r l.post num 0 (subst (IsChain size) l.split chain) (omega arith)
        l.post_above (subst (λ xs. reach xs < num) l.split past) in
    let end' : l.r.max ≡ reach (r ∷ rs) = end ∙ ap reach (sym l.split) in
    let at : get_elem? (r ∷ rs) (length l.pre) ≡ some l.r =
      rw l.split (get_elem?-append l.pre l.r l.post) in
    let last : length (r ∷ rs) ≡ suc (length l.pre) =
      ap length l.split
      ∙ ap (λ xs. length (l.pre ++ (l.r ∷ xs))) no_more
      ∙ omega (arith, length-append l.pre (l.r ∷ [])) in
    let empty : held (r ∷ rs) num ≡ false =
      ap (λ xs. held xs num) l.split
      ∙ held-append l.pre l.r l.post num l.pre_below l.r_below l.post_above
      ∙ past-empty l.r num (omega (arith, end')) in
    let (kept, reached, absent, long, started) =
      grow-Grown size num num r rs low fits (omega arith) chain empty on in
    let grown = grow size num (r ∷ rs) num (reach (r ∷ rs)) in
    (
      (grown, length grown - 1, false),
      rw (l.point, at)
          (grows size (r ∷ rs) (suc (length l.pre)) (length (r ∷ rs)) l.r.max (reach (r ∷ rs)) num _
            last end' past),
      (refl, kept, reached, absent),
    )
