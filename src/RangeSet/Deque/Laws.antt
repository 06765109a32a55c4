-- ===== src/RangeSet/Deque/Laws.antt =====
-- Laws of `add_num_ranges` of tiauth/tiauth-core/src/counter.rs up to the end of the last range.
use mono_old.Common.{
  get_elem?-append, set-append, ℕ, suc, ◌≤◌, ◌<◌, ◌≡◌, refl, ◌∙◌, sym, Bool, true, false, ◌||◌,
  ◌&&◌, Option, none, some, List, [], ◌∷◌, ◌++◌, Returns, arith, ◌==◌, leb, leb→le, length,
  get_elem?, ltb-false, subst, All,
}
use mono_old.RangeSet.Range.{Range}
use mono_old.RangeSet.Range.Laws.{Adds, holds, add_num-Adds}
use mono_old.RangeSet.Deque.{put, add_at, add_num_ranges}
use mono_old.RangeSet.Deque.Chain.{
  starts, held, reach, reach_from, Joins, IsChain, Extends, Extends-under, Extends-trans,
  Extends-added, IsChain-suffix,
}
use mono_old.RangeSet.Deque.Gap.{locate, shorter}
use mono_old.RangeSet.Deque.Merge.{merge_if_full-Merged}

-- What a call answers, and leaves.
abbrev pub Answers : ℕ → List Range → ℕ → List Range × ℕ × Bool → Type 0
Answers size ranges num out =
    (out.2 ≡ held ranges num) × Extends size (λ m. num == m) ranges out.0 × (out.1 < length out.0)

-- The number is in reach of the range that the search ends at.
in_reach :
    (pre : List Range) (r : Range) (post : List Range) (num : ℕ)
    → Joins r post
    → starts post num ≡ false
    → (d : ℕ) → num ≤ reach_from d (pre ++ (r ∷ post))
    → num ≤ r.max
in_reach [] r [] num j above d h = h
in_reach [] r (n ∷ post) num j above d h = ground (arith, j.1)
in_reach (p ∷ pre) r post num j above d h = in_reach pre r post num j above p.max h

pub held-append :
    (pre : List Range) (r : Range) (post : List Range) (num : ℕ)
    → All (λ p. leb p.min num ≡ true) pre
    → leb r.min num ≡ true
    → starts post num ≡ false
    → held (pre ++ (r ∷ post)) num ≡ holds r num
unfolding held
held-append [] r post num below h above = rw above refl
held-append (p ∷ []) r post num below h above = rw (h, above) refl
held-append (p ∷ q ∷ pre) r post num below h above =
    rw (below.1.0) (held-append (q ∷ pre) r post num below.1 h above)

inside-All :
    (pre : List Range) (r : Range) (post : List Range) (num m : ℕ)
    → All (λ p. leb p.min num ≡ true) pre
    → leb r.min num ≡ true
    → (num == m) ≡ true
    → All (λ p. p.min ≤ m) pre × (starts (r ∷ post) m ≡ true)
inside-All [] r post num m below h same = (tt, ground arith)
inside-All (p ∷ pre) r post num m below h same =
    let (rest, on) = inside-All pre r post num m below.1 h same in
    ((ground (arith, below.0), rest), on)

absorbed :
    (size : ℕ) (ranges : List Range) (num : ℕ)
    → IsChain size ranges
    → held ranges num ≡ true
    → Extends size (λ m. num == m) ranges ranges
absorbed size ranges num chain on = record {
  chain = chain;
  joins = λ r j. j;
  same_reach = λ d. refl;
  same_start = λ m. refl;
  holds_more = λ m _. ground (arith, on);
}

put-Answers :
    (size : ℕ) (pre : List Range) (r : Range) (post : List Range) (num : ℕ) (o : Option Range)
    → IsChain size (pre ++ (r ∷ post))
    → All (λ p. leb p.min num ≡ true) pre
    → leb r.min num ≡ true
    → starts post num ≡ false
    → Adds size r num o
    → Returns (put size (pre ++ (r ∷ post)) (length pre) o) (Answers size (pre ++ (r ∷ post)) num)
put-Answers size pre r post num none chain below h above on =
    let answer = held-append pre r post num below h above ∙ on in
    (
      (pre ++ (r ∷ post), length pre, true),
      refl,
      (sym answer, absorbed size (pre ++ (r ∷ post)) num chain answer, shorter pre r post),
    )
put-Answers size pre r post num (some r') chain below h above adds =
    let added =
      Extends-under size (λ m. num == m) pre (r ∷ post) (r' ∷ post) chain
        (λ m same. inside-All pre r post num m below h same)
        (Extends-added size r r' post num (IsChain-suffix size pre (r ∷ post) chain) above adds) in
    let (out, call, (merged, inside)) =
      merge_if_full-Merged size pre r' post (pre ++ (r' ∷ post)) (length pre) refl refl
        added.chain in
    (
      (out.0, out.1, false),
      rw (set-append pre r r' post) (rw call refl),
      (
        sym (held-append pre r post num below h above ∙ adds.0),
        Extends-trans size (λ m. num == m) (pre ++ (r ∷ post)) (pre ++ (r' ∷ post)) out.0 added
            merged,
        inside,
      ),
    )

and_false : (b : Bool) → b && false ≡ false
and_false true = refl
and_false false = refl

-- Between the first range's start and the last range's end, the number is answered and added.
pub add_num_ranges-Answers :
    (size : ℕ) (ranges : List Range) (num : ℕ)
    → size ≤ 255
    → IsChain size ranges
    → starts ranges num ≡ true
    → num ≤ reach ranges
    → Returns (add_num_ranges size ranges num) (Answers size ranges num)
unfolding add_num_ranges add_at
add_num_ranges-Answers size ranges num narrow chain on far =
    let l = locate ranges num on in
    let chain' = subst (IsChain size) l.split chain in
    let (valid, joins, rest) = IsChain-suffix size l.pre (l.r ∷ l.post) chain' in
    let h =
      in_reach l.pre l.r l.post num joins l.post_above 0
        (subst (λ rs. num ≤ reach rs) l.split far) in
    let (o, call, adds) = add_num-Adds size l.r num narrow valid (leb→le l.r.min num l.r_below) h in
    let at : get_elem? ranges (length l.pre) ≡ some l.r =
      rw l.split (get_elem?-append l.pre l.r l.post) in
    let stored =
      put-Answers size l.pre l.r l.post num o chain' l.pre_below l.r_below l.post_above adds in
    rw (l.point, at, ltb-false l.r.max num h, and_false (suc (length l.pre) == length ranges), call)
      (subst (λ rs. Returns (put size rs (length l.pre) o) (Answers size rs num)) (sym l.split)
        stored)

-- On a chain of ranges of at most 255 numbers, for a number `num` from the first range's start up
-- to the end of the last range, `add_num_ranges` does not panic. It answers whether `num` was held,
-- leaves a chain with the same end and the index of one of its ranges, and a number `m` from the
-- first range's start on is held afterwards exactly when it is `num` or was held before.
pub add_num_ranges-held :
    (size : ℕ) (ranges : List Range) (num m : ℕ)
    → size ≤ 255
    → IsChain size ranges
    → starts ranges num ≡ true
    → num ≤ reach ranges
    → starts ranges m ≡ true
    → Returns (add_num_ranges size ranges num) λ out.
      (out.2 ≡ held ranges num)
      × IsChain size out.0
      × (reach out.0 ≡ reach ranges)
      × (out.1 < length out.0)
      × (held out.0 m ≡ num == m || held ranges m)
add_num_ranges-held size ranges num m narrow chain on far on' =
    let (out, call, (answer, e, inside)) =
      add_num_ranges-Answers size ranges num narrow chain on far in
    (out, call, (answer, e.chain, e.same_reach 0, inside, e.holds_more m on'))
