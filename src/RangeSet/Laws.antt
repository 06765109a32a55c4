-- ===== src/RangeSet/Laws.antt =====
-- Laws of `add_num` and `num_exists` of tiauth/tiauth-core/src/counter.rs up to the end of the last
-- range, without a time.
use mono_old.Common.{
  set-at, ℕ, zero, suc, ◌+◌, ◌-◌, ◌≤◌, ◌<◌, ◌≡◌, refl, ◌∙◌, sym, ap, true, false, ◌||◌, ◌&&◌, none,
  some, List, [], ◌∷◌, ◌++◌, returns, Returns, arith, ◌==◌, leb, leb-true, Bool-cases, inl, inr,
  length, get_elem?, get_elem?-lt, set, length-set, subst, All,
}
use native.Mathlib.Decide.{dec_lt}
use mono_old.BitSet.Trait.{CompactSet}
use mono_old.BitSet.Trait.Tracking.{Tracks, run, report, run-report, map_self}
use mono_old.RangeSet.Range.{Range, at}
use mono_old.RangeSet.Range.Laws.{holds, new-AreSlots, member-zeros}
use mono_old.RangeSet.Deque.Chain.{
  starts, held, reach, Joins, IsChain, Extends, Extends-under, Extends-trans, Extends-self,
  IsChain-suffix,
}
use mono_old.RangeSet.Deque.Laws.{add_num_ranges-Answers}
use mono_old.RangeSet.{Ranges, new, mark, expired_search, add_num, num_exists}

pub split_at :
    (ranges : Ranges) (i : ℕ) (r : Range)
    → get_elem? ranges i ≡ some r
    → (pre : Ranges) × (post : Ranges) × (ranges ≡ pre ++ (r ∷ post)) × (i ≡ length pre)
split_at [] i r e = cc e
split_at (x ∷ ranges) zero r e = ([], ranges, cc e, refl)
split_at (x ∷ ranges) (suc i) r e =
    let (pre, post, split, index) = split_at ranges i r e in
    (x ∷ pre, post, ap (λ xs. x ∷ xs) split, ap suc index)

Extends-marked :
    (size expires : ℕ) (r : Range) (post : Ranges)
    → IsChain size (r ∷ post)
    → Extends size (λ _. false) (r ∷ post) (record r { expires = at expires } ∷ post)
unfolding held holds
Extends-marked size expires r post (valid, joins, chain) = record {
  chain = (
    record { starts = valid.starts; ends = valid.ends; room = valid.room; members = valid.members },
    marked-Joins r post joins,
    chain,
  );
  joins = λ p j. j;
  same_reach = λ d. refl;
  same_start = λ m. refl;
  holds_more = λ m on. refl;
}
  where
    marked-Joins :
        (r : Range) (post : Ranges) → Joins r post → Joins (record r { expires = at expires }) post
    marked-Joins r [] j = j
    marked-Joins r (n ∷ post) j = j

-- The expiries change, and nothing else.
mark-Extends :
    (size rounds i expires : ℕ) (ranges : Ranges)
    → IsChain size ranges
    → i + rounds ≤ length ranges
    → Returns (mark rounds i expires ranges) (Extends size (λ _. false) ranges)
unfolding mark
mark-Extends size zero i expires ranges chain h = (ranges, refl, Extends-self size ranges chain)
mark-Extends size (suc rounds) i expires ranges chain h =
    let (r, at_i) = get_elem?-lt ranges i (omega arith) in
    let (pre, post, split, index) = split_at ranges i r at_i in
    let r' : Range = record r { expires = at expires } in
    let written = set-at pre r post ranges r' i split index in
    let chain' = subst (IsChain size) split chain in
    let step : Extends size (λ _. false) ranges (set ranges i r') =
      subst (λ rs. Extends size (λ _. false) rs (set ranges i r')) (sym split)
        (subst (Extends size (λ _. false) (pre ++ (r ∷ post))) (sym written) (
          Extends-under size (λ _. false) pre (r ∷ post) (r' ∷ post) chain' (λ m bad. cc bad)
            (Extends-marked size expires r post (IsChain-suffix size pre (r ∷ post) chain')))) in
    let (out, call, rest) =
      mark-Extends size rounds (suc i) expires (set ranges i r') step.chain
        (omega (arith, length-set ranges i r')) in
    (
      out,
      rw (at_i, mark) call,
      Extends-trans size (λ _. false) ranges (set ranges i r') out step rest,
    )

marked_by :
    (size : ℕ) (ranges : Ranges) (exp_i target expires : ℕ)
    → IsChain size ranges
    → target < length ranges
    → Returns (mark (target - exp_i) exp_i expires ranges) (Extends size (λ _. false) ranges)
unfolding mark
marked_by size ranges exp_i target expires chain h = elim (dec_lt exp_i target) [
  | yes before ↦ mark-Extends size (target - exp_i) exp_i expires ranges chain (omega arith)
  | no after ↦
      let none_left : target - exp_i ≡ 0 = omega arith in
      rw none_left (ranges, refl, Extends-self size ranges chain)
]

-- `add_num` answers for the number and adds it.
pub add_num-Extends :
    (size : ℕ) (ranges : Ranges) (num expires : ℕ)
    → size ≤ 255
    → IsChain size ranges
    → starts ranges num ≡ true
    → num ≤ reach ranges
    → Returns
        (add_num size ranges num expires)
        λ out. (out.1 ≡ held ranges num) × Extends size (λ m. num == m) ranges out.0
unfolding add_num
add_num-Extends size ranges num expires narrow chain on far =
    let (r, call, (answer, added, inside)) =
      add_num_ranges-Answers size ranges num narrow chain on far in
    let exp_i = expired_search r.0 expires in
    let (out, call', marked) = marked_by size r.0 exp_i r.1 expires added.chain inside in
    (
      (out, r.2),
      rw call (rw call' refl),
      (answer, Extends-trans size (λ m. num == m) ranges r.0 out added marked),
    )

-- Without a time nothing else happens.
num_exists-Extends :
    (size : ℕ) (ranges : Ranges) (num expires : ℕ)
    → size ≤ 255
    → IsChain size ranges
    → starts ranges num ≡ true
    → num ≤ reach ranges
    → Returns
        (num_exists size ranges num expires none)
        λ out. (out.1 ≡ held ranges num) × Extends size (λ m. num == m) ranges out.0
unfolding num_exists
num_exists-Extends size ranges num expires narrow chain on far =
    let (out, call, rest) = add_num-Extends size ranges num expires narrow chain on far in
    (out, rw call refl, rest)

-- On a chain of ranges of at most 255 numbers, for a number `num` from the first range's start up
-- to the end of the last range and with no time given, `num_exists` does not panic. It answers
-- whether `num` was held, leaves a chain with the same end, and a number `m` from the first range's
-- start on is held afterwards exactly when it is `num` or was held before.
pub num_exists-held :
    (size : ℕ) (ranges : Ranges) (num expires m : ℕ)
    → size ≤ 255
    → IsChain size ranges
    → starts ranges num ≡ true
    → num ≤ reach ranges
    → starts ranges m ≡ true
    → Returns (num_exists size ranges num expires none) λ out.
      (out.1 ≡ held ranges num)
      × IsChain size out.0
      × (reach out.0 ≡ reach ranges)
      × (held out.0 m ≡ num == m || held ranges m)
num_exists-held size ranges num expires m narrow chain on far on' =
    let (out, call, (answer, e)) = num_exists-Extends size ranges num expires narrow chain on far in
    (out, call, (answer, e.chain, e.same_reach 0, e.holds_more m on'))

pub new-IsChain : (size : ℕ) → 1 ≤ size → size ≤ 255 → IsChain size (new size)
new-IsChain size low narrow = (
  record {
    starts = omega arith;
    ends = omega arith;
    room = omega arith;
    members = (omega arith, new-AreSlots size low);
  },
  tt,
  tt,
)

abbrev pub range_set : ℕ → CompactSet Ranges
range_set size = record { num_exists = num_exists size }

record IsFirst (size : ℕ) (ranges : Ranges) : Type 0 where
  chain : IsChain size ranges
  first : (m : ℕ) → starts ranges m ≡ leb 1 m
  last : reach ranges ≡ size

-- Up to the size of one range, a new range set is a record of the numbers that it was asked about.
pub range-Tracks :
    (size : ℕ)
    → 1 ≤ size
    → size ≤ 255
    → Tracks (range_set size) (new size) (λ n. n) (λ n. (1 ≤ n) × (n ≤ size))
unfolding held holds
range-Tracks size low narrow = record {
  seen = λ ranges m. leb 1 m && held ranges m;
  IsValid = IsFirst size;
  new-IsValid = record {
    chain = new-IsChain size low narrow;
    first = λ m. refl;
    last = omega arith;
  };
  seen-new = λ m. ground (arith, member-zeros (m - 1 + 1) size);
  records = λ ranges n valid h.
      let (out, call, (answer, added)) =
        num_exists-Extends size ranges n 0 narrow valid.chain (valid.first n ∙ leb-true 1 n h.0)
          (omega (arith, h.1, valid.last)) in
      (
        out,
        call,
        (
          rw (leb-true 1 n h.0) answer,
          record {
            chain = added.chain;
            first = λ m. added.same_start m ∙ valid.first m;
            last = added.same_reach 0 ∙ valid.last;
          },
          λ m. elim (Bool-cases (leb 1 m)) [
            | inl positive ↦ rw positive (added.holds_more m (valid.first m ∙ positive))
            | inr none_yet ↦ ground arith
          ],
        ),
      );
}

-- For ranges of `size` numbers, 1 to 255, and every list of numbers from 1 to `size`, a new range
-- set that is asked about them in order, without a time, never panics, and answers each one with
-- whether it occurred earlier in the list.
pub run-ranges :
    (size : ℕ) (ns : List ℕ)
    → 1 ≤ size
    → size ≤ 255
    → All (λ n. (1 ≤ n) × (n ≤ size)) ns
    → run (range_set size) (new size) ns ≡ returns (report [] ns)
run-ranges size ns low narrow inside =
    subst (λ keys. run (range_set size) (new size) ns ≡ returns (report [] keys)) (map_self ns)
      (run-report (range-Tracks size low narrow) ns inside)
