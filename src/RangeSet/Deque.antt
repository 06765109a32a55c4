-- ===== src/RangeSet/Deque.antt =====
-- `add_num_ranges` of tiauth/tiauth-core/src/counter.rs: which range takes the number, and the
-- merge of full neighbours. A write or a read past the end of a deque panics.
pub mod Chain
pub mod Gap
pub mod Merge
pub mod Laws
pub mod Growth
use mono_old.Common.{
  ℕ, zero, suc, ◌+◌, ◌-◌, Bool, true, false, ◌&&◌, Option, none, some, List, [], ◌∷◌, ◌++◌, Outcome,
  returns, panics, ◌>>=◌, ◌==◌, leb, ltb, if◌then◌else◌, length, get_elem?, set, take,
}
use mono_old.RangeSet.Range.{Range, Expiry, new, full, add_num}

-- `binary_search_by` with an order that is never `Equal` returns `Err` of the number of leading
-- elements that are `Less`.
unfoldable pub partition_point : (Range → Bool) → List Range → ℕ
partition_point less [] = 0
partition_point less (r ∷ rs) = let rest = partition_point less rs in if less r then suc rest else 0

-- `while num > max { .. }`, on fuel.
unfoldable pub grow : ℕ → ℕ → List Range → ℕ → ℕ → List Range
grow size zero ranges num max = ranges
grow size (suc fuel) ranges num max =
    let new_range = new size max in
    let later = grow size fuel (ranges ++ new_range ∷ []) num new_range.max in
    if ltb max num then later else ranges

-- `for i in start.. { ranges[i] = ranges[i + step].clone() }`, for a number of rounds.
unfoldable pub copy_down : ℕ → ℕ → ℕ → List Range → Outcome (List Range)
copy_down zero step i ranges = returns ranges
copy_down (suc rounds) step i ranges = elim (get_elem? ranges (i + step)) [
  | none ↦ panics
  | some r ↦ copy_down rounds step (suc i) (set ranges i r)
]

-- The last `step` ranges are moved past by those after `start`, and cut off.
unfoldable pub close_gap : ℕ → ℕ → List Range → Outcome (List Range)
close_gap step start ranges =
    let stop = length ranges - step in
    (if ltb start stop then copy_down (stop - start) step start ranges else returns ranges)
    >>= λ moved. returns (take stop moved)

abbrev pub full_one : Option Range → Option Range
full_one none = none
full_one (some r) = elim r.members [ none ↦ some r | some _ ↦ none ]

-- The previous range and the next one, where they are full.
abbrev pub previous_full : List Range → ℕ → Option Range
previous_full ranges zero = none
previous_full ranges (suc target) = full_one (get_elem? ranges target)

abbrev pub next_full : List Range → ℕ → Option Range
next_full ranges target = full_one (get_elem? ranges (suc target))

-- The three merges, and the index of the range that took the number.
unfoldable pub merge :
    ℕ → List Range → ℕ → Range → Option Range → Option Range → Outcome (List Range × ℕ)
merge size ranges target r (some prev) (some next) =
    full size prev.min next.max prev.expires >>= λ joined.
    close_gap 2 target (set ranges (target - 1) joined) >>= λ ranges'. returns (ranges', target - 1)
merge size ranges target r (some prev) none = full size prev.min r.max prev.expires >>= λ joined.
    close_gap 1 target (set ranges (target - 1) joined) >>= λ ranges'. returns (ranges', target - 1)
merge size ranges target r none (some next) = full size r.min next.max r.expires >>= λ joined.
    close_gap 1 (target + 1) (set ranges target joined) >>= λ ranges'. returns (ranges', target)
merge size ranges target r none none = returns (ranges, target)

abbrev pub merge_if_full : ℕ → List Range → ℕ → Range → Option (List ℕ) → Outcome (List Range × ℕ)
merge_if_full size ranges target r (some members) = returns (ranges, target)
merge_if_full size ranges target r none =
    merge size ranges target r (previous_full ranges target) (next_full ranges target)

abbrev pub put : ℕ → List Range → ℕ → Option Range → Outcome (List Range × ℕ × Bool)
put size ranges target none = returns (ranges, target, true)
put size ranges target (some r) =
    merge_if_full size (set ranges target r) target r r.members >>= λ m. returns (m.0, m.1, false)

unfoldable pub add_at : ℕ → List Range → ℕ → ℕ → Option Range → Outcome (List Range × ℕ × Bool)
add_at size ranges num target none = panics
add_at size ranges num target (some r) =
    if (suc target == length ranges) && ltb r.max num
    then (let grown = grow size num ranges num r.max in returns (grown, length grown - 1, false))
    else (add_num r num >>= put size ranges target)

-- `n_i - 1` underflows for a number below every range, which panics here or at the next index.
abbrev pub target_at : ℕ → List Range → ℕ → ℕ → Outcome (List Range × ℕ × Bool)
target_at size ranges num zero = panics
target_at size ranges num (suc target) = add_at size ranges num target (get_elem? ranges target)

unfoldable pub add_num_ranges : ℕ → List Range → ℕ → Outcome (List Range × ℕ × Bool)
add_num_ranges size ranges num =
    target_at size ranges num (partition_point (λ r. leb r.min num) ranges)
