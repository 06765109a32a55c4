-- ===== src/Tests/Sets.antt =====
-- Runs of the bit sets, the range sets and the user state.
use mono_old.Common.{
  ◌==◌, ℕ, zero, suc, ◌≡◌, refl, true, false, some, [], ◌∷◌, returns, panics, Returns, ◌≤◌, arith,
}
use mono_old.BitSet.Trait.{of_bits}
use mono_old.BitSet.Trait.Tracking.{run, report}
use mono_old.BitSet.Dynamic.{dynamic_set}
use mono_old.BitSet.Dynamic.Laws.{run-dynamic}
use mono_old.BitSet.Small
use mono_old.BitSet.Small.Collisions.{run-collides}
use mono_old.UserState
use mono_old.UserState.Laws.{Reachable, start, hand_out, next-seen_once, next-panics}
use mono_old.RangeSet
use mono_old.RangeSet.Range
use mono_old.RangeSet.Range.{add_num}
use mono_old.RangeSet.Expired.{remembers, num_exists-remembers}
use mono_old.RangeSet.Range.Slots.{distinct}
use mono_old.RangeSet.Deque.{add_num_ranges}
use mono_old.RangeSet.Deque.Chain.{held, reach, IsChain}
use mono_old.RangeSet.Deque.Growth.{add_num_ranges-forgets}
use mono_old.RangeSet.Laws.{new-IsChain, range_set, run-ranges}
use mono_old.RangeSet.Saved.{serialize}
use mono_old.RangeSet.Saved.Whole.{to_saved_bytes, from_saved_bytes, from_saved_bytes-to}
use mono_old.Tests.Instances.{list_boxcar, cells}

run-dynamic_example :
    run (of_bits (dynamic_set list_boxcar)) (dynamic_set list_boxcar).new (200 ∷ 3 ∷ 200 ∷ [])
    ≡ returns (report [] (200 ∷ 3 ∷ 200 ∷ []))
run-dynamic_example = run-dynamic list_boxcar (200 ∷ 3 ∷ 200 ∷ [])

run-collides_example :
    run (of_bits Small.small_set) Small.new (5 ∷ 69 ∷ []) ≡ returns (false ∷ true ∷ [])
run-collides_example =
    run-collides 5 69 (omega arith) (omega arith) (omega arith) (omega arith) (omega arith)

next-seen_once_example :
    Returns
      (UserState.seen (UserState.next UserState.new).0 (UserState.next UserState.new).1)
      λ first.
        (first.1 ≡ false)
        × Returns
            (UserState.seen first.0 (UserState.next UserState.new).1)
            λ second. second.1 ≡ true
next-seen_once_example = next-seen_once start (omega arith)

-- After 32 numbers were handed out.
abbrev handed_out : ℕ → UserState.UserState
handed_out zero = UserState.new
handed_out (suc n) = (UserState.next (handed_out n)).0

hand_out_few : (n : ℕ) → n ≤ 32 → Reachable (handed_out n) × ((handed_out n).counter ≡ n)
hand_out_few zero h = (start, refl)
hand_out_few (suc n) h =
    let (earlier, count) = hand_out_few n (omega arith) in
    (hand_out earlier (omega (arith, count)), omega (arith, count))

next-panics_example :
    UserState.seen (UserState.next (handed_out 32)).0 (UserState.next (handed_out 32)).1 ≡ panics
next-panics_example =
    next-panics (hand_out_few 32 (omega arith)).0 (omega (arith, (hand_out_few 32 (omega arith)).1))
      (omega (arith, (hand_out_few 32 (omega arith)).1))

run-ranges_example :
    run (range_set 3) (RangeSet.new 3) (2 ∷ 1 ∷ 3 ∷ 1 ∷ [])
    ≡ returns (report [] (2 ∷ 1 ∷ 3 ∷ 1 ∷ []))
run-ranges_example = run-ranges 3 (2 ∷ 1 ∷ 3 ∷ 1 ∷ []) (omega arith) (omega arith) (
  (omega arith, omega arith),
  ((omega arith, omega arith), ((omega arith, omega arith), ((omega arith, omega arith), tt))),
)

add_num_ranges-forgets_example :
    Returns
      (add_num_ranges 4 (RangeSet.new 4) 9)
      λ out. (out.2 ≡ false) × IsChain 4 out.0 × (9 ≤ reach out.0) × (held out.0 9 ≡ false)
add_num_ranges-forgets_example =
    add_num_ranges-forgets 4 (Range.new 4 1) [] 9 (omega arith)
      (new-IsChain 4 (omega arith) (omega arith)) (omega arith) (omega arith)

from_saved_bytes-to_example :
    from_saved_bytes cells 4 (to_saved_bytes cells (RangeSet.new 4)) ≡ returns (RangeSet.new 4)
unfolding serialize
from_saved_bytes-to_example =
    from_saved_bytes-to cells 4 (RangeSet.new 4) (omega arith) (omega arith) (
      record {
        members = refl;
        min = omega arith;
        max = omega arith;
        expires = tt;
        short = omega arith;
      },
      tt,
    )

-- One range that holds 2 and has expired at 5.
abbrev two_seen : Range.Range
two_seen = record { members = some (2 ∷ 0 ∷ 0 ∷ 0 ∷ []); min = 1; max = 4; expires = Range.at 5 }

two_seen-IsChain : IsChain 4 (two_seen ∷ [])
unfolding distinct
two_seen-IsChain = (
  record {
    starts = omega arith;
    ends = omega arith;
    room = omega arith;
    members = (
      omega arith,
      record {
        used = 2 ∷ [];
        free = 2;
        layout = refl;
        count = omega arith;
        is_distinct = refl;
        within = λ x e. ground (arith, e);
      },
    );
  },
  tt,
  tt,
)

num_exists-remembers_example : Returns (RangeSet.num_exists 4 (two_seen ∷ []) 4 5 (some 8)) λ out.
    (out.1 ≡ held (two_seen ∷ []) 4)
    × IsChain 4 out.0
    × (held out.0 4 ≡ true)
    × (remembers (held (two_seen ∷ []) 2) (4 == 2) (held out.0 2) ≡ true)
num_exists-remembers_example =
    num_exists-remembers 4 (two_seen ∷ []) 4 5 (some 8) 2 (omega arith) two_seen-IsChain refl
      (omega arith) refl
