-- ===== src/Counter/Laws.antt =====
-- Laws of `Counter` of tiauth/tiauth-core/src/counter.rs, with the range set that it serves.
use mono_old.Common.{
  ℕ, zero, suc, ◌+◌, ◌%◌, ◌^◌, ◌≤◌, ◌<◌, ◌≡◌, refl, ◌∙◌, ap, true, false, List, [], ◌∷◌, returns,
  replicate, All, member, arith,
}
use mono_old.LittleEndian.{to_le, u64-round}
use mono_old.BitSet.Trait.Tracking.{run, report}
use mono_old.RangeSet
use mono_old.RangeSet.Laws.{range_set, run-ranges}
use mono_old.Counter.{new, increment, to_saved_bytes, from_saved_bytes, issue}

-- A counter below 2^64 reads back from the bytes that it is saved as.
pub counter-saved :
    (counter : ℕ) → counter < 2 ^ 64 → from_saved_bytes (to_saved_bytes counter) ≡ returns counter
unfolding from_saved_bytes to_le
counter-saved counter h = ap returns (u64-round counter h)

issue-within :
    (n counter size : ℕ)
    → 1 ≤ counter
    → counter + n ≤ size + 1
    → size ≤ 255
    → All (λ m. (1 ≤ m) × (m ≤ size)) (issue n counter)
unfolding issue increment
issue-within zero counter size low high narrow = tt
issue-within (suc n) counter size low high narrow = (
  (low, omega arith),
  issue-within n ((counter + 1) % 2 ^ 64) size (omega arith) (omega arith) narrow,
)

-- Numbers handed out later are not among those before.
abbrev Below : ℕ → List ℕ → Type 0
Below counter earlier = (m : ℕ) → member m earlier ≡ true → m < counter

report-issue :
    (n counter : ℕ) (earlier : List ℕ)
    → Below counter earlier
    → counter + n < 2 ^ 64
    → report earlier (issue n counter) ≡ replicate n false
unfolding issue increment report
report-issue zero counter earlier below h = refl
report-issue (suc n) counter earlier below h =
    let wrap : (counter + 1) % 2 ^ 64 ≡ counter + 1 = omega arith in
    let fresh : member counter earlier ≡ false = ground (arith, below counter) in
    rw (wrap, fresh)
      (ap (λ bs. false ∷ bs)
        (report-issue n (counter + 1) (counter ∷ earlier) (λ m on. ground (arith, below m))
          (omega arith)))

-- Up to the size of one range, at most 255, the numbers that a new counter hands out are all
-- answered as not seen by a new range set.
pub issued-fresh :
    (n size : ℕ)
    → n ≤ size
    → 1 ≤ size
    → size ≤ 255
    → run (range_set size) (RangeSet.new size) (issue n new) ≡ returns (replicate n false)
issued-fresh n size few low narrow =
    run-ranges size (issue n new) low narrow
      (issue-within n 1 size (omega arith) (omega arith) narrow)
    ∙ ap returns (report-issue n 1 [] (λ m on. cc on) (omega arith))
