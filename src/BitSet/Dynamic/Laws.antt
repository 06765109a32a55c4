-- ===== src/BitSet/Dynamic/Laws.antt =====
-- Laws of `AtomicDynamicBitSet` of tiauth/tiauth-core/src/counter.rs, over any append-only vector.
use mono_old.Bits.{test, test-zero}
use mono_old.Common.{
  All, ℕ, zero, suc, ◌+◌, ◌-◌, ◌*◌, ◌/◌, ◌%◌, ◌^◌, ◌<◌, ◌≤◌, ◌≡◌, refl, ◌∙◌, sym, Bool, false, ◌||◌,
  Option, none, some, returns, Returns, arith, ◌==◌, ltb, if◌then◌else◌, ltb-false, lt→ltb,
  Bool-cases, Option-cases, inl, inr, ==_iff, ==_refl, ap, List, [], ◌∷◌, subst,
}
use native.Mathlib.Decide.{dec_lt}
use mono_old.BitSet.Boxcar.{Boxcar}
use mono_old.BitSet.Trait.{of_bits, num_exists}
use mono_old.BitSet.Trait.Tracking.{Tracks, run, report, run-report, map_self}
use mono_old.BitSet.Word.Laws.{exists_lem}
use mono_old.BitSet.Dynamic.{
  DynamicSet, or_init, push_until, create_up_to, exists_initial, exists_bucket, exists_further,
  exists, further_indexes, dynamic_set,
}

abbrev bit_of : ℕ → Option ℕ → Bool
bit_of m none = false
bit_of m (some w) = test w m

-- Two numbers from 64 up are equal if they agree on the bucket and on the bit in it.
same_bucket :
    (n m : ℕ)
    → 64 ≤ n
    → 64 ≤ m
    → (n - 64) / 64 ≡ (m - 64) / 64
    → ((n - 64) % 64) == ((m - 64) % 64) ≡ n == m
same_bucket n m hn hm e = ground arith

ne_bucket : (n m : ℕ) → ((n - 64) / 64 == (m - 64) / 64) ≡ false → (n == m) ≡ false
ne_bucket n m h = ground arith

module _ (boxcar : Boxcar) where
  open boxcar use {Vec, empty, push, get, store, count}

  -- The bit of `n` in the further words.
  stored : Vec → ℕ → Bool
  stored v n = bit_of ((n - 64) % 64) (get v ((n - 64) / 64))

  seen : DynamicSet boxcar → ℕ → Bool
  seen s n = if ltb n 64 then test s.initial n else stored (or_init boxcar s.further) n

  abbrev AreWords : Vec → Type 0
  AreWords v = (i w : ℕ) → get v i ≡ some w → w < 2 ^ 64

  record IsWordy (s : DynamicSet boxcar) : Type 0 where
    initial_fits : s.initial < 2 ^ 64
    further_fit : AreWords (or_init boxcar s.further)

  get-lt-count : (v : Vec) (i w : ℕ) → get v i ≡ some w → i < count v
  get-lt-count v i w e = elim (dec_lt i (count v)) [
    | yes h ↦ h
    | no h ↦ cc (boxcar.get-ge v i (omega arith))
  ]

  push-AreWords : (v : Vec) → AreWords v → AreWords (push v 0)
  push-AreWords v words i w e = ground (arith, boxcar.get-push v 0 i, words i w)

  stored-push : (v : Vec) (n : ℕ) → stored (push v 0) n ≡ stored v n
  unfolding stored
  stored-push v n = elim (Bool-cases (count v == (n - 64) / 64)) [
    | inl last ↦
        let e = (==_iff (count v) ((n - 64) / 64)).0 last in
        rw (boxcar.get-push, last, boxcar.get-ge v ((n - 64) / 64) (omega arith)) (test-zero _)
    | inr other ↦ rw (boxcar.get-push, other) refl
  ]

  -- The loop ends with the wanted word there, and changes no bit.
  push_until-get :
      (fuel i : ℕ) (v : Vec)
      → i < count v + fuel
      → AreWords v
      → (i < count (push_until boxcar fuel i v))
        × AreWords (push_until boxcar fuel i v)
        × ((n : ℕ) → stored (push_until boxcar fuel i v) n ≡ stored v n)
  unfolding push_until
  push_until-get zero i v h words = (omega arith, words, λ n. refl)
  push_until-get (suc fuel) i v h words = elim (Option-cases (get v i)) [
    | inl absent ↦
        let (there, fit, same) =
          push_until-get fuel i (push v 0) (omega (arith, boxcar.count-push v 0))
            (push-AreWords v words) in
        rw (absent, push_until) (there, fit, λ n. same n ∙ stored-push v n)
    | inr (w, present) ↦ rw (present, push_until) (get-lt-count v i w present, words, λ n. refl)
  ]

  stored-at :
      (v : Vec) (n i j old : ℕ)
      → i ≡ (n - 64) / 64
      → j ≡ (n - 64) % 64
      → get v i ≡ some old
      → stored v n ≡ test old j
  unfolding stored
  stored-at v n i j old ei ej at = rw (sym ei, sym ej, at) refl

  -- A write of one bucket adds the number of the set bit to the stored ones.
  stored-store :
      (v : Vec) (n i j old w : ℕ)
      → 64 ≤ n
      → i ≡ (n - 64) / 64
      → j ≡ (n - 64) % 64
      → get v i ≡ some old
      → ((x : ℕ) → test w x ≡ j == x || test old x)
      → (m : ℕ) → 64 ≤ m
      → stored (store v i w) m ≡ n == m || stored v m
  unfolding stored
  stored-store v n i j old w hn ei ej at sets m hm =
      let inside = get-lt-count v i old at in
      elim (Bool-cases (i == (m - 64) / 64)) [
        | inl same ↦
            let e : (m - 64) / 64 ≡ i = sym ((==_iff i ((m - 64) / 64)).0 same) in
            rw (e, boxcar.get-store v i w i inside, ==_refl i, at, sets ((m - 64) % 64))
              (ap (λ b. b || test old ((m - 64) % 64))
                (rw ej (same_bucket n m hn hm (omega arith))))
        | inr other ↦
            rw (boxcar.get-store v i w ((m - 64) / 64) inside, other)
              (rw (ne_bucket n m (rw (sym ei) other)) refl)
      ]

  store-AreWords :
      (v : Vec) (i w : ℕ) → i < count v → w < 2 ^ 64 → AreWords v → AreWords (store v i w)
  store-AreWords v i w inside fits words j x e =
      ground (arith, boxcar.get-store v i w j inside, words j x)

  empty-AreWords : AreWords empty
  empty-AreWords i w e = cc (boxcar.get-ge empty i (omega (arith, boxcar.count-empty)))

  stored-empty : (m : ℕ) → stored empty m ≡ false
  unfolding stored
  stored-empty m = rw (boxcar.get-ge empty ((m - 64) / 64) (omega (arith, boxcar.count-empty))) refl

  -- A number below 64 is asked of the first word.
  records_initial :
      (s : DynamicSet boxcar) (n : ℕ)
      → IsWordy s
      → n < 64
      → Returns
          (num_exists (dynamic_set boxcar) s n 0 none)
          λ r. (r.1 ≡ seen s n) × IsWordy r.0 × ((m : ℕ) → seen r.0 m ≡ n == m || seen s m)
  unfolding num_exists create_up_to exists exists_initial seen
  records_initial s n valid h =
      let (r, call, (answer, fits, sets)) = exists_lem s.initial n h valid.initial_fits in
      (
        (record s { initial = r.0 }, r.1),
        rw (lt→ltb n 64 h, call) refl,
        (
          rw (lt→ltb n 64 h) answer,
          record { initial_fits = fits; further_fit = valid.further_fit },
          λ m. ground (arith, sets m),
        ),
      )

  -- A bucket that is there answers for the number, and holds it after the call.
  exists_bucket-stored :
      (s : DynamicSet boxcar) (v : Vec) (n i j old : ℕ)
      → 64 ≤ n
      → i ≡ (n - 64) / 64
      → j ≡ (n - 64) % 64
      → get v i ≡ some old
      → s.initial < 2 ^ 64
      → AreWords v
      → Returns (exists_bucket boxcar s v i j (get v i)) λ r.
        (r.1 ≡ stored v n)
        × IsWordy r.0
        × ((m : ℕ) → seen r.0 m ≡ n == m || (if ltb m 64 then test s.initial m else stored v m))
  unfolding exists_bucket seen
  exists_bucket-stored s v n i j old hn ei ej at fits words =
      let (r, call, (answer, fits', sets)) = exists_lem old j (omega arith) (words i old at) in
      (
        (record s { further = some (store v i r.0) }, r.1),
        rw (at, call) refl,
        (
          answer ∙ sym (stored-at v n i j old ei ej at),
          record {
            initial_fits = fits;
            further_fit = store-AreWords v i r.0 (get-lt-count v i old at) fits' words;
          },
          λ m. elim (Bool-cases (ltb m 64)) [
            | inl low ↦ rw low (ground arith)
            | inr high ↦ rw high (stored-store v n i j old r.0 hn ei ej at sets m (ground arith))
          ],
        ),
      )

  -- A larger one is asked of its bucket, which `create_up_to` has made.
  records_further :
      (s : DynamicSet boxcar) (n : ℕ)
      → IsWordy s
      → 64 ≤ n
      → Returns
          (num_exists (dynamic_set boxcar) s n 0 none)
          λ r. (r.1 ≡ seen s n) × IsWordy r.0 × ((m : ℕ) → seen r.0 m ≡ n == m || seen s m)
  unfolding num_exists create_up_to exists exists_further seen further_indexes
  records_further s n valid h =
      let i = (n - 64) / 64 in
      let v = push_until boxcar (suc i) i (or_init boxcar s.further) in
      let (there, words, same) =
        push_until-get (suc i) i (or_init boxcar s.further) (omega arith) valid.further_fit in
      let (old, at) = boxcar.get-lt v i there in
      let (r, call, (answer, valid', sets)) =
        exists_bucket-stored (record s { further = some v }) v n i (n - 64 - i * 64) old h refl
          (omega arith) at valid.initial_fits words in
      (
        r,
        rw (ltb-false n 64 h) call,
        (rw (ltb-false n 64 h) (answer ∙ same n), valid', λ m. rw (sets m, same m) refl),
      )

  -- The dynamic set is a record of every number that it was asked about.
  pub dynamic-Tracks :
      Tracks (of_bits (dynamic_set boxcar)) (dynamic_set boxcar).new (λ n. n) (λ _. Unit)
  unfolding seen
  dynamic-Tracks = record {
    seen = seen;
    IsValid = IsWordy;
    new-IsValid = record { initial_fits = omega arith; further_fit = empty-AreWords };
    seen-new = λ m. ground (arith, test-zero m, stored-empty m);
    records = λ s n valid _. elim (dec_lt n 64) [
      | yes h ↦ records_initial s n valid h
      | no h ↦ records_further s n valid (omega arith)
    ];
  }

All-Unit : (ns : List ℕ) → All {0} (λ _. Unit) ns
All-Unit [] = tt
All-Unit (n ∷ ns) = (tt, All-Unit ns)

-- For every list of numbers, a new dynamic set that is asked about them in order never panics, and
-- answers each one with whether it occurred earlier in the list.
pub run-dynamic :
    (boxcar : Boxcar) (ns : List ℕ)
    → run (of_bits (dynamic_set boxcar)) (dynamic_set boxcar).new ns ≡ returns (report [] ns)
run-dynamic boxcar ns =
    subst
      (λ keys.
        run (of_bits (dynamic_set boxcar)) (dynamic_set boxcar).new ns ≡ returns (report [] keys))
      (map_self ns) (run-report (dynamic-Tracks boxcar) ns (All-Unit ns))
