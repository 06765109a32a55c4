-- ===== src/AppendOnly/Map/Laws.antt =====
-- The map against a list of entries of bounded length.
use mono_old.Common.{
  ℕ, ◌%◌, ◌^◌, ◌<◌, ◌≡◌, sym, ap, ◌∙◌, true, false, inl, inr, Option, none, some, List, Returns,
  returns, panics, Result, ok, err, leb, ◌==◌, length, set, arith, Bool-cases, ==_iff, Result-cases,
  Outcome-cases, length-set,
}
use mono_old.AppendOnly.Vec.{ArcVec, get_from_elements, set_once, set_at}
use mono_old.AppendOnly.Vec.Laws.{free, free-place, free-none, get_from-set}
use mono_old.AppendOnly.Map.{MapKey, find_slot, search_from, insert}
use mono_old.AppendOnly.Map.Search.{
  Puts, search_from-err, search_from-ok, search_from-lt, search_from_congr, search_from_kept,
  search_from_put, search_from-power, pow_pos,
}

module _ {K V : Type 0} ⦃key : MapKey K⦄ where
  -- What the slots hold is found, and there is a power of two of them.
  pub record IsValid (m : ArcVec (K × V)) : Type 0 where
    pub power : ℕ
    pub sized : m.capacity ≡ 2 ^ power
    pub allocated : length m.elements ≡ m.capacity
    pub unused : m.used ≡ 0
    pub found :
        (i : ℕ) (entry : K × V)
        → get_from_elements m.elements i ≡ some entry
        → find_slot m.elements m.capacity entry.0 ≡ returns (ok i)

  -- A search among slots is its loop.
  find_slot_loop :
      (elements : List (Option (K × V))) (capacity : ℕ) (k : K)
      → 0 < capacity
      → find_slot elements capacity k
        ≡ search_from capacity elements capacity k (key.hash k % capacity) 0
  unfolding find_slot
  find_slot_loop elements capacity k h = ground arith

  capacity_pos : (m : ArcVec (K × V)) → IsValid m → 0 < m.capacity
  capacity_pos m v = omega (arith, v.sized, pow_pos v.power)

  find_slot_lem :
      (m : ArcVec (K × V)) (k : K)
      → IsValid m
      → find_slot m.elements m.capacity k
        ≡ search_from m.capacity m.elements m.capacity k (key.hash k % m.capacity) 0
  find_slot_lem m k v = find_slot_loop m.elements m.capacity k (capacity_pos m v)

  in_range : (m : ArcVec (K × V)) → IsValid m → (k : K) → key.hash k % m.capacity < m.capacity
  in_range m v k = let p = capacity_pos m v in grind arith

  -- A key that equals a stored one is found where that is.
  pub find_stored :
      (m : ArcVec (K × V)) (k : K) (i : ℕ) (entry : K × V)
      → IsValid m
      → get_from_elements m.elements i ≡ some entry
      → key.eq entry.0 k ≡ true
      → find_slot m.elements m.capacity k ≡ returns (ok i)
  find_stored m k i entry v e same =
      let h : key.hash entry.0 ≡ key.hash k = key.hash-eq entry.0 k same in
      find_slot_lem m k v
      ∙ ap (λ n. search_from m.capacity m.elements m.capacity k (n % m.capacity) 0) (sym h)
      ∙ sym (
          search_from_congr m.elements m.capacity entry.0 k same m.capacity
            (key.hash entry.0 % m.capacity) 0)
      ∙ sym (find_slot_lem m entry.0 v)
      ∙ v.found i entry e

  abbrev pub Absent : ArcVec (K × V) → K → Type 0
  Absent m k =
      (i : ℕ) (entry : K × V)
      → get_from_elements m.elements i ≡ some entry
      → key.eq entry.0 k ≡ false

  -- A key that is not stored is answered with a free slot, as long as there is one.
  pub find_free :
      (m : ArcVec (K × V)) (k : K)
      → IsValid m
      → Absent m k
      → 0 < free m.elements
      → (j : ℕ) × (find_slot m.elements m.capacity k ≡ returns (err j))
        × (j < length m.elements)
        × (get_from_elements m.elements j ≡ none)
  find_free m k v absent room =
      let (i, below, free_at) = free-place m.elements room in
      let start : ℕ = key.hash k % m.capacity in
      let (r, e) =
        search_from-power m.elements k v.power m.capacity i v.sized (omega (arith, v.allocated))
          free_at in
      let found = find_slot_lem m k v ∙ e in
      elim (Result-cases r) [
        | inl (j, at) ↦
            let e' = e ∙ ap returns at in
            (
              j,
              found ∙ ap returns at,
              rw v.allocated
                  (search_from-lt m.elements m.capacity k m.capacity start 0 j (in_range m v k) e'),
              search_from-err m.elements m.capacity k m.capacity start 0 j e',
            )
        | inr (j, at) ↦
            let (entry, stored, same) =
              search_from-ok m.elements m.capacity k m.capacity start 0 j (e ∙ ap returns at) in
            absurd (ground (arith, absent j entry stored, same))
      ]

  -- In a full map the search for such a key panics.
  pub find_full :
      (m : ArcVec (K × V)) (k : K)
      → IsValid m
      → Absent m k
      → free m.elements ≡ 0
      → find_slot m.elements m.capacity k ≡ panics
  find_full m k v absent full =
      let start : ℕ = key.hash k % m.capacity in
      let at = find_slot_lem m k v in
      elim (Outcome-cases (find_slot m.elements m.capacity k)) [
        | inl e ↦ e
        | inr (ok j, e) ↦
            let (entry, stored, same) =
              search_from-ok m.elements m.capacity k m.capacity start 0 j (sym at ∙ e) in
            absurd (ground (arith, absent j entry stored, same))
        | inr (err j, e) ↦
            let below =
              search_from-lt m.elements m.capacity k m.capacity start 0 j (in_range m v k)
                (sym at ∙ e) in
            let is_free =
              search_from-err m.elements m.capacity k m.capacity start 0 j (sym at ∙ e) in
            absurd (
              omega (arith, (free-none m.elements j (omega (arith, below, v.allocated)) is_free).0))
      ]

  -- The map with an entry put into a slot.
  abbrev pub put_entry : ArcVec (K × V) → ℕ → K × V → ArcVec (K × V)
  put_entry m j entry = record m { elements = set m.elements j (some entry) }

  module _ (m : ArcVec (K × V)) (k : K) (value : V) (j : ℕ) (v : IsValid m)
      (at : find_slot m.elements m.capacity k ≡ returns (err j)) (below : j < length m.elements)
      (is_free : get_from_elements m.elements j ≡ none) where
    pub puts : Puts m.elements j (k, value) (put_entry m j (k, value)).elements
    puts i = get_from-set m.elements j (k, value) i below

    pub put_entry-found :
        (i : ℕ) (entry : K × V)
        → get_from_elements (put_entry m j (k, value)).elements i ≡ some entry
        → find_slot (put_entry m j (k, value)).elements m.capacity entry.0 ≡ returns (ok i)
    put_entry-found i entry stored = elim (Bool-cases (j == i)) [
      | inl here ↦
          let is_new : some (k, value) ≡ some entry = ground (arith, puts i, stored, here) in
          let same_index : j ≡ i = (==_iff j i).0 here in
          let e : (k, value) ≡ entry = cc in
          let loop =
            search_from_put m.elements (put_entry m j (k, value)).elements m.capacity j (k, value)
              puts is_free m.capacity (key.hash k % m.capacity) 0
              (sym (find_slot_lem m k v) ∙ at) in
          rw (← e, ← same_index)
            (find_slot_loop (put_entry m j (k, value)).elements m.capacity k (capacity_pos m v)
              ∙ loop)
      | inr other ↦
          let old : get_from_elements m.elements i ≡ some entry =
            ground (arith, puts i, stored, other) in
          let loop =
            search_from_kept m.elements (put_entry m j (k, value)).elements m.capacity j (k, value)
              puts is_free entry.0 m.capacity (key.hash entry.0 % m.capacity) 0 i
              (sym (find_slot_lem m entry.0 v) ∙ v.found i entry old) in
          find_slot_loop (put_entry m j (k, value)).elements m.capacity entry.0 (capacity_pos m v)
          ∙ loop
    ]

    pub put_entry-IsValid : IsValid (put_entry m j (k, value))
    put_entry-IsValid = record {
      power = v.power;
      sized = v.sized;
      allocated = length-set m.elements j (some (k, value)) ∙ v.allocated;
      unused = v.unused;
      found = put_entry-found;
    }

    pub insert_free : insert m k value ≡ returns (put_entry m j (k, value), ok none)
    unfolding insert set_at set_once
    insert_free =
        let slot = (free-none m.elements j below is_free).1 in
        let room : leb m.capacity m.used ≡ false = ground (arith, v.unused, capacity_pos m v) in
        rw at (ground (arith, slot, room))

  -- What an answer of a search says of the slots.
  abbrev pub Answers : List (Option (K × V)) → K → Result ℕ ℕ → Type 0
  Answers elements k (ok j) =
      (entry : K × V) × (get_from_elements elements j ≡ some entry) × (key.eq entry.0 k ≡ true)
  Answers elements k (err j) = (j < length elements) × (get_from_elements elements j ≡ none)

  -- Among a power of two of slots of which one is free, a search ends within as many rounds as
  -- there are slots, whatever the other slots hold: at a slot with the key, or at a free slot among
  -- them.
  pub find_slot-ends :
      (elements : List (Option (K × V))) (power capacity : ℕ) (k : K)
      → capacity ≡ 2 ^ power
      → length elements ≡ capacity
      → 0 < free elements
      → Returns (find_slot elements capacity k) (Answers elements k)
  find_slot-ends elements power capacity k e sized room =
      let (i, below, is_free) = free-place elements room in
      let start : ℕ = key.hash k % capacity in
      let some_slot : 0 < capacity = omega (arith, e, pow_pos power) in
      let low : start < capacity = grind arith in
      let loop = find_slot_loop elements capacity k some_slot in
      let (r, run) = search_from-power elements k power capacity i e (omega arith) is_free in
      elim (Result-cases r) [
        | inl (j, at) ↦ (
          err j,
          loop ∙ run ∙ ap returns at,
          (
            rw sized
                (search_from-lt elements capacity k capacity start 0 j low (run ∙ ap returns at)),
            search_from-err elements capacity k capacity start 0 j (run ∙ ap returns at),
          ),
        )
        | inr (j, at) ↦ (
          ok j,
          loop ∙ run ∙ ap returns at,
          search_from-ok elements capacity k capacity start 0 j (run ∙ ap returns at),
        )
      ]
