-- ===== src/AppendOnly/Map/Refinement.antt =====
-- What the map promises: a list of entries of bounded length, in which the first entry of a key
-- stays. At its bound, the answer for a key that it does not hold is a panic.
use mono_old.Common.{
  ℕ, ◌+◌, ◌<◌, ◌≡◌, refl, ap, true, false, inl, inr, Option, none, some, List, [], ◌∷◌, Outcome,
  returns, panics, Result, ok, err, ◌==◌, if◌then◌else◌, length, arith, Bool-cases, Option-cases,
  ==_iff,
}
use mono_old.AppendOnly.Vec.{ArcVec, CapacityError, get_from_elements}
use mono_old.AppendOnly.Vec.Laws.{free, free-set, free-none}
use mono_old.AppendOnly.Map.{MapKey, find_slot, insert, get, value_at}
use mono_old.AppendOnly.Map.Laws.{
  IsValid, Absent, find_stored, find_free, find_full, put_entry, puts, put_entry-IsValid,
  insert_free,
}

pub record Entries (K V : Type 0) : Type 0 where
  pub entries : List (K × V)
  pub bound : ℕ

module _ {K V : Type 0} ⦃key : MapKey K⦄ where
  unfoldable pub lookup : K → List (K × V) → Option V
  lookup k [] = none
  lookup k (entry ∷ more) = if key.eq entry.0 k then some entry.1 else lookup k more

  unfoldable pub get_entry : Entries K V → K → Outcome (Option V)
  unfolding lookup
  get_entry s k = elim (lookup k s.entries) [
    | some v ↦ returns (some v)
    | none ↦ if length s.entries == s.bound then panics else returns none
  ]

  pub add_entry : Entries K V → K → V → Outcome (Entries K V × Result (Option V) CapacityError)
  unfolding lookup
  add_entry s k v = elim (lookup k s.entries) [
    | some old ↦ returns (s, ok (some old))
    | none ↦
        if length s.entries == s.bound
        then panics
        else returns (record s { entries = (k, v) ∷ s.entries }, ok none)
  ]

  abbrev Stored : ArcVec (K × V) → K → V → Type 0
  Stored m k v =
      (i : ℕ) × (entry : K × V) × (get_from_elements m.elements i ≡ some entry)
      × (key.eq entry.0 k ≡ true)
      × (entry.1 ≡ v)

  -- The slots hold the entries.
  pub record Models (s : Entries K V) (m : ArcVec (K × V)) : Type 0 where
    pub valid : IsValid m
    pub bounded : s.bound ≡ m.capacity
    pub counted : length s.entries + free m.elements ≡ m.capacity
    pub stored : (k : K) (v : V) → lookup k s.entries ≡ some v → Stored m k v
    pub absent : (k : K) → lookup k s.entries ≡ none → Absent m k

  pub get-Models :
      (s : Entries K V) (m : ArcVec (K × V)) (k : K) → Models s m → get m k ≡ get_entry s k
  unfolding get get_entry value_at
  get-Models s m k h = elim (Option-cases (lookup k s.entries)) [
    | inr (v, e) ↦
        let (i, entry, at, same, value) = h.stored k v e in
        let found = find_stored m k i entry h.valid at same in ground (arith, e, found, at, value)
    | inl e ↦ elim (Bool-cases (length s.entries == s.bound)) [
      | inl full ↦
          let n : free m.elements ≡ 0 =
            omega (arith, h.counted, h.bounded, (==_iff (length s.entries) s.bound).0 full) in
          ground (arith, e, full, find_full m k h.valid (h.absent k e) n)
      | inr room ↦
          let n : 0 < free m.elements = ground (arith, h.counted, h.bounded) in
          ground (arith, e, room, (find_free m k h.valid (h.absent k e) n).1)
    ]
  ]

  unfoldable pub add : Entries K V → K → V → Entries K V
  add s k v = record s { entries = (k, v) ∷ s.entries }

  put_entry-Models :
      (s : Entries K V) (m : ArcVec (K × V)) (k : K) (v : V) (j : ℕ)
      → Models s m
      → lookup k s.entries ≡ none
      → find_slot m.elements m.capacity k ≡ returns (err j)
      → j < length m.elements
      → get_from_elements m.elements j ≡ none
      → Models (add s k v) (put_entry m j (k, v))
  unfolding add lookup
  put_entry-Models s m k v j h e at below is_free =
      let put = puts m k v j h.valid at below is_free in
      let moved = λ (i : ℕ) (entry : K × V) (old : get_from_elements m.elements i ≡ some entry).
        (let shifted : get_from_elements (put_entry m j (k, v)).elements i ≡ some entry =
            ground (arith, put i, old, is_free) in
          shifted) in
      record {
        valid = put_entry-IsValid m k v j h.valid at below is_free;
        bounded = h.bounded;
        counted = omega (
          arith,
          h.counted,
          free-set m.elements j (k, v) (free-none m.elements j below is_free).1,
        );
        stored = λ q w found. elim (Bool-cases (key.eq k q)) [
          | inl same ↦ (j, (k, v), ground (arith, put j), same, ground (arith, same, found))
          | inr other ↦
              let (i, entry, old, same, value) = h.stored q w (ground (arith, other, found)) in
              (i, entry, moved i entry old, same, value)
        ];
        absent = λ q lost i entry stored. elim (Bool-cases (j == i)) [
          | inl here ↦
              let is_new : some (k, v) ≡ some entry = ground (arith, put i, stored, here) in
              let same : (k, v) ≡ entry = cc in rw (← same) (ground (arith, lost))
          | inr other ↦
              h.absent q (ground (arith, lost)) i entry (ground (arith, put i, stored, other))
        ];
      }

  -- Two answers of a call agree: both panic, or both return, with the same answer and states
  -- that still belong together.
  abbrev pub Agree :
      {R : Type 0} → Outcome (ArcVec (K × V) × R) → Outcome (Entries K V × R) → Type 0
  Agree panics panics = Unit {0}
  Agree panics (returns q) = ⊥
  Agree (returns p) panics = ⊥
  Agree (returns (m, a)) (returns (s, b)) = (a ≡ b) × Models s m

  -- An insert that finds the key.
  insert_stored :
      (m : ArcVec (K × V)) (k : K) (v : V) (i : ℕ) (entry : K × V)
      → find_slot m.elements m.capacity k ≡ returns (ok i)
      → get_from_elements m.elements i ≡ some entry
      → insert m k v ≡ returns (m, ok (some entry.1))
  unfolding insert value_at
  insert_stored m k v i entry found at = rw found (ground (arith, at))

  insert_full :
      (m : ArcVec (K × V)) (k : K) (v : V)
      → find_slot m.elements m.capacity k ≡ panics
      → insert m k v ≡ panics
  unfolding insert
  insert_full m k v e = rw e refl

  Agree-at :
      {R : Type 0} (x a : Outcome (ArcVec (K × V) × R)) (y b : Outcome (Entries K V × R))
      → x ≡ a
      → y ≡ b
      → Agree a b
      → Agree x y
  Agree-at x a y b p q h = rw (p, q) h

  pub add_entry_full :
      (s : Entries K V) (k : K) (v : V)
      → lookup k s.entries ≡ none
      → (length s.entries == s.bound) ≡ true
      → add_entry s k v ≡ panics
  unfolding add_entry
  add_entry_full s k v e full = ground (arith, e, full)

  pub add_entry_new :
      (s : Entries K V) (k : K) (v : V)
      → lookup k s.entries ≡ none
      → (length s.entries == s.bound) ≡ false
      → add_entry s k v ≡ returns (add s k v, ok none)
  unfolding add_entry add
  add_entry_new s k v e room = ground (arith, e, room)

  pub add_entry_old :
      (s : Entries K V) (k : K) (v old : V)
      → lookup k s.entries ≡ some old
      → add_entry s k v ≡ returns (s, ok (some old))
  unfolding add_entry
  add_entry_old s k v old e = ground (arith, e)

  pub insert-Models :
      (s : Entries K V) (m : ArcVec (K × V)) (k : K) (v : V)
      → Models s m
      → Agree (insert m k v) (add_entry s k v)
  insert-Models s m k v h = elim (Option-cases (lookup k s.entries)) [
    | inr (old, e) ↦
        let (i, entry, at, same, value) = h.stored k old e in
        Agree-at _ _ _ _ (insert_stored m k v i entry (find_stored m k i entry h.valid at same) at)
          (add_entry_old s k v old e) (ap (λ w. ok (some w)) value, h)
    | inl e ↦ elim (Bool-cases (length s.entries == s.bound)) [
      | inl full ↦
          let n : free m.elements ≡ 0 =
            omega (arith, h.counted, h.bounded, (==_iff (length s.entries) s.bound).0 full) in
          Agree-at _ _ _ _ (insert_full m k v (find_full m k h.valid (h.absent k e) n))
            (add_entry_full s k v e full) tt
      | inr room ↦
          let n : 0 < free m.elements = ground (arith, h.counted, h.bounded) in
          let (j, at, below, is_free) = find_free m k h.valid (h.absent k e) n in
          Agree-at _ _ _ _ (insert_free m k v j h.valid at below is_free)
            (add_entry_new s k v e room) (refl, put_entry-Models s m k v j h e at below is_free)
    ]
  ]
