-- ===== src/RangeSet/Range/Laws.antt =====
-- Laws of `Range::add_num` of tiauth/tiauth-core/src/counter.rs.
use mono_old.Common.{
  ℕ, zero, suc, ◌+◌, ◌-◌, ◌^◌, ◌≤◌, ◌<◌, ◌≡◌, refl, ◌∙◌, Bool, true, false, ◌||◌, ◌&&◌, Option,
  none, some, List, [], ◌∷◌, ◌++◌, returns, ◌>>=◌, Returns, arith, ◌==◌, leb, if◌then◌else◌,
  Bool-cases, Option-cases, inl, inr, length, member, replicate, append_assoc, length-append, subst,
}
use mono_old.RangeSet.Range.{
  Range, new, Filled, there, written, no_slot_left, after, write_first, fill, small_of, with_filled,
  add_num_at, add_num,
}
use mono_old.RangeSet.Range.Slots.{
  distinct, IsWithin, member-full, member-append, distinct-append_one,
}

-- Slots in use, distinct and within the size, then at least one free slot.
pub record AreSlots (size : ℕ) (members : List ℕ) : Type 0 where
  pub used : List ℕ
  pub free : ℕ
  pub layout : members ≡ used ++ replicate (suc free) 0
  pub count : length used + suc free ≡ size
  pub is_distinct : distinct used ≡ true
  pub within : IsWithin size used

abbrev pub AreMembers : ℕ → ℕ → ℕ → Option (List ℕ) → Type 0
AreMembers size min max none = min + size ≤ max + 1
AreMembers size min max (some members) = (max + 1 ≡ min + size) × AreSlots size members

pub record IsRange (size : ℕ) (r : Range) : Type 0 where
  pub starts : 1 ≤ r.min
  pub ends : r.max < 2 ^ 64
  pub room : r.min + size ≤ r.max + 1
  pub members : AreMembers size r.min r.max r.members

abbrev pub holds_small : ℕ → Option (List ℕ) → Bool
holds_small num_small none = true
holds_small num_small (some members) = member num_small members

-- The numbers of a range.
unfoldable pub holds : Range → ℕ → Bool
holds r m = leb r.min m && leb m r.max && holds_small (m - r.min + 1) r.members

pub member-zeros : (m n : ℕ) → 1 ≤ m → member m (replicate n 0) ≡ false
member-zeros m zero h = refl
member-zeros m (suc n) h = ground (arith, member-zeros m n)

-- What the loop leaves, in terms of the slots in use.
abbrev filled : ℕ → List ℕ → ℕ → Filled
filled num_small used zero = no_slot_left
filled num_small used (suc free) = written (used ++ num_small ∷ replicate (suc free) 0)

fill_cons :
    (m x : ℕ) (used : List ℕ) (free : ℕ)
    → 1 ≤ x
    → (if x == m
        then returns there
        else (if x == 0
            then returns (write_first m (used ++ replicate (suc free) 0))
            else (returns (if member m used then there else filled m used free) >>= λ f.
                returns (after x f))))
      ≡ returns (if member m (x ∷ used) then there else filled m (x ∷ used) free)
fill_cons m x used zero h = ground arith
fill_cons m x used (suc free) h = ground arith

-- What the slots hold after a call, from what they held before it.
abbrev Fills : ℕ → ℕ → ℕ → ℕ → List ℕ → Filled → Type 0
Fills size min max m members there = member m members ≡ true
Fills size min max m members (written members') =
    (member m members ≡ false)
    × AreMembers size min max (some members')
    × ((x : ℕ) → 1 ≤ x → member x members' ≡ m == x || member x members)
Fills size min max m members no_slot_left =
    (member m members ≡ false) × ((x : ℕ) → 1 ≤ x → x ≤ size → m == x || member x members ≡ true)

append-IsWithin :
    (size m : ℕ) (used : List ℕ)
    → 1 ≤ m
    → m ≤ size
    → IsWithin size used
    → IsWithin size (used ++ m ∷ [])
append-IsWithin size m used low high within x e =
    ground (arith, member-append x used (m ∷ []), within x)

Fills-free :
    (size min max m : ℕ) (used : List ℕ) (free : ℕ) (members : List ℕ)
    → member m members ≡ false
    → max + 1 ≡ min + size
    → 1 ≤ m
    → m ≤ size
    → members ≡ used ++ replicate (suc free) 0
    → length used + suc free ≡ size
    → distinct used ≡ true
    → member m used ≡ false
    → IsWithin size used
    → Fills size min max m members (filled m used free)
Fills-free size min max m used zero members absent shape low high layout count d new within = (
  absent,
  λ x lx hx.
      let all =
        member-full size (used ++ m ∷ []) (distinct-append_one m used d new)
          (append-IsWithin size m used low high within) (omega (arith, length-append used (m ∷ [])))
          x lx hx in
      rw (layout, member-append x used (0 ∷ []))
        (ground (arith, all, member-append x used (m ∷ []))),
)
Fills-free size min max m used (suc free) members absent shape low high layout count d new within =
    (
      absent,
      (
        shape,
        record {
          used = used ++ m ∷ [];
          free = free;
          layout = append_assoc used m (replicate (suc free) 0);
          count = omega (arith, length-append used (m ∷ []));
          is_distinct = distinct-append_one m used d new;
          within = append-IsWithin size m used low high within;
        },
      ),
      λ x lx.
          rw
            (
              layout,
              member-append x used (replicate (suc (suc free)) 0),
              member-append x used (m ∷ replicate (suc free) 0),
              member-zeros x (suc (suc free)) lx,
            )
            (ground (arith, member-zeros x (suc free) lx)),
    )

fill-layout :
    (size num_small : ℕ) (used : List ℕ) (free : ℕ)
    → 1 ≤ num_small
    → IsWithin size used
    → fill num_small (used ++ replicate (suc free) 0)
      ≡ returns (if member num_small used then there else filled num_small used free)
unfolding fill
fill-layout size m [] zero h within = ground arith
fill-layout size m [] (suc free) h within = ground arith
fill-layout size m (x ∷ used) free h within =
    let nonzero = (within x (ground arith)).0 in
    rw (fill-layout size m used free h (λ y e. within y (ground arith)))
      (fill_cons m x used free nonzero)

fill-AreMembers :
    (size min max num_small : ℕ) (members : List ℕ)
    → max + 1 ≡ min + size
    → 1 ≤ num_small
    → num_small ≤ size
    → AreSlots size members
    → Returns (fill num_small members) (Fills size min max num_small members)
fill-AreMembers size min max m members shape low high slots =
    let call = fill-layout size m slots.used slots.free low slots.within in
    elim (Bool-cases (member m slots.used)) [
      | inl inside ↦
          let held : member m members ≡ true =
            rw (slots.layout, member-append m slots.used (replicate (suc slots.free) 0), inside)
              refl in
          (there, rw slots.layout (call ∙ rw inside refl), held)
      | inr outside ↦
          let absent : member m members ≡ false =
            rw (slots.layout, member-append m slots.used (replicate (suc slots.free) 0), outside)
              (member-zeros m (suc slots.free) low) in
          (
            filled m slots.used slots.free,
            rw slots.layout (call ∙ rw outside refl),
            Fills-free size min max m slots.used slots.free members absent shape low high
                slots.layout slots.count slots.is_distinct outside slots.within,
          )
    ]

-- What `add_num` makes of a range that does not hold the number yet, or that it holds.
abbrev pub Adds : ℕ → Range → ℕ → Option Range → Type 0
Adds size r num none = holds r num ≡ true
Adds size r num (some r') =
    (holds r num ≡ false)
    × IsRange size r'
    × (r'.min ≡ r.min)
    × (r'.max ≡ r.max)
    × (r'.expires ≡ r.expires)
    × ((m : ℕ) → holds r' m ≡ num == m || holds r m)

abbrev made : Range → Option (List ℕ) → Range
made r members = record { members = members; min = r.min; max = r.max; expires = r.expires }

Adds-filled :
    (size : ℕ) (r : Range) (num : ℕ) (members : List ℕ) (f : Filled)
    → r.members ≡ some members
    → IsRange size r
    → r.min ≤ num
    → num ≤ r.max
    → r.max + 1 ≡ r.min + size
    → Fills size r.min r.max (num - r.min + 1) members f
    → Adds size r num (with_filled r f)
unfolding holds
Adds-filled size r num members there e valid low high shape fills = rw e (ground arith)
Adds-filled size r num members (written members') e valid low high shape (absent, kept, sets) = (
  rw e (ground arith),
  record { starts = valid.starts; ends = valid.ends; room = valid.room; members = kept },
  refl,
  refl,
  refl,
  λ m. rw (e, sets (m - r.min + 1) (omega arith)) (ground arith),
)
Adds-filled size r num members no_slot_left e valid low high shape (absent, all) = (
  rw e (ground arith),
  record { starts = valid.starts; ends = valid.ends; room = valid.room; members = valid.room },
  refl,
  refl,
  refl,
  λ m. rw e (ground (arith, all (m - r.min + 1))),
)

full-holds :
    (r : Range) (num : ℕ) → r.members ≡ none → r.min ≤ num → num ≤ r.max → holds r num ≡ true
unfolding holds
full-holds r num e low high = rw e (ground arith)

add_some-Adds :
    (size : ℕ) (r : Range) (num num_small : ℕ) (members : List ℕ)
    → r.members ≡ some members
    → num_small ≡ num - r.min + 1
    → IsRange size r
    → r.min ≤ num
    → num ≤ r.max
    → Returns (add_num_at r num_small r.members) (Adds size r num)
add_some-Adds size r num num_small members e small valid low high =
    let (shape, slots) = subst (AreMembers size r.min r.max) e valid.members in
    let (f, call, fills) =
      fill-AreMembers size r.min r.max num_small members shape (omega arith) (omega arith) slots in
    (
      with_filled r f,
      rw (e, call) refl,
      Adds-filled size r num members f e valid low high shape
          (subst (λ s. Fills size r.min r.max s members f) small fills),
    )

-- On a well-formed range of at most 255 numbers, a number between its bounds is either held, and
-- `add_num` changes nothing, or it is added, and nothing else. The call never panics.
pub add_num-Adds :
    (size : ℕ) (r : Range) (num : ℕ)
    → size ≤ 255
    → IsRange size r
    → r.min ≤ num
    → num ≤ r.max
    → Returns (add_num r num) (Adds size r num)
unfolding add_num
add_num-Adds size r num narrow valid low high = elim (Option-cases r.members) [
  | inl e ↦ (none, rw e refl, full-holds r num e low high)
  | inr (members, e) ↦
      let (shape, slots) = subst (AreMembers size r.min r.max) e valid.members in
      add_some-Adds size r num (small_of r num) members e (omega (arith, shape)) valid low high
]

pub new-AreSlots : (size : ℕ) → 1 ≤ size → AreSlots size (replicate size 0)
unfolding distinct
new-AreSlots zero h = elim h [ ]
new-AreSlots (suc size) h = record {
  used = [];
  free = size;
  layout = refl;
  count = omega arith;
  is_distinct = refl;
  within = λ x e. cc e;
}
