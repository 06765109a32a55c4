-- ===== src/AppendOnly/Map/Search.antt =====
-- What `search` finds, and that it ends.
use native.Mathlib.Nat.{mod-add-mod, pow-suc}
use mono_old.Common.{
  ℕ, zero, suc, ◌+◌, ◌*◌, ◌%◌, ◌^◌, ◌<◌, ◌≡◌, refl, ap, ◌∙◌, true, Option, none, some, List,
  returns, Result, ok, err, ◌==◌, if◌then◌else◌, arith, inl, inr, Bool-cases, Option-cases,
}
use mono_old.AppendOnly.Probing.{triangle, probe-hits}
use mono_old.AppendOnly.Vec.{get_from_elements}
use mono_old.AppendOnly.Map.{MapKey, search_from}

-- The slot that the round `n` looks at.
pub place : ℕ → ℕ → ℕ → ℕ → ℕ
place capacity index incr zero = index
place capacity index incr (suc n) = place capacity ((index + (incr + 1)) % capacity) (incr + 1) n

place_lem : (c a incr n : ℕ) → place c (a % c) incr n ≡ (a + (incr * n + triangle n)) % c
unfolding place triangle
place_lem c a incr zero = ap (λ m. m % c) (omega arith)
place_lem c a incr (suc n) =
    let e : (a + (incr + 1)) + ((incr + 1) * n + triangle n)
        ≡ a + (incr * suc n + (triangle n + suc n)) =
      grind arith in
    rw (mod-add-mod a c (incr + 1), place_lem c (a + (incr + 1)) (incr + 1) n, e) refl

-- `written` is `elements` with the entry put into the free slot `target`.
abbrev pub Puts : {A : Type 0} → List (Option A) → ℕ → A → List (Option A) → Type 0
Puts elements target entry written =
    (i : ℕ)
    → get_from_elements written i
      ≡ (if target == i then some entry else get_from_elements elements i)

module _ {K V : Type 0} ⦃key : MapKey K⦄ where
  module _ (elements : List (Option (K × V))) (capacity : ℕ) (k : K) where
    -- A round that meets a free slot is the last.
    search_from_ends :
        (rounds index incr n : ℕ)
        → n < rounds
        → get_from_elements elements (place capacity index incr n) ≡ none
        → (r : Result ℕ ℕ) × (search_from rounds elements capacity k index incr ≡ returns r)
    unfolding place search_from
    search_from_ends zero index incr n h free = absurd (omega arith)
    search_from_ends (suc rounds) index incr zero h free = (err index, ground (arith, free))
    search_from_ends (suc rounds) index incr (suc n) h free =
        let rest =
          search_from_ends rounds ((index + (incr + 1)) % capacity) (incr + 1) n (omega arith)
            free in
        elim (Option-cases (get_from_elements elements index)) [
          | inl e ↦ (err index, ground (arith, e))
          | inr (entry, e) ↦ elim (Bool-cases (key.eq entry.0 k)) [
            | inl same ↦ (ok index, ground (arith, e, same))
            | inr other ↦ (rest.0, ground (arith, e, other, rest.1))
          ]
        ]

    pub search_from-err :
        (rounds index incr j : ℕ)
        → search_from rounds elements capacity k index incr ≡ returns (err j)
        → get_from_elements elements j ≡ none
    unfolding search_from
    search_from-err zero index incr j h = cc
    search_from-err (suc rounds) index incr j h =
        ground (arith, search_from-err rounds ((index + (incr + 1)) % capacity) (incr + 1) j)

    pub search_from-ok :
        (rounds index incr j : ℕ)
        → search_from rounds elements capacity k index incr ≡ returns (ok j)
        → (entry : K × V) × (get_from_elements elements j ≡ some entry) × (key.eq entry.0 k ≡ true)
    unfolding search_from
    search_from-ok zero index incr j h = cc
    search_from-ok (suc rounds) index incr j h =
        let ih = search_from-ok rounds ((index + (incr + 1)) % capacity) (incr + 1) j in
        elim (Option-cases (get_from_elements elements index)) [
          | inl e ↦ absurd (ground (arith, e))
          | inr (entry, e) ↦ elim (Bool-cases (key.eq entry.0 k)) [
            | inl same ↦ (entry, ground (arith, e, same), same)
            | inr other ↦ ih (ground (arith, e, other))
          ]
        ]

    -- What is in range stays so.
    pub search_from-lt :
        (rounds index incr j : ℕ)
        → index < capacity
        → search_from rounds elements capacity k index incr ≡ returns (err j)
        → j < capacity
    unfolding search_from
    search_from-lt zero index incr j h e = cc
    search_from-lt (suc rounds) index incr j h e =
        let below : (index + (incr + 1)) % capacity < capacity = grind arith in
        ground (arith, search_from-lt rounds ((index + (incr + 1)) % capacity) (incr + 1) j below)

  -- Equal keys are searched alike.
  pub search_from_congr :
      (elements : List (Option (K × V))) (capacity : ℕ) (a b : K)
      → key.eq a b ≡ true
      → (rounds index incr : ℕ)
      → search_from rounds elements capacity a index incr
        ≡ search_from rounds elements capacity b index incr
  unfolding search_from
  search_from_congr elements capacity a b h zero index incr = refl
  search_from_congr elements capacity a b h (suc rounds) index incr =
      let ih =
        search_from_congr elements capacity a b h rounds ((index + (incr + 1)) % capacity)
          (incr + 1) in
      elim (Option-cases (get_from_elements elements index)) [
        | inl e ↦ ground (arith, e)
        | inr (entry, e) ↦
            ground
              (arith, e, ih, key.eq_trans entry.0 a b, key.eq_trans entry.0 b a, key.eq_comm a b)
      ]

  module _ (elements written : List (Option (K × V))) (capacity target : ℕ) (entry : K × V)
      (puts : Puts elements target entry written)
      (free : get_from_elements elements target ≡ none) where
    -- A search that found its key still finds it.
    pub search_from_kept :
        (k : K) (rounds index incr j : ℕ)
        → search_from rounds elements capacity k index incr ≡ returns (ok j)
        → search_from rounds written capacity k index incr ≡ returns (ok j)
    unfolding search_from
    search_from_kept k zero index incr j h = cc
    search_from_kept k (suc rounds) index incr j h = ground (
      arith,
      puts index,
      free,
      search_from_kept k rounds ((index + (incr + 1)) % capacity) (incr + 1) j,
    )

    -- A search that ended at the slot finds the new entry.
    pub search_from_put :
        (rounds index incr : ℕ)
        → search_from rounds elements capacity entry.0 index incr ≡ returns (err target)
        → search_from rounds written capacity entry.0 index incr ≡ returns (ok target)
    unfolding search_from
    search_from_put zero index incr h = cc
    search_from_put (suc rounds) index incr h = ground (
      arith,
      puts index,
      free,
      key.eq_refl entry.0,
      search_from_put rounds ((index + (incr + 1)) % capacity) (incr + 1),
    )

pub pow_pos : (p : ℕ) → 0 < 2 ^ p
pow_pos zero = omega arith
pow_pos (suc p) = omega (arith, pow-suc 2 p, pow_pos p)

-- With a power of two of slots, the rounds of a search come to every slot.
pub search_from-power :
    {K V : Type 0} ⦃key : MapKey K⦄ (elements : List (Option (K × V))) (k : K) (p c j : ℕ)
    → c ≡ 2 ^ p
    → j < c
    → get_from_elements elements j ≡ none
    → (r : Result ℕ ℕ) × (search_from c elements c k (key.hash k % c) 0 ≡ returns r)
search_from-power ⦃key⦄ elements k p c j e h free =
    let (i, below, hits) = probe-hits p (key.hash k) j (rw (← e) h) in
    let at : place c (key.hash k % c) 0 i ≡ j =
      place_lem c (key.hash k) 0 i
      ∙ ap (λ n. (key.hash k + n) % c) (omega arith)
      ∙ ap (λ n. (key.hash k + triangle i) % n) e
      ∙ hits in
    search_from_ends elements c k c (key.hash k % c) 0 i (omega (arith, e)) (rw at free)
