-- ===== src/AppendOnly/Vec.antt =====
-- `AppendOnlyArcVec`, its two modes and its iterator. A slot is what its `OnceLock` holds. A view
-- shares the slots, so it is read at the slots of the moment. Overflow checks are on.
pub mod Laws
pub mod Iteration
use mono_old.Common.{
  ℕ, zero, suc, ◌+◌, ◌-◌, Option, none, some, List, [], ◌∷◌, Outcome, returns, panics, ◌>>=◌,
  Result, ok, err, ltb, leb, if◌then◌else◌, length, get_elem?, set, replicate,
}

pub data CapacityError : Type 0 where
  capacity_error : CapacityError

pub record ArcVec (A : Type 0) : Type 0 where
  pub capacity : ℕ
  pub used : ℕ
  pub elements : List (Option A)

pub record Iter (A : Type 0) : Type 0 where
  pub elements : List (Option A)
  pub index : ℕ
  pub max_index : ℕ

module _ {A : Type 0} where
  unfoldable pub new : ℕ → ArcVec A
  new capacity = record { capacity = capacity; used = 0; elements = replicate capacity none }

  pub view : ArcVec A → List (Option A)
  view v = v.elements

  abbrev pub get_from_elements : List (Option A) → ℕ → Option A
  get_from_elements elements i = elim (get_elem? elements i) [ none ↦ none | some slot ↦ slot ]

  -- `elements[i].set(value).ok().unwrap()`
  unfoldable pub set_once : List (Option A) → ℕ → A → Outcome (List (Option A))
  set_once elements i value = elim (get_elem? elements i) [
    | none ↦ panics
    | some (some old) ↦ panics
    | some none ↦ returns (set elements i (some value))
  ]

  unfoldable pub push : ArcVec A → A → Outcome (ArcVec A × Result ℕ CapacityError)
  unfolding set_once
  push v value =
      let i : ℕ = v.used in
      if leb v.capacity i then returns (v, err capacity_error) else (do
        elements ← set_once v.elements i value
        returns (record v { used = v.used + 1; elements = elements }, ok i))

  unfoldable pub set_at : ArcVec A → A → ℕ → Outcome (ArcVec A × Result (Unit {0}) CapacityError)
  unfolding set_once
  set_at v value i = if leb v.capacity v.used then returns (v, err capacity_error) else (do
    elements ← set_once v.elements i value
    returns (record v { elements = elements }, ok tt))

  unfoldable pub iter : List (Option A) → Outcome (Iter A)
  iter elements =
      if ltb 0 (length elements)
      then returns (record { elements = elements; index = 0; max_index = length elements - 1 })
      else panics

  -- The loop of `next`, with the rounds that are left.
  pub next_from : ℕ → Iter A → Iter A × Option A
  next_from zero it = (it, none)
  next_from (suc rounds) it =
      let it' : Iter A = record it { index = it.index + 1 } in
      elim (get_from_elements it.elements it.index) [
        | some element ↦ (it', some element)
        | none ↦ next_from rounds it'
      ]

  unfoldable pub next : Iter A → Iter A × Option A
  unfolding next_from
  next it = next_from (it.max_index - it.index) it
