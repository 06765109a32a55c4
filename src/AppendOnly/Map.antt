-- ===== src/AppendOnly/Map.antt =====
-- `AppendOnlyArcMap`, its view and `search`. The hash and the comparison of keys
-- are a parameter; a view clones the hash state, so it hashes as the map does. A hash is a u64.
pub mod Search
pub mod Laws
pub mod Refinement
pub mod Powers
pub mod Histories
pub mod Views
use mono_old.Common.{
  ℕ, zero, suc, ◌+◌, ◌*◌, ◌%◌, ◌≡◌, Bool, true, Option, none, some, List, Outcome, returns, panics,
  ◌>>=◌, Result, ok, err, leb, ◌==◌, if◌then◌else◌,
}
use mono_old.AppendOnly.Vec.{ArcVec, CapacityError, get_from_elements, set_at}
use mono_old.AppendOnly.Vec

-- The least power of two from `power` on that is at least `n`, in as many doublings as `rounds`.
unfoldable pub power_from : ℕ → ℕ → ℕ → ℕ
power_from zero power n = power
power_from (suc rounds) power n =
    let further = power_from rounds (2 * power) n in if leb n power then power else further

-- `usize::next_power_of_two`, for numbers of at most 2^63.
unfoldable pub next_power_of_two : ℕ → ℕ
unfolding power_from
next_power_of_two n = power_from 63 1 n

pub record MapView (K V : Type 0) : Type 0 where
  pub capacity : ℕ
  pub elements : List (Option (K × V))

-- What `Eq` and `Hash` promise of a type of keys.
pub record MapKey (K : Type 0) : Type 0 where
  pub hash : K → ℕ
  pub eq : K → K → Bool
  pub hash-eq : (j k : K) → eq j k ≡ true → hash j ≡ hash k
  pub eq_trans : (i j k : K) → eq i j ≡ true → eq j k ≡ true → eq i k ≡ true
  pub eq_comm : (j k : K) → eq j k ≡ eq k j
  pub eq_refl : (k : K) → eq k k ≡ true

module _ {K V : Type 0} where
  -- The test on floats, `next_power >= capacity / 0.75`, is written without the division.
  unfoldable pub new : ℕ → ArcVec (K × V)
  new requested =
      let next_power : ℕ = next_power_of_two requested in
      let doubled : ℕ = next_power_of_two next_power in
      Vec.new (if leb (4 * requested) (3 * next_power) then next_power else doubled)

  unfoldable pub view : ArcVec (K × V) → MapView K V
  view map = record { capacity = map.capacity; elements = map.elements }

module _ {K V : Type 0} ⦃key : MapKey K⦄ where
  -- The loop of `search`, with the rounds that are left.
  unfoldable pub search_from : ℕ → List (Option (K × V)) → ℕ → K → ℕ → ℕ → Outcome (Result ℕ ℕ)
  search_from zero elements capacity k index incr = panics
  search_from (suc rounds) elements capacity k index incr =
      let rest =
        search_from rounds elements capacity k ((index + (incr + 1)) % capacity) (incr + 1) in
      elim (get_from_elements elements index) [
        | none ↦ returns (err index)
        | some entry ↦ if key.eq entry.0 k then returns (ok index) else rest
      ]

  unfoldable pub find_slot : List (Option (K × V)) → ℕ → K → Outcome (Result ℕ ℕ)
  unfolding search_from
  find_slot elements capacity k =
      if capacity == 0
      then panics
      else search_from capacity elements capacity k (key.hash k % capacity) 0

  -- `get(target).unwrap().1`
  unfoldable pub value_at : List (Option (K × V)) → ℕ → Outcome V
  value_at elements index = elim (get_from_elements elements index) [
    | none ↦ panics
    | some entry ↦ returns entry.1
  ]

  abbrev insert_at :
      ArcVec (K × V)
      → K
      → V
      → Result ℕ ℕ
      → Outcome (ArcVec (K × V) × Result (Option V) CapacityError)
  insert_at map k value (ok target) =
      value_at map.elements target >>= λ old. returns (map, ok (some old))
  insert_at map k value (err index) = do
    (map', done) ← set_at map (k, value) index
    returns (map', elim done [ ok _ ↦ ok none | err e ↦ err e ])

  unfoldable pub insert :
      ArcVec (K × V) → K → V → Outcome (ArcVec (K × V) × Result (Option V) CapacityError)
  unfolding find_slot value_at
  insert map k value = find_slot map.elements map.capacity k >>= insert_at map k value

  abbrev value_of : List (Option (K × V)) → Result ℕ ℕ → Outcome (Option V)
  value_of elements (ok index) = value_at elements index >>= λ v. returns (some v)
  value_of elements (err index) = returns none

  unfoldable pub get : ArcVec (K × V) → K → Outcome (Option V)
  unfolding find_slot value_at
  get map k = find_slot map.elements map.capacity k >>= value_of map.elements

  unfoldable pub view_get : MapView K V → K → Outcome (Option V)
  unfolding find_slot value_at
  view_get v k = find_slot v.elements v.capacity k >>= value_of v.elements
