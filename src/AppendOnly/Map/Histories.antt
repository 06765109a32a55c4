-- ===== src/AppendOnly/Map/Histories.antt =====
-- Sequences of calls on a new map.
use mono_old.Common.{
  ℕ, ◌^◌, ◌≤◌, ◌≡◌, refl, sym, ap, ◌∙◌, Option, none, some, List, [], ◌∷◌, Outcome, returns, panics,
  ◌>>=◌, Result, ok, arith, length-replicate, replicate, get_elem?-replicate,
}
use mono_old.AppendOnly.Vec.{ArcVec, CapacityError, get_from_elements}
use mono_old.AppendOnly.Vec
use mono_old.AppendOnly.Vec.Laws.{free, free-replicate}
use mono_old.AppendOnly.Map.{MapKey, new, next_power_of_two, insert, get}
use mono_old.AppendOnly.Map.Powers.{next_power_of_two_lem, next_power_of_two_twice}
use mono_old.AppendOnly.Map.Refinement.{
  Entries, Models, lookup, get_entry, add_entry, Agree, insert-Models, get-Models,
}

pub data Call (K V : Type 0) : Type 0 where
  insertion : K → V → Call K V
  query : K → Call K V

module _ {K V : Type 0} ⦃key : MapKey K⦄ where
  -- The answers of a sequence of inserts and lookups.
  pub answers : List (Call K V) → ArcVec (K × V) → Outcome (List (Result (Option V) CapacityError))
  answers [] m = returns []
  answers (insertion k v ∷ more) m = do
    (m', answer) ← insert m k v
    rest ← answers more m'
    returns (answer ∷ rest)
  answers (query k ∷ more) m = do
    answer ← get m k
    rest ← answers more m
    returns (ok answer ∷ rest)

  pub promised : List (Call K V) → Entries K V → Outcome (List (Result (Option V) CapacityError))
  promised [] s = returns []
  promised (insertion k v ∷ more) s = do
    (s', answer) ← add_entry s k v
    rest ← promised more s'
    returns (answer ∷ rest)
  promised (query k ∷ more) s = do
    answer ← get_entry s k
    rest ← promised more s
    returns (ok answer ∷ rest)

  Agree->>= :
      {R S : Type 0} (x : Outcome (ArcVec (K × V) × R)) (y : Outcome (Entries K V × R))
      (f : ArcVec (K × V) × R → Outcome S) (g : Entries K V × R → Outcome S)
      → Agree x y
      → ((m : ArcVec (K × V)) (s : Entries K V) (a : R) → Models s m → f (m, a) ≡ g (s, a))
      → (x >>= f) ≡ (y >>= g)
  Agree->>= panics panics f g h same = refl
  Agree->>= panics (returns q) f g h same = elim h [ ]
  Agree->>= (returns p) panics f g h same = elim h [ ]
  Agree->>= (returns (m, a)) (returns (s, b)) f g (e, h) same = same m s a h ∙ ap (λ c. g (s, c)) e

  answers-promised :
      (calls : List (Call K V)) (s : Entries K V) (m : ArcVec (K × V))
      → Models s m
      → answers calls m ≡ promised calls s
  unfolding answers promised
  answers-promised [] s m h = refl
  answers-promised (query k ∷ more) s m h =
      rw (get-Models s m k h, answers-promised more s m h) refl
  answers-promised (insertion k v ∷ more) s m h =
      Agree->>= (insert m k v) (add_entry s k v) _ _ (insert-Models s m k v h)
        λ m' s' a h'. rw (answers-promised more s' m' h') refl

  abbrev pub empty : ℕ → Entries K V
  empty n = record { entries = []; bound = n }

  none_stored :
      (c i : ℕ) (entry : K × V)
      → get_from_elements (replicate {A = Option (K × V)} c none) i ≡ some entry
      → ⊥
  none_stored c i entry e = ground (arith, e, get_elem?-replicate {A = Option (K × V)} c none i)

  pub new-Models : (n : ℕ) → n ≤ 2 ^ 63 → Models (empty (next_power_of_two n)) (new n)
  unfolding new Vec.new lookup
  new-Models n h =
      let (q, power, above, least) = next_power_of_two_lem n h in
      let again = next_power_of_two_twice n h in
      let made : ArcVec (K × V) = new n in
      let size : made.capacity ≡ next_power_of_two n = ground (arith, again) in
      let all_free : free {A = K × V} made.elements ≡ made.capacity =
        free-replicate (K × V) made.capacity in
      record {
        valid = record {
          power = q;
          sized = size ∙ power;
          allocated = length-replicate made.capacity none;
          unused = refl;
          found = λ i entry e. absurd (none_stored made.capacity i entry e);
        };
        bounded = sym size;
        counted = omega (arith, all_free);
        stored = λ k v e. absurd cc;
        absent = λ k e i entry at. absurd (none_stored made.capacity i entry at);
      }

  -- Whatever calls are made on a new map, it answers them as a list of entries, bounded by the
  -- least power of two that is not below the requested capacity, panics included.
  pub answers-new :
      (calls : List (Call K V)) (n : ℕ)
      → n ≤ 2 ^ 63
      → answers calls (new n) ≡ promised calls (empty (next_power_of_two n))
  answers-new calls n h = answers-promised calls _ (new n) (new-Models n h)
