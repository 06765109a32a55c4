-- ===== src/AppendOnly/Vec/Laws.antt =====
-- The vector under pushes, its slots, and what its iterator yields.
use mono_old.Common.{
  ℕ, zero, suc, ◌+◌, ◌-◌, ◌≤◌, ◌<◌, ◌≡◌, refl, ap, ◌∙◌, sym, Option, none, some, List, [], ◌∷◌,
  ◌++◌, map, Returns, Outcome, Result, ◌>>=◌, returns, ok, err, ◌==◌, if◌then◌else◌, length,
  get_elem?, set, take, replicate, arith, length-append, append_assoc, append_nil, get_elem?-append,
  set-at,
}
use mono_old.AppendOnly.Vec.{
  ArcVec, CapacityError, new, capacity_error, get_from_elements, push, set_once,
}

module _ {A : Type 0} where
  -- How many slots are not set.
  unfoldable pub free : List (Option A) → ℕ
  free [] = 0
  free (none ∷ slots) = suc (free slots)
  free (some a ∷ slots) = free slots

  pub free-set :
      (slots : List (Option A)) (i : ℕ) (a : A)
      → get_elem? slots i ≡ some none
      → free (set slots i (some a)) + 1 ≡ free slots
  unfolding free
  free-set [] i a h = cc
  free-set (none ∷ slots) zero a h = omega arith
  free-set (some b ∷ slots) zero a h = ground arith
  free-set (none ∷ slots) (suc i) a h = omega (arith, free-set slots i a h)
  free-set (some b ∷ slots) (suc i) a h = omega (arith, free-set slots i a h)

  pub free-place :
      (slots : List (Option A))
      → 0 < free slots
      → (i : ℕ) × (i < length slots) × (get_from_elements slots i ≡ none)
  unfolding free
  free-place [] h = elim h [ ]
  free-place (none ∷ slots) h = (0, omega arith, refl)
  free-place (some b ∷ slots) h = let (i, below, e) = free-place slots h in (suc i, omega arith, e)

  pub free-none :
      (slots : List (Option A)) (i : ℕ)
      → i < length slots
      → get_from_elements slots i ≡ none
      → (0 < free slots) × (get_elem? slots i ≡ some none)
  unfolding free
  free-none [] i h e = elim h [ ]
  free-none (none ∷ slots) zero h e = (omega arith, refl)
  free-none (some b ∷ slots) zero h e = cc
  free-none (none ∷ slots) (suc i) h e = (omega arith, (free-none slots i (omega arith) e).1)
  free-none (some b ∷ slots) (suc i) h e = free-none slots i (omega arith) e

  pub get_from-set :
      (slots : List (Option A)) (i : ℕ) (a : A) (j : ℕ)
      → i < length slots
      → get_from_elements (set slots i (some a)) j
        ≡ (if i == j then some a else get_from_elements slots j)
  get_from-set [] i a j h = elim h [ ]
  get_from-set (x ∷ slots) zero a zero h = refl
  get_from-set (x ∷ slots) zero a (suc j) h = ground arith
  get_from-set (x ∷ slots) (suc i) a zero h = ground arith
  get_from-set (x ∷ slots) (suc i) a (suc j) h =
      ground (arith, get_from-set slots i a j (omega arith))

-- Without the section's parameter, which its type would not determine.
pub free-replicate : (A : Type 0) (n : ℕ) → free {A = A} (replicate n none) ≡ n
unfolding free
free-replicate A zero = refl
free-replicate A (suc n) = ap suc (free-replicate A n)

module _ {A : Type 0} where
  -- The vector holds these values, in the order of their pushes.
  pub record Holds (xs : List A) (v : ArcVec A) : Type 0 where
    pub used : v.used ≡ length xs
    pub fits : length xs ≤ v.capacity
    pub slots : v.elements ≡ map some xs ++ replicate (v.capacity - length xs) none

  length-some : (xs : List A) → length (map some xs) ≡ length xs
  length-some [] = refl
  length-some (x ∷ xs) = ap suc (length-some xs)

  some-append :
      (xs : List A) (a : A) (ys : List (Option A))
      → map some xs ++ (some a ∷ ys) ≡ map some (xs ++ a ∷ []) ++ ys
  some-append [] a ys = refl
  some-append (x ∷ xs) a ys = ap (λ zs. some x ∷ zs) (some-append xs a ys)

  -- The next slot is the first that is not set.
  set_once_next :
      (pre post : List (Option A)) (i : ℕ) (a : A)
      → i ≡ length pre
      → set_once (pre ++ (none ∷ post)) i a ≡ returns (pre ++ (some a ∷ post))
  unfolding set_once
  set_once_next pre post i a e =
      let at : get_elem? (pre ++ (none ∷ post)) i ≡ some none =
        rw e (get_elem?-append pre none post) in
      rw (at, set_once) (ap returns (set-at pre none post _ (some a) i refl e))

  push-room :
      (xs : List A) (v : ArcVec A) (a : A)
      → Holds xs v
      → length xs < v.capacity
      → Returns
          (push v a)
          λ r. (r.1 ≡ ok (length xs)) × Holds (xs ++ a ∷ []) r.0 × (r.0.capacity ≡ v.capacity)
  unfolding push
  push-room xs v a h room =
      let n : ℕ = v.capacity - length xs - 1 in
      let m : v.capacity - length xs ≡ suc n = omega arith in
      let m' : v.capacity - length (xs ++ a ∷ []) ≡ n = omega (arith, length-append xs (a ∷ [])) in
      let e : v.elements ≡ map some xs ++ (none ∷ replicate n none) =
        h.slots ∙ ap (λ k. map some xs ++ replicate k none) m in
      let s : set_once v.elements v.used a ≡ returns (map some (xs ++ a ∷ []) ++ replicate n none) =
        rw (e, ← some-append xs a (replicate n none))
          (set_once_next (map some xs) (replicate n none) v.used a
            (h.used ∙ sym (length-some xs))) in
      let v' : ArcVec A = record v {
        used = v.used + 1;
        elements = map some (xs ++ a ∷ []) ++ replicate n none;
      } in
      (
        (v', ok v.used),
        ground (arith, s, h.used),
        (
          ap ok h.used,
          record {
            used = omega (arith, h.used, length-append xs (a ∷ []));
            fits = omega (arith, length-append xs (a ∷ []));
            slots = ap (λ k. map some (xs ++ a ∷ []) ++ replicate k none) (sym m');
          },
          refl,
        ),
      )

  push-full :
      (xs : List A) (v : ArcVec A) (a : A)
      → Holds xs v
      → v.capacity ≤ length xs
      → push v a ≡ returns (v, err capacity_error)
  unfolding push
  push-full xs v a h full = ground (arith, h.used)

  get_elem?-some :
      (xs : List A) (n i : ℕ)
      → get_from_elements (map some xs ++ replicate n none) i ≡ get_elem? xs i
  get_elem?-some [] zero i = refl
  get_elem?-some [] (suc n) zero = refl
  get_elem?-some [] (suc n) (suc i) = get_elem?-some [] n i
  get_elem?-some (x ∷ xs) n zero = refl
  get_elem?-some (x ∷ xs) n (suc i) = get_elem?-some xs n i

  pub push_all : List A → ArcVec A → Outcome (ArcVec A × List (Result ℕ CapacityError))
  push_all [] v = returns (v, [])
  push_all (a ∷ more) v = do
    (v', answer) ← push v a
    (w, answers) ← push_all more v'
    returns (w, answer ∷ answers)

  -- The indexes from `n` on, as long as there is room.
  pub indexes : ℕ → ℕ → List A → List (Result ℕ CapacityError)
  indexes n room [] = []
  indexes n zero (a ∷ more) = err capacity_error ∷ indexes n zero more
  indexes n (suc room) (a ∷ more) = ok n ∷ indexes (suc n) room more

  push_all-full :
      (more xs : List A) (v : ArcVec A)
      → Holds xs v
      → length xs ≡ v.capacity
      → push_all more v ≡ returns (v, indexes (length xs) 0 more)
  unfolding push_all indexes
  push_all-full [] xs v h full = refl
  push_all-full (a ∷ more) xs v h full =
      rw (push-full xs v a h (omega arith), push_all-full more xs v h full) refl

  push_all-Holds :
      (more : List A) (room : ℕ) (xs : List A) (v : ArcVec A)
      → Holds xs v
      → length xs + room ≡ v.capacity
      → Returns
          (push_all more v)
          λ r. (r.1 ≡ indexes (length xs) room more) × Holds (xs ++ take room more) r.0
  unfolding push_all indexes
  push_all-Holds [] zero xs v h e = ((v, []), refl, (refl, rw (append_nil xs) h))
  push_all-Holds [] (suc room) xs v h e = ((v, []), refl, (refl, rw (append_nil xs) h))
  push_all-Holds (a ∷ more) zero xs v h e = (
    (v, indexes (length xs) 0 (a ∷ more)),
    push_all-full (a ∷ more) xs v h (omega arith),
    (refl, rw (append_nil xs) h),
  )
  push_all-Holds (a ∷ more) (suc room) xs v h e =
      let (p, pushed, (answer, held, same)) = push-room xs v a h (omega arith) in
      let (r, run, (answers, holds)) =
        push_all-Holds more room (xs ++ a ∷ []) p.0 held
          (omega (arith, same, length-append xs (a ∷ []))) in
      let n : length (xs ++ a ∷ []) ≡ suc (length xs) = omega (arith, length-append xs (a ∷ [])) in
      (
        (r.0, p.1 ∷ r.1),
        rw (pushed, run) refl,
        (rw (answer, answers, n) refl, rw (append_assoc xs a (take room more)) holds),
      )

  new-Holds : (capacity : ℕ) → Holds [] (new capacity)
  unfolding new
  new-Holds capacity =
      let left : capacity ≡ capacity - 0 = omega arith in
      record { used = refl; fits = omega arith; slots = ap (λ n. replicate n none) left }

  -- Pushed one after the other on a new vector, values get the indexes from zero on until the
  -- capacity is reached, and then errors; every slot up to there holds its value, and the others
  -- none.
  pub push_all-new :
      (more : List A) (capacity : ℕ)
      → Returns (push_all more (new capacity)) λ r.
        (r.1 ≡ indexes 0 capacity more)
        × ((i : ℕ) → get_from_elements r.0.elements i ≡ get_elem? (take capacity more) i)
  push_all-new more capacity =
      let (r, run, (answers, h)) =
        push_all-Holds more capacity [] (new capacity) (new-Holds capacity)
          (unfold new in omega arith) in
      (r, run, (answers, λ i. rw h.slots (get_elem?-some (take capacity more) _ i)))
