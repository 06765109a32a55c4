-- ===== src/AppendOnly/Vec/Iteration.antt =====
-- What the iterator yields, in the order of the calls of `next`.
use mono_old.Common.{
  ℕ, zero, suc, ◌+◌, ◌-◌, ◌≤◌, ◌<◌, ◌≡◌, refl, ap, ◌∙◌, sym, ◌⊎◌, inl, inr, Option, none, some,
  List, [], ◌∷◌, ◌++◌, returns, ◌>>=◌, lt→ltb, length, get_elem?, take, arith, length-append,
  append_assoc, get_elem?-append,
}
use mono_old.AppendOnly.Vec.{Iter, iter, next, next_from}

module _ {A : Type 0} where
  pub present : List (Option A) → List A
  present [] = []
  present (none ∷ slots) = present slots
  present (some a ∷ slots) = a ∷ present slots

  -- What calls of `next` yield until one yields nothing.
  pub collect : ℕ → Iter A → List A
  collect zero it = []
  collect (suc calls) it =
      let (it', item) = next it in elim item [ none ↦ [] | some a ↦ a ∷ collect calls it' ]

  abbrev at : List (Option A) → ℕ → ℕ → Iter A
  at slots index max_index = record { elements = slots; index = index; max_index = max_index }

  -- The loop stops behind the next slot that is set.
  record Stops (slots : List (Option A)) (max_index rounds : ℕ) (post : List (Option A))
      (r : Iter A × Option A) (a : A) : Type 0 where
    seen : List (Option A)
    rest : List (Option A)
    left : ℕ
    split : slots ≡ seen ++ rest
    answer : r ≡ (at slots (length seen) max_index, some a)
    fewer : left < rounds
    ends : length seen + left ≡ max_index
    fits : left ≤ length rest
    yields : present (take rounds post) ≡ a ∷ present (take left rest)

  skip :
      (slots : List (Option A)) (max_index rounds i : ℕ)
      → get_elem? slots i ≡ some none
      → next_from (suc rounds) (at slots i max_index)
        ≡ next_from rounds (at slots (i + 1) max_index)
  unfolding next_from
  skip slots max_index rounds i e = ground (arith, e)

  stop :
      (slots : List (Option A)) (max_index rounds i : ℕ) (a : A)
      → get_elem? slots i ≡ some (some a)
      → next_from (suc rounds) (at slots i max_index) ≡ (at slots (i + 1) max_index, some a)
  unfolding next_from
  stop slots max_index rounds i a e = ground (arith, e)

  next_from-at :
      (slots : List (Option A)) (max_index rounds : ℕ) (pre post : List (Option A))
      → slots ≡ pre ++ post
      → length pre + rounds ≡ max_index
      → rounds ≤ length post
      → ((next_from rounds (at slots (length pre) max_index)).1 ≡ none)
          × (present (take rounds post) ≡ [])
        ⊎ ((a : A) × Stops slots max_index rounds post
              (next_from rounds (at slots (length pre) max_index))
              a)
  unfolding next_from present
  next_from-at slots max_index zero pre post e m k = inl (refl, refl)
  next_from-at slots max_index (suc rounds) pre [] e m k = absurd (omega arith)
  next_from-at slots max_index (suc rounds) pre (none ∷ post) e m k =
      let here : get_elem? slots (length pre) ≡ some none = rw e (get_elem?-append pre none post) in
      let n : length (pre ++ none ∷ []) ≡ length pre + 1 =
        omega (arith, length-append pre (none ∷ [])) in
      let ih =
        next_from-at slots max_index rounds (pre ++ none ∷ []) post (e ∙ append_assoc pre none post)
          (omega arith) (omega arith) in
      let step : next_from (suc rounds) (at slots (length pre) max_index)
          ≡ next_from rounds (at slots (length (pre ++ none ∷ [])) max_index) =
        rw (n, skip slots max_index rounds (length pre) here) refl in
      elim ih [
        | inl (nothing, empty) ↦ inl (ap (λ r. r.1) step ∙ nothing, empty)
        | inr (a, s) ↦ inr (
          a,
          record {
            seen = s.seen;
            rest = s.rest;
            left = s.left;
            split = s.split;
            answer = step ∙ s.answer;
            fewer = omega (arith, s.fewer);
            ends = s.ends;
            fits = s.fits;
            yields = s.yields;
          },
        )
      ]
  next_from-at slots max_index (suc rounds) pre (some a ∷ post) e m k =
      let here : get_elem? slots (length pre) ≡ some (some a) =
        rw e (get_elem?-append pre (some a) post) in
      let n : length (pre ++ some a ∷ []) ≡ length pre + 1 =
        omega (arith, length-append pre (some a ∷ [])) in
      inr (
        a,
        record {
          seen = pre ++ some a ∷ [];
          rest = post;
          left = rounds;
          split = e ∙ append_assoc pre (some a) post;
          answer = rw (n, stop slots max_index rounds (length pre) a here) refl;
          fewer = omega arith;
          ends = omega arith;
          fits = omega arith;
          yields = refl;
        },
      )

  collect-none : (calls : ℕ) (it : Iter A) → (next it).1 ≡ none → collect (suc calls) it ≡ []
  unfolding collect
  collect-none calls it e = ground (arith, e)

  collect-some :
      (calls : ℕ) (it it' : Iter A) (a : A)
      → next it ≡ (it', some a)
      → collect (suc calls) it ≡ a ∷ collect calls it'
  unfolding collect
  collect-some calls it it' a e = rw (e, collect) (ap (λ r. a ∷ collect calls r.0) e)

  collect-at :
      (slots : List (Option A)) (max_index calls rounds : ℕ) (pre post : List (Option A))
      → slots ≡ pre ++ post
      → length pre + rounds ≡ max_index
      → rounds ≤ length post
      → rounds < calls
      → collect calls (at slots (length pre) max_index) ≡ present (take rounds post)
  unfolding next
  collect-at slots max_index zero rounds pre post e m k h = elim h [ ]
  collect-at slots max_index (suc calls) rounds pre post e m k h =
      let it : Iter A = at slots (length pre) max_index in
      let left : max_index - length pre ≡ rounds = omega arith in
      let now : next it ≡ next_from rounds it = ap (λ n. next_from n it) left in
      elim (next_from-at slots max_index rounds pre post e m k) [
        | inl (nothing, empty) ↦ collect-none calls it (ap (λ r. r.1) now ∙ nothing) ∙ sym empty
        | inr (a, s) ↦
            let more =
              collect-at slots max_index calls s.left s.seen s.rest s.split s.ends s.fits
                (omega (arith, s.fewer)) in
            collect-some calls it (at slots (length s.seen) max_index) a (now ∙ s.answer)
            ∙ ap (λ items. a ∷ items) more
            ∙ sym s.yields
      ]

  -- An iterator over slots yields those that are set, in order, the last slot apart.
  pub iter-present :
      (slots : List (Option A)) (calls : ℕ)
      → 0 < length slots
      → length slots ≤ calls
      → (iter slots >>= λ it. returns (collect calls it))
        ≡ returns (present (take (length slots - 1) slots))
  unfolding iter
  iter-present slots calls h k =
      let c =
        collect-at slots (length slots - 1) calls (length slots - 1) [] slots refl (omega arith)
          (omega arith) (omega arith) in
      rw (lt→ltb 0 (length slots) h) (ap returns c)
