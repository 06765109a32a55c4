-- ===== src/Claims/Subset.antt =====
-- `ClaimsView::subset_linear` of tiauth/tiauth-core/src/data.rs. The calls of its action are listed
-- in their order.
use mono_old.Common.{
  ℕ, suc, ◌+◌, ◌≡◌, refl, sym, ap, ◌∙◌, subst, true, false, none, some, List, [], ◌∷◌, ◌++◌,
  Outcome, returns, panics, if◌then◌else◌, length, get_elem?, ◌==◌, arith, Bool-cases, inl, inr,
  append_assoc, length-append, get_elem?-after, get_elem?-at,
}
use mono_old.Claims.{Ordered, Claims}
use mono_old.Claims.Sorted.{
  value_of, IsValid, IsAscending, Below, Below-trans, same_symm, less_apart, less_asym,
}
use mono_old.Claims.Remove.{among, AllAmong, AllAmong-behind, Below-among}

pub data FindResult (K V : Type 0) : Type 0 where
  found : K → V → FindResult K V
  not_found : K → FindResult K V

module _ {K : Type 0} ⦃order : Ordered K⦄ {V : Type 0} where
  abbrev pub then_call :
      FindResult K V → Outcome (List (FindResult K V)) → Outcome (List (FindResult K V))
  then_call call (returns calls) = returns (call ∷ calls)
  then_call call panics = panics

  -- The loop over the names, of which `k_i` were passed; `i` is the index of the current one of the
  -- subset.
  unfoldable pub linear_from :
      List V → List K → ℕ → ℕ → K → List K → Outcome (List (FindResult K V))
  linear_from values subset k_i i current [] = returns []
  linear_from values subset k_i i current (k ∷ ks) =
      let rest = linear_from values subset (k_i + 1) i current ks in
      let advanced = λ (next : K). linear_from values subset (k_i + 1) (i + 1) next ks in
      if order.same current k
      then elim (get_elem? values k_i) [
        | none ↦ panics
        | some v ↦
            if i + 1 == length subset
            then returns (found k v ∷ [])
            else elim (get_elem? subset (i + 1)) [
              | none ↦ panics
              | some next ↦ then_call (found k v) (advanced next)
            ]
      ]
      else if order.less current k
      then then_call (not_found current) rest
      else rest

  -- The subset is asserted to have a name.
  unfoldable pub subset_linear : Claims K V → List K → Outcome (List (FindResult K V))
  unfolding linear_from
  subset_linear view [] = panics
  subset_linear view (first ∷ more) = linear_from view.values (first ∷ more) 0 0 first view.keys

  skip_round :
      (values : List V) (subset : List K) (k_i i : ℕ) (current k : K) (ks : List K)
      → order.same current k ≡ false
      → order.less current k ≡ false
      → linear_from values subset k_i i current (k ∷ ks)
        ≡ linear_from values subset (k_i + 1) i current ks
  unfolding linear_from
  skip_round values subset k_i i current k ks other behind = ground (arith, other, behind)

  last_round :
      (values : List V) (subset : List K) (k_i i : ℕ) (current k : K) (v : V) (ks : List K)
      → order.same current k ≡ true
      → get_elem? values k_i ≡ some v
      → i + 1 ≡ length subset
      → linear_from values subset k_i i current (k ∷ ks) ≡ returns (found k v ∷ [])
  unfolding linear_from
  last_round values subset k_i i current k v ks same at last = ground (arith, same, at, last)

  found_round :
      (values : List V) (subset : List K) (k_i i : ℕ) (current next k : K) (v : V) (ks : List K)
      → order.same current k ≡ true
      → get_elem? values k_i ≡ some v
      → (i + 1 == length subset) ≡ false
      → get_elem? subset (i + 1) ≡ some next
      → linear_from values subset k_i i current (k ∷ ks)
        ≡ then_call (found k v) (linear_from values subset (k_i + 1) (i + 1) next ks)
  unfolding linear_from
  found_round values subset k_i i current next k v ks same at more next_at =
      ground (arith, same, at, more, next_at)

  -- What is promised: each name of the subset with its value.
  pub entries : List K → List K → List V → List (FindResult K V)
  entries [] ks vs = []
  entries (s ∷ subset) ks vs =
      let rest = entries subset ks vs in
      elim (value_of s ks vs) [ none ↦ not_found s ∷ rest | some v ↦ found s v ∷ rest ]

  entries-skip :
      (k : K) (v : V) (subset : List K) (ks : List K) (vs : List V)
      → Below k subset
      → entries subset (k ∷ ks) (v ∷ vs) ≡ entries subset ks vs
  unfolding entries value_of
  entries-skip k v [] ks vs b = refl
  entries-skip k v (s ∷ subset) ks vs (b, bs) =
      ground (arith, less_apart k s b, entries-skip k v subset ks vs bs)

  -- The entry of the name that the claims begin with.
  entries-first :
      (current k : K) (v : V) (later ks : List K) (vs : List V)
      → order.same current k ≡ true
      → Below k later
      → entries (current ∷ later) (k ∷ ks) (v ∷ vs) ≡ found k v ∷ entries later ks vs
  unfolding entries value_of
  entries-first current k v later ks vs same b =
      let p : current ≡ k = (order.same_iff current k).0 same in
      let first : order.same k current ≡ true = (order.same_iff k current).1 (sym p) in
      ground (arith, first, ap (λ x. found x v) p, entries-skip k v later ks vs b)

  found-entries :
      (values : List V) (k_i : ℕ) (subset pre : List K) (current : K) (later : List K) (k : K)
      (v : V) (ks : List K) (vs : List V)
      → subset ≡ pre ++ (current ∷ later)
      → get_elem? values k_i ≡ some v
      → order.same current k ≡ true
      → IsAscending (current ∷ later)
      → AllAmong (current ∷ later) (k ∷ ks)
      → ((next : K) (more : List K)
          → later ≡ next ∷ more
          → IsAscending (next ∷ more)
          → AllAmong (next ∷ more) ks
          → linear_from values subset (k_i + 1) (length pre + 1) next ks
            ≡ returns (entries (next ∷ more) ks vs))
      → linear_from values subset k_i (length pre) current (k ∷ ks)
        ≡ returns (entries (current ∷ later) (k ∷ ks) (v ∷ vs))
  unfolding entries
  found-entries values k_i subset pre current [] k v ks vs at value same r (p, ps) rest =
      let n : length pre + 1 ≡ length subset =
        omega (arith, ap length at, length-append pre (current ∷ [])) in
      last_round values subset k_i (length pre) current k v ks same value n
      ∙ ap returns (sym (entries-first current k v [] ks vs same tt))
  found-entries values k_i subset pre current (next ∷ more) k v ks vs at value same (b, r) (p, ps)
        rest =
      let h : current ≡ k = (order.same_iff current k).0 same in
      let lower : Below k (next ∷ more) = subst (λ z. Below z (next ∷ more)) h b in
      let l : length subset ≡ length pre + suc (suc (length more)) =
        omega (arith, ap length at, length-append pre (current ∷ (next ∷ more))) in
      let more_left : (length pre + 1 == length subset) ≡ false = ground (arith, l) in
      let i : length pre + 1 ≡ suc (length pre) = omega arith in
      let next_at : get_elem? subset (length pre + 1) ≡ some next =
        rw (at, i) (get_elem?-after pre current (next ∷ more)) in
      found_round values subset k_i (length pre) current next k v ks same value more_left next_at
      ∙ ap (then_call (found k v))
          (rest next more refl r (AllAmong-behind k ks (next ∷ more) lower ps))
      ∙ ap returns (sym (entries-first current k v (next ∷ more) ks vs same lower))

  linear_from-entries :
      (values pre_values : List V) (subset pre : List K) (current : K) (later ks : List K)
      (vs : List V)
      → values ≡ pre_values ++ vs
      → subset ≡ pre ++ (current ∷ later)
      → IsAscending (current ∷ later)
      → IsAscending ks
      → length vs ≡ length ks
      → AllAmong (current ∷ later) ks
      → linear_from values subset (length pre_values) (length pre) current ks
        ≡ returns (entries (current ∷ later) ks vs)
  unfolding among
  linear_from-entries values pre_values subset pre current later [] vs at at' r a e (p, ps) =
      absurd cc
  linear_from-entries values pre_values subset pre current later (k ∷ ks) [] at at' r a e ps =
      absurd (omega arith)
  linear_from-entries values pre_values subset pre current later (k ∷ ks) (v ∷ vs) at at' r (b, a) e
        ps =
      let n : length (pre_values ++ v ∷ []) ≡ length pre_values + 1 =
        omega (arith, length-append pre_values (v ∷ [])) in
      let value : get_elem? values (length pre_values) ≡ some v =
        rw at (get_elem?-at pre_values v vs) in
      let at_next = at ∙ append_assoc pre_values v vs in
      elim (Bool-cases (order.same current k)) [
        | inr other ↦
            let behind : order.less k current ≡ true =
              Below-among k current ks b (ground (arith, same_symm current k other, ps.0)) in
            let all_behind : Below k (current ∷ later) =
              (behind, Below-trans k current later behind r.0) in
            skip_round values subset (length pre_values) (length pre) current k ks other
              (less_asym k current behind)
            ∙ ap (λ i. linear_from values subset i (length pre) current ks) (sym n)
            ∙ linear_from-entries values (pre_values ++ v ∷ []) subset pre current later ks vs
                at_next at' r a (omega arith) (AllAmong-behind k ks (current ∷ later) all_behind ps)
            ∙ ap returns (sym (entries-skip k v (current ∷ later) ks vs all_behind))
        | inl same ↦
            found-entries values (length pre_values) subset pre current later k v ks vs at' value
              same r ps
              λ next more l r' ps'.
                ap (λ i. linear_from values subset i (length pre + 1) next ks) (sym n)
                ∙ ap (λ i. linear_from values subset (length (pre_values ++ v ∷ [])) i next ks)
                    (omega (arith, length-append pre (current ∷ [])))
                ∙ linear_from-entries values (pre_values ++ v ∷ []) subset (pre ++ current ∷ [])
                    next more ks vs at_next
                    (at'
                      ∙ ap (λ z. pre ++ (current ∷ z)) l
                      ∙ append_assoc pre current (next ∷ more))
                    r' a (omega arith) ps'
      ]

  -- On claims in order, the linear search for a subset that has a name, is in order and is all among
  -- the claims finds each name of the subset with its value, in order, and nothing else.
  pub subset_linear-entries :
      (view : Claims K V) (first : K) (more : List K)
      → IsValid view
      → IsAscending (first ∷ more)
      → AllAmong (first ∷ more) view.keys
      → subset_linear view (first ∷ more) ≡ returns (entries (first ∷ more) view.keys view.values)
  unfolding subset_linear
  subset_linear-entries view first more h r ps =
      linear_from-entries view.values [] (first ∷ more) [] first more view.keys view.values refl
        refl r h.ascending h.paired ps
