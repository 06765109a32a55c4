-- ===== src/Claims/Remove.antt =====
-- Removing claims against their map, and where the removal stops.
use mono_old.Common.{
  ℕ, suc, ◌+◌, ◌-◌, ◌≡◌, refl, sym, ap, ◌∙◌, subst, Bool, true, false, ◌||◌, Option, none, some,
  List, [], ◌∷◌, ◌++◌, returns, ok, ltb, lt→ltb, if◌then◌else◌, length, get_elem?, All, arith,
  Bool-cases, inl, inr, append_assoc, length-append, get_elem?-after,
}
use mono_old.Claims.{Ordered, Claims, to_claims_sorted, push_claim, remove_all, remove_claims}
use mono_old.Claims.Sorted.{
  value_of, IsValid, IsAscending, Below, Below-trans, not-Below, less-same, less_apart, less_asym,
  IsAscending-is_ascending,
}

module _ {K : Type 0} ⦃order : Ordered K⦄ where
  unfoldable pub among : K → List K → Bool
  among q [] = false
  among q (k ∷ ks) = order.same k q || among q ks

  abbrev pub AllAmong : List K → List K → Type 0
  AllAmong names ks = All {0} (λ r. among r ks ≡ true) names

  pub Below-among : (j q : K) (ks : List K) → Below j ks → among q ks ≡ true → order.less j q ≡ true
  unfolding among
  Below-among j q [] h m = cc
  Below-among j q (k ∷ ks) (b, bs) m = elim (Bool-cases (order.same k q)) [
    | inl e ↦ let p : k ≡ q = (order.same_iff k q).0 e in rw (← p) b
    | inr e ↦ Below-among j q ks bs (ground (arith, e, m))
  ]

  -- Names above the first one are among the others.
  pub AllAmong-behind :
      (k : K) (ks names : List K) → Below k names → AllAmong names (k ∷ ks) → AllAmong names ks
  unfolding among
  AllAmong-behind k ks [] b h = tt
  AllAmong-behind k ks (n ∷ names) (b, bs) (h, hs) =
      (ground (arith, less_apart k n b, h), AllAmong-behind k ks names bs hs)

  among-Below : (k : K) (names : List K) → Below k names → among k names ≡ false
  unfolding among
  among-Below k [] b = refl
  among-Below k (n ∷ names) (b, bs) = ground (arith, less-same k n b, among-Below k names bs)

  module _ {V : Type 0} where
    -- What is left of claims without these names.
    pub record Removed (names : List K) (ks : List K) (vs : List V) (c : Claims K V) : Type 0 where
      pub ascending : IsAscending c.keys
      pub paired : length c.values ≡ length c.keys
      pub below : (j : K) → Below j ks → Below j c.keys
      pub values :
          (q : K) → value_of q c.keys c.values ≡ (if among q names then none else value_of q ks vs)

    -- No name that is left is the current one, and all are kept.
    remove_all-kept :
        (removals : List K) (i : ℕ) (current : K) (ks : List K) (vs : List V)
        → among current ks ≡ false
        → length vs ≡ length ks
        → remove_all removals i current ks vs ≡ returns (ok (record { keys = ks; values = vs }))
    unfolding remove_all among
    remove_all-kept removals i current [] [] a e = refl
    remove_all-kept removals i current [] (v ∷ vs) a e = absurd (omega arith)
    remove_all-kept removals i current (k ∷ ks) [] a e = absurd (omega arith)
    remove_all-kept removals i current (k ∷ ks) (v ∷ vs) a e =
        ground (arith, a, remove_all-kept removals i current ks vs)

    -- One round of the loop, on a name that is kept.
    keep_round :
        (removals : List K) (i : ℕ) (current k : K) (v : V) (ks : List K) (vs : List V)
        → order.same k current ≡ false
        → remove_all removals i current (k ∷ ks) (v ∷ vs)
          ≡ push_claim k v (remove_all removals i current ks vs)
    unfolding remove_all
    keep_round removals i current k v ks vs e = ground (arith, e)

    drop_round :
        (removals : List K) (i : ℕ) (current next k : K) (v : V) (ks : List K) (vs : List V)
        → order.same k current ≡ true
        → ltb i (length removals - 1) ≡ true
        → get_elem? removals (i + 1) ≡ some next
        → order.less next current ≡ false
        → remove_all removals i current (k ∷ ks) (v ∷ vs) ≡ remove_all removals (i + 1) next ks vs
    unfolding remove_all
    drop_round removals i current next k v ks vs e inside at ascending =
        ground (arith, e, inside, at, ascending)

    drop_last :
        (removals : List K) (i : ℕ) (current k : K) (v : V) (ks : List K) (vs : List V)
        → order.same k current ≡ true
        → i + 1 ≡ length removals
        → remove_all removals i current (k ∷ ks) (v ∷ vs) ≡ remove_all removals i current ks vs
    unfolding remove_all
    drop_last removals i current k v ks vs e last = ground (arith, e)

    keep-Removed :
        (names : List K) (k : K) (v : V) (ks : List K) (vs : List V) (c : Claims K V)
        → Below k ks
        → Below k names
        → Removed names ks vs c
        → Removed names (k ∷ ks) (v ∷ vs) (record { keys = k ∷ c.keys; values = v ∷ c.values })
    unfolding value_of
    keep-Removed names k v ks vs c b n r = record {
      ascending = (r.below k b, r.ascending);
      paired = ap suc r.paired;
      below = λ j (jk, js). (jk, r.below j js);
      values = λ q. elim (Bool-cases (order.same k q)) [
        | inr other ↦ ground (arith, other, r.values q)
        | inl same ↦
            let p : k ≡ q = (order.same_iff k q).0 same in
            let kept : among q names ≡ false = rw (← p) (among-Below k names n) in
            ground (arith, same, kept)
      ];
    }

    -- The dropped entry answers none, and so do the entries behind it for its name.
    dropped_values :
        (current k q : K) (v : V) (ks : List K) (vs : List V) (more : Bool) (o : Option V)
        → order.same k current ≡ true
        → Below k ks
        → o ≡ (if more then none else value_of q ks vs)
        → o ≡ (if order.same current q || more then none else value_of q (k ∷ ks) (v ∷ vs))
    unfolding value_of
    dropped_values current k q v ks vs more o same b e =
        let p : k ≡ current = (order.same_iff k current).0 same in
        elim (Bool-cases (order.same k q)) [
          | inr other ↦ rw (← p) (ground (arith, other, e))
          | inl found ↦
              let h : k ≡ q = (order.same_iff k q).0 found in
              let nothing : value_of q ks vs ≡ none = rw (← h) (not-Below k ks vs b) in
              rw (← p) (ground (arith, found, e, nothing))
        ]

    abbrev RemovedFrom : List K → List K → K → List K → List K → List V → Type 0
    RemovedFrom removals pre current later ks vs =
        (c : Claims K V) × (remove_all removals (length pre) current ks vs ≡ returns (ok c))
        × Removed (current ∷ later) ks vs c

    dropped-Removed :
        (removals pre : List K) (current : K) (later : List K) (k : K) (v : V) (ks : List K)
        (vs : List V)
        → removals ≡ pre ++ (current ∷ later)
        → IsAscending (current ∷ later)
        → IsAscending (k ∷ ks)
        → length vs ≡ length ks
        → AllAmong (current ∷ later) (k ∷ ks)
        → order.same k current ≡ true
        → ((next : K) (more : List K)
            → later ≡ next ∷ more
            → IsAscending (next ∷ more)
            → AllAmong (next ∷ more) ks
            → RemovedFrom removals (pre ++ current ∷ []) next more ks vs)
        → RemovedFrom removals pre current later (k ∷ ks) (v ∷ vs)
    unfolding among
    dropped-Removed removals pre current [] k v ks vs at r (b, a) e ps same rest =
        let p : k ≡ current = (order.same_iff k current).0 same in
        let n : length pre + 1 ≡ length removals =
          omega (arith, ap length at, length-append pre (current ∷ [])) in
        (
          record { keys = ks; values = vs },
          drop_last removals (length pre) current k v ks vs same n
              ∙ remove_all-kept removals (length pre) current ks vs (rw (← p) (among-Below k ks b))
                  e,
          record {
            ascending = a;
            paired = e;
            below = λ j (jk, js). js;
            values = λ q. dropped_values current k q v ks vs false _ same b refl;
          },
        )
    dropped-Removed removals pre current (next ∷ more) k v ks vs at ((cn, cs), r) (b, a) e (p, ps)
          same rest =
        let h : k ≡ current = (order.same_iff k current).0 same in
        let lower : Below k (next ∷ more) = subst (λ z. Below z (next ∷ more)) (sym h) (cn, cs) in
        let (c, run, rem) = rest next more refl r (AllAmong-behind k ks (next ∷ more) lower ps) in
        let n : length (pre ++ current ∷ []) ≡ length pre + 1 =
          omega (arith, length-append pre (current ∷ [])) in
        let l : length removals ≡ length pre + suc (suc (length more)) =
          omega (arith, ap length at, length-append pre (current ∷ (next ∷ more))) in
        let i : length pre + 1 ≡ suc (length pre) = omega arith in
        let next_at : get_elem? removals (length pre + 1) ≡ some next =
          rw (at, i) (get_elem?-after pre current (next ∷ more)) in
        (
          c,
          drop_round removals (length pre) current next k v ks vs same (lt→ltb _ _ (omega arith))
                next_at (less_asym current next cn)
              ∙ ap (λ i. remove_all removals i next ks vs) (sym n)
              ∙ run,
          record {
            ascending = rem.ascending;
            paired = rem.paired;
            below = λ j (jk, js). rem.below j js;
            values = λ q.
                dropped_values current k q v ks vs (among q (next ∷ more)) _ same b (rem.values q);
          },
        )

    remove_all-Removed :
        (removals pre : List K) (current : K) (later ks : List K) (vs : List V)
        → removals ≡ pre ++ (current ∷ later)
        → IsAscending (current ∷ later)
        → IsAscending ks
        → length vs ≡ length ks
        → AllAmong (current ∷ later) ks
        → (c : Claims K V) × (remove_all removals (length pre) current ks vs ≡ returns (ok c))
          × Removed (current ∷ later) ks vs c
    unfolding among
    remove_all-Removed removals pre current later [] vs at r a e (p, ps) = absurd cc
    remove_all-Removed removals pre current later (k ∷ ks) [] at r a e ps = absurd (omega arith)
    remove_all-Removed removals pre current later (k ∷ ks) (v ∷ vs) at r (b, a) e ps =
        elim (Bool-cases (order.same k current)) [
          | inr other ↦
              let behind : order.less k current ≡ true =
                Below-among k current ks b (ground (arith, other, ps.0)) in
              let all_behind : Below k (current ∷ later) =
                (behind, Below-trans k current later behind r.0) in
              let (c, run, rem) =
                remove_all-Removed removals pre current later ks vs at r a (omega arith)
                  (AllAmong-behind k ks (current ∷ later) all_behind ps) in
              (
                record { keys = k ∷ c.keys; values = v ∷ c.values },
                keep_round removals (length pre) current k v ks vs other ∙ ap (push_claim k v) run,
                keep-Removed (current ∷ later) k v ks vs c b all_behind rem,
              )
          | inl same ↦
              dropped-Removed removals pre current later k v ks vs at r (b, a) (omega arith) ps same
                λ next more l r' ps'.
                  remove_all-Removed removals (pre ++ current ∷ []) next more ks vs
                    (at ∙ ap (λ z. pre ++ (current ∷ z)) l ∙ append_assoc pre current (next ∷ more))
                    r' a (omega arith) ps'
        ]

    -- On claims in order, removing names in order, all of which are there, removes exactly these.
    pub remove_claims-Removed :
        (view : Claims K V) (claim_keys : List K)
        → IsValid view
        → IsAscending claim_keys
        → AllAmong claim_keys view.keys
        → (c : Claims K V) × (remove_claims view claim_keys ≡ returns (ok c))
          × IsValid c
          × ((q : K)
              → value_of q c.keys c.values
                ≡ (if among q claim_keys then none else value_of q view.keys view.values))
    unfolding remove_claims to_claims_sorted among
    remove_claims-Removed view [] h r ps =
        (view, ground (arith, IsAscending-is_ascending view.keys h.ascending), h, λ q. refl)
    remove_claims-Removed view (first ∷ more) h r ps =
        let (c, run, rem) =
          remove_all-Removed (first ∷ more) [] first more view.keys view.values refl r h.ascending
            h.paired ps in
        (c, run, record { ascending = rem.ascending; paired = rem.paired }, rem.values)

    -- Where the first name to remove is not there, nothing at all is removed.
    pub remove_claims-stuck :
        (view : Claims K V) (first : K) (more : List K)
        → IsValid view
        → among first view.keys ≡ false
        → remove_claims view (first ∷ more) ≡ returns (ok view)
    unfolding remove_claims
    remove_claims-stuck view first more h a =
        remove_all-kept (first ∷ more) 0 first view.keys view.values a h.paired
