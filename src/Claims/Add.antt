-- ===== src/Claims/Add.antt =====
-- Adding claims against a map from names to values.
use mono_old.Common.{
  ℕ, ◌≡◌, refl, sym, ap, ◌∙◌, subst, Bool, true, Option, none, some, List, [], ◌∷◌, Outcome,
  returns, ◌>>=◌, Result, ok, err, Returns, lt→ltb, if◌then◌else◌, length, set, arith, Bool-cases,
  Result-cases, inl, inr, length-set,
}
use mono_old.Claims.{
  Ordered, Claims, ModifyClaimError, add_exists, store_at, binary_search, to_claims_sorted, add_all,
  add_at, add_claims,
}
use mono_old.Claims.Sorted.{
  value_of, IsValid, insert_at-Inserted, binary_search-ok, set-values, IsAscending-is_ascending,
}

module _ {K V : Type 0} ⦃order : Ordered K⦄ where
  pub amend : Bool → List K → List V → (K → Option V) → Result (K → Option V) ModifyClaimError
  amend exists_ok (k ∷ ks) (v ∷ vs) f =
      let rest = amend exists_ok ks vs (λ q. if order.same k q then some v else f q) in
      elim (f k) [ none ↦ rest | some old ↦ if exists_ok then rest else err add_exists ]
  amend exists_ok [] vs f = ok f
  amend exists_ok (k ∷ ks) [] f = ok f

  -- The claims hold the map, or the same error was answered.
  abbrev pub Agree :
      Result (Claims K V) ModifyClaimError → Result (K → Option V) ModifyClaimError → Type 0
  Agree (err a) (err b) = a ≡ b
  Agree (err a) (ok f) = ⊥
  Agree (ok c) (err b) = ⊥
  Agree (ok c) (ok f) = IsValid c × ((q : K) → value_of q c.keys c.values ≡ f q)

  amend-none :
      (exists_ok : Bool) (k : K) (ks : List K) (v : V) (vs : List V) (f : K → Option V)
      → f k ≡ none
      → amend exists_ok (k ∷ ks) (v ∷ vs) f
        ≡ amend exists_ok ks vs (λ q. if order.same k q then some v else f q)
  unfolding amend
  amend-none exists_ok k ks v vs f h = ground (arith, h)

  -- The step that overwrites a value.
  overwritten :
      (exists_ok : Bool) (k : K) (v : V) (c : Claims K V) (i : ℕ)
      (go : Result (Claims K V) ModifyClaimError → Outcome (Result (Claims K V) ModifyClaimError))
      → binary_search k c.keys ≡ ok i
      → exists_ok ≡ true
      → store_at i v c.values ≡ returns (set c.values i v)
      → (add_at exists_ok k v c (binary_search k c.keys) >>= go)
        ≡ go (ok (record c { values = set c.values i v }))
  overwritten exists_ok k v c i go s overwrite store = rw (s, overwrite, store) refl

  add_all-Agree :
      (exists_ok : Bool) (ks : List K) (vs : List V) (c : Claims K V) (f : K → Option V)
      → IsValid c
      → ((q : K) → value_of q c.keys c.values ≡ f q)
      → Returns (add_all exists_ok ks vs c) λ r. Agree r (amend exists_ok ks vs f)
  unfolding add_all amend store_at
  add_all-Agree exists_ok [] vs c f h e = (ok c, refl, (h, e))
  add_all-Agree exists_ok (k ∷ ks) [] c f h e = (ok c, refl, (h, e))
  add_all-Agree exists_ok (k ∷ ks) (v ∷ vs) c f h e = elim (Result-cases (binary_search k c.keys)) [
    | inl (i, s) ↦
        let (ks', vs', run, run', ins) =
          insert_at-Inserted k v c.keys c.values i h.ascending h.paired s in
        let c' : Claims K V = record { keys = ks'; values = vs' } in
        let f' : K → Option V = λ q. if order.same k q then some v else f q in
        let e' = λ (q : K). ins.values q ∙ ap (λ o. if order.same k q then some v else o) (e q) in
        let (r, rest, agree) =
          add_all-Agree exists_ok ks vs c' f'
            (record { ascending = ins.ascending; paired = ins.paired }) e' in
        (
          r,
          rw (s, run, run') rest,
          subst (Agree r) (sym (amend-none exists_ok k ks v vs f (sym (e k) ∙ ins.absent))) agree,
        )
    | inr (i, s) ↦
        let (w, at, value, below) = binary_search-ok k c.keys c.values i h.paired s in
        let found : f k ≡ some w = sym (e k) ∙ value in
        elim (Bool-cases exists_ok) [
          | inr no_overwrite ↦
              let stop : amend exists_ok (k ∷ ks) (v ∷ vs) f ≡ err add_exists =
                rw no_overwrite (ground (arith, found)) in
              (
                err add_exists,
                rw (s, no_overwrite) refl,
                subst (Agree (err add_exists)) (sym stop) refl,
              )
          | inl overwrite ↦
              let c' : Claims K V = record c { values = set c.values i v } in
              let f' : K → Option V = λ q. if order.same k q then some v else f q in
              let e' = λ (q : K).
                set-values k v c.keys c.values i h.paired s q
                ∙ ap (λ o. if order.same k q then some v else o) (e q) in
              let valid : IsValid c' = record {
                ascending = h.ascending;
                paired = length-set c.values i v ∙ h.paired;
              } in
              let (r, rest, agree) = add_all-Agree exists_ok ks vs c' f' valid e' in
              let go : amend exists_ok (k ∷ ks) (v ∷ vs) f ≡ amend exists_ok ks vs f' =
                ground (arith, found, overwrite) in
              let store : store_at i v c.values ≡ returns (set c.values i v) =
                rw (lt→ltb i (length c.values) below) refl in
              (
                r,
                overwritten exists_ok k v c i _ s overwrite store ∙ rest,
                subst (Agree r) (sym go) agree,
              )
        ]
  ]

  -- On claims in order, adding more is the amendment of the map that they stand for: a claim that
  -- is new is added, one that is there is overwritten or, if that is not allowed, an error. What
  -- comes out is in order again, and no call panics.
  pub add_claims-Agree :
      (view claims : Claims K V) (exists_ok : Bool)
      → IsValid view
      → Returns (add_claims view claims exists_ok) λ r.
        Agree r (amend exists_ok claims.keys claims.values λ q. value_of q view.keys view.values)
  unfolding add_claims to_claims_sorted
  add_claims-Agree view claims exists_ok h =
      let (r, run, agree) =
        add_all-Agree exists_ok claims.keys claims.values view _ h (λ q. refl) in
      (r, ground (arith, IsAscending-is_ascending view.keys h.ascending, run), agree)
