-- ===== src/Claims/Sorted.antt =====
-- Claims as a map: their order, and what a search and a write do to it.
use mono_old.Common.{
  ℕ, zero, suc, ◌<◌, ◌≡◌, refl, sym, ap, ◌∙◌, subst, true, false, Option, none, some, List, [], ◌∷◌,
  returns, Result, ok, err, if◌then◌else◌, length, get_elem?, set, All, arith, Bool-cases, inl, inr,
}
use mono_old.Claims.{Ordered, Claims, insert_at, shift, binary_search, is_ascending}

shift-zero : (r : Result ℕ ℕ) → shift r ≡ err 0 → ⊥
shift-zero (ok i) h = cc
shift-zero (err i) h = let e : err (suc i) ≡ err 0 = h in ground (arith, e)

shift-err : (r : Result ℕ ℕ) (i : ℕ) → shift r ≡ err (suc i) → r ≡ err i
shift-err (ok j) i h = cc
shift-err (err j) i h = ground (arith, h)

shift-ok : (r : Result ℕ ℕ) (i : ℕ) → shift r ≡ ok (suc i) → r ≡ ok i
shift-ok (err j) i h = cc
shift-ok (ok j) i h = ground (arith, h)

shift_ok-zero : (r : Result ℕ ℕ) → shift r ≡ ok 0 → ⊥
shift_ok-zero (err i) h = cc
shift_ok-zero (ok i) h = ground (arith, h)

module _ {K : Type 0} ⦃order : Ordered K⦄ where
  -- Every name is less than the ones behind it.
  abbrev pub IsAscending : List K → Type 0
  IsAscending [] = Unit
  IsAscending (k ∷ ks) = All {0} (λ x. order.less k x ≡ true) ks × IsAscending ks

  module _ {V : Type 0} where
    unfoldable pub value_of : K → List K → List V → Option V
    value_of q (k ∷ ks) (v ∷ vs) = if order.same k q then some v else value_of q ks vs
    value_of q [] vs = none
    value_of q (k ∷ ks) [] = none

    pub record IsValid (c : Claims K V) : Type 0 where
      pub ascending : IsAscending c.keys
      pub paired : length c.values ≡ length c.keys

  same_refl : (k : K) → order.same k k ≡ true
  same_refl k = (order.same_iff k k).1 refl

  pub less-same : (a b : K) → order.less a b ≡ true → order.same b a ≡ false
  less-same a b h = elim (Bool-cases (order.same b a)) [
    | inl e ↦
        let p : b ≡ a = (order.same_iff b a).0 e in
        let q : order.less a a ≡ true = subst (λ c. order.less a c ≡ true) p h in
        absurd (ground (arith, q, order.less_irrefl a))
    | inr e ↦ e
  ]

  pub same_symm : (a b : K) → order.same a b ≡ false → order.same b a ≡ false
  same_symm a b h = elim (Bool-cases (order.same b a)) [
    | inr e ↦ e
    | inl e ↦
        let p : b ≡ a = (order.same_iff b a).0 e in
        absurd (ground (arith, (order.same_iff a b).1 (sym p), h))
  ]

  pub less_apart : (a b : K) → order.less a b ≡ true → order.same a b ≡ false
  less_apart a b h = same_symm b a (less-same a b h)

  pub less_asym : (a b : K) → order.less a b ≡ true → order.less b a ≡ false
  less_asym a b h = elim (Bool-cases (order.less b a)) [
    | inr e ↦ e
    | inl e ↦ absurd (ground (arith, order.less_trans a b a h e, order.less_irrefl a))
  ]

  pub IsAscending-is_ascending : (ks : List K) → IsAscending ks → is_ascending ks ≡ true
  unfolding is_ascending
  IsAscending-is_ascending [] h = refl
  IsAscending-is_ascending (k ∷ []) h = refl
  IsAscending-is_ascending (k ∷ (j ∷ ks)) ((b, bs), h) =
      rw (less_asym k j b, IsAscending-is_ascending (j ∷ ks) h) refl

  -- Of two names, one is less or they are the same.
  not_less : (a b : K) → order.less a b ≡ false → order.same a b ≡ false → order.less b a ≡ true
  not_less a b h k = elim (Bool-cases (order.less b a)) [
    | inl e ↦ e
    | inr e ↦
        let p : order.same a b ≡ true = (order.same_iff a b).1 (order.less_total a b h e) in
        absurd (ground (arith, p, k))
  ]

  abbrev pub Below : K → List K → Type 0
  Below k ks = All {0} (λ x. order.less k x ≡ true) ks

  pub Below-trans : (j k : K) (ks : List K) → order.less j k ≡ true → Below k ks → Below j ks
  Below-trans j k [] h b = tt
  Below-trans j k (x ∷ ks) h (b, bs) = (order.less_trans j k x h b, Below-trans j k ks h bs)

  data SearchStep (k x : K) (ks : List K) : Type 0 where
    before :
        order.less x k ≡ true
        → binary_search k (x ∷ ks) ≡ shift (binary_search k ks)
        → SearchStep k x ks
    here :
        order.less x k ≡ false
        → order.same x k ≡ true
        → binary_search k (x ∷ ks) ≡ ok 0
        → SearchStep k x ks
    behind :
        order.less x k ≡ false
        → order.same x k ≡ false
        → binary_search k (x ∷ ks) ≡ err 0
        → SearchStep k x ks

  search_step : (k x : K) (ks : List K) → SearchStep k x ks
  unfolding binary_search
  search_step k x ks = elim (Bool-cases (order.less x k)) [
    | inl l ↦ before l (rw l refl)
    | inr l ↦ elim (Bool-cases (order.same x k)) [
      | inl m ↦ here l m (ground (arith, l, m))
      | inr m ↦ behind l m (ground (arith, l, m))
    ]
  ]

  module _ {V : Type 0} where
    pub not-Below : (k : K) (ks : List K) (vs : List V) → Below k ks → value_of k ks vs ≡ none
    unfolding value_of
    not-Below k [] vs h = refl
    not-Below k (x ∷ ks) [] h = refl
    not-Below k (x ∷ ks) (v ∷ vs) (b, bs) = ground (arith, less-same k x b, not-Below k ks vs bs)

    -- An entry behind the first, for a name that is not the first.
    behind_values :
        (x k q : K) (w v : V) (o o' : Option V)
        → order.same k x ≡ false
        → o' ≡ (if order.same k q then some v else o)
        → (if order.same x q then some w else o')
          ≡ (if order.same k q then some v else if order.same x q then some w else o)
    behind_values x k q w v o o' apart e = elim (Bool-cases (order.same k q)) [
      | inr n ↦ rw (e, n) refl
      | inl m ↦
          let p : k ≡ q = (order.same_iff k q).0 m in
          let n : order.same x q ≡ false = rw (← p) (same_symm k x apart) in rw (e, m, n) refl
    ]

    pub record Inserted (k : K) (v : V) (ks : List K) (vs : List V) (ks' : List K) (vs' : List V)
        : Type 0 where
      pub ascending : IsAscending ks'
      pub paired : length vs' ≡ length ks'
      pub values :
          (q : K) → value_of q ks' vs' ≡ (if order.same k q then some v else value_of q ks vs)
      pub below : (j : K) → order.less j k ≡ true → Below j ks → Below j ks'
      pub absent : value_of k ks vs ≡ none

    pub insert_at-Inserted :
        (k : K) (v : V) (ks : List K) (vs : List V) (i : ℕ)
        → IsAscending ks
        → length vs ≡ length ks
        → binary_search k ks ≡ err i
        → (ks' : List K) × (vs' : List V) × (insert_at i k ks ≡ returns ks')
          × (insert_at i v vs ≡ returns vs')
          × Inserted k v ks vs ks' vs'
    unfolding binary_search insert_at value_of
    insert_at-Inserted k v [] (w ∷ vs) i a e h = absurd (omega arith)
    insert_at-Inserted k v (x ∷ ks) [] i a e h = absurd (omega arith)
    insert_at-Inserted k v [] [] zero a e h = (
      k ∷ [],
      v ∷ [],
      refl,
      refl,
      record {
        ascending = (tt, tt);
        paired = refl;
        values = λ q. refl;
        below = λ j l b. (l, tt);
        absent = refl;
      },
    )
    insert_at-Inserted k v [] [] (suc i) a e h = absurd (ground (arith, h))
    insert_at-Inserted k v (x ∷ ks) (w ∷ vs) zero (b, a) e h = elim (search_step k x ks) [
      | before l s ↦ absurd (shift-zero (binary_search k ks) (sym s ∙ h))
      | here l m s ↦ absurd (ground (arith, s, h))
      | behind l m s ↦
          let k_less = not_less x k l m in
          let above = Below-trans k x ks k_less b in
          (
            k ∷ (x ∷ ks),
            v ∷ (w ∷ vs),
            refl,
            refl,
            record {
              ascending = ((k_less, above), (b, a));
              paired = ap suc e;
              values = λ q. refl;
              below = λ j jk js. (jk, js);
              absent = not-Below k (x ∷ ks) (w ∷ vs) (k_less, above);
            },
          )
    ]
    insert_at-Inserted k v (x ∷ ks) (w ∷ vs) (suc i) (b, a) e h = elim (search_step k x ks) [
      | here l m s ↦ absurd (ground (arith, s, h))
      | behind l m s ↦ absurd (ground (arith, s, h))
      | before l s ↦
          let (ks', vs', run, run', ins) =
            insert_at-Inserted k v ks vs i a (omega arith)
              (shift-err (binary_search k ks) i (sym s ∙ h)) in
          let apart = less-same x k l in
          (
            x ∷ ks',
            w ∷ vs',
            rw run refl,
            rw run' refl,
            record {
              ascending = (ins.below x l b, ins.ascending);
              paired = ap suc ins.paired;
              values = λ q. behind_values x k q w v _ _ apart (ins.values q);
              below = λ j jk (jx, js). (jx, ins.below j jk js);
              absent = ground (arith, less_apart x k l, ins.absent);
            },
          )
    ]

    -- A search that succeeds gives the index of the name's value.
    pub binary_search-ok :
        (k : K) (ks : List K) (vs : List V) (i : ℕ)
        → length vs ≡ length ks
        → binary_search k ks ≡ ok i
        → (v : V) × (get_elem? vs i ≡ some v) × (value_of k ks vs ≡ some v) × (i < length vs)
    unfolding binary_search value_of
    binary_search-ok k [] vs i e h = absurd (ground (arith, h))
    binary_search-ok k (x ∷ ks) [] i e h = absurd (omega arith)
    binary_search-ok k (x ∷ ks) (w ∷ vs) zero e h = elim (search_step k x ks) [
      | before l s ↦ absurd (shift_ok-zero (binary_search k ks) (sym s ∙ h))
      | here l m s ↦ (w, refl, rw m refl, omega arith)
      | behind l m s ↦ absurd (ground (arith, s, h))
    ]
    binary_search-ok k (x ∷ ks) (w ∷ vs) (suc i) e h = elim (search_step k x ks) [
      | here l m s ↦ absurd (ground (arith, s, h))
      | behind l m s ↦ absurd (ground (arith, s, h))
      | before l s ↦
          let (v, at, value, below) =
            binary_search-ok k ks vs i (omega arith)
              (shift-ok (binary_search k ks) i (sym s ∙ h)) in
          (v, at, ground (arith, less_apart x k l, value), omega arith)
    ]

    pub set-values :
        (k : K) (v : V) (ks : List K) (vs : List V) (i : ℕ)
        → length vs ≡ length ks
        → binary_search k ks ≡ ok i
        → (q : K)
        → value_of q ks (set vs i v) ≡ (if order.same k q then some v else value_of q ks vs)
    unfolding binary_search value_of
    set-values k v [] vs i e h q = absurd (ground (arith, h))
    set-values k v (x ∷ ks) [] i e h q = absurd (omega arith)
    set-values k v (x ∷ ks) (w ∷ vs) zero e h q = elim (search_step k x ks) [
      | before l s ↦ absurd (shift_ok-zero (binary_search k ks) (sym s ∙ h))
      | behind l m s ↦ absurd (ground (arith, s, h))
      | here l m s ↦ let p : x ≡ k = (order.same_iff x k).0 m in rw p (ground arith)
    ]
    set-values k v (x ∷ ks) (w ∷ vs) (suc i) e h q = elim (search_step k x ks) [
      | here l m s ↦ absurd (ground (arith, s, h))
      | behind l m s ↦ absurd (ground (arith, s, h))
      | before l s ↦
          let values =
            set-values k v ks vs i (omega arith) (shift-ok (binary_search k ks) i (sym s ∙ h)) q in
          behind_values x k q w v _ _ (less-same x k l) values
    ]
