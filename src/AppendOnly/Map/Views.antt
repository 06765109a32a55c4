-- ===== src/AppendOnly/Map/Views.antt =====
-- What a view shows while the map grows.
use mono_old.Common.{
  ℕ, ◌^◌, ◌≤◌, ◌≡◌, refl, sym, subst, ◌∙◌, true, Option, none, some, List, [], ◌∷◌, Outcome,
  returns, panics, ◌>>=◌, Result, ◌==◌, length, arith, Bool-cases, Option-cases, Outcome-cases, inl,
  inr,
}
use mono_old.AppendOnly.Vec.{ArcVec, CapacityError}
use mono_old.AppendOnly.Map.{MapKey, new, insert, get, view, view_get, next_power_of_two}
use mono_old.AppendOnly.Map.Refinement.{
  Entries, Models, lookup, get_entry, add, Agree, insert-Models, get-Models, add_entry_full,
  add_entry_new, add_entry_old,
}
use mono_old.AppendOnly.Map.Histories.{empty, new-Models}

returns_inj : {A : Type 0} (a b : A) → returns a ≡ returns b → a ≡ b
returns_inj a b e = cc

module _ {K V : Type 0} ⦃key : MapKey K⦄ where
  unfoldable pub insert_all : List (K × V) → ArcVec (K × V) → Outcome (ArcVec (K × V))
  insert_all [] m = returns m
  insert_all ((k, v) ∷ more) m = insert m k v >>= λ r. insert_all more r.0

  -- Every key keeps its first value.
  abbrev Keeps : Entries K V → Entries K V → Type 0
  Keeps s t = (q : K) (v : V) → lookup q s.entries ≡ some v → lookup q t.entries ≡ some v

  Agree-returns :
      {R : Type 0} (x : Outcome (ArcVec (K × V) × R)) (y : Outcome (Entries K V × R))
      (m : ArcVec (K × V)) (a : R) (s : Entries K V) (b : R)
      → x ≡ returns (m, a)
      → y ≡ returns (s, b)
      → Agree x y
      → Models s m
  Agree-returns x y m a s b p q h =
      (subst (λ z. Agree z (returns (s, b))) p (subst (λ z. Agree x z) q h)).1

  lookup_congr :
      (k q : K) → key.eq k q ≡ true → (entries : List (K × V)) → lookup k entries ≡ lookup q entries
  unfolding lookup
  lookup_congr k q same [] = refl
  lookup_congr k q same ((j, v) ∷ more) =
      ground
        (arith, lookup_congr k q same more, key.eq_trans j k q, key.eq_trans j q k, key.eq_comm k q)

  add-Keeps : (s : Entries K V) (k : K) (v : V) → lookup k s.entries ≡ none → Keeps s (add s k v)
  unfolding add lookup
  add-Keeps s k v lost q w e = elim (Bool-cases (key.eq k q)) [
    | inl same ↦ absurd (ground (arith, lookup_congr k q same s.entries, lost, e))
    | inr other ↦ ground (arith, other, e)
  ]

  insert-Keeps :
      (s : Entries K V) (m m' : ArcVec (K × V)) (k : K) (v : V)
      (a : Result (Option V) CapacityError)
      → Models s m
      → insert m k v ≡ returns (m', a)
      → (t : Entries K V) × Models t m' × Keeps s t
  insert-Keeps s m m' k v a h run =
      let agree = insert-Models s m k v h in
      elim (Option-cases (lookup k s.entries)) [
        | inr (old, e) ↦
            (s, Agree-returns _ _ m' a s _ run (add_entry_old s k v old e) agree, λ q w kept. kept)
        | inl e ↦ elim (Bool-cases (length s.entries == s.bound)) [
          | inl full ↦ absurd (
              subst (λ z. Agree z panics) run
                (subst (λ z. Agree (insert m k v) z) (add_entry_full s k v e full) agree))
          | inr room ↦ (
            add s k v,
            Agree-returns _ _ m' a (add s k v) _ run (add_entry_new s k v e room) agree,
            add-Keeps s k v e,
          )
        ]
      ]

  view_get-get : (m : ArcVec (K × V)) (k : K) → view_get (view m) k ≡ get m k
  unfolding view_get get view
  view_get-get m k = refl

  insert_all-Keeps :
      (more : List (K × V)) (s : Entries K V) (m w : ArcVec (K × V))
      → Models s m
      → insert_all more m ≡ returns w
      → (t : Entries K V) × Models t w × Keeps s t
  unfolding insert_all
  insert_all-Keeps [] s m w h run =
      (s, subst (λ z. Models s z) (returns_inj m w run) h, λ q v kept. kept)
  insert_all-Keeps ((k, v) ∷ more) s m w h run = elim (Outcome-cases (insert m k v)) [
    | inl e ↦ absurd (ground (arith, e, run))
    | inr ((m', a), e) ↦
        let (t, models, keeps) = insert-Keeps s m m' k v a h e in
        let (u, models', keeps') = insert_all-Keeps more t m' w models (ground (arith, e, run)) in
        (u, models', λ q x kept. keeps' q x (keeps q x kept))
  ]

  get_entry-some :
      (s : Entries K V) (k : K) (v : V)
      → get_entry s k ≡ returns (some v)
      → lookup k s.entries ≡ some v
  unfolding get_entry
  get_entry-some s k v e = ground (arith, e)

  get_entry-lookup :
      (s : Entries K V) (k : K) (v : V)
      → lookup k s.entries ≡ some v
      → get_entry s k ≡ returns (some v)
  unfolding get_entry
  get_entry-lookup s k v e = ground (arith, e)

  -- What a view of a map has answered for a key is what every later view of it answers, however the
  -- map was filled before and is filled on.
  pub view_get-stays :
      (n : ℕ) (before after : List (K × V)) (m w : ArcVec (K × V)) (k : K) (v : V)
      → n ≤ 2 ^ 63
      → insert_all before (new n) ≡ returns m
      → insert_all after m ≡ returns w
      → view_get (view m) k ≡ returns (some v)
      → view_get (view w) k ≡ returns (some v)
  view_get-stays n before after m w k v h first second seen =
      let (s, models, _) =
        insert_all-Keeps before (empty (next_power_of_two n)) (new n) m (new-Models n h) first in
      let (t, models', keeps) = insert_all-Keeps after s m w models second in
      let was =
        get_entry-some s k v (sym (get-Models s m k models) ∙ sym (view_get-get m k) ∙ seen) in
      view_get-get w k ∙ get-Models t w k models' ∙ get_entry-lookup t k v (keeps k v was)
