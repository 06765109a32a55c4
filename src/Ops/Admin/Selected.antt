-- ===== src/Ops/Admin/Selected.antt =====
-- Which users a selection reads.
use mono_old.Common.{
  ℕ, suc, ◌-◌, ◌≡◌, refl, sym, ap, ◌∙◌, subst, true, false, Option, none, some, List, [], ◌∷◌, ◌++◌,
  Outcome, returns, ok, if◌then◌else◌, length, get_elem?, get_elem?-at, arith, Bool-cases, inl, inr,
  append_assoc, length-append,
}
use mono_old.Claims.{Ordered}
use mono_old.Claims.Sorted.{IsAscending, Below, Below-trans, less_asym, less_apart}
use mono_old.Proof.{Str, TargetList}
use mono_old.Proof.Validate.{out_select}
use mono_old.Ops.Answer.{pure}
use mono_old.Ops.Admin.{
  SelectError, Rows, last, out_of_order, is_unsorted, select_rows, select_targets,
}

module _ {A : Type 0} where
  abbrev pub names : List (Str × A) → List Str
  names [] = []
  names ((n, a) ∷ entries) = n ∷ names entries

module _ {Login A : Type 0} (read : List ℕ → Outcome Login) (user_id : Login → Str)
    (row_of : Login → A) where
  -- What the rows read as: the users with what is collected of each.
  abbrev pub AreRead : List (List ℕ) → List (Str × A) → Type 0
  AreRead [] [] = Unit
  AreRead [] (e ∷ entries) = ¬ Unit
  AreRead (value ∷ rows) [] = ¬ Unit
  AreRead (value ∷ rows) ((n, a) ∷ entries) =
      ((login : Login) × (read value ≡ returns login) × (user_id login ≡ n) × (row_of login ≡ a))
      × AreRead rows entries

module _ ⦃order : Ordered Str⦄ {A : Type 0} where
  abbrev pub find : Str → List (Str × A) → Option A
  find q [] = none
  find q ((n, a) ∷ entries) = if order.same n q then some a else find q entries

  abbrev pub taken_one : Option A → List A → List A
  taken_one none rest = []
  taken_one (some a) rest = a ∷ rest

  -- The rows of the selected users, up to the first one that is not there.
  abbrev pub taken : TargetList → List (Str × A) → List A
  taken [] entries = []
  taken (s ∷ selection) entries = taken_one (find s entries) (taken selection entries)

  find-behind :
      (n q : Str) (a : A) (entries : List (Str × A))
      → order.less n q ≡ true
      → find q ((n, a) ∷ entries) ≡ find q entries
  find-behind n q a entries h = rw (less_apart n q h) refl

  taken-behind :
      (n : Str) (a : A) (selection : TargetList) (entries : List (Str × A))
      → Below n selection
      → taken selection ((n, a) ∷ entries) ≡ taken selection entries
  taken-behind n a [] entries b = refl
  taken-behind n a (s ∷ selection) entries (b, bs) =
      ap (λ o. taken_one o (taken selection ((n, a) ∷ entries))) (find-behind n s a entries b)
      ∙ ap (taken_one (find s entries)) (taken-behind n a selection entries bs)

  find-less :
      (n q : Str) (a : A) (entries : List (Str × A))
      → Below n (names entries)
      → find q entries ≡ some a
      → order.less n q ≡ true
  find-less n q a [] b h = cc
  find-less n q a ((m, a') ∷ entries) (b, bs) h = elim (Bool-cases (order.same m q)) [
    | inl e ↦ subst (λ x. order.less n x ≡ true) ((order.same_iff m q).0 e) b
    | inr e ↦ find-less n q a entries bs (ground (arith, e, h))
  ]

  -- A row that is not selected next changes nothing.
  taken-skip :
      (n s : Str) (a : A) (selection : TargetList) (entries : List (Str × A))
      → order.same n s ≡ false
      → IsAscending (s ∷ selection)
      → Below n (names entries)
      → taken (s ∷ selection) ((n, a) ∷ entries) ≡ taken (s ∷ selection) entries
  taken-skip n s a selection entries other (b, up) behind = go (find s entries) refl
    where
      go :
          (o : Option A)
          → find s entries ≡ o
          → taken (s ∷ selection) ((n, a) ∷ entries) ≡ taken (s ∷ selection) entries
      go none h = rw other (
          ap (λ o. taken_one o (taken selection ((n, a) ∷ entries))) h
          ∙ sym (ap (λ o. taken_one o (taken selection entries)) h))
      go (some a') h =
          let below : Below n selection =
            Below-trans n s selection (find-less n s a' entries behind h) b in
          rw other (ap (taken_one (find s entries)) (taken-behind n a selection entries below))

  -- A row that is selected is taken.
  taken-found :
      (n s : Str) (a : A) (selection : TargetList) (entries : List (Str × A))
      → order.same n s ≡ true
      → IsAscending (s ∷ selection)
      → taken (s ∷ selection) ((n, a) ∷ entries) ≡ a ∷ taken selection entries
  taken-found n s a selection entries found (b, up) =
      let e : n ≡ s = (order.same_iff n s).0 found in
      rw found (
        ap (λ rest. a ∷ rest)
          (taken-behind n a selection entries (subst (λ x. Below x selection) (sym e) b)))

get_elem?-last :
    (p : Str) (pre rest : TargetList)
    → get_elem? ((p ∷ pre) ++ rest) (length pre) ≡ some (last p pre)
get_elem?-last p [] rest = refl
get_elem?-last p (q ∷ pre) rest = get_elem?-last q pre rest

get_elem?-end : (pre : TargetList) → get_elem? (pre ++ []) (length pre) ≡ none
get_elem?-end [] = refl
get_elem?-end (p ∷ pre) = get_elem?-end pre

module _ ⦃order : Ordered Str⦄ where
  last-less :
      (p s : Str) (pre rest : TargetList)
      → IsAscending ((p ∷ pre) ++ s ∷ rest)
      → order.less (last p pre) s ≡ true
  last-less p s [] rest ((b, bs), up) = b
  last-less p s (q ∷ pre) rest (b, up) = last-less q s pre rest up

  not-unsorted :
      (pre : TargetList) (s : Str) (rest : TargetList)
      → IsAscending (pre ++ s ∷ rest)
      → is_unsorted (pre ++ s ∷ rest) (length pre) s ≡ false
  not-unsorted [] s rest up = refl
  not-unsorted (p ∷ pre) s rest up =
      let before : get_elem? ((p ∷ pre) ++ s ∷ rest) (suc (length pre) - 1) ≡ some (last p pre) =
        subst (λ i. get_elem? ((p ∷ pre) ++ s ∷ rest) i ≡ some (last p pre)) (omega arith)
          (get_elem?-last p pre (s ∷ rest)) in
      ap (λ o. out_of_order o (suc (length pre)) s) before
      ∙ rw (less_asym (last p pre) s (last-less p s pre rest up)) (ground arith)

  first-last :
      (s : Str) (rest : TargetList) → IsAscending (s ∷ rest) → order.less (last s rest) s ≡ false
  first-last s [] up = order.less_irrefl s
  first-last s (q ∷ rest) ((b, bs), up) = less_asym s (last q rest) (last-above s q rest b bs up)
    where
      last-above :
          (s q : Str) (rest : TargetList)
          → order.less s q ≡ true
          → Below s rest
          → IsAscending (q ∷ rest)
          → order.less s (last q rest) ≡ true
      last-above s q [] b bs up = b
      last-above s q (r ∷ rest) b (c, cs) (d, up) = last-above s r rest c cs up

module _ ⦃order : Ordered Str⦄ {StoreError Login A : Type 0} (read : List ℕ → Outcome Login)
    (user_id : Login → Str) (row_of : Login → A) where
  select_rows-taken :
      (pre rest : TargetList) (rows : List (List ℕ)) (entries : List (Str × A))
      → IsAscending (pre ++ rest)
      → IsAscending rest
      → AreRead read user_id row_of rows entries
      → IsAscending (names entries)
      → select_rows {StoreError = StoreError} read user_id row_of
          (pre ++ rest)
          true
          (length pre)
          rows
        ≡ pure (taken rest entries)
  unfolding select_rows
  select_rows-taken pre [] [] [] up up' reads sorted = refl
  select_rows-taken pre (s ∷ rest) [] [] up up' reads sorted = refl
  select_rows-taken pre rest [] (e ∷ entries) up up' reads sorted = absurd (reads tt)
  select_rows-taken pre rest (value ∷ rows) [] up up' reads sorted = absurd (reads tt)
  select_rows-taken pre [] (value ∷ rows) ((n, a) ∷ entries) up up'
        ((login, came, named, row), reads) (b, sorted) =
      rw (came, get_elem?-end pre) refl
  select_rows-taken pre (s ∷ rest) (value ∷ rows) ((n, a) ∷ entries) up (below, up')
        ((login, came, named, row), reads) (b, sorted) =
      let whole : (pre ++ s ∷ []) ++ rest ≡ pre ++ s ∷ rest = sym (append_assoc pre s rest) in
      let after : length (pre ++ s ∷ []) ≡ suc (length pre) =
        omega (arith, length-append pre (s ∷ [])) in
      let stay = select_rows-taken pre (s ∷ rest) rows entries up (below, up') reads sorted in
      let advance =
        subst
          (λ i.
            select_rows {StoreError = StoreError} read user_id row_of (pre ++ s ∷ rest) true i rows
            ≡ pure (taken rest entries))
          after
          (subst
            (λ all.
              select_rows {StoreError = StoreError} read user_id row_of all true
                (length (pre ++ s ∷ [])) rows
              ≡ pure (taken rest entries))
            whole
            (select_rows-taken (pre ++ s ∷ []) rest rows entries
              (subst (λ all. IsAscending all) (sym whole) up) up' reads sorted)) in
      let chosen = get_elem?-at pre s rest in
      let fine = not-unsorted pre s rest up in
      elim (Bool-cases (order.same n s)) [
        | inl e ↦
            let ran : select_rows {StoreError = StoreError} read user_id row_of (pre ++ s ∷ rest)
                  true (length pre) (value ∷ rows)
                ≡ pure (a ∷ taken rest entries) =
              rw (came, chosen, fine, named, e, advance, row) refl in
            ran
            ∙ ap (λ l. pure {E = SelectError StoreError} l)
                (sym (taken-found n s a rest entries e (below, up')))
        | inr e ↦
            let ran : select_rows {StoreError = StoreError} read user_id row_of (pre ++ s ∷ rest)
                  true (length pre) (value ∷ rows)
                ≡ pure (taken (s ∷ rest) entries) =
              rw (came, chosen, fine, named, e) stay in
            ran
            ∙ ap (λ l. pure {E = SelectError StoreError} l)
                (sym (taken-skip n s a rest entries e (below, up') b))
      ]

  -- On a selection in strict order, and rows that read as users in strict order, exactly the rows of
  -- the selected users are collected, in order, up to the first selected user that has no row: that
  -- one, and all that are selected after it, are left out without an error.
  pub select_targets-taken :
      (table : Rows StoreError) (first : Str) (more : TargetList) (rows : List (List ℕ))
      (entries : List (Str × A))
      → IsAscending (first ∷ more)
      → table.range first (last first more) ≡ ok rows
      → AreRead read user_id row_of rows entries
      → IsAscending (names entries)
      → select_targets read user_id row_of table (out_select (first ∷ more))
        ≡ pure (taken (first ∷ more) entries)
  unfolding select_targets
  select_targets-taken table first more rows entries up ranged reads sorted =
      let ran = select_rows-taken [] (first ∷ more) rows entries up up reads sorted in
      rw (first-last first more up, ranged) ran
