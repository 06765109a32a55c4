-- ===== src/Ops/Admin/Picked.antt =====
-- What the selections of an administrator collect, whatever the order of the rows.
use mono_old.Common.{
  ℕ, zero, suc, ◌≡◌, refl, subst, Bool, true, false, ◌||◌, Option, none, some, List, [], ◌∷◌, map,
  Outcome, returns, ok, get_elem?, Bool-cases, inl, inr, arith,
}
use mono_old.Claims.{Ordered}
use mono_old.Proof.{Str, TargetList}
use mono_old.Proof.Validate.{ProofTargetOut, out_range, out_select, out_all}
use mono_old.Ops.Answer.{Answer, pure, try, run, bind-ok, try-ok, run-ok}
use mono_old.Ops.Register.Records.{pure-eq}
use mono_old.Ops.Admin.{
  SelectError, unread, Rows, last, is_unsorted, pushed, decide, select_rows, select_targets,
}

module _ ⦃order : Ordered Str⦄ where
  abbrev pub is_selected : Str → TargetList → Bool
  is_selected user_id [] = false
  is_selected user_id (s ∷ selection) = order.same user_id s || is_selected user_id selection

  -- Whether a proof with these targets names the user. The rows of a range are asked for by name.
  abbrev pub is_target : ProofTargetOut → Str → Bool
  is_target (out_range first last) user_id = true
  is_target (out_select selection) user_id = is_selected user_id selection
  is_target out_all user_id = true

  -- Only a selection leaves rows out.
  abbrev pub is_partial : ProofTargetOut → Bool
  is_partial (out_range first last) = false
  is_partial (out_select selection) = true
  is_partial out_all = false

  selected-at :
      (user_id next : Str) (selection : TargetList) (i : ℕ)
      → get_elem? selection i ≡ some next
      → order.same user_id next ≡ true
      → is_selected user_id selection ≡ true
  selected-at user_id next [] i h e = cc
  selected-at user_id next (s ∷ selection) zero h e = ground (arith, h, e)
  selected-at user_id next (s ∷ selection) (suc i) h e =
      ground (arith, selected-at user_id next selection i h e)

-- The rows that targets ask a table for.
abbrev pub IsAsked :
    {StoreError : Type 0} → Rows StoreError → ProofTargetOut → List (List ℕ) → Type 0
IsAsked table (out_range first last) rows = table.range first last ≡ ok rows
IsAsked table (out_select []) rows = ¬ Unit
IsAsked table (out_select (first ∷ more)) rows = table.range first (last first more) ≡ ok rows
IsAsked table out_all rows = table.iter ≡ ok rows

module _ {Login : Type 0} (read : List ℕ → Outcome Login) (user_id : Login → Str)
    (chosen : Str → Bool) (partial : Bool) where
  -- A list that is collected from rows: of chosen users only, each from a row of its own, in the
  -- order of the rows. Without leave to be partial it is collected from all of them.
  pub data Picks {A : Type 0} (row_of : Login → A) : List (List ℕ) → List A → Type 0 where
    done : Picks row_of [] []
    stop : {rows : List (List ℕ)} → partial ≡ true → Picks row_of rows []
    skip :
        {value : List ℕ} {rows : List (List ℕ)} {collected : List A}
        → partial ≡ true
        → Picks row_of rows collected
        → Picks row_of (value ∷ rows) collected
    collect :
        {value : List ℕ} {rows : List (List ℕ)} {collected : List A} (login : Login)
        → read value ≡ returns login
        → chosen (user_id login) ≡ true
        → Picks row_of rows collected
        → Picks row_of (value ∷ rows) (row_of login ∷ collected)

  pub Picks-map :
      {A B : Type 0} {row_of : Login → A} (f : A → B) {rows : List (List ℕ)} {collected : List A}
      → Picks row_of rows collected
      → Picks (λ login. f (row_of login)) rows (map f collected)
  Picks-map f done = done
  Picks-map f (stop may) = stop may
  Picks-map f (skip may picks) = skip may (Picks-map f picks)
  Picks-map f (collect login reads named picks) = collect login reads named (Picks-map f picks)

  module _ ⦃order : Ordered Str⦄ {StoreError A : Type 0} (row_of : Login → A) where
    pushed-Picks :
        (value : List ℕ) (rows : List (List ℕ)) (login : Login)
        (m : Answer (SelectError StoreError) (List A)) (collected : List A)
        → read value ≡ returns login
        → chosen (user_id login) ≡ true
        → ((more : List A) → m ≡ pure more → Picks row_of rows more)
        → pushed (row_of login) m ≡ pure collected
        → Picks row_of (value ∷ rows) collected
    pushed-Picks value rows login m collected reads named rest h =
        let (more, ran, h1) = bind-ok m _ collected h in
        subst (λ l. Picks row_of (value ∷ rows) l) (pure-eq (row_of login ∷ more) collected h1)
          (collect login reads named (rest more ran))

    decide-Picks :
        (o : Option Str) (selection : TargetList) (i : ℕ) (value : List ℕ) (rows : List (List ℕ))
        (login : Login) (stay advance : Answer (SelectError StoreError) (List A))
        (collected : List A)
        → ((next : Str)
            → o ≡ some next
            → order.same (user_id login) next ≡ true
            → chosen (user_id login) ≡ true)
        → ((next : Str) → o ≡ some next → partial ≡ true)
        → (partial ≡ false → chosen (user_id login) ≡ true)
        → read value ≡ returns login
        → ((more : List A) → stay ≡ pure more → Picks row_of rows more)
        → ((more : List A) → advance ≡ pure more → Picks row_of rows more)
        → decide o selection partial i (user_id login) (row_of login) stay advance ≡ pure collected
        → Picks row_of (value ∷ rows) collected
    decide-Picks none selection i value rows login stay advance collected named may all reads stays
          advances h =
        elim (Bool-cases partial) [
          | inl e ↦
              subst (λ l. Picks row_of (value ∷ rows) l) (pure-eq [] collected (rw e at h)) (stop e)
          | inr e ↦ pushed-Picks value rows login stay collected reads (all e) stays (rw e at h)
        ]
    decide-Picks (some next) selection i value rows login stay advance collected named may all reads
          stays advances h =
        elim (Bool-cases (is_unsorted selection i next)) [
          | inl u ↦ absurd (cc (rw u at h))
          | inr u ↦
              let h1 = rw u at h in
              elim (Bool-cases (order.same (user_id login) next)) [
                | inl e ↦
                    pushed-Picks value rows login advance collected reads (named next refl e)
                      advances (rw e at h1)
                | inr e ↦ skip (may next refl) (stays collected (rw e at h1))
              ]
        ]

    pub select_rows-Picks :
        (selection : TargetList) (i : ℕ) (rows : List (List ℕ)) (collected : List A)
        → ((id next : Str) (j : ℕ)
            → get_elem? selection j ≡ some next
            → order.same id next ≡ true
            → chosen id ≡ true)
        → ((next : Str) (j : ℕ) → get_elem? selection j ≡ some next → partial ≡ true)
        → (partial ≡ false → (id : Str) → chosen id ≡ true)
        → select_rows {StoreError = StoreError} read user_id row_of selection partial i rows
          ≡ pure collected
        → Picks row_of rows collected
    unfolding select_rows
    select_rows-Picks selection i [] collected named may all h =
        subst (λ l. Picks row_of [] l) (pure-eq [] collected h) done
    select_rows-Picks selection i (value ∷ rows) collected named may all h =
        let (login, reads, h1) = bind-ok (run (read value)) _ collected h in
        decide-Picks (get_elem? selection i) selection i value rows login _ _ collected
          (λ next. named (user_id login) next i) (λ next. may next i) (λ f. all f (user_id login))
          (run-ok (read value) login reads)
          (λ more. select_rows-Picks selection i rows more named may all)
          (λ more. select_rows-Picks selection (suc i) rows more named may all) h1

module _ ⦃order : Ordered Str⦄ {StoreError Login A : Type 0} (read : List ℕ → Outcome Login)
    (user_id : Login → Str) (row_of : Login → A) where
  -- What a selection that succeeds collects from the rows that its targets ask for.
  abbrev pub IsPicked : Rows StoreError → ProofTargetOut → List A → Type 0
  IsPicked table targets collected =
      (rows : List (List ℕ)) × IsAsked table targets rows
      × Picks read user_id (is_target targets) (is_partial targets) row_of rows collected

  pub select_targets-IsPicked :
      (table : Rows StoreError) (targets : ProofTargetOut) (collected : List A)
      → select_targets read user_id row_of table targets ≡ pure collected
      → IsPicked table targets collected
  unfolding select_targets
  select_targets-IsPicked table (out_range first end) collected h =
      elim (Bool-cases (order.less end first)) [
        | inl e ↦ absurd (cc (rw e at h))
        | inr e ↦
            let (rows, asked, h1) =
              bind-ok (try unread (table.range first end)) _ collected (rw e at h) in
            (
              rows,
              try-ok unread (table.range first end) rows asked,
              select_rows-Picks read user_id (λ id. true) false row_of [] 0 rows collected
                  (λ id next j h e. refl) (λ next j h. cc h) (λ f id. refl) h1,
            )
      ]
  select_targets-IsPicked table (out_select []) collected h = absurd (cc h)
  select_targets-IsPicked table (out_select (first ∷ more)) collected h =
      elim (Bool-cases (order.less (last first more) first)) [
        | inl e ↦ absurd (cc (rw e at h))
        | inr e ↦
            let (rows, asked, h1) =
              bind-ok (try unread (table.range first (last first more))) _ collected (rw e at h) in
            (
              rows,
              try-ok unread (table.range first (last first more)) rows asked,
              select_rows-Picks read user_id (λ id. is_selected id (first ∷ more)) true row_of
                  (first ∷ more) 0 rows collected
                  (λ id next j h e. selected-at id next (first ∷ more) j h e) (λ next j h. refl)
                  (λ f id. absurd (cc f)) h1,
            )
      ]
  select_targets-IsPicked table out_all collected h =
      let (rows, asked, h1) = bind-ok (try unread table.iter) _ collected h in
      (
        rows,
        try-ok unread table.iter rows asked,
        select_rows-Picks read user_id (λ id. true) false row_of [] 0 rows collected
            (λ id next j h e. refl) (λ next j h. cc h) (λ f id. refl) h1,
      )
