-- ===== src/Ops/Admin.antt =====
-- `select_users`, `select_claims` and `get_users_bytes` of tiauth/tiauth-core/src/ops/admin.rs. The
-- order of user names is a parameter, and so are the reads of a table, whose rows come in the order
-- of their names, and `merge_join_by` of the crate itertools.
pub mod Selected
pub mod Picked
pub mod Reading
use mono_old.Common.{
  ℕ, suc, ◌-◌, Bool, true, false, not, ◌&&◌, Option, none, some, List, [], ◌∷◌, Outcome, returns,
  panics, Result, ok, err, ltb, if◌then◌else◌, get_elem?, map,
}
use mono_old.Rmp.{Rmp}
use mono_old.Claims.{Ordered}
use mono_old.Users.{UserPassword, deserialize}
use mono_old.Users.Granted.{UserClaims}
use mono_old.Users.Granted
use mono_old.Crypto.{Cipher}
use mono_old.Proof.{Str, TargetList, read_users}
use mono_old.Proof.Validate.{
  ProofTargetOut, out_range, out_select, out_all, UnvalidatedProofObject, validate, validate_any,
}
use mono_old.Ops.Answer.{Answer, pure, fail, try, run, ◌>>=◌, Stateful, and_then}
use mono_old.Ops.ProofToken.{AppState, verify_proof}
use mono_old.Ops.Modify.{try_unit}

-- `StoreError`, `UnsortedError` and `InvalidProof`.
pub data SelectError (StoreError : Type 0) : Type 0 where
  unread : StoreError → SelectError StoreError
  unsorted : SelectError StoreError
  proof_refused : SelectError StoreError

-- The reads of a table in a transaction: the values from a first to a last name, and all of them.
pub record Rows (StoreError : Type 0) : Type 0 where
  pub range : Str → Str → Result (List (List ℕ)) StoreError
  pub iter : Result (List (List ℕ)) StoreError

-- `Vec::last` of a list that has a first element.
abbrev pub last : {A : Type 0} → A → List A → A
last a [] = a
last a (b ∷ bs) = last b bs

module _ ⦃order : Ordered Str⦄ where
  abbrev pub out_of_order : Option Str → ℕ → Str → Bool
  out_of_order none i next = false
  out_of_order (some before) i next = ltb 0 i && order.less next before

  -- Whether the names of the selection around an index are out of order.
  abbrev pub is_unsorted : TargetList → ℕ → Str → Bool
  is_unsorted selection i next = out_of_order (get_elem? selection (i - 1)) i next

module _ ⦃order : Ordered Str⦄ {StoreError A : Type 0} where
  -- `collected.push(row)`, for the rows that the loop has still to read.
  abbrev pub pushed :
      A → Answer (SelectError StoreError) (List A) → Answer (SelectError StoreError) (List A)
  pushed a m = do more ← m; pure (a ∷ more)

  -- What a row is to the loop, by the name that is selected next, with the rest of the loop at the
  -- same index and at the next one.
  abbrev pub decide :
      Option Str
      → TargetList
      → Bool
      → ℕ
      → Str
      → A
      → Answer (SelectError StoreError) (List A)
      → Answer (SelectError StoreError) (List A)
      → Answer (SelectError StoreError) (List A)
  decide (some next_selected) selection filter_selection sel_i user_id row stay advance =
      if is_unsorted selection sel_i next_selected
      then fail unsorted
      else (if order.same user_id next_selected then pushed row advance else stay)
  decide none selection filter_selection sel_i user_id row stay advance =
      if filter_selection then pure [] else pushed row stay

  module _ {Login : Type 0} (read : List ℕ → Outcome Login) (user_id : Login → Str)
      (row_of : Login → A) where
    -- The rows that are left, and the index into the selection.
    unfoldable pub select_rows :
        TargetList → Bool → ℕ → List (List ℕ) → Answer (SelectError StoreError) (List A)
    select_rows selection filter_selection sel_i [] = pure []
    select_rows selection filter_selection sel_i (value ∷ iter) =
        let stay = select_rows selection filter_selection sel_i iter in
        let advance = select_rows selection filter_selection (suc sel_i) iter in
        do
          login ← run (read value)
          decide (get_elem? selection sel_i) selection filter_selection sel_i (user_id login)
              (row_of login) stay advance

    -- A selection is read as the range from its first to its last name.
    unfoldable pub select_targets :
        Rows StoreError → ProofTargetOut → Answer (SelectError StoreError) (List A)
    unfolding select_rows
    select_targets table (out_range first last) =
        if order.less last first
        then fail unsorted
        else (do iter ← try unread (table.range first last); select_rows [] false 0 iter)
    select_targets table (out_select []) = panics
    select_targets table (out_select (first ∷ more)) =
        if order.less (last first more) first then fail unsorted else (do
          iter ← try unread (table.range first (last first more))
          select_rows (first ∷ more) true 0 iter)
    select_targets table out_all = do iter ← try unread table.iter; select_rows [] false 0 iter

-- `include_passwords.then_some(login.password_file)`
abbrev pub user_row : Bool → UserPassword → Str × Option Str
user_row include_passwords login =
    (login.user_id, if include_passwords then some login.password_file else none)

module _ ⦃order : Ordered Str⦄ {StoreError : Type 0} (rmp : Rmp) where
  unfoldable pub select_users :
      Rows StoreError
      → ProofTargetOut
      → Bool
      → Answer (SelectError StoreError) (List (Str × Option Str))
  unfolding select_targets deserialize
  select_users table targets include_passwords =
      select_targets (deserialize rmp) (λ login. login.user_id) (user_row include_passwords) table
        targets

  unfoldable pub select_claims :
      Rows StoreError → ProofTargetOut → Answer (SelectError StoreError) (List (Str × List ℕ))
  unfolding select_targets
  select_claims table targets =
      select_targets (Granted.deserialize rmp) (λ login. login.user_id)
        (λ login. (login.user_id, login.claims)) table targets

pub data EitherOrBoth (A B : Type 0) : Type 0 where
  both : A → B → EitherOrBoth A B
  only_left : A → EitherOrBoth A B
  only_right : B → EitherOrBoth A B

pub record User : Type 0 where
  pub user_id : Str
  pub password_file : Option Str
  pub claims : Option (List ℕ)

-- Claims without a user are a panic.
abbrev pub to_user : EitherOrBoth (Str × Option Str) (Str × List ℕ) → Outcome User
to_user (both (user_id, password_file) (_, claims)) =
    returns (record { user_id = user_id; password_file = password_file; claims = some claims })
to_user (only_left (user_id, password_file)) =
    returns (record { user_id = user_id; password_file = password_file; claims = none })
to_user (only_right claims) = panics

abbrev pub to_users :
    {StoreError : Type 0}
    → List (EitherOrBoth (Str × Option Str) (Str × List ℕ))
    → Answer (SelectError StoreError) (List User)
to_users [] = pure []
to_users (e ∷ merged) = do user ← run (to_user e); more ← to_users merged; pure (user ∷ more)

module _ ⦃order : Ordered Str⦄ {StoreError : Type 0} (rmp : Rmp)
    (merge_join_by : List (Str × Option Str)
      → List (Str × List ℕ)
      → List (EitherOrBoth (Str × Option Str) (Str × List ℕ))) where
  -- The tables of users and of claims in one transaction.
  unfoldable pub read_users_of :
      Rows StoreError × Rows StoreError
      → ProofTargetOut
      → Bool
      → Bool
      → Answer (SelectError StoreError) (List User)
  unfolding select_users select_claims
  read_users_of (user_table, claims_table) targets true include_passwords = do
    users ← select_users rmp user_table targets include_passwords
    granted ← select_claims rmp claims_table targets
    to_users (merge_join_by users granted)
  read_users_of (user_table, claims_table) targets false include_passwords = do
    users ← select_users rmp user_table targets include_passwords
    to_users (map only_left users)

  unfoldable pub read_validated :
      {S : Type 0}
      → Result (Rows StoreError × Rows StoreError) StoreError
      → Bool
      → Bool
      → S
      → UnvalidatedProofObject (List ℕ)
      → Answer (SelectError StoreError) (List User)
  unfolding validate validate_any read_users_of
  read_validated open_read include_claims include_passwords s p = do
    validated ← try (λ _. proof_refused) (validate try_unit p (read_users ∷ []) validate_any)
    tx ← try unread open_read
    read_users_of tx (validated.1) include_claims include_passwords

module _ ⦃order : Ordered Str⦄ (rmp : Rmp) (c : Cipher) (derive_key : List ℕ → ℕ → c.SymmetricKey)
    {PublicKey : Type 0} (verify_signature : List ℕ → List ℕ → PublicKey → Bool)
    {StoreError : Type 0}
    (merge_join_by : List (Str × Option Str)
      → List (Str × List ℕ)
      → List (EitherOrBoth (Str × Option Str) (Str × List ℕ))) where
  unfoldable pub get_users_bytes :
      AppState PublicKey
      → Result (Rows StoreError × Rows StoreError) StoreError
      → List ℕ × List ℕ
      → Bool
      → Bool
      → ℕ
      → Stateful (AppState PublicKey) (SelectError StoreError) (List User)
  unfolding verify_proof read_validated
  get_users_bytes s open_read proof include_claims include_passwords time =
      and_then (λ _. proof_refused) (verify_proof rmp c derive_key verify_signature s proof time)
        (read_validated rmp merge_join_by open_read include_claims include_passwords)
