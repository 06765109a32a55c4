-- ===== src/Ops/Admin/Reading.antt =====
-- What a proof that reads users has passed.
use mono_old.Common.{
  ◌∙◌, ap, map, none, some, false, ℕ, ◌≡◌, subst, Bool, true, List, [], ◌∷◌, returns, Result, ok,
  Option,
}
use mono_old.Rmp.{Rmp}
use mono_old.Crypto.{Cipher}
use mono_old.Claims.{Ordered}
use mono_old.Proof.{Str, read_users}
use mono_old.Proof.Content.{ProofContent}
use mono_old.Proof.Validate.{
  ProofTargetOut, validate, validate_any, validate-exact, is_action_valid,
}
use mono_old.Ops.Answer.{pure, try, bind-ok, try-ok, and_then-ok}
use mono_old.Ops.ProofToken.{AppState, checked, proof_object, verify_proof}
use mono_old.Ops.ProofToken.Sound.{verify_proof-checked}
use mono_old.Ops.Modify.{try_unit}
use mono_old.Users.{UserPassword}
use mono_old.Users
use mono_old.Users.Granted
use mono_old.Ops.Register.Records.{pure-eq}
use mono_old.Ops.Admin.Picked.{
  is_target, is_partial, Picks, Picks-map, IsPicked, select_targets-IsPicked,
}
use mono_old.Ops.Admin.{
  only_left, to_users, select_users, select_claims, Rows, unread, proof_refused, EitherOrBoth, User,
  read_users_of, read_validated, get_users_bytes,
}

-- What is shown of a user: the password file only if it is asked for.
abbrev pub named_row : Bool → UserPassword → Str × Option Str
named_row true login = (login.user_id, some login.password_file)
named_row false login = (login.user_id, none)

-- A user without claims.
abbrev pub listed : Str × Option Str → User
listed row = record { user_id = row.0; password_file = row.1; claims = none }

to_users-listed :
    {StoreError : Type 0} (rows : List (Str × Option Str)) (users : List User)
    → to_users {StoreError = StoreError} (map only_left rows) ≡ pure users
    → map listed rows ≡ users
to_users-listed [] users h = pure-eq [] users h
to_users-listed {StoreError} (row ∷ rows) users h =
    let (more, ran, h1) =
      bind-ok (to_users {StoreError = StoreError} (map only_left rows)) _ users h in
    ap (λ l. listed row ∷ l) (to_users-listed rows more ran) ∙ pure-eq (listed row ∷ more) users h1

module _ ⦃order : Ordered Str⦄ {StoreError : Type 0} (rmp : Rmp)
    (merge_join_by : List (Str × Option Str)
      → List (Str × List ℕ)
      → List (EitherOrBoth (Str × Option Str) (Str × List ℕ))) where
  -- The users are those that the targets pick from the table of users, with the password file if it
  -- is asked for; with claims they are joined with what the targets pick from the table of claims.
  abbrev pub IsShown :
      Rows StoreError × Rows StoreError → ProofTargetOut → Bool → Bool → List User → Type 0
  IsShown tx targets false include_passwords users =
      IsPicked (Users.deserialize rmp) (λ login. login.user_id)
        (λ login. listed (named_row include_passwords login)) tx.0 targets users
  IsShown tx targets true include_passwords users =
      (named : List (Str × Option Str)) × (granted : List (Str × List ℕ)) × IsPicked
        (Users.deserialize rmp) (λ login. login.user_id) (named_row include_passwords) tx.0 targets
        named
      × IsPicked (Granted.deserialize rmp) (λ login. login.user_id)
          (λ login. (login.user_id, login.claims)) tx.1 targets granted
      × (to_users {StoreError = StoreError} (merge_join_by named granted) ≡ pure users)

  select_users-IsPicked :
      (table : Rows StoreError) (targets : ProofTargetOut) (include_passwords : Bool)
      (named : List (Str × Option Str))
      → select_users rmp table targets include_passwords ≡ pure named
      → IsPicked
          (Users.deserialize rmp)
          (λ login. login.user_id)
          (named_row include_passwords)
          table
          targets
          named
  unfolding select_users
  select_users-IsPicked table targets true named h =
      select_targets-IsPicked (Users.deserialize rmp) (λ login. login.user_id) (named_row true)
        table targets named h
  select_users-IsPicked table targets false named h =
      select_targets-IsPicked (Users.deserialize rmp) (λ login. login.user_id) (named_row false)
        table targets named h

  read_users_of-IsShown :
      (tx : Rows StoreError × Rows StoreError) (targets : ProofTargetOut)
      (include_claims include_passwords : Bool) (users : List User)
      → read_users_of rmp merge_join_by tx targets include_claims include_passwords ≡ pure users
      → IsShown tx targets include_claims include_passwords users
  unfolding read_users_of select_claims
  read_users_of-IsShown tx targets false include_passwords users h =
      let (named, ran, h1) =
        bind-ok (select_users rmp (tx.0) targets include_passwords) _ users h in
      let (rows, asked, picks) = select_users-IsPicked (tx.0) targets include_passwords named ran in
      (
        rows,
        asked,
        subst
            (λ l.
              Picks (Users.deserialize rmp) (λ login. login.user_id) (is_target targets)
                (is_partial targets) (λ login. listed (named_row include_passwords login)) rows l)
            (to_users-listed named users h1)
            (Picks-map (Users.deserialize rmp) (λ login. login.user_id) (is_target targets)
              (is_partial targets) listed picks),
      )
  read_users_of-IsShown tx targets true include_passwords users h =
      let (named, ran, h1) =
        bind-ok (select_users rmp (tx.0) targets include_passwords) _ users h in
      let (granted, ran', h2) = bind-ok (select_claims rmp (tx.1) targets) _ users h1 in
      (
        named,
        granted,
        select_users-IsPicked (tx.0) targets include_passwords named ran,
        select_targets-IsPicked (Granted.deserialize rmp) (λ login. login.user_id)
            (λ login. (login.user_id, login.claims)) (tx.1) targets granted ran',
        h2,
      )

module _ ⦃order : Ordered Str⦄ (rmp : Rmp) (c : Cipher) (derive_key : List ℕ → ℕ → c.SymmetricKey)
    {PublicKey : Type 0} (verify_signature : List ℕ → List ℕ → PublicKey → Bool)
    {StoreError : Type 0}
    (merge_join_by : List (Str × Option Str)
      → List (Str × List ℕ)
      → List (EitherOrBoth (Str × Option Str) (Str × List ℕ))) where
  -- A read of users that the proof asks for, with its targets in one transaction.
  pub record Reading (s : AppState PublicKey)
      (open_read : Result (Rows StoreError × Rows StoreError) StoreError) (proof : List ℕ × List ℕ)
      (include_claims include_passwords : Bool) (time : ℕ) (users : List User) : Type 0 where
    pub content : ProofContent
    pub targets : ProofTargetOut
    pub tx : Rows StoreError × Rows StoreError
    pub passed : checked rmp c derive_key verify_signature s proof time ≡ ok content
    pub action : is_action_valid (read_users ∷ []) content.action ≡ true
    pub target : validate_any content.target content.target_data ≡ ok targets
    pub opened : open_read ≡ ok tx
    pub shown : IsShown rmp merge_join_by tx targets include_claims include_passwords users

  -- Users are read only by a proof that passed the checks of its signature and its expiry and asks
  -- to read users. For a range and for all users, every row that the table of users yields is read,
  -- in order; for a selection only rows of selected users, each row at most once and in order.
  -- Password files are shown only if they are asked for; with claims, the users are what the join
  -- of these rows with those that the same targets pick from the table of claims makes of them.
  pub get_users_bytes-Reading :
      (s s' : AppState PublicKey)
      (open_read : Result (Rows StoreError × Rows StoreError) StoreError) (proof : List ℕ × List ℕ)
      (include_claims include_passwords : Bool) (time : ℕ) (users : List User)
      → get_users_bytes rmp c derive_key verify_signature merge_join_by s open_read proof
          include_claims include_passwords time
        ≡ returns (s', ok users)
      → Reading s open_read proof include_claims include_passwords time users
  unfolding get_users_bytes read_validated
  get_users_bytes-Reading s s' open_read proof include_claims include_passwords time users h =
      let (p, verified, rest) =
        and_then-ok (λ _. proof_refused)
          (verify_proof rmp c derive_key verify_signature s proof time)
          (read_validated rmp merge_join_by open_read include_claims include_passwords) s' users
          h in
      let (content, passed, object) =
        verify_proof-checked rmp c derive_key verify_signature s s' proof time p verified in
      let rest' =
        subst
          (λ o.
            read_validated rmp merge_join_by open_read include_claims include_passwords s' o
            ≡ pure users)
          object rest in
      let (validated, valid, h1) =
        bind-ok
          (try (λ _. proof_refused)
            (validate try_unit (proof_object content) (read_users ∷ []) validate_any))
          _ users rest' in
      let (tx, opened, h2) = bind-ok (try unread open_read) _ users h1 in
      let facts =
        (validate-exact try_unit (proof_object content) (read_users ∷ []) validate_any (validated.0)
            (validated.1)).0
          (try-ok (λ _. proof_refused) _ validated valid) in
      record {
        content = content;
        targets = validated.1;
        tx = tx;
        passed = passed;
        action = facts.1;
        target = facts.0;
        opened = try-ok unread open_read tx opened;
        shown =
            read_users_of-IsShown rmp merge_join_by tx (validated.1) include_claims
              include_passwords users h2;
      }
