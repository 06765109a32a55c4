-- ===== src/Ops/Modify/SetClaims.antt =====
-- What a proof that sets claims changes.
use mono_old.Common.{
  ℕ, ◌≡◌, sym, ap, ◌∙◌, subst, Bool, true, ◌&&◌, some, List, [], ◌∷◌, Result, ok, if◌then◌else◌,
  Bool-cases, inl, inr, arith, returns,
}
use mono_old.Rmp.{Rmp}
use mono_old.Crypto.{Cipher}
use mono_old.Claims.{Ordered, Claims, is_ascending, to_claims_sorted}
use mono_old.Users.Granted.{UserClaims}
use mono_old.Users.Granted
use mono_old.Store.{Redb, TableName, claims, eq_table}
use mono_old.Proof.{InvalidProof, set_claims}
use mono_old.Proof.Content.{ProofContent}
use mono_old.Proof.Names.{same}
use mono_old.Proof.Validate.{validate, validate_single, validate-exact, is_action_valid}
use mono_old.Ops.Answer.{
  unstored, proof_refused, claims_unsorted, pure, try, bind-ok, try-ok, and_then-ok,
}
use mono_old.Ops.ProofToken.{AppState, checked, proof_object, verify_proof}
use mono_old.Ops.ProofToken.Sound.{verify_proof-checked}
use mono_old.Ops.Modify.{write_claims, set_user_claims, user_set_claims}

module _ {K V : Type 0} ⦃order : Ordered K⦄ where
  sorted-same :
      (view sorted : Claims K V)
      → to_claims_sorted view ≡ ok sorted
      → (is_ascending view.keys ≡ true) × (view ≡ sorted)
  unfolding to_claims_sorted
  sorted-same view sorted h = elim (Bool-cases (is_ascending view.keys)) [
    | inl e ↦ (e, ground (arith, e, h))
    | inr e ↦ absurd (ground (arith, e, h))
  ]

module _ {K V : Type 0} ⦃order : Ordered K⦄ (rmp : Rmp)
    (try_deserialize : List ℕ → Result (Claims K V) InvalidProof)
    (claims_bytes : Claims K V → List ℕ) {StoreError : Type 0} (redb : Redb StoreError) where
  write_claims-stores :
      (db db' : redb.Database) (user_id : List ℕ) (sorted : Claims K V)
      → write_claims rmp try_deserialize claims_bytes redb db user_id sorted ≡ pure db'
      → (t : TableName) (j : List ℕ)
      → redb.stored db' t j ≡ (
          if eq_table claims t && same user_id j
          then some
              (Granted.serialize rmp (record { user_id = user_id; claims = claims_bytes sorted }))
          else redb.stored db t j)
  unfolding write_claims
  write_claims-stores db db' user_id sorted h t j =
      let bytes : List ℕ =
        Granted.serialize rmp (record { user_id = user_id; claims = claims_bytes sorted }) in
      let (tx, opened, h1) = bind-ok (try unstored (redb.open_write db)) _ db' h in
      let (tx', inserted, h2) =
        bind-ok (try unstored (redb.insert tx claims user_id bytes)) _ db' h1 in
      redb.commit-stored tx' db' t j (try-ok unstored (redb.commit tx') db' h2)
      ∙ redb.insert-pending tx tx' claims t user_id j bytes (try-ok unstored _ tx' inserted)
      ∙ ap (λ o. if eq_table claims t && same user_id j then some bytes else o)
          (redb.open_write-pending db tx t j (try-ok unstored (redb.open_write db) tx opened))

  -- The proof asked for claims of one user, in order, and these are stored.
  pub record Granting (db db' : redb.Database) (content : ProofContent) : Type 0 where
    pub user_id : List ℕ
    pub view : Claims K V
    pub action : is_action_valid (set_claims ∷ []) content.action ≡ true
    pub target : validate_single content.target content.target_data ≡ ok user_id
    pub reads : try_deserialize content.data_bytes ≡ ok view
    pub ascending : is_ascending view.keys ≡ true
    pub stored :
        (t : TableName) (j : List ℕ)
        → redb.stored db' t j ≡ (
            if eq_table claims t && same user_id j
            then some
                (Granted.serialize rmp (record { user_id = user_id; claims = claims_bytes view }))
            else redb.stored db t j)

  set_user_claims-Granting :
      {S : Type 0} (s : S) (db db' : redb.Database) (content : ProofContent)
      → set_user_claims rmp try_deserialize claims_bytes redb db s (proof_object content) ≡ pure db'
      → Granting db db' content
  unfolding set_user_claims
  set_user_claims-Granting s db db' content h =
      let (validated, valid, h1) =
        bind-ok
          (try (λ _. proof_refused)
            (validate try_deserialize (proof_object content) (set_claims ∷ []) validate_single))
          _ db' h in
      let (sorted, ordered, h2) =
        bind-ok (try (λ _. claims_unsorted) (to_claims_sorted (validated.0))) _ db' h1 in
      let facts =
        (validate-exact try_deserialize (proof_object content) (set_claims ∷ []) validate_single
            (validated.0) (validated.1)).0
          (try-ok (λ _. proof_refused) _ validated valid) in
      let (up, whole) =
        sorted-same (validated.0) sorted (try-ok (λ _. claims_unsorted) _ sorted ordered) in
      record {
        user_id = validated.1;
        view = validated.0;
        action = facts.1;
        target = facts.0;
        reads = facts.2;
        ascending = up;
        stored = write_claims-stores db db' (validated.1) (validated.0) (
            subst
              (λ v.
                write_claims rmp try_deserialize claims_bytes redb db (validated.1) v ≡ pure db')
              (sym whole) h2);
      }

module _ {K V : Type 0} ⦃order : Ordered K⦄ (rmp : Rmp) (c : Cipher)
    (derive_key : List ℕ → ℕ → c.SymmetricKey) {PublicKey : Type 0}
    (verify_signature : List ℕ → List ℕ → PublicKey → Bool)
    (try_deserialize : List ℕ → Result (Claims K V) InvalidProof)
    (claims_bytes : Claims K V → List ℕ) {StoreError : Type 0} (redb : Redb StoreError) where
  -- Claims are set only by a proof that passed the checks of its signature and its expiry, and asks
  -- to set claims in order for one user. Then exactly the entry of this user in the table of claims
  -- changes, to these claims.
  pub user_set_claims-Granting :
      (s s' : AppState PublicKey) (db db' : redb.Database) (proof : List ℕ × List ℕ) (time : ℕ)
      → user_set_claims rmp c derive_key verify_signature try_deserialize claims_bytes redb s db
          proof time
        ≡ returns (s', ok db')
      → (content : ProofContent) × (checked rmp c derive_key verify_signature s proof time
          ≡ ok content)
        × Granting rmp try_deserialize claims_bytes redb db db' content
  unfolding user_set_claims
  user_set_claims-Granting s s' db db' proof time h =
      let (p, verified, set) =
        and_then-ok (λ _. proof_refused)
          (verify_proof rmp c derive_key verify_signature s proof time)
          (set_user_claims rmp try_deserialize claims_bytes redb db) s' db' h in
      let (content, passed, object) =
        verify_proof-checked rmp c derive_key verify_signature s s' proof time p verified in
      (
        content,
        passed,
        set_user_claims-Granting rmp try_deserialize claims_bytes redb s' db db' content (
            subst (λ o. set_user_claims rmp try_deserialize claims_bytes redb db s' o ≡ pure db')
              object set),
      )
