-- ===== src/Ops/Register/Records.antt =====
-- What `register_finish` does to the stored records of users.
use mono_old.Common.{
  ℕ, ◌^◌, ◌<◌, ◌≡◌, refl, sym, ap, ◌∙◌, subst, Bool, true, false, ◌&&◌, Option, none, some, List,
  [], Outcome, returns, ok, if◌then◌else◌, length, arith, Bool-cases, inl, inr, ◌⊎◌,
}
use mono_old.Rmp.{Rmp}
use mono_old.Users.{UserPassword, serialize, deserialize, deserialize-serialize}
use mono_old.Store.{Redb, TableName, users, claims, keys, eq_table}
use mono_old.Proof.Names.{same, same→eq}
use mono_old.Ephemeral.{EphemeralType, new_user, change_password, set_password, login, proof_token}
use mono_old.Ephemeral.State.{is_new_user, is_change_password}
use mono_old.Ephemeral.Content.{EphemeralContent, verify_state_equal}
use mono_old.Ops.Answer.{
  store_error, change_error, broaden, broaden-ok, pure, try, run, bind-ok, try-ok, run-ok,
}
use mono_old.Ops.ProofToken.{deserialize_unit}
use mono_old.Ops.Register.{
  Opaque, unwrap_unit, match_unit, asserted, changed, change_by_type, user_change_ephemeral,
  write_user,
}

module _ (rmp : Rmp) where
  abbrev pub IsStr : List ℕ → Type 0
  IsStr s = (length s < 2 ^ 32) × (rmp.is_utf8 s ≡ true)

  -- What the table of users holds: records that read back, each under its own user.
  abbrev pub IsRecord : List ℕ → List ℕ → Type 0
  IsRecord user_id bytes =
      (user : UserPassword) × (bytes ≡ serialize rmp user)
      × (user.user_id ≡ user_id)
      × IsStr user.user_id
      × IsStr user.password_file

  pub record-reads :
      (user_id bytes : List ℕ) (r : IsRecord user_id bytes) → deserialize rmp bytes ≡ returns r.0
  record-reads user_id bytes (user, same_bytes, named, (short, utf8), (short', utf8')) =
      ap (deserialize rmp) same_bytes ∙ deserialize-serialize rmp user short utf8 short' utf8'

module _ (rmp : Rmp) {StoreError : Type 0} (redb : Redb StoreError) where
  abbrev pub Keeps : redb.Database → Type 0
  Keeps db =
      (user_id bytes : List ℕ)
      → redb.stored db users user_id ≡ some bytes
      → IsRecord rmp user_id bytes

  abbrev pub Written : redb.Database → redb.Database → List ℕ → UserPassword → Type 0
  Written db db' user_id user =
      (t : TableName) (j : List ℕ)
      → redb.stored db' t j ≡ (
          if eq_table users t && same user_id j
          then some (serialize rmp user)
          else redb.stored db t j)

module _ (rmp : Rmp) (create_hash : List ℕ → List ℕ) {StoreError OpaqueError : Type 0}
    (opaque : Opaque OpaqueError) (redb : Redb StoreError) where
  -- A write that succeeds stores the record that the ephemeral allows, and nothing else.
  pub write_user-Written :
      (db db' : redb.Database) (content : EphemeralContent) (time : ℕ) (password_file : List ℕ)
      → write_user rmp create_hash opaque redb db content time password_file ≡ pure db'
      → (user : UserPassword) × (user_change_ephemeral rmp create_hash content time
            (redb.stored db users content.user_id)
            password_file
          ≡ pure user)
        × Written rmp redb db db' content.user_id user
  unfolding write_user
  write_user-Written db db' content time password_file h =
      let (tx, opened, h1) = bind-ok (try store_error (redb.open_write db)) _ db' h in
      let began : redb.open_write db ≡ ok tx = try-ok store_error (redb.open_write db) tx opened in
      let (old, got, h2) = bind-ok (try store_error (redb.get tx users content.user_id)) _ db' h1 in
      let (user, allowed, h3) =
        bind-ok
          (broaden change_error
            (user_change_ephemeral rmp create_hash content time old password_file))
          _ db' h2 in
      let (tx', inserted, h4) =
        bind-ok (try store_error (redb.insert tx users content.user_id (serialize rmp user))) _ db'
          h3 in
      let committed : redb.commit tx' ≡ ok db' = try-ok store_error (redb.commit tx') db' h4 in
      let seen : old ≡ redb.stored db users content.user_id =
        redb.get-pending tx users content.user_id old
          (try-ok store_error (redb.get tx users content.user_id) old got)
        ∙ redb.open_write-pending db tx users content.user_id began in
      (
        user,
        subst (λ o. user_change_ephemeral rmp create_hash content time o password_file ≡ pure user)
            seen (broaden-ok change_error _ user allowed),
        λ t j.
            redb.commit-stored tx' db' t j committed
            ∙ redb.insert-pending tx tx' users t content.user_id j (serialize rmp user)
                (try-ok store_error _ tx' inserted)
            ∙ ap
                (λ o.
                  if eq_table users t && same content.user_id j
                  then some (serialize rmp user)
                  else o)
                (redb.open_write-pending db tx t j began),
      )

pub unique : {A : Type 0} (m : Outcome A) (a b : A) → m ≡ returns a → m ≡ returns b → a ≡ b
unique m a b h k = cc

pub pure-eq : {E A : Type 0} (a b : A) → pure {E = E} a ≡ pure b → a ≡ b
pure-eq a b h = cc

asserted-eq : (b : Bool) (user user' : UserPassword) → asserted b user ≡ pure user' → user ≡ user'
asserted-eq true user user' h = cc
asserted-eq false user user' h = cc

module _ (rmp : Rmp) (create_hash : List ℕ → List ℕ) where
  -- The record that an ephemeral with a new password comes to.
  abbrev pub renewed : EphemeralContent → List ℕ → UserPassword
  renewed entry password_file = record { user_id = entry.user_id; password_file = password_file }

  pub changed-renewed :
      (entry : EphemeralContent) (time : ℕ) (password_file : List ℕ) (old user : UserPassword)
      → changed rmp create_hash entry time password_file old ≡ pure user
      → renewed entry password_file ≡ user
  changed-renewed entry time password_file old user h =
      let (d, matched, h1) =
        bind-ok
          (match_unit (
            verify_state_equal deserialize_unit is_change_password (create_hash old.password_file)
              entry time))
          _ user h in
      asserted-eq (same old.user_id entry.user_id) (renewed entry password_file) user h1

  -- The record is the old one, or has the new password.
  change-old_or_renewed :
      (t : EphemeralType) (old : Option (List ℕ)) (entry : EphemeralContent) (time : ℕ)
      (password_file : List ℕ) (user : UserPassword)
      → change_by_type rmp create_hash t old entry time password_file ≡ pure user
      → ((bytes : List ℕ) × (old ≡ some bytes) × (deserialize rmp bytes ≡ returns user))
        ⊎ (renewed entry password_file ≡ user)
  change-old_or_renewed new_user (some bytes) entry time password_file user h =
      inl (bytes, refl, run-ok (deserialize rmp bytes) user h)
  change-old_or_renewed new_user none entry time password_file user h =
      let (d, unwrapped, h1) =
        bind-ok (unwrap_unit (verify_state_equal deserialize_unit is_new_user [] entry time)) _ user
          h in
      inr (pure-eq _ user h1)
  change-old_or_renewed change_password none entry time password_file user h = cc
  change-old_or_renewed change_password (some bytes) entry time password_file user h =
      let (old, read_old, h1) = bind-ok (run (deserialize rmp bytes)) _ user h in
      inr (changed-renewed entry time password_file old user h1)
  change-old_or_renewed set_password old entry time password_file user h = cc
  change-old_or_renewed login old entry time password_file user h = cc
  change-old_or_renewed proof_token old entry time password_file user h = cc

  change-named :
      (old : Option (List ℕ)) (entry : EphemeralContent) (time : ℕ) (password_file : List ℕ)
      (user : UserPassword)
      → ((bytes : List ℕ) → old ≡ some bytes → IsRecord rmp entry.user_id bytes)
      → IsStr rmp entry.user_id
      → IsStr rmp password_file
      → user_change_ephemeral rmp create_hash entry time old password_file ≡ pure user
      → (user.user_id ≡ entry.user_id) × IsStr rmp user.user_id × IsStr rmp user.password_file
  unfolding user_change_ephemeral
  change-named old entry time password_file user kept named fits h =
      elim (change-old_or_renewed entry.eph_type old entry time password_file user h) [
        | inl (bytes, there, reads) ↦
            let r = kept bytes there in
            let e : r.0 ≡ user =
              unique (deserialize rmp bytes) r.0 user (record-reads rmp entry.user_id bytes r)
                reads in
            subst
              (λ u. (u.user_id ≡ entry.user_id) × IsStr rmp u.user_id × IsStr rmp u.password_file) e
              (r.2, r.3, r.4)
        | inr e ↦
            subst
              (λ u. (u.user_id ≡ entry.user_id) × IsStr rmp u.user_id × IsStr rmp u.password_file) e
              (refl, named, fits)
      ]

-- Writing what is there changes nothing.
rewritten :
    {StoreError : Type 0} (redb : Redb StoreError) (db : redb.Database) (t : TableName)
    (k j bytes : List ℕ)
    → redb.stored db users k ≡ some bytes
    → (if eq_table users t && same k j then some bytes else redb.stored db t j) ≡ redb.stored db t j
rewritten redb db users k j bytes there = elim (Bool-cases (same k j)) [
  | inl e ↦ rw e (sym there ∙ ap (redb.stored db users) (same→eq k j e))
  | inr e ↦ rw e refl
]
rewritten redb db claims k j bytes there = refl
rewritten redb db keys k j bytes there = refl

module _ (rmp : Rmp) (create_hash : List ℕ → List ℕ) {StoreError OpaqueError : Type 0}
    (opaque : Opaque OpaqueError) (redb : Redb StoreError) where
  -- A write that succeeds keeps a table of users whose entries are records that read back, each under
  -- its own user, where the user of the ephemeral and the new password file fit the format.
  pub write_user-Keeps :
      (db db' : redb.Database) (content : EphemeralContent) (time : ℕ) (password_file : List ℕ)
      → Keeps rmp redb db
      → IsStr rmp content.user_id
      → IsStr rmp password_file
      → write_user rmp create_hash opaque redb db content time password_file ≡ pure db'
      → Keeps rmp redb db'
  write_user-Keeps db db' content time password_file kept named fits h user_id bytes there =
      let (user, allowed, written) =
        write_user-Written rmp create_hash opaque redb db db' content time password_file h in
      let w : redb.stored db' users user_id ≡ (
          if same content.user_id user_id
          then some (serialize rmp user)
          else redb.stored db users user_id) =
        written users user_id in
      elim (Bool-cases (same content.user_id user_id)) [
        | inl e ↦
            let p : content.user_id ≡ user_id = same→eq content.user_id user_id e in
            let (own, short, short') =
              change-named rmp create_hash (redb.stored db users content.user_id) content time
                password_file user (kept content.user_id) named fits allowed in
            let q : serialize rmp user ≡ bytes = ground (arith, w, there, e) in
            (user, sym q, own ∙ p, short, short')
        | inr e ↦ kept user_id bytes (ground (arith, w, there, e))
      ]

  -- Where a user has a record, the ephemeral of a new user changes nothing that is stored.
  pub write_user-new_user :
      (db db' : redb.Database) (content : EphemeralContent) (time : ℕ)
      (password_file bytes : List ℕ)
      → Keeps rmp redb db
      → content.eph_type ≡ new_user
      → redb.stored db users content.user_id ≡ some bytes
      → write_user rmp create_hash opaque redb db content time password_file ≡ pure db'
      → (t : TableName) (j : List ℕ) → redb.stored db' t j ≡ redb.stored db t j
  unfolding user_change_ephemeral
  write_user-new_user db db' content time password_file bytes kept kind there h t j =
      let (user, allowed, written) =
        write_user-Written rmp create_hash opaque redb db db' content time password_file h in
      let r = kept content.user_id bytes there in
      let reads : deserialize rmp bytes ≡ returns user = run-ok (deserialize rmp bytes) user (
        subst
          (λ o. change_by_type rmp create_hash new_user o content time password_file ≡ pure user)
          there
          (subst
            (λ k.
              change_by_type rmp create_hash k (redb.stored db users content.user_id) content time
                password_file
              ≡ pure user)
            kind allowed)) in
      let e : r.0 ≡ user =
        unique (deserialize rmp bytes) r.0 user (record-reads rmp content.user_id bytes r) reads in
      let own : serialize rmp user ≡ bytes = ap (serialize rmp) (sym e) ∙ sym r.1 in
      written t j
      ∙ rewritten redb db t content.user_id j (serialize rmp user) (there ∙ ap some (sym own))
