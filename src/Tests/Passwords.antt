-- ===== src/Tests/Passwords.antt =====
-- Runs of a change of a password, and of the table of users.
use mono_old.Common.{
  ℕ, ◌≡◌, ◌≢◌, refl, some, List, [], ◌∷◌, ◌++◌, returns, ok, replicate, arith, Bool-cases, inl, inr,
  sym,
}
use mono_old.Users.{UserPassword, get_login, serialize}
use mono_old.Store.{users, tables_of}
use mono_old.Proof.Names.{same, same→eq}
use mono_old.Ephemeral.Content.{EphemeralContent}
use mono_old.Ephemeral.Bytes
use mono_old.Ops.Answer.{pure}
use mono_old.Ops.Register.{write_user, register_finish}
use mono_old.Ops.Register.Completed.{new_content}
use mono_old.Ops.Register.Once.{register_finish-once}
use mono_old.Ops.Register.Records.{IsRecord, Keeps, write_user-Keeps, write_user-new_user}
use mono_old.Ops.Modify.{change_entry}
use mono_old.Ops.Modify.Reset.{change_content, change_entry-registers}
use mono_old.Tests.Instances.{cells}
use mono_old.Tests.Tokens.{box, only_opens, iv, derived, started}
use mono_old.Tests.Logins.{padded, user}
use mono_old.Tests.Accounts.{
  Tabled, tabled, trusting, insert_into, one_user, registered, computes, valid_key,
}

abbrev content : EphemeralContent
content = change_content (97 ∷ []) (padded (9 ∷ [])) 100

abbrev eph : List ℕ
eph = replicate 16 0 ++ (Bytes.serialize cells content ++ iv)

abbrev renamed : UserPassword
renamed = record { user_id = 97 ∷ []; password_file = 7 ∷ [] }

abbrev changed : Tabled
changed = insert_into one_user users (97 ∷ []) (2 ∷ (1 ∷ (97 ∷ (1 ∷ (7 ∷ [])))))

is_made : change_entry cells box derived padded started (97 ∷ []) (9 ∷ []) 100 100 iv ≡ returns eph
unfolding change_entry
is_made = unfold computes in refl

change_entry-registers_example :
    (register_finish cells box derived padded trusting tabled started one_user (7 ∷ []) eph 200 201
      ≡ pure changed)
    × (get_login cells (tables_of tabled (λ s. s) changed) (97 ∷ []) ≡ returns (ok (some renamed)))
change_entry-registers_example =
    change_entry-registers cells box derived padded trusting tabled (λ s. s) started started
      one_user changed one_user changed (7 ∷ []) eph iv (7 ∷ []) 100 200 201 user
      (some (2 ∷ (1 ∷ (97 ∷ (1 ∷ (7 ∷ [])))))) is_made refl (only_opens _ _ iv _)
      (omega arith, refl) (omega arith, refl) (omega arith) (unfold computes in refl) valid_key refl
      refl refl (omega arith, refl) refl (unfold computes in refl) (unfold computes in refl) refl
      refl

is_changed :
    register_finish cells box derived padded trusting tabled started one_user (7 ∷ []) eph 200 201
    ≡ pure changed
is_changed = unfold computes in refl

other : padded (7 ∷ []) ≢ padded (9 ∷ [])
other h = cc h

register_finish-once_example :
    register_finish cells box derived padded trusting tabled started changed (6 ∷ []) eph 202 203
    ≢ pure registered
register_finish-once_example =
    register_finish-once cells box derived padded trusting tabled started started one_user changed
      changed registered (7 ∷ []) (6 ∷ []) eph (Bytes.serialize cells content) (7 ∷ []) 200 201 202
      203 content (omega arith, refl) refl (omega arith, refl) other refl (unfold computes in refl)
      (unfold computes in refl) is_changed refl (unfold computes in refl)

there :
    (user_id bytes : List ℕ) → one_user users user_id ≡ some bytes → IsRecord cells user_id bytes
unfolding serialize
there user_id bytes h = elim (Bool-cases (same (97 ∷ []) user_id)) [
  | inl e ↦
      let named : 97 ∷ [] ≡ user_id = same→eq (97 ∷ []) user_id e in
      let own : (2 ∷ (1 ∷ (97 ∷ (1 ∷ (9 ∷ []))))) ≡ bytes = ground (arith, e, h) in
      (user, sym own, named, (omega arith, refl), (omega arith, refl))
  | inr e ↦ absurd (ground (arith, e, h))
]

abbrev fresh : EphemeralContent
fresh = new_content (97 ∷ []) 100

is_unchanged :
    write_user cells padded trusting tabled one_user fresh 200 (7 ∷ [])
    ≡ pure (insert_into one_user users (97 ∷ []) (2 ∷ (1 ∷ (97 ∷ (1 ∷ (9 ∷ []))))))
is_unchanged = unfold computes in refl

write_user-new_user_example :
    insert_into one_user users (97 ∷ []) (2 ∷ (1 ∷ (97 ∷ (1 ∷ (9 ∷ []))))) users (97 ∷ [])
    ≡ one_user users (97 ∷ [])
write_user-new_user_example =
    write_user-new_user cells padded trusting tabled one_user _ fresh 200 (7 ∷ [])
      (2 ∷ (1 ∷ (97 ∷ (1 ∷ (9 ∷ []))))) there refl refl is_unchanged users (97 ∷ [])

write_user-Keeps_example : Keeps cells tabled changed
write_user-Keeps_example =
    write_user-Keeps cells padded trusting tabled one_user changed content 200 (7 ∷ []) there
      (omega arith, refl) (omega arith, refl) (unfold computes in refl)
