-- ===== src/Tests/Selections.antt =====
-- Runs of the selection of users, by the order of the bytes of their names.
use mono_old.Common.{
  ℕ, ◌≡◌, ◌↔◌, refl, Bool, true, false, ◌&&◌, ◌||◌, Option, none, some, List, [], ◌∷◌, returns, ok,
  ltb, ◌==◌, arith, subst, map,
}
use mono_old.Cursor.{slice_str}
use mono_old.Rmp.{try_cursor_slice, rmp_read_bin, rmp_read_str}
use mono_old.Claims.{Ordered}
use mono_old.Users.{deserialize}
use mono_old.Proof.Names.{same, same→eq, same_refl}
use mono_old.Proof.Validate.{out_select, validate, validate_any}
use mono_old.Ops.Answer.{pure}
use mono_old.Ops.Admin.{
  EitherOrBoth, only_left, User, select_users, select_claims, read_users_of, read_validated,
  get_users_bytes, Rows, user_row, select_rows, select_targets,
}
use mono_old.Ops.Admin.Selected.{AreRead, select_targets-taken}
use mono_old.Ops.Admin.Reading.{Reading, get_users_bytes-Reading}
use mono_old.Tests.Tokens.{box, derived, signed_by, counted_up, accepted, proof}
use mono_old.Tests.Tokens
use mono_old.Tests.Instances.{cells}

less_bytes : List ℕ → List ℕ → Bool
less_bytes [] [] = false
less_bytes [] (y ∷ ys) = true
less_bytes (x ∷ xs) [] = false
less_bytes (x ∷ xs) (y ∷ ys) = ltb x y || ((x == y) && less_bytes xs ys)

bytes_iff : (a b : List ℕ) → (same a b ≡ true) ↔ (a ≡ b)
bytes_iff a b = (same→eq a b, λ e. subst (λ c. same a c ≡ true) e (same_refl a))

bytes_irrefl : (a : List ℕ) → less_bytes a a ≡ false
unfolding less_bytes
bytes_irrefl [] = refl
bytes_irrefl (x ∷ xs) = ground (arith, bytes_irrefl xs)

bytes_trans :
    (a b c : List ℕ) → less_bytes a b ≡ true → less_bytes b c ≡ true → less_bytes a c ≡ true
unfolding less_bytes
bytes_trans [] [] c p q = cc
bytes_trans [] (y ∷ ys) [] p q = cc
bytes_trans [] (y ∷ ys) (z ∷ zs) p q = refl
bytes_trans (x ∷ xs) [] c p q = cc
bytes_trans (x ∷ xs) (y ∷ ys) [] p q = cc
bytes_trans (x ∷ xs) (y ∷ ys) (z ∷ zs) p q = ground (arith, p, q, bytes_trans xs ys zs)

bytes_total : (a b : List ℕ) → less_bytes a b ≡ false → less_bytes b a ≡ false → a ≡ b
unfolding less_bytes
bytes_total [] [] p q = refl
bytes_total [] (y ∷ ys) p q = cc
bytes_total (x ∷ xs) [] p q = cc
bytes_total (x ∷ xs) (y ∷ ys) p q =
    let e : x ≡ y = ground (arith, p, q) in
    let p' : less_bytes xs ys ≡ false = ground (arith, p, e) in
    let q' : less_bytes ys xs ≡ false = ground (arith, q, e) in rw (e, bytes_total xs ys p' q') refl

instance abbrev byte_order : Ordered (List ℕ)
byte_order = record {
  less = less_bytes;
  same = same;
  same_iff = bytes_iff;
  less_irrefl = bytes_irrefl;
  less_trans = bytes_trans;
  less_total = bytes_total;
}

abbrev row : ℕ → ℕ → List ℕ
row name file = 2 ∷ 1 ∷ name ∷ 1 ∷ file ∷ []

-- A table with two users.
abbrev table : Rows ℕ
table = record {
  range = λ first last. ok (row 97 7 ∷ row 99 9 ∷ []);
  iter = ok (row 97 7 ∷ row 99 9 ∷ []);
}

abbrev found : List ((List ℕ) × (List ℕ × Option (List ℕ)))
found = (97 ∷ [], (97 ∷ [], some (7 ∷ []))) ∷ (99 ∷ [], (99 ∷ [], some (9 ∷ []))) ∷ []

rows_read :
    AreRead (deserialize cells) (λ u. u.user_id) (user_row true) (row 97 7 ∷ row 99 9 ∷ []) found
unfolding slice_str try_cursor_slice rmp_read_bin rmp_read_str deserialize
rows_read = (
  (record { user_id = 97 ∷ []; password_file = 7 ∷ [] }, refl, refl, refl),
  ((record { user_id = 99 ∷ []; password_file = 9 ∷ [] }, refl, refl, refl), tt),
)

-- The second of three selected users has no row, and the third, who has one, is left out.
select_targets-taken_example :
    select_targets {StoreError = ℕ}
      (deserialize cells)
      (λ u. u.user_id)
      (user_row true)
      table
      (out_select ((97 ∷ []) ∷ (98 ∷ []) ∷ (99 ∷ []) ∷ []))
    ≡ pure ((97 ∷ [], some (7 ∷ [])) ∷ [])
unfolding less_bytes
select_targets-taken_example =
    select_targets-taken (deserialize cells) (λ u. u.user_id) (user_row true) table (97 ∷ [])
      ((98 ∷ []) ∷ (99 ∷ []) ∷ []) (row 97 7 ∷ row 99 9 ∷ []) found
      ((refl, (refl, tt)), ((refl, tt), (tt, tt))) refl rows_read ((refl, tt), (tt, tt))

-- What a read of users computes by.
computes : Unit {0}
unfolding Tokens.computes slice_str try_cursor_slice rmp_read_bin rmp_read_str deserialize validate
    validate_any select_rows select_targets select_users select_claims read_users_of read_validated
    get_users_bytes
computes = tt

abbrev no_claims :
    List (List ℕ × Option (List ℕ))
    → List (List ℕ × List ℕ)
    → List (EitherOrBoth (List ℕ × Option (List ℕ)) (List ℕ × List ℕ))
no_claims users granted = map only_left users

abbrev both_users : List User
both_users =
    record { user_id = 97 ∷ []; password_file = none; claims = none }
    ∷ record { user_id = 99 ∷ []; password_file = none; claims = none }
    ∷ []

are_read :
    get_users_bytes cells box derived signed_by no_claims counted_up
      (ok (table, table))
      proof
      false
      false
      200
    ≡ returns (accepted, ok both_users)
are_read = unfold computes in refl

get_users_bytes-Reading_example :
    Reading cells box derived signed_by no_claims counted_up
      (ok (table, table))
      proof
      false
      false
      200
      both_users
get_users_bytes-Reading_example =
    get_users_bytes-Reading cells box derived signed_by no_claims counted_up accepted
      (ok (table, table)) proof false false 200 both_users are_read
