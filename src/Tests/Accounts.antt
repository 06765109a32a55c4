-- ===== src/Tests/Accounts.antt =====
-- Runs of the registration and the login of a user, on a database of functions.
use mono_old.Common.{
  ℕ, ◌≡◌, refl, ◌&&◌, Option, none, some, List, [], ◌∷◌, ◌++◌, returns, Result, ok, err, Returns,
  if◌then◌else◌, replicate, arith,
}
use mono_old.Rmp.{try_cursor_slice, rmp_read_bin, rmp_read_str}
use mono_old.LittleEndian.{to_le, from_le}
use mono_old.Crypto.{symmetric_encrypt, symmetric_decrypt, try_keys}
use mono_old.Cursor.{slice_str}
use mono_old.Counter.{increment}
use mono_old.Users.{UserPassword, Tables, get_login}
use mono_old.Users
use mono_old.Store.{TableName, users, eq_table, Redb, tables_of}
use mono_old.Proof.Names.{same}
use mono_old.Ephemeral.Keys.{interval}
use mono_old.Ephemeral.Keys
use mono_old.Ephemeral.State.{create_login_state, get_login_state}
use mono_old.Ephemeral.Content.{EphemeralContent, verify_state_equal}
use mono_old.Ephemeral.Bytes.{serialize}
use mono_old.Ephemeral.Bytes
use mono_old.Ephemeral.Encrypted
use mono_old.Ops.Answer.{change_error, ephemeral_refused, pure}
use mono_old.Ops.ProofToken.{ephemeral_key, eph_veri_keys, deserialize_unit, counter_next}
use mono_old.Ops.ProofToken.Once.{now}
use mono_old.Ops.Opened.{IsValidKey}
use mono_old.Ops.Register.{
  Opaque, start_register, user_change_ephemeral, write_user, register_finish,
}
use mono_old.Ops.Register.Completed.{new_content, register_finish-registers}
use mono_old.Ops.Login.{answer_of, login_start, read_entry, ask_counter, login_finish}
use mono_old.Ops.Login.Once.{login_finish-once}
use mono_old.Ops.Login.Completed.{login_content}
use mono_old.Tests.Instances.{cells}
use mono_old.Tests.Tokens.{
  lock, unlock, tag, box, only_opens, iv, derived, started, counted_up, accepted, sound, within,
}
use mono_old.Tests.Tokens
use mono_old.Tests.Logins.{padded, user}

abbrev pub Tabled : Type 0
Tabled = TableName → List ℕ → Option (List ℕ)

abbrev pub insert_into : Tabled → TableName → List ℕ → List ℕ → Tabled
insert_into db t k v = λ u j. if eq_table t u && same k j then some v else db u j

pub read_same :
    (r v : Option (List ℕ)) → (let a : Result (Option (List ℕ)) ℕ = ok r in a) ≡ ok v → v ≡ r
read_same r v h = cc

pub kept_same :
    (db tx : Tabled) (t : TableName) (k : List ℕ)
    → (let a : Result Tabled ℕ = ok db in a) ≡ ok tx
    → tx t k ≡ db t k
kept_same db tx t k h = let e : db ≡ tx = cc h in rw e refl

pub stored_same :
    (tx db : Tabled) (t : TableName) (k : List ℕ)
    → (let a : Result Tabled ℕ = ok tx in a) ≡ ok db
    → db t k ≡ tx t k
stored_same tx db t k h = let e : tx ≡ db = cc h in rw e refl

pub inserted_same :
    (tx tx' : Tabled) (t u : TableName) (k j v : List ℕ)
    → (let a : Result Tabled ℕ = ok (insert_into tx t k v) in a) ≡ ok tx'
    → tx' u j ≡ (if eq_table t u && same k j then some v else tx u j)
inserted_same tx tx' t u k j v h = let e : insert_into tx t k v ≡ tx' = cc h in rw (← e) refl

-- A database whose calls succeed.
abbrev pub tabled : Redb ℕ
tabled = record {
  Database = Tabled;
  WriteTx = Tabled;
  stored = λ db. db;
  pending = λ tx. tx;
  read = λ db t k. ok (db t k);
  read_session = λ db hash. ok none;
  open_write = λ db. ok db;
  get = λ tx t k. ok (tx t k);
  insert = λ tx t k v. ok (insert_into tx t k v);
  commit = λ tx. ok tx;
  read-stored = λ db t k v h. read_same (db t k) v h;
  open_write-pending = λ db tx t k h. kept_same db tx t k h;
  get-pending = λ tx t k v h. read_same (tx t k) v h;
  insert-pending = λ tx tx' t u k j v h. inserted_same tx tx' t u k j v h;
  commit-stored = λ tx db t k h. stored_same tx db t k h;
}

-- The password file is the message of the client.
abbrev pub trusting : Opaque ℕ
trusting = record {
  register_server = λ request user_id. ok request;
  register_server_finish = λ request. ok request;
  login_server = λ file request user_id. ok (request, 8 ∷ []);
  login_server_finish = λ request state. ok (state ++ request);
}

abbrev pub nothing : Tabled
nothing t k = none

abbrev pub bytes_of : UserPassword → List ℕ
bytes_of u = 2 ∷ (1 ∷ (97 ∷ (1 ∷ u.password_file)))

-- One user, with the password file of one byte.
abbrev pub one_user : Tabled
one_user = insert_into nothing users (97 ∷ []) (2 ∷ (1 ∷ (97 ∷ (1 ∷ (9 ∷ [])))))

-- What the operations on users compute by.
unfoldable pub computes : Unit {0}
unfolding slice_str lock unlock tag to_le from_le increment try_cursor_slice rmp_read_bin
    rmp_read_str try_keys symmetric_encrypt symmetric_decrypt Keys.countdown Keys.compute Keys.last
    Bytes.key_name Bytes.from_key_name Bytes.serialize Bytes.deserialize Bytes.read
    Encrypted.create_expires Encrypted.create Encrypted.decrypt_bytes Users.serialize
    Users.deserialize Users.get_login create_login_state get_login_state verify_state_equal
    counter_next ephemeral_key eph_veri_keys deserialize_unit user_change_ephemeral write_user
    start_register register_finish login_start read_entry ask_counter login_finish Tokens.computes
computes = tt

pub valid_key : IsValidKey started 100 200
valid_key = record {
  low = omega arith;
  order = omega arith;
  fits = omega arith;
  near = unfold computes in omega arith;
}

abbrev pub new_eph : List ℕ
new_eph = replicate 16 0 ++ (serialize cells (new_content (97 ∷ []) 100) ++ iv)

abbrev pub registered : Tabled
registered = insert_into nothing users (97 ∷ []) (2 ∷ (1 ∷ (97 ∷ (1 ∷ (7 ∷ [])))))

is_started :
    start_register cells box derived trusting started (3 ∷ []) (97 ∷ []) 100 iv
    ≡ pure (3 ∷ [], new_eph)
is_started = unfold computes in refl

register_finish-registers_example :
    (register_finish cells box derived padded trusting tabled started nothing
        (7 ∷ [])
        new_eph
        200
        201
      ≡ pure registered)
    × (get_login cells (tables_of tabled (λ s. s) registered) (97 ∷ [])
        ≡ returns (ok (some (record { user_id = 97 ∷ []; password_file = 7 ∷ [] }))))
register_finish-registers_example =
    register_finish-registers cells box derived padded trusting tabled (λ s. s) started started
      nothing registered nothing registered (3 ∷ []) (7 ∷ []) (97 ∷ []) (3 ∷ []) new_eph iv (7 ∷ [])
      100 200 201 (some (2 ∷ (1 ∷ (97 ∷ (1 ∷ (7 ∷ [])))))) is_started refl (only_opens _ _ iv _)
      (omega arith, refl) (unfold computes in refl) valid_key refl refl refl (omega arith, refl)
      refl refl (unfold computes in refl) refl refl

abbrev login_eph : List ℕ
login_eph =
    replicate 16 0
    ++ (serialize cells (login_content (97 ∷ []) 1 (padded (9 ∷ [])) 100 (8 ∷ [])) ++ iv)

abbrev pub one_table : Tables ℕ
one_table = tables_of tabled (λ s. s) one_user

pub is_found : get_login cells one_table (97 ∷ []) ≡ returns (ok (some user))
is_found = unfold computes in refl

abbrev login_entry : EphemeralContent
login_entry = login_content (97 ∷ []) 1 (padded (9 ∷ [])) 100 (8 ∷ [])

is_entered :
    read_entry cells box derived padded trusting one_table counted_up login_eph 110 120
    ≡ pure (login_entry, padded (9 ∷ []), (1, 160, padded (9 ∷ [])))
is_entered = unfold computes in refl

is_again :
    read_entry cells box derived padded trusting one_table accepted login_eph 111 121
    ≡ pure (login_entry, padded (9 ∷ []), (1, 160, padded (9 ∷ [])))
is_again = unfold computes in refl

is_finished :
    login_finish cells box derived padded trusting one_table counted_up (4 ∷ []) login_eph 110 120
    ≡ returns (accepted, answer_of (97 ∷ []) (padded (9 ∷ [])) (ok (8 ∷ 4 ∷ [])))
is_finished = unfold computes in refl

login_finish-once_example :
    Returns
      (login_finish cells box derived padded trusting one_table accepted (4 ∷ []) login_eph 111 121)
      λ r. r.1 ≡ err (change_error ephemeral_refused)
login_finish-once_example =
    login_finish-once cells box derived padded trusting one_table counted_up accepted accepted
      (4 ∷ []) (4 ∷ []) login_eph login_eph 110 120 111 121 login_entry login_entry
      (padded (9 ∷ [])) (padded (9 ∷ [])) (padded (9 ∷ [])) (padded (9 ∷ [])) 1 160 160 _ sound
      is_entered within is_finished now is_again
