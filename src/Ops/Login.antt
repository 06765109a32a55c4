-- ===== src/Ops/Login.antt =====
-- `login_start` and `login_finish` of tiauth/tiauth-core/src/ops/login.rs. The OPAQUE protocol, the
-- tables, the cipher and the hash of a password file are parameters.
pub mod Once
pub mod Completed
use mono_old.Common.{
  ℕ, ◌+◌, ◌%◌, ◌^◌, Bool, true, false, not, ◌||◌, Option, none, some, List, Outcome, returns,
  panics, Result, ok, err, if◌then◌else◌,
}
use mono_old.Rmp.{Rmp}
use mono_old.Crypto.{Cipher}
use mono_old.Users.{UserPassword, Tables, get_login}
use mono_old.Proof.Names.{same}
use mono_old.Proof.Content.{is_expired}
use mono_old.Ephemeral.{login, InvalidEphemeral}
use mono_old.Ephemeral.State.{LoginState, is_login, create_login_state, get_login_state}
use mono_old.Ephemeral.Content.{EphemeralContent, try_get_state}
use mono_old.Ephemeral.Bytes.{read}
use mono_old.Ephemeral.Encrypted.{create_expires, decrypt_bytes}
use mono_old.Ops.Answer.{
  ServerError, ChangeError, Stateful, store_error, opaque_error, change_error, ephemeral_refused,
  Answer, pure, fail, try, broaden, run, or_todo, ◌>>=◌,
}
use mono_old.Ops.ProofToken.{AppState, counter_next, counter_used, ephemeral_key, eph_veri_keys}
use mono_old.Ops.Register.{Opaque}

-- `COUNTER_EXPIRES`, a minute.
abbrev pub counter_expires : ℕ
counter_expires = 60

-- What a login that finishes answers: the secret, the user, and the hash of the password file.
abbrev pub Finished : Type 0
Finished = List ℕ × List ℕ × List ℕ

abbrev pub answer_of :
    {StoreError OpaqueError : Type 0}
    → List ℕ
    → List ℕ
    → Result (List ℕ) OpaqueError
    → Result Finished (ServerError StoreError OpaqueError)
answer_of user_id hash (err e) = err (opaque_error e)
answer_of user_id hash (ok secret) = ok (secret, user_id, hash)

abbrev pub state_of : Outcome (Result LoginState InvalidEphemeral) → Answer ChangeError LoginState
state_of (returns r) = try (λ _. ephemeral_refused) r
state_of panics = panics

-- The checks of `verify_state` before its closure is called.
abbrev pub unexpired : Bool → EphemeralContent → Answer ChangeError LoginState
unfolding get_login_state
unexpired expired entry =
    if expired
    then fail ephemeral_refused
    else state_of (try_get_state is_login get_login_state entry.eph_type entry.state)

module _ (rmp : Rmp) (c : Cipher) (derive_key : List ℕ → ℕ → c.SymmetricKey)
    (create_hash : List ℕ → List ℕ) {PublicKey StoreError OpaqueError : Type 0}
    (opaque : Opaque OpaqueError) (tables : Tables StoreError) where
  abbrev pub made_ephemeral :
      AppState PublicKey
      → List ℕ
      → UserPassword
      → ℕ
      → List ℕ
      → List ℕ × List ℕ
      → Answer (ServerError StoreError OpaqueError) (AppState PublicKey × List ℕ × List ℕ)
  unfolding counter_next ephemeral_key create_login_state
  made_ephemeral s user_id user time iv (response, state_data) =
      let expires : ℕ = (time + counter_expires) % 2 ^ 64 in
      let (s', count) = counter_next s in
      do
        eph ← run (
            create_expires rmp c (ephemeral_key c derive_key s time) user_id is_login
              (create_login_state (count, expires, create_hash user.password_file)) login expires
              state_data iv)
        pure (s', response, eph)

  -- A user without a record is `todo!()`.
  unfoldable pub login_start :
      AppState PublicKey
      → List ℕ
      → List ℕ
      → ℕ
      → List ℕ
      → Answer (ServerError StoreError OpaqueError) (AppState PublicKey × List ℕ × List ℕ)
  unfolding made_ephemeral get_login
  login_start s request user_id time iv = do
    answer ← run (get_login rmp tables user_id)
    stored ← try store_error answer
    user ← or_todo stored
    served ← try opaque_error (opaque.login_server user.password_file request user_id)
    made_ephemeral s user_id user time iv served

  -- What the second step reads before it asks the counter: the content of the ephemeral, the hash of
  -- the stored password file, and the state that the ephemeral was made in.
  unfoldable pub read_entry :
      AppState PublicKey
      → List ℕ
      → ℕ
      → ℕ
      → Answer (ServerError StoreError OpaqueError) (EphemeralContent × List ℕ × LoginState)
  unfolding eph_veri_keys get_login unexpired
  read_entry s nonce time later = do
    decrypted ←
        try (λ _. change_error ephemeral_refused)
          (decrypt_bytes rmp c nonce (eph_veri_keys c derive_key s time))
    entry ← run (read rmp decrypted)
    answer ← run (get_login rmp tables entry.user_id)
    stored ← try store_error answer
    user ← or_todo stored
    state ← broaden change_error (unexpired (is_expired later entry.expires) entry)
    pure (entry, create_hash user.password_file, state)

  -- `String::from_utf8(..).unwrap()` and the last step of the protocol.
  abbrev pub served :
      AppState PublicKey
      → List ℕ
      → EphemeralContent
      → List ℕ
      → Stateful (AppState PublicKey) (ServerError StoreError OpaqueError) Finished
  served s request entry hash =
      if rmp.is_utf8 entry.data_bytes
      then returns
          (s, answer_of entry.user_id hash (opaque.login_server_finish request entry.data_bytes))
      else panics

  -- What the closure makes of the counter's answer: a used number or another password is refused.
  abbrev pub finish_used :
      List ℕ
      → EphemeralContent
      → List ℕ
      → List ℕ
      → AppState PublicKey × Bool
      → Stateful (AppState PublicKey) (ServerError StoreError OpaqueError) Finished
  finish_used request entry hash made_for (s, used) =
      if used || not (same hash made_for)
      then returns (s, err (change_error ephemeral_refused))
      else served s request entry hash

  abbrev pub after_counter :
      List ℕ
      → EphemeralContent
      → List ℕ
      → List ℕ
      → Outcome (AppState PublicKey × Bool)
      → Stateful (AppState PublicKey) (ServerError StoreError OpaqueError) Finished
  after_counter request entry hash made_for panics = panics
  after_counter request entry hash made_for (returns r) = finish_used request entry hash made_for r

  unfoldable pub ask_counter :
      List ℕ
      → AppState PublicKey
      → ℕ
      → EphemeralContent × List ℕ × LoginState
      → Stateful (AppState PublicKey) (ServerError StoreError OpaqueError) Finished
  unfolding counter_used
  ask_counter request s later (entry, hash, (count, expires, made_for)) =
      after_counter request entry hash made_for (counter_used s count expires later)

  abbrev pub after_entry :
      List ℕ
      → AppState PublicKey
      → ℕ
      → Answer (ServerError StoreError OpaqueError) (EphemeralContent × List ℕ × LoginState)
      → Stateful (AppState PublicKey) (ServerError StoreError OpaqueError) Finished
  unfolding ask_counter
  after_entry request s later panics = panics
  after_entry request s later (returns (err e)) = returns (s, err e)
  after_entry request s later (returns (ok entry)) = ask_counter request s later entry

  -- The time is asked for twice.
  unfoldable pub login_finish :
      AppState PublicKey
      → List ℕ
      → List ℕ
      → ℕ
      → ℕ
      → Stateful (AppState PublicKey) (ServerError StoreError OpaqueError) Finished
  unfolding read_entry after_entry
  login_finish s request nonce time later =
      after_entry request s later (read_entry s nonce time later)
