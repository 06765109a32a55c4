-- ===== src/Ephemeral/State.antt =====
-- The states of ephemerals in tiauth/tiauth-core/src/proof.rs: for which type they are, and their
-- bytes. The hash of a password file is a parameter, an array of 32 bytes.
use mono_old.Common.{
  ℕ, ◌^◌, ◌<◌, ◌≡◌, ap, Bool, true, false, List, ◌++◌, Outcome, returns, panics, ◌>>=◌, ltb, ◌==◌,
  if◌then◌else◌, length, take, drop, length-append, arith,
}
use mono_old.LittleEndian.{to_le, from_le, u64-round, length-to_le}
use mono_old.Ephemeral.{EphemeralType, new_user, change_password, login, proof_token}

abbrev pub is_login : EphemeralType → Bool
is_login login = true
is_login t = false

abbrev pub is_proof_token : EphemeralType → Bool
is_proof_token proof_token = true
is_proof_token t = false

abbrev pub is_new_user : EphemeralType → Bool
is_new_user new_user = true
is_new_user t = false

abbrev pub is_change_password : EphemeralType → Bool
is_change_password change_password = true
is_change_password t = false

-- Counter, expiry, and the hash of the password file.
abbrev pub LoginState : Type 0
LoginState = ℕ × ℕ × List ℕ

unfoldable pub create_login_state : LoginState → List ℕ
create_login_state (count, expires, pw_file_hash) =
    to_le 8 count ++ (to_le 8 expires ++ pw_file_hash)

-- `PasswordFileHash::from_bytes`
abbrev pub hash_from_bytes : List ℕ → Outcome (List ℕ)
hash_from_bytes bytes = if length bytes == 32 then returns bytes else panics

unfoldable pub get_login_state : List ℕ → Outcome LoginState
get_login_state state =
    if ltb (length state) 16
    then panics
    else (hash_from_bytes (drop 16 state) >>= λ hash.
        returns (from_le (take 8 state), from_le (take 8 (drop 8 state)), hash))

unfoldable pub create_token_state : ℕ × ℕ → List ℕ
create_token_state (count, expires) = to_le 8 count ++ to_le 8 expires

unfoldable pub get_token_state : List ℕ → Outcome (ℕ × ℕ)
get_token_state state =
    if length state == 16
    then returns (from_le (take 8 state), from_le (take 8 (drop 8 state)))
    else panics

pairs : {a b c d : ℕ} → a ≡ b → c ≡ d → ◌≡◌ {A = ℕ × ℕ} (a, c) (b, d)
pairs e e' = cc (e, e')

triples :
    {a b c d : ℕ} (hash : List ℕ) → a ≡ b → c ≡ d → ◌≡◌ {A = LoginState} (a, c, hash) (b, d, hash)
triples hash e e' = cc (e, e')

-- A login state of 64-bit numbers and a 32-byte hash reads back from its bytes.
pub get_login_state-create :
    (count expires : ℕ) (hash : List ℕ)
    → count < 2 ^ 64
    → expires < 2 ^ 64
    → length hash ≡ 32
    → get_login_state (create_login_state (count, expires, hash)) ≡ returns (count, expires, hash)
unfolding get_login_state create_login_state to_le
get_login_state-create count expires hash h h' size =
    rw size (ap returns (triples hash (u64-round count h) (u64-round expires h')))

-- A proof token's state of 64-bit numbers reads back from its bytes.
pub get_token_state-create :
    (count expires : ℕ)
    → count < 2 ^ 64
    → expires < 2 ^ 64
    → get_token_state (create_token_state (count, expires)) ≡ returns (count, expires)
unfolding get_token_state create_token_state to_le
get_token_state-create count expires h h' =
    ap returns (pairs (u64-round count h) (u64-round expires h'))

pub length-create_token_state :
    (count expires : ℕ) → length (create_token_state (count, expires)) ≡ 16
unfolding create_token_state
length-create_token_state count expires = omega (
  arith,
  length-append (to_le 8 count) (to_le 8 expires),
  length-to_le 8 count,
  length-to_le 8 expires,
)
