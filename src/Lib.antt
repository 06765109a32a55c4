-- ===== src/Lib.antt =====
-- A verification library for mono-old: the replay protection, the proofs, the claims and the
-- sessions of tiauth, the user state of borink-auth, the key-value metadata, the checkout
-- machine of borink-git, and the lazy values of lazy-borink.
--
-- How the parts interact. A client presents a proof or a session; the server checks its
-- signature and its expiry, and uses a compact set of numbers to refuse one that it has seen, as
-- long as the numbers stay within the ranges of the set. tiauth keeps the numbers in a set of
-- ranges, borink-auth in a set of bits. Both are saved and read as MessagePack bytes, like the
-- proofs. A proof carries a token that the server made before: it counts up, encrypts the number
-- with a key of the current interval, and when the proof comes back it decrypts the number with
-- one of the last keys and asks the range set for it. Ops/ProofToken puts these parts together.
-- A session is encrypted with the newest session key; its check decrypts it, asks for its
-- status, and compares the hash of its user's stored password file. Ops/Sessions puts these
-- together. A registration and a login take two calls each, with an ephemeral between them that
-- the server encrypted and the client keeps: the second call opens it with one of the last keys,
-- at a time that it asks for again, and compares the state that the ephemeral was made in with
-- the record in the store. Ops/Register writes the record in one transaction, Ops/Login asks the
-- range set for the number of the login, and Ops/Modify makes the ephemeral for a new password
-- from a proof or a session. An application that starts reads its keys from the store, in State.
--
-- Which file models which part:
--
-- - BitSet: `AtomicBitSet`, `CompactSet` and the three bit sets of
--   tiauth/tiauth-core/src/counter.rs (`exists`, `create_up_to`, `num_exists`). BitSet/Boxcar is
--   the crate boxcar, BitSet/Trait/Tracking what it means for a set to remember the numbers of a
--   history.
-- - Bits: the bits of a number, for the words of the bit sets.
-- - UserState: `UserState` of borink-core/borink-auth/src/lib.rs, over the small bit set of
--   compactset.rs.
-- - RangeSet: `CompactSetRange` of tiauth/tiauth-core/src/counter.rs. RangeSet/Range is `Range`
--   (`add_num`), RangeSet/Deque is `add_num_ranges` with its merges, RangeSet is `add_num`,
--   `check_expired` and `num_exists`, RangeSet/Saved the saved bytes.
-- - Rmp: the crate rmp as a parameter, and the reads of tiauth/tiauth-core/src/util.rs.
-- - Proof: tiauth/tiauth-core/src/proof.rs. Proof/Names has the names of actions and targets,
--   Proof/Content the bytes of a proof, Proof/Verify `Proof::create` and `verify`,
--   Proof/Validate the checks of action and target.
-- - Claims: the sorted claims of tiauth/tiauth-core/src/data.rs (`to_claims_sorted`,
--   `add_claims`, `remove_claims`, `get_claim`, `subset_linear`). Claims/Sorted is the search
--   and the map that claims stand for.
-- - Crypto: `symmetric_encrypt` and `symmetric_decrypt` of tiauth/tiauth-core/src/crypto.rs,
--   over the crate aes-gcm-siv as a parameter.
-- - Ops: the operations of the server. Ops/ProofToken has `proof_token_at` and `verify_proof` of
--   tiauth/tiauth-core/src/ops/verify.rs on the state of state.rs, Ops/Sessions has
--   `decrypt_session`, `verify_session` and `check_session`. Ops/Register has `start_register`,
--   `user_change_ephemeral` and `register_finish` of ops/register.rs, Ops/Login `login_start`
--   and `login_finish` of ops/login.rs, Ops/Modify `reset_password`, `change_password` and
--   `user_set_claims` of ops/modify.rs, Ops/Admin `select_users`, `select_claims` and
--   `get_users_bytes` of ops/admin.rs; Ops/Admin/Selected and Ops/Admin/Picked say what they
--   collect with and without the rows in order. Ops/Answer has their errors, Ops/Opened says
--   when an ephemeral still opens.
-- - State: `init_app_state` and `load_app_state` of tiauth/tiauth-core/src/state.rs.
--   State/Entries is what each read finds, State/Restart what a start reads, State/Stored what
--   two starts come to.
-- - Store: the database of the crate redb as a parameter, with the transactions of
--   tiauth/tiauth-core/src/store.rs. Store/Keys is its module `keys`.
-- - Decimal: numbers as text.
-- - AppendOnly: the vector and the hash map of tiauth/tiauth-core/src/appendonly.rs with their
--   views (`push`, `set`, `insert`, `get`, `search`).
-- - Session: Session/Keys is the rotation of the session keys of
--   tiauth/tiauth-core/src/state.rs, Session/Content the checks of `SessionContent` of proof.rs,
--   Session/Bytes its bytes, Session/Encrypted the creation and decryption of a session,
--   Session/Status its revocation.
-- - Users: `UserPassword` of tiauth/tiauth-core/src/data.rs and `get_login` of store.rs, over
--   the tables of the crate redb as a parameter. Users/Granted has `UserClaims` and
--   `SessionClaims`.
-- - Cursor: the reads that unwrap, with `cursor_slice` of tiauth/tiauth-core/src/util.rs.
-- - Ephemeral: `EphemeralKey`, the states for logins and proof tokens, the checks of
--   `EphemeralContent`, its bytes and its encryption, all of proof.rs.
-- - LittleEndian: the bytes of unsigned numbers.
-- - Counter: the atomic `Counter` of tiauth/tiauth-core/src/counter.rs.
-- - Kv: the metadata of borink-core/borink-kv/src/lib.rs (`join_prefix_with_meta`, `read_meta`,
--   `prefix_range`).
-- - Lazy: `Lazy` of lazy-borink/lazy-borink/src/lib.rs.
-- - Git: the states and the loop of borink-core/borink-git/src/git.rs. Git/Effects is the file
--   system and the git program.
-- - Common: shared names, lists over native numbers, and the two ways in which a Rust call ends,
--   by a value or by a panic. Tests: instances of the parameters and runs of the theorems.
--
-- Conventions. A method on a shared object returns the object as the call leaves it. An atomic
-- operation, or a call under a mutex, is one step, so a concurrent history is a sequence of
-- calls. That an encryption opens to its text only is a hypothesis on one ciphertext and on the
-- keys that the server tries on it. A panic is the outcome `panics`, a Rust error a `Result`.
-- The time is an argument of an operation, once for every time that the operation asks for it,
-- and so is the nonce of an encryption. 64-bit sums that can wrap are written with their
-- modulus.
--
-- Bounds and fuel. The ranges have `size` numbers, 64 in the source; the theorems hold up to
-- 255, the largest size whose offsets fit a byte. `push_until` of the dynamic set has one round
-- more than the index that it creates, and the loop that makes new ranges has as many rounds as
-- the number that it reaches for; that both are enough is part of the theorems. The loop of the
-- checkout machine needs nine rounds, which its theorems show for every larger fuel. The search
-- of the hash map makes as many rounds as there are slots, the power of two of its capacity has
-- 63 doublings to go; that both are enough is proved where a new map is used. The binary search
-- among claims goes through the names from the front, which finds the only place of a name in
-- strict order. The binary searches of the range set are counts of the leading elements that
-- compare as less, which is what the standard library's search returns for a comparator that
-- never answers equal.
--
-- Not modelled: cryptography below the symmetric encryption, the SQLite statements, HTTP servers
-- and language bindings, which are input and output or calls of third-party code; the tables of
-- sessions, the session that a login creates, the binary split of a claims' subset, the text
-- encodings, and tiauth2, which later stages take up.
pub mod Common
pub mod Bits
pub mod BitSet
pub mod UserState
pub mod RangeSet
pub mod Kv
pub mod Lazy
pub mod Git
pub mod Rmp
pub mod Crypto
pub mod Cursor
pub mod Decimal
pub mod Users
pub mod Store
pub mod Proof
pub mod Session
pub mod LittleEndian
pub mod Counter
pub mod Ephemeral
pub mod AppendOnly
pub mod Claims
pub mod Ops
pub mod State
pub mod Tests
