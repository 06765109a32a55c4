-- ===== src/Tests/Tokens.antt =====
-- Runs of the proof tokens. The cipher puts its key in front of the text, sixteen times.
use mono_old.Common.{
  ℕ, ◌+◌, ◌≡◌, refl, Bool, Option, none, some, List, [], ◌∷◌, ◌++◌, Outcome, returns, ok, err,
  Returns, if◌then◌else◌, length, take, drop, replicate, arith, Bool-cases, inl, inr,
}
use mono_old.Rmp.{try_cursor_slice, rmp_read_bin, rmp_read_str}
use mono_old.LittleEndian.{to_le, from_le}
use mono_old.Crypto.{Cipher, OnlyOpensTo, symmetric_encrypt, symmetric_decrypt, try_keys}
use mono_old.Counter.{increment}
use mono_old.RangeSet
use mono_old.RangeSet.Range
use mono_old.RangeSet.Deque
use mono_old.RangeSet.Deque.Chain.{IsChain}
use mono_old.RangeSet.Remembered.{Within}
use mono_old.RangeSet.Laws.{new-IsChain}
use mono_old.Proof
use mono_old.Proof.Names
use mono_old.Proof.Names.{same, same_refl}
use mono_old.Proof.Content
use mono_old.Proof.Content.{ProofContent}
use mono_old.Ephemeral.Keys
use mono_old.Ephemeral.State.{create_token_state, get_token_state}
use mono_old.Ephemeral.Bytes
use mono_old.Ephemeral.Encrypted
use mono_old.Ops.ProofToken.{
  AppState, proof_token_at, counter_next, counter_used, ephemeral_key, eph_veri_keys,
  deserialize_unit, proof_object, use_token, checked, read_token, verify_proof,
}
use mono_old.Ops.ProofToken.Once.{now, verify_proof-once}
use mono_old.Tests.Instances.{cells}

unfoldable pub tag : ℕ → List ℕ
tag key = replicate 16 key

unfoldable pub lock : ℕ → List ℕ → List ℕ → Option (List ℕ)
unfolding tag
lock key nonce text = some (tag key ++ text)

unfoldable pub unlock : ℕ → List ℕ → List ℕ → Option (List ℕ)
unfolding tag
unlock key nonce ciphertext =
    if same (take 16 ciphertext) (tag key) then some (drop 16 ciphertext) else none

pub unlock-lock :
    (key : ℕ) (nonce text ciphertext : List ℕ)
    → lock key nonce text ≡ some ciphertext
    → unlock key nonce ciphertext ≡ some text
unfolding lock unlock
unlock-lock key nonce text ciphertext e =
    let whole : tag key ++ text ≡ ciphertext = ground (arith, e) in
    rw (← whole, same_refl (tag key)) refl

pub length-lock :
    (key : ℕ) (nonce text ciphertext : List ℕ)
    → lock key nonce text ≡ some ciphertext
    → length ciphertext ≡ length text + 16
unfolding lock
length-lock key nonce text ciphertext e =
    let whole : tag key ++ text ≡ ciphertext = ground (arith, e) in rw (← whole) (omega arith)

abbrev pub box : Cipher
box = record {
  SymmetricKey = ℕ;
  encrypt = lock;
  decrypt = unlock;
  decrypt-encrypt = unlock-lock;
  length-encrypt = length-lock;
}

pub only_opens : (keys : List ℕ) (key : ℕ) (iv text : List ℕ) → OnlyOpensTo box keys key iv text
unfolding lock unlock
only_opens [] key iv text = tt
only_opens (other ∷ keys) key iv text = (
  λ ciphertext e.
      let whole : tag key ++ text ≡ ciphertext = ground (arith, e) in
      elim (Bool-cases (same (tag key) (tag other))) [
        | inl s ↦ inr (rw (← whole, s) refl)
        | inr s ↦ inl (rw (← whole, s) refl)
      ],
  only_opens keys key iv text,
)

-- A signature is the key in front of the bytes.
abbrev pub signed_by : List ℕ → List ℕ → ℕ → Bool
signed_by bytes signature key = same signature (key ∷ bytes)

abbrev pub derived : List ℕ → ℕ → ℕ
derived secret n = n

abbrev pub started : AppState ℕ
started = record {
  public_key = 5;
  counter = 1;
  compact_set = RangeSet.new 64;
  ephemeral_time = 0;
  ephemeral_secret = [];
  ephemeral_valid = 2;
}

abbrev pub counted_up : AppState ℕ
counted_up = record started { counter = 2 }

abbrev pub iv : List ℕ
iv = 0 ∷ 0 ∷ 0 ∷ 0 ∷ 0 ∷ 0 ∷ 0 ∷ 0 ∷ 0 ∷ 0 ∷ 0 ∷ 0 ∷ []

handed_out : Outcome (AppState ℕ × List ℕ)
unfolding proof_token_at counter_next increment ephemeral_key
handed_out = proof_token_at cells box derived signed_by started 100 iv

abbrev pub expiry : ℕ
expiry = 43300

-- The tag of the cipher, the token of the first number, and the nonce.
abbrev pub token : List ℕ
token =
    0 ∷ 0 ∷ 0 ∷ 0 ∷ 0 ∷ 0 ∷ 0 ∷ 0 ∷ 0 ∷ 0 ∷ 0 ∷ 0 ∷ 0 ∷ 0 ∷ 0 ∷ 0 ∷ 5 ∷ 0 ∷ expiry ∷ 16 ∷ 1 ∷ 0 ∷ 0
    ∷ 0 ∷ 0 ∷ 0 ∷ 0 ∷ 0 ∷ 36 ∷ 169 ∷ 0 ∷ 0 ∷ 0 ∷ 0 ∷ 0 ∷ 0 ∷ 11 ∷ 112 ∷ 114 ∷ 111 ∷ 111 ∷ 102 ∷ 95
    ∷ 116 ∷ 111 ∷ 107 ∷ 101 ∷ 110 ∷ 0 ∷ iv

abbrev pub content : ProofContent
content = record {
  action = Proof.read_users;
  target = Proof.all;
  target_data = [];
  expires = 1000;
  ephemeral = token;
  data_bytes = [];
}

-- What `verify_proof` and what it calls compute by.
unfoldable pub computes : Unit {0}
unfolding lock unlock tag to_le from_le increment try_cursor_slice rmp_read_bin rmp_read_str
    try_keys symmetric_encrypt symmetric_decrypt Range.full Range.fill Range.add_num
    Deque.partition_point Deque.grow Deque.copy_down Deque.close_gap Deque.merge Deque.add_at
    Deque.add_num_ranges RangeSet.expired_search RangeSet.mark RangeSet.add_num
    RangeSet.expire_before RangeSet.check_expired RangeSet.num_exists Proof.Names.name
    Proof.Names.target_name Proof.Names.from_name Proof.Names.target_from_name
    Proof.Content.serialize Proof.Content.read_strs Proof.Content.read_content
    Proof.Content.deserialize Keys.countdown Keys.compute Keys.last create_token_state
    get_token_state Bytes.key_name Bytes.from_key_name Bytes.serialize Bytes.deserialize Bytes.read
    Encrypted.create_expires Encrypted.create Encrypted.decrypt_bytes counter_next counter_used
    ephemeral_key eph_veri_keys deserialize_unit use_token proof_token_at checked read_token
    verify_proof
computes = tt

abbrev pub proof : List ℕ × List ℕ
proof = let bytes = Proof.Content.serialize cells content in (bytes, 5 ∷ bytes)

is_checked : checked cells box derived signed_by counted_up proof 200 ≡ ok content
is_checked = unfold computes in refl

is_read :
    read_token cells box derived signed_by counted_up content 200 ≡ returns (ok ([], 1, expiry))
is_read = unfold computes in refl

-- The slots of the first number.
abbrev pub slots : List ℕ
slots = 1 ∷ replicate 63 0

abbrev pub accepted : AppState ℕ
accepted = record counted_up {
  compact_set = record { members = some slots; min = 1; max = 64; expires = Range.unknown } ∷ [];
}

is_accepted :
    verify_proof cells box derived signed_by counted_up proof 200
    ≡ returns (accepted, ok (proof_object content))
is_accepted = unfold computes in refl

pub sound : IsChain 64 started.compact_set
sound = new-IsChain 64 (omega arith) (omega arith)

pub within : Within started.compact_set 1
within = (refl, omega arith)

verify_proof-once_example :
    Returns
      (verify_proof cells box derived signed_by accepted proof 200)
      λ r. r.1 ≡ err Proof.invalid_proof
verify_proof-once_example =
    verify_proof-once cells box derived signed_by counted_up accepted accepted proof proof 200 200
      content content [] [] 1 expiry expiry (ok (proof_object content)) sound is_checked is_read
      within is_accepted now (unfold computes in refl) (unfold computes in refl)
