-- ===== src/Ops/ProofToken.antt =====
-- `proof_token_at` and `verify_proof` of tiauth/tiauth-core/src/ops/verify.rs, over the part of
-- `AppStateImpl` of tiauth/tiauth-core/src/state.rs that they use. Signatures, the cipher and the
-- derivation of keys are parameters.
pub mod Once
pub mod Accepted
pub mod Sound
use mono_old.Common.{
  ℕ, zero, suc, ◌+◌, ◌*◌, ◌%◌, ◌^◌, Bool, true, false, Option, none, some, List, [], ◌∷◌, Outcome,
  returns, panics, ◌>>=◌, Result, ok, err, if◌then◌else◌,
}
use mono_old.Rmp.{Rmp}
use mono_old.Crypto.{Cipher}
use mono_old.Counter.{increment}
use mono_old.RangeSet.{Ranges, num_exists}
use mono_old.Proof.{InvalidProof, invalid_proof}
use mono_old.Proof.Content.{ProofContent, is_expired, deserialize}
use mono_old.Proof.Validate.{UnvalidatedProofObject}
use mono_old.Ephemeral.{EphemeralType, proof_token, InvalidEphemeral}
use mono_old.Ephemeral.Keys.{interval, compute, last}
use mono_old.Ephemeral.State.{is_proof_token, create_token_state, get_token_state}
use mono_old.Ephemeral.Content.{EphemeralContent, try_get_state}
use mono_old.Ephemeral.Bytes.{read}
use mono_old.Ephemeral.Encrypted.{create, decrypt_bytes}

pub record AppState (PublicKey : Type 0) : Type 0 where
  pub public_key : PublicKey
  pub counter : ℕ
  pub compact_set : Ranges
  pub ephemeral_time : ℕ
  pub ephemeral_secret : List ℕ
  pub ephemeral_valid : ℕ

module _ {PublicKey : Type 0} where
  unfoldable pub counter_next : AppState PublicKey → AppState PublicKey × ℕ
  counter_next s =
      let (counter', count) = increment s.counter in (record s { counter = counter' }, count)

  unfoldable pub counter_used : AppState PublicKey → ℕ → ℕ → ℕ → Outcome (AppState PublicKey × Bool)
  counter_used s num expires time = do
    (ranges, exists) ← num_exists 64 s.compact_set num expires (some time)
    returns (record s { compact_set = ranges }, exists)

abbrev pub proof_object : ProofContent → UnvalidatedProofObject (List ℕ)
proof_object c = record {
  action = c.action;
  target = c.target;
  target_data = c.target_data;
  data_bytes = c.data_bytes;
}

-- `T::deserialize` for the unit type, which unwraps.
unfoldable pub deserialize_unit : List ℕ → Outcome (Unit {0})
deserialize_unit [] = returns tt
deserialize_unit (b ∷ bytes) = panics

-- What a verification leaves and answers.
abbrev pub Verified : Type 0 → Type 0
Verified PublicKey =
    Outcome (AppState PublicKey × Result (UnvalidatedProofObject (List ℕ)) InvalidProof)

-- What the closure makes of the counter's answer, with what follows it.
abbrev pub answer_used :
    {PublicKey : Type 0} → ProofContent → List ℕ → AppState PublicKey × Bool → Verified PublicKey
answer_used content data_bytes (s, true) = returns (s, err invalid_proof)
answer_used content data_bytes (s, false) =
    deserialize_unit data_bytes >>= λ _. returns (s, ok (proof_object content))

-- The closure of `verify_state`, once the number and the expiry are read.
unfoldable pub use_token :
    {PublicKey : Type 0}
    → AppState PublicKey
    → ProofContent
    → List ℕ
    → ℕ
    → ℕ × ℕ
    → Verified PublicKey
unfolding counter_used deserialize_unit
use_token s content data_bytes time (count, expires) =
    counter_used s count expires time >>= answer_used content data_bytes

module _ (c : Cipher) (derive_key : List ℕ → ℕ → c.SymmetricKey) {PublicKey : Type 0} where
  open c use {SymmetricKey}

  unfoldable pub ephemeral_key : AppState PublicKey → ℕ → SymmetricKey
  ephemeral_key s now = compute (derive_key s.ephemeral_secret) now s.ephemeral_time

  unfoldable pub eph_veri_keys : AppState PublicKey → ℕ → List SymmetricKey
  eph_veri_keys s now = last (derive_key s.ephemeral_secret) now s.ephemeral_time s.ephemeral_valid

module _ (rmp : Rmp) (c : Cipher) (derive_key : List ℕ → ℕ → c.SymmetricKey) {PublicKey : Type 0}
    (verify_signature : List ℕ → List ℕ → PublicKey → Bool) where
  open c use {SymmetricKey}

  unfoldable pub proof_token_at :
      AppState PublicKey → ℕ → List ℕ → Outcome (AppState PublicKey × List ℕ)
  unfolding counter_next ephemeral_key
  proof_token_at s time iv =
      let expires : ℕ = (time + interval * 2) % 2 ^ 64 in
      let (s', count) = counter_next s in
      create rmp c (ephemeral_key c derive_key s' time) [] is_proof_token
        (create_token_state (count, expires)) proof_token time [] iv
      >>= λ token. returns (s', token)

  -- The checks of `Proof::verify` before its closure is called, which gets the ephemeral part.
  unfoldable pub checked :
      AppState PublicKey → List ℕ × List ℕ → ℕ → Result ProofContent InvalidProof
  checked s (content_bytes, signature) time = elim (deserialize rmp content_bytes) [
    | err e ↦ err e
    | ok content ↦
        if is_expired time content.expires
        then err invalid_proof
        else if verify_signature content_bytes signature s.public_key
        then ok content
        else err invalid_proof
  ]

  -- The token that the ephemeral part of a proof carries, with its content and its data: what
  -- the closure reads before it asks the counter.
  unfoldable pub read_token :
      AppState PublicKey → ProofContent → ℕ → Outcome (Result (List ℕ × ℕ × ℕ) InvalidProof)
  unfolding eph_veri_keys
  read_token s content time =
      elim (decrypt_bytes rmp c content.ephemeral (eph_veri_keys c derive_key s time)) [
        | err e ↦ returns (err invalid_proof)
        | ok decrypted ↦ read rmp decrypted >>= λ eph.
            if is_expired time eph.expires
            then returns (err invalid_proof)
            else elim (try_get_state is_proof_token get_token_state eph.eph_type eph.state) [
              | panics ↦ panics
              | returns r ↦ elim r [
                | err e ↦ returns (err invalid_proof)
                | ok (count, expires) ↦ returns (ok (eph.data_bytes, count, expires))
              ]
            ]
      ]

  unfoldable pub verify_proof : AppState PublicKey → List ℕ × List ℕ → ℕ → Verified PublicKey
  unfolding checked read_token use_token
  verify_proof s proof time = elim (checked s proof time) [
    | err e ↦ returns (s, err e)
    | ok content ↦ read_token s content time >>= λ r. elim r [
      | err e ↦ returns (s, err e)
      | ok (data_bytes, count, expires) ↦ use_token s content data_bytes time (count, expires)
    ]
  ]
