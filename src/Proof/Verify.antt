-- ===== src/Proof/Verify.antt =====
-- `Proof::create` and `Proof::verify` of tiauth/tiauth-core/src/proof.rs. The signature scheme, the
-- deserializer of the ephemeral part and the caller's check of its use are parameters.
use mono_old.Common.{
  Result-cases, subst, ℕ, ◌≡◌, refl, Bool, true, false, List, Result, ok, err, if◌then◌else◌, inl,
  inr,
}
use mono_old.Rmp.{Rmp}
use mono_old.Proof.{InvalidProof, invalid_proof}
use mono_old.Proof.Validate.{UnvalidatedProofObject, ◌>>=◌}
use mono_old.Proof.Content.{
  ProofContent, is_expired, serialize, deserialize, Fits, deserialize-serialize,
}

module _ (rmp : Rmp) {Key PublicKey Signature Eph : Type 0} (sign_data : Key → List ℕ → Signature)
    (verify_signature : List ℕ → Signature → PublicKey → Bool)
    (try_deserialize : List ℕ → Result Eph InvalidProof) where
  pub create : Key → ProofContent → List ℕ × Signature
  create key c = (serialize rmp c, sign_data key (serialize rmp c))

  abbrev pub opened : ProofContent → UnvalidatedProofObject (List ℕ)
  opened c = record {
    action = c.action;
    target = c.target;
    target_data = c.target_data;
    data_bytes = c.data_bytes;
  }

  abbrev pub require : Bool → Result Bool InvalidProof
  require true = ok true
  require false = err invalid_proof

  -- The checks on the content that was read.
  abbrev pub verify_content :
      List ℕ × Signature
      → PublicKey
      → ℕ
      → (Eph → Result Bool InvalidProof)
      → ProofContent
      → Result (UnvalidatedProofObject (List ℕ)) InvalidProof
  verify_content proof public_key time used content = do
    _ ← (if is_expired time content.expires then err invalid_proof else ok true)
    _ ← require (verify_signature proof.0 proof.1 public_key)
    eph ← try_deserialize content.ephemeral
    _ ← used eph
    ok (opened content)

  pub verify :
      List ℕ × Signature
      → PublicKey
      → ℕ
      → (Eph → Result Bool InvalidProof)
      → Result (UnvalidatedProofObject (List ℕ)) InvalidProof
  verify proof public_key time used =
      deserialize rmp proof.0 >>= verify_content proof public_key time used

  -- Where the public key verifies what the key signs, a proof made from content that fits the
  -- format verifies before it expires, when its ephemeral part reads and was not used, and gives
  -- the action, the target and the data that it was made with.
  pub verify-create :
      (key : Key) (public_key : PublicKey) (c : ProofContent) (time : ℕ)
      (used : Eph → Result Bool InvalidProof) (eph : Eph) (b : Bool)
      → ((bytes : List ℕ) → verify_signature bytes (sign_data key bytes) public_key ≡ true)
      → Fits rmp c
      → is_expired time c.expires ≡ false
      → try_deserialize c.ephemeral ≡ ok eph
      → used eph ≡ ok b
      → verify (create key c) public_key time used ≡ ok (opened c)
  unfolding verify create
  verify-create key public_key c time used eph b signs fits fresh reads unused =
      rw (deserialize-serialize rmp c fits, fresh, signs (serialize rmp c), reads, unused) refl

  gates :
      (c : ProofContent) (expired signed : Bool) (e : Result Eph InvalidProof)
      (used : Eph → Result Bool InvalidProof) (p : UnvalidatedProofObject (List ℕ))
      → (do
        _ ← (if expired then err invalid_proof else ok true)
        _ ← require signed
        eph ← e
        _ ← used eph
        ok (opened c))
        ≡ ok p
      → (expired ≡ false)
        × (signed ≡ true)
        × ((eph : Eph) × (b : Bool) × (e ≡ ok eph) × (used eph ≡ ok b))
        × (p ≡ opened c)
  gates c true signed e used p h = cc h
  gates c false false e used p h = cc h
  gates c false true (err x) used p h = cc h
  gates c false true (ok eph) used p h = elim (Result-cases (used eph)) [
    | inl (x, bad) ↦ cc (subst (λ r. (r >>= λ _. ok (opened c)) ≡ ok p) bad h)
    | inr (b, good) ↦
        let h' = subst (λ r. (r >>= λ _. ok (opened c)) ≡ ok p) good h in
        (refl, refl, (eph, b, refl, good), cc h')
  ]

  -- A proof that verifies has content that reads, has not expired, carries a signature of its
  -- bytes under the public key, and has an ephemeral part that the caller's check accepted. What
  -- is returned is that content.
  pub verify_sound :
      (proof : List ℕ × Signature) (public_key : PublicKey) (time : ℕ)
      (used : Eph → Result Bool InvalidProof) (p : UnvalidatedProofObject (List ℕ))
      → verify proof public_key time used ≡ ok p
      → (c : ProofContent) × (deserialize rmp proof.0 ≡ ok c)
        × (is_expired time c.expires ≡ false)
        × (verify_signature proof.0 proof.1 public_key ≡ true)
        × ((eph : Eph) × (b : Bool) × (try_deserialize c.ephemeral ≡ ok eph) × (used eph ≡ ok b))
        × (p ≡ opened c)
  unfolding verify
  verify_sound proof public_key time used p h = elim (Result-cases (deserialize rmp proof.0)) [
    | inl (x, bad) ↦
        cc (subst (λ r. (r >>= verify_content proof public_key time used) ≡ ok p) bad h)
    | inr (c, good) ↦
        let (fresh, signed, accepted, same) =
          gates c (is_expired time c.expires) (verify_signature proof.0 proof.1 public_key)
            (try_deserialize c.ephemeral) used p
            (subst (λ r. (r >>= verify_content proof public_key time used) ≡ ok p) good h) in
        (c, good, fresh, signed, accepted, same)
  ]
