-- ===== src/Ops/ProofToken/Sound.antt =====
-- What a proof that is accepted has passed.
use mono_old.Common.{
  ℕ, ◌≡◌, ap, Bool, true, false, List, [], ◌∷◌, returns, ok, Outcome-cases, Result-cases, inl, inr,
  arith,
}
use mono_old.Rmp.{Rmp}
use mono_old.Crypto.{Cipher}
use mono_old.Proof.Content.{ProofContent}
use mono_old.Proof.Validate.{UnvalidatedProofObject}
use mono_old.Ops.ProofToken.{
  AppState, counter_used, deserialize_unit, answer_used, proof_object, use_token, checked,
  read_token, verify_proof,
}
use mono_old.Ops.ProofToken.Once.{pairs}

module _ {PublicKey : Type 0} where
  answer_used-object :
      (r : AppState PublicKey × Bool) (content : ProofContent) (data_bytes : List ℕ)
      (s' : AppState PublicKey) (p : UnvalidatedProofObject (List ℕ))
      → answer_used content data_bytes r ≡ returns (s', ok p)
      → p ≡ proof_object content
  unfolding deserialize_unit
  answer_used-object (t, true) content data_bytes s' p h = cc (ap (λ q. q.1) (pairs _ _ h))
  answer_used-object (t, false) content [] s' p h = cc (ap (λ q. q.1) (pairs _ _ h))
  answer_used-object (t, false) content (b ∷ bytes) s' p h = cc

  use_token-object :
      (s s' : AppState PublicKey) (content : ProofContent) (data_bytes : List ℕ)
      (time count expires : ℕ) (p : UnvalidatedProofObject (List ℕ))
      → use_token s content data_bytes time (count, expires) ≡ returns (s', ok p)
      → p ≡ proof_object content
  unfolding use_token
  use_token-object s s' content data_bytes time count expires p h =
      elim (Outcome-cases (counter_used s count expires time)) [
        | inl e ↦ absurd (ground (arith, e, h))
        | inr (r, e) ↦ answer_used-object r content data_bytes s' p (rw e at h)
      ]

module _ (rmp : Rmp) (c : Cipher) (derive_key : List ℕ → ℕ → c.SymmetricKey) {PublicKey : Type 0}
    (verify_signature : List ℕ → List ℕ → PublicKey → Bool) where
  -- A proof that is accepted passed the checks of its signature and its expiry, and yields its content.
  pub verify_proof-checked :
      (s s' : AppState PublicKey) (proof : List ℕ × List ℕ) (time : ℕ)
      (p : UnvalidatedProofObject (List ℕ))
      → verify_proof rmp c derive_key verify_signature s proof time ≡ returns (s', ok p)
      → (content : ProofContent) × (checked rmp c derive_key verify_signature s proof time
          ≡ ok content)
        × (p ≡ proof_object content)
  unfolding verify_proof
  verify_proof-checked s s' proof time p h =
      elim (Result-cases (checked rmp c derive_key verify_signature s proof time)) [
        | inl (x, e) ↦ absurd (ground (arith, e, h))
        | inr (content, e) ↦
            elim (Outcome-cases (read_token rmp c derive_key verify_signature s content time)) [
              | inl e' ↦ absurd (ground (arith, e, e', h))
              | inr (r, e') ↦ elim (Result-cases r) [
                | inl (x, e'') ↦ absurd (ground (arith, e, e', e'', h))
                | inr ((data_bytes, count, expires), e'') ↦ (
                  content,
                  e,
                  use_token-object s s' content data_bytes time count expires p
                      (ground (arith, e, e', e'', h)),
                )
              ]
            ]
      ]
