-- ===== src/Ops/ProofToken/Once.antt =====
-- A token is used once.
use mono_old.Common.{
  ℕ, ◌≡◌, refl, sym, ap, ◌∙◌, subst, Bool, true, false, some, List, [], ◌∷◌, returns, ◌>>=◌, Result,
  ok, err, Returns, arith,
}
use mono_old.Rmp.{Rmp}
use mono_old.Crypto.{Cipher}
use mono_old.RangeSet.Deque.Chain.{held, IsChain}
use mono_old.RangeSet.Remembered.{Within, held-Within, num_exists-adds}
use mono_old.Proof.{InvalidProof, invalid_proof}
use mono_old.Proof.Content.{ProofContent}
use mono_old.Proof.Validate.{UnvalidatedProofObject}
use mono_old.Ops.ProofToken.{
  AppState, counter_used, deserialize_unit, answer_used, use_token, checked, read_token,
  verify_proof,
}

pub pairs : {A B : Type 0} (a b : A × B) → returns a ≡ returns b → a ≡ b
pairs a b e = cc

module _ {PublicKey : Type 0} where
  abbrev pub Sound : AppState PublicKey → Type 0
  Sound s = IsChain 64 s.compact_set

  -- The states that a server comes to: other numbers of the chain are asked for, and whatever else
  -- changes leaves the set alone.
  pub data Later (s : AppState PublicKey) : AppState PublicKey → Type 0 where
    now : Later s s
    asked :
        {t u : AppState PublicKey} (num expires time : ℕ) (used : Bool)
        → Later s t
        → Within t.compact_set num
        → counter_used t num expires time ≡ returns (u, used)
        → Later s u
    changed : {t u : AppState PublicKey} → Later s t → u.compact_set ≡ t.compact_set → Later s u

  pub counter_used-adds :
      (s : AppState PublicKey) (num expires time : ℕ)
      → Sound s
      → Within s.compact_set num
      → Returns (counter_used s num expires time) λ r.
        (r.1 ≡ held s.compact_set num)
        × Sound r.0
        × (held r.0.compact_set num ≡ true)
        × ((m : ℕ) → held s.compact_set m ≡ true → held r.0.compact_set m ≡ true)
  unfolding counter_used
  counter_used-adds s num expires time chain within =
      let (r, call, facts) =
        num_exists-adds 64 s.compact_set num expires (some time) (omega arith) chain within in
      ((record s { compact_set = r.0 }, r.1), rw call refl, facts)

  pub Later-held :
      {s u : AppState PublicKey} (num : ℕ)
      → Sound s
      → held s.compact_set num ≡ true
      → Later s u
      → Sound u × (held u.compact_set num ≡ true)
  Later-held num chain h now = (chain, h)
  Later-held num chain h (changed later same) =
      let (chain', h') = Later-held num chain h later in
      (subst (λ c. IsChain 64 c) (sym same) chain', subst (λ c. held c num ≡ true) (sym same) h')
  Later-held num chain h (asked {t} {u} other expires time used later within call) =
      let (chain', h') = Later-held num chain h later in
      let (r, run, (_, chain'', _, kept)) = counter_used-adds t other expires time chain' within in
      let same : r.0 ≡ u = ap (λ p. p.0) (pairs r (u, used) (sym run ∙ call)) in
      (
        subst (λ w. Sound w) same chain'',
        subst (λ w. held w.compact_set num ≡ true) same (kept num h'),
      )

  refused :
      (s : AppState PublicKey) (used : Bool) (content : ProofContent) (data_bytes : List ℕ)
      → used ≡ true
      → answer_used content data_bytes (s, used) ≡ returns (s, err invalid_proof)
  refused s true content data_bytes h = refl
  refused s false content data_bytes h = cc

  -- A number that is held is refused, whatever proof it comes with.
  use_token-held :
      (s : AppState PublicKey) (content : ProofContent) (data_bytes : List ℕ)
      (time count expires : ℕ)
      → Sound s
      → held s.compact_set count ≡ true
      → Returns (use_token s content data_bytes time (count, expires)) λ r. r.1 ≡ err invalid_proof
  unfolding use_token
  use_token-held s content data_bytes time count expires chain h =
      let (r, run, facts) =
        counter_used-adds s count expires time chain (held-Within 64 s.compact_set count chain h) in
      let used : r.1 ≡ true = facts.0 ∙ h in
      ((r.0, err invalid_proof), rw run (refused r.0 r.1 content data_bytes used), refl)

  kept_state :
      (r : AppState PublicKey × Bool) (content : ProofContent) (data_bytes : List ℕ)
      (s' : AppState PublicKey) (answer : Result (UnvalidatedProofObject (List ℕ)) InvalidProof)
      → answer_used content data_bytes r ≡ returns (s', answer)
      → r.0 ≡ s'
  unfolding deserialize_unit
  kept_state (t, true) content data_bytes s' answer h = ap (λ p. p.0) (pairs _ _ h)
  kept_state (t, false) content [] s' answer h = ap (λ p. p.0) (pairs _ _ h)
  kept_state (t, false) content (b ∷ bytes) s' answer h = cc

  -- After a number of the chain was asked for, whatever the answer, it is held.
  use_token-holds :
      (s : AppState PublicKey) (content : ProofContent) (data_bytes : List ℕ)
      (time count expires : ℕ) (s' : AppState PublicKey)
      (answer : Result (UnvalidatedProofObject (List ℕ)) InvalidProof)
      → Sound s
      → Within s.compact_set count
      → use_token s content data_bytes time (count, expires) ≡ returns (s', answer)
      → Sound s' × (held s'.compact_set count ≡ true)
  unfolding use_token
  use_token-holds s content data_bytes time count expires s' answer chain within call =
      let (r, run, facts) = counter_used-adds s count expires time chain within in
      let same : r.0 ≡ s' =
        kept_state r content data_bytes s' answer
          (subst (λ m. (m >>= answer_used content data_bytes) ≡ returns (s', answer)) run call) in
      (subst (λ w. Sound w) same facts.1, subst (λ w. held w.compact_set count ≡ true) same facts.2)

module _ (rmp : Rmp) (c : Cipher) (derive_key : List ℕ → ℕ → c.SymmetricKey) {PublicKey : Type 0}
    (verify_signature : List ℕ → List ℕ → PublicKey → Bool) where
  -- A verification that comes to the counter is the use of its token.
  pub verify_proof_lem :
      (s : AppState PublicKey) (proof : List ℕ × List ℕ) (time : ℕ) (content : ProofContent)
      (data_bytes : List ℕ) (count expires : ℕ)
      → checked rmp c derive_key verify_signature s proof time ≡ ok content
      → read_token rmp c derive_key verify_signature s content time
        ≡ returns (ok (data_bytes, count, expires))
      → verify_proof rmp c derive_key verify_signature s proof time
        ≡ use_token s content data_bytes time (count, expires)
  unfolding verify_proof
  verify_proof_lem s proof time content data_bytes count expires e e' = ground (arith, e, e')

  -- Once a proof came to the counter with the number of its token within the chain of the range
  -- set, and the verification returned, every later proof with a token of that number is refused,
  -- as long as each number that was asked for in between was within the chain when it was asked
  -- for. In between the state may change otherwise, apart from the range set.
  pub verify_proof-once :
      (s s' u : AppState PublicKey) (proof later_proof : List ℕ × List ℕ) (time later_time : ℕ)
      (content later_content : ProofContent) (data_bytes later_bytes : List ℕ)
      (count expires later_expires : ℕ)
      (answer : Result (UnvalidatedProofObject (List ℕ)) InvalidProof)
      → Sound s
      → checked rmp c derive_key verify_signature s proof time ≡ ok content
      → read_token rmp c derive_key verify_signature s content time
        ≡ returns (ok (data_bytes, count, expires))
      → Within s.compact_set count
      → verify_proof rmp c derive_key verify_signature s proof time ≡ returns (s', answer)
      → Later s' u
      → checked rmp c derive_key verify_signature u later_proof later_time ≡ ok later_content
      → read_token rmp c derive_key verify_signature u later_content later_time
        ≡ returns (ok (later_bytes, count, later_expires))
      → Returns
          (verify_proof rmp c derive_key verify_signature u later_proof later_time)
          λ r. r.1 ≡ err invalid_proof
  verify_proof-once s s' u proof later_proof time later_time content later_content data_bytes
        later_bytes count expires later_expires answer chain signed token within call later signed'
        token' =
      let first_use =
        sym (verify_proof_lem s proof time content data_bytes count expires signed token) ∙ call in
      let (chain', h) =
        use_token-holds s content data_bytes time count expires s' answer chain within first_use in
      let (chain'', h') = Later-held count chain' h later in
      let (r, run, refused) =
        use_token-held u later_content later_bytes later_time count later_expires chain'' h' in
      (
        r,
        verify_proof_lem u later_proof later_time later_content later_bytes count later_expires
              signed' token'
            ∙ run,
        refused,
      )
