-- ===== src/Proof/Validate.antt =====
-- `validate` of tiauth/tiauth-core/src/proof.rs: the target, then the action, then the data.
use mono_old.Common.{
  ◌≡◌, refl, Bool, true, false, ◌||◌, List, [], ◌∷◌, Result, ok, err, if◌then◌else◌, ◌↔◌,
}
use mono_old.Proof.{
  ActionType, reset_password, delete_claims, set_claims, add_claims, merge_claims, read_users,
  read_password, delete_user, Target, select, range, all, InvalidProof, invalid_proof, Str,
  TargetList,
}

infixl 5 ◌>>=◌
abbrev pub ◌>>=◌ :
    {A B : Type 0} → Result A InvalidProof → (A → Result B InvalidProof) → Result B InvalidProof
err e >>= f = err e
ok a >>= f = f a

-- `ProofSingleTarget::validate`
unfoldable pub validate_single : Target → TargetList → Result Str InvalidProof
validate_single select (s ∷ []) = ok s
validate_single target target_data = err invalid_proof

pub data ProofTargetOut : Type 0 where
  out_range : Str → Str → ProofTargetOut
  out_select : TargetList → ProofTargetOut
  out_all : ProofTargetOut

-- `ProofTargetAny::validate`
unfoldable pub validate_any : Target → TargetList → Result ProofTargetOut InvalidProof
validate_any all [] = ok out_all
validate_any range (first ∷ last ∷ []) = ok (out_range first last)
validate_any select (s ∷ rest) = ok (out_select (s ∷ rest))
validate_any target target_data = err invalid_proof

abbrev pub eq_action : ActionType → ActionType → Bool
eq_action reset_password reset_password = true
eq_action delete_claims delete_claims = true
eq_action set_claims set_claims = true
eq_action add_claims add_claims = true
eq_action merge_claims merge_claims = true
eq_action read_users read_users = true
eq_action read_password read_password = true
eq_action delete_user delete_user = true
eq_action a b = false

-- `ValidAction` for one action and for a list of them.
abbrev pub is_action_valid : List ActionType → ActionType → Bool
is_action_valid [] action = false
is_action_valid (a ∷ allowed) action = eq_action a action || is_action_valid allowed action

abbrev pub action_valid : List ActionType → ActionType → Result Bool InvalidProof
action_valid allowed action = if is_action_valid allowed action then ok true else err invalid_proof

pub record UnvalidatedProofObject (D : Type 0) : Type 0 where
  pub action : ActionType
  pub target : Target
  pub target_data : TargetList
  pub data_bytes : D

module _ {D V O : Type 0} (try_deserialize : D → Result V InvalidProof) where
  unfoldable pub validate :
      UnvalidatedProofObject D
      → List ActionType
      → (Target → TargetList → Result O InvalidProof)
      → Result (V × O) InvalidProof
  validate p allowed proof_target = do
    target_output ← proof_target p.target p.target_data
    _ ← action_valid allowed p.action
    value ← try_deserialize p.data_bytes
    ok (value, target_output)

-- The three checks in their order.
abbrev checked :
    {V O : Type 0}
    → Result O InvalidProof
    → Bool
    → Result V InvalidProof
    → Result (V × O) InvalidProof
checked r valid d = do o ← r; _ ← if valid then ok true else err invalid_proof; v ← d; ok (v, o)

checks :
    {V O : Type 0} (r : Result O InvalidProof) (b : Bool) (d : Result V InvalidProof) (v : V)
    (o : O)
    → (checked r b d ≡ ok (v, o)) ↔ ((r ≡ ok o) × (b ≡ true) × (d ≡ ok v))
checks (err e) b d v o = ((λ h. cc h), λ h. cc (h.0))
checks (ok o') false d v o = ((λ h. cc h), λ h. cc (h.1))
checks (ok o') true (err e) v o = ((λ h. cc h), λ h. cc (h.2))
checks (ok o') true (ok v') v o = ((λ h. (cc h, refl, cc h)), λ h. cc (h.0, h.2))

module _ {D V O : Type 0} (try_deserialize : D → Result V InvalidProof) where
  -- A proof object validates to a value and a target exactly when the target data has the wanted
  -- form, its action is one of the allowed ones, and its data reads as the value.
  pub validate-exact :
      (p : UnvalidatedProofObject D) (allowed : List ActionType)
      (proof_target : Target → TargetList → Result O InvalidProof) (v : V) (o : O)
      → (validate try_deserialize p allowed proof_target ≡ ok (v, o)) ↔ (
          (proof_target p.target p.target_data ≡ ok o)
          × (is_action_valid allowed p.action ≡ true)
          × (try_deserialize p.data_bytes ≡ ok v))
  unfolding validate
  validate-exact p allowed proof_target v o =
      checks (proof_target p.target p.target_data) (is_action_valid allowed p.action)
        (try_deserialize p.data_bytes) v o
