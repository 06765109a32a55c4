-- ===== src/Tests/Grants.antt =====
-- Runs of the operations that a proof asks for: the reset of a password, and new claims.
use mono_old.Common.{ℕ, ◌≡◌, refl, List, [], ◌∷◌, ◌++◌, returns, Result, ok, replicate}
use mono_old.Claims.{Claims, to_claims_sorted, is_ascending}
use mono_old.Users.Granted
use mono_old.Store.{claims}
use mono_old.Proof
use mono_old.Proof.{InvalidProof, ActionType}
use mono_old.Proof.Content.{ProofContent, serialize}
use mono_old.Proof.Validate.{validate, validate_single}
use mono_old.Ephemeral.Bytes
use mono_old.Ops.ProofToken.{checked}
use mono_old.Ops.Modify.{
  change_entry, reset_user, reset_with_proof, write_claims, set_user_claims, user_set_claims,
}
use mono_old.Ops.Modify.Reset.{Resetting, change_content, reset_with_proof-Resetting}
use mono_old.Ops.Modify.SetClaims.{Granting, user_set_claims-Granting}
use mono_old.Tests.Instances.{cells}
use mono_old.Tests.Tokens.{box, iv, derived, signed_by, counted_up, accepted, token}
use mono_old.Tests.Tokens
use mono_old.Tests.Access.{number_order}
use mono_old.Tests.Logins.{padded}
use mono_old.Tests.Accounts.{Tabled, tabled, insert_into, one_user, one_table}
use mono_old.Tests.Accounts

abbrev asking : ActionType → List ℕ → ProofContent
asking action bytes = record {
  action = action;
  target = Proof.select;
  target_data = (97 ∷ []) ∷ [];
  expires = 1000;
  ephemeral = token;
  data_bytes = bytes;
}

abbrev sent : ProofContent → List ℕ × List ℕ
sent content = let bytes = serialize cells content in (bytes, 5 ∷ bytes)

-- What the operations compute by.
computes : Unit {0}
unfolding Tokens.computes Accounts.computes validate validate_single change_entry reset_user
    reset_with_proof to_claims_sorted is_ascending Granted.serialize write_claims set_user_claims
    user_set_claims
computes = tt

abbrev eph : List ℕ
eph =
    replicate 16 0 ++ (Bytes.serialize cells (change_content (97 ∷ []) (padded (9 ∷ [])) 201) ++ iv)

is_reset :
    reset_with_proof cells box derived signed_by padded one_table counted_up
      (sent (asking Proof.reset_password []))
      200
      201
      iv
    ≡ returns (accepted, ok eph)
is_reset = unfold computes in refl

reset_with_proof-Resetting_example :
    Resetting cells box derived signed_by padded one_table counted_up accepted
      (sent (asking Proof.reset_password []))
      200
      201
      iv
      eph
reset_with_proof-Resetting_example =
    reset_with_proof-Resetting cells box derived signed_by padded one_table counted_up accepted
      (sent (asking Proof.reset_password [])) 200 201 iv eph is_reset

abbrev read_names : List ℕ → Result (Claims ℕ ℕ) InvalidProof
read_names bytes = ok (record { keys = bytes; values = bytes })

abbrev write_names : Claims ℕ ℕ → List ℕ
write_names c = c.keys

abbrev granted : Tabled
granted = insert_into one_user claims (97 ∷ []) (2 ∷ (1 ∷ (97 ∷ (2 ∷ (3 ∷ (4 ∷ []))))))

abbrev granting : List ℕ × List ℕ
granting = sent (asking Proof.set_claims (3 ∷ 4 ∷ []))

is_granted :
    user_set_claims cells box derived signed_by read_names write_names tabled counted_up one_user
      granting 200
    ≡ returns (accepted, ok granted)
is_granted = unfold computes in refl

user_set_claims-Granting_example :
    (content : ProofContent) × (checked cells box derived signed_by counted_up granting 200
      ≡ ok content)
    × Granting cells read_names write_names tabled one_user granted content
user_set_claims-Granting_example =
    user_set_claims-Granting cells box derived signed_by read_names write_names tabled counted_up
      accepted one_user granted granting 200 is_granted
