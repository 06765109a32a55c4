-- ===== src/Tests/Proofs.antt =====
-- Runs of the proofs and the sessions.
use mono_old.Common.{
  replicate, ℕ, ◌≡◌, refl, Bool, true, false, List, [], ◌∷◌, ◌++◌, returns, Result, ok, err, ◌==◌,
  if◌then◌else◌, arith,
}
use mono_old.Proof.{set_claims, select, InvalidProof, invalid_proof, Str}
use mono_old.Proof.Names.{same, same_refl}
use mono_old.Proof.Validate.{UnvalidatedProofObject}
use mono_old.Proof.Content.{ProofContent, is_expired, deserialize, Fits}
use mono_old.Proof.Verify.{create, verify, opened, verify-create, verify_sound}
use mono_old.Session.Keys.{invalidate_session_key, is_key, without, invalidate-lem}
use mono_old.Session.Content.{SessionContent}
use mono_old.Ephemeral.{login, InvalidEphemeral, invalid_ephemeral}
use mono_old.Ephemeral.State.{LoginState, create_login_state}
use mono_old.Ephemeral.Content.{EphemeralContent}
use mono_old.Tests.Instances.{cells}

abbrev alice : Str
alice = 97 ∷ []

abbrev content : ProofContent
content = record {
  action = set_claims;
  target = select;
  target_data = alice ∷ [];
  expires = 100;
  ephemeral = 1 ∷ 2 ∷ [];
  data_bytes = 7 ∷ [];
}

content-Fits : Fits cells content
content-Fits = record {
  action_name = refl;
  name_of_target = refl;
  few = omega arith;
  target_data = ((omega arith, refl), tt);
  expires = omega arith;
  ephemeral = omega arith;
  data_bytes = omega arith;
}

-- The signature is the key in front of the bytes.
abbrev sign : ℕ → List ℕ → List ℕ
sign key b = key ∷ b

abbrev signed : List ℕ → List ℕ → ℕ → Bool
signed b signature key = same signature (key ∷ b)

abbrev first_byte : List ℕ → Result ℕ InvalidProof
first_byte [] = err invalid_proof
first_byte (x ∷ rest) = ok x

abbrev unused : ℕ → Result Bool InvalidProof
unused n = if n == 1 then ok true else err invalid_proof

signed-sign : (b : List ℕ) → signed b (sign 5 b) 5 ≡ true
signed-sign b = same_refl (5 ∷ b)

is_verified :
    verify cells sign signed first_byte (create cells sign signed first_byte 5 content) 5 50 unused
    ≡ ok (opened cells sign signed first_byte content)
is_verified =
    verify-create cells sign signed first_byte 5 5 content 50 unused 1 true signed-sign content-Fits
      refl refl refl

verify_sound_example :
    (c : ProofContent) × (deserialize cells (create cells sign signed first_byte 5 content).0
      ≡ ok c)
    × (is_expired 50 c.expires ≡ false)
    × (signed
          (create cells sign signed first_byte 5 content).0
          (create cells sign signed first_byte 5 content).1
          5
        ≡ true)
    × ((eph : ℕ) × (b : Bool) × (first_byte c.ephemeral ≡ ok eph) × (unused eph ≡ ok b))
    × (opened cells sign signed first_byte content ≡ opened cells sign signed first_byte c)
verify_sound_example =
    verify_sound cells sign signed first_byte (create cells sign signed first_byte 5 content) 5 50
      unused (opened cells sign signed first_byte content) is_verified

abbrev object : UnvalidatedProofObject (List ℕ)
object = record {
  action = set_claims;
  target = select;
  target_data = alice ∷ [];
  data_bytes = 7 ∷ [];
}

invalidate-lem_example :
    invalidate_session_key ◌==◌ (1 ∷ 2 ∷ []) 1 3
    ≡ returns
        ((if is_key ◌==◌ 1 (1 ∷ 2 ∷ []) then without ◌==◌ 1 (1 ∷ 2 ∷ []) else (2 ∷ [])) ++ 3 ∷ [])
invalidate-lem_example = invalidate-lem ◌==◌ 1 (2 ∷ []) 1 3

abbrev session : SessionContent
session = record {
  user_id = alice;
  issued = 10;
  expires = 100;
  pw_file_hash = 4 ∷ [];
  session_claims = 8 ∷ [];
}

abbrev zeros : List ℕ
zeros = replicate 32 0

abbrev ephemeral : EphemeralContent
ephemeral = record {
  user_id = alice;
  expires = 100;
  state = create_login_state (3, 90, zeros);
  eph_type = login;
  data_bytes = 7 ∷ [];
}

abbrev third : LoginState → Result Bool InvalidEphemeral
third s = if s.0 == 3 then ok true else err invalid_ephemeral
