-- ===== src/Proof.antt =====
-- Proofs of tiauth/tiauth-core/src/proof.rs: the actions and targets, and the checks of a proof
-- once its signature was verified. A string is the list of its bytes.
pub mod Names
pub mod Validate
pub mod Content
pub mod Verify
use mono_old.Common.{
  ℕ, Bool, true, false, ◌&&◌, ◌||◌, List, [], ◌∷◌, Result, ok, err, ◌==◌, if◌then◌else◌,
}

pub data ActionType : Type 0 where
  reset_password : ActionType
  delete_claims : ActionType
  set_claims : ActionType
  add_claims : ActionType
  merge_claims : ActionType
  read_users : ActionType
  read_password : ActionType
  delete_user : ActionType

pub data Target : Type 0 where
  select : Target
  range : Target
  all : Target

pub data InvalidProof : Type 0 where
  invalid_proof : InvalidProof

abbrev pub Str : Type 0
Str = List ℕ

-- `TargetList`
abbrev pub TargetList : Type 0
TargetList = List Str
