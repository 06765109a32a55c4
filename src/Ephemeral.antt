-- ===== src/Ephemeral.antt =====
-- Ephemerals of tiauth/tiauth-core/src/proof.rs: short-lived tokens that are valid in one state.
pub mod Keys
pub mod State
pub mod Content
pub mod Bytes
pub mod Encrypted
use mono_old.Common.{ℕ}

pub data EphemeralType : Type 0 where
  new_user : EphemeralType
  change_password : EphemeralType
  set_password : EphemeralType
  login : EphemeralType
  proof_token : EphemeralType

pub data InvalidEphemeral : Type 0 where
  invalid_ephemeral : InvalidEphemeral
