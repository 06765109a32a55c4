-- ===== src/Ops.antt =====
-- The operations of the server in tiauth/tiauth-core/src/ops.
pub mod ProofToken
pub mod Sessions
pub mod Answer
pub mod Opened
pub mod Register
pub mod Login
pub mod Modify
pub mod Admin
