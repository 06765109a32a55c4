-- ===== src/Session.antt =====
-- Sessions of tiauth: their keys (tiauth/tiauth-core/src/state.rs) and the checks of their content
-- (tiauth/tiauth-core/src/proof.rs).
pub mod Keys
pub mod Content
pub mod Status
pub mod Bytes
pub mod Encrypted
