-- ===== src/AppendOnly.antt =====
-- tiauth/tiauth-core/src/appendonly.rs: the vector, the map over it, and their views.
pub mod Vec
pub mod Probing
pub mod Map
