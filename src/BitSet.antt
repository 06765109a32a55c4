-- ===== src/BitSet.antt =====
-- The atomic bit sets of tiauth/tiauth-core/src/counter.rs, which
-- borink-core/borink-auth/src/compactset.rs repeats. An atomic operation is one step, so a
-- concurrent history of one set is a sequence of its calls.
pub mod Trait
pub mod Boxcar
pub mod Word
pub mod Small
pub mod Dynamic
