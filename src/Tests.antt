-- ===== src/Tests.antt =====
-- Concrete instances of the parameters, and runs of the theorems on them.
pub mod Instances
pub mod Sets
pub mod Stores
pub mod Proofs
pub mod Maps
pub mod Tokens
pub mod Access
pub mod Logins
pub mod Accounts
pub mod Passwords
pub mod Grants
pub mod Starts
pub mod Selections
