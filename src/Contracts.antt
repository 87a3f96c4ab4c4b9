-- ===== src/Contracts.antt =====
-- The records and enumerations of packages/python/prodkit-control-core/src/prodkit_control_core/contracts,
-- with their model validators as Boolean tests. Identifiers (UUIDs), digests (SHA-256) and times
-- (microseconds since the epoch) are natural numbers; names are texts.
pub mod Json
pub mod Identity
pub mod Actions
pub mod Policy
pub mod Execution
pub mod Events
pub mod Work
pub mod Runs
pub mod Tenancy
pub mod Retention
pub mod Changes
pub mod TrustRoots
pub mod Transfers
