-- ===== src/Governance.antt =====
-- `InMemoryGovernanceStore` of
-- packages/python/prodkit-control-runtime/src/prodkit_control_runtime/governance.py: change control,
-- retention, legal holds, trust roots, transfers and the audit trail.
pub mod Store
pub mod Proposals
pub mod Holds
pub mod Retention
pub mod Roots
pub mod Transfers
pub mod Machine
mod Calls
mod Effects
mod Execution
pub mod Operations
pub mod Due
pub mod Decisions
pub mod Deletions
pub mod Requests
pub mod Revisions
pub mod Lifecycle
pub mod Releases
pub mod Imports
mod Refinement
mod Tests
