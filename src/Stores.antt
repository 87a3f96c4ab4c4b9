-- ===== src/Stores.antt =====
-- The in-memory stores of packages/python/prodkit-control-runtime/src/prodkit_control_runtime/memory.py
-- (approvals and idempotency), and attempts.py and runs.py beside it. Each method is one step: those of the
-- idempotency, attempt and run stores hold the store's lock, those of the approval store never wait.
pub mod Idempotency
pub mod Approvals
pub mod Attempts
pub mod Runs
mod Tests
