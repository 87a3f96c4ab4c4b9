-- ===== src/Runtime.antt =====
-- Process-local admission of
-- packages/python/prodkit-control-runtime/src/prodkit_control_runtime/ha.py: draining and capacity.
pub mod Lifecycle
pub mod Capacity
mod Tests
