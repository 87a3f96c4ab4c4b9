-- ===== src/Broker.antt =====
-- `ActionBroker` of packages/python/prodkit-control-runtime/src/prodkit_control_runtime/broker.py and
-- `ExecutorRegistry` of executors.py beside it, over the in-memory stores. One call of `execute` runs
-- without other tasks in between.
pub mod World
pub mod Gate
pub mod Perform
pub mod Execute
mod Quiet
mod AtMostOnce
mod Authorized
mod Tests
