-- ===== src/Lib.antt =====
-- Verification of the control runtime: the action broker, the event ledger, the in-memory stores, the
-- high-availability primitives, governance, tenancy and policies. Paths are under packages/python; `runtime/` stands for
-- prodkit-control-runtime/src/prodkit_control_runtime/ and `contracts/` for
-- prodkit-control-core/src/prodkit_control_core/contracts/.
--
-- Parts, and how they interact:
--   Prelude    Boolean tests, lists, dicts in insertion order, a stable sort, integers, and calls over a
--              state that may raise (the exceptions of exceptions.py beside contracts/).
--   Contracts  contracts/*.py: the records and enumerations; a model validator is a Boolean test.
--              Json: the values of dict[str, Any], with Python's equality.
--   Ledger     runtime/memory.py, `InMemoryEventLedger`: a chain of digests for each tenant and run.
--              Chain: what `append` preserves. Tamper: what `verify_run` shows.
--   Stores     runtime/memory.py, runtime/attempts.py and runtime/runs.py: idempotency keys, approvals,
--              attempts and runs.
--   Broker     runtime/broker.py and `ExecutorRegistry` of runtime/executors.py. World: the configuration,
--              the stores and the helper methods `_event`, `_revoke_lease`, `_validate_result` and
--              `_observe_and_verify`. Gate: `execute` up to the claim. Perform: after a granted claim.
--              Execute: the whole. Quiet: the calls that reach no executor.
--   Governance runtime/governance.py, `InMemoryGovernanceStore`. Store: the dicts and `_require`. Proposals, Holds,
--              Retention, Roots, Transfers: the methods. Machine: the abstract view and its steps.
--              Calls, Effects, Execution, Refinement, Operations: the methods as steps of the machine, and the
--              stores that they reach. Requests, Revisions, Lifecycle, Releases, Decisions, Deletions,
--              Imports: what follows. Due: when a candidate may be deleted, without the code's helpers.
--   Tenancy    runtime/tenancy.py, `InMemoryTenantControlStore`; Methods: its methods. Steps, Operations: the
--              changes that they may make. Access, Deletion: what follows for grants and the life cycle.
--   Policy     runtime/policy_semantics.py and runtime/policy.py: the default and the conjunctive policy.
--              Conjunction: what a combination keeps. Engines: what the engine decides.
--   Queue      runtime/ha.py, `InMemoryDurableWorkQueue`. Changes: the writes that the methods consist of.
--              Run: histories of calls. Order, Held, Admission: what `acquire` and `enqueue` choose.
--   Leases     runtime/ha.py, `InMemoryLeaseStore`.
--   Runtime    runtime/ha.py, `RuntimeLifecycle` and `CapacityAdmissionController`, as step relations.
--   Scheduler  runtime/ha.py, `RecoverableScheduler`, over the queue.
--
-- How the code is modelled. A method that holds its store's lock is one step, a function of the state
-- that returns the result, or the exception, beside the new state; what it wrote before a raise stays
-- written. A reading of the clock and a fresh identifier are arguments of the queue's and the lease
-- store's methods; the broker, the governance store, the tenant store and the policies ask for them, and for
-- every answer of a policy, an executor, a verifier, a lease provider or a deletion adapter, with the number
-- of answers given so far, so that any sequence of answers is covered. What a model keeps beside the code's
-- state is a count of answers and a list of the calls made of an executor or a deletion adapter.
-- Identifiers, digests and times (microseconds) are natural numbers, durations are integers, names are
-- texts. SHA-256 over canonical JSON is a parameter. No function needs fuel: all loops are
-- recursions on lists.
--
-- Not modelled: the constraints of single fields that pydantic checks (blank names, formats of digests);
-- other tasks between the awaits of one `execute` of the broker, and between the two locked parts of
-- `propose_legal_hold_release`; `TenantCacheNamespace`; floats in JSON values; the timeout of `wait_for_drain`; the artifact store; the run coordinator, reconciliation, lineage and bundles; adapters to
-- databases, HTTP and external services.
pub mod Prelude
pub mod Contracts
pub mod Ledger
pub mod Stores
pub mod Queue
pub mod Leases
pub mod Runtime
pub mod Scheduler
pub mod Broker
pub mod Governance
pub mod Policy
pub mod Tenancy
