-- ===== src/Broker/World.antt =====
-- What the broker is built from, the state that it reaches, and its helper methods.
use prodkit_control.Prelude.{
  ℕ, ◌+◌, String, string_discrete, Bool, not, ◌&&◌, Option, none, some, List, ◌==◌, text_eq,
  if◌then◌else◌,
}
use prodkit_control.Prelude.Dict.{Dict, find, put}
use prodkit_control.Prelude.Result.{
  Exn, Result, ok, err, Call, ◌>>=◌, ◌>>◌, pure, raise, raise_if, catch, value_error,
  executor_not_found, integrity_violation,
}
use prodkit_control.Contracts.Identity.{ActorRef}
use prodkit_control.Contracts.Work.{is_some}
use prodkit_control.Contracts.Actions.{ActionSpec, ActionTarget, ExecutionResult}
use prodkit_control.Contracts.Policy.{PolicyDecision}
use prodkit_control.Contracts.Execution.{CredentialLease, StateObservation, VerificationResult}
use prodkit_control.Contracts.Events.{
  EventType, Payload, ControlEventDraft, validate_actor_tenant, credential_lease_revoked,
  credential_lease_revocation_failed, state_observed, verification_completed, lease_end,
  revocation_failure, observed, verified,
}
use prodkit_control.Ledger
use prodkit_control.Ledger.{Ledger}
use prodkit_control.Stores.Idempotency.{Entries}
use prodkit_control.Stores.Approvals.{Approvals}
use prodkit_control.Stores.Attempts.{Attempts}

-- `ControlledExecutor`, with whether it is an `AttemptAwareExecutor` and a
-- `CredentialLeaseAwareExecutor`. What external code answers depends on its arguments and on the
-- number of answers the outside has given before.
pub record Executor : Type 0 where
  pub name : String
  pub version : String
  pub identity : String
  pub owns_attempts : Bool
  pub takes_leases : Bool
  pub execute : ActionSpec → ℕ → Result ExecutionResult
  pub execute_attempt : ActionSpec → ℕ → ℕ → Result ExecutionResult
  pub execute_attempt_with_lease : ActionSpec → ℕ → CredentialLease → ℕ → Result ExecutionResult
  pub observe : ActionSpec → ExecutionResult → ℕ → Result StateObservation

-- `CredentialLeaseProvider`
pub record LeaseProvider : Type 0 where
  pub issue : ActionSpec → String → ℕ → Result CredentialLease
  pub revoke : ℕ → ℕ → Result (Unit {0})

-- The digests, the texts of exceptions, the clock, the source of identifiers and the ports.
-- `keeps_attempts` is whether an attempt store is configured.
pub record Broker : Type 0 where
  pub hash : ControlEventDraft → ℕ → Option ℕ → ℕ
  pub action_digest : ActionSpec → ℕ
  pub target_digest : ActionTarget → ℕ
  pub result_digest : ExecutionResult → ℕ
  pub type_name : Exn → String
  pub message : Exn → String
  pub clock : ℕ → ℕ
  pub fresh : ℕ → ℕ
  pub evaluate : ActionSpec → ℕ → Result PolicyDecision
  pub verify : ActionSpec → ExecutionResult → StateObservation → ℕ → Result VerificationResult
  pub executors : Dict String Executor
  pub keeps_attempts : Bool
  pub credential_leases : Option LeaseProvider

-- The stores, the number of answers of the outside, and every action that was handed to an executor.
pub record World : Type 0 where
  pub ledger : Ledger
  pub claims : Entries
  pub approvals : Approvals
  pub attempts : Attempts
  pub answers : ℕ
  pub calls : List ActionSpec

-- `ExecutorRegistry.register`
unfoldable pub register : Executor → Dict String Executor → Result (Unit {0}) × Dict String Executor
register e m =
    if is_some (find string_discrete e.name m)
    then (err value_error, m)
    else (ok tt, put string_discrete e.name e m)

-- `ExecutorRegistry.get`
unfoldable pub get : String → Dict String Executor → Result Executor
get name m = elim (find string_discrete name m) [ none ↦ err executor_not_found | some e ↦ ok e ]

-- an answer of the outside
unfoldable pub ask : {A : Type 0} → (ℕ → Result A) → Call World A
ask f w = (f w.answers, record w { answers = w.answers + 1 })

-- a value that does not need the outside
unfoldable pub given : {A : Type 0} → Result A → Call World A
given r w = (r, w)

unfoldable pub append_event :
    (ControlEventDraft → ℕ → Option ℕ → ℕ) → ControlEventDraft → Call World (Unit {0})
append_event hash d w =
    let (r, l) = Ledger.append hash d w.ledger in
    (elim r [ err e ↦ err e | ok _ ↦ ok tt ], record w { ledger = l })

module _ (b : Broker) where
  -- `datetime.now(UTC)`
  unfoldable pub now : Call World ℕ
  now = ask (λ n. ok (b.clock n))

  -- `uuid4()`
  unfoldable pub identifier : Call World ℕ
  identifier = ask (λ n. ok (b.fresh n))

  -- `_event`; the draft's validator raises a `ValidationError`, which is a `ValueError`
  unfoldable pub event :
      ActionSpec → ActorRef → String → EventType → Payload → Call World (Unit {0})
  event action actor trace_id event_type payload = now >>= λ at. identifier >>= λ event_id.
      identifier >>= λ span_id.
      let draft : ControlEventDraft = record {
        event_id = event_id;
        run_id = action.run_id;
        tenant_id = action.tenant_id;
        event_type = event_type;
        occurred_at = at;
        recorded_at = at;
        actor = actor;
        trace_id = trace_id;
        span_id = span_id;
        action_id = some action.action_id;
        payload = payload;
      } in
      raise_if (not (validate_actor_tenant draft)) value_error >> append_event b.hash draft

  -- `_revoke_lease`, for the provider that is configured
  unfoldable pub revocation :
      Option LeaseProvider
      → ActionSpec
      → ActorRef
      → String
      → CredentialLease
      → Call World (Unit {0})
  revocation none action actor trace_id lease = pure tt
  revocation (some p) action actor trace_id lease =
      catch (ask (p.revoke lease.lease_id)) (λ e.
        event action actor trace_id credential_lease_revocation_failed
          (revocation_failure lease.lease_id (b.type_name e))
        >> raise e)
      >> event action actor trace_id credential_lease_revoked (lease_end lease.lease_id)

  unfoldable pub revoke_lease :
      ActionSpec → ActorRef → String → CredentialLease → Call World (Unit {0})
  revoke_lease action actor trace_id lease =
      revocation b.credential_leases action actor trace_id lease

  -- `_validate_result`
  unfoldable pub validate_result :
      ActionSpec → Executor → ExecutionResult → Bool → Call World (Unit {0})
  validate_result action executor result require_current_version =
      raise_if (not (result.action_id == action.action_id)) integrity_violation
      >> raise_if (not (text_eq result.executor_name executor.name)) integrity_violation
      >> raise_if
          (require_current_version && not (text_eq result.executor_version executor.version))
          integrity_violation

  -- `_observe_and_verify`
  unfoldable pub observe_and_verify :
      ActionSpec
      → ActorRef
      → String
      → Executor
      → ExecutionResult
      → Bool
      → Call World (StateObservation × VerificationResult)
  observe_and_verify action actor trace_id executor result reused =
      ask (executor.observe action result) >>= λ observation.
      raise_if (not (observation.action_id == action.action_id)) integrity_violation
      >> event action actor trace_id state_observed (observed observation reused)
      >> ask (b.verify action result observation)
      >>= λ verification.
          raise_if (not (verification.action_id == action.action_id)) integrity_violation
          >> event action actor trace_id verification_completed (verified verification reused)
          >> pure (observation, verification)
