-- ===== src/Broker/Perform.antt =====
-- `ActionBroker.execute` after a claim was granted: the attempt, the executor's call and the
-- settlement of its result.
use prodkit_control.Prelude.{
  ℕ, ◌+◌, String, Bool, true, false, not, Option, none, some, [], ◌∷◌, ◌++◌, ◌==◌, if◌then◌else◌,
}
use prodkit_control.Prelude.Result.{
  Exn, Result, Call, ◌>>=◌, ◌>>◌, pure, raise, raise_if, catch, integrity_violation,
}
use prodkit_control.Contracts.Identity.{ActorRef}
use prodkit_control.Contracts.Actions.{ActionSpec, ExecutionResult}
use prodkit_control.Contracts.Execution.{
  ExecutionAttemptRecord, claimed, started, succeeded, failed, uncertain, CredentialLease,
  StateObservation, VerificationResult,
}
use prodkit_control.Contracts.Events.{
  execution_started, execution_completed, execution_uncertain, start, ambiguity, unrevoked,
  completion,
}
use prodkit_control.Stores.Idempotency
use prodkit_control.Stores.Idempotency.{Key, Entries}
use prodkit_control.Stores.Attempts
use prodkit_control.Stores.Attempts.{Attempts}
use prodkit_control.Broker.World.{
  Broker, World, Executor, now, identifier, event, revoke_lease, validate_result,
  observe_and_verify,
}

pub record BrokerOutcome : Type 0 where
  pub action : ActionSpec
  pub result : ExecutionResult
  pub observation : StateObservation
  pub verification : VerificationResult
  pub reused_idempotent_result : Bool

-- the tenant and the idempotency key of an action
abbrev pub key : ActionSpec → Key
key action = (action.tenant_id, action.idempotency_key)

-- a method of the attempt store, and of the idempotency store
unfoldable pub on_attempts : {A : Type 0} → Call Attempts A → Call World A
on_attempts m w = let (r, s) = m w.attempts in (r, record w { attempts = s })

unfoldable pub on_claims : {A : Type 0} → Call Entries A → Call World A
on_claims m w = let (r, s) = m w.claims in (r, record w { claims = s })

unfoldable pub attempt_id_of : Option ExecutionAttemptRecord → Option ℕ
attempt_id_of none = none
attempt_id_of (some a) = some a.attempt_id

unfoldable pub lease_id_of : Option CredentialLease → Option ℕ
lease_id_of none = none
lease_id_of (some l) = some l.lease_id

-- the executor's method for an attempt and a lease that may be missing
unfoldable pub invoke :
    Executor
    → ActionSpec
    → Option ExecutionAttemptRecord
    → Option CredentialLease
    → ℕ
    → Result ExecutionResult
invoke executor action none lease n = executor.execute action n
invoke executor action (some a) none n = executor.execute_attempt action a.attempt_id n
invoke executor action (some a) (some lease) n =
    executor.execute_attempt_with_lease action a.attempt_id lease n

-- The call of the executor. It is also recorded, so that the calls can be counted.
unfoldable pub call_executor :
    Executor
    → ActionSpec
    → Option ExecutionAttemptRecord
    → Option CredentialLease
    → Call World ExecutionResult
call_executor executor action attempt lease w = (
  invoke executor action attempt lease w.answers,
  record w { answers = w.answers + 1; calls = w.calls ++ action ∷ [] },
)

module _ (b : Broker) where
  unfoldable pub open_attempt : ActionSpec → Executor → Call World (Option ExecutionAttemptRecord)
  open_attempt action executor =
      if b.keeps_attempts
      then (identifier b >>= λ attempt_id. now b >>= λ claimed_at.
          let attempt : ExecutionAttemptRecord = record {
            attempt_id = attempt_id;
            action_id = action.action_id;
            run_id = action.run_id;
            tenant_id = action.tenant_id;
            idempotency_key = action.idempotency_key;
            action_digest = b.action_digest action;
            executor_name = executor.name;
            executor_version = executor.version;
            executor_identity = executor.identity;
            state = claimed;
            claimed_at = claimed_at;
            started_at = none;
            finished_at = none;
            result_digest = none;
            provider_operation_id = none;
            error_type = none;
            error_message = none;
            uncertainty_reason = none;
          } in
          on_attempts (Attempts.create attempt) >> now b >>= λ started_at.
          let running = record attempt { state = started; started_at = some started_at } in
          on_attempts (Attempts.replace running) >> pure (some running))
      else pure none

  -- the attempt, if there is one, becomes UNCERTAIN
  unfoldable pub mark_uncertain :
      Option ExecutionAttemptRecord → Exn → String → Call World (Unit {0})
  mark_uncertain none e reason = pure tt
  mark_uncertain (some a) e reason = now b >>= λ at. on_attempts (
      Attempts.replace (record a {
        state = uncertain;
        finished_at = some at;
        error_type = some (b.type_name e);
        error_message = some (b.message e);
        uncertainty_reason = some reason;
      }))

  -- the revocation inside the handler: whether it failed
  unfoldable pub try_revoke :
      ActionSpec → ActorRef → String → Option CredentialLease → Call World Bool
  try_revoke action actor trace_id none = pure false
  try_revoke action actor trace_id (some lease) =
      catch (revoke_lease b action actor trace_id lease >> pure false) (λ e. pure true)

  -- `except Exception as exc` after the executor's call
  unfoldable pub handle_failure :
      ActionSpec
      → ActorRef
      → String
      → Executor
      → Option ExecutionAttemptRecord
      → Option CredentialLease
      → Exn
      → Call World ExecutionResult
  handle_failure action actor trace_id executor attempt lease e =
      mark_uncertain attempt e "executor raised after execution was marked started"
      >> try_revoke action actor trace_id lease
      >>= λ revocation_failed.
          event b action actor trace_id execution_uncertain (
            ambiguity executor.name executor.version (b.action_digest action)
              (attempt_id_of attempt) (b.type_name e) revocation_failed)
          >> raise e

  unfoldable pub check_attempt :
      Option ExecutionAttemptRecord → ExecutionResult → Call World (Unit {0})
  check_attempt none result = pure tt
  check_attempt (some a) result =
      raise_if (not (result.execution_attempt_id == a.attempt_id)) integrity_violation

  -- the revocation after the executor returned
  unfoldable pub end_lease :
      ActionSpec
      → ActorRef
      → String
      → Executor
      → Option ExecutionAttemptRecord
      → Option CredentialLease
      → Call World (Unit {0})
  end_lease action actor trace_id executor attempt none = pure tt
  end_lease action actor trace_id executor attempt (some lease) =
      catch (revoke_lease b action actor trace_id lease) (λ e.
        mark_uncertain attempt e "executor returned but credential lease revocation failed"
        >> event b action actor trace_id execution_uncertain
            (unrevoked executor.name (attempt_id_of attempt))
        >> raise integrity_violation)

  unfoldable pub close_attempt :
      Option ExecutionAttemptRecord → ExecutionResult → Call World (Unit {0})
  close_attempt none result = pure tt
  close_attempt (some a) result = on_attempts (
      Attempts.replace (record a {
        state = if result.succeeded then succeeded else failed;
        finished_at = some result.completed_at;
        result_digest = some (b.result_digest result);
        provider_operation_id = result.provider_operation_id;
        error_type = result.error_type;
        error_message = result.error_message;
      }))

  unfoldable pub settle :
      ActionSpec
      → ActorRef
      → String
      → Executor
      → Option ExecutionAttemptRecord
      → Option CredentialLease
      → ExecutionResult
      → Call World BrokerOutcome
  settle action actor trace_id executor attempt lease result =
      validate_result b action executor result true
      >> check_attempt attempt result
      >> end_lease action actor trace_id executor attempt lease
      >> close_attempt attempt result
      >> on_claims (Idempotency.complete (key action) result)
      >> event b action actor trace_id execution_completed (completion result)
      >> observe_and_verify b action actor trace_id executor result false
      >>= λ seen. pure (record {
        action = action;
        result = result;
        observation = seen.0;
        verification = seen.1;
        reused_idempotent_result = false;
      })

  unfoldable pub perform :
      ActionSpec → ActorRef → String → Executor → Option CredentialLease → Call World BrokerOutcome
  perform action actor trace_id executor lease = open_attempt action executor >>= λ attempt.
      event b action actor trace_id execution_started (
        start executor.name executor.version (b.action_digest action) (attempt_id_of attempt)
          (lease_id_of lease))
      >> catch (call_executor executor action attempt lease)
          (handle_failure action actor trace_id executor attempt lease)
      >>= settle action actor trace_id executor attempt lease
