-- ===== src/Broker/Execute.antt =====
-- `ActionBroker.execute` as a whole.
use prodkit_control.Prelude.{String, true, false, Option, none, some, if◌then◌else◌}
use prodkit_control.Prelude.Result.{ok, Call, ◌>>=◌, ◌>>◌, pure, raise, duplicate_action}
use prodkit_control.Contracts.Identity.{ActorRef}
use prodkit_control.Contracts.Actions.{ActionSpec, ExecutionResult}
use prodkit_control.Contracts.Execution.{CredentialLease}
use prodkit_control.Stores.Idempotency
use prodkit_control.Broker.World.{
  Broker, World, Executor, revoke_lease, validate_result, observe_and_verify,
}
use prodkit_control.Broker.Gate.{gate, select_executor, issue_lease}
use prodkit_control.Broker.Perform.{BrokerOutcome, key, on_claims, perform}

-- `self._idempotency.result`
unfoldable pub stored_result : ActionSpec → Call World (Option ExecutionResult)
stored_result action w = (ok (Idempotency.result (key action) w.claims), w)

module _ (b : Broker) where
  -- the revocation of a lease that is not needed
  unfoldable pub drop_lease :
      ActionSpec → ActorRef → String → Option CredentialLease → Call World (Unit {0})
  drop_lease action actor trace_id none = pure tt
  drop_lease action actor trace_id (some lease) = revoke_lease b action actor trace_id lease

  -- what follows the answer for an earlier result
  unfoldable pub reuse_result :
      ActionSpec → ActorRef → String → Executor → Option ExecutionResult → Call World BrokerOutcome
  reuse_result action actor trace_id executor none = raise duplicate_action
  reuse_result action actor trace_id executor (some existing) =
      validate_result b action executor existing false
      >> observe_and_verify b action actor trace_id executor existing true
      >>= λ seen. pure (record {
        action = action;
        result = existing;
        observation = seen.0;
        verification = seen.1;
        reused_idempotent_result = true;
      })

  -- `if not claimed`
  unfoldable pub reuse :
      ActionSpec → ActorRef → String → Executor → Option CredentialLease → Call World BrokerOutcome
  reuse action actor trace_id executor lease =
      drop_lease action actor trace_id lease
      >> stored_result action
      >>= reuse_result action actor trace_id executor

  unfoldable pub claim_and_run :
      ActionSpec → ActorRef → String → Executor → Option CredentialLease → Call World BrokerOutcome
  claim_and_run action actor trace_id executor lease =
      on_claims (Idempotency.claim (key action) (b.action_digest action)) >>= λ granted.
      if granted
      then perform b action actor trace_id executor lease
      else reuse action actor trace_id executor lease

  unfoldable pub execute : ActionSpec → ActorRef → String → Call World BrokerOutcome
  execute action actor trace_id =
      gate b action actor trace_id >> select_executor b action >>= λ executor.
      issue_lease b b.credential_leases action actor trace_id executor >>= λ lease.
      claim_and_run action actor trace_id executor lease
