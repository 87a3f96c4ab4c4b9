-- ===== src/Broker/Tests.antt =====
-- Concrete runs, and the theorems at them.
use prodkit_control.Prelude.{ℕ, ◌+◌, ◌≤◌, true, false, none, some, List, [], ◌∷◌, refl, count}
use prodkit_control.Prelude.Result.{ok}
use prodkit_control.Contracts.Json.{null}
use prodkit_control.Contracts.Identity.{ActorRef, service}
use prodkit_control.Contracts.Actions.{ActionSpec, ActionTarget, ExecutionResult, read, low}
use prodkit_control.Contracts.Policy.{PolicyDecision, allow}
use prodkit_control.Contracts.Execution.{StateObservation, VerificationResult, passed}
use prodkit_control.Ledger
use prodkit_control.Stores.Idempotency
use prodkit_control.Stores.Attempts
use prodkit_control.Broker.World.{Executor, Broker, World}
use prodkit_control.Broker.Execute.{execute}
use prodkit_control.Broker.AtMostOnce.{
  Move, executes, serve, has_key, at_most_once, Executes, execute-Executes,
}

abbrev target : ActionTarget
target = record {
  system = "s";
  environment = "prod";
  resource_type = "r";
  resource_id = "1";
  region = none;
  expected_pre_state_digest = none;
}

abbrev action : ActionSpec
action = record {
  action_id = 1;
  run_id = 1;
  tenant_id = "t";
  executor = "e";
  operation = "inspect";
  effect_class = read;
  risk_class = low;
  target = target;
  arguments = null;
  argument_artifact = none;
  idempotency_key = "k";
  proposed_at = 1;
  expires_at = some 1000;
  work_pack_id = none;
  repository_operation_id = none;
  policy_context = null;
  expected_effect = null;
}

abbrev actor : ActorRef
actor = record {
  kind = service;
  id = "runner";
  display_name = none;
  tenant_id = "t";
  workload_identity = none;
  attributes = [];
}

abbrev decided : PolicyDecision
decided = record {
  decision_id = 5;
  action_id = 1;
  action_digest = 77;
  tenant_id = "t";
  policy_engine = "p";
  policy_bundle = "b";
  policy_revision = "v";
  evaluated_at = 2;
  outcome = allow;
  reason_codes = [];
  constraints = [];
  required_approval_roles = [];
  expires_at = none;
  raw_decision_artifact_sha256 = none;
}

abbrev outcome : ℕ → ExecutionResult
outcome attempt_id = record {
  action_id = 1;
  execution_attempt_id = attempt_id;
  executor_name = "e";
  executor_version = "1";
  executor_identity = "id";
  started_at = 5;
  completed_at = 6;
  succeeded = true;
  exit_code = none;
  provider_operation_id = none;
  result = null;
  result_artifact = none;
  retryable = false;
  error_type = none;
  error_message = none;
}

abbrev seen : StateObservation
seen = record {
  observation_id = 1;
  action_id = 1;
  source = "e";
  observed_at = 7;
  state_digest = 9;
  state = null;
  evidence = [];
}

abbrev checked : VerificationResult
checked = record {
  verification_id = 1;
  action_id = 1;
  verifier = "v";
  verifier_version = "1";
  verified_at = 8;
  outcome = passed;
  expected_digest = none;
  observed_digest = none;
  checks = [];
  details = null;
  evidence = [];
}

abbrev executor : Executor
executor = record {
  name = "e";
  version = "1";
  identity = "id";
  owns_attempts = true;
  takes_leases = false;
  execute = λ a n. ok (outcome 0);
  execute_attempt = λ a attempt_id n. ok (outcome attempt_id);
  execute_attempt_with_lease = λ a attempt_id lease n. ok (outcome attempt_id);
  observe = λ a r n. ok seen;
}

abbrev broker : Broker
broker = record {
  hash = λ d sequence previous. sequence;
  action_digest = λ a. 77;
  target_digest = λ t. 88;
  result_digest = λ r. 99;
  type_name = λ e. "Error";
  message = λ e. "failed";
  clock = λ n. 100 + n;
  fresh = λ n. n;
  evaluate = λ a n. ok decided;
  verify = λ a r o n. ok checked;
  executors = ("e", executor) ∷ [];
  keeps_attempts = true;
  credential_leases = none;
}

abbrev start : World
start = record {
  ledger = [];
  claims = [];
  approvals = [];
  attempts = Attempts.empty;
  answers = 0;
  calls = [];
}

-- the same action twice
abbrev twice : List Move
twice = executes broker action actor "trace" ∷ executes broker action actor "trace" ∷ []

at_most_once_example : count (has_key ("t", "k")) (serve twice start).calls ≤ 1
at_most_once_example = at_most_once twice start ("t", "k") refl

execute-Executes_example : Executes 77 action start (execute broker action actor "trace" start).1
execute-Executes_example = execute-Executes broker action actor "trace" start
