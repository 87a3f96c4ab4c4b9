-- ===== src/Stores/Tests.antt =====
-- Concrete runs, and the theorems at them.
use prodkit_control.Prelude.{
  ℕ, String, true, false, none, some, List, [], ◌∷◌, ◌++◌, ◌≡◌, ◌≢◌, refl, All,
}
use prodkit_control.Prelude.Dict.{find, put}
use prodkit_control.Prelude.Result.{ok, err, duplicate_action, key_error}
use prodkit_control.Contracts.Json.{null}
use prodkit_control.Contracts.Identity.{ActorRef, human}
use prodkit_control.Contracts.Actions.{ActionSpec, ActionTarget, ExecutionResult, write, high}
use prodkit_control.Contracts.Policy.{
  PolicyDecision, ApprovalDecision, require_approval, approved, authorizes,
}
use prodkit_control.Contracts.Execution.{ExecutionAttemptRecord, claimed}
use prodkit_control.Stores.Idempotency
use prodkit_control.Stores.Idempotency.{
  Entries, claim, complete, result, owner, run, Key_discrete, claim_once, result-complete,
}
use prodkit_control.Stores.Approvals.{
  Approvals, recorded, binding, find_valid_approval, authorizes-find_valid_approval,
}
use prodkit_control.Contracts.Runs.{RunRecord, running}
use prodkit_control.Stores.Runs
use prodkit_control.Stores.Runs.{runs_isolated}
use prodkit_control.Stores.Attempts
use prodkit_control.Stores.Attempts.{run_isolates}

abbrev outcome : ExecutionResult
outcome = record {
  action_id = 1;
  execution_attempt_id = 2;
  executor_name = "e";
  executor_version = "1";
  executor_identity = "id";
  started_at = 5;
  completed_at = 6;
  succeeded = true;
  exit_code = none;
  provider_operation_id = none;
  result = null;
  result_artifact = none;
  retryable = false;
  error_type = none;
  error_message = none;
}

abbrev claimed_once : Entries
claimed_once = (("t", "k"), record { action_digest = 77; result = none }) ∷ []

granted : claim ("t", "k") 77 [] ≡ (ok true, claimed_once)
unfolding claim find put
granted = refl

abbrev later : List Idempotency.Op
later = Idempotency.completes ("t", "k") outcome ∷ Idempotency.claims ("t", "other") 78 ∷ []

abbrev other_digest : ℕ
other_digest = 78

claim_once_example :
    (claim ("t", "k") 77 (run later claimed_once) ≡ (ok false, run later claimed_once))
    × (other_digest ≢ 77
        → claim ("t", "k") other_digest (run later claimed_once)
          ≡ (err duplicate_action, run later claimed_once))
claim_once_example = claim_once ("t", "k") 77 other_digest [] claimed_once later granted

result-complete_example :
    let (returned, r) = complete ("t", "k") outcome claimed_once in
    (owner ("t", "k") claimed_once ≡ none → (returned ≡ err key_error) × (r ≡ claimed_once))
    × ((d : ℕ)
        → owner ("t", "k") claimed_once ≡ some d
        → (returned ≡ ok tt) × (result ("t", "k") r ≡ some outcome) × (owner ("t", "k") r ≡ some d))
result-complete_example = result-complete ("t", "k") outcome claimed_once

abbrev attempt : String → ℕ → ExecutionAttemptRecord
attempt tenant attempt_id = record {
  attempt_id = attempt_id;
  action_id = 1;
  run_id = 1;
  tenant_id = tenant;
  idempotency_key = "k";
  action_digest = 77;
  executor_name = "e";
  executor_version = "1";
  executor_identity = "id";
  state = claimed;
  claimed_at = 5;
  started_at = none;
  finished_at = none;
  result_digest = none;
  provider_operation_id = none;
  error_type = none;
  error_message = none;
  uncertainty_reason = none;
}

-- The second call is refused, since the id is the first tenant's.
abbrev two_tenants : List Attempts.Op
two_tenants = Attempts.creates (attempt "t" 2) ∷ Attempts.creates (attempt "u" 2) ∷ []

run_isolates_example :
    let s = Attempts.run two_tenants Attempts.empty in
    ((t u : String) (i : ℕ) (x y : ExecutionAttemptRecord)
      → Attempts.get t i s ≡ some x
      → Attempts.get u i s ≡ some y
      → t ≡ u)
    × ((t : String) (i : ℕ) (x : ExecutionAttemptRecord)
        → Attempts.get t i s ≡ some x
        → (x.tenant_id ≡ t) × (x.attempt_id ≡ i))
    × ((t : String) (i : ℕ) (x : ExecutionAttemptRecord)
        → Attempts.latest_for_action t i s ≡ some x
        → (x.tenant_id ≡ t) × (x.action_id ≡ i))
run_isolates_example = run_isolates two_tenants

abbrev target : ActionTarget
target = record {
  system = "s";
  environment = "prod";
  resource_type = "r";
  resource_id = "1";
  region = none;
  expected_pre_state_digest = none;
}

abbrev action : ActionSpec
action = record {
  action_id = 1;
  run_id = 1;
  tenant_id = "t";
  executor = "e";
  operation = "deploy";
  effect_class = write;
  risk_class = high;
  target = target;
  arguments = null;
  argument_artifact = none;
  idempotency_key = "k";
  proposed_at = 1;
  expires_at = none;
  work_pack_id = none;
  repository_operation_id = none;
  policy_context = null;
  expected_effect = null;
}

abbrev decided : PolicyDecision
decided = record {
  decision_id = 5;
  action_id = 1;
  action_digest = 77;
  tenant_id = "t";
  policy_engine = "p";
  policy_bundle = "b";
  policy_revision = "v";
  evaluated_at = 2;
  outcome = require_approval;
  reason_codes = [];
  constraints = [];
  required_approval_roles = [];
  expires_at = none;
  raw_decision_artifact_sha256 = none;
}

abbrev approver : ActorRef
approver = record {
  kind = human;
  id = "boss";
  display_name = none;
  tenant_id = "t";
  workload_identity = none;
  attributes = [];
}

abbrev given_approval : ApprovalDecision
given_approval = record {
  approval_id = 3;
  action_id = 1;
  action_digest = 77;
  target_digest = 88;
  tenant_id = "t";
  environment = "prod";
  policy_decision_id = 5;
  policy_revision = "v";
  approver = approver;
  approver_role = "production_approver";
  decided_at = 3;
  outcome = approved;
  expires_at = 100;
  reason = "fine";
}

abbrev store : Approvals
store = (1, given_approval ∷ []) ∷ []

authorizes-find_valid_approval_example :
    let b = binding action 77 decided 88 in
    let found = find_valid_approval action 77 decided 88 50 store in
    ((a : ApprovalDecision)
      → found ≡ some a
      → (before : List ApprovalDecision) × (after : List ApprovalDecision) × (recorded 1 store
          ≡ before ++ a ∷ after)
        × (authorizes a b 50 ≡ true)
        × All (λ x. authorizes x b 50 ≡ false) after)
    × (found ≡ none → All (λ x. authorizes x b 50 ≡ false) (recorded 1 store))
authorizes-find_valid_approval_example =
    authorizes-find_valid_approval action 77 decided 88 50 store

abbrev a_run : String → RunRecord
a_run tenant = record {
  run_id = 1;
  tenant_id = tenant;
  status = running;
  initiated_by = approver;
  environment = "prod";
  purpose = "release";
  trace_id = "trace";
  started_at = 1;
  completed_at = none;
  source_intent_digest = none;
  specification_revision = none;
  lineage_graph_digest = none;
  workflow_id = none;
  metadata = [];
}

-- The second call is refused.
abbrev two_owners : List Runs.Op
two_owners = Runs.creates (a_run "t") ∷ Runs.creates (a_run "u") ∷ []

runs_isolated_example :
    let s = Runs.run two_owners [] in
    ((t u : String) (i : ℕ) (x y : RunRecord)
      → Runs.get t i s ≡ some x
      → Runs.get u i s ≡ some y
      → t ≡ u)
    × ((t : String) (i : ℕ) (x : RunRecord)
        → Runs.get t i s ≡ some x
        → (x.tenant_id ≡ t) × (x.run_id ≡ i))
runs_isolated_example = runs_isolated two_owners
