-- ===== src/Policy/Tests.antt =====
-- A run of the conjunctive engine over two engines, and the theorem at it.
use prodkit_control.Prelude.{string_discrete, true, none, some, List, [], ◌∷◌, ◌≡◌, refl}
use prodkit_control.Prelude.Int.{pos}
use prodkit_control.Prelude.Dict.{find, put}
use prodkit_control.Prelude.Result.{ok, ◌>>=◌, pure, raise_if}
use prodkit_control.Contracts.Json.{null, boolean, number}
use prodkit_control.Contracts.Actions.{ActionSpec, ActionTarget, write, low}
use prodkit_control.Contracts.Policy.{PolicyDecision, allow, require_approval}
use prodkit_control.Policy.{
  Environment, Engine, merge_one, merge_items, merge_all, clashes, strictest, combined,
  combine_policy_semantics, semantic, decision_of, earliest, collect, ask, given, all_bound,
  conclude, evaluate,
}
use prodkit_control.Policy.Engines.{Answers, IsConclusion, evaluate-IsConclusion}

abbrev target : ActionTarget
target = record {
  system = "s";
  environment = "prod";
  resource_type = "r";
  resource_id = "1";
  region = none;
  expected_pre_state_digest = none;
}

abbrev action : ActionSpec
action = record {
  action_id = 1;
  run_id = 1;
  tenant_id = "t";
  executor = "e";
  operation = "inspect";
  effect_class = write;
  risk_class = low;
  target = target;
  arguments = null;
  argument_artifact = none;
  idempotency_key = "k";
  proposed_at = 1;
  expires_at = some 1000;
  work_pack_id = none;
  repository_operation_id = none;
  policy_context = null;
  expected_effect = null;
}

abbrev native : PolicyDecision
native = record {
  decision_id = 5;
  action_id = 1;
  action_digest = 77;
  tenant_id = "t";
  policy_engine = "native";
  policy_bundle = "b";
  policy_revision = "v";
  evaluated_at = 2;
  outcome = allow;
  reason_codes = "fine" ∷ [];
  constraints = ("quota", boolean true) ∷ [];
  required_approval_roles = [];
  expires_at = some 100;
  raw_decision_artifact_sha256 = none;
}

abbrev remote : PolicyDecision
remote = record {
  decision_id = 6;
  action_id = 1;
  action_digest = 77;
  tenant_id = "t";
  policy_engine = "remote";
  policy_bundle = "b";
  policy_revision = "v";
  evaluated_at = 2;
  outcome = require_approval;
  reason_codes = [];
  constraints = ("quota", number (pos 1)) ∷ [];
  required_approval_roles = "owner" ∷ [];
  expires_at = some 90;
  raw_decision_artifact_sha256 = none;
}

abbrev g : Environment
g = record {
  clock = λ n. n;
  action_digest = λ a. 77;
  fingerprint = λ ds. 3;
  default_id = λ r d. 1;
  conjunctive_id = λ r d f. 2;
}

abbrev engines : List Engine
engines = (λ a n. ok native) ∷ (λ a n. ok remote) ∷ []

abbrev conclusion : PolicyDecision
conclusion =
    decision_of g action (combined (semantic native) (semantic remote ∷ [])) 2 "prodkit-conjunctive"
      "composed" "v1" 2 (some 90)

concluded : (evaluate g engines "v1" action 0).0 ≡ ok conclusion
unfolding evaluate conclude collect ask given all_bound combine_policy_semantics earliest ◌>>=◌ pure
    raise_if string_discrete
concluded = refl

-- one role, and True is 1
needs_approval : conclusion.outcome ≡ require_approval
unfolding merge_one merge_items merge_all clashes strictest find put string_discrete
needs_approval = refl

evaluate-IsConclusion_example :
    (ds : List PolicyDecision) × Answers engines action 0 ds × IsConclusion g action ds conclusion
evaluate-IsConclusion_example = evaluate-IsConclusion g engines "v1" action 0 conclusion concluded
