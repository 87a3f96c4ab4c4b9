-- ===== src/Contracts/Policy.antt =====
-- contracts/policy.py and contracts/approvals.py
use prodkit_control.Prelude.{ℕ, String, Bool, ◌&&◌, Option, List, ltb, ◌==◌, same, text_eq}
use prodkit_control.Prelude.Dict.{Dict}
use prodkit_control.Contracts.Json.{Json}
use prodkit_control.Contracts.Identity.{ActorRef}

pub data PolicyOutcome : Type 0 where
  allow deny require_approval : PolicyOutcome

unfoldable pub PolicyOutcome_discrete : Discrete PolicyOutcome
PolicyOutcome_discrete = hlevel

pub record PolicyDecision : Type 0 where
  pub decision_id : ℕ
  pub action_id : ℕ
  pub action_digest : ℕ
  pub tenant_id : String
  pub policy_engine : String
  pub policy_bundle : String
  pub policy_revision : String
  pub evaluated_at : ℕ
  pub outcome : PolicyOutcome
  pub reason_codes : List String
  pub constraints : Dict String Json
  pub required_approval_roles : List String
  pub expires_at : Option ℕ
  pub raw_decision_artifact_sha256 : Option ℕ

pub data ApprovalOutcome : Type 0 where
  approved denied revoked expired : ApprovalOutcome

unfoldable pub ApprovalOutcome_discrete : Discrete ApprovalOutcome
ApprovalOutcome_discrete = hlevel

pub record ApprovalDecision : Type 0 where
  pub approval_id : ℕ
  pub action_id : ℕ
  pub action_digest : ℕ
  pub target_digest : ℕ
  pub tenant_id : String
  pub environment : String
  pub policy_decision_id : ℕ
  pub policy_revision : String
  pub approver : ActorRef
  pub approver_role : String
  pub decided_at : ℕ
  pub outcome : ApprovalOutcome
  pub expires_at : ℕ
  pub reason : String

-- `ApprovalDecision.validate_expiry`
abbrev pub validate_expiry : ApprovalDecision → Bool
validate_expiry a = ltb a.decided_at a.expires_at

-- what an approval is checked against
pub record Binding : Type 0 where
  pub action_digest : ℕ
  pub target_digest : ℕ
  pub policy_decision_id : ℕ
  pub policy_revision : String
  pub tenant_id : String
  pub environment : String

-- `ApprovalDecision.authorizes`
abbrev pub authorizes : ApprovalDecision → Binding → ℕ → Bool
authorizes a b at =
    same ApprovalOutcome_discrete a.outcome approved
    && (a.action_digest == b.action_digest
        && (a.target_digest == b.target_digest
            && (a.policy_decision_id == b.policy_decision_id
                && (text_eq a.policy_revision b.policy_revision
                    && (text_eq a.tenant_id b.tenant_id
                        && (text_eq a.environment b.environment && ltb at a.expires_at))))))
