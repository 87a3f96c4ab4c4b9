-- ===== src/Contracts/Changes.antt =====
-- contracts/governance.py: change requests, their approvals, and the audit trail
use prodkit_control.Prelude.{
  ℕ, String, Bool, true, false, not, ◌&&◌, Option, none, some, same, text_eq,
}
use prodkit_control.Contracts.Identity.{ActorRef, ActorKind}
use prodkit_control.Contracts.Work.{is_some}
use prodkit_control.Contracts.Retention.{RetentionDisposition}

pub data GovernanceRisk : Type 0 where
  low medium high critical : GovernanceRisk

-- `risk in {HIGH, CRITICAL}`
abbrev pub is_high : GovernanceRisk → Bool
is_high low = false
is_high medium = false
is_high high = true
is_high critical = true

pub data GovernanceTargetType : Type 0 where
  retention_policy trust_root_policy legal_hold_release : GovernanceTargetType
  tenant_configuration compatibility_policy deprecation_policy : GovernanceTargetType

pub data GovernanceChangeStatus : Type 0 where
  proposed approved rejected applied cancelled : GovernanceChangeStatus

pub data GovernanceApprovalDecision : Type 0 where
  approve reject : GovernanceApprovalDecision

unfoldable pub GovernanceTargetType_discrete : Discrete GovernanceTargetType
GovernanceTargetType_discrete = hlevel

unfoldable pub GovernanceChangeStatus_discrete : Discrete GovernanceChangeStatus
GovernanceChangeStatus_discrete = hlevel

unfoldable pub ActorKind_discrete : Discrete ActorKind
ActorKind_discrete = hlevel

pub record GovernanceChangeRequest : Type 0 where
  pub request_id : ℕ
  pub tenant_id : String
  pub target_type : GovernanceTargetType
  pub target_id : String
  pub proposed_digest : ℕ
  pub expected_current_digest : Option ℕ
  pub risk : GovernanceRisk
  pub reason : String
  pub ticket_reference : String
  pub proposed_at : ℕ
  pub proposed_by : ActorRef
  pub status : GovernanceChangeStatus
  pub approved_at : Option ℕ
  pub approved_by : Option ActorRef
  pub applied_at : Option ℕ

-- the comparison of `validate_change` and of `_same_actor`
abbrev pub same_actor : ActorRef → ActorRef → Bool
same_actor a b =
    same ActorKind_discrete a.kind b.kind && (text_eq a.id b.id && text_eq a.tenant_id b.tenant_id)

abbrev pub is_independent : GovernanceRisk → ActorRef → Option ActorRef → Bool
is_independent risk proposer none = false
is_independent risk proposer (some a) = not (is_high risk && same_actor a proposer)

abbrev pub approval_fits : GovernanceChangeStatus → GovernanceChangeRequest → Bool
approval_fits proposed r = not (is_some r.approved_at) && not (is_some r.approved_by)
approval_fits approved r =
    is_some r.approved_at && is_independent r.risk r.proposed_by r.approved_by
approval_fits rejected r = not (is_some r.approved_at) && not (is_some r.approved_by)
approval_fits applied r = is_some r.approved_at && is_independent r.risk r.proposed_by r.approved_by
approval_fits cancelled r = not (is_some r.approved_at) && not (is_some r.approved_by)

abbrev pub application_fits : GovernanceChangeStatus → Option ℕ → Bool
application_fits applied t = is_some t
application_fits _ t = not (is_some t)

-- `validate_change`
abbrev pub validate_change : GovernanceChangeRequest → Bool
validate_change r = approval_fits r.status r && application_fits r.status r.applied_at

pub record GovernanceApproval : Type 0 where
  pub approval_id : ℕ
  pub request_id : ℕ
  pub tenant_id : String
  pub decision : GovernanceApprovalDecision
  pub actor : ActorRef
  pub occurred_at : ℕ
  pub reason : String

pub data GovernanceAuditEventType : Type 0 where
  change_proposed change_approved change_rejected change_applied : GovernanceAuditEventType
  retention_evaluated retention_deletion_intent_recorded : GovernanceAuditEventType
  retention_deletion_cancelled retention_deletion_executed : GovernanceAuditEventType
  legal_hold_placed legal_hold_released trust_root_activated : GovernanceAuditEventType
  evidence_export_created evidence_import_verified migration_recorded : GovernanceAuditEventType

-- `target_id` of an event: a name, or `{resource_type}:{resource_id}`
pub data AuditTarget : Type 0 where
  unnamed : AuditTarget
  named : String → AuditTarget
  resource : (resource_type resource_id : String) → AuditTarget

-- the attributes that the governance store records
pub data AuditDetail : Type 0 where
  nothing : AuditDetail
  at_risk : GovernanceRisk → AuditDetail
  at_revision : ℕ → AuditDetail
  rotation : (from_revision to_revision overlap_until : ℕ) → AuditDetail
  disposed : RetentionDisposition → AuditDetail
  deletion_intent : (execution_id decision_sha256 : ℕ) (content_sha256 : Option ℕ) → AuditDetail
  deletion_done : (execution_id : ℕ) (deletion_reference : String) → AuditDetail
  verified_by : (verification_id verification_sha256 trust_anchor_sha256 : ℕ) → AuditDetail

pub record GovernanceAuditEvent : Type 0 where
  pub event_id : ℕ
  pub tenant_id : String
  pub event_type : GovernanceAuditEventType
  pub actor : ActorRef
  pub occurred_at : ℕ
  pub request_id : Option ℕ
  pub target_type : Option GovernanceTargetType
  pub target_id : AuditTarget
  pub before_digest : Option ℕ
  pub after_digest : Option ℕ
  pub reason : String
  pub ticket_reference : Option String
  pub attributes : AuditDetail
