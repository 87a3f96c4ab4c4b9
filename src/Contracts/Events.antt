-- ===== src/Contracts/Events.antt =====
-- contracts/events.py. A payload is the constructor of what the program puts into it; the fields that
-- nothing in this model sets (parent and causation events, correlation, lineage, evidence)
-- are left out.
use prodkit_control.Prelude.{ℕ, String, Bool, Option, List, text_eq}
use prodkit_control.Contracts.Identity.{ActorRef}
use prodkit_control.Contracts.Actions.{ActionSpec, ExecutionResult}
use prodkit_control.Contracts.Policy.{PolicyDecision, ApprovalDecision}
use prodkit_control.Contracts.Execution.{CredentialLease, StateObservation, VerificationResult}

pub data EventType : Type 0 where
  run_started run_completed model_requested model_responded context_accessed : EventType
  action_proposed policy_evaluated approval_requested approval_decided : EventType
  credential_lease_issued credential_lease_revoked credential_lease_revocation_failed : EventType
  execution_started execution_completed execution_uncertain : EventType
  state_observed verification_completed reconciliation_completed : EventType
  artifact_recorded lineage_node_recorded lineage_relation_recorded lineage_assessed : EventType
  rollback_started rollback_completed correction_recorded : EventType

-- The payloads that the action broker records; entries that are constants are left out.
pub data Payload : Type 0 where
  proposal : (action : ActionSpec) (action_digest : ℕ) → Payload
  decision : PolicyDecision → Payload
  approval_request :
      (action_digest target_digest policy_decision_id : ℕ) (required_roles : List String) → Payload
  approval : ApprovalDecision → Payload
  lease_issue : CredentialLease → Payload
  lease_end : (lease_id : ℕ) → Payload
  start :
      (executor executor_version : String) (action_digest : ℕ) (attempt_id lease_id : Option ℕ)
      → Payload
  revocation_failure : (lease_id : ℕ) (error_type : String) → Payload
  ambiguity :
      (executor executor_version : String) (action_digest : ℕ) (attempt_id : Option ℕ)
      (error_type : String) (credential_revocation_failed : Bool)
      → Payload
  unrevoked : (executor : String) (attempt_id : Option ℕ) → Payload
  completion : ExecutionResult → Payload
  observed : StateObservation → (reused : Bool) → Payload
  verified : VerificationResult → (reused : Bool) → Payload
  other : ℕ → Payload

pub record ControlEventDraft : Type 0 where
  pub event_id : ℕ
  pub run_id : ℕ
  pub tenant_id : String
  pub event_type : EventType
  pub occurred_at : ℕ
  pub recorded_at : ℕ
  pub actor : ActorRef
  pub trace_id : String
  pub span_id : ℕ
  pub action_id : Option ℕ
  pub payload : Payload

-- `validate_actor_tenant`
abbrev pub validate_actor_tenant : ControlEventDraft → Bool
validate_actor_tenant d = text_eq d.actor.tenant_id d.tenant_id

-- `EventIntegrity`
pub record EventIntegrity : Type 0 where
  pub algorithm : String
  pub canonicalization : String
  pub previous_event_hash : Option ℕ
  pub event_hash : ℕ
  pub signature : Option String
  pub signing_key_id : Option String

pub record ControlEvent : Type 0 where
  pub draft : ControlEventDraft
  pub sequence : ℕ
  pub integrity : EventIntegrity
