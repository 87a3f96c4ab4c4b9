-- ===== src/Contracts/Execution.antt =====
-- contracts/execution.py, with the observations and verifications of contracts/verification.py
use prodkit_control.Prelude.{ℕ, String, Bool, true, not, ◌&&◌, Option, none, some, List, leb, ltb}
use prodkit_control.Contracts.Json.{Json}
use prodkit_control.Contracts.Actions.{ArtifactRef}
use prodkit_control.Contracts.Work.{is_some, is_truthy}

pub data ExecutionAttemptState : Type 0 where
  claimed started succeeded failed uncertain : ExecutionAttemptState

pub record ExecutionAttemptRecord : Type 0 where
  pub attempt_id : ℕ
  pub action_id : ℕ
  pub run_id : ℕ
  pub tenant_id : String
  pub idempotency_key : String
  pub action_digest : ℕ
  pub executor_name : String
  pub executor_version : String
  pub executor_identity : String
  pub state : ExecutionAttemptState
  pub claimed_at : ℕ
  pub started_at : Option ℕ
  pub finished_at : Option ℕ
  pub result_digest : Option ℕ
  pub provider_operation_id : Option String
  pub error_type : Option String
  pub error_message : Option String
  pub uncertainty_reason : Option String

abbrev pub at_least : ℕ → Option ℕ → Bool
at_least floor none = true
at_least floor (some t) = leb floor t

-- the time that the attempt cannot have finished before
abbrev pub floor_of : ℕ → Option ℕ → ℕ
floor_of at none = at
floor_of at (some t) = t

abbrev pub stamps_fit : ExecutionAttemptState → Option ℕ → Option ℕ → Bool
stamps_fit claimed s f = not (is_some s) && not (is_some f)
stamps_fit started s f = is_some s && not (is_some f)
stamps_fit _ s f = is_some s && is_some f

abbrev pub outcome_fits : ExecutionAttemptState → Option ℕ → Option String → Bool
outcome_fits succeeded digest reason = is_some digest
outcome_fits uncertain digest reason = is_truthy reason
outcome_fits _ digest reason = true

-- `validate_lifecycle`
abbrev pub validate_lifecycle : ExecutionAttemptRecord → Bool
validate_lifecycle a =
    at_least a.claimed_at a.started_at
    && (at_least (floor_of a.claimed_at a.started_at) a.finished_at
        && (stamps_fit a.state a.started_at a.finished_at
            && outcome_fits a.state a.result_digest a.uncertainty_reason))

pub record CredentialLease : Type 0 where
  pub lease_id : ℕ
  pub tenant_id : String
  pub action_id : ℕ
  pub executor_identity : String
  pub audience : String
  pub scopes : List String
  pub credential_reference : String
  pub issued_at : ℕ
  pub expires_at : ℕ

-- `CredentialLease.validate_expiry`
abbrev pub validate_expiry : CredentialLease → Bool
validate_expiry l = ltb l.issued_at l.expires_at

pub data VerificationOutcome : Type 0 where
  passed failed inconclusive : VerificationOutcome

pub record StateObservation : Type 0 where
  pub observation_id : ℕ
  pub action_id : ℕ
  pub source : String
  pub observed_at : ℕ
  pub state_digest : ℕ
  pub state : Json
  pub evidence : List ArtifactRef

pub record VerificationResult : Type 0 where
  pub verification_id : ℕ
  pub action_id : ℕ
  pub verifier : String
  pub verifier_version : String
  pub verified_at : ℕ
  pub outcome : VerificationOutcome
  pub expected_digest : Option ℕ
  pub observed_digest : Option ℕ
  pub checks : List String
  pub details : Json
  pub evidence : List ArtifactRef
