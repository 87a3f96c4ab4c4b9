-- ===== src/Contracts/Actions.antt =====
-- contracts/actions.py, with the artifact references of contracts/artifacts.py
use prodkit_control.Prelude.{
  ℕ, String, Bool, true, false, not, ◌&&◌, ◌||◌, Option, none, some, ltb, leb,
}
use prodkit_control.Prelude.Int.{ℤ, is_negative}
use prodkit_control.Contracts.Json.{Json}
use prodkit_control.Contracts.Work.{is_some}

pub data ContentStorageMode : Type 0 where
  nowhere hash_only redacted_content full : ContentStorageMode

pub record ArtifactRef : Type 0 where
  pub tenant_id : String
  pub artifact_id : String
  pub media_type : String
  pub sha256 : ℕ
  pub size_bytes : ℤ
  pub storage_mode : ContentStorageMode
  pub location : Option String
  pub encrypted : Bool
  pub redacted : Bool
  pub redaction_version : Option String
  pub retention_until : Option ℕ
  pub classification : String

-- whether the content is stored at a location
abbrev pub keeps_content : ContentStorageMode → Bool
keeps_content nowhere = false
keeps_content hash_only = false
keeps_content redacted_content = true
keeps_content full = true

abbrev pub agrees : Bool → Bool → Bool
agrees true b = b
agrees false b = not b

-- `validate_storage`; a location that is present is not blank
abbrev pub validate_storage : ArtifactRef → Bool
validate_storage a =
    not (is_negative a.size_bytes)
    && (agrees (keeps_content a.storage_mode) (is_some a.location)
        && (not a.redacted || is_some a.redaction_version))

pub data RiskClass : Type 0 where
  low medium high critical : RiskClass

pub data EffectClass : Type 0 where
  read write destructive privileged : EffectClass

pub record ActionTarget : Type 0 where
  pub system : String
  pub environment : String
  pub resource_type : String
  pub resource_id : String
  pub region : Option String
  pub expected_pre_state_digest : Option ℕ

pub record ActionSpec : Type 0 where
  pub action_id : ℕ
  pub run_id : ℕ
  pub tenant_id : String
  pub executor : String
  pub operation : String
  pub effect_class : EffectClass
  pub risk_class : RiskClass
  pub target : ActionTarget
  pub arguments : Json
  pub argument_artifact : Option ArtifactRef
  pub idempotency_key : String
  pub proposed_at : ℕ
  pub expires_at : Option ℕ
  pub work_pack_id : Option String
  pub repository_operation_id : Option String
  pub policy_context : Json
  pub expected_effect : Json

abbrev pub is_after : Option ℕ → ℕ → Bool
is_after none t = true
is_after (some e) t = ltb t e

-- `ActionSpec.validate_expiry`
abbrev pub validate_expiry : ActionSpec → Bool
validate_expiry a = is_after a.expires_at a.proposed_at

pub record ExecutionResult : Type 0 where
  pub action_id : ℕ
  pub execution_attempt_id : ℕ
  pub executor_name : String
  pub executor_version : String
  pub executor_identity : String
  pub started_at : ℕ
  pub completed_at : ℕ
  pub succeeded : Bool
  pub exit_code : Option ℤ
  pub provider_operation_id : Option String
  pub result : Json
  pub result_artifact : Option ArtifactRef
  pub retryable : Bool
  pub error_type : Option String
  pub error_message : Option String

-- `validate_result`
abbrev pub validate_result : ExecutionResult → Bool
validate_result r =
    leb r.started_at r.completed_at
    && (not (r.succeeded && (is_some r.error_type || is_some r.error_message))
        && (r.succeeded || is_some r.error_type))
