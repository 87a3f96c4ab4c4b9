-- ===== src/Contracts/Tenancy.antt =====
-- contracts/tenancy.py
use prodkit_control.Prelude.{
  ℕ, String, string_discrete, Bool, true, false, not, ◌&&◌, Option, none, some, List, [], ◌∷◌, leb,
  ltb, same, text_eq, any,
}
use prodkit_control.Prelude.Dict.{Dict, find, put}
use prodkit_control.Prelude.Int.{ℤ}
use prodkit_control.Contracts.Identity.{ActorRef}
use prodkit_control.Contracts.Work.{is_some, is_truthy}

pub data TenantAccessMode : Type 0 where
  tenant support : TenantAccessMode

pub data TenantCapability : Type 0 where
  read write execute approve export delete legal_hold configure : TenantCapability

unfoldable pub TenantAccessMode_discrete : Discrete TenantAccessMode
TenantAccessMode_discrete = hlevel

unfoldable pub TenantCapability_discrete : Discrete TenantCapability
TenantCapability_discrete = hlevel

pub record TenantAccessContext : Type 0 where
  pub tenant_id : String
  pub actor : ActorRef
  pub mode : TenantAccessMode
  pub capabilities : List TenantCapability
  pub elevation_id : Option ℕ
  pub reason : Option String
  pub ticket_reference : Option String
  pub issued_at : ℕ
  pub expires_at : Option ℕ

abbrev pub has_capability : TenantCapability → List TenantCapability → Bool
has_capability c cs = any (same TenantCapability_discrete c) cs

-- `len(set(capabilities)) == len(capabilities)`
unfoldable pub all_distinct : List TenantCapability → Bool
all_distinct [] = true
all_distinct (c ∷ cs) = not (has_capability c cs) && all_distinct cs

abbrev pub is_open : Option ℕ → ℕ → Bool
is_open none at = true
is_open (some e) at = ltb at e

abbrev pub is_nonempty : List TenantCapability → Bool
is_nonempty [] = false
is_nonempty (_ ∷ _) = true

-- the part of `validate_scope` on the mode
abbrev pub mode_fits : TenantAccessMode → TenantAccessContext → Bool
mode_fits tenant c =
    text_eq c.actor.tenant_id c.tenant_id
    && (not (is_some c.elevation_id)
        && (not (is_some c.reason) && not (is_some c.ticket_reference)))
mode_fits support c =
    is_some c.elevation_id
    && (is_truthy c.reason && (is_truthy c.ticket_reference && is_nonempty c.capabilities))

-- `validate_scope`
abbrev pub validate_scope : TenantAccessContext → Bool
validate_scope c =
    is_open c.expires_at c.issued_at && (all_distinct c.capabilities && mode_fits c.mode c)

-- `TenantAccessContext.require`: whether it raises no `PermissionError`
abbrev pub grants : TenantAccessContext → TenantCapability → ℕ → Bool
grants c capability at = is_open c.expires_at at && has_capability capability c.capabilities

-- the two attributes of an audited actor, with the text of the elevation's id
abbrev pub elevation_key : String
elevation_key = "prodkit.support_elevation"

abbrev pub target_key : String
target_key = "prodkit.target_tenant"

-- `audited_actor`, for the text of an id; the assertion that support access has an elevation is
-- established by `validate_scope`
abbrev pub audited_actor : (ℕ → String) → TenantAccessMode → TenantAccessContext → ActorRef
audited_actor text_of tenant c = c.actor
audited_actor text_of support c = record c.actor {
  attributes = put string_discrete target_key c.tenant_id (
      put string_discrete elevation_key (elim c.elevation_id [ none ↦ "" | some i ↦ text_of i ])
        c.actor.attributes);
}

pub record SupportElevationGrant : Type 0 where
  pub grant_id : ℕ
  pub target_tenant_id : String
  pub operator : ActorRef
  pub issued_by : ActorRef
  pub capabilities : List TenantCapability
  pub reason : String
  pub ticket_reference : String
  pub issued_at : ℕ
  pub expires_at : ℕ
  pub revoked_at : Option ℕ

abbrev pub not_before : ℕ → Option ℕ → Bool
not_before t none = true
not_before t (some r) = leb t r

-- `validate_grant`
abbrev pub validate_grant : SupportElevationGrant → Bool
validate_grant g =
    is_nonempty g.capabilities
    && (all_distinct g.capabilities
        && (ltb g.issued_at g.expires_at && not_before g.issued_at g.revoked_at))

-- `SupportElevationGrant.active`
abbrev pub is_active : SupportElevationGrant → ℕ → Bool
is_active g at = not (is_some g.revoked_at) && (leb g.issued_at at && ltb at g.expires_at)

pub record TenantIsolationProfile : Type 0 where
  pub tenant_id : String
  pub policy_profile : String
  pub signing_profile : String
  pub retention_profile : String
  pub executor_profile : String
  pub storage_partition : String
  pub cache_namespace : String
  pub allow_support_access : Bool
  pub attributes : Dict String String

pub data TenantLifecycleStatus : Type 0 where
  active deletion_scheduled deleted : TenantLifecycleStatus

unfoldable pub TenantLifecycleStatus_discrete : Discrete TenantLifecycleStatus
TenantLifecycleStatus_discrete = hlevel

pub record TenantLifecycleRecord : Type 0 where
  pub tenant_id : String
  pub status : TenantLifecycleStatus
  pub legal_hold : Bool
  pub deletion_not_before : Option ℕ
  pub updated_at : ℕ
  pub updated_by : ActorRef
  pub elevation_id : Option ℕ

-- whether the actor carries the text of the elevation
abbrev pub is_marked : (ℕ → String) → ActorRef → ℕ → Bool
is_marked text_of a i = elim (find string_discrete elevation_key a.attributes) [
  | none ↦ false
  | some marker ↦ text_eq marker (text_of i)
]

abbrev pub elevation_fits : (ℕ → String) → ActorRef → Option ℕ → Bool → Bool
elevation_fits text_of a none is_home = is_home
elevation_fits text_of a (some i) is_home = is_marked text_of a i

abbrev pub deletion_fits : TenantLifecycleStatus → Bool → Option ℕ → Bool
deletion_fits active hold t = not (is_some t)
deletion_fits deletion_scheduled hold t = is_some t && not hold
deletion_fits deleted hold t = not (is_some t) && not hold

-- `TenantLifecycleRecord.validate_lifecycle`
abbrev pub validate_lifecycle : (ℕ → String) → TenantLifecycleRecord → Bool
validate_lifecycle text_of r =
    elevation_fits text_of r.updated_by r.elevation_id (text_eq r.updated_by.tenant_id r.tenant_id)
    && deletion_fits r.status r.legal_hold r.deletion_not_before

pub data TenantAuditEventType : Type 0 where
  support_elevation_issued support_elevation_used support_elevation_revoked : TenantAuditEventType
  export_created deletion_was_scheduled deletion_completed : TenantAuditEventType
  legal_hold_placed legal_hold_released configuration_changed : TenantAuditEventType

-- the attributes that the tenant store records
pub data TenantAuditDetail : Type 0 where
  nothing : TenantAuditDetail
  profile_digest : ℕ → TenantAuditDetail
  issuance : (operator_id : String) (capabilities : List TenantCapability) → TenantAuditDetail
  schedule : (not_before : ℕ) → TenantAuditDetail
  manifest_digest : ℕ → TenantAuditDetail

pub record TenantAuditEvent : Type 0 where
  pub audit_id : ℕ
  pub tenant_id : String
  pub event_type : TenantAuditEventType
  pub actor : ActorRef
  pub occurred_at : ℕ
  pub elevation_id : Option ℕ
  pub reason : Option String
  pub ticket_reference : Option String
  pub attributes : TenantAuditDetail

pub record TenantExportManifest : Type 0 where
  pub export_id : ℕ
  pub tenant_id : String
  pub created_at : ℕ
  pub created_by : ActorRef
  pub elevation_id : Option ℕ
  pub record_counts : Dict String ℤ
  pub content_digests : List String
  pub legal_hold_preserved : Bool
