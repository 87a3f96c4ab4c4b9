-- ===== src/Tenancy.antt =====
-- `InMemoryTenantControlStore` of
-- packages/python/prodkit-control-runtime/src/prodkit_control_runtime/tenancy.py: tenant profiles, support
-- elevation, the tenant life cycle and its audit trail. A time to live is a number of seconds; a negative one
-- is refused as one below 30 is.
use prodkit_control.Prelude.{
  ℕ, ◌+◌, ◌*◌, String, string_discrete, ℕ_discrete, Bool, true, false, not, ◌&&◌, ◌||◌, Option,
  none, some, List, [], ◌∷◌, ◌++◌, same, text_eq, leb, ltb, any,
}
use prodkit_control.Prelude.Dict.{Dict, find, put}
use prodkit_control.Prelude.Result.{
  Result, ok, err, Call, ◌>>=◌, ◌>>◌, pure, raise_if, authorization_denied, key_error, value_error,
  permission_error,
}
use prodkit_control.Contracts.Work.{is_some}
use prodkit_control.Contracts.Identity.{ActorRef}
use prodkit_control.Contracts.Changes.{ActorKind_discrete}
use prodkit_control.Contracts.Tenancy.{
  TenantAccessMode, tenant, support, TenantAccessMode_discrete, TenantCapability,
  TenantAccessContext, has_capability, grants, validate_scope, audited_actor, SupportElevationGrant,
  validate_grant, is_active, TenantIsolationProfile, TenantLifecycleStatus, active,
  deletion_scheduled, deleted, TenantLifecycleRecord, validate_lifecycle,
  TenantLifecycleStatus_discrete, TenantAuditEventType, TenantAuditDetail, TenantAuditEvent,
  TenantExportManifest, nothing, profile_digest, issuance, schedule, manifest_digest,
  support_elevation_issued, support_elevation_used, support_elevation_revoked, export_created,
  deletion_was_scheduled, deletion_completed, legal_hold_placed, legal_hold_released,
  configuration_changed,
}
pub mod Methods
pub mod Steps
pub mod Operations
pub mod Access
pub mod Deletion
mod Tests

abbrev pub Key : Type 0
Key = String × ℕ

unfoldable pub Key_discrete : Discrete Key
Key_discrete = hlevel (string_discrete, ℕ_discrete)

unfoldable pub text_discrete : Discrete (Option String)
text_discrete = hlevel string_discrete

-- The clock, the source of identifiers, the text of an identifier, and the digests.
pub record Environment : Type 0 where
  pub clock : ℕ → ℕ
  pub fresh : ℕ → ℕ
  pub text_of : ℕ → String
  pub profile_digest : TenantIsolationProfile → ℕ
  pub manifest_digest : TenantExportManifest → ℕ

-- the dicts of the store, and the number of answers that the outside has given
pub record Store : Type 0 where
  pub profiles : Dict String TenantIsolationProfile
  pub grants : Dict Key SupportElevationGrant
  pub lifecycle : Dict String TenantLifecycleRecord
  pub audit : Dict String (List TenantAuditEvent)
  pub answers : ℕ

-- `__init__`
abbrev pub empty : Store
empty = record { profiles = []; grants = []; lifecycle = []; audit = []; answers = 0 }

unfoldable pub ask : (ℕ → ℕ) → Call Store ℕ
ask f s = (ok (f s.answers), record s { answers = s.answers + 1 })

unfoldable pub gets : {A : Type 0} → (Store → Result A) → Call Store A
gets f s = (f s, s)

unfoldable pub put_grant : Key → SupportElevationGrant → Call Store (Unit {0})
put_grant k g s = (ok tt, record s { grants = put Key_discrete k g s.grants })

unfoldable pub put_record : String → TenantLifecycleRecord → Call Store (Unit {0})
put_record t r s = (ok tt, record s { lifecycle = put string_discrete t r s.lifecycle })

unfoldable pub write_profile : TenantIsolationProfile → Call Store (Unit {0})
write_profile p s = (ok tt, record s { profiles = put string_discrete p.tenant_id p s.profiles })

unfoldable pub audit_of : String → Store → List TenantAuditEvent
audit_of t s = elim (find string_discrete t s.audit) [ none ↦ [] | some l ↦ l ]

-- `_same_actor_identity`
abbrev pub same_identity : ActorRef → ActorRef → Bool
same_identity a b =
    same ActorKind_discrete a.kind b.kind
    && (text_eq a.id b.id
        && (text_eq a.tenant_id b.tenant_id
            && same text_discrete a.workload_identity b.workload_identity))

-- an attribute of an actor that is the text "true"
unfoldable pub has_attribute : String → ActorRef → Bool
has_attribute k a = elim (find string_discrete k a.attributes) [
  | none ↦ false
  | some v ↦ text_eq v "true"
]

-- whether a tenant has a profile that allows support access
unfoldable pub is_enabled : String → Dict String TenantIsolationProfile → Bool
is_enabled t m = elim (find string_discrete t m) [ none ↦ false | some p ↦ p.allow_support_access ]

-- whether a grant is in force for what a context shows of it
abbrev pub backs : SupportElevationGrant → TenantAccessContext → TenantCapability → ℕ → Bool
backs g c capability at =
    is_active g at
    && (same_identity g.operator c.actor
        && (has_capability capability g.capabilities
            && (same text_discrete (some g.reason) c.reason
                && same text_discrete (some g.ticket_reference) c.ticket_reference)))

unfoldable pub is_backed :
    TenantAccessContext → TenantCapability → ℕ → Option SupportElevationGrant → Bool
is_backed c capability at none = false
is_backed c capability at (some g) = backs g c capability at

unfoldable pub is_elevated : TenantAccessContext → TenantCapability → ℕ → Option ℕ → Store → Bool
is_elevated c capability at none s = false
is_elevated c capability at (some i) s =
    is_enabled c.tenant_id s.profiles
    && is_backed c capability at (find Key_discrete (c.tenant_id, i) s.grants)

unfoldable pub is_admitted :
    TenantAccessMode → TenantAccessContext → TenantCapability → ℕ → Store → Bool
is_admitted tenant c capability at s = true
is_admitted support c capability at s = is_elevated c capability at c.elevation_id s

-- `_authorize_locked`: it raises nothing but `AuthorizationDeniedError`
unfoldable pub authorize : TenantAccessContext → TenantCapability → ℕ → Call Store (Unit {0})
authorize c capability at =
    gets (λ s. ok (grants c capability at && is_admitted c.mode c capability at s)) >>= λ allowed.
    raise_if (not allowed) authorization_denied

-- What a method says in its event beside the identifier and the time.
pub record Entry : Type 0 where
  pub tenant_id : String
  pub event_type : TenantAuditEventType
  pub actor : ActorRef
  pub elevation_id : Option ℕ
  pub reason : Option String
  pub ticket_reference : Option String
  pub attributes : TenantAuditDetail

-- an event of a context
abbrev pub entry_of :
    (ℕ → String)
    → TenantAccessContext
    → TenantAuditEventType
    → Option String
    → TenantAuditDetail
    → Entry
entry_of text_of c event_type reason detail = record {
  tenant_id = c.tenant_id;
  event_type = event_type;
  actor = audited_actor text_of c.mode c;
  elevation_id = c.elevation_id;
  reason = reason;
  ticket_reference = c.ticket_reference;
  attributes = detail;
}

-- what `set_legal_hold` makes of the status
abbrev pub held_status : Bool → Option TenantLifecycleRecord → TenantLifecycleStatus
held_status enabled none = active
held_status true (some r) = elim (same TenantLifecycleStatus_discrete r.status deletion_scheduled) [
  | true ↦ active
  | false ↦ r.status
]
held_status false (some r) = r.status

abbrev pub is_held : Option TenantLifecycleRecord → Bool
is_held none = false
is_held (some r) = r.legal_hold

abbrev pub is_over : Option ℕ → ℕ → Bool
is_over none at = false
is_over (some t) at = leb t at

-- the scheduled record that may be completed at a time
unfoldable pub completable : ℕ → Option TenantLifecycleRecord → Result TenantLifecycleRecord
completable at none = err authorization_denied
completable at (some r) =
    elim (same TenantLifecycleStatus_discrete r.status deletion_scheduled
      && (is_over r.deletion_not_before at && not r.legal_hold)) [
        | true ↦ ok r
        | false ↦ err authorization_denied
      ]

unfoldable pub find_grant : Key → Store → Result SupportElevationGrant
find_grant k s = elim (find Key_discrete k s.grants) [ none ↦ err key_error | some g ↦ ok g ]

-- the grant that an operator may redeem at a time
unfoldable pub redeemable :
    ActorRef → ℕ → Option SupportElevationGrant → Result SupportElevationGrant
redeemable operator at none = err authorization_denied
redeemable operator at (some g) = elim (same_identity g.operator operator && is_active g at) [
  | true ↦ ok g
  | false ↦ err authorization_denied
]

-- the record that a context writes
abbrev pub new_record :
    (ℕ → String)
    → TenantAccessContext
    → TenantLifecycleStatus
    → Bool
    → Option ℕ
    → ℕ
    → TenantLifecycleRecord
new_record text_of c status hold not_before at = record {
  tenant_id = c.tenant_id;
  status = status;
  legal_hold = hold;
  deletion_not_before = not_before;
  updated_at = at;
  updated_by = audited_actor text_of c.mode c;
  elevation_id = c.elevation_id;
}

-- the copy that `complete_deletion` writes
abbrev pub deleted_copy :
    (ℕ → String) → TenantLifecycleRecord → TenantAccessContext → ℕ → TenantLifecycleRecord
deleted_copy text_of r c at = record r {
  status = deleted;
  deletion_not_before = none;
  updated_at = at;
  updated_by = audited_actor text_of c.mode c;
  elevation_id = c.elevation_id;
}

abbrev pub lifecycle_of : String → Store → Result (Option TenantLifecycleRecord)
lifecycle_of t s = ok (find string_discrete t s.lifecycle)

module _ (g : Environment) where
  -- `datetime.now(UTC)`, `uuid4()`
  unfoldable pub now : Call Store ℕ
  now = ask g.clock

  unfoldable pub identifier : Call Store ℕ
  identifier = ask g.fresh

  -- `_append_audit` of an event with a new identifier
  unfoldable pub append_event : TenantAuditEvent → Call Store (Unit {0})
  append_event e s = (
    ok tt,
    record s { audit = put string_discrete e.tenant_id (audit_of e.tenant_id s ++ e ∷ []) s.audit },
  )

  unfoldable pub record_event : ℕ → Entry → Call Store (Unit {0})
  record_event at e = identifier >>= λ audit_id. append_event (record {
    audit_id = audit_id;
    tenant_id = e.tenant_id;
    event_type = e.event_type;
    actor = e.actor;
    occurred_at = at;
    elevation_id = e.elevation_id;
    reason = e.reason;
    ticket_reference = e.ticket_reference;
    attributes = e.attributes;
  })
