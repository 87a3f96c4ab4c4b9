-- ===== src/Tenancy/Methods.antt =====
-- The methods of `InMemoryTenantControlStore` (runtime/tenancy.py).
use prodkit_control.Prelude.{
  ℕ, ◌+◌, ◌*◌, String, string_discrete, Bool, true, false, not, ◌&&◌, ◌||◌, Option, none, some,
  List, same, text_eq, leb, ltb, any,
}
use prodkit_control.Prelude.Int.{ℤ, is_negative}
use prodkit_control.Prelude.Dict.{Dict, find}
use prodkit_control.Prelude.Result.{
  ok, Call, ◌>>=◌, ◌>>◌, pure, raise_if, authorization_denied, value_error, permission_error,
}
use prodkit_control.Contracts.Identity.{ActorRef}
use prodkit_control.Contracts.Tenancy.{
  tenant, support, TenantAccessMode_discrete, TenantCapability, TenantAccessContext, grants,
  validate_scope, audited_actor, SupportElevationGrant, validate_grant, TenantIsolationProfile,
  deletion_scheduled, TenantLifecycleRecord, validate_lifecycle, TenantExportManifest,
  TenantAuditEvent, TenantAuditEventType, nothing, profile_digest, issuance, schedule,
  manifest_digest, support_elevation_issued, support_elevation_used, support_elevation_revoked,
  export_created, deletion_was_scheduled, deletion_completed, legal_hold_placed,
  legal_hold_released, configuration_changed,
}
use prodkit_control.Tenancy.{
  Environment, Store, Key, Key_discrete, entry_of, new_record, deleted_copy, gets, now, identifier,
  record_event, put_grant, put_record, write_profile, authorize, has_attribute, is_enabled,
  redeemable, find_grant, same_identity, held_status, is_held, completable, lifecycle_of, audit_of,
}

-- the grant that `issue_support_grant` stores
abbrev pub new_grant :
    String
    → ActorRef
    → ActorRef
    → List TenantCapability
    → String
    → String
    → ℕ
    → ℕ
    → ℕ
    → SupportElevationGrant
new_grant target operator issued_by capabilities reason ticket ttl at i = record {
  grant_id = i;
  target_tenant_id = target;
  operator = operator;
  issued_by = issued_by;
  capabilities = capabilities;
  reason = reason;
  ticket_reference = ticket;
  issued_at = at;
  expires_at = at + ttl * 1000000;
  revoked_at = none;
}

-- the context that `redeem_support_grant` returns
abbrev pub support_context : String → ActorRef → SupportElevationGrant → TenantAccessContext
support_context target operator e = record {
  tenant_id = target;
  actor = operator;
  mode = support;
  capabilities = e.capabilities;
  elevation_id = some e.grant_id;
  reason = some e.reason;
  ticket_reference = some e.ticket_reference;
  issued_at = e.issued_at;
  expires_at = some e.expires_at;
}

abbrev pub revoked_copy : SupportElevationGrant → ℕ → SupportElevationGrant
revoked_copy e at = record e { revoked_at = some at }

-- the event type of `set_legal_hold`
abbrev pub hold_event : Bool → TenantAuditEventType
hold_event true = legal_hold_placed
hold_event false = legal_hold_released

-- whether some count of an export is negative
abbrev pub has_negative : Dict String ℤ → Bool
has_negative m = any (λ (e : String × ℤ). is_negative e.1) m

-- the last act of `revoke_support_grant`, where the grant is not revoked yet
unfoldable pub revoke :
    Environment → Key → SupportElevationGrant → ActorRef → String → ℕ → Call Store (Unit {0})
revoke g k e actor reason at = elim e.revoked_at [
  | some t ↦ pure tt
  | none ↦
      put_grant k (revoked_copy e at)
      >> record_event g at (record {
        tenant_id = k.0;
        event_type = support_elevation_revoked;
        actor = actor;
        elevation_id = some k.1;
        reason = some reason;
        ticket_reference = some e.ticket_reference;
        attributes = nothing;
      })
]

module _ (g : Environment) where
  unfoldable pub put_profile : TenantIsolationProfile → TenantAccessContext → Call Store (Unit {0})
  put_profile profile context =
      raise_if (not (same TenantAccessMode_discrete context.mode tenant)) authorization_denied
      >> now g
      >>= λ checked.
          raise_if (not (grants context TenantCapability.configure checked)) permission_error
          >> raise_if (not (text_eq context.tenant_id profile.tenant_id)) authorization_denied
          >> now g
          >>= λ at.
              write_profile profile
              >> record_event g at (record {
                tenant_id = profile.tenant_id;
                event_type = configuration_changed;
                actor = context.actor;
                elevation_id = none;
                reason = none;
                ticket_reference = none;
                attributes = profile_digest (g.profile_digest profile);
              })

  unfoldable pub get_profile : TenantAccessContext → Call Store (Option TenantIsolationProfile)
  get_profile context = now g >>= λ at.
      authorize context TenantCapability.read at
      >> gets (λ s. ok (find string_discrete context.tenant_id s.profiles))

  unfoldable pub issue_support_grant :
      String
      → ActorRef
      → ActorRef
      → List TenantCapability
      → String
      → String
      → ℕ
      → Call Store SupportElevationGrant
  issue_support_grant target operator issued_by capabilities reason ticket ttl =
      raise_if (ltb ttl 30 || ltb 3600 ttl) value_error >>= λ _.
      raise_if (not (has_attribute "prodkit.support_authority" issued_by)) authorization_denied
      >> raise_if (not (has_attribute "prodkit.support_operator" operator)) authorization_denied
      >> now g
      >>= λ at. gets (λ s. ok (is_enabled target s.profiles)) >>= λ enabled.
          raise_if (not enabled) authorization_denied >> identifier g >>= λ i.
          let e : SupportElevationGrant =
            new_grant target operator issued_by capabilities reason ticket ttl at i in
          raise_if (not (validate_grant e)) value_error >>= λ _.
          put_grant (target, i) e
          >> record_event g at (record {
            tenant_id = target;
            event_type = support_elevation_issued;
            actor = issued_by;
            elevation_id = some i;
            reason = some reason;
            ticket_reference = some ticket;
            attributes = issuance operator.id capabilities;
          })
          >> pure e

  unfoldable pub redeem_support_grant : String → ℕ → ActorRef → Call Store TenantAccessContext
  redeem_support_grant target grant_id operator = now g >>= λ at.
      gets (λ s. ok (is_enabled target s.profiles)) >>= λ enabled.
      raise_if (not enabled) authorization_denied
      >> gets (λ s. redeemable operator at (find Key_discrete (target, grant_id) s.grants))
      >>= λ e.
          let context : TenantAccessContext = support_context target operator e in
          raise_if (not (validate_scope context)) value_error
          >> record_event g at
              (entry_of g.text_of context support_elevation_used (some e.reason) nothing)
          >> pure context

  unfoldable pub revoke_support_grant : String → ℕ → ActorRef → String → Call Store (Unit {0})
  revoke_support_grant target grant_id actor reason = now g >>= λ at.
      gets (find_grant (target, grant_id)) >>= λ e.
      raise_if
        (not (same_identity e.operator actor)
          && not (has_attribute "prodkit.support_authority" actor))
        authorization_denied
      >>= λ _. revoke g (target, grant_id) e actor reason at

  unfoldable pub set_legal_hold :
      TenantAccessContext → Bool → String → Call Store TenantLifecycleRecord
  set_legal_hold context enabled reason = now g >>= λ at.
      authorize context TenantCapability.legal_hold at
      >> gets (lifecycle_of context.tenant_id)
      >>= λ current.
          let r : TenantLifecycleRecord =
            new_record g.text_of context (held_status enabled current) enabled none at in
          raise_if (not (validate_lifecycle g.text_of r)) value_error >>= λ _.
          put_record context.tenant_id r
          >> record_event g at
              (entry_of g.text_of context (hold_event enabled) (some reason) nothing)
          >> pure r

  unfoldable pub schedule_deletion :
      TenantAccessContext → ℕ → String → Call Store TenantLifecycleRecord
  schedule_deletion context not_before reason = now g >>= λ at.
      raise_if (leb not_before at) value_error
      >> authorize context TenantCapability.delete at
      >> gets (lifecycle_of context.tenant_id)
      >>= λ current. raise_if (is_held current) authorization_denied >>= λ _.
          let r : TenantLifecycleRecord =
            new_record g.text_of context deletion_scheduled false (some not_before) at in
          raise_if (not (validate_lifecycle g.text_of r)) value_error >>= λ _.
          put_record context.tenant_id r
          >> record_event g at (
              entry_of g.text_of context deletion_was_scheduled (some reason) (schedule not_before))
          >> pure r

  unfoldable pub complete_deletion : TenantAccessContext → Call Store TenantLifecycleRecord
  complete_deletion context = now g >>= λ at.
      authorize context TenantCapability.delete at
      >> gets (λ s. completable at (find string_discrete context.tenant_id s.lifecycle))
      >>= λ current.
          put_record context.tenant_id (deleted_copy g.text_of current context at)
          >> record_event g at
              (entry_of g.text_of context deletion_completed context.reason nothing)
          >> pure (deleted_copy g.text_of current context at)

  unfoldable pub export_manifest :
      TenantAccessContext → Dict String ℤ → List String → Call Store TenantExportManifest
  export_manifest context counts digests =
      raise_if (has_negative counts) value_error >> now g >>= λ at.
      authorize context TenantCapability.export at >> identifier g >>= λ i.
      let m : TenantExportManifest = record {
        export_id = i;
        tenant_id = context.tenant_id;
        created_at = at;
        created_by = audited_actor g.text_of context.mode context;
        elevation_id = context.elevation_id;
        record_counts = counts;
        content_digests = digests;
        legal_hold_preserved = true;
      } in
      record_event g at (
        entry_of g.text_of context export_created context.reason
          (manifest_digest (g.manifest_digest m)))
      >> pure m

  unfoldable pub list_audit : TenantAccessContext → Call Store (List TenantAuditEvent)
  list_audit context = now g >>= λ at.
      authorize context TenantCapability.read at >> gets (λ s. ok (audit_of context.tenant_id s))
