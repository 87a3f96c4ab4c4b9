-- ===== src/Governance/Transfers.antt =====
-- Evidence transfers in runtime/governance.py: the manifests of the exports and the receipts of the verified imports.
use prodkit_control.Prelude.{ℕ, String, true, false, not, ◌||◌, Option, none, some, ◌==◌, text_eq}
use prodkit_control.Prelude.Dict.{put}
use prodkit_control.Prelude.Result.{
  ok, Call, ◌>>=◌, ◌>>◌, pure, raise_if, authorization_denied, value_error,
}
use prodkit_control.Contracts.Work.{is_some}
use prodkit_control.Contracts.Tenancy.{TenantAccessContext, TenantCapability}
use prodkit_control.Contracts.Changes.{
  named, nothing, verified_by, evidence_export_created, evidence_import_verified,
}
use prodkit_control.Governance.Store.{
  Environment, Store, Key, Key_discrete, now, identifier, require, record_event,
}
use prodkit_control.Contracts.Transfers.{
  EvidenceTransferManifest, EvidenceTransferVerification, EvidenceImportReceipt,
  CompatibilityPolicy, path_from,
}

unfoldable pub put_export : Key → EvidenceTransferManifest → Call Store (Unit {0})
put_export k m s = (ok tt, record s { exports = put Key_discrete k m s.exports })

unfoldable pub put_import : Key → EvidenceImportReceipt → Call Store (Unit {0})
put_import k r s = (ok tt, record s { imports = put Key_discrete k r s.imports })

-- the versions and digests of an export
pub record Package : Type 0 where
  pub source_control_version : String
  pub source_schema_version : ℕ
  pub archive_sha256 : ℕ
  pub bundle_manifest_sha256 : ℕ
  pub trust_root_revision : Option ℕ

-- `context.reason or default`
abbrev pub reason_or : Option String → String → String
reason_or none d = d
reason_or (some r) d = elim (text_eq r "") [ true ↦ d | false ↦ r ]

-- `_validate_import_verification`, then `path_from`
unfoldable pub validate_import :
    TenantAccessContext
    → EvidenceTransferManifest
    → EvidenceTransferVerification
    → ℕ
    → CompatibilityPolicy
    → Call Store (Unit {0})
validate_import context m v archive compatibility =
    raise_if
      (not (text_eq m.tenant_id context.tenant_id) || not (text_eq v.tenant_id context.tenant_id))
      authorization_denied
    >> raise_if (not (v.transfer_id == m.transfer_id)) value_error
    >> raise_if (not (m.archive_sha256 == archive) || not (v.package_sha256 == archive)) value_error
    >> raise_if (not (v.bundle_manifest_sha256 == m.bundle_manifest_sha256)) value_error
    >> raise_if (not (text_eq v.source_control_version m.source_control_version)) value_error
    >> raise_if (not (v.source_schema_version == m.source_schema_version)) value_error
    >> raise_if (not v.verified_offline) value_error
    >> raise_if (not (is_some (path_from compatibility m.source_schema_version))) value_error

module _ (g : Environment) where
  unfoldable pub create_transfer_manifest :
      TenantAccessContext → Package → Call Store EvidenceTransferManifest
  create_transfer_manifest context p = require g context TenantCapability.export >> now g >>= λ at.
      identifier g >>= λ transfer_id.
      let m : EvidenceTransferManifest = record {
        transfer_id = transfer_id;
        tenant_id = context.tenant_id;
        created_at = at;
        created_by = context.actor;
        source_control_version = p.source_control_version;
        source_schema_version = p.source_schema_version;
        archive_sha256 = p.archive_sha256;
        bundle_manifest_sha256 = p.bundle_manifest_sha256;
        trust_root_revision = p.trust_root_revision;
        legal_hold_preserved = true;
      } in
      put_export (context.tenant_id, transfer_id) m
      >> record_event g context at (record {
        event_type = evidence_export_created;
        request_id = none;
        target_type = none;
        target_id = named (g.text_of transfer_id);
        before_digest = none;
        after_digest = some (g.manifest_digest m);
        reason = reason_or context.reason "evidence export";
        ticket_reference = context.ticket_reference;
        attributes = nothing;
      })
      >> pure m

  unfoldable pub record_verified_import :
      TenantAccessContext
      → EvidenceTransferManifest
      → EvidenceTransferVerification
      → ℕ
      → CompatibilityPolicy
      → Call Store EvidenceImportReceipt
  record_verified_import context m v archive compatibility =
      require g context TenantCapability.write
      >> validate_import context m v archive compatibility
      >> now g
      >>= λ at. identifier g >>= λ import_id.
          let receipt : EvidenceImportReceipt = record {
            import_id = import_id;
            transfer_id = m.transfer_id;
            tenant_id = context.tenant_id;
            imported_at = at;
            imported_by = context.actor;
            source_control_version = m.source_control_version;
            source_schema_version = m.source_schema_version;
            archive_sha256 = archive;
            verification_id = v.verification_id;
            verification_sha256 = g.verification_digest v;
            trust_anchor_sha256 = v.trust_anchor_sha256;
            verified = true;
          } in
          put_import (context.tenant_id, import_id) receipt
          >> record_event g context at (record {
            event_type = evidence_import_verified;
            request_id = none;
            target_type = none;
            target_id = named (g.text_of import_id);
            before_digest = none;
            after_digest = some (g.receipt_digest receipt);
            reason = reason_or context.reason "verified evidence import";
            ticket_reference = context.ticket_reference;
            attributes =
                verified_by v.verification_id (g.verification_digest v) v.trust_anchor_sha256;
          })
          >> pure receipt
