-- ===== src/Governance/Store.antt =====
-- The state of the store of runtime/governance.py, and what its methods share.
use prodkit_control.Prelude.{
  ℕ, ◌+◌, ℕ_discrete, String, string_discrete, not, Option, none, some, List, [], ◌∷◌, ◌++◌, same,
}
use prodkit_control.Prelude.Dict.{Dict, find, put}
use prodkit_control.Prelude.Result.{Result, ok, Call, ◌>>=◌, ◌>>◌, raise_if, authorization_denied}
use prodkit_control.Contracts.Tenancy.{
  TenantAccessContext, TenantAccessMode_discrete, tenant, TenantCapability, grants,
}
use prodkit_control.Contracts.Retention.{
  RetentionPolicy, RetentionCandidate, RetentionDecision, LegalHold,
}
use prodkit_control.Contracts.Changes.{
  GovernanceChangeRequest, GovernanceApproval, GovernanceAuditEvent, GovernanceAuditEventType,
  GovernanceTargetType, AuditTarget, AuditDetail,
}
use prodkit_control.Contracts.TrustRoots.{TrustRootPolicy, GovernedTrustRoot}
use prodkit_control.Contracts.Transfers.{
  EvidenceTransferManifest, EvidenceTransferVerification, EvidenceImportReceipt,
}

-- a tenant and an id
abbrev pub Key : Type 0
Key = String × ℕ

unfoldable pub Key_discrete : Discrete Key
Key_discrete = hlevel (string_discrete, ℕ_discrete)

-- The clock, the source of identifiers, the text of an identifier, and the digests.
pub record Environment : Type 0 where
  pub clock : ℕ → ℕ
  pub fresh : ℕ → ℕ
  pub text_of : ℕ → String
  pub retention_digest : RetentionPolicy → ℕ
  pub decision_digest : RetentionDecision → ℕ
  pub trust_root_digest : TrustRootPolicy → ℕ
  pub manifest_digest : EvidenceTransferManifest → ℕ
  pub receipt_digest : EvidenceImportReceipt → ℕ
  pub verification_digest : EvidenceTransferVerification → ℕ
  pub release_digest : String → ℕ → ℕ

-- The dicts of the store; the number of answers that the outside has given; and, to count them, what
-- was handed to a deletion adapter. A tenant without entries has no list, which no method tells
-- apart from an empty one.
pub record Store : Type 0 where
  pub changes : Dict Key GovernanceChangeRequest
  pub approvals : Dict Key (List GovernanceApproval)
  pub retention : Dict String (List RetentionPolicy)
  pub holds : Dict Key LegalHold
  pub trust_roots : Dict String (List GovernedTrustRoot)
  pub exports : Dict Key EvidenceTransferManifest
  pub imports : Dict Key EvidenceImportReceipt
  pub audit : Dict String (List GovernanceAuditEvent)
  pub answers : ℕ
  pub deletions : List (RetentionCandidate × RetentionDecision)

-- `__init__`
abbrev pub empty : Store
empty = record {
  changes = [];
  approvals = [];
  retention = [];
  holds = [];
  trust_roots = [];
  exports = [];
  imports = [];
  audit = [];
  answers = 0;
  deletions = [];
}

-- the list of a key, empty where there is none
unfoldable pub list_at : {K V : Type 0} → Discrete K → K → Dict K (List V) → List V
list_at d k m = elim (find d k m) [ none ↦ [] | some l ↦ l ]

-- an answer of the outside
unfoldable pub ask : {A : Type 0} → (ℕ → Result A) → Call Store A
ask f s = (f s.answers, record s { answers = s.answers + 1 })

-- what the state shows
unfoldable pub gets : {A : Type 0} → (Store → Result A) → Call Store A
gets f s = (f s, s)

unfoldable pub append_audit : GovernanceAuditEvent → Call Store (Unit {0})
append_audit e s = (
  ok tt,
  record s {
    audit =
        put string_discrete e.tenant_id (list_at string_discrete e.tenant_id s.audit ++ e ∷ [])
          s.audit;
  },
)

-- What a method says in its event beside the tenant, the actor and the time.
pub record Entry : Type 0 where
  pub event_type : GovernanceAuditEventType
  pub request_id : Option ℕ
  pub target_type : Option GovernanceTargetType
  pub target_id : AuditTarget
  pub before_digest : Option ℕ
  pub after_digest : Option ℕ
  pub reason : String
  pub ticket_reference : Option String
  pub attributes : AuditDetail

module _ (g : Environment) where
  -- `datetime.now(UTC)`
  unfoldable pub now : Call Store ℕ
  now = ask (λ n. ok (g.clock n))

  -- `uuid4()`
  unfoldable pub identifier : Call Store ℕ
  identifier = ask (λ n. ok (g.fresh n))

  -- `_require`
  unfoldable pub require : TenantAccessContext → TenantCapability → Call Store (Unit {0})
  require context capability =
      raise_if (not (same TenantAccessMode_discrete context.mode tenant)) authorization_denied
      >> now
      >>= λ at. raise_if (not (grants context capability at)) authorization_denied

  -- an event of the context's tenant and actor, appended
  unfoldable pub record_event : TenantAccessContext → ℕ → Entry → Call Store (Unit {0})
  record_event context occurred_at e = identifier >>= λ event_id. append_audit (record {
    event_id = event_id;
    tenant_id = context.tenant_id;
    event_type = e.event_type;
    actor = context.actor;
    occurred_at = occurred_at;
    request_id = e.request_id;
    target_type = e.target_type;
    target_id = e.target_id;
    before_digest = e.before_digest;
    after_digest = e.after_digest;
    reason = e.reason;
    ticket_reference = e.ticket_reference;
    attributes = e.attributes;
  })

-- `list_audit`, after its check
unfoldable pub audit_of : TenantAccessContext → Store → Result (List GovernanceAuditEvent)
audit_of context s = ok (list_at string_discrete context.tenant_id s.audit)
