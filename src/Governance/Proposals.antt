-- ===== src/Governance/Proposals.antt =====
-- Change requests of runtime/governance.py: proposed, decided by an approver, and spent by the change that they allow.
use prodkit_control.Prelude.{
  ℕ, ℕ_discrete, String, Bool, not, ◌&&◌, Option, none, some, [], ◌∷◌, ◌++◌, ◌==◌, same, text_eq,
}
use prodkit_control.Prelude.Dict.{find, put}
use prodkit_control.Prelude.Result.{
  Result, ok, err, Call, ◌>>=◌, ◌>>◌, pure, raise_if, authorization_denied, key_error,
}
use prodkit_control.Contracts.Tenancy.{TenantAccessContext, TenantCapability}
use prodkit_control.Contracts.Changes.{
  GovernanceRisk, is_high, GovernanceTargetType, GovernanceTargetType_discrete,
  GovernanceChangeStatus_discrete, GovernanceChangeRequest, proposed, approved, rejected, applied,
  GovernanceApproval, GovernanceApprovalDecision, approve, reject, same_actor, change_proposed,
  change_approved, change_rejected, named, nothing, at_risk, GovernanceAuditEventType,
}
use prodkit_control.Governance.Store.{
  Environment, Store, Key, Key_discrete, list_at, gets, now, identifier, require, record_event,
}

unfoldable pub hash_discrete : Discrete (Option ℕ)
hash_discrete = hlevel ℕ_discrete

-- `self._changes[k] = r`
unfoldable pub put_change : Key → GovernanceChangeRequest → Call Store (Unit {0})
put_change k r s = (ok tt, record s { changes = put Key_discrete k r s.changes })

unfoldable pub put_approval : GovernanceApproval → Call Store (Unit {0})
put_approval a s =
    let k : Key = (a.tenant_id, a.request_id) in
    (
      ok tt,
      record s {
        approvals = put Key_discrete k (list_at Key_discrete k s.approvals ++ a ∷ []) s.approvals;
      },
    )

-- `_request_locked`
unfoldable pub find_request : String → ℕ → Store → Result GovernanceChangeRequest
find_request tenant_id request_id s = elim (find Key_discrete (tenant_id, request_id) s.changes) [
  | none ↦ err key_error
  | some r ↦ ok r
]

-- the comparisons of `_approved_request_locked` with what the change is about
abbrev pub matches : GovernanceChangeRequest → GovernanceTargetType → String → ℕ → Bool
matches r target_type target_id digest =
    same GovernanceTargetType_discrete r.target_type target_type
    && (text_eq r.target_id target_id && r.proposed_digest == digest)

-- `_approved_request_locked`
unfoldable pub approved_request :
    String → ℕ → GovernanceTargetType → String → ℕ → Option ℕ → Call Store GovernanceChangeRequest
approved_request tenant_id request_id target_type target_id proposed_digest current_digest =
    gets (find_request tenant_id request_id) >>= λ r.
    raise_if (not (same GovernanceChangeStatus_discrete r.status approved)) authorization_denied
    >> raise_if (not (matches r target_type target_id proposed_digest)) authorization_denied
    >> raise_if (not (same hash_discrete r.expected_current_digest current_digest))
        authorization_denied
    >> pure r

-- the copy of a request that `_mark_applied_locked` writes
abbrev pub applied_copy : GovernanceChangeRequest → ℕ → GovernanceChangeRequest
applied_copy r at = record r { status = applied; applied_at = some at }

-- `_mark_applied_locked`
unfoldable pub mark_applied : GovernanceChangeRequest → ℕ → Call Store (Unit {0})
mark_applied r at = put_change (r.tenant_id, r.request_id) (applied_copy r at)

-- the request that `propose_change` stores
abbrev pub new_request :
    TenantAccessContext
    → GovernanceTargetType
    → String
    → ℕ
    → GovernanceRisk
    → String
    → String
    → Option ℕ
    → ℕ
    → ℕ
    → GovernanceChangeRequest
new_request context target_type target_id proposed_digest risk reason ticket expected request_id
      at =
    record {
      request_id = request_id;
      tenant_id = context.tenant_id;
      target_type = target_type;
      target_id = target_id;
      proposed_digest = proposed_digest;
      expected_current_digest = expected;
      risk = risk;
      reason = reason;
      ticket_reference = ticket;
      proposed_at = at;
      proposed_by = context.actor;
      status = proposed;
      approved_at = none;
      approved_by = none;
      applied_at = none;
    }

-- the copy of a request that a decision writes
abbrev pub decided_copy :
    GovernanceApprovalDecision
    → GovernanceChangeRequest
    → TenantAccessContext
    → ℕ
    → GovernanceChangeRequest
decided_copy reject r context at = record r { status = rejected }
decided_copy approve r context at = record r {
  status = approved;
  approved_at = some at;
  approved_by = some context.actor;
}

abbrev pub decision_event : GovernanceApprovalDecision → GovernanceAuditEventType
decision_event reject = change_rejected
decision_event approve = change_approved

module _ (g : Environment) where
  unfoldable pub propose_change :
      TenantAccessContext
      → GovernanceTargetType
      → String
      → ℕ
      → GovernanceRisk
      → String
      → String
      → Option ℕ
      → Call Store GovernanceChangeRequest
  propose_change context target_type target_id proposed_digest risk reason ticket expected =
      require g context TenantCapability.configure >> now g >>= λ at. identifier g >>= λ request_id.
      let request : GovernanceChangeRequest =
        new_request context target_type target_id proposed_digest risk reason ticket expected
          request_id at in
      put_change (context.tenant_id, request_id) request
      >> record_event g context at (record {
        event_type = change_proposed;
        request_id = some request_id;
        target_type = some target_type;
        target_id = named target_id;
        before_digest = none;
        after_digest = some proposed_digest;
        reason = reason;
        ticket_reference = some ticket;
        attributes = at_risk risk;
      })
      >> pure request

  unfoldable pub approve_change :
      TenantAccessContext
      → ℕ
      → GovernanceApprovalDecision
      → String
      → Call Store GovernanceChangeRequest
  approve_change context request_id decision reason =
      require g context TenantCapability.approve >> now g >>= λ at.
      gets (find_request context.tenant_id request_id) >>= λ r.
      raise_if (not (same GovernanceChangeStatus_discrete r.status proposed)) authorization_denied
      >> raise_if (is_high r.risk && same_actor r.proposed_by context.actor) authorization_denied
      >> identifier g
      >>= λ approval_id.
          put_approval (record {
            approval_id = approval_id;
            request_id = request_id;
            tenant_id = context.tenant_id;
            decision = decision;
            actor = context.actor;
            occurred_at = at;
            reason = reason;
          })
          >> put_change (context.tenant_id, request_id) (decided_copy decision r context at)
          >> record_event g context at (record {
            event_type = decision_event decision;
            request_id = some request_id;
            target_type = some r.target_type;
            target_id = named r.target_id;
            before_digest = none;
            after_digest = some r.proposed_digest;
            reason = reason;
            ticket_reference = some r.ticket_reference;
            attributes = nothing;
          })
          >> pure (decided_copy decision r context at)
