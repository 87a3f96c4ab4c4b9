-- ===== src/Governance/Retention.antt =====
-- Retention in runtime/governance.py: the policy revisions of a tenant, the decision for each candidate, and the deletions that
-- an adapter carries out. A second is 1,000,000 microseconds.
use prodkit_control.Prelude.{
  ℕ, ◌+◌, ◌*◌, String, string_discrete, Bool, true, false, not, ◌&&◌, Option, none, some, List, [],
  ◌∷◌, ◌++◌, ◌==◌, text_eq, leb, ltb, any,
}
use prodkit_control.Prelude.Dict.{Dict, put}
use prodkit_control.Prelude.Result.{
  Result, ok, err, Call, ◌>>=◌, ◌>>◌, pure, raise_if, authorization_denied, value_error,
}
use prodkit_control.Contracts.Work.{is_some}
use prodkit_control.Contracts.Tenancy.{TenantAccessContext, TenantCapability}
use prodkit_control.Contracts.Changes.{
  GovernanceTargetType, named, resource, at_revision, disposed, deletion_intent, deletion_done,
  change_applied, retention_evaluated, retention_deletion_intent_recorded,
  retention_deletion_executed,
}
use prodkit_control.Governance.Store.{
  Environment, Store, Key, list_at, ask, gets, now, identifier, require, record_event,
}
use prodkit_control.Governance.Proposals.{approved_request, mark_applied}
use prodkit_control.Contracts.Retention.{
  RetentionDisposition, retain, delete, RetentionRule, RetentionPolicy, RetentionCandidate,
  RetentionDecision, RetentionExecutionRecord, LegalHold, applies_to, is_held_open, rule_for,
}

-- the last of a history, if it has any
unfoldable pub last_of : {A : Type 0} → List A → Option A
last_of [] = none
last_of (a ∷ []) = some a
last_of (a ∷ b ∷ l) = last_of (b ∷ l)

abbrev pub next_revision : Option RetentionPolicy → ℕ
next_revision none = 1
next_revision (some p) = p.revision + 1

abbrev pub digest_of : (RetentionPolicy → ℕ) → Option RetentionPolicy → Option ℕ
digest_of f none = none
digest_of f (some p) = some (f p)

unfoldable pub append_policy : String → RetentionPolicy → Call Store (Unit {0})
append_policy t p s = (
  ok tt,
  record s {
    retention = put string_discrete t (list_at string_discrete t s.retention ++ p ∷ []) s.retention;
  },
)

abbrev pub policies_of : String → Store → List RetentionPolicy
policies_of t s = list_at string_discrete t s.retention

unfoldable pub eligible : ℕ → List RetentionPolicy → List RetentionPolicy
eligible at [] = []
eligible at (p ∷ ps) =
    let rest = eligible at ps in elim (leb p.effective_at at) [ true ↦ p ∷ rest | false ↦ rest ]

-- `_effective_policy_locked`
unfoldable pub effective_policy : String → ℕ → Store → Option RetentionPolicy
effective_policy t at s = last_of (eligible at (policies_of t s))

-- the active holds of a tenant
unfoldable pub open_holds : String → Dict Key LegalHold → List LegalHold
open_holds t [] = []
open_holds t ((k, h) ∷ m) =
    let rest = open_holds t m in
    elim (text_eq k.0 t && is_held_open h.status) [ true ↦ h ∷ rest | false ↦ rest ]

unfoldable pub hold_ids_for : RetentionCandidate → List LegalHold → List ℕ
hold_ids_for c [] = []
hold_ids_for c (h ∷ hs) =
    let rest = hold_ids_for c hs in elim (applies_to h c) [ true ↦ h.hold_id ∷ rest | false ↦ rest ]

-- a decision about a candidate under a policy
abbrev pub decided :
    RetentionPolicy
    → RetentionCandidate
    → ℕ
    → RetentionDisposition
    → Option ℕ
    → List ℕ
    → String
    → RetentionDecision
decided p c at d not_before ids reason = record {
  tenant_id = c.tenant_id;
  resource_type = c.resource_type;
  resource_id = c.resource_id;
  disposition = d;
  evaluated_at = at;
  policy_id = p.policy_id;
  policy_revision = p.revision;
  delete_not_before = not_before;
  legal_hold_ids = ids;
  reason = reason;
}

abbrev pub may_delete : Option RetentionRule → Bool
may_delete none = true
may_delete (some r) = r.deletion_allowed

abbrev pub retain_for : RetentionPolicy → Option RetentionRule → Option ℕ
retain_for p none = p.default_retain_for_seconds
retain_for p (some r) = r.retain_for_seconds

abbrev pub grace : Option RetentionRule → ℕ
grace none = 0
grace (some r) = r.deletion_grace_seconds

-- when the retention and grace windows end
abbrev pub window_end : RetentionCandidate → Option RetentionRule → ℕ → ℕ
window_end c rule seconds = c.created_at + (seconds + grace rule) * 1000000

unfoldable pub decide_window :
    RetentionPolicy → RetentionCandidate → ℕ → Option RetentionRule → Option ℕ → RetentionDecision
decide_window p c at rule none =
    decided p c at retain none [] "retention policy keeps this resource indefinitely"
decide_window p c at rule (some seconds) = elim (ltb at (window_end c rule seconds)) [
  | true ↦ decided p c at retain none [] "retention window has not elapsed"
  | false ↦
      decided p c at delete (some (window_end c rule seconds)) []
        "retention and deletion-grace windows elapsed"
]

unfoldable pub decide_rule :
    RetentionPolicy → RetentionCandidate → ℕ → Option RetentionRule → RetentionDecision
decide_rule p c at rule = elim (may_delete rule) [
  | false ↦ decided p c at retain none [] "resource type is configured as non-deletable"
  | true ↦ decide_window p c at rule (retain_for p rule)
]

unfoldable pub decide_holds : RetentionPolicy → RetentionCandidate → ℕ → List ℕ → RetentionDecision
decide_holds p c at [] = decide_rule p c at (rule_for p c.resource_type)
decide_holds p c at (i ∷ ids) =
    decided p c at retain none (i ∷ ids) "active legal hold takes precedence over deletion policy"

-- `_decision_for`
unfoldable pub decision_for :
    RetentionPolicy → List LegalHold → RetentionCandidate → ℕ → Result RetentionDecision
decision_for p holds c at = elim (text_eq c.tenant_id p.tenant_id) [
  | false ↦ err authorization_denied
  | true ↦ ok (decide_holds p c at (hold_ids_for c holds))
]

-- the decisions in the candidates' order, up to the first that raises
unfoldable pub decide_all :
    RetentionPolicy
    → List LegalHold
    → ℕ
    → List RetentionCandidate
    → Result (List (RetentionCandidate × RetentionDecision))
decide_all p holds at [] = ok []
decide_all p holds at (c ∷ cs) =
    let rest = decide_all p holds at cs in
    elim (decision_for p holds c at) [
      | err e ↦ err e
      | ok d ↦ elim rest [ err e ↦ err e | ok ds ↦ ok ((c, d) ∷ ds) ]
    ]

unfoldable pub decide_under :
    Option RetentionPolicy
    → List LegalHold
    → ℕ
    → List RetentionCandidate
    → Result (List (RetentionCandidate × RetentionDecision))
decide_under none holds at cs = err authorization_denied
decide_under (some p) holds at cs = decide_all p holds at cs

-- `_retention_decisions_locked`, each decision beside its candidate
unfoldable pub retention_decisions :
    String
    → List RetentionCandidate
    → ℕ
    → Store
    → Result (List (RetentionCandidate × RetentionDecision))
retention_decisions t cs at s = decide_under (effective_policy t at s) (open_holds t s.holds) at cs

abbrev pub is_candidate : RetentionCandidate → RetentionCandidate → Bool
is_candidate c d = text_eq c.resource_type d.resource_type && text_eq c.resource_id d.resource_id

-- the test of `_require_unique_candidates`
unfoldable pub candidates_distinct : List RetentionCandidate → Bool
candidates_distinct [] = true
candidates_distinct (c ∷ cs) = not (any (is_candidate c) cs) && candidates_distinct cs

-- the adapter has a candidate and its decision
unfoldable pub hand_over : RetentionCandidate → RetentionDecision → Call Store (Unit {0})
hand_over c d s = (ok tt, record s { deletions = s.deletions ++ (c, d) ∷ [] })

abbrev pub execution_record :
    TenantAccessContext
    → RetentionCandidate
    → RetentionDecision
    → ℕ
    → ℕ
    → String
    → RetentionExecutionRecord
execution_record context c d execution_id at reference = record {
  execution_id = execution_id;
  tenant_id = context.tenant_id;
  resource_type = c.resource_type;
  resource_id = c.resource_id;
  executed_at = at;
  executed_by = context.actor;
  policy_id = d.policy_id;
  policy_revision = d.policy_revision;
  content_sha256 = c.content_sha256;
  deletion_reference = reference;
}

-- The arguments of a `RetentionDeletionAdapter`, and the count of the answers before it.
abbrev pub Adapter : Type 0
Adapter = TenantAccessContext → RetentionCandidate → RetentionDecision → ℕ → Result String

unfoldable pub time_or_now : Environment → Option ℕ → Call Store ℕ
time_or_now g none = now g
time_or_now g (some t) = pure t

module _ (g : Environment) where
  unfoldable pub apply_retention_policy :
      RetentionPolicy → TenantAccessContext → ℕ → Call Store RetentionPolicy
  apply_retention_policy policy context request_id =
      require g context TenantCapability.configure
      >> raise_if (not (text_eq policy.tenant_id context.tenant_id)) authorization_denied
      >> now g
      >>= λ at. gets (λ s. ok (last_of (policies_of context.tenant_id s))) >>= λ current.
          raise_if (not (policy.revision == next_revision current)) value_error
          >> let before : Option ℕ = digest_of g.retention_digest current in
            approved_request context.tenant_id request_id GovernanceTargetType.retention_policy
              (g.text_of policy.policy_id) (g.retention_digest policy) before
            >>= λ r.
                append_policy context.tenant_id policy
                >> mark_applied r at
                >> record_event g context at (record {
                  event_type = change_applied;
                  request_id = some request_id;
                  target_type = some GovernanceTargetType.retention_policy;
                  target_id = named (g.text_of policy.policy_id);
                  before_digest = before;
                  after_digest = some (g.retention_digest policy);
                  reason = r.reason;
                  ticket_reference = some r.ticket_reference;
                  attributes = at_revision policy.revision;
                })
                >> pure policy

  unfoldable pub current_retention_policy :
      TenantAccessContext → Option ℕ → Call Store (Option RetentionPolicy)
  current_retention_policy context at =
      require g context TenantCapability.read >> time_or_now g at >>= λ t.
      gets (λ s. ok (effective_policy context.tenant_id t s))

  -- `_audit_decisions_locked`
  unfoldable pub audit_decisions :
      TenantAccessContext
      → ℕ
      → List (RetentionCandidate × RetentionDecision)
      → Call Store (Unit {0})
  audit_decisions context at [] = pure tt
  audit_decisions context at ((c, d) ∷ ds) =
      record_event g context at (record {
        event_type = retention_evaluated;
        request_id = none;
        target_type = none;
        target_id = resource d.resource_type d.resource_id;
        before_digest = none;
        after_digest = none;
        reason = d.reason;
        ticket_reference = none;
        attributes = disposed d.disposition;
      })
      >> audit_decisions context at ds

  unfoldable pub evaluate_retention :
      TenantAccessContext
      → List RetentionCandidate
      → Option ℕ
      → Call Store (List (RetentionCandidate × RetentionDecision))
  evaluate_retention context candidates at =
      require g context TenantCapability.read >> time_or_now g at >>= λ t.
      gets (retention_decisions context.tenant_id candidates t) >>= λ ds.
      audit_decisions context t ds >> pure ds

  -- one deletion: its intent, the adapter's call, its record and its event
  unfoldable pub execute_one :
      Adapter
      → TenantAccessContext
      → ℕ
      → RetentionCandidate
      → RetentionDecision
      → Call Store RetentionExecutionRecord
  execute_one adapter context at c d = identifier g >>= λ execution_id.
      record_event g context at (record {
        event_type = retention_deletion_intent_recorded;
        request_id = none;
        target_type = none;
        target_id = resource c.resource_type c.resource_id;
        before_digest = none;
        after_digest = none;
        reason = d.reason;
        ticket_reference = none;
        attributes = deletion_intent execution_id (g.decision_digest d) c.content_sha256;
      })
      >> hand_over c d
      >> ask (adapter context c d)
      >>= λ reference.
          record_event g context at (record {
            event_type = retention_deletion_executed;
            request_id = none;
            target_type = none;
            target_id = resource c.resource_type c.resource_id;
            before_digest = none;
            after_digest = none;
            reason = d.reason;
            ticket_reference = none;
            attributes = deletion_done execution_id reference;
          })
          >> pure (execution_record context c d execution_id at reference)

  -- the loop of `execute_retention`
  unfoldable pub execute_each :
      Adapter
      → TenantAccessContext
      → ℕ
      → List (RetentionCandidate × RetentionDecision)
      → Call Store (List RetentionExecutionRecord)
  execute_each adapter context at [] = pure []
  execute_each adapter context at ((c, d) ∷ ds) =
      let rest = execute_each adapter context at ds in
      elim d.disposition [
        | retain ↦ rest
        | delete ↦ execute_one adapter context at c d >>= λ r. rest >>= λ rs. pure (r ∷ rs)
      ]

  unfoldable pub execute_retention :
      TenantAccessContext
      → List RetentionCandidate
      → Adapter
      → Option ℕ
      → Call Store (List RetentionExecutionRecord)
  execute_retention context candidates adapter at =
      require g context TenantCapability.delete
      >> require g context TenantCapability.read
      >> raise_if (is_some at) value_error
      >> raise_if (not (candidates_distinct candidates)) value_error
      >> now g
      >>= λ t. gets (retention_decisions context.tenant_id candidates t) >>= λ ds.
          audit_decisions context t ds >> execute_each adapter context t ds
