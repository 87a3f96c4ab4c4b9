-- ===== src/Governance/Roots.antt =====
-- Trust roots in runtime/governance.py: the first one of a tenant, its rotation, and the history that verifies checkpoints.
use prodkit_control.Prelude.{
  ℕ, ◌+◌, String, string_discrete, Bool, true, false, not, ◌&&◌, Option, none, some, List, [], ◌∷◌,
  ◌==◌, text_eq, ltb,
}
use prodkit_control.Prelude.Dict.{put}
use prodkit_control.Prelude.Result.{
  Result, ok, err, Call, ◌>>=◌, ◌>>◌, pure, raise_if, authorization_denied, value_error,
}
use prodkit_control.Contracts.Tenancy.{TenantAccessContext, TenantCapability}
use prodkit_control.Contracts.Changes.{
  GovernanceTargetType, named, at_revision, rotation, trust_root_activated,
}
use prodkit_control.Governance.Store.{Environment, Store, list_at, gets, now, require, record_event}
use prodkit_control.Governance.Proposals.{approved_request, mark_applied}
use prodkit_control.Contracts.TrustRoots.{
  TrustRootPolicy, GovernedTrustRoot, KeyRotationPlan, TrustRootHistory, validate_history,
  has_roots, policy_for,
}
use prodkit_control.Governance.Retention.{last_of}

abbrev pub roots_of : String → Store → List GovernedTrustRoot
roots_of t s = list_at string_discrete t s.trust_roots

unfoldable pub put_roots : String → List GovernedTrustRoot → Call Store (Unit {0})
put_roots t l s = (ok tt, record s { trust_roots = put string_discrete t l s.trust_roots })

-- `roots[-1] = current.model_copy(update={"retired_at": retired_at})`, `roots.append(next)`
unfoldable pub rotated : List GovernedTrustRoot → ℕ → GovernedTrustRoot → List GovernedTrustRoot
rotated [] retired_at next = next ∷ []
rotated (r ∷ []) retired_at next = record r { retired_at = some retired_at } ∷ next ∷ []
rotated (r ∷ q ∷ l) retired_at next = r ∷ rotated (q ∷ l) retired_at next

abbrev pub new_root : String → ℕ → TrustRootPolicy → ℕ → ℕ → ℕ → GovernedTrustRoot
new_root t revision policy digest activated_at request_id = record {
  tenant_id = t;
  revision = revision;
  policy = policy;
  policy_sha256 = digest;
  activated_at = activated_at;
  retired_at = none;
  change_request_id = request_id;
}

-- the root in force, for `rotate_trust_root`
unfoldable pub current_root : String → Store → Result GovernedTrustRoot
current_root t s = elim (last_of (roots_of t s)) [ none ↦ err value_error | some r ↦ ok r ]

-- `TrustRootHistory(...)`
unfoldable pub history_of : String → Store → Result TrustRootHistory
history_of t s =
    let h : TrustRootHistory = record { tenant_id = t; roots = roots_of t s } in
    elim (validate_history h) [ true ↦ ok h | false ↦ err value_error ]

abbrev pub steps_from : KeyRotationPlan → GovernedTrustRoot → Bool
steps_from plan r = r.revision == plan.from_revision && plan.to_revision == r.revision + 1

module _ (g : Environment) where
  unfoldable pub bootstrap_trust_root :
      TenantAccessContext → TrustRootPolicy → ℕ → ℕ → Call Store GovernedTrustRoot
  bootstrap_trust_root context policy activated_at request_id =
      require g context TenantCapability.configure
      >> gets (λ s. ok (has_roots (roots_of context.tenant_id s)))
      >>= λ started.
          raise_if started value_error
          >> let digest : ℕ = g.trust_root_digest policy in
            approved_request context.tenant_id request_id GovernanceTargetType.trust_root_policy
              policy.policy_id digest none
            >>= λ r.
                let root : GovernedTrustRoot =
                  new_root context.tenant_id 1 policy digest activated_at request_id in
                put_roots context.tenant_id (root ∷ []) >> now g >>= λ at.
                mark_applied r at
                >> record_event g context at (record {
                  event_type = trust_root_activated;
                  request_id = some request_id;
                  target_type = some GovernanceTargetType.trust_root_policy;
                  target_id = named policy.policy_id;
                  before_digest = none;
                  after_digest = some digest;
                  reason = r.reason;
                  ticket_reference = some r.ticket_reference;
                  attributes = at_revision 1;
                })
                >> pure root

  unfoldable pub rotate_trust_root :
      TenantAccessContext → KeyRotationPlan → TrustRootPolicy → Call Store TrustRootHistory
  rotate_trust_root context plan policy =
      require g context TenantCapability.configure
      >> raise_if (not (text_eq plan.tenant_id context.tenant_id)) authorization_denied
      >> now g
      >>= λ at.
          raise_if (ltb plan.activate_at at && not plan.emergency) value_error
          >> gets (current_root context.tenant_id)
          >>= λ current.
              raise_if (not (steps_from plan current)) value_error
              >> let digest : ℕ = g.trust_root_digest policy in
                approved_request context.tenant_id plan.change_request_id
                  GovernanceTargetType.trust_root_policy policy.policy_id digest
                  (some current.policy_sha256)
                >>= λ r. gets (λ s. ok (roots_of context.tenant_id s)) >>= λ roots.
                    put_roots context.tenant_id (
                      rotated roots plan.overlap_until (
                        new_root context.tenant_id plan.to_revision policy digest plan.activate_at
                          plan.change_request_id))
                    >> mark_applied r at
                    >> record_event g context at (record {
                      event_type = trust_root_activated;
                      request_id = some plan.change_request_id;
                      target_type = some GovernanceTargetType.trust_root_policy;
                      target_id = named policy.policy_id;
                      before_digest = some current.policy_sha256;
                      after_digest = some digest;
                      reason = r.reason;
                      ticket_reference = some r.ticket_reference;
                      attributes = rotation plan.from_revision plan.to_revision plan.overlap_until;
                    })
                    >> gets (history_of context.tenant_id)

  unfoldable pub trust_root_history : TenantAccessContext → Call Store TrustRootHistory
  trust_root_history context =
      require g context TenantCapability.read >> gets (history_of context.tenant_id)

-- the verifier's call, where the history has a policy
unfoldable pub verify_under :
    (TrustRootPolicy → Result (Unit {0})) → Option TrustRootPolicy → Result (Unit {0})
verify_under verifier none = err value_error
verify_under verifier (some p) = verifier p

-- `verify_checkpoint_history`: a checkpoint's tenant, time and key; `verifier` is the call of
-- `OfflineAssuranceVerifier.verify_checkpoint` with it.
unfoldable pub verify_checkpoint_history :
    (TrustRootPolicy → Result (Unit {0}))
    → String
    → ℕ
    → String
    → TrustRootHistory
    → Result (Unit {0})
verify_checkpoint_history verifier tenant_id created_at key_id h =
    elim (text_eq tenant_id h.tenant_id) [
      | false ↦ err authorization_denied
      | true ↦ verify_under verifier (policy_for h created_at (some key_id))
    ]
