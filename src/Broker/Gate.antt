-- ===== src/Broker/Gate.antt =====
-- `ActionBroker.execute` up to the claim: the checks, the policy, the approval, the choice of the
-- executor and its credential lease.
use prodkit_control.Prelude.{
  ℕ, String, Bool, not, ◌&&◌, ◌||◌, Option, none, some, leb, ◌==◌, same, text_eq,
}
use prodkit_control.Prelude.Result.{
  Call, ◌>>=◌, ◌>>◌, pure, raise, raise_if, ok, authorization_denied, approval_denied,
  approval_required,
}
use prodkit_control.Contracts.Identity.{ActorRef}
use prodkit_control.Contracts.Work.{is_some}
use prodkit_control.Contracts.Actions.{ActionSpec}
use prodkit_control.Contracts.Policy.{
  PolicyDecision, PolicyOutcome, PolicyOutcome_discrete, deny, require_approval, ApprovalDecision,
  ApprovalOutcome_discrete, approved,
}
use prodkit_control.Contracts.Execution.{CredentialLease}
use prodkit_control.Contracts.Events.{
  action_proposed, policy_evaluated, approval_requested, approval_decided, credential_lease_issued,
  proposal, decision, approval_request, approval, lease_issue,
}
use prodkit_control.Stores.Approvals.{find_valid_approval}
use prodkit_control.Broker.World.{
  Broker, World, Executor, LeaseProvider, ask, given, now, event, get,
}

-- the approval store's answer
unfoldable pub lookup_approval :
    ActionSpec → ℕ → PolicyDecision → ℕ → ℕ → Call World (Option ApprovalDecision)
lookup_approval action action_digest policy target_digest at w =
    (ok (find_valid_approval action action_digest policy target_digest at w.approvals), w)

module _ (b : Broker) where
  unfoldable pub check_expiry : Option ℕ → Call World (Unit {0})
  check_expiry none = pure tt
  check_expiry (some expires_at) = now b >>= λ at. raise_if (leb expires_at at) authorization_denied

  -- what follows the approval store's answer
  unfoldable pub check_approval :
      ActionSpec
      → ActorRef
      → String
      → PolicyDecision
      → Option ApprovalDecision
      → Call World (Unit {0})
  check_approval action actor trace_id policy none =
      event b action actor trace_id approval_requested (
        approval_request (b.action_digest action) (b.target_digest action.target) policy.decision_id
          policy.required_approval_roles)
      >> raise (approval_required action.action_id (b.action_digest action))
  check_approval action actor trace_id policy (some a) =
      event b action a.approver trace_id approval_decided (approval a)
      >> raise_if (not (same ApprovalOutcome_discrete a.outcome approved)) approval_denied

  -- `if policy.outcome is REQUIRE_APPROVAL`
  unfoldable pub require_approval_of :
      PolicyOutcome → ActionSpec → ActorRef → String → PolicyDecision → Call World (Unit {0})
  require_approval_of require_approval action actor trace_id policy = now b >>= λ at.
      lookup_approval action (b.action_digest action) policy (b.target_digest action.target) at
      >>= check_approval action actor trace_id policy
  require_approval_of _ action actor trace_id policy = pure tt

  -- what follows the policy's evaluation
  unfoldable pub apply_policy :
      ActionSpec → ActorRef → String → PolicyDecision → Call World (Unit {0})
  apply_policy action actor trace_id policy =
      raise_if (not (policy.action_digest == b.action_digest action)) authorization_denied
      >> event b action actor trace_id policy_evaluated (decision policy)
      >> raise_if (same PolicyOutcome_discrete policy.outcome deny) authorization_denied
      >> require_approval_of policy.outcome action actor trace_id policy

  unfoldable pub gate : ActionSpec → ActorRef → String → Call World (Unit {0})
  gate action actor trace_id =
      raise_if (not (text_eq actor.tenant_id action.tenant_id)) authorization_denied
      >> check_expiry action.expires_at
      >> event b action actor trace_id action_proposed (proposal action (b.action_digest action))
      >> ask (b.evaluate action)
      >>= apply_policy action actor trace_id

  -- whether `durable_executor` is set
  abbrev pub is_durable : Bool
  is_durable = b.keeps_attempts || is_some b.credential_leases

  unfoldable pub select_executor : ActionSpec → Call World Executor
  select_executor action = given (get action.executor b.executors) >>= λ executor.
      raise_if (is_durable && not executor.owns_attempts) authorization_denied
      >> raise_if (is_some b.credential_leases && not executor.takes_leases) authorization_denied
      >> pure executor

  -- `if self._credential_leases is not None`
  unfoldable pub issue_lease :
      Option LeaseProvider
      → ActionSpec
      → ActorRef
      → String
      → Executor
      → Call World (Option CredentialLease)
  issue_lease none action actor trace_id executor = pure none
  issue_lease (some p) action actor trace_id executor =
      ask (p.issue action executor.identity) >>= λ lease.
      event b action actor trace_id credential_lease_issued (lease_issue lease) >> pure (some lease)
