-- ===== src/Broker/Authorized.antt =====
-- What holds whenever an action is handed to an executor.
use prodkit_control.Prelude.{ℕ, true, some, ◌≡◌, ◌⊎◌}
use prodkit_control.Prelude.Result.{Result, ok}
use prodkit_control.Contracts.Actions.{ActionSpec}
use prodkit_control.Contracts.Policy.{
  PolicyDecision, allow, require_approval, ApprovalDecision, authorizes,
}
use prodkit_control.Stores.Approvals.{Approvals, binding, find_valid_approval}
use prodkit_control.Broker.World.{Broker, World}

-- The policy's decision is for the action, and allows it, or wants an approval and a recorded one
-- authorizes the action under that decision at a reading of the clock.
pub record IsAuthorized (b : Broker) (action : ActionSpec) (approvals : Approvals) : Type 0 where
  pub policy : PolicyDecision
  pub question : ℕ
  pub evaluated : b.evaluate action question ≡ ok policy
  pub bound : policy.action_digest ≡ b.action_digest action
  pub verdict :
      (policy.outcome ≡ allow)
      ⊎ ((policy.outcome ≡ require_approval)
          × (a : ApprovalDecision) × (at n : ℕ) × (at ≡ b.clock n)
          × (find_valid_approval action
                (b.action_digest action)
                policy
                (b.target_digest action.target)
                at
                approvals
              ≡ some a)
          × (authorizes a
                (binding action (b.action_digest action) policy (b.target_digest action.target))
                at
              ≡ true))
