-- ===== src/Governance/Machine.antt =====
-- The abstract view of `InMemoryGovernanceStore` (runtime/governance.py): what decides about changes, policies, holds
-- and trust roots, without the audit trail, the identifiers drawn and the calls made. Its steps are the
-- changes of state that are allowed.
use prodkit_control.Prelude.{
  ℕ, ◌≤◌, String, string_discrete, true, false, ◌&&◌, Option, none, some, List, [], ◌∷◌, ◌++◌, ◌≡◌,
  ◌⊎◌,
}
use prodkit_control.Prelude.Dict.{Dict, find, put}
use prodkit_control.Contracts.Tenancy.{TenantAccessContext}
use prodkit_control.Contracts.Retention.{RetentionPolicy, LegalHold, is_held_open}
use prodkit_control.Contracts.TrustRoots.{TrustRootPolicy, GovernedTrustRoot, KeyRotationPlan}
use prodkit_control.Contracts.Changes.{
  GovernanceTargetType, GovernanceChangeRequest, GovernanceApprovalDecision, proposed, approved,
  is_high, same_actor, validate_change,
}
use prodkit_control.Governance.Store.{Environment, Store, Key, Key_discrete, list_at}
use prodkit_control.Governance.Proposals.{applied_copy, decided_copy}
use prodkit_control.Governance.Holds.{released_copy}
use prodkit_control.Governance.Retention.{last_of, next_revision, digest_of}
use prodkit_control.Governance.Roots.{rotated, new_root, steps_from}

pub record Core : Type 0 where
  pub changes : Dict Key GovernanceChangeRequest
  pub retention : Dict String (List RetentionPolicy)
  pub holds : Dict Key LegalHold
  pub trust_roots : Dict String (List GovernedTrustRoot)

abbrev pub core : Store → Core
core s = record {
  changes = s.changes;
  retention = s.retention;
  holds = s.holds;
  trust_roots = s.trust_roots;
}

abbrev pub with_change : Core → Key → GovernanceChangeRequest → Core
with_change c k r = record c { changes = put Key_discrete k r c.changes }

-- a request marked as applied, at the key that it names
abbrev pub with_applied : Core → GovernanceChangeRequest → ℕ → Core
with_applied c r at = with_change c (r.tenant_id, r.request_id) (applied_copy r at)

abbrev pub with_hold : Core → Key → LegalHold → Core
with_hold c k h = record c { holds = put Key_discrete k h c.holds }

abbrev pub policies_in : Core → String → List RetentionPolicy
policies_in c t = list_at string_discrete t c.retention

abbrev pub with_policies : Core → String → List RetentionPolicy → Core
with_policies c t l = record c { retention = put string_discrete t l c.retention }

abbrev pub roots_in : Core → String → List GovernedTrustRoot
roots_in c t = list_at string_discrete t c.trust_roots

abbrev pub with_roots : Core → String → List GovernedTrustRoot → Core
with_roots c t l = record c { trust_roots = put string_discrete t l c.trust_roots }

-- A request that is stored, approved, and about exactly this change.
pub record IsApproved (c : Core) (k : Key) (type : GovernanceTargetType) (id : String) (hash : ℕ)
    (known : Option ℕ) (r : GovernanceChangeRequest) : Type 0 where
  pub found : find Key_discrete k c.changes ≡ some r
  pub status : r.status ≡ approved
  pub target_type : r.target_type ≡ type
  pub target_id : r.target_id ≡ id
  pub digest : r.proposed_digest ≡ hash
  pub current : r.expected_current_digest ≡ known

-- a reading of the clock that the environment gives as its answer numbered `least` or later
abbrev pub Clocked : Environment → ℕ → ℕ → Type 0
Clocked g least at = (n : ℕ) × (least ≤ n) × (at ≡ g.clock n)

-- A step; an identifier that it draws is the environment's answer with the number `least` or a later one.
pub data Step (g : Environment) (least : ℕ) (c d : Core) : Type 0 where
  proposes :
      (r : GovernanceChangeRequest)
      → r.status ≡ proposed
      → validate_change r ≡ true
      → (n : ℕ) → least ≤ n
      → r.request_id ≡ g.fresh n
      → d ≡ with_change c (r.tenant_id, r.request_id) r
      → Step g least c d
  decides :
      (k : Key) (r : GovernanceChangeRequest) (decision : GovernanceApprovalDecision)
      (context : TenantAccessContext) (at : ℕ)
      → Clocked g least at
      → find Key_discrete k c.changes ≡ some r
      → r.status ≡ proposed
      → (is_high r.risk && same_actor r.proposed_by context.actor) ≡ false
      → d ≡ with_change c k (decided_copy decision r context at)
      → Step g least c d
  adopts :
      (k : Key) (r : GovernanceChangeRequest) (p : RetentionPolicy) (at : ℕ)
      → Clocked g least at
      → p.tenant_id ≡ k.0
      → p.revision ≡ next_revision (last_of (policies_in c k.0))
      → IsApproved c k GovernanceTargetType.retention_policy
          (g.text_of p.policy_id)
          (g.retention_digest p)
          (digest_of g.retention_digest (last_of (policies_in c k.0)))
          r
      → d ≡ with_applied (with_policies c k.0 (policies_in c k.0 ++ p ∷ [])) r at
      → Step g least c d
  places :
      (h : LegalHold)
      → is_held_open h.status ≡ true
      → find Key_discrete (h.tenant_id, h.hold_id) c.holds ≡ none
      → d ≡ with_hold c (h.tenant_id, h.hold_id) h
      → Step g least c d
  releases :
      (k : Key) (r : GovernanceChangeRequest) (h : LegalHold) (hold_id : ℕ)
      (context : TenantAccessContext) (at : ℕ)
      → Clocked g least at
      → find Key_discrete (k.0, hold_id) c.holds ≡ some h
      → is_held_open h.status ≡ true
      → IsApproved c k GovernanceTargetType.legal_hold_release
          (g.text_of hold_id)
          (g.release_digest k.0 hold_id)
          none
          r
      → d ≡ with_applied (with_hold c (k.0, hold_id) (released_copy h context k.1 at)) r at
      → Step g least c d
  bootstraps :
      (k : Key) (r : GovernanceChangeRequest) (policy : TrustRootPolicy) (activated_at at : ℕ)
      → Clocked g least at
      → roots_in c k.0 ≡ []
      → IsApproved c k GovernanceTargetType.trust_root_policy policy.policy_id
          (g.trust_root_digest policy)
          none
          r
      → d
        ≡ with_applied
            (with_roots c k.0
              (new_root k.0 1 policy (g.trust_root_digest policy) activated_at k.1 ∷ []))
            r
            at
      → Step g least c d
  rotates :
      (r : GovernanceChangeRequest) (plan : KeyRotationPlan) (policy : TrustRootPolicy)
      (root : GovernedTrustRoot) (at : ℕ)
      → Clocked g least at
      → last_of (roots_in c plan.tenant_id) ≡ some root
      → steps_from plan root ≡ true
      → IsApproved c
          (plan.tenant_id, plan.change_request_id)
          GovernanceTargetType.trust_root_policy
          policy.policy_id
          (g.trust_root_digest policy)
          (some root.policy_sha256)
          r
      → d
        ≡ with_applied
            (with_roots c plan.tenant_id (
              rotated (roots_in c plan.tenant_id) plan.overlap_until (
                new_root plan.tenant_id plan.to_revision policy
                  (g.trust_root_digest policy)
                  plan.activate_at
                  plan.change_request_id)))
            r
            at
      → Step g least c d

-- nothing, or one step
abbrev pub Moves : Environment → ℕ → Core → Core → Type 0
Moves g least c d = (d ≡ c) ⊎ Step g least c d
