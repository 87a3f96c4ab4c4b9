-- ===== src/Governance/Tests.antt =====
-- Concrete runs of the governance store, and the theorems at them.
use prodkit_control.Prelude.{
  ℕ, ◌+◌, String, ℕ_discrete, string_discrete, true, false, none, some, List, [], ◌∷◌, ◌≡◌, ◌⊎◌,
  inl, refl, ◌↔◌, map,
}
use prodkit_control.Prelude.Dict.{find, put}
use prodkit_control.Prelude.Result.{ok, ◌>>=◌, pure, raise_if}
use prodkit_control.Contracts.Identity.{ActorRef, human}
use prodkit_control.Contracts.Tenancy.{
  TenantAccessContext, tenant, read, write, approve, delete, legal_hold, configure,
  TenantAccessMode_discrete, TenantCapability_discrete,
}
use prodkit_control.Contracts.Changes
use prodkit_control.Contracts.Changes.{
  GovernanceChangeRequest, GovernanceTargetType_discrete, GovernanceChangeStatus_discrete,
  ActorKind_discrete, critical, low,
}
use prodkit_control.Contracts.Retention.{
  RetentionPolicy, RetentionCandidate, RetentionDecision, LegalHold, first_rule, active,
  delete as remove, retain,
}
use prodkit_control.Contracts.TrustRoots.{TrustRootPolicy, validate_history}
use prodkit_control.Contracts.Transfers.{
  EvidenceTransferManifest, EvidenceTransferVerification, EvidenceImportReceipt,
  CompatibilityPolicy, MigrationPath, enumerates, path_from, paths_from, validate_compatibility,
}
use prodkit_control.Governance.Store.{
  Key, Environment, Store, Key_discrete, empty, list_at, ask, gets, append_audit, now, identifier,
  require, record_event,
}
use prodkit_control.Governance.Proposals
use prodkit_control.Governance.Holds
use prodkit_control.Governance.Retention
use prodkit_control.Governance.Roots
use prodkit_control.Governance.Transfers
use prodkit_control.Governance.Machine.{Moves, core}
use prodkit_control.Governance.Operations.{
  Operation, propose, decide, apply_policy, place, propose_release, bootstrap, release, run,
  run-Moves, Reachable, start, after,
}
use prodkit_control.Governance.Revisions.{IsNumbered, IsChain, policies-IsNumbered, roots-IsChain}
use prodkit_control.Governance.Requests.{IsFiled}
use prodkit_control.Governance.Lifecycle.{
  changes-IsFiled, IsIndependent, approved-IsIndependent, Successor, run-Successor,
}
use prodkit_control.Governance.Due.{IsDue}
use prodkit_control.Governance.Decisions.{Names, decision_for-IsDue, decision_for-validate_decision}
use prodkit_control.Governance.Deletions.{IsSafe, execute_retention-IsSafe}
use prodkit_control.Governance.Imports.{
  path_from-enumerates, IsVerified, Records, record_verified_import-IsVerified,
}

abbrev g : Environment
g = record {
  clock = λ n. n;
  fresh = λ n. n;
  text_of = λ i. "id";
  retention_digest = λ p. 7;
  decision_digest = λ d. 8;
  trust_root_digest = λ p. 9;
  manifest_digest = λ m. 10;
  receipt_digest = λ r. 11;
  verification_digest = λ v. 12;
  release_digest = λ t i. 13;
}

abbrev person : String → ActorRef
person name = record {
  kind = human;
  id = name;
  display_name = none;
  tenant_id = "t";
  workload_identity = none;
  attributes = [];
}

abbrev context : String → TenantAccessContext
context name = record {
  tenant_id = "t";
  actor = person name;
  mode = tenant;
  capabilities = read ∷ write ∷ approve ∷ delete ∷ legal_hold ∷ configure ∷ [];
  elevation_id = none;
  reason = none;
  ticket_reference = none;
  issued_at = 0;
  expires_at = none;
}

abbrev policy : RetentionPolicy
policy = record {
  policy_id = 1;
  tenant_id = "t";
  revision = 1;
  effective_at = 0;
  default_retain_for_seconds = some 0;
  rules = [];
  created_at = 0;
  created_by = person "a";
}

abbrev root_policy : TrustRootPolicy
root_policy = record {
  policy_id = "roots";
  revision = "1";
  trusted_keys = [];
  allowed_signers = [];
  allow_historical_signatures_before_revocation = false;
}

abbrev hold : LegalHold
hold = record {
  hold_id = 5;
  tenant_id = "t";
  status = active;
  reason = "case";
  case_reference = "C-1";
  resource_types = "report" ∷ [];
  resource_ids = [];
  placed_at = 0;
  placed_by = person "a";
  released_at = none;
  released_by = none;
  release_change_request_id = none;
}

-- a policy is proposed, decided by another person, and adopted
abbrev proposal : Operation
proposal = propose (context "a") Changes.retention_policy "id" 7 critical "why" "T-1" none

abbrev approval : Operation
approval = decide (context "b") 2 Changes.approve "fine"

abbrev adoption : Operation
adoption = apply_policy policy (context "a") 2

abbrev proposed_store : Store
proposed_store = run g proposal empty

abbrev approved_store : Store
approved_store = run g approval proposed_store

abbrev adopted_store : Store
adopted_store = run g adoption approved_store

proposed-Reachable : Reachable g proposed_store
proposed-Reachable = after proposal empty start

approved-Reachable : Reachable g approved_store
approved-Reachable = after approval proposed_store proposed-Reachable

adopted-Reachable : Reachable g adopted_store
adopted-Reachable = after adoption approved_store approved-Reachable

abbrev request : GovernanceChangeRequest
request =
    Proposals.new_request (context "a") Changes.retention_policy "id" 7 critical "why" "T-1" none 2
      1

abbrev approved_request : GovernanceChangeRequest
approved_request = Proposals.decided_copy Changes.approve request (context "b") 5

proposed_request_found : find Key_discrete ("t", 2) proposed_store.changes ≡ some request
unfolding Proposals.propose_change Proposals.put_change find put list_at ask gets append_audit now
    identifier require record_event ◌>>=◌ pure raise_if string_discrete Key_discrete
    GovernanceChangeStatus_discrete GovernanceTargetType_discrete TenantAccessMode_discrete
    TenantCapability_discrete ActorKind_discrete ℕ_discrete
proposed_request_found = refl

approved_request_found : find Key_discrete ("t", 2) approved_store.changes ≡ some approved_request
unfolding Proposals.propose_change Proposals.approve_change Proposals.put_approval
    Proposals.find_request Proposals.put_change find put list_at ask gets append_audit now
    identifier require record_event ◌>>=◌ pure raise_if string_discrete Key_discrete
    GovernanceChangeStatus_discrete GovernanceTargetType_discrete TenantAccessMode_discrete
    TenantCapability_discrete ActorKind_discrete ℕ_discrete
approved_request_found = refl

adopted_policies : Retention.policies_of "t" adopted_store ≡ policy ∷ []
unfolding Proposals.propose_change Proposals.approve_change Proposals.put_approval
    Proposals.find_request Proposals.put_change Proposals.approved_request Proposals.mark_applied
    Proposals.hash_discrete Retention.last_of Retention.append_policy
    Retention.apply_retention_policy find put list_at ask gets append_audit now identifier require
    record_event ◌>>=◌ pure raise_if string_discrete Key_discrete GovernanceChangeStatus_discrete
    GovernanceTargetType_discrete TenantAccessMode_discrete TenantCapability_discrete
    ActorKind_discrete ℕ_discrete
adopted_policies = refl

run-Moves_example : Moves g proposed_store.answers (core proposed_store) (core approved_store)
run-Moves_example = run-Moves g approval proposed_store

policies-IsNumbered_example : IsNumbered "t" 1 (Retention.policies_of "t" adopted_store)
policies-IsNumbered_example = policies-IsNumbered g adopted_store adopted-Reachable "t"

changes-IsFiled_example : IsFiled ("t", 2) approved_request
changes-IsFiled_example =
    changes-IsFiled g approved_store approved-Reachable ("t", 2) approved_request
      approved_request_found

approved-IsIndependent_example : IsIndependent approved_request
approved-IsIndependent_example =
    approved-IsIndependent g approved_store approved-Reachable ("t", 2) approved_request
      approved_request_found (inl refl) refl

run-Successor_example :
    (q : GovernanceChangeRequest) × (find Key_discrete ("t", 2) approved_store.changes ≡ some q)
    × Successor g proposed_store.answers request q
run-Successor_example =
    run-Successor g proposed_store approval proposed-Reachable ("t", 2) request
      proposed_request_found

-- the first trust root of a tenant
abbrev root_proposal : Operation
root_proposal = propose (context "a") Changes.trust_root_policy "roots" 9 critical "why" "T-2" none

abbrev root_approval : Operation
root_approval = decide (context "b") 2 Changes.approve "fine"

abbrev root_start : Operation
root_start = bootstrap (context "a") root_policy 0 2

abbrev rooted_store : Store
rooted_store = run g root_start (run g root_approval (run g root_proposal empty))

rooted-Reachable : Reachable g rooted_store
rooted-Reachable = after root_start _ (after root_approval _ (after root_proposal empty start))

root_stands : Roots.roots_of "t" rooted_store ≡ Roots.new_root "t" 1 root_policy 9 0 2 ∷ []
unfolding Roots.bootstrap_trust_root Roots.put_roots Proposals.propose_change
    Proposals.approve_change Proposals.put_approval Proposals.find_request Proposals.put_change
    Proposals.approved_request Proposals.mark_applied Proposals.hash_discrete find put list_at ask
    gets append_audit now identifier require record_event ◌>>=◌ pure raise_if string_discrete
    Key_discrete GovernanceChangeStatus_discrete GovernanceTargetType_discrete
    TenantAccessMode_discrete TenantCapability_discrete ActorKind_discrete ℕ_discrete
root_stands = refl

roots-IsChain_example :
    IsChain 1 (Roots.roots_of "t" rooted_store)
    × ((Roots.roots_of "t" rooted_store ≡ [])
        ⊎ (validate_history (record { tenant_id = "t"; roots = Roots.roots_of "t" rooted_store })
            ≡ true))
roots-IsChain_example = roots-IsChain g rooted_store rooted-Reachable "t"

-- a hold is placed, and released with a request that another person approves
abbrev held_store : Store
held_store = run g (place (context "a") hold) empty

abbrev release_approved_store : Store
release_approved_store =
    run g (decide (context "b") 5 Changes.approve "fine")
      (run g (propose_release (context "a") 5 "over" "T-3") held_store)

abbrev released_store : Store
released_store = run g (release (context "a") 5 5) release_approved_store

hold_ends :
    find Key_discrete ("t", 5) released_store.holds
    ≡ some (Holds.released_copy hold (context "a") 5 12)
unfolding Holds.place_legal_hold Holds.put_hold Holds.has_hold Holds.find_open Holds.open_or_missing
    Holds.propose_legal_hold_release Holds.release_legal_hold Proposals.propose_change
    Proposals.approve_change Proposals.put_approval Proposals.find_request Proposals.put_change
    Proposals.approved_request Proposals.mark_applied Proposals.hash_discrete find put list_at ask
    gets append_audit now identifier require record_event ◌>>=◌ pure raise_if string_discrete
    Key_discrete GovernanceChangeStatus_discrete GovernanceTargetType_discrete
    TenantAccessMode_discrete TenantCapability_discrete ActorKind_discrete ℕ_discrete
hold_ends = refl

-- one person alone: a release proposed through `propose_change` itself, at low risk
abbrev lone_store : Store
lone_store = run g (release (context "a") 5 4) (
    run g (decide (context "a") 4 Changes.approve "fine") (
      run g (propose (context "a") Changes.legal_hold_release "id" 13 low "over" "T-4" none)
        held_store))

lone_release :
    find Key_discrete ("t", 5) lone_store.holds ≡ some (Holds.released_copy hold (context "a") 4 11)
unfolding Holds.place_legal_hold Holds.put_hold Holds.has_hold Holds.find_open Holds.open_or_missing
    Holds.propose_legal_hold_release Holds.release_legal_hold Proposals.propose_change
    Proposals.approve_change Proposals.put_approval Proposals.find_request Proposals.put_change
    Proposals.approved_request Proposals.mark_applied Proposals.hash_discrete find put list_at ask
    gets append_audit now identifier require record_event ◌>>=◌ pure raise_if string_discrete
    Key_discrete GovernanceChangeStatus_discrete GovernanceTargetType_discrete
    TenantAccessMode_discrete TenantCapability_discrete ActorKind_discrete ℕ_discrete
lone_release = refl

-- two resources, one of them under the hold
abbrev resource : String → RetentionCandidate
resource type = record {
  tenant_id = "t";
  resource_type = type;
  resource_id = "1";
  created_at = 0;
  content_sha256 = none;
  attributes = [];
}

decision_for-IsDue_example :
    ((d : RetentionDecision) × (Retention.decision_for policy (hold ∷ []) (resource "trace") 3
        ≡ ok d)
      × (d.disposition ≡ remove))
    ↔ IsDue policy (hold ∷ []) (resource "trace") 3
decision_for-IsDue_example = decision_for-IsDue policy (hold ∷ []) (resource "trace") 3

abbrev kept : RetentionDecision
kept =
    Retention.decided policy (resource "report") 3 retain none (5 ∷ [])
      "active legal hold takes precedence over deletion policy"

report_kept : Retention.decision_for policy (hold ∷ []) (resource "report") 3 ≡ ok kept
unfolding Retention.decision_for Retention.decide_holds Retention.hold_ids_for
    Proposals.propose_change Proposals.approve_change Proposals.put_approval Proposals.find_request
    Proposals.put_change Proposals.approved_request Proposals.mark_applied Proposals.hash_discrete
    find put list_at ask gets append_audit now identifier require record_event ◌>>=◌ pure raise_if
    string_discrete Key_discrete GovernanceChangeStatus_discrete GovernanceTargetType_discrete
    TenantAccessMode_discrete TenantCapability_discrete ActorKind_discrete ℕ_discrete
report_kept = refl

decision_for-validate_decision_example : Names policy (resource "report") 3 kept
decision_for-validate_decision_example =
    decision_for-validate_decision policy (hold ∷ []) (resource "report") 3 kept report_kept

-- the store with the policy and the hold, at which both resources are offered for deletion
abbrev full_store : Store
full_store = run g (place (context "a") hold) adopted_store

abbrev adapter : Retention.Adapter
adapter c candidate d n = ok "gone"

abbrev candidates : List RetentionCandidate
candidates = resource "trace" ∷ resource "report" ∷ []

abbrev swept_store : Store
swept_store = (Retention.execute_retention g (context "a") candidates adapter none full_store).1

execute_retention-IsSafe_example : IsSafe g full_store "t" swept_store
execute_retention-IsSafe_example =
    execute_retention-IsSafe g (context "a") candidates adapter none full_store

one_deleted :
    map (λ (e : RetentionCandidate × RetentionDecision). e.0.resource_type) swept_store.deletions
    ≡ "trace" ∷ []
unfolding Holds.place_legal_hold Holds.put_hold Holds.has_hold Retention.apply_retention_policy
    Retention.append_policy Retention.last_of Retention.execute_retention
    Retention.retention_decisions Retention.effective_policy Retention.eligible Retention.open_holds
    Retention.decide_under Retention.decide_all Retention.decision_for Retention.decide_holds
    Retention.decide_rule Retention.decide_window Retention.hold_ids_for first_rule
    Retention.candidates_distinct Retention.audit_decisions Retention.execute_each
    Retention.execute_one Retention.hand_over Proposals.propose_change Proposals.approve_change
    Proposals.put_approval Proposals.find_request Proposals.put_change Proposals.approved_request
    Proposals.mark_applied Proposals.hash_discrete find put list_at ask gets append_audit now
    identifier require record_event ◌>>=◌ pure raise_if string_discrete Key_discrete
    GovernanceChangeStatus_discrete GovernanceTargetType_discrete TenantAccessMode_discrete
    TenantCapability_discrete ActorKind_discrete ℕ_discrete
one_deleted = refl

abbrev manifest : EvidenceTransferManifest
manifest = record {
  transfer_id = 3;
  tenant_id = "t";
  created_at = 0;
  created_by = person "a";
  source_control_version = "1.0.0";
  source_schema_version = 2;
  archive_sha256 = 20;
  bundle_manifest_sha256 = 21;
  trust_root_revision = none;
  legal_hold_preserved = true;
}

abbrev verification : EvidenceTransferVerification
verification = record {
  verification_id = 4;
  transfer_id = 3;
  tenant_id = "t";
  verified_at = 0;
  source_control_version = "1.0.0";
  source_schema_version = 2;
  package_sha256 = 20;
  bundle_manifest_sha256 = 21;
  trust_anchor_sha256 = 22;
  verified_offline = true;
}

abbrev migration : ℕ → MigrationPath
migration v = record {
  from_schema_version = v;
  to_schema_version = v + 1;
  minimum_control_version = "1.0.0";
  requires_backup = true;
  reversible = true;
}

abbrev compatibility : CompatibilityPolicy
compatibility = record {
  current_schema_version = 3;
  minimum_supported_schema_version = 1;
  migration_paths = migration 1 ∷ migration 2 ∷ [];
}

one_step : path_from compatibility 2 ≡ some (migration 2 ∷ [])
unfolding paths_from
one_step = refl

valid_compatibility : validate_compatibility compatibility ≡ true
unfolding enumerates
valid_compatibility = refl

path_from-enumerates_example : enumerates 2 3 (migration 2 ∷ []) ≡ true
path_from-enumerates_example =
    path_from-enumerates compatibility 2 (migration 2 ∷ []) valid_compatibility one_step

abbrev receipt : EvidenceImportReceipt
receipt = record {
  import_id = 2;
  transfer_id = 3;
  tenant_id = "t";
  imported_at = 1;
  imported_by = person "a";
  source_control_version = "1.0.0";
  source_schema_version = 2;
  archive_sha256 = 20;
  verification_id = 4;
  verification_sha256 = 12;
  trust_anchor_sha256 = 22;
  verified = true;
}

import_recorded :
    (Transfers.record_verified_import g
      (context "a")
      manifest
      verification
      20
      compatibility
      empty).0
    ≡ ok receipt
unfolding Transfers.record_verified_import Transfers.validate_import Transfers.put_import paths_from
    Proposals.propose_change Proposals.approve_change Proposals.put_approval Proposals.find_request
    Proposals.put_change Proposals.approved_request Proposals.mark_applied Proposals.hash_discrete
    find put list_at ask gets append_audit now identifier require record_event ◌>>=◌ pure raise_if
    string_discrete Key_discrete GovernanceChangeStatus_discrete GovernanceTargetType_discrete
    TenantAccessMode_discrete TenantCapability_discrete ActorKind_discrete ℕ_discrete
import_recorded = refl

record_verified_import-IsVerified_example :
    ((k : Key) (x : EvidenceImportReceipt)
      → find Key_discrete k
          (Transfers.record_verified_import g
            (context "a")
            manifest
            verification
            20
            compatibility
            empty).1.imports
        ≡ some x
      → (find Key_discrete k empty.imports ≡ some x)
        ⊎ (IsVerified (context "a") manifest verification 20 compatibility
            × Records (context "a") manifest verification 20 compatibility x))
    × ((x : EvidenceImportReceipt)
        → (Transfers.record_verified_import g
            (context "a")
            manifest
            verification
            20
            compatibility
            empty).0
          ≡ ok x
        → IsVerified (context "a") manifest verification 20 compatibility
          × Records (context "a") manifest verification 20 compatibility x)
record_verified_import-IsVerified_example =
    record_verified_import-IsVerified g (context "a") manifest verification 20 compatibility empty
