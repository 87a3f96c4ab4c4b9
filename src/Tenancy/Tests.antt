-- ===== src/Tenancy/Tests.antt =====
-- Concrete runs of the tenant store, and the theorems at them.
use prodkit_control.Prelude.{
  arith, String, ℕ_discrete, string_discrete, true, false, none, some, List, [], ◌∷◌, ◌≡◌, refl,
}
use prodkit_control.Prelude.Dict.{Dict, find, put}
use prodkit_control.Prelude.Result.{ok, err, authorization_denied, ◌>>=◌, pure, raise_if}
use prodkit_control.Contracts.Identity.{ActorRef, human}
use prodkit_control.Contracts.Changes.{ActorKind_discrete}
use prodkit_control.Contracts.Tenancy.{
  TenantAccessContext, tenant, read, delete, legal_hold, configure as configuring,
  TenantAccessMode_discrete, TenantCapability_discrete, TenantLifecycleStatus_discrete,
  TenantIsolationProfile, SupportElevationGrant, TenantLifecycleRecord, deletion_scheduled,
  all_distinct,
}
use prodkit_control.Tenancy.{
  Environment, Store, Key_discrete, text_discrete, empty, new_record, ask, gets, audit_of,
  append_event, now, identifier, record_event, write_profile, put_grant, put_record, authorize,
  has_attribute, is_enabled, is_backed, is_elevated, is_admitted, find_grant,
}
use prodkit_control.Tenancy.Methods.{
  new_grant, support_context, put_profile, issue_support_grant, revoke, revoke_support_grant,
  schedule_deletion,
}
use prodkit_control.Tenancy.Operations.{
  Operation, configure, issue, plan, run, run_all, Reachable, start, after,
}
use prodkit_control.Tenancy.Access.{
  IsLive, authorize-IsLive, authorize-revoke_support_grant, IsShort, grants-IsShort,
}
use prodkit_control.Tenancy.Deletion.{IsFit, lifecycle-IsFit}

abbrev g : Environment
g = record {
  clock = λ n. n;
  fresh = λ n. n;
  text_of = λ i. "id";
  profile_digest = λ p. 7;
  manifest_digest = λ m. 8;
}

abbrev person : String → Dict String String → ActorRef
person name attributes = record {
  kind = human;
  id = name;
  display_name = none;
  tenant_id = "t";
  workload_identity = none;
  attributes = attributes;
}

abbrev operator : ActorRef
operator = person "o" (("prodkit.support_operator", "true") ∷ [])

abbrev authority : ActorRef
authority = person "b" (("prodkit.support_authority", "true") ∷ [])

abbrev admin : TenantAccessContext
admin = record {
  tenant_id = "t";
  actor = person "a" [];
  mode = tenant;
  capabilities = read ∷ delete ∷ legal_hold ∷ configuring ∷ [];
  elevation_id = none;
  reason = none;
  ticket_reference = none;
  issued_at = 0;
  expires_at = none;
}

abbrev profile : TenantIsolationProfile
profile = record {
  tenant_id = "t";
  policy_profile = "p";
  signing_profile = "p";
  retention_profile = "p";
  executor_profile = "p";
  storage_partition = "p";
  cache_namespace = "p";
  allow_support_access = true;
  attributes = [];
}

abbrev granting : Operation
granting = issue "t" operator authority (read ∷ []) "why" "T-1" 60

abbrev configured_store : Store
configured_store = run g (configure profile admin) empty

abbrev granted_store : Store
granted_store = run g granting configured_store

granted-Reachable : Reachable g granted_store
granted-Reachable = after granting configured_store (after (configure profile admin) empty start)

abbrev grant : SupportElevationGrant
grant = new_grant "t" operator authority (read ∷ []) "why" "T-1" 60 3 4

abbrev visitor : TenantAccessContext
visitor = support_context "t" operator grant

grant_stands : find Key_discrete ("t", 4) granted_store.grants ≡ some grant
unfolding put_profile issue_support_grant write_profile put_grant find put ask gets audit_of
    append_event now identifier record_event ◌>>=◌ pure raise_if string_discrete Key_discrete
    text_discrete TenantAccessMode_discrete TenantCapability_discrete TenantLifecycleStatus_discrete
    ActorKind_discrete ℕ_discrete has_attribute is_enabled is_backed is_elevated is_admitted
    authorize all_distinct
grant_stands = refl

grants-IsShort_example : IsShort ("t", 4) grant
grants-IsShort_example =
    grants-IsShort g granted_store granted-Reachable ("t", 4) grant grant_stands

visitor_let_in : (authorize visitor read 10 granted_store).0 ≡ ok tt
unfolding put_profile issue_support_grant write_profile put_grant find put ask gets audit_of
    append_event now identifier record_event ◌>>=◌ pure raise_if string_discrete Key_discrete
    text_discrete TenantAccessMode_discrete TenantCapability_discrete TenantLifecycleStatus_discrete
    ActorKind_discrete ℕ_discrete has_attribute is_enabled is_backed is_elevated is_admitted
    authorize all_distinct
visitor_let_in = refl

authorize-IsLive_example : IsLive granted_store visitor read 10
authorize-IsLive_example = authorize-IsLive visitor read 10 granted_store refl visitor_let_in

abbrev revoked_store : Store
revoked_store = (revoke_support_grant g "t" 4 authority "over" granted_store).1

revoked : revoke_support_grant g "t" 4 authority "over" granted_store ≡ (ok tt, revoked_store)
unfolding put_profile issue_support_grant write_profile put_grant revoke_support_grant revoke
    find_grant find put ask gets audit_of append_event now identifier record_event ◌>>=◌ pure
    raise_if string_discrete Key_discrete text_discrete TenantAccessMode_discrete
    TenantCapability_discrete TenantLifecycleStatus_discrete ActorKind_discrete ℕ_discrete
    has_attribute is_enabled is_backed is_elevated is_admitted authorize all_distinct
revoked = refl

answers_given : revoked_store.answers ≡ 8
unfolding put_profile issue_support_grant write_profile put_grant revoke_support_grant revoke
    find_grant find put ask gets audit_of append_event now identifier record_event ◌>>=◌ pure
    raise_if string_discrete Key_discrete text_discrete TenantAccessMode_discrete
    TenantCapability_discrete TenantLifecycleStatus_discrete ActorKind_discrete ℕ_discrete
    has_attribute is_enabled is_backed is_elevated is_admitted authorize all_distinct
answers_given = refl

-- another grant, and a planned deletion, after the revocation
abbrev later : List Operation
later = granting ∷ plan admin 100 "leaving" ∷ []

authorize-revoke_support_grant_example :
    (authorize visitor read 10 (run_all g later revoked_store)).0 ≡ err authorization_denied
authorize-revoke_support_grant_example =
    authorize-revoke_support_grant g "t" 4 authority "over" granted_store revoked_store later
      visitor read 10 revoked (λ n l e. omega (arith, l, e, answers_given)) refl refl refl

abbrev planning : Operation
planning = plan admin 100 "leaving"

abbrev planned_record : TenantLifecycleRecord
planned_record = new_record g.text_of admin deletion_scheduled false (some 100) 0

planned_stands : find string_discrete "t" (run g planning empty).lifecycle ≡ some planned_record
unfolding schedule_deletion put_record find put ask gets audit_of append_event now identifier
    record_event ◌>>=◌ pure raise_if string_discrete Key_discrete text_discrete
    TenantAccessMode_discrete TenantCapability_discrete TenantLifecycleStatus_discrete
    ActorKind_discrete ℕ_discrete has_attribute is_enabled is_backed is_elevated is_admitted
    authorize all_distinct
planned_stands = refl

lifecycle-IsFit_example : IsFit planned_record
lifecycle-IsFit_example =
    lifecycle-IsFit g (run g planning empty) (after planning empty start) "t" planned_record
      planned_stands
