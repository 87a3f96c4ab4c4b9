-- ===== src/Governance/Requests.antt =====
-- The change requests of runtime/governance.py: the key that they stand under, and their validator.
use prodkit_control.Prelude.{
  some_injective, ℕ, String, true, false, ◌&&◌, some, ◌≡◌, inl, inr, refl, sym, ap, subst, ◌∙◌,
  ands, same_comm, string_discrete,
}
use prodkit_control.Prelude.Dict.{Dict, find, put, find-put_cases}
use prodkit_control.Contracts.Tenancy.{TenantAccessContext}
use prodkit_control.Contracts.Identity.{ActorRef}
use prodkit_control.Contracts.Changes.{
  GovernanceChangeRequest, GovernanceChangeStatus, ActorKind_discrete, GovernanceApprovalDecision,
  approve, reject, proposed, approved, validate_change, same_actor, is_high, approval_fits,
  application_fits,
}
use prodkit_control.Governance.Store.{Environment, Key, Key_discrete}
use prodkit_control.Governance.Proposals.{applied_copy, decided_copy}
use prodkit_control.Governance.Machine.{
  Core, Step, proposes, decides, adopts, places, releases, bootstraps, rotates, with_change,
}

-- a request that stands under its own key and that `validate_change` accepts
pub record IsFiled (k : Key) (r : GovernanceChangeRequest) : Type 0 where
  pub tenant : r.tenant_id ≡ k.0
  pub id : r.request_id ≡ k.1
  pub valid : validate_change r ≡ true

pub IsFiled-key :
    {k : Key} {r : GovernanceChangeRequest}
    → IsFiled k r
    → ◌≡◌ {A = Key} (r.tenant_id, r.request_id) k
IsFiled-key {k} {r} f =
    let t : ◌≡◌ {A = Key} (r.tenant_id, r.request_id) (k.0, r.request_id) =
      ap (λ (t : String). (t, r.request_id)) f.tenant in
    let i : ◌≡◌ {A = Key} (k.0, r.request_id) k = ap (λ (i : ℕ). (k.0, i)) f.id in t ∙ i

abbrev pub AllFiled : Core → Type 0
AllFiled c =
    (k : Key) (r : GovernanceChangeRequest) → find Key_discrete k c.changes ≡ some r → IsFiled k r

pub same_actor_comm : (a b : ActorRef) → same_actor a b ≡ same_actor b a
same_actor_comm a b =
    rw
      (
        same_comm ActorKind_discrete a.kind b.kind,
        same_comm string_discrete a.id b.id,
        same_comm string_discrete a.tenant_id b.tenant_id,
      )
      refl

-- what `validate_change` says of a request in a status
pub fits_in :
    (r : GovernanceChangeRequest) (s : GovernanceChangeStatus)
    → r.status ≡ s
    → validate_change r ≡ true
    → (approval_fits s r && application_fits s r.applied_at) ≡ true
fits_in r s e v =
    subst
      (λ (x : GovernanceChangeStatus).
        (approval_fits x r && application_fits x r.applied_at) ≡ true)
      e v

filed_at :
    (c : Core) (k : Key) (r : GovernanceChangeRequest)
    → IsFiled k r
    → AllFiled c
    → AllFiled (with_change c k r)
filed_at c k r f h j q e = elim (find-put_cases Key_discrete k j r c.changes) [
  | inl (p, x) ↦
      subst (IsFiled j) (some_injective (sym x ∙ e)) (subst (λ (i : Key). IsFiled i r) (sym p) f)
  | inr (n, x) ↦ h j q (sym x ∙ e)
]

applied-IsFiled :
    (r : GovernanceChangeRequest) (at : ℕ)
    → validate_change r ≡ true
    → r.status ≡ approved
    → IsFiled (r.tenant_id, r.request_id) (applied_copy r at)
applied-IsFiled r at v e =
    let v' : (approval_fits approved r && application_fits approved r.applied_at) ≡ true =
      fits_in r approved e v in
    record {
      tenant = refl;
      id = refl;
      valid =
          rw ((ands (approval_fits approved r) (application_fits approved r.applied_at) v').0) refl;
    }

decided-IsFiled :
    (k : Key) (r : GovernanceChangeRequest) (d : GovernanceApprovalDecision)
    (context : TenantAccessContext) (at : ℕ)
    → IsFiled k r
    → r.status ≡ proposed
    → (is_high r.risk && same_actor r.proposed_by context.actor) ≡ false
    → IsFiled k (decided_copy d r context at)
decided-IsFiled k r approve context at f e i =
    let v : (approval_fits proposed r && application_fits proposed r.applied_at) ≡ true =
      fits_in r proposed e f.valid in
    record {
      tenant = f.tenant;
      id = f.id;
      valid =
          rw
            (
              same_actor_comm context.actor r.proposed_by,
              i,
              (ands (approval_fits proposed r) (application_fits proposed r.applied_at) v).1,
            )
            refl;
    }
decided-IsFiled k r reject context at f e i =
    let v : (approval_fits proposed r && application_fits proposed r.applied_at) ≡ true =
      fits_in r proposed e f.valid in
    record { tenant = f.tenant; id = f.id; valid = v }

-- the requests after one of them is marked as applied, whatever else changed
applied_filed :
    (c d : Core) (k : Key) (r : GovernanceChangeRequest) (at : ℕ)
    → AllFiled c
    → find Key_discrete k c.changes ≡ some r
    → r.status ≡ approved
    → d.changes ≡ put Key_discrete (r.tenant_id, r.request_id) (applied_copy r at) c.changes
    → AllFiled d
applied_filed c d k r at h f e w =
    subst
      (λ (m : Dict Key GovernanceChangeRequest).
        (j : Key) (q : GovernanceChangeRequest) → find Key_discrete j m ≡ some q → IsFiled j q)
      (sym w)
      (filed_at c (r.tenant_id, r.request_id) (applied_copy r at)
        (applied-IsFiled r at (h k r f).valid e) h)

pub Step-AllFiled :
    (g : Environment) (least : ℕ) (c d : Core) → AllFiled c → Step g least c d → AllFiled d
Step-AllFiled g least c d h (proposes r e v n l i w) =
    subst AllFiled (sym w)
      (filed_at c (r.tenant_id, r.request_id) r (record { tenant = refl; id = refl; valid = v }) h)
Step-AllFiled g least c d h (decides k r x context at u f e i w) =
    subst AllFiled (sym w) (filed_at c k _ (decided-IsFiled k r x context at (h k r f) e i) h)
Step-AllFiled g least c d h (adopts k r p at u t n a w) =
    applied_filed c d k r at h a.found a.status (ap (λ (x : Core). x.changes) w)
Step-AllFiled g least c d h (places x o f w) = subst AllFiled (sym w) h
Step-AllFiled g least c d h (releases k r x i context at u f o a w) =
    applied_filed c d k r at h a.found a.status (ap (λ (x : Core). x.changes) w)
Step-AllFiled g least c d h (bootstraps k r p t at u n a w) =
    applied_filed c d k r at h a.found a.status (ap (λ (x : Core). x.changes) w)
Step-AllFiled g least c d h (rotates r plan p root at u l q a w) =
    applied_filed c d (plan.tenant_id, plan.change_request_id) r at h a.found a.status
      (ap (λ (x : Core). x.changes) w)
