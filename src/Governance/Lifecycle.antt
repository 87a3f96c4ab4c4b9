-- ===== src/Governance/Lifecycle.antt =====
-- The life of a change request in runtime/governance.py: how one operation may change it, and who approved it.
use prodkit_control.Prelude.{
  ℕ, ◌≤◌, true, false, ◌&&◌, Option, none, some, ◌≡◌, ◌⊎◌, inl, inr, refl, sym, ap, subst, ◌∙◌,
  ands, arith, some_injective,
}
use prodkit_control.Prelude.Dict.{find, put, find-put_cases}
use prodkit_control.Contracts.Work.{is_some}
use prodkit_control.Contracts.Tenancy.{TenantAccessContext}
use prodkit_control.Contracts.Identity.{ActorRef}
use prodkit_control.Contracts.Changes.{
  GovernanceChangeRequest, GovernanceApprovalDecision, approve, reject, proposed, approved,
  rejected, applied, same_actor, is_high, approval_fits, application_fits, is_independent,
}
use prodkit_control.Governance.Store.{Environment, Store, Key, Key_discrete}
use prodkit_control.Governance.Proposals.{applied_copy, decided_copy}
use prodkit_control.Governance.Machine.{
  Core, core, Clocked, Step, proposes, decides, adopts, places, releases, bootstraps, rotates,
}
use prodkit_control.Governance.Operations.{Operation, run, run-Moves, Reachable, Reachable-keeps}
use prodkit_control.Governance.Requests.{
  IsFiled, IsFiled-key, AllFiled, Step-AllFiled, fits_in, same_actor_comm,
}

-- In every store that operations reach, each change request stands under its tenant and id and passes
-- `validate_change`.
pub changes-IsFiled :
    (g : Environment) (s : Store)
    → Reachable g s
    → (k : Key) (r : GovernanceChangeRequest) → find Key_discrete k s.changes ≡ some r
    → IsFiled k r
unfolding find
changes-IsFiled g s h = Reachable-keeps g AllFiled (λ k r e. absurd (cc e)) (Step-AllFiled g) h

-- an approver that is not the proposer
abbrev pub IsIndependent : GovernanceChangeRequest → Type 0
IsIndependent r = (a : ActorRef) × (r.approved_by ≡ some a) × (same_actor a r.proposed_by ≡ false)

independent_of :
    (r : GovernanceChangeRequest) (by : Option ActorRef)
    → is_high r.risk ≡ true
    → is_independent r.risk r.proposed_by by ≡ true
    → (a : ActorRef) × (by ≡ some a) × (same_actor a r.proposed_by ≡ false)
independent_of r none h v = absurd (cc v)
independent_of r (some a) h v = (a, refl, ground (arith, h, v))

-- In every store that operations reach, a change request of high or critical risk that is approved or applied has
-- an approver who is not its proposer.
pub approved-IsIndependent :
    (g : Environment) (s : Store)
    → Reachable g s
    → (k : Key) (r : GovernanceChangeRequest) → find Key_discrete k s.changes ≡ some r
    → (r.status ≡ approved) ⊎ (r.status ≡ applied)
    → is_high r.risk ≡ true
    → IsIndependent r
approved-IsIndependent g s h k r f (inl e) high =
    let v : (approval_fits approved r && application_fits approved r.applied_at) ≡ true =
      fits_in r approved e (changes-IsFiled g s h k r f).valid in
    independent_of r r.approved_by high
      (ands (is_some r.approved_at) _
        (ands (approval_fits approved r) (application_fits approved r.applied_at) v).0).1
approved-IsIndependent g s h k r f (inr e) high =
    let v : (approval_fits applied r && application_fits applied r.applied_at) ≡ true =
      fits_in r applied e (changes-IsFiled g s h k r f).valid in
    independent_of r r.approved_by high
      (ands (is_some r.approved_at) _
        (ands (approval_fits applied r) (application_fits applied r.applied_at) v).0).1

-- What a request may be after an operation: as it was; approved or rejected where it was proposed; applied where
-- it was approved; or a new proposal, where its identifier is drawn again, as an answer numbered `least` or
-- later.
pub data Successor (g : Environment) (least : ℕ) (r q : GovernanceChangeRequest) : Type 0 where
  stays : q ≡ r → Successor g least r q
  approves :
      (by : ActorRef) (at : ℕ)
      → Clocked g least at
      → r.status ≡ proposed
      → is_independent r.risk r.proposed_by (some by) ≡ true
      → q ≡ record r { status = approved; approved_at = some at; approved_by = some by }
      → Successor g least r q
  rejects : r.status ≡ proposed → q ≡ record r { status = rejected } → Successor g least r q
  spent :
      (at : ℕ)
      → Clocked g least at
      → r.status ≡ approved
      → q ≡ record r { status = applied; applied_at = some at }
      → Successor g least r q
  reissued :
      (n : ℕ)
      → least ≤ n
      → g.fresh n ≡ r.request_id
      → q.request_id ≡ r.request_id
      → q.status ≡ proposed
      → Successor g least r q

abbrev Succeeds : Environment → ℕ → Core → Core → Type 0
Succeeds g least c d =
    (k : Key) (r : GovernanceChangeRequest)
    → find Key_discrete k c.changes ≡ some r
    → (q : GovernanceChangeRequest) × (find Key_discrete k d.changes ≡ some q)
      × Successor g least r q

-- a write under `j` of what succeeds the request there
write-Succeeds :
    (g : Environment) (least : ℕ) (c d : Core) (j : Key) (w : GovernanceChangeRequest)
    → d.changes ≡ put Key_discrete j w c.changes
    → ((r : GovernanceChangeRequest)
        → find Key_discrete j c.changes ≡ some r
        → Successor g least r w)
    → Succeeds g least c d
write-Succeeds g least c d j w e h k r f = elim (find-put_cases Key_discrete j k w c.changes) [
  | inl (p, x) ↦ (
    w,
    ap (find Key_discrete k) e ∙ x,
    h r (subst (λ (i : Key). find Key_discrete i c.changes ≡ some r) p f),
  )
  | inr (n, x) ↦ (r, ap (find Key_discrete k) e ∙ x ∙ f, stays refl)
]

same-Succeeds :
    (g : Environment) (least : ℕ) (c d : Core) → d.changes ≡ c.changes → Succeeds g least c d
same-Succeeds g least c d e k r f = (r, ap (find Key_discrete k) e ∙ f, stays refl)

-- an approved request is marked as applied
spent-Succeeds :
    (g : Environment) (least : ℕ) (c d : Core) (k : Key) (a : GovernanceChangeRequest) (at : ℕ)
    → Clocked g least at
    → AllFiled c
    → find Key_discrete k c.changes ≡ some a
    → a.status ≡ approved
    → d.changes ≡ put Key_discrete (a.tenant_id, a.request_id) (applied_copy a at) c.changes
    → Succeeds g least c d
spent-Succeeds g least c d k a at u h f s e =
    write-Succeeds g least c d (a.tenant_id, a.request_id) (applied_copy a at) e
      (λ r x.
        let filed : IsFiled k a = h k a f in
        let key : ◌≡◌ {A = Key} (a.tenant_id, a.request_id) k = IsFiled-key filed in
        let same_request : a ≡ r =
          some_injective
            (sym f ∙ subst (λ (i : Key). find Key_discrete i c.changes ≡ some r) key x) in
        subst (λ (y : GovernanceChangeRequest). Successor g least y (applied_copy a at))
          same_request (spent at u s refl))

-- what `approve_change` makes of a proposed request
decided_copy-Successor :
    (g : Environment) (least : ℕ) (d : GovernanceApprovalDecision) (r : GovernanceChangeRequest)
    (context : TenantAccessContext) (at : ℕ)
    → Clocked g least at
    → r.status ≡ proposed
    → (is_high r.risk && same_actor r.proposed_by context.actor) ≡ false
    → Successor g least r (decided_copy d r context at)
decided_copy-Successor g least approve r context at u e i =
    approves context.actor at u e (rw (same_actor_comm context.actor r.proposed_by, i) refl) refl
decided_copy-Successor g least reject r context at u e i = rejects e refl

Step-Succeeds :
    (g : Environment) (least : ℕ) (c d : Core)
    → AllFiled c
    → Step g least c d
    → Succeeds g least c d
Step-Succeeds g least c d h (proposes r e v n l i w) =
    write-Succeeds g least c d (r.tenant_id, r.request_id) r (ap (λ (x : Core). x.changes) w)
      (λ q f.
        let same_id : q.request_id ≡ r.request_id = (h (r.tenant_id, r.request_id) q f).id in
        reissued n l (sym i ∙ sym same_id) (sym same_id) e)
Step-Succeeds g least c d h (decides k r x context at u f e i w) =
    write-Succeeds g least c d k (decided_copy x r context at) (ap (λ (x : Core). x.changes) w)
      (λ q y.
        subst (λ (z : GovernanceChangeRequest). Successor g least z (decided_copy x r context at))
          (some_injective (sym f ∙ y)) (decided_copy-Successor g least x r context at u e i))
Step-Succeeds g least c d h (adopts k r p at u t n a w) =
    spent-Succeeds g least c d k r at u h a.found a.status (ap (λ (x : Core). x.changes) w)
Step-Succeeds g least c d h (places x o f w) =
    same-Succeeds g least c d (ap (λ (x : Core). x.changes) w)
Step-Succeeds g least c d h (releases k r x i context at u f o a w) =
    spent-Succeeds g least c d k r at u h a.found a.status (ap (λ (x : Core). x.changes) w)
Step-Succeeds g least c d h (bootstraps k r p t at u n a w) =
    spent-Succeeds g least c d k r at u h a.found a.status (ap (λ (x : Core). x.changes) w)
Step-Succeeds g least c d h (rotates r plan p root at u l q a w) =
    spent-Succeeds g least c d (plan.tenant_id, plan.change_request_id) r at u h a.found a.status
      (ap (λ (x : Core). x.changes) w)

-- From a store that operations reach, an operation keeps every change request, and changes it only as its
-- life cycle allows: a proposed one is rejected, or approved, with the approver, who is not its proposer if
-- its risk is high or critical, and the time; an approved one is applied, with the time. Nothing else of it
-- changes, and the time is a reading of the clock that the environment gives once the operation has begun.
-- A new proposal takes its place only where the environment gives its identifier again, in an answer later
-- than all given so far.
pub run-Successor :
    (g : Environment) (s : Store) (o : Operation)
    → Reachable g s
    → (k : Key) (r : GovernanceChangeRequest) → find Key_discrete k s.changes ≡ some r
    → (q : GovernanceChangeRequest) × (find Key_discrete k (run g o s).changes ≡ some q)
      × Successor g s.answers r q
run-Successor g s o h = elim (run-Moves g o s) [
  | inl e ↦ same-Succeeds g s.answers (core s) (core (run g o s)) (ap (λ (x : Core). x.changes) e)
  | inr step ↦ Step-Succeeds g s.answers (core s) (core (run g o s)) (changes-IsFiled g s h) step
]
