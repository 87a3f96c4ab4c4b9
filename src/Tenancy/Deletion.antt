-- ===== src/Tenancy/Deletion.antt =====
-- The life cycle of a tenant in runtime/tenancy.py: who changes it, and what comes before a deletion.
use prodkit_control.Prelude.{
  ℕ, ◌<◌, ◌≤◌, Option, String, string_discrete, Bool, true, false, none, some, ◌≡◌, ◌≢◌, ◌⊎◌, inl,
  inr, refl, sym, ap, subst, ◌∙◌, ands, arith, some_injective,
}
use prodkit_control.Prelude.Dict.{find, put, find-put_cases}
use prodkit_control.Contracts.Tenancy.{
  TenantAccessContext, TenantCapability, TenantLifecycleRecord, TenantLifecycleStatus, active,
  deletion_scheduled, deleted, deletion_fits, elevation_fits,
}
use prodkit_control.Tenancy.{Environment, Store, empty, new_record, deleted_copy, held_status}
use prodkit_control.Tenancy.Steps.{
  view, IsAllowed, Clocked, Step, configures, issues, revokes, holds, schedules, completes,
  with_record,
}
use prodkit_control.Tenancy.Operations.{run, run-Moves, Reachable, start, after}

-- The status with a hold set or lifted: active for a tenant without a record, or where a hold is set while
-- deletion is scheduled; otherwise as it was.
abbrev pub HeldStatus : Bool → Option TenantLifecycleRecord → TenantLifecycleStatus → Type 0
HeldStatus enabled none x = x ≡ active
HeldStatus enabled (some q) x =
    ((enabled ≡ true) × (q.status ≡ deletion_scheduled) × (x ≡ active))
    ⊎ (((enabled ≡ false) ⊎ (q.status ≢ deletion_scheduled)) × (x ≡ q.status))

-- What may be written as a tenant's life cycle, at a reading of the clock that the environment gives as its answer
-- numbered `least` or later: a hold set or lifted; a deletion planned for later, where no hold stands; or a
-- planned deletion completed, where its time has come and no hold stands.
pub data Written (g : Environment) (least : ℕ) (s : Store) (t : String) (r : TenantLifecycleRecord)
    : Type 0 where
  held :
      (context : TenantAccessContext) (enabled : Bool) (at : ℕ)
      → Clocked g least at
      → context.tenant_id ≡ t
      → IsAllowed s context TenantCapability.legal_hold at
      → (r.tenant_id ≡ t)
        × HeldStatus enabled (find string_discrete t s.lifecycle) r.status
        × (r.legal_hold ≡ enabled)
        × (r.deletion_not_before ≡ none)
        × (r.updated_at ≡ at)
      → Written g least s t r
  planned :
      (context : TenantAccessContext) (not_before at : ℕ)
      → Clocked g least at
      → context.tenant_id ≡ t
      → IsAllowed s context TenantCapability.delete at
      → at < not_before
      → ((q : TenantLifecycleRecord)
          → find string_discrete t s.lifecycle ≡ some q
          → q.legal_hold ≡ false)
      → (r.tenant_id ≡ t)
        × (r.status ≡ deletion_scheduled)
        × (r.legal_hold ≡ false)
        × (r.deletion_not_before ≡ some not_before)
        × (r.updated_at ≡ at)
      → Written g least s t r
  completed :
      (context : TenantAccessContext) (q : TenantLifecycleRecord) (due at : ℕ)
      → Clocked g least at
      → context.tenant_id ≡ t
      → IsAllowed s context TenantCapability.delete at
      → find string_discrete t s.lifecycle ≡ some q
      → q.status ≡ deletion_scheduled
      → q.deletion_not_before ≡ some due
      → due ≤ at
      → q.legal_hold ≡ false
      → (r.tenant_id ≡ q.tenant_id)
        × (r.status ≡ deleted)
        × (r.legal_hold ≡ false)
        × (r.deletion_not_before ≡ none)
        × (r.updated_at ≡ at)
      → Written g least s t r

-- what is found after a write for a tenant
write_cases :
    (c d : Store) (u t : String) (w r : TenantLifecycleRecord)
    → d ≡ with_record c u w
    → find string_discrete t d.lifecycle ≡ some r
    → ((t ≡ u) × (r ≡ w)) ⊎ (find string_discrete t c.lifecycle ≡ some r)
write_cases c d u t w r e f =
    let h : find string_discrete t (put string_discrete u w c.lifecycle) ≡ some r =
      ap (λ (x : Store). find string_discrete t x.lifecycle) (sym e) ∙ f in
    elim (find-put_cases string_discrete u t w c.lifecycle) [
      | inl (p, q) ↦ inl (p, some_injective (sym h ∙ q))
      | inr (n, q) ↦ inr (sym q ∙ h)
    ]

-- the deletion time and the hold fit the status
abbrev pub IsFit : TenantLifecycleRecord → Type 0
IsFit r = deletion_fits r.status r.legal_hold r.deletion_not_before ≡ true

abbrev AllFit : Store → Type 0
AllFit s =
    (t : String) (r : TenantLifecycleRecord) → find string_discrete t s.lifecycle ≡ some r → IsFit r

fit_after :
    (c : Store) (u : String) (w : TenantLifecycleRecord)
    → IsFit w
    → AllFit c
    → AllFit (with_record c u w)
fit_after c u w i h t r f = elim (write_cases c (with_record c u w) u t w r refl f) [
  | inl (p, q) ↦ subst IsFit (sym q) i
  | inr q ↦ h t r q
]

Step-IsFit : (g : Environment) (least : ℕ) (c d : Store) → AllFit c → Step g least c d → AllFit d
Step-IsFit g least c d h (configures p x t w) = subst AllFit (sym w) h
Step-IsFit g least c d h (issues t o b cs r k ttl at i l m n v w) = subst AllFit (sym w) h
Step-IsFit g least c d h (revokes k e at f r w) = subst AllFit (sym w) h
Step-IsFit g least c d h (holds x b at m a v w) =
    let r : TenantLifecycleRecord =
      new_record g.text_of x (held_status b (find string_discrete x.tenant_id c.lifecycle)) b none
        at in
    subst AllFit (sym w) (
      fit_after c x.tenant_id r
        (ands (elevation_fits g.text_of r.updated_by r.elevation_id _) _ v).1 h)
Step-IsFit g least c d h (schedules x t at m a l n w) =
    subst AllFit (sym w) (fit_after c x.tenant_id _ refl h)
Step-IsFit g least c d h (completes x r at m a f e o l w) =
    subst AllFit (sym w)
      (fit_after c x.tenant_id (deleted_copy g.text_of r x at) (ground (arith, l)) h)

-- In every store that operations reach, the life cycle of a tenant has a time of deletion exactly while deletion is
-- scheduled, and a hold stands only while the tenant is active.
pub lifecycle-IsFit :
    (g : Environment) (s : Store)
    → Reachable g s
    → (t : String) (r : TenantLifecycleRecord) → find string_discrete t s.lifecycle ≡ some r
    → IsFit r
unfolding find
lifecycle-IsFit g empty start t r f = absurd (cc f)
lifecycle-IsFit g s (after o q h) t r f = elim (run-Moves g o q) [
  | inl w ↦
      lifecycle-IsFit g q h t r (ap (λ (x : Store). find string_discrete t x.lifecycle) (sym w) ∙ f)
  | inr step ↦ Step-IsFit g q.answers (view q) (view (run g o q)) (lifecycle-IsFit g q h) step t r f
]
