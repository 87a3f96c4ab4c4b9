-- ===== src/Governance/Revisions.antt =====
-- The numbering of a tenant's retention policies and trust roots in runtime/governance.py.
use prodkit_control.Prelude.{
  equal_of, some_injective, ℕ, ◌+◌, String, string_discrete, true, Option, Option-cases, ◌≤◌, none,
  some, List, [], ◌∷◌, ◌++◌, ◌≡◌, ◌⊎◌, inl, inr, refl, sym, ap, subst, ◌∙◌, arith, ands, ◌==◌,
}
use prodkit_control.Prelude.Dict.{Dict, find, put, find-put_cases}
use prodkit_control.Contracts.Work.{is_some}
use prodkit_control.Contracts.Retention.{RetentionPolicy}
use prodkit_control.Contracts.TrustRoots.{
  GovernedTrustRoot, ascends, count_current, validate_history,
}
use prodkit_control.Governance.Store.{Environment, Store, list_at}
use prodkit_control.Governance.Retention.{last_of, policies_of}
use prodkit_control.Governance.Roots.{rotated, roots_of, new_root}
use prodkit_control.Governance.Machine.{
  Core, Step, proposes, decides, adopts, places, releases, bootstraps, rotates, policies_in,
  roots_in, with_policies, with_roots,
}
use prodkit_control.Governance.Operations.{Reachable, Reachable-keeps}

-- the list of a key after a write: the one written, or the one that was there
list_at-put_cases :
    {V : Type 0} (t u : String) (l : List V) (m : Dict String (List V))
    → ((u ≡ t) × (list_at string_discrete u (put string_discrete t l m) ≡ l))
      ⊎ (list_at string_discrete u (put string_discrete t l m) ≡ list_at string_discrete u m)
unfolding list_at
list_at-put_cases t u l m = elim (find-put_cases string_discrete t u l m) [
  | inl (p, e) ↦ inl (p, rw (list_at, e) refl)
  | inr (n, e) ↦ inr (rw (list_at, e) refl)
]

-- revisions `n`, `n + 1`, … of policies of one tenant
abbrev pub IsNumbered : String → ℕ → List RetentionPolicy → Type 0
IsNumbered t n [] = Unit
IsNumbered t n (p ∷ l) = (p.tenant_id ≡ t) × (p.revision ≡ n) × IsNumbered t (n + 1) l

-- the revision after a history that starts at `n`
abbrev next_from : ℕ → Option RetentionPolicy → ℕ
next_from n none = n
next_from n (some p) = p.revision + 1

-- where a history has an entry, its start does not bear on what is next
next_from_later :
    (n m : ℕ) (b : RetentionPolicy) (l : List RetentionPolicy)
    → next_from n (last_of (b ∷ l)) ≡ next_from m (last_of (b ∷ l))
unfolding last_of
next_from_later n m b [] = refl
next_from_later n m b (c ∷ l) = next_from_later n m c l

append-IsNumbered :
    (t : String) (n : ℕ) (l : List RetentionPolicy) (p : RetentionPolicy)
    → IsNumbered t n l
    → p.tenant_id ≡ t
    → p.revision ≡ next_from n (last_of l)
    → IsNumbered t n (l ++ p ∷ [])
unfolding last_of
append-IsNumbered t n [] p h e r = (e, r, tt)
append-IsNumbered t n (a ∷ []) p h e r = (h.0, h.1, (e, r ∙ ap (λ (i : ℕ). i + 1) h.1, tt))
append-IsNumbered t n (a ∷ b ∷ l) p h e r =
    (h.0, h.1, append-IsNumbered t (n + 1) (b ∷ l) p h.2 e (r ∙ next_from_later n (n + 1) b l))

abbrev pub AllNumbered : Core → Type 0
AllNumbered c = (t : String) → IsNumbered t 1 (policies_in c t)

numbered_after :
    (c : Core) (t : String) (l : List RetentionPolicy)
    → IsNumbered t 1 l
    → AllNumbered c
    → AllNumbered (with_policies c t l)
numbered_after c t l i h u = elim (list_at-put_cases t u l c.retention) [
  | inl (p, e) ↦ subst (IsNumbered u 1) (sym e) (subst (λ (x : String). IsNumbered x 1 l) (sym p) i)
  | inr e ↦ subst (IsNumbered u 1) (sym e) (h u)
]

Step-AllNumbered :
    (g : Environment) (least : ℕ) (c d : Core) → AllNumbered c → Step g least c d → AllNumbered d
Step-AllNumbered g least c d h (proposes r e v n l i w) = subst AllNumbered (sym w) h
Step-AllNumbered g least c d h (decides k r x context at u f e i w) = subst AllNumbered (sym w) h
Step-AllNumbered g least c d h (adopts k r p at u t n a w) = subst AllNumbered (sym w) (
    numbered_after c k.0 (policies_in c k.0 ++ p ∷ [])
      (append-IsNumbered k.0 1 (policies_in c k.0) p (h k.0) t n) h)
Step-AllNumbered g least c d h (places x o f w) = subst AllNumbered (sym w) h
Step-AllNumbered g least c d h (releases k r x i context at u f o a w) = subst AllNumbered (sym w) h
Step-AllNumbered g least c d h (bootstraps k r p t at u n a w) = subst AllNumbered (sym w) h
Step-AllNumbered g least c d h (rotates r plan p root at u l q a w) = subst AllNumbered (sym w) h

-- revisions `n`, `n + 1`, … of roots, of which only the last is not retired
unfoldable pub IsChain : ℕ → List GovernedTrustRoot → Type 0
IsChain n [] = Unit
IsChain n (r ∷ []) = (r.revision ≡ n) × (r.retired_at ≡ none)
IsChain n (r ∷ q ∷ l) = (r.revision ≡ n) × (is_some r.retired_at ≡ true) × IsChain (n + 1) (q ∷ l)

rotated-IsChain :
    (n x : ℕ) (l : List GovernedTrustRoot) (root next : GovernedTrustRoot)
    → IsChain n l
    → last_of l ≡ some root
    → next.revision ≡ root.revision + 1
    → next.retired_at ≡ none
    → IsChain n (rotated l x next)
unfolding last_of rotated IsChain
rotated-IsChain n x [] root next h e r t = absurd (cc e)
rotated-IsChain n x (a ∷ []) root next h e r t = (
  h.0,
  refl,
  (
    r
        ∙ ap (λ (i : ℕ). i + 1)
            (sym (ap (λ (q : GovernedTrustRoot). q.revision) (some_injective e)) ∙ h.0),
    t,
  ),
)
rotated-IsChain n x (a ∷ b ∷ []) root next h e r t =
    (h.0, h.1, rotated-IsChain (n + 1) x (b ∷ []) root next h.2 e r t)
rotated-IsChain n x (a ∷ b ∷ b' ∷ l) root next h e r t =
    (h.0, h.1, rotated-IsChain (n + 1) x (b ∷ b' ∷ l) root next h.2 e r t)

IsChain-ascends :
    (least n : ℕ) (l : List GovernedTrustRoot) → least ≤ n → IsChain n l → ascends least l ≡ true
unfolding IsChain ascends
IsChain-ascends least n [] b h = refl
IsChain-ascends least n (a ∷ []) b h = ground arith
IsChain-ascends least n (a ∷ q ∷ l) b h =
    ground (arith, IsChain-ascends (a.revision + 1) (n + 1) (q ∷ l), h)

IsChain-count_current :
    (n : ℕ) (r : GovernedTrustRoot) (l : List GovernedTrustRoot)
    → IsChain n (r ∷ l)
    → count_current (r ∷ l) ≡ 1
unfolding IsChain count_current
IsChain-count_current n a [] h = rw h.1 refl
IsChain-count_current n a (q ∷ l) h = elim (Option-cases a.retired_at) [
  | inl e ↦ absurd (ground (arith, h.1, e))
  | inr (t, e) ↦ rw e (IsChain-count_current (n + 1) q l h.2)
]

abbrev AllChained : Core → Type 0
AllChained c = (t : String) → IsChain 1 (roots_in c t)

chained_after :
    (c : Core) (t : String) (l : List GovernedTrustRoot)
    → IsChain 1 l
    → AllChained c
    → AllChained (with_roots c t l)
chained_after c t l i h u = elim (list_at-put_cases t u l c.trust_roots) [
  | inl (p, e) ↦ subst (IsChain 1) (sym e) i
  | inr e ↦ subst (IsChain 1) (sym e) (h u)
]

Step-AllChained :
    (g : Environment) (least : ℕ) (c d : Core) → AllChained c → Step g least c d → AllChained d
unfolding IsChain
Step-AllChained g least c d h (proposes r e v n l i w) = subst AllChained (sym w) h
Step-AllChained g least c d h (decides k r x context at u f e i w) = subst AllChained (sym w) h
Step-AllChained g least c d h (adopts k r p at u t n a w) = subst AllChained (sym w) h
Step-AllChained g least c d h (places x o f w) = subst AllChained (sym w) h
Step-AllChained g least c d h (releases k r x i context at u f o a w) = subst AllChained (sym w) h
Step-AllChained g least c d h (bootstraps k r p t at u n a w) =
    subst AllChained (sym w)
      (chained_after c k.0 (new_root k.0 1 p (g.trust_root_digest p) t k.1 ∷ []) (refl, refl) h)
Step-AllChained g least c d h (rotates r plan p root at u l q a w) =
    let next : GovernedTrustRoot =
      new_root plan.tenant_id plan.to_revision p (g.trust_root_digest p) plan.activate_at
        plan.change_request_id in
    let to : plan.to_revision ≡ root.revision + 1 =
      equal_of (ands (root.revision == plan.from_revision) _ q).1 in
    subst AllChained (sym w) (
      chained_after c plan.tenant_id (rotated (roots_in c plan.tenant_id) plan.overlap_until next)
        (rotated-IsChain 1 plan.overlap_until (roots_in c plan.tenant_id) root next
          (h plan.tenant_id) l to refl)
        h)

IsChain-validate_history :
    (t : String) (r : GovernedTrustRoot) (l : List GovernedTrustRoot)
    → IsChain 1 (r ∷ l)
    → validate_history (record { tenant_id = t; roots = r ∷ l }) ≡ true
IsChain-validate_history t r l h =
    rw (IsChain-ascends 0 1 (r ∷ l) (omega arith) h, IsChain-count_current 1 r l h) refl

accepted :
    (t : String) (l : List GovernedTrustRoot)
    → IsChain 1 l
    → (l ≡ []) ⊎ (validate_history (record { tenant_id = t; roots = l }) ≡ true)
accepted t [] c = inl refl
accepted t (r ∷ l) c = inr (IsChain-validate_history t r l c)

-- In every store that operations reach, the retention policies of a tenant carry its name and the revisions
-- 1, 2, 3, … in the order in which they were adopted.
pub policies-IsNumbered :
    (g : Environment) (s : Store) → Reachable g s → (t : String) → IsNumbered t 1 (policies_of t s)
unfolding list_at find
policies-IsNumbered g s h = Reachable-keeps g AllNumbered (λ t. tt) (Step-AllNumbered g) h

-- In every store that operations reach, the trust roots of a tenant carry the revisions 1, 2, 3, … in
-- order, with only the last one not retired, and `TrustRootHistory` accepts them if there are any.
pub roots-IsChain :
    (g : Environment) (s : Store)
    → Reachable g s
    → (t : String)
    → IsChain 1 (roots_of t s)
      × ((roots_of t s ≡ [])
          ⊎ (validate_history (record { tenant_id = t; roots = roots_of t s }) ≡ true))
unfolding list_at find IsChain
roots-IsChain g s h t =
    let c : IsChain 1 (roots_of t s) =
      Reachable-keeps g AllChained (λ t. tt) (Step-AllChained g) h t in
    (c, accepted t (roots_of t s) c)
