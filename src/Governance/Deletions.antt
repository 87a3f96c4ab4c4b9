-- ===== src/Governance/Deletions.antt =====
-- What `execute_retention` of runtime/governance.py hands to the deletion adapter.
use prodkit_control.Prelude.{
  ℕ, String, string_discrete, true, false, ◌&&◌, Option, some, List, [], ◌∷◌, ◌++◌, ◌≡◌, ◌⊎◌, inl,
  inr, refl, sym, ap, subst, ◌∙◌, arith, All, All-append, append_assoc, append_nil, text_eq,
  text_eq_refl, Bool-cases, Option-cases, some_injective,
}
use prodkit_control.Prelude.Dict.{Dict, find}
use prodkit_control.Prelude.Result.{ok, Result-cases, authorization_denied}
use prodkit_control.Prelude.Ensures.{ok_injective, err_ok}
use prodkit_control.Contracts.Tenancy.{TenantAccessContext}
use prodkit_control.Contracts.Retention.{
  RetentionPolicy, RetentionCandidate, RetentionDecision, LegalHold, applies_to, is_held_open,
}
use prodkit_control.Governance.Store.{Environment, Store, Key, Key_discrete, append_audit, list_at}
use prodkit_control.Governance.Retention.{
  Adapter, last_of, eligible, open_holds, decision_for, decide_all, decide_under,
  retention_decisions, effective_policy, hand_over, execute_retention,
}
use prodkit_control.Governance.Machine.{Core, core}
use prodkit_control.Governance.Calls.{IgnoresLog}
use prodkit_control.Governance.Execution.{MayHand, execute_retention-Ensures}
use prodkit_control.Governance.Due.{IsDue, All-uncovered}
use prodkit_control.Governance.Decisions.{decision_for-IsDue}

-- A pair that may be deleted in a store: at a reading of the clock the tenant's effective policy lets it go,
-- and no hold that is filed for the tenant applies to it.
pub record IsDeletable (g : Environment) (s : Store) (t : String)
    (e : RetentionCandidate × RetentionDecision) : Type 0 where
  pub at : ℕ
  pub reading : (n : ℕ) × (at ≡ g.clock n)
  pub policy : RetentionPolicy
  pub effective : effective_policy t at s ≡ some policy
  pub decided : decision_for policy (open_holds t s.holds) e.0 at ≡ ok e.1
  pub due : IsDue policy (open_holds t s.holds) e.0 at
  pub unheld :
      (k : Key) (h : LegalHold)
      → find Key_discrete k s.holds ≡ some h
      → k.0 ≡ t
      → applies_to h e.0 ≡ false

-- what no listed hold covers no filed one does: one that is not listed is not active
module _ (t : String) (j : Key) (x : LegalHold) (m : Dict Key LegalHold) where
  open_holds_listed :
      (text_eq j.0 t && is_held_open x.status) ≡ true
      → open_holds t ((j, x) ∷ m) ≡ x ∷ open_holds t m
  unfolding open_holds
  open_holds_listed b = rw (open_holds, b) refl

  open_holds_skipped :
      (text_eq j.0 t && is_held_open x.status) ≡ false → open_holds t ((j, x) ∷ m) ≡ open_holds t m
  unfolding open_holds
  open_holds_skipped b = rw (open_holds, b) refl

  find_head :
      (k : Key) (h : LegalHold)
      → find Key_discrete k ((j, x) ∷ m) ≡ some h
      → ((j ≡ k) × (x ≡ h)) ⊎ (find Key_discrete k m ≡ some h)
  unfolding find
  find_head k h e = elim (Key_discrete j k) [
    | yes q ↦ inl (q, some_injective (ground (arith, e)))
    | no n ↦ inr (ground (arith, e))
  ]

  module _ (c : RetentionCandidate) where
    abbrev IsUnheld : LegalHold → Type 0
    IsUnheld h = applies_to h c ≡ false

    rest_free : All IsUnheld (open_holds t ((j, x) ∷ m)) → All IsUnheld (open_holds t m)
    rest_free a = elim (Bool-cases (text_eq j.0 t && is_held_open x.status)) [
      | inl b ↦ (subst (All IsUnheld) (open_holds_listed b) a).1
      | inr b ↦ subst (All IsUnheld) (open_holds_skipped b) a
    ]

    head_free : All IsUnheld (open_holds t ((j, x) ∷ m)) → j.0 ≡ t → applies_to x c ≡ false
    head_free a p = elim (Bool-cases (is_held_open x.status)) [
      | inr o ↦ rw o refl
      | inl o ↦
          let b : (text_eq j.0 t && is_held_open x.status) ≡ true =
            rw (p, text_eq_refl t, o) refl in
          (subst (All IsUnheld) (open_holds_listed b) a).0
    ]

open_holds-unheld :
    (t : String) (c : RetentionCandidate) (m : Dict Key LegalHold)
    → All (λ (h : LegalHold). applies_to h c ≡ false) (open_holds t m)
    → (k : Key) (h : LegalHold) → find Key_discrete k m ≡ some h
    → k.0 ≡ t
    → applies_to h c ≡ false
unfolding find
open_holds-unheld t c [] a k h e p = absurd (cc e)
open_holds-unheld t c ((j, x) ∷ m) a k h e p = elim (find_head t j x m k h e) [
  | inl (q, same_hold) ↦
      subst (λ (y : LegalHold). applies_to y c ≡ false) same_hold
        (head_free t j x m c a (ap (λ (i : Key). i.0) q ∙ p))
  | inr f ↦ open_holds-unheld t c m (rest_free t j x m c a) k h f p
]

decide_all-each :
    (p : RetentionPolicy) (hs : List LegalHold) (at : ℕ) (cs : List RetentionCandidate)
    (ds : List (RetentionCandidate × RetentionDecision))
    → decide_all p hs at cs ≡ ok ds
    → All (λ (e : RetentionCandidate × RetentionDecision). decision_for p hs e.0 at ≡ ok e.1) ds
unfolding decide_all
decide_all-each p hs at [] ds e = subst (All _) (ok_injective _ ds e) tt
decide_all-each p hs at (c ∷ cs) ds e = elim (Result-cases (decision_for p hs c at)) [
  | inl (x, q) ↦ absurd (err_ok x ds (sym (rw (decide_all, q) refl) ∙ e))
  | inr (d, q) ↦ elim (Result-cases (decide_all p hs at cs)) [
    | inl (x, r) ↦ absurd (err_ok x ds (sym (rw (decide_all, q, r) refl) ∙ e))
    | inr (rest, r) ↦
        let w : decide_all p hs at (c ∷ cs) ≡ ok ((c, d) ∷ rest) = rw (decide_all, q, r) refl in
        subst
          (All (λ (e : RetentionCandidate × RetentionDecision). decision_for p hs e.0 at ≡ ok e.1))
          (ok_injective _ ds (sym w ∙ e)) (q, decide_all-each p hs at cs rest r)
  ]
]

module _ (g : Environment) (s : Store) (t : String) where
  -- the store still decides as `s` does, and what was handed over since may be deleted in `s`
  pub record IsSafe (r : Store) : Type 0 where
    pub view : core r ≡ core s
    pub handed : List (RetentionCandidate × RetentionDecision)
    pub appended : r.deletions ≡ s.deletions ++ handed
    pub deletable : All (IsDeletable g s t) handed

  IsSafe-IgnoresLog : IgnoresLog IsSafe
  unfolding append_audit
  IsSafe-IgnoresLog = record {
    ticks = λ r h. record {
      view = h.view;
      handed = h.handed;
      appended = h.appended;
      deletable = h.deletable;
    };
    logs = λ r e h. record {
      view = h.view;
      handed = h.handed;
      appended = h.appended;
      deletable = h.deletable;
    };
  }

  IsSafe-hand_over :
      (c : RetentionCandidate) (d : RetentionDecision) (r : Store)
      → IsDeletable g s t (c, d)
      → IsSafe r
      → IsSafe (hand_over c d r).1
  unfolding hand_over
  IsSafe-hand_over c d r x h = record {
    view = h.view;
    handed = h.handed ++ (c, d) ∷ [];
    appended =
        ap (λ (l : List (RetentionCandidate × RetentionDecision)). l ++ (c, d) ∷ []) h.appended
        ∙ append_assoc s.deletions h.handed ((c, d) ∷ []);
    deletable = All-append (IsDeletable g s t) h.handed ((c, d) ∷ []) h.deletable (x, tt);
  }

  -- a decision of the effective policy hands over only what may be deleted
  module _ (at : ℕ) (reading : (n : ℕ) × (at ≡ g.clock n)) (p : RetentionPolicy)
      (effective : effective_policy t at s ≡ some p) where
    hands :
        (ds : List (RetentionCandidate × RetentionDecision))
        → All
            (λ (e : RetentionCandidate × RetentionDecision).
              decision_for p (open_holds t s.holds) e.0 at ≡ ok e.1)
            ds
        → All (MayHand IsSafe) ds
    hands [] a = tt
    hands ((c, d) ∷ ds) a = (
      (λ e r h.
          let due : IsDue p (open_holds t s.holds) c at =
            (decision_for-IsDue p (open_holds t s.holds) c at).0 (d, a.0, e) in
          IsSafe-hand_over c d r
            (record {
              at = at;
              reading = reading;
              policy = p;
              effective = effective;
              decided = a.0;
              due = due;
              unheld =
                  open_holds-unheld t c s.holds (All-uncovered c (open_holds t s.holds) due.unheld);
            })
            h),
      hands ds a.1,
    )

  decisions-hand :
      (cs : List RetentionCandidate) (at : ℕ)
      → ((n : ℕ) × (at ≡ g.clock n))
      → (r : Store) (ds : List (RetentionCandidate × RetentionDecision)) → IsSafe r
      → retention_decisions t cs at r ≡ ok ds
      → All (MayHand IsSafe) ds
  unfolding retention_decisions decide_under effective_policy
  decisions-hand cs at reading r ds h e =
      let policies : effective_policy t at r ≡ effective_policy t at s =
        ap (λ (c : Core). last_of (eligible at (list_at string_discrete t c.retention))) h.view in
      let holds : r.holds ≡ s.holds = ap (λ (c : Core). c.holds) h.view in
      elim (Option-cases (effective_policy t at s)) [
        | inl n ↦
            absurd (
              err_ok authorization_denied ds (sym (rw (retention_decisions, policies, n) refl) ∙ e))
        | inr (p, n) ↦
            let w : retention_decisions t cs at r ≡ decide_all p (open_holds t s.holds) at cs =
              rw (retention_decisions, policies, n, holds) refl in
            hands at reading p n ds (decide_all-each p (open_holds t s.holds) at cs ds (sym w ∙ e))
      ]

-- Whatever `execute_retention` hands to the deletion adapter, also in a run that an adapter's failure ends, is
-- deletable in the store it started from: a clock reading decides, the tenant's effective policy
-- lets the candidate go, and no legal hold that is filed for the tenant applies to it.
pub execute_retention-IsSafe :
    (g : Environment) (context : TenantAccessContext) (candidates : List RetentionCandidate)
    (adapter : Adapter) (at : Option ℕ) (s : Store)
    → IsSafe g s context.tenant_id (execute_retention g context candidates adapter at s).1
execute_retention-IsSafe g context candidates adapter at s =
    (execute_retention-Ensures g (IsSafe g s context.tenant_id)
        (IsSafe-IgnoresLog g s context.tenant_id) context candidates adapter at
        (decisions-hand g s context.tenant_id candidates)).kept
      s
      (record { view = refl; handed = []; appended = sym (append_nil s.deletions); deletable = tt })
