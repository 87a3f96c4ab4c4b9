-- ===== src/Governance/Decisions.antt =====
-- `_decision_for` of runtime/governance.py: the cases in which it decides to delete.
use prodkit_control.Prelude.{
  ℕ, ◌≤◌, String, true, false, Option, none, some, List, [], ◌∷◌, ◌≡◌, ◌⊎◌, ◌↔◌, inl, inr, refl,
  sym, ap, subst, ◌∙◌, arith, All, text_eq, text_eq_refl, same_path, string_discrete,
  some_injective, ltb, Bool-cases, Option-cases,
}
use prodkit_control.Prelude.Result.{ok, err, authorization_denied}
use prodkit_control.Prelude.Ensures.{ok_injective, err_ok}
use prodkit_control.Contracts.Retention.{
  RetentionPolicy, RetentionRule, RetentionCandidate, RetentionDecision, LegalHold, retain, delete,
  applies_to, rule_for, validate_decision,
}
use prodkit_control.Governance.Due.{
  Covers, IsFirst, IsEnd, IsDue, not_applied, All-uncovered, first_rule-cases, NoRule-first_rule,
  IsFirst-first_rule,
}
use prodkit_control.Governance.Retention.{
  may_delete, retain_for, window_end, hold_ids_for, decide_window, decide_rule, decide_holds,
  decision_for, decided,
}

module _ (c : RetentionCandidate) where
  unheld-hold_ids_for :
      (hs : List LegalHold)
      → All (λ (h : LegalHold). applies_to h c ≡ false) hs
      → hold_ids_for c hs ≡ []
  unfolding hold_ids_for
  unheld-hold_ids_for [] a = refl
  unheld-hold_ids_for (h ∷ hs) a = rw (hold_ids_for, a.0) (unheld-hold_ids_for hs a.1)

  hold_ids_for-unheld :
      (hs : List LegalHold)
      → hold_ids_for c hs ≡ []
      → All (λ (h : LegalHold). applies_to h c ≡ false) hs
  unfolding hold_ids_for
  hold_ids_for-unheld [] e = tt
  hold_ids_for-unheld (h ∷ hs) e = elim (Bool-cases (applies_to h c)) [
    | inl a ↦ absurd (ground (arith, a, e))
    | inr a ↦ (a, hold_ids_for-unheld hs (sym (rw (a, hold_ids_for) refl) ∙ e))
  ]

module _ (p : RetentionPolicy) (c : RetentionCandidate) (at : ℕ) (rule : Option RetentionRule) where
  -- the rule and the window let the candidate go
  abbrev IsOpen : ℕ → Type 0
  IsOpen n = (may_delete rule ≡ true) × (retain_for p rule ≡ some n) × (window_end c rule n ≤ at)

  decide_rule_kept :
      may_delete rule ≡ false
      → decide_rule p c at rule
        ≡ decided p c at retain none [] "resource type is configured as non-deletable"
  unfolding decide_rule
  decide_rule_kept a = rw (decide_rule, a) refl

  decide_rule_allowed :
      may_delete rule ≡ true
      → decide_rule p c at rule ≡ decide_window p c at rule (retain_for p rule)
  unfolding decide_rule
  decide_rule_allowed a = rw (decide_rule, a) refl

  decide_window_early :
      (n : ℕ)
      → ltb at (window_end c rule n) ≡ true
      → decide_window p c at rule (some n)
        ≡ decided p c at retain none [] "retention window has not elapsed"
  unfolding decide_window
  decide_window_early n a = rw (decide_window, a) refl

  decide_window_over :
      (n : ℕ)
      → ltb at (window_end c rule n) ≡ false
      → decide_window p c at rule (some n)
        ≡ decided p c at delete
            (some (window_end c rule n))
            []
            "retention and deletion-grace windows elapsed"
  unfolding decide_window
  decide_window_over n a = rw (decide_window, a) refl

  -- The decision keeps the candidate, or it is due and the decision names the end of its window.
  decide_rule-cases :
      ((why : String) × (decide_rule p c at rule ≡ decided p c at retain none [] why))
      ⊎ ((n : ℕ) × IsOpen n
          × (decide_rule p c at rule
              ≡ decided p c at delete
                  (some (window_end c rule n))
                  []
                  "retention and deletion-grace windows elapsed"))
  unfolding decide_window
  decide_rule-cases = elim (Bool-cases (may_delete rule)) [
    | inr a ↦ inl (_, decide_rule_kept a)
    | inl a ↦ elim (Option-cases (retain_for p rule)) [
      | inl k ↦ inl (_, decide_rule_allowed a ∙ ap (decide_window p c at rule) k)
      | inr (n, k) ↦ elim (Bool-cases (ltb at (window_end c rule n))) [
        | inl w ↦
            inl (
              _,
              decide_rule_allowed a ∙ ap (decide_window p c at rule) k ∙ decide_window_early n w,
            )
        | inr w ↦ inr (
          n,
          (a, k, ground (arith, w)),
          decide_rule_allowed a ∙ ap (decide_window p c at rule) k ∙ decide_window_over n w,
        )
      ]
    ]
  ]

  decide_rule-open : (n : ℕ) → IsOpen n → (decide_rule p c at rule).disposition ≡ delete
  decide_rule-open n o =
      ap (λ (d : RetentionDecision). d.disposition)
        (decide_rule_allowed o.0
          ∙ ap (decide_window p c at rule) o.1
          ∙ decide_window_over n (ground (arith, o.2)))

module _ (p : RetentionPolicy) (c : RetentionCandidate) (at : ℕ) where
  -- the rule and the window say when the window ends
  open-IsEnd :
      (o : Option RetentionRule) (n : ℕ)
      → rule_for p c.resource_type ≡ o
      → IsOpen p c at o n
      → IsEnd p c (window_end c o n)
  open-IsEnd none n e w = elim (first_rule-cases c.resource_type p.rules) [
    | inl (f, m) ↦ inl (m, n, w.1, omega arith)
    | inr (r, f, i) ↦ absurd (cc (e, f))
  ]
  open-IsEnd (some r) n e w = elim (first_rule-cases c.resource_type p.rules) [
    | inl (f, m) ↦ absurd (cc (e, f))
    | inr (q, f, i) ↦
        let same_rule : q ≡ r = some_injective (sym f ∙ e) in
        inr (
          r,
          subst (λ (x : RetentionRule). IsFirst x c.resource_type p.rules) same_rule i,
          w.0,
          n,
          w.1,
          refl,
        )
  ]

  IsEnd-IsOpen :
      (t : ℕ) → IsEnd p c t → t ≤ at → (n : ℕ) × IsOpen p c at (rule_for p c.resource_type) n
  IsEnd-IsOpen t (inl (m, n, k, e)) l = (
    n,
    subst (λ (o : Option RetentionRule). IsOpen p c at o n)
        (sym (NoRule-first_rule c.resource_type p.rules m)) (refl, k, omega (arith, e, l)),
  )
  IsEnd-IsOpen t (inr (r, f, a, n, k, e)) l = (
    n,
    subst (λ (o : Option RetentionRule). IsOpen p c at o n)
        (sym (IsFirst-first_rule c.resource_type r p.rules f)) (a, k, omega (arith, e, l)),
  )

  -- what a decision says of the hold ids and of the end of the window
  abbrev pub Names : RetentionDecision → Type 0
  Names d =
      (validate_decision d ≡ true)
      × (d.disposition ≡ retain → d.delete_not_before ≡ none)
      × (d.disposition ≡ delete
          → (d.legal_hold_ids ≡ [])
            × (t : ℕ) × (d.delete_not_before ≡ some t)
            × IsEnd p c t
            × (t ≤ at))

  decide_holds-Names : (ids : List ℕ) → Names (decide_holds p c at ids)
  unfolding decide_holds
  decide_holds-Names [] = elim (decide_rule-cases p c at (rule_for p c.resource_type)) [
    | inl (why, e) ↦ subst Names (sym e) (refl, λ r. refl, λ x. absurd (cc x))
    | inr (n, o, e) ↦ subst Names (sym e) (
      refl,
      λ x. absurd (cc x),
      λ x. (refl, _, refl, open-IsEnd (rule_for p c.resource_type) n refl o, o.2),
    )
  ]
  decide_holds-Names (i ∷ ids) = (refl, λ r. refl, λ x. absurd (cc x))

  decision_for_other :
      (hs : List LegalHold)
      → text_eq c.tenant_id p.tenant_id ≡ false
      → decision_for p hs c at ≡ err authorization_denied
  unfolding decision_for
  decision_for_other hs t = rw (decision_for, t) refl

  decision_for_own :
      (hs : List LegalHold)
      → text_eq c.tenant_id p.tenant_id ≡ true
      → decision_for p hs c at ≡ ok (decide_holds p c at (hold_ids_for c hs))
  unfolding decision_for
  decision_for_own hs t = rw (decision_for, t) refl

  -- A decision is one of `decide_holds`, for the policy's own tenant.
  decision_for-ok :
      (hs : List LegalHold) (d : RetentionDecision)
      → decision_for p hs c at ≡ ok d
      → (text_eq c.tenant_id p.tenant_id ≡ true) × (d ≡ decide_holds p c at (hold_ids_for c hs))
  decision_for-ok hs d e = elim (Bool-cases (text_eq c.tenant_id p.tenant_id)) [
    | inl t ↦ (t, ok_injective _ _ (sym e ∙ decision_for_own hs t))
    | inr t ↦ absurd (err_ok _ d (sym (decision_for_other hs t) ∙ e))
  ]

  decide_holds-delete :
      (ids : List ℕ)
      → (decide_holds p c at ids).disposition ≡ delete
      → (ids ≡ []) × (n : ℕ) × IsOpen p c at (rule_for p c.resource_type) n
  unfolding decide_holds
  decide_holds-delete (i ∷ ids) e = absurd (cc e)
  decide_holds-delete [] e = elim (decide_rule-cases p c at (rule_for p c.resource_type)) [
    | inl (why, q) ↦ absurd (cc e)
    | inr (n, o, q) ↦ (refl, n, o)
  ]

  deleted_to_due :
      (hs : List LegalHold) (d : RetentionDecision)
      → decision_for p hs c at ≡ ok d
      → d.disposition ≡ delete
      → IsDue p hs c at
  deleted_to_due hs d e x =
      let q = decision_for-ok hs d e in
      let (i, n, o) =
        decide_holds-delete (hold_ids_for c hs)
          (ap (λ (d : RetentionDecision). d.disposition) (sym q.1) ∙ x) in
      record {
        tenant = same_path string_discrete c.tenant_id p.tenant_id q.0;
        unheld = none_covers hs (hold_ids_for-unheld c hs i);
        ends = window_end c (rule_for p c.resource_type) n;
        window = open-IsEnd (rule_for p c.resource_type) n refl o;
        elapsed = o.2;
      }
    where
      none_covers :
          (hs : List LegalHold)
          → All (λ (h : LegalHold). applies_to h c ≡ false) hs
          → All (λ (h : LegalHold). ¬ Covers h c) hs
      none_covers [] a = tt
      none_covers (h ∷ hs) a = (not_applied h c a.0, none_covers hs a.1)

  due_to_deleted :
      (hs : List LegalHold)
      → IsDue p hs c at
      → (d : RetentionDecision) × (decision_for p hs c at ≡ ok d) × (d.disposition ≡ delete)
  unfolding decide_holds
  due_to_deleted hs h =
      let own : text_eq c.tenant_id p.tenant_id ≡ true =
        ap (λ (t : String). text_eq t p.tenant_id) h.tenant ∙ text_eq_refl p.tenant_id in
      let (n, o) = IsEnd-IsOpen h.ends h.window h.elapsed in
      (
        decide_rule p c at (rule_for p c.resource_type),
        decision_for_own hs own
            ∙ ap (λ (ids : List ℕ). ok (decide_holds p c at ids))
                (unheld-hold_ids_for c hs (All-uncovered c hs h.unheld)),
        decide_rule-open p c at (rule_for p c.resource_type) n o,
      )

-- A candidate is decided to be deleted exactly if it is of the policy's tenant, no active hold of its tenant
-- covers its type and id, and its window is over: the policy's default time after its creation where no
-- rule is for its type, and otherwise its rule's time and grace, where the rule allows deletion.
pub decision_for-IsDue :
    (p : RetentionPolicy) (hs : List LegalHold) (c : RetentionCandidate) (at : ℕ)
    → ((d : RetentionDecision) × (decision_for p hs c at ≡ ok d) × (d.disposition ≡ delete))
      ↔ IsDue p hs c at
decision_for-IsDue p hs c at = (λ h. deleted_to_due p c at hs h.0 h.1 h.2, due_to_deleted p c at hs)

-- Every decision passes `validate_decision`. One to retain names no time; one to delete names no hold, and the end
-- of the candidate's window, which is not later than the time of the decision.
pub decision_for-validate_decision :
    (p : RetentionPolicy) (hs : List LegalHold) (c : RetentionCandidate) (at : ℕ)
    (d : RetentionDecision)
    → decision_for p hs c at ≡ ok d
    → Names p c at d
decision_for-validate_decision p hs c at d e =
    subst (Names p c at) (sym (decision_for-ok p c at hs d e).1)
      (decide_holds-Names p c at (hold_ids_for c hs))
