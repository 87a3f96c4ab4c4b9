-- ===== src/Stores/Approvals.antt =====
-- `InMemoryApprovalStore`. The digests of the action and of its target, and the time, are arguments.
use prodkit_control.Prelude.{
  ℕ, ℕ_discrete, Bool, true, false, Option, none, some, List, [], ◌∷◌, ◌++◌, ◌≡◌, ◌∙◌, ap, inl, inr,
  arith, Option-cases, if◌then◌else◌, All,
}
use prodkit_control.Prelude.Dict.{Dict, find, put}
use prodkit_control.Contracts.Actions.{ActionSpec}
use prodkit_control.Contracts.Policy.{PolicyDecision, ApprovalDecision, Binding, authorizes}

abbrev pub Approvals : Type 0
Approvals = Dict ℕ (List ApprovalDecision)

-- `self._approvals.get(action_id, ())`
unfoldable pub recorded : ℕ → Approvals → List ApprovalDecision
recorded action_id s = elim (find ℕ_discrete action_id s) [ none ↦ [] | some l ↦ l ]

unfoldable pub record_decision : ApprovalDecision → Approvals → Approvals
record_decision d s = put ℕ_discrete d.action_id (recorded d.action_id s ++ d ∷ []) s

-- the first of the reversed list that passes, which is the last of the list that does
unfoldable pub last_passing :
    (ApprovalDecision → Bool) → List ApprovalDecision → Option ApprovalDecision
last_passing p [] = none
last_passing p (x ∷ xs) = elim (last_passing p xs) [
  | some y ↦ some y
  | none ↦ if p x then some x else none
]

-- what an approval of the action under the decision is checked against
abbrev pub binding : ActionSpec → ℕ → PolicyDecision → ℕ → Binding
binding action action_digest policy_decision target_digest = record {
  action_digest = action_digest;
  target_digest = target_digest;
  policy_decision_id = policy_decision.decision_id;
  policy_revision = policy_decision.policy_revision;
  tenant_id = action.tenant_id;
  environment = action.target.environment;
}

unfoldable pub find_valid_approval :
    ActionSpec → ℕ → PolicyDecision → ℕ → ℕ → Approvals → Option ApprovalDecision
find_valid_approval action action_digest policy_decision target_digest now s =
    last_passing
      (λ a. authorizes a (binding action action_digest policy_decision target_digest) now)
      (recorded action.action_id s)

module _ (p : ApprovalDecision → Bool) where
  last_passing-none :
      (xs : List ApprovalDecision) → last_passing p xs ≡ none → All (λ x. p x ≡ false) xs
  unfolding last_passing
  last_passing-none [] e = tt
  last_passing-none (x ∷ xs) e = elim (Option-cases (last_passing p xs)) [
    | inl f ↦ (ground arith, last_passing-none xs f)
    | inr (y, f) ↦ absurd (ground arith)
  ]

  -- The one found passes and stands in the list, and none after it passes.
  last_passing-some :
      (xs : List ApprovalDecision) (a : ApprovalDecision)
      → last_passing p xs ≡ some a
      → (before : List ApprovalDecision) × (after : List ApprovalDecision) × (xs
          ≡ before ++ a ∷ after)
        × (p a ≡ true)
        × All (λ x. p x ≡ false) after
  unfolding last_passing
  last_passing-some [] a e = absurd (cc e)
  last_passing-some (x ∷ xs) a e = elim (Option-cases (last_passing p xs)) [
    | inl f ↦
        let passes : p x ≡ true = ground arith in
        let found : x ≡ a = ground arith in
        (
          [],
          xs,
          ap (λ (y : ApprovalDecision). y ∷ xs) found,
          rw found at passes,
          last_passing-none xs f,
        )
    | inr (y, f) ↦
        let found : y ≡ a = ground arith in
        let (before, after, split, passes, none_after) =
          last_passing-some xs a (f ∙ ap some found) in
        (x ∷ before, after, ap (λ (l : List ApprovalDecision). x ∷ l) split, passes, none_after)
  ]

-- The approval that is found authorizes the action under the decision at that time, was recorded for
-- the action, and is the last recorded that authorizes it; where none is found, none recorded for the
-- action authorizes it.
pub authorizes-find_valid_approval :
    (action : ActionSpec) (action_digest : ℕ) (decision : PolicyDecision) (target_digest now : ℕ)
    (s : Approvals)
    → let b = binding action action_digest decision target_digest in
      let found = find_valid_approval action action_digest decision target_digest now s in
      ((a : ApprovalDecision)
        → found ≡ some a
        → (before : List ApprovalDecision) × (after : List ApprovalDecision) × (recorded
              action.action_id s
            ≡ before ++ a ∷ after)
          × (authorizes a b now ≡ true)
          × All (λ x. authorizes x b now ≡ false) after)
      × (found ≡ none → All (λ x. authorizes x b now ≡ false) (recorded action.action_id s))
unfolding find_valid_approval
authorizes-find_valid_approval action action_digest decision target_digest now s =
    let p : ApprovalDecision → Bool =
      λ a. authorizes a (binding action action_digest decision target_digest) now in
    (
      λ a e. last_passing-some p (recorded action.action_id s) a e,
      λ e. last_passing-none p (recorded action.action_id s) e,
    )
