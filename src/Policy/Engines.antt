-- ===== src/Policy/Engines.antt =====
-- `ConjunctivePolicyEngine` of runtime/policy.py: what it decides, of what its engines answered.
use prodkit_control.Prelude.{
  ℕ, ◌+◌, ◌==◌, ◌≤◌, String, string_discrete, same_path, equal_of, ands, subst, true, Option, none,
  some, List, [], ◌∷◌, ◌≡◌, refl, sym, ap, ◌∙◌, arith, All, map, undo_not, inl, inr,
}
use prodkit_control.Prelude.Result.{Result, ok, err, Result-cases, pure}
use prodkit_control.Prelude.Ensures.{
  Any, Ensures, >>=-Ensures, pure-Ensures, raise_if-Ensures, ok_injective, err_ok, >>=_err, >>=_ok,
}
use prodkit_control.Contracts.Actions.{ActionSpec}
use prodkit_control.Contracts.Policy.{PolicyDecision}
use prodkit_control.Policy.{
  Engine, Environment, PolicySemanticResult, semantic, all_bound, is_bound, ask, collect,
  combine_policy_semantics, given, conclude, evaluate, earliest, earlier,
}
use prodkit_control.Policy.Conjunction.{IsConjunct, combine_policy_semantics-IsConjunct}

-- what a decision says, as the result of a combination
abbrev pub result_of : PolicyDecision → PolicySemanticResult
result_of p = record {
  outcome = p.outcome;
  reason_codes = p.reason_codes;
  required_approval_roles = p.required_approval_roles;
  constraints = p.constraints;
}

-- expires no later than another, if that one does
abbrev pub IsSooner : Option ℕ → Option ℕ → Type 0
IsSooner t none = Unit {0}
IsSooner none (some b) = ⊥
IsSooner (some a) (some b) = a ≤ b

IsSooner-refl : (t : Option ℕ) → IsSooner t t
IsSooner-refl none = tt
IsSooner-refl (some a) = omega arith

earlier-first : (s t : Option ℕ) → IsSooner (earlier s t) s
earlier-first none t = tt
earlier-first (some a) none = omega arith
earlier-first (some a) (some b) = ground arith

earlier-second : (s t u : Option ℕ) → IsSooner t u → IsSooner (earlier s t) u
earlier-second s t none h = tt
earlier-second s none (some c) h = absurd h
earlier-second none (some b) (some c) h = h
earlier-second (some a) (some b) (some c) h = ground (arith, h)

-- The engines' decisions, in their order: every engine was asked about the action, and has answered. The
-- environment's answers are numbered from `n`.
abbrev pub Answers : List Engine → ActionSpec → ℕ → List PolicyDecision → Type 0
Answers [] action n [] = Unit {0}
Answers [] action n (d ∷ ds) = ⊥
Answers (e ∷ es) action n [] = ⊥
Answers (e ∷ es) action n (d ∷ ds) = (e action n ≡ ok d) × Answers es action (n + 1) ds

-- a decision that names the action, its digest and its tenant
abbrev pub IsAbout : Environment → ActionSpec → PolicyDecision → Type 0
IsAbout g action d =
    (d.action_id ≡ action.action_id)
    × (d.action_digest ≡ g.action_digest action)
    × (d.tenant_id ≡ action.tenant_id)

-- A decision that follows from those of the engines: each of them is about the action, none is stricter, and none
-- expires earlier.
pub record IsConclusion (g : Environment) (action : ActionSpec) (ds : List PolicyDecision)
    (p : PolicyDecision) : Type 0 where
  pub bound : All (IsAbout g action) ds
  pub conjunct : All (IsConjunct (result_of p)) (map semantic ds)
  pub sooner : All (λ (d : PolicyDecision). IsSooner p.expires_at d.expires_at) ds
  pub action_digest : p.action_digest ≡ g.action_digest action

earliest-IsSooner :
    (ds : List PolicyDecision) (t : Option ℕ)
    → ((u : Option ℕ) → IsSooner (earliest ds) u → IsSooner t u)
    → All (λ (d : PolicyDecision). IsSooner t d.expires_at) ds
unfolding earliest
earliest-IsSooner [] t w = tt
earliest-IsSooner (d ∷ ds) t w = (
  w d.expires_at (earlier-first d.expires_at (earliest ds)),
  earliest-IsSooner ds t (λ u h. w u (earlier-second d.expires_at (earliest ds) u h)),
)

abbrev Answered : Type 0
Answered = Result (List PolicyDecision) × ℕ

all_bound-IsAbout :
    (g : Environment) (action : ActionSpec) (ds : List PolicyDecision)
    → all_bound g action ds ≡ true
    → All (IsAbout g action) ds
unfolding all_bound
all_bound-IsAbout g action [] h = tt
all_bound-IsAbout g action (d ∷ ds) h =
    let (a, b) = ands (is_bound g action d) _ h in
    let (i, r) = ands (d.action_id == action.action_id) _ a in
    let (x, t) = ands (d.action_digest == g.action_digest action) _ r in
    (
      (equal_of i, equal_of x, same_path string_discrete d.tenant_id action.tenant_id t),
      all_bound-IsAbout g action ds b,
    )

collect-Answers :
    (engines : List Engine) (action : ActionSpec) (n : ℕ) (ds : List PolicyDecision)
    → (collect engines action n).0 ≡ ok ds
    → Answers engines action n ds
unfolding collect pure ask
collect-Answers [] action n [] e = tt
collect-Answers [] action n (d ∷ ds) e = absurd (cc (ok_injective [] (d ∷ ds) e))
collect-Answers (f ∷ es) action n ds e = elim (Result-cases (f action n)) [
  | inl (x, q) ↦
      absurd (err_ok x ds (sym (ap (λ (r : Answered). r.0) (>>=_err (ask (f action)) _ n x q)) ∙ e))
  | inr (d, q) ↦ elim (Result-cases (collect es action (n + 1)).0) [
    | inl (x, r) ↦ absurd (
        err_ok x ds (
          sym (
            ap (λ (r : Answered). r.0)
              (>>=_ok (ask (f action)) _ n d q ∙ >>=_err (collect es action) _ (n + 1) x r))
          ∙ e))
    | inr (rest, r) ↦
        let w : d ∷ rest ≡ ds = ok_injective (d ∷ rest) ds (
          sym (
            ap (λ (r : Answered). r.0)
              (>>=_ok (ask (f action)) _ n d q ∙ >>=_ok (collect es action) _ (n + 1) rest r))
          ∙ e) in
        subst (Answers (f ∷ es) action n) w (q, collect-Answers es action (n + 1) rest r)
  ]
]

abbrev Always : ℕ → Type 0
Always n = Unit {0}

conclude-Ensures :
    (g : Environment) (revision : String) (action : ActionSpec) (ds : List PolicyDecision)
    → Ensures Always (IsConclusion g action ds) (conclude g revision action ds)
unfolding conclude given
conclude-Ensures g revision action ds =
    >>=-Ensures _ _ Always _ _ (raise_if-Ensures Always _ _) (λ _ b.
      >>=-Ensures _ _ Always (λ r. combine_policy_semantics (map semantic ds) ≡ ok r) _
        (record { kept = λ s p. tt; gives = λ s r p e. e })
        (λ r e.
          >>=-Ensures _ _ Always Any _ (record { kept = λ s p. tt; gives = λ s a p e. tt })
            (λ at _. pure-Ensures Always _ _ (record {
              bound = all_bound-IsAbout g action ds (undo_not _ b);
              conjunct = combine_policy_semantics-IsConjunct (map semantic ds) r e;
              sooner = earliest-IsSooner ds (earliest ds) (λ u h. h);
              action_digest = refl;
            }))))

-- Where the conjunctive engine returns a decision, every engine was asked, none raised, and each has answered with
-- a decision about exactly this action; the decision returned is not weaker than any of them in outcome, roles and constraints, expires no
-- later than any that expires, and is itself about this action.
pub evaluate-IsConclusion :
    (g : Environment) (engines : List Engine) (revision : String) (action : ActionSpec) (n : ℕ)
    (p : PolicyDecision)
    → (evaluate g engines revision action n).0 ≡ ok p
    → (ds : List PolicyDecision) × Answers engines action n ds × IsConclusion g action ds p
unfolding evaluate
evaluate-IsConclusion g engines revision action n p e =
    elim (Result-cases (collect engines action n).0) [
      | inl (x, q) ↦
          let w : (evaluate g engines revision action n).0 ≡ err x =
            ap (λ (r : Result PolicyDecision × ℕ). r.0)
              (>>=_err (collect engines action) (conclude g revision action) n x q) in
          absurd (err_ok x p (sym w ∙ e))
      | inr (ds, q) ↦
          let w : (evaluate g engines revision action n).0
              ≡ (conclude g revision action ds (collect engines action n).1).0 =
            ap (λ (r : Result PolicyDecision × ℕ). r.0)
              (>>=_ok (collect engines action) (conclude g revision action) n ds q) in
          (
            ds,
            collect-Answers engines action n ds q,
            (conclude-Ensures g revision action ds).gives (collect engines action n).1 p tt
                (sym w ∙ e),
          )
    ]
