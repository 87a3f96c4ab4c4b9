-- ===== src/Policy.antt =====
-- packages/python/prodkit-control-runtime/src/prodkit_control_runtime/policy_semantics.py and policy.py: the default
-- policy, and the conjunction of several. The values of constraints are scalars; floats are not modelled.
use prodkit_control.Prelude.{
  ℕ, ◌+◌, ◌*◌, String, Bool, true, false, not, ◌&&◌, ◌||◌, Option, none, some, List, [], ◌∷◌, ◌++◌,
  ◌==◌, text_eq, string_discrete, leb, any, map,
}
use Prim.Native.String.{compare, ◌++◌ as ◌+++◌}
use package.text.Mathlib.Text.{is_lt}
use prodkit_control.Prelude.Sort.{sort}
use prodkit_control.Prelude.Int.{ℤ, pos, negsuc}
use prodkit_control.Prelude.Dict.{Dict, find, put}
use prodkit_control.Prelude.Result.{
  Result, ok, err, Call, ◌>>=◌, ◌>>◌, pure, raise_if, value_error, integrity_violation,
}
use prodkit_control.Contracts.Json.{Json, null, boolean, number, text}
use prodkit_control.Contracts.Actions.{
  ActionSpec, EffectClass, read, write, destructive, privileged, RiskClass, low, medium, high,
  critical,
}
use prodkit_control.Contracts.Policy.{PolicyDecision, PolicyOutcome, allow, deny, require_approval}
pub mod Conjunction
pub mod Engines
mod Tests

pub record PolicySemanticDecision : Type 0 where
  pub engine : String
  pub outcome : PolicyOutcome
  pub reason_codes : List String
  pub required_approval_roles : List String
  pub constraints : Dict String Json

pub record PolicySemanticResult : Type 0 where
  pub outcome : PolicyOutcome
  pub reason_codes : List String
  pub required_approval_roles : List String
  pub constraints : Dict String Json

abbrev pub is_side_effect : EffectClass → Bool
is_side_effect read = false
is_side_effect write = true
is_side_effect destructive = true
is_side_effect privileged = true

abbrev pub is_risky : RiskClass → Bool
is_risky low = false
is_risky medium = false
is_risky high = true
is_risky critical = true

abbrev pub is_forbidden : EffectClass → RiskClass → Bool
is_forbidden privileged critical = true
is_forbidden _ _ = false

abbrev pub result_of : PolicyOutcome → String → List String → PolicySemanticResult
result_of outcome reason roles = record {
  outcome = outcome;
  reason_codes = reason ∷ [];
  required_approval_roles = roles;
  constraints = [];
}

unfoldable pub evaluate_default_policy_semantics : EffectClass → RiskClass → PolicySemanticResult
evaluate_default_policy_semantics effect risk = elim (is_forbidden effect risk) [
  | true ↦ result_of deny "critical_privileged_action_denied_by_default" []
  | false ↦ elim (is_side_effect effect || is_risky risk) [
    | true ↦
        result_of require_approval "side_effect_requires_exact_approval"
          ("production_approver" ∷ [])
    | false ↦ result_of allow "low_risk_action_allowed" []
  ]
]

abbrev pub rank : PolicyOutcome → ℕ
rank allow = 0
rank require_approval = 1
rank deny = 2

abbrev pub stricter : PolicyOutcome → PolicyOutcome → PolicyOutcome
stricter a b = elim (leb (rank b) (rank a)) [ true ↦ a | false ↦ b ]

-- `max(outcomes, key=rank)`, of at least one
unfoldable pub strictest : PolicyOutcome → List PolicySemanticDecision → PolicyOutcome
strictest o [] = o
strictest o (d ∷ ds) = strictest (stricter o d.outcome) ds

abbrev pub less : String → String → Bool
less a b = is_lt (compare a b)

abbrev pub has_text : String → List String → Bool
has_text s l = any (text_eq s) l

-- a set's members, each once
unfoldable pub distinct : List String → List String
distinct [] = []
distinct (s ∷ l) = let rest = distinct l in elim (has_text s l) [ true ↦ rest | false ↦ s ∷ rest ]

-- `sorted(set)`
abbrev pub sorted_set : List String → List String
sorted_set l = sort less (distinct l)

unfoldable pub all_roles : List PolicySemanticDecision → List String
all_roles [] = []
all_roles (d ∷ ds) = d.required_approval_roles ++ all_roles ds

unfoldable pub all_reasons : List PolicySemanticDecision → List String
all_reasons [] = []
all_reasons (d ∷ ds) =
    map (λ (r : String). d.engine +++ (":" +++ r)) d.reason_codes ++ all_reasons ds

-- Python's `==` of two scalars: True is 1 and False is 0
abbrev pub as_number : Json → Json
as_number (boolean true) = number (pos 1)
as_number (boolean false) = number (pos 0)
as_number v = v

abbrev pub same_number : ℤ → ℤ → Bool
same_number (pos a) (pos b) = a == b
same_number (negsuc a) (negsuc b) = a == b
same_number _ _ = false

abbrev pub same_scalar : Json → Json → Bool
same_scalar null null = true
same_scalar (number a) (number b) = same_number a b
same_scalar (text a) (text b) = text_eq a b
same_scalar _ _ = false

abbrev pub same_value : Json → Json → Bool
same_value a b = same_scalar (as_number a) (as_number b)

-- the constraints so far, and the keys in conflict
pub record Merge : Type 0 where
  pub constraints : Dict String Json
  pub conflicts : List String

-- whether a dict has another value under a key
unfoldable pub clashes : Option Json → Json → Bool
clashes none v = false
clashes (some w) v = not (same_value w v)

unfoldable pub merge_one : String → Json → Merge → Merge
merge_one k v m = elim (clashes (find string_discrete k m.constraints) v) [
  | true ↦ record m { conflicts = k ∷ m.conflicts }
  | false ↦ record m { constraints = put string_discrete k v m.constraints }
]

unfoldable pub merge_items : Dict String Json → Merge → Merge
merge_items [] m = m
merge_items ((k, v) ∷ l) m = merge_items l (merge_one k v m)

unfoldable pub merge_all : List PolicySemanticDecision → Merge → Merge
merge_all [] m = m
merge_all (d ∷ ds) m = merge_all ds (merge_items d.constraints m)

abbrev pub no_merge : Merge
no_merge = record { constraints = []; conflicts = [] }

abbrev pub is_empty : List String → Bool
is_empty [] = true
is_empty (_ ∷ _) = false

abbrev pub reasons_or : List String → List String
reasons_or [] = "all_policy_engines_returned_no_reason" ∷ []
reasons_or (r ∷ rs) = r ∷ rs

-- a conflict denies
abbrev pub outcome_of : Bool → PolicyOutcome → PolicyOutcome
outcome_of true o = o
outcome_of false o = deny

-- the result for at least one decision
abbrev pub combined : PolicySemanticDecision → List PolicySemanticDecision → PolicySemanticResult
combined d ds =
    let m : Merge = merge_all (d ∷ ds) no_merge in
    record {
      outcome = outcome_of (is_empty m.conflicts) (strictest d.outcome ds);
      reason_codes = reasons_or (
          all_reasons (d ∷ ds)
          ++ map (λ (k : String). "constraint_conflict:" +++ k) (sorted_set m.conflicts));
      required_approval_roles = sorted_set (all_roles (d ∷ ds));
      constraints = m.constraints;
    }

unfoldable pub combine_policy_semantics : List PolicySemanticDecision → Result PolicySemanticResult
combine_policy_semantics [] = err value_error
combine_policy_semantics (d ∷ ds) = ok (combined d ds)

-- `PolicyEngine.evaluate`, with the count of the answers before it
abbrev pub Engine : Type 0
Engine = ActionSpec → ℕ → Result PolicyDecision

-- The clock, the digest of an action, the fingerprint of the decisions, and `uuid5` of both under a revision.
pub record Environment : Type 0 where
  pub clock : ℕ → ℕ
  pub action_digest : ActionSpec → ℕ
  pub fingerprint : List PolicyDecision → ℕ
  pub default_id : String → ℕ → ℕ
  pub conjunctive_id : String → ℕ → ℕ → ℕ

-- the state of an evaluation is the number of the answers given
unfoldable pub ask : {A : Type 0} → (ℕ → Result A) → Call ℕ A
ask f n = (f n, n + 1)

unfoldable pub given : {A : Type 0} → Result A → Call ℕ A
given r n = (r, n)

unfoldable pub collect : List Engine → ActionSpec → Call ℕ (List PolicyDecision)
collect [] action = pure []
collect (e ∷ es) action = ask (e action) >>= λ d. collect es action >>= λ ds. pure (d ∷ ds)

abbrev pub is_bound : Environment → ActionSpec → PolicyDecision → Bool
is_bound g action d =
    d.action_id == action.action_id
    && (d.action_digest == g.action_digest action && text_eq d.tenant_id action.tenant_id)

unfoldable pub all_bound : Environment → ActionSpec → List PolicyDecision → Bool
all_bound g action [] = true
all_bound g action (d ∷ ds) = is_bound g action d && all_bound g action ds

abbrev pub semantic : PolicyDecision → PolicySemanticDecision
semantic d = record {
  engine = d.policy_engine;
  outcome = d.outcome;
  reason_codes = d.reason_codes;
  required_approval_roles = d.required_approval_roles;
  constraints = d.constraints;
}

abbrev pub earlier : Option ℕ → Option ℕ → Option ℕ
earlier none t = t
earlier (some s) none = some s
earlier (some s) (some t) = some (elim (leb s t) [ true ↦ s | false ↦ t ])

-- `min(expiries) if expiries else None`
unfoldable pub earliest : List PolicyDecision → Option ℕ
earliest [] = none
earliest (d ∷ ds) = earlier d.expires_at (earliest ds)

abbrev pub decision_of :
    Environment
    → ActionSpec
    → PolicySemanticResult
    → ℕ
    → String
    → String
    → String
    → ℕ
    → Option ℕ
    → PolicyDecision
decision_of g action r i engine bundle revision at expires_at = record {
  decision_id = i;
  action_id = action.action_id;
  action_digest = g.action_digest action;
  tenant_id = action.tenant_id;
  policy_engine = engine;
  policy_bundle = bundle;
  policy_revision = revision;
  evaluated_at = at;
  outcome = r.outcome;
  reason_codes = r.reason_codes;
  constraints = r.constraints;
  required_approval_roles = r.required_approval_roles;
  expires_at = expires_at;
  raw_decision_artifact_sha256 = none;
}

-- `DefaultPolicyEngine.evaluate`
unfoldable pub evaluate_default : Environment → String → ActionSpec → Call ℕ PolicyDecision
evaluate_default g revision action = ask (λ n. ok (g.clock n)) >>= λ at. pure (
    decision_of g action (evaluate_default_policy_semantics action.effect_class action.risk_class)
      (g.default_id revision (g.action_digest action)) "prodkit-default" "builtin" revision at
      (some (at + 900 * 1000000)))

-- the part of `ConjunctivePolicyEngine.evaluate` after the engines have answered
unfoldable pub conclude :
    Environment → String → ActionSpec → List PolicyDecision → Call ℕ PolicyDecision
conclude g revision action ds = raise_if (not (all_bound g action ds)) integrity_violation >>= λ _.
    given (combine_policy_semantics (map semantic ds)) >>= λ r. ask (λ n. ok (g.clock n)) >>= λ at.
    pure (
      decision_of g action r (g.conjunctive_id revision (g.action_digest action) (g.fingerprint ds))
        "prodkit-conjunctive" "composed" revision at (earliest ds))

-- `ConjunctivePolicyEngine.evaluate`
unfoldable pub evaluate : Environment → List Engine → String → ActionSpec → Call ℕ PolicyDecision
evaluate g engines revision action = collect engines action >>= conclude g revision action
