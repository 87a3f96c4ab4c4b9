-- ===== src/Policy/Conjunction.antt =====
-- `combine_policy_semantics` of runtime/policy_semantics.py: what a conjunction keeps of each decision that went into it.
use prodkit_control.Prelude.{
  ◌≤◌, String, string_discrete, Bool, true, false, ◌||◌, Option, some, List, [], ◌∷◌, ◌++◌, ◌≡◌,
  ◌⊎◌, inl, inr, refl, sym, ap, subst, ◌∙◌, arith, same_path, equal_of, All, any, undo_not, text_eq,
  text_eq_refl, Bool-cases, leb,
}
use prodkit_control.Prelude.Sort.{any-sort}
use prodkit_control.Prelude.Int.{ℤ, pos, negsuc}
use prodkit_control.Prelude.Dict.{Dict, find, find-put_cases, find-put_self}
use prodkit_control.Prelude.Result.{ok, value_error}
use prodkit_control.Prelude.Ensures.{ok_injective, err_ok}
use prodkit_control.Contracts.Json.{Json, null, number, text}
use prodkit_control.Contracts.Policy.{PolicyOutcome, allow, deny, require_approval}
use prodkit_control.Policy.{
  PolicySemanticDecision, PolicySemanticResult, rank, stricter, strictest, less, has_text, distinct,
  sorted_set, all_roles, same_scalar, same_number, as_number, Merge, clashes, combined, outcome_of,
  merge_one, merge_items, merge_all, no_merge, is_empty, combine_policy_semantics,
}

stricter_first : (a b : PolicyOutcome) → leb (rank b) (rank a) ≡ true → stricter a b ≡ a
stricter_first a b e = rw (stricter, e) refl

stricter_second : (a b : PolicyOutcome) → leb (rank b) (rank a) ≡ false → stricter a b ≡ b
stricter_second a b e = rw (stricter, e) refl

rank-stricter :
    (a b : PolicyOutcome) → (rank a ≤ rank (stricter a b)) × (rank b ≤ rank (stricter a b))
rank-stricter a b = elim (Bool-cases (leb (rank b) (rank a))) [
  | inl e ↦
      let w : rank (stricter a b) ≡ rank a = ap rank (stricter_first a b e) in
      (omega (arith, w), ground (arith, e, w))
  | inr e ↦
      let w : rank (stricter a b) ≡ rank b = ap rank (stricter_second a b e) in
      (ground (arith, e, w), omega (arith, w))
]

strictest-ge :
    (o : PolicyOutcome) (ds : List PolicySemanticDecision)
    → (rank o ≤ rank (strictest o ds))
      × All (λ (d : PolicySemanticDecision). rank d.outcome ≤ rank (strictest o ds)) ds
unfolding strictest
strictest-ge o [] = (omega arith, tt)
strictest-ge o (d ∷ ds) =
    let (a, b) = strictest-ge (stricter o d.outcome) ds in
    let (u, v) = rank-stricter o d.outcome in (omega (arith, a, u), (omega (arith, a, v), b))

All-weaken :
    {A : Type 0} (F G : A → Type 0) (l : List A) → ((a : A) → F a → G a) → All F l → All G l
All-weaken F G [] w h = tt
All-weaken F G (a ∷ l) w h = (w a h.0, All-weaken F G l w h.1)

-- the texts of a list that stand in another
abbrev Within : List String → List String → Type 0
Within r l = All (λ (s : String). has_text s r ≡ true) l

or_true : (a : Bool) → (a || true) ≡ true
or_true true = refl
or_true false = refl

Within-self : (l : List String) → Within l l
Within-self [] = tt
Within-self (s ∷ l) = (
  rw (text_eq_refl s) refl,
  All-weaken _ _ l (λ t h. ap (λ (b : Bool). text_eq t s || b) h ∙ or_true (text_eq t s))
      (Within-self l),
)

any-append : (p : String → Bool) (xs ys : List String) → any p (xs ++ ys) ≡ (any p xs || any p ys)
any-append p [] ys = refl
any-append p (x ∷ xs) ys = ground (arith, any-append p xs ys)

has_text-distinct :
    (s : String) (l : List String) → has_text s l ≡ true → has_text s (distinct l) ≡ true
unfolding distinct
has_text-distinct s [] h = h
has_text-distinct s (t ∷ l) h = elim (Bool-cases (has_text t l)) [
  | inl e ↦
      rw (distinct, e)
        (has_text-distinct s l (elim (Bool-cases (text_eq s t)) [
          | inl q ↦
              subst (λ (u : String). has_text u l ≡ true) (sym (same_path string_discrete s t q)) e
          | inr q ↦ sym (ap (λ (b : Bool). b || has_text s l) q) ∙ h
        ]))
  | inr e ↦
      rw (distinct, e)
        (elim (Bool-cases (text_eq s t)) [
          | inl q ↦ rw q refl
          | inr q ↦ rw q (has_text-distinct s l (sym (ap (λ (b : Bool). b || has_text s l) q) ∙ h))
        ])
]

Within-sorted_set : (r l : List String) → Within r l → Within (sorted_set r) l
Within-sorted_set r l h =
    All-weaken _ _ l (λ s q. any-sort less (text_eq s) (distinct r) ∙ has_text-distinct s r q) h

-- the roles of each decision are among those of all
roles-Within :
    (ds : List PolicySemanticDecision)
    → All (λ (d : PolicySemanticDecision). Within (all_roles ds) d.required_approval_roles) ds
unfolding all_roles
roles-Within [] = tt
roles-Within (d ∷ ds) = (
  All-weaken _ _ d.required_approval_roles
      (λ s h.
        any-append (text_eq s) d.required_approval_roles (all_roles ds)
        ∙ ap (λ (b : Bool). b || has_text s (all_roles ds)) h)
      (Within-self d.required_approval_roles),
  All-weaken _ _ ds
      (λ q w.
        All-weaken _ _ q.required_approval_roles
          (λ s h.
            any-append (text_eq s) d.required_approval_roles (all_roles ds)
            ∙ ap (λ (b : Bool). has_text s d.required_approval_roles || b) h
            ∙ or_true (has_text s d.required_approval_roles))
          w)
      (roles-Within ds),
)

number_path : (a b : ℤ) → same_number a b ≡ true → a ≡ b
number_path (pos a) (pos b) h = ap pos (equal_of h)
number_path (negsuc a) (negsuc b) h = ap negsuc (equal_of h)
number_path (pos a) (negsuc b) h = absurd (cc h)
number_path (negsuc a) (pos b) h = absurd (cc h)

scalar_path : (a b : Json) → same_scalar a b ≡ true → a ≡ b
scalar_path null null h = refl
scalar_path (number a) (number b) h = ap number (number_path a b h)
scalar_path (text a) (text b) h = ap text (same_path string_discrete a b h)
scalar_path _ _ h = absurd (cc h)

-- a value that Python's `==` does not tell from `v` stands under a key
pub record Demands (m : Dict String Json) (e : String × Json) : Type 0 where
  pub value : Json
  pub found : find string_discrete e.0 m ≡ some value
  pub equal : as_number value ≡ as_number e.1

abbrev Kept : Merge → String × Json → Type 0
Kept m e = Demands m.constraints e ⊎ (is_empty m.conflicts ≡ false)

merge_one-same : (k : String) (v : Json) (m : Merge) → Kept (merge_one k v m) (k, v)
unfolding merge_one
merge_one-same k v m = elim (Bool-cases (clashes (find string_discrete k m.constraints) v)) [
  | inl c ↦ inr (rw (merge_one, c) refl)
  | inr c ↦ inl (
      rw (merge_one, c)
        (record {
          value = v;
          found = find-put_self string_discrete k v m.constraints;
          equal = refl;
        }))
]

unclashed : (w v : Json) → clashes (some w) v ≡ false → as_number w ≡ as_number v
unfolding clashes
unclashed w v c = scalar_path (as_number w) (as_number v) (undo_not _ c)

merge_one-Kept :
    (k : String) (v : Json) (m : Merge) (e : String × Json) → Kept m e → Kept (merge_one k v m) e
unfolding merge_one
merge_one-Kept k v m e h = elim (Bool-cases (clashes (find string_discrete k m.constraints) v)) [
  | inl c ↦ inr (rw (merge_one, c) refl)
  | inr c ↦ elim h [
    | inr x ↦ inr (rw (merge_one, c) x)
    | inl d ↦ inl (
        rw (merge_one, c)
          (elim (find-put_cases string_discrete k e.0 v m.constraints) [
            | inr (n, f) ↦ record { value = d.value; found = f ∙ d.found; equal = d.equal }
            | inl (p, f) ↦
                let at_key : find string_discrete k m.constraints ≡ some d.value =
                  ap (λ (j : String). find string_discrete j m.constraints) (sym p) ∙ d.found in
                record {
                  value = v;
                  found = f;
                  equal =
                      sym (
                        unclashed d.value v
                          (ap (λ (o : Option Json). clashes o v) (sym at_key) ∙ c))
                      ∙ d.equal;
                }
          ]))
  ]
]

merge_items-Kept :
    (l : Dict String Json) (m : Merge) (e : String × Json) → Kept m e → Kept (merge_items l m) e
unfolding merge_items
merge_items-Kept [] m e h = h
merge_items-Kept ((k, v) ∷ l) m e h =
    merge_items-Kept l (merge_one k v m) e (merge_one-Kept k v m e h)

merge_items-same : (l : Dict String Json) (m : Merge) → All (Kept (merge_items l m)) l
unfolding merge_items
merge_items-same [] m = tt
merge_items-same ((k, v) ∷ l) m = (
  merge_items-Kept l (merge_one k v m) (k, v) (merge_one-same k v m),
  merge_items-same l (merge_one k v m),
)

merge_all-Kept :
    (ds : List PolicySemanticDecision) (m : Merge) (e : String × Json)
    → Kept m e
    → Kept (merge_all ds m) e
unfolding merge_all
merge_all-Kept [] m e h = h
merge_all-Kept (d ∷ ds) m e h =
    merge_all-Kept ds (merge_items d.constraints m) e (merge_items-Kept d.constraints m e h)

merge_all-same :
    (ds : List PolicySemanticDecision) (m : Merge)
    → All (λ (d : PolicySemanticDecision). All (Kept (merge_all ds m)) d.constraints) ds
unfolding merge_all
merge_all-same [] m = tt
merge_all-same (d ∷ ds) m = (
  All-weaken _ _ d.constraints (λ e h. merge_all-Kept ds (merge_items d.constraints m) e h)
      (merge_items-same d.constraints m),
  merge_all-same ds (merge_items d.constraints m),
)

-- A result that is not weaker than a decision: its outcome is at least as strict, it asks for every role, and it has
-- every constraint, or denies.
pub record IsConjunct (r : PolicySemanticResult) (d : PolicySemanticDecision) : Type 0 where
  pub outcome : rank d.outcome ≤ rank r.outcome
  pub roles :
      All (λ (s : String). has_text s r.required_approval_roles ≡ true) d.required_approval_roles
  pub constraints :
      All (λ (e : String × Json). Demands r.constraints e ⊎ (r.outcome ≡ deny)) d.constraints

rank_deny : (o : PolicyOutcome) → rank o ≤ 2
rank_deny allow = omega arith
rank_deny require_approval = omega arith
rank_deny deny = omega arith

not_weaker : (b : Bool) (o p : PolicyOutcome) → rank o ≤ rank p → rank o ≤ rank (outcome_of b p)
not_weaker true o p h = h
not_weaker false o p h = rank_deny o

demanded :
    (b : Bool) (o : PolicyOutcome) (m : Dict String Json) (e : String × Json)
    → Demands m e ⊎ (b ≡ false)
    → Demands m e ⊎ (outcome_of b o ≡ deny)
demanded b o m e (inl d) = inl d
demanded b o m e (inr f) = inr (ap (λ (c : Bool). outcome_of c o) f)

-- the conjuncts, put together decision by decision
conjuncts :
    (r : PolicySemanticResult) (ds : List PolicySemanticDecision)
    → All (λ (d : PolicySemanticDecision). rank d.outcome ≤ rank r.outcome) ds
    → All
        (λ (d : PolicySemanticDecision). Within r.required_approval_roles d.required_approval_roles)
        ds
    → All
        (λ (d : PolicySemanticDecision).
          All (λ (e : String × Json). Demands r.constraints e ⊎ (r.outcome ≡ deny)) d.constraints)
        ds
    → All (IsConjunct r) ds
conjuncts r [] o w c = tt
conjuncts r (d ∷ ds) o w c =
    (record { outcome = o.0; roles = w.0; constraints = c.0 }, conjuncts r ds o.1 w.1 c.1)

-- A combination is not weaker than any decision that went into it: its outcome is at least as strict, it asks for
-- every role that the decision asks for, and it has every constraint of the decision, up to Python's `==`,
-- or denies.
pub combine_policy_semantics-IsConjunct :
    (ds : List PolicySemanticDecision) (r : PolicySemanticResult)
    → combine_policy_semantics ds ≡ ok r
    → All (IsConjunct r) ds
unfolding combine_policy_semantics
combine_policy_semantics-IsConjunct [] r e = absurd (err_ok value_error r e)
combine_policy_semantics-IsConjunct (d ∷ ds) r e =
    let m : Merge = merge_all (d ∷ ds) no_merge in
    let (a, b) = strictest-ge d.outcome ds in
    let x : PolicySemanticResult = combined d ds in
    subst (λ (q : PolicySemanticResult). All (IsConjunct q) (d ∷ ds)) (ok_injective x r e)
      (conjuncts x (d ∷ ds)
        (All-weaken _ _ (d ∷ ds)
          (λ q h. not_weaker (is_empty m.conflicts) q.outcome (strictest d.outcome ds) h) (a, b))
        (All-weaken _ _ (d ∷ ds)
          (λ q h. Within-sorted_set (all_roles (d ∷ ds)) q.required_approval_roles h)
          (roles-Within (d ∷ ds)))
        (All-weaken _ _ (d ∷ ds)
          (λ q h.
            All-weaken _ _ q.constraints
              (λ c k. demanded (is_empty m.conflicts) (strictest d.outcome ds) m.constraints c k) h)
          (merge_all-same (d ∷ ds) no_merge)))
