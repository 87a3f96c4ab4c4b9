-- ===== src/Governance/Due.antt =====
-- What runtime/governance.py and contracts/retention.py mean by a candidate that is due: legal holds, the rule for a
-- resource type and the end of the retention window, said without the code's helpers.
use prodkit_control.Prelude.{
  ℕ, ◌+◌, ◌*◌, ◌≤◌, String, string_discrete, true, false, none, some, List, [], ◌∷◌, ◌≡◌, ◌≢◌, ◌⊎◌,
  inl, inr, refl, sym, ap, ◌∙◌, All, ands, arith, text_eq, text_eq_refl, same_path, Bool-cases,
}
use prodkit_control.Contracts.Retention.{
  RetentionPolicy, RetentionRule, RetentionCandidate, LegalHold, LegalHoldStatus, has_text, covers,
  applies_to, is_held_open, first_rule,
}

abbrev pub Has : String → List String → Type 0
Has s [] = ⊥
Has s (t ∷ ts) = (s ≡ t) ⊎ Has s ts

-- an active hold of the candidate's tenant, for all resource types or for the candidate's, and likewise for
-- the resource's id
pub record Covers (h : LegalHold) (c : RetentionCandidate) : Type 0 where
  pub open_status : h.status ≡ LegalHoldStatus.active
  pub tenant : h.tenant_id ≡ c.tenant_id
  pub type : (h.resource_types ≡ []) ⊎ Has c.resource_type h.resource_types
  pub id : (h.resource_ids ≡ []) ⊎ Has c.resource_id h.resource_ids

-- no rule is for a resource type
abbrev pub NoRule : String → List RetentionRule → Type 0
NoRule t rs = All (λ (r : RetentionRule). r.resource_type ≢ t) rs

-- the first rule for a resource type
abbrev pub IsFirst : RetentionRule → String → List RetentionRule → Type 0
IsFirst r t [] = ⊥
IsFirst r t (q ∷ rs) = ((q.resource_type ≡ t) × (q ≡ r)) ⊎ ((q.resource_type ≢ t) × IsFirst r t rs)

-- When the window of a candidate ends: after the policy's default where no rule is for its type; after its rule's
-- time and grace where the rule lets it be deleted. A policy or rule without a time has no end.
abbrev pub IsEnd : RetentionPolicy → RetentionCandidate → ℕ → Type 0
IsEnd p c t =
    (NoRule c.resource_type p.rules
      × (n : ℕ) × (p.default_retain_for_seconds ≡ some n)
      × (t ≡ c.created_at + n * 1000000))
    ⊎ ((r : RetentionRule) × IsFirst r c.resource_type p.rules
        × (r.deletion_allowed ≡ true)
        × (n : ℕ) × (r.retain_for_seconds ≡ some n)
        × (t ≡ c.created_at + (n + r.deletion_grace_seconds) * 1000000))

-- A candidate of the policy's tenant that no hold covers and whose window is over.
pub record IsDue (p : RetentionPolicy) (holds : List LegalHold) (c : RetentionCandidate) (at : ℕ)
    : Type 0 where
  pub tenant : c.tenant_id ≡ p.tenant_id
  pub unheld : All (λ (h : LegalHold). ¬ Covers h c) holds
  pub ends : ℕ
  pub window : IsEnd p c ends
  pub elapsed : ends ≤ at

has_text-Has : (s : String) (l : List String) → has_text s l ≡ true → Has s l
has_text-Has s [] h = absurd (cc h)
has_text-Has s (t ∷ l) h = elim (Bool-cases (text_eq s t)) [
  | inl e ↦ inl (same_path string_discrete s t e)
  | inr e ↦ inr (has_text-Has s l (ground (arith, h, e)))
]

Has-has_text : (s : String) (l : List String) → Has s l → has_text s l ≡ true
Has-has_text s [] h = absurd h
Has-has_text s (t ∷ l) (inl e) = rw (e, text_eq_refl t) refl
Has-has_text s (t ∷ l) (inr h) = elim (Bool-cases (text_eq s t)) [
  | inl e ↦ rw e refl
  | inr e ↦ rw e (Has-has_text s l h)
]

covers-Has : (l : List String) (s : String) → covers l s ≡ true → (l ≡ []) ⊎ Has s l
covers-Has [] s h = inl refl
covers-Has (t ∷ l) s h = inr (has_text-Has s (t ∷ l) h)

Has-covers : (l : List String) (s : String) → (l ≡ []) ⊎ Has s l → covers l s ≡ true
Has-covers [] s h = refl
Has-covers (t ∷ l) s (inl e) = absurd (cc e)
Has-covers (t ∷ l) s (inr h) = Has-has_text s (t ∷ l) h

open_active : (s : LegalHoldStatus) → is_held_open s ≡ true → s ≡ LegalHoldStatus.active
open_active LegalHoldStatus.active h = refl
open_active LegalHoldStatus.released h = absurd (cc h)

pub applies_to-Covers :
    (h : LegalHold) (c : RetentionCandidate) → applies_to h c ≡ true → Covers h c
applies_to-Covers h c a =
    let (o, b) = ands (is_held_open h.status) _ a in
    let (t, d) = ands (text_eq h.tenant_id c.tenant_id) _ b in
    let (u, v) = ands (covers h.resource_types c.resource_type) _ d in
    record {
      open_status = open_active h.status o;
      tenant = same_path string_discrete h.tenant_id c.tenant_id t;
      type = covers-Has h.resource_types c.resource_type u;
      id = covers-Has h.resource_ids c.resource_id v;
    }

pub Covers-applies_to :
    (h : LegalHold) (c : RetentionCandidate) → Covers h c → applies_to h c ≡ true
Covers-applies_to h c w =
    rw
      (
        w.open_status,
        w.tenant,
        text_eq_refl c.tenant_id,
        Has-covers h.resource_types c.resource_type w.type,
        Has-covers h.resource_ids c.resource_id w.id,
      )
      refl

-- a hold that does not cover a candidate does not apply to it
pub uncovered : (h : LegalHold) (c : RetentionCandidate) → ¬ Covers h c → applies_to h c ≡ false
uncovered h c n = elim (Bool-cases (applies_to h c)) [
  | inl a ↦ absurd (n (applies_to-Covers h c a))
  | inr a ↦ a
]

pub not_applied : (h : LegalHold) (c : RetentionCandidate) → applies_to h c ≡ false → ¬ Covers h c
not_applied h c a w = absurd (ground (arith, a, Covers-applies_to h c w))

pub All-uncovered :
    (c : RetentionCandidate) (hs : List LegalHold)
    → All (λ (h : LegalHold). ¬ Covers h c) hs
    → All (λ (h : LegalHold). applies_to h c ≡ false) hs
All-uncovered c [] a = tt
All-uncovered c (h ∷ hs) a = (uncovered h c a.0, All-uncovered c hs a.1)

other_type : (s t : String) → text_eq s t ≡ false → s ≢ t
other_type s t e p = absurd (ground (arith, e, ap (λ (u : String). text_eq u t) p ∙ text_eq_refl t))

-- what `rule_for` finds
pub first_rule-cases :
    (t : String) (rs : List RetentionRule)
    → ((first_rule t rs ≡ none) × NoRule t rs)
      ⊎ ((r : RetentionRule) × (first_rule t rs ≡ some r) × IsFirst r t rs)
unfolding first_rule
first_rule-cases t [] = inl (refl, tt)
first_rule-cases t (q ∷ rs) = elim (Bool-cases (text_eq q.resource_type t)) [
  | inl e ↦
      inr (q, rw (first_rule, e) refl, inl (same_path string_discrete q.resource_type t e, refl))
  | inr e ↦ elim (first_rule-cases t rs) [
    | inl (f, n) ↦ inl (rw (first_rule, e) f, (other_type q.resource_type t e, n))
    | inr (r, f, i) ↦ inr (r, rw (first_rule, e) f, inr (other_type q.resource_type t e, i))
  ]
]

not_both :
    (t : String) (r : RetentionRule) (rs : List RetentionRule) → NoRule t rs → ¬ IsFirst r t rs
not_both t r [] n i = absurd i
not_both t r (q ∷ rs) n (inl i) = absurd (n.0 i.0)
not_both t r (q ∷ rs) n (inr i) = not_both t r rs n.1 i.1

same_first :
    (t : String) (r q : RetentionRule) (rs : List RetentionRule)
    → IsFirst r t rs
    → IsFirst q t rs
    → r ≡ q
same_first t r q [] i j = absurd i
same_first t r q (x ∷ rs) (inl i) (inl j) = sym i.1 ∙ j.1
same_first t r q (x ∷ rs) (inl i) (inr j) = absurd (j.0 i.0)
same_first t r q (x ∷ rs) (inr i) (inl j) = absurd (i.0 j.0)
same_first t r q (x ∷ rs) (inr i) (inr j) = same_first t r q rs i.1 j.1

pub NoRule-first_rule :
    (t : String) (rs : List RetentionRule) → NoRule t rs → first_rule t rs ≡ none
NoRule-first_rule t rs n = elim (first_rule-cases t rs) [
  | inl (f, m) ↦ f
  | inr (r, f, i) ↦ absurd (not_both t r rs n i)
]

pub IsFirst-first_rule :
    (t : String) (r : RetentionRule) (rs : List RetentionRule)
    → IsFirst r t rs
    → first_rule t rs ≡ some r
IsFirst-first_rule t r rs i = elim (first_rule-cases t rs) [
  | inl (f, n) ↦ absurd (not_both t r rs n i)
  | inr (q, f, j) ↦ f ∙ ap some (same_first t q r rs j i)
]
