-- ===== src/Contracts/Retention.antt =====
-- contracts/governance.py: retention policies and legal holds
use prodkit_control.Prelude.{
  ℕ, String, Bool, true, false, not, ◌&&◌, ◌||◌, Option, none, some, List, [], ◌∷◌, leb, text_eq,
  any,
}
use prodkit_control.Prelude.Dict.{Dict}
use prodkit_control.Contracts.Identity.{ActorRef}
use prodkit_control.Contracts.Work.{is_some}

pub data RetentionDisposition : Type 0 where
  retain delete : RetentionDisposition

pub data LegalHoldStatus : Type 0 where
  active released : LegalHoldStatus

unfoldable pub LegalHoldStatus_discrete : Discrete LegalHoldStatus
LegalHoldStatus_discrete = hlevel

unfoldable pub RetentionDisposition_discrete : Discrete RetentionDisposition
RetentionDisposition_discrete = hlevel

abbrev pub has_text : String → List String → Bool
has_text s l = any (text_eq s) l

-- `len(set(texts)) == len(texts)`
unfoldable pub texts_distinct : List String → Bool
texts_distinct [] = true
texts_distinct (s ∷ l) = not (has_text s l) && texts_distinct l

pub record RetentionRule : Type 0 where
  pub resource_type : String
  pub retain_for_seconds : Option ℕ
  pub deletion_grace_seconds : ℕ
  pub deletion_allowed : Bool

-- `validate_rule`
abbrev pub validate_rule : RetentionRule → Bool
validate_rule r = r.deletion_allowed || not (is_some r.retain_for_seconds)

pub record RetentionPolicy : Type 0 where
  pub policy_id : ℕ
  pub tenant_id : String
  pub revision : ℕ
  pub effective_at : ℕ
  pub default_retain_for_seconds : Option ℕ
  pub rules : List RetentionRule
  pub created_at : ℕ
  pub created_by : ActorRef

abbrev pub has_rule_for : String → List RetentionRule → Bool
has_rule_for t rs = any (λ (r : RetentionRule). text_eq r.resource_type t) rs

-- the resource types of the rules are unique
unfoldable pub rules_distinct : List RetentionRule → Bool
rules_distinct [] = true
rules_distinct (r ∷ rs) = not (has_rule_for r.resource_type rs) && rules_distinct rs

-- `validate_policy`
abbrev pub validate_policy : RetentionPolicy → Bool
validate_policy p = rules_distinct p.rules && leb p.created_at p.effective_at

unfoldable pub first_rule : String → List RetentionRule → Option RetentionRule
first_rule t [] = none
first_rule t (r ∷ rs) = elim (text_eq r.resource_type t) [ true ↦ some r | false ↦ first_rule t rs ]

-- `rule_for`
abbrev pub rule_for : RetentionPolicy → String → Option RetentionRule
rule_for p t = first_rule t p.rules

pub record RetentionCandidate : Type 0 where
  pub tenant_id : String
  pub resource_type : String
  pub resource_id : String
  pub created_at : ℕ
  pub content_sha256 : Option ℕ
  pub attributes : Dict String String

pub record RetentionDecision : Type 0 where
  pub tenant_id : String
  pub resource_type : String
  pub resource_id : String
  pub disposition : RetentionDisposition
  pub evaluated_at : ℕ
  pub policy_id : ℕ
  pub policy_revision : ℕ
  pub delete_not_before : Option ℕ
  pub legal_hold_ids : List ℕ
  pub reason : String

abbrev pub disposition_fits : RetentionDisposition → Option ℕ → List ℕ → Bool
disposition_fits retain t l = not (is_some t)
disposition_fits delete t [] = is_some t
disposition_fits delete t (_ ∷ _) = false

-- `validate_decision`
abbrev pub validate_decision : RetentionDecision → Bool
validate_decision d = disposition_fits d.disposition d.delete_not_before d.legal_hold_ids

pub record RetentionExecutionRecord : Type 0 where
  pub execution_id : ℕ
  pub tenant_id : String
  pub resource_type : String
  pub resource_id : String
  pub executed_at : ℕ
  pub executed_by : ActorRef
  pub policy_id : ℕ
  pub policy_revision : ℕ
  pub content_sha256 : Option ℕ
  pub deletion_reference : String

pub record LegalHold : Type 0 where
  pub hold_id : ℕ
  pub tenant_id : String
  pub status : LegalHoldStatus
  pub reason : String
  pub case_reference : String
  pub resource_types : List String
  pub resource_ids : List String
  pub placed_at : ℕ
  pub placed_by : ActorRef
  pub released_at : Option ℕ
  pub released_by : Option ActorRef
  pub release_change_request_id : Option ℕ

abbrev pub at_least : ℕ → Option ℕ → Bool
at_least t none = false
at_least t (some r) = leb t r

abbrev pub release_fits : LegalHoldStatus → LegalHold → Bool
release_fits active h =
    not (is_some h.released_at)
    && (not (is_some h.released_by) && not (is_some h.release_change_request_id))
release_fits released h =
    at_least h.placed_at h.released_at
    && (is_some h.released_by && is_some h.release_change_request_id)

-- `validate_hold`
abbrev pub validate_hold : LegalHold → Bool
validate_hold h =
    texts_distinct h.resource_types && (texts_distinct h.resource_ids && release_fits h.status h)

-- an empty list of names stands for all
abbrev pub covers : List String → String → Bool
covers [] s = true
covers (t ∷ ts) s = has_text s (t ∷ ts)

abbrev pub is_held_open : LegalHoldStatus → Bool
is_held_open active = true
is_held_open released = false

-- `LegalHold.applies_to`
abbrev pub applies_to : LegalHold → RetentionCandidate → Bool
applies_to h c =
    is_held_open h.status
    && (text_eq h.tenant_id c.tenant_id
        && (covers h.resource_types c.resource_type && covers h.resource_ids c.resource_id))
