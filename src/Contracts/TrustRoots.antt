-- ===== src/Contracts/TrustRoots.antt =====
-- contracts/governance.py: governed trust roots and their rotation, with the policies of
-- contracts/attestations.py. That a public key is the base64 text of 32 bytes is not modelled.
use prodkit_control.Prelude.{
  ℕ, ◌+◌, String, Bool, true, false, ◌&&◌, Option, none, some, List, [], ◌∷◌, leb, ltb, ◌==◌,
  text_eq, any,
}

pub record TrustedSigningKey : Type 0 where
  pub key_id : String
  pub public_key_base64 : String
  pub signer_id : String
  pub valid_from : ℕ
  pub valid_until : Option ℕ
  pub revoked_at : Option ℕ

pub record TrustRootPolicy : Type 0 where
  pub policy_id : String
  pub revision : String
  pub trusted_keys : List TrustedSigningKey
  pub allowed_signers : List String
  pub allow_historical_signatures_before_revocation : Bool

pub record GovernedTrustRoot : Type 0 where
  pub tenant_id : String
  pub revision : ℕ
  pub policy : TrustRootPolicy
  pub policy_sha256 : ℕ
  pub activated_at : ℕ
  pub retired_at : Option ℕ
  pub change_request_id : ℕ

abbrev pub is_before : ℕ → Option ℕ → Bool
is_before t none = true
is_before t (some r) = ltb t r

-- `validate_root`
abbrev pub validate_root : GovernedTrustRoot → Bool
validate_root r = is_before r.activated_at r.retired_at

pub record KeyRotationPlan : Type 0 where
  pub rotation_id : ℕ
  pub tenant_id : String
  pub from_revision : ℕ
  pub to_revision : ℕ
  pub activate_at : ℕ
  pub overlap_until : ℕ
  pub change_request_id : ℕ
  pub emergency : Bool

-- `validate_rotation`
abbrev pub validate_rotation : KeyRotationPlan → Bool
validate_rotation p = ltb p.from_revision p.to_revision && leb p.activate_at p.overlap_until

pub record TrustRootHistory : Type 0 where
  pub tenant_id : String
  pub roots : List GovernedTrustRoot

-- the revisions are above a bound and ascend strictly
unfoldable pub ascends : ℕ → List GovernedTrustRoot → Bool
ascends least [] = true
ascends least (r ∷ rs) = leb least r.revision && ascends (r.revision + 1) rs

unfoldable pub count_current : List GovernedTrustRoot → ℕ
count_current [] = 0
count_current (r ∷ rs) =
    let rest = count_current rs in elim r.retired_at [ none ↦ rest + 1 | some _ ↦ rest ]

abbrev pub has_roots : List GovernedTrustRoot → Bool
has_roots [] = false
has_roots (_ ∷ _) = true

-- `validate_history`
abbrev pub validate_history : TrustRootHistory → Bool
validate_history h = has_roots h.roots && (ascends 0 h.roots && count_current h.roots == 1)

abbrev pub knows_key : Option String → TrustRootPolicy → Bool
knows_key none p = true
knows_key (some k) p = any (λ (key : TrustedSigningKey). text_eq key.key_id k) p.trusted_keys

-- whether a root is in force at a time, for a key if one is named
abbrev pub in_force : ℕ → Option String → GovernedTrustRoot → Bool
in_force at key r = leb r.activated_at at && (is_before at r.retired_at && knows_key key r.policy)

unfoldable pub matching_roots : ℕ → Option String → List GovernedTrustRoot → List GovernedTrustRoot
matching_roots at key [] = []
matching_roots at key (r ∷ rs) =
    let rest = matching_roots at key rs in
    elim (in_force at key r) [ true ↦ r ∷ rest | false ↦ rest ]

abbrev pub only_root : List GovernedTrustRoot → Option TrustRootPolicy
only_root (r ∷ []) = some r.policy
only_root _ = none

-- `policy_for`; `none` is the `ValueError`
abbrev pub policy_for : TrustRootHistory → ℕ → Option String → Option TrustRootPolicy
policy_for h at key = only_root (matching_roots at key h.roots)
