-- ===== src/Contracts/Transfers.antt =====
-- contracts/governance.py: evidence transfers and schema compatibility, with the verifications of
-- contracts/transfers.py
use prodkit_control.Prelude.{
  ℕ, ◌+◌, String, Bool, true, false, ◌&&◌, ◌||◌, Option, none, some, List, [], ◌∷◌, leb, ltb, ◌==◌,
}
use prodkit_control.Contracts.Identity.{ActorRef}

pub record EvidenceTransferManifest : Type 0 where
  pub transfer_id : ℕ
  pub tenant_id : String
  pub created_at : ℕ
  pub created_by : ActorRef
  pub source_control_version : String
  pub source_schema_version : ℕ
  pub archive_sha256 : ℕ
  pub bundle_manifest_sha256 : ℕ
  pub trust_root_revision : Option ℕ
  pub legal_hold_preserved : Bool

pub record EvidenceTransferVerification : Type 0 where
  pub verification_id : ℕ
  pub transfer_id : ℕ
  pub tenant_id : String
  pub verified_at : ℕ
  pub source_control_version : String
  pub source_schema_version : ℕ
  pub package_sha256 : ℕ
  pub bundle_manifest_sha256 : ℕ
  pub trust_anchor_sha256 : ℕ
  pub verified_offline : Bool

pub record EvidenceImportReceipt : Type 0 where
  pub import_id : ℕ
  pub transfer_id : ℕ
  pub tenant_id : String
  pub imported_at : ℕ
  pub imported_by : ActorRef
  pub source_control_version : String
  pub source_schema_version : ℕ
  pub archive_sha256 : ℕ
  pub verification_id : ℕ
  pub verification_sha256 : ℕ
  pub trust_anchor_sha256 : ℕ
  pub verified : Bool

pub record MigrationPath : Type 0 where
  pub from_schema_version : ℕ
  pub to_schema_version : ℕ
  pub minimum_control_version : String
  pub requires_backup : Bool
  pub reversible : Bool

-- `validate_path`
abbrev pub validate_path : MigrationPath → Bool
validate_path p = p.to_schema_version == p.from_schema_version + 1

pub record CompatibilityPolicy : Type 0 where
  pub current_schema_version : ℕ
  pub minimum_supported_schema_version : ℕ
  pub migration_paths : List MigrationPath

-- The paths start at `v`, each at the end of the one before, and end at `top`.
unfoldable pub enumerates : ℕ → ℕ → List MigrationPath → Bool
enumerates v top [] = leb top v
enumerates v top (p ∷ ps) =
    ltb v top
    && (p.from_schema_version == v && (p.to_schema_version == v + 1 && enumerates (v + 1) top ps))

-- `validate_compatibility`
abbrev pub validate_compatibility : CompatibilityPolicy → Bool
validate_compatibility c =
    leb c.minimum_supported_schema_version c.current_schema_version
    && enumerates c.minimum_supported_schema_version c.current_schema_version c.migration_paths

unfoldable pub paths_from : ℕ → List MigrationPath → List MigrationPath
paths_from v [] = []
paths_from v (p ∷ ps) =
    let rest = paths_from v ps in
    elim (leb v p.from_schema_version) [ true ↦ p ∷ rest | false ↦ rest ]

-- `path_from`; `none` is the `ValueError`
abbrev pub path_from : CompatibilityPolicy → ℕ → Option (List MigrationPath)
path_from c v = elim (ltb v c.minimum_supported_schema_version || ltb c.current_schema_version v) [
  | true ↦ none
  | false ↦ some (paths_from v c.migration_paths)
]
