-- ===== src/Governance/Imports.antt =====
-- Transfers of runtime/governance.py: what an imported bundle was checked against, and the migrations that lie before it.
use prodkit_control.Prelude.{
  ℕ, ◌+◌, ◌≤◌, ◌<◌, string_discrete, Bool, true, false, ◌||◌, ◌⊎◌, some, List, [], ◌∷◌, ◌≡◌, inl,
  inr, refl, sym, subst, ◌∙◌, ands, arith, same_path, undo_not, ◌==◌, equal_of, some_injective, leb,
  ltb, Bool-cases,
}
use prodkit_control.Prelude.Result.{ok}
use prodkit_control.Prelude.Ensures.{
  Any, Ensures, >>=-Ensures, pure-Ensures, raise_if-Ensures, guard-Ensures, weaken-Ensures,
}
use prodkit_control.Prelude.Dict.{find, find-put_cases}
use prodkit_control.Contracts.Work.{is_some}
use prodkit_control.Contracts.Tenancy.{TenantAccessContext}
use prodkit_control.Contracts.Transfers.{
  EvidenceTransferManifest, EvidenceTransferVerification, EvidenceImportReceipt,
  CompatibilityPolicy, MigrationPath, path_from, paths_from, enumerates, validate_compatibility,
}
use prodkit_control.Governance.Store.{Environment, Store, Key, Key_discrete, append_audit}
use prodkit_control.Governance.Calls.{
  IgnoresLog, require-Ensures, now-Ensures, identifier-Ensures, record_event-Ensures,
}
use prodkit_control.Governance.Transfers.{put_import, validate_import, record_verified_import}

-- what `enumerates` says of its first path
enumerates-head :
    (u top : ℕ) (p : MigrationPath) (ps : List MigrationPath)
    → enumerates u top (p ∷ ps) ≡ true
    → (u < top) × (p.from_schema_version ≡ u) × (enumerates (u + 1) top ps ≡ true)
unfolding enumerates
enumerates-head u top p ps e =
    let (a, b) = ands (ltb u top) _ e in
    let (c, d) = ands (p.from_schema_version == u) _ b in
    let (f, h) = ands (p.to_schema_version == u + 1) _ d in (ground (arith, a), equal_of c, h)

-- no path that starts at `v` or later is left out
paths_from-all :
    (v u top : ℕ) (ps : List MigrationPath)
    → enumerates u top ps ≡ true
    → v ≤ u
    → paths_from v ps ≡ ps
unfolding paths_from
paths_from-all v u top [] e a = refl
paths_from-all v u top (p ∷ ps) e a =
    let (l, f, h) = enumerates-head u top p ps e in
    ground (arith, f, paths_from-all v (u + 1) top ps h (omega (arith, a)))

-- at the end of the list the version is the current one
enumerates_end : (u v top : ℕ) → enumerates u top [] ≡ true → u ≤ v → enumerates v top [] ≡ true
unfolding enumerates
enumerates_end u v top e a = ground arith

-- the paths from a version that is on the way are those that remain
paths_from-enumerates :
    (v u top : ℕ) (ps : List MigrationPath)
    → enumerates u top ps ≡ true
    → u ≤ v
    → v ≤ top
    → enumerates v top (paths_from v ps) ≡ true
unfolding paths_from
paths_from-enumerates v u top [] e a b = enumerates_end u v top e a
paths_from-enumerates v u top (p ∷ ps) e a b =
    let (l, f, h) = enumerates-head u top p ps e in
    elim (Bool-cases (ltb u v)) [
      | inl w ↦
          let skip : leb v p.from_schema_version ≡ false = ground (arith, f, w) in
          rw (paths_from, skip) (paths_from-enumerates v (u + 1) top ps h (ground (arith, w)) b)
      | inr w ↦
          let at : u ≡ v = ground (arith, w, a) in
          let all : paths_from v (p ∷ ps) ≡ p ∷ ps =
            paths_from-all v u top (p ∷ ps) e (ground (arith, at)) in
          subst (λ (l : List MigrationPath). enumerates v top l ≡ true) (sym all)
            (subst (λ (n : ℕ). enumerates n top (p ∷ ps) ≡ true) at e)
    ]

-- Where `path_from` returns for a valid compatibility policy, what it returns leads from the given version to the
-- current one, each path one version up from the end of the one before.
pub path_from-enumerates :
    (c : CompatibilityPolicy) (v : ℕ) (ps : List MigrationPath)
    → validate_compatibility c ≡ true
    → path_from c v ≡ some ps
    → enumerates v c.current_schema_version ps ≡ true
path_from-enumerates c v ps h e =
    elim (Bool-cases (ltb v c.minimum_supported_schema_version || ltb c.current_schema_version v)) [
      | inl o ↦ absurd (cc (o, e))
      | inr o ↦
          let w : path_from c v ≡ some (paths_from v c.migration_paths) = rw (path_from, o) refl in
          let (l, m) = ands (leb c.minimum_supported_schema_version c.current_schema_version) _ h in
          subst (λ (l : List MigrationPath). enumerates v c.current_schema_version l ≡ true)
            (some_injective (sym w ∙ e))
            (paths_from-enumerates v c.minimum_supported_schema_version c.current_schema_version
              c.migration_paths m (ground (arith, o)) (ground (arith, o)))
    ]

-- What an import was checked against.
pub record IsVerified (context : TenantAccessContext) (m : EvidenceTransferManifest)
    (v : EvidenceTransferVerification) (archive : ℕ) (compatibility : CompatibilityPolicy)
    : Type 0 where
  pub manifest_tenant : m.tenant_id ≡ context.tenant_id
  pub verification_tenant : v.tenant_id ≡ context.tenant_id
  pub transfer : v.transfer_id ≡ m.transfer_id
  pub manifest_archive : m.archive_sha256 ≡ archive
  pub package_archive : v.package_sha256 ≡ archive
  pub bundle : v.bundle_manifest_sha256 ≡ m.bundle_manifest_sha256
  pub control_version : v.source_control_version ≡ m.source_control_version
  pub schema_version : v.source_schema_version ≡ m.source_schema_version
  pub offline : v.verified_offline ≡ true
  pub supported : is_some (path_from compatibility m.source_schema_version) ≡ true

neither : (a b : Bool) → (a || b) ≡ false → (a ≡ false) × (b ≡ false)
neither true b h = absurd (cc h)
neither false b h = (refl, h)

module _ (context : TenantAccessContext) (m : EvidenceTransferManifest)
    (v : EvidenceTransferVerification) (archive : ℕ) (compatibility : CompatibilityPolicy) where
  -- what the receipt says of the import
  abbrev pub Records : EvidenceImportReceipt → Type 0
  Records r =
      (r.tenant_id ≡ context.tenant_id)
      × (r.transfer_id ≡ m.transfer_id)
      × (r.archive_sha256 ≡ archive)
      × (r.verification_id ≡ v.verification_id)

  abbrev IsSound : Store → Store → Type 0
  IsSound s r =
      (k : Key) (x : EvidenceImportReceipt)
      → find Key_discrete k r.imports ≡ some x
      → (find Key_discrete k s.imports ≡ some x)
        ⊎ (IsVerified context m v archive compatibility × Records x)

  IsSound-IgnoresLog : (s : Store) → IgnoresLog (IsSound s)
  unfolding append_audit
  IsSound-IgnoresLog s = record { ticks = λ r p. p; logs = λ r e p. p }

  IsSound-put_import :
      (s : Store) (k : Key) (x : EvidenceImportReceipt)
      → IsVerified context m v archive compatibility
      → Records x
      → Ensures (IsSound s) Any (put_import k x)
  unfolding put_import
  IsSound-put_import s k x w q = record {
    kept = λ r h j y f. elim (find-put_cases Key_discrete k j x r.imports) [
      | inl (p, e) ↦ inr (w, subst Records (some_injective (sym e ∙ f)) q)
      | inr (n, e) ↦ h j y (sym e ∙ f)
    ];
    gives = λ r a p e. tt;
  }

  -- validation changes nothing
  validate_import-Ensures_of :
      (P : Store → Type 0)
      → Ensures P
          (λ _. IsVerified context m v archive compatibility)
          (validate_import context m v archive compatibility)
  unfolding validate_import
  validate_import-Ensures_of P =
      weaken-Ensures P _ _ _
        (guard-Ensures P _ _ _ _ (
          guard-Ensures P _ _ _ _ (
            guard-Ensures P _ _ _ _ (
              guard-Ensures P _ _ _ _ (
                guard-Ensures P _ _ _ _
                  (guard-Ensures P _ _ _ _ (guard-Ensures P _ _ _ _ (raise_if-Ensures P _ _))))))))
        (λ _ q. record {
          manifest_tenant =
              same_path string_discrete _ _ (undo_not _ (neither _ _ q.0.0.0.0.0.0.0).0);
          verification_tenant =
              same_path string_discrete _ _ (undo_not _ (neither _ _ q.0.0.0.0.0.0.0).1);
          transfer = equal_of (undo_not _ q.0.0.0.0.0.0.1);
          manifest_archive = equal_of (undo_not _ (neither _ _ q.0.0.0.0.0.1).0);
          package_archive = equal_of (undo_not _ (neither _ _ q.0.0.0.0.0.1).1);
          bundle = equal_of (undo_not _ q.0.0.0.0.1);
          control_version = same_path string_discrete _ _ (undo_not _ q.0.0.0.1);
          schema_version = equal_of (undo_not _ q.0.0.1);
          offline = undo_not _ q.0.1;
          supported = undo_not _ q.1;
        })

  record_verified_import-Ensures :
      (g : Environment) (s : Store)
      → Ensures
          (IsSound s)
          (λ r. IsVerified context m v archive compatibility × Records r)
          (record_verified_import g context m v archive compatibility)
  unfolding record_verified_import
  record_verified_import-Ensures g s =
      let P : Store → Type 0 = IsSound s in
      let quiet : IgnoresLog P = IsSound-IgnoresLog s in
      >>=-Ensures _ _ P (λ _. IsVerified context m v archive compatibility) _
        (>>=-Ensures _ _ P (λ _. IsVerified context m v archive compatibility) _
          (>>=-Ensures _ _ P Any _ (require-Ensures P quiet g context _)
            (λ _ _. validate_import-Ensures_of P))
          (λ _ w. weaken-Ensures P _ Any _ (now-Ensures P quiet g) (λ _ _. w)))
        (λ at w. >>=-Ensures _ _ P Any _ (identifier-Ensures P quiet g) (λ i _.
          >>=-Ensures _ _ P Any _
            (>>=-Ensures _ _ P Any _ (IsSound-put_import s _ _ w (refl, refl, refl, refl))
              (λ _ _. record_event-Ensures P quiet g context at _))
            (λ _ _. pure-Ensures P _ _ (w, (refl, refl, refl, refl)))))

-- Every import that stands in the store after `record_verified_import`, also where it raises, stood there before, or
-- was verified: offline, for the context's tenant and the manifest's transfer, with the digests and versions
-- of the manifest and of the archive given, from a schema version that the compatibility policy has a path
-- from; and its receipt names that tenant, transfer, archive and verification. The same holds of a receipt
-- that is returned.
pub record_verified_import-IsVerified :
    (g : Environment) (context : TenantAccessContext) (m : EvidenceTransferManifest)
    (v : EvidenceTransferVerification) (archive : ℕ) (compatibility : CompatibilityPolicy)
    (s : Store)
    → ((k : Key) (x : EvidenceImportReceipt)
        → find Key_discrete k
            (record_verified_import g context m v archive compatibility s).1.imports
          ≡ some x
        → (find Key_discrete k s.imports ≡ some x)
          ⊎ (IsVerified context m v archive compatibility
              × Records context m v archive compatibility x))
      × ((x : EvidenceImportReceipt)
          → (record_verified_import g context m v archive compatibility s).0 ≡ ok x
          → IsVerified context m v archive compatibility
            × Records context m v archive compatibility x)
record_verified_import-IsVerified g context m v archive compatibility s =
    let e = record_verified_import-Ensures context m v archive compatibility g s in
    (e.kept s (λ k x f. inl f), λ x r. e.gives s x (λ k x f. inl f) r)
