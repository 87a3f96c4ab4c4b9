-- ===== src/Governance/Operations.antt =====
-- The methods of the store as one type of operations, and the stores that a sequence of them reaches.
use prodkit_control.Prelude.{
  ℕ, arith, All, String, Bool, Option, List, [], ◌∷◌, refl, sym, subst, inl, inr,
}
use prodkit_control.Prelude.Ensures.{
  Any, >>=-Ensures, pure-Ensures, raise_if-Ensures, weaken-Ensures,
}
use prodkit_control.Prelude.Result.{Exn, Call, ◌>>=◌, pure, raise_if}
use prodkit_control.Contracts.Tenancy.{TenantAccessContext, TenantCapability}
use prodkit_control.Contracts.Retention.{
  LegalHold, RetentionPolicy, RetentionCandidate, RetentionDecision,
}
use prodkit_control.Contracts.TrustRoots.{TrustRootPolicy, KeyRotationPlan}
use prodkit_control.Contracts.Transfers.{
  EvidenceTransferManifest, EvidenceTransferVerification, CompatibilityPolicy,
  EvidenceImportReceipt,
}
use prodkit_control.Contracts.Changes.{
  GovernanceTargetType, GovernanceRisk, GovernanceApprovalDecision,
}
use prodkit_control.Governance.Store.{
  Environment, Store, Key, Entry, empty, require, now, record_event,
}
use prodkit_control.Governance.Proposals
use prodkit_control.Governance.Holds
use prodkit_control.Governance.Retention
use prodkit_control.Governance.Roots
use prodkit_control.Governance.Transfers
use prodkit_control.Governance.Machine.{Core, core, Step, Moves}
use prodkit_control.Governance.Calls.{
  At, At-IgnoresLog, Reads, require-Ensures, now-Ensures, identifier-Ensures, record_event-Ensures,
}
use prodkit_control.Governance.Execution.{
  MayHand, evaluate_retention-Ensures, execute_retention-Ensures,
}
use prodkit_control.Governance.Refinement.{
  propose_change-Ends, approve_change-Ends, place_legal_hold-Ends, propose_legal_hold_release-Ends,
  release_legal_hold-Ends, apply_retention_policy-Ends, bootstrap_trust_root-Ends,
  rotate_trust_root-Ends,
}

pub data Operation : Type 0 where
  propose :
      TenantAccessContext
      → GovernanceTargetType
      → String
      → ℕ
      → GovernanceRisk
      → String
      → String
      → Option ℕ
      → Operation
  decide : TenantAccessContext → ℕ → GovernanceApprovalDecision → String → Operation
  apply_policy : RetentionPolicy → TenantAccessContext → ℕ → Operation
  place : TenantAccessContext → LegalHold → Operation
  propose_release : TenantAccessContext → ℕ → String → String → Operation
  release : TenantAccessContext → ℕ → ℕ → Operation
  evaluate : TenantAccessContext → List RetentionCandidate → Option ℕ → Operation
  execute : TenantAccessContext → List RetentionCandidate → Retention.Adapter → Option ℕ → Operation
  bootstrap : TenantAccessContext → TrustRootPolicy → ℕ → ℕ → Operation
  rotate : TenantAccessContext → KeyRotationPlan → TrustRootPolicy → Operation
  export_evidence : TenantAccessContext → Transfers.Package → Operation
  import_evidence :
      TenantAccessContext
      → EvidenceTransferManifest
      → EvidenceTransferVerification
      → ℕ
      → CompatibilityPolicy
      → Operation

-- the store after an operation, also after one that raises
abbrev pub run : Environment → Operation → Store → Store
run g (propose c a b d e h i j) s = (Proposals.propose_change g c a b d e h i j s).1
run g (decide c a b d) s = (Proposals.approve_change g c a b d s).1
run g (apply_policy p c i) s = (Retention.apply_retention_policy g p c i s).1
run g (place c h) s = (Holds.place_legal_hold g c h s).1
run g (propose_release c a b d) s = (Holds.propose_legal_hold_release g c a b d s).1
run g (release c a b) s = (Holds.release_legal_hold g c a b s).1
run g (evaluate c a b) s = (Retention.evaluate_retention g c a b s).1
run g (execute c a b d) s = (Retention.execute_retention g c a b d s).1
run g (bootstrap c a b d) s = (Roots.bootstrap_trust_root g c a b d s).1
run g (rotate c a b) s = (Roots.rotate_trust_root g c a b s).1
run g (export_evidence c a) s = (Transfers.create_transfer_manifest g c a s).1
run g (import_evidence c a b d e) s = (Transfers.record_verified_import g c a b d e s).1

-- the stores that operations reach from the empty one
pub data Reachable (g : Environment) : Store → Type 0 where
  start : Reachable g empty
  after : (o : Operation) (s : Store) → Reachable g s → Reachable g (run g o s)

module _ (g : Environment) (c : Core) (least : ℕ) where
  require-Reads :
      (context : TenantAccessContext) (capability : TenantCapability)
      → Reads c least Any (require g context capability)
  require-Reads context capability =
      require-Ensures (At c least) (At-IgnoresLog c least) g context capability

  any_guard :
      {A : Type 0} (m : Call Store A) (b : Bool) (e : Exn)
      → Reads c least Any m
      → Reads c least Any (m >>= λ _. raise_if b e)
  any_guard m b e h =
      >>=-Ensures m _ (At c least) Any Any h
        (λ _ _. weaken-Ensures (At c least) Any _ _ (raise_if-Ensures (At c least) b e) (λ _ _. tt))

  hands : (ds : List (RetentionCandidate × RetentionDecision)) → All (MayHand (At c least)) ds
  unfolding Retention.hand_over
  hands [] = tt
  hands (e ∷ ds) = ((λ q s p. p), hands ds)

  execute_retention-Reads :
      (context : TenantAccessContext) (candidates : List RetentionCandidate)
      (adapter : Retention.Adapter) (at : Option ℕ)
      → Reads c least Any (Retention.execute_retention g context candidates adapter at)
  unfolding Retention.hand_over
  execute_retention-Reads context candidates adapter at =
      execute_retention-Ensures g (At c least) (At-IgnoresLog c least) context candidates adapter at
        (λ t n s ds p e. hands ds)

  validate_import-Reads :
      (context : TenantAccessContext) (m : EvidenceTransferManifest)
      (v : EvidenceTransferVerification) (archive : ℕ) (compatibility : CompatibilityPolicy)
      → Reads c least Any (Transfers.validate_import context m v archive compatibility)
  unfolding Transfers.validate_import
  validate_import-Reads context m v archive compatibility = any_guard _ _ _ (
      any_guard _ _ _ (
        any_guard _ _ _ (
          any_guard _ _ _ (
            any_guard _ _ _ (
              any_guard _ _ _ (
                any_guard _ _ _ (
                  weaken-Ensures (At c least) Any _ _ (raise_if-Ensures (At c least) _ _)
                    (λ _ _. tt))))))))

  then_now :
      {A : Type 0} (m : Call Store A) → Reads c least Any m → Reads c least Any (m >>= λ _. now g)
  then_now m h =
      >>=-Ensures m _ (At c least) Any Any h
        (λ _ _. now-Ensures (At c least) (At-IgnoresLog c least) g)

  put_export-Reads :
      (k : Key) (m : EvidenceTransferManifest) → Reads c least Any (Transfers.put_export k m)
  unfolding Transfers.put_export
  put_export-Reads k m = record { kept = λ s p. p; gives = λ s a p e. tt }

  put_import-Reads :
      (k : Key) (r : EvidenceImportReceipt) → Reads c least Any (Transfers.put_import k r)
  unfolding Transfers.put_import
  put_import-Reads k r = record { kept = λ s p. p; gives = λ s a p e. tt }

  -- an event and a value after a call that only reads
  recorded :
      {A B : Type 0} (context : TenantAccessContext) (at : ℕ) (e : Entry) (b : B) (m : Call Store A)
      → Reads c least Any m
      → Reads c least Any (m >>= (λ _. record_event g context at e) >>= λ _. pure b)
  recorded context at e b m h =
      >>=-Ensures _ _ (At c least) Any Any
        (>>=-Ensures m _ (At c least) Any Any h
          (λ _ _. record_event-Ensures (At c least) (At-IgnoresLog c least) g context at e))
        (λ _ _. pure-Ensures (At c least) Any b tt)

  create_transfer_manifest-Reads :
      (context : TenantAccessContext) (p : Transfers.Package)
      → Reads c least Any (Transfers.create_transfer_manifest g context p)
  unfolding Transfers.create_transfer_manifest
  create_transfer_manifest-Reads context p =
      >>=-Ensures _ _ (At c least) Any Any (then_now _ (require-Reads context _)) (λ at _.
        >>=-Ensures _ _ (At c least) Any Any
          (identifier-Ensures (At c least) (At-IgnoresLog c least) g)
          (λ i _. recorded context at _ _ _ (put_export-Reads _ _)))

  record_verified_import-Reads :
      (context : TenantAccessContext) (m : EvidenceTransferManifest)
      (v : EvidenceTransferVerification) (archive : ℕ) (compatibility : CompatibilityPolicy)
      → Reads c least Any (Transfers.record_verified_import g context m v archive compatibility)
  unfolding Transfers.record_verified_import
  record_verified_import-Reads context m v archive compatibility =
      >>=-Ensures _ _ (At c least) Any Any
        (then_now _ (
          >>=-Ensures _ _ (At c least) Any Any (require-Reads context _)
            (λ _ _. validate_import-Reads context m v archive compatibility)))
        (λ at _.
          >>=-Ensures _ _ (At c least) Any Any
            (identifier-Ensures (At c least) (At-IgnoresLog c least) g)
            (λ i _. recorded context at _ _ _ (put_import-Reads _ _)))

-- Every operation, whatever it returns or raises, takes the store's abstract view by one step of the
-- machine, or leaves it as it is; an identifier that the step draws, and the time of a decision, of a
-- release or at which a change is applied, are answers that the environment gives once the operation has begun.
pub run-Moves :
    (g : Environment) (o : Operation) (s : Store) → Moves g s.answers (core s) (core (run g o s))
run-Moves g (propose c a b d e h i j) s =
    (propose_change-Ends g (core s) s.answers c a b d e h i j).at s (refl, omega arith)
run-Moves g (decide c a b d) s =
    (approve_change-Ends g (core s) s.answers c a b d).at s (refl, omega arith)
run-Moves g (apply_policy p c i) s =
    (apply_retention_policy-Ends g (core s) s.answers p c i).at s (refl, omega arith)
run-Moves g (place c h) s =
    (place_legal_hold-Ends g (core s) s.answers c h).at s (refl, omega arith)
run-Moves g (propose_release c a b d) s =
    (propose_legal_hold_release-Ends g (core s) s.answers c a b d).at s (refl, omega arith)
run-Moves g (release c a b) s =
    (release_legal_hold-Ends g (core s) s.answers c a b).at s (refl, omega arith)
run-Moves g (evaluate c a b) s = inl (
    ((evaluate_retention-Ensures g (At (core s) s.answers) (At-IgnoresLog (core s) s.answers) c a
        b).kept
      s (refl, omega arith)).0)
run-Moves g (execute c a b d) s =
    inl (((execute_retention-Reads g (core s) s.answers c a b d).kept s (refl, omega arith)).0)
run-Moves g (bootstrap c a b d) s =
    (bootstrap_trust_root-Ends g (core s) s.answers c a b d).at s (refl, omega arith)
run-Moves g (rotate c a b) s =
    (rotate_trust_root-Ends g (core s) s.answers c a b).at s (refl, omega arith)
run-Moves g (export_evidence c a) s =
    inl (((create_transfer_manifest-Reads g (core s) s.answers c a).kept s (refl, omega arith)).0)
run-Moves g (import_evidence c a b d e) s =
    inl
      (((record_verified_import-Reads g (core s) s.answers c a b d e).kept s (refl, omega arith)).0)

-- A property of the abstract view that the empty store has and every step keeps holds wherever
-- operations lead.
pub Reachable-keeps :
    (g : Environment) (P : Core → Type 0)
    → P (core empty)
    → ((least : ℕ) (c d : Core) → P c → Step g least c d → P d)
    → {s : Store} → Reachable g s
    → P (core s)
Reachable-keeps g P base step start = base
Reachable-keeps g P base step (after o s h) = elim (run-Moves g o s) [
  | inl same_view ↦ subst P (sym same_view) (Reachable-keeps g P base step h)
  | inr moved ↦ step s.answers (core s) (core (run g o s)) (Reachable-keeps g P base step h) moved
]
