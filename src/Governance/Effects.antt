-- ===== src/Governance/Effects.antt =====
-- The effect of each closing sequence of writes on the abstract view.
use prodkit_control.Prelude.{ℕ, String, List, ◌∷◌, [], ◌++◌, ◌≡◌, refl}
use prodkit_control.Prelude.Result.{Result, ◌>>=◌, ◌>>◌, pure}
use prodkit_control.Contracts.Tenancy.{TenantAccessContext}
use prodkit_control.Contracts.Retention.{LegalHold, RetentionPolicy}
use prodkit_control.Contracts.TrustRoots.{GovernedTrustRoot}
use prodkit_control.Contracts.Changes.{GovernanceChangeRequest, GovernanceApproval}
use prodkit_control.Governance.Store.{
  Environment, Store, Key, Entry, ask, gets, now, identifier, record_event, append_audit,
}
use prodkit_control.Governance.Proposals.{put_change, put_approval, mark_applied}
use prodkit_control.Governance.Holds.{put_hold}
use prodkit_control.Governance.Retention.{append_policy}
use prodkit_control.Governance.Roots.{put_roots}
use prodkit_control.Governance.Machine.{
  core, with_change, with_hold, with_applied, with_policies, with_roots, policies_in,
}

module _ (g : Environment) (context : TenantAccessContext) (t : ℕ) (e : Entry) (s : Store) where
  pub writes_change :
      (k : Key) (r x : GovernanceChangeRequest)
      → core ((put_change k r >> record_event g context t e >> pure x) s).1
        ≡ with_change (core s) k r
  unfolding put_change record_event append_audit identifier ask ◌>>=◌ pure
  writes_change k r x = refl

  pub writes_decision :
      (a : GovernanceApproval) (k : Key) (r x : GovernanceChangeRequest)
      → core ((put_approval a >> put_change k r >> record_event g context t e >> pure x) s).1
        ≡ with_change (core s) k r
  unfolding put_approval put_change record_event append_audit identifier ask ◌>>=◌ pure
  writes_decision a k r x = refl

  pub writes_hold :
      (k : Key) (h x : LegalHold)
      → core ((put_hold k h >> record_event g context t e >> pure x) s).1 ≡ with_hold (core s) k h
  unfolding put_hold record_event append_audit identifier ask ◌>>=◌ pure
  writes_hold k h x = refl

  pub writes_release :
      (k : Key) (h x : LegalHold) (r : GovernanceChangeRequest) (at : ℕ)
      → core ((put_hold k h >> mark_applied r at >> record_event g context t e >> pure x) s).1
        ≡ with_applied (with_hold (core s) k h) r at
  unfolding put_hold mark_applied put_change record_event append_audit identifier ask ◌>>=◌ pure
  writes_release k h x r at = refl

  pub writes_policy :
      (n : String) (p x : RetentionPolicy) (r : GovernanceChangeRequest) (at : ℕ)
      → core ((append_policy n p >> mark_applied r at >> record_event g context t e >> pure x) s).1
        ≡ with_applied (with_policies (core s) n (policies_in (core s) n ++ p ∷ [])) r at
  unfolding append_policy mark_applied put_change record_event append_audit identifier ask ◌>>=◌
      pure
  writes_policy n p x r at = refl

  pub writes_rotation :
      {A : Type 0} (n : String) (l : List GovernedTrustRoot) (r : GovernanceChangeRequest) (at : ℕ)
      (f : Store → Result A)
      → core ((put_roots n l >> mark_applied r at >> record_event g context t e >> gets f) s).1
        ≡ with_applied (with_roots (core s) n l) r at
  unfolding put_roots mark_applied put_change record_event append_audit identifier ask ◌>>=◌ gets
  writes_rotation n l r at f = refl

module _ (g : Environment) (context : TenantAccessContext) (e : Entry) (s : Store) where
  pub writes_first_root :
      (n : String) (l : List GovernedTrustRoot) (x : GovernedTrustRoot)
      (r : GovernanceChangeRequest)
      → core
          ((put_roots n l >> now g >>= λ at.
              mark_applied r at >> record_event g context at e >> pure x)
            s).1
        ≡ with_applied (with_roots (core s) n l) r (g.clock s.answers)
  unfolding put_roots now mark_applied put_change record_event append_audit identifier ask ◌>>=◌
      pure
  writes_first_root n l x r = refl
