-- ===== src/Governance/Refinement.antt =====
-- The methods of runtime/governance.py that change what the store decides, as steps of the machine.
use prodkit_control.Prelude.{
  equal_of, not, ℕ, ◌≤◌, String, string_discrete, true, false, Option, none, some, List, [], ◌∷◌,
  ◌++◌, ◌≡◌, refl, sym, ap, subst, ◌∙◌, inl, inr, text_eq, same_path, undo_not, Option-cases,
  Bool-cases,
}
use prodkit_control.Prelude.Dict.{find}
use prodkit_control.Prelude.Result.{ok, err, Call, ◌>>=◌, key_error, value_error}
use prodkit_control.Prelude.Ensures.{
  Any, >>=-Ensures, raise_if-Ensures, guard-Ensures, weaken-Ensures, ok_injective, err_ok,
}
use prodkit_control.Contracts.Work.{is_some}
use prodkit_control.Contracts.Tenancy.{TenantAccessContext, TenantCapability}
use prodkit_control.Contracts.Retention.{LegalHold, is_held_open, RetentionPolicy}
use prodkit_control.Contracts.TrustRoots.{
  TrustRootPolicy, KeyRotationPlan, GovernedTrustRoot, has_roots,
}
use prodkit_control.Contracts.Changes.{
  GovernanceChangeRequest, GovernanceTargetType, GovernanceRisk, GovernanceChangeStatus_discrete,
  GovernanceApprovalDecision, proposed,
}
use prodkit_control.Governance.Store.{
  Environment, Store, Key_discrete, ask, gets, now, identifier, require,
}
use prodkit_control.Governance.Proposals.{propose_change, approve_change, new_request, decided_copy}
use prodkit_control.Governance.Holds
use prodkit_control.Governance.Retention
use prodkit_control.Governance.Roots
use prodkit_control.Governance.Machine.{
  Core, IsApproved, Clocked, Step, with_change, with_hold, with_applied, with_policies, with_roots,
  policies_in, roots_in, proposes, decides, places, releases, adopts, bootstraps, rotates,
}
use prodkit_control.Governance.Calls.{
  At, At-IgnoresLog, Reads, Ends, >>=-Ends, Steps-Ends, require-Ensures, gets-Ensures,
  find_request-Reads, approved_request-Reads,
}
use prodkit_control.Governance.Effects.{
  writes_change, writes_decision, writes_hold, writes_release, writes_policy, writes_rotation,
  writes_first_root,
}

nothing_there : {A : Type 0} (o : Option A) → is_some o ≡ false → o ≡ none
nothing_there none h = refl
nothing_there (some a) h = absurd (cc h)

no_roots : (l : List GovernedTrustRoot) → has_roots l ≡ false → l ≡ []
no_roots [] h = refl
no_roots (r ∷ l) h = absurd (cc h)

module _ (g : Environment) (c : Core) (least : ℕ) where
  require-Reads :
      (context : TenantAccessContext) (capability : TenantCapability)
      → Reads c least Any (require g context capability)
  require-Reads context capability =
      require-Ensures (At c least) (At-IgnoresLog c least) g context capability

  now-Reads : Reads c least (Clocked g least) (now g)
  unfolding now ask
  now-Reads = record {
    kept = (At-IgnoresLog c least).ticks;
    gives = λ s at p e. (s.answers, p.1, sym (ok_injective _ _ e));
  }

  -- an identifier that is drawn now
  abbrev Drawn : ℕ → Type 0
  Drawn i = (n : ℕ) × (least ≤ n) × (i ≡ g.fresh n)

  identifier-Reads : Reads c least Drawn (identifier g)
  unfolding identifier ask
  identifier-Reads = record {
    kept = (At-IgnoresLog c least).ticks;
    gives = λ s i p e. (s.answers, p.1, sym (ok_injective _ _ e));
  }

  then :
      {A B : Type 0} (Q : B → Type 0) (m : Call Store A) (k : Call Store B)
      → Reads c least Any m
      → Reads c least Q k
      → Reads c least Q (m >>= λ _. k)
  then Q m k h l = >>=-Ensures m _ (At c least) Any Q h (λ a x. l)

  find_open-Reads :
      (t : String) (i : ℕ)
      → Reads c least
          (λ h. (find Key_discrete (t, i) c.holds ≡ some h) × (is_held_open h.status ≡ true))
          (gets (Holds.find_open t i))
  unfolding Holds.find_open Holds.open_or_missing
  find_open-Reads t i = gets-Ensures (At c least) (At-IgnoresLog c least) _ _ (λ s h p e.
      let w : s.holds ≡ c.holds = ap (λ (x : Core). x.holds) p.0 in
      elim (Option-cases (find Key_discrete (t, i) s.holds)) [
        | inl n ↦ absurd (err_ok key_error h (sym (rw (n, Holds.find_open) refl) ∙ e))
        | inr (a, n) ↦
            let v : Holds.find_open t i s ≡ Holds.open_or_missing a =
              rw (n, Holds.find_open) refl in
            elim (Bool-cases (is_held_open a.status)) [
              | inl o ↦
                  let u : Holds.find_open t i s ≡ ok a = v ∙ rw (o, Holds.open_or_missing) refl in
                  let same_hold : a ≡ h = ok_injective a h (sym u ∙ e) in
                  (
                    ap (find Key_discrete (t, i)) (sym w) ∙ n ∙ ap some same_hold,
                    subst (λ (x : LegalHold). is_held_open x.status ≡ true) same_hold o,
                  )
              | inr o ↦
                  let u : Holds.find_open t i s ≡ err key_error =
                    v ∙ rw (o, Holds.open_or_missing) refl in
                  absurd (err_ok key_error h (sym u ∙ e))
            ]
      ])

  current_root-Reads :
      (t : String)
      → Reads c least (λ r. Retention.last_of (roots_in c t) ≡ some r) (gets (Roots.current_root t))
  unfolding Roots.current_root
  current_root-Reads t = gets-Ensures (At c least) (At-IgnoresLog c least) _ _ (λ s r p e.
      let w : roots_in c t ≡ Roots.roots_of t s = ap (λ (x : Core). roots_in x t) (sym p.0) in
      elim (Option-cases (Retention.last_of (Roots.roots_of t s))) [
        | inl n ↦ absurd (err_ok value_error r (sym (rw (n, Roots.current_root) refl) ∙ e))
        | inr (a, n) ↦
            let v : Roots.current_root t s ≡ ok a = rw (n, Roots.current_root) refl in
            ap Retention.last_of w ∙ n ∙ ap some (ok_injective a r (sym v ∙ e))
      ])

  pub propose_change-Ends :
      (context : TenantAccessContext) (target_type : GovernanceTargetType) (target_id : String)
      (digest : ℕ) (risk : GovernanceRisk) (reason ticket : String) (expected : Option ℕ)
      → Ends g c least
          (propose_change g context target_type target_id digest risk reason ticket expected)
  unfolding propose_change
  propose_change-Ends context target_type target_id digest risk reason ticket expected =
      >>=-Ends g c least (Clocked g least) _ _
        (then (Clocked g least) _ _ (require-Reads context _) now-Reads)
        (λ at u. >>=-Ends g c least Drawn _ _ identifier-Reads (λ i drawn.
          (let r : GovernanceChangeRequest =
              new_request context target_type target_id digest risk reason ticket expected i at in
            Steps-Ends g c least (λ d. with_change d (context.tenant_id, i) r) _
              (λ s. writes_change g context at _ s _ r r)
              (proposes r refl refl drawn.0 drawn.1 drawn.2 refl))))

  pub approve_change-Ends :
      (context : TenantAccessContext) (request_id : ℕ) (decision : GovernanceApprovalDecision)
      (reason : String)
      → Ends g c least (approve_change g context request_id decision reason)
  unfolding approve_change
  approve_change-Ends context request_id decision reason =
      >>=-Ends g c least (Clocked g least) _ _
        (then (Clocked g least) _ _ (require-Reads context _) now-Reads)
        (λ at u.
          >>=-Ends g c least _ _ _ (find_request-Reads c least context.tenant_id request_id) (λ r f.
            >>=-Ends g c least _ _ _
              (>>=-Ensures _ _ (At c least) _ _
                (guard-Ensures (At c least) _ _ _ _ (raise_if-Ensures (At c least) _ _))
                (λ _ q. weaken-Ensures (At c least) _ _ _ identifier-Reads (λ _ _. q)))
              (λ approval_id q.
                Steps-Ends g c least
                  (λ d.
                    with_change d (context.tenant_id, request_id)
                      (decided_copy decision r context at))
                  _ (λ s. writes_decision g context at _ s _ _ _ _)
                  (decides (context.tenant_id, request_id) r decision context at u f
                    (same_path GovernanceChangeStatus_discrete r.status proposed (undo_not _ q.0))
                    q.1 refl))))

  pub place_legal_hold-Ends :
      (context : TenantAccessContext) (hold : LegalHold)
      → Ends g c least (Holds.place_legal_hold g context hold)
  unfolding Holds.place_legal_hold Holds.has_hold
  place_legal_hold-Ends context hold =
      >>=-Ends g c least
        (λ known.
          ((text_eq hold.tenant_id context.tenant_id ≡ true) × (is_held_open hold.status ≡ true))
          × (is_some (find Key_discrete (context.tenant_id, hold.hold_id) c.holds) ≡ known))
        _ _
        (>>=-Ensures _ _ (At c least) _ _
          (guard-Ensures (At c least) _ _ _ _ (
            >>=-Ensures _ _ (At c least) _ _ (require-Reads context _)
              (λ _ _. raise_if-Ensures (At c least) _ _)))
          (λ _ q. gets-Ensures (At c least) (At-IgnoresLog c least) _ _ (λ s a p e. (
            (undo_not _ q.0, undo_not _ q.1),
            ap (λ (d : Core). is_some (find Key_discrete (context.tenant_id, hold.hold_id) d.holds))
                  (sym p.0)
                ∙ ok_injective _ _ e,
          ))))
        (λ known q.
          >>=-Ends g c least _ _ _ (raise_if-Ensures (At c least) known value_error) (λ _ k.
            Steps-Ends g c least (λ d. with_hold d (context.tenant_id, hold.hold_id) hold) _
              (λ s. writes_hold g context _ _ s _ _ _)
              (let t : hold.tenant_id ≡ context.tenant_id = same_path string_discrete _ _ q.0.0 in
                subst (λ (t : String). Step g least c (with_hold c (t, hold.hold_id) hold)) t
                  (places hold q.0.1
                    (subst (λ (t : String). find Key_discrete (t, hold.hold_id) c.holds ≡ none)
                      (sym t) (nothing_there _ (q.1 ∙ k)))
                    refl))))

  pub propose_legal_hold_release-Ends :
      (context : TenantAccessContext) (hold_id : ℕ) (reason ticket : String)
      → Ends g c least (Holds.propose_legal_hold_release g context hold_id reason ticket)
  unfolding Holds.propose_legal_hold_release
  propose_legal_hold_release-Ends context hold_id reason ticket =
      >>=-Ends g c least _ _ _
        (>>=-Ensures _ _ (At c least) _ _ (require-Reads context _)
          (λ _ _. find_open-Reads context.tenant_id hold_id))
        (λ _ _. propose_change-Ends context _ _ _ _ reason ticket none)

  pub release_legal_hold-Ends :
      (context : TenantAccessContext) (hold_id request_id : ℕ)
      → Ends g c least (Holds.release_legal_hold g context hold_id request_id)
  unfolding Holds.release_legal_hold
  release_legal_hold-Ends context hold_id request_id =
      >>=-Ends g c least (Clocked g least) _ _
        (then (Clocked g least) _ _ (require-Reads context _) now-Reads)
        (λ at u. >>=-Ends g c least _ _ _ (find_open-Reads context.tenant_id hold_id) (λ h o.
          >>=-Ends g c least _ _ _
            (approved_request-Reads c least context.tenant_id request_id _ _ _ _)
            (λ r a.
              Steps-Ends g c least
                (λ d.
                  with_applied
                    (with_hold d (context.tenant_id, hold_id)
                      (Holds.released_copy h context request_id at))
                    r at)
                _ (λ s. writes_release g context at _ s _ _ _ r at)
                (releases (context.tenant_id, request_id) r h hold_id context at u o.0 o.1 a
                  refl))))

  pub apply_retention_policy-Ends :
      (policy : RetentionPolicy) (context : TenantAccessContext) (request_id : ℕ)
      → Ends g c least (Retention.apply_retention_policy g policy context request_id)
  unfolding Retention.apply_retention_policy
  apply_retention_policy-Ends policy context request_id =
      >>=-Ends g c least
        (λ at. (not (text_eq policy.tenant_id context.tenant_id) ≡ false) × Clocked g least at) _ _
        (>>=-Ensures _ _ (At c least) _ _
          (>>=-Ensures _ _ (At c least) _ _ (require-Reads context _)
            (λ _ _. raise_if-Ensures (At c least) _ _))
          (λ _ q. weaken-Ensures (At c least) _ _ _ now-Reads (λ _ u. (q, u))))
        (λ at t.
          >>=-Ends g c least (λ o. Retention.last_of (policies_in c context.tenant_id) ≡ o) _ _
            (gets-Ensures (At c least) (At-IgnoresLog c least) _ _ (λ s a p e.
              ap (λ (d : Core). Retention.last_of (policies_in d context.tenant_id)) (sym p.0)
              ∙ ok_injective _ _ e))
            (λ current l. >>=-Ends g c least _ _ _ (raise_if-Ensures (At c least) _ _) (λ _ n.
              >>=-Ends g c least _ _ _
                (approved_request-Reads c least context.tenant_id request_id _ _ _ _)
                (λ r a.
                  Steps-Ends g c least
                    (λ d.
                      with_applied
                        (with_policies d context.tenant_id
                          (policies_in d context.tenant_id ++ policy ∷ []))
                        r at)
                    _ (λ s. writes_policy g context at _ s _ _ _ r at)
                    (adopts (context.tenant_id, request_id) r policy at t.1
                      (same_path string_discrete policy.tenant_id context.tenant_id
                        (undo_not _ t.0))
                      (subst
                        (λ (o : Option RetentionPolicy).
                          policy.revision ≡ Retention.next_revision o)
                        (sym l) (equal_of (undo_not _ n)))
                      (subst
                        (λ (o : Option RetentionPolicy).
                          IsApproved c (context.tenant_id, request_id)
                            GovernanceTargetType.retention_policy (g.text_of policy.policy_id)
                            (g.retention_digest policy) (Retention.digest_of g.retention_digest o)
                            r)
                        (sym l) a)
                      refl)))))

  pub bootstrap_trust_root-Ends :
      (context : TenantAccessContext) (policy : TrustRootPolicy) (activated_at request_id : ℕ)
      → Ends g c least (Roots.bootstrap_trust_root g context policy activated_at request_id)
  unfolding Roots.bootstrap_trust_root
  bootstrap_trust_root-Ends context policy activated_at request_id =
      >>=-Ends g c least (λ b. has_roots (roots_in c context.tenant_id) ≡ b) _ _
        (>>=-Ensures _ _ (At c least) _ _ (require-Reads context _) (λ _ _.
          gets-Ensures (At c least) (At-IgnoresLog c least) _ _ (λ s a p e.
            ap (λ (d : Core). has_roots (roots_in d context.tenant_id)) (sym p.0)
            ∙ ok_injective _ _ e)))
        (λ started b. >>=-Ends g c least _ _ _ (raise_if-Ensures (At c least) _ _) (λ _ n.
          >>=-Ends g c least _ _ _
            (approved_request-Reads c least context.tenant_id request_id _ _ _ _)
            (λ r a. record {
              at = λ s p.
                  let root : GovernedTrustRoot =
                    Roots.new_root context.tenant_id 1 policy (g.trust_root_digest policy)
                      activated_at request_id in
                  inr (
                    bootstraps (context.tenant_id, request_id) r policy activated_at
                      (g.clock s.answers) (s.answers, p.1, refl) (no_roots _ (b ∙ n)) a
                      (writes_first_root g context _ s context.tenant_id (root ∷ []) root r
                        ∙ ap
                            (λ (d : Core).
                              with_applied (with_roots d context.tenant_id (root ∷ [])) r
                                (g.clock s.answers))
                            p.0));
            })))

  -- the view after a rotation of the roots `l`
  abbrev after :
      List GovernedTrustRoot
      → String
      → KeyRotationPlan
      → TrustRootPolicy
      → GovernanceChangeRequest
      → ℕ
      → Core
  after l t plan policy r at =
      with_applied
        (with_roots c t (
          Roots.rotated l plan.overlap_until (
            Roots.new_root t plan.to_revision policy (g.trust_root_digest policy) plan.activate_at
              plan.change_request_id)))
        r at

  pub rotate_trust_root-Ends :
      (context : TenantAccessContext) (plan : KeyRotationPlan) (policy : TrustRootPolicy)
      → Ends g c least (Roots.rotate_trust_root g context plan policy)
  unfolding Roots.rotate_trust_root
  rotate_trust_root-Ends context plan policy =
      >>=-Ends g c least
        (λ at. (text_eq plan.tenant_id context.tenant_id ≡ true) × Clocked g least at) _ _
        (>>=-Ensures _ _ (At c least) _ _
          (>>=-Ensures _ _ (At c least) _ _ (require-Reads context _)
            (λ _ _. raise_if-Ensures (At c least) _ _))
          (λ _ q. weaken-Ensures (At c least) _ _ _ now-Reads (λ _ u. (undo_not _ q, u))))
        (λ at t.
          >>=-Ends g c least (λ root. Retention.last_of (roots_in c context.tenant_id) ≡ some root)
            _ _
            (>>=-Ensures _ _ (At c least) _ _ (raise_if-Ensures (At c least) _ _)
              (λ _ _. current_root-Reads context.tenant_id))
            (λ root l. >>=-Ends g c least _ _ _ (raise_if-Ensures (At c least) _ _) (λ _ n.
              >>=-Ends g c least _ _ _
                (approved_request-Reads c least context.tenant_id plan.change_request_id _ _ _ _)
                (λ r a.
                  >>=-Ends g c least (λ roots. roots_in c context.tenant_id ≡ roots) _ _
                    (gets-Ensures (At c least) (At-IgnoresLog c least) _ _ (λ s a p e.
                      ap (λ (d : Core). roots_in d context.tenant_id) (sym p.0)
                      ∙ ok_injective _ _ e))
                    (λ roots h.
                      Steps-Ends g c least
                        (λ d.
                          with_applied
                            (with_roots d context.tenant_id (
                              Roots.rotated roots plan.overlap_until (
                                Roots.new_root context.tenant_id plan.to_revision policy
                                  (g.trust_root_digest policy) plan.activate_at
                                  plan.change_request_id)))
                            r at)
                        _ (λ s. writes_rotation g context at _ s _ _ r at _)
                        (subst
                          (λ (l : List GovernedTrustRoot).
                            Step g least c (after l context.tenant_id plan policy r at))
                          h
                          (subst
                            (λ (t : String).
                              Retention.last_of (roots_in c t) ≡ some root
                              → IsApproved c (t, plan.change_request_id)
                                  GovernanceTargetType.trust_root_policy policy.policy_id
                                  (g.trust_root_digest policy) (some root.policy_sha256) r
                              → Step g least c (after (roots_in c t) t plan policy r at))
                            (same_path string_discrete _ _ t.0)
                            (λ l a. rotates r plan policy root at t.1 l (undo_not _ n) a refl) l
                            a)))))))
