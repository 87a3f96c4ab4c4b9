-- ===== src/Governance/Calls.antt =====
-- What the helpers of the store leave of the abstract view, and how a method's effect is put together.
use prodkit_control.Prelude.{
  ℕ, ◌+◌, ◌≤◌, String, string_discrete, Option, some, ◌≡◌, refl, sym, ap, subst, ◌∙◌, inl, inr,
  same_path, undo_not, Option-cases, ands, arith,
}
use prodkit_control.Prelude.Dict.{find}
use prodkit_control.Prelude.Result.{
  Result, ok, Result-cases, Call, ◌>>=◌, authorization_denied, key_error,
}
use prodkit_control.Prelude.Ensures.{
  Any, Ensures, >>=-Ensures, raise_if-Ensures, guard-Ensures, pure-Ensures, weaken-Ensures, >>=_err,
  >>=_ok, ok_injective, err_ok,
}
use prodkit_control.Contracts.Tenancy.{TenantAccessContext, TenantCapability}
use prodkit_control.Contracts.Changes.{
  GovernanceTargetType, GovernanceTargetType_discrete, GovernanceChangeStatus_discrete,
  GovernanceAuditEvent, approved,
}
use prodkit_control.Governance.Store.{
  Environment, Store, Key_discrete, Entry, ask, gets, now, identifier, require, record_event,
  append_audit,
}
use prodkit_control.Governance.Proposals.{hash_discrete, find_request, approved_request}
use prodkit_control.Governance.Machine.{Core, core, IsApproved, Step, Moves}

-- A property that the number of answers and the audit trail do not bear on.
pub record IgnoresLog (P : Store → Type 0) : Type 0 where
  pub ticks : (s : Store) → P s → P (record s { answers = s.answers + 1 })
  pub logs : (s : Store) (e : GovernanceAuditEvent) → P s → P (append_audit e s).1

module _ (P : Store → Type 0) (quiet : IgnoresLog P) where
  pub ask-Ensures : {A : Type 0} (f : ℕ → Result A) → Ensures P Any (ask f)
  unfolding ask
  ask-Ensures f = record { kept = quiet.ticks; gives = λ s a p e. tt }

  pub append_audit-Ensures : (e : GovernanceAuditEvent) → Ensures P Any (append_audit e)
  append_audit-Ensures e = record { kept = λ s p. quiet.logs s e p; gives = λ s a p q. tt }

  pub gets-Ensures :
      {A : Type 0} (Q : A → Type 0) (f : Store → Result A)
      → ((s : Store) (a : A) → P s → f s ≡ ok a → Q a)
      → Ensures P Q (gets f)
  unfolding gets
  gets-Ensures Q f h = record { kept = λ s p. p; gives = h }

  module _ (g : Environment) where
    pub now-Ensures : Ensures P Any (now g)
    unfolding now
    now-Ensures = ask-Ensures (λ n. ok (g.clock n))

    pub identifier-Ensures : Ensures P Any (identifier g)
    unfolding identifier
    identifier-Ensures = ask-Ensures (λ n. ok (g.fresh n))

    pub require-Ensures :
        (context : TenantAccessContext) (capability : TenantCapability)
        → Ensures P Any (require g context capability)
    unfolding require
    require-Ensures context capability =
        >>=-Ensures _ _ P Any Any
          (>>=-Ensures _ _ P _ Any (raise_if-Ensures P _ authorization_denied) (λ _ _. now-Ensures))
          (λ at _. weaken-Ensures P Any _ _ (raise_if-Ensures P _ authorization_denied) (λ a _. tt))

    pub record_event-Ensures :
        (context : TenantAccessContext) (at : ℕ) (e : Entry)
        → Ensures P Any (record_event g context at e)
    unfolding record_event
    record_event-Ensures context at e =
        >>=-Ensures _ _ P Any Any identifier-Ensures (λ i _. append_audit-Ensures _)

-- the abstract view is `c`, and `least` answers were given at least
abbrev pub At : Core → ℕ → Store → Type 0
At c least s = (core s ≡ c) × (least ≤ s.answers)

pub At-IgnoresLog : (c : Core) (least : ℕ) → IgnoresLog (At c least)
unfolding append_audit
At-IgnoresLog c least = record { ticks = λ s p. (p.0, omega (arith, p.1)); logs = λ s e p. p }

-- a call that only reads the abstract view `c`
abbrev pub Reads : {A : Type 0} → Core → ℕ → (A → Type 0) → Call Store A → Type 0
Reads c least Q m = Ensures (At c least) Q m

-- a call after which the abstract view is as it was or one step further
pub record Ends {A : Type 0} (g : Environment) (c : Core) (least : ℕ) (m : Call Store A)
    : Type 0 where
  pub at : (s : Store) → At c least s → Moves g least c (core (m s).1)

module _ {A B : Type 0} (g : Environment) (c : Core) (least : ℕ) where
  pub >>=-Ends :
      (Q : A → Type 0) (m : Call Store A) (f : A → Call Store B)
      → Reads c least Q m
      → ((a : A) → Q a → Ends g c least (f a))
      → Ends g c least (m >>= f)
  >>=-Ends Q m f hm hf = record {
    at = λ s p. elim (Result-cases (m s).0) [
      | inl (e, q) ↦ rw (>>=_err m f s e q) (inl (hm.kept s p).0)
      | inr (a, q) ↦ rw (>>=_ok m f s a q) ((hf a (hm.gives s a p q)).at (m s).1 (hm.kept s p))
    ];
  }

-- a call that only reads ends where it began
pub Reads-Ends :
    {A : Type 0} (g : Environment) (c : Core) (least : ℕ) (Q : A → Type 0) (m : Call Store A)
    → Reads c least Q m
    → Ends g c least m
Reads-Ends g c least Q m h = record { at = λ s p. inl (h.kept s p).0 }

-- a call that writes `f`, where `f` is a step
pub Steps-Ends :
    {A : Type 0} (g : Environment) (c : Core) (least : ℕ) (f : Core → Core) (m : Call Store A)
    → ((s : Store) → core (m s).1 ≡ f (core s))
    → Step g least c (f c)
    → Ends g c least m
Steps-Ends g c least f m w step = record {
  at = λ s p. inr (subst (Step g least c) (sym (w s ∙ ap f p.0)) step);
}

pub find_request-Reads :
    (c : Core) (least : ℕ) (t : String) (i : ℕ)
    → Reads c least (λ r. find Key_discrete (t, i) c.changes ≡ some r) (gets (find_request t i))
unfolding find_request
find_request-Reads c least t i = gets-Ensures (At c least) (At-IgnoresLog c least) _ _ (λ s r p h.
    let w : s.changes ≡ c.changes = ap (λ (x : Core). x.changes) p.0 in
    elim (Option-cases (find Key_discrete (t, i) s.changes)) [
      | inl n ↦ absurd (err_ok key_error r (sym (rw (n, find_request) refl) ∙ h))
      | inr (a, n) ↦
          let v : find_request t i s ≡ ok a = rw (n, find_request) refl in
          ap (find Key_discrete (t, i)) (sym w) ∙ n ∙ ap some (ok_injective a r (sym v ∙ h))
    ])

pub approved_request-Reads :
    (c : Core) (least : ℕ) (t : String) (i : ℕ) (target_type : GovernanceTargetType)
    (target_id : String) (digest : ℕ) (current : Option ℕ)
    → Reads c least
        (IsApproved c (t, i) target_type target_id digest current)
        (approved_request t i target_type target_id digest current)
unfolding approved_request
approved_request-Reads c least t i target_type target_id digest current =
    >>=-Ensures _ _ (At c least) (λ r. find Key_discrete (t, i) c.changes ≡ some r) _
      (find_request-Reads c least t i)
      (λ r f.
        >>=-Ensures _ _ (At c least) _ _
          (guard-Ensures (At c least) _ _ _ _
            (guard-Ensures (At c least) _ _ _ _ (raise_if-Ensures (At c least) _ _)))
          (λ u q. pure-Ensures (At c least) _ r (
            let m = ands _ _ (undo_not _ q.0.1) in
            let n = ands _ _ m.1 in
            record {
              found = f;
              status =
                  same_path GovernanceChangeStatus_discrete r.status approved (undo_not _ q.0.0);
              target_type = same_path GovernanceTargetType_discrete r.target_type target_type m.0;
              target_id = same_path string_discrete r.target_id target_id n.0;
              digest = ground (arith, n);
              current = same_path hash_discrete r.expected_current_digest current (undo_not _ q.1);
            })))
