-- ===== src/Governance/Execution.antt =====
-- What a retention run keeps: of the audit trail and the counts nothing, of the deletions what its
-- decisions allow.
use prodkit_control.Prelude.{
  ℕ, All, Option, none, some, List, [], ◌∷◌, ◌≡◌, ◌⊎◌, inl, inr, refl, sym,
}
use prodkit_control.Prelude.Result.{ok}
use prodkit_control.Prelude.Ensures.{
  Any, Ensures, >>=-Ensures, pure-Ensures, raise_if-Ensures, weaken-Ensures, ok_injective,
}
use prodkit_control.Contracts.Tenancy.{TenantAccessContext}
use prodkit_control.Contracts.Retention.{
  RetentionCandidate, RetentionDecision, RetentionDisposition, retain, delete,
}
use prodkit_control.Governance.Store.{Environment, Store, ask, now}
use prodkit_control.Governance.Retention.{
  Adapter, audit_decisions, hand_over, execute_one, execute_each, execute_retention,
  evaluate_retention, retention_decisions, time_or_now,
}
use prodkit_control.Governance.Calls.{
  IgnoresLog, require-Ensures, now-Ensures, identifier-Ensures, gets-Ensures, ask-Ensures,
  record_event-Ensures,
}

pub Disposition-cases : (d : RetentionDisposition) → (d ≡ retain) ⊎ (d ≡ delete)
Disposition-cases retain = inl refl
Disposition-cases delete = inr refl

-- handing a pair over keeps `P`, if its decision is to delete
abbrev pub MayHand : (Store → Type 0) → RetentionCandidate × RetentionDecision → Type 0
MayHand P e = e.1.disposition ≡ delete → (s : Store) → P s → P (hand_over e.0 e.1 s).1

module _ (g : Environment) (P : Store → Type 0) (quiet : IgnoresLog P)
    (context : TenantAccessContext) where
  pub audit_decisions-Ensures :
      (at : ℕ) (ds : List (RetentionCandidate × RetentionDecision))
      → Ensures P Any (audit_decisions g context at ds)
  unfolding audit_decisions
  audit_decisions-Ensures at [] = pure-Ensures P Any tt tt
  audit_decisions-Ensures at ((c, d) ∷ ds) =
      >>=-Ensures _ _ P Any Any (record_event-Ensures P quiet g context at _)
        (λ _ _. audit_decisions-Ensures at ds)

  pub time_or_now-Ensures : (at : Option ℕ) → Ensures P Any (time_or_now g at)
  unfolding time_or_now
  time_or_now-Ensures none = now-Ensures P quiet g
  time_or_now-Ensures (some t) = pure-Ensures P Any t tt

  module _ (adapter : Adapter) (at : ℕ) where
    execute_one-Ensures :
        (c : RetentionCandidate) (d : RetentionDecision)
        → ((s : Store) → P s → P (hand_over c d s).1)
        → Ensures P Any (execute_one g adapter context at c d)
    unfolding execute_one
    execute_one-Ensures c d h = >>=-Ensures _ _ P Any Any (identifier-Ensures P quiet g) (λ i _.
        >>=-Ensures _ _ P Any Any
          (>>=-Ensures _ _ P Any Any
            (>>=-Ensures _ _ P Any Any (record_event-Ensures P quiet g context at _)
              (λ _ _. record { kept = h; gives = λ s a p e. tt }))
            (λ _ _. ask-Ensures P quiet (adapter context c d)))
          (λ reference _.
            >>=-Ensures _ _ P Any Any (record_event-Ensures P quiet g context at _)
              (λ _ _. pure-Ensures P Any _ tt)))

    pub execute_each-Ensures :
        (ds : List (RetentionCandidate × RetentionDecision))
        → All (MayHand P) ds
        → Ensures P Any (execute_each g adapter context at ds)
    unfolding execute_each
    execute_each-Ensures [] h = pure-Ensures P Any [] tt
    execute_each-Ensures ((c, d) ∷ ds) h = elim (Disposition-cases d.disposition) [
      | inl e ↦ rw (e, execute_each) (execute_each-Ensures ds h.1)
      | inr e ↦
          rw (e, execute_each)
            (>>=-Ensures _ _ P Any Any (execute_one-Ensures c d (h.0 e)) (λ r _.
              >>=-Ensures _ _ P Any Any (execute_each-Ensures ds h.1)
                (λ rs _. pure-Ensures P Any _ tt)))
    ]

  pub evaluate_retention-Ensures :
      (candidates : List RetentionCandidate) (at : Option ℕ)
      → Ensures P Any (evaluate_retention g context candidates at)
  unfolding evaluate_retention
  evaluate_retention-Ensures candidates at =
      >>=-Ensures _ _ P Any Any
        (>>=-Ensures _ _ P Any Any (require-Ensures P quiet g context _)
          (λ _ _. time_or_now-Ensures at))
        (λ t _. >>=-Ensures _ _ P Any Any (gets-Ensures P quiet Any _ (λ s a p e. tt)) (λ ds _.
          >>=-Ensures _ _ P Any Any (audit_decisions-Ensures t ds)
            (λ _ _. pure-Ensures P Any ds tt)))

  -- a reading of the clock
  now-clock : Ensures P (λ t. (n : ℕ) × (t ≡ g.clock n)) (now g)
  unfolding now ask
  now-clock = record {
    kept = quiet.ticks;
    gives = λ s a p e. (s.answers, sym (ok_injective _ _ e));
  }

  pub execute_retention-Ensures :
      (candidates : List RetentionCandidate) (adapter : Adapter) (at : Option ℕ)
      → ((t : ℕ)
          → ((n : ℕ) × (t ≡ g.clock n))
          → (s : Store) (ds : List (RetentionCandidate × RetentionDecision)) → P s
          → retention_decisions context.tenant_id candidates t s ≡ ok ds
          → All (MayHand P) ds)
      → Ensures P Any (execute_retention g context candidates adapter at)
  unfolding execute_retention
  execute_retention-Ensures candidates adapter at h =
      >>=-Ensures _ _ P (λ t. (n : ℕ) × (t ≡ g.clock n)) Any
        (>>=-Ensures _ _ P Any _
          (weaken-Ensures P Any _ _
            (>>=-Ensures _ _ P _ _
              (>>=-Ensures _ _ P Any _
                (>>=-Ensures _ _ P Any Any (require-Ensures P quiet g context _)
                  (λ _ _. require-Ensures P quiet g context _))
                (λ _ _. raise_if-Ensures P _ _))
              (λ _ _. raise_if-Ensures P _ _))
            (λ _ _. tt))
          (λ _ _. now-clock))
        (λ t n. >>=-Ensures _ _ P (All (MayHand P)) Any (gets-Ensures P quiet _ _ (h t n)) (λ ds q.
          >>=-Ensures _ _ P Any Any (audit_decisions-Ensures t ds)
            (λ _ _. execute_each-Ensures adapter t ds q)))
