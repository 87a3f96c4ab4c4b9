-- ===== src/Broker/AtMostOnce.antt =====
-- An idempotency key of a tenant reaches an executor at most once.
use prodkit_control.Prelude.{
  ℕ, ◌+◌, ◌≤◌, String, Bool, true, false, Option, none, some, List, [], ◌∷◌, ◌++◌, ◌≡◌, ◌≢◌, refl,
  sym, ◌∙◌, ap, inl, inr, ◌⊎◌, arith, Option-cases, if◌then◌else◌, count, same,
}
use prodkit_control.Prelude.Result.{Exn, Result-cases, Call, ◌>>=◌, catch, duplicate_action}
use prodkit_control.Contracts.Identity.{ActorRef}
use prodkit_control.Contracts.Actions.{ActionSpec}
use prodkit_control.Contracts.Policy.{ApprovalDecision}
use prodkit_control.Contracts.Execution.{ExecutionAttemptRecord, CredentialLease}
use prodkit_control.Stores.Approvals.{record_decision}
use prodkit_control.Stores.Idempotency
use prodkit_control.Stores.Idempotency.{Key, Key_discrete, Entries, owner}
use prodkit_control.Broker.World.{Broker, World, Executor}
use prodkit_control.Broker.Perform.{BrokerOutcome, key, on_claims, call_executor, perform}
use prodkit_control.Broker.Execute.{reuse, claim_and_run, execute}
use prodkit_control.Broker.Quiet.{
  Frames, Frames-trans, IsQuiet, bind_err, bind_ok, catch_err, catch_ok, IsQuiet-event,
  IsQuiet-gate, IsQuiet-select_executor, IsQuiet-issue_lease, IsQuiet-reuse, IsQuiet-open_attempt,
  IsQuiet-handle_failure, IsQuiet-settle, IsQuiet-bind,
}

-- At most one executor call, of the action, lies between the two; the owners of the keys are the same.
pub record Runs (action : ActionSpec) (w v : World) : Type 0 where
  pub calls : (v.calls ≡ w.calls) ⊎ (v.calls ≡ w.calls ++ action ∷ [])
  pub owners : (k : Key) → owner k v.claims ≡ owner k w.claims

pub record RunsOnce {A : Type 0} (action : ActionSpec) (m : Call World A) : Type 0 where
  pub at : (w : World) → Runs action w (m w).1

module _ (action : ActionSpec) where
  quiet_first : (u v w : World) → Frames u v → Runs action v w → Runs action u w
  quiet_first u v w f r = record {
    calls = elim (r.calls) [
      | inl e ↦ inl (e ∙ f.calls)
      | inr e ↦ inr (e ∙ ap (λ (l : List ActionSpec). l ++ action ∷ []) f.calls)
    ];
    owners = λ k. r.owners k ∙ f.owners k;
  }

  quiet_last : (u v w : World) → Runs action u v → Frames v w → Runs action u w
  quiet_last u v w r f = record {
    calls = elim (r.calls) [ inl e ↦ inl (f.calls ∙ e) | inr e ↦ inr (f.calls ∙ e) ];
    owners = λ k. f.owners k ∙ r.owners k;
  }

  module _ {A B : Type 0} (m : Call World A) (f : A → Call World B) where
    RunsOnce-bind_last : IsQuiet m → ((a : A) → RunsOnce action (f a)) → RunsOnce action (m >>= f)
    RunsOnce-bind_last hm hf = record {
      at = λ w. elim (Result-cases (m w).0) [
        | inl (e, p) ↦ rw (bind_err m f w e p) (
            quiet_first w (m w).1 (m w).1 (hm.at w)
              (record { calls = inl refl; owners = λ k. refl }))
        | inr (a, p) ↦
            rw (bind_ok m f w a p)
              (quiet_first w (m w).1 (f a (m w).1).1 (hm.at w) ((hf a).at (m w).1))
      ];
    }

    RunsOnce-bind_first : RunsOnce action m → ((a : A) → IsQuiet (f a)) → RunsOnce action (m >>= f)
    RunsOnce-bind_first hm hf = record {
      at = λ w. elim (Result-cases (m w).0) [
        | inl (e, p) ↦ rw (bind_err m f w e p) (hm.at w)
        | inr (a, p) ↦
            rw (bind_ok m f w a p)
              (quiet_last w (m w).1 (f a (m w).1).1 (hm.at w) ((hf a).at (m w).1))
      ];
    }

  RunsOnce-catch :
      {A : Type 0} (m : Call World A) (h : Exn → Call World A)
      → RunsOnce action m
      → ((e : Exn) → IsQuiet (h e))
      → RunsOnce action (catch m h)
  RunsOnce-catch m h hm hh = record {
    at = λ w. elim (Result-cases (m w).0) [
      | inl (e, p) ↦
          rw (catch_err m h w e p)
            (quiet_last w (m w).1 (h e (m w).1).1 (hm.at w) ((hh e).at (m w).1))
      | inr (a, p) ↦ rw (catch_ok m h w a p) (hm.at w)
    ];
  }

  RunsOnce-call_executor :
      (executor : Executor) (a : Option ExecutionAttemptRecord) (o : Option CredentialLease)
      → RunsOnce action (call_executor executor action a o)
  unfolding call_executor
  RunsOnce-call_executor executor a o = record {
    at = λ w. record { calls = inr refl; owners = λ k. refl };
  }

module _ (b : Broker) (action : ActionSpec) (actor : ActorRef) (trace_id : String) where
  RunsOnce-perform :
      (executor : Executor) (o : Option CredentialLease)
      → RunsOnce action (perform b action actor trace_id executor o)
  unfolding perform
  RunsOnce-perform executor o =
      search
        (
          RunsOnce-bind_last, RunsOnce-bind_first, RunsOnce-catch, RunsOnce-call_executor,
          IsQuiet-open_attempt, IsQuiet-event, IsQuiet-handle_failure, IsQuiet-settle,
        )
        depth 12

-- What one `execute` does to the executor calls and to the owners of the keys.
pub record Executes (digest : ℕ) (action : ActionSpec) (w v : World) : Type 0 where
  pub owners : (k : Key) (d : ℕ) → owner k w.claims ≡ some d → owner k v.claims ≡ some d
  pub calls :
      (v.calls ≡ w.calls)
      ⊎ ((v.calls ≡ w.calls ++ action ∷ [])
          × (owner (key action) w.claims ≡ none)
          × (owner (key action) v.claims ≡ some digest))

module _ (b : Broker) (action : ActionSpec) (actor : ActorRef) (trace_id : String) where
  Executes-quiet : (d : ℕ) (w v : World) → Frames w v → Executes d action w v
  Executes-quiet d w v f = record { owners = λ k c h. f.owners k ∙ h; calls = inl f.calls }

  Executes-after :
      (d : ℕ) (u v w : World) → Frames u v → Executes d action v w → Executes d action u w
  Executes-after d u v w f r = record {
    owners = λ k c h. r.owners k c (f.owners k ∙ h);
    calls = elim (r.calls) [
      | inl e ↦ inl (e ∙ f.calls)
      | inr (e, free, owned) ↦ inr (
        e ∙ ap (λ (l : List ActionSpec). l ++ action ∷ []) f.calls,
        sym (f.owners (key action)) ∙ free,
        owned,
      )
    ];
  }

  Executes-claim_and_run :
      (executor : Executor) (o : Option CredentialLease) (w : World)
      → Executes
          (b.action_digest action)
          action
          w
          (claim_and_run b action actor trace_id executor o w).1
  unfolding claim_and_run on_claims
  Executes-claim_and_run executor o w =
      let m = on_claims (Idempotency.claim (key action) (b.action_digest action)) in
      let next : Bool → Call World BrokerOutcome = λ granted.
        if granted
        then perform b action actor trace_id executor o
        else reuse b action actor trace_id executor o in
      elim (Idempotency.claim-cases (key action) (b.action_digest action) w.claims) [
        | inl (free, granted, owned) ↦
            let r = (RunsOnce-perform b action actor trace_id executor o).at (m w).1 in
            rw (bind_ok m next w true granted) (record {
              owners = λ k c h.
                  r.owners k
                  ∙ Idempotency.claim-owner (key action) k (b.action_digest action) c w.claims h;
              calls = elim (r.calls) [
                | inl e ↦ inl e
                | inr e ↦ inr (e, free, r.owners (key action) ∙ owned)
              ];
            })
        | inr (kept, inl refused) ↦ rw (bind_ok m next w false refused) (
            Executes-quiet (b.action_digest action) w
              (reuse b action actor trace_id executor o (m w).1).1
              (Frames-trans w (m w).1 (reuse b action actor trace_id executor o (m w).1).1
                (kept_frames kept) ((IsQuiet-reuse b action actor trace_id executor o).at (m w).1)))
        | inr (kept, inr raised) ↦
            rw (bind_err m next w duplicate_action raised)
              (Executes-quiet (b.action_digest action) w (m w).1 (kept_frames kept))
      ]
    where
      kept_frames :
          (Idempotency.claim (key action) (b.action_digest action) w.claims).1 ≡ w.claims
          → Frames w (on_claims (Idempotency.claim (key action) (b.action_digest action)) w).1
      kept_frames kept = record { calls = refl; owners = λ k. ap (owner k) kept; approvals = refl }

  -- a call that executes the action at most once
  record ExecutesCall {A : Type 0} (m : Call World A) : Type 0 where
    at : (w : World) → Executes (b.action_digest action) action w (m w).1

  ExecutesCall-bind :
      {A B : Type 0} (m : Call World A) (f : A → Call World B)
      → IsQuiet m
      → ((a : A) → ExecutesCall (f a))
      → ExecutesCall (m >>= f)
  ExecutesCall-bind m f hm hf = record {
    at = λ w. elim (Result-cases (m w).0) [
      | inl (e, p) ↦
          rw (bind_err m f w e p) (Executes-quiet (b.action_digest action) w (m w).1 (hm.at w))
      | inr (a, p) ↦ rw (bind_ok m f w a p) (
          Executes-after (b.action_digest action) w (m w).1 (f a (m w).1).1 (hm.at w)
            ((hf a).at (m w).1))
    ];
  }

  ExecutesCall-claim_and_run :
      (executor : Executor) (o : Option CredentialLease)
      → ExecutesCall (claim_and_run b action actor trace_id executor o)
  ExecutesCall-claim_and_run executor o = record { at = Executes-claim_and_run executor o }

  ExecutesCall-execute : ExecutesCall (execute b action actor trace_id)
  unfolding execute
  ExecutesCall-execute =
      search
        (
          ExecutesCall-bind, ExecutesCall-claim_and_run, IsQuiet-bind, IsQuiet-gate,
          IsQuiet-select_executor, IsQuiet-issue_lease,
        )
        depth 12

  -- An execution hands its action to an executor at most once, and only where the action's key had no
  -- owner; then the key has one, and no key loses its owner.
  pub execute-Executes :
      (w : World) → Executes (b.action_digest action) action w (execute b action actor trace_id w).1
  execute-Executes w = ExecutesCall-execute.at w

-- What happens to the stores: an execution by some broker that uses them, or the record of an approval.
pub data Move : Type 0 where
  executes : (b : Broker) (action : ActionSpec) (actor : ActorRef) (trace_id : String) → Move
  decides : ApprovalDecision → Move

unfoldable pub move : Move → World → World
move (executes b action actor trace_id) w = (execute b action actor trace_id w).1
move (decides d) w = record w { approvals = record_decision d w.approvals }

unfoldable pub serve : List Move → World → World
serve [] w = w
serve (x ∷ xs) w = serve xs (move x w)

-- whether an action has a tenant and a key
abbrev pub has_key : Key → ActionSpec → Bool
has_key k action = same Key_discrete (key action) k

-- The calls of a key number one at most, and none while it has no owner.
IsCounted : World → Type 0
IsCounted w =
    (k : Key)
    → (count (has_key k) w.calls ≤ 1) × (owner k w.claims ≡ none → count (has_key k) w.calls ≡ 0)

count-snoc :
    (k : Key) (action : ActionSpec) (l : List ActionSpec)
    → (key action ≢ k → count (has_key k) (l ++ action ∷ []) ≡ count (has_key k) l)
      × (count (has_key k) (l ++ action ∷ []) ≤ count (has_key k) l + 1)
count-snoc k action [] = (λ n. ground arith, ground arith)
count-snoc k action (x ∷ xs) =
    let (a, b) = count-snoc k action xs in (λ n. ground (arith, a n), ground (arith, b))

Executes-IsCounted :
    (d : ℕ) (action : ActionSpec) (w v : World) → Executes d action w v → IsCounted w → IsCounted v
unfolding IsCounted
Executes-IsCounted d action w v e h k = elim (e.calls) [
  | inl c ↦ rw (c) ((h k).0, λ n. (h k).1 (unowned n))
  | inr (c, free, owned) ↦ elim (Key_discrete (key action) k) [
    | yes p ↦
        let zero_before = (h k).1 (sym (ap (λ (z : Key). owner z w.claims) p) ∙ free) in
        let owned_k = sym (ap (λ (z : Key). owner z v.claims) p) ∙ owned in
        rw (c) (
          omega (arith, (count-snoc k action w.calls).1, zero_before),
          λ n. absurd (cc (n, owned_k)),
        )
    | no n ↦
        let same_count = (count-snoc k action w.calls).0 n in
        rw (c, same_count) ((h k).0, λ u. (h k).1 (unowned u))
  ]
]
  where
    unowned : owner k v.claims ≡ none → owner k w.claims ≡ none
    unowned n = elim (Option-cases (owner k w.claims)) [
      | inl f ↦ f
      | inr (x, f) ↦ absurd (cc (n, e.owners k x f))
    ]

serve-IsCounted : (xs : List Move) (w : World) → IsCounted w → IsCounted (serve xs w)
unfolding serve move IsCounted
serve-IsCounted [] w h = h
serve-IsCounted (executes b action actor trace_id ∷ xs) w h =
    serve-IsCounted xs (execute b action actor trace_id w).1 (
      Executes-IsCounted (b.action_digest action) action w (execute b action actor trace_id w).1
        (execute-Executes b action actor trace_id w) h)
serve-IsCounted (decides d ∷ xs) w h =
    serve-IsCounted xs (record w { approvals = record_decision d w.approvals }) h

-- Whatever executions brokers over the same stores make, one after the other, with approvals recorded in between, and
-- whatever policies, executors, verifiers and lease providers answer or raise, the actions of one tenant
-- with one idempotency key are handed to an executor once at most, from when no calls were made.
pub at_most_once :
    (xs : List Move) (w : World) (k : Key) → w.calls ≡ [] → count (has_key k) (serve xs w).calls ≤ 1
unfolding IsCounted
at_most_once xs w k h = (serve-IsCounted xs w (λ j. rw (h) (omega arith, λ n. refl)) k).0
