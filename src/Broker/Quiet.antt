-- ===== src/Broker/Quiet.antt =====
-- The calls of the broker that reach no executor and grant no claim, and how calls compose.
use prodkit_control.Prelude.{
  ℕ, String, Bool, true, false, Option, none, some, ◌≡◌, refl, ◌∙◌, inl, inr, if◌then◌else◌,
}
use prodkit_control.Prelude.Result.{
  Exn, Result, ok, err, Result-cases, Call, ◌>>=◌, pure, raise, raise_if, catch,
}
use prodkit_control.Contracts.Identity.{ActorRef}
use prodkit_control.Contracts.Actions.{ActionSpec, ExecutionResult}
use prodkit_control.Contracts.Policy.{
  PolicyDecision, PolicyOutcome, ApprovalDecision, require_approval, allow, deny,
}
use prodkit_control.Contracts.Execution.{ExecutionAttemptRecord, CredentialLease}
use prodkit_control.Contracts.Events.{EventType, Payload, ControlEventDraft}
use prodkit_control.Stores.Idempotency
use prodkit_control.Stores.Idempotency.{Key, Entries, owner}
use prodkit_control.Stores.Attempts.{Attempts}
use prodkit_control.Broker.World.{
  Broker, World, Executor, LeaseProvider, revocation, ask, given, append_event, now, identifier,
  event, revoke_lease, validate_result, observe_and_verify,
}
use prodkit_control.Broker.Gate.{
  lookup_approval, check_expiry, check_approval, require_approval_of, apply_policy, gate,
  select_executor, issue_lease,
}
use prodkit_control.Broker.Perform.{
  on_attempts, on_claims, open_attempt, mark_uncertain, try_revoke, handle_failure, check_attempt,
  end_lease, close_attempt, settle,
}
use prodkit_control.Broker.Execute.{stored_result, drop_lease, reuse_result, reuse}

-- The executor calls, the owners of the keys and the approvals are the same in both.
pub record Frames (w v : World) : Type 0 where
  pub calls : v.calls ≡ w.calls
  pub owners : (k : Key) → owner k v.claims ≡ owner k w.claims
  pub approvals : v.approvals ≡ w.approvals

pub Frames-refl : (w : World) → Frames w w
Frames-refl w = record { calls = refl; owners = λ k. refl; approvals = refl }

pub Frames-trans : (u v w : World) → Frames u v → Frames v w → Frames u w
Frames-trans u v w f g = record {
  calls = g.calls ∙ f.calls;
  owners = λ k. g.owners k ∙ f.owners k;
  approvals = g.approvals ∙ f.approvals;
}

pub record IsQuiet {A : Type 0} (m : Call World A) : Type 0 where
  pub at : (w : World) → Frames w (m w).1

module _ {A B : Type 0} (m : Call World A) (f : A → Call World B) where
  pub bind_err : (w : World) (e : Exn) → (m w).0 ≡ err e → (m >>= f) w ≡ (err e, (m w).1)
  unfolding ◌>>=◌
  bind_err w e p = rw (p, ◌>>=◌) refl

  pub bind_ok : (w : World) (a : A) → (m w).0 ≡ ok a → (m >>= f) w ≡ f a (m w).1
  unfolding ◌>>=◌
  bind_ok w a p = rw (p, ◌>>=◌) refl

  pub IsQuiet-bind : IsQuiet m → ((a : A) → IsQuiet (f a)) → IsQuiet (m >>= f)
  IsQuiet-bind hm hf = record {
    at = λ w. elim (Result-cases (m w).0) [
      | inl (e, p) ↦ rw (bind_err w e p) (hm.at w)
      | inr (a, p) ↦
          rw (bind_ok w a p) (Frames-trans w (m w).1 (f a (m w).1).1 (hm.at w) ((hf a).at (m w).1))
    ];
  }

module _ {A : Type 0} where
  pub IsQuiet-pure : (a : A) → IsQuiet (pure a)
  unfolding pure
  IsQuiet-pure a = record { at = Frames-refl }

  pub IsQuiet-raise : (e : Exn) → IsQuiet (raise {A = A} e)
  unfolding raise
  IsQuiet-raise e = record { at = Frames-refl }

  pub IsQuiet-given : (r : Result A) → IsQuiet (given r)
  unfolding given
  IsQuiet-given r = record { at = Frames-refl }

  pub IsQuiet-ask : (f : ℕ → Result A) → IsQuiet (ask f)
  unfolding ask
  IsQuiet-ask f = record { at = λ w. record { calls = refl; owners = λ k. refl; approvals = refl } }

  pub IsQuiet-on_attempts : (m : Call Attempts A) → IsQuiet (on_attempts m)
  unfolding on_attempts
  IsQuiet-on_attempts m = record {
    at = λ w. record { calls = refl; owners = λ k. refl; approvals = refl };
  }

  pub IsQuiet-if :
      (c : Bool) (m n : Call World A) → IsQuiet m → IsQuiet n → IsQuiet (if c then m else n)
  IsQuiet-if true m n hm hn = hm
  IsQuiet-if false m n hm hn = hn

module _ {A : Type 0} (m : Call World A) (h : Exn → Call World A) where
  pub catch_err : (w : World) (e : Exn) → (m w).0 ≡ err e → catch m h w ≡ h e (m w).1
  unfolding catch
  catch_err w e p = rw (p, catch) refl

  pub catch_ok : (w : World) (a : A) → (m w).0 ≡ ok a → catch m h w ≡ (ok a, (m w).1)
  unfolding catch
  catch_ok w a p = rw (p, catch) refl

  pub IsQuiet-catch : IsQuiet m → ((e : Exn) → IsQuiet (h e)) → IsQuiet (catch m h)
  IsQuiet-catch hm hh = record {
    at = λ w. elim (Result-cases (m w).0) [
      | inl (e, p) ↦
          rw (catch_err w e p)
            (Frames-trans w (m w).1 (h e (m w).1).1 (hm.at w) ((hh e).at (m w).1))
      | inr (a, p) ↦ rw (catch_ok w a p) (hm.at w)
    ];
  }

pub IsQuiet-raise_if : (c : Bool) (e : Exn) → IsQuiet (raise_if c e)
unfolding raise_if
IsQuiet-raise_if true e = record { at = Frames-refl }
IsQuiet-raise_if false e = record { at = Frames-refl }

pub IsQuiet-append_event :
    (hash : ControlEventDraft → ℕ → Option ℕ → ℕ) (d : ControlEventDraft)
    → IsQuiet (append_event hash d)
unfolding append_event
IsQuiet-append_event hash d = record {
  at = λ w. record { calls = refl; owners = λ k. refl; approvals = refl };
}

pub IsQuiet-complete :
    (k : Key) (r : ExecutionResult) → IsQuiet (on_claims (Idempotency.complete k r))
unfolding on_claims
IsQuiet-complete k r = record {
  at = λ w. record {
    calls = refl;
    owners = λ j. Idempotency.complete-keeps_owner k j r w.claims;
    approvals = refl;
  };
}

pub IsQuiet-stored_result : (action : ActionSpec) → IsQuiet (stored_result action)
unfolding stored_result
IsQuiet-stored_result action = record { at = Frames-refl }

pub IsQuiet-lookup_approval :
    (action : ActionSpec) (i : ℕ) (policy : PolicyDecision) (j at : ℕ)
    → IsQuiet (lookup_approval action i policy j at)
unfolding lookup_approval
IsQuiet-lookup_approval action i policy j at = record { at = Frames-refl }

pub ruleset quiet_rules = (
  IsQuiet-bind, IsQuiet-pure, IsQuiet-raise, IsQuiet-given, IsQuiet-ask, IsQuiet-on_attempts,
  IsQuiet-if, IsQuiet-catch, IsQuiet-raise_if, IsQuiet-append_event, IsQuiet-complete,
  IsQuiet-stored_result, IsQuiet-lookup_approval,
)

module _ (b : Broker) (action : ActionSpec) (actor : ActorRef) (trace_id : String) where
  pub IsQuiet-now : IsQuiet (now b)
  unfolding now
  IsQuiet-now = search quiet_rules

  IsQuiet-identifier : IsQuiet (identifier b)
  unfolding identifier
  IsQuiet-identifier = search quiet_rules

  pub IsQuiet-event :
      (actor : ActorRef) (t : EventType) (p : Payload) → IsQuiet (event b action actor trace_id t p)
  unfolding event
  IsQuiet-event actor t p = search (quiet_rules, IsQuiet-now, IsQuiet-identifier)

  IsQuiet-revocation :
      (o : Option LeaseProvider) (l : CredentialLease)
      → IsQuiet (revocation b o action actor trace_id l)
  unfolding revocation
  IsQuiet-revocation none l = search quiet_rules
  IsQuiet-revocation (some p) l = search (quiet_rules, IsQuiet-event)

  IsQuiet-revoke_lease : (l : CredentialLease) → IsQuiet (revoke_lease b action actor trace_id l)
  unfolding revoke_lease
  IsQuiet-revoke_lease l = IsQuiet-revocation b.credential_leases l

  IsQuiet-validate_result :
      (executor : Executor) (r : ExecutionResult) (current : Bool)
      → IsQuiet (validate_result b action executor r current)
  unfolding validate_result
  IsQuiet-validate_result executor r current = search quiet_rules

  IsQuiet-observe_and_verify :
      (executor : Executor) (r : ExecutionResult) (reused : Bool)
      → IsQuiet (observe_and_verify b action actor trace_id executor r reused)
  unfolding observe_and_verify
  IsQuiet-observe_and_verify executor r reused = search (quiet_rules, IsQuiet-event)

  pub IsQuiet-check_expiry : (o : Option ℕ) → IsQuiet (check_expiry b o)
  unfolding check_expiry
  IsQuiet-check_expiry none = search quiet_rules
  IsQuiet-check_expiry (some t) = search (quiet_rules, IsQuiet-now)

  IsQuiet-check_approval :
      (policy : PolicyDecision) (a : Option ApprovalDecision)
      → IsQuiet (check_approval b action actor trace_id policy a)
  unfolding check_approval
  IsQuiet-check_approval policy none = search (quiet_rules, IsQuiet-event)
  IsQuiet-check_approval policy (some a) = search (quiet_rules, IsQuiet-event)

  IsQuiet-require_approval_of :
      (o : PolicyOutcome) (policy : PolicyDecision)
      → IsQuiet (require_approval_of b o action actor trace_id policy)
  unfolding require_approval_of
  IsQuiet-require_approval_of allow policy = search quiet_rules
  IsQuiet-require_approval_of deny policy = search quiet_rules
  IsQuiet-require_approval_of require_approval policy =
      search (quiet_rules, IsQuiet-now, IsQuiet-check_approval)

  IsQuiet-apply_policy :
      (policy : PolicyDecision) → IsQuiet (apply_policy b action actor trace_id policy)
  unfolding apply_policy
  IsQuiet-apply_policy policy = search (quiet_rules, IsQuiet-event, IsQuiet-require_approval_of)

  pub IsQuiet-gate : IsQuiet (gate b action actor trace_id)
  unfolding gate
  IsQuiet-gate = search (quiet_rules, IsQuiet-event, IsQuiet-check_expiry, IsQuiet-apply_policy)

  pub IsQuiet-select_executor : IsQuiet (select_executor b action)
  unfolding select_executor
  IsQuiet-select_executor = search quiet_rules

  pub IsQuiet-issue_lease :
      (o : Option LeaseProvider) (executor : Executor)
      → IsQuiet (issue_lease b o action actor trace_id executor)
  unfolding issue_lease
  IsQuiet-issue_lease none executor = search quiet_rules
  IsQuiet-issue_lease (some p) executor = search (quiet_rules, IsQuiet-event)

  IsQuiet-drop_lease : (o : Option CredentialLease) → IsQuiet (drop_lease b action actor trace_id o)
  unfolding drop_lease
  IsQuiet-drop_lease none = search quiet_rules
  IsQuiet-drop_lease (some l) = IsQuiet-revoke_lease l

  IsQuiet-reuse_result :
      (executor : Executor) (o : Option ExecutionResult)
      → IsQuiet (reuse_result b action actor trace_id executor o)
  unfolding reuse_result
  IsQuiet-reuse_result executor none = search quiet_rules
  IsQuiet-reuse_result executor (some r) =
      search (quiet_rules, IsQuiet-validate_result, IsQuiet-observe_and_verify)

  pub IsQuiet-reuse :
      (executor : Executor) (o : Option CredentialLease)
      → IsQuiet (reuse b action actor trace_id executor o)
  unfolding reuse
  IsQuiet-reuse executor o = search (quiet_rules, IsQuiet-drop_lease, IsQuiet-reuse_result)

  pub IsQuiet-open_attempt : (executor : Executor) → IsQuiet (open_attempt b action executor)
  unfolding open_attempt
  IsQuiet-open_attempt executor = search (quiet_rules, IsQuiet-now, IsQuiet-identifier) depth 16

  IsQuiet-mark_uncertain :
      (a : Option ExecutionAttemptRecord) (e : Exn) (reason : String)
      → IsQuiet (mark_uncertain b a e reason)
  unfolding mark_uncertain
  IsQuiet-mark_uncertain none e reason = search quiet_rules
  IsQuiet-mark_uncertain (some a) e reason = search (quiet_rules, IsQuiet-now)

  IsQuiet-try_revoke : (o : Option CredentialLease) → IsQuiet (try_revoke b action actor trace_id o)
  unfolding try_revoke
  IsQuiet-try_revoke none = search quiet_rules
  IsQuiet-try_revoke (some l) = search (quiet_rules, IsQuiet-revoke_lease)

  pub IsQuiet-handle_failure :
      (executor : Executor) (a : Option ExecutionAttemptRecord) (o : Option CredentialLease)
      (e : Exn)
      → IsQuiet (handle_failure b action actor trace_id executor a o e)
  unfolding handle_failure
  IsQuiet-handle_failure executor a o e =
      search (quiet_rules, IsQuiet-mark_uncertain, IsQuiet-try_revoke, IsQuiet-event)

  IsQuiet-check_attempt :
      (a : Option ExecutionAttemptRecord) (r : ExecutionResult) → IsQuiet (check_attempt b a r)
  unfolding check_attempt
  IsQuiet-check_attempt none r = search quiet_rules
  IsQuiet-check_attempt (some a) r = search quiet_rules

  IsQuiet-end_lease :
      (executor : Executor) (a : Option ExecutionAttemptRecord) (o : Option CredentialLease)
      → IsQuiet (end_lease b action actor trace_id executor a o)
  unfolding end_lease
  IsQuiet-end_lease executor a none = search quiet_rules
  IsQuiet-end_lease executor a (some l) =
      search (quiet_rules, IsQuiet-revoke_lease, IsQuiet-mark_uncertain, IsQuiet-event)

  IsQuiet-close_attempt :
      (a : Option ExecutionAttemptRecord) (r : ExecutionResult) → IsQuiet (close_attempt b a r)
  unfolding close_attempt
  IsQuiet-close_attempt none r = search quiet_rules
  IsQuiet-close_attempt (some a) r = search quiet_rules

  pub IsQuiet-settle :
      (executor : Executor) (a : Option ExecutionAttemptRecord) (o : Option CredentialLease)
      (r : ExecutionResult)
      → IsQuiet (settle b action actor trace_id executor a o r)
  unfolding settle
  IsQuiet-settle executor a o r =
      search
        (
          quiet_rules, IsQuiet-validate_result, IsQuiet-check_attempt, IsQuiet-end_lease,
          IsQuiet-close_attempt, IsQuiet-event, IsQuiet-observe_and_verify,
        )
        depth 16
