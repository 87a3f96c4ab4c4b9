-- ===== src/Tenancy/Operations.antt =====
-- The methods of runtime/tenancy.py as steps, and the stores that a sequence of them reaches.
use prodkit_control.Prelude.{
  ℕ, ◌≤◌, String, string_discrete, Bool, true, false, not, ◌&&◌, ◌||◌, Option, none, some, List, [],
  ◌∷◌, ◌≡◌, inl, inr, refl, sym, ap, subst, ◌∙◌, ands, arith, undo_not, text_eq, same_path, same,
  ltb, leb, Option-cases, Bool-cases,
}
use prodkit_control.Prelude.Int.{ℤ}
use prodkit_control.Prelude.Dict.{Dict, find}
use prodkit_control.Prelude.Result.{ok, Call, ◌>>=◌, value_error, key_error, authorization_denied}
use prodkit_control.Prelude.Ensures.{
  Any, >>=-Ensures, pure-Ensures, raise_if-Ensures, weaken-Ensures, ok_injective, err_ok,
}
use prodkit_control.Contracts.Identity.{ActorRef}
use prodkit_control.Contracts.Tenancy.{
  TenantAccessContext, TenantCapability, SupportElevationGrant, validate_grant,
  TenantIsolationProfile, TenantLifecycleRecord, TenantLifecycleStatus_discrete, deletion_scheduled,
  validate_lifecycle,
}
use prodkit_control.Tenancy.{
  Environment, Store, Key, Key_discrete, empty, new_record, deleted_copy, gets, now, authorize,
  is_enabled, is_held, held_status, is_over, completable, find_grant, lifecycle_of,
}
use prodkit_control.Tenancy.Methods
use prodkit_control.Tenancy.Steps.{
  view, IsAllowed, Step, configures, issues, revokes, holds, schedules, completes, At, Clocked,
  Drawn, Moves, Reads, Ends, >>=-Ends, with_grant, with_profile, with_record, gets-Reads, now-Reads,
  identifier-Reads, event-Reads, authorize-Reads, Steps-Ends, writes_profile, writes_grant,
  writes_revocation, writes_record,
}

-- the scheduled record that a tenant has, without a hold and with its time over
record IsCompletable (c : Store) (t : String) (at : ℕ) (r : TenantLifecycleRecord) : Type 0 where
  found : find string_discrete t c.lifecycle ≡ some r
  scheduled : r.status ≡ deletion_scheduled
  over : is_over r.deletion_not_before at ≡ true
  free : r.legal_hold ≡ false

completable-ok :
    (at : ℕ) (o : Option TenantLifecycleRecord) (r : TenantLifecycleRecord)
    → completable at o ≡ ok r
    → (o ≡ some r)
      × (r.status ≡ deletion_scheduled)
      × (is_over r.deletion_not_before at ≡ true)
      × (r.legal_hold ≡ false)
unfolding completable
completable-ok at none r e = absurd (err_ok authorization_denied r e)
completable-ok at (some q) r e =
    elim (Bool-cases (
      same TenantLifecycleStatus_discrete q.status deletion_scheduled
      && (is_over q.deletion_not_before at && not q.legal_hold))) [
        | inr b ↦ absurd (err_ok authorization_denied r (sym (rw (completable, b) refl) ∙ e))
        | inl b ↦
            let w : completable at (some q) ≡ ok q = rw (completable, b) refl in
            let same_record : q ≡ r = ok_injective q r (sym w ∙ e) in
            let (x, y) =
              ands (same TenantLifecycleStatus_discrete q.status deletion_scheduled) _ b in
            let (u, v) = ands (is_over q.deletion_not_before at) _ y in
            subst
              (λ (z : TenantLifecycleRecord).
                (some q ≡ some z)
                × (z.status ≡ deletion_scheduled)
                × (is_over z.deletion_not_before at ≡ true)
                × (z.legal_hold ≡ false))
              same_record
              (
                refl,
                same_path TenantLifecycleStatus_discrete q.status deletion_scheduled x,
                u,
                ground (arith, v),
              )
      ]

pub find_grant-ok :
    (k : Key) (s : Store) (e : SupportElevationGrant)
    → find_grant k s ≡ ok e
    → find Key_discrete k s.grants ≡ some e
unfolding find_grant
find_grant-ok k s e h = elim (Option-cases (find Key_discrete k s.grants)) [
  | inl n ↦ absurd (err_ok key_error e (sym (rw (find_grant, n) refl) ∙ h))
  | inr (x, n) ↦
      let w : find_grant k s ≡ ok x = rw (find_grant, n) refl in
      n ∙ ap some (ok_injective x e (sym w ∙ h))
]

module _ (g : Environment) (c : Store) (least : ℕ) where
  abbrev AtView : Store → Type 0
  AtView s = At c least s

  -- one more reading call before what ends
  bind :
      {A B : Type 0} (Q : A → Type 0) (m : Call Store A) (f : A → Call Store B)
      → Reads c least Q m
      → ((a : A) → Q a → Ends g c least (f a))
      → Ends g c least (m >>= f)
  bind Q m f h k = >>=-Ends g c least Q m f h k

  read_only :
      {A : Type 0} (Q : A → Type 0) (m : Call Store A) → Reads c least Q m → Ends g c least m
  read_only Q m h = record { at = λ s p. (inl (h.kept s p).0, (h.kept s p).1) }

  clock : Reads c least (Clocked g least) (now g)
  clock = now-Reads g c least

  allowed :
      {A : Type 0} (context : TenantAccessContext) (capability : TenantCapability) (at : ℕ)
      (Q : A → Type 0) (k : Call Store A)
      → Reads c least Q k
      → Reads c least
          (λ a. IsAllowed c context capability at × Q a)
          (authorize context capability at >>= λ _. k)
  allowed context capability at Q k h =
      >>=-Ensures _ _ AtView _ _ (authorize-Reads c least context capability at)
        (λ _ i. weaken-Ensures AtView _ _ _ h (λ a q. (i, q)))

  lifecycle-Reads :
      (t : String)
      → Reads c least (λ o. find string_discrete t c.lifecycle ≡ o) (gets (lifecycle_of t))
  lifecycle-Reads t = gets-Reads c least _ _ (λ s o p e.
      ap (λ (x : Store). find string_discrete t x.lifecycle) (sym p) ∙ ok_injective _ _ e)

  completable-Reads :
      (t : String) (at : ℕ)
      → Reads c least
          (IsCompletable c t at)
          (gets (λ s. completable at (find string_discrete t s.lifecycle)))
  completable-Reads t at = gets-Reads c least _ _ (λ s r p e.
      let q = completable-ok at (find string_discrete t s.lifecycle) r e in
      record {
        found = ap (λ (x : Store). find string_discrete t x.lifecycle) (sym p) ∙ q.0;
        scheduled = q.1;
        over = q.2;
        free = q.3;
      })

  set_legal_hold-Ends :
      (context : TenantAccessContext) (enabled : Bool) (reason : String)
      → Ends g c least (Methods.set_legal_hold g context enabled reason)
  unfolding Methods.set_legal_hold
  set_legal_hold-Ends context enabled reason = bind (Clocked g least) _ _ clock (λ at read.
      bind _ _ _ (allowed context _ at _ _ (lifecycle-Reads context.tenant_id)) (λ o h.
        bind _ _ _ (raise_if-Ensures AtView _ _) (λ _ v.
          Steps-Ends g c least
            (λ d.
              with_record d context.tenant_id
                (new_record g.text_of context (held_status enabled o) enabled none at))
            _ (λ s. writes_record g at _ s _ _ _)
            (subst
              (λ (o : Option TenantLifecycleRecord).
                validate_lifecycle g.text_of
                    (new_record g.text_of context (held_status enabled o) enabled none at)
                  ≡ true
                → Step g least c (
                    with_record c context.tenant_id
                      (new_record g.text_of context (held_status enabled o) enabled none at)))
              h.1 (λ v. holds context enabled at read h.0 v refl) (undo_not _ v)))))

  schedule_deletion-Ends :
      (context : TenantAccessContext) (not_before : ℕ) (reason : String)
      → Ends g c least (Methods.schedule_deletion g context not_before reason)
  unfolding Methods.schedule_deletion
  schedule_deletion-Ends context not_before reason = bind (Clocked g least) _ _ clock (λ at read.
      bind
        (λ o.
          ((leb not_before at ≡ false) × IsAllowed c context TenantCapability.delete at)
          × (find string_discrete context.tenant_id c.lifecycle ≡ o))
        _ _
        (>>=-Ensures _ _ AtView
          (λ _. (leb not_before at ≡ false) × IsAllowed c context TenantCapability.delete at) _
          (>>=-Ensures _ _ AtView (λ _. leb not_before at ≡ false) _ (raise_if-Ensures AtView _ _)
            (λ _ l.
              weaken-Ensures AtView _ _ _ (authorize-Reads c least context _ at) (λ _ i. (l, i))))
          (λ _ q. weaken-Ensures AtView _ _ _ (lifecycle-Reads context.tenant_id) (λ o f. (q, f))))
        (λ o h. bind _ _ _ (raise_if-Ensures AtView _ _) (λ _ n.
          bind _ _ _ (raise_if-Ensures AtView _ _) (λ _ v.
            Steps-Ends g c least
              (λ d.
                with_record d context.tenant_id
                  (new_record g.text_of context deletion_scheduled false (some not_before) at))
              _ (λ s. writes_record g at _ s _ _ _)
              (schedules context not_before at read h.0.1 (ground (arith, h.0.0))
                (ap is_held h.1 ∙ n) refl)))))

  complete_deletion-Ends :
      (context : TenantAccessContext) → Ends g c least (Methods.complete_deletion g context)
  unfolding Methods.complete_deletion
  complete_deletion-Ends context = bind (Clocked g least) _ _ clock (λ at read.
      bind _ _ _ (allowed context _ at _ _ (completable-Reads context.tenant_id at)) (λ r h.
        Steps-Ends g c least
          (λ d. with_record d context.tenant_id (deleted_copy g.text_of r context at)) _
          (λ s. writes_record g at _ s _ _ _)
          (completes context r at read h.0 h.1.found h.1.scheduled h.1.over h.1.free refl)))

  put_profile-Ends :
      (profile : TenantIsolationProfile) (context : TenantAccessContext)
      → Ends g c least (Methods.put_profile g profile context)
  unfolding Methods.put_profile
  put_profile-Ends profile context =
      bind (Clocked g least) _ _
        (>>=-Ensures _ _ AtView _ _ (raise_if-Ensures AtView _ _) (λ _ _. clock))
        (λ checked _.
          bind (λ _. not (text_eq context.tenant_id profile.tenant_id) ≡ false) _ _
            (>>=-Ensures _ _ AtView _ _
              (>>=-Ensures _ _ AtView _ _ (raise_if-Ensures AtView _ _)
                (λ _ _. raise_if-Ensures AtView _ _))
              (λ _ t. weaken-Ensures AtView _ _ _ clock (λ _ _. t)))
            (λ at t.
              Steps-Ends g c least (λ d. with_profile d profile) _ (λ s. writes_profile g at _ s _)
                (configures profile context (same_path string_discrete _ _ (undo_not _ t)) refl)))

  issue_support_grant-Ends :
      (target : String) (operator issued_by : ActorRef) (capabilities : List TenantCapability)
      (reason ticket : String) (ttl : ℕ)
      → Ends g c least
          (Methods.issue_support_grant g target operator issued_by capabilities reason ticket ttl)
  unfolding Methods.issue_support_grant
  issue_support_grant-Ends target operator issued_by capabilities reason ticket ttl =
      bind _ _ _ (raise_if-Ensures AtView (ltb ttl 30 || ltb 3600 ttl) value_error) (λ _ l.
        bind (Clocked g least) _ _
          (>>=-Ensures _ _ AtView _ _
            (>>=-Ensures _ _ AtView _ _ (raise_if-Ensures AtView _ _)
              (λ _ _. raise_if-Ensures AtView _ _))
            (λ _ _. clock))
          (λ at _.
            bind (λ b. is_enabled target c.profiles ≡ b) _ _
              (gets-Reads c least _ _ (λ s b p e.
                ap (λ (x : Store). is_enabled target x.profiles) (sym p) ∙ ok_injective _ _ e))
              (λ enabled n.
                bind (λ i. (not enabled ≡ false) × Drawn g least i) _ _
                  (>>=-Ensures _ _ AtView _ _ (raise_if-Ensures AtView _ _) (λ _ q.
                    weaken-Ensures AtView _ _ _ (identifier-Reads g c least) (λ _ d. (q, d))))
                  (λ i q.
                    bind _ _ _
                      (raise_if-Ensures AtView
                        (not (
                          validate_grant (
                            Methods.new_grant target operator issued_by capabilities reason ticket
                              ttl at i)))
                        value_error)
                      (λ _ v.
                        Steps-Ends g c least
                          (λ d.
                            with_grant d (target, i)
                              (Methods.new_grant target operator issued_by capabilities reason
                                ticket ttl at i))
                          _ (λ s. writes_grant g at _ s _ _ _)
                          (issues target operator issued_by capabilities reason ticket ttl at i
                            (ground (arith, l), ground (arith, l)) q.1 (n ∙ undo_not enabled q.0)
                            (undo_not _ v) refl))))))

  revoke-Ends :
      (k : Key) (e : SupportElevationGrant) (actor : ActorRef) (reason : String) (at : ℕ)
      → find Key_discrete k c.grants ≡ some e
      → Ends g c least (Methods.revoke g k e actor reason at)
  unfolding Methods.revoke
  revoke-Ends k e actor reason at f = elim (Option-cases e.revoked_at) [
    | inr (t, r) ↦ rw (Methods.revoke, r) (read_only Any _ (pure-Ensures AtView Any tt tt))
    | inl r ↦
        rw (Methods.revoke, r)
          (Steps-Ends g c least (λ d. with_grant d k (Methods.revoked_copy e at)) _
            (λ s. writes_revocation g at _ s _ _) (revokes k e at f r refl))
  ]

  revoke_support_grant-Ends :
      (target : String) (grant_id : ℕ) (actor : ActorRef) (reason : String)
      → Ends g c least (Methods.revoke_support_grant g target grant_id actor reason)
  unfolding Methods.revoke_support_grant
  revoke_support_grant-Ends target grant_id actor reason =
      bind (Clocked g least) _ _ clock (λ at read.
        bind (λ e. find Key_discrete (target, grant_id) c.grants ≡ some e) _ _
          (gets-Reads c least _ _ (λ s e p h.
            ap (λ (x : Store). find Key_discrete (target, grant_id) x.grants) (sym p)
            ∙ find_grant-ok (target, grant_id) s e h))
          (λ e f.
            bind _ _ _ (raise_if-Ensures AtView _ authorization_denied)
              (λ _ _. revoke-Ends (target, grant_id) e actor reason at f)))

  redeem_support_grant-Reads :
      (target : String) (grant_id : ℕ) (operator : ActorRef)
      → Reads c least Any (Methods.redeem_support_grant g target grant_id operator)
  unfolding Methods.redeem_support_grant
  redeem_support_grant-Reads target grant_id operator = >>=-Ensures _ _ AtView _ _ clock (λ at _.
      >>=-Ensures _ _ AtView Any _ (gets-Reads c least _ _ (λ s a p e. tt)) (λ enabled _.
        >>=-Ensures _ _ AtView Any _
          (>>=-Ensures _ _ AtView _ _ (raise_if-Ensures AtView _ _)
            (λ _ _. gets-Reads c least _ _ (λ s a p e. tt)))
          (λ e _.
            >>=-Ensures _ _ AtView _ _
              (>>=-Ensures _ _ AtView _ _ (raise_if-Ensures AtView _ _)
                (λ _ _. event-Reads g c least at _))
              (λ _ _. pure-Ensures AtView Any _ tt))))

  export_manifest-Reads :
      (context : TenantAccessContext) (counts : Dict String ℤ) (digests : List String)
      → Reads c least Any (Methods.export_manifest g context counts digests)
  unfolding Methods.export_manifest
  export_manifest-Reads context counts digests =
      >>=-Ensures _ _ AtView (Clocked g least) _
        (>>=-Ensures _ _ AtView _ _ (raise_if-Ensures AtView _ _) (λ _ _. clock))
        (λ at _.
          >>=-Ensures _ _ AtView (Drawn g least) _
            (>>=-Ensures _ _ AtView _ _ (authorize-Reads c least context _ at)
              (λ _ _. identifier-Reads g c least))
            (λ i _.
              >>=-Ensures _ _ AtView _ _ (event-Reads g c least at _)
                (λ _ _. pure-Ensures AtView Any _ tt)))

-- the methods that may change the store; `get_profile` and `list_audit` return what stands in it
pub data Operation : Type 0 where
  configure : TenantIsolationProfile → TenantAccessContext → Operation
  issue : String → ActorRef → ActorRef → List TenantCapability → String → String → ℕ → Operation
  redeem : String → ℕ → ActorRef → Operation
  withdraw : String → ℕ → ActorRef → String → Operation
  hold : TenantAccessContext → Bool → String → Operation
  plan : TenantAccessContext → ℕ → String → Operation
  complete : TenantAccessContext → Operation
  export_data : TenantAccessContext → Dict String ℤ → List String → Operation

-- the store after an operation, also after one that raises
abbrev pub run : Environment → Operation → Store → Store
run g (configure p c) s = (Methods.put_profile g p c s).1
run g (issue t o b cs r k n) s = (Methods.issue_support_grant g t o b cs r k n s).1
run g (redeem t i o) s = (Methods.redeem_support_grant g t i o s).1
run g (withdraw t i a r) s = (Methods.revoke_support_grant g t i a r s).1
run g (hold c b r) s = (Methods.set_legal_hold g c b r s).1
run g (plan c t r) s = (Methods.schedule_deletion g c t r s).1
run g (complete c) s = (Methods.complete_deletion g c s).1
run g (export_data c n d) s = (Methods.export_manifest g c n d s).1

-- the store after a sequence of operations
abbrev pub run_all : Environment → List Operation → Store → Store
run_all g [] s = s
run_all g (o ∷ os) s = run_all g os (run g o s)

pub data Reachable (g : Environment) : Store → Type 0 where
  start : Reachable g empty
  after : (o : Operation) (s : Store) → Reachable g s → Reachable g (run g o s)

-- every operation, whatever it returns or raises, is one step or none, and takes no answer back
run-Ends :
    (g : Environment) (o : Operation) (s : Store)
    → Moves g s.answers (view s) (view (run g o s)) × (s.answers ≤ (run g o s).answers)
run-Ends g (configure p c) s = (put_profile-Ends g (view s) s.answers p c).at s (refl, omega arith)
run-Ends g (issue t o b cs r k n) s =
    (issue_support_grant-Ends g (view s) s.answers t o b cs r k n).at s (refl, omega arith)
run-Ends g (redeem t i o) s =
    (read_only g (view s) s.answers Any _
        (redeem_support_grant-Reads g (view s) s.answers t i o)).at
      s (refl, omega arith)
run-Ends g (withdraw t i a r) s =
    (revoke_support_grant-Ends g (view s) s.answers t i a r).at s (refl, omega arith)
run-Ends g (hold c b r) s =
    (set_legal_hold-Ends g (view s) s.answers c b r).at s (refl, omega arith)
run-Ends g (plan c t r) s =
    (schedule_deletion-Ends g (view s) s.answers c t r).at s (refl, omega arith)
run-Ends g (complete c) s = (complete_deletion-Ends g (view s) s.answers c).at s (refl, omega arith)
run-Ends g (export_data c n d) s =
    (read_only g (view s) s.answers Any _ (export_manifest-Reads g (view s) s.answers c n d)).at s
      (refl, omega arith)

pub run-Moves :
    (g : Environment) (o : Operation) (s : Store) → Moves g s.answers (view s) (view (run g o s))
run-Moves g o s = (run-Ends g o s).0

pub answers-run : (g : Environment) (o : Operation) (s : Store) → s.answers ≤ (run g o s).answers
answers-run g o s = (run-Ends g o s).1
