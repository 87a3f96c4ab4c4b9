-- ===== src/Queue/Run.antt =====
-- Runs: any callers, in any order, with any arguments, while time passes.
use prodkit_control.Prelude.{
  ℕ, ◌+◌, ◌≤◌, ◌<◌, ℕ_discrete, true, false, Option, some, List, [], ◌∷◌, ◌≡◌, refl, arith, String,
  All, is_blank, ◌∙◌,
}
use native.Mathlib.Nat.{le_trans}
use prodkit_control.Prelude.Int.{ℤ, pos}
use prodkit_control.Prelude.Dict.{find, IsDict}
use prodkit_control.Prelude.Result.{Result, ok, err, lease_lost}
use prodkit_control.Contracts.Work.{DurableWorkItem, LeasedWorkItem, validate_lifecycle}
use mathlib.Core.Path.{subst}
use prodkit_control.Queue.{
  Queue, empty, init, enqueue, acquire, complete, retry, fence_token, require_current, active,
}
use prodkit_control.Queue.Changes.{Changes, here, next, IsKeyed, Change-IsKeyed}
use prodkit_control.Queue.Methods.{
  enqueue-Changes, acquire-Changes, complete-Changes, retry-Changes,
}
use prodkit_control.Queue.Invariant.{Items, IsSound, Change-IsSound}
use prodkit_control.Queue.Depth.{IsWithin, Change-IsWithin, Change-max_queue_depth}
use prodkit_control.Queue.Fencing.{Change-fence_token, acquire-IsGranted, require_current_stale}

-- The calls that change the queue.
pub data Op : Type 0 where
  enqueues : DurableWorkItem → Op
  acquires : (queue tenant owner : String) (ttl : ℤ) (lease_id : ℕ) → Op
  completes : LeasedWorkItem → Op
  retries : LeasedWorkItem → (delay : ℤ) (error : String) → Op

-- A call, the time that passes before it, and between its two readings of the clock.
pub record Event : Type 0 where
  pub wait : ℕ
  pub work : ℕ
  pub op : Op

abbrev pub apply : Op → ℕ → ℕ → Queue → Queue
apply (enqueues i) now at q = (enqueue i q).1
apply (acquires queue tenant owner ttl lease_id) now at q =
    (acquire queue tenant owner ttl now lease_id q).1
apply (completes w) now at q = (complete w now at q).1
apply (retries w delay error) now at q = (retry w delay error now at q).1

-- The time and the queue after the events.
unfoldable pub run : List Event → ℕ → Queue → ℕ × Queue
run [] t q = (t, q)
run (e ∷ es) t q = run es (t + e.wait + e.work) (apply e.op (t + e.wait) (t + e.wait + e.work) q)

-- What is enqueued satisfies its contract, which its constructor has checked.
abbrev pub IsValidOp : Op → Type 0
IsValidOp (enqueues i) = validate_lifecycle i ≡ true
IsValidOp _ = Unit

abbrev pub AreValid : List Event → Type 0
AreValid = All (λ (e : Event). IsValidOp e.op)

pub record IsConsistent (depth now : ℕ) (q : Queue) : Type 0 where
  pub configured : q.max_queue_depth ≡ depth
  pub is_keyed : IsKeyed q
  pub sound : Items (IsSound now) q.items
  pub within : IsWithin q

empty-IsConsistent : (depth now : ℕ) → IsConsistent depth now (empty depth)
unfolding find
empty-IsConsistent depth now = record {
  configured = refl;
  is_keyed = record { items_dict = tt; leases_dict = tt; keyed = λ job i f. absurd (cc f) };
  sound = λ job i f. absurd (cc f);
  within = λ queue. omega arith;
}

-- A fresh queue is consistent.
pub init-IsConsistent : (depth now : ℕ) (q : Queue) → init depth ≡ ok q → IsConsistent depth now q
unfolding init
init-IsConsistent depth now q h =
    let same_queue : empty depth ≡ q = ground arith in
    subst (λ x. IsConsistent depth now x) same_queue (empty-IsConsistent depth now)

Changes-IsConsistent :
    {depth now : ℕ} {q r : Queue}
    → Changes now q r
    → IsConsistent depth now q
    → IsConsistent depth now r
Changes-IsConsistent here h = h
Changes-IsConsistent (next cs c) h =
    let p = Changes-IsConsistent cs h in
    record {
      configured = Change-max_queue_depth c ∙ p.configured;
      is_keyed = Change-IsKeyed c p.is_keyed;
      sound = Change-IsSound c p.sound;
      within = Change-IsWithin c p.within;
    }

Changes-fence_token :
    {now : ℕ} {q r : Queue} → Changes now q r → (job : ℕ) → fence_token q job ≤ fence_token r job
Changes-fence_token here job = omega arith
Changes-fence_token (next cs c) job =
    le_trans (Changes-fence_token cs job) (Change-fence_token c job)

apply-Changes :
    (op : Op) (now at : ℕ) (q : Queue)
    → IsValidOp op
    → now ≤ at
    → IsKeyed q
    → Changes now q (apply op now at q)
apply-Changes (enqueues i) now at q v t h = enqueue-Changes i now q v
apply-Changes (acquires queue tenant owner ttl lease_id) now at q v t h =
    acquire-Changes queue tenant owner ttl now lease_id q h
apply-Changes (completes w) now at q v t h = complete-Changes w now at q h
apply-Changes (retries w delay error) now at q v t h = retry-Changes w delay error now at q t h

-- Time alone breaks nothing.
later-IsConsistent :
    {depth now later : ℕ} {q : Queue}
    → now ≤ later
    → IsConsistent depth now q
    → IsConsistent depth later q
later-IsConsistent t h = record {
  configured = h.configured;
  is_keyed = h.is_keyed;
  sound = λ job i f. ((h.sound job i f).0, λ s. le_trans ((h.sound job i f).1 s) t);
  within = h.within;
}

-- Whatever is called, in any order and at any times: items stay valid, nothing is stored twice, and
-- no queue is deeper than configured.
pub run-IsConsistent :
    {depth : ℕ} (es : List Event) (t : ℕ) (q : Queue)
    → AreValid es
    → IsConsistent depth t q
    → IsConsistent depth (run es t q).0 (run es t q).1
unfolding run
run-IsConsistent [] t q v h = h
run-IsConsistent (e ∷ es) t q v h = run-IsConsistent es _ _ v.1 (
    later-IsConsistent (omega arith) (
      Changes-IsConsistent (apply-Changes e.op (t + e.wait) _ q v.0 (omega arith) h.is_keyed)
        (later-IsConsistent (omega arith) h)))

pub run-fence_token :
    {depth : ℕ} (es : List Event) (t : ℕ) (q : Queue)
    → AreValid es
    → IsConsistent depth t q
    → (job : ℕ) → fence_token q job ≤ fence_token (run es t q).1 job
unfolding run
run-fence_token [] t q v h job = omega arith
run-fence_token (e ∷ es) t q v h job =
    let cs = apply-Changes e.op (t + e.wait) (t + e.wait + e.work) q v.0 (omega arith) h.is_keyed in
    le_trans (Changes-fence_token cs job) (
      run-fence_token es _ _ v.1
        (later-IsConsistent (omega arith)
          (Changes-IsConsistent cs (later-IsConsistent (omega arith) h)))
        job)

-- Any sequence of calls on a new queue, with any arguments and any passing of time, leaves every
-- stored item valid under its contract's validator (attempts within their maximum, a completion
-- time exactly when it succeeded, an error when it is a dead letter), each item under its own job
-- id, no job id twice, and no more queued and leased work in a queue than the configured depth.
-- Each enqueued item is valid, as its constructor ensures.
pub run_from_init :
    (depth t : ℕ) (q : Queue) (es : List Event)
    → init depth ≡ ok q
    → AreValid es
    → let r = (run es t q).1 in
      ((job : ℕ) (i : DurableWorkItem)
        → find ℕ_discrete job r.items ≡ some i
        → (validate_lifecycle i ≡ true) × (i.job_id ≡ job))
      × IsDict ℕ_discrete r.items
      × ((queue : String) → active r queue ≤ depth)
run_from_init depth t q es h v =
    let start = init-IsConsistent depth t q h in
    let c = run-IsConsistent es t q v start in
    (
      λ job i f. ((c.sound job i f).0, c.is_keyed.keyed job i f),
      c.is_keyed.items_dict,
      λ queue. omega (arith, c.within queue, c.configured),
    )

-- A worker that has lost its job cannot finish it. Where an item of a consistent queue was acquired, and after any
-- calls, which enqueue valid items only, the same job is acquired anew from its tenant's queue, completing
-- it under the old lease raises LeaseLostError and changes nothing, and so does retrying it with a delay
-- that is not negative and an error text that is not blank.
pub stale_holder_rejected :
    (depth : ℕ) (q q1 q2 : Queue) (queue tenant owner owner' : String) (ttl ttl' : ℤ)
    (now lease_id lease_id' : ℕ) (w w' : LeasedWorkItem) (es : List Event) (now' at delay : ℕ)
    (error : String)
    → IsConsistent depth now q
    → acquire queue tenant owner ttl now lease_id q ≡ (ok (some w), q1)
    → AreValid es
    → (let (t', r) = run es now q1 in
        acquire queue tenant owner' ttl' t' lease_id' r ≡ (ok (some w'), q2))
    → w.item.job_id ≡ w'.item.job_id
    → is_blank error ≡ false
    → (complete w now' at q2 ≡ (err lease_lost, q2))
      × (retry w (pos delay) error now' at q2 ≡ (err lease_lost, q2))
unfolding complete retry
stale_holder_rejected depth q q1 q2 queue tenant owner owner' ttl ttl' now lease_id lease_id' w w'
      es now' at delay error c first v second same_job e =
    let c1 : IsConsistent depth now q1 =
      subst (λ (x : Result (Option LeasedWorkItem) × Queue). IsConsistent depth now x.1) first
        (Changes-IsConsistent (acquire-Changes queue tenant owner ttl now lease_id q c.is_keyed)
          c) in
    let (g, _) = acquire-IsGranted queue tenant owner ttl now lease_id q q1 w first in
    let (t', r) = run es now q1 in
    let (g', _) = acquire-IsGranted queue tenant owner' ttl' t' lease_id' r q2 w' second in
    let kept = run-fence_token es now q1 v c1 w.item.job_id in
    let newer : fence_token r w.item.job_id < w'.lease.fence_token = rw same_job g'.newest in
    let held : find ℕ_discrete w.item.job_id q2.leases ≡ some w'.lease =
      rw same_job g'.stored_lease in
    let stale : require_current w now' q2 ≡ err lease_lost =
      require_current_stale w w'.lease now' q2 held (omega (arith, g.current)) in
    (rw (stale, complete), rw (e, stale, retry))
