-- ===== src/Scheduler.antt =====
-- `RecoverableScheduler` of
-- packages/python/prodkit-control-runtime/src/prodkit_control_runtime/ha.py, over the in-memory queue.
-- The handler is a parameter: any function of the work and the queue, which other workers may change
-- while it runs; so is the text of an exception.
mod Tests
use prodkit_control.Prelude.{
  ℕ, ◌+◌, ◌<◌, ◌≤◌, leb, ℕ_discrete, String, string_discrete, Bool, true, false, not, ◌&&◌, ◌||◌,
  Option, none, some, ◌≡◌, refl, sym, ◌∙◌, arith, is_blank, if◌then◌else◌, text_eq, text_eq_refl,
  inl, inr, Bool-cases,
}
use prodkit_control.Prelude.Int.{ℤ, is_negative, pos_part}
use prodkit_control.Prelude.Dict.{find, put, find-put_self}
use prodkit_control.Prelude.Result.{Exn, Result, ok, err, value_error}
use prodkit_control.Contracts.Work.{
  leased, succeeded, queued, dead_letter, DurableWorkItem, LeasedWorkItem, FencedLease,
  validate_binding, WorkState_discrete,
}
use prodkit_control.Queue.{
  Queue, acquire, complete, retry, is_valid_ttl, holds, require_current, retried, settle,
}
use prodkit_control.Queue.Fencing.{IsGranted, acquire-IsGranted, claim}
use prodkit_control.Queue.Held.{Agrees}

pub record Scheduler : Type 0 where
  pub queue_name : String
  pub owner_id : String
  pub lease_ttl : ℤ
  pub retry_delay : ℤ

-- `__init__`
unfoldable pub make : String → String → ℤ → ℤ → Result Scheduler
make queue_name owner_id lease_ttl retry_delay =
    if not (is_valid_ttl lease_ttl) || is_negative retry_delay
    then err value_error
    else ok (record {
      queue_name = queue_name;
      owner_id = owner_id;
      lease_ttl = lease_ttl;
      retry_delay = retry_delay;
    })

abbrev pub WorkHandler : Type 0
WorkHandler = LeasedWorkItem → Queue → Result (Unit {0}) × Queue

-- what `run_once` reads from the clock, and the fresh lease id
pub record Readings : Type 0 where
  pub acquired : ℕ
  pub checked : ℕ
  pub settled : ℕ
  pub lease_id : ℕ

module _ (describe : Exn → String) (handler : WorkHandler) where
  -- the handler, and what follows its end
  unfoldable pub run_work : Scheduler → Readings → LeasedWorkItem → Queue → Result Bool × Queue
  run_work s t w q =
      let (r, q1) = handler w q in
      elim r [
        | err e ↦
            let (r2, q2) = retry w s.retry_delay (describe e) t.checked t.settled q1 in
            elim r2 [ err e2 ↦ (err e2, q2) | ok _ ↦ (err e, q2) ]
        | ok _ ↦
            let (r2, q2) = complete w t.checked t.settled q1 in
            elim r2 [ err e2 ↦ (err e2, q2) | ok _ ↦ (ok true, q2) ]
      ]

  unfoldable pub run_once : Scheduler → String → Readings → Queue → Result Bool × Queue
  unfolding run_work
  run_once s tenant t q =
      if is_blank tenant
      then (err value_error, q)
      else (let (r, q1) =
            acquire s.queue_name tenant s.owner_id s.lease_ttl t.acquired t.lease_id q in
          elim r [
            | err e ↦ (err e, q1)
            | ok found ↦ elim found [ none ↦ (ok false, q1) | some w ↦ run_work s t w q1 ]
          ])

-- Work that the store still knows under an unexpired lease is its holder's.
granted_holds :
    (w : LeasedWorkItem) (now : ℕ)
    → w.item.state ≡ leased
    → validate_binding w ≡ true
    → now < w.lease.expires_at
    → holds w.item w.lease w now ≡ true
granted_holds w now s b live =
    ground (arith, text_eq_refl w.item.tenant_id, text_eq_refl w.lease.owner_id)

still_current :
    (w : LeasedWorkItem) (now : ℕ) (q : Queue)
    → find ℕ_discrete w.item.job_id q.items ≡ some w.item
    → find ℕ_discrete w.item.job_id q.leases ≡ some w.lease
    → holds w.item w.lease w now ≡ true
    → require_current w now q ≡ ok w.item
unfolding require_current
still_current w now q fi fl h = rw (fi, fl, h, require_current)

complete_current :
    (w : LeasedWorkItem) (now at : ℕ) (q : Queue)
    → require_current w now q ≡ ok w.item
    → let done = record w.item { state = succeeded; completed_at = some at } in
      complete w now at q ≡ (ok done, settle w.item.job_id done q)
unfolding complete
complete_current w now at q current = rw (current, complete)

retry_current :
    (w : LeasedWorkItem) (delay : ℤ) (error : String) (now at : ℕ) (q : Queue)
    → is_negative delay ≡ false
    → is_blank error ≡ false
    → require_current w now q ≡ ok w.item
    → let updated = retried w.item (at + pos_part delay) error in
      retry w delay error now at q ≡ (ok updated, settle w.item.job_id updated q)
unfolding retry
retry_current w delay error now at q d text current = rw (d, text, current, retry)

acquire_tenant :
    (queue tenant owner : String) (ttl : ℤ) (now lease_id : ℕ) (q q1 : Queue) (w : LeasedWorkItem)
    → acquire queue tenant owner ttl now lease_id q ≡ (ok (some w), q1)
    → is_blank tenant ≡ false
unfolding acquire
acquire_tenant queue tenant owner ttl now lease_id q q1 w got =
    elim (Bool-cases (is_blank tenant)) [ inl b ↦ absurd (ground arith) | inr b ↦ b ]

module _ (describe : Exn → String) (handler : WorkHandler) (s : Scheduler) (tenant : String)
    (t : Readings) (q q1 : Queue) (w : LeasedWorkItem) where
  run_once_found :
      acquire s.queue_name tenant s.owner_id s.lease_ttl t.acquired t.lease_id q ≡ (ok (some w), q1)
      → run_once describe handler s tenant t q ≡ run_work describe handler s t w q1
  unfolding run_once
  run_once_found got = ground (
    arith,
    acquire_tenant s.queue_name tenant s.owner_id s.lease_ttl t.acquired t.lease_id q q1 w got,
  )

module _ (describe : Exn → String) (handler : WorkHandler) (s : Scheduler) (t : Readings)
    (w : LeasedWorkItem) (q1 q2 : Queue) where
  run_work_returned :
      handler w q1 ≡ (ok tt, q2)
      → require_current w t.checked q2 ≡ ok w.item
      → let (result, q3) = run_work describe handler s t w q1 in
        (result ≡ ok true)
        × (find ℕ_discrete w.item.job_id q3.items
            ≡ some (record w.item { state = succeeded; completed_at = some t.settled }))
  unfolding run_work
  run_work_returned ran current =
      let done = record w.item { state = succeeded; completed_at = some t.settled } in
      let completed = complete_current w t.checked t.settled q2 current in
      let stored = find-put_self ℕ_discrete w.item.job_id done q2.items in
      (ground arith, ground arith)

  run_work_raised :
      (e : Exn)
      → handler w q1 ≡ (err e, q2)
      → require_current w t.checked q2 ≡ ok w.item
      → is_negative s.retry_delay ≡ false
      → is_blank (describe e) ≡ false
      → let (result, q3) = run_work describe handler s t w q1 in
        (result ≡ err e)
        × (find ℕ_discrete w.item.job_id q3.items
            ≡ some (retried w.item (t.settled + pos_part s.retry_delay) (describe e)))
  unfolding run_work
  run_work_raised e ran current delay text =
      let updated = retried w.item (t.settled + pos_part s.retry_delay) (describe e) in
      let returned =
        retry_current w s.retry_delay (describe e) t.checked t.settled q2 delay text current in
      let stored = find-put_self ℕ_discrete w.item.job_id updated q2.items in
      (ground arith, ground arith)

-- what an item becomes after an exception: queued again for a time while attempts are left, a dead letter
-- otherwise, with the text of the exception
abbrev pub IsRetried : DurableWorkItem → ℕ → String → DurableWorkItem → Type 0
IsRetried i available error x =
    (i.attempt < i.max_attempts
      → x ≡ record i { state = queued; available_at = available; last_error = some error })
    × (i.max_attempts ≤ i.attempt → x ≡ record i { state = dead_letter; last_error = some error })

retried-IsRetried :
    (i : DurableWorkItem) (available : ℕ) (error : String)
    → IsRetried i available error (retried i available error)
retried-IsRetried i available error = (
  λ l. let more : leb i.max_attempts i.attempt ≡ false = ground (arith, l) in rw more refl,
  λ l. let over : leb i.max_attempts i.attempt ≡ true = ground (arith, l) in rw over refl,
)

-- Where the retry delay is not negative and no exception's text is blank: when `run_once` finds work
-- and, while its handler runs, nobody touches the job and the lease does not expire, the work is settled by how the handler ended: after a return the stored item has
-- succeeded, at the time of the settlement, and the result is True; after an exception the stored item is
-- queued, available after the delay, while attempts are left, and a dead letter when they are used up,
-- with the exception's text and otherwise as it was, and the exception is raised again.
pub run_once_settles :
    (describe : Exn → String) (handler : WorkHandler) (s : Scheduler) (tenant : String)
    (t : Readings) (q q1 q2 : Queue) (w : LeasedWorkItem) (r : Result (Unit {0}))
    → ((e : Exn) → is_blank (describe e) ≡ false)
    → is_negative s.retry_delay ≡ false
    → acquire s.queue_name tenant s.owner_id s.lease_ttl t.acquired t.lease_id q ≡ (ok (some w), q1)
    → handler w q1 ≡ (r, q2)
    → Agrees w.item.job_id q1 q2
    → t.checked < w.lease.expires_at
    → let (result, q3) = run_once describe handler s tenant t q in
      (r ≡ ok tt
        → (result ≡ ok true)
          × (find ℕ_discrete w.item.job_id q3.items
              ≡ some (record w.item { state = succeeded; completed_at = some t.settled })))
      × ((e : Exn)
          → r ≡ err e
          → (result ≡ err e)
            × (x : DurableWorkItem) × (find ℕ_discrete w.item.job_id q3.items ≡ some x)
            × IsRetried w.item (t.settled + pos_part s.retry_delay) (describe e) x)
run_once_settles describe handler s tenant t q q1 q2 w r text delay got ran kept live =
    let (g, _) =
      acquire-IsGranted s.queue_name tenant s.owner_id s.lease_ttl t.acquired t.lease_id q q1 w
        got in
    let current =
      still_current w t.checked q2 (kept.0 ∙ g.stored_item) (kept.1 ∙ g.stored_lease)
        (granted_holds w t.checked g.is_leased g.bound live) in
    rw (run_once_found describe handler s tenant t q q1 w got) (
      λ returned.
          run_work_returned describe handler s t w q1 q2 (returned_as r ran returned) current,
      λ e raised.
          let (again, found) =
            run_work_raised describe handler s t w q1 q2 e (raised_as r ran e raised) current delay
              (text e) in
          (again, _, found, retried-IsRetried w.item _ (describe e)),
    )
  where
    returned_as :
        (r : Result (Unit {0})) → handler w q1 ≡ (r, q2) → r ≡ ok tt → handler w q1 ≡ (ok tt, q2)
    returned_as r ran p = rw p at ran

    raised_as :
        (r : Result (Unit {0}))
        → handler w q1 ≡ (r, q2)
        → (e : Exn) → r ≡ err e
        → handler w q1 ≡ (err e, q2)
    raised_as r ran e p = rw p at ran
