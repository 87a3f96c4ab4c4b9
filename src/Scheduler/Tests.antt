-- ===== src/Scheduler/Tests.antt =====
-- Concrete runs, and the theorems at them.
use prodkit_control.Prelude.{
  ℕ_discrete, String, string_discrete, true, false, none, some, [], ◌∷◌, ◌≡◌, refl, arith, is_space,
  is_blank,
}
use prodkit_control.Prelude.Int.{pos}
use prodkit_control.Prelude.Dict.{find, put, erase}
use prodkit_control.Prelude.Sort.{insert, sort}
use prodkit_control.Prelude.Result.{Exn, Result, ok, err, value_error}
use prodkit_control.Contracts.Json.{null}
use prodkit_control.Contracts.Work.{queued, succeeded, job, DurableWorkItem, LeasedWorkItem}
use prodkit_control.Queue.{
  Queue, leased_copy, selected, candidates, bury, grant, acquire_from, acquire,
}
use prodkit_control.Scheduler.{
  Scheduler, WorkHandler, Readings, run_once, IsRetried, run_once_settles,
}

abbrev work : DurableWorkItem
work = record {
  job_id = 7;
  tenant_id = "t";
  queue = "q";
  kind = "k";
  idempotency_key = "a";
  payload = null;
  created_at = 1;
  available_at = 1;
  attempt = 0;
  max_attempts = 3;
  state = queued;
  completed_at = none;
  last_error = none;
}

abbrev leased_work : LeasedWorkItem
leased_work = record {
  item = leased_copy work;
  lease = record {
    lease_id = 900;
    tenant_id = "t";
    resource_key = job "q" 7;
    owner_id = "x";
    fence_token = 1;
    acquired_at = 5;
    expires_at = 105;
  };
}

abbrev before : Queue
before = record {
  max_queue_depth = 2;
  items = (7, work) ∷ [];
  identities = (("t", "q", "a"), 7) ∷ [];
  leases = [];
  fence_tokens = [];
}

abbrev during : Queue
during = record before {
  items = (7, leased_work.item) ∷ [];
  leases = (7, leased_work.lease) ∷ [];
  fence_tokens = (7, 1) ∷ [];
}

abbrev scheduler : Scheduler
scheduler = record { queue_name = "q"; owner_id = "x"; lease_ttl = pos 100; retry_delay = pos 10 }

abbrev readings : Readings
readings = record { acquired = 5; checked = 50; settled = 51; lease_id = 900 }

-- a handler that fails, and leaves the queue alone
abbrev failing : WorkHandler
failing w q = (err value_error, q)

abbrev describe : Exn → String
describe e = "failed"

described : (e : Exn) → is_blank (describe e) ≡ false
unfolding is_blank is_space
described e = refl

found : acquire "q" "t" "x" (pos 100) 5 900 before ≡ (ok (some leased_work), during)
unfolding acquire acquire_from candidates selected sort insert bury grant find put erase
    string_discrete is_blank is_space ℕ_discrete
found = refl

abbrev raised : Result (Unit {0})
raised = err value_error

run_once_settles_example :
    let (result, q3) = run_once describe failing scheduler "t" readings before in
    (raised ≡ ok tt
      → (result ≡ ok true)
        × (find ℕ_discrete 7 q3.items
            ≡ some (record leased_work.item { state = succeeded; completed_at = some 51 })))
    × ((e : Exn)
        → raised ≡ err e
        → (result ≡ err e)
          × (x : DurableWorkItem) × (find ℕ_discrete 7 q3.items ≡ some x)
          × IsRetried leased_work.item 61 (describe e) x)
run_once_settles_example =
    run_once_settles describe failing scheduler "t" readings before during during leased_work raised
      described refl found refl (refl, refl) (ground arith)
