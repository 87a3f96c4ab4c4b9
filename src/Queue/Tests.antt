-- ===== src/Queue/Tests.antt =====
-- Runs of the in-memory work queue, and the theorems about it at them.
use prodkit_control.Prelude.{
  ℕ, ◌+◌, ◌≤◌, ◌<◌, ℕ_discrete, String, string_discrete, true, false, none, some, List, [], ◌∷◌,
  ◌≡◌, ◌≢◌, refl, sym, arith, is_space, is_blank,
}
use mathlib.Core.Path.{subst}
use prodkit_control.Prelude.Int.{pos}
use prodkit_control.Prelude.Dict.{find, put, erase, IsDict}
use prodkit_control.Prelude.Sort.{insert, sort}
use prodkit_control.Prelude.Result.{ok, err, lease_lost}
use prodkit_control.Contracts.Json.{
  Json, null, boolean, number, object, field, end, same_json, size, get_field, as_int, ℤ_discrete,
}
use prodkit_control.Contracts.Work.{
  WorkState_discrete, queued, job, FencedLease, DurableWorkItem, LeasedWorkItem, validate_lifecycle,
}
use prodkit_control.Queue.{
  Queue, empty, init, Identity_discrete, active, enqueue, eligible, comes_before, leased_copy,
  selected, candidates, bury, grant, acquire_from, acquire, complete, retry,
}
use prodkit_control.Queue.Changes.{IsKeyed}
use prodkit_control.Queue.Run.{
  enqueues, acquires, Event, run, IsConsistent, init-IsConsistent, run-IsConsistent, run_from_init,
  stale_holder_rejected,
}
use prodkit_control.Queue.Order.{acquire-first}
use prodkit_control.Queue.Held.{held_untouched}

abbrev work : ℕ → String → DurableWorkItem
work job_id idempotency_key = record {
  job_id = job_id;
  tenant_id = "t";
  queue = "q";
  kind = "k";
  idempotency_key = idempotency_key;
  payload = null;
  created_at = 1;
  available_at = 1;
  attempt = 0;
  max_attempts = 3;
  state = queued;
  completed_at = none;
  last_error = none;
}

abbrev one_hour : ℕ
one_hour = 3_600_000_000

abbrev start : Queue
start = empty 2

abbrev lease : String → ℕ → ℕ → ℕ → FencedLease
lease owner token at lease_id = record {
  lease_id = lease_id;
  tenant_id = "t";
  resource_key = job "q" 7;
  owner_id = owner;
  fence_token = token;
  acquired_at = at;
  expires_at = at + one_hour;
}

abbrev held_work : LeasedWorkItem
held_work = record { item = leased_copy (work 7 "a"); lease = lease "x" 1 5 100 }

-- one item, and then with it leased to `x`
abbrev one_item : Queue
one_item = record {
  max_queue_depth = 2;
  items = (7, work 7 "a") ∷ [];
  identities = (("t", "q", "a"), 7) ∷ [];
  leases = [];
  fence_tokens = [];
}

abbrev one_leased : Queue
one_leased = record one_item {
  items = (7, held_work.item) ∷ [];
  leases = (7, held_work.lease) ∷ [];
  fence_tokens = (7, 1) ∷ [];
}

enqueued : enqueue (work 7 "a") start ≡ (ok (work 7 "a"), one_item)
unfolding enqueue find put Identity_discrete string_discrete WorkState_discrete
enqueued = refl

acquired : acquire "q" "t" "x" (pos one_hour) 5 100 one_item ≡ (ok (some held_work), one_leased)
unfolding acquire acquire_from candidates selected sort insert bury grant find put erase
    string_discrete is_blank is_space ℕ_discrete
acquired = refl

-- The lease of `x` runs out, and `y` is given the work.
abbrev later : ℕ
later = 3_600_000_010

abbrev retaken_work : LeasedWorkItem
retaken_work = record { item = leased_copy held_work.item; lease = lease "y" 2 later 101 }

abbrev retaken : Queue
retaken = record one_item {
  items = (7, retaken_work.item) ∷ [];
  leases = (7, retaken_work.lease) ∷ [];
  fence_tokens = (7, 2) ∷ [];
}

abbrev pause : List Event
pause = record { wait = 3_600_000_000; work = 5; op = acquires "other" "t" "z" (pos 1) 9 } ∷ []

init-start : init 2 ≡ ok start
unfolding init
init-start = refl

paused : run pause 5 one_leased ≡ (later, one_leased)
unfolding run acquire acquire_from candidates selected sort insert bury grant find put erase
    string_discrete is_blank is_space ℕ_discrete
paused = refl

reacquired :
    acquire "q" "t" "y" (pos one_hour) later 101 one_leased ≡ (ok (some retaken_work), retaken)
unfolding acquire acquire_from candidates selected sort insert bury grant find put erase
    string_discrete is_blank is_space ℕ_discrete
reacquired = refl

not_blank : is_blank "boom" ≡ false
unfolding is_blank is_space
not_blank = refl

abbrev first_enqueue : List Event
first_enqueue = record { wait = 5; work = 0; op = enqueues (work 7 "a") } ∷ []

first_run : run first_enqueue 0 start ≡ (5, one_item)
unfolding run enqueue find put Identity_discrete string_discrete WorkState_discrete ℕ_discrete
first_run = refl

one-IsConsistent : IsConsistent 2 5 one_item
one-IsConsistent =
    subst (λ (x : ℕ × Queue). IsConsistent 2 x.0 x.1) first_run
      (run-IsConsistent first_enqueue 0 start (refl, tt) (init-IsConsistent 2 0 start init-start))

abbrev first_acquire : List Event
first_acquire = record { wait = 0; work = 0; op = acquires "q" "t" "x" (pos one_hour) 100 } ∷ []

second_run : run first_acquire 5 one_item ≡ (5, one_leased)
unfolding run acquire acquire_from candidates selected sort insert bury grant find put erase
    string_discrete is_blank is_space ℕ_discrete
second_run = refl

run_from_init_example :
    let r = (run first_enqueue 0 start).1 in
    ((job : ℕ) (i : DurableWorkItem)
      → find ℕ_discrete job r.items ≡ some i
      → (validate_lifecycle i ≡ true) × (i.job_id ≡ job))
    × IsDict ℕ_discrete r.items
    × ((queue : String) → active r queue ≤ 2)
run_from_init_example = run_from_init 2 0 start first_enqueue init-start (refl, tt)

stale_holder_rejected_example :
    (complete held_work (later + 1) (later + 2) retaken ≡ (err lease_lost, retaken))
    × (retry held_work (pos 1) "boom" (later + 1) (later + 2) retaken ≡ (err lease_lost, retaken))
stale_holder_rejected_example =
    stale_holder_rejected 2 one_item one_leased retaken "q" "t" "x" "y" (pos one_hour)
      (pos one_hour) 5 100 101 held_work retaken_work pause (later + 1) (later + 2) 1 "boom"
      one-IsConsistent acquired (tt, tt)
      (subst
        (λ (x : ℕ × Queue).
          acquire "q" "t" "y" (pos one_hour) x.0 101 x.1 ≡ (ok (some retaken_work), retaken))
        (sym paused) reacquired)
      refl not_blank

one-IsKeyed : IsKeyed one_item
one-IsKeyed = one-IsConsistent.is_keyed

acquire-first_example :
    (i : DurableWorkItem) × (held_work.item ≡ leased_copy i)
    × (find ℕ_discrete i.job_id one_item.items ≡ some i)
    × (i.tenant_id ≡ "t")
    × (i.queue ≡ "q")
    × (eligible one_item i 5 ≡ true)
    × (i.attempt < i.max_attempts)
    × ((job : ℕ) (k : DurableWorkItem)
        → find ℕ_discrete job one_item.items ≡ some k
        → k.tenant_id ≡ "t"
        → k.queue ≡ "q"
        → eligible one_item k 5 ≡ true
        → k.attempt < k.max_attempts
        → comes_before k i ≡ false)
acquire-first_example =
    acquire-first "q" "t" "x" (pos one_hour) 5 100 one_item one_leased held_work one-IsKeyed
      acquired

leased-IsKeyed : IsKeyed one_leased
leased-IsKeyed =
    (subst (λ (x : ℕ × Queue). IsConsistent 2 x.0 x.1) second_run
      (run-IsConsistent first_acquire 5 one_item (tt, tt) one-IsConsistent)).is_keyed

found_item : find ℕ_discrete 7 one_leased.items ≡ some held_work.item
unfolding find ℕ_discrete
found_item = refl

found_lease : find ℕ_discrete 7 one_leased.leases ≡ some held_work.lease
unfolding find ℕ_discrete
found_lease = refl

held_untouched_example :
    let (result, r) = acquire "q" "t" "y" (pos one_hour) 9 101 one_leased in
    ((w : LeasedWorkItem) → result ≡ ok (some w) → w.item.job_id ≢ 7)
    × (find ℕ_discrete 7 r.items ≡ some held_work.item)
    × (find ℕ_discrete 7 r.leases ≡ some held_work.lease)
held_untouched_example =
    held_untouched "q" "t" "y" (pos one_hour) 9 101 one_leased 7 held_work.item held_work.lease
      leased-IsKeyed found_item refl found_lease (ground arith)

-- two keys in the other order, and True for 1
same_payload :
    same_json
      (object (field "a" (boolean true) (field "b" null end)))
      (object (field "b" null (field "a" (number (pos 1)) end)))
    ≡ true
unfolding same_json size get_field as_int ℤ_discrete string_discrete ℕ_discrete
same_payload = refl

-- the same work under another job id, with its payload's keys in the other order
abbrev with_payload : Json → DurableWorkItem → DurableWorkItem
with_payload p i = record i { payload = p }

abbrev first_work : DurableWorkItem
first_work = with_payload (object (field "a" (boolean true) (field "b" null end))) (work 7 "a")

abbrev same_work : DurableWorkItem
same_work = with_payload (object (field "b" null (field "a" (number (pos 1)) end))) (work 8 "a")

abbrev one_admitted : Queue
one_admitted = record one_item { items = (7, first_work) ∷ [] }
