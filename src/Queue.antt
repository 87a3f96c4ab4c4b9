-- ===== src/Queue.antt =====
-- `InMemoryDurableWorkQueue` of
-- packages/python/prodkit-control-runtime/src/prodkit_control_runtime/ha.py. Each method holds the
-- store's lock for its whole body, so a method is one step. What it reads from the clock and the
-- identifier it draws are arguments.
pub mod Changes
pub mod Methods
pub mod Invariant
pub mod Depth
pub mod Fencing
pub mod Run
pub mod Order
pub mod Held
pub mod Admission
mod Tests
use prodkit_control.Prelude.{
  ℕ, ◌+◌, ℕ_discrete, String, string_discrete, Bool, true, false, not, ◌&&◌, ◌||◌, Option, none,
  some, List, [], ◌∷◌, map, leb, ltb, ◌==◌, same, text_eq, is_blank, if◌then◌else◌, count,
}
use prodkit_control.Prelude.Dict.{Dict, find, put, erase}
use prodkit_control.Prelude.Int.{ℤ, is_negative, pos_part}
use prodkit_control.Prelude.Sort.{sort}
use prodkit_control.Prelude.Result.{
  Result, ok, err, value_error, key_error, duplicate_action, queue_overloaded, lease_lost,
}
use prodkit_control.Contracts.Json.{same_json}
use prodkit_control.Contracts.Work.{
  WorkState, WorkState_discrete, queued, leased, succeeded, dead_letter, FencedLease, is_expired,
  DurableWorkItem, resource_key, is_truthy, LeasedWorkItem, QueueSnapshot,
}

abbrev pub Identity : Type 0
Identity = String × String × String

unfoldable pub Identity_discrete : Discrete Identity
Identity_discrete = hlevel string_discrete

pub record Queue : Type 0 where
  pub max_queue_depth : ℕ
  pub items : Dict ℕ DurableWorkItem
  pub identities : Dict Identity ℕ
  pub leases : Dict ℕ FencedLease
  pub fence_tokens : Dict ℕ ℕ

abbrev pub empty : ℕ → Queue
empty max_queue_depth = record {
  max_queue_depth = max_queue_depth;
  items = [];
  identities = [];
  leases = [];
  fence_tokens = [];
}

-- `__init__`
unfoldable pub init : ℕ → Result Queue
init max_queue_depth = if ltb max_queue_depth 1 then err value_error else ok (empty max_queue_depth)

-- `_require_positive_ttl`: 86400 seconds, in microseconds
abbrev pub max_ttl : ℕ
max_ttl = 86_400_000_000

abbrev pub is_valid_ttl : ℤ → Bool
is_valid_ttl ttl = not (is_negative ttl || (pos_part ttl == 0 || ltb max_ttl (pos_part ttl)))

abbrev pub is_active : WorkState → Bool
is_active queued = true
is_active leased = true
is_active succeeded = false
is_active dead_letter = false

-- the work that counts against the depth of a queue
abbrev pub counts_in : String → ℕ × DurableWorkItem → Bool
counts_in queue (_, i) = text_eq i.queue queue && is_active i.state

abbrev pub active : Queue → String → ℕ
active q queue = count (counts_in queue) q.items

abbrev pub identity : DurableWorkItem → Identity
identity i = (i.tenant_id, i.queue, i.idempotency_key)

-- another kind, payload or number of attempts under the same idempotency key
abbrev pub differs : DurableWorkItem → DurableWorkItem → Bool
differs existing i =
    not (text_eq existing.kind i.kind)
    || (not (same_json existing.payload i.payload) || not (existing.max_attempts == i.max_attempts))

-- the item that a new identity adds, within the depth of its queue
abbrev pub admit : DurableWorkItem → Queue → Queue
admit i q = record q {
  items = put ℕ_discrete i.job_id i q.items;
  identities = put Identity_discrete (identity i) i.job_id q.identities;
}

unfoldable pub enqueue : DurableWorkItem → Queue → Result DurableWorkItem × Queue
enqueue i q =
    if not (same WorkState_discrete i.state queued) || not (i.attempt == 0)
    then (err value_error, q)
    else elim (find Identity_discrete (identity i) q.identities) [
      | some job_id ↦ elim (find ℕ_discrete job_id q.items) [
        | none ↦ (err key_error, q)
        | some existing ↦ if differs existing i then (err duplicate_action, q) else (ok existing, q)
      ]
      | none ↦
          if leb q.max_queue_depth (active q i.queue)
          then (err queue_overloaded, q)
          else (ok i, admit i q)
    ]

abbrev pub lapsed : Option FencedLease → ℕ → Bool
lapsed none now = true
lapsed (some l) now = is_expired l now

abbrev pub eligible_in : WorkState → DurableWorkItem → Option FencedLease → ℕ → Bool
eligible_in queued i l now = leb i.available_at now
eligible_in leased i l now = lapsed l now
eligible_in _ i l now = false

-- `_eligible`
abbrev pub eligible : Queue → DurableWorkItem → ℕ → Bool
eligible q i now = eligible_in i.state i (find ℕ_discrete i.job_id q.leases) now

-- the key of `sorted`: availability, creation, then the job id (whose text orders as the number)
abbrev pub comes_before : DurableWorkItem → DurableWorkItem → Bool
comes_before a b =
    ltb a.available_at b.available_at
    || (a.available_at == b.available_at
        && (ltb a.created_at b.created_at
            || (a.created_at == b.created_at && ltb a.job_id b.job_id)))

unfoldable pub selected :
    Queue → String → String → ℕ → Dict ℕ DurableWorkItem → List DurableWorkItem
selected q tenant queue now [] = []
selected q tenant queue now ((_, i) ∷ m) =
    let rest = selected q tenant queue now m in
    elim (text_eq i.queue queue && (text_eq i.tenant_id tenant && eligible q i now)) [
      | true ↦ i ∷ rest
      | false ↦ rest
    ]

unfoldable pub candidates : Queue → String → String → ℕ → List DurableWorkItem
unfolding selected
candidates q tenant queue now = sort comes_before (selected q tenant queue now q.items)

abbrev pub lease_expired : String
lease_expired = "lease expired after final attempt"

-- the copy that a candidate without attempts left is replaced by
abbrev pub exhausted : DurableWorkItem → DurableWorkItem
exhausted i = record i {
  state = dead_letter;
  last_error = if is_truthy i.last_error then i.last_error else some lease_expired;
}

unfoldable pub bury : DurableWorkItem → Queue → Queue
bury i q = record q {
  items = put ℕ_discrete i.job_id (exhausted i) q.items;
  leases = erase ℕ_discrete i.job_id q.leases;
}

-- `self._fence_tokens[job_id]` of a `defaultdict(int)`
abbrev pub fence_token : Queue → ℕ → ℕ
fence_token q job = elim (find ℕ_discrete job q.fence_tokens) [ none ↦ 0 | some t ↦ t ]

-- the caller of `acquire`: its name, the lease's length, the time and the fresh lease id
pub record Claim : Type 0 where
  pub owner_id : String
  pub ttl : ℕ
  pub now : ℕ
  pub lease_id : ℕ

abbrev pub lease_of : Claim → DurableWorkItem → ℕ → FencedLease
lease_of c i token = record {
  lease_id = c.lease_id;
  tenant_id = i.tenant_id;
  resource_key = resource_key i;
  owner_id = c.owner_id;
  fence_token = token;
  acquired_at = c.now;
  expires_at = c.now + c.ttl;
}

abbrev pub leased_copy : DurableWorkItem → DurableWorkItem
leased_copy i = record i { state = leased; attempt = i.attempt + 1 }

unfoldable pub grant : Claim → DurableWorkItem → Queue → LeasedWorkItem × Queue
grant c i q =
    let token = fence_token q i.job_id + 1 in
    (
      record { item = leased_copy i; lease = lease_of c i token },
      record q {
        items = put ℕ_discrete i.job_id (leased_copy i) q.items;
        leases = put ℕ_discrete i.job_id (lease_of c i token) q.leases;
        fence_tokens = put ℕ_discrete i.job_id token q.fence_tokens;
      },
    )

-- the loop over the candidates
unfoldable pub acquire_from : Claim → List DurableWorkItem → Queue → Option LeasedWorkItem × Queue
acquire_from c [] q = (none, q)
acquire_from c (i ∷ is) q =
    let next = acquire_from c is (bury i q) in
    let (w, q') = grant c i q in
    elim (leb i.max_attempts i.attempt) [ true ↦ next | false ↦ (some w, q') ]

unfoldable pub acquire :
    String → String → String → ℤ → ℕ → ℕ → Queue → Result (Option LeasedWorkItem) × Queue
acquire queue tenant owner ttl now lease_id q =
    if not (is_valid_ttl ttl) || (is_blank tenant || (is_blank queue || is_blank owner))
    then (err value_error, q)
    else (let c : Claim = record {
      owner_id = owner;
      ttl = pos_part ttl;
      now = now;
      lease_id = lease_id;
    } in
        let (w, q') = acquire_from c (candidates q tenant queue now) q in (ok w, q'))

-- the comparison of `_require_current` with the stored item and the stored lease
abbrev pub holds : DurableWorkItem → FencedLease → LeasedWorkItem → ℕ → Bool
holds current held w now =
    same WorkState_discrete current.state leased
    && (text_eq current.tenant_id w.item.tenant_id
        && (current.attempt == w.item.attempt
            && (text_eq held.tenant_id w.item.tenant_id
                && (held.lease_id == w.lease.lease_id
                    && (text_eq held.owner_id w.lease.owner_id
                        && (held.fence_token == w.lease.fence_token
                            && not (is_expired held now)))))))

-- `_require_current`
unfoldable pub require_current : LeasedWorkItem → ℕ → Queue → Result DurableWorkItem
require_current w now q = elim (find ℕ_discrete w.item.job_id q.items) [
  | none ↦ err lease_lost
  | some current ↦ elim (find ℕ_discrete w.item.job_id q.leases) [
    | none ↦ err lease_lost
    | some held ↦ if holds current held w now then ok current else err lease_lost
  ]
]

-- The new item takes the old one's place and its lease goes.
abbrev pub settle : ℕ → DurableWorkItem → Queue → Queue
settle job i q = record q {
  items = put ℕ_discrete job i q.items;
  leases = erase ℕ_discrete job q.leases;
}

-- `at` is the second reading of the clock
unfoldable pub complete : LeasedWorkItem → ℕ → ℕ → Queue → Result DurableWorkItem × Queue
complete w now at q = elim (require_current w now q) [
  | err e ↦ (err e, q)
  | ok current ↦
      let done = record current { state = succeeded; completed_at = some at } in
      (ok done, settle current.job_id done q)
]

abbrev pub retried : DurableWorkItem → ℕ → String → DurableWorkItem
retried i available error =
    if leb i.max_attempts i.attempt
    then record i { state = dead_letter; last_error = some error }
    else record i { state = queued; available_at = available; last_error = some error }

unfoldable pub retry : LeasedWorkItem → ℤ → String → ℕ → ℕ → Queue → Result DurableWorkItem × Queue
retry w delay error now at q =
    if is_negative delay || is_blank error
    then (err value_error, q)
    else elim (require_current w now q) [
      | err e ↦ (err e, q)
      | ok current ↦
          let updated = retried current (at + pos_part delay) error in
          (ok updated, settle current.job_id updated q)
    ]

abbrev pub is_of : String → String → WorkState → ℕ × DurableWorkItem → Bool
is_of tenant queue s (_, i) =
    text_eq i.queue queue && (text_eq i.tenant_id tenant && same WorkState_discrete i.state s)

unfoldable pub snapshot : String → String → ℕ → Queue → Result QueueSnapshot
snapshot queue tenant now q =
    if is_blank tenant || is_blank queue
    then err value_error
    else ok (record {
      queue = queue;
      tenant_id = tenant;
      queued = count (is_of tenant queue queued) q.items;
      leased = count (is_of tenant queue leased) q.items;
      dead_letter = count (is_of tenant queue dead_letter) q.items;
      succeeded = count (is_of tenant queue succeeded) q.items;
      captured_at = now;
    })
