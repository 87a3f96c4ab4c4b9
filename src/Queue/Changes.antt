-- ===== src/Queue/Changes.antt =====
-- The atomic changes that the methods of the queue are made of, and that every method makes
-- only such changes.
use prodkit_control.Prelude.{
  ℕ, ◌+◌, ◌≤◌, ◌<◌, ℕ_discrete, true, false, some, List, [], ◌∷◌, ◌≡◌, refl, ◌∙◌, ◌≢◌, inl, inr,
  arith, leb, is_blank, Bool-cases, All, Pairwise, String,
}
use prodkit_control.Prelude.Dict.{
  Dict, find, put, IsDict, find-put_ne, find-erase_ne, put-IsDict, erase-IsDict, find-put_cases,
}
use prodkit_control.Contracts.Work.{
  queued, leased, succeeded, FencedLease, DurableWorkItem, LeasedWorkItem, validate_lifecycle,
}
use prodkit_control.Queue.{
  Queue, active, admit, eligible, bury, Claim, grant, acquire_from, holds, settle, retried,
}

-- `now` is the time of the change.
pub data Change (now : ℕ) (q r : Queue) : Type 0 where
  admitted :
      (i : DurableWorkItem)
      → i.state ≡ queued
      → i.attempt ≡ 0
      → validate_lifecycle i ≡ true
      → active q i.queue < q.max_queue_depth
      → r ≡ admit i q
      → Change now q r
  buried :
      (i : DurableWorkItem)
      → find ℕ_discrete i.job_id q.items ≡ some i
      → eligible q i now ≡ true
      → i.max_attempts ≤ i.attempt
      → r ≡ bury i q
      → Change now q r
  granted :
      (c : Claim) (i : DurableWorkItem)
      → find ℕ_discrete i.job_id q.items ≡ some i
      → eligible q i now ≡ true
      → i.attempt < i.max_attempts
      → c.now ≡ now
      → 0 < c.ttl
      → r ≡ (grant c i q).1
      → Change now q r
  completed :
      (w : LeasedWorkItem) (i : DurableWorkItem) (l : FencedLease)
      → find ℕ_discrete i.job_id q.items ≡ some i
      → find ℕ_discrete i.job_id q.leases ≡ some l
      → holds i l w now ≡ true
      → (at : ℕ) → r ≡ settle i.job_id (record i { state = succeeded; completed_at = some at }) q
      → Change now q r
  returned :
      (w : LeasedWorkItem) (i : DurableWorkItem) (l : FencedLease)
      → find ℕ_discrete i.job_id q.items ≡ some i
      → find ℕ_discrete i.job_id q.leases ≡ some l
      → holds i l w now ≡ true
      → (available : ℕ) (error : String) → now ≤ available
      → is_blank error ≡ false
      → r ≡ settle i.job_id (retried i available error) q
      → Change now q r

pub data Changes (now : ℕ) (q : Queue) : Queue → Type 0 where
  here : Changes now q q
  next : {r s : Queue} → Changes now q r → Change now r s → Changes now q s

pub once : {now : ℕ} {q r : Queue} → Change now q r → Changes now q r
once c = next here c

pub after : {now : ℕ} {q r s : Queue} → Change now q r → Changes now r s → Changes now q s
after c here = next here c
after c (next cs d) = next (after c cs) d

-- The items are a dict under their job ids, and so are the leases.
pub record IsKeyed (q : Queue) : Type 0 where
  pub items_dict : IsDict ℕ_discrete q.items
  pub leases_dict : IsDict ℕ_discrete q.leases
  pub keyed :
      (job : ℕ) (i : DurableWorkItem) → find ℕ_discrete job q.items ≡ some i → i.job_id ≡ job

keyed_put :
    (at : ℕ) (i : DurableWorkItem) (m : Dict ℕ DurableWorkItem)
    → i.job_id ≡ at
    → ((job : ℕ) (k : DurableWorkItem) → find ℕ_discrete job m ≡ some k → k.job_id ≡ job)
    → (job : ℕ) (k : DurableWorkItem) → find ℕ_discrete job (put ℕ_discrete at i m) ≡ some k
    → k.job_id ≡ job
keyed_put at i m p h job k e = elim (find-put_cases ℕ_discrete at job i m) [
  | inl (p', f) ↦ ground arith
  | inr (n, f) ↦ ground (arith, h job k)
]

settled-IsKeyed :
    (job : ℕ) (i : DurableWorkItem) {q : Queue}
    → i.job_id ≡ job
    → IsKeyed q
    → IsKeyed (settle job i q)
settled-IsKeyed job i p h = record {
  items_dict = put-IsDict ℕ_discrete job i _ h.items_dict;
  leases_dict = erase-IsDict ℕ_discrete job _ h.leases_dict;
  keyed = keyed_put job i _ p h.keyed;
}

retried_job :
    (i : DurableWorkItem) (available : ℕ) (error : String)
    → (retried i available error).job_id ≡ i.job_id
retried_job i available error = ground arith

pub Change-IsKeyed : {now : ℕ} {q r : Queue} → Change now q r → IsKeyed q → IsKeyed r
unfolding bury grant
Change-IsKeyed (admitted i _ _ _ _ e) h = rw e (record {
  items_dict = put-IsDict ℕ_discrete i.job_id i _ h.items_dict;
  leases_dict = h.leases_dict;
  keyed = keyed_put i.job_id i _ refl h.keyed;
})
Change-IsKeyed (buried i _ _ _ e) h = rw e (settled-IsKeyed i.job_id _ refl h)
Change-IsKeyed (granted c i _ _ _ _ _ e) h = rw e (record {
  items_dict = put-IsDict ℕ_discrete i.job_id _ _ h.items_dict;
  leases_dict = put-IsDict ℕ_discrete i.job_id _ _ h.leases_dict;
  keyed = keyed_put i.job_id (record i { state = leased; attempt = i.attempt + 1 }) _ refl h.keyed;
})
Change-IsKeyed (completed w i l _ _ _ at e) h = rw e (settled-IsKeyed i.job_id _ refl h)
Change-IsKeyed (returned w i l _ _ _ available error _ _ e) h =
    rw e (settled-IsKeyed i.job_id (retried i available error) (retried_job i available error) h)

-- What `acquire_from` may rely on for its remaining candidates.
abbrev pub Ready : Queue → ℕ → DurableWorkItem → Type 0
Ready q now i = (find ℕ_discrete i.job_id q.items ≡ some i) × (eligible q i now ≡ true)

abbrev pub Apart : DurableWorkItem → DurableWorkItem → Type 0
Apart a b = a.job_id ≢ b.job_id

Ready-bury :
    (q : Queue) (now : ℕ) (i : DurableWorkItem) (is : List DurableWorkItem)
    → All (Apart i) is
    → All (Ready q now) is
    → All (Ready (bury i q) now) is
Ready-bury q now i [] a h = tt
Ready-bury q now i (k ∷ ks) a h = (
  (
    unfold bury in find-put_ne ℕ_discrete i.job_id k.job_id _ q.items a.0 ∙ h.0.0,
    unfold bury in rw (find-erase_ne ℕ_discrete i.job_id k.job_id q.leases a.0) h.0.1,
  ),
  Ready-bury q now i ks a.1 h.1,
)

pub acquire_from-Changes :
    (c : Claim) (is : List DurableWorkItem) (q : Queue)
    → 0 < c.ttl
    → Pairwise Apart is
    → All (Ready q c.now) is
    → Changes c.now q (acquire_from c is q).1
unfolding acquire_from
acquire_from-Changes c [] q t a h = here
acquire_from-Changes c (i ∷ is) q t a h = elim (Bool-cases (leb i.max_attempts i.attempt)) [
  | inl e ↦
      rw (e, acquire_from)
        (after (buried i h.0.0 h.0.1 (ground arith) refl)
          (acquire_from-Changes c is (bury i q) t a.1 (Ready-bury q c.now i is a.0 h.1)))
  | inr e ↦ rw (e, acquire_from) (once (granted c i h.0.0 h.0.1 (ground arith) refl t refl))
]
