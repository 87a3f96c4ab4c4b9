-- ===== src/Queue/Depth.antt =====
-- The work that counts against the depth of a queue never passes the configured depth.
use prodkit_control.Prelude.{
  ℕ, ◌+◌, ◌≤◌, ◌<◌, ℕ_discrete, true, Option, some, ◌≡◌, refl, arith, String, count,
  string_discrete,
}
use prodkit_control.Prelude.Dict.{find, put, count-put-le, count-put_kept, count-put_uncounted}
use native.Mathlib.Nat.{le_trans}
use prodkit_control.Contracts.Work.{leased, succeeded, DurableWorkItem, FencedLease}
use prodkit_control.Queue.{
  Queue, active, counts_in, is_active, admit, bury, exhausted, grant, retried, leased_copy,
  eligible_in,
}
use prodkit_control.Queue.Changes.{Change, admitted, buried, granted, completed, returned}
use prodkit_control.Queue.Invariant.{holds_leased}

abbrev pub IsWithin : Queue → Type 0
IsWithin q = (queue : String) → active q queue ≤ q.max_queue_depth

-- Work that is eligible counts already.
eligible_counts :
    (i : DurableWorkItem) (l : Option FencedLease) (now : ℕ)
    → eligible_in i.state i l now ≡ true
    → is_active i.state ≡ true
eligible_counts i l now h = ground arith

module _ (q : Queue) (queue : String) where
  -- To replace an item by a copy in the same queue adds nothing, if the item counted.
  kept :
      (i k : DurableWorkItem)
      → find ℕ_discrete i.job_id q.items ≡ some i
      → is_active i.state ≡ true
      → k.queue ≡ i.queue
      → count (counts_in queue) (put ℕ_discrete i.job_id k q.items)
        ≤ count (counts_in queue) q.items
  kept i k f a same_queue =
      count-put_kept ℕ_discrete (counts_in queue) i.job_id k i q.items f (λ c. counted c)
    where
      counted : counts_in queue (i.job_id, k) ≡ true → counts_in queue (i.job_id, i) ≡ true
      counted c = ground arith

  -- To admit an item adds at most one, and only to its own queue.
  admitted_le :
      (i : DurableWorkItem)
      → active q i.queue < q.max_queue_depth
      → active q queue ≤ q.max_queue_depth
      → active (admit i q) queue ≤ q.max_queue_depth
  admitted_le i room h = elim (string_discrete i.queue queue) [
    | yes p ↦ own_queue p (count-put-le ℕ_discrete (counts_in queue) i.job_id i q.items)
    | no n ↦
        other_queue (
          count-put_uncounted ℕ_discrete (counts_in queue) i.job_id i q.items (λ j e. ground arith))
  ]
    where
      own_queue :
          i.queue ≡ queue
          → active (admit i q) queue ≤ active q queue + 1
          → active (admit i q) queue ≤ q.max_queue_depth
      own_queue p le = let room' : active q queue < q.max_queue_depth = rw p at room in omega arith

      other_queue :
          active (admit i q) queue ≤ active q queue → active (admit i q) queue ≤ q.max_queue_depth
      other_queue le = omega arith

retried_queue :
    (i : DurableWorkItem) (available : ℕ) (error : String)
    → (retried i available error).queue ≡ i.queue
retried_queue i available error = ground arith

leased_counts : (i : DurableWorkItem) → i.state ≡ leased → is_active i.state ≡ true
leased_counts i h = ground arith

pub Change-IsWithin : {now : ℕ} {q r : Queue} → Change now q r → IsWithin q → IsWithin r
unfolding bury grant
Change-IsWithin {q} (admitted i _ _ _ room e) h =
    rw e (λ queue. admitted_le q queue i room (h queue))
Change-IsWithin {q} (buried i f el _ e) h =
    rw e
      (λ queue. le_trans (kept q queue i (exhausted i) f (eligible_counts i _ _ el) refl) (h queue))
Change-IsWithin {q} (granted c i f el _ _ _ e) h =
    rw e (λ queue.
      le_trans (kept q queue i (leased_copy i) f (eligible_counts i _ _ el) refl) (h queue))
Change-IsWithin {now} {q} (completed w i l f _ held at e) h = rw e (λ queue.
    le_trans
      (kept q queue i (record i { state = succeeded; completed_at = some at }) f
        (leased_counts i (holds_leased i l w now held)) refl)
      (h queue))
Change-IsWithin {now} {q} (returned w i l f _ held available error _ _ e) h =
    rw e (λ queue. le_trans (returned_kept queue) (h queue))
  where
    returned_kept :
        (queue : String)
        → count (counts_in queue) (put ℕ_discrete i.job_id (retried i available error) q.items)
          ≤ active q queue
    returned_kept queue =
        kept q queue i (retried i available error) f (leased_counts i (holds_leased i l w now held))
          (retried_queue i available error)

-- No change touches the configured depth.
pub Change-max_queue_depth :
    {now : ℕ} {q r : Queue} → Change now q r → r.max_queue_depth ≡ q.max_queue_depth
unfolding bury grant
Change-max_queue_depth (admitted i _ _ _ _ e) = rw e
Change-max_queue_depth (buried i _ _ _ e) = rw e
Change-max_queue_depth (granted c i _ _ _ _ _ e) = rw e
Change-max_queue_depth (completed w i l _ _ _ at e) = rw e
Change-max_queue_depth (returned w i l _ _ _ available error _ _ e) = rw e
