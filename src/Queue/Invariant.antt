-- ===== src/Queue/Invariant.antt =====
-- What holds of the queue between any two calls, whatever the callers do.
use prodkit_control.Prelude.{
  ℕ, ◌≤◌, ◌<◌, ℕ_discrete, true, false, Option, some, ◌≡◌, refl, sym, ap, ◌∙◌, inl, inr, arith,
  String, is_blank, string_discrete,
}
use prodkit_control.Prelude.Dict.{Dict, find, put, find-put_cases}
use prodkit_control.Contracts.Work.{
  leased, succeeded, FencedLease, DurableWorkItem, validate_lifecycle, LeasedWorkItem, is_truthy,
}
use prodkit_control.Queue.{
  Queue, bury, exhausted, grant, retried, holds, leased_copy, lease_expired, eligible_in,
}
use prodkit_control.Queue.Changes.{Change, admitted, buried, granted, completed, returned}

-- A property of every stored item.
abbrev pub Items : (ℕ → DurableWorkItem → Type 0) → Dict ℕ DurableWorkItem → Type 0
Items P m = (job : ℕ) (i : DurableWorkItem) → find ℕ_discrete job m ≡ some i → P job i

Items-put :
    (P : ℕ → DurableWorkItem → Type 0) (at : ℕ) (i : DurableWorkItem) (m : Dict ℕ DurableWorkItem)
    → Items P m
    → P at i
    → Items P (put ℕ_discrete at i m)
Items-put P at i m h p job k e = elim (find-put_cases ℕ_discrete at job i m) [
  | inl (same_job, f) ↦ moved same_job (ground arith)
  | inr (other, f) ↦ h job k (sym f ∙ e)
]
  where
    moved : job ≡ at → i ≡ k → P job k
    moved a b = rw (a, ← b) p

-- The item satisfies its contract, although copies are not validated again; and work that is
-- leased was created in the past.
abbrev pub IsSound : ℕ → ℕ → DurableWorkItem → Type 0
IsSound now job i = (validate_lifecycle i ≡ true) × (i.state ≡ leased → i.created_at ≤ now)

truthy_of_not_blank : (s : String) → is_blank s ≡ false → is_truthy (some s) ≡ true
unfolding is_blank
truthy_of_not_blank s h = elim (string_discrete s "") [
  | yes p ↦ absurd (cc (ap is_blank p, h))
  | no n ↦ ground arith
]

truthy_expired : is_truthy (some lease_expired) ≡ true
unfolding string_discrete
truthy_expired = refl

module _ (now : ℕ) (i : DurableWorkItem) where
  exhausted-IsSound :
      (l : Option FencedLease)
      → IsSound now i.job_id i
      → eligible_in i.state i l now ≡ true
      → IsSound now i.job_id (exhausted i)
  exhausted-IsSound l p el = ground (arith, truthy_expired)

  leased_copy-IsSound :
      (l : Option FencedLease)
      → IsSound now i.job_id i
      → eligible_in i.state i l now ≡ true
      → i.attempt < i.max_attempts
      → IsSound now i.job_id (leased_copy i)
  leased_copy-IsSound l p el room = ground arith

  completed-IsSound :
      (at : ℕ)
      → IsSound now i.job_id i
      → IsSound now i.job_id (record i { state = succeeded; completed_at = some at })
  completed-IsSound at p = ground arith

  retried-IsSound :
      (available : ℕ) (error : String)
      → IsSound now i.job_id i
      → i.state ≡ leased
      → now ≤ available
      → is_blank error ≡ false
      → IsSound now i.job_id (retried i available error)
  retried-IsSound available error p s late b = ground (arith, truthy_of_not_blank error)

pub holds_leased :
    (i : DurableWorkItem) (l : FencedLease) (w : LeasedWorkItem) (now : ℕ)
    → holds i l w now ≡ true
    → i.state ≡ leased
holds_leased i l w now h = ground arith

pub Change-IsSound :
    {now : ℕ} {q r : Queue}
    → Change now q r
    → Items (IsSound now) q.items
    → Items (IsSound now) r.items
unfolding bury grant
Change-IsSound {now} (admitted i s a v _ e) h =
    rw e (Items-put (IsSound now) i.job_id i _ h (v, λ p. cc))
Change-IsSound {now} {q} (buried i f el _ e) h =
    rw e
      (Items-put (IsSound now) i.job_id (exhausted i) _ h (exhausted-IsSound now i _ (h _ i f) el))
Change-IsSound {now} (granted c i f el room t _ e) h = rw e (
    Items-put (IsSound now) i.job_id (leased_copy i) _ h
      (leased_copy-IsSound now i _ (h _ i f) el room))
Change-IsSound {now} (completed w i l f fl held at e) h = rw e (
    Items-put (IsSound now) i.job_id (record i { state = succeeded; completed_at = some at }) _ h
      (completed-IsSound now i at (h _ i f)))
Change-IsSound {now} (returned w i l f fl held available error late b e) h = rw e (
    Items-put (IsSound now) i.job_id (retried i available error) _ h
      (retried-IsSound now i available error (h _ i f) (holds_leased i l w now held) late b))
