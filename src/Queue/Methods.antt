-- ===== src/Queue/Methods.antt =====
-- Every method of the queue is a sequence of atomic changes, on every branch.
use prodkit_control.Prelude.{
  ℕ, ◌+◌, ◌≤◌, ◌<◌, ℕ_discrete, true, false, not, Option, none, some, List, [], ◌∷◌, ◌≡◌, refl, sym,
  ◌∙◌, ◌⊎◌, inl, inr, arith, text_eq, Bool-cases, Option-cases, All, Pairwise, String, ◌&&◌,
  is_blank, ◌||◌,
}
use prodkit_control.Prelude.Dict.{Dict, find, IsDict, All-find}
use prodkit_control.Prelude.Int.{ℤ, is_negative, pos_part}
use prodkit_control.Prelude.Sort.{All-sort, Pairwise-sort}
use prodkit_control.Prelude.Result.{ok, Result-cases}
use prodkit_control.Contracts.Work.{
  queued, FencedLease, DurableWorkItem, LeasedWorkItem, succeeded, validate_lifecycle,
}
use prodkit_control.Queue.{
  Queue, admit, active, enqueue, eligible, comes_before, selected, candidates, acquire, holds,
  require_current, complete, retry, is_valid_ttl, retried, settle,
}
use prodkit_control.Queue.Changes.{
  Change, Changes, here, once, IsKeyed, Ready, Apart, acquire_from-Changes,
}

refind :
    {V : Type 0} (m : Dict ℕ V) {j k : ℕ} {v : Option V}
    → j ≡ k
    → find ℕ_discrete k m ≡ v
    → find ℕ_discrete j m ≡ v
refind m e f = cc

-- An entry of the dict under its own key.
abbrev Listed : Queue → ℕ × DurableWorkItem → Type 0
Listed q e = (find ℕ_discrete e.0 q.items ≡ some e.1) × (e.1.job_id ≡ e.0)

listed :
    (q : Queue) (m : Dict ℕ DurableWorkItem)
    → ((job : ℕ) (i : DurableWorkItem) → find ℕ_discrete job q.items ≡ some i → i.job_id ≡ job)
    → All (λ (e : ℕ × DurableWorkItem). find ℕ_discrete e.0 q.items ≡ some e.1) m
    → All (Listed q) m
listed q [] h a = tt
listed q ((j, i) ∷ m) h a = ((a.0, h j i a.0), listed q m h a.1)

module _ (q : Queue) (tenant queue : String) (now : ℕ) where
  -- Every selected item is stored, of the tenant and the queue, and eligible.
  abbrev pub Selected : DurableWorkItem → Type 0
  Selected i = Ready q now i × (text_eq i.queue queue ≡ true) × (text_eq i.tenant_id tenant ≡ true)

  selected-All :
      (m : Dict ℕ DurableWorkItem) → All (Listed q) m → All Selected (selected q tenant queue now m)
  unfolding selected
  selected-All [] a = tt
  selected-All ((j, i) ∷ m) a =
      elim (Bool-cases
        (text_eq i.queue queue && (text_eq i.tenant_id tenant && eligible q i now))) [
          | inl e ↦ rw (e, selected) (ready e, selected-All m a.1)
          | inr e ↦ rw (e, selected) (selected-All m a.1)
        ]
    where
      ready :
          (text_eq i.queue queue && (text_eq i.tenant_id tenant && eligible q i now)) ≡ true
          → Selected i
      ready e = ((refind q.items a.0.1 a.0.0, eligible_now), of_queue, of_tenant)
        where
          eligible_now : eligible q i now ≡ true
          eligible_now = ground arith

          of_queue : text_eq i.queue queue ≡ true
          of_queue = ground arith

          of_tenant : text_eq i.tenant_id tenant ≡ true
          of_tenant = ground arith

-- No entry stands under a key that a dict does not find.
keys_ne :
    (q : Queue) (k : ℕ) (i : DurableWorkItem) (m : Dict ℕ DurableWorkItem)
    → i.job_id ≡ k
    → find ℕ_discrete k m ≡ none
    → All (Listed q) m
    → All (λ (e : ℕ × DurableWorkItem). Apart i e.1) m
unfolding find
keys_ne q k i [] p h a = tt
keys_ne q k i ((j, v) ∷ m) p h a = (
  (λ same_id. (ne_of_none j v m h (sym (a.0.1) ∙ (sym same_id ∙ p)))),
  keys_ne q k i m p (rest j v m h) a.1,
)
  where
    ne_of_none :
        (j : ℕ) (v : DurableWorkItem) (m : Dict ℕ DurableWorkItem)
        → find ℕ_discrete k ((j, v) ∷ m) ≡ none
        → j ≡ k
        → ⊥
    ne_of_none j v m h e = ground arith

    rest :
        (j : ℕ) (v : DurableWorkItem) (m : Dict ℕ DurableWorkItem)
        → find ℕ_discrete k ((j, v) ∷ m) ≡ none
        → find ℕ_discrete k m ≡ none
    rest j v m h = ground arith

module _ (q : Queue) (tenant queue : String) (now : ℕ) where
  Apart-of-selected :
      (i : DurableWorkItem) (m : Dict ℕ DurableWorkItem)
      → All (λ (e : ℕ × DurableWorkItem). Apart i e.1) m
      → All (Apart i) (selected q tenant queue now m)
  unfolding selected
  Apart-of-selected i [] a = tt
  Apart-of-selected i ((j, v) ∷ m) a =
      elim (Bool-cases
        (text_eq v.queue queue && (text_eq v.tenant_id tenant && eligible q v now))) [
          | inl e ↦ rw (e, selected) (a.0, Apart-of-selected i m a.1)
          | inr e ↦ rw (e, selected) (Apart-of-selected i m a.1)
        ]

  selected-Pairwise :
      (m : Dict ℕ DurableWorkItem)
      → IsDict ℕ_discrete m
      → All (Listed q) m
      → Pairwise Apart (selected q tenant queue now m)
  unfolding selected
  selected-Pairwise [] d a = tt
  selected-Pairwise ((j, v) ∷ m) d a =
      elim (Bool-cases
        (text_eq v.queue queue && (text_eq v.tenant_id tenant && eligible q v now))) [
          | inl e ↦
              rw (e, selected)
                (Apart-of-selected v m (keys_ne q j v m a.0.1 d.0 a.1), selected-Pairwise m d.1 a.1)
          | inr e ↦ rw (e, selected) (selected-Pairwise m d.1 a.1)
        ]

  Selected-Ready :
      (is : List DurableWorkItem) → All (Selected q tenant queue now) is → All (Ready q now) is
  Selected-Ready [] a = tt
  Selected-Ready (i ∷ is) a = (a.0.0, Selected-Ready is a.1)

  module _ (h : IsKeyed q) where
    pub candidates-Selected : All (Selected q tenant queue now) (candidates q tenant queue now)
    unfolding candidates
    candidates-Selected = All-sort comes_before (Selected q tenant queue now) _ (
        selected-All q tenant queue now q.items
          (listed q q.items h.keyed (All-find ℕ_discrete q.items h.items_dict)))

    pub candidates-Apart : Pairwise Apart (candidates q tenant queue now)
    unfolding candidates
    candidates-Apart =
        Pairwise-sort comes_before Apart (λ a b ne e. ne (sym e)) _
          (selected-Pairwise q.items h.items_dict
            (listed q q.items h.keyed (All-find ℕ_discrete q.items h.items_dict)))

enqueue_cases :
    (i : DurableWorkItem) (q : Queue)
    → ((enqueue i q).1 ≡ q)
      ⊎ ((i.state ≡ queued)
          × (i.attempt ≡ 0)
          × (active q i.queue < q.max_queue_depth)
          × ((enqueue i q).1 ≡ admit i q))
unfolding enqueue
enqueue_cases i q = ground arith

pub enqueue-Changes :
    (i : DurableWorkItem) (now : ℕ) (q : Queue)
    → validate_lifecycle i ≡ true
    → Changes now q (enqueue i q).1
enqueue-Changes i now q v = elim (enqueue_cases i q) [
  | inl e ↦ rw e here
  | inr (s, a, room, e) ↦ rw e (once (Change.admitted i s a v room refl))
]

pub acquire-Changes :
    (queue tenant owner : String) (ttl : ℤ) (now lease_id : ℕ) (q : Queue)
    → IsKeyed q
    → Changes now q (acquire queue tenant owner ttl now lease_id q).1
unfolding acquire
acquire-Changes queue tenant owner ttl now lease_id q h =
    elim (Bool-cases
      (not (is_valid_ttl ttl) || (is_blank tenant || (is_blank queue || is_blank owner)))) [
        | inl e ↦ rw (e, acquire) here
        | inr e ↦
            rw (e, acquire)
              (acquire_from-Changes _ (candidates q tenant queue now) q (ground arith)
                (candidates-Apart q tenant queue now h)
                (Selected-Ready q tenant queue now _ (candidates-Selected q tenant queue now h)))
      ]

-- What a holder has shown when it is let through.
pub require_current_ok :
    (w : LeasedWorkItem) (now : ℕ) (q : Queue) (i : DurableWorkItem)
    → require_current w now q ≡ ok i
    → (l : FencedLease) × (find ℕ_discrete w.item.job_id q.items ≡ some i)
      × (find ℕ_discrete w.item.job_id q.leases ≡ some l)
      × (holds i l w now ≡ true)
unfolding require_current
require_current_ok w now q i h = elim (Option-cases (find ℕ_discrete w.item.job_id q.leases)) [
  | inl e ↦ absurd (ground arith)
  | inr (l, e) ↦ (l, ground arith, e, ground arith)
]

complete_cases :
    (w : LeasedWorkItem) (now at : ℕ) (q : Queue)
    → ((complete w now at q).1 ≡ q)
      ⊎ ((i : DurableWorkItem) × (require_current w now q ≡ ok i)
          × ((complete w now at q).1
              ≡ settle i.job_id (record i { state = succeeded; completed_at = some at }) q))
unfolding complete
complete_cases w now at q = elim (Result-cases (require_current w now q)) [
  | inl (e, p) ↦ inl (rw (p, complete))
  | inr (i, p) ↦ inr (i, p, rw (p, complete))
]

pub complete-Changes :
    (w : LeasedWorkItem) (now at : ℕ) (q : Queue)
    → IsKeyed q
    → Changes now q (complete w now at q).1
complete-Changes w now at q h = elim (complete_cases w now at q) [
  | inl e ↦ rw e here
  | inr (i, p, e) ↦
      let (l, fi, fl, held) = require_current_ok w now q i p in
      let k : i.job_id ≡ w.item.job_id = h.keyed _ i fi in
      rw e (once (Change.completed w i l (refind q.items k fi) (refind q.leases k fl) held at refl))
]

retry_cases :
    (w : LeasedWorkItem) (delay : ℤ) (error : String) (now at : ℕ) (q : Queue)
    → ((retry w delay error now at q).1 ≡ q)
      ⊎ ((i : DurableWorkItem) × (require_current w now q ≡ ok i)
          × (is_blank error ≡ false)
          × ((retry w delay error now at q).1
              ≡ settle i.job_id (retried i (at + pos_part delay) error) q))
unfolding retry
retry_cases w delay error now at q = elim (Bool-cases (is_negative delay || is_blank error)) [
  | inl b ↦ inl (rw (b, retry))
  | inr b ↦ elim (Result-cases (require_current w now q)) [
    | inl (e, p) ↦ inl (rw (b, p, retry))
    | inr (i, p) ↦ inr (i, p, ground arith, rw (b, p, retry))
  ]
]

pub retry-Changes :
    (w : LeasedWorkItem) (delay : ℤ) (error : String) (now at : ℕ) (q : Queue)
    → now ≤ at
    → IsKeyed q
    → Changes now q (retry w delay error now at q).1
retry-Changes w delay error now at q t h = elim (retry_cases w delay error now at q) [
  | inl e ↦ rw e here
  | inr (i, p, b, e) ↦
      let (l, fi, fl, held) = require_current_ok w now q i p in
      let k : i.job_id ≡ w.item.job_id = h.keyed _ i fi in
      rw e (
        once (
          Change.returned w i l (refind q.items k fi) (refind q.leases k fl) held
            (at + pos_part delay) error (omega arith) b refl))
]
