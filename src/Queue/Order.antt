-- ===== src/Queue/Order.antt =====
-- Which work `acquire` hands out, and what it leaves alone.
use prodkit_control.Prelude.{
  ℕ, ◌<◌, ℕ_discrete, true, false, not, Option, some, List, [], ◌∷◌, ◌≡◌, sym, inl, inr, arith, leb,
  Bool-cases, All, Pairwise, String, text_eq, ◌&&◌, is_blank, ◌||◌,
}
use mathlib.Core.Path.{subst}
use prodkit_control.Prelude.Int.{ℤ}
use prodkit_control.Prelude.Dict.{Dict, find}
use prodkit_control.Prelude.Sort.{All-of-sort, sort-InOrder}
use prodkit_control.Prelude.Result.{Result, ok}
use prodkit_control.Contracts.Work.{DurableWorkItem, LeasedWorkItem}
use prodkit_control.Queue.{
  Queue, eligible, comes_before, selected, candidates, bury, grant, Claim, acquire_from, acquire,
  leased_copy, is_valid_ttl,
}
use prodkit_control.Queue.Changes.{IsKeyed}
use prodkit_control.Queue.Methods.{candidates-Selected, Selected}
use prodkit_control.Queue.Fencing.{claim}

comes_before_asym : (a b : DurableWorkItem) → comes_before a b ≡ true → comes_before b a ≡ false
comes_before_asym a b h = ground arith

comes_before_trans :
    (a b c : DurableWorkItem)
    → comes_before a b ≡ true
    → comes_before b c ≡ true
    → comes_before a c ≡ true
comes_before_trans a b c h k = ground arith

-- An item of the queue and the tenant that is eligible is among the candidates.
selected_has :
    (P : DurableWorkItem → Type 0) (q : Queue) (tenant queue : String) (now : ℕ)
    (m : Dict ℕ DurableWorkItem) (job : ℕ) (i : DurableWorkItem)
    → All P (selected q tenant queue now m)
    → find ℕ_discrete job m ≡ some i
    → (text_eq i.queue queue && (text_eq i.tenant_id tenant && eligible q i now)) ≡ true
    → P i
unfolding selected find
selected_has P q tenant queue now [] job i a f e = absurd (cc f)
selected_has P q tenant queue now ((j, v) ∷ m) job i a f e = elim (ℕ_discrete j job) [
  | yes p ↦
      let same_item : v ≡ i = ground arith in
      let chosen : (text_eq v.queue queue && (text_eq v.tenant_id tenant && eligible q v now))
          ≡ true =
        subst
          (λ (x : DurableWorkItem).
            (text_eq x.queue queue && (text_eq x.tenant_id tenant && eligible q x now)) ≡ true)
          (sym same_item) e in
      subst P same_item (rw (chosen, selected) at a).0
  | no n ↦
      elim (Bool-cases
        (text_eq v.queue queue && (text_eq v.tenant_id tenant && eligible q v now))) [
          | inl chosen ↦
              selected_has P q tenant queue now m job i (rw (chosen, selected) at a).1
                (ground arith) e
          | inr passed ↦
              selected_has P q tenant queue now m job i (rw (passed, selected) at a) (ground arith)
                e
        ]
]

-- The item that was handed out: one of the candidates, with attempts left, and no candidate with
-- attempts left comes before it.
record IsFirst (P : DurableWorkItem → Type 0) (is : List DurableWorkItem) (w : LeasedWorkItem)
    : Type 0 where
  item : DurableWorkItem
  copied : w.item ≡ leased_copy item
  candidate : P item
  has_room : item.attempt < item.max_attempts
  first : All (λ k. k.attempt < k.max_attempts → comes_before k item ≡ false) is

weaken :
    (i : DurableWorkItem) (ks : List DurableWorkItem)
    → All (λ k. comes_before k i ≡ false) ks
    → All (λ k. k.attempt < k.max_attempts → comes_before k i ≡ false) ks
weaken i [] a = tt
weaken i (k ∷ ks) a = (λ room. a.0, weaken i ks a.1)

irreflexive : (i : DurableWorkItem) → comes_before i i ≡ false
irreflexive i = ground arith

acquire_from-IsFirst :
    (P : DurableWorkItem → Type 0) (c : Claim) (is : List DurableWorkItem) (q : Queue)
    (w : LeasedWorkItem)
    → All P is
    → Pairwise (λ a b. comes_before b a ≡ false) is
    → (acquire_from c is q).0 ≡ some w
    → IsFirst P is w
unfolding acquire_from grant
acquire_from-IsFirst P c [] q w a s h = absurd (cc h)
acquire_from-IsFirst P c (i ∷ is) q w a s h = elim (Bool-cases (leb i.max_attempts i.attempt)) [
  | inl e ↦
      let rest = acquire_from-IsFirst P c is (bury i q) w a.1 s.1 (rw (e, acquire_from) at h) in
      record {
        item = rest.item;
        copied = rest.copied;
        candidate = rest.candidate;
        has_room = rest.has_room;
        first = (λ room. absurd (ground arith), rest.first);
      }
  | inr e ↦
      let found : some (grant c i q).0 ≡ some w = rw (e, acquire_from) at h in
      record {
        item = i;
        copied = cc;
        candidate = a.0;
        has_room = ground arith;
        first = (λ room. irreflexive i, weaken i is s.0);
      }
]

-- What `acquire` hands out is a stored item of the tenant and the queue that was eligible and had
-- attempts left, and among all such items none comes before it in the order of availability,
-- creation and job id.
pub acquire-first :
    (queue tenant owner : String) (ttl : ℤ) (now lease_id : ℕ) (q r : Queue) (w : LeasedWorkItem)
    → IsKeyed q
    → acquire queue tenant owner ttl now lease_id q ≡ (ok (some w), r)
    → (i : DurableWorkItem) × (w.item ≡ leased_copy i)
      × (find ℕ_discrete i.job_id q.items ≡ some i)
      × (i.tenant_id ≡ tenant)
      × (i.queue ≡ queue)
      × (eligible q i now ≡ true)
      × (i.attempt < i.max_attempts)
      × ((job : ℕ) (k : DurableWorkItem)
          → find ℕ_discrete job q.items ≡ some k
          → k.tenant_id ≡ tenant
          → k.queue ≡ queue
          → eligible q k now ≡ true
          → k.attempt < k.max_attempts
          → comes_before k i ≡ false)
unfolding acquire candidates
acquire-first queue tenant owner ttl now lease_id q r w keyed h =
    elim (Bool-cases
      (not (is_valid_ttl ttl) || (is_blank tenant || (is_blank queue || is_blank owner)))) [
        | inl e ↦ absurd (ground arith)
        | inr e ↦
            let c = claim owner ttl now lease_id in
            let found = acquire_from c (candidates q tenant queue now) q in
            let same_result : ◌≡◌ {A = Result (Option LeasedWorkItem) × Queue} (ok found.0, found.1)
                (ok (some w), r) =
              rw (e, acquire) at h in
            let same_work : found.0 ≡ some w = ground arith in
            let sorted =
              sort-InOrder comes_before comes_before_asym comes_before_trans
                (selected q tenant queue now q.items) in
            let f =
              acquire_from-IsFirst (Selected q tenant queue now) c (candidates q tenant queue now) q
                w (candidates-Selected q tenant queue now keyed) sorted same_work in
            (
              f.item,
              f.copied,
              f.candidate.0.0,
              ground arith,
              ground arith,
              f.candidate.0.1,
              f.has_room,
              λ job k fk tk qk el room.
                  selected_has (λ k. k.attempt < k.max_attempts → comes_before k f.item ≡ false) q
                    tenant queue now q.items job k (All-of-sort comes_before _ _ f.first) fk
                    (ground arith) room,
            )
      ]
