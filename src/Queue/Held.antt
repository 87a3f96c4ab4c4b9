-- ===== src/Queue/Held.antt =====
-- Work under a live lease: nobody else is given it, and a search for work leaves it as it is.
use prodkit_control.Prelude.{
  ℕ, ◌<◌, ℕ_discrete, false, not, Option, none, some, List, [], ◌∷◌, ◌≡◌, refl, sym, ◌∙◌, ◌≢◌, inl,
  inr, arith, leb, Bool-cases, All, String, is_blank, ◌||◌,
}
use mathlib.Core.Path.{ap, subst}
use prodkit_control.Prelude.Int.{ℤ}
use prodkit_control.Prelude.Dict.{find, find-put_ne, find-erase_ne}
use prodkit_control.Prelude.Result.{ok}
use prodkit_control.Contracts.Work.{leased, DurableWorkItem, FencedLease, LeasedWorkItem}
use prodkit_control.Queue.{
  Queue, eligible_in, candidates, bury, grant, Claim, acquire_from, acquire, is_valid_ttl,
}
use prodkit_control.Queue.Changes.{IsKeyed}
use prodkit_control.Queue.Methods.{candidates-Selected, Selected}
use prodkit_control.Queue.Fencing.{claim}

-- The store knows the same of the job.
abbrev pub Agrees : ℕ → Queue → Queue → Type 0
Agrees job q r =
    (find ℕ_discrete job r.items ≡ find ℕ_discrete job q.items)
    × (find ℕ_discrete job r.leases ≡ find ℕ_discrete job q.leases)

Agrees-bury : (job : ℕ) (i : DurableWorkItem) (q : Queue) → i.job_id ≢ job → Agrees job q (bury i q)
unfolding bury
Agrees-bury job i q n = (
  find-put_ne ℕ_discrete i.job_id job _ q.items n,
  find-erase_ne ℕ_discrete i.job_id job q.leases n,
)

Agrees-grant :
    (job : ℕ) (c : Claim) (i : DurableWorkItem) (q : Queue)
    → i.job_id ≢ job
    → Agrees job q (grant c i q).1
unfolding grant
Agrees-grant job c i q n = (
  find-put_ne ℕ_discrete i.job_id job _ q.items n,
  find-put_ne ℕ_discrete i.job_id job _ q.leases n,
)

ok_injective : {a b : Option LeasedWorkItem} → ok a ≡ ok b → a ≡ b
ok_injective p = cc

Other : ℕ → Option LeasedWorkItem → Type 0
Other job none = Unit
Other job (some w) = w.item.job_id ≢ job

acquire_from-Agrees :
    (job : ℕ) (c : Claim) (is : List DurableWorkItem) (q : Queue)
    → All (λ i. i.job_id ≢ job) is
    → Agrees job q (acquire_from c is q).1 × Other job (acquire_from c is q).0
unfolding acquire_from Other
acquire_from-Agrees job c [] q a = ((refl, refl), tt)
acquire_from-Agrees job c (i ∷ is) q a = elim (Bool-cases (leb i.max_attempts i.attempt)) [
  | inl e ↦
      let (rest, other) = acquire_from-Agrees job c is (bury i q) a.1 in
      let now = Agrees-bury job i q a.0 in
      rw (e, acquire_from) ((rest.0 ∙ now.0, rest.1 ∙ now.1), other)
  | inr e ↦ rw (e, acquire_from) (Agrees-grant job c i q a.0, unfold grant in a.0)
]

not_eligible :
    (i : DurableWorkItem) (l : FencedLease) (now : ℕ)
    → i.state ≡ leased
    → now < l.expires_at
    → eligible_in i.state i (some l) now ≡ false
not_eligible i l now s live = ground arith

-- A candidate is not the job that is held.
Selected-other :
    (q : Queue) (tenant queue : String) (now job : ℕ) (k : DurableWorkItem) (l : FencedLease)
    → find ℕ_discrete job q.items ≡ some k
    → k.state ≡ leased
    → find ℕ_discrete job q.leases ≡ some l
    → now < l.expires_at
    → (is : List DurableWorkItem) → All (Selected q tenant queue now) is
    → All (λ i. i.job_id ≢ job) is
Selected-other q tenant queue now job k l fk s fl live [] a = tt
Selected-other q tenant queue now job k l fk s fl live (i ∷ is) a =
    (differ, Selected-other q tenant queue now job k l fk s fl live is a.1)
  where
    differ : i.job_id ≢ job
    differ p =
        let found : find ℕ_discrete i.job_id q.items ≡ some k =
          ap (λ j. find ℕ_discrete j q.items) p ∙ fk in
        let lease : find ℕ_discrete i.job_id q.leases ≡ some l =
          ap (λ j. find ℕ_discrete j q.leases) p ∙ fl in
        let same_entry : some i ≡ some k = sym (a.0.0.0) ∙ found in
        let same_item : i ≡ k = cc in
        let is_leased : i.state ≡ leased = ap (λ (x : DurableWorkItem). x.state) same_item ∙ s in
        cc (not_eligible i l now is_leased live, a.0.0.1, lease)

-- While a lease on a job has not expired, `acquire` hands the job to nobody, and leaves its item and
-- its lease as they are, whoever calls and whatever else is found.
pub held_untouched :
    (queue tenant owner : String) (ttl : ℤ) (now lease_id : ℕ) (q : Queue) (job : ℕ)
    (k : DurableWorkItem) (l : FencedLease)
    → IsKeyed q
    → find ℕ_discrete job q.items ≡ some k
    → k.state ≡ leased
    → find ℕ_discrete job q.leases ≡ some l
    → now < l.expires_at
    → let (result, r) = acquire queue tenant owner ttl now lease_id q in
      ((w : LeasedWorkItem) → result ≡ ok (some w) → w.item.job_id ≢ job)
      × (find ℕ_discrete job r.items ≡ some k)
      × (find ℕ_discrete job r.leases ≡ some l)
unfolding acquire Other
held_untouched queue tenant owner ttl now lease_id q job k l keyed fk s fl live =
    elim (Bool-cases
      (not (is_valid_ttl ttl) || (is_blank tenant || (is_blank queue || is_blank owner)))) [
        | inl e ↦ rw (e, acquire) (λ w p. cc, fk, fl)
        | inr e ↦
            let c = claim owner ttl now lease_id in
            let is = candidates q tenant queue now in
            let (same, other) = acquire_from-Agrees job c is q (
              Selected-other q tenant queue now job k l fk s fl live is
                (candidates-Selected q tenant queue now keyed)) in
            rw (e, acquire)
              (λ w p. subst (Other job) (ok_injective p) other, same.0 ∙ fk, same.1 ∙ fl)
      ]
