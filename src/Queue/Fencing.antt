-- ===== src/Queue/Fencing.antt =====
-- Fencing tokens: they grow with every acquisition of a job, and no change takes one back.
use prodkit_control.Prelude.{
  ℕ, ◌+◌, ◌≤◌, ◌<◌, ℕ_discrete, true, Option, some, List, [], ◌∷◌, ◌≡◌, refl, inl, inr, arith, leb,
  Bool-cases, not, ◌||◌, is_blank, String,
}
use mathlib.Core.Path.{subst}
use prodkit_control.Prelude.Int.{ℤ, pos_part}
use prodkit_control.Prelude.Dict.{find, put, find-put_self, find-put_cases}
use prodkit_control.Prelude.Result.{Result, ok, err, lease_lost}
use prodkit_control.Contracts.Work.{
  leased, DurableWorkItem, FencedLease, LeasedWorkItem, validate_binding,
}
use prodkit_control.Queue.{
  Queue, bury, Claim, grant, fence_token, acquire_from, acquire, candidates, require_current,
  is_valid_ttl, lease_of, leased_copy,
}
use prodkit_control.Queue.Changes.{Change, admitted, buried, granted, completed, returned}

-- A new token for one job is no smaller than the old one, and leaves the others.
fence_token-put :
    (job k : ℕ) (q : Queue)
    → fence_token q job
      ≤ fence_token
          (record q { fence_tokens = put ℕ_discrete k (fence_token q k + 1) q.fence_tokens })
          job
fence_token-put job k q =
    elim (find-put_cases ℕ_discrete k job (fence_token q k + 1) q.fence_tokens) [
      | inl (p, f) ↦ ground (arith, p)
      | inr (n, f) ↦ ground arith
    ]

pub Change-fence_token :
    {now : ℕ} {q r : Queue} → Change now q r → (job : ℕ) → fence_token q job ≤ fence_token r job
unfolding bury grant
Change-fence_token (admitted i _ _ _ _ e) job = rw e (omega arith)
Change-fence_token (buried i _ _ _ e) job = rw e (omega arith)
Change-fence_token {q} (granted c i _ _ _ _ _ e) job = rw e (fence_token-put job i.job_id q)
Change-fence_token (completed w i l _ _ _ at e) job = rw e (omega arith)
Change-fence_token (returned w i l _ _ _ available error _ _ e) job = rw e (omega arith)

-- A successful search for work has leased a job under a token above all earlier ones, and the
-- store holds that lease and that item.
pub record IsGranted (q : Queue) (c : Claim) (w : LeasedWorkItem) (r : Queue) : Type 0 where
  pub stored_item : find ℕ_discrete w.item.job_id r.items ≡ some w.item
  pub stored_lease : find ℕ_discrete w.item.job_id r.leases ≡ some w.lease
  pub newest : fence_token q w.item.job_id < w.lease.fence_token
  pub current : fence_token r w.item.job_id ≡ w.lease.fence_token
  pub is_leased : w.item.state ≡ leased
  pub bound : validate_binding w ≡ true
  pub owner : w.lease.owner_id ≡ c.owner_id
  pub from : w.lease.acquired_at ≡ c.now
  pub until : w.lease.expires_at ≡ c.now + c.ttl

grant-IsGranted :
    (c : Claim) (i : DurableWorkItem) (q : Queue) → IsGranted q c (grant c i q).0 (grant c i q).1
unfolding grant
grant-IsGranted c i q = record {
  stored_item = find-put_self ℕ_discrete i.job_id (leased_copy i) q.items;
  stored_lease =
      find-put_self ℕ_discrete i.job_id (lease_of c i (fence_token q i.job_id + 1)) q.leases;
  newest = omega arith;
  current =
      rw (
        find-put_self ℕ_discrete i.job_id (fence_token q i.job_id + 1) q.fence_tokens,
        fence_token,
      );
  is_leased = refl;
  bound = ground arith;
  owner = refl;
  from = refl;
  until = refl;
}

IsGranted-bury :
    (i : DurableWorkItem) {q r : Queue} {c : Claim} {w : LeasedWorkItem}
    → IsGranted (bury i q) c w r
    → IsGranted q c w r
unfolding bury
IsGranted-bury i h = record {
  stored_item = h.stored_item;
  stored_lease = h.stored_lease;
  newest = h.newest;
  current = h.current;
  is_leased = h.is_leased;
  bound = h.bound;
  owner = h.owner;
  from = h.from;
  until = h.until;
}

acquire_from-IsGranted :
    (c : Claim) (is : List DurableWorkItem) (q : Queue) (w : LeasedWorkItem)
    → (acquire_from c is q).0 ≡ some w
    → IsGranted q c w (acquire_from c is q).1
unfolding acquire_from
acquire_from-IsGranted c [] q w h = absurd (cc h)
acquire_from-IsGranted c (i ∷ is) q w h = elim (Bool-cases (leb i.max_attempts i.attempt)) [
  | inl e ↦
      rw (e, acquire_from)
        (IsGranted-bury i (acquire_from-IsGranted c is (bury i q) w (rw (e, acquire_from) at h)))
  | inr e ↦
      let found : some (grant c i q).0 ≡ some w = rw (e, acquire_from) at h in
      let same_work : (grant c i q).0 ≡ w = cc in
      rw (e, acquire_from)
        (subst (λ x. IsGranted q c x (grant c i q).1) same_work (grant-IsGranted c i q))
]

abbrev pub claim : String → ℤ → ℕ → ℕ → Claim
claim owner ttl now lease_id = record {
  owner_id = owner;
  ttl = pos_part ttl;
  now = now;
  lease_id = lease_id;
}

-- What a caller of `acquire` that is given work may rely on.
pub acquire-IsGranted :
    (queue tenant owner : String) (ttl : ℤ) (now lease_id : ℕ) (q r : Queue) (w : LeasedWorkItem)
    → acquire queue tenant owner ttl now lease_id q ≡ (ok (some w), r)
    → IsGranted q (claim owner ttl now lease_id) w r × (0 < pos_part ttl)
unfolding acquire
acquire-IsGranted queue tenant owner ttl now lease_id q r w h =
    elim (Bool-cases
      (not (is_valid_ttl ttl) || (is_blank tenant || (is_blank queue || is_blank owner)))) [
        | inl e ↦ absurd (ground arith)
        | inr e ↦
            let c = claim owner ttl now lease_id in
            let found = acquire_from c (candidates q tenant queue now) q in
            let same_result : ◌≡◌ {A = Result (Option LeasedWorkItem) × Queue} (ok found.0, found.1)
                (ok (some w), r) =
              rw (e, acquire) at h in
            let same_work : found.0 ≡ some w = ground arith in
            let same_queue : found.1 ≡ r = ground arith in
            (
              subst (IsGranted q c w) same_queue (acquire_from-IsGranted c _ q w same_work),
              ground arith,
            )
      ]

-- A holder whose token the store has replaced is turned away.
pub require_current_stale :
    (w : LeasedWorkItem) (l : FencedLease) (now : ℕ) (q : Queue)
    → find ℕ_discrete w.item.job_id q.leases ≡ some l
    → w.lease.fence_token < l.fence_token
    → require_current w now q ≡ err lease_lost
unfolding require_current
require_current_stale w l now q f older = ground arith
