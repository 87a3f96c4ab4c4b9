-- ===== src/Leases/Fencing.antt =====
-- Mutual exclusion and fencing of the lease store.
use prodkit_control.Prelude.{
  ℕ, ◌+◌, ◌≤◌, ◌<◌, String, true, false, not, none, some, List, [], ◌∷◌, ◌≡◌, inl, inr, ◌⊎◌, arith,
  Bool-cases, Option-cases, is_blank, ◌||◌, if◌then◌else◌, text_eq,
}
use native.Mathlib.Nat.{le_trans}
use prodkit_control.Prelude.Int.{ℤ, pos_part}
use prodkit_control.Prelude.Dict.{put, find-put_cases}
use prodkit_control.Prelude.Result.{ok, err, value_error}
use prodkit_control.Contracts.Work.{FencedLease, named}
use prodkit_control.Queue.{is_valid_ttl}
use prodkit_control.Leases.{
  Resource, Resource_discrete, LeaseSlot, Slots, slot, resource, live, acquire, matches, holding,
  renew, release,
}

-- The calls that change the store; the time of each is arbitrary.
pub data Op : Type 0 where
  acquires : (tenant resource_key owner : String) (ttl : ℤ) (now lease_id : ℕ) → Op
  renews : FencedLease → (ttl : ℤ) (now : ℕ) → Op
  releases : FencedLease → (now : ℕ) → Op

unfoldable pub apply : Op → Slots → Slots
apply (acquires tenant key owner ttl now lease_id) s =
    (acquire tenant key owner ttl now lease_id s).1
apply (renews l ttl now) s = (renew l ttl now s).1
apply (releases l now) s = (release l now s).1

unfoldable pub run : List Op → Slots → Slots
run [] s = s
run (op ∷ ops) s = run ops (apply op s)

-- What a slot says of its resource: its lease is for it and carries the slot's token.
abbrev pub Fits : Resource → LeaseSlot → Type 0
Fits id x =
    (l : FencedLease) → x.current ≡ some l → (l.fence_token ≡ x.fence_token) × (resource l ≡ id)

pub record IsFenced (s : Slots) : Type 0 where
  pub fits : (id : Resource) → Fits id (slot id s)

-- Each call leaves the store or writes one slot, which fits and has no smaller a token.
Written : Slots → Slots → Type 0
Written s r =
    (id : Resource) × (x : LeaseSlot) × (r ≡ put Resource_discrete id x s)
    × ((slot id s).fence_token ≤ x.fence_token)
    × Fits id x

-- The lease that a call of `acquire` issues.
abbrev pub issued : String → String → String → ℤ → ℕ → ℕ → Slots → FencedLease
issued tenant key owner ttl now lease_id s = record {
  lease_id = lease_id;
  tenant_id = tenant;
  resource_key = named key;
  owner_id = owner;
  fence_token = (slot (tenant, named key) s).fence_token + 1;
  acquired_at = now;
  expires_at = now + pos_part ttl;
}

module _ (tenant key owner : String) (ttl : ℤ) (now lease_id : ℕ) (s : Slots) where
  abbrev pub here : LeaseSlot
  here = slot (tenant, named key) s

  pub acquire_refused :
      (not (is_valid_ttl ttl) || (is_blank tenant || (is_blank key || is_blank owner))) ≡ true
      → acquire tenant key owner ttl now lease_id s ≡ (err value_error, s)
  unfolding acquire
  acquire_refused e = rw (e, acquire)

  pub acquire_taken :
      (current : FencedLease)
      → (not (is_valid_ttl ttl) || (is_blank tenant || (is_blank key || is_blank owner))) ≡ false
      → live here.current now ≡ some current
      → acquire tenant key owner ttl now lease_id s
        ≡ ((if text_eq current.owner_id owner then ok (some current) else ok none), s)
  unfolding acquire
  acquire_taken current e f = rw (e, f, acquire)

  pub acquire_free :
      (not (is_valid_ttl ttl) || (is_blank tenant || (is_blank key || is_blank owner))) ≡ false
      → live here.current now ≡ none
      → acquire tenant key owner ttl now lease_id s ≡ (
        ok (some (issued tenant key owner ttl now lease_id s)),
        put Resource_discrete
            (tenant, named key)
            (record {
              fence_token = here.fence_token + 1;
              current = some (issued tenant key owner ttl now lease_id s);
            })
            s,
      )
  unfolding acquire
  acquire_free e f = rw (e, f, acquire)

  acquire_cases :
      ((acquire tenant key owner ttl now lease_id s).1 ≡ s)
      ⊎ Written s (acquire tenant key owner ttl now lease_id s).1
  unfolding Written
  acquire_cases =
      elim (Bool-cases
        (not (is_valid_ttl ttl) || (is_blank tenant || (is_blank key || is_blank owner)))) [
          | inl e ↦ inl (rw (acquire_refused e))
          | inr e ↦ elim (Option-cases (live here.current now)) [
            | inr (current, f) ↦ inl (rw (acquire_taken current e f))
            | inl f ↦ inr (
              (tenant, named key),
              record {
                fence_token = here.fence_token + 1;
                current = some (issued tenant key owner ttl now lease_id s);
              },
              rw (acquire_free e f),
              omega arith,
              λ l p. (ground arith, ground arith),
            )
          ]
        ]

-- The lease that `holding` finds is the one in the slot.
pub holding_current :
    (l current : FencedLease) (now : ℕ) (s : Slots)
    → holding l now s ≡ some current
    → ((slot (resource l) s).current ≡ some current)
      × (matches current l ≡ true)
      × (now < current.expires_at)
unfolding holding
holding_current l current now s h = elim (Option-cases (slot (resource l) s).current) [
  | inl f ↦ absurd (ground arith)
  | inr (x, f) ↦ ground arith
]

renew_cases :
    (l : FencedLease) (ttl : ℤ) (now : ℕ) (s : Slots)
    → IsFenced s
    → ((renew l ttl now s).1 ≡ s) ⊎ Written s (renew l ttl now s).1
unfolding renew Written
renew_cases l ttl now s h = elim (Bool-cases (not (is_valid_ttl ttl))) [
  | inl e ↦ inl (rw (e, renew))
  | inr e ↦ elim (Option-cases (holding l now s)) [
    | inl f ↦ inl (rw (e, f, renew))
    | inr (current, f) ↦ inr (
      resource l,
      record (slot (resource l) s) {
        current = some (record current { expires_at = now + pos_part ttl });
      },
      rw (e, f, renew),
      omega arith,
      λ x p.
          renewed current x p (h.fits (resource l) current (holding_current l current now s f).0),
    )
  ]
]
  where
    renewed :
        (current x : FencedLease)
        → some (record current { expires_at = now + pos_part ttl }) ≡ some x
        → (current.fence_token ≡ (slot (resource l) s).fence_token)
          × (resource current ≡ resource l)
        → (x.fence_token ≡ (slot (resource l) s).fence_token) × (resource x ≡ resource l)
    renewed current x p q = (ground arith, ground arith)

release_cases :
    (l : FencedLease) (now : ℕ) (s : Slots)
    → ((release l now s).1 ≡ s) ⊎ Written s (release l now s).1
unfolding release Written
release_cases l now s = elim (Option-cases (holding l now s)) [
  | inl f ↦ inl (rw (f, release))
  | inr (current, f) ↦ inr (
    resource l,
    record (slot (resource l) s) { current = none },
    rw (f, release),
    omega arith,
    λ x p. absurd (cc p),
  )
]

slot-put :
    (id j : Resource) (x : LeaseSlot) (s : Slots)
    → ((j ≡ id) × (slot j (put Resource_discrete id x s) ≡ x))
      ⊎ (slot j (put Resource_discrete id x s) ≡ slot j s)
slot-put id j x s = elim (find-put_cases Resource_discrete id j x s) [
  | inl (p, f) ↦ inl (p, ground arith)
  | inr (n, f) ↦ inr (ground arith)
]

Written-IsFenced : (s r : Slots) → Written s r → IsFenced s → IsFenced r
unfolding Written
Written-IsFenced s r (id, x, e, le, fit) h = record {
  fits = λ j. elim (slot-put id j x s) [
    | inl (p, f) ↦ rw (e, f, p) fit
    | inr f ↦ rw (e, f) (h.fits j)
  ];
}

Written-fence_token :
    (s r : Slots)
    → Written s r
    → (id : Resource) → (slot id s).fence_token ≤ (slot id r).fence_token
unfolding Written
Written-fence_token s r (id, x, e, le, fit) j = elim (slot-put id j x s) [
  | inl (p, f) ↦ rw (e, f, p) le
  | inr f ↦ rw (e, f) (omega arith)
]

apply_cases : (op : Op) (s : Slots) → IsFenced s → (apply op s ≡ s) ⊎ Written s (apply op s)
unfolding apply
apply_cases (acquires tenant key owner ttl now lease_id) s h =
    acquire_cases tenant key owner ttl now lease_id s
apply_cases (renews l ttl now) s h = renew_cases l ttl now s h
apply_cases (releases l now) s h = release_cases l now s

pub apply-IsFenced : (op : Op) (s : Slots) → IsFenced s → IsFenced (apply op s)
apply-IsFenced op s h = elim (apply_cases op s h) [
  | inl e ↦ rw e h
  | inr w ↦ Written-IsFenced s _ w h
]

pub run-IsFenced : (ops : List Op) (s : Slots) → IsFenced s → IsFenced (run ops s)
unfolding run
run-IsFenced [] s h = h
run-IsFenced (op ∷ ops) s h = run-IsFenced ops _ (apply-IsFenced op s h)

pub run-fence_token :
    (ops : List Op) (s : Slots)
    → IsFenced s
    → (id : Resource) → (slot id s).fence_token ≤ (slot id (run ops s)).fence_token
unfolding run
run-fence_token [] s h id = omega arith
run-fence_token (op ∷ ops) s h id = elim (apply_cases op s h) [
  | inl e ↦ le_trans (rw e (omega arith)) (run-fence_token ops _ (apply-IsFenced op s h) id)
  | inr w ↦
      le_trans (Written-fence_token s _ w id) (run-fence_token ops _ (apply-IsFenced op s h) id)
]
