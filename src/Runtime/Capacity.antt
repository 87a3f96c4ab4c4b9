-- ===== src/Runtime/Capacity.antt =====
-- `CapacityAdmissionController`: bounds on the work in flight, overall and by tenant. Entering the
-- context manager and leaving it are two steps, between which other tasks run.
use prodkit_control.Prelude.{
  ℕ, ◌+◌, ◌-◌, ◌≤◌, ◌<◌, String, string_discrete, none, some, List, [], ◌∷◌, ◌++◌, ◌≡◌, refl, sym,
  ◌∙◌, inl, inr, arith, leb, ◌==◌, text_eq, length, ◌||◌, length-append, count, Option-cases,
  Bool-cases, text_eq_refl, if◌then◌else◌,
}
use prodkit_control.Prelude.Dict.{
  Dict, find, put, erase, find-put_cases, IsDict, put-IsDict, erase-IsDict, find-erase_self,
  find-erase_ne,
}
use prodkit_control.Prelude.Result.{Result, ok, err, capacity_exceeded}
use prodkit_control.Contracts.Work.{CapacityEnvelope}

pub record Controller : Type 0 where
  pub envelope : CapacityEnvelope
  pub total : ℕ
  pub per_tenant : Dict String ℕ

-- `__init__`
abbrev pub init : CapacityEnvelope → Controller
init e = record { envelope = e; total = 0; per_tenant = [] }

-- `self._per_tenant[tenant_id]`
abbrev pub tenant_count : String → Dict String ℕ → ℕ
tenant_count tenant m = elim (find string_discrete tenant m) [ none ↦ 0 | some n ↦ n ]

-- Reading a `defaultdict` stores the default of a missing key.
abbrev pub touch : String → Dict String ℕ → Dict String ℕ
touch tenant m = elim (find string_discrete tenant m) [
  | none ↦ put string_discrete tenant 0 m
  | some n ↦ m
]

-- `admit`, up to the `yield`
unfoldable pub enter : String → Controller → Result (Unit {0}) × Controller
enter tenant c =
    let m = touch tenant c.per_tenant in
    let n = tenant_count tenant c.per_tenant in
    if leb c.envelope.max_in_flight c.total || leb c.envelope.max_per_tenant_in_flight n
    then (err capacity_exceeded, record c { per_tenant = m })
    else (
      ok tt,
      record c { total = c.total + 1; per_tenant = put string_discrete tenant (n + 1) m },
    )

-- `admit`, the `finally`
unfoldable pub leave : String → Controller → Controller
leave tenant c =
    let m = touch tenant c.per_tenant in
    let remaining = tenant_count tenant c.per_tenant - 1 in
    record c {
      total = c.total - 1;
      per_tenant =
          if remaining == 0
          then erase string_discrete tenant m
          else put string_discrete tenant remaining m;
    }

-- A step of some task; the list has the tenant of each task inside `admit`.
pub data Step (c : Controller) (open_ : List String) (d : Controller) : List String → Type 0 where
  entered :
      (tenant : String)
      → (enter tenant c).0 ≡ ok tt
      → d ≡ (enter tenant c).1
      → Step c open_ d (tenant ∷ open_)
  refused :
      (tenant : String)
      → (enter tenant c).0 ≡ err capacity_exceeded
      → d ≡ (enter tenant c).1
      → Step c open_ d open_
  left :
      (tenant : String) (xs ys : List String)
      → open_ ≡ xs ++ (tenant ∷ ys)
      → d ≡ leave tenant c
      → Step c open_ d (xs ++ ys)

pub data Reach (c : Controller) : Controller → List String → Type 0 where
  here : Reach c c []
  next : {d e : Controller} {xs ys : List String} → Reach c d xs → Step d xs e ys → Reach c e ys

pub record IsBounded (c : Controller) (open_ : List String) : Type 0 where
  pub counted : c.total ≡ length open_
  pub by_tenant : (t : String) → tenant_count t c.per_tenant ≡ count (text_eq t) open_
  pub is_dict : IsDict string_discrete c.per_tenant
  pub total_bound : c.total ≤ c.envelope.max_in_flight
  pub tenant_bound :
      (t : String) → tenant_count t c.per_tenant ≤ c.envelope.max_per_tenant_in_flight

-- The counts after a write of one tenant's.
tenant_count-put :
    (k t : String) (n : ℕ) (m : Dict String ℕ)
    → tenant_count t (put string_discrete k n m) ≡ (if text_eq t k then n else tenant_count t m)
tenant_count-put k t n m = elim (find-put_cases string_discrete k t n m) [
  | inl (p, f) ↦ ground (arith, p)
  | inr (d, f) ↦ ground (arith, d)
]

tenant_count-touch :
    (k t : String) (m : Dict String ℕ) → tenant_count t (touch k m) ≡ tenant_count t m
tenant_count-touch k t m = elim (Option-cases (find string_discrete k m)) [
  | inr (n, f) ↦ ground arith
  | inl f ↦ elim (find-put_cases string_discrete k t 0 m) [
    | inl (p, g) ↦ ground (arith, p)
    | inr (d, g) ↦ ground (arith, d)
  ]
]

touch-IsDict :
    (k : String) (m : Dict String ℕ) → IsDict string_discrete m → IsDict string_discrete (touch k m)
touch-IsDict k m h = elim (Option-cases (find string_discrete k m)) [
  | inr (n, f) ↦ rw (f, touch) h
  | inl f ↦ rw (f, touch) (put-IsDict string_discrete k 0 m h)
]

tenant_count-erase :
    (k t : String) (m : Dict String ℕ)
    → IsDict string_discrete m
    → tenant_count t (erase string_discrete k m) ≡ (if text_eq t k then 0 else tenant_count t m)
tenant_count-erase k t m h = elim (string_discrete t k) [
  | yes p ↦ ground (arith, p, find-erase_self string_discrete k m h)
  | no n ↦ ground (arith, find-erase_ne string_discrete k t m (λ e. n (sym e)))
]

-- One admission more or less, in the count of each tenant.
count-split :
    (t k : String) (xs ys : List String)
    → count (text_eq t) (xs ++ (k ∷ ys))
      ≡ count (text_eq t) (xs ++ ys) + (if text_eq t k then 1 else 0)
count-split t k [] ys = ground arith
count-split t k (x ∷ xs) ys = ground (arith, count-split t k xs ys)

enter_cases :
    (k : String) (c : Controller)
    → (enter k c).0 ≡ ok tt
    → (c.total < c.envelope.max_in_flight)
      × (tenant_count k c.per_tenant < c.envelope.max_per_tenant_in_flight)
      × ((enter k c).1 ≡ record c {
        total = c.total + 1;
        per_tenant = put string_discrete k (tenant_count k c.per_tenant + 1) (touch k c.per_tenant);
      })
unfolding enter
enter_cases k c h = ground arith

refused_cases :
    (k : String) (c : Controller)
    → (enter k c).0 ≡ err capacity_exceeded
    → (enter k c).1 ≡ record c { per_tenant = touch k c.per_tenant }
unfolding enter
refused_cases k c h = ground arith

module _ (k : String) (c : Controller) where
  enter_count :
      (t : String)
      → tenant_count t
          (put string_discrete k (tenant_count k c.per_tenant + 1) (touch k c.per_tenant))
        ≡ tenant_count t c.per_tenant + (if text_eq t k then 1 else 0)
  enter_count t = ground (
    arith,
    tenant_count-put k t (tenant_count k c.per_tenant + 1) (touch k c.per_tenant),
    tenant_count-touch k t c.per_tenant,
  )

  leave_count :
      IsDict string_discrete c.per_tenant
      → 0 < tenant_count k c.per_tenant
      → (t : String)
      → tenant_count t (leave k c).per_tenant + (if text_eq t k then 1 else 0)
        ≡ tenant_count t c.per_tenant
  unfolding leave
  leave_count h pos t = elim (Bool-cases (tenant_count k c.per_tenant - 1 == 0)) [
    | inl e ↦ rw e (
        ground (
          arith,
          tenant_count-erase k t (touch k c.per_tenant) (touch-IsDict k c.per_tenant h),
          tenant_count-touch k t c.per_tenant,
        ))
    | inr e ↦ rw e (
        ground (
          arith,
          tenant_count-put k t (tenant_count k c.per_tenant - 1) (touch k c.per_tenant),
          tenant_count-touch k t c.per_tenant,
        ))
  ]

  leave-IsDict : IsDict string_discrete c.per_tenant → IsDict string_discrete (leave k c).per_tenant
  unfolding leave
  leave-IsDict h = elim (Bool-cases (tenant_count k c.per_tenant - 1 == 0)) [
    | inl e ↦ rw e (erase-IsDict string_discrete k _ (touch-IsDict k c.per_tenant h))
    | inr e ↦ rw e (put-IsDict string_discrete k _ _ (touch-IsDict k c.per_tenant h))
  ]

  leave_rest : ((leave k c).total ≡ c.total - 1) × ((leave k c).envelope ≡ c.envelope)
  unfolding leave
  leave_rest = (refl, refl)

count_self : (k : String) (xs ys : List String) → 0 < count (text_eq k) (xs ++ (k ∷ ys))
count_self k xs ys = ground (arith, count-split k k xs ys, text_eq_refl k)

length-split : (k : String) (xs ys : List String) → length (xs ++ (k ∷ ys)) ≡ length (xs ++ ys) + 1
length-split k xs ys = omega (arith, length-append xs (k ∷ ys), length-append xs ys)

entered-IsBounded :
    (k : String) (c : Controller) (xs : List String)
    → (enter k c).0 ≡ ok tt
    → IsBounded c xs
    → IsBounded (enter k c).1 (k ∷ xs)
entered-IsBounded k c xs e h =
    let (room, tenant_room, after) = enter_cases k c e in
    rw after (record {
      counted = omega (arith, h.counted);
      by_tenant = λ t. ground (arith, enter_count k c t, h.by_tenant t);
      is_dict = put-IsDict string_discrete k _ _ (touch-IsDict k c.per_tenant h.is_dict);
      total_bound = omega arith;
      tenant_bound = λ t. tenant_bounded t tenant_room;
    })
  where
    tenant_bounded :
        (t : String)
        → tenant_count k c.per_tenant < c.envelope.max_per_tenant_in_flight
        → tenant_count t
            (put string_discrete k (tenant_count k c.per_tenant + 1) (touch k c.per_tenant))
          ≤ c.envelope.max_per_tenant_in_flight
    tenant_bounded t room = ground (arith, enter_count k c t, h.tenant_bound t)

refused-IsBounded :
    (k : String) (c : Controller) (xs : List String)
    → (enter k c).0 ≡ err capacity_exceeded
    → IsBounded c xs
    → IsBounded (enter k c).1 xs
refused-IsBounded k c xs e h = rw (refused_cases k c e) (record {
  counted = h.counted;
  by_tenant = λ t. tenant_count-touch k t c.per_tenant ∙ h.by_tenant t;
  is_dict = touch-IsDict k c.per_tenant h.is_dict;
  total_bound = h.total_bound;
  tenant_bound = λ t. omega (arith, tenant_count-touch k t c.per_tenant, h.tenant_bound t);
})

left-IsBounded :
    (k : String) (c : Controller) (xs ys : List String)
    → IsBounded c (xs ++ (k ∷ ys))
    → IsBounded (leave k c) (xs ++ ys)
left-IsBounded k c xs ys h =
    let pos : 0 < tenant_count k c.per_tenant = omega (arith, h.by_tenant k, count_self k xs ys) in
    record {
      counted = omega (arith, (leave_rest k c).0, h.counted, length-split k xs ys);
      by_tenant =
          λ t. omega (arith, leave_count k c h.is_dict pos t, h.by_tenant t, count-split t k xs ys);
      is_dict = leave-IsDict k c h.is_dict;
      total_bound = bound;
      tenant_bound = λ t. tenant_bounded pos t;
    }
  where
    bound : (leave k c).total ≤ (leave k c).envelope.max_in_flight
    bound = rw (leave_rest k c).1 (omega (arith, (leave_rest k c).0, h.total_bound))

    tenant_bounded :
        0 < tenant_count k c.per_tenant
        → (t : String)
        → tenant_count t (leave k c).per_tenant ≤ (leave k c).envelope.max_per_tenant_in_flight
    tenant_bounded pos t =
        rw (leave_rest k c).1 (omega (arith, leave_count k c h.is_dict pos t, h.tenant_bound t))

Step-IsBounded :
    {c d : Controller} {xs ys : List String} → Step c xs d ys → IsBounded c xs → IsBounded d ys
Step-IsBounded {c} {xs} (entered k e p) h = rw p (entered-IsBounded k c xs e h)
Step-IsBounded {c} {xs} (refused k e p) h = rw p (refused-IsBounded k c xs e h)
Step-IsBounded {c} (left k xs ys p q) h = rw q (left-IsBounded k c xs ys (rw p at h))

Reach-IsBounded :
    (e : CapacityEnvelope) {d : Controller} {xs : List String}
    → Reach (init e) d xs
    → IsBounded d xs
unfolding find
Reach-IsBounded e here = record {
  counted = refl;
  by_tenant = λ t. refl;
  is_dict = tt;
  total_bound = omega arith;
  tenant_bound = λ t. omega arith;
}
Reach-IsBounded e (next r s) = Step-IsBounded s (Reach-IsBounded e r)

Step-envelope : {c d : Controller} {xs ys : List String} → Step c xs d ys → d.envelope ≡ c.envelope
unfolding leave
Step-envelope {c} (entered k e p) = rw (p, (enter_cases k c e).2)
Step-envelope {c} (refused k e p) = rw (p, refused_cases k c e)
Step-envelope (left k xs ys p q) = rw q

Reach-envelope : {c d : Controller} {xs : List String} → Reach c d xs → d.envelope ≡ c.envelope
Reach-envelope here = refl
Reach-envelope (next r s) = Step-envelope s ∙ Reach-envelope r

-- In any interleaving of admissions, refusals and departures from a new controller: the total is the
-- number of tasks inside, each tenant's count is the number of its tasks inside, and neither passes
-- the bound that the controller was made with.
pub admissions_bounded :
    (e : CapacityEnvelope) {d : Controller} {xs : List String}
    → Reach (init e) d xs
    → (d.total ≡ length xs)
      × (length xs ≤ e.max_in_flight)
      × ((t : String)
          → (tenant_count t d.per_tenant ≡ count (text_eq t) xs)
            × (count (text_eq t) xs ≤ e.max_per_tenant_in_flight))
admissions_bounded e r =
    let b = Reach-IsBounded e r in
    let same_envelope = Reach-envelope r in
    let total_bound = rw same_envelope at b.total_bound in
    (
      b.counted,
      omega (arith, b.counted),
      λ t.
          let tenant_bound = rw same_envelope at (b.tenant_bound t) in
          (b.by_tenant t, omega (arith, b.by_tenant t)),
    )
