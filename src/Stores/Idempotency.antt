-- ===== src/Stores/Idempotency.antt =====
-- `InMemoryIdempotencyStore`: a key of a tenant belongs to the digest of the first action that claims it.
use prodkit_control.Prelude.{
  ℕ, String, string_discrete, Bool, true, false, not, Option, none, some, List, [], ◌∷◌, ◌==◌,
  if◌then◌else◌, ◌≡◌, ◌≢◌, refl, sym, ◌∙◌, ap, inl, inr, ◌⊎◌, arith, Option-cases,
}
use prodkit_control.Prelude.Dict.{Dict, find, put, find-put_cases, find-put_self}
use prodkit_control.Prelude.Result.{Result, ok, err, duplicate_action, key_error}
use prodkit_control.Contracts.Actions.{ExecutionResult}

-- `_IdempotencyEntry`
pub record Entry : Type 0 where
  pub action_digest : ℕ
  pub result : Option ExecutionResult

-- a tenant and an idempotency key
abbrev pub Key : Type 0
Key = String × String

unfoldable pub Key_discrete : Discrete Key
Key_discrete = hlevel string_discrete

abbrev pub Entries : Type 0
Entries = Dict Key Entry

unfoldable pub claim : Key → ℕ → Entries → Result Bool × Entries
claim k action_digest s = elim (find Key_discrete k s) [
  | none ↦ (ok true, put Key_discrete k (record { action_digest = action_digest; result = none }) s)
  | some current ↦
      (if not (current.action_digest == action_digest) then err duplicate_action else ok false, s)
]

unfoldable pub complete : Key → ExecutionResult → Entries → Result (Unit {0}) × Entries
complete k result s = elim (find Key_discrete k s) [
  | none ↦ (err key_error, s)
  | some entry ↦ (ok tt, put Key_discrete k (record entry { result = some result }) s)
]

unfoldable pub result : Key → Entries → Option ExecutionResult
result k s = elim (find Key_discrete k s) [ none ↦ none | some entry ↦ entry.result ]

pub data Op : Type 0 where
  claims : Key → ℕ → Op
  completes : Key → ExecutionResult → Op

unfoldable pub apply : Op → Entries → Entries
apply (claims k d) s = (claim k d s).1
apply (completes k r) s = (complete k r s).1

unfoldable pub run : List Op → Entries → Entries
run [] s = s
run (op ∷ ops) s = run ops (apply op s)

-- the digest that owns a key
unfoldable pub owner : Key → Entries → Option ℕ
owner k s = elim (find Key_discrete k s) [ none ↦ none | some entry ↦ some entry.action_digest ]

owner-find :
    (k : Key) (d : ℕ) (s : Entries)
    → owner k s ≡ some d
    → (e : Entry) × (find Key_discrete k s ≡ some e) × (e.action_digest ≡ d)
unfolding owner
owner-find k d s h = elim (Option-cases (find Key_discrete k s)) [
  | inl f ↦ absurd (ground arith)
  | inr (e, f) ↦ (e, f, ground arith)
]

find-owner :
    (k : Key) (s : Entries) (e : Entry)
    → find Key_discrete k s ≡ some e
    → owner k s ≡ some e.action_digest
unfolding owner
find-owner k s e f = rw (f, owner) refl

-- A key keeps its digest in every step.
put-owner :
    (k j : Key) (e : Entry) (d : ℕ) (s : Entries)
    → owner j s ≡ some d
    → (j ≡ k → e.action_digest ≡ d)
    → owner j (put Key_discrete k e s) ≡ some d
put-owner k j e d s h same_digest = elim (find-put_cases Key_discrete k j e s) [
  | inl (p, q) ↦ find-owner j (put Key_discrete k e s) e q ∙ ap some (same_digest p)
  | inr (n, q) ↦
      let (x, f, p) = owner-find j d s h in
      find-owner j (put Key_discrete k e s) x (q ∙ f) ∙ ap some p
]

pub claim-owner :
    (k j : Key) (c d : ℕ) (s : Entries) → owner j s ≡ some d → owner j (claim k c s).1 ≡ some d
unfolding claim
claim-owner k j c d s h = elim (Option-cases (find Key_discrete k s)) [
  | inl g ↦
      rw (g, claim) (put-owner k j (record { action_digest = c; result = none }) d s h (vacant g))
  | inr (x, g) ↦ rw (g, claim) h
]
  where
    vacant : find Key_discrete k s ≡ none → j ≡ k → c ≡ d
    vacant g p = let (x, f, _) = owner-find j d s h in absurd (cc (p, f, g))

complete-owner :
    (k j : Key) (r : ExecutionResult) (d : ℕ) (s : Entries)
    → owner j s ≡ some d
    → owner j (complete k r s).1 ≡ some d
unfolding complete
complete-owner k j r d s h = elim (Option-cases (find Key_discrete k s)) [
  | inl g ↦ rw (g, complete) h
  | inr (x, g) ↦ rw (g, complete) (put-owner k j (record x { result = some r }) d s h (kept x g))
]
  where
    kept : (x : Entry) → find Key_discrete k s ≡ some x → j ≡ k → x.action_digest ≡ d
    kept x g p = let (y, f, e) = owner-find j d s h in ground (arith, p, f, g)

apply-owner :
    (op : Op) (j : Key) (d : ℕ) (s : Entries) → owner j s ≡ some d → owner j (apply op s) ≡ some d
unfolding apply
apply-owner (claims k c) j d s h = claim-owner k j c d s h
apply-owner (completes k r) j d s h = complete-owner k j r d s h

run-owner :
    (ops : List Op) (j : Key) (d : ℕ) (s : Entries)
    → owner j s ≡ some d
    → owner j (run ops s) ≡ some d
unfolding run
run-owner [] j d s h = h
run-owner (op ∷ ops) j d s h = run-owner ops j d (apply op s) (apply-owner op j d s h)

claim_new :
    (k : Key) (d : ℕ) (s : Entries)
    → find Key_discrete k s ≡ none
    → claim k d s ≡ (ok true, put Key_discrete k (record { action_digest = d; result = none }) s)
unfolding claim
claim_new k d s f = rw (f, claim) refl

claim_known :
    (k : Key) (d : ℕ) (s : Entries) (e : Entry)
    → find Key_discrete k s ≡ some e
    → claim k d s ≡ (if not (e.action_digest == d) then err duplicate_action else ok false, s)
unfolding claim
claim_known k d s e f = rw (f, claim) refl

claim-granted : (k : Key) (d : ℕ) (s r : Entries) → claim k d s ≡ (ok true, r) → owner k r ≡ some d
claim-granted k d s r h = elim (Option-cases (find Key_discrete k s)) [
  | inl g ↦
      let e : Entry = record { action_digest = d; result = none } in
      let after : put Key_discrete k e s ≡ r =
        ap (λ (x : Result Bool × Entries). x.1) (sym (claim_new k d s g) ∙ h) in
      ap (owner k) (sym after)
      ∙ find-owner k (put Key_discrete k e s) e (find-put_self Key_discrete k e s)
  | inr (x, g) ↦ absurd (known x g)
]
  where
    known : (x : Entry) → find Key_discrete k s ≡ some x → ⊥
    known x g =
        let r0 : (if not (x.action_digest == d) then err duplicate_action else ok false) ≡ ok true =
          ap (λ (y : Result Bool × Entries). y.0) (sym (claim_known k d s x g) ∙ h) in
        ground arith

claim_same : (k : Key) (d : ℕ) (s : Entries) → owner k s ≡ some d → claim k d s ≡ (ok false, s)
claim_same k d s h = let (e, f, p) = owner-find k d s h in claim_known k d s e f ∙ answer e p
  where
    answer :
        (e : Entry)
        → e.action_digest ≡ d
        → ◌≡◌ {A = Result Bool × Entries}
            (if not (e.action_digest == d) then err duplicate_action else ok false, s)
            (ok false, s)
    answer e p = ground arith

claim_other :
    (k : Key) (c d : ℕ) (s : Entries)
    → owner k s ≡ some d
    → c ≢ d
    → claim k c s ≡ (err duplicate_action, s)
claim_other k c d s h n = let (e, f, p) = owner-find k d s h in claim_known k c s e f ∙ answer e p
  where
    answer :
        (e : Entry)
        → e.action_digest ≡ d
        → ◌≡◌ {A = Result Bool × Entries}
            (if not (e.action_digest == c) then err duplicate_action else ok false, s)
            (err duplicate_action, s)
    answer e p = ground arith

-- A key is granted once: after a claim that returned True, and whatever the store did since, a claim
-- of that key by the same digest returns False, one by any other digest raises, and neither changes
-- anything.
pub claim_once :
    (k : Key) (d c : ℕ) (s r : Entries) (ops : List Op)
    → claim k d s ≡ (ok true, r)
    → (claim k d (run ops r) ≡ (ok false, run ops r))
      × (c ≢ d → claim k c (run ops r) ≡ (err duplicate_action, run ops r))
claim_once k d c s r ops h =
    let owned = run-owner ops k d r (claim-granted k d s r h) in
    (claim_same k d (run ops r) owned, λ n. claim_other k c d (run ops r) owned n)

complete_known :
    (k : Key) (x : ExecutionResult) (s : Entries) (e : Entry)
    → find Key_discrete k s ≡ some e
    → complete k x s ≡ (ok tt, put Key_discrete k (record e { result = some x }) s)
unfolding complete
complete_known k x s e f = rw (f, complete) refl

complete_unknown :
    (k : Key) (x : ExecutionResult) (s : Entries)
    → find Key_discrete k s ≡ none
    → complete k x s ≡ (err key_error, s)
unfolding complete
complete_unknown k x s f = rw (f, complete) refl

find-result :
    (k : Key) (s : Entries) (e : Entry) → find Key_discrete k s ≡ some e → result k s ≡ e.result
unfolding result
find-result k s e f = rw (f, result) refl

same_owner :
    (j : Key) (t s : Entries)
    → find Key_discrete j t ≡ find Key_discrete j s
    → owner j t ≡ owner j s
unfolding owner
same_owner j t s q = rw (q, owner) refl

-- No completion changes whose a key is.
pub complete-keeps_owner :
    (k j : Key) (r : ExecutionResult) (s : Entries) → owner j (complete k r s).1 ≡ owner j s
complete-keeps_owner k j r s = elim (Option-cases (find Key_discrete k s)) [
  | inl f ↦ rw (complete_unknown k r s f) refl
  | inr (e, f) ↦
      rw (complete_known k r s e f)
        (elim (find-put_cases Key_discrete k j (record e { result = some r }) s) [
          | inl (p, q) ↦ stored e f p q
          | inr (n, q) ↦ same_owner j (put Key_discrete k (record e { result = some r }) s) s q
        ])
]
  where
    stored :
        (e : Entry)
        → find Key_discrete k s ≡ some e
        → j ≡ k
        → let y : Entry = record e { result = some r } in
          find Key_discrete j (put Key_discrete k y s) ≡ some y
          → owner j (put Key_discrete k y s) ≡ owner j s
    stored e f p q =
        let y : Entry = record e { result = some r } in
        find-owner j (put Key_discrete k y s) y q
        ∙ sym (find-owner j s e (ap (λ (z : Key). find Key_discrete z s) p ∙ f))

-- Completing a key that was claimed stores the result, which later calls find, and leaves the key its
-- digest; completing a key that was not claimed raises and changes nothing.
pub result-complete :
    (k : Key) (x : ExecutionResult) (s : Entries)
    → let (returned, r) = complete k x s in
      (owner k s ≡ none → (returned ≡ err key_error) × (r ≡ s))
      × ((d : ℕ)
          → owner k s ≡ some d
          → (returned ≡ ok tt) × (result k r ≡ some x) × (owner k r ≡ some d))
result-complete k x s = elim (Option-cases (find Key_discrete k s)) [
  | inl f ↦
      rw (complete_unknown k x s f)
        (λ h. (refl, refl), λ d h. let (e, g, _) = owner-find k d s h in absurd (cc (f, g)))
  | inr (e, f) ↦ rw (complete_known k x s e f) (
    λ h. absurd (cc (h, find-owner k s e f)),
    λ d h.
        let y : Entry = record e { result = some x } in
        let stored = find-put_self Key_discrete k y s in
        (
          refl,
          find-result k (put Key_discrete k y s) y stored,
          find-owner k (put Key_discrete k y s) y stored ∙ (sym (find-owner k s e f) ∙ h),
        ),
  )
]

-- What a claim answers: it grants a key that has no owner, and then the digest owns it; else it changes
-- nothing.
pub claim-cases :
    (k : Key) (d : ℕ) (s : Entries)
    → let (answer, r) = claim k d s in
      ((owner k s ≡ none) × (answer ≡ ok true) × (owner k r ≡ some d))
      ⊎ ((r ≡ s) × ((answer ≡ ok false) ⊎ (answer ≡ err duplicate_action)))
claim-cases k d s = elim (Option-cases (find Key_discrete k s)) [
  | inl f ↦
      let e : Entry = record { action_digest = d; result = none } in
      rw (claim_new k d s f) (
        inl (
          vacant f,
          refl,
          find-owner k (put Key_discrete k e s) e (find-put_self Key_discrete k e s),
        ))
  | inr (x, f) ↦ rw (claim_known k d s x f) (inr (refl, answered (not (x.action_digest == d))))
]
  where
    vacant : find Key_discrete k s ≡ none → owner k s ≡ none
    vacant f = elim (Option-cases (owner k s)) [
      | inl e ↦ e
      | inr (c, e) ↦ let (x, g, _) = owner-find k c s e in absurd (cc (f, g))
    ]

    answered :
        (c : Bool)
        → ((if c then err duplicate_action else ok false) ≡ ok false)
          ⊎ ((if c then err duplicate_action else ok false) ≡ err duplicate_action)
    answered true = inr refl
    answered false = inl refl
