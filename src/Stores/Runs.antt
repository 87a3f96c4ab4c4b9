-- ===== src/Stores/Runs.antt =====
-- `InMemoryRunStore` of packages/python/prodkit-control-runtime/src/prodkit_control_runtime/runs.py.
-- Each method holds the store's lock for its whole body, so it is one step.
use prodkit_control.Prelude.{
  ℕ, String, Bool, false, not, Option, none, some, List, [], ◌∷◌, ◌==◌, any, if◌then◌else◌, ◌≡◌,
  ◌≢◌, refl, sym, ◌∙◌, ap, inl, inr, arith, Bool-cases, Option-cases,
}
use prodkit_control.Prelude.Dict.{Dict, find, put, find-put_cases}
use prodkit_control.Prelude.Result.{Result, ok, err, value_error, key_error}
use prodkit_control.Contracts.Work.{is_some}
use prodkit_control.Contracts.Runs.{RunRecord}
use prodkit_control.Stores.Attempts.{Key, Key_discrete}

abbrev pub Runs : Type 0
Runs = Dict Key RunRecord

abbrev pub identity : RunRecord → Key
identity r = (r.tenant_id, r.run_id)

abbrev pub has_id : ℕ → Key × RunRecord → Bool
has_id run_id ((_, i), _) = i == run_id

unfoldable pub create : RunRecord → Runs → Result (Unit {0}) × Runs
create r s =
    if is_some (find Key_discrete (identity r) s)
    then (err value_error, s)
    else (if any (has_id r.run_id) s
        then (err value_error, s)
        else (ok tt, put Key_discrete (identity r) r s))

unfoldable pub replace : RunRecord → Runs → Result (Unit {0}) × Runs
replace r s = elim (find Key_discrete (identity r) s) [
  | none ↦ (err key_error, s)
  | some current ↦
      if not (current.started_at == r.started_at)
      then (err value_error, s)
      else (ok tt, put Key_discrete (identity r) r s)
]

unfoldable pub get : String → ℕ → Runs → Option RunRecord
get tenant run_id s = find Key_discrete (tenant, run_id) s

-- A run id has one owner, a record stands under its own tenant and id.
pub record IsSound (s : Runs) : Type 0 where
  pub owned :
      (a b : Key) (x y : RunRecord)
      → find Key_discrete a s ≡ some x
      → find Key_discrete b s ≡ some y
      → a.1 ≡ b.1
      → a ≡ b
  pub keyed : (k : Key) (x : RunRecord) → find Key_discrete k s ≡ some x → identity x ≡ k

-- A write is sound if the id is free or has this owner.
put-IsSound :
    (r : RunRecord) (s : Runs)
    → IsSound s
    → ((k : Key) (x : RunRecord) → find Key_discrete k s ≡ some x → k.1 ≡ r.run_id → k ≡ identity r)
    → IsSound (put Key_discrete (identity r) r s)
put-IsSound r s h mine = record {
  owned = λ k j x y f g e. elim (find-put_cases Key_discrete (identity r) k r s) [
    | inl (p, u) ↦ elim (find-put_cases Key_discrete (identity r) j r s) [
      | inl (q, v) ↦ p ∙ sym q
      | inr (m, v) ↦ p ∙ sym (mine j y (sym v ∙ g) (sym e ∙ ap (λ (z : Key). z.1) p))
    ]
    | inr (n, u) ↦ elim (find-put_cases Key_discrete (identity r) j r s) [
      | inl (q, v) ↦ mine k x (sym u ∙ f) (e ∙ ap (λ (z : Key). z.1) q) ∙ sym q
      | inr (m, v) ↦ h.owned k j x y (sym u ∙ f) (sym v ∙ g) e
    ]
  ];
  keyed = λ k x f. elim (find-put_cases Key_discrete (identity r) k r s) [
    | inl (p, u) ↦ let same_run : x ≡ r = cc (f, u) in ap identity same_run ∙ sym p
    | inr (n, u) ↦ h.keyed k x (sym u ∙ f)
  ];
}

no_id :
    (i : ℕ) (m : Runs) (k : Key) (x : RunRecord)
    → any (has_id i) m ≡ false
    → find Key_discrete k m ≡ some x
    → k.1 ≢ i
unfolding find
no_id i [] k x e f = absurd (cc f)
no_id i (((t, j), y) ∷ m) k x e f = elim (Key_discrete (t, j) k) [
  | yes p ↦ let q : j ≡ k.1 = ap (λ (z : Key). z.1) p in λ r. absurd (ground arith)
  | no n ↦ no_id i m k x (ground arith) (ground arith)
]

create-IsSound : (r : RunRecord) (s : Runs) → IsSound s → IsSound (create r s).1
unfolding create
create-IsSound r s h = elim (Option-cases (find Key_discrete (identity r) s)) [
  | inr (x, f) ↦ rw (f, create) h
  | inl f ↦ elim (Bool-cases (any (has_id r.run_id) s)) [
    | inl e ↦ rw (f, e, create) h
    | inr e ↦ rw (f, e, create) (put-IsSound r s h (λ k x g i. absurd (no_id r.run_id s k x e g i)))
  ]
]

replace-IsSound : (r : RunRecord) (s : Runs) → IsSound s → IsSound (replace r s).1
unfolding replace
replace-IsSound r s h = elim (Option-cases (find Key_discrete (identity r) s)) [
  | inl f ↦ rw (f, replace) h
  | inr (x, f) ↦ elim (Bool-cases (not (x.started_at == r.started_at))) [
    | inl e ↦ rw (f, e, replace) h
    | inr e ↦ rw (f, e, replace) (put-IsSound r s h (λ k y g i. h.owned k (identity r) y x g f i))
  ]
]

pub data Op : Type 0 where
  creates : RunRecord → Op
  replaces : RunRecord → Op

unfoldable pub run : List Op → Runs → Runs
run [] s = s
run (creates r ∷ ops) s = run ops (create r s).1
run (replaces r ∷ ops) s = run ops (replace r s).1

run-IsSound : (ops : List Op) (s : Runs) → IsSound s → IsSound (run ops s)
unfolding run
run-IsSound [] s h = h
run-IsSound (creates r ∷ ops) s h = run-IsSound ops (create r s).1 (create-IsSound r s h)
run-IsSound (replaces r ∷ ops) s h = run-IsSound ops (replace r s).1 (replace-IsSound r s h)

new-IsSound : IsSound []
unfolding find
new-IsSound = record { owned = λ a b x y f g e. absurd (cc f); keyed = λ k x f. absurd (cc f) }

-- After any history of calls on a new run store a run id belongs to one tenant, and a run that is read
-- under a tenant and an id has that tenant and that id.
pub runs_isolated :
    (ops : List Op)
    → let s = run ops [] in
      ((t u : String) (i : ℕ) (x y : RunRecord) → get t i s ≡ some x → get u i s ≡ some y → t ≡ u)
      × ((t : String) (i : ℕ) (x : RunRecord)
          → get t i s ≡ some x
          → (x.tenant_id ≡ t) × (x.run_id ≡ i))
unfolding get
runs_isolated ops =
    let h = run-IsSound ops [] new-IsSound in
    (
      λ t u i x y f g. ap (λ (z : Key). z.0) (h.owned (t, i) (u, i) x y f g refl),
      λ t i x f. let k = h.keyed (t, i) x f in (ap (λ (z : Key). z.0) k, ap (λ (z : Key). z.1) k),
    )
