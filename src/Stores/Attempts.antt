-- ===== src/Stores/Attempts.antt =====
-- `InMemoryExecutionAttemptStore`
use prodkit_control.Prelude.{
  ℕ, ℕ_discrete, String, string_discrete, Bool, false, not, ◌||◌, Option, none, some, List, [], ◌∷◌,
  ◌==◌, any, if◌then◌else◌, ◌≡◌, ◌≢◌, refl, sym, ◌∙◌, ap, inl, inr, ◌⊎◌, arith, Bool-cases,
  Option-cases,
}
use prodkit_control.Prelude.Dict.{Dict, find, put, find-put_cases, find-put_self}
use prodkit_control.Prelude.Result.{Result, ok, err, value_error, key_error}
use prodkit_control.Contracts.Work.{is_some}
use prodkit_control.Contracts.Execution.{ExecutionAttemptRecord}

-- a tenant and an id
abbrev pub Key : Type 0
Key = String × ℕ

unfoldable pub Key_discrete : Discrete Key
Key_discrete = hlevel (string_discrete, ℕ_discrete)

pub record Attempts : Type 0 where
  pub records : Dict Key ExecutionAttemptRecord
  pub latest_by_action : Dict Key ℕ

abbrev pub empty : Attempts
empty = record { records = []; latest_by_action = [] }

abbrev pub identity : ExecutionAttemptRecord → Key
identity a = (a.tenant_id, a.attempt_id)

abbrev pub find_record : Key → Attempts → Option ExecutionAttemptRecord
find_record k s = find Key_discrete k s.records

-- both writes of `create` and of `replace`
abbrev pub written : ExecutionAttemptRecord → Attempts → Attempts
written a s = record {
  records = put Key_discrete (identity a) a s.records;
  latest_by_action = put Key_discrete (a.tenant_id, a.action_id) a.attempt_id s.latest_by_action;
}

abbrev pub has_id : ℕ → Key × ExecutionAttemptRecord → Bool
has_id attempt_id ((_, i), _) = i == attempt_id

unfoldable pub create : ExecutionAttemptRecord → Attempts → Result (Unit {0}) × Attempts
create a s =
    if is_some (find_record (identity a) s)
    then (err value_error, s)
    else (if any (has_id a.attempt_id) s.records
        then (err value_error, s)
        else (ok tt, written a s))

unfoldable pub replace : ExecutionAttemptRecord → Attempts → Result (Unit {0}) × Attempts
replace a s = elim (find_record (identity a) s) [
  | none ↦ (err key_error, s)
  | some current ↦
      if not (current.action_id == a.action_id) || not (current.run_id == a.run_id)
      then (err value_error, s)
      else (ok tt, written a s)
]

unfoldable pub get : String → ℕ → Attempts → Option ExecutionAttemptRecord
get tenant attempt_id s = find_record (tenant, attempt_id) s

unfoldable pub latest_for_action : String → ℕ → Attempts → Option ExecutionAttemptRecord
latest_for_action tenant action_id s =
    elim (find Key_discrete (tenant, action_id) s.latest_by_action) [
      | none ↦ none
      | some attempt_id ↦ find_record (tenant, attempt_id) s
    ]

-- An attempt id has one owner, every record stands under its own tenant and id, and the latest
-- attempt of an action is a record of that action.
pub record IsSound (s : Attempts) : Type 0 where
  pub owned :
      (a b : Key) (x y : ExecutionAttemptRecord)
      → find_record a s ≡ some x
      → find_record b s ≡ some y
      → a.1 ≡ b.1
      → a ≡ b
  pub keyed : (k : Key) (x : ExecutionAttemptRecord) → find_record k s ≡ some x → identity x ≡ k
  pub latest :
      (tenant : String) (action_id attempt_id : ℕ)
      → find Key_discrete (tenant, action_id) s.latest_by_action ≡ some attempt_id
      → (x : ExecutionAttemptRecord) × (find_record (tenant, attempt_id) s ≡ some x)
        × (x.action_id ≡ action_id)

module _ (a : ExecutionAttemptRecord) (s : Attempts) (h : IsSound s) where
  -- What is found after a write: the new record, or one that was there.
  found_after :
      (k : Key) (x : ExecutionAttemptRecord)
      → find_record k (written a s) ≡ some x
      → ((k ≡ identity a) × (x ≡ a)) ⊎ ((k ≢ identity a) × (find_record k s ≡ some x))
  found_after k x f = elim (find-put_cases Key_discrete (identity a) k a s.records) [
    | inl (e, g) ↦ inl (e, cc (f, g))
    | inr (n, g) ↦ inr (λ e. n (sym e), sym g ∙ f)
  ]

  found_at :
      (tenant : String) (attempt_id : ℕ)
      → tenant ≡ a.tenant_id
      → attempt_id ≡ a.attempt_id
      → find_record (tenant, attempt_id) (written a s) ≡ some a
  found_at tenant attempt_id p q = rw (p, q) (find-put_self Key_discrete (identity a) a s.records)

  -- A write is sound if the id is free or has this owner, and the record it replaces, if any, is of the
  -- same action.
  written-IsSound :
      ((k : Key) (x : ExecutionAttemptRecord)
        → find_record k s ≡ some x
        → k.1 ≡ a.attempt_id
        → k ≡ identity a)
      → ((x : ExecutionAttemptRecord)
          → find_record (identity a) s ≡ some x
          → x.action_id ≡ a.action_id)
      → IsSound (written a s)
  written-IsSound mine same_action = record {
    owned = λ k j x y f g e. elim (found_after k x f) [
      | inl (p, u) ↦ elim (found_after j y g) [
        | inl (q, v) ↦ p ∙ sym q
        | inr (m, v) ↦ p ∙ sym (mine j y v (sym e ∙ ap (λ (z : Key). z.1) p))
      ]
      | inr (n, u) ↦ elim (found_after j y g) [
        | inl (q, v) ↦ mine k x u (e ∙ ap (λ (z : Key). z.1) q) ∙ sym q
        | inr (m, v) ↦ h.owned k j x y u v e
      ]
    ];
    keyed = λ k x f. elim (found_after k x f) [
      | inl (p, u) ↦ ap identity u ∙ sym p
      | inr (n, u) ↦ h.keyed k x u
    ];
    latest = λ tenant action_id attempt_id f.
        elim (find-put_cases Key_discrete (a.tenant_id, a.action_id) (tenant, action_id)
          a.attempt_id s.latest_by_action) [
            | inl (p, g) ↦ (
              a,
              found_at tenant attempt_id (ap (λ (z : Key). z.0) p) (cc (f, g)),
              sym (ap (λ (z : Key). z.1) p),
            )
            | inr (n, g) ↦
                let (x, u, e) = h.latest tenant action_id attempt_id (sym g ∙ f) in
                elim (find-put_cases Key_discrete (identity a) (tenant, attempt_id) a s.records) [
                  | inl (q, v) ↦ (
                    a,
                    v,
                    sym (same_action x (ap (λ (z : Key). find_record z s) (sym q) ∙ u)) ∙ e,
                  )
                  | inr (m, v) ↦ (x, v ∙ u, e)
                ]
          ];
  }

no_id :
    (i : ℕ) (m : Dict Key ExecutionAttemptRecord) (k : Key) (x : ExecutionAttemptRecord)
    → any (has_id i) m ≡ false
    → find Key_discrete k m ≡ some x
    → k.1 ≢ i
unfolding find
no_id i [] k x e f = absurd (cc f)
no_id i (((t, j), y) ∷ m) k x e f = elim (Key_discrete (t, j) k) [
  | yes p ↦ let q : j ≡ k.1 = ap (λ (z : Key). z.1) p in λ r. absurd (ground arith)
  | no n ↦ no_id i m k x (ground arith) (ground arith)
]

create-IsSound : (a : ExecutionAttemptRecord) (s : Attempts) → IsSound s → IsSound (create a s).1
unfolding create
create-IsSound a s h = elim (Option-cases (find_record (identity a) s)) [
  | inr (x, f) ↦ rw (f, create) h
  | inl f ↦ elim (Bool-cases (any (has_id a.attempt_id) s.records)) [
    | inl e ↦ rw (f, e, create) h
    | inr e ↦
        rw (f, e, create)
          (written-IsSound a s h (λ k x g i. absurd (no_id a.attempt_id s.records k x e g i))
            (λ x g. absurd (cc (f, g))))
  ]
]

replace-IsSound : (a : ExecutionAttemptRecord) (s : Attempts) → IsSound s → IsSound (replace a s).1
unfolding replace
replace-IsSound a s h = elim (Option-cases (find_record (identity a) s)) [
  | inl f ↦ rw (f, replace) h
  | inr (x, f) ↦
      elim (Bool-cases (not (x.action_id == a.action_id) || not (x.run_id == a.run_id))) [
        | inl e ↦ rw (f, e, replace) h
        | inr e ↦
            rw (f, e, replace)
              (written-IsSound a s h (λ k y g i. h.owned k (identity a) y x g f i)
                (λ y g. same_action x e y (cc (f, g))))
      ]
]
  where
    same_action :
        (x : ExecutionAttemptRecord)
        → (not (x.action_id == a.action_id) || not (x.run_id == a.run_id)) ≡ false
        → (y : ExecutionAttemptRecord) → x ≡ y
        → y.action_id ≡ a.action_id
    same_action x e y p = ground arith

pub data Op : Type 0 where
  creates : ExecutionAttemptRecord → Op
  replaces : ExecutionAttemptRecord → Op

unfoldable pub apply : Op → Attempts → Attempts
apply (creates a) s = (create a s).1
apply (replaces a) s = (replace a s).1

unfoldable pub run : List Op → Attempts → Attempts
run [] s = s
run (op ∷ ops) s = run ops (apply op s)

run-IsSound : (ops : List Op) (s : Attempts) → IsSound s → IsSound (run ops s)
unfolding run apply
run-IsSound [] s h = h
run-IsSound (creates a ∷ ops) s h = run-IsSound ops (create a s).1 (create-IsSound a s h)
run-IsSound (replaces a ∷ ops) s h = run-IsSound ops (replace a s).1 (replace-IsSound a s h)

empty-IsSound : IsSound empty
unfolding find
empty-IsSound = record {
  owned = λ a b x y f g e. absurd (cc f);
  keyed = λ k x f. absurd (cc f);
  latest = λ tenant action_id attempt_id f. absurd (cc f);
}

-- After any history of calls on a new store: an attempt id belongs to one tenant; a record that is read
-- under a tenant and an id has that tenant and that id; and the latest attempt of an action belongs to
-- the tenant and to the action.
pub run_isolates :
    (ops : List Op)
    → let s = run ops empty in
      ((t u : String) (i : ℕ) (x y : ExecutionAttemptRecord)
        → get t i s ≡ some x
        → get u i s ≡ some y
        → t ≡ u)
      × ((t : String) (i : ℕ) (x : ExecutionAttemptRecord)
          → get t i s ≡ some x
          → (x.tenant_id ≡ t) × (x.attempt_id ≡ i))
      × ((t : String) (i : ℕ) (x : ExecutionAttemptRecord)
          → latest_for_action t i s ≡ some x
          → (x.tenant_id ≡ t) × (x.action_id ≡ i))
unfolding get latest_for_action
run_isolates ops =
    let h = run-IsSound ops empty empty-IsSound in
    (
      λ t u i x y f g. ap (λ (z : Key). z.0) (h.owned (t, i) (u, i) x y f g refl),
      λ t i x f. let k = h.keyed (t, i) x f in (ap (λ (z : Key). z.0) k, ap (λ (z : Key). z.1) k),
      λ t i x f. latest_of h t i x f,
    )
  where
    latest_of :
        IsSound (run ops empty)
        → (t : String) (i : ℕ) (x : ExecutionAttemptRecord)
        → latest_for_action t i (run ops empty) ≡ some x
        → (x.tenant_id ≡ t) × (x.action_id ≡ i)
    latest_of h t i x f =
        elim (Option-cases (find Key_discrete (t, i) (run ops empty).latest_by_action)) [
          | inl g ↦ absurd (ground arith)
          | inr (j, g) ↦
              let read : find_record (t, j) (run ops empty) ≡ some x =
                rw (g, latest_for_action) at f in
              let (y, u, e) = h.latest t i j g in
              let same_record : y ≡ x = cc (u, read) in
              (ap (λ (z : Key). z.0) (h.keyed (t, j) x read), rw same_record at e)
        ]
