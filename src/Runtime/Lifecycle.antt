-- ===== src/Runtime/Lifecycle.antt =====
-- `RuntimeLifecycle`: admission and draining. `admit` is a context manager: entering it and leaving
-- it are two steps, between which other tasks run; a task leaves only what it has entered.
use prodkit_control.Prelude.{
  ℕ, ◌+◌, ◌-◌, ◌≤◌, Bool, true, not, ◌==◌, ◌≡◌, ◌≢◌, refl, arith, same, if◌then◌else◌,
}
use native.Mathlib.Nat.{le_trans}
use prodkit_control.Prelude.Result.{Result, ok, err, runtime_draining}

pub data RuntimeState : Type 0 where
  accepting draining stopped : RuntimeState

unfoldable pub RuntimeState_discrete : Discrete RuntimeState
RuntimeState_discrete = hlevel

pub record Lifecycle : Type 0 where
  pub state : RuntimeState
  pub in_flight : ℕ

-- `__init__`
abbrev pub init : Lifecycle
init = record { state = accepting; in_flight = 0 }

abbrev pub is_accepting : RuntimeState → Bool
is_accepting s = same RuntimeState_discrete s accepting

-- `admit`, up to the `yield`
unfoldable pub enter : Lifecycle → Result (Unit {0}) × Lifecycle
enter s =
    if not (is_accepting s.state)
    then (err runtime_draining, s)
    else (ok tt, record s { in_flight = s.in_flight + 1 })

-- `admit`, the `finally`
unfoldable pub leave : Lifecycle → Lifecycle
leave s = record s { in_flight = s.in_flight - 1 }

unfoldable pub begin_draining : Lifecycle → Lifecycle
begin_draining s = if is_accepting s.state then record s { state = draining } else s

unfoldable pub stop : Lifecycle → Lifecycle
stop s = record s { state = stopped }

-- The condition that `wait_for_drain` waits for; without it, it returns False after its timeout.
unfoldable pub is_drained : Lifecycle → Bool
is_drained s = s.in_flight == 0

-- A step of some task; the number is how many tasks are inside `admit`.
pub data Step (s : Lifecycle) (n : ℕ) (t : Lifecycle) (m : ℕ) : Type 0 where
  entered : (enter s).0 ≡ ok tt → t ≡ (enter s).1 → m ≡ n + 1 → Step s n t m
  refused : (enter s).0 ≡ err runtime_draining → t ≡ (enter s).1 → m ≡ n → Step s n t m
  left : t ≡ leave s → n ≡ m + 1 → Step s n t m
  drains : t ≡ begin_draining s → m ≡ n → Step s n t m
  stops : t ≡ stop s → m ≡ n → Step s n t m

pub data Reach (s : Lifecycle) (n : ℕ) : Lifecycle → ℕ → Type 0 where
  here : Reach s n s n
  next : {t u : Lifecycle} {m k : ℕ} → Reach s n t m → Step t m u k → Reach s n u k

Step-in_flight : {s t : Lifecycle} {n m : ℕ} → Step s n t m → s.in_flight ≡ n → t.in_flight ≡ m
unfolding enter leave begin_draining stop
Step-in_flight (entered ok_ e k) h = ground arith
Step-in_flight (refused no_ e k) h = ground arith
Step-in_flight (left e k) h = ground arith
Step-in_flight (drains e k) h = ground arith
Step-in_flight (stops e k) h = ground arith

pub Reach-in_flight :
    {s : Lifecycle} {n : ℕ} {t : Lifecycle} {m : ℕ}
    → Reach s n t m
    → s.in_flight ≡ n
    → t.in_flight ≡ m
Reach-in_flight here h = h
Reach-in_flight (next r s) h = Step-in_flight s (Reach-in_flight r h)

Step-closed :
    {s t : Lifecycle} {n m : ℕ}
    → Step s n t m
    → s.state ≢ accepting
    → (t.state ≢ accepting) × (m ≤ n)
unfolding enter leave begin_draining stop
Step-closed (entered ok_ e k) h = absurd (ground arith)
Step-closed (refused no_ e k) h = (ground arith, ground arith)
Step-closed (left e k) h = (ground arith, ground arith)
Step-closed (drains e k) h = (ground arith, ground arith)
Step-closed (stops e k) h = (ground arith, ground arith)

Reach-closed :
    {s : Lifecycle} {n : ℕ} {t : Lifecycle} {m : ℕ}
    → Reach s n t m
    → s.state ≢ accepting
    → (t.state ≢ accepting) × (m ≤ n)
Reach-closed here h = (h, omega arith)
Reach-closed (next r s) h =
    let (closed, le) = Reach-closed r h in
    let (closed', le') = Step-closed s closed in (closed', le_trans le' le)

-- A runtime that has begun to drain never admits work again, its work in flight never grows, and
-- once it has drained it stays drained, whatever its tasks do. Throughout, the counter is the number of
-- tasks inside `admit`.
pub drain_is_final :
    {s t : Lifecycle} {n m : ℕ}
    → Reach init 0 s n
    → Reach (begin_draining s) n t m
    → (enter t ≡ (err runtime_draining, t))
      × (t.in_flight ≤ s.in_flight)
      × (s.in_flight ≡ n)
      × (t.in_flight ≡ m)
      × (is_drained s ≡ true → is_drained t ≡ true)
unfolding begin_draining is_drained enter
drain_is_final {s} {t} {n} {m} before after =
    let counted = Reach-in_flight before refl in
    let drain : Step s n (begin_draining s) n = drains refl refl in
    let counted' = Reach-in_flight after (Step-in_flight drain counted) in
    let (closed, le) = Reach-closed after (draining_closed s) in
    (ground arith, omega arith, counted, counted', λ drained. ground arith)
  where
    draining_closed : (x : Lifecycle) → (begin_draining x).state ≢ accepting
    draining_closed x = ground arith
