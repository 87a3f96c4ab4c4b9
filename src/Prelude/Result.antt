-- ===== src/Prelude/Result.antt =====
-- Exceptions as values, and calls over a state that stays written after a raise.
-- The exceptions are those of packages/python/prodkit-control-core/src/prodkit_control_core/exceptions.py,
-- the built-in ones that the program raises, and any that external code raises.
use Prim.Native.Nat.{ℕ}
use mathlib.Core.Bool.{Bool, true, false}
use mathlib.Core.List.{List}
use mathlib.Core.Path.{◌≡◌, refl}
use mathlib.Core.Logic.{◌⊎◌, inl, inr}
use Prim.Native.String.{String}

pub data Exn : Type 0 where
  integrity_violation authorization_denied approval_denied duplicate_action : Exn
  executor_not_found unsupported_schema lease_lost queue_overloaded : Exn
  capacity_exceeded runtime_draining : Exn
  approval_required : ℕ → ℕ → Exn
  incomplete_lineage : List String → Exn
  value_error key_error index_error permission_error : Exn
  external : ℕ → Exn

pub data Result {ℓ} (A : Type ℓ) : Type ℓ where
  ok : A → Result A
  err : Exn → Result A

pub Result-cases {ℓ} :
    {A : Type ℓ} (r : Result A) → ((e : Exn) × (r ≡ err e)) ⊎ ((a : A) × (r ≡ ok a))
Result-cases (ok a) = inr (a, refl)
Result-cases (err e) = inl (e, refl)

-- A call over the state `S`: the state comes back after a raise too.
abbrev pub Call : Type 0 → Type 0 → Type 0
Call S A = S → Result A × S

infixl 5 ◌>>=◌ ◌>>◌
unfoldable pub ◌>>=◌ : {S A B : Type 0} → Call S A → (A → Call S B) → Call S B
◌>>=◌ m f s = let (r, s') = m s in elim r [ ok a ↦ f a s' | err e ↦ (err e, s') ]

abbrev pub ◌>>◌ : {S A B : Type 0} → Call S A → Call S B → Call S B
m >> k = m >>= λ _. k

unfoldable pub pure : {S A : Type 0} → A → Call S A
pure a s = (ok a, s)

unfoldable pub raise : {S A : Type 0} → Exn → Call S A
raise e s = (err e, s)

unfoldable pub raise_if : {S : Type 0} → Bool → Exn → Call S (Unit {0})
raise_if true e s = (err e, s)
raise_if false e s = (ok tt, s)

-- `try: m  except Exception as exc: handler(exc)`
unfoldable pub catch : {S A : Type 0} → Call S A → (Exn → Call S A) → Call S A
catch m h s = let (r, s') = m s in elim r [ ok a ↦ (ok a, s') | err e ↦ h e s' ]
