-- ===== src/Prelude/Tests.antt =====
-- Boolean tests on numbers, texts and decidable types, and the conditional.
use Prim.Native.Nat.{ℕ, compare, Ordering}
use Prim.Native.Char.{code}
use Prim.Native.String.{String}
use mathlib.Core.Path.{◌≡◌, refl, sym}
use mathlib.Core.Logic.{◌⊎◌, inl, inr}
use mathlib.Core.Bool.{Bool, true, false, not, ◌&&◌, ◌||◌}
use mathlib.Core.Option.{Option, none, some}
use native.Mathlib.Omega.{arith}
use text.Mathlib.Text.{◌==◌ as str_eq}
use text.Mathlib.TextEquality.{eq_iff}

abbrev pub ltb : ℕ → ℕ → Bool
ltb a b = elim (compare a b) [ Ordering.lt ↦ true | _ ↦ false ]

abbrev pub leb : ℕ → ℕ → Bool
leb a b = elim (compare a b) [ Ordering.gt ↦ false | _ ↦ true ]

infix 50 ◌==◌
abbrev pub ◌==◌ : ℕ → ℕ → Bool
a == b = elim (compare a b) [ Ordering.eq ↦ true | _ ↦ false ]

infix 1 if◌then◌else◌
abbrev pub if◌then◌else◌ {ℓ} : {A : Type ℓ} → Bool → A → A → A
if true then x else y = x
if false then x else y = y

pub Bool-cases : (b : Bool) → (b ≡ true) ⊎ (b ≡ false)
Bool-cases true = inl refl
Bool-cases false = inr refl

pub Option-cases {ℓ} : {A : Type ℓ} (o : Option A) → (o ≡ none) ⊎ ((a : A) × (o ≡ some a))
Option-cases none = inl refl
Option-cases (some a) = inr (a, refl)

-- Equality as a test, by a decision of it.
abbrev pub same {ℓ} : {A : Type ℓ} → Discrete A → A → A → Bool
same d a b = elim (d a b) [ yes _ ↦ true | no _ ↦ false ]

pub ne_of_str_eq : (a b : String) → str_eq a b ≡ false → a ≡ b → ⊥
ne_of_str_eq a b e p = ground (arith, eq_iff a b)

unfoldable pub string_discrete : Discrete String
unfolding Bool-cases
string_discrete s t = elim (Bool-cases (str_eq s t)) [
  | inl e ↦ yes ((eq_iff s t).0 e)
  | inr e ↦ no (ne_of_str_eq s t e)
]

abbrev pub text_eq : String → String → Bool
text_eq s t = same string_discrete s t

-- The characters that `str.strip()` removes: `str.isspace` of the language.
unfoldable pub is_space : ℕ → Bool
is_space c =
    (leb 9 c && leb c 13)
    || ((leb 28 c && leb c 32)
        || (c == 133
            || (c == 160
                || (c == 5760
                    || ((leb 8192 c && leb c 8202)
                        || ((leb 8232 c && leb c 8233)
                            || (c == 8239 || (c == 8287 || c == 12288))))))))

-- `not text.strip()`
unfoldable pub is_blank : String → Bool
unfolding is_space
is_blank String.[] = true
is_blank (String.◌∷◌ c s) = is_space (code c) && is_blank s

pub text_eq_refl : (s : String) → text_eq s s ≡ true
text_eq_refl s = elim (string_discrete s s) [ yes p ↦ ground arith | no n ↦ absurd (n refl) ]

pub same_path {ℓ} : {A : Type ℓ} (d : Discrete A) (a b : A) → same d a b ≡ true → a ≡ b
same_path d a b h = elim (d a b) [ yes p ↦ p | no n ↦ absurd (ground arith) ]

pub undo_not : (b : Bool) → not b ≡ false → b ≡ true
undo_not true h = refl
undo_not false h = sym h

pub ands : (a b : Bool) → a && b ≡ true → (a ≡ true) × (b ≡ true)
ands true b h = (refl, h)
ands false b h = absurd (cc h)

pub same_comm {ℓ} : {A : Type ℓ} (d : Discrete A) (a b : A) → same d a b ≡ same d b a
same_comm d a b = elim (d a b) [
  | yes p ↦ elim (d b a) [ yes q ↦ ground arith | no n ↦ absurd (n (sym p)) ]
  | no n ↦ elim (d b a) [ yes q ↦ absurd (n (sym q)) | no m ↦ ground arith ]
]

pub equal_of : {a b : ℕ} → (a == b) ≡ true → a ≡ b
equal_of h = ground arith

pub some_injective {ℓ} : {A : Type ℓ} {a b : A} → some a ≡ some b → a ≡ b
some_injective e = cc
