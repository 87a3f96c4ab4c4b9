-- ===== src/Prelude/Sort.antt =====
-- `sorted(xs, key=...)`: a stable sort, by a strict comparison of keys.
use mathlib.Core.Path.{◌≡◌, refl, ap, ◌∙◌}
use mathlib.Core.Bool.{Bool, true, false, ◌||◌}
use mathlib.Core.List.{List, [], ◌∷◌}
use prodkit_control.Prelude.Lists.{All, Pairwise, any}
use prodkit_control.Prelude.Tests.{Bool-cases}
use mathlib.Core.Logic.{inl, inr}

swap : (a b c : Bool) → (b || (a || c)) ≡ (a || (b || c))
swap true true c = refl
swap true false c = refl
swap false b c = refl

or_assoc : (a b c : Bool) → (a || (b || c)) ≡ ((a || b) || c)
or_assoc true b c = refl
or_assoc false b c = refl

or_false : (a : Bool) → (a || false) ≡ a
or_false true = refl
or_false false = refl

module _ {A : Type 0} (less : A → A → Bool) where
  -- A new element goes behind those that are not greater.
  unfoldable pub insert : A → List A → List A
  insert x [] = x ∷ []
  insert x (y ∷ ys) = elim (less x y) [ true ↦ x ∷ y ∷ ys | false ↦ y ∷ insert x ys ]

  sort_onto : List A → List A → List A
  unfolding insert
  sort_onto [] done = done
  sort_onto (x ∷ xs) done = sort_onto xs (insert x done)

  unfoldable pub sort : List A → List A
  unfolding sort_onto
  sort xs = sort_onto xs []

  pub All-insert {κ} : (P : A → Type κ) (x : A) (ys : List A) → P x → All P ys → All P (insert x ys)
  unfolding insert
  All-insert P x [] hx h = (hx, tt)
  All-insert P x (y ∷ ys) hx h = elim (Bool-cases (less x y)) [
    | inl e ↦ rw (e, insert) (hx, h)
    | inr e ↦ rw (e, insert) (h.0, All-insert P x ys hx h.1)
  ]

  All-sort_onto {κ} :
      (P : A → Type κ) (xs done : List A) → All P xs → All P done → All P (sort_onto xs done)
  unfolding sort_onto
  All-sort_onto P [] done h hd = hd
  All-sort_onto P (x ∷ xs) done h hd =
      All-sort_onto P xs (insert x done) h.1 (All-insert P x done h.0 hd)

  pub All-sort {κ} : (P : A → Type κ) (xs : List A) → All P xs → All P (sort xs)
  unfolding sort
  All-sort P xs h = All-sort_onto P xs [] h tt

  -- A symmetric relation between any two elements survives sorting.
  module _ {κ} (R : A → A → Type κ) (R_sym : (a b : A) → R a b → R b a) where
    Pairwise-insert :
        (x : A) (ys : List A) → All (R x) ys → Pairwise R ys → Pairwise R (insert x ys)
    unfolding insert
    Pairwise-insert x [] hx h = (tt, tt)
    Pairwise-insert x (y ∷ ys) hx h = elim (Bool-cases (less x y)) [
      | inl e ↦ rw (e, insert) (hx, h)
      | inr e ↦
          rw (e, insert) (All-insert (R y) x ys (R_sym x y hx.0) h.0, Pairwise-insert x ys hx.1 h.1)
    ]

    All-of-insert :
        (x : A) (xs done : List A)
        → All (R x) xs
        → All (λ y. All (R y) done) xs
        → All (λ y. All (R y) (insert x done)) xs
    All-of-insert x [] done hx h = tt
    All-of-insert x (y ∷ ys) done hx h =
        (All-insert (R y) x done (R_sym x y hx.0) h.0, All-of-insert x ys done hx.1 h.1)

    Pairwise-sort_onto :
        (xs done : List A)
        → Pairwise R xs
        → Pairwise R done
        → All (λ y. All (R y) done) xs
        → Pairwise R (sort_onto xs done)
    unfolding sort_onto
    Pairwise-sort_onto [] done h hd a = hd
    Pairwise-sort_onto (x ∷ xs) done h hd a =
        Pairwise-sort_onto xs (insert x done) h.1 (Pairwise-insert x done a.0 hd)
          (All-of-insert x xs done h.0 a.1)

    All-of-nil : (xs : List A) → All (λ y. All (R y) []) xs
    All-of-nil [] = tt
    All-of-nil (x ∷ xs) = (tt, All-of-nil xs)

    pub Pairwise-sort : (xs : List A) → Pairwise R xs → Pairwise R (sort xs)
    unfolding sort
    Pairwise-sort xs h = Pairwise-sort_onto xs [] h tt (All-of-nil xs)

  All-of-insert_inv {κ} :
      (P : A → Type κ) (x : A) (ys : List A) → All P (insert x ys) → P x × All P ys
  unfolding insert
  All-of-insert_inv P x [] h = h
  All-of-insert_inv P x (y ∷ ys) h = elim (Bool-cases (less x y)) [
    | inl e ↦ (rw (e, insert) at h)
    | inr e ↦
        let (hy, rest) = unsplit (rw (e, insert) at h) in
        let (hx, hys) = All-of-insert_inv P x ys rest in (hx, (hy, hys))
  ]
    where
      unsplit : P y × All P (insert x ys) → P y × All P (insert x ys)
      unsplit p = p

  All-of-sort_onto {κ} :
      (P : A → Type κ) (xs done : List A) → All P (sort_onto xs done) → All P xs × All P done
  unfolding sort_onto
  All-of-sort_onto P [] done h = (tt, h)
  All-of-sort_onto P (x ∷ xs) done h =
      let (hxs, both) = All-of-sort_onto P xs (insert x done) h in
      let (hx, hd) = All-of-insert_inv P x done both in ((hx, hxs), hd)

  -- Sorting loses no element.
  pub All-of-sort {κ} : (P : A → Type κ) (xs : List A) → All P (sort xs) → All P xs
  unfolding sort
  All-of-sort P xs h = (All-of-sort_onto P xs [] h).0

  -- By a strict order, the result is sorted: nothing comes before what stands ahead of it.
  module _ (asym : (a b : A) → less a b ≡ true → less b a ≡ false)
      (trans : (a b c : A) → less a b ≡ true → less b c ≡ true → less a c ≡ true) where
    abbrev InOrder : A → A → Type 0
    InOrder a b = less b a ≡ false

    behind : (x y z : A) → less x y ≡ true → InOrder y z → InOrder x z
    behind x y z h p = elim (Bool-cases (less z x)) [
      | inl e ↦ absurd (cc (trans z x y e h, p))
      | inr e ↦ e
    ]

    All-behind : (x y : A) (zs : List A) → less x y ≡ true → All (InOrder y) zs → All (InOrder x) zs
    All-behind x y [] h a = tt
    All-behind x y (z ∷ zs) h a = (behind x y z h a.0, All-behind x y zs h a.1)

    InOrder-insert : (x : A) (ys : List A) → Pairwise InOrder ys → Pairwise InOrder (insert x ys)
    unfolding insert
    InOrder-insert x [] h = (tt, tt)
    InOrder-insert x (y ∷ ys) h = elim (Bool-cases (less x y)) [
      | inl e ↦ rw (e, insert) ((asym x y e, All-behind x y ys e h.0), h)
      | inr e ↦ rw (e, insert) (All-insert (InOrder y) x ys e h.0, InOrder-insert x ys h.1)
    ]

    InOrder-sort_onto :
        (xs done : List A) → Pairwise InOrder done → Pairwise InOrder (sort_onto xs done)
    unfolding sort_onto
    InOrder-sort_onto [] done h = h
    InOrder-sort_onto (x ∷ xs) done h =
        InOrder-sort_onto xs (insert x done) (InOrder-insert x done h)

    pub sort-InOrder : (xs : List A) → Pairwise (λ a b. less b a ≡ false) (sort xs)
    unfolding sort
    sort-InOrder xs = InOrder-sort_onto xs [] tt

  -- sorting neither adds nor drops what a test finds
  any-insert : (p : A → Bool) (x : A) (ys : List A) → any p (insert x ys) ≡ p x || any p ys
  unfolding insert
  any-insert p x [] = refl
  any-insert p x (y ∷ ys) = elim (Bool-cases (less x y)) [
    | inl e ↦ rw (e, insert) refl
    | inr e ↦ rw (e, insert, any-insert p x ys) (swap (p x) (p y) (any p ys))
  ]

  any-sort_onto :
      (p : A → Bool) (xs done : List A) → any p (sort_onto xs done) ≡ any p xs || any p done
  unfolding sort_onto
  any-sort_onto p [] done = refl
  any-sort_onto p (x ∷ xs) done =
      any-sort_onto p xs (insert x done)
      ∙ ap (λ (b : Bool). any p xs || b) (any-insert p x done)
      ∙ swap (p x) (any p xs) (any p done)
      ∙ or_assoc (p x) (any p xs) (any p done)

  pub any-sort : (p : A → Bool) (xs : List A) → any p (sort xs) ≡ any p xs
  unfolding sort
  any-sort p xs = any-sort_onto p xs [] ∙ or_false (any p xs)
