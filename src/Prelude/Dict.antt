-- ===== src/Prelude/Dict.antt =====
-- A Python dict in insertion order, over keys with a decidable equality.
use mathlib.Core.Path.{◌≡◌, refl, sym, ◌∙◌}
use mathlib.Core.Logic.{◌≢◌, ◌⊎◌, inl, inr}
use mathlib.Core.Bool.{Bool, true, false}
use mathlib.Core.List.{List, [], ◌∷◌}
use mathlib.Core.Option.{Option, none, some}
use native.Mathlib.Omega.{arith}
use Prim.Native.Nat.{◌+◌, ◌≤◌}
use prodkit_control.Prelude.Lists.{All, count}

abbrev pub Dict : Type 0 → Type 0 → Type 0
Dict K V = List (K × V)

module _ {K V : Type 0} (d : Discrete K) where
  -- `m.get(k)`
  unfoldable pub find : K → Dict K V → Option V
  find k [] = none
  find k ((j, v) ∷ m) = elim (d j k) [ yes _ ↦ some v | no _ ↦ find k m ]

  -- `m[k] = v`
  unfoldable pub put : K → V → Dict K V → Dict K V
  put k v [] = (k, v) ∷ []
  put k v ((j, w) ∷ m) = elim (d j k) [ yes _ ↦ (j, v) ∷ m | no _ ↦ (j, w) ∷ put k v m ]

  -- `m.pop(k, None)`, without its value
  unfoldable pub erase : K → Dict K V → Dict K V
  erase k [] = []
  erase k ((j, w) ∷ m) = elim (d j k) [ yes _ ↦ m | no _ ↦ (j, w) ∷ erase k m ]

  -- no key stands twice
  abbrev pub IsDict : Dict K V → Type 0
  IsDict [] = Unit
  IsDict ((k, v) ∷ m) = (find k m ≡ none) × IsDict m

  pub find-put_self : (k : K) (v : V) (m : Dict K V) → find k (put k v m) ≡ some v
  unfolding find put
  find-put_self k v [] = ground arith
  find-put_self k v ((j, w) ∷ m) = ground (arith, find-put_self k v m)

  pub find-put_ne : (k j : K) (v : V) (m : Dict K V) → k ≢ j → find j (put k v m) ≡ find j m
  unfolding find put
  find-put_ne k j v [] h = ground arith
  find-put_ne k j v ((i, w) ∷ m) h = ground (arith, find-put_ne k j v m h)

  pub find-erase_ne : (k j : K) (m : Dict K V) → k ≢ j → find j (erase k m) ≡ find j m
  unfolding find erase
  find-erase_ne k j [] h = refl
  find-erase_ne k j ((i, w) ∷ m) h = ground (arith, find-erase_ne k j m h)

  pub find-erase_self : (k : K) (m : Dict K V) → IsDict m → find k (erase k m) ≡ none
  unfolding find erase
  find-erase_self k [] h = refl
  find-erase_self k ((i, w) ∷ m) h = ground (arith, find-erase_self k m h.1)

  pub put-IsDict : (k : K) (v : V) (m : Dict K V) → IsDict m → IsDict (put k v m)
  unfolding find put
  put-IsDict k v [] h = (refl, tt)
  put-IsDict k v ((j, w) ∷ m) h = ground (arith, put-IsDict k v m h.1, find-put_ne k j v m)

  pub erase-IsDict : (k : K) (m : Dict K V) → IsDict m → IsDict (erase k m)
  unfolding find erase
  erase-IsDict k [] h = tt
  erase-IsDict k ((j, w) ∷ m) h = ground (arith, erase-IsDict k m h.1, find-erase_ne k j m)

  -- What a lookup finds after a write: the new value under its key, or what was there.
  pub find-put_cases :
      (k j : K) (v : V) (m : Dict K V)
      → ((j ≡ k) × (find j (put k v m) ≡ some v)) ⊎ ((k ≢ j) × (find j (put k v m) ≡ find j m))
  find-put_cases k j v m = elim (d k j) [
    | yes e ↦ inl (sym e, rw (← e) (find-put_self k v m))
    | no n ↦ inr (n, find-put_ne k j v m n)
  ]

  -- After a removal a lookup finds nothing that was not there before.
  pub find-erase-some :
      (k j : K) (v : V) (m : Dict K V)
      → IsDict m
      → find j (erase k m) ≡ some v
      → (k ≢ j) × (find j m ≡ some v)
  find-erase-some k j v m h e = elim (d k j) [
    | yes p ↦ absurd (ground (arith, find-erase_self k m h, p))
    | no n ↦ (n, sym (find-erase_ne k j m n) ∙ e)
  ]

  All-find_cons :
      (k : K) (w : V) (m es : Dict K V)
      → find k m ≡ none
      → All (λ (e : K × V). find e.0 m ≡ some e.1) es
      → All (λ (e : K × V). find e.0 ((k, w) ∷ m) ≡ some e.1) es
  unfolding find
  All-find_cons k w m [] h a = tt
  All-find_cons k w m ((j, v) ∷ es) h a = (ground arith, All-find_cons k w m es h a.1)

  -- In a dict every entry is the one that its key finds.
  pub All-find : (m : Dict K V) → IsDict m → All (λ (e : K × V). find e.0 m ≡ some e.1) m
  unfolding find
  All-find [] h = tt
  All-find ((k, v) ∷ m) h = (ground arith, All-find_cons k v m m h.0 (All-find m h.1))

  module _ (p : K × V → Bool) where
    -- A write adds at most one to a count.
    pub count-put-le : (k : K) (v : V) (m : Dict K V) → count p (put k v m) ≤ count p m + 1
    unfolding put
    count-put-le k v [] = ground arith
    count-put-le k v ((j, w) ∷ m) = ground (arith, count-put-le k v m)

    -- It adds nothing where the entry that it replaces was counted too, or the new one is not.
    pub count-put_kept :
        (k : K) (v w : V) (m : Dict K V)
        → find k m ≡ some w
        → (p (k, v) ≡ true → p (k, w) ≡ true)
        → count p (put k v m) ≤ count p m
    unfolding find put
    count-put_kept k v w [] e h = absurd (cc e)
    count-put_kept k v w ((j, u) ∷ m) e h = elim (d j k) [
      | yes q ↦ ground (arith, q)
      | no n ↦ ground (arith, count-put_kept k v w m)
    ]

    -- Nor does it where the new entry is not counted.
    pub count-put_uncounted :
        (k : K) (v : V) (m : Dict K V)
        → ((j : K) → j ≡ k → p (j, v) ≡ false)
        → count p (put k v m) ≤ count p m
    unfolding put
    count-put_uncounted k v [] h = ground (arith, h k refl)
    count-put_uncounted k v ((j, u) ∷ m) h = elim (d j k) [
      | yes q ↦ ground (arith, q, h j q)
      | no n ↦ ground (arith, count-put_uncounted k v m h)
    ]
