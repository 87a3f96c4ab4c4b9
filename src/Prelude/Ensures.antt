-- ===== src/Prelude/Ensures.antt =====
-- What a call keeps of its state, and what holds of a value that it returns.
use mathlib.Core.Bool.{Bool, true, false}
use mathlib.Core.Path.{◌≡◌, refl, sym, ap, subst, ◌∙◌}
use mathlib.Core.Logic.{◌≢◌, inl, inr}
use prodkit_control.Prelude.Result.{Exn, Result, ok, err, Result-cases, Call, ◌>>=◌, pure, raise_if}

abbrev pub Any : {A : Type 0} → A → Type 0
Any a = Unit {0}

-- `P` is kept, and `Q` holds of what is returned from where `P` does.
pub record Ensures {S A : Type 0} (P : S → Type 0) (Q : A → Type 0) (m : Call S A) : Type 0 where
  pub kept : (s : S) → P s → P (m s).1
  pub gives : (s : S) (a : A) → P s → (m s).0 ≡ ok a → Q a

pub ok_injective : {A : Type 0} (a b : A) → ok a ≡ ok b → a ≡ b
ok_injective a b e = cc

module _ {S A B : Type 0} (m : Call S A) (f : A → Call S B) where
  pub >>=_err : (s : S) (e : Exn) → (m s).0 ≡ err e → (m >>= f) s ≡ (err e, (m s).1)
  unfolding ◌>>=◌
  >>=_err s e p = rw (p, ◌>>=◌) refl

  pub >>=_ok : (s : S) (a : A) → (m s).0 ≡ ok a → (m >>= f) s ≡ f a (m s).1
  unfolding ◌>>=◌
  >>=_ok s a p = rw (p, ◌>>=◌) refl

  module _ (P : S → Type 0) (Q : A → Type 0) (R : B → Type 0) where
    pub >>=-Ensures : Ensures P Q m → ((a : A) → Q a → Ensures P R (f a)) → Ensures P R (m >>= f)
    >>=-Ensures hm hf = record {
      kept = λ s p. elim (Result-cases (m s).0) [
        | inl (e, q) ↦ rw (>>=_err s e q) (hm.kept s p)
        | inr (a, q) ↦ rw (>>=_ok s a q) ((hf a (hm.gives s a p q)).kept (m s).1 (hm.kept s p))
      ];
      gives = λ s b p r. elim (Result-cases (m s).0) [
        | inl (e, q) ↦
            let w : ((m >>= f) s).0 ≡ err e = ap (λ (x : Result B × S). x.0) (>>=_err s e q) in
            absurd (cc (w, r))
        | inr (a, q) ↦
            let w : ((m >>= f) s).0 ≡ (f a (m s).1).0 =
              ap (λ (x : Result B × S). x.0) (>>=_ok s a q) in
            (hf a (hm.gives s a p q)).gives (m s).1 b (hm.kept s p) (sym w ∙ r)
      ];
    }

module _ {S A : Type 0} (P : S → Type 0) (Q : A → Type 0) where
  pub pure-Ensures : (a : A) → Q a → Ensures P Q (pure a)
  unfolding pure
  pure-Ensures a q = record { kept = λ s p. p; gives = λ s b p e. subst Q (ok_injective a b e) q }

  pub weaken-Ensures :
      (R : A → Type 0) (m : Call S A) → Ensures P R m → ((a : A) → R a → Q a) → Ensures P Q m
  weaken-Ensures R m h w = record { kept = h.kept; gives = λ s a p e. w a (h.gives s a p e) }

module _ {S : Type 0} (P : S → Type 0) where
  -- what follows a guard knows that its test was false
  pub raise_if-Ensures : (b : Bool) (e : Exn) → Ensures P (λ _. b ≡ false) (raise_if b e)
  unfolding raise_if
  raise_if-Ensures true e = record { kept = λ s p. p; gives = λ s a p q. absurd (cc q) }
  raise_if-Ensures false e = record { kept = λ s p. p; gives = λ s a p q. refl }

  -- a guard after what says `X`
  pub guard-Ensures :
      {A : Type 0} (X : Type 0) (m : Call S A) (b : Bool) (e : Exn)
      → Ensures P (λ _. X) m
      → Ensures P (λ _. X × (b ≡ false)) (m >>= λ _. raise_if b e)
  guard-Ensures X m b e h =
      >>=-Ensures m _ P (λ _. X) _ h
        (λ a x. weaken-Ensures P _ _ _ (raise_if-Ensures b e) (λ t q. (x, q)))

pub err_ok : {A : Type 0} (e : Exn) (a : A) → err e ≢ ok a
err_ok e a p = cc p
