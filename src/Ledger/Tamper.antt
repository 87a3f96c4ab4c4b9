-- ===== src/Ledger/Tamper.antt =====
-- What `verify_run` shows about stored events: they are the ones whose last digest was kept.
use prodkit_control.Prelude.{
  ℕ, ◌+◌, String, true, Option, none, some, List, [], ◌∷◌, ◌≡◌, refl, sym, ◌∙◌, ap, inl, inr, ◌⊎◌,
  arith, same, length,
}
use prodkit_control.Prelude.Result.{ok}
use prodkit_control.Contracts.Events.{ControlEventDraft, ControlEvent}
use prodkit_control.Ledger.{
  RunKey, Ledger, list_run_events, is_intact, last_hash, verify_from, verify_run, hash_discrete,
}
use prodkit_control.Ledger.Chain.{verify_step}

abbrev pub Member : ControlEvent → List ControlEvent → Type 0
Member x [] = ⊥
Member x (y ∷ ys) = (x ≡ y) ⊎ Member x ys

-- the same draft, sequence and digests
abbrev pub IsSame : ControlEvent → ControlEvent → Type 0
IsSame x y =
    (x.draft ≡ y.draft)
    × (x.sequence ≡ y.sequence)
    × (x.integrity.previous_event_hash ≡ y.integrity.previous_event_hash)
    × (x.integrity.event_hash ≡ y.integrity.event_hash)

-- as many events, the same one by one
abbrev pub AreSame : List ControlEvent → List ControlEvent → Type 0
AreSame [] [] = Unit {0}
AreSame [] (y ∷ ys) = ⊥
AreSame (x ∷ xs) [] = ⊥
AreSame (x ∷ xs) (y ∷ ys) = IsSame x y × AreSame xs ys

module _ (hash : ControlEventDraft → ℕ → Option ℕ → ℕ) where
  -- the digest of an event is the digest of no other event of the lists
  abbrev pub IsCollisionFree : List ControlEvent → List ControlEvent → Type 0
  IsCollisionFree xs ys =
      (x y : ControlEvent)
      → Member x xs
      → Member y ys
      → hash x.draft x.sequence x.integrity.previous_event_hash
        ≡ hash y.draft y.sequence y.integrity.previous_event_hash
      → (x.draft ≡ y.draft)
        × (x.sequence ≡ y.sequence)
        × (x.integrity.previous_event_hash ≡ y.integrity.previous_event_hash)

  same_previous : (a b : Option ℕ) → same hash_discrete a b ≡ true → a ≡ b
  same_previous a b e = elim (hash_discrete a b) [ yes p ↦ p | no n ↦ absurd (ground arith) ]

  intact :
      (tenant : String) (n : ℕ) (p : Option ℕ) (e : ControlEvent)
      → is_intact hash tenant n p e ≡ true
      → (e.sequence ≡ n)
        × (e.integrity.previous_event_hash ≡ p)
        × (e.integrity.event_hash ≡ hash e.draft e.sequence e.integrity.previous_event_hash)
  intact tenant n p e h =
      let linked : e.integrity.previous_event_hash ≡ p =
        same_previous e.integrity.previous_event_hash p (ground arith) in
      (sequence_of, linked, hashed ∙ ap (hash e.draft e.sequence) (sym linked))
    where
      sequence_of : e.sequence ≡ n
      sequence_of = ground arith

      hashed : e.integrity.event_hash ≡ hash e.draft e.sequence p
      hashed = ground arith

  -- The last event of a verified list is one of the list, and is intact.
  last_event :
      (tenant : String) (n : ℕ) (p : Option ℕ) (x : ControlEvent) (es : List ControlEvent)
      → verify_from hash tenant n p (x ∷ es) ≡ ok tt
      → (e : ControlEvent) × Member e (x ∷ es)
        × (e.sequence ≡ n + length es)
        × (e.integrity.event_hash ≡ hash e.draft e.sequence e.integrity.previous_event_hash)
        × (last_hash (x ∷ es) ≡ some e.integrity.event_hash)
  last_event tenant n p x [] h =
      let (b, rest) = verify_step hash tenant n p x [] h in
      let (at, linked, hashed) = intact tenant n p x b in
      (x, inl refl, omega (arith, at), hashed, refl)
  last_event tenant n p x (y ∷ ys) h =
      let (b, rest) = verify_step hash tenant n p x (y ∷ ys) h in
      let (e, member, at, hashed, last) =
        last_event tenant (n + 1) (some x.integrity.event_hash) y ys rest in
      (e, inr member, omega (arith, at), hashed, (ground arith))

  some_inj : {A : Type 0} {a b : A} → some a ≡ some b → a ≡ b
  some_inj e = cc e

  -- With the same last digest the lists are equally long.
  same_length :
      (tenant : String) (n : ℕ) (p q : Option ℕ) (x y : ControlEvent) (xs ys : List ControlEvent)
      → verify_from hash tenant n p (x ∷ xs) ≡ ok tt
      → verify_from hash tenant n q (y ∷ ys) ≡ ok tt
      → IsCollisionFree (x ∷ xs) (y ∷ ys)
      → last_hash (x ∷ xs) ≡ last_hash (y ∷ ys)
      → length xs ≡ length ys
  same_length tenant n p q x y xs ys hx hy free e =
      let (a, ma, at, hashed, last) = last_event tenant n p x xs hx in
      let (b, mb, at', hashed', last') = last_event tenant n q y ys hy in
      let same_end : a.integrity.event_hash ≡ b.integrity.event_hash =
        some_inj (sym last ∙ (e ∙ last')) in
      let (_, same_sequence, _) = free a b ma mb (sym hashed ∙ (same_end ∙ hashed')) in
      omega (arith, at, at', same_sequence)

  -- Intact events with the same digest are the same.
  IsSame-event :
      (x y : ControlEvent)
      → x.integrity.event_hash ≡ hash x.draft x.sequence x.integrity.previous_event_hash
      → y.integrity.event_hash ≡ hash y.draft y.sequence y.integrity.previous_event_hash
      → x.integrity.event_hash ≡ y.integrity.event_hash
      → (hash x.draft x.sequence x.integrity.previous_event_hash
            ≡ hash y.draft y.sequence y.integrity.previous_event_hash
          → (x.draft ≡ y.draft)
            × (x.sequence ≡ y.sequence)
            × (x.integrity.previous_event_hash ≡ y.integrity.previous_event_hash))
      → IsSame x y
  IsSame-event x y hx hy e free = let (d, n, p) = free (sym hx ∙ (e ∙ hy)) in (d, n, p, e)

  last_hash_cons :
      (e x : ControlEvent) (es : List ControlEvent) → last_hash (e ∷ x ∷ es) ≡ last_hash (x ∷ es)
  last_hash_cons e x es = ground arith

  -- Two lists that verify for one tenant and end in the same digest have the same events, where the digest
  -- has no collision between them.
  verified_equal :
      (tenant : String) (n : ℕ) (p q : Option ℕ) (x y : ControlEvent) (xs ys : List ControlEvent)
      → verify_from hash tenant n p (x ∷ xs) ≡ ok tt
      → verify_from hash tenant n q (y ∷ ys) ≡ ok tt
      → IsCollisionFree (x ∷ xs) (y ∷ ys)
      → last_hash (x ∷ xs) ≡ last_hash (y ∷ ys)
      → AreSame (x ∷ xs) (y ∷ ys)
  verified_equal tenant n p q x y [] [] hx hy free e =
      let (b, _) = verify_step hash tenant n p x [] hx in
      let (c, _) = verify_step hash tenant n q y [] hy in
      let (_, _, hashed) = intact tenant n p x b in
      let (_, _, hashed') = intact tenant n q y c in
      (IsSame-event x y hashed hashed' (some_inj e) (free x y (inl refl) (inl refl)), tt)
  verified_equal tenant n p q x y [] (y' ∷ ys) hx hy free e =
      absurd (omega (arith, same_length tenant n p q x y [] (y' ∷ ys) hx hy free e))
  verified_equal tenant n p q x y (x' ∷ xs) [] hx hy free e =
      absurd (omega (arith, same_length tenant n p q x y (x' ∷ xs) [] hx hy free e))
  verified_equal tenant n p q x y (x' ∷ xs) (y' ∷ ys) hx hy free e =
      let (b, restx) = verify_step hash tenant n p x (x' ∷ xs) hx in
      let (c, resty) = verify_step hash tenant n q y (y' ∷ ys) hy in
      let (_, _, hashed) = intact tenant n p x b in
      let (_, _, hashed') = intact tenant n q y c in
      let tails =
        verified_equal tenant (n + 1) (some x.integrity.event_hash) (some y.integrity.event_hash) x'
          y' xs ys restx resty (λ u v mu mv. free u v (inr mu) (inr mv))
          (sym (last_hash_cons x x' xs) ∙ (e ∙ last_hash_cons y y' ys)) in
      let (b', _) = verify_step hash tenant (n + 1) (some x.integrity.event_hash) x' xs restx in
      let (c', _) = verify_step hash tenant (n + 1) (some y.integrity.event_hash) y' ys resty in
      let (_, linked, _) = intact tenant (n + 1) (some x.integrity.event_hash) x' b' in
      let (_, linked', _) = intact tenant (n + 1) (some y.integrity.event_hash) y' c' in
      let link : some x.integrity.event_hash ≡ some y.integrity.event_hash =
        sym linked ∙ (tails.0.2 ∙ linked') in
      let heads =
        IsSame-event x y hashed hashed' (some_inj link) (free x y (inl refl) (inl refl)) in
      (heads, tails)

-- Whoever keeps only the last digest of a run detects tampering: a list of events that verifies for
-- the same tenant and ends in that digest has the stored events, one by one: the same draft, sequence,
-- previous digest and digest, where the digest has no collision between the events of the two lists.
-- The algorithm, canonicalization and signature of an event, which no digest covers, may differ.
pub verify_run_detects_tampering :
    (hash : ControlEventDraft → ℕ → Option ℕ → ℕ) (k : RunKey) (stored presented : Ledger)
    → IsCollisionFree hash (list_run_events k stored) (list_run_events k presented)
    → verify_run hash k stored ≡ ok tt
    → verify_run hash k presented ≡ ok tt
    → last_hash (list_run_events k stored) ≡ last_hash (list_run_events k presented)
    → AreSame (list_run_events k stored) (list_run_events k presented)
unfolding verify_run
verify_run_detects_tampering hash k stored presented free hx hy e =
    both (list_run_events k stored) (list_run_events k presented) free hx hy e
  where
    both :
        (xs ys : List ControlEvent)
        → IsCollisionFree hash xs ys
        → verify_from hash k.0 1 none xs ≡ ok tt
        → verify_from hash k.0 1 none ys ≡ ok tt
        → last_hash xs ≡ last_hash ys
        → AreSame xs ys
    both [] [] free hx hy e = tt
    both [] (y ∷ ys) free hx hy e =
        let (_, _, _, _, last) = last_event hash k.0 1 none y ys hy in absurd (cc (e, last))
    both (x ∷ xs) [] free hx hy e =
        let (_, _, _, _, last) = last_event hash k.0 1 none x xs hx in absurd (cc (e, last))
    both (x ∷ xs) (y ∷ ys) free hx hy e = verified_equal hash k.0 1 none none x y xs ys hx hy free e
