-- ===== src/Ledger/Chain.antt =====
-- `append` keeps every run's chain of digests verifiable, and every run in one tenant's ledger.
use prodkit_control.Prelude.{
  ℕ, ◌+◌, String, true, false, Option, none, some, List, [], ◌∷◌, ◌++◌, ◌≡◌, ◌≢◌, refl, sym, ◌∙◌,
  ap, inl, inr, ◌⊎◌, arith, text_eq_refl, same, length, last?, any, Bool-cases, Option-cases,
}
use prodkit_control.Prelude.Dict.{find, put, find-put_cases}
use prodkit_control.Prelude.Result.{Result, ok, err, integrity_violation}
use prodkit_control.Contracts.Events.{ControlEventDraft, ControlEvent}
use prodkit_control.Ledger.{
  RunKey, RunKey_discrete, hash_discrete, Ledger, is_nonempty, list_run_events, crosses, last_hash,
  identity, event_after, append, is_intact, verify_from, verify_run,
}

-- the digest that the next event links to
last_or : Option ℕ → List ControlEvent → Option ℕ
last_or p es = elim (last? es) [ none ↦ p | some e ↦ some e.integrity.event_hash ]

same_hash : (o : Option ℕ) → same hash_discrete o o ≡ true
same_hash o = elim (hash_discrete o o) [ yes p ↦ ground arith | no n ↦ absurd (n refl) ]

last_or_cons :
    (p : Option ℕ) (x : ControlEvent) (es : List ControlEvent)
    → last_or p (x ∷ es) ≡ last_or (some x.integrity.event_hash) es
unfolding last_or
last_or_cons p x es = ground arith

module _ (hash : ControlEventDraft → ℕ → Option ℕ → ℕ) where
  verify_cons :
      (tenant : String) (n : ℕ) (p : Option ℕ) (e : ControlEvent) (es : List ControlEvent)
      → is_intact hash tenant n p e ≡ true
      → verify_from hash tenant (n + 1) (some e.integrity.event_hash) es ≡ ok tt
      → verify_from hash tenant n p (e ∷ es) ≡ ok tt
  unfolding verify_from
  verify_cons tenant n p e es intact rest = rw (intact, verify_from) rest

  pub verify_step :
      (tenant : String) (n : ℕ) (p : Option ℕ) (e : ControlEvent) (es : List ControlEvent)
      → verify_from hash tenant n p (e ∷ es) ≡ ok tt
      → (is_intact hash tenant n p e ≡ true)
        × (verify_from hash tenant (n + 1) (some e.integrity.event_hash) es ≡ ok tt)
  unfolding verify_from
  verify_step tenant n p e es h = elim (Bool-cases (is_intact hash tenant n p e)) [
    | inl b ↦ (b, rw (b) at h)
    | inr b ↦ absurd (ground arith)
  ]

  -- A chain that verifies still does after an event that fits its end.
  verify_snoc :
      (tenant : String) (n : ℕ) (p : Option ℕ) (es : List ControlEvent) (e : ControlEvent) (m : ℕ)
      (q : Option ℕ)
      → m ≡ n + length es
      → q ≡ last_or p es
      → is_intact hash tenant m q e ≡ true
      → verify_from hash tenant n p es ≡ ok tt
      → verify_from hash tenant n p (es ++ e ∷ []) ≡ ok tt
  unfolding last_or verify_from
  verify_snoc tenant n p [] e m q hm hq intact h = verify_cons tenant n p e [] (ground arith) refl
  verify_snoc tenant n p (x ∷ es) e m q hm hq intact h =
      let (b, rest) = verify_step tenant n p x es h in
      verify_cons tenant n p x (es ++ e ∷ []) b (
        verify_snoc tenant (n + 1) (some x.integrity.event_hash) es e m q (omega (arith, hm))
          (hq ∙ last_or_cons p x es) intact rest)

  -- The event that `append` makes fits the end of its run.
  event_after-intact :
      (es : List ControlEvent) (d : ControlEventDraft)
      → is_intact hash d.tenant_id (length es + 1) (last_hash es) (event_after hash es d) ≡ true
  event_after-intact es d = ground (arith, text_eq_refl d.tenant_id, same_hash (last_hash es))

  -- Every run verifies, and stands in one tenant's ledger only.
  pub IsVerified : Ledger → Type 0
  IsVerified s = (k : RunKey) → verify_run hash k s ≡ ok tt

  append_refused :
      (d : ControlEventDraft) (s : Ledger)
      → any (crosses d) s ≡ true
      → append hash d s ≡ (err integrity_violation, s)
  unfolding append
  append_refused d s e = rw (e, append) refl

  append_stored :
      (d : ControlEventDraft) (s : Ledger)
      → any (crosses d) s ≡ false
      → let es = list_run_events (identity d) s in
        append hash d s ≡ (
          ok (event_after hash es d),
          put RunKey_discrete (identity d) (es ++ event_after hash es d ∷ []) s,
        )
  unfolding append
  append_stored d s e = rw (e, append) refl

  list_run_events-put :
      (k j : RunKey) (es : List ControlEvent) (s : Ledger)
      → ((j ≡ k) × (list_run_events j (put RunKey_discrete k es s) ≡ es))
        ⊎ ((k ≢ j) × (list_run_events j (put RunKey_discrete k es s) ≡ list_run_events j s))
  unfolding list_run_events
  list_run_events-put k j es s = elim (find-put_cases RunKey_discrete k j es s) [
    | inl (e, f) ↦ inl (e, rw (f, list_run_events) refl)
    | inr (n, f) ↦ inr (n, rw (f, list_run_events) refl)
  ]

  verify_stored :
      (d : ControlEventDraft) (s : Ledger) (k : RunKey)
      → IsVerified s
      → let es = list_run_events (identity d) s in
        verify_run hash k (put RunKey_discrete (identity d) (es ++ event_after hash es d ∷ []) s)
        ≡ ok tt
  unfolding IsVerified verify_run last_or
  verify_stored d s k h =
      let es = list_run_events (identity d) s in
      let longer =
        verify_snoc d.tenant_id 1 none es (event_after hash es d) (length es + 1) (last_hash es)
          (omega arith) refl (event_after-intact es d) (h (identity d)) in
      elim (list_run_events-put (identity d) k (es ++ event_after hash es d ∷ []) s) [
        | inl (e, f) ↦ rw (f, ap (λ (x : RunKey). x.0) e, verify_run) longer
        | inr (n, f) ↦ rw (f, verify_run) (h k)
      ]

  append-IsVerified :
      (d : ControlEventDraft) (s : Ledger) → IsVerified s → IsVerified (append hash d s).1
  unfolding IsVerified
  append-IsVerified d s h = elim (Bool-cases (any (crosses d) s)) [
    | inl e ↦ rw (append_refused d s e) h
    | inr e ↦ rw (append_stored d s e) (λ k. verify_stored d s k h)
  ]

  -- `append` raises and changes nothing, or it adds one event, next in sequence, to the end of its
  -- run's events and leaves the events of every other run as they were. It raises exactly if another
  -- tenant has events of the run.
  pub list_run_events-append :
      (d : ControlEventDraft) (s : Ledger)
      → let (result, r) = append hash d s in
        ((any (crosses d) s ≡ true) × (result ≡ err integrity_violation) × (r ≡ s))
        ⊎ ((any (crosses d) s ≡ false)
            × (e : ControlEvent) × (result ≡ ok e)
            × (e.draft ≡ d)
            × (e.sequence ≡ length (list_run_events (identity d) s) + 1)
            × (list_run_events (identity d) r ≡ list_run_events (identity d) s ++ e ∷ [])
            × ((k : RunKey) → k ≢ identity d → list_run_events k r ≡ list_run_events k s))
  list_run_events-append d s = elim (Bool-cases (any (crosses d) s)) [
    | inl e ↦ inl (
      e,
      ap (λ (x : Result ControlEvent × Ledger). x.0) (append_refused d s e),
      ap (λ (x : Result ControlEvent × Ledger). x.1) (append_refused d s e),
    )
    | inr e ↦
        let event = event_after hash (list_run_events (identity d) s) d in
        inr (rw (append_stored d s e) (e, event, refl, refl, refl, stored event, kept event))
  ]
    where
      stored :
          (e : ControlEvent)
          → let es = list_run_events (identity d) s ++ e ∷ [] in
            list_run_events (identity d) (put RunKey_discrete (identity d) es s) ≡ es
      stored e =
          let es = list_run_events (identity d) s ++ e ∷ [] in
          elim (list_run_events-put (identity d) (identity d) es s) [
            | inl (p, f) ↦ f
            | inr (n, f) ↦ absurd (n refl)
          ]

      kept :
          (e : ControlEvent) (k : RunKey)
          → k ≢ identity d
          → let es = list_run_events (identity d) s ++ e ∷ [] in
            list_run_events k (put RunKey_discrete (identity d) es s) ≡ list_run_events k s
      kept e k n =
          let es = list_run_events (identity d) s ++ e ∷ [] in
          elim (list_run_events-put (identity d) k es s) [
            | inl (p, f) ↦ absurd (n p)
            | inr (m, f) ↦ f
          ]

  pub IsPartitioned : Ledger → Type 0
  IsPartitioned s =
      (a b : String) (run_id : ℕ)
      → is_nonempty (list_run_events (a, run_id) s) ≡ true
      → is_nonempty (list_run_events (b, run_id) s) ≡ true
      → a ≡ b

  uncrossed :
      (d : ControlEventDraft) (s : Ledger) (tenant : String) (es : List ControlEvent)
      → any (crosses d) s ≡ false
      → find RunKey_discrete (tenant, d.run_id) s ≡ some es
      → is_nonempty es ≡ true
      → tenant ≡ d.tenant_id
  unfolding find
  uncrossed d [] tenant es h f e = absurd (cc f)
  uncrossed d (((t, r), xs) ∷ s) tenant es h f e =
      elim (RunKey_discrete (t, r) (tenant, d.run_id)) [
        | yes p ↦
            let q : t ≡ tenant = ap (λ (k : RunKey). k.0) p in
            let u : r ≡ d.run_id = ap (λ (k : RunKey). k.1) p in ground arith
        | no n ↦ uncrossed d s tenant es (ground arith) (ground arith) e
      ]

  uncrossed_list :
      (d : ControlEventDraft) (s : Ledger) (tenant : String)
      → any (crosses d) s ≡ false
      → is_nonempty (list_run_events (tenant, d.run_id) s) ≡ true
      → tenant ≡ d.tenant_id
  unfolding list_run_events
  uncrossed_list d s tenant h e = elim (Option-cases (find RunKey_discrete (tenant, d.run_id) s)) [
    | inl f ↦ absurd (ground arith)
    | inr (es, f) ↦ uncrossed d s tenant es h f (ground arith)
  ]

  stored-IsPartitioned :
      (d : ControlEventDraft) (es : List ControlEvent) (s : Ledger)
      → any (crosses d) s ≡ false
      → IsPartitioned s
      → IsPartitioned (put RunKey_discrete (identity d) es s)
  unfolding IsPartitioned
  stored-IsPartitioned d es s u h a b run_id ea eb =
      elim (list_run_events-put (identity d) (a, run_id) es s) [
        | inl (p, f) ↦ elim (list_run_events-put (identity d) (b, run_id) es s) [
          | inl (q, g) ↦ ap (λ (x : RunKey). x.0) (p ∙ sym q)
          | inr (q, g) ↦ sym (
              uncrossed_at b (ap (λ (x : RunKey). x.1) p) (rw (g) at eb)
              ∙ sym (ap (λ (x : RunKey). x.0) p))
        ]
        | inr (p, f) ↦ elim (list_run_events-put (identity d) (b, run_id) es s) [
          | inl (q, g) ↦
              uncrossed_at a (ap (λ (x : RunKey). x.1) q) (rw (f) at ea)
              ∙ sym (ap (λ (x : RunKey). x.0) q)
          | inr (q, g) ↦ h a b run_id (rw (f) at ea) (rw (g) at eb)
        ]
      ]
    where
      uncrossed_at :
          (t : String)
          → run_id ≡ d.run_id
          → is_nonempty (list_run_events (t, run_id) s) ≡ true
          → t ≡ d.tenant_id
      uncrossed_at t r e = uncrossed_list d s t u (rw r at e)

  append-IsPartitioned :
      (d : ControlEventDraft) (s : Ledger) → IsPartitioned s → IsPartitioned (append hash d s).1
  append-IsPartitioned d s h = elim (Bool-cases (any (crosses d) s)) [
    | inl e ↦ rw (append_refused d s e) h
    | inr e ↦ rw (append_stored d s e) (
        stored-IsPartitioned d
          (list_run_events (identity d) s
            ++ event_after hash (list_run_events (identity d) s) d ∷ [])
          s e h)
  ]

  -- the ledger after a history of appends, some of which may have raised
  unfoldable pub append_all : List ControlEventDraft → Ledger → Ledger
  append_all [] s = s
  append_all (d ∷ ds) s = append_all ds (append hash d s).1

  append_all_sound :
      (ds : List ControlEventDraft) (s : Ledger)
      → IsVerified s
      → IsPartitioned s
      → IsVerified (append_all ds s) × IsPartitioned (append_all ds s)
  unfolding append_all
  append_all_sound [] s v p = (v, p)
  append_all_sound (d ∷ ds) s v p =
      append_all_sound ds (append hash d s).1 (append-IsVerified d s v) (append-IsPartitioned d s p)

-- After any history of appends to a new ledger every run of every tenant verifies, and no run has
-- events in the ledgers of two tenants.
pub verify_run-append_all :
    (hash : ControlEventDraft → ℕ → Option ℕ → ℕ) (drafts : List ControlEventDraft)
    → ((k : RunKey) → verify_run hash k (append_all hash drafts []) ≡ ok tt)
      × ((a b : String) (run_id : ℕ)
          → is_nonempty (list_run_events (a, run_id) (append_all hash drafts [])) ≡ true
          → is_nonempty (list_run_events (b, run_id) (append_all hash drafts [])) ≡ true
          → a ≡ b)
unfolding IsVerified IsPartitioned list_run_events verify_run verify_from find
verify_run-append_all hash drafts =
    append_all_sound hash drafts [] (λ k. refl) (λ a b run_id e f. absurd (cc e))
