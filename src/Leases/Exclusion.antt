-- ===== src/Leases/Exclusion.antt =====
-- What a holder of a lease may rely on.
use prodkit_control.Prelude.{
  ℕ, ◌+◌, ◌<◌, String, true, false, not, Option, none, some, List, ◌≡◌, refl, sym, ◌∙◌, ap, inl,
  inr, ◌≢◌, arith, Bool-cases, Option-cases, is_blank, ◌||◌, if◌then◌else◌, text_eq, text_eq_refl,
}
use mathlib.Core.Path.{subst}
use prodkit_control.Prelude.Int.{ℤ}
use prodkit_control.Prelude.Dict.{put, find-put_self}
use prodkit_control.Prelude.Result.{Result, ok, err, value_error, lease_lost}
use prodkit_control.Contracts.Work.{FencedLease, named}
use prodkit_control.Queue.{is_valid_ttl}
use prodkit_control.Leases.{
  Resource, Resource_discrete, LeaseSlot, Slots, slot, resource, live, acquire, matches, holding,
  renew, release, is_current,
}
use prodkit_control.Leases.Fencing.{
  Op, acquires, apply, run, IsFenced, acquire_refused, acquire_taken, acquire_free, issued,
  holding_current, run-IsFenced, run-fence_token, apply-IsFenced,
}

-- Two leases that are current for one resource at one time are the same holding: the same lease id,
-- owner and token.
pub holders_agree :
    (a b : FencedLease) (now : ℕ) (s : Slots)
    → resource a ≡ resource b
    → is_current a now s ≡ true
    → is_current b now s ≡ true
    → (a.lease_id ≡ b.lease_id) × (a.owner_id ≡ b.owner_id) × (a.fence_token ≡ b.fence_token)
unfolding is_current
holders_agree a b now s same_resource ha hb = elim (Option-cases (holding a now s)) [
  | inl f ↦ absurd (ground arith)
  | inr (x, f) ↦ elim (Option-cases (holding b now s)) [
    | inl g ↦ absurd (ground arith)
    | inr (y, g) ↦
        let (sx, mx, _) = holding_current a x now s f in
        let (sy, my, _) = holding_current b y now s g in
        let same_slot : some x ≡ some y =
          sym sx ∙ (ap (λ (id : Resource). (slot id s).current) same_resource ∙ sy) in
        let same_lease : x ≡ y = cc in agree x y same_lease mx my
  ]
]
  where
    agree :
        (x y : FencedLease)
        → x ≡ y
        → matches x a ≡ true
        → matches y b ≡ true
        → (a.lease_id ≡ b.lease_id) × (a.owner_id ≡ b.owner_id) × (a.fence_token ≡ b.fence_token)
    agree x y p mx my = ground arith

live-some :
    (o : Option FencedLease) (current : FencedLease) (now : ℕ)
    → live o now ≡ some current
    → o ≡ some current
live-some none current now f = absurd (cc f)
live-some (some x) current now f = ground arith

slot-put_self :
    (id : Resource) (x : LeaseSlot) (s : Slots) → slot id (put Resource_discrete id x s) ≡ x
slot-put_self id x s = rw (find-put_self Resource_discrete id x s, slot)

-- A caller that is given a lease holds the slot's token, and the lease is for what it asked.
given_token :
    (tenant key owner : String) (ttl : ℤ) (now lease_id : ℕ) (s : Slots) (l : FencedLease)
    → IsFenced s
    → (acquire tenant key owner ttl now lease_id s).0 ≡ ok (some l)
    → let r = (acquire tenant key owner ttl now lease_id s).1 in
      ((slot (tenant, named key) r).fence_token ≡ l.fence_token)
      × (resource l ≡ (tenant, named key))
given_token tenant key owner ttl now lease_id s l h e =
    elim (Bool-cases
      (not (is_valid_ttl ttl) || (is_blank tenant || (is_blank key || is_blank owner)))) [
        | inl b ↦ absurd (refused (acquire_refused tenant key owner ttl now lease_id s b))
        | inr b ↦ elim (Option-cases (live (slot (tenant, named key) s).current now)) [
          | inr (current, f) ↦
              let taken = acquire_taken tenant key owner ttl now lease_id s current b f in
              rw taken (
                given current (taken_lease current taken)
                  (h.fits (tenant, named key) current (live-some _ current now f)))
          | inl f ↦
              let free = acquire_free tenant key owner ttl now lease_id s b f in
              rw (free, slot-put_self) (fresh (sym (ap (λ x. x.0) free) ∙ e))
        ]
      ]
  where
    refused : acquire tenant key owner ttl now lease_id s ≡ (err value_error, s) → ⊥
    refused p = ground arith

    taken_lease :
        (current : FencedLease)
        → acquire tenant key owner ttl now lease_id s
          ≡ ((if text_eq current.owner_id owner then ok (some current) else ok none), s)
        → current ≡ l
    taken_lease current p = ground arith

    given :
        (current : FencedLease)
        → current ≡ l
        → (current.fence_token ≡ (slot (tenant, named key) s).fence_token)
          × (resource current ≡ (tenant, named key))
        → ((slot (tenant, named key) s).fence_token ≡ l.fence_token)
          × (resource l ≡ (tenant, named key))
    given current p q = (ground arith, ground arith)

    fresh :
        ◌≡◌ {A = Result (Option FencedLease)}
          (ok (some (issued tenant key owner ttl now lease_id s)))
          (ok (some l))
        → ((slot (tenant, named key) s).fence_token + 1 ≡ l.fence_token)
          × (resource l ≡ (tenant, named key))
    fresh p = (ground arith, ground arith)

-- A lease whose token is below the slot's is not held by anyone.
not_holding :
    (l : FencedLease) (now : ℕ) (s : Slots)
    → IsFenced s
    → l.fence_token < (slot (resource l) s).fence_token
    → holding l now s ≡ none
not_holding l now s h older = elim (Option-cases (holding l now s)) [
  | inl f ↦ f
  | inr (x, f) ↦
      let (sx, mx, _) = holding_current l x now s f in
      let token = (h.fits (resource l) x sx).0 in absurd (same_token x mx token)
]
  where
    same_token :
        (x : FencedLease)
        → matches x l ≡ true
        → x.fence_token ≡ (slot (resource l) s).fence_token
        → ⊥
    same_token x mx token = ground arith

-- A lease that is issued raises the slot's token.
issued_token :
    (tenant key owner : String) (ttl : ℤ) (now lease_id : ℕ) (s : Slots) (l : FencedLease)
    → live (slot (tenant, named key) s).current now ≡ none
    → (acquire tenant key owner ttl now lease_id s).0 ≡ ok (some l)
    → (slot (tenant, named key) s).fence_token
      < (slot (tenant, named key) (acquire tenant key owner ttl now lease_id s).1).fence_token
issued_token tenant key owner ttl now lease_id s l f e =
    elim (Bool-cases
      (not (is_valid_ttl ttl) || (is_blank tenant || (is_blank key || is_blank owner)))) [
        | inl b ↦ absurd (refused (acquire_refused tenant key owner ttl now lease_id s b))
        | inr b ↦
            rw (acquire_free tenant key owner ttl now lease_id s b f, slot-put_self) (omega arith)
      ]
  where
    refused : acquire tenant key owner ttl now lease_id s ≡ (err value_error, s) → ⊥
    refused p = ground arith

-- After a lease has lapsed or been released and the resource was leased anew, its former holder is
-- out for good, whatever happened in between and happens afterwards: the lease is never current
-- again, and releasing or renewing it raises LeaseLostError and changes nothing.
pub former_holder_out :
    (tenant key owner owner' : String) (ttl ttl' : ℤ) (now now' lease_id lease_id' : ℕ) (s : Slots)
    (l l' : FencedLease) (ops ops' : List Op)
    → IsFenced s
    → (acquire tenant key owner ttl now lease_id s).0 ≡ ok (some l)
    → (let r = run ops (acquire tenant key owner ttl now lease_id s).1 in
        (live (slot (tenant, named key) r).current now' ≡ none)
        × ((acquire tenant key owner' ttl' now' lease_id' r).0 ≡ ok (some l')))
    → let r = run ops (acquire tenant key owner ttl now lease_id s).1 in
      let u = run ops' (acquire tenant key owner' ttl' now' lease_id' r).1 in
      (later : ℕ)
      → (is_current l later u ≡ false)
        × (release l later u ≡ (err lease_lost, u))
        × ((ttl'' : ℤ) → is_valid_ttl ttl'' ≡ true → renew l ttl'' later u ≡ (err lease_lost, u))
unfolding is_current release renew
former_holder_out tenant key owner owner' ttl ttl' now now' lease_id lease_id' s l l' ops ops' h
      first (free, second) later =
    let op = acquires tenant key owner ttl now lease_id in
    let s1 = (acquire tenant key owner ttl now lease_id s).1 in
    let h1 : IsFenced s1 = unfold apply in apply-IsFenced op s h in
    let (token, same_resource) = given_token tenant key owner ttl now lease_id s l h first in
    let r = run ops s1 in
    let hr : IsFenced r = run-IsFenced ops s1 h1 in
    let grown = run-fence_token ops s1 h1 (tenant, named key) in
    let s2 = (acquire tenant key owner' ttl' now' lease_id' r).1 in
    let h2 : IsFenced s2 =
      unfold apply in apply-IsFenced (acquires tenant key owner' ttl' now' lease_id') r hr in
    let newer = issued_token tenant key owner' ttl' now' lease_id' r l' free second in
    let u = run ops' s2 in
    let kept = run-fence_token ops' s2 h2 (tenant, named key) in
    let older : l.fence_token < (slot (resource l) u).fence_token =
      rw same_resource (omega arith) in
    let lost : holding l later u ≡ none = not_holding l later u (run-IsFenced ops' s2 h2) older in
    (rw (lost, is_current), rw (lost, release), λ ttl'' v. rw (v, lost, renew))

holding_self :
    (l : FencedLease) (id : Resource) (now : ℕ) (s : Slots)
    → resource l ≡ id
    → live (slot id s).current now ≡ some l
    → is_current l now s ≡ true
unfolding is_current holding
holding_self l id now s p f =
    let here : live (slot (resource l) s).current now ≡ some l =
      subst (λ (x : Resource). live (slot x s).current now ≡ some l) (sym p) f in
    ground (arith, here, text_eq_refl l.owner_id)

issued-live :
    (tenant key owner : String) (ttl : ℤ) (now lease_id : ℕ) (s : Slots)
    → is_valid_ttl ttl ≡ true
    → let l = issued tenant key owner ttl now lease_id s in live (some l) now ≡ some l
issued-live tenant key owner ttl now lease_id s v = ground arith

-- With acceptable arguments: whoever is given a lease holds it at once, under its own name and for
-- the resource that it asked for; and while another owner's lease on the resource has not expired,
-- nobody else is given one and nothing changes.
pub acquire_exclusive :
    (tenant key owner : String) (ttl : ℤ) (now lease_id : ℕ) (s : Slots)
    → IsFenced s
    → (not (is_valid_ttl ttl) || (is_blank tenant || (is_blank key || is_blank owner))) ≡ false
    → let (result, r) = acquire tenant key owner ttl now lease_id s in
      ((l : FencedLease)
        → result ≡ ok (some l)
        → (is_current l now r ≡ true) × (l.owner_id ≡ owner) × (resource l ≡ (tenant, named key)))
      × ((held : FencedLease)
          → live (slot (tenant, named key) s).current now ≡ some held
          → held.owner_id ≢ owner
          → (result ≡ ok none) × (r ≡ s))
acquire_exclusive tenant key owner ttl now lease_id s h b =
    elim (Option-cases (live (slot (tenant, named key) s).current now)) [
      | inr (current, f) ↦
          let taken = acquire_taken tenant key owner ttl now lease_id s current b f in
          rw taken (
            λ l e.
                let same_lease : current ≡ l = given current l e in
                let (_, target) = h.fits (tenant, named key) current (live-some _ current now f) in
                (
                  rw (← same_lease) (holding_self current (tenant, named key) now s target f),
                  mine current l e,
                  rw (← same_lease) target,
                ),
            λ held g other. (other_owner current held (sym f ∙ g) other, refl),
          )
      | inl f ↦
          let free = acquire_free tenant key owner ttl now lease_id s b f in
          let l' = issued tenant key owner ttl now lease_id s in
          rw free (
            λ l e.
                let same_lease : l' ≡ l = cc in
                (
                  rw (← same_lease) (
                      holding_self l' (tenant, named key) now _ refl
                        (rw slot-put_self
                          (issued-live tenant key owner ttl now lease_id s (ground arith)))),
                  ap (λ (x : FencedLease). x.owner_id) (sym same_lease),
                  ap (λ (x : FencedLease). resource x) (sym same_lease),
                ),
            λ held g other. absurd (cc (sym f ∙ g)),
          )
    ]
  where
    given :
        (current l : FencedLease)
        → ◌≡◌ {A = Result (Option FencedLease)}
            (if text_eq current.owner_id owner then ok (some current) else ok none)
            (ok (some l))
        → current ≡ l
    given current l e = ground arith

    mine :
        (current l : FencedLease)
        → ◌≡◌ {A = Result (Option FencedLease)}
            (if text_eq current.owner_id owner then ok (some current) else ok none)
            (ok (some l))
        → l.owner_id ≡ owner
    mine current l e = ground arith

    other_owner :
        (current held : FencedLease)
        → some current ≡ some held
        → held.owner_id ≢ owner
        → ◌≡◌ {A = Result (Option FencedLease)}
            (if text_eq current.owner_id owner then ok (some current) else ok none)
            (ok none)
    other_owner current held e n = ground arith
