-- ===== src/Tenancy/Access.antt =====
-- Support access in runtime/tenancy.py: the grant behind a support context.
use prodkit_control.Prelude.{
  ℕ, ◌+◌, ◌*◌, ◌≤◌, String, true, ◌&&◌, Option, none, some, List, [], ◌∷◌, ◌≡◌, ◌≢◌, ◌⊎◌, inl, inr,
  refl, sym, ap, subst, ◌∙◌, ands, arith, some_injective, Option-cases, Bool-cases,
}
use prodkit_control.Prelude.Dict.{find, put, find-put_cases, find-put_self}
use prodkit_control.Prelude.Result.{
  Result, ok, err, Result-cases, Call, ◌>>=◌, raise_if, authorization_denied, pure,
}
use prodkit_control.Prelude.Ensures.{raise_if-Ensures, >>=_err, >>=_ok, err_ok}
use prodkit_control.Contracts.Work.{is_some}
use prodkit_control.Contracts.Identity.{ActorRef}
use prodkit_control.Contracts.Tenancy.{
  TenantAccessContext, TenantCapability, TenantAccessMode, support, grants, has_capability,
  SupportElevationGrant, is_active,
}
use prodkit_control.Tenancy.{
  Environment, Store, Key, Key_discrete, empty, gets, authorize, is_admitted, is_elevated,
  is_backed, backs, is_enabled, same_identity,
}
use prodkit_control.Tenancy.Methods.{new_grant, revoked_copy, revoke, revoke_support_grant}
use prodkit_control.Tenancy.Steps.{
  view, IsAllowed, Step, configures, issues, revokes, holds, schedules, completes, with_grant, At,
  Reads, gets-Reads, now-Reads, authorize-Reads, writes_revocation,
}
use prodkit_control.Tenancy.Operations.{
  Operation, Reachable, start, after, run, run_all, run-Moves, answers-run, find_grant-ok,
}

-- the live grant behind a support context
pub record IsLive (s : Store) (c : TenantAccessContext) (capability : TenantCapability) (at : ℕ)
    : Type 0 where
  pub enabled : is_enabled c.tenant_id s.profiles ≡ true
  pub elevation : ℕ
  pub named : c.elevation_id ≡ some elevation
  pub grant : SupportElevationGrant
  pub found : find Key_discrete (c.tenant_id, elevation) s.grants ≡ some grant
  pub in_force : is_active grant at ≡ true
  pub operator : same_identity grant.operator c.actor ≡ true
  pub granted : has_capability capability grant.capabilities ≡ true

is_backed-grant :
    (c : TenantAccessContext) (capability : TenantCapability) (at : ℕ)
    (o : Option SupportElevationGrant)
    → is_backed c capability at o ≡ true
    → (e : SupportElevationGrant) × (o ≡ some e) × (backs e c capability at ≡ true)
unfolding is_backed
is_backed-grant c capability at none h = absurd (cc h)
is_backed-grant c capability at (some e) h = (e, refl, h)

is_elevated-IsLive :
    (c : TenantAccessContext) (capability : TenantCapability) (at : ℕ) (o : Option ℕ) (s : Store)
    → c.elevation_id ≡ o
    → is_elevated c capability at o s ≡ true
    → IsLive s c capability at
unfolding is_elevated
is_elevated-IsLive c capability at none s n h = absurd (cc h)
is_elevated-IsLive c capability at (some i) s n h =
    let (a, b) = ands (is_enabled c.tenant_id s.profiles) _ h in
    let (e, f, k) =
      is_backed-grant c capability at (find Key_discrete (c.tenant_id, i) s.grants) b in
    let (u, v) = ands (is_active e at) _ k in
    let (w, x) = ands (same_identity e.operator c.actor) _ v in
    record {
      enabled = a;
      elevation = i;
      named = n;
      grant = e;
      found = f;
      in_force = u;
      operator = w;
      granted = (ands (has_capability capability e.capabilities) _ x).0;
    }

-- Where `_authorize_locked` lets a support context do something, the tenant allows support access, and the
-- grant that the context names is stored for the tenant, is in force at that time, not revoked, and was given
-- to this actor and for this capability.
pub authorize-IsLive :
    (c : TenantAccessContext) (capability : TenantCapability) (at : ℕ) (s : Store)
    → c.mode ≡ support
    → (authorize c capability at s).0 ≡ ok tt
    → IsLive s c capability at
unfolding is_admitted
authorize-IsLive c capability at s m h =
    let a : IsAllowed (view s) c capability at =
      (authorize-Reads (view s) 0 c capability at).gives s tt (refl, omega arith) h in
    let b : is_admitted support c capability at (view s) ≡ true =
      subst (λ (x : TenantAccessMode). is_admitted x c capability at (view s) ≡ true) m
        (ands (grants c capability at) (is_admitted c.mode c capability at (view s)) a).1 in
    let l : IsLive (view s) c capability at =
      is_elevated-IsLive c capability at c.elevation_id (view s) refl b in
    record {
      enabled = l.enabled;
      elevation = l.elevation;
      named = l.named;
      grant = l.grant;
      found = l.found;
      in_force = l.in_force;
      operator = l.operator;
      granted = l.granted;
    }

-- a call that, where it returns from the view `c`, leads to a store with `R`
record Leads {A : Type 0} (c : Store) (R : Store → Type 0) (m : Call Store A) : Type 0 where
  at : (s : Store) (a : A) → At c 0 s → (m s).0 ≡ ok a → R (m s).1

>>=-Leads :
    {A B : Type 0} (c : Store) (R : Store → Type 0) (Q : A → Type 0) (m : Call Store A)
    (f : A → Call Store B)
    → Reads c 0 Q m
    → ((a : A) → Q a → Leads c R (f a))
    → Leads c R (m >>= f)
>>=-Leads c R Q m f hm hf = record {
  at = λ s b p e. elim (Result-cases (m s).0) [
    | inl (x, q) ↦
        absurd (err_ok x b (sym (ap (λ (r : Result _ × Store). r.0) (>>=_err m f s x q)) ∙ e))
    | inr (a, q) ↦
        let w = >>=_ok m f s a q in
        rw w (
          (hf a (hm.gives s a p q)).at (m s).1 b (hm.kept s p)
            (sym (ap (λ (r : Result _ × Store). r.0) w) ∙ e))
  ];
}

-- a stored grant that is revoked
abbrev IsRevoked : Key → Store → Type 0
IsRevoked k s =
    (e : SupportElevationGrant) × (find Key_discrete k s.grants ≡ some e)
    × (is_some e.revoked_at ≡ true)

revoke-Leads :
    (g : Environment) (c : Store) (k : Key) (e : SupportElevationGrant) (actor : ActorRef)
    (reason : String) (at : ℕ)
    → find Key_discrete k c.grants ≡ some e
    → Leads c (IsRevoked k) (revoke g k e actor reason at)
unfolding revoke pure
revoke-Leads g c k e actor reason at f = elim (Option-cases e.revoked_at) [
  | inr (t, r) ↦
      rw (revoke, r)
        (record {
          at = λ s a p q.
              (e, ap (λ (x : Store). find Key_discrete k x.grants) p.0 ∙ f, ap is_some r);
        })
  | inl r ↦
      rw (revoke, r)
        (record {
          at = λ s a p q. (
            revoked_copy e at,
            ap (λ (x : Store). find Key_discrete k x.grants)
                  (writes_revocation g at _ s k (revoked_copy e at)).0
                ∙ find-put_self Key_discrete k (revoked_copy e at) s.grants,
            refl,
          );
        })
]

revoke_support_grant-Leads :
    (g : Environment) (c : Store) (target : String) (grant_id : ℕ) (actor : ActorRef)
    (reason : String)
    → Leads c (IsRevoked (target, grant_id)) (revoke_support_grant g target grant_id actor reason)
unfolding revoke_support_grant
revoke_support_grant-Leads g c target grant_id actor reason =
    >>=-Leads c _ _ _ _ (now-Reads g c 0) (λ at _.
      >>=-Leads c _ (λ e. find Key_discrete (target, grant_id) c.grants ≡ some e) _ _
        (gets-Reads c 0 _ _ (λ s e p h.
          ap (λ (x : Store). find Key_discrete (target, grant_id) x.grants) (sym p)
          ∙ find_grant-ok (target, grant_id) s e h))
        (λ e f.
          >>=-Leads c _ _ _ _ (raise_if-Ensures (At c 0) _ authorization_denied)
            (λ _ _. revoke-Leads g c (target, grant_id) e actor reason at f)))

authorize-cases :
    (c : TenantAccessContext) (capability : TenantCapability) (at : ℕ) (s : Store)
    → ((authorize c capability at s).0 ≡ ok tt)
      ⊎ ((authorize c capability at s).0 ≡ err authorization_denied)
unfolding authorize gets ◌>>=◌ raise_if
authorize-cases c capability at s =
    elim (Bool-cases (grants c capability at && is_admitted c.mode c capability at s)) [
      | inl b ↦ inl (rw b refl)
      | inr b ↦ inr (rw b refl)
    ]

revoked_inactive :
    (e : SupportElevationGrant) (at : ℕ) → is_some e.revoked_at ≡ true → ¬ (is_active e at ≡ true)
revoked_inactive e at r a = absurd (ground (arith, r, a))

-- a grant that is revoked lets nobody in
authorize-IsRevoked :
    (target : String) (grant_id : ℕ) (r : Store) (c : TenantAccessContext)
    (capability : TenantCapability) (at : ℕ)
    → IsRevoked (target, grant_id) r
    → c.mode ≡ support
    → c.tenant_id ≡ target
    → c.elevation_id ≡ some grant_id
    → (authorize c capability at r).0 ≡ err authorization_denied
authorize-IsRevoked target grant_id r c capability at (x, f, v) m t e =
    elim (authorize-cases c capability at r) [
      | inr q ↦ q
      | inl q ↦
          let l : IsLive r c capability at = authorize-IsLive c capability at r m q in
          let i : grant_id ≡ l.elevation = some_injective (sym e ∙ l.named) in
          let k : ◌≡◌ {A = Key} (target, grant_id) (c.tenant_id, l.elevation) =
            ap (λ (u : String). (u, grant_id)) (sym t) ∙ ap (λ (j : ℕ). (c.tenant_id, j)) i in
          let same_grant : x ≡ l.grant =
            some_injective (sym f ∙ ap (λ (j : Key). find Key_discrete j r.grants) k ∙ l.found) in
          absurd (
            revoked_inactive l.grant at
              (subst (λ (y : SupportElevationGrant). is_some y.revoked_at ≡ true) same_grant v)
              l.in_force)
    ]

-- another grant is written, or this one as revoked
IsRevoked-after :
    (c d : Store) (k j : Key) (w : SupportElevationGrant)
    → d.grants ≡ put Key_discrete j w c.grants
    → (k ≡ j → is_some w.revoked_at ≡ true)
    → IsRevoked k c
    → IsRevoked k d
IsRevoked-after c d k j w e h (x, f, v) = elim (find-put_cases Key_discrete j k w c.grants) [
  | inl (p, q) ↦ (w, ap (find Key_discrete k) e ∙ q, h p)
  | inr (n, q) ↦ (x, ap (find Key_discrete k) e ∙ q ∙ f, v)
]

same-IsRevoked : (c d : Store) (k : Key) → d.grants ≡ c.grants → IsRevoked k c → IsRevoked k d
same-IsRevoked c d k e (x, f, v) = (x, ap (find Key_discrete k) e ∙ f, v)

Step-IsRevoked :
    (g : Environment) (least : ℕ) (c d : Store) (k : Key)
    → ((n : ℕ) → least ≤ n → g.fresh n ≢ k.1)
    → IsRevoked k c
    → Step g least c d
    → IsRevoked k d
Step-IsRevoked g least c d k fresh h (configures p x t w) =
    same-IsRevoked c d k (ap (λ (x : Store). x.grants) w) h
Step-IsRevoked g least c d k fresh h (issues t o b cs r y ttl at i l m n v w) =
    IsRevoked-after c d k (t, i) _ (ap (λ (x : Store). x.grants) w)
      (λ p. absurd (fresh m.0 m.1 (sym m.2 ∙ sym (ap (λ (j : Key). j.1) p)))) h
Step-IsRevoked g least c d k fresh h (revokes j e at f r w) =
    IsRevoked-after c d k j _ (ap (λ (x : Store). x.grants) w) (λ p. refl) h
Step-IsRevoked g least c d k fresh h (holds x b at m a v w) =
    same-IsRevoked c d k (ap (λ (x : Store). x.grants) w) h
Step-IsRevoked g least c d k fresh h (schedules x t at m a l n w) =
    same-IsRevoked c d k (ap (λ (x : Store). x.grants) w) h
Step-IsRevoked g least c d k fresh h (completes x r at m a f e o l w) =
    same-IsRevoked c d k (ap (λ (x : Store). x.grants) w) h

run_all-IsRevoked :
    (g : Environment) (os : List Operation) (s : Store) (k : Key)
    → ((n : ℕ) → s.answers ≤ n → g.fresh n ≢ k.1)
    → IsRevoked k s
    → IsRevoked k (run_all g os s)
run_all-IsRevoked g [] s k fresh h = h
run_all-IsRevoked g (o ∷ os) s k fresh h =
    run_all-IsRevoked g os (run g o s) k (λ n l. fresh n (omega (arith, l, answers-run g o s)))
      (elim (run-Moves g o s) [
        | inl w ↦ same-IsRevoked (view s) (view (run g o s)) k (ap (λ (x : Store). x.grants) w) h
        | inr step ↦ Step-IsRevoked g s.answers (view s) (view (run g o s)) k fresh h step
      ])

-- Once `revoke_support_grant` has returned, no support context with that grant is let in any more: after whatever
-- operations follow, for every capability and at every time `_authorize_locked` raises; where the
-- environment does not give the grant's identifier to another grant.
pub authorize-revoke_support_grant :
    (g : Environment) (target : String) (grant_id : ℕ) (actor : ActorRef) (reason : String)
    (s r : Store) (os : List Operation) (c : TenantAccessContext) (capability : TenantCapability)
    (at : ℕ)
    → revoke_support_grant g target grant_id actor reason s ≡ (ok tt, r)
    → ((n : ℕ) → r.answers ≤ n → g.fresh n ≢ grant_id)
    → c.mode ≡ support
    → c.tenant_id ≡ target
    → c.elevation_id ≡ some grant_id
    → (authorize c capability at (run_all g os r)).0 ≡ err authorization_denied
authorize-revoke_support_grant g target grant_id actor reason s r os c capability at h fresh m t e =
    let revoked : IsRevoked (target, grant_id) r =
      subst (λ (x : Result (Unit {0}) × Store). IsRevoked (target, grant_id) x.1) h
        ((revoke_support_grant-Leads g (view s) target grant_id actor reason).at s tt
          (refl, omega arith) (ap (λ (x : Result (Unit {0}) × Store). x.0) h)) in
    authorize-IsRevoked target grant_id (run_all g os r) c capability at
      (run_all-IsRevoked g os r (target, grant_id) fresh revoked) m t e

-- a grant of 30 to 3600 seconds, under its own key
pub record IsShort (k : Key) (e : SupportElevationGrant) : Type 0 where
  pub tenant : e.target_tenant_id ≡ k.0
  pub id : e.grant_id ≡ k.1
  pub seconds : ℕ
  pub runs : e.expires_at ≡ e.issued_at + seconds * 1000000
  pub least : 30 ≤ seconds
  pub most : seconds ≤ 3600

abbrev AllShort : Store → Type 0
AllShort s =
    (k : Key) (e : SupportElevationGrant) → find Key_discrete k s.grants ≡ some e → IsShort k e

short_after :
    (c : Store) (k : Key) (e : SupportElevationGrant)
    → IsShort k e
    → AllShort c
    → AllShort (with_grant c k e)
short_after c k e i h j x f = elim (find-put_cases Key_discrete k j e c.grants) [
  | inl (p, q) ↦
      subst (IsShort j) (some_injective (sym q ∙ f)) (subst (λ (l : Key). IsShort l e) (sym p) i)
  | inr (n, q) ↦ h j x (sym q ∙ f)
]

Step-IsShort :
    (g : Environment) (least : ℕ) (c d : Store) → AllShort c → Step g least c d → AllShort d
Step-IsShort g least c d h (configures p x t w) = subst AllShort (sym w) h
Step-IsShort g least c d h (issues t o b cs r k ttl at i l m n v w) = subst AllShort (sym w) (
    short_after c (t, i) (new_grant t o b cs r k ttl at i)
      (record { tenant = refl; id = refl; seconds = ttl; runs = refl; least = l.0; most = l.1 }) h)
Step-IsShort g least c d h (revokes k e at f r w) =
    let i : IsShort k e = h k e f in
    subst AllShort (sym w) (
      short_after c k (revoked_copy e at)
        (record {
          tenant = i.tenant;
          id = i.id;
          seconds = i.seconds;
          runs = i.runs;
          least = i.least;
          most = i.most;
        })
        h)
Step-IsShort g least c d h (holds x b at m a v w) = subst AllShort (sym w) h
Step-IsShort g least c d h (schedules x t at m a l n w) = subst AllShort (sym w) h
Step-IsShort g least c d h (completes x r at m a f e o l w) = subst AllShort (sym w) h

-- Every grant that is stored runs for 30 to 3600 seconds from its issue, and stands under the tenant and the id
-- that it names, in every store that operations reach.
pub grants-IsShort :
    (g : Environment) (s : Store)
    → Reachable g s
    → (k : Key) (e : SupportElevationGrant) → find Key_discrete k s.grants ≡ some e
    → IsShort k e
unfolding find
grants-IsShort g empty start k e f = absurd (cc f)
grants-IsShort g s (after o r h) k e f = elim (run-Moves g o r) [
  | inl w ↦ grants-IsShort g r h k e (ap (λ (x : Store). find Key_discrete k x.grants) (sym w) ∙ f)
  | inr step ↦
      Step-IsShort g r.answers (view r) (view (run g o r)) (grants-IsShort g r h) step k e f
]
