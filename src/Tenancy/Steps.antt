-- ===== src/Tenancy/Steps.antt =====
-- The changes of the store that the methods of runtime/tenancy.py may make.
use prodkit_control.Prelude.{
  ℕ, ◌≤◌, ◌<◌, String, string_discrete, Bool, true, false, ◌&&◌, Option, none, some, List, [], ◌≡◌,
  ◌⊎◌, inl, inr, arith, refl, sym, ap, subst, ◌∙◌, undo_not,
}
use prodkit_control.Prelude.Dict.{find, put}
use prodkit_control.Prelude.Result.{Result, ok, Result-cases, Call, ◌>>=◌, ◌>>◌, pure}
use prodkit_control.Prelude.Ensures.{
  Any, Ensures, >>=-Ensures, raise_if-Ensures, weaken-Ensures, ok_injective, >>=_err, >>=_ok,
}
use prodkit_control.Contracts.Identity.{ActorRef}
use prodkit_control.Contracts.Tenancy.{
  TenantAccessContext, TenantCapability, TenantAccessMode, tenant, support, grants,
  SupportElevationGrant, validate_grant, TenantIsolationProfile, TenantLifecycleRecord,
  deletion_scheduled, validate_lifecycle,
}
use prodkit_control.Tenancy.{
  Environment, Store, Key, Key_discrete, Entry, new_record, deleted_copy, ask, gets, now,
  identifier, record_event, append_event, put_grant, put_record, write_profile, authorize,
  is_admitted, is_elevated, is_enabled, held_status, is_held, is_over,
}
use prodkit_control.Tenancy.Methods.{new_grant, revoked_copy}

-- the store without its audit trail and the number of answers
abbrev pub view : Store → Store
view s = record s { audit = []; answers = 0 }

-- `_authorize_locked` lets the context do it
abbrev pub IsAllowed : Store → TenantAccessContext → TenantCapability → ℕ → Type 0
IsAllowed s c capability at =
    (grants c capability at && is_admitted c.mode c capability at s) ≡ true

abbrev pub with_grant : Store → Key → SupportElevationGrant → Store
with_grant s k g = record s { grants = put Key_discrete k g s.grants }

abbrev pub with_record : Store → String → TenantLifecycleRecord → Store
with_record s t r = record s { lifecycle = put string_discrete t r s.lifecycle }

abbrev pub with_profile : Store → TenantIsolationProfile → Store
with_profile s p = record s { profiles = put string_discrete p.tenant_id p s.profiles }

-- a reading of the clock, and an identifier, that the environment gives as its answer numbered `least` or later
abbrev pub Clocked : Environment → ℕ → ℕ → Type 0
Clocked g least at = (n : ℕ) × (least ≤ n) × (at ≡ g.clock n)

abbrev pub Drawn : Environment → ℕ → ℕ → Type 0
Drawn g least i = (n : ℕ) × (least ≤ n) × (i ≡ g.fresh n)

pub data Step (g : Environment) (least : ℕ) (c d : Store) : Type 0 where
  configures :
      (p : TenantIsolationProfile) (context : TenantAccessContext)
      → context.tenant_id ≡ p.tenant_id
      → d ≡ with_profile c p
      → Step g least c d
  issues :
      (target : String) (operator issued_by : ActorRef) (capabilities : List TenantCapability)
      (reason ticket : String) (ttl at i : ℕ)
      → (30 ≤ ttl) × (ttl ≤ 3600)
      → Drawn g least i
      → is_enabled target c.profiles ≡ true
      → validate_grant (new_grant target operator issued_by capabilities reason ticket ttl at i)
        ≡ true
      → d
        ≡ with_grant c
            (target, i)
            (new_grant target operator issued_by capabilities reason ticket ttl at i)
      → Step g least c d
  revokes :
      (k : Key) (e : SupportElevationGrant) (at : ℕ)
      → find Key_discrete k c.grants ≡ some e
      → e.revoked_at ≡ none
      → d ≡ with_grant c k (revoked_copy e at)
      → Step g least c d
  holds :
      (context : TenantAccessContext) (enabled : Bool) (at : ℕ)
      → Clocked g least at
      → IsAllowed c context TenantCapability.legal_hold at
      → validate_lifecycle g.text_of (
          new_record g.text_of context
            (held_status enabled (find string_discrete context.tenant_id c.lifecycle))
            enabled
            none
            at)
        ≡ true
      → d
        ≡ with_record c context.tenant_id (
            new_record g.text_of context
              (held_status enabled (find string_discrete context.tenant_id c.lifecycle))
              enabled
              none
              at)
      → Step g least c d
  schedules :
      (context : TenantAccessContext) (not_before at : ℕ)
      → Clocked g least at
      → IsAllowed c context TenantCapability.delete at
      → at < not_before
      → is_held (find string_discrete context.tenant_id c.lifecycle) ≡ false
      → d
        ≡ with_record c context.tenant_id
            (new_record g.text_of context deletion_scheduled false (some not_before) at)
      → Step g least c d
  completes :
      (context : TenantAccessContext) (r : TenantLifecycleRecord) (at : ℕ)
      → Clocked g least at
      → IsAllowed c context TenantCapability.delete at
      → find string_discrete context.tenant_id c.lifecycle ≡ some r
      → r.status ≡ deletion_scheduled
      → is_over r.deletion_not_before at ≡ true
      → r.legal_hold ≡ false
      → d ≡ with_record c context.tenant_id (deleted_copy g.text_of r context at)
      → Step g least c d

-- nothing, or one step
abbrev pub Moves : Environment → ℕ → Store → Store → Type 0
Moves g least c d = (d ≡ c) ⊎ Step g least c d

-- the view is `c`, and `least` answers were given at least
abbrev pub At : Store → ℕ → Store → Type 0
At c least s = (view s ≡ c) × (least ≤ s.answers)

-- a call that only reads
abbrev pub Reads : {A : Type 0} → Store → ℕ → (A → Type 0) → Call Store A → Type 0
Reads c least Q m = Ensures (At c least) Q m

-- a call after which the view is as it was or one step further, and no fewer answers were given
pub record Ends {A : Type 0} (g : Environment) (c : Store) (least : ℕ) (m : Call Store A)
    : Type 0 where
  pub at : (s : Store) → At c least s → Moves g least c (view (m s).1) × (least ≤ (m s).1.answers)

module _ {A B : Type 0} (g : Environment) (c : Store) (least : ℕ) where
  pub >>=-Ends :
      (Q : A → Type 0) (m : Call Store A) (f : A → Call Store B)
      → Reads c least Q m
      → ((a : A) → Q a → Ends g c least (f a))
      → Ends g c least (m >>= f)
  >>=-Ends Q m f hm hf = record {
    at = λ s p. elim (Result-cases (m s).0) [
      | inl (e, q) ↦ rw (>>=_err m f s e q) (inl (hm.kept s p).0, (hm.kept s p).1)
      | inr (a, q) ↦ rw (>>=_ok m f s a q) ((hf a (hm.gives s a p q)).at (m s).1 (hm.kept s p))
    ];
  }

pub gets-Reads :
    {A : Type 0} (c : Store) (least : ℕ) (Q : A → Type 0) (f : Store → Result A)
    → ((s : Store) (a : A) → view s ≡ c → f s ≡ ok a → Q a)
    → Reads c least Q (gets f)
unfolding gets
gets-Reads c least Q f h = record { kept = λ s p. p; gives = λ s a p e. h s a p.0 e }

pub now-Reads : (g : Environment) (c : Store) (least : ℕ) → Reads c least (Clocked g least) (now g)
unfolding now ask
now-Reads g c least = record {
  kept = λ s p. (p.0, omega (arith, p.1));
  gives = λ s a p e. (s.answers, p.1, sym (ok_injective _ _ e));
}

pub identifier-Reads :
    (g : Environment) (c : Store) (least : ℕ) → Reads c least (Drawn g least) (identifier g)
unfolding identifier ask
identifier-Reads g c least = record {
  kept = λ s p. (p.0, omega (arith, p.1));
  gives = λ s a p e. (s.answers, p.1, sym (ok_injective _ _ e));
}

pub event-Reads :
    (g : Environment) (c : Store) (least at : ℕ) (e : Entry)
    → Reads c least Any (record_event g at e)
unfolding record_event append_event identifier ask ◌>>=◌
event-Reads g c least at e = record {
  kept = λ s p. (p.0, omega (arith, p.1));
  gives = λ s a p e. tt;
}

is_elevated-view :
    (c : TenantAccessContext) (capability : TenantCapability) (at : ℕ) (o : Option ℕ) (s : Store)
    → is_elevated c capability at o s ≡ is_elevated c capability at o (view s)
unfolding is_elevated
is_elevated-view c capability at none s = refl
is_elevated-view c capability at (some i) s = refl

-- who is let in depends on the view only
is_admitted-view :
    (m : TenantAccessMode) (c : TenantAccessContext) (capability : TenantCapability) (at : ℕ)
    (s : Store)
    → is_admitted m c capability at s ≡ is_admitted m c capability at (view s)
unfolding is_admitted
is_admitted-view tenant c capability at s = refl
is_admitted-view support c capability at s = is_elevated-view c capability at c.elevation_id s

pub authorize-Reads :
    (v : Store) (least : ℕ) (c : TenantAccessContext) (capability : TenantCapability) (at : ℕ)
    → Reads v least (λ _. IsAllowed v c capability at) (authorize c capability at)
unfolding authorize
authorize-Reads v least c capability at =
    >>=-Ensures _ _ (At v least)
      (λ b. (grants c capability at && is_admitted c.mode c capability at v) ≡ b) _
      (gets-Reads v least _ _ (λ s b p e.
        ap (λ (x : Store). grants c capability at && is_admitted c.mode c capability at x) (sym p)
        ∙ ap (λ (x : Bool). grants c capability at && x)
            (sym (is_admitted-view c.mode c capability at s))
        ∙ ok_injective _ _ e))
      (λ b h. weaken-Ensures _ _ _ _ (raise_if-Ensures (At v least) _ _) (λ _ q. h ∙ undo_not b q))

-- a call whose effect on the view is `f`, where `f` is a step
pub Steps-Ends :
    {A : Type 0} (g : Environment) (c : Store) (least : ℕ) (f : Store → Store) (m : Call Store A)
    → ((s : Store) → (view (m s).1 ≡ f (view s)) × (s.answers ≤ (m s).1.answers))
    → Step g least c (f c)
    → Ends g c least m
Steps-Ends g c least f m w step = record {
  at = λ s p.
      (inr (subst (Step g least c) (sym ((w s).0 ∙ ap f p.0)) step), omega (arith, p.1, (w s).1));
}

module _ (g : Environment) (at : ℕ) (e : Entry) (s : Store) where
  pub writes_profile :
      (p : TenantIsolationProfile)
      → (view ((write_profile p >> record_event g at e) s).1 ≡ with_profile (view s) p)
        × (s.answers ≤ ((write_profile p >> record_event g at e) s).1.answers)
  unfolding write_profile record_event append_event identifier ask ◌>>=◌
  writes_profile p = (refl, omega arith)

  pub writes_grant :
      {A : Type 0} (k : Key) (x : SupportElevationGrant) (a : A)
      → (view ((put_grant k x >> record_event g at e >> pure a) s).1 ≡ with_grant (view s) k x)
        × (s.answers ≤ ((put_grant k x >> record_event g at e >> pure a) s).1.answers)
  unfolding put_grant record_event append_event identifier ask ◌>>=◌ pure
  writes_grant k x a = (refl, omega arith)

  pub writes_revocation :
      (k : Key) (x : SupportElevationGrant)
      → (view ((put_grant k x >> record_event g at e) s).1 ≡ with_grant (view s) k x)
        × (s.answers ≤ ((put_grant k x >> record_event g at e) s).1.answers)
  unfolding put_grant record_event append_event identifier ask ◌>>=◌
  writes_revocation k x = (refl, omega arith)

  pub writes_record :
      {A : Type 0} (t : String) (r : TenantLifecycleRecord) (a : A)
      → (view ((put_record t r >> record_event g at e >> pure a) s).1 ≡ with_record (view s) t r)
        × (s.answers ≤ ((put_record t r >> record_event g at e >> pure a) s).1.answers)
  unfolding put_record record_event append_event identifier ask ◌>>=◌ pure
  writes_record t r a = (refl, omega arith)
