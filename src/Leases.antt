-- ===== src/Leases.antt =====
-- `InMemoryLeaseStore` of
-- packages/python/prodkit-control-runtime/src/prodkit_control_runtime/ha.py. Each method holds the
-- store's lock for its whole body, so a method is one step; the time that it reads and the
-- identifier that it draws are arguments.
pub mod Fencing
pub mod Exclusion
mod Tests
use prodkit_control.Prelude.{
  ℕ, ◌+◌, String, string_discrete, Bool, true, false, not, ◌&&◌, ◌||◌, Option, none, some, [],
  text_eq, is_blank, ◌==◌, if◌then◌else◌,
}
use prodkit_control.Prelude.Dict.{Dict, find, put}
use prodkit_control.Prelude.Int.{ℤ, pos_part}
use prodkit_control.Prelude.Result.{Result, ok, err, value_error, lease_lost}
use prodkit_control.Contracts.Work.{
  FencedLease, ResourceKey, ResourceKey_discrete, named, is_expired,
}
use prodkit_control.Queue.{is_valid_ttl}

abbrev pub Resource : Type 0
Resource = String × ResourceKey

unfoldable pub Resource_discrete : Discrete Resource
Resource_discrete = hlevel (string_discrete, ResourceKey_discrete)

-- `_LeaseSlot`
pub record LeaseSlot : Type 0 where
  pub fence_token : ℕ
  pub current : Option FencedLease

abbrev pub Slots : Type 0
Slots = Dict Resource LeaseSlot

abbrev pub new_slot : LeaseSlot
new_slot = record { fence_token = 0; current = none }

-- `self._slots.setdefault(identity, _LeaseSlot())`
abbrev pub slot : Resource → Slots → LeaseSlot
slot id s = elim (find Resource_discrete id s) [ none ↦ new_slot | some x ↦ x ]

abbrev pub resource : FencedLease → Resource
resource l = (l.tenant_id, l.resource_key)

-- the lease that is stored, if it has not expired
abbrev pub live : Option FencedLease → ℕ → Option FencedLease
live none now = none
live (some l) now = if is_expired l now then none else some l

unfoldable pub acquire :
    String → String → String → ℤ → ℕ → ℕ → Slots → Result (Option FencedLease) × Slots
acquire tenant resource_key owner ttl now lease_id s =
    if not (is_valid_ttl ttl) || (is_blank tenant || (is_blank resource_key || is_blank owner))
    then (err value_error, s)
    else (let id : Resource = (tenant, named resource_key) in
        let token = (slot id s).fence_token + 1 in
        let lease : FencedLease = record {
          lease_id = lease_id;
          tenant_id = tenant;
          resource_key = named resource_key;
          owner_id = owner;
          fence_token = token;
          acquired_at = now;
          expires_at = now + pos_part ttl;
        } in
        elim (live (slot id s).current now) [
          | some current ↦
              (if text_eq current.owner_id owner then ok (some current) else ok none, s)
          | none ↦ (
            ok (some lease),
            put Resource_discrete id (record { fence_token = token; current = some lease }) s,
          )
        ])

-- `_matches`
abbrev pub matches : FencedLease → FencedLease → Bool
matches current candidate =
    current.lease_id == candidate.lease_id
    && (text_eq current.owner_id candidate.owner_id && current.fence_token == candidate.fence_token)

-- the stored lease, if it is the candidate's and has not expired
unfoldable pub holding : FencedLease → ℕ → Slots → Option FencedLease
holding lease now s = elim (live (slot (resource lease) s).current now) [
  | none ↦ none
  | some current ↦ if matches current lease then some current else none
]

unfoldable pub renew : FencedLease → ℤ → ℕ → Slots → Result FencedLease × Slots
renew lease ttl now s =
    if not (is_valid_ttl ttl) then (err value_error, s) else elim (holding lease now s) [
      | none ↦ (err lease_lost, s)
      | some current ↦
          let renewed = record current { expires_at = now + pos_part ttl } in
          (
            ok renewed,
            put Resource_discrete (resource lease)
                (record (slot (resource lease) s) { current = some renewed }) s,
          )
    ]

unfoldable pub release : FencedLease → ℕ → Slots → Result (Unit {0}) × Slots
release lease now s = elim (holding lease now s) [
  | none ↦ (err lease_lost, s)
  | some current ↦ (
    ok tt,
    put Resource_discrete (resource lease) (record (slot (resource lease) s) { current = none }) s,
  )
]

unfoldable pub is_current : FencedLease → ℕ → Slots → Bool
is_current lease now s = elim (holding lease now s) [ none ↦ false | some _ ↦ true ]
