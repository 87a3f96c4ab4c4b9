-- ===== src/Contracts/Work.antt =====
-- contracts/ha.py: work items, fenced leases and the capacity envelope. A model_validator is a
-- test that the constructor of the record makes; `model_copy` makes none.
use prodkit_control.Prelude.{
  ℕ, ℕ_discrete, String, string_discrete, Bool, true, false, not, ◌&&◌, Option, none, some, leb,
  ltb, same,
}
use prodkit_control.Contracts.Json.{Json}

pub data WorkState : Type 0 where
  queued leased succeeded dead_letter : WorkState

unfoldable pub WorkState_discrete : Discrete WorkState
WorkState_discrete = hlevel

-- The text of a resource: any name, or `queue:{queue}:job:{job_id}`, which is injective since the
-- text of a job id has a fixed length.
pub data ResourceKey : Type 0 where
  named : String → ResourceKey
  job : String → ℕ → ResourceKey

unfoldable pub ResourceKey_discrete : Discrete ResourceKey
ResourceKey_discrete = hlevel (ℕ_discrete, string_discrete)

pub record FencedLease : Type 0 where
  pub lease_id : ℕ
  pub tenant_id : String
  pub resource_key : ResourceKey
  pub owner_id : String
  pub fence_token : ℕ
  pub acquired_at : ℕ
  pub expires_at : ℕ

-- `validate_window`, with the bound `ge=1` on the token
abbrev pub validate_window : FencedLease → Bool
validate_window l = leb 1 l.fence_token && ltb l.acquired_at l.expires_at

abbrev pub is_expired : FencedLease → ℕ → Bool
is_expired l at = leb l.expires_at at

pub record DurableWorkItem : Type 0 where
  pub job_id : ℕ
  pub tenant_id : String
  pub queue : String
  pub kind : String
  pub idempotency_key : String
  pub payload : Json
  pub created_at : ℕ
  pub available_at : ℕ
  pub attempt : ℕ
  pub max_attempts : ℕ
  pub state : WorkState
  pub completed_at : Option ℕ
  pub last_error : Option String

-- `resource_key`
abbrev pub resource_key : DurableWorkItem → ResourceKey
resource_key i = job i.queue i.job_id

abbrev pub is_some : {A : Type 0} → Option A → Bool
is_some none = false
is_some (some _) = true

-- `bool(text)` of a text that may be None
abbrev pub is_truthy : Option String → Bool
is_truthy none = false
is_truthy (some s) = not (same string_discrete s "")

abbrev pub completion_fits : WorkState → Option ℕ → Bool
completion_fits succeeded c = is_some c
completion_fits _ c = not (is_some c)

abbrev pub error_fits : WorkState → Option String → Bool
error_fits dead_letter e = is_truthy e
error_fits _ e = true

-- `validate_lifecycle`, with the bounds on `attempt` and `max_attempts`
abbrev pub validate_lifecycle : DurableWorkItem → Bool
validate_lifecycle i =
    leb 1 i.max_attempts
    && (leb i.max_attempts 1000
        && (leb i.created_at i.available_at
            && (leb i.attempt i.max_attempts
                && (completion_fits i.state i.completed_at && error_fits i.state i.last_error))))

pub record LeasedWorkItem : Type 0 where
  pub item : DurableWorkItem
  pub lease : FencedLease

-- `validate_binding`
abbrev pub validate_binding : LeasedWorkItem → Bool
validate_binding w =
    same WorkState_discrete w.item.state leased
    && (same string_discrete w.item.tenant_id w.lease.tenant_id
        && same ResourceKey_discrete (resource_key w.item) w.lease.resource_key)

pub record QueueSnapshot : Type 0 where
  pub queue : String
  pub tenant_id : String
  pub queued : ℕ
  pub leased : ℕ
  pub dead_letter : ℕ
  pub succeeded : ℕ
  pub captured_at : ℕ

-- The bounds that admission reads; the other fields qualify a deployment and are not read.
pub record CapacityEnvelope : Type 0 where
  pub max_queue_depth : ℕ
  pub max_in_flight : ℕ
  pub max_per_tenant_in_flight : ℕ
  pub qualification_concurrency : ℕ
  pub qualification_work_items : ℕ

-- `validate_limits`, with the bounds `ge=1`
abbrev pub validate_limits : CapacityEnvelope → Bool
validate_limits e =
    leb 1 e.max_queue_depth
    && (leb 1 e.max_in_flight
        && (leb 1 e.max_per_tenant_in_flight
            && (leb 1 e.qualification_concurrency
                && (leb 1 e.qualification_work_items
                    && (leb e.max_per_tenant_in_flight e.max_in_flight
                        && (leb e.qualification_concurrency e.max_in_flight
                            && leb e.qualification_work_items e.max_queue_depth))))))
