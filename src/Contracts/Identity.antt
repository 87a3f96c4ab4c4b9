-- ===== src/Contracts/Identity.antt =====
-- contracts/identity.py
use prodkit_control.Prelude.{String, Option}
use prodkit_control.Prelude.Dict.{Dict}

pub data ActorKind : Type 0 where
  human agent service workflow executor : ActorKind

pub record ActorRef : Type 0 where
  pub kind : ActorKind
  pub id : String
  pub display_name : Option String
  pub tenant_id : String
  pub workload_identity : Option String
  pub attributes : Dict String String
