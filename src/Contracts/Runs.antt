-- ===== src/Contracts/Runs.antt =====
-- contracts/runs.py, with the node references of contracts/lineage.py
use prodkit_control.Prelude.{ℕ, String, Option}
use prodkit_control.Prelude.Dict.{Dict}
use prodkit_control.Contracts.Identity.{ActorRef}
use prodkit_control.Contracts.Json.{Json}

pub data LineageNodeKind : Type 0 where
  specification_revision decision_set generator_configuration source_tree : LineageNodeKind
  verification build_artifact authorization agent_action : LineageNodeKind
  deployment production_observation reconciliation : LineageNodeKind

pub record LineageNodeRef : Type 0 where
  pub kind : LineageNodeKind
  pub node_id : ℕ
  pub digest : ℕ

pub data RunStatus : Type 0 where
  pending running waiting_for_approval succeeded failed cancelled incomplete : RunStatus

pub record RunRecord : Type 0 where
  pub run_id : ℕ
  pub tenant_id : String
  pub status : RunStatus
  pub initiated_by : ActorRef
  pub environment : String
  pub purpose : String
  pub trace_id : String
  pub started_at : ℕ
  pub completed_at : Option ℕ
  pub source_intent_digest : Option ℕ
  pub specification_revision : Option LineageNodeRef
  pub lineage_graph_digest : Option ℕ
  pub workflow_id : Option String
  pub metadata : Dict String Json
