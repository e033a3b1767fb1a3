-- ===== src/Api/Session.antt =====
-- api/v1/kubecopilotsession_types.go
use kubecopilot_core.Common.{String, List}
use kubecopilot_core.Api.Meta.{ObjectMeta, Condition}

pub record KubeCopilotSessionSpec : Type 0 where
  pub tenant_id : String
  pub agent_ref : String
  pub isolation_level : String

pub record KubeCopilotSessionStatus : Type 0 where
  pub phase : String
  pub namespace : String
  pub conditions : List Condition

pub record KubeCopilotSession : Type 0 where
  pub meta : ObjectMeta
  pub spec : KubeCopilotSessionSpec
  pub status : KubeCopilotSessionStatus
