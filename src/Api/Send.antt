-- ===== src/Api/Send.antt =====
-- api/v1/kubecopilotsend_types.go
use kubecopilot_core.Common.{String, Bool, Option, List}
use kubecopilot_core.Api.Meta.{ObjectMeta, Condition}

pub record ProviderConfig : Type 0 where
  pub type : String
  pub base_url : String
  pub secret_ref : String

pub record CustomAgent : Type 0 where
  pub name : String
  pub display_name : String
  pub description : String
  pub prompt : String
  pub tools : List String
  pub infer : Option Bool

pub record SessionConfig : Type 0 where
  pub model : String
  pub system_message : String
  pub disabled_skills : List String
  pub custom_agents : List CustomAgent
  pub provider : Option ProviderConfig
  pub byok : Bool
  pub tools_config : List (String × Bool)

pub record KubeCopilotSendSpec : Type 0 where
  pub agent_ref : String
  pub message : String
  pub session_id : String
  pub session_config : Option SessionConfig
  pub approved : Bool

pub record KubeCopilotSendStatus : Type 0 where
  pub phase : String
  pub queue_id : String
  pub error_message : String
  pub conditions : List Condition

pub record KubeCopilotSend : Type 0 where
  pub meta : ObjectMeta
  pub spec : KubeCopilotSendSpec
  pub status : KubeCopilotSendStatus
