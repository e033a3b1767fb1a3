-- ===== src/Api/Team.antt =====
-- api/v1/kubecopilotagentteam_types.go and api/v1/kubecopilottoolserver_types.go
use kubecopilot_core.Common.{ℕ, String, Option, List}
use kubecopilot_core.Api.Meta.{ObjectMeta, Condition}
use kubecopilot_core.Api.Agent.{SecretReference}

pub record TeamMember : Type 0 where
  pub name : String
  pub role : String
  pub description : String

pub record KubeCopilotAgentTeamSpec : Type 0 where
  pub coordinator : String
  pub members : List TeamMember
  pub strategy : String

pub record KubeCopilotAgentTeamStatus : Type 0 where
  pub phase : String
  pub member_count : ℕ
  pub conditions : List Condition

pub record KubeCopilotAgentTeam : Type 0 where
  pub meta : ObjectMeta
  pub spec : KubeCopilotAgentTeamSpec
  pub status : KubeCopilotAgentTeamStatus

pub record KubeCopilotToolServerSpec : Type 0 where
  pub url : String
  pub transport : String
  pub headers : List (String × String)
  pub secret_ref : Option SecretReference

pub record KubeCopilotToolServerStatus : Type 0 where
  pub phase : String
  pub available_tools : List String
  pub last_checked : ℕ  -- milliseconds
  pub conditions : List Condition

pub record KubeCopilotToolServer : Type 0 where
  pub meta : ObjectMeta
  pub spec : KubeCopilotToolServerSpec
  pub status : KubeCopilotToolServerStatus
