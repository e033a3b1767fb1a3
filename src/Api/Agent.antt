-- ===== src/Api/Agent.antt =====
-- api/v1/kubecopilotagent_types.go
use kubecopilot_core.Common.{String, Option, List}
use kubecopilot_core.Api.Meta.{ObjectMeta, Condition}

pub record SecretReference : Type 0 where
  pub name : String

-- `rbacv1.PolicyRule`
pub record RbacRule : Type 0 where
  pub verbs : List String
  pub api_groups : List String
  pub resources : List String
  pub resource_names : List String
  pub non_resource_urls : List String

pub record AgentRbac : Type 0 where
  pub service_account_name : String
  pub rules : List RbacRule
  pub cluster_rules : List RbacRule

pub record KubeCopilotAgentSpec : Type 0 where
  pub github_token_secret_ref : SecretReference
  pub skills_config_map : String
  pub agent_config_map : String
  pub storage_size : String
  pub image : String
  pub kubeconfig_secret_ref : Option SecretReference
  pub rbac : Option AgentRbac
  pub tool_servers : List String
  pub delegate_to : List String

pub record KubeCopilotAgentStatus : Type 0 where
  pub agent_id : String
  pub phase : String
  pub service_name : String
  pub conditions : List Condition

pub record KubeCopilotAgent : Type 0 where
  pub meta : ObjectMeta
  pub spec : KubeCopilotAgentSpec
  pub status : KubeCopilotAgentStatus
