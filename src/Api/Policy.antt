-- ===== src/Api/Policy.antt =====
-- api/v1/kubecopilotpolicy_types.go
use kubecopilot_core.Common.{ℕ, String, Bool, List}
use kubecopilot_core.Api.Meta.{ObjectMeta, Condition}

-- `PolicyRuleType` is a string, so a stored rule may hold any text.
abbrev pub PolicyRuleType : Type 0
PolicyRuleType = String

abbrev pub policy_rule_type_deny : PolicyRuleType
policy_rule_type_deny = "deny"

abbrev pub policy_rule_type_require_approval : PolicyRuleType
policy_rule_type_require_approval = "require-approval"

pub record PolicyRule : Type 0 where
  pub name : String
  pub type : PolicyRuleType
  pub command_patterns : List String
  pub message : String

pub record KubeCopilotPolicySpec : Type 0 where
  pub agent_ref : String
  pub rules : List PolicyRule

pub record KubeCopilotPolicyStatus : Type 0 where
  pub active : Bool
  pub rule_count : ℕ
  pub conditions : List Condition

pub record KubeCopilotPolicy : Type 0 where
  pub meta : ObjectMeta
  pub spec : KubeCopilotPolicySpec
  pub status : KubeCopilotPolicyStatus
