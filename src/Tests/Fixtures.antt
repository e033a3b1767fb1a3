-- ===== src/Tests/Fixtures.antt =====
-- The objects that the runs start from.
use kubecopilot_core.Common.{String, Bool, true, none, List, [], ◌∷◌, ok}
use kubecopilot_core.Phases.{phase_running}
use kubecopilot_core.Api.Meta.{Key, object_meta}
use kubecopilot_core.Api.Agent.{KubeCopilotAgent}
use kubecopilot_core.Api.Policy.{
  PolicyRule, KubeCopilotPolicy, policy_rule_type_deny, policy_rule_type_require_approval,
}
use kubecopilot_core.Api.Send.{KubeCopilotSend}
use kubecopilot_core.Env.{Codec}

abbrev pub team_ns : String
team_ns = "team-a"

abbrev pub key : String → Key
key name = record { namespace = team_ns; name = name }

-- A codec that knows one answer.
abbrev pub fixed_codec : {Request Answer : Type 0} → Answer → Codec Request Answer
fixed_codec answer = record { marshal = λ r. ok "body"; decode = λ s. ok answer }

abbrev pub agent_named : String → List String → KubeCopilotAgent
agent_named name delegate_to = record {
  meta = object_meta team_ns name;
  spec = record {
    github_token_secret_ref = record { name = "token" };
    skills_config_map = "";
    agent_config_map = "";
    storage_size = "1Gi";
    image = "agent:1";
    kubeconfig_secret_ref = none;
    rbac = none;
    tool_servers = [];
    delegate_to = delegate_to;
  };
  status = record { agent_id = "a1"; phase = phase_running; service_name = name; conditions = [] };
}

abbrev pub rule : String → String → List String → PolicyRule
rule name type patterns = record {
  name = name;
  type = type;
  command_patterns = patterns;
  message = "";
}

abbrev pub policy_of : String → String → List PolicyRule → KubeCopilotPolicy
policy_of name agent_ref rules = record {
  meta = object_meta team_ns name;
  spec = record { agent_ref = agent_ref; rules = rules };
  status = record { active = true; rule_count = 0; conditions = [] };
}

abbrev pub no_delete : KubeCopilotPolicy
no_delete = policy_of "no-delete" "" (rule "r1" policy_rule_type_deny ("rm -rf*" ∷ []) ∷ [])

abbrev pub ask_first : KubeCopilotPolicy
ask_first =
    policy_of "ask-first" "ops"
      (rule "r2" policy_rule_type_require_approval ("kubectl apply*" ∷ []) ∷ [])

abbrev pub send_of : String → Bool → KubeCopilotSend
send_of message approved = record {
  meta = object_meta team_ns "s1";
  spec = record {
    agent_ref = "ops";
    message = message;
    session_id = "sess";
    session_config = none;
    approved = approved;
  };
  status = record { phase = ""; queue_id = ""; error_message = ""; conditions = [] };
}
