-- ===== src/Send/Payload.antt =====
-- The request body of internal/controller/kubecopilotsend_controller.go and how it is filled.
use kubecopilot_core.Common.{
  String, Bool, Option, none, some, List, map, ◌==◌, if◌then◌else◌, lookup,
}
use kubecopilot_core.Api.Send.{
  CustomAgent, SessionConfig, KubeCopilotSend, ProviderConfig as ProviderSpec,
}

pub record ProviderConfig : Type 0 where
  pub type : String
  pub base_url : String
  pub api_key : String
  pub model_name : String

pub record CustomAgentConfig : Type 0 where
  pub name : String
  pub display_name : String
  pub description : String
  pub prompt : String
  pub tools : List String
  pub infer : Option Bool

pub record SessionConfigPayload : Type 0 where
  pub model : String
  pub system_message : String
  pub disabled_skills : List String
  pub custom_agents : List CustomAgentConfig
  pub provider : Option ProviderConfig
  pub tools_config : List (String × Bool)

pub record AsyncChatRequest : Type 0 where
  pub message : String
  pub session_id : String
  pub send_ref : String
  pub namespace : String
  pub agent_ref : String
  pub session_config : Option SessionConfigPayload

pub record AsyncChatResponse : Type 0 where
  pub queue_id : String
  pub status : String

abbrev pub custom_agent_config : CustomAgent → CustomAgentConfig
custom_agent_config ca = record {
  name = ca.name;
  display_name = ca.display_name;
  description = ca.description;
  prompt = ca.prompt;
  tools = ca.tools;
  infer = ca.infer;
}

-- `payload`, before the provider is resolved.
abbrev pub base_payload : SessionConfig → SessionConfigPayload
base_payload sc = record {
  model = sc.model;
  system_message = sc.system_message;
  disabled_skills = sc.disabled_skills;
  custom_agents = map custom_agent_config sc.custom_agents;
  provider = none;
  tools_config = sc.tools_config;
}

abbrev pub base_provider : ProviderSpec → ProviderConfig
base_provider p = record { type = p.type; base_url = p.base_url; api_key = ""; model_name = "" }

-- `if t, ok := secret.Data[key]; ok { … }`
abbrev override : Option String → String → String
override none old = old
override (some new) old = new

abbrev pub provider_with_secret : List (String × String) → ProviderConfig → ProviderConfig
provider_with_secret content pc = record {
  type = override (lookup "type" content) pc.type;
  base_url = override (lookup "base-url" content) pc.base_url;
  api_key = override (lookup "api-key" content) pc.api_key;
  model_name = override (lookup "model-name" content) pc.model_name;
}

-- The model of the secret fills an empty one only.
abbrev default_model : Option String → String → String
default_model none model = model
default_model (some name) model = if model == "" then name else model

abbrev pub payload_with_secret :
    List (String × String) → SessionConfigPayload → SessionConfigPayload
payload_with_secret content payload = record payload {
  model = default_model (lookup "model-name" content) payload.model;
}

abbrev pub with_provider : ProviderConfig → SessionConfigPayload → SessionConfigPayload
with_provider pc payload = record payload { provider = some pc }

abbrev pub chat_request : KubeCopilotSend → Option SessionConfigPayload → AsyncChatRequest
chat_request send config = record {
  message = send.spec.message;
  session_id = send.spec.session_id;
  send_ref = send.meta.name;
  namespace = send.meta.namespace;
  agent_ref = send.spec.agent_ref;
  session_config = config;
}
