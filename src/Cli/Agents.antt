-- ===== src/Cli/Agents.antt =====
-- cmd/cli/agent.go: `kubecopilot agent list | get | create | delete`.
use kubecopilot_core.Common.{
  ℕ, ltb, String, not, Option, none, List, [], ◌∷◌, ◌++◌, ◌==◌, if◌then◌else◌, map, length,
}
use kubecopilot_core.Common.Text.{◌<>◌}
use kubecopilot_core.Api.Meta.{Condition, object_meta}
use kubecopilot_core.Api.Agent.{KubeCopilotAgent, KubeCopilotAgentSpec}
use kubecopilot_core.Api.Kinds.{Kind}
use kubecopilot_core.Env.{Env, Stream}
use kubecopilot_core.Env.Exec.{Exec, pure, get, list, create, delete, now, ◌>>=◌, ◌>>◌}
use kubecopilot_core.Env.Console.{print}
use kubecopilot_core.Cli.{Flags, Libraries, Command, with_client, ◌or_fail_with◌}
use kubecopilot_core.Cli.Table.{
  TabWriter, TabWriterHelper, new_stdout_tab_writer_helper, printf, println, print_rows, finish,
}
use kubecopilot_core.Cli.Age.{format_age}

-- One field and the next, with a tab between them.
infixr 65 ◌<tab>◌
abbrev ◌<tab>◌ : String → String → String
s <tab> t = s <> "\t" <> t

abbrev pub agent_row : ℕ → KubeCopilotAgent → String
agent_row time a =
    a.meta.name
    <tab> a.status.phase
    <tab> a.status.agent_id
    <tab> format_age time a.meta.created
    <> "\n"

abbrev field : String → String → String
field label value = label <> ":\t" <> value <> "\n"

abbrev set_field : String → String → List String
set_field label value = if not (value == "") then field label value ∷ [] else []

abbrev condition_row : Condition → String
condition_row cond =
    "  " <> cond.type <tab> cond.status <tab> cond.reason <tab> cond.message <> "\n"

abbrev pub condition_rows : List Condition → List String
condition_rows conditions =
    if ltb 0 (length conditions)
    then "\nConditions:\n" ∷ "  TYPE\tSTATUS\tREASON\tMESSAGE\n" ∷ map condition_row conditions
    else []

-- The rows of `agent get`, in their order.
pub agent_details : KubeCopilotAgent → List String
agent_details agent =
    field "Name" agent.meta.name
    ∷ field "Namespace" agent.meta.namespace
    ∷ field "Phase" agent.status.phase
    ∷ field "Agent ID" agent.status.agent_id
    ∷ field "Token Secret" agent.spec.github_token_secret_ref.name
    ∷ (set_field "Image" agent.spec.image
        ++ (field "Storage Size" agent.spec.storage_size
            ∷ (set_field "Skills ConfigMap" agent.spec.skills_config_map
                ++ (set_field "Agent ConfigMap" agent.spec.agent_config_map
                    ++ (set_field "Service" agent.status.service_name
                        ++ condition_rows agent.status.conditions)))))

-- The flags of `agent create`
pub record CreateFlags : Type 0 where
  pub token_secret : String
  pub image : String
  pub storage_size : String
  pub skills_cm : String
  pub agent_cm : String

abbrev empty_spec : String → KubeCopilotAgentSpec
empty_spec token_secret = record {
  github_token_secret_ref = record { name = token_secret };
  skills_config_map = "";
  agent_config_map = "";
  storage_size = "";
  image = "";
  kubeconfig_secret_ref = none;
  rbac = none;
  tool_servers = [];
  delegate_to = [];
}

-- `if flag != "" { field = flag }`
abbrev given : String → String → String
given flag field = if not (flag == "") then flag else field

pub agent_of : String → String → CreateFlags → KubeCopilotAgent
agent_of namespace name flags =
    let spec = empty_spec flags.token_secret in
    record {
      meta = object_meta namespace name;
      spec = record spec {
        image = given flags.image spec.image;
        storage_size = given flags.storage_size spec.storage_size;
        skills_config_map = given flags.skills_cm spec.skills_config_map;
        agent_config_map = given flags.agent_cm spec.agent_config_map;
      };
      status = record { agent_id = ""; phase = ""; service_name = ""; conditions = [] };
    }

module _ {env : Env} (tab : TabWriter) where
  pub agent_rows :
      List KubeCopilotAgent → TabWriterHelper tab → Exec env (Option String) (TabWriterHelper tab)
  agent_rows [] w = pure w
  agent_rows (a ∷ agents) w = now >>= λ time. agent_rows agents (printf tab (agent_row time a) w)

  pub agent_list : Libraries → Flags → Command env
  unfolding agent_rows
  agent_list lib flags = do
    with_client lib flags
    agents ← list Kind.agent flags.namespace or_fail_with "failed to list agents"
    w ←
        agent_rows agents
          (println tab "NAME\tPHASE\tAGENT ID\tAGE" (new_stdout_tab_writer_helper tab))
    finish tab w

  pub agent_get : Libraries → Flags → String → Command env
  unfolding agent_details
  agent_get lib flags name = do
    with_client lib flags
    agent ←
        get Kind.agent (record { namespace = flags.namespace; name = name })
        or_fail_with ("failed to get agent " <> env.quote name)
    finish tab (print_rows tab (agent_details agent) (new_stdout_tab_writer_helper tab))

module _ {env : Env} where
  pub agent_create : Libraries → Flags → CreateFlags → String → Command env
  unfolding agent_of
  agent_create lib flags options name = do
    with_client lib flags
    created ←
        create Kind.agent (agent_of flags.namespace name options)
        or_fail_with "failed to create agent"
    print Stream.stdout ("agent/" <> name <> " created\n")

  -- Only the name and the namespace of the object that is passed are read.
  pub agent_delete : Libraries → Flags → String → Command env
  unfolding agent_of
  agent_delete lib flags name = do
    with_client lib flags
    delete Kind.agent (
          agent_of flags.namespace name (record {
            token_secret = "";
            image = "";
            storage_size = "";
            skills_cm = "";
            agent_cm = "";
          }))
        or_fail_with ("failed to delete agent " <> env.quote name)
    print Stream.stdout ("agent/" <> name <> " deleted\n")
