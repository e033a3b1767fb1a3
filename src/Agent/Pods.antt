-- ===== src/Agent/Pods.antt =====
-- The pod that internal/controller/kubecopilotagent_controller.go creates for an agent.
use kubecopilot_core.Common.{
  String, not, Option, none, some, List, [], ◌∷◌, ◌++◌, ◌==◌, if◌then◌else◌,
}
use kubecopilot_core.Common.Text.{◌<>◌}
use kubecopilot_core.Api.Agent.{KubeCopilotAgent, AgentRbac, SecretReference}
use kubecopilot_core.Api.Workload.{Volume, VolumeSource, VolumeMount, EnvVar, HttpGetProbe, Pod}
use kubecopilot_core.Agent.Objects.{default_agent_image, or_else, owned_meta}

-- What the function collects for the pod.
pub record Parts : Type 0 where
  pub volumes : List Volume
  pub volume_mounts : List VolumeMount
  pub env_vars : List EnvVar

abbrev pub plain_env : String → String → EnvVar
plain_env name value = record { name = name; value = value; secret_key_ref = none }

abbrev pub mounted : String → String → VolumeMount
mounted name path = record { name = name; mount_path = path; sub_path = "" }

abbrev pub base_parts : KubeCopilotAgent → String → Parts
base_parts agent pvc_name = record {
  volumes =
      (record { name = "session-storage"; source = VolumeSource.persistent_volume_claim pvc_name })
      ∷ [];
  volume_mounts = mounted "session-storage" "/copilot" ∷ [];
  env_vars =
      (record {
        name = "GITHUB_TOKEN";
        value = "";
        secret_key_ref = some (agent.spec.github_token_secret_ref.name, "GITHUB_TOKEN");
      })
      ∷ plain_env "COPILOT_HOME" "/copilot"
      ∷ plain_env "AGENT_MD" "/copilot/copilot-instructions.md"
      ∷ plain_env "WEBHOOK_URL" (
          "http://kube-copilot-agent-webhook." <> agent.meta.namespace
          <> ".svc.cluster.local:8090/response")
      ∷ [];
}

abbrev pub with_env : EnvVar → Parts → Parts
with_env e parts = record parts { env_vars = parts.env_vars ++ (e ∷ []) }

abbrev pub with_volume : Volume → VolumeMount → Parts → Parts
with_volume v vm parts = record parts {
  volumes = parts.volumes ++ (v ∷ []);
  volume_mounts = parts.volume_mounts ++ (vm ∷ []);
}

-- A configuration volume where a config map is named.
abbrev pub with_config_map : String → String → String → Parts → Parts
with_config_map config_map name path parts =
    if not (config_map == "")
    then with_volume (record { name = name; source = VolumeSource.config_map config_map })
        (mounted name path) parts
    else parts

-- The secret's key `config` at the kubeconfig's path, and the variable that points there.
abbrev pub with_kubeconfig : String → Parts → Parts
with_kubeconfig secret_name parts = with_env (plain_env "KUBECONFIG" "/copilot/.kube/config") (
    with_volume (record { name = "kubeconfig"; source = VolumeSource.secret secret_name })
      (record { name = "kubeconfig"; mount_path = "/copilot/.kube/config"; sub_path = "config" })
      parts)

abbrev pub with_own_kubeconfig : Option SecretReference → Parts → Parts
with_own_kubeconfig none parts = parts
with_own_kubeconfig (some ref) parts = with_kubeconfig ref.name parts

-- The one that the operator generates, where RBAC is set and no secret is named.
abbrev pub with_generated_kubeconfig :
    String → Option AgentRbac → Option SecretReference → Parts → Parts
with_generated_kubeconfig name (some rbac) none parts =
    with_kubeconfig (name <> "-kubeconfig") parts
with_generated_kubeconfig name _ _ parts = parts

-- The parts before the delegates.
abbrev pub configured_parts : KubeCopilotAgent → String → Parts
configured_parts agent pvc_name = with_own_kubeconfig agent.spec.kubeconfig_secret_ref (
    with_config_map agent.spec.agent_config_map "agent-config" "/copilot-agent-staging" (
      with_config_map agent.spec.skills_config_map "skills-config" "/copilot-skills-staging"
        (base_parts agent pvc_name)))

abbrev health_probe : HttpGetProbe
health_probe = record { path = "/health"; port = 8080 }

abbrev pub pod_of : KubeCopilotAgent → String → Parts → Pod
pod_of agent name parts = record {
  meta = record (owned_meta agent name) { labels = ("app", name) ∷ [] };
  spec = record {
    containers =
        (record {
          name = "agent";
          image = or_else agent.spec.image default_agent_image;
          image_pull_policy = "Always";
          ports = 8080 ∷ [];
          env = parts.env_vars;
          volume_mounts = parts.volume_mounts;
          liveness_probe = health_probe;
          readiness_probe = health_probe;
          requests = ("cpu", "100m") ∷ ("memory", "256Mi") ∷ [];
          limits = ("cpu", "1000m") ∷ ("memory", "2048Mi") ∷ [];
        })
        ∷ [];
    volumes = parts.volumes;
  };
  status = record { phase = "" };
}
