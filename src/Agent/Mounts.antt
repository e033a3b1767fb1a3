-- ===== src/Agent/Mounts.antt =====
-- The parts of the pod of internal/controller/kubecopilotagent_controller.go fit together.
use kubecopilot_core.Common.{
  ◌≡◌, String, Bool, true, not, ◌&&◌, ◌==◌, Option, none, some, List, [], ◌∷◌, if◌then◌else◌,
  contains, map, arith,
}
use kubecopilot_core.Api.Agent.{KubeCopilotAgent, AgentRbac, SecretReference}
use kubecopilot_core.Api.Workload.{Volume, VolumeSource, VolumeMount, EnvVar, Container, Pod}
use kubecopilot_core.Agent.Pods.{
  Parts, plain_env, with_env, with_volume, mounted, base_parts, with_own_kubeconfig,
  configured_parts, with_generated_kubeconfig, pod_of,
}

abbrev distinct : List String → Bool
distinct [] = true
distinct (x ∷ xs) = not (contains xs x) && distinct xs

abbrev all_in : List String → List String → Bool
all_in ys [] = true
all_in ys (x ∷ xs) = contains ys x && all_in ys xs

abbrev volume_names : List Volume → List String
volume_names volumes = map (λ v. v.name) volumes

-- The mounts are of declared volumes, at different paths, and no variable is set twice.
abbrev fits : List String → List VolumeMount → List EnvVar → Bool
fits volumes mounts env =
    all_in volumes (map (λ m. m.name) mounts)
    && distinct (map (λ m. m.mount_path) mounts)
    && distinct (map (λ e. e.name) env)

abbrev all_fit : List String → List Container → Bool
all_fit volumes [] = true
all_fit volumes (c ∷ cs) = fits volumes c.volume_mounts c.env && all_fit volumes cs

-- What the API server asks of a pod's volumes, and that no variable hides another.
abbrev pub is_coherent : Pod → Bool
is_coherent pod =
    distinct (volume_names pod.spec.volumes)
    && all_fit (volume_names pod.spec.volumes) pod.spec.containers

abbrev pub with_env? : Bool → EnvVar → Parts → Parts
with_env? b e parts = if b then with_env e parts else parts

-- The same with the tests of the two config maps as arguments.
module _ (agent : KubeCopilotAgent) (name pvc_name names configs : String) where
  abbrev with_volume? : Bool → Volume → VolumeMount → Parts → Parts
  with_volume? b v m parts = if b then with_volume v m parts else parts

  abbrev volume_of : String → String → Volume
  volume_of config_map name = record { name = name; source = VolumeSource.config_map config_map }

  abbrev all_parts : Option SecretReference → Option AgentRbac → Bool → Bool → Bool → Bool → Parts
  all_parts ref rbac skills config delegates servers =
      with_env? servers (plain_env "MCP_SERVERS" configs) (
        with_generated_kubeconfig agent.meta.name rbac ref (
          with_env? delegates (plain_env "DELEGATE_TO_AGENTS" names) (
            with_own_kubeconfig ref (
              with_volume? config (volume_of agent.spec.agent_config_map "agent-config")
                (mounted "agent-config" "/copilot-agent-staging")
                (with_volume? skills (volume_of agent.spec.skills_config_map "skills-config")
                  (mounted "skills-config" "/copilot-skills-staging")
                  (base_parts agent pvc_name))))))

  all_parts-is_coherent :
      (ref : Option SecretReference) (rbac : Option AgentRbac)
      (skills config delegates servers : Bool)
      → is_coherent (pod_of agent name (all_parts ref rbac skills config delegates servers)) ≡ true
  all_parts-is_coherent none none skills config delegates servers = ground arith
  all_parts-is_coherent none (some rbac) skills config delegates servers = ground arith
  all_parts-is_coherent (some ref) rbac skills config delegates servers = ground arith

pub pod_of-is_coherent :
    (agent : KubeCopilotAgent) (name pvc_name : String) (delegates servers : Bool)
    (names configs : String)
    → is_coherent (
        pod_of agent name (
          with_env? servers (plain_env "MCP_SERVERS" configs) (
            with_generated_kubeconfig agent.meta.name agent.spec.rbac
              agent.spec.kubeconfig_secret_ref
              (with_env? delegates
                (plain_env "DELEGATE_TO_AGENTS" names)
                (configured_parts agent pvc_name)))))
      ≡ true
pod_of-is_coherent agent name pvc_name delegates servers names configs =
    all_parts-is_coherent agent name pvc_name names configs agent.spec.kubeconfig_secret_ref
      agent.spec.rbac (not (agent.spec.skills_config_map == ""))
      (not (agent.spec.agent_config_map == "")) delegates servers
