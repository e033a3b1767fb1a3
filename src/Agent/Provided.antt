-- ===== src/Agent/Provided.antt =====
-- The log while an agent's storage and pod are provided.
use kubecopilot_core.Common.{String, Bool, true, false, not, List, [], ◌∷◌, ◌==◌}
use kubecopilot_core.Api.Meta.{Key, ApiError}
use kubecopilot_core.Api.Agent.{KubeCopilotAgent}
use kubecopilot_core.Env.{Env}
use kubecopilot_core.Env.Exec.{Exec, World, ◌>>=◌, stop}
use kubecopilot_core.Env.Ensures.{
  Ensures, ensures_rules, Ensures-bind-bind, Ensures-stop-bind, Ensures-pure-bind,
  Ensures-read-branch, Ensures-if-bind,
}
use kubecopilot_core.Agent.Resources.{
  mcp_configs, build_mcp_servers_env, with_delegates, with_tool_servers, create_pod, ensure_pod,
  ensure_pvc,
}
use kubecopilot_core.Agent.Mounts.{with_env?, pod_of-is_coherent}
use kubecopilot_core.Agent.Pods.{Parts, plain_env}
use kubecopilot_core.Agent.Objects.{Settings, McpServerConfig}
use kubecopilot_core.Agent.Kept.{Kept, Keeps}

module _ {env : Env} (settings : Settings) {key : Key} where
  mcp_configs-Keeps :
      {B : Type 0} (agent : KubeCopilotAgent) (names : List String) (configs : List McpServerConfig)
      (f : List McpServerConfig → Exec env ApiError B) (w : World env)
      → Kept key w.calls
      → ((configs' : List McpServerConfig) (w' : World env)
          → Kept key w'.calls
          → Ensures (Keeps env key) (f configs') w')
      → Ensures (Keeps env key) (mcp_configs settings agent names configs >>= f) w
  unfolding mcp_configs
  mcp_configs-Keeps agent [] configs f w kept next = Ensures-pure-bind _ _ _ (next configs w kept)
  mcp_configs-Keeps agent (name ∷ names) configs f w kept next = Ensures-bind-bind _ _ _ _ (
      Ensures-read-branch _ _ _ _ _ _ (λ ts s. mcp_configs-Keeps agent names _ f _ kept next)
        λ e s.
          Ensures-if-bind e.not_found (mcp_configs settings agent names configs) (stop e) f _
            (λ missing. mcp_configs-Keeps agent names configs f _ kept next)
            λ other. Ensures-stop-bind _ _ _ kept)

  module _ {B : Type 0} (agent : KubeCopilotAgent) (parts : Parts) (f : Parts → Exec env ApiError B)
      (w : World env) (kept : Kept key w.calls) where
    with_delegates-Keeps :
        ((asked : Bool) (names : String) (w' : World env)
          → Kept key w'.calls
          → Ensures
              (Keeps env key)
              (f (with_env? asked (plain_env "DELEGATE_TO_AGENTS" names) parts))
              w')
        → Ensures (Keeps env key) (with_delegates settings agent parts >>= f) w
    unfolding with_delegates
    with_delegates-Keeps next =
        let unasked = next false "" in
        let asked = next true in search (ensures_rules, kept, unasked, asked) depth 20

    with_tool_servers-Keeps :
        ((asked : Bool) (servers : String) (w' : World env)
          → Kept key w'.calls
          → Ensures
              (Keeps env key)
              (f (with_env? asked (plain_env "MCP_SERVERS" servers) parts))
              w')
        → Ensures (Keeps env key) (with_tool_servers settings agent parts >>= f) w
    unfolding with_tool_servers build_mcp_servers_env
    with_tool_servers-Keeps next =
        let unasked = next false "" in
        let asked = λ (servers : String). next (not (servers == "")) servers in
        search (ensures_rules, kept, unasked, asked, mcp_configs-Keeps) depth 30

  create_pod-Keeps :
      (agent : KubeCopilotAgent) (name pvc_name : String) (w : World env)
      → Kept key w.calls
      → Ensures (Keeps env key) (create_pod settings agent name pvc_name) w
  unfolding create_pod
  create_pod-Keeps agent name pvc_name w kept =
      with_delegates-Keeps agent _ _ w kept λ delegates names w₁ kept₁.
        with_tool_servers-Keeps agent _ _ w₁ kept₁ λ servers configs w₂ kept₂.
          let fits = pod_of-is_coherent agent name pvc_name delegates servers names configs in
          search (ensures_rules, kept₂, fits) depth 20

  pub ensure_pod-Keeps :
      (agent : KubeCopilotAgent) (name pvc_name : String) (w : World env)
      → Kept key w.calls
      → Ensures (Keeps env key) (ensure_pod settings agent name pvc_name) w
  unfolding ensure_pod
  ensure_pod-Keeps agent name pvc_name w kept =
      search (ensures_rules, kept, create_pod-Keeps) depth 20

  pub ensure_pvc-Keeps :
      (agent : KubeCopilotAgent) (name : String) (w : World env)
      → Kept key w.calls
      → Ensures (Keeps env key) (ensure_pvc settings agent name) w
  unfolding ensure_pvc
  ensure_pvc-Keeps agent name w kept = search (ensures_rules, kept) depth 20
