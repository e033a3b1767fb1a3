-- ===== src/Agent/Resources.antt =====
-- The helpers of internal/controller/kubecopilotagent_controller.go, each with its resource.
use kubecopilot_core.Common.{
  String, Bool, true, false, not, Option, none, some, List, [], ◌∷◌, ◌++◌, ◌==◌, if◌then◌else◌,
  lookup,
}
use kubecopilot_core.Common.Text.{◌<>◌}
use kubecopilot_core.Api.Meta.{Key, ApiError}
use kubecopilot_core.Api.Agent.{KubeCopilotAgent, RbacRule}
use kubecopilot_core.Api.Builtin.{Secret}
use kubecopilot_core.Api.Team.{KubeCopilotToolServer}
use kubecopilot_core.Api.Kinds.{Kind}
use kubecopilot_core.Env.{Env}
use kubecopilot_core.Env.Exec.{
  Exec, pure, stop, or_return, ◌on_error◌, branch, if_not_found, get, create, update, delete,
  ensure, apply, ◌>>=◌, ◌>>◌,
}
use kubecopilot_core.Agent.Objects.{
  McpServerConfig, Settings, or_else, in_namespace, cluster_key, cluster_role_name, claim_of,
  service_of, service_account_of, role_of, subjects_of, role_binding_of, cluster_role_of,
  cluster_role_binding_of, kubeconfig_secret_of, build_kubeconfig,
}
use kubecopilot_core.Agent.Pods.{
  Parts, plain_env, with_env, configured_parts, with_generated_kubeconfig, pod_of,
}

abbrev pub is_empty {ℓ} : {A : Type ℓ} → List A → Bool
is_empty [] = true
is_empty (x ∷ xs) = false

abbrev pub text_of : Option String → String
text_of none = ""
text_of (some text) = text

abbrev pub mcp_config : KubeCopilotToolServer → McpServerConfig
mcp_config ts = record {
  name = ts.meta.name;
  url = ts.spec.url;
  transport = or_else ts.spec.transport "sse";
}

module _ {env : Env} (settings : Settings) where
  -- The loop of `buildMCPServersEnv`.
  unfoldable pub mcp_configs :
      KubeCopilotAgent
      → List String
      → List McpServerConfig
      → Exec env ApiError (List McpServerConfig)
  mcp_configs agent [] configs = pure configs
  mcp_configs agent (name ∷ names) configs = do
    found ← get Kind.tool_server (in_namespace agent name)
    branch found (λ ts. mcp_configs agent names (configs ++ (mcp_config ts ∷ [])))
        λ e. if_not_found e (mcp_configs agent names configs) (stop e)

  unfoldable pub build_mcp_servers_env : KubeCopilotAgent → Exec env ApiError String
  build_mcp_servers_env agent = do
    configs ← mcp_configs agent agent.spec.tool_servers []
    if is_empty configs then pure "" else or_return (pure (settings.marshal_servers configs))

  unfoldable pub with_delegates : KubeCopilotAgent → Parts → Exec env ApiError Parts
  with_delegates agent parts =
      if not (is_empty agent.spec.delegate_to)
      then (do
        names ← pure (settings.marshal_names agent.spec.delegate_to) on_error λ e.
            stop (record e { text = "marshal delegate targets: " <> e.text })
        pure (with_env (plain_env "DELEGATE_TO_AGENTS" names) parts))
      else pure parts

  unfoldable pub with_tool_servers : KubeCopilotAgent → Parts → Exec env ApiError Parts
  with_tool_servers agent parts =
      if not (is_empty agent.spec.tool_servers)
      then (do
        servers ← build_mcp_servers_env agent
        pure (
            if not (servers == "")
            then with_env (plain_env "MCP_SERVERS" servers) parts
            else parts))
      else pure parts

  unfoldable pub create_pod : KubeCopilotAgent → String → String → Exec env ApiError (Unit {0})
  create_pod agent name pvc_name = do
    delegating ← with_delegates agent (configured_parts agent pvc_name)
    parts ← with_tool_servers agent (
        with_generated_kubeconfig agent.meta.name agent.spec.rbac agent.spec.kubeconfig_secret_ref
          delegating)
    or_return (create Kind.pod (pod_of agent name parts))
    pure tt

  unfoldable pub ensure_pod : KubeCopilotAgent → String → String → Exec env ApiError (Unit {0})
  ensure_pod agent name pvc_name = do
    found ← get Kind.pod (in_namespace agent name)
    branch found (λ pod. pure tt) λ e. if_not_found e (create_pod agent name pvc_name) (stop e)

  unfoldable pub ensure_pvc : KubeCopilotAgent → String → Exec env ApiError (Unit {0})
  ensure_pvc agent name = do
    found ← get Kind.persistent_volume_claim (in_namespace agent name)
    branch found (λ pvc. pure tt)
        λ e.
          if_not_found e
            (do
              storage ←
                  or_return (pure (settings.parse_quantity (or_else agent.spec.storage_size "1Gi")))
              or_return (create Kind.persistent_volume_claim (claim_of agent name storage))
              pure tt)
            (stop e)

  abbrev pub ensure_service : KubeCopilotAgent → String → String → Exec env ApiError (Unit {0})
  ensure_service agent name pod_name =
      ensure Kind.service (in_namespace agent name) (service_of agent name pod_name)

  abbrev pub ensure_service_account : KubeCopilotAgent → String → Exec env ApiError (Unit {0})
  ensure_service_account agent name =
      ensure Kind.service_account (in_namespace agent name) (service_account_of agent name)

  abbrev pub ensure_role : KubeCopilotAgent → List RbacRule → String → Exec env ApiError (Unit {0})
  ensure_role agent rules name =
      apply Kind.role (in_namespace agent name) (role_of agent rules name)
        (λ role. record role { rules = rules })

  abbrev pub ensure_role_binding : KubeCopilotAgent → String → String → Exec env ApiError (Unit {0})
  ensure_role_binding agent role_name sa_name =
      apply Kind.role_binding (in_namespace agent (role_name <> "-binding"))
        (role_binding_of agent role_name sa_name)
        (λ rb. record rb { subjects = subjects_of agent sa_name })

  abbrev pub ensure_cluster_role : List RbacRule → String → Exec env ApiError (Unit {0})
  ensure_cluster_role rules name =
      apply Kind.cluster_role (cluster_key name) (cluster_role_of rules name)
        (λ cr. record cr { rules = rules })

  abbrev pub ensure_cluster_role_binding :
      KubeCopilotAgent → String → String → Exec env ApiError (Unit {0})
  ensure_cluster_role_binding agent role_name sa_name =
      apply Kind.cluster_role_binding (cluster_key (role_name <> "-binding"))
        (cluster_role_binding_of agent role_name sa_name)
        (λ crb. record crb { subjects = subjects_of agent sa_name })

  -- "Update the kubeconfig if it has changed."
  abbrev pub update_kubeconfig : String → Secret → Exec env ApiError (Unit {0})
  update_kubeconfig kubeconfig secret =
      if not (text_of (lookup "config" secret.content) == kubeconfig)
      then (do
        or_return
            (update Kind.secret (record secret { string_content = ("config", kubeconfig) ∷ [] }))
        pure tt)
      else pure tt

  unfoldable pub ensure_kubeconfig_secret :
      KubeCopilotAgent → String → String → Exec env ApiError (Unit {0})
  ensure_kubeconfig_secret agent name sa_name = do
    found ← get Kind.secret (in_namespace agent name)
    branch found (update_kubeconfig (build_kubeconfig settings agent sa_name)) λ e.
        if_not_found e
          (do
            or_return (
                create Kind.secret
                  (kubeconfig_secret_of agent name (build_kubeconfig settings agent sa_name)))
            pure tt)
          (stop e)

  -- `if err := r.Get(…); err == nil { if err := r.Delete(…); err != nil && !errors.IsNotFound(err) {
  -- return err } }`: an error of the read is dropped.
  abbrev pub delete_readable : (k : Kind) → Key → Exec env ApiError (Unit {0})
  delete_readable k key = do
    found ← get k key
    branch found (λ o. delete k o on_error λ e. if_not_found e (pure tt) (stop e)) λ e. pure tt

  unfoldable pub cleanup_cluster_rbac : KubeCopilotAgent → Exec env ApiError (Unit {0})
  cleanup_cluster_rbac agent = do
    delete_readable Kind.cluster_role_binding (cluster_key (cluster_role_name agent <> "-binding"))
    delete_readable Kind.cluster_role (cluster_key (cluster_role_name agent))
