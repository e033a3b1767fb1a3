-- ===== src/Agent.antt =====
-- internal/controller/kubecopilotagent_controller.go: an agent's pod, service, storage and rights.
pub mod Objects
pub mod Pods
pub mod Resources
pub mod Mounts
pub mod Kept
pub mod Provided
pub mod Rights
pub mod Observed
pub mod Cleanup
use kubecopilot_core.Common.{
  String, Bool, true, false, not, ◌&&◌, Option, none, some, List, [], ◌∷◌, ◌++◌, ◌==◌,
  if◌then◌else◌, Result, contains, lookup,
}
use kubecopilot_core.Common.Text.{◌<>◌}
use kubecopilot_core.Phases.{phase_pending, phase_running, phase_error}
use kubecopilot_core.Api.Meta.{Key, ApiError}
use kubecopilot_core.Api.Agent.{KubeCopilotAgent, AgentRbac, SecretReference, RbacRule}
use kubecopilot_core.Api.Builtin.{Secret}
use kubecopilot_core.Api.Team.{KubeCopilotToolServer}
use kubecopilot_core.Api.Workload.{Pod}
use kubecopilot_core.Api.Kinds.{Kind}
use kubecopilot_core.Env.{Env}
use kubecopilot_core.Env.Exec.{
  Exec, World, Outcome, done, requeue_after, outcome_of, pure, stop, when, or_fail, or_return,
  ◌on_error◌, branch, if_not_found, get, create, update, update_status, delete, new_uuid, ensure,
  apply, in_reconcile, run, ◌>>=◌, ◌>>◌,
}
use Objects.{
  McpServerConfig, Settings, rbac_finalizer_name, or_else, in_namespace, cluster_key,
  agent_service_account_name, cluster_role_name, claim_of, service_of, service_account_of, role_of,
  subjects_of, role_binding_of, cluster_role_of, cluster_role_binding_of, kubeconfig_secret_of,
  build_kubeconfig,
}
use Pods.{Parts, plain_env, with_env, configured_parts, with_generated_kubeconfig, pod_of}
use Resources.{
  is_empty, ensure_pod, ensure_pvc, ensure_service, ensure_service_account, ensure_role,
  ensure_role_binding, ensure_cluster_role, ensure_cluster_role_binding, ensure_kubeconfig_secret,
  cleanup_cluster_rbac,
}

abbrev pub with_phase : String → KubeCopilotAgent → KubeCopilotAgent
with_phase phase agent = record agent { status = record agent.status { phase = phase } }

abbrev pub with_finalizers : (List String → List String) → KubeCopilotAgent → KubeCopilotAgent
with_finalizers f agent = record agent {
  meta = record agent.meta { finalizers = f agent.meta.finalizers };
}

-- `addFinalizer` and `removeFinalizer`, on the list
abbrev pub add_finalizer : List String → List String
add_finalizer finalizers = finalizers ++ (rbac_finalizer_name ∷ [])

abbrev without : String → List String → List String
without finalizer [] = []
without finalizer (f ∷ fs) =
    if not (f == finalizer) then f ∷ without finalizer fs else without finalizer fs

abbrev pub remove_finalizer : List String → List String
remove_finalizer finalizers = without rbac_finalizer_name finalizers

-- `agent.Spec.RBAC != nil && agent.Spec.KubeconfigSecretRef != nil`
abbrev pub is_conflicting : Option AgentRbac → Option SecretReference → Bool
is_conflicting (some rbac) (some ref) = true
is_conflicting _ _ = false

-- The switch on the pod's phase.
abbrev pub phase_of : Pod → String
phase_of pod =
    if pod.status.phase == "Running"
    then phase_running
    else if pod.status.phase == "Failed"
    then phase_error
    else phase_pending

-- Read only where RBAC is set: the code would panic on a nil pointer.
abbrev rules_of : Option AgentRbac → List RbacRule
rules_of none = []
rules_of (some rbac) = rbac.rules

abbrev cluster_rules_of : Option AgentRbac → List RbacRule
cluster_rules_of none = []
cluster_rules_of (some rbac) = rbac.cluster_rules

abbrev pub observed : KubeCopilotAgent → Pod → KubeCopilotAgent
observed agent pod = record agent {
  status = record agent.status {
    phase = phase_of pod;
    service_name = agent.meta.name <> "-agent-svc";
  };
}

module _ {env : Env} (settings : Settings) where
  pub handle_deletion : KubeCopilotAgent → Exec env Outcome (Unit {0})
  handle_deletion agent = when (contains agent.meta.finalizers rbac_finalizer_name) (do
    in_reconcile (cleanup_cluster_rbac settings agent)
    or_fail (update Kind.agent (with_finalizers remove_finalizer agent))
    pure tt)

  -- "Assign AgentID if not set"; the update writes the server's answer into the agent.
  assign_id : KubeCopilotAgent → Exec env Outcome KubeCopilotAgent
  assign_id agent =
      if agent.status.agent_id == ""
      then (do
        id ← new_uuid
        or_fail (
            update_status Kind.agent
              (record agent { status = record agent.status { agent_id = id } })))
      else pure agent

  ensure_finalizer : KubeCopilotAgent → Exec env Outcome KubeCopilotAgent
  ensure_finalizer agent =
      if not (contains agent.meta.finalizers rbac_finalizer_name)
      then or_fail (update Kind.agent (with_finalizers add_finalizer agent))
      else pure agent

  ensure_roles : KubeCopilotAgent → String → Exec env Outcome (Unit {0})
  ensure_roles agent sa_name = when (not (is_empty (rules_of agent.spec.rbac))) (do
    in_reconcile
        (ensure_role settings agent (rules_of agent.spec.rbac) (agent.meta.name <> "-role"))
    in_reconcile (ensure_role_binding settings agent (agent.meta.name <> "-role") sa_name))

  -- Behind the finalizer. The role's name was computed before the finalizer's update, the rules are
  -- read behind it.
  apply_cluster_roles : KubeCopilotAgent → String → String → Exec env Outcome (Unit {0})
  apply_cluster_roles agent role_name sa_name = do
    in_reconcile (ensure_cluster_role settings (cluster_rules_of agent.spec.rbac) role_name)
    in_reconcile (ensure_cluster_role_binding settings agent role_name sa_name)

  ensure_cluster_roles : KubeCopilotAgent → String → Exec env Outcome KubeCopilotAgent
  ensure_cluster_roles agent sa_name =
      if not (is_empty (cluster_rules_of agent.spec.rbac))
      then (do
        agent' ← ensure_finalizer agent
        apply_cluster_roles agent' (cluster_role_name agent) sa_name
        pure agent')
      else pure agent

  -- "Manage RBAC resources when the RBAC spec is set."
  manage_rbac : KubeCopilotAgent → Exec env Outcome KubeCopilotAgent
  manage_rbac agent = do
    in_reconcile (ensure_service_account settings agent (agent_service_account_name agent))
    ensure_roles agent (agent_service_account_name agent)
    agent' ← ensure_cluster_roles agent (agent_service_account_name agent)
    in_reconcile (
        ensure_kubeconfig_secret settings agent' (agent'.meta.name <> "-kubeconfig")
          (agent_service_account_name agent))
    pure agent'

  pub manage_rbac? : Option AgentRbac → KubeCopilotAgent → Exec env Outcome KubeCopilotAgent
  manage_rbac? none agent = pure agent
  manage_rbac? (some rbac) agent = manage_rbac agent

  -- Behind the service: what the pod shows.
  observe : KubeCopilotAgent → Exec env Outcome (Unit {0})
  observe agent = do
    found ← get Kind.pod (in_namespace agent (agent.meta.name <> "-agent"))
    branch found
        (λ pod. do
          or_fail (update_status Kind.agent (observed agent pod))
          when (phase_of pod == phase_pending) (stop (requeue_after 10)))
        λ e. pure tt

  -- Behind the RBAC resources.
  provide : KubeCopilotAgent → Exec env Outcome (Unit {0})
  provide agent = do
    in_reconcile (ensure_pvc settings agent (agent.meta.name <> "-session"))
    in_reconcile
        (ensure_pod settings agent (agent.meta.name <> "-agent") (agent.meta.name <> "-session"))
    in_reconcile (
        ensure_service settings agent (agent.meta.name <> "-agent-svc")
          (agent.meta.name <> "-agent"))
    observe agent

  -- Behind the deletion check.
  settle_agent : KubeCopilotAgent → Exec env Outcome (Unit {0})
  settle_agent agent₀ = do
    agent₁ ← assign_id agent₀
    agent ← manage_rbac? agent₁.spec.rbac agent₁
    provide agent

  handle : Key → Exec env Outcome (Unit {0})
  handle key = do
    agent ← get Kind.agent key on_error λ e. stop (outcome_of (env.ignore_not_found e))
    when (is_conflicting agent.spec.rbac agent.spec.kubeconfig_secret_ref)
        (update_status Kind.agent (with_phase phase_error agent) >>= λ _. stop done)
    if agent.meta.deleting then handle_deletion agent else settle_agent agent

  -- `KubeCopilotAgentReconciler.Reconcile`
  pub reconcile : Key → World env → Outcome × World env
  unfolding handle handle_deletion settle_agent provide observe
  reconcile key = run (handle key)
