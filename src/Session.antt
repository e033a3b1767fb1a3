-- ===== src/Session.antt =====
-- internal/controller/kubecopilotsession_controller.go: a namespace for each session, closed to
-- other tenants.
pub mod Objects
pub mod Guard
pub mod Lifecycle
pub mod Converges
use kubecopilot_core.Common.{String, List, not, ◌||◌, ◌==◌, if◌then◌else◌}
use kubecopilot_core.Common.Text.{◌<>◌}
use kubecopilot_core.Phases.{phase_active, phase_terminating, phase_error}
use kubecopilot_core.Api.Meta.{Key, ApiError}
use kubecopilot_core.Api.Builtin.{Namespace}
use kubecopilot_core.Api.Session.{KubeCopilotSession}
use kubecopilot_core.Api.Kinds.{Kind}
use kubecopilot_core.Env.{Env}
use kubecopilot_core.Env.Exec.{
  Exec, World, Outcome, done, requeue_after, failed, outcome_of, pure, stop, when, or_fail,
  ◌on_error◌, branch, get, update, update_status, report, run, ensure, delete_present, if_not_found,
  in_reconcile, ◌>>=◌, ◌>>◌,
}
use Objects.{
  session_finalizer, session_namespace_name, tenant_namespace, tenant_isolation_key,
  tenant_isolation, tenant_role_key, tenant_role, tenant_binding_key, tenant_binding,
}

abbrev pub with_phase : String → KubeCopilotSession → KubeCopilotSession
with_phase phase session = record session { status = record session.status { phase = phase } }

-- The status that `setPhase` writes.
abbrev pub phased : (env : Env) → String → String → KubeCopilotSession → KubeCopilotSession
phased env phase message session =
    if phase == phase_error
    then record session {
      status = record session.status {
        phase = phase;
        conditions = env.set_condition session.status.conditions (record {
          type = "Ready";
          status = "False";
          reason = "Error";
          message = message;
          observed_generation = 0;
        });
      };
    }
    else with_phase phase session

abbrev pub activated : (env : Env) → String → KubeCopilotSession → KubeCopilotSession
activated env ns_name session = record session {
  status = record {
    namespace = ns_name;
    phase = phase_active;
    conditions = env.set_condition session.status.conditions (record {
      type = "Ready";
      status = "True";
      reason = "Reconciled";
      message = "Session is ready";
      observed_generation = session.meta.generation;
    });
  };
}

abbrev pub with_finalizers : (List String → List String) → KubeCopilotSession → KubeCopilotSession
with_finalizers f session = record session {
  meta = record session.meta { finalizers = f session.meta.finalizers };
}

module _ {env : Env} where
  abbrev pub ensure_namespace : KubeCopilotSession → String → Exec env ApiError (Unit {0})
  ensure_namespace session name =
      ensure Kind.ns (record { namespace = ""; name = name }) (tenant_namespace session name)

  abbrev pub ensure_network_policy : KubeCopilotSession → String → Exec env ApiError (Unit {0})
  ensure_network_policy session ns_name =
      ensure Kind.network_policy (tenant_isolation_key ns_name) (tenant_isolation session ns_name)

  -- The same steps as in the other helpers: create on NotFound, return any other error.
  abbrev pub ensure_rbac : KubeCopilotSession → String → Exec env ApiError (Unit {0})
  ensure_rbac session ns_name = do
    ensure Kind.role (tenant_role_key ns_name) (tenant_role session ns_name)
    ensure Kind.role_binding (tenant_binding_key ns_name) (tenant_binding session ns_name)

  -- The case "none".
  remove_network_policy : String → Exec env Outcome (Unit {0})
  remove_network_policy ns_name = do
    found ← get Kind.network_policy (tenant_isolation_key ns_name)
    branch found (λ np. delete_present Kind.network_policy np)
        λ e. if_not_found e (pure tt) (stop (failed e))

  -- The switch on the isolation level; any other level does nothing.
  reconcile_isolation : KubeCopilotSession → String → Exec env Outcome (Unit {0})
  reconcile_isolation session ns_name =
      if session.spec.isolation_level == "" || session.spec.isolation_level == "strict"
      then in_reconcile (ensure_network_policy session ns_name)
      else if session.spec.isolation_level == "none"
      then remove_network_policy ns_name
      else pure tt

  abbrev pub set_phase : {A : Type 0} → KubeCopilotSession → String → String → Exec env Outcome A
  set_phase session phase message = report Kind.session (phased env phase message session)

  -- "Ensure the finalizer is present."; the update writes the server's answer into the session.
  ensure_finalizer : KubeCopilotSession → Exec env Outcome KubeCopilotSession
  ensure_finalizer session =
      if not (env.contains_finalizer session.meta.finalizers session_finalizer)
      then or_fail (
          update Kind.session
            (with_finalizers (λ fs. env.add_finalizer fs session_finalizer) session))
      else pure session

  -- The namespace is still there: it is deleted, unless that has begun, and awaited.
  await_namespace : {A : Type 0} → Namespace → Exec env Outcome A
  await_namespace ns = do
    when (not ns.meta.deleting) (delete_present Kind.ns ns)
    stop (requeue_after 2)

  handle_deletion : KubeCopilotSession → Exec env Outcome (Unit {0})
  handle_deletion session =
      when (env.contains_finalizer session.meta.finalizers session_finalizer) (do
        session' ← or_fail (update_status Kind.session (with_phase phase_terminating session))
        found ← get Kind.ns (record { namespace = ""; name = session_namespace_name session' })
        branch found await_namespace (λ e. if_not_found e (pure tt) (stop (failed e)))
        or_fail (
            update Kind.session
              (with_finalizers (λ fs. env.remove_finalizer fs session_finalizer) session'))
        pure tt)

  -- Behind the finalizer: "Validate the referenced agent exists." and all that follows.
  prepare : KubeCopilotSession → Exec env Outcome (Unit {0})
  prepare session = do
    agent ←
        get Kind.agent
          (record { namespace = session.meta.namespace; name = session.spec.agent_ref })
        on_error λ e.
            if_not_found e
              (set_phase session phase_error
                ("agent " <> env.quote session.spec.agent_ref <> " not found"))
              (stop (failed e))
    in_reconcile (ensure_namespace session (session_namespace_name session))
    reconcile_isolation session (session_namespace_name session)
    in_reconcile (ensure_rbac session (session_namespace_name session))
    or_fail (update_status Kind.session (activated env (session_namespace_name session) session))
    pure tt

  -- Behind the deletion check.
  settle_session : KubeCopilotSession → Exec env Outcome (Unit {0})
  settle_session session₀ = do session ← ensure_finalizer session₀; prepare session

  handle : Key → Exec env Outcome (Unit {0})
  handle key = do
    session ← get Kind.session key on_error λ e. stop (outcome_of (env.ignore_not_found e))
    if session.meta.deleting then handle_deletion session else settle_session session

  -- `KubeCopilotSessionReconciler.Reconcile`
  unfoldable pub reconcile : Key → World env → Outcome × World env
  unfolding handle handle_deletion settle_session prepare ensure_finalizer await_namespace
      reconcile_isolation remove_network_policy
  reconcile key = run (handle key)
