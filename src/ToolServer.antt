-- ===== src/ToolServer.antt =====
-- internal/controller/kubecopilottoolserver_controller.go: a tool server is declared available.
pub mod Idempotence
use kubecopilot_core.Common.{ℕ, String, not, ◌==◌, if◌then◌else◌}
use kubecopilot_core.Phases.{phase_available}
use kubecopilot_core.Api.Meta.{Key}
use kubecopilot_core.Api.Team.{KubeCopilotToolServer}
use kubecopilot_core.Api.Kinds.{Kind}
use kubecopilot_core.Env.{Env}
use kubecopilot_core.Env.Exec.{
  Exec, World, Outcome, outcome_of, pure, stop, when, or_fail, ◌on_error◌, get, update_status, now,
  run, ◌>>=◌, ◌>>◌,
}

module _ (env : Env) where
  abbrev pub available : ℕ → KubeCopilotToolServer → KubeCopilotToolServer
  available time server = record server {
    status = record server.status {
      phase = phase_available;
      last_checked = time;
      conditions = env.set_condition server.status.conditions (record {
        type = "Ready";
        status = "True";
        reason = "Reconciled";
        message = "Tool server is available";
        observed_generation = server.meta.generation;
      });
    };
  }

  handle : Key → Exec env Outcome (Unit {0})
  handle key = do
    server ← get Kind.tool_server key on_error λ e. stop (outcome_of (env.ignore_not_found e))
    when (not (server.status.phase == phase_available))
        (do time ← now; or_fail (update_status Kind.tool_server (available time server)); pure tt)
    pure tt

  -- `KubeCopilotToolServerReconciler.Reconcile`
  pub reconcile : Key → World env → Outcome × World env
  unfolding handle
  reconcile key = run (handle key)
