-- ===== src/Cancel.antt =====
-- internal/controller/kubecopilotcancel_controller.go: asking an agent to drop a queued request.
pub mod Guard
pub mod Branches
pub mod Stuck
use kubecopilot_core.Common.{String, Bool, not, ◌&&◌, ◌||◌, ◌==◌, ◌=?◌}
use kubecopilot_core.Common.Text.{◌<>◌, decimal}
use kubecopilot_core.Phases.{phase_cancelled, phase_error}
use kubecopilot_core.Api.Meta.{Key}
use kubecopilot_core.Api.Agent.{KubeCopilotAgent}
use kubecopilot_core.Api.Exchange.{KubeCopilotCancel}
use kubecopilot_core.Api.Kinds.{Kind}
use kubecopilot_core.Env.{Env, HttpRequest}
use kubecopilot_core.Env.Exec.{
  Exec, World, Outcome, done, requeue_after, outcome_of, stop, stop_if, when, ◌on_error◌, get,
  request, report, run, ◌>>=◌, ◌>>◌,
}

abbrev pub is_terminal : KubeCopilotCancel → Bool
is_terminal cancel = cancel.status.phase == phase_cancelled || cancel.status.phase == phase_error

abbrev pub with_phase : String → KubeCopilotCancel → KubeCopilotCancel
with_phase phase cancel = record cancel { status = record cancel.status { phase = phase } }

abbrev pub with_error : String → KubeCopilotCancel → KubeCopilotCancel
with_error message cancel = record cancel {
  status = record { phase = phase_error; error_message = message };
}

-- `http.NewRequestWithContext` with this method and no body; its error for a malformed URL is one
-- of the errors that sending the request answers here, and the code treats both alike.
abbrev pub cancel_request : KubeCopilotCancel → KubeCopilotAgent → String → HttpRequest
cancel_request cancel agent queue_id = record {
  method = "DELETE";
  url =
      "http://" <> agent.status.service_name <> "." <> cancel.meta.namespace
      <> ".svc.cluster.local:8080/cancel/" <> queue_id;
  body = "";
  timeout = 10;
}

module _ {env : Env} where
  handle : Key → Exec env Outcome (Unit {0})
  handle key = do
    cancel ← get Kind.cancel key on_error λ e. stop (outcome_of (env.ignore_not_found e))
    stop_if (is_terminal cancel) done
    send ←
        get Kind.send (record { namespace = cancel.meta.namespace; name = cancel.spec.send_ref })
        on_error λ e. report Kind.cancel (with_error ("send not found: " <> e.text) cancel)
    stop_if (send.status.queue_id == "") (requeue_after 2)
    agent ←
        get Kind.agent (record { namespace = cancel.meta.namespace; name = cancel.spec.agent_ref })
        on_error λ e. report Kind.cancel (with_error ("agent not found: " <> e.text) cancel)
    response ← request (cancel_request cancel agent send.status.queue_id) on_error λ e.
        report Kind.cancel (with_error e.text cancel)
    when
        (not (response.status_code =? 200)
          && not (response.status_code =? 204)
          && not (response.status_code =? 404))
        (report Kind.cancel
          (with_error ("agent returned status " <> decimal response.status_code) cancel))
    report Kind.cancel (with_phase phase_cancelled cancel)

  -- `KubeCopilotCancelReconciler.Reconcile`
  pub reconcile : Key → World env → Outcome × World env
  unfolding handle
  reconcile key = run (handle key)
