-- ===== src/Message.antt =====
-- internal/controller/kubecopilotmessage_controller.go: a message that waits for its answer.
pub mod Guard
pub mod Branches
use kubecopilot_core.Common.{String, Bool, not, ◌||◌, ◌==◌, ◌=?◌}
use kubecopilot_core.Common.Text.{◌<>◌, decimal}
use kubecopilot_core.Phases.{phase_done, phase_error, phase_running}
use kubecopilot_core.Api.Meta.{Key}
use kubecopilot_core.Api.Agent.{KubeCopilotAgent}
use kubecopilot_core.Api.Exchange.{KubeCopilotMessage}
use kubecopilot_core.Api.Kinds.{Kind}
use kubecopilot_core.Env.{Env, Codec}
use kubecopilot_core.Env.Exec.{
  Exec, World, Outcome, done, requeue_after, outcome_of, pure, stop, stop_if, when, or_fail,
  ◌on_error◌, get, request, report, run, ◌>>=◌, ◌>>◌,
}

pub record ChatRequest : Type 0 where
  pub message : String
  pub session_id : String

pub record ChatResponse : Type 0 where
  pub response : String
  pub session_id : String

abbrev pub is_terminal : KubeCopilotMessage → Bool
is_terminal cmd = cmd.status.phase == phase_done || cmd.status.phase == phase_error

abbrev pub with_error : String → KubeCopilotMessage → KubeCopilotMessage
with_error message cmd = record cmd {
  status = record cmd.status { phase = phase_error; error_message = message };
}

abbrev pub with_answer : ChatResponse → KubeCopilotMessage → KubeCopilotMessage
with_answer answer cmd = record cmd {
  status = record cmd.status {
    phase = phase_done;
    response = answer.response;
    session_id = answer.session_id;
  };
}

abbrev pub chat_url : KubeCopilotMessage → KubeCopilotAgent → String
chat_url cmd agent =
    "http://" <> agent.status.service_name <> "." <> cmd.meta.namespace
    <> ".svc.cluster.local:8080/chat"

module _ {env : Env} where
  handle : Codec ChatRequest ChatResponse → Key → Exec env Outcome (Unit {0})
  handle codec key = do
    cmd ← get Kind.message key on_error λ e. stop (outcome_of (env.ignore_not_found e))
    stop_if (is_terminal cmd) done
    agent ←
        get Kind.agent (record { namespace = cmd.meta.namespace; name = cmd.spec.agent_ref })
        on_error λ e. report Kind.message (with_error ("agent not found: " <> e.text) cmd)
    stop_if (not (agent.status.phase == phase_running)) (requeue_after 10)
    body ← or_fail (
        pure
          (codec.marshal (record { message = cmd.spec.message; session_id = cmd.spec.session_id })))
    response ←
        request (record { method = "POST"; url = chat_url cmd agent; body = body; timeout = 120 })
        on_error λ e. report Kind.message (with_error e.text cmd)
    when (not (response.status_code =? 200)) (
        report Kind.message
          (with_error ("agent returned status " <> decimal response.status_code) cmd))
    answer ← pure (codec.decode response.body) on_error λ e.
        report Kind.message (with_error ("failed to decode response: " <> e.text) cmd)
    report Kind.message (with_answer answer cmd)

  -- `KubeCopilotMessageReconciler.Reconcile`
  pub reconcile : Codec ChatRequest ChatResponse → Key → World env → Outcome × World env
  unfolding handle
  reconcile codec key = run (handle codec key)
