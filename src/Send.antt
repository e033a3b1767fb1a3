-- ===== src/Send.antt =====
-- internal/controller/kubecopilotsend_controller.go: screening a message and handing it to its agent.
pub mod Payload
pub mod Guard
pub mod Settled
pub mod Branches
pub mod Lifecycle
use kubecopilot_core.Common.{
  String, Bool, not, ◌&&◌, ◌||◌, Option, none, some, ◌==◌, ◌=?◌, if◌then◌else◌, Result, ok, err,
}
use kubecopilot_core.Common.Text.{◌<>◌, decimal}
use kubecopilot_core.Phases.{
  phase_done, phase_error, phase_denied, phase_pending_approval, phase_running,
}
use kubecopilot_core.Api.Meta.{Key}
use kubecopilot_core.Api.Agent.{KubeCopilotAgent}
use kubecopilot_core.Api.Send.{KubeCopilotSend, SessionConfig, ProviderConfig}
use kubecopilot_core.Api.Kinds.{Kind}
use kubecopilot_core.Env.{Env, Codec}
use kubecopilot_core.Env.Exec.{
  Exec, World, Outcome, done, requeue_after, outcome_of, pure, stop, stop_if, when, or_fail,
  attempt, ◌on_error◌, get, request, report, run, ◌>>=◌, ◌>>◌,
}
use kubecopilot_core.Policy.{PolicyDecision, PolicyEvalResult, evaluate_policies}
use Payload.{
  SessionConfigPayload, AsyncChatRequest, AsyncChatResponse, base_payload, base_provider,
  provider_with_secret, payload_with_secret, with_provider, chat_request,
}

-- `send.Status.Phase = phase; send.Status.ErrorMessage = message`
abbrev pub with_message : String → String → KubeCopilotSend → KubeCopilotSend
with_message phase message send = record send {
  status = record send.status { phase = phase; error_message = message };
}

abbrev pub is_terminal : KubeCopilotSend → Bool
is_terminal send =
    send.status.phase == phase_done
    || send.status.phase == phase_error
    || send.status.phase == phase_denied

-- Paused for approval, and not approved since.
abbrev pub is_waiting : KubeCopilotSend → Bool
is_waiting send = send.status.phase == phase_pending_approval && not send.spec.approved

-- `fmt.Sprintf(prefix+"%q rule %q", …)`, and the rule's own message behind it.
abbrev pub verdict_message : (String → String) → String → PolicyEvalResult → String
verdict_message quote prefix r =
    let text = prefix <> quote r.policy_name <> " rule " <> quote r.rule_name in
    if not (r.message == "") then text <> ": " <> r.message else text

abbrev pub chat_url : KubeCopilotSend → KubeCopilotAgent → String
chat_url send agent =
    "http://" <> agent.status.service_name <> "." <> send.meta.namespace
    <> ".svc.cluster.local:8080/asyncchat"

module _ {env : Env} where
  abbrev fail_with : {A : Type 0} → String → KubeCopilotSend → Exec env Outcome A
  fail_with message send = report Kind.send (with_message phase_error message send)

  -- The switch on `evalResult.Decision`.
  screen_as : PolicyDecision → PolicyEvalResult → KubeCopilotSend → Exec env Outcome (Unit {0})
  screen_as PolicyDecision.deny r send =
      report Kind.send
        (with_message phase_denied (verdict_message env.quote "denied by policy " r) send)
  screen_as PolicyDecision.require_approval r send = when (not send.spec.approved) (
      report Kind.send (
        with_message phase_pending_approval
          (verdict_message env.quote "requires approval per policy " r) send))
  screen_as PolicyDecision.allow r send = pure tt

  screen : PolicyEvalResult → KubeCopilotSend → Exec env Outcome (Unit {0})
  screen r send = screen_as r.decision r send

  -- "Resolve provider Secret if referenced"
  resolve_provider :
      KubeCopilotSend
      → ProviderConfig
      → SessionConfigPayload
      → Exec env Outcome SessionConfigPayload
  resolve_provider send provider payload =
      if not (provider.secret_ref == "")
      then (do
        secret ←
            get Kind.secret (record { namespace = send.meta.namespace; name = provider.secret_ref })
            on_error λ e. fail_with ("provider secret not found: " <> e.text) send
        pure (
            with_provider (provider_with_secret secret.content (base_provider provider))
              (payload_with_secret secret.content payload)))
      else pure (with_provider (base_provider provider) payload)

  pub resolve_provider? :
      KubeCopilotSend
      → Option ProviderConfig
      → SessionConfigPayload
      → Exec env Outcome SessionConfigPayload
  resolve_provider? send none payload = pure payload
  resolve_provider? send (some provider) payload = resolve_provider send provider payload

  -- "Forward optional session config"
  unfoldable pub session_config :
      KubeCopilotSend → Option SessionConfig → Exec env Outcome (Option SessionConfigPayload)
  session_config send none = pure none
  session_config send (some sc) = do
    payload ← resolve_provider? send sc.provider (base_payload sc)
    pure (some payload)

  -- From the marshalling to the end: the POST to the agent, and what its answer makes of the send.
  post :
      Codec AsyncChatRequest AsyncChatResponse
      → KubeCopilotSend
      → KubeCopilotAgent
      → Option SessionConfigPayload
      → Exec env Outcome (Unit {0})
  post codec send agent config = do
    body ← or_fail (pure (codec.marshal (chat_request send config)))
    response ←
        request (record { method = "POST"; url = chat_url send agent; body = body; timeout = 15 })
        on_error λ e. fail_with e.text send
    when (not (response.status_code =? 200))
        (fail_with ("agent returned status " <> decimal response.status_code) send)
    decoded ← pure (codec.decode response.body) on_error λ e.
        fail_with ("failed to decode response: " <> e.text) send
    report Kind.send (record send {
      status = record send.status { phase = phase_done; queue_id = decoded.queue_id };
    })

  -- Behind the switch.
  dispatch :
      Codec AsyncChatRequest AsyncChatResponse
      → KubeCopilotSend
      → KubeCopilotAgent
      → Exec env Outcome (Unit {0})
  dispatch codec send agent = do
    config ← session_config send send.spec.session_config
    post codec send agent config

  handle : Codec AsyncChatRequest AsyncChatResponse → Key → Exec env Outcome (Unit {0})
  handle codec key = do
    send ← get Kind.send key on_error λ e. stop (outcome_of (env.ignore_not_found e))
    stop_if (is_terminal send) done
    stop_if (is_waiting send) done
    agent ←
        get Kind.agent (record { namespace = send.meta.namespace; name = send.spec.agent_ref })
        on_error λ e. fail_with ("agent not found: " <> e.text) send
    stop_if (not (agent.status.phase == phase_running)) (requeue_after 10)
    result ←
        attempt (evaluate_policies send.meta.namespace send.spec.agent_ref send.spec.message)
        on_error λ e. fail_with ("policy evaluation failed: " <> e.text) send
    screen result send
    dispatch codec send agent

  -- `KubeCopilotSendReconciler.Reconcile`
  pub reconcile : Codec AsyncChatRequest AsyncChatResponse → Key → World env → Outcome × World env
  unfolding handle screen screen_as dispatch session_config resolve_provider? resolve_provider post
  reconcile codec key = run (handle codec key)
