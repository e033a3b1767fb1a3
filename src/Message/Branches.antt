-- ===== src/Message/Branches.antt =====
-- What internal/controller/kubecopilotmessage_controller.go does in each case, call by call.
use kubecopilot_core.Common.{
  ◌≡◌, refl, String, true, false, List, [], ◌∷◌, ◌==◌, ◌=?◌, Result, ok, err, if◌then◌else◌,
  Bool-cases, inl, inr,
}
use kubecopilot_core.Common.Text.{◌<>◌, decimal}
use kubecopilot_core.Phases.{phase_running}
use kubecopilot_core.Api.Meta.{Key, ApiError}
use kubecopilot_core.Api.Agent.{KubeCopilotAgent}
use kubecopilot_core.Api.Exchange.{KubeCopilotMessage}
use kubecopilot_core.Api.Kinds.{Kind}
use kubecopilot_core.Env.{Env, Codec, HttpRequest, HttpResponse}
use kubecopilot_core.Env.Exec.{
  Call, requeue_after, got, requested, status_updated, outcome, start, run,
}
use kubecopilot_core.Message.{ChatRequest, ChatResponse, is_terminal, chat_url, reconcile}
use kubecopilot_core.Message.Guard.{agent_key, chat_request}

-- The message in phase Error, with the reason.
abbrev pub failed : String → KubeCopilotMessage → KubeCopilotMessage
failed reason cmd = record cmd {
  status = record cmd.status { phase = "Error"; error_message = reason };
}

abbrev pub decoded : KubeCopilotMessage → Result ApiError ChatResponse → KubeCopilotMessage
decoded cmd (err e) = failed ("failed to decode response: " <> e.text) cmd
decoded cmd (ok answer) = record cmd {
  status = record cmd.status {
    phase = "Done";
    response = answer.response;
    session_id = answer.session_id;
  };
}

-- The message that is written behind the POST, for each answer of the agent.
abbrev pub answered :
    Codec ChatRequest ChatResponse
    → KubeCopilotMessage
    → Result ApiError HttpResponse
    → KubeCopilotMessage
answered codec cmd (err e) = failed e.text cmd
answered codec cmd (ok response) =
    if response.status_code =? 200
    then decoded cmd (codec.decode response.body)
    else failed ("agent returned status " <> decimal response.status_code) cmd

module _ (env : Env) (codec : Codec ChatRequest ChatResponse) (key : Key) (s s₁ s₂ : env.State)
    (cmd : KubeCopilotMessage) (agent : KubeCopilotAgent)
    (got_message : env.get Kind.message key s ≡ (ok cmd, s₁))
    (open_message : is_terminal cmd ≡ false)
    (got_agent : env.get Kind.agent (agent_key cmd) s₁ ≡ (ok agent, s₂)) where
  abbrev pub reads : List Call
  reads = got Kind.agent (agent_key cmd) (ok agent) ∷ got Kind.message key (ok cmd) ∷ []

  -- Where the agent does not run, the run asks to be called again after 10 seconds.
  pub reconcile-waiting :
      (agent.status.phase == phase_running) ≡ false
      → reconcile {env = env} codec key (start s)
        ≡ (requeue_after 10, record { state = s₂; calls = reads })
  unfolding reconcile run
  reconcile-waiting idle = simp (got_message, open_message, got_agent, idle)

  module _ (s₃ s₄ : env.State) (body : String)
      (running : (agent.status.phase == phase_running) ≡ true)
      (marshalled : codec.marshal (chat_request cmd) ≡ ok body) where
    abbrev pub chat : HttpRequest
    chat = record { method = "POST"; url = chat_url cmd agent; body = body; timeout = 120 }

    abbrev Answered :
        Result ApiError HttpResponse
        → KubeCopilotMessage
        → Result ApiError KubeCopilotMessage
        → Type 0
    Answered answer o r = reconcile {env = env} codec key (start s) ≡ (
      outcome r,
      record {
        state = s₄;
        calls = status_updated Kind.message o r ∷ requested chat answer ∷ reads;
      },
    )

    Answered-ok :
        (response : HttpResponse) (d : Result ApiError ChatResponse)
        (r : Result ApiError KubeCopilotMessage)
        → env.http chat s₂ ≡ (ok response, s₃)
        → (response.status_code =? 200) ≡ true
        → codec.decode response.body ≡ d
        → env.update_status Kind.message (decoded cmd d) s₃ ≡ (r, s₄)
        → Answered (ok response) (decoded cmd d) r
    unfolding reconcile run
    Answered-ok response (ok d) r sent good parsed written =
        simp
          (got_message, open_message, got_agent, running, marshalled, sent, good, parsed, written)
    Answered-ok response (err e) r sent good parsed written =
        simp
          (got_message, open_message, got_agent, running, marshalled, sent, good, parsed, written)

    -- Where the message is open, its agent runs and the body was marshalled, the run posts it once
    -- and then writes Error with the reason for a failed call, another status than 200 or an
    -- undecodable body, and else Done with the response and the session id, in nothing but the
    -- status. Its outcome is the error of that write, if any.
    pub reconcile-answered :
        (answer : Result ApiError HttpResponse) (r : Result ApiError KubeCopilotMessage)
        → env.http chat s₂ ≡ (answer, s₃)
        → env.update_status Kind.message (answered codec cmd answer) s₃ ≡ (r, s₄)
        → Answered answer (answered codec cmd answer) r
    unfolding reconcile run
    reconcile-answered (err e) r sent written =
        simp (got_message, open_message, got_agent, running, marshalled, sent, written)
    reconcile-answered (ok response) r sent written =
        elim (Bool-cases (response.status_code =? 200)) [
          | inl good ↦ rw good (
              Answered-ok response (codec.decode response.body) r sent good refl
                (rw good at written))
          | inr bad ↦ simp (
            got_message,
            open_message,
            got_agent,
            running,
            marshalled,
            sent,
            bad,
            (rw bad at written),
          )
        ]
