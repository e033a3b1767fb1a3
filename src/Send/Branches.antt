-- ===== src/Send/Branches.antt =====
-- What internal/controller/kubecopilotsend_controller.go does in each case, call by call.
use kubecopilot_core.Common.{
  ◌≡◌, refl, String, true, false, Option, List, [], ◌∷◌, ◌==◌, Result, ok, err, arith, ◌||◌, ◌=?◌,
  Bool-cases, inl, inr, ◌∙◌,
}
use kubecopilot_core.Phases.{phase_running}
use kubecopilot_core.Api.Meta.{Key, ApiError}
use kubecopilot_core.Api.Policy.{KubeCopilotPolicy}
use kubecopilot_core.Api.Agent.{KubeCopilotAgent}
use kubecopilot_core.Api.Send.{KubeCopilotSend}
use kubecopilot_core.Api.Kinds.{Kind}
use kubecopilot_core.Env.{Env, Codec, HttpRequest, HttpResponse}
use kubecopilot_core.Env.Exec.{
  Call, done, got, listed, status_updated, requested, outcome, start, run, ◌>>=◌,
}
use kubecopilot_core.Send.Guard.{permitted_as}
use kubecopilot_core.Policy.{PolicyDecision, PolicyEvalResult, evaluate, evaluate_policies}
use kubecopilot_core.Send.{
  screen, screen_as, dispatch, session_config, post, chat_url, is_terminal, is_waiting, reconcile,
}
use kubecopilot_core.Send.Payload.{
  AsyncChatRequest, AsyncChatResponse, SessionConfigPayload, chat_request,
}
use kubecopilot_core.Send.Settled.{blocked, decoded, answered, Settled, Settled-stops}

module _ (env : Env) (codec : Codec AsyncChatRequest AsyncChatResponse) (key : Key)
    (s s₁ : env.State) (send : KubeCopilotSend)
    (got_send : env.get Kind.send key s ≡ (ok send, s₁)) where
  -- Where the send is terminal or waits for approval, the run ends after its read.
  pub reconcile-settled :
      (is_terminal send || is_waiting send) ≡ true
      → reconcile {env = env} codec key (start s)
        ≡ (done, record { state = s₁; calls = got Kind.send key (ok send) ∷ [] })
  unfolding reconcile run
  reconcile-settled h = elim (Bool-cases (is_terminal send)) [
    | inl t ↦ simp (got_send, t)
    | inr nt ↦ simp (got_send, nt, (let w : is_waiting send ≡ true = ground arith in w))
  ]

  module _ (s₂ s₃ s₄ : env.State) (agent : KubeCopilotAgent) (policies : List KubeCopilotPolicy)
      (open_send : is_terminal send ≡ false) (not_waiting : is_waiting send ≡ false)
      (got_agent : env.get Kind.agent
          (record { namespace = send.meta.namespace; name = send.spec.agent_ref })
          s₁
        ≡ (ok agent, s₂))
      (running : (agent.status.phase == phase_running) ≡ true)
      (listed_policies : env.list Kind.policy send.meta.namespace s₂ ≡ (ok policies, s₃)) where
    abbrev pub verdict : PolicyEvalResult
    verdict = evaluate env.lower_table policies send.spec.agent_ref send.spec.message

    abbrev pub reads : List Call
    reads =
        listed Kind.policy send.meta.namespace (ok policies)
        ∷ got Kind.agent (record { namespace = send.meta.namespace; name = send.spec.agent_ref })
            (ok agent)
        ∷ got Kind.send key (ok send)
        ∷ []

    -- With open ways, a run comes to the switch.
    reconcile-reads :
        reconcile {env = env} codec key (start s)
        ≡ run {env = env}
            (screen verdict send >>= λ _. dispatch codec send agent)
            (record { state = s₃; calls = reads })
    unfolding reconcile run evaluate_policies
    reconcile-reads = simp (got_send, open_send, not_waiting, got_agent, running, listed_policies)

    screen-blocked :
        (d : PolicyDecision) (r : Result ApiError KubeCopilotSend)
        → permitted_as d send ≡ false
        → env.update_status Kind.send (blocked env.quote d verdict send) s₃ ≡ (r, s₄)
        → run {env = env}
            (screen_as d verdict send >>= λ _. dispatch codec send agent)
            (record { state = s₃; calls = reads })
          ≡ (
            outcome r,
            record {
              state = s₄;
              calls = status_updated Kind.send (blocked env.quote d verdict send) r ∷ reads;
            },
          )
    unfolding screen_as run
    screen-blocked PolicyDecision.deny r stopped written = simp written
    screen-blocked PolicyDecision.require_approval r stopped written = simp (stopped, written)
    screen-blocked PolicyDecision.allow r stopped written = cc

    -- Where the send is open, its agent runs, the policies were listed and the verdict does not
    -- permit the send, the run makes no request: it writes Denied, or PendingApproval for an
    -- approval that is missing, with the names of the policy and the rule and the rule's message,
    -- and its outcome is the error of that write, if any.
    pub reconcile-blocked :
        (r : Result ApiError KubeCopilotSend)
        → permitted_as verdict.decision send ≡ false
        → env.update_status Kind.send (blocked env.quote verdict.decision verdict send) s₃ ≡ (r, s₄)
        → reconcile {env = env} codec key (start s) ≡ (
          outcome r,
          record {
            state = s₄;
            calls =
                status_updated Kind.send (blocked env.quote verdict.decision verdict send) r
                ∷ reads;
          },
        )
    unfolding screen
    reconcile-blocked r stopped written =
        reconcile-reads ∙ screen-blocked verdict.decision r stopped written

    module _ (config : Option SessionConfigPayload) (body : String) (s₅ s₆ : env.State)
        (calls : List Call)
        (configured : session_config {env = env} send send.spec.session_config
            (record { state = s₃; calls = reads })
          ≡ (ok config, record { state = s₄; calls = calls }))
        (marshalled : codec.marshal (chat_request send config) ≡ ok body) where
      abbrev pub chat : HttpRequest
      chat = record { method = "POST"; url = chat_url send agent; body = body; timeout = 15 }

      abbrev Posted :
          Result ApiError HttpResponse → KubeCopilotSend → Result ApiError KubeCopilotSend → Type 0
      Posted answer o r =
          run {env = env} (post codec send agent config) (record { state = s₄; calls = calls }) ≡ (
            outcome r,
            record {
              state = s₆;
              calls = status_updated Kind.send o r ∷ requested chat answer ∷ calls;
            },
          )

      post-ok :
          (response : HttpResponse) (d : Result ApiError AsyncChatResponse)
          (r : Result ApiError KubeCopilotSend)
          → env.http chat s₄ ≡ (ok response, s₅)
          → (response.status_code =? 200) ≡ true
          → codec.decode response.body ≡ d
          → env.update_status Kind.send (decoded send d) s₅ ≡ (r, s₆)
          → Posted (ok response) (decoded send d) r
      unfolding post run
      post-ok response (ok d) r sent good parsed written =
          simp (marshalled, sent, good, parsed, written)
      post-ok response (err e) r sent good parsed written =
          simp (marshalled, sent, good, parsed, written)

      post-answered :
          (answer : Result ApiError HttpResponse) (r : Result ApiError KubeCopilotSend)
          → env.http chat s₄ ≡ (answer, s₅)
          → env.update_status Kind.send (answered codec send answer) s₅ ≡ (r, s₆)
          → Posted answer (answered codec send answer) r
      unfolding post run
      post-answered (err e) r sent written = simp (marshalled, sent, written)
      post-answered (ok response) r sent written = elim (Bool-cases (response.status_code =? 200)) [
        | inl good ↦
            rw good
              (post-ok response (codec.decode response.body) r sent good refl (rw good at written))
        | inr bad ↦ simp (marshalled, sent, bad, (rw bad at written))
      ]

      dispatch-permitted :
          (d : PolicyDecision)
          → permitted_as d send ≡ true
          → run {env = env}
              (screen_as d verdict send >>= λ _. dispatch codec send agent)
              (record { state = s₃; calls = reads })
            ≡ run {env = env} (post codec send agent config) (record { state = s₄; calls = calls })
      unfolding screen_as dispatch run
      dispatch-permitted PolicyDecision.deny p = cc
      dispatch-permitted PolicyDecision.require_approval p = simp (p, configured)
      dispatch-permitted PolicyDecision.allow p = simp configured

      -- Where the send is open, its agent runs, the policies were listed, the verdict permits the
      -- send, its session config was resolved and the request body marshalled, the run posts the
      -- body once to the agent and then writes the status that fits the answer: Error with the text
      -- of a failed call, of another status than 200 or of an undecodable body, and else Done with
      -- the queue id. Its outcome is the error of that write, if any.
      pub reconcile-permitted :
          (answer : Result ApiError HttpResponse) (r : Result ApiError KubeCopilotSend)
          → permitted_as verdict.decision send ≡ true
          → env.http chat s₄ ≡ (answer, s₅)
          → env.update_status Kind.send (answered codec send answer) s₅ ≡ (r, s₆)
          → reconcile {env = env} codec key (start s) ≡ (
            outcome r,
            record {
              state = s₆;
              calls =
                  status_updated Kind.send (answered codec send answer) r
                  ∷ requested chat answer
                  ∷ calls;
            },
          )
      unfolding screen
      reconcile-permitted answer r permitted sent written =
          reconcile-reads
          ∙ (dispatch-permitted verdict.decision permitted ∙ post-answered answer r sent written)

-- If the send that a run reads is one that was stopped by a decision that did not permit it, or one
-- on which an answer of the agent was recorded, then the run ends after that read, with no request
-- and no write.
pub reconcile-rests :
    (env : Env) (codec : Codec AsyncChatRequest AsyncChatResponse) (key : Key) (s s₁ : env.State)
    (o : KubeCopilotSend)
    → Settled env codec o
    → env.get Kind.send key s ≡ (ok o, s₁)
    → reconcile {env = env} codec key (start s)
      ≡ (done, record { state = s₁; calls = got Kind.send key (ok o) ∷ [] })
reconcile-rests env codec key s s₁ o settled read =
    reconcile-settled env codec key s s₁ o read (Settled-stops env codec o settled)
