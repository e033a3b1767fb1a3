-- ===== src/Cancel/Branches.antt =====
-- What internal/controller/kubecopilotcancel_controller.go does in each case, call by call.
use kubecopilot_core.Common.{
  ℕ, ◌≡◌, arith, Bool, true, false, not, List, [], ◌∷◌, ◌==◌, ◌=?◌, ◌&&◌, ◌||◌, Result, ok, err,
  if◌then◌else◌, Bool-cases, inl, inr,
}
use kubecopilot_core.Common.Text.{◌<>◌, decimal}
use kubecopilot_core.Api.Meta.{Key, ApiError}
use kubecopilot_core.Api.Agent.{KubeCopilotAgent}
use kubecopilot_core.Api.Send.{KubeCopilotSend}
use kubecopilot_core.Api.Exchange.{KubeCopilotCancel}
use kubecopilot_core.Api.Kinds.{Kind}
use kubecopilot_core.Env.{Env, HttpResponse}
use kubecopilot_core.Env.Exec.{
  Call, requeue_after, got, requested, status_updated, outcome, start, run,
}
use kubecopilot_core.Cancel.{is_terminal, cancel_request, reconcile}
use kubecopilot_core.Cancel.Guard.{send_key, agent_key}

-- 404 counts as cancelled: the agent no longer knows the request.
abbrev pub is_dropped : ℕ → Bool
is_dropped status = status =? 200 || status =? 204 || status =? 404

not_dropped :
    (status : ℕ)
    → (not (status =? 200) && not (status =? 204) && not (status =? 404)) ≡ not (is_dropped status)
not_dropped status = ground arith

-- The cancel that is written behind the request, for each answer of the agent.
abbrev pub answered : KubeCopilotCancel → Result ApiError HttpResponse → KubeCopilotCancel
answered cancel (err e) = record cancel {
  status = record { phase = "Error"; error_message = e.text };
}
answered cancel (ok response) =
    if is_dropped response.status_code
    then record cancel { status = record cancel.status { phase = "Cancelled" } }
    else record cancel {
      status = record {
        phase = "Error";
        error_message = "agent returned status " <> decimal response.status_code;
      };
    }

module _ (env : Env) (key : Key) (s s₁ s₂ : env.State) (cancel : KubeCopilotCancel)
    (send : KubeCopilotSend) (got_cancel : env.get Kind.cancel key s ≡ (ok cancel, s₁))
    (open_cancel : is_terminal cancel ≡ false)
    (got_send : env.get Kind.send (send_key cancel) s₁ ≡ (ok send, s₂)) where
  abbrev pub reads : List Call
  reads = got Kind.send (send_key cancel) (ok send) ∷ got Kind.cancel key (ok cancel) ∷ []

  -- Where the send has no queue id, the run asks to be called again after 2 seconds.
  pub reconcile-unqueued :
      (send.status.queue_id == "") ≡ true
      → reconcile {env = env} key (start s)
        ≡ (requeue_after 2, record { state = s₂; calls = reads })
  unfolding reconcile run
  reconcile-unqueued unqueued = simp (got_cancel, open_cancel, got_send, unqueued)

  module _ (s₃ s₄ s₅ : env.State) (agent : KubeCopilotAgent)
      (queued : (send.status.queue_id == "") ≡ false)
      (got_agent : env.get Kind.agent (agent_key cancel) s₂ ≡ (ok agent, s₃)) where
    -- Where the cancel is open, its send has a queue id and its agent was read, the run makes one
    -- request and then writes Cancelled for an answer of status 200, 204 or 404, and Error with the
    -- reason for another status or a failed request, in nothing but the status. Its outcome is the
    -- error of that write, if any.
    pub reconcile-dropped :
        (answer : Result ApiError HttpResponse) (r : Result ApiError KubeCopilotCancel)
        → env.http (cancel_request cancel agent send.status.queue_id) s₃ ≡ (answer, s₄)
        → env.update_status Kind.cancel (answered cancel answer) s₄ ≡ (r, s₅)
        → reconcile {env = env} key (start s) ≡ (
          outcome r,
          record {
            state = s₅;
            calls =
                status_updated Kind.cancel (answered cancel answer) r
                ∷ requested (cancel_request cancel agent send.status.queue_id) answer
                ∷ got Kind.agent (agent_key cancel) (ok agent)
                ∷ reads;
          },
        )
    unfolding reconcile run
    reconcile-dropped (err e) r sent written =
        simp (got_cancel, open_cancel, got_send, queued, got_agent, sent, written)
    reconcile-dropped (ok response) r sent written =
        elim (Bool-cases (is_dropped response.status_code)) [
          | inl good ↦ simp (
            got_cancel,
            open_cancel,
            got_send,
            queued,
            got_agent,
            sent,
            not_dropped response.status_code,
            good,
            (rw good at written),
          )
          | inr bad ↦ simp (
            got_cancel,
            open_cancel,
            got_send,
            queued,
            got_agent,
            sent,
            not_dropped response.status_code,
            bad,
            (rw bad at written),
          )
        ]
