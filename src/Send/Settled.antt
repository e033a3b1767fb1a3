-- ===== src/Send/Settled.antt =====
-- The statuses that end a run of internal/controller/kubecopilotsend_controller.go for good.
use kubecopilot_core.Common.{
  ◌≡◌, refl, String, true, false, Result, ok, err, ◌||◌, ◌=?◌, if◌then◌else◌, Bool-cases, inl, inr,
}
use kubecopilot_core.Api.Meta.{ApiError}
use kubecopilot_core.Api.Send.{KubeCopilotSend}
use kubecopilot_core.Common.Text.{◌<>◌, decimal}
use kubecopilot_core.Env.{Env, Codec, HttpResponse}
use kubecopilot_core.Send.Guard.{permitted_as}
use kubecopilot_core.Policy.{PolicyDecision, PolicyEvalResult}
use kubecopilot_core.Send.{is_terminal, is_waiting, verdict_message}
use kubecopilot_core.Send.Payload.{AsyncChatRequest, AsyncChatResponse}

-- The send in this phase, with the reason; nothing else of it is changed.
abbrev pub ended : String → String → KubeCopilotSend → KubeCopilotSend
ended phase reason send = record send {
  status = record send.status { phase = phase; error_message = reason };
}

-- The status that the switch on the decision writes when it stops a send.
abbrev pub blocked :
    (String → String) → PolicyDecision → PolicyEvalResult → KubeCopilotSend → KubeCopilotSend
blocked quote PolicyDecision.deny r send =
    ended "Denied" (verdict_message quote "denied by policy " r) send
blocked quote PolicyDecision.require_approval r send =
    ended "PendingApproval" (verdict_message quote "requires approval per policy " r) send
blocked quote PolicyDecision.allow r send = send

-- The send that is written behind the POST, for each answer of the agent.
abbrev pub decoded : KubeCopilotSend → Result ApiError AsyncChatResponse → KubeCopilotSend
decoded send (err e) = ended "Error" ("failed to decode response: " <> e.text) send
decoded send (ok answer) = record send {
  status = record send.status { phase = "Done"; queue_id = answer.queue_id };
}

abbrev pub answered :
    Codec AsyncChatRequest AsyncChatResponse
    → KubeCopilotSend
    → Result ApiError HttpResponse
    → KubeCopilotSend
answered codec send (err e) = ended "Error" e.text send
answered codec send (ok response) =
    if response.status_code =? 200
    then decoded send (codec.decode response.body)
    else ended "Error" ("agent returned status " <> decimal response.status_code) send

-- What a run leaves behind when it has stopped a send, or has handed it on.
pub data Settled (env : Env) (codec : Codec AsyncChatRequest AsyncChatResponse)
    : KubeCopilotSend → Type 0 where
  by_answer :
      (send : KubeCopilotSend) (answer : Result ApiError HttpResponse)
      → Settled env codec (answered codec send answer)
  by_policy :
      (send : KubeCopilotSend) (d : PolicyDecision) (r : PolicyEvalResult)
      → permitted_as d send ≡ false
      → Settled env codec (blocked env.quote d r send)

decoded-terminal :
    (send : KubeCopilotSend) (d : Result ApiError AsyncChatResponse)
    → is_terminal (decoded send d) ≡ true
decoded-terminal send (ok d) = refl
decoded-terminal send (err e) = refl

answered-terminal :
    (codec : Codec AsyncChatRequest AsyncChatResponse) (send : KubeCopilotSend)
    (answer : Result ApiError HttpResponse)
    → is_terminal (answered codec send answer) ≡ true
answered-terminal codec send (err e) = refl
answered-terminal codec send (ok response) = elim (Bool-cases (response.status_code =? 200)) [
  | inl good ↦ rw good (decoded-terminal send (codec.decode response.body))
  | inr bad ↦ rw bad refl
]

blocked-settles :
    (quote : String → String) (d : PolicyDecision) (r : PolicyEvalResult) (send : KubeCopilotSend)
    → permitted_as d send ≡ false
    → (is_terminal (blocked quote d r send) || is_waiting (blocked quote d r send)) ≡ true
blocked-settles quote PolicyDecision.deny r send stopped = refl
blocked-settles quote PolicyDecision.require_approval r send stopped = rw stopped refl
blocked-settles quote PolicyDecision.allow r send stopped = cc

pub Settled-stops :
    (env : Env) (codec : Codec AsyncChatRequest AsyncChatResponse) (o : KubeCopilotSend)
    → Settled env codec o
    → (is_terminal o || is_waiting o) ≡ true
Settled-stops env codec _ (by_answer send answer) = rw (answered-terminal codec send answer) refl
Settled-stops env codec _ (by_policy send d r stopped) = blocked-settles env.quote d r send stopped
