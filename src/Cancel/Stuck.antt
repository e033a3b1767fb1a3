-- ===== src/Cancel/Stuck.antt =====
-- What internal/controller/kubecopilotcancel_controller.go does with the cancel of a send that
-- internal/controller/kubecopilotsend_controller.go has finished with before it was queued.
use kubecopilot_core.Common.{◌≡◌, ap, ◌∙◌, true, false, [], ◌∷◌, ◌==◌, ok}
use kubecopilot_core.Api.Meta.{Key}
use kubecopilot_core.Api.Send.{KubeCopilotSend, KubeCopilotSendStatus}
use kubecopilot_core.Api.Exchange.{KubeCopilotCancel}
use kubecopilot_core.Api.Kinds.{Kind}
use kubecopilot_core.Env.{Env, Codec}
use kubecopilot_core.Env.Exec.{got, requeue_after, start}
use kubecopilot_core.Send
use kubecopilot_core.Send.Payload.{AsyncChatRequest, AsyncChatResponse}
use kubecopilot_core.Send.Lifecycle.History.{History, History-absorbed}
use kubecopilot_core.Cancel.{is_terminal, reconcile}
use kubecopilot_core.Cancel.Guard.{send_key}
use kubecopilot_core.Cancel.Branches.{reconcile-unqueued}

-- From a send that is Done, in Error or Denied without a queue id, over any history of runs of the
-- send controller and of approvals: a run of the cancel controller that reads an open cancel and
-- then that send makes no other call and asks to be called again after 2 seconds.
pub reconcile-stuck :
    (env : Env) (codec : Codec AsyncChatRequest AsyncChatResponse) (key : Key)
    (first send : KubeCopilotSend) (cancel : KubeCopilotCancel) (s s₁ s₂ : env.State)
    → Send.is_terminal first ≡ true
    → (first.status.queue_id == "") ≡ true
    → History env codec (send_key cancel) first send
    → (got_cancel : env.get Kind.cancel key s ≡ (ok cancel, s₁))
    → (open_cancel : is_terminal cancel ≡ false)
    → (got_send : env.get Kind.send (send_key cancel) s₁ ≡ (ok send, s₂))
    → reconcile {env = env} key (start s) ≡ (
      requeue_after 2,
      record {
        state = s₂;
        calls = got Kind.send (send_key cancel) (ok send) ∷ got Kind.cancel key (ok cancel) ∷ [];
      },
    )
reconcile-stuck env codec key first send cancel s s₁ s₂ finished unqueued history got_cancel
      open_cancel got_send =
    let stays = History-absorbed env codec (send_key cancel) finished history in
    reconcile-unqueued env key s s₁ s₂ cancel send got_cancel open_cancel got_send
      (ap (λ (st : KubeCopilotSendStatus). st.queue_id == "") stays.0 ∙ unqueued)
