-- ===== src/Cancel/Guard.antt =====
-- Which requests internal/controller/kubecopilotcancel_controller.go sends, and what it writes.
use kubecopilot_core.Common.{◌≡◌, true, false, List, [], ◌∷◌, ◌==◌, ok}
use kubecopilot_core.Api.Meta.{Key}
use kubecopilot_core.Api.Agent.{KubeCopilotAgent}
use kubecopilot_core.Api.Send.{KubeCopilotSend}
use kubecopilot_core.Api.Exchange.{KubeCopilotCancel}
use kubecopilot_core.Api.Kinds.{Kind}
use kubecopilot_core.Env.{Env, HttpRequest}
use kubecopilot_core.Env.Exec.{Call, got, requested, status_updated, start}
use kubecopilot_core.Env.Ensures.{
  ensures_rules, Ensures-call-error, Ensures-when-bind, run-Ensures, Ensures,
}
use kubecopilot_core.Cancel.{is_terminal, cancel_request, handle, reconcile}

-- The request drops the queue entry of the send that the cancel names, from the agent that it names.
abbrev pub Names : HttpRequest → KubeCopilotCancel → KubeCopilotSend → KubeCopilotAgent → Type 0
Names r cancel send agent =
    (is_terminal cancel ≡ false)
    × ((send.status.queue_id == "") ≡ false)
    × (r ≡ cancel_request cancel agent send.status.queue_id)

abbrev pub send_key : KubeCopilotCancel → Key
send_key cancel = record { namespace = cancel.meta.namespace; name = cancel.spec.send_ref }

abbrev pub agent_key : KubeCopilotCancel → Key
agent_key cancel = record { namespace = cancel.meta.namespace; name = cancel.spec.agent_ref }

-- The three calls behind a request read the cancel, its send and its agent, by their keys.
abbrev pub Authorised : Key → HttpRequest → List Call → Type 0
Authorised key r
      (got Kind.agent k₂ (ok agent)
        ∷ got Kind.send k₁ (ok send)
        ∷ got Kind.cancel k (ok cancel)
        ∷ []) =
    Names r cancel send agent × (k ≡ key) × (k₁ ≡ send_key cancel) × (k₂ ≡ agent_key cancel)
Authorised key r _ = ⊥

-- Every request of the log is authorised by the calls before it, and every status that is written
-- is terminal.
abbrev pub Aimed : Key → List Call → Type 0
Aimed key [] = Unit
Aimed key (requested r a ∷ calls) = Authorised key r calls × Aimed key calls
Aimed key (status_updated Kind.cancel o r ∷ calls) = (is_terminal o ≡ true) × Aimed key calls
Aimed key (_ ∷ calls) = Aimed key calls

module _ {env : Env} where
  handle-Aimed :
      (key : Key) (s : env.State)
      → Ensures (λ r w. Aimed key w.calls) (handle key) (start {env = env} s)
  unfolding handle
  handle-Aimed key s =
      Ensures-call-error _ _ _ _ _
        (λ cancel s₁.
          Ensures-when-bind _ _ _ _ (λ _. search ensures_rules)
            λ open_cancel.
              Ensures-call-error _ _ _ _ _
                (λ send s₂.
                  Ensures-when-bind _ _ _ _ (λ _. search ensures_rules)
                    λ queued. search (ensures_rules, open_cancel, queued) depth 20)
                (λ e s. search ensures_rules depth 20))
        (λ e s. search ensures_rules)

-- In a run of the cancel controller from an empty log, whatever the environment answers, every HTTP
-- request of the log comes right behind the reads of the cancel, which is not terminal, of its
-- send, which has a queue id, and of its agent, by their keys, and is the request to drop that
-- queue id from that agent; and every status that is written is terminal.
pub reconcile-Aimed :
    (env : Env) (key : Key) (s : env.State)
    → Aimed key (reconcile {env = env} key (start s)).1.calls
unfolding reconcile
reconcile-Aimed env key s =
    run-Ensures (λ o w. Aimed key w.calls) (handle key) (start s) (handle-Aimed key s)
