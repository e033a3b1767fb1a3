-- ===== src/Message/Guard.antt =====
-- Which requests internal/controller/kubecopilotmessage_controller.go sends, and what it writes.
use kubecopilot_core.Common.{◌≡◌, true, false, List, [], ◌∷◌, ◌==◌, not, ok}
use kubecopilot_core.Phases.{phase_running}
use kubecopilot_core.Api.Meta.{Key}
use kubecopilot_core.Api.Agent.{KubeCopilotAgent}
use kubecopilot_core.Api.Exchange.{KubeCopilotMessage}
use kubecopilot_core.Api.Kinds.{Kind}
use kubecopilot_core.Env.{Env, Codec, HttpRequest}
use kubecopilot_core.Env.Exec.{Call, got, requested, status_updated, start}
use kubecopilot_core.Env.Ensures.{
  ensures_rules, Ensures-call-error, Ensures-when-bind, Ensures-pure-error, run-Ensures, Ensures,
}
use kubecopilot_core.Message.{ChatRequest, ChatResponse, is_terminal, chat_url, handle, reconcile}

abbrev pub chat_request : KubeCopilotMessage → ChatRequest
chat_request cmd = record { message = cmd.spec.message; session_id = cmd.spec.session_id }

-- The request carries the message, which is open, to the agent that it names, which runs.
abbrev pub Carries :
    Codec ChatRequest ChatResponse → HttpRequest → KubeCopilotMessage → KubeCopilotAgent → Type 0
Carries codec r cmd agent =
    (is_terminal cmd ≡ false)
    × (not (agent.status.phase == phase_running) ≡ false)
    × (r.url ≡ chat_url cmd agent)
    × (codec.marshal (chat_request cmd) ≡ ok r.body)

abbrev pub agent_key : KubeCopilotMessage → Key
agent_key cmd = record { namespace = cmd.meta.namespace; name = cmd.spec.agent_ref }

-- The two calls behind a request read the message and its agent, by their keys.
abbrev pub Authorised : Codec ChatRequest ChatResponse → Key → HttpRequest → List Call → Type 0
Authorised codec key r (got Kind.agent k₁ (ok agent) ∷ got Kind.message k (ok cmd) ∷ []) =
    Carries codec r cmd agent × (k ≡ key) × (k₁ ≡ agent_key cmd)
Authorised codec key r _ = ⊥

-- Every request of the log is authorised by the calls before it, and every status that is written
-- is terminal.
abbrev pub Addressed : Codec ChatRequest ChatResponse → Key → List Call → Type 0
Addressed codec key [] = Unit
Addressed codec key (requested r a ∷ calls) =
    Authorised codec key r calls × Addressed codec key calls
Addressed codec key (status_updated Kind.message o r ∷ calls) =
    (is_terminal o ≡ true) × Addressed codec key calls
Addressed codec key (_ ∷ calls) = Addressed codec key calls

module _ {env : Env} where
  handle-Addressed :
      (codec : Codec ChatRequest ChatResponse) (key : Key) (s : env.State)
      → Ensures (λ r w. Addressed codec key w.calls) (handle codec key) (start {env = env} s)
  unfolding handle
  handle-Addressed codec key s =
      Ensures-call-error _ _ _ _ _
        (λ cmd s₁.
          Ensures-when-bind _ _ _ _ (λ _. search ensures_rules)
            λ open_message.
              Ensures-call-error _ _ _ _ _
                (λ agent s₂.
                  Ensures-when-bind _ _ _ _ (λ _. search ensures_rules)
                    λ running.
                      Ensures-pure-error _ _ _ _
                        (λ body marshalled.
                          search (ensures_rules, open_message, running, marshalled) depth 20)
                        (λ e _. search ensures_rules))
                (λ e s. search ensures_rules depth 20))
        (λ e s. search ensures_rules)

-- In a run of the message controller from an empty log, whatever the environment answers, every
-- HTTP request of the log comes right behind the reads of the message, which is not terminal, and
-- of its agent, which runs, by their keys; it goes to that agent's chat URL with the marshalled
-- message for body; and every status that is written is terminal.
pub reconcile-Addressed :
    (env : Env) (codec : Codec ChatRequest ChatResponse) (key : Key) (s : env.State)
    → Addressed codec key (reconcile {env = env} codec key (start s)).1.calls
unfolding reconcile
reconcile-Addressed env codec key s =
    run-Ensures (λ o w. Addressed codec key w.calls) (handle codec key) (start s)
      (handle-Addressed codec key s)
