-- ===== src/Send/Lifecycle/Moved.antt =====
-- Every status that internal/controller/kubecopilotsend_controller.go writes is a move of the
-- machine of stages.
use kubecopilot_core.Common.{
  ◌≡◌, refl, ap, arith, String, false, not, Option, none, some, List, [], ◌∷◌, ◌++◌, ◌==◌, Result,
  ok,
}
use kubecopilot_core.Api.Meta.{Key}
use kubecopilot_core.Api.Agent.{KubeCopilotAgent}
use kubecopilot_core.Api.Send.{KubeCopilotSend, ProviderConfig, SessionConfig}
use kubecopilot_core.Api.Kinds.{Kind}
use kubecopilot_core.Env.{Env, Codec}
use kubecopilot_core.Env.Exec.{
  Call, World, Exec, Outcome, got, status_updated, start, report, ◌>>=◌,
}
use kubecopilot_core.Env.Ensures.{
  Ensures, ensures_rules, Ensures-pure, Ensures-pure-bind, Ensures-when-bind, Ensures-pure-error,
  Ensures-call-error, Ensures-call-bind, Ensures-stop-bind, Ensures-stop, Ensures-bind-bind,
  Ensures-attempt-error, Ensures-if-bind, run-Ensures,
}
use kubecopilot_core.Policy.{PolicyDecision, PolicyEvalResult, evaluate_policies}
use kubecopilot_core.Send.{
  is_terminal, is_waiting, screen, screen_as, post, handle, dispatch, reconcile, session_config,
  resolve_provider, resolve_provider?,
}
use kubecopilot_core.Send.Payload.{
  AsyncChatRequest, AsyncChatResponse, SessionConfigPayload, base_payload,
}
use kubecopilot_core.Send.Lifecycle.{
  Allowed, Allowed-error, Allowed-denied, Allowed-pending, Allowed-queued,
}

-- The log starts with the read of the send.
abbrev pub StartsWith : Key → KubeCopilotSend → List Call → Type 0
StartsWith key send calls =
    (later : List Call) × (calls ≡ later ++ got Kind.send key (ok send) ∷ [])

-- Each status that is written on a send is a move of the send that the run has read first.
abbrev pub Moved : Key → List Call → Type 0
Moved key [] = Unit
Moved key (status_updated Kind.send o r ∷ calls) =
    ((send : KubeCopilotSend) × StartsWith key send calls × Allowed send o) × Moved key calls
Moved key (_ ∷ calls) = Moved key calls

module _ (key : Key) (send : KubeCopilotSend) where
  record Ready (calls : List Call) : Type 0 where
    started : StartsWith key send calls
    moved : Moved key calls

  -- A call that writes no status of a send.
  Ready-silent :
      (c : Call) (calls : List Call) → Moved key (c ∷ calls) → Ready calls → Ready (c ∷ calls)
  Ready-silent c calls moved r = record {
    started = (c ∷ r.started.0, ap (λ l. c ∷ l) r.started.1);
    moved = moved;
  }

module _ {env : Env} (key : Key) (send : KubeCopilotSend) where
  abbrev Good : {A : Type 0} → Result Outcome A → World env → Type 0
  Good r w = Moved key w.calls

  report-Moved :
      {A B : Type 0} (o : KubeCopilotSend) (f : A → Exec env Outcome B) (w : World env)
      → Allowed send o
      → Ready key send w.calls
      → Ensures Good (report Kind.send o >>= f) w
  report-Moved o f w allowed r = Ensures-bind-bind _ _ f w (
      Ensures-call-bind _ _ _ w
        λ a s. Ensures-stop-bind _ f _ ((send, r.started, allowed), r.moved))

  report-Moved_last :
      {A : Type 0} (o : KubeCopilotSend) (w : World env)
      → Allowed send o
      → Ready key send w.calls
      → Ensures (Good {A = A}) (report Kind.send o) w
  report-Moved_last o w allowed r =
      Ensures-call-bind _ _ _ w λ a s. Ensures-stop _ _ ((send, r.started, allowed), r.moved)

  module _ (open_send : is_terminal send ≡ false) (not_waiting : is_waiting send ≡ false) where
    post-Moved :
        (codec : Codec AsyncChatRequest AsyncChatResponse) (agent : KubeCopilotAgent)
        (config : Option SessionConfigPayload) (w : World env)
        → Ready key send w.calls
        → Ensures Good (post codec send agent config) w
    unfolding post
    post-Moved codec agent config w r =
        Ensures-pure-error _ _ _ w
          (λ body marshalled.
            Ensures-call-error _ _ _ _ w
              (λ response s.
                let r' = Ready-silent key send _ w.calls r.moved r in
                Ensures-when-bind _ _ _ _
                  (λ refused. report-Moved _ _ _ (Allowed-error send open_send not_waiting _) r')
                  λ accepted.
                    Ensures-pure-error _ _ _ _
                      (λ answer decoded.
                        report-Moved_last _ _ (Allowed-queued send open_send not_waiting _) r')
                      λ e undecoded.
                        report-Moved _ _ _ (Allowed-error send open_send not_waiting _) r')
              λ e s.
                report-Moved _ _ _ (Allowed-error send open_send not_waiting _)
                  (Ready-silent key send _ w.calls r.moved r))
          λ e unmarshalled. Ensures-stop-bind _ _ w r.moved

    resolve_provider-Moved :
        {B : Type 0} (p : Option ProviderConfig) (payload : SessionConfigPayload)
        (f : SessionConfigPayload → Exec env Outcome B) (w : World env)
        → Ready key send w.calls
        → ((payload' : SessionConfigPayload) (w' : World env)
            → Ready key send w'.calls
            → Ensures Good (f payload') w')
        → Ensures Good (resolve_provider? send p payload >>= f) w
    unfolding resolve_provider? resolve_provider
    resolve_provider-Moved none payload f w r go = Ensures-pure-bind _ f w (go _ w r)
    resolve_provider-Moved (some p) payload f w r go =
        Ensures-if-bind (not (p.secret_ref == "")) _ _ f w
          (λ named. Ensures-bind-bind _ _ f w (
            Ensures-call-error _ _ _ _ w
              (λ secret s.
                Ensures-pure-bind _ f _ (go _ _ (Ready-silent key send _ w.calls r.moved r)))
              λ e s.
                report-Moved _ _ _ (Allowed-error send open_send not_waiting _)
                  (Ready-silent key send _ w.calls r.moved r)))
          λ unnamed. Ensures-pure-bind _ f w (go _ w r)

    dispatch-Moved :
        (codec : Codec AsyncChatRequest AsyncChatResponse) (agent : KubeCopilotAgent)
        (sc : Option SessionConfig) (w : World env)
        → Ready key send w.calls
        → Ensures Good (session_config send sc >>= post codec send agent) w
    unfolding session_config
    dispatch-Moved codec agent none w r = Ensures-pure-bind _ _ w (post-Moved codec agent none w r)
    dispatch-Moved codec agent (some sc) w r = Ensures-bind-bind _ _ _ w (
        resolve_provider-Moved sc.provider (base_payload sc) _ w r
          λ payload w' r'. Ensures-pure-bind _ _ w' (post-Moved codec agent (some payload) w' r'))

    screen-Moved :
        (d : PolicyDecision) (result : PolicyEvalResult)
        (f : Unit {0} → Exec env Outcome (Unit {0})) (w : World env)
        → Ready key send w.calls
        → Ensures Good (f tt) w
        → Ensures Good (screen_as d result send >>= f) w
    unfolding screen_as
    screen-Moved PolicyDecision.deny result f w r go =
        report-Moved _ f w (Allowed-denied send open_send not_waiting _) r
    screen-Moved PolicyDecision.require_approval result f w r go =
        Ensures-when-bind _ _ f w
          (λ missing.
            report-Moved _ f w (Allowed-pending send open_send not_waiting _ (ground arith)) r)
          λ given. go
    screen-Moved PolicyDecision.allow result f w r go = Ensures-pure-bind tt f w go

module _ {env : Env} where
  handle-Moved :
      (codec : Codec AsyncChatRequest AsyncChatResponse) (key : Key) (s : env.State)
      → Ensures (λ r w. Moved key w.calls) (handle codec key) (start {env = env} s)
  unfolding handle screen dispatch evaluate_policies
  handle-Moved codec key s =
      Ensures-call-error _ _ _ _ _
        (λ send s₁.
          let first : List Call = got Kind.send key (ok send) ∷ [] in
          let read : Ready key send first = record { started = ([], refl); moved = tt } in
          Ensures-when-bind _ _ _ _ (λ _. search ensures_rules)
            λ open_send.
              Ensures-when-bind _ _ _ _ (λ _. search ensures_rules)
                λ not_waiting.
                  let fails =
                    λ (message : String). Allowed-error send open_send not_waiting message in
                  Ensures-call-error _ _ _ _ _
                    (λ agent s₂.
                      let read₂ = Ready-silent key send _ first tt read in
                      Ensures-when-bind _ _ _ _ (λ _. search ensures_rules)
                        λ running. Ensures-attempt-error _ _ _ _ (
                          Ensures-call-error _ _ _ _ _
                            (λ policies s₃. Ensures-pure _ _ (
                              let read₃ = Ready-silent key send _ _ tt read₂ in
                              screen-Moved key send open_send not_waiting _ _ _ _ read₃ (
                                dispatch-Moved key send open_send not_waiting codec agent
                                  send.spec.session_config _ read₃)))
                            λ e s. Ensures-stop-bind _ _ _ (
                              report-Moved key send _ _ _ (fails _)
                                (Ready-silent key send _ _ tt read₂))))
                    λ e s.
                      report-Moved key send _ _ _ (fails _) (Ready-silent key send _ first tt read))
        λ e s. search ensures_rules

-- In a run of the send controller from an empty log, whatever the environment answers, every status
-- that is written on a send is, of the send that the run has read first, a move that the machine of
-- stages allows, and leaves its spec and its metadata as they are.
pub reconcile-Moved :
    (env : Env) (codec : Codec AsyncChatRequest AsyncChatResponse) (key : Key) (s : env.State)
    → Moved key (reconcile {env = env} codec key (start s)).1.calls
unfolding reconcile
reconcile-Moved env codec key s =
    run-Ensures (λ o w. Moved key w.calls) (handle codec key) (start s) (handle-Moved codec key s)
