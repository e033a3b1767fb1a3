-- ===== src/Send/Guard.antt =====
-- What must have been read before internal/controller/kubecopilotsend_controller.go hands a message
-- to an agent.
use kubecopilot_core.Common.{
  ℕ, ◌≡◌, refl, String, Bool, true, false, not, ◌&&◌, Option, none, some, List, [], ◌∷◌, ◌==◌,
  Result, ok, err, arith, eq_refl,
}
use kubecopilot_core.Phases.{phase_running}
use kubecopilot_core.Api.Meta.{Key, ApiError}
use kubecopilot_core.Api.Policy.{KubeCopilotPolicy}
use kubecopilot_core.Api.Agent.{KubeCopilotAgent}
use kubecopilot_core.Api.Send.{KubeCopilotSend, ProviderConfig, SessionConfig}
use kubecopilot_core.Api.Builtin.{Secret}
use kubecopilot_core.Api.Kinds.{Kind}
use kubecopilot_core.Env.{Env, Codec}
use kubecopilot_core.Env.Exec.{
  Call, World, Exec, Outcome, got, listed, requested, status_updated, outcome, start, pure, ◌>>=◌,
}
use kubecopilot_core.Env.Ensures.{
  Ensures, ensures_rules, after, Ensures-pure, Ensures-pure-bind, Ensures-when-bind,
  Ensures-pure-error, Ensures-call-error, Ensures-attempt-error, run-Ensures,
}
use kubecopilot_core.Policy.{PolicyDecision, PolicyEvalResult, evaluate, evaluate_policies}
use kubecopilot_core.Send.{
  is_terminal, is_waiting, screen, screen_as, post, handle, dispatch, reconcile, session_config,
  resolve_provider, resolve_provider?,
}
use kubecopilot_core.Send.Payload.{
  AsyncChatRequest, AsyncChatResponse, SessionConfigPayload, base_payload,
}

abbrev pub permitted_as : PolicyDecision → KubeCopilotSend → Bool
permitted_as PolicyDecision.deny send = false
permitted_as PolicyDecision.require_approval send = send.spec.approved
permitted_as PolicyDecision.allow send = true

-- The read results that let a message go: the send is open, its agent runs, and the policies of the
-- namespace do not stop it.
abbrev cleared :
    (ℕ → ℕ) → KubeCopilotSend → KubeCopilotAgent → String → List KubeCopilotPolicy → Bool
cleared table send agent namespace policies =
    not (is_terminal send)
    && not (is_waiting send)
    && agent.status.phase == phase_running
    && namespace == send.meta.namespace
    && permitted_as (evaluate table policies send.spec.agent_ref send.spec.message).decision send

cleared-eq_true :
    (table : ℕ → ℕ) (send : KubeCopilotSend) (agent : KubeCopilotAgent)
    (ps : List KubeCopilotPolicy)
    → is_terminal send ≡ false
    → is_waiting send ≡ false
    → not (agent.status.phase == phase_running) ≡ false
    → permitted_as (evaluate table ps send.spec.agent_ref send.spec.message).decision send ≡ true
    → cleared table send agent send.meta.namespace ps ≡ true
cleared-eq_true table send agent ps open_send not_waiting running permitted =
    ground (arith, eq_refl send.meta.namespace)

abbrev as_send : Call → Option KubeCopilotSend
as_send (got Kind.send k (ok s)) = some s
as_send _ = none

abbrev as_agent : Call → Option KubeCopilotAgent
as_agent (got Kind.agent k (ok a)) = some a
as_agent _ = none

abbrev as_policies : Call → Option (String × List KubeCopilotPolicy)
as_policies (listed Kind.policy ns (ok ps)) = some (ns, ps)
as_policies _ = none

abbrev cleared_by :
    (ℕ → ℕ)
    → Option KubeCopilotSend
    → Option KubeCopilotAgent
    → Option (String × List KubeCopilotPolicy)
    → Bool
cleared_by table (some s) (some a) (some (ns, ps)) = cleared table s a ns ps
cleared_by table _ _ _ = false

abbrev is_secret_read : Call → Bool
is_secret_read (got Kind.secret k (ok secret)) = true
is_secret_read _ = false

-- The first three calls of a run read the send, the agent and the policies, and clear the message;
-- the secret of its provider may be read behind them, and nothing else.
abbrev pub authorised : (ℕ → ℕ) → List Call → Bool
authorised table (c ∷ b ∷ a ∷ []) = cleared_by table (as_send a) (as_agent b) (as_policies c)
authorised table (d ∷ c ∷ b ∷ a ∷ []) =
    is_secret_read d && cleared_by table (as_send a) (as_agent b) (as_policies c)
authorised table _ = false

-- Every request of a log was authorised by the calls before it.
abbrev pub Screened : (ℕ → ℕ) → List Call → Type 0
Screened table [] = Unit
Screened table (requested r a ∷ calls) = (authorised table calls ≡ true) × Screened table calls
Screened table (_ ∷ calls) = Screened table calls

module _ {env : Env} where
  abbrev KeepsGuard : {A : Type 0} → Result Outcome A → World env → Type 0
  KeepsGuard r w = Screened env.lower_table w.calls

  post-Screened :
      (codec : Codec AsyncChatRequest AsyncChatResponse) (send : KubeCopilotSend)
      (agent : KubeCopilotAgent) (config : Option SessionConfigPayload) (w : World env)
      → authorised env.lower_table w.calls ≡ true
      → Screened env.lower_table w.calls
      → Ensures KeepsGuard (post codec send agent config) w
  unfolding post
  post-Screened codec send agent config w clear guarded =
      Ensures-pure-error _ _ _ _ (search ensures_rules depth 20) (search ensures_rules)

  module _ {B : Type 0} {Q : Result Outcome B → World env → Type 0}
      (f : Option SessionConfigPayload → Exec env Outcome B) (w : World env)
      (next : (config : Option SessionConfigPayload) → Ensures Q (f config) w)
      (next_secret : (config : Option SessionConfigPayload) (k : Key) (o : Secret) (s : env.State)
        → Ensures Q (f config) (after w s (got Kind.secret k (ok o))))
      (no_secret : (k : Key) (e : ApiError) (s : env.State) (o : KubeCopilotSend)
          (r : Result ApiError KubeCopilotSend) (s' : env.State)
        → Q
            (err (outcome r))
            (after (after w s (got Kind.secret k (err e))) s' (status_updated Kind.send o r))) where
    resolve_provider-Ensures :
        (send : KubeCopilotSend) (p : Option ProviderConfig) (payload : SessionConfigPayload)
        → Ensures Q
            (resolve_provider? send p payload >>= (λ payload'. pure (some payload')) >>= f)
            w
    unfolding resolve_provider? resolve_provider
    resolve_provider-Ensures send none payload = search (ensures_rules, next)
    resolve_provider-Ensures send (some p) payload =
        search (ensures_rules, next, next_secret, no_secret) depth 20

    session_config-Ensures :
        (send : KubeCopilotSend) (sc : Option SessionConfig)
        → Ensures Q (session_config send sc >>= f) w
    unfolding session_config
    session_config-Ensures send none = search (ensures_rules, next)
    session_config-Ensures send (some sc) =
        resolve_provider-Ensures send sc.provider (base_payload sc)

  module _ {B : Type 0} {Q : Result Outcome B → World env → Type 0}
      (f : Unit {0} → Exec env Outcome B) (w : World env)
      (stopped : (o : KubeCopilotSend) (r : Result ApiError KubeCopilotSend) (s : env.State)
        → Q (err (outcome r)) (after w s (status_updated Kind.send o r))) where
    screen_as-Ensures :
        (d : PolicyDecision) (result : PolicyEvalResult) (send : KubeCopilotSend)
        → (permitted_as d send ≡ true → Ensures Q (f tt) w)
        → Ensures Q (screen_as d result send >>= f) w
    unfolding screen_as
    screen_as-Ensures PolicyDecision.deny result send next = search (ensures_rules, stopped)
    screen_as-Ensures PolicyDecision.allow result send next = Ensures-pure-bind _ _ _ (next refl)
    screen_as-Ensures PolicyDecision.require_approval result send next =
        Ensures-when-bind _ _ _ _ (λ no_approval. search (ensures_rules, stopped))
          (λ approval. next (ground arith))

  dispatch-Screened :
      (codec : Codec AsyncChatRequest AsyncChatResponse) (send : KubeCopilotSend)
      (agent : KubeCopilotAgent) (a b c : Call) (s : env.State)
      → cleared_by env.lower_table (as_send a) (as_agent b) (as_policies c) ≡ true
      → Screened env.lower_table (c ∷ b ∷ a ∷ [])
      → Ensures KeepsGuard
          (dispatch codec send agent)
          (record { state = s; calls = c ∷ b ∷ a ∷ [] })
  unfolding dispatch
  dispatch-Screened codec send agent a b c s clear guarded =
      session_config-Ensures (post codec send agent) _
        (λ config. post-Screened codec send agent config _ clear guarded)
        (λ config k o s. post-Screened codec send agent config _ clear guarded)
        (λ k e s o r s'. guarded) send send.spec.session_config

  handle-Screened :
      (codec : Codec AsyncChatRequest AsyncChatResponse) (key : Key) (s : env.State)
      → Ensures KeepsGuard (handle codec key) (start s)
  unfolding handle screen evaluate_policies
  handle-Screened codec key s =
      Ensures-call-error _ _ _ _ _
        (λ send s₁.
          Ensures-when-bind _ _ _ _ (λ _. search ensures_rules)
            λ open_send.
              Ensures-when-bind _ _ _ _ (λ _. search ensures_rules)
                λ not_waiting.
                  Ensures-call-error _ _ _ _ _
                    (λ agent s₂.
                      Ensures-when-bind _ _ _ _ (λ _. search ensures_rules)
                        λ running. Ensures-attempt-error _ _ _ _ (
                          Ensures-call-error _ _ _ _ _
                            (λ policies s₃. Ensures-pure _ _ (
                              screen_as-Ensures _ _ (λ o r s. tt) _ _ _
                                λ permitted.
                                  dispatch-Screened codec send agent _ _ _ _
                                    (cleared-eq_true env.lower_table send agent policies open_send
                                      not_waiting running permitted)
                                    tt))
                            (λ e s. search ensures_rules)))
                    (λ e s. search ensures_rules))
        (λ e s. search ensures_rules)

-- In a run of the send controller from an empty log, whatever the environment answers, every HTTP
-- request of the log comes right behind exactly these calls: reads of a send that is neither
-- terminal nor waiting for approval, of an agent that runs, and of the policies of the send's
-- namespace, whose evaluation on the send's agent and message allows it or requires an approval
-- that the send has; and after them at most the successful read of one secret.
pub reconcile-Screened :
    (env : Env) (codec : Codec AsyncChatRequest AsyncChatResponse) (key : Key) (s : env.State)
    → Screened env.lower_table (reconcile {env = env} codec key (start s)).1.calls
unfolding reconcile
reconcile-Screened env codec key s =
    run-Ensures (λ o w. Screened env.lower_table w.calls) (handle codec key) (start s)
      (handle-Screened codec key s)
