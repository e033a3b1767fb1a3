-- ===== src/Agent/Observed.antt =====
-- Which statuses and pods internal/controller/kubecopilotagent_controller.go writes.
use kubecopilot_core.Common.{[], ◌∷◌, ok}
use kubecopilot_core.Api.Meta.{Key}
use kubecopilot_core.Api.Agent.{KubeCopilotAgent}
use kubecopilot_core.Api.Kinds.{Kind}
use kubecopilot_core.Env.{Env}
use kubecopilot_core.Env.Exec.{Exec, World, Outcome, got, start, ◌>>=◌}
use kubecopilot_core.Env.Ensures.{
  Ensures, ensures_rules, Ensures-call-error, Ensures-bind-bind, Ensures-bind-pure,
  Ensures-when-bind, Ensures-read-branch, Ensures-if, run-Ensures,
}
use kubecopilot_core.Agent.{assign_id, provide, observe, settle_agent, handle, reconcile}
use kubecopilot_core.Agent.Objects.{Settings}
use kubecopilot_core.Agent.Kept.{
  Mounted, named, observed-Shown, conflict, Kept, Keeps, in_reconcile-Keeps, ensure-Keeps,
}
use kubecopilot_core.Agent.Provided.{ensure_pod-Keeps, ensure_pvc-Keeps}
use kubecopilot_core.Agent.Rights.{handle_deletion-Keeps, manage_rbac-Keeps}

module _ {env : Env} (settings : Settings) {key : Key} where
  observe-Keeps :
      (agent : KubeCopilotAgent) (w : World env)
      → Kept key w.calls
      → Ensures (Keeps env key) (observe settings agent) w
  unfolding observe
  observe-Keeps agent w kept = Ensures-bind-pure _ _ (
      Ensures-bind-bind _ _ _ _ (
        Ensures-read-branch _ _ _ _ _ _
          (λ pod s. search (ensures_rules, kept, observed-Shown) depth 20)
          λ e s. search (ensures_rules, kept)))

  provide-Keeps :
      (agent : KubeCopilotAgent) (w : World env)
      → Kept key w.calls
      → Ensures (Keeps env key) (provide settings agent) w
  unfolding provide
  provide-Keeps agent w kept =
      in_reconcile-Keeps _ _ w (ensure_pvc-Keeps settings agent _ w kept) λ _ w₁ kept₁.
        in_reconcile-Keeps _ _ w₁ (ensure_pod-Keeps settings agent _ _ w₁ kept₁) λ _ w₂ kept₂.
          in_reconcile-Keeps _ _ w₂ (search (ensure-Keeps, kept₂))
            λ _ w₃ kept₃. observe-Keeps agent w₃ kept₃

  assign_id-Keeps :
      (agent : KubeCopilotAgent) (f : KubeCopilotAgent → Exec env Outcome (Unit {0}))
      (s : env.State)
      → ((agent' : KubeCopilotAgent) (w' : World env)
          → Kept key w'.calls
          → Ensures (Keeps env key) (f agent') w')
      → Ensures
          (Keeps env key)
          (assign_id settings agent >>= f)
          (record { state = s; calls = got Kind.agent key (ok agent) ∷ [] })
  unfolding assign_id
  assign_id-Keeps agent f s next = search (ensures_rules, named, next) depth 20

  settle_agent-Keeps :
      (agent : KubeCopilotAgent) (s : env.State)
      → Ensures
          (Keeps env key)
          (settle_agent settings agent)
          (record { state = s; calls = got Kind.agent key (ok agent) ∷ [] })
  unfolding settle_agent
  settle_agent-Keeps agent s = assign_id-Keeps agent _ s λ agent₁ w₁ kept₁.
      manage_rbac-Keeps settings agent₁.spec.rbac agent₁ _ w₁ kept₁
        λ agent₂ w₂ kept₂. provide-Keeps agent₂ w₂ kept₂

  handle-Keeps :
      (s : env.State) → Ensures (Keeps env key) (handle settings key) (start {env = env} s)
  unfolding handle
  handle-Keeps s =
      Ensures-call-error _ _ _ _ _
        (λ agent s₁.
          Ensures-when-bind _ _ _ _ (λ conflicting. search (ensures_rules, conflict) depth 20)
            λ consistent.
              Ensures-if _ _ _ _ (λ deleting. handle_deletion-Keeps settings agent _ (tt, tt))
                λ living. settle_agent-Keeps agent s₁)
        λ e s₁. search ensures_rules

module _ (env : Env) (settings : Settings) (key : Key) (s : env.State) where
  reconcile-Kept : Kept key (reconcile {env = env} settings key (start s)).1.calls
  unfolding reconcile
  reconcile-Kept =
      run-Ensures (λ o w. Kept key w.calls) (handle settings key) (start s)
        (handle-Keeps settings s)

-- Every pod that a run of the agent controller creates, from an empty log, whatever the agent's
-- configuration and whatever the environment answers, has volumes with names of their own, mounts
-- only of declared volumes and at paths of their own, and sets no variable twice.
pub reconcile-Mounted :
    (env : Env) (settings : Settings) (key : Key) (s : env.State)
    → Mounted (reconcile {env = env} settings key (start s)).1.calls
reconcile-Mounted env settings key s = (reconcile-Kept env settings key s).1
