-- ===== src/Agent/Cleanup.antt =====
-- What internal/controller/kubecopilotagent_controller.go does with an agent that is being deleted.
use kubecopilot_core.Common.{
  ◌≡◌, refl, ap, ◌∙◌, String, true, false, List, [], ◌∷◌, ◌==◌, Result, ok, err, contains,
}
use kubecopilot_core.Common.Text.{◌<>◌}
use kubecopilot_core.Phases.{phase_error}
use kubecopilot_core.Api.Meta.{Key, ApiError}
use kubecopilot_core.Api.Agent.{KubeCopilotAgent}
use kubecopilot_core.Api.Kinds.{Kind}
use kubecopilot_core.Env.{Env}
use kubecopilot_core.Env.Exec.{done, got, updated, status_updated, outcome, start, run}
use kubecopilot_core.Agent.{
  is_conflicting, with_phase, with_finalizers, remove_finalizer, handle_deletion, reconcile,
}
use kubecopilot_core.Agent.Resources.{cleanup_cluster_rbac}
use kubecopilot_core.Agent.Objects.{Settings, rbac_finalizer_name, cluster_key, cluster_role_name}

abbrev binding_key : KubeCopilotAgent → Key
binding_key agent = cluster_key (cluster_role_name agent <> "-binding")

abbrev role_key : KubeCopilotAgent → Key
role_key agent = cluster_key (cluster_role_name agent)

-- The finalizers without the operator's own, wherever and however often it stands.
pub data Unclaimed : List String → List String → Type 0 where
  none_left : Unclaimed [] []
  own :
      {f : String} {fs gs : List String}
      → (f == "kubecopilot.io/rbac-cleanup") ≡ true
      → Unclaimed fs gs
      → Unclaimed (f ∷ fs) gs
  foreign :
      {f : String} {fs gs : List String}
      → (f == "kubecopilot.io/rbac-cleanup") ≡ false
      → Unclaimed fs gs
      → Unclaimed (f ∷ fs) (f ∷ gs)

remove_finalizer-Unclaimed : {fs gs : List String} → Unclaimed fs gs → remove_finalizer fs ≡ gs
remove_finalizer-Unclaimed none_left = refl
remove_finalizer-Unclaimed (own here rest) = rw here (remove_finalizer-Unclaimed rest)
remove_finalizer-Unclaimed (foreign {f = f} other rest) =
    rw other (ap (λ l. f ∷ l) (remove_finalizer-Unclaimed rest))

-- The agent with the finalizers `left`, and otherwise as it was read.
abbrev pub released : List String → KubeCopilotAgent → KubeCopilotAgent
released left agent = record agent { meta = record agent.meta { finalizers = left } }

module _ (env : Env) (settings : Settings) (key : Key) (s s₁ : env.State) (agent : KubeCopilotAgent)
    (got_agent : env.get Kind.agent key s ≡ (ok agent, s₁)) where
  -- Of an agent with conflicting fields, being deleted or not, only the status is written.
  pub reconcile-conflicting :
      (s₂ : env.State) (r : Result ApiError KubeCopilotAgent)
      → is_conflicting agent.spec.rbac agent.spec.kubeconfig_secret_ref ≡ true
      → env.update_status Kind.agent (with_phase phase_error agent) s₁ ≡ (r, s₂)
      → reconcile {env = env} settings key (start s) ≡ (
        done,
        record {
          state = s₂;
          calls =
              status_updated Kind.agent (with_phase phase_error agent) r
              ∷ got Kind.agent key (ok agent)
              ∷ [];
        },
      )
  unfolding reconcile run
  reconcile-conflicting s₂ r conflict written = simp (got_agent, conflict, written)

  module _ (deleting : agent.meta.deleting ≡ true)
      (consistent : is_conflicting agent.spec.rbac agent.spec.kubeconfig_secret_ref ≡ false)
      (claimed : contains agent.meta.finalizers rbac_finalizer_name ≡ true) where
    reconcile-handle_deletion :
        reconcile {env = env} settings key (start s)
        ≡ run {env = env}
            (handle_deletion settings agent)
            (record { state = s₁; calls = got Kind.agent key (ok agent) ∷ [] })
    unfolding reconcile run
    reconcile-handle_deletion = simp (got_agent, consistent, deleting)

    module _ (s₂ s₃ s₄ : env.State) (e₁ e₂ : ApiError)
        (no_binding : env.get Kind.cluster_role_binding (binding_key agent) s₁ ≡ (err e₁, s₂))
        (no_role : env.get Kind.cluster_role (role_key agent) s₂ ≡ (err e₂, s₃)) where
      handle_deletion-leaks :
          (r : Result ApiError KubeCopilotAgent)
          → env.update Kind.agent (with_finalizers remove_finalizer agent) s₃ ≡ (r, s₄)
          → run {env = env}
              (handle_deletion settings agent)
              (record { state = s₁; calls = got Kind.agent key (ok agent) ∷ [] })
            ≡ (
              outcome r,
              record {
                state = s₄;
                calls =
                    updated Kind.agent (with_finalizers remove_finalizer agent) r
                    ∷ got Kind.cluster_role (role_key agent) (err e₂)
                    ∷ got Kind.cluster_role_binding (binding_key agent) (err e₁)
                    ∷ got Kind.agent key (ok agent)
                    ∷ [];
              },
            )
      unfolding handle_deletion run cleanup_cluster_rbac
      handle_deletion-leaks (ok o) written = simp (claimed, no_binding, no_role, written)
      handle_deletion-leaks (err e) written = simp (claimed, no_binding, no_role, written)

      -- Where an agent that is being deleted, with the finalizer and without conflicting fields,
      -- was read, and the reads of its cluster role binding and its cluster role answer errors, be
      -- they NotFound or not, the run deletes nothing and updates the agent with its other
      -- finalizers alone, in their order; its outcome is the error of that update, if any.
      pub reconcile-leaks :
          (left : List String) (r : Result ApiError KubeCopilotAgent)
          → Unclaimed agent.meta.finalizers left
          → env.update Kind.agent (released left agent) s₃ ≡ (r, s₄)
          → reconcile {env = env} settings key (start s) ≡ (
            outcome r,
            record {
              state = s₄;
              calls =
                  updated Kind.agent (released left agent) r
                  ∷ got Kind.cluster_role (role_key agent) (err e₂)
                  ∷ got Kind.cluster_role_binding (binding_key agent) (err e₁)
                  ∷ got Kind.agent key (ok agent)
                  ∷ [];
            },
          )
      reconcile-leaks left r unclaimed written =
          let same = remove_finalizer-Unclaimed unclaimed in
          rw (← same) (reconcile-handle_deletion ∙ handle_deletion-leaks r (rw (← same) at written))
