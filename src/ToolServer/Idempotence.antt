-- ===== src/ToolServer/Idempotence.antt =====
-- How internal/controller/kubecopilottoolserver_controller.go comes to rest.
use kubecopilot_core.Common.{ℕ, ◌≡◌, false, [], ◌∷◌, ◌==◌, Result, ok, err}
use kubecopilot_core.Phases.{phase_available}
use kubecopilot_core.Api.Meta.{Key, ApiError}
use kubecopilot_core.Api.Team.{KubeCopilotToolServer}
use kubecopilot_core.Api.Kinds.{Kind}
use kubecopilot_core.Env.{Env}
use kubecopilot_core.Env.Exec.{done, got, status_updated, clocked, outcome, start, run}
use kubecopilot_core.ToolServer.{available, reconcile}

module _ (env : Env) (key : Key) (s s₁ s₂ s₃ s₄ : env.State) (server : KubeCopilotToolServer)
    (time : ℕ) (read : env.get Kind.tool_server key s ≡ (ok server, s₁)) where
  write_once :
      (r : Result ApiError KubeCopilotToolServer)
      → (server.status.phase == phase_available) ≡ false
      → env.now s₁ ≡ (time, s₂)
      → env.update_status Kind.tool_server (available env time server) s₂ ≡ (r, s₃)
      → reconcile env key (start s) ≡ (
        outcome r,
        record {
          state = s₃;
          calls =
              status_updated Kind.tool_server (available env time server) r
              ∷ clocked time
              ∷ got Kind.tool_server key (ok server)
              ∷ [];
        },
      )
  unfolding reconcile run
  write_once (ok o) fresh clock written = simp (read, fresh, clock, written)
  write_once (err e) fresh clock written = simp (read, fresh, clock, written)

  -- Where a server that is not in phase Available was read and the clock answered, the run writes
  -- it once as available at that time; and if the next read answers what was written, the next run
  -- makes that read and no other call.
  pub reconcile-once :
      (r : Result ApiError KubeCopilotToolServer)
      → (server.status.phase == phase_available) ≡ false
      → env.now s₁ ≡ (time, s₂)
      → env.update_status Kind.tool_server (available env time server) s₂ ≡ (r, s₃)
      → env.get Kind.tool_server key s₃ ≡ (ok (available env time server), s₄)
      → (reconcile env key (start s) ≡ (
        outcome r,
        record {
          state = s₃;
          calls =
              status_updated Kind.tool_server (available env time server) r
              ∷ clocked time
              ∷ got Kind.tool_server key (ok server)
              ∷ [];
        },
      ))
        × (reconcile env key (start s₃) ≡ (
          done,
          record {
            state = s₄;
            calls = got Kind.tool_server key (ok (available env time server)) ∷ [];
          },
        ))
  unfolding reconcile run
  reconcile-once r fresh clock written reread = (write_once r fresh clock written, simp reread)
