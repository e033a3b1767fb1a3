-- ===== src/Agent/Kept.antt =====
-- What the log of a run of internal/controller/kubecopilotagent_controller.go keeps to.
use kubecopilot_core.Common.{
  ◌≡◌, String, true, false, Bool-cases, inl, inr, List, [], ◌∷◌, ◌==◌, Result, ok, err,
}
use kubecopilot_core.Common.Text.{◌<>◌}
use kubecopilot_core.Api.Meta.{Key, ApiError}
use kubecopilot_core.Api.Agent.{KubeCopilotAgent}
use kubecopilot_core.Api.Workload.{Pod}
use kubecopilot_core.Api.Kinds.{Kind, Object}
use kubecopilot_core.Env.{Env}
use kubecopilot_core.Env.Exec.{
  Call, Exec, World, Outcome, got, created, status_updated, identified, in_reconcile, ensure, apply,
  ◌>>=◌, stop, failed,
}
use kubecopilot_core.Env.Ensures.{
  Ensures, ensures_rules, Handled, Ensures-weaken, Ensures-attempt-error, Ensures-stop-bind,
}
use kubecopilot_core.Agent.{observed, phase_of}
use kubecopilot_core.Agent.Mounts.{is_coherent}
use kubecopilot_core.Agent.Objects.{in_namespace}

-- The phase of an agent whose pod is in the given phase.
pub data Phased (pod_phase : String) : String → Type 0 where
  served : (pod_phase == "Running") ≡ true → Phased pod_phase "Running"
  broken : (pod_phase == "Failed") ≡ true → Phased pod_phase "Error"
  coming :
      (pod_phase == "Running") ≡ false
      → (pod_phase == "Failed") ≡ false
      → Phased pod_phase "Pending"

phase_of-Phased : (pod : Pod) → Phased pod.status.phase (phase_of pod)
phase_of-Phased pod = elim (Bool-cases (pod.status.phase == "Running")) [
  | inl up ↦ rw up (served up)
  | inr down ↦ elim (Bool-cases (pod.status.phase == "Failed")) [
    | inl lost ↦ rw (down, lost) (broken lost)
    | inr sound ↦ rw (down, sound) (coming down sound)
  ]
]

-- Why a status of an agent may follow the calls before it.
pub data Shown (key : Key) : KubeCopilotAgent → List Call → Type 0 where
  conflict :
      {o : KubeCopilotAgent} {calls : List Call} → o.status.phase ≡ "Error" → Shown key o calls
  named :
      (agent : KubeCopilotAgent) (id : String)
      → (agent.status.agent_id == "") ≡ true
      → Shown key
          (record agent { status = record agent.status { agent_id = id } })
          (identified id ∷ got Kind.agent key (ok agent) ∷ [])
  seen :
      (agent : KubeCopilotAgent) (pod : Pod) (phase : String) {calls : List Call}
      → Phased pod.status.phase phase
      → Shown key
          (record agent {
            status = record agent.status {
              phase = phase;
              service_name = agent.meta.name <> "-agent-svc";
            };
          })
          (got Kind.pod (in_namespace agent (agent.meta.name <> "-agent")) (ok pod) ∷ calls)

pub observed-Shown :
    (key : Key) (agent : KubeCopilotAgent) (pod : Pod) {calls : List Call}
    → Shown key
        (observed agent pod)
        (got Kind.pod (in_namespace agent (agent.meta.name <> "-agent")) (ok pod) ∷ calls)
observed-Shown key agent pod = seen agent pod (phase_of pod) (phase_of-Phased pod)

-- Every status of an agent in the log is justified by the calls before it.
abbrev pub Observed : Key → List Call → Type 0
Observed key [] = Unit
Observed key (status_updated Kind.agent o r ∷ calls) = Shown key o calls × Observed key calls
Observed key (_ ∷ calls) = Observed key calls

-- What is asked of an object that is created: a pod's parts fit together.
abbrev pub Fits : (k : Kind) → Object k → Type 0
Fits Kind.pod pod = is_coherent pod ≡ true
Fits k o = Unit

abbrev pub Mounted : List Call → Type 0
Mounted [] = Unit
Mounted (created k o r ∷ calls) = Fits k o × Mounted calls
Mounted (_ ∷ calls) = Mounted calls

-- What every run of the controller keeps of its log.
abbrev pub Kept : Key → List Call → Type 0
Kept key calls = Observed key calls × Mounted calls

abbrev pub Keeps : (env : Env) → Key → {E A : Type 0} → Result E A → World env → Type 0
Keeps env key r w = Kept key w.calls

module _ {env : Env} {key : Key} where
  Handled-Keeps :
      {A B : Type 0} (f : A → Exec env Outcome B) (r : Result ApiError A) (w : World env)
      → Kept key w.calls
      → ((a : A) (w' : World env) → Kept key w'.calls → Ensures (Keeps env key) (f a) w')
      → Handled (Keeps env key) (λ e. stop (failed e)) f (ok r) w
  Handled-Keeps f (ok a) w kept next = next a w kept
  Handled-Keeps f (err e) w kept next = Ensures-stop-bind _ _ _ kept

  pub in_reconcile-Keeps :
      {A B : Type 0} (m : Exec env ApiError A) (f : A → Exec env Outcome B) (w : World env)
      → Ensures (Keeps env key) m w
      → ((a : A) (w' : World env) → Kept key w'.calls → Ensures (Keeps env key) (f a) w')
      → Ensures (Keeps env key) (in_reconcile m >>= f) w
  in_reconcile-Keeps m f w p next =
      Ensures-attempt-error _ _ _ _
        (Ensures-weaken m w p λ r w' kept. Handled-Keeps f r w' kept next)

  pub ensure-Keeps :
      (k : Kind) (o_key : Key) (o : Object k) (w : World env)
      → Fits k o
      → Kept key w.calls
      → Ensures (Keeps env key) (ensure k o_key o) w
  ensure-Keeps k o_key o w fits kept = search (ensures_rules, kept, fits) depth 20

  pub apply-Keeps :
      (k : Kind) (o_key : Key) (o : Object k) (merge : Object k → Object k) (w : World env)
      → Fits k o
      → Kept key w.calls
      → Ensures (Keeps env key) (apply k o_key o merge) w
  apply-Keeps k o_key o merge w fits kept = search (ensures_rules, kept, fits) depth 20
