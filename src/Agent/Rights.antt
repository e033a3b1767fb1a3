-- ===== src/Agent/Rights.antt =====
-- The log while an agent's rights are given and taken.
use kubecopilot_core.Common.{String, not, Option, none, some}
use kubecopilot_core.Api.Meta.{Key}
use kubecopilot_core.Api.Agent.{KubeCopilotAgent, AgentRbac}
use kubecopilot_core.Env.{Env}
use kubecopilot_core.Env.Exec.{Exec, World, Outcome, ◌>>=◌, pure}
use kubecopilot_core.Env.Ensures.{
  Ensures, ensures_rules, Ensures-bind-bind, Ensures-bind-pure, Ensures-when-bind,
  Ensures-when-last, Ensures-pure-bind, Ensures-if-bind,
}
use kubecopilot_core.Agent.{
  cluster_rules_of, handle_deletion, ensure_finalizer, ensure_roles, ensure_cluster_roles,
  manage_rbac, manage_rbac?, apply_cluster_roles,
}
use kubecopilot_core.Agent.Resources.{is_empty, ensure_kubeconfig_secret, cleanup_cluster_rbac}
use kubecopilot_core.Agent.Objects.{cluster_role_name, Settings}
use kubecopilot_core.Agent.Kept.{Kept, Keeps, in_reconcile-Keeps, ensure-Keeps, apply-Keeps}

module _ {env : Env} (settings : Settings) {key : Key} where
  ensure_kubeconfig_secret-Keeps :
      (agent : KubeCopilotAgent) (name sa_name : String) (w : World env)
      → Kept key w.calls
      → Ensures (Keeps env key) (ensure_kubeconfig_secret settings agent name sa_name) w
  unfolding ensure_kubeconfig_secret
  ensure_kubeconfig_secret-Keeps agent name sa_name w kept = search (ensures_rules, kept) depth 20

  cleanup_cluster_rbac-Keeps :
      (agent : KubeCopilotAgent) (w : World env)
      → Kept key w.calls
      → Ensures (Keeps env key) (cleanup_cluster_rbac settings agent) w
  unfolding cleanup_cluster_rbac
  cleanup_cluster_rbac-Keeps agent w kept =
      Ensures-bind-pure _ _ (search (ensures_rules, kept) depth 20)

  pub handle_deletion-Keeps :
      (agent : KubeCopilotAgent) (w : World env)
      → Kept key w.calls
      → Ensures (Keeps env key) (handle_deletion settings agent) w
  unfolding handle_deletion
  handle_deletion-Keeps agent w kept =
      Ensures-when-last _ _ _
        (λ claimed.
          in_reconcile-Keeps _ _ w (cleanup_cluster_rbac-Keeps agent w kept)
            λ _ w' kept'. search (ensures_rules, kept') depth 20)
        λ unclaimed. kept

  module _ {A : Type 0} (w : World env) (kept : Kept key w.calls) where
    ensure_roles-Keeps :
        (agent : KubeCopilotAgent) (sa_name : String) (f : Unit {0} → Exec env Outcome A)
        → ((w' : World env) → Kept key w'.calls → Ensures (Keeps env key) (f tt) w')
        → Ensures (Keeps env key) (ensure_roles settings agent sa_name >>= f) w
    unfolding ensure_roles
    ensure_roles-Keeps agent sa_name f next =
        Ensures-when-bind _ _ _ _
          (λ some_rules. Ensures-bind-bind _ _ _ _ (
            in_reconcile-Keeps _ _ w (search (apply-Keeps, kept)) λ _ w₁ kept₁.
              in_reconcile-Keeps _ _ w₁ (search (apply-Keeps, kept₁)) λ _ w₂ kept₂. next w₂ kept₂))
          λ no_rules. next w kept

    ensure_finalizer-Keeps :
        (agent : KubeCopilotAgent) (f : KubeCopilotAgent → Exec env Outcome A)
        → ((agent' : KubeCopilotAgent) (w' : World env)
            → Kept key w'.calls
            → Ensures (Keeps env key) (f agent') w')
        → Ensures (Keeps env key) (ensure_finalizer settings agent >>= f) w
    unfolding ensure_finalizer
    ensure_finalizer-Keeps agent f next = search (ensures_rules, kept, next) depth 20

  module _ {A : Type 0} where
    apply_cluster_roles-Keeps :
        (agent : KubeCopilotAgent) (role_name sa_name : String) (f : Unit {0} → Exec env Outcome A)
        (w : World env)
        → Kept key w.calls
        → ((w' : World env) → Kept key w'.calls → Ensures (Keeps env key) (f tt) w')
        → Ensures (Keeps env key) (apply_cluster_roles settings agent role_name sa_name >>= f) w
    unfolding apply_cluster_roles
    apply_cluster_roles-Keeps agent role_name sa_name f w kept next = Ensures-bind-bind _ _ _ _ (
        in_reconcile-Keeps _ _ w (search (apply-Keeps, kept)) λ _ w₁ kept₁.
          in_reconcile-Keeps _ _ w₁ (search (apply-Keeps, kept₁)) λ _ w₂ kept₂. next w₂ kept₂)

    ensure_cluster_roles-Keeps :
        (agent : KubeCopilotAgent) (sa_name : String) (f : KubeCopilotAgent → Exec env Outcome A)
        (w : World env)
        → Kept key w.calls
        → ((agent' : KubeCopilotAgent) (w' : World env)
            → Kept key w'.calls
            → Ensures (Keeps env key) (f agent') w')
        → Ensures (Keeps env key) (ensure_cluster_roles settings agent sa_name >>= f) w
    unfolding ensure_cluster_roles
    ensure_cluster_roles-Keeps agent sa_name f w kept next =
        Ensures-if-bind (not (is_empty (cluster_rules_of agent.spec.rbac)))
          (ensure_finalizer settings agent >>= λ agent'.
            apply_cluster_roles settings agent' (cluster_role_name agent) sa_name >>= λ _.
            pure agent')
          (pure agent) f w
          (λ some_rules. Ensures-bind-bind _ _ _ _ (
            ensure_finalizer-Keeps w kept agent _ λ agent' w₁ kept₁. Ensures-bind-bind _ _ _ _ (
              apply_cluster_roles-Keeps agent' _ _ _ w₁ kept₁
                λ w₂ kept₂. Ensures-pure-bind _ _ _ (next agent' w₂ kept₂))))
          λ no_rules. Ensures-pure-bind _ _ _ (next agent w kept)

    pub manage_rbac-Keeps :
        (rbac : Option AgentRbac) (agent : KubeCopilotAgent)
        (f : KubeCopilotAgent → Exec env Outcome A) (w : World env)
        → Kept key w.calls
        → ((agent' : KubeCopilotAgent) (w' : World env)
            → Kept key w'.calls
            → Ensures (Keeps env key) (f agent') w')
        → Ensures (Keeps env key) (manage_rbac? settings rbac agent >>= f) w
    unfolding manage_rbac? manage_rbac
    manage_rbac-Keeps none agent f w kept next = Ensures-pure-bind _ _ _ (next agent w kept)
    manage_rbac-Keeps (some rbac) agent f w kept next = Ensures-bind-bind _ _ _ _ (
        in_reconcile-Keeps _ _ w (search (ensure-Keeps, kept)) λ _ w₁ kept₁.
          Ensures-bind-bind _ _ _ _ (
            ensure_roles-Keeps w₁ kept₁ agent _ _ λ w₂ kept₂. Ensures-bind-bind _ _ _ _ (
              ensure_cluster_roles-Keeps agent _ _ w₂ kept₂ λ agent' w₃ kept₃.
                Ensures-bind-bind _ _ _ _ (
                  in_reconcile-Keeps _ _ w₃ (ensure_kubeconfig_secret-Keeps agent' _ _ w₃ kept₃)
                    λ _ w₄ kept₄. Ensures-pure-bind _ _ _ (next agent' w₄ kept₄)))))
