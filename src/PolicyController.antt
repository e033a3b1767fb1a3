-- ===== src/PolicyController.antt =====
-- internal/controller/kubecopilotpolicy_controller.go: which policies are in force.
pub mod Validity
pub mod Effect
use kubecopilot_core.Common.{
  ℕ, suc, ◌+◌, String, Bool, true, false, List, [], ◌∷◌, ◌==◌, length, if◌then◌else◌,
}
use kubecopilot_core.Common.Text.{◌<>◌, char_of}
use kubecopilot_core.Api.Meta.{Key}
use kubecopilot_core.Api.Policy.{PolicyRule, KubeCopilotPolicy}
use kubecopilot_core.Api.Kinds.{Kind}
use kubecopilot_core.Env.{Env}
use kubecopilot_core.Env.Exec.{
  Exec, World, Outcome, outcome_of, stop, ◌on_error◌, get, report, run, ◌>>=◌,
}

abbrev pub no_patterns : List String → Bool
no_patterns [] = true
no_patterns (p ∷ ps) = false

-- The loop over the rules, from index `i` on. An empty text is no error.
pub validate_from : ℕ → List PolicyRule → String
validate_from i [] = ""
validate_from i (rule ∷ rules) =
    if rule.name == ""
    then "rule at index " <> char_of (b'0' + i) <> " has empty name"
    else if no_patterns rule.command_patterns
    then "rule \"" <> rule.name <> "\" has no command patterns"
    else validate_from (suc i) rules

module _ (env : Env) where
  abbrev pub rejected : String → KubeCopilotPolicy → KubeCopilotPolicy
  rejected validation_err policy = record policy {
    status = record {
      active = false;
      rule_count = length policy.spec.rules;
      conditions = env.set_condition policy.status.conditions (record {
        type = "Ready";
        status = "False";
        reason = "ValidationFailed";
        message = validation_err;
        observed_generation = policy.meta.generation;
      });
    };
  }

  abbrev pub activated : KubeCopilotPolicy → KubeCopilotPolicy
  activated policy = record policy {
    status = record {
      active = true;
      rule_count = length policy.spec.rules;
      conditions = env.set_condition policy.status.conditions (record {
        type = "Ready";
        status = "True";
        reason = "Active";
        message = "Policy is active and enforcing rules";
        observed_generation = policy.meta.generation;
      });
    };
  }

  -- What the reconciler makes of a policy that it has read.
  pub judged : KubeCopilotPolicy → KubeCopilotPolicy
  unfolding validate_from
  judged policy =
      let validation_err = validate_from 0 policy.spec.rules in
      if validation_err == "" then activated policy else rejected validation_err policy

  handle : Key → Exec env Outcome (Unit {0})
  handle key = do
    policy ← get Kind.policy key on_error λ e. stop (outcome_of (env.ignore_not_found e))
    report Kind.policy (judged policy)

  -- `KubeCopilotPolicyReconciler.Reconcile`
  pub reconcile : Key → World env → Outcome × World env
  unfolding handle judged
  reconcile key = run (handle key)
