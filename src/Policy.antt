-- ===== src/Policy.antt =====
-- internal/controller/policy_evaluator.go: which policies stop a message.
pub mod Words
pub mod Windows
pub mod Reach
pub mod Verdict
use kubecopilot_core.Common.{
  ℕ, zero, suc, ◌+◌, ◌-◌, String, Bool, true, false, not, ◌&&◌, ◌||◌, Option, none, some, List, [],
  ◌∷◌, ltb, ◌=?◌, ◌==◌, if◌then◌else◌, length, take, drop, any, Result, ok, err,
}
use kubecopilot_core.Common.Text.{codes}
use kubecopilot_core.Api.Meta.{ApiError}
use kubecopilot_core.Api.Policy.{
  PolicyRule, KubeCopilotPolicy, policy_rule_type_deny, policy_rule_type_require_approval,
}
use kubecopilot_core.Api.Kinds.{Kind}
use kubecopilot_core.Env.{Env}
use kubecopilot_core.Env.Exec.{Exec, pure, or_return, list, ◌>>=◌}
use kubecopilot_core.Glob
use Words.{Rune, to_lower, fields, join}

pub data PolicyDecision : Type 0 where
  allow deny require_approval : PolicyDecision

pub record PolicyEvalResult : Type 0 where
  pub decision : PolicyDecision
  pub rule_name : String
  pub policy_name : String
  pub message : String

-- The loop over `i`, with its remaining rounds.
pub any_window : List Rune → ℕ → List (List Rune) → ℕ → ℕ → Bool
any_window pattern size words zero i = false
any_window pattern size words (suc rounds) i =
    Glob.match pattern (join (take size (drop i words)))
    || any_window pattern size words rounds (suc i)

unfoldable pub contains_pattern : List Rune → List Rune → Bool
unfolding any_window
contains_pattern message pattern =
    let words = fields message in
    let pat_words = fields pattern in
    if length pat_words =? 0 || ltb (length words) (length pat_words)
    then false
    else any_window pattern (length pat_words) words (length words - length pat_words + 1) 0

-- The body of the loop over the patterns.
unfoldable pub matches_pattern : (Rune → Rune) → List Rune → String → Bool
matches_pattern table lower pattern =
    let lower_pattern = to_lower table (codes pattern) in
    Glob.match lower_pattern lower || contains_pattern lower lower_pattern

unfoldable pub matches_patterns : (Rune → Rune) → String → List String → Bool
unfolding matches_pattern
matches_patterns table message patterns =
    any (matches_pattern table (to_lower table (codes message))) patterns

-- A loop has returned the function's result, or goes on with `approvalResult`.
pub data Scan : Type 0 where
  returns : PolicyEvalResult → Scan
  goes_on : Option PolicyEvalResult → Scan

pub result_of : PolicyDecision → KubeCopilotPolicy → PolicyRule → PolicyEvalResult
result_of decision policy rule = record {
  decision = decision;
  rule_name = rule.name;
  policy_name = policy.meta.name;
  message = rule.message;
}

-- `approvalResult == nil` keeps the first one.
abbrev pub keep_first : Option PolicyEvalResult → PolicyEvalResult → Option PolicyEvalResult
keep_first none r = some r
keep_first (some first) r = some first

pub scan_rules :
    (Rune → Rune) → String → KubeCopilotPolicy → List PolicyRule → Option PolicyEvalResult → Scan
scan_rules table message policy [] approval = goes_on approval
scan_rules table message policy (rule ∷ rules) approval =
    let skipped = scan_rules table message policy rules approval in
    let recorded =
      scan_rules table message policy rules
        (keep_first approval (result_of PolicyDecision.require_approval policy rule)) in
    if not (matches_patterns table message rule.command_patterns)
    then skipped
    else if rule.type == policy_rule_type_deny
    then returns (result_of PolicyDecision.deny policy rule)
    else if rule.type == policy_rule_type_require_approval
    then recorded
    else skipped

-- The two `continue`s at the head of the outer loop.
unfoldable pub applies : KubeCopilotPolicy → String → Bool
applies policy agent_ref =
    policy.status.active
    && not (not (policy.spec.agent_ref == "") && not (policy.spec.agent_ref == agent_ref))

pub scan_policies :
    (Rune → Rune) → String → String → List KubeCopilotPolicy → Option PolicyEvalResult → Scan
scan_policies table agent_ref message [] approval = goes_on approval
scan_policies table agent_ref message (policy ∷ policies) approval =
    let rest = scan_policies table agent_ref message policies in
    if applies policy agent_ref
    then elim (scan_rules table message policy policy.spec.rules approval) [
      | returns r ↦ returns r
      | goes_on approval' ↦ rest approval'
    ]
    else rest approval

abbrev pub allowed : PolicyEvalResult
allowed = record { decision = PolicyDecision.allow; rule_name = ""; policy_name = ""; message = "" }

-- Behind the loops.
abbrev conclude : Scan → PolicyEvalResult
conclude (returns r) = r
conclude (goes_on (some r)) = r
conclude (goes_on none) = allowed

-- `EvaluatePolicies` on the policies that were listed.
unfoldable pub evaluate :
    (Rune → Rune) → List KubeCopilotPolicy → String → String → PolicyEvalResult
unfolding scan_policies scan_rules applies result_of
evaluate table policies agent_ref message =
    conclude (scan_policies table agent_ref message policies none)

unfoldable pub evaluate_policies :
    {env : Env} → String → String → String → Exec env ApiError PolicyEvalResult
evaluate_policies {env} namespace agent_ref message = do
  policies ← or_return (list Kind.policy namespace)
  pure (evaluate env.lower_table policies agent_ref message)
