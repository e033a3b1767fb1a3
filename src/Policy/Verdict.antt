-- ===== src/Policy/Verdict.antt =====
-- What `EvaluatePolicies` of internal/controller/policy_evaluator.go decides: the nested loops with
-- their early return against a search for the first deny rule, and then for the first approval rule.
pub mod Order
use kubecopilot_core.Common.{
  ℕ, ◌≡◌, String, Bool, ◌&&◌, Option, none, some, List, [], ◌∷◌, arith, ◌==◌, if◌then◌else◌,
}
use kubecopilot_core.Api.Policy.{
  PolicyRule, KubeCopilotPolicy, policy_rule_type_deny, policy_rule_type_require_approval,
}
use kubecopilot_core.Policy.{
  PolicyDecision, PolicyEvalResult, Scan, keep_first, allowed, returns, goes_on, result_of,
  matches_patterns, applies, scan_rules, scan_policies, evaluate,
}

abbrev pub or_option {ℓ} : {A : Type ℓ} → Option A → Option A → Option A
or_option none o = o
or_option (some a) o = some a

module _ (table : ℕ → ℕ) (agent_ref message : String) where
  -- A rule of a type triggers on the message.
  abbrev pub triggers : String → PolicyRule → Bool
  triggers type rule = matches_patterns table message rule.command_patterns && rule.type == type

  abbrev pub first_rule : String → List PolicyRule → Option PolicyRule
  first_rule type [] = none
  first_rule type (rule ∷ rules) = if triggers type rule then some rule else first_rule type rules

  abbrev pub found :
      PolicyDecision → KubeCopilotPolicy → Option PolicyRule → Option PolicyEvalResult
  found d policy none = none
  found d policy (some rule) = some (result_of d policy rule)

  abbrev pub first_match :
      PolicyDecision → String → List KubeCopilotPolicy → Option PolicyEvalResult
  first_match d type [] = none
  first_match d type (policy ∷ policies) =
      or_option
        (if applies policy agent_ref
          then found d policy (first_rule type policy.spec.rules)
          else none)
        (first_match d type policies)

  abbrev rules_spec : KubeCopilotPolicy → Option PolicyRule → Option PolicyEvalResult → Scan
  rules_spec policy (some rule) approval = returns (result_of PolicyDecision.deny policy rule)
  rules_spec policy none approval = goes_on approval

  scan_rules_lem :
      (policy : KubeCopilotPolicy) (rules : List PolicyRule) (approval : Option PolicyEvalResult)
      → scan_rules table message policy rules approval
        ≡ rules_spec policy (first_rule policy_rule_type_deny rules) (
            or_option approval (
              found PolicyDecision.require_approval policy
                (first_rule policy_rule_type_require_approval rules)))
  unfolding scan_rules
  scan_rules_lem policy [] approval = ground arith
  scan_rules_lem policy (rule ∷ rules) approval =
      let pause = result_of PolicyDecision.require_approval policy rule in
      ground (
        arith,
        scan_rules_lem policy rules approval,
        scan_rules_lem policy rules (keep_first approval pause),
      )

  abbrev policies_spec : Option PolicyEvalResult → Option PolicyEvalResult → Scan
  policies_spec (some r) approval = returns r
  policies_spec none approval = goes_on approval

  scan_policies_lem :
      (policies : List KubeCopilotPolicy) (approval : Option PolicyEvalResult)
      → scan_policies table agent_ref message policies approval
        ≡ policies_spec (first_match PolicyDecision.deny policy_rule_type_deny policies) (
            or_option approval (
              first_match PolicyDecision.require_approval policy_rule_type_require_approval
                policies))
  unfolding scan_policies
  scan_policies_lem [] approval = ground arith
  scan_policies_lem (policy ∷ policies) approval =
      let rules = policy.spec.rules in
      let pause =
        found PolicyDecision.require_approval policy
          (first_rule policy_rule_type_require_approval rules) in
      ground (
        arith,
        scan_rules_lem policy rules approval,
        scan_policies_lem policies approval,
        scan_policies_lem policies (or_option approval pause),
      )

  abbrev pub chosen : Option PolicyEvalResult → Option PolicyEvalResult → PolicyEvalResult
  chosen (some r) approval = r
  chosen none (some r) = r
  chosen none none = allowed

  -- The evaluation gives the first matching deny rule of an applicable policy, in the order of the
  -- list and of the rules; if there is none, the first matching approval rule; and else it allows.
  pub evaluate-eq-first_match :
      (policies : List KubeCopilotPolicy)
      → evaluate table policies agent_ref message
        ≡ chosen
            (first_match PolicyDecision.deny policy_rule_type_deny policies)
            (first_match PolicyDecision.require_approval policy_rule_type_require_approval policies)
  unfolding evaluate
  evaluate-eq-first_match policies = ground (arith, scan_policies_lem policies none)
