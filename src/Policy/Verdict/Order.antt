-- ===== src/Policy/Verdict/Order.antt =====
-- The decision of `EvaluatePolicies` (internal/controller/policy_evaluator.go), apart from which rule
-- is named.
use mathlib.Core.Logic.{∥∥₁_elim}
use mathlib.Core.List.{Perm}
use kubecopilot_core.Common.{
  ℕ, ◌≡◌, String, Bool, true, false, ◌&&◌, Option, none, some, List, [], ◌∷◌, ◌++◌, arith,
  if◌then◌else◌, any, any-append, any-permᴰ,
}
use kubecopilot_core.Api.Policy.{
  PolicyRule, KubeCopilotPolicy, policy_rule_type_deny, policy_rule_type_require_approval,
}
use kubecopilot_core.Policy.{PolicyDecision, PolicyEvalResult, result_of, applies, evaluate}
use kubecopilot_core.Policy.Verdict.{
  triggers, first_rule, found, first_match, evaluate-eq-first_match,
}

abbrev decision_of : Option PolicyEvalResult → Option PolicyDecision
decision_of none = none
decision_of (some r) = some r.decision

-- The strictest decision wins.
abbrev pub ranked : Bool → Bool → PolicyDecision
ranked true b = PolicyDecision.deny
ranked false true = PolicyDecision.require_approval
ranked false false = PolicyDecision.allow

abbrev pub strictest : PolicyDecision → PolicyDecision → PolicyDecision
strictest PolicyDecision.deny d = PolicyDecision.deny
strictest PolicyDecision.require_approval PolicyDecision.deny = PolicyDecision.deny
strictest PolicyDecision.require_approval d = PolicyDecision.require_approval
strictest PolicyDecision.allow d = d

PolicyDecision-set : IsSet PolicyDecision
PolicyDecision-set = hlevel

module _ (table : ℕ → ℕ) (agent_ref message : String) where
  -- Some rule of a type, of an applicable policy, triggers on the message.
  abbrev pub violates : String → KubeCopilotPolicy → Bool
  violates type policy =
      applies policy agent_ref && any (triggers table agent_ref message type) policy.spec.rules

  decision-found :
      (d : PolicyDecision) (type : String) (policy : KubeCopilotPolicy) (rules : List PolicyRule)
      → decision_of
          (found table agent_ref message d policy (first_rule table agent_ref message type rules))
        ≡ (if any (triggers table agent_ref message type) rules then some d else none)
  unfolding result_of
  decision-found d type policy [] = ground arith
  decision-found d type policy (rule ∷ rules) = ground (arith, decision-found d type policy rules)

  decision-first_match :
      (d : PolicyDecision) (type : String) (policies : List KubeCopilotPolicy)
      → decision_of (first_match table agent_ref message d type policies)
        ≡ (if any (violates type) policies then some d else none)
  decision-first_match d type [] = ground arith
  decision-first_match d type (policy ∷ policies) =
      ground (
        arith,
        decision-found d type policy policy.spec.rules,
        decision-first_match d type policies,
      )

  -- The decision is deny if some applicable policy has a deny rule that matches the message, else
  -- require-approval if one has an approval rule that matches, and else allow.
  pub decision-evaluate :
      (policies : List KubeCopilotPolicy)
      → (evaluate table policies agent_ref message).decision
        ≡ ranked
            (any (violates policy_rule_type_deny) policies)
            (any (violates policy_rule_type_require_approval) policies)
  decision-evaluate policies = ground (
    arith,
    evaluate-eq-first_match table agent_ref message policies,
    decision-first_match PolicyDecision.deny policy_rule_type_deny policies,
    decision-first_match PolicyDecision.require_approval policy_rule_type_require_approval policies,
  )

  -- The decision on two lists of policies together is the stricter of the decisions on each, where
  -- deny is stricter than require-approval and that is stricter than allow.
  pub decision-append :
      (ps qs : List KubeCopilotPolicy)
      → (evaluate table (ps ++ qs) agent_ref message).decision
        ≡ strictest
            (evaluate table ps agent_ref message).decision
            (evaluate table qs agent_ref message).decision
  decision-append ps qs = ground (
    arith,
    decision-evaluate ps,
    decision-evaluate qs,
    decision-evaluate (ps ++ qs),
    any-append (violates policy_rule_type_deny) ps qs,
    any-append (violates policy_rule_type_require_approval) ps qs,
  )

  -- The decision is the same for two lists of policies that are permutations of one another.
  pub decision-perm :
      (ps qs : List KubeCopilotPolicy)
      → Perm ps qs
      → (evaluate table ps agent_ref message).decision
        ≡ (evaluate table qs agent_ref message).decision
  decision-perm ps qs perm = ∥∥₁_elim perm (PolicyDecision-set _ _) λ h. ground (
    arith,
    decision-evaluate ps,
    decision-evaluate qs,
    any-permᴰ (violates policy_rule_type_deny) h,
    any-permᴰ (violates policy_rule_type_require_approval) h,
  )
