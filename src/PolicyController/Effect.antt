-- ===== src/PolicyController/Effect.antt =====
-- How internal/controller/kubecopilotpolicy_controller.go bears on what
-- internal/controller/policy_evaluator.go decides.
use kubecopilot_core.Common.{ℕ, ◌≡◌, refl, String, false, List, ◌∷◌, ◌++◌, any-append, arith}
use kubecopilot_core.Api.Policy.{
  KubeCopilotPolicy, policy_rule_type_deny, policy_rule_type_require_approval,
}
use kubecopilot_core.Env.{Env}
use kubecopilot_core.Policy.{applies, evaluate}
use kubecopilot_core.Policy.Verdict.Order.{violates, decision-evaluate}
use kubecopilot_core.PolicyController.{judged}
use kubecopilot_core.PolicyController.Validity.{all_valid, judged-Judged}

module _ (env : Env) (table : ℕ → ℕ) (agent_ref message : String) (policy : KubeCopilotPolicy)
    (invalid : all_valid policy.spec.rules ≡ false) where
  judged-applies : applies (judged env policy) agent_ref ≡ false
  unfolding applies
  judged-applies = rw ((judged-Judged env policy).0, invalid) refl

  violates-judged :
      (type : String) → violates table agent_ref message type (judged env policy) ≡ false
  violates-judged type = ground (arith, judged-applies)

  -- For a policy with a rule that lacks a name or patterns, the decision on any list that holds the
  -- policy as the policy controller writes it is the decision on the list without it.
  pub decision-judged :
      (ps qs : List KubeCopilotPolicy)
      → (evaluate table (ps ++ (judged env policy ∷ qs)) agent_ref message).decision
        ≡ (evaluate table (ps ++ qs) agent_ref message).decision
  decision-judged ps qs =
      let deny = violates table agent_ref message policy_rule_type_deny in
      let pause = violates table agent_ref message policy_rule_type_require_approval in
      ground (
        arith,
        decision-evaluate table agent_ref message (ps ++ (judged env policy ∷ qs)),
        decision-evaluate table agent_ref message (ps ++ qs),
        any-append deny ps (judged env policy ∷ qs),
        any-append pause ps (judged env policy ∷ qs),
        any-append deny ps qs,
        any-append pause ps qs,
        violates-judged policy_rule_type_deny,
        violates-judged policy_rule_type_require_approval,
      )
