-- ===== src/Tests/Policies.antt =====
-- The policy evaluator at work.
use kubecopilot_core.Common.{ℕ, ◌≡◌, refl, String, true, false, ◌↔◌, [], ◌∷◌, ◌++◌, any, arith, ◌⊎◌}
use kubecopilot_core.Common.Text.{codes}
use kubecopilot_core.Glob
use kubecopilot_core.Glob.Laws.{has_separator}
use kubecopilot_core.Policy.Words.{to_lower, fields, join}
use kubecopilot_core.Policy.{
  PolicyDecision, allowed, evaluate, contains_pattern, matches_pattern, matches_patterns,
}
use kubecopilot_core.Policy.Windows.{Window, contains_pattern_iff}
use kubecopilot_core.Policy.Reach.{CleanWindow, matches_patterns_literal, matches_pattern-separator}
use kubecopilot_core.Policy.Verdict.{chosen, first_match, evaluate-eq-first_match}
use kubecopilot_core.Policy.Verdict.Order.{
  ranked, strictest, violates, decision-evaluate, decision-append, decision-perm,
}
use kubecopilot_core.Tests.Fixtures.{no_delete, ask_first, policy_of, rule}
use kubecopilot_core.Tests.Memory.{memory}
use kubecopilot_core.PolicyController.{judged}
use kubecopilot_core.PolicyController.Effect.{decision-judged}
use kubecopilot_core.Api.Policy.{KubeCopilotPolicy}
use kubecopilot_core.Api.Policy.{policy_rule_type_deny, policy_rule_type_require_approval}
use mathlib.Core.List.{Permᴰ}

abbrev same : ℕ → ℕ
same n = n

abbrev command : String
command = "please kubectl apply and rm -rf now"

denied : (evaluate same (ask_first ∷ no_delete ∷ []) "ops" command).decision ≡ PolicyDecision.deny
unfolding evaluate matches_patterns Glob.match to_lower contains_pattern fields join
denied = refl

paused :
    (evaluate same (no_delete ∷ ask_first ∷ []) "ops" "Kubectl  APPLY -f x").decision
    ≡ PolicyDecision.require_approval
unfolding evaluate matches_patterns Glob.match to_lower contains_pattern fields join
paused = refl

other_agent : evaluate same (ask_first ∷ []) "dev" "kubectl apply" ≡ allowed
unfolding evaluate matches_patterns Glob.match to_lower contains_pattern fields join
other_agent = refl

-- The documented pattern `* --force *` misses a command that names a path.
missed :
    contains_pattern (codes "kubectl delete -f ./a.yaml --force now") (codes "* --force *") ≡ false
unfolding Glob.match contains_pattern fields join
missed = refl

evaluate-eq-first_match_example :
    evaluate same (ask_first ∷ no_delete ∷ []) "ops" command
    ≡ chosen same "ops" command
        (first_match same "ops" command PolicyDecision.deny policy_rule_type_deny
          (ask_first ∷ no_delete ∷ []))
        (first_match same "ops" command PolicyDecision.require_approval
          policy_rule_type_require_approval
          (ask_first ∷ no_delete ∷ []))
evaluate-eq-first_match_example =
    evaluate-eq-first_match same "ops" command (ask_first ∷ no_delete ∷ [])

decision-append_example :
    (evaluate same (ask_first ∷ no_delete ∷ []) "ops" command).decision
    ≡ strictest
        (evaluate same (ask_first ∷ []) "ops" command).decision
        (evaluate same (no_delete ∷ []) "ops" command).decision
decision-append_example = decision-append same "ops" command (ask_first ∷ []) (no_delete ∷ [])

decision-perm_example :
    (evaluate same (ask_first ∷ no_delete ∷ []) "ops" command).decision
    ≡ (evaluate same (no_delete ∷ ask_first ∷ []) "ops" command).decision
decision-perm_example =
    decision-perm same "ops" command (ask_first ∷ no_delete ∷ []) (no_delete ∷ ask_first ∷ [])
      (∣ Permᴰ.swap refl refl ∣₁)

decision-evaluate_example :
    (evaluate same (ask_first ∷ no_delete ∷ []) "ops" command).decision
    ≡ ranked
        (any (violates same "ops" command policy_rule_type_deny) (ask_first ∷ no_delete ∷ []))
        (any
          (violates same "ops" command policy_rule_type_require_approval)
          (ask_first ∷ no_delete ∷ []))
decision-evaluate_example = decision-evaluate same "ops" command (ask_first ∷ no_delete ∷ [])

contains_pattern_iff_example :
    (contains_pattern (codes "a rm -rf b") (codes "rm -rf") ≡ true)
    ↔ Window (codes "a rm -rf b") (codes "rm -rf")
contains_pattern_iff_example = contains_pattern_iff (codes "a rm -rf b") (codes "rm -rf")

matches_patterns_literal_example :
    matches_patterns same "please RM -rf now" ([] ++ ("rm -RF" ∷ ("x" ∷ []))) ≡ true
unfolding to_lower fields join
matches_patterns_literal_example =
    matches_patterns_literal same "please RM -rf now" "rm -RF" [] ("x" ∷ []) (codes "please" ∷ [])
      (codes "now" ∷ []) (refl, (refl, (refl, (refl, (refl, (refl, tt)))))) refl (omega arith) refl

matches_pattern-separator_example :
    (has_separator (codes "do rm x") ≡ false)
    ⊎ CleanWindow (codes "do rm x") (to_lower same (codes "rm *"))
unfolding Glob.match contains_pattern fields join to_lower matches_pattern Glob.parse
matches_pattern-separator_example =
    matches_pattern-separator same (codes "do rm x") "rm *"
      (
        Glob.Term.rune 114 ∷ Glob.Term.rune 109 ∷ Glob.Term.rune 32 ∷ Glob.Term.star ∷ [],
        refl,
        refl,
      )
      refl

-- A rule without patterns makes the whole policy invalid.
abbrev broken : KubeCopilotPolicy
broken =
    policy_of "broken" ""
      (rule "r1" policy_rule_type_deny ("rm*" ∷ []) ∷ rule "r2" policy_rule_type_deny [] ∷ [])

decision-judged_example :
    (evaluate same
      ((no_delete ∷ []) ++ (judged memory broken ∷ (ask_first ∷ [])))
      "ops"
      command).decision
    ≡ (evaluate same ((no_delete ∷ []) ++ (ask_first ∷ [])) "ops" command).decision
decision-judged_example =
    decision-judged memory same "ops" command broken refl (no_delete ∷ []) (ask_first ∷ [])

-- Behind a star `filepath.Match` stays at the first place that a chunk matches, although a later one
-- would do, and it skips bytes, so that two `?` match one rune of three bytes.
committed : Glob.match (codes "*[x/]*b") (codes "x/xb") ≡ false
unfolding Glob.match
committed = refl

bytewise : Glob.match (codes "*??") (codes "日") ≡ true
unfolding Glob.match
bytewise = refl
