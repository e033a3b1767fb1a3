-- ===== src/PolicyController/Validity.antt =====
-- Which policies internal/controller/kubecopilotpolicy_controller.go declares active.
use kubecopilot_core.Common.{
  ℕ, ◌+◌, suc, ◌≡◌, refl, Bool, true, not, ◌&&◌, List, [], ◌∷◌, ◌==◌, length, arith, Result, ok,
  Bool-cases, inl, inr,
}
use kubecopilot_core.Common.Text.{◌<>◌, char_of, append-eq-empty}
use kubecopilot_core.Api.Meta.{Key, ApiError}
use kubecopilot_core.Api.Policy.{PolicyRule, KubeCopilotPolicy}
use kubecopilot_core.Api.Kinds.{Kind}
use kubecopilot_core.Env.{Env}
use kubecopilot_core.Env.Exec.{got, status_updated, outcome, start, run}
use kubecopilot_core.PolicyController.{no_patterns, validate_from, judged, reconcile}

abbrev pub is_valid : PolicyRule → Bool
is_valid rule = not (rule.name == "") && not (no_patterns rule.command_patterns)

abbrev pub all_valid : List PolicyRule → Bool
all_valid [] = true
all_valid (rule ∷ rules) = is_valid rule && all_valid rules

validate_from-eq :
    (i : ℕ) (rules : List PolicyRule) → (validate_from i rules == "") ≡ all_valid rules
unfolding validate_from
validate_from-eq i [] = refl
validate_from-eq i (rule ∷ rules) = elim (Bool-cases (rule.name == "")) [
  | inl unnamed ↦ simp (
    unnamed,
    append-eq-empty "rule at index " (char_of (b'0' + i) <> " has empty name") (omega arith),
  )
  | inr named ↦ elim (Bool-cases (no_patterns rule.command_patterns)) [
    | inl empty ↦ simp (
      named,
      empty,
      append-eq-empty "rule \"" (rule.name <> "\" has no command patterns") (omega arith),
    )
    | inr some ↦ simp (named, some, validate_from-eq (suc i) rules)
  ]
]

-- The status that is written, as the documentation has it.
abbrev pub Judged : KubeCopilotPolicy → KubeCopilotPolicy → Type 0
Judged before after =
    (after.status.active ≡ all_valid before.spec.rules)
    × (after.status.rule_count ≡ length before.spec.rules)
    × (after.spec ≡ before.spec)
    × (after.meta ≡ before.meta)

pub judged-Judged : (env : Env) (policy : KubeCopilotPolicy) → Judged policy (judged env policy)
unfolding judged
judged-Judged env policy = elim (Bool-cases (all_valid policy.spec.rules)) [
  | inl valid ↦ simp (validate_from-eq 0 policy.spec.rules, valid) (refl, refl, refl, refl)
  | inr invalid ↦ simp (validate_from-eq 0 policy.spec.rules, invalid) (refl, refl, refl, refl)
]

-- Where the policy was read, the run writes its status once, and its outcome is the error of that
-- write, if any; what it writes is active exactly if every rule has a name and at least one
-- pattern, counts the rules, and keeps the spec and the metadata.
pub reconcile-Judged :
    (env : Env) (key : Key) (s s₁ s₂ : env.State) (policy : KubeCopilotPolicy)
    (r : Result ApiError KubeCopilotPolicy)
    → env.get Kind.policy key s ≡ (ok policy, s₁)
    → env.update_status Kind.policy (judged env policy) s₁ ≡ (r, s₂)
    → (reconcile env key (start s) ≡ (
      outcome r,
      record {
        state = s₂;
        calls =
            status_updated Kind.policy (judged env policy) r ∷ got Kind.policy key (ok policy) ∷ [];
      },
    ))
      × Judged policy (judged env policy)
unfolding reconcile run
reconcile-Judged env key s s₁ s₂ policy r read written =
    (simp (read, written), judged-Judged env policy)
