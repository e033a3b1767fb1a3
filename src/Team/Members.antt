-- ===== src/Team/Members.antt =====
-- Whom a coordinator of internal/controller/kubecopilotagentteam_controller.go delegates to.
use kubecopilot_core.Common.{
  ◌≡◌, refl, String, Bool, length, true, false, not, List, [], ◌∷◌, ◌++◌, map, equal-eq, arith,
  append-nil, append_assoc, Result, ok,
}
use kubecopilot_core.Api.Meta.{Key, ApiError}
use kubecopilot_core.Api.Agent.{KubeCopilotAgent}
use kubecopilot_core.Api.Team.{TeamMember, KubeCopilotAgentTeam}
use kubecopilot_core.Api.Kinds.{Kind}
use kubecopilot_core.Env.{Env}
use kubecopilot_core.Env.Exec.{
  Call, Exec, World, Outcome, got, updated, status_updated, start, ◌>>=◌,
}
use kubecopilot_core.Env.Ensures.{
  Ensures, ensures_rules, Ensures-call-error, Ensures-pure-bind, Ensures-when-bind,
  Ensures-bind-bind, run-Ensures,
}
use kubecopilot_core.Team.{agent_key, activated, check_members, activate, handle, reconcile}

abbrev pub names_of : List TeamMember → List String
names_of members = map (λ m. m.name) members

-- The coordinator with these delegates, and otherwise as it was read.
abbrev pub coordinating : List String → KubeCopilotAgent → KubeCopilotAgent
coordinating names coordinator = record coordinator {
  spec = record coordinator.spec { delegate_to = names };
}

-- A team's status says that it is active with all its members; nothing else of it is changed.
pub record Active (team o : KubeCopilotAgentTeam) : Type 0 where
  pub phase : o.status.phase ≡ "Active"
  pub counted : o.status.member_count ≡ length team.spec.members
  pub same_spec : o.spec ≡ team.spec
  pub same_meta : o.meta ≡ team.meta

-- `Found team members before after`: behind the calls `before`, each member was read in its order.
pub data Found (team : KubeCopilotAgentTeam)
    : List TeamMember → List Call → List Call → Type 0 where
  all_found : {calls : List Call} → Found team [] calls calls
  then_found :
      {m : TeamMember} {ms : List TeamMember} {before after : List Call} (agent : KubeCopilotAgent)
      → Found team ms (got Kind.agent (agent_key team m.name) (ok agent) ∷ before) after
      → Found team (m ∷ ms) before after

-- The reads behind a write: the team, its coordinator, its members, and the coordinator again.
pub data Reads (key : Key) (team : KubeCopilotAgentTeam) (coordinator : KubeCopilotAgent)
    : List Call → Type 0 where
  all_read :
      (first : KubeCopilotAgent) {calls : List Call}
      → Found team team.spec.members
          (got Kind.agent (agent_key team team.spec.coordinator) (ok first)
            ∷ got Kind.team key (ok team)
            ∷ [])
          calls
      → Reads key team coordinator
          (got Kind.agent (agent_key team team.spec.coordinator) (ok coordinator) ∷ calls)

-- Why a call may follow the calls before it.
pub data Justified (key : Key) : Call → List Call → Type 0 where
  delegation :
      {team : KubeCopilotAgentTeam} {coordinator : KubeCopilotAgent}
      {r : Result ApiError KubeCopilotAgent} {calls : List Call}
      → Reads key team coordinator calls
      → Justified key
          (updated Kind.agent (coordinating (names_of team.spec.members) coordinator) r)
          calls
  activation :
      {team o : KubeCopilotAgentTeam} {coordinator : KubeCopilotAgent}
      {r : Result ApiError KubeCopilotAgentTeam} {calls : List Call}
      → Reads key team coordinator calls
      → Active team o
      → coordinator.spec.delegate_to ≡ names_of team.spec.members
      → Justified key (status_updated Kind.team o r) calls
  activation_behind :
      {team o : KubeCopilotAgentTeam} {coordinator taken : KubeCopilotAgent}
      {r : Result ApiError KubeCopilotAgentTeam} {calls : List Call}
      → Reads key team coordinator calls
      → Active team o
      → Justified key (status_updated Kind.team o r) (
          updated Kind.agent (coordinating (names_of team.spec.members) coordinator) (ok taken)
          ∷ calls)
  refusal :
      {o : KubeCopilotAgentTeam} {r : Result ApiError KubeCopilotAgentTeam} {calls : List Call}
      → o.status.phase ≡ "Error"
      → Justified key (status_updated Kind.team o r) calls

-- Every write of the log is justified by the calls before it.
abbrev pub Backed : Key → List Call → Type 0
Backed key [] = Unit
Backed key (updated k o r ∷ calls) = Justified key (updated k o r) calls × Backed key calls
Backed key (status_updated k o r ∷ calls) =
    Justified key (status_updated k o r) calls × Backed key calls
Backed key (_ ∷ calls) = Backed key calls

not-false : {b : Bool} → not b ≡ false → b ≡ true
not-false h = ground arith

module _ (env : Env) (key : Key) where
  activated-Active : (team : KubeCopilotAgentTeam) → Active team (activated env team)
  activated-Active team = record {
    phase = refl;
    counted = refl;
    same_spec = refl;
    same_meta = refl;
  }

  abbrev KeepsGuard : {A : Type 0} → Result Outcome A → World env → Type 0
  KeepsGuard r w = Backed key w.calls

  check_members-Ensures :
      (team : KubeCopilotAgentTeam) (members : List TeamMember) (names : List String)
      (f : List String → Exec env Outcome (Unit {0})) (w : World env)
      → Backed key w.calls
      → ((calls : List Call) (s : env.State)
          → Backed key calls
          → Found team members w.calls calls
          → Ensures KeepsGuard
              (f (names ++ names_of members))
              (record { state = s; calls = calls }))
      → Ensures KeepsGuard (check_members env team members names >>= f) w
  unfolding check_members
  check_members-Ensures team [] names f w guarded next =
      Ensures-pure-bind _ _ _ (rw (append-nil names) at (next w.calls w.state guarded all_found))
  check_members-Ensures team (m ∷ ms) names f w guarded next = Ensures-bind-bind _ _ _ _ (
      Ensures-call-error _ _ _ _ _
        (λ agent s.
          check_members-Ensures team ms (names ++ (m.name ∷ [])) f _ guarded λ calls s' kept found.
            rw (append_assoc names (m.name ∷ []) (names_of ms))
              (next calls s' kept (then_found agent found)))
        (λ e s. search (ensures_rules, guarded, refusal) depth 20))

  activate-Backed :
      (team : KubeCopilotAgentTeam) (coordinator : KubeCopilotAgent) (w : World env)
      → Backed key w.calls
      → Reads key team coordinator w.calls
      → Ensures KeepsGuard (activate env team coordinator (names_of team.spec.members)) w
  unfolding activate
  activate-Backed team coordinator w guarded reads =
      Ensures-when-bind _ _ _ _
        (λ differs.
          let active = activated-Active team in
          search (ensures_rules, guarded, delegation reads, activation_behind reads, active) depth
            20)
        (λ same.
          let delegated : coordinator.spec.delegate_to ≡ names_of team.spec.members =
            equal-eq coordinator.spec.delegate_to (names_of team.spec.members) (not-false same) in
          let active = activated-Active team in
          search (ensures_rules, guarded, activation, reads, active, delegated) depth 20)

  handle-Backed : (s : env.State) → Ensures KeepsGuard (handle env key) (start {env = env} s)
  unfolding handle
  handle-Backed s =
      Ensures-call-error _ _ _ _ _
        (λ team s₁.
          Ensures-call-error _ _ _ _ _
            (λ first s₂.
              check_members-Ensures team team.spec.members [] _ _ tt λ calls s₃ guarded found.
                Ensures-call-error _ _ _ _ _
                  (λ coordinator s₄.
                    activate-Backed team coordinator _ guarded (all_read first found))
                  (λ e s₄. search (ensures_rules, guarded)))
            (λ e s₂. search (ensures_rules, refusal) depth 20))
        (λ e s₁. search ensures_rules)

-- In a run of the team controller from an empty log, whatever the environment answers: an agent is
-- updated only as the team's coordinator as it was just read, with the members' names in their
-- order for delegates, behind reads that found the team, the coordinator, every member in its
-- order, and the coordinator again; and a status that is written is either in phase Error, or says
-- Active, with the number of the members and nothing but the status changed, behind the same reads,
-- where the coordinator delegates to those names already or the update to them has just succeeded.
pub reconcile-Backed :
    (env : Env) (key : Key) (s : env.State) → Backed key (reconcile env key (start s)).1.calls
unfolding reconcile
reconcile-Backed env key s =
    run-Ensures (λ o w. Backed key w.calls) (handle env key) (start s) (handle-Backed env key s)
