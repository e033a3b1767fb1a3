-- ===== src/Team.antt =====
-- internal/controller/kubecopilotagentteam_controller.go: a coordinator and its members.
pub mod Members
use kubecopilot_core.Common.{ℕ, String, not, List, [], ◌∷◌, ◌++◌, equal, length}
use kubecopilot_core.Common.Text.{◌<>◌}
use kubecopilot_core.Phases.{phase_error, phase_team_active}
use kubecopilot_core.Api.Meta.{Key, ApiError}
use kubecopilot_core.Api.Agent.{KubeCopilotAgent}
use kubecopilot_core.Api.Team.{TeamMember, KubeCopilotAgentTeam}
use kubecopilot_core.Api.Kinds.{Kind}
use kubecopilot_core.Env.{Env}
use kubecopilot_core.Env.Exec.{
  Exec, World, Outcome, done, failed, outcome_of, pure, stop, when, or_fail, ◌on_error◌, get,
  update, update_status, report, run, ◌>>=◌, ◌>>◌, if_not_found,
}

abbrev pub agent_key : KubeCopilotAgentTeam → String → Key
agent_key team name = record { namespace = team.meta.namespace; name = name }

abbrev pub delegating : List String → KubeCopilotAgent → KubeCopilotAgent
delegating names coordinator = record coordinator {
  spec = record coordinator.spec { delegate_to = names };
}

module _ (env : Env) where
  -- `setErrorStatus` before its update
  abbrev pub with_error : String → KubeCopilotAgentTeam → KubeCopilotAgentTeam
  with_error message team = record team {
    status = record {
      phase = phase_error;
      member_count = 0;
      conditions = env.set_condition team.status.conditions (record {
        type = "Ready";
        status = "False";
        reason = "AgentNotFound";
        message = message;
        observed_generation = team.meta.generation;
      });
    };
  }

  abbrev pub activated : KubeCopilotAgentTeam → KubeCopilotAgentTeam
  activated team = record team {
    status = record {
      phase = phase_team_active;
      member_count = length team.spec.members;
      conditions = env.set_condition team.status.conditions (record {
        type = "Ready";
        status = "True";
        reason = "AllAgentsFound";
        message = "All coordinator and member agents are available";
        observed_generation = team.meta.generation;
      });
    };
  }

  -- `setErrorStatus`; both of its returns hand on what the update answered.
  abbrev pub set_error_status : {A : Type 0} → KubeCopilotAgentTeam → String → Exec env Outcome A
  set_error_status team message = report Kind.team (with_error message team)

  -- `if errors.IsNotFound(err) { return r.setErrorStatus(…) }; return ctrl.Result{}, err`
  abbrev pub missing : {A : Type 0} → KubeCopilotAgentTeam → String → ApiError → Exec env Outcome A
  missing team message e = if_not_found e (set_error_status team message) (stop (failed e))

  -- The loop over the members, with the names that were collected.
  check_members :
      KubeCopilotAgentTeam → List TeamMember → List String → Exec env Outcome (List String)
  check_members team [] names = pure names
  check_members team (member ∷ members) names = do
    found ←
        get Kind.agent (agent_key team member.name)
        on_error missing team ("member agent " <> env.quote member.name <> " not found")
    check_members team members (names ++ (member.name ∷ []))

  -- From "Update coordinator spec" to the end.
  activate : KubeCopilotAgentTeam → KubeCopilotAgent → List String → Exec env Outcome (Unit {0})
  activate team coordinator member_names = do
    when (not (equal coordinator.spec.delegate_to member_names))
        (do or_fail (update Kind.agent (delegating member_names coordinator)); pure tt)
    or_fail (update_status Kind.team (activated team))
    pure tt

  handle : Key → Exec env Outcome (Unit {0})
  handle key = do
    team ← get Kind.team key on_error λ e. stop (outcome_of (env.ignore_not_found e))
    first ←
        get Kind.agent (agent_key team team.spec.coordinator)
        on_error missing team
            ("coordinator agent " <> env.quote team.spec.coordinator <> " not found")
    member_names ← check_members team team.spec.members []
    coordinator ← or_fail (get Kind.agent (agent_key team team.spec.coordinator))
    activate team coordinator member_names

  -- `KubeCopilotAgentTeamReconciler.Reconcile`
  pub reconcile : Key → World env → Outcome × World env
  unfolding handle check_members activate
  reconcile key = run (handle key)
