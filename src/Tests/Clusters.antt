-- ===== src/Tests/Clusters.antt =====
-- Runs of the policy, tool server, team and session controllers.
use kubecopilot_core.Common.{◌≡◌, refl, none, [], ◌∷◌, ok}
use kubecopilot_core.Api.Meta.{object_meta}
use kubecopilot_core.Api.Team.{KubeCopilotAgentTeam, KubeCopilotToolServer}
use kubecopilot_core.Api.Session.{KubeCopilotSession}
use kubecopilot_core.Api.Kinds.{Kind}
use kubecopilot_core.Env.Exec.{World, Outcome, done, got, status_updated, clocked, start, run}
use kubecopilot_core.PolicyController
use kubecopilot_core.PolicyController.Validity.{Judged, reconcile-Judged}
use kubecopilot_core.ToolServer
use kubecopilot_core.ToolServer.Idempotence.{reconcile-once}
use kubecopilot_core.Team
use kubecopilot_core.Team.Members.{Backed, reconcile-Backed}
use kubecopilot_core.Session
use kubecopilot_core.Session.Guard.{Orderly}
use kubecopilot_core.Session.Lifecycle.{reconcile-Orderly}
use kubecopilot_core.Session.Objects.{session_finalizer, session_namespace_name}
use kubecopilot_core.Session.{activated}
use kubecopilot_core.Session.Converges.{Served, Provisioned, Quiet, reconcile-converges}
use kubecopilot_core.Tests.MemoryLaws.{memory-Lawful}
use kubecopilot_core.Tests.Memory.{Cluster, memory, cluster, replaced}
use kubecopilot_core.Tests.Fixtures.{key, agent_named, no_delete}

abbrev policies : Cluster
policies = cluster ((Kind.policy, no_delete) ∷ [])

reconcile-Judged_example :
    (PolicyController.reconcile memory (key "no-delete") (start policies) ≡ (
      done,
      record {
        state = record policies {
          objects =
              replaced Kind.policy (PolicyController.judged memory no_delete) policies.objects;
        };
        calls =
            status_updated Kind.policy
              (PolicyController.judged memory no_delete)
              (ok (PolicyController.judged memory no_delete))
            ∷ got Kind.policy (key "no-delete") (ok no_delete)
            ∷ [];
      },
    ))
    × Judged no_delete (PolicyController.judged memory no_delete)
reconcile-Judged_example =
    reconcile-Judged memory (key "no-delete") policies policies _ no_delete
      (ok (PolicyController.judged memory no_delete)) refl refl

abbrev tools : KubeCopilotToolServer
tools = record {
  meta = object_meta "team-a" "tools";
  spec = record { url = "http://tools"; transport = "http"; headers = []; secret_ref = none };
  status = record { phase = ""; available_tools = []; last_checked = 0; conditions = [] };
}

abbrev with_tools : KubeCopilotToolServer → Cluster
with_tools server = cluster ((Kind.tool_server, server) ∷ [])

abbrev available_tools : KubeCopilotToolServer
available_tools = ToolServer.available memory 1700000000000 tools

reconcile-once_example :
    (ToolServer.reconcile memory (key "tools") (start (with_tools tools)) ≡ (
      done,
      record {
        state = with_tools available_tools;
        calls =
            status_updated Kind.tool_server available_tools (ok available_tools)
            ∷ clocked 1700000000000
            ∷ got Kind.tool_server (key "tools") (ok tools)
            ∷ [];
      },
    ))
    × (ToolServer.reconcile memory (key "tools") (start (with_tools available_tools)) ≡ (
      done,
      record {
        state = with_tools available_tools;
        calls = got Kind.tool_server (key "tools") (ok available_tools) ∷ [];
      },
    ))
reconcile-once_example =
    reconcile-once memory (key "tools") (with_tools tools) (with_tools tools) (with_tools tools)
      (with_tools available_tools) (with_tools available_tools) tools 1700000000000 refl
      (ok available_tools) refl refl refl refl

abbrev crew : KubeCopilotAgentTeam
crew = record {
  meta = object_meta "team-a" "crew";
  spec = record {
    coordinator = "boss";
    members =
        (record { name = "ops"; role = ""; description = "" })
        ∷ (record { name = "dev"; role = ""; description = "" })
        ∷ [];
    strategy = "";
  };
  status = record { phase = ""; member_count = 0; conditions = [] };
}

abbrev with_crew : Cluster
with_crew = cluster (
    (Kind.team, crew)
    ∷ (Kind.agent, agent_named "boss" [])
    ∷ (Kind.agent, agent_named "ops" [])
    ∷ (Kind.agent, agent_named "dev" [])
    ∷ [])

reconcile-Backed_example :
    Backed (key "crew") (Team.reconcile memory (key "crew") (start with_crew)).1.calls
reconcile-Backed_example = reconcile-Backed memory (key "crew") with_crew

abbrev session : KubeCopilotSession
session = record {
  meta = object_meta "team-a" "work";
  spec = record { tenant_id = "acme"; agent_ref = "ops"; isolation_level = "strict" };
  status = record { phase = ""; namespace = ""; conditions = [] };
}

abbrev with_session : Cluster
with_session = cluster ((Kind.agent, agent_named "ops" []) ∷ (Kind.session, session) ∷ [])

reconcile-Orderly_example :
    Orderly memory
      (key "work")
      (Session.reconcile {env = memory} (key "work") (start with_session)).1.calls
reconcile-Orderly_example = reconcile-Orderly memory (key "work") with_session

-- The session once its finalizer was stored.
abbrev finalized : KubeCopilotSession
finalized = record session { meta = record session.meta { finalizers = session_finalizer ∷ [] } }

abbrev with_finalized : Cluster
with_finalized = cluster ((Kind.agent, agent_named "ops" []) ∷ (Kind.session, finalized) ∷ [])

abbrev settled : KubeCopilotSession
settled = activated memory (session_namespace_name finalized) finalized

abbrev first_run : Outcome × World memory
first_run = Session.reconcile {env = memory} (key "work") (start with_finalized)

finalized-Served : Served memory (key "work") finalized with_finalized
finalized-Served = record {
  agent = agent_named "ops" [];
  read = refl;
  stays = refl;
  finalized = refl;
  strict = refl;
  agent_read = refl;
}

first_run-Served : Served memory (key "work") settled first_run.1.state
unfolding Session.reconcile run
first_run-Served = record {
  agent = agent_named "ops" [];
  read = refl;
  stays = refl;
  finalized = refl;
  strict = refl;
  agent_read = refl;
}

first_run-done : first_run.0 ≡ done
unfolding Session.reconcile run
first_run-done = refl

reconcile-converges_example :
    Provisioned memory (session_namespace_name finalized) first_run.1.state
    × Quiet (Session.reconcile {env = memory} (key "work") (start first_run.1.state)).1.calls
reconcile-converges_example =
    reconcile-converges memory (key "work") finalized settled with_finalized memory-Lawful
      finalized-Served first_run-done first_run-Served refl
