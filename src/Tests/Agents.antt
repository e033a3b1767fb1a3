-- ===== src/Tests/Agents.antt =====
-- Runs of the agent controller.
use kubecopilot_core.Common.{◌≡◌, refl, true, false, some, [], ◌∷◌, Result, ok, err}
use kubecopilot_core.Api.Meta.{Key, ApiError, object_meta}
use kubecopilot_core.Api.Agent.{KubeCopilotAgent}
use kubecopilot_core.Api.Kinds.{Kind, Object}
use kubecopilot_core.Env.{Env}
use kubecopilot_core.Env.Exec.{done, got, updated, start}
use kubecopilot_core.Agent
use kubecopilot_core.Agent.Objects.{Settings, cluster_key}
use kubecopilot_core.Agent.Kept.{Observed, Mounted}
use kubecopilot_core.Agent.Observed.{reconcile-Mounted}
use kubecopilot_core.Agent.Cleanup.{own, none_left, reconcile-leaks}
use kubecopilot_core.Tests.Memory.{Cluster, memory, cluster, replaced}
use kubecopilot_core.Tests.Fixtures.{key, agent_named}

abbrev settings : Settings
settings = record {
  api_server_url = "";
  ca_data = "";
  encode_base64 = λ s. s;
  parse_quantity = λ s. ok s;
  marshal_names = λ names. ok "[]";
  marshal_servers = λ servers. ok "[]";
}

abbrev with_agent : KubeCopilotAgent → Cluster
with_agent agent = cluster ((Kind.agent, agent) ∷ [])

-- An agent with everything that its pod may be given.
abbrev equipped : KubeCopilotAgent
equipped = record (agent_named "ops" ("dev" ∷ [])) {
  spec = record (agent_named "ops" ("dev" ∷ [])).spec {
    skills_config_map = "skills";
    agent_config_map = "config";
    rbac = some (record { service_account_name = ""; rules = []; cluster_rules = [] });
    tool_servers = "search" ∷ [];
  };
}

reconcile-Mounted_example :
    Mounted
      (Agent.reconcile {env = memory} settings (key "ops") (start (with_agent equipped))).1.calls
reconcile-Mounted_example = reconcile-Mounted memory settings (key "ops") (with_agent equipped)

-- An agent with rights of its own, which is being deleted.
abbrev leaving : KubeCopilotAgent
leaving = record (agent_named "ops" []) {
  meta = record (object_meta "team-a" "ops") {
    finalizers = "kubecopilot.io/rbac-cleanup" ∷ [];
    deleting = true;
  };
}

abbrev timeout : ApiError
timeout = record { not_found = false; text = "timeout" }

-- Reads of cluster-scoped rights time out.
abbrev flaky_get : (k : Kind) → Key → Cluster → Result ApiError (Object k) × Cluster
flaky_get Kind.cluster_role k s = (err timeout, s)
flaky_get Kind.cluster_role_binding k s = (err timeout, s)
flaky_get kind k s = memory.get kind k s

abbrev flaky : Env
flaky = record memory { get = flaky_get }

abbrev left : KubeCopilotAgent
left = record leaving { meta = record leaving.meta { finalizers = [] } }

reconcile-leaks_example :
    Agent.reconcile {env = flaky} settings (key "ops") (start (with_agent leaving)) ≡ (
      done,
      record {
        state = record (with_agent leaving) {
          objects = replaced Kind.agent left (with_agent leaving).objects;
        };
        calls =
            updated Kind.agent left (ok left)
            ∷ got Kind.cluster_role (cluster_key "team-a-ops-clusterrole") (err timeout)
            ∷ got Kind.cluster_role_binding
                (cluster_key "team-a-ops-clusterrole-binding")
                (err timeout)
            ∷ got Kind.agent (key "ops") (ok leaving)
            ∷ [];
      },
    )
reconcile-leaks_example =
    reconcile-leaks flaky settings (key "ops") (with_agent leaving) (with_agent leaving) leaving
      refl refl refl refl (with_agent leaving) (with_agent leaving) _ timeout timeout refl refl []
      (ok left) (own refl none_left) refl
