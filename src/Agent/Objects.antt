-- ===== src/Agent/Objects.antt =====
-- The objects that internal/controller/kubecopilotagent_controller.go creates for an agent.
use kubecopilot_core.Common.{
  String, true, not, Option, none, some, List, [], ◌∷◌, ◌==◌, if◌then◌else◌, Result,
}
use kubecopilot_core.Common.Text.{◌<>◌}
use kubecopilot_core.Api.Meta.{ApiError, Key, ObjectMeta, object_meta}
use kubecopilot_core.Api.Agent.{KubeCopilotAgent, RbacRule, AgentRbac}
use kubecopilot_core.Api.Builtin.{Role, RoleBinding, Subject, Secret, ServiceAccount}
use kubecopilot_core.Api.Workload.{PersistentVolumeClaim, Service}

pub record McpServerConfig : Type 0 where
  pub name : String
  pub url : String
  pub transport : String

-- The reconciler's own fields, and the library functions that only it calls. `parse_quantity` is
-- resource.MustParse: an error stands for its panic, which controller-runtime turns into the error
-- of the run.
pub record Settings : Type 0 where
  pub api_server_url : String
  pub ca_data : String
  pub encode_base64 : String → String
  pub parse_quantity : String → Result ApiError String
  pub marshal_names : List String → Result ApiError String
  pub marshal_servers : List McpServerConfig → Result ApiError String

abbrev pub default_agent_image : String
default_agent_image = "quay.io/gfontana/kube-github-copilot-agent-server:v1.0"

abbrev pub rbac_finalizer_name : String
rbac_finalizer_name = "kubecopilot.io/rbac-cleanup"

abbrev pub or_else : String → String → String
or_else text default = if text == "" then default else text

abbrev pub in_namespace : KubeCopilotAgent → String → Key
in_namespace agent name = record { namespace = agent.meta.namespace; name = name }

abbrev pub cluster_key : String → Key
cluster_key name = record { namespace = ""; name = name }

abbrev service_account_name : Option AgentRbac → String → String
service_account_name none default = default
service_account_name (some rbac) default = or_else rbac.service_account_name default

abbrev pub agent_service_account_name : KubeCopilotAgent → String
agent_service_account_name agent = service_account_name agent.spec.rbac (agent.meta.name <> "-sa")

abbrev pub cluster_role_name : KubeCopilotAgent → String
cluster_role_name agent = agent.meta.namespace <> "-" <> agent.meta.name <> "-clusterrole"

-- `setOwnerRef` on a new object
abbrev pub owned_meta : KubeCopilotAgent → String → ObjectMeta
owned_meta agent name = record (object_meta agent.meta.namespace name) {
  owner_references =
      (record {
        api_version = "kubecopilot.io/v1";
        kind = "KubeCopilotAgent";
        name = agent.meta.name;
        uid = agent.meta.uid;
        controller = true;
      })
      ∷ [];
}

abbrev pub claim_of : KubeCopilotAgent → String → String → PersistentVolumeClaim
claim_of agent name storage = record {
  meta = owned_meta agent name;
  access_modes = "ReadWriteOnce" ∷ [];
  requests = ("storage", storage) ∷ [];
}

abbrev pub service_of : KubeCopilotAgent → String → String → Service
service_of agent name pod_name = record {
  meta = owned_meta agent name;
  selector = ("app", pod_name) ∷ [];
  ports = (record { port = 8080; target_port = 8080 }) ∷ [];
  type = "ClusterIP";
}

abbrev pub service_account_of : KubeCopilotAgent → String → ServiceAccount
service_account_of agent name = record { meta = owned_meta agent name }

abbrev pub role_of : KubeCopilotAgent → List RbacRule → String → Role
role_of agent rules name = record { meta = owned_meta agent name; rules = rules }

abbrev pub subjects_of : KubeCopilotAgent → String → List Subject
subjects_of agent sa_name =
    (record { kind = "ServiceAccount"; name = sa_name; namespace = agent.meta.namespace }) ∷ []

abbrev pub role_binding_of : KubeCopilotAgent → String → String → RoleBinding
role_binding_of agent role_name sa_name = record {
  meta = owned_meta agent (role_name <> "-binding");
  role_ref = record { api_group = "rbac.authorization.k8s.io"; kind = "Role"; name = role_name };
  subjects = subjects_of agent sa_name;
}

abbrev pub cluster_role_of : List RbacRule → String → Role
cluster_role_of rules name = record { meta = object_meta "" name; rules = rules }

abbrev pub cluster_role_binding_of : KubeCopilotAgent → String → String → RoleBinding
cluster_role_binding_of agent role_name sa_name = record {
  meta = object_meta "" (role_name <> "-binding");
  role_ref = record {
    api_group = "rbac.authorization.k8s.io";
    kind = "ClusterRole";
    name = role_name;
  };
  subjects = subjects_of agent sa_name;
}

abbrev pub kubeconfig_secret_of : KubeCopilotAgent → String → String → Secret
kubeconfig_secret_of agent name kubeconfig = record {
  meta = owned_meta agent name;
  content = [];
  string_content = ("config", kubeconfig) ∷ [];
}

abbrev ca_block : Settings → String
ca_block settings =
    if not (settings.ca_data == "")
    then "    certificate-authority-data: " <> settings.encode_base64 settings.ca_data
    else "    certificate-authority: /var/run/secrets/kubernetes.io/serviceaccount/ca.crt"

abbrev pub build_kubeconfig : Settings → KubeCopilotAgent → String → String
build_kubeconfig settings agent sa_name =
    "apiVersion: v1\nkind: Config\nclusters:\n- cluster:\n    server: "
    <> or_else settings.api_server_url "https://kubernetes.default.svc"
    <> "\n"
    <> ca_block settings
    <> "\n  name: default\ncontexts:\n- context:\n    cluster: default\n    namespace: "
    <> agent.meta.namespace
    <> "\n    user: "
    <> sa_name
    <> "\n  name: default\ncurrent-context: default\nusers:\n- name: "
    <> sa_name
    <> "\n  user:\n    tokenFile: /var/run/secrets/kubernetes.io/serviceaccount/token\n"
