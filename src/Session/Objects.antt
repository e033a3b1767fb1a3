-- ===== src/Session/Objects.antt =====
-- The objects that internal/controller/kubecopilotsession_controller.go creates for a session.
use kubecopilot_core.Common.{String, some, none, List, [], ◌∷◌}
use kubecopilot_core.Common.Text.{◌<>◌}
use kubecopilot_core.Api.Meta.{Key, object_meta}
use kubecopilot_core.Api.Builtin.{Namespace, NetworkPolicy, Role, RoleBinding}
use kubecopilot_core.Api.Session.{KubeCopilotSession}

abbrev pub session_finalizer : String
session_finalizer = "kubecopilot.io/session-cleanup"

abbrev pub label_tenant_id : String
label_tenant_id = "kubecopilot.io/tenant-id"

abbrev pub label_session_ns : String
label_session_ns = "kubecopilot.io/session"

abbrev pub session_namespace_name : KubeCopilotSession → String
session_namespace_name session = "kc-session-" <> session.meta.name

abbrev pub tenant_label : KubeCopilotSession → List (String × String)
tenant_label session = (label_tenant_id, session.spec.tenant_id) ∷ []

abbrev pub tenant_namespace : KubeCopilotSession → String → Namespace
tenant_namespace session name = record {
  meta = record (object_meta "" name) {
    labels = (label_tenant_id, session.spec.tenant_id) ∷ (label_session_ns, session.meta.name) ∷ [];
  };
}

abbrev pub tenant_isolation_key : String → Key
tenant_isolation_key ns_name = record { namespace = ns_name; name = "tenant-isolation" }

-- All pods of the namespace are selected, and ingress comes from pods of the namespace only.
abbrev pub tenant_isolation : KubeCopilotSession → String → NetworkPolicy
tenant_isolation session ns_name = record {
  meta = record (object_meta ns_name "tenant-isolation") { labels = tenant_label session };
  spec = record {
    pod_selector = record { match_labels = [] };
    policy_types = "Ingress" ∷ [];
    ingress =
        (record {
          from =
              (record {
                pod_selector = some (record { match_labels = [] });
                namespace_selector = none;
              })
              ∷ [];
        })
        ∷ [];
  };
}

abbrev pub tenant_role_key : String → Key
tenant_role_key ns_name = record { namespace = ns_name; name = "tenant-session-role" }

abbrev pub tenant_role : KubeCopilotSession → String → Role
tenant_role session ns_name = record {
  meta = record (object_meta ns_name "tenant-session-role") { labels = tenant_label session };
  rules =
      (record {
        verbs = "get" ∷ "list" ∷ "watch" ∷ "create" ∷ "update" ∷ "patch" ∷ "delete" ∷ [];
        api_groups = "kubecopilot.io" ∷ [];
        resources =
            "kubecopilotagents" ∷ "kubecopilotmessages" ∷ "kubecopilotsends"
            ∷ "kubecopilotresponses" ∷ "kubecopilotchunks" ∷ "kubecopilotcancels" ∷ [];
        resource_names = [];
        non_resource_urls = [];
      })
      ∷ [];
}

abbrev pub tenant_binding_key : String → Key
tenant_binding_key ns_name = record { namespace = ns_name; name = "tenant-session-binding" }

abbrev pub tenant_binding : KubeCopilotSession → String → RoleBinding
tenant_binding session ns_name = record {
  meta = record (object_meta ns_name "tenant-session-binding") { labels = tenant_label session };
  role_ref = record {
    api_group = "rbac.authorization.k8s.io";
    kind = "Role";
    name = "tenant-session-role";
  };
  subjects =
      (record {
        kind = "Group";
        name = "kubecopilot:tenant:" <> session.spec.tenant_id;
        namespace = "";
      })
      ∷ [];
}
