-- ===== src/Api/Builtin.antt =====
-- The built-in kinds of Kubernetes that the controllers read or create, with the fields that the
-- code sets or looks at; any other field of theirs keeps its zero value in the source.
use kubecopilot_core.Common.{String, Option, List}
use kubecopilot_core.Api.Meta.{ObjectMeta}
use kubecopilot_core.Api.Agent.{RbacRule}

pub record Namespace : Type 0 where
  pub meta : ObjectMeta

-- `metav1.LabelSelector` by its `MatchLabels`; the empty selector selects everything.
pub record LabelSelector : Type 0 where
  pub match_labels : List (String × String)

pub record NetworkPolicyPeer : Type 0 where
  pub pod_selector : Option LabelSelector
  pub namespace_selector : Option LabelSelector

pub record NetworkPolicyIngressRule : Type 0 where
  pub from : List NetworkPolicyPeer

pub record NetworkPolicySpec : Type 0 where
  pub pod_selector : LabelSelector
  pub policy_types : List String
  pub ingress : List NetworkPolicyIngressRule

pub record NetworkPolicy : Type 0 where
  pub meta : ObjectMeta
  pub spec : NetworkPolicySpec

-- `Role` and `ClusterRole` have the same fields, and so have their bindings.
pub record Role : Type 0 where
  pub meta : ObjectMeta
  pub rules : List RbacRule

pub record RoleRef : Type 0 where
  pub api_group : String
  pub kind : String
  pub name : String

pub record Subject : Type 0 where
  pub kind : String
  pub name : String
  pub namespace : String

pub record RoleBinding : Type 0 where
  pub meta : ObjectMeta
  pub role_ref : RoleRef
  pub subjects : List Subject

pub record ServiceAccount : Type 0 where
  pub meta : ObjectMeta

-- `content` is the field `Data`, and `string_content` is `StringData`: it holds the decoded bytes as text.
pub record Secret : Type 0 where
  pub meta : ObjectMeta
  pub content : List (String × String)
  pub string_content : List (String × String)
