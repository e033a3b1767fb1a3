-- ===== src/Api/Kinds.antt =====
-- The kinds of objects, and what the type parameter of a `client.Client` call picks: the Go type.
use kubecopilot_core.Api.Meta.{Key, ObjectMeta}
use kubecopilot_core.Api.Agent.{KubeCopilotAgent}
use kubecopilot_core.Api.Builtin.{
  ServiceAccount, Namespace, NetworkPolicy, Role, RoleBinding, Secret,
}
use kubecopilot_core.Api.Exchange.{
  KubeCopilotMessage, KubeCopilotCancel, KubeCopilotResponse, KubeCopilotChunk,
  KubeCopilotNotification,
}
use kubecopilot_core.Api.Policy.{KubeCopilotPolicy}
use kubecopilot_core.Api.Send.{KubeCopilotSend}
use kubecopilot_core.Api.Session.{KubeCopilotSession}
use kubecopilot_core.Api.Team.{KubeCopilotAgentTeam, KubeCopilotToolServer}
use kubecopilot_core.Api.Workload.{Pod, PersistentVolumeClaim, Service}

pub data Kind : Type 0 where
  agent send policy session team tool_server message cancel response chunk notification : Kind
  ns network_policy role role_binding cluster_role cluster_role_binding secret : Kind
  service_account pod persistent_volume_claim service : Kind

abbrev pub Object : Kind → Type 0
Object Kind.agent = KubeCopilotAgent
Object Kind.send = KubeCopilotSend
Object Kind.policy = KubeCopilotPolicy
Object Kind.session = KubeCopilotSession
Object Kind.team = KubeCopilotAgentTeam
Object Kind.tool_server = KubeCopilotToolServer
Object Kind.message = KubeCopilotMessage
Object Kind.cancel = KubeCopilotCancel
Object Kind.response = KubeCopilotResponse
Object Kind.chunk = KubeCopilotChunk
Object Kind.notification = KubeCopilotNotification
Object Kind.ns = Namespace
Object Kind.network_policy = NetworkPolicy
Object Kind.role = Role
Object Kind.role_binding = RoleBinding
Object Kind.secret = Secret
Object Kind.cluster_role = Role
Object Kind.cluster_role_binding = RoleBinding
Object Kind.service_account = ServiceAccount
Object Kind.pod = Pod
Object Kind.persistent_volume_claim = PersistentVolumeClaim
Object Kind.service = Service

abbrev pub meta_of : (k : Kind) → Object k → ObjectMeta
meta_of Kind.agent o = o.meta
meta_of Kind.send o = o.meta
meta_of Kind.policy o = o.meta
meta_of Kind.session o = o.meta
meta_of Kind.team o = o.meta
meta_of Kind.tool_server o = o.meta
meta_of Kind.message o = o.meta
meta_of Kind.cancel o = o.meta
meta_of Kind.response o = o.meta
meta_of Kind.chunk o = o.meta
meta_of Kind.notification o = o.meta
meta_of Kind.ns o = o.meta
meta_of Kind.network_policy o = o.meta
meta_of Kind.role o = o.meta
meta_of Kind.role_binding o = o.meta
meta_of Kind.secret o = o.meta
meta_of Kind.cluster_role o = o.meta
meta_of Kind.cluster_role_binding o = o.meta
meta_of Kind.service_account o = o.meta
meta_of Kind.pod o = o.meta
meta_of Kind.persistent_volume_claim o = o.meta
meta_of Kind.service o = o.meta

abbrev pub key_of : (k : Kind) → Object k → Key
key_of k o = record { namespace = (meta_of k o).namespace; name = (meta_of k o).name }
