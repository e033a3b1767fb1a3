-- ===== src/Session/Guard.antt =====
-- Why internal/controller/kubecopilotsession_controller.go may write: what it has read before.
use kubecopilot_core.Common.{◌≡◌, Bool, true, false, ◌||◌, List, [], ◌∷◌, ◌==◌, ok, err}
use kubecopilot_core.Phases.{phase_terminating, phase_error}
use kubecopilot_core.Api.Meta.{Key, ApiError}
use kubecopilot_core.Api.Agent.{KubeCopilotAgent}
use kubecopilot_core.Api.Builtin.{Namespace, NetworkPolicy}
use kubecopilot_core.Api.Session.{KubeCopilotSession}
use kubecopilot_core.Api.Kinds.{Kind}
use kubecopilot_core.Env.{Env}
use kubecopilot_core.Env.Exec.{Call, got, updated, status_updated, deleted}
use kubecopilot_core.Env.Ensure.{Ensured}
use kubecopilot_core.Session.{activated, with_phase, with_finalizers}
use kubecopilot_core.Session.Objects.{
  session_finalizer, session_namespace_name, tenant_namespace, tenant_isolation_key,
  tenant_isolation, tenant_role_key, tenant_role, tenant_binding_key, tenant_binding,
}

abbrev pub agent_key : KubeCopilotSession → Key
agent_key session = record { namespace = session.meta.namespace; name = session.spec.agent_ref }

abbrev pub namespace_key : KubeCopilotSession → Key
namespace_key session = record { namespace = ""; name = session_namespace_name session }

abbrev pub is_strict : KubeCopilotSession → Bool
is_strict session = session.spec.isolation_level == "" || session.spec.isolation_level == "strict"

-- The session carries the finalizer: it was read so, or the update that adds it has succeeded.
pub data Claimed (env : Env) (key : Key) : KubeCopilotSession → List Call → Type 0 where
  was_claimed :
      {session : KubeCopilotSession}
      → session.meta.deleting ≡ false
      → env.contains_finalizer session.meta.finalizers session_finalizer ≡ true
      → Claimed env key session (got Kind.session key (ok session) ∷ [])
  now_claimed :
      {session₀ session : KubeCopilotSession}
      → session₀.meta.deleting ≡ false
      → Claimed env key session (
          updated Kind.session
            (with_finalizers (λ fs. env.add_finalizer fs session_finalizer) session₀)
            (ok session)
          ∷ got Kind.session key (ok session₀)
          ∷ [])

-- What the isolation level asks for: the policy under "strict" and under none, its absence under
-- "none", and nothing under another level.
pub data Isolated (session : KubeCopilotSession) (before : List Call) : List Call → Type 0 where
  closed :
      {calls : List Call}
      → is_strict session ≡ true
      → Ensured Kind.network_policy
          (tenant_isolation_key (session_namespace_name session))
          (tenant_isolation session (session_namespace_name session))
          before
          calls
      → Isolated session before calls
  removed :
      (np : NetworkPolicy)
      → (session.spec.isolation_level == "none") ≡ true
      → Isolated session before (
          deleted Kind.network_policy np (ok tt)
          ∷ got Kind.network_policy (tenant_isolation_key (session_namespace_name session)) (ok np)
          ∷ before)
  gone :
      (np : NetworkPolicy) (e : ApiError)
      → (session.spec.isolation_level == "none") ≡ true
      → e.not_found ≡ true
      → Isolated session before (
          deleted Kind.network_policy np (err e)
          ∷ got Kind.network_policy (tenant_isolation_key (session_namespace_name session)) (ok np)
          ∷ before)
  never_there :
      (e : ApiError)
      → (session.spec.isolation_level == "none") ≡ true
      → e.not_found ≡ true
      → Isolated session before (
          got Kind.network_policy (tenant_isolation_key (session_namespace_name session)) (err e)
          ∷ before)
  unknown_level :
      is_strict session ≡ false
      → (session.spec.isolation_level == "none") ≡ false
      → Isolated session before before

-- All that must be there before a session is declared active.
pub data Ready (env : Env) (key : Key) (session : KubeCopilotSession) : List Call → Type 0 where
  ready :
      {claim ns isolation role binding : List Call} (agent : KubeCopilotAgent)
      → Claimed env key session claim
      → Ensured Kind.ns
          (namespace_key session)
          (tenant_namespace session (session_namespace_name session))
          (got Kind.agent (agent_key session) (ok agent) ∷ claim)
          ns
      → Isolated session ns isolation
      → Ensured Kind.role
          (tenant_role_key (session_namespace_name session))
          (tenant_role session (session_namespace_name session))
          isolation
          role
      → Ensured Kind.role_binding
          (tenant_binding_key (session_namespace_name session))
          (tenant_binding session (session_namespace_name session))
          role
          binding
      → Ready env key session binding

-- Why a write to the session may follow the calls before it.
pub data Justified (env : Env) (key : Key) : KubeCopilotSession → List Call → Type 0 where
  claim :
      {session : KubeCopilotSession}
      → session.meta.deleting ≡ false
      → Justified env key
          (with_finalizers (λ fs. env.add_finalizer fs session_finalizer) session)
          (got Kind.session key (ok session) ∷ [])
  release :
      {session₀ session : KubeCopilotSession} {e : ApiError}
      → session₀.meta.deleting ≡ true
      → e.not_found ≡ true
      → Justified env key
          (with_finalizers (λ fs. env.remove_finalizer fs session_finalizer) session)
          (got Kind.ns (namespace_key session) (err e)
            ∷ status_updated Kind.session (with_phase phase_terminating session₀) (ok session)
            ∷ got Kind.session key (ok session₀)
            ∷ [])

pub data JustifiedStatus (env : Env) (key : Key) : KubeCopilotSession → List Call → Type 0 where
  activation :
      {session : KubeCopilotSession} {calls : List Call}
      → Ready env key session calls
      → JustifiedStatus env key (activated env (session_namespace_name session) session) calls
  termination :
      {session : KubeCopilotSession}
      → session.meta.deleting ≡ true
      → JustifiedStatus env key
          (with_phase phase_terminating session)
          (got Kind.session key (ok session) ∷ [])
  refusal :
      {o session : KubeCopilotSession} {calls : List Call} {e : ApiError}
      → Claimed env key session calls
      → e.not_found ≡ true
      → o.status.phase ≡ phase_error
      → JustifiedStatus env key o (got Kind.agent (agent_key session) (err e) ∷ calls)

-- Namespaces are deleted for a session that is being deleted.
pub data JustifiedDelete (env : Env) (key : Key) : Namespace → List Call → Type 0 where
  teardown :
      {session₀ session : KubeCopilotSession} {ns : Namespace}
      → session₀.meta.deleting ≡ true
      → ns.meta.deleting ≡ false
      → JustifiedDelete env key ns (
          got Kind.ns (namespace_key session) (ok ns)
          ∷ status_updated Kind.session (with_phase phase_terminating session₀) (ok session)
          ∷ got Kind.session key (ok session₀)
          ∷ [])

-- Every write of the log to the session, and every deletion of a namespace, is justified by the
-- calls before it.
abbrev pub Orderly : Env → Key → List Call → Type 0
Orderly env key [] = Unit
Orderly env key (updated Kind.session o r ∷ calls) =
    Justified env key o calls × Orderly env key calls
Orderly env key (status_updated Kind.session o r ∷ calls) =
    JustifiedStatus env key o calls × Orderly env key calls
Orderly env key (deleted Kind.ns o r ∷ calls) =
    JustifiedDelete env key o calls × Orderly env key calls
Orderly env key (_ ∷ calls) = Orderly env key calls
