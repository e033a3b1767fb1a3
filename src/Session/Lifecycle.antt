-- ===== src/Session/Lifecycle.antt =====
-- Runs of internal/controller/kubecopilotsession_controller.go against Session/Guard, helper by helper.
use kubecopilot_core.Common.{◌≡◌, Bool, true, false, not, List, [], ◌∷◌, ◌==◌, Result, ok, arith}
use kubecopilot_core.Api.Meta.{Key}
use kubecopilot_core.Api.Session.{KubeCopilotSession}
use kubecopilot_core.Api.Kinds.{Kind, Object}
use kubecopilot_core.Env.{Env}
use kubecopilot_core.Env.Exec.{Call, Exec, World, Outcome, start, got, ensure, in_reconcile, ◌>>=◌}
use kubecopilot_core.Env.Ensures.{
  Ensures, ensures_rules, run-Ensures, Ensures-call-error, Ensures-when-bind, Ensures-when-last,
  Ensures-if, Ensures-if-bind, Ensures-attempt-error, Ensures-bind-bind, Ensures-read-branch,
  Ensures-pure-bind, Ensures-stop-bind,
}
use kubecopilot_core.Env.Ensure.{
  Ensured, present, made, Refused, unreadable, unmade, ensure-Ensures, ensure-bind-Ensures,
}
use kubecopilot_core.Session.{
  ensure_rbac, reconcile_isolation, remove_network_policy, ensure_finalizer, await_namespace,
  handle_deletion, prepare, settle_session, handle, reconcile,
}
use kubecopilot_core.Session.Objects.{
  session_namespace_name, tenant_namespace, tenant_role_key, tenant_role, tenant_binding_key,
  tenant_binding,
}
use kubecopilot_core.Session.Guard.{
  namespace_key, Claimed, was_claimed, now_claimed, Isolated, closed, removed, gone, never_there,
  unknown_level, ready, claim, release, activation, termination, refusal, teardown, Orderly,
}

not-false : {b : Bool} → not b ≡ false → b ≡ true
not-false h = ground arith

not-true : {b : Bool} → not b ≡ true → b ≡ false
not-true h = ground arith

module _ (env : Env) (key : Key) where
  Ensured-Orderly :
      (k : Kind) (o_key : Key) (o : Object k) (before calls : List Call)
      → Ensured k o_key o before calls
      → Orderly env key before
      → Orderly env key calls
  Ensured-Orderly k o_key o before _ (present o') guarded = guarded
  Ensured-Orderly k o_key o before _ (made e o' missing) guarded = guarded

  Refused-Orderly :
      (k : Kind) (o_key : Key) (o : Object k) (before calls : List Call)
      → Refused k o_key o before calls
      → Orderly env key before
      → Orderly env key calls
  Refused-Orderly k o_key o before _ (unreadable e) guarded = guarded
  Refused-Orderly k o_key o before _ (unmade e e' missing) guarded = guarded

  abbrev KeepsGuard : {A : Type 0} → Result Outcome A → World env → Type 0
  KeepsGuard r w = Orderly env key w.calls

  ensure-Orderly :
      (k : Kind) (o_key : Key) (o : Object k) (f : Unit {0} → Exec env Outcome (Unit {0}))
      (w : World env)
      → Orderly env key w.calls
      → ((calls : List Call) (s : env.State)
          → Orderly env key calls
          → Ensured k o_key o w.calls calls
          → Ensures KeepsGuard (f tt) (record { state = s; calls = calls }))
      → Ensures KeepsGuard (in_reconcile (ensure k o_key o) >>= f) w
  ensure-Orderly k o_key o f w guarded next = Ensures-attempt-error _ _ _ _ (
      ensure-Ensures k o_key o w
        (λ e calls s refused.
          Ensures-stop-bind _ _ _ (Refused-Orderly k o_key o w.calls calls refused guarded))
        λ calls s ensured.
          next calls s (Ensured-Orderly k o_key o w.calls calls ensured guarded) ensured)

  module _ (session : KubeCopilotSession) (f : Unit {0} → Exec env Outcome (Unit {0}))
      (w : World env) (guarded : Orderly env key w.calls) where
    absence-Orderly :
        ((session.spec.isolation_level == "none") ≡ true)
        → ((calls : List Call) (s : env.State)
            → Orderly env key calls
            → Isolated session w.calls calls
            → Ensures KeepsGuard (f tt) (record { state = s; calls = calls }))
        → Ensures KeepsGuard (remove_network_policy (session_namespace_name session) >>= f) w
    unfolding remove_network_policy
    absence-Orderly no_policy next = Ensures-bind-bind _ _ _ _ (
        Ensures-read-branch _ _ _ _ _ _
          (λ np s.
            Ensures-call-error _ _ _ _ _ (λ _ s'. next _ s' guarded (removed np no_policy))
              λ e s'.
                Ensures-if-bind _ _ _ _ _
                  (λ missing.
                    Ensures-pure-bind _ _ _ (next _ s' guarded (gone np e no_policy missing)))
                  λ other. Ensures-stop-bind _ _ _ guarded)
          λ e s.
            Ensures-if-bind _ _ _ _ _
              (λ missing.
                Ensures-pure-bind _ _ _ (next _ s guarded (never_there e no_policy missing)))
              λ other. Ensures-stop-bind _ _ _ guarded)

    isolation-Orderly :
        ((calls : List Call) (s : env.State)
          → Orderly env key calls
          → Isolated session w.calls calls
          → Ensures KeepsGuard (f tt) (record { state = s; calls = calls }))
        → Ensures KeepsGuard (reconcile_isolation session (session_namespace_name session) >>= f) w
    unfolding reconcile_isolation
    isolation-Orderly next =
        Ensures-if-bind _ _ _ _ _
          (λ strict.
            ensure-Orderly _ _ _ f w guarded
              λ calls s kept ensured. next calls s kept (closed strict ensured))
          λ lax.
            Ensures-if-bind _ _ _ _ _ (λ no_policy. absence-Orderly no_policy next)
              λ other.
                Ensures-pure-bind _ _ _ (next w.calls w.state guarded (unknown_level lax other))

    rbac-Orderly :
        ((role binding : List Call) (s : env.State)
          → Orderly env key binding
          → Ensured Kind.role
              (tenant_role_key (session_namespace_name session))
              (tenant_role session (session_namespace_name session))
              w.calls
              role
          → Ensured Kind.role_binding
              (tenant_binding_key (session_namespace_name session))
              (tenant_binding session (session_namespace_name session))
              role
              binding
          → Ensures KeepsGuard (f tt) (record { state = s; calls = binding }))
        → Ensures KeepsGuard
            (in_reconcile (ensure_rbac session (session_namespace_name session)) >>= f)
            w
    rbac-Orderly next = Ensures-attempt-error _ _ _ _ (
        ensure-bind-Ensures _ _ _ w
          (λ e calls s refused.
            Ensures-stop-bind _ _ _ (Refused-Orderly _ _ _ w.calls calls refused guarded))
          _
          λ role s has_role.
            ensure-Ensures _ _ _ _
              (λ e calls s refused. Ensures-stop-bind _ _ _ (
                Refused-Orderly _ _ _ role calls refused
                  (Ensured-Orderly _ _ _ w.calls role has_role guarded)))
              λ binding s has_binding.
                next role binding s
                  (Ensured-Orderly _ _ _ role binding has_binding
                    (Ensured-Orderly _ _ _ w.calls role has_role guarded))
                  has_role has_binding)

  prepare-Orderly :
      (session : KubeCopilotSession) (w : World env)
      → Orderly env key w.calls
      → Claimed env key session w.calls
      → Ensures KeepsGuard (prepare session) w
  unfolding prepare
  prepare-Orderly session w guarded claimed =
      Ensures-call-error _ _ _ _ _
        (λ agent s.
          ensure-Orderly Kind.ns (namespace_key session)
            (tenant_namespace session (session_namespace_name session)) _ _ guarded
            λ ns s kept has_ns. isolation-Orderly session _ _ kept λ isolation s kept isolated.
              rbac-Orderly session _ _ kept λ role binding s kept has_role has_binding.
                search
                  (
                    ensures_rules,
                    activation (ready agent claimed has_ns isolated has_role has_binding),
                    kept,
                  )
                  depth 20)
        (λ e s. search (ensures_rules, refusal, claimed, guarded) depth 20)

  deletion-Orderly :
      (session₀ : KubeCopilotSession) (s : env.State)
      → session₀.meta.deleting ≡ true
      → Ensures KeepsGuard
          (handle_deletion session₀)
          (record { state = s; calls = got Kind.session key (ok session₀) ∷ [] })
  unfolding handle_deletion await_namespace
  deletion-Orderly session₀ s deleting =
      Ensures-when-last _ _ _
        (λ claimed.
          Ensures-call-error _ _ _ _ _
            (λ session s₁.
              Ensures-read-branch _ _ _ _ _ _
                (λ ns s₂. Ensures-bind-bind _ _ _ _ (
                  Ensures-when-bind _ _ _ _
                    (λ alive.
                      search (ensures_rules, termination, teardown, deleting, not-true alive) depth
                        20)
                    (λ dying. search (ensures_rules, termination, deleting) depth 20)))
                (λ e s₂. search (ensures_rules, termination, release, deleting) depth 20))
            (λ e s₁. search (ensures_rules, termination, deleting) depth 20))
        (λ unclaimed. tt)

  settle-Orderly :
      (session₀ : KubeCopilotSession) (s : env.State)
      → session₀.meta.deleting ≡ false
      → Ensures KeepsGuard
          (settle_session session₀)
          (record { state = s; calls = got Kind.session key (ok session₀) ∷ [] })
  unfolding settle_session ensure_finalizer
  settle-Orderly session₀ s living =
      Ensures-if-bind _ _ _ _ _
        (λ unclaimed.
          Ensures-call-error _ _ _ _ _
            (λ session s₁. prepare-Orderly session _ (claim living, tt) (now_claimed living))
            (λ e s₁. Ensures-stop-bind _ _ _ (claim living, tt)))
        (λ claimed.
          Ensures-pure-bind _ _ _
            (prepare-Orderly session₀ _ tt (was_claimed living (not-false claimed))))

  handle-Orderly : (s : env.State) → Ensures KeepsGuard (handle key) (start {env = env} s)
  unfolding handle
  handle-Orderly s =
      Ensures-call-error _ _ _ _ _
        (λ session s₁.
          Ensures-if _ _ _ _ (λ deleting. deletion-Orderly session s₁ deleting)
            (λ living. settle-Orderly session s₁ living))
        (λ e s₁. search ensures_rules)

-- In a run of the session controller from an empty log, whatever the environment answers: the
-- session is updated only to add the finalizer to one that is not being deleted, or to remove it
-- right behind the answer NotFound for its namespace, its deletion and the phase Terminating being
-- recorded; a status that is written declares it active behind all of Ready (the finalizer, the
-- agent, the namespace, the isolation of its level, the role and the binding, in this order), or
-- terminating behind the read of a session that is being deleted, or in error behind the answer
-- NotFound for its agent; and a namespace is deleted only where it stands in the way of such a
-- deletion and is not being deleted.
pub reconcile-Orderly :
    (env : Env) (key : Key) (s : env.State)
    → Orderly env key (reconcile {env = env} key (start s)).1.calls
unfolding reconcile
reconcile-Orderly env key s =
    run-Ensures (λ o w. Orderly env key w.calls) (handle key) (start s) (handle-Orderly env key s)
