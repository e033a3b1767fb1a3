-- ===== src/Session/Converges.antt =====
-- That internal/controller/kubecopilotsession_controller.go comes to rest.
use mathlib.Core.Path.{subst}
use kubecopilot_core.Common.{
  ◌≡◌, refl, sym, ap, String, true, false, not, ◌||◌, ◌==◌, List, [], ◌∷◌, Result, ok, err,
}
use kubecopilot_core.Common.Text.{◌<>◌}
use kubecopilot_core.Api.Meta.{Key, ApiError}
use kubecopilot_core.Api.Agent.{KubeCopilotAgent}
use kubecopilot_core.Api.Session.{KubeCopilotSession}
use kubecopilot_core.Api.Kinds.{Kind}
use kubecopilot_core.Env.{Env}
use kubecopilot_core.Env.Exec.{
  Call, Exec, World, Outcome, done, failed, got, status_updated, start, settle, run, or_fail,
  update_status, pure, stop, ◌>>◌,
}
use kubecopilot_core.Env.Ensures.{
  Ensures, ensures_rules, Handled, Ensures-pure-bind, Ensures-attempt-error, Ensures-bind-pure,
  Ensures-pure, Ensures-stop-bind, run-Ensures,
}
use kubecopilot_core.Env.Answers.{
  Ensures-if-known, Ensures-if-bind-known, Ensures-error-known, Ensures-error-seen,
}
use kubecopilot_core.Env.Lawful.{
  Found, Keeps, Lawful, ensure-Found, in_reconcile-Found, ensure-rests, in_reconcile-rests,
}
use kubecopilot_core.Session.Objects.{
  session_finalizer, session_namespace_name, tenant_isolation_key, tenant_role_key,
  tenant_binding_key, tenant_namespace, tenant_isolation, tenant_role, tenant_binding,
}
use kubecopilot_core.Session.{
  handle, settle_session, prepare, ensure_finalizer, reconcile_isolation, ensure_rbac, activated,
  reconcile,
}

abbrev pub agent_key : KubeCopilotSession → Key
agent_key session = record { namespace = session.meta.namespace; name = session.spec.agent_ref }

-- What a session that is isolated is given, in its namespace `ns_name`.
pub record Provisioned (env : Env) (ns_name : String) (s : env.State) : Type 0 where
  pub namespaced : Found env Kind.ns (record { namespace = ""; name = ns_name }) s
  pub isolated : Found env Kind.network_policy (tenant_isolation_key ns_name) s
  pub role_made : Found env Kind.role (tenant_role_key ns_name) s
  pub role_bound : Found env Kind.role_binding (tenant_binding_key ns_name) s

Provisioned-kept :
    (env : Env) (ns_name : String) (s s' : env.State)
    → Keeps env s s'
    → Provisioned env ns_name s
    → Provisioned env ns_name s'
Provisioned-kept env ns_name s s' keeps p = record {
  namespaced = keeps Kind.ns (record { namespace = ""; name = ns_name }) p.namespaced;
  isolated = keeps Kind.network_policy (tenant_isolation_key ns_name) p.isolated;
  role_made = keeps Kind.role (tenant_role_key ns_name) p.role_made;
  role_bound = keeps Kind.role_binding (tenant_binding_key ns_name) p.role_bound;
}

-- A session to be served, with its finalizer and isolated, and its agent, are read in the state `s`.
pub record Served (env : Env) (key : Key) (session : KubeCopilotSession) (s : env.State)
    : Type 0 where
  pub agent : KubeCopilotAgent
  pub read : env.get Kind.session key s ≡ (ok session, s)
  pub stays : session.meta.deleting ≡ false
  pub finalized : env.contains_finalizer session.meta.finalizers session_finalizer ≡ true
  pub strict :
      (session.spec.isolation_level == "" || session.spec.isolation_level == "strict") ≡ true
  pub agent_read : env.get Kind.agent (agent_key session) s ≡ (ok agent, s)

module _ {env : Env} (key : Key) (session : KubeCopilotSession) (lawful : Lawful env)
    (s : env.State) (served : Served env key session s) where
  abbrev ns_name : String
  ns_name = session_namespace_name session

  abbrev ns_key : Key
  ns_key = record { namespace = ""; name = ns_name }

  abbrev np_key : Key
  np_key = tenant_isolation_key ns_name

  abbrev Good : Result Outcome (Unit {0}) → World env → Type 0
  Good r w = settle r ≡ done → Provisioned env ns_name w.state

  refused : (e : ApiError) (w : World env) → Good (err (failed e)) w
  refused e w h = cc

  Rest : Unit {0} → Exec env Outcome (Unit {0})
  Rest _ = or_fail (update_status Kind.session (activated env ns_name session)) >> pure tt

  status-Provisioned : (w : World env) → Provisioned env ns_name w.state → Ensures Good (Rest tt) w
  unfolding Rest
  status-Provisioned w p =
      Ensures-error-seen _ _ _ _ w
        (λ o s' e.
          let keeps = lawful.status_keeps _ (ok o) w.state s' e in
          Ensures-pure tt _ λ h. Provisioned-kept env ns_name w.state s' keeps p)
        λ e s' h. Ensures-stop-bind (failed e) _ _ λ bad. cc

  rbac-Provisioned :
      (w : World env)
      → Found env Kind.ns (record { namespace = ""; name = ns_name }) w.state
      → Found env Kind.network_policy (tenant_isolation_key ns_name) w.state
      → Ensures
          (λ r w'. Handled Good (λ e. stop (failed e)) Rest (ok r) w')
          (ensure_rbac session ns_name)
          w
  rbac-Provisioned w ns np =
      ensure-Found lawful Kind.role _ (tenant_role session ns_name) w refl _
        (λ e w'. Ensures-stop-bind _ _ _ (refused e w'))
        λ w₁ role keeps₁. Ensures-bind-pure _ w₁ (
          ensure-Found lawful Kind.role_binding _ (tenant_binding session ns_name) w₁ refl pure
            (λ e w'. Ensures-stop-bind _ _ _ (refused e w'))
            λ w₂ binding keeps₂. Ensures-pure tt w₂ (
              status-Provisioned w₂ (record {
                namespaced = keeps₂ Kind.ns ns_key (keeps₁ Kind.ns ns_key ns);
                isolated = keeps₂ Kind.network_policy np_key (keeps₁ Kind.network_policy np_key np);
                role_made = keeps₂ Kind.role (tenant_role_key ns_name) role;
                role_bound = binding;
              })))

  handle-Provisioned : Ensures Good (handle key) (start {env = env} s)
  unfolding handle settle_session prepare ensure_finalizer reconcile_isolation Rest
  handle-Provisioned = Ensures-error-known _ _ _ _ _ served.read (
      Ensures-if-known false _ _ _ served.stays (
        Ensures-if-bind-known false _ _ _ _ (ap not served.finalized) (
          Ensures-pure-bind session _ _ (
            Ensures-error-known _ _ _ _ _ served.agent_read (
              in_reconcile-Found lawful Kind.ns _ (tenant_namespace session ns_name) _ refl _
                refused
                λ w₁ ns keeps₁. Ensures-if-bind-known true _ _ _ _ served.strict (
                  in_reconcile-Found lawful Kind.network_policy _ (tenant_isolation session ns_name)
                    w₁ refl _ refused
                    λ w₂ np keeps₂.
                      Ensures-attempt-error _ _ _ w₂
                        (rbac-Provisioned w₂ (keeps₂ Kind.ns ns_key ns) np)))))))

-- Reads, and writes of the status of a session.
abbrev pub Quiet : List Call → Type 0
Quiet [] = Unit
Quiet (got k key r ∷ calls) = Quiet calls
Quiet (status_updated Kind.session o r ∷ calls) = Quiet calls
Quiet (_ ∷ calls) = ⊥

module _ {env : Env} (key : Key) (session : KubeCopilotSession) (s : env.State)
    (served : Served env key session s)
    (given : Provisioned env (session_namespace_name session) s) where
  abbrev Calm : {A : Type 0} → Result Outcome A → World env → Type 0
  Calm r w = Quiet w.calls

  handle-Quiet : Ensures Calm (handle key) (start {env = env} s)
  unfolding handle settle_session prepare ensure_finalizer reconcile_isolation
  handle-Quiet =
      let name = session_namespace_name session in
      Ensures-error-known _ _ _ _ _ served.read (
        Ensures-if-known false _ _ _ served.stays (
          Ensures-if-bind-known false _ _ _ _ (ap not served.finalized) (
            Ensures-pure-bind session _ _ (
              Ensures-error-known _ _ _ _ _ served.agent_read (
                in_reconcile-rests Kind.ns _ (tenant_namespace session name) _ given.namespaced _ (
                  Ensures-if-bind-known true _ _ _ _ served.strict (
                    in_reconcile-rests Kind.network_policy _ (tenant_isolation session name) _
                      given.isolated _
                      (Ensures-attempt-error _ _ _ _ (
                        ensure-rests Kind.role _ (tenant_role session name) _ given.role_made _ (
                          Ensures-bind-pure _ _ (
                            ensure-rests Kind.role_binding _ (tenant_binding session name) _
                              given.role_bound pure
                              (Ensures-pure tt _ (search ensures_rules)))))))))))))

-- In a lawful API server, where a session that is to be isolated, with its finalizer, and its agent
-- are read, a run that ends without an error and without a wish to run again leaves the namespace,
-- the isolation, the role and the binding in place; and a run from the state that it leaves, where
-- a session of that name is read that is to be served likewise, only reads and writes the session's
-- status.
pub reconcile-converges :
    (env : Env) (key : Key) (session session' : KubeCopilotSession) (s : env.State)
    → Lawful env
    → Served env key session s
    → (reconcile {env = env} key (start s)).0 ≡ done
    → Served env key session' (reconcile {env = env} key (start s)).1.state
    → session'.meta.name ≡ session.meta.name
    → Provisioned env (session_namespace_name session) (reconcile {env = env} key (start s)).1.state
      × Quiet
          (reconcile {env = env} key (start (reconcile {env = env} key (start s)).1.state)).1.calls
unfolding reconcile
reconcile-converges env key session session' s lawful served ended served' named =
    let s' = (run (handle key) (start {env = env} s)).1.state in
    let given =
      run-Ensures (λ o w. o ≡ done → Provisioned env (session_namespace_name session) w.state)
        (handle key) (start s) (handle-Provisioned key session lawful s served) ended in
    let given' : Provisioned env (session_namespace_name session') s' =
      subst (λ n. Provisioned env n s') (ap (λ n. "kc-session-" <> n) (sym named)) given in
    (
      given,
      run-Ensures (λ o w. Quiet w.calls) (handle key) (start s')
          (handle-Quiet key session' s' served' given'),
    )
