-- ===== src/Cli/Dashboard.antt =====
-- cmd/cli/dashboard.go: `kubecopilot dashboard`, up to the port-forward, which client-go runs.
use kubecopilot_core.Common.{
  ℕ, String, Bool, ◌||◌, Option, none, some, List, [], ◌∷◌, ◌==◌, ◌=?◌, if◌then◌else◌, Result,
}
use kubecopilot_core.Common.Text.{◌<>◌, decimal}
use kubecopilot_core.Api.Meta.{ApiError}
use kubecopilot_core.Api.Workload.{Pod, Service, ServicePort}
use kubecopilot_core.Api.Kinds.{Kind}
use kubecopilot_core.Env.{Env, Selector, Stream}
use kubecopilot_core.Env.Exec.{Exec, pure, stop, list, list_selected, ◌>>=◌, ◌>>◌}
use kubecopilot_core.Env.Console.{print}
use kubecopilot_core.Cli.{
  Flags, Libraries, Command, fail, error_of, get_rest_config, with_client, ◌or_fail_with◌,
}

-- client-go's port-forward to a pod of a namespace: `prepare` builds the client set, the round
-- tripper and the forwarder, and `forward` runs it until it ends.
pub record PortForward (RestConfig : Type 0) : Type 0 where
  pub clientset : RestConfig → Result ApiError (Unit {0})
  pub round_tripper : RestConfig → Result ApiError (Unit {0})
  pub forwarder : String → String → List String → Result ApiError (Unit {0})
  pub forward : String → String → List String → Result ApiError (Unit {0})

abbrev pub is_web_ui : Service → Bool
is_web_ui s = s.meta.name == "kube-copilot-agent-ui" || s.meta.name == "web-ui"

pub target_service : List Service → Option Service
target_service [] = none
target_service (s ∷ services) =
    let rest = target_service services in if is_web_ui s then some s else rest

-- `target_port` is `TargetPort.IntVal`, which is 0 for a port that is named.
pub service_port : List ServicePort → ℕ
service_port [] = 3000
service_port (p ∷ _) = if p.target_port =? 0 then p.port else p.target_port

abbrev pub first_pod : List Pod → Option Pod
first_pod [] = none
first_pod (p ∷ _) = some p

module _ {env : Env} where
  abbrev pub or_missing : {A : Type 0} → Option A → String → Exec env (Option String) A
  or_missing none text = fail text
  or_missing (some a) text = pure a

  pub dashboard : (lib : Libraries) → PortForward lib.RestConfig → Flags → ℕ → Command env
  unfolding target_service service_port
  dashboard lib pf flags local_port = do
    config ← pure (get_rest_config lib flags) or_fail_with "failed to get kubeconfig"
    with_client lib flags
    services ← list Kind.service flags.namespace or_fail_with "failed to list services"
    service ←
        or_missing (target_service services)
          ("web-ui service not found in namespace " <> env.quote flags.namespace)
    let port = service_port service.ports
    pods ←
        list_selected Kind.pod flags.namespace (Selector.by_labels service.selector)
        or_fail_with "failed to list pods"
    pod ← or_missing (first_pod pods) ("no pods found for service " <> env.quote service.meta.name)
    pure (pf.clientset config) or_fail_with "failed to create clientset"
    pure (pf.round_tripper config) or_fail_with "failed to create round tripper"
    let ports = (decimal local_port <> ":" <> decimal port) ∷ []
    pure (pf.forwarder flags.namespace pod.meta.name ports)
        or_fail_with "failed to create port-forward"
    print Stream.stdout (
        "Forwarding "
        <> flags.namespace
        <> "/"
        <> pod.meta.name
        <> " → http://localhost:"
        <> decimal local_port
        <> "\n")
    stop (error_of (pf.forward flags.namespace pod.meta.name ports))
