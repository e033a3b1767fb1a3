-- ===== src/Cli/Install.antt =====
-- cmd/cli/install.go: `kubecopilot install | uninstall`, which run kubectl.
use kubecopilot_core.Common.{String, not, ◌&&◌, List, [], ◌∷◌, ◌==◌, if◌then◌else◌, Result}
use kubecopilot_core.Common.Text.{◌<>◌}
use kubecopilot_core.Api.Meta.{ApiError}
use kubecopilot_core.Env.{Env, Stream}
use kubecopilot_core.Env.Exec.{stop, ◌>>◌}
use kubecopilot_core.Env.Console.{print}
use kubecopilot_core.Cli.{Flags, Command, error_of}

abbrev pub default_version : String
default_version = "latest"

abbrev release_base_url : String
release_base_url = "https://github.com/gfontana/kube-copilot-agent/releases"

abbrev pub latest_url : String
latest_url = release_base_url <> "/latest/download/install.yaml"

pub manifest_url : String → String
manifest_url version =
    if not (version == "") && not (version == default_version)
    then release_base_url <> "/download/" <> version <> "/install.yaml"
    else latest_url

pub kubectl_args : Flags → List String → List String
kubectl_args flags args =
    let args' =
      if not (flags.kubeconfig == "") then "--kubeconfig" ∷ flags.kubeconfig ∷ args else args in
    if not (flags.kube_ctx == "") then "--context" ∷ flags.kube_ctx ∷ args' else args'

-- `kubectl` is what running that program with its arguments answers.
module _ {env : Env} (kubectl : List String → Result ApiError (Unit {0})) where
  pub run_kubectl : Flags → List String → Command env
  unfolding kubectl_args
  run_kubectl flags args = stop (error_of (kubectl (kubectl_args flags args)))

  pub install : Flags → String → Command env
  unfolding run_kubectl manifest_url
  install flags version = do
    print Stream.stdout ("Installing KubeCopilot operator from " <> manifest_url version <> "\n")
    run_kubectl flags ("apply" ∷ "-f" ∷ manifest_url version ∷ [])

  pub uninstall : Flags → String → Command env
  unfolding run_kubectl manifest_url
  uninstall flags version = do
    print Stream.stdout ("Uninstalling KubeCopilot operator using " <> manifest_url version <> "\n")
    run_kubectl flags ("delete" ∷ "--ignore-not-found" ∷ "-f" ∷ manifest_url version ∷ [])
