-- ===== src/Cli.antt =====
-- cmd/cli, the `kubecopilot` command: what its subcommands share (cmd/cli/root.go). A subcommand is
-- an action that ends with the error that its `RunE` returns, and `none` is the nil error.
pub mod Table
pub mod Age
pub mod Agents
pub mod Sessions
pub mod Install
pub mod Dashboard
pub mod Invoke
use kubecopilot_core.Common.{
  ℤ, String, Option, none, some, not, ◌==◌, Result, ok, err, if◌then◌else◌,
}
use kubecopilot_core.Common.Text.{◌<>◌}
use kubecopilot_core.Api.Meta.{ApiError}
use kubecopilot_core.Env.{Env}
use kubecopilot_core.Env.Exec.{Exec, World, pure, stop, ◌on_error◌, serve}

-- The persistent flags; an empty text is a flag that is not set.
pub record Flags : Type 0 where
  pub kubeconfig : String
  pub namespace : String
  pub kube_ctx : String

-- The default of --kubeconfig; `home_config` is filepath.Join of a home directory with .kube/config,
-- and an empty text stands for a home or a variable that is not set.
pub default_kubeconfig : (String → String) → String → String → String
default_kubeconfig home_config home variable =
    let in_home = if not (home == "") then home_config home else "" in
    if not (variable == "") then variable else in_home

-- `ClientConfigLoadingRules.ExplicitPath` and `ConfigOverrides.CurrentContext`
pub record ClientRules : Type 0 where
  pub explicit_path : String
  pub current_context : String

abbrev default_rules : ClientRules
default_rules = record { explicit_path = ""; current_context = "" }

-- What client-go makes of the rules, and client.New of the configuration.
pub record Libraries : Type 1 where
  pub RestConfig : Type 0
  pub client_config : ClientRules → Result ApiError RestConfig
  pub new_client : RestConfig → Result ApiError (Unit {0})

abbrev pub Command : Env → Type 0
Command env = Exec env (Option String) (Unit {0})

-- `return fmt.Errorf(…)`
abbrev pub fail : {env : Env} {A : Type 0} → String → Exec env (Option String) A
fail text = stop (some text)

-- `v, err := …; if err != nil { return fmt.Errorf("context: %w", err) }`
infix 20 ◌or_fail_with◌
abbrev pub ◌or_fail_with◌ :
    {env : Env} {A : Type 0}
    → Exec env (Option String) (Result ApiError A)
    → String
    → Exec env (Option String) A
m or_fail_with context = m on_error λ e. fail (context <> ": " <> e.text)

abbrev pub error_of : Result ApiError (Unit {0}) → Option String
error_of (ok _) = none
error_of (err e) = some e.text

-- What `RunE` returns.
unfoldable pub execute : {env : Env} → Command env → World env → Option String × World env
execute m = serve none m

module _ (lib : Libraries) where
  pub get_rest_config : Flags → Result ApiError lib.RestConfig
  get_rest_config flags =
      let path =
        if not (flags.kubeconfig == "") then flags.kubeconfig else default_rules.explicit_path in
      let context =
        if not (flags.kube_ctx == "") then flags.kube_ctx else default_rules.current_context in
      lib.client_config (record { explicit_path = path; current_context = context })

  pub get_client : Flags → Result ApiError (Unit {0})
  unfolding get_rest_config
  get_client flags = elim (get_rest_config flags) [
    | ok config ↦ lib.new_client config
    | err e ↦ err e
  ]

  -- `c, err := getClient()`, with which every subcommand that asks the API server begins.
  abbrev pub with_client : {env : Env} → Flags → Exec env (Option String) (Unit {0})
  with_client flags = pure (get_client flags) or_fail_with "failed to create client"
