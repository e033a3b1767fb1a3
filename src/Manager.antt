-- ===== src/Manager.antt =====
-- cmd/main.go: the operator's process, which sets up the manager and hands over to it.
pub mod Startup
use kubecopilot_core.Common.{
  String, Bool, true, false, not, List, [], ◌∷◌, ◌==◌, ◌++◌, if◌then◌else◌, Result, ok, err,
}
use kubecopilot_core.Api.Meta.{ApiError}

-- The command line's flags, less those of the logger.
pub record ManagerFlags : Type 0 where
  pub metrics_addr : String
  pub metrics_cert_path : String
  pub metrics_cert_name : String
  pub metrics_cert_key : String
  pub webhook_cert_path : String
  pub webhook_cert_name : String
  pub webhook_cert_key : String
  pub enable_leader_election : Bool
  pub probe_addr : String
  pub secure_metrics : Bool
  pub enable_http2 : Bool

abbrev pub default_flags : ManagerFlags
default_flags = record {
  metrics_addr = "0";
  metrics_cert_path = "";
  metrics_cert_name = "tls.crt";
  metrics_cert_key = "tls.key";
  webhook_cert_path = "";
  webhook_cert_name = "tls.crt";
  webhook_cert_key = "tls.key";
  enable_leader_election = false;
  probe_addr = ":8081";
  secure_metrics = true;
  enable_http2 = false;
}

-- The one field of `tls.Config` that the code sets.
pub record TlsConfig : Type 0 where
  pub next_protos : List String

-- `webhook.Options`
pub record WebhookOptions : Type 0 where
  pub tls_opts : List (TlsConfig → TlsConfig)
  pub cert_dir : String
  pub cert_name : String
  pub key_name : String

-- `metricsserver.Options`; `has_filter` tells whether the FilterProvider is set.
pub record MetricsOptions : Type 0 where
  pub bind_address : String
  pub secure_serving : Bool
  pub tls_opts : List (TlsConfig → TlsConfig)
  pub has_filter : Bool
  pub cert_dir : String
  pub cert_name : String
  pub key_name : String

-- `ctrl.Options`; the webhook server is what its options make of it.
pub record ManagerOptions : Type 0 where
  pub metrics : MetricsOptions
  pub webhook_server : WebhookOptions
  pub health_probe_bind_address : String
  pub leader_election : Bool
  pub leader_election_id : String

abbrev disable_http2 : TlsConfig → TlsConfig
disable_http2 c = record c { next_protos = "http/1.1" ∷ [] }

abbrev tls_opts : ManagerFlags → List (TlsConfig → TlsConfig)
tls_opts flags = if not flags.enable_http2 then [] ++ (disable_http2 ∷ []) else []

abbrev webhook_options : ManagerFlags → WebhookOptions
webhook_options flags =
    let options : WebhookOptions = record {
      tls_opts = tls_opts flags;
      cert_dir = "";
      cert_name = "";
      key_name = "";
    } in
    if not (flags.webhook_cert_path == "")
    then record options {
      cert_dir = flags.webhook_cert_path;
      cert_name = flags.webhook_cert_name;
      key_name = flags.webhook_cert_key;
    }
    else options

abbrev metrics_options : ManagerFlags → MetricsOptions
metrics_options flags =
    let options : MetricsOptions = record {
      bind_address = flags.metrics_addr;
      secure_serving = flags.secure_metrics;
      tls_opts = tls_opts flags;
      has_filter = flags.secure_metrics;
      cert_dir = "";
      cert_name = "";
      key_name = "";
    } in
    if not (flags.metrics_cert_path == "")
    then record options {
      cert_dir = flags.metrics_cert_path;
      cert_name = flags.metrics_cert_name;
      key_name = flags.metrics_cert_key;
    }
    else options

abbrev pub manager_options : ManagerFlags → ManagerOptions
manager_options flags = record {
  metrics = metrics_options flags;
  webhook_server = webhook_options flags;
  health_probe_bind_address = flags.probe_addr;
  leader_election = flags.enable_leader_election;
  leader_election_id = "430949b1.kubecopilot.io";
}

-- `rest.Config`, as far as the code reads it.
pub record RestConfig : Type 0 where
  pub host : String
  pub ca_data : String

-- The reconcilers; the agents' gets the address and the authority of the API server.
pub data Controller : Type 0 where
  agent : String → String → Controller
  message : Controller
  send : Controller
  cancel : Controller
  session : Controller
  policy : Controller
  tool_server : Controller
  agent_team : Controller

-- What main asks of controller-runtime, and the start of the webhook server beside it.
pub data Step : Type 0 where
  new_manager : ManagerOptions → Step
  set_up : Controller → Step
  add_healthz : String → Step
  add_readyz : String → Step
  serve_webhook : String → Step
  start_manager : Step

-- The libraries, with their state. `serve_webhook` only starts a goroutine, whose failure the code
-- logs and otherwise ignores.
pub record Runtime : Type 1 where
  pub State : Type 0
  pub act : Step → State → Result ApiError (Unit {0}) × State
  pub go : Step → State → State

pub data Event : Type 0 where
  did : Step → Result ApiError (Unit {0}) → Event
  spawned : Step → Event

pub record Process (rt : Runtime) : Type 0 where
  pub state : rt.State
  pub events : List Event

abbrev pub start : {rt : Runtime} → rt.State → Process rt
start s = record { state = s; events = [] }

-- A part of main: whether the process is still to go on, with what was done; `false` is os.Exit(1).
abbrev pub Main : Runtime → Type 0
Main rt = Process rt → Bool × Process rt

infixr 10 ◌and_then◌
pub ◌and_then◌ : {rt : Runtime} → Main rt → Main rt → Main rt
(m and_then k) p = if (m p).0 then k (m p).1 else (false, (m p).1)

abbrev pub after : {rt : Runtime} → Process rt → rt.State → Event → Process rt
after p s event = record { state = s; events = event ∷ p.events }

abbrev pub goes_on : Result ApiError (Unit {0}) → Bool
goes_on (ok _) = true
goes_on (err e) = false

-- `if err := …; err != nil { setupLog.Error(err, …); os.Exit(1) }`
pub or_exit : {rt : Runtime} → Step → Main rt
or_exit {rt = rt} step p = let (r, s) = rt.act step p.state in (goes_on r, after p s (did step r))

pub spawn : {rt : Runtime} → Step → Main rt
spawn {rt = rt} step p = (true, after p (rt.go step p.state) (spawned step))

-- `config` is what ctrl.GetConfigOrDie gives, and mgr.GetConfig gives it back.
pub main : {rt : Runtime} → RestConfig → ManagerFlags → Main rt
main config flags =
    or_exit (Step.new_manager (manager_options flags))
    and_then or_exit (Step.set_up (Controller.agent config.host config.ca_data))
    and_then or_exit (Step.set_up Controller.message)
    and_then or_exit (Step.set_up Controller.send)
    and_then or_exit (Step.set_up Controller.cancel)
    and_then or_exit (Step.set_up Controller.session)
    and_then or_exit (Step.set_up Controller.policy)
    and_then or_exit (Step.set_up Controller.tool_server)
    and_then or_exit (Step.set_up Controller.agent_team)
    and_then or_exit (Step.add_healthz "healthz")
    and_then or_exit (Step.add_readyz "readyz")
    and_then spawn (Step.serve_webhook ":8090")
    and_then or_exit Step.start_manager
