-- ===== src/Tests/Startup.antt =====
-- A start of the operator that one controller refuses.
use kubecopilot_core.Common.{false, [], Result, ok, err}
use kubecopilot_core.Api.Meta.{ApiError}
use kubecopilot_core.Manager.{Controller, Step, Runtime, RestConfig, default_flags, main, start}
use kubecopilot_core.Manager.Startup.{Carried, plan, main-Carried}

abbrev refusal : ApiError
refusal = record { not_found = false; text = "no such kind" }

abbrev answer : Step → Result ApiError (Unit {0})
answer (Step.set_up Controller.policy) = err refusal
answer step = ok tt

abbrev runtime : Runtime
runtime = record { State = Unit {0}; act = λ step s. (answer step, s); go = λ step s. s }

abbrev config : RestConfig
config = record { host = "https://10.0.0.1"; ca_data = "" }

main-Carried_example :
    Carried
      (plan config default_flags)
      []
      (main {rt = runtime} config default_flags (start {rt = runtime} tt)).0
      (main {rt = runtime} config default_flags (start {rt = runtime} tt)).1.events
main-Carried_example = main-Carried runtime config default_flags tt
