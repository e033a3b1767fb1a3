-- ===== src/Manager/Startup.antt =====
-- In which order cmd/main.go starts the operator.
use kubecopilot_core.Common.{
  ◌≡◌, refl, Bool, true, false, List, [], ◌∷◌, ◌⊎◌, inl, inr, map, ◌++◌, Result, ok, err,
}
use kubecopilot_core.Api.Meta.{ApiError}
use kubecopilot_core.Manager.{
  ManagerFlags, RestConfig, Controller, Step, Runtime, Event, Process, Main, did, spawned, goes_on,
  start, after, or_exit, spawn, main, manager_options, ◌and_then◌,
}

-- A step whose error ends the process, or one that goes on beside it.
pub data Planned : Type 0 where
  checked : Step → Planned
  beside : Step → Planned

-- The plan was carried out behind `past`, up to its end or to the first checked step that failed.
abbrev pub Carried : List Planned → List Event → Bool → List Event → Type 0
Carried [] past exit events = (exit ≡ true) × (events ≡ past)
Carried (beside step ∷ plan) past exit events = Carried plan (spawned step ∷ past) exit events
Carried (checked step ∷ plan) past exit events =
    ((e : ApiError) × ((exit ≡ false) × (events ≡ did step (err e) ∷ past)))
    ⊎ Carried plan (did step (ok tt) ∷ past) exit events

abbrev controllers : RestConfig → List Controller
controllers config =
    Controller.agent config.host config.ca_data
    ∷ Controller.message
    ∷ Controller.send
    ∷ Controller.cancel
    ∷ Controller.session
    ∷ Controller.policy
    ∷ Controller.tool_server
    ∷ Controller.agent_team
    ∷ []

abbrev pub plan : RestConfig → ManagerFlags → List Planned
plan config flags =
    checked (Step.new_manager (manager_options flags))
    ∷ (map (λ c. checked (Step.set_up c)) (controllers config)
        ++ (checked (Step.add_healthz "healthz")
            ∷ checked (Step.add_readyz "readyz")
            ∷ beside (Step.serve_webhook ":8090")
            ∷ checked Step.start_manager
            ∷ []))

module _ {rt : Runtime} where
  -- How a part of main carries out a plan behind what was done.
  record Carries (steps : List Planned) (m : Main rt) (p : Process rt) : Type 0 where
    holds : Carried steps p.events (m p).0 (m p).1.events

  -- What `or_exit` does behind an answer.
  abbrev answered : Step → Process rt → rt.State → Result ApiError (Unit {0}) → Main rt
  answered step p s r _ = (goes_on r, after p s (did step r))

  answered-Carries :
      (step : Step) (steps : List Planned) (k : Main rt) (p : Process rt) (s : rt.State)
      (r : Result ApiError (Unit {0}))
      → Carries steps k (after p s (did step (ok tt)))
      → Carries (checked step ∷ steps) (answered step p s r and_then k) p
  unfolding ◌and_then◌
  answered-Carries step steps k p s (ok done) next = record { holds = inr next.holds }
  answered-Carries step steps k p s (err e) next = record { holds = inl (e, (refl, refl)) }

  or_exit-Carries :
      (step : Step) (steps : List Planned) (k : Main rt) (p : Process rt)
      → ((s : rt.State) → Carries steps k (after p s (did step (ok tt))))
      → Carries (checked step ∷ steps) (or_exit step and_then k) p
  unfolding or_exit ◌and_then◌
  or_exit-Carries step steps k p next =
      let answer = rt.act step p.state in
      record { holds = (answered-Carries step steps k p answer.1 answer.0 (next answer.1)).holds }

  spawn-Carries :
      (step : Step) (steps : List Planned) (k : Main rt) (p : Process rt)
      → Carries steps k (after p (rt.go step p.state) (spawned step))
      → Carries (beside step ∷ steps) (spawn step and_then k) p
  unfolding spawn ◌and_then◌
  spawn-Carries step steps k p next = record { holds = next.holds }

  last_answered-Carries :
      (step : Step) (p : Process rt) (s : rt.State) (r : Result ApiError (Unit {0}))
      → Carries (checked step ∷ []) (answered step p s r) p
  last_answered-Carries step p s (ok done) = record { holds = inr (refl, refl) }
  last_answered-Carries step p s (err e) = record { holds = inl (e, (refl, refl)) }

  last-Carries : (step : Step) (p : Process rt) → Carries (checked step ∷ []) (or_exit step) p
  unfolding or_exit
  last-Carries step p =
      let answer = rt.act step p.state in
      record { holds = (last_answered-Carries step p answer.1 answer.0).holds }

  main-Carries :
      (config : RestConfig) (flags : ManagerFlags) (s : rt.State)
      → Carries (plan config flags) (main {rt = rt} config flags) (start {rt = rt} s)
  unfolding main
  main-Carries config flags s = search (or_exit-Carries, spawn-Carries, last-Carries) depth 40

-- For any behaviour of the library, what main does from an empty record is its plan, step by step:
-- the manager with the options of the flags, the eight controllers, the two checks, the webhook
-- server beside, and the manager's run. Either every step of the plan was done without an error and
-- main returns, or its last event is the first checked step with an error, and the process exits.
pub main-Carried :
    (rt : Runtime) (config : RestConfig) (flags : ManagerFlags) (s : rt.State)
    → Carried
        (plan config flags)
        []
        (main {rt = rt} config flags (start {rt = rt} s)).0
        (main {rt = rt} config flags (start {rt = rt} s)).1.events
main-Carried rt config flags s = (main-Carries config flags s).holds
