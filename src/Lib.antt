-- ===== src/Lib.antt =====
-- KubeCopilot's operator: custom resources for AI agents in a Kubernetes cluster, the controllers
-- that reconcile them, and the webhook by which agents report back.
--
-- How the parts interact. A user creates a KubeCopilotSend; the send controller screens its message
-- against the policies of its namespace and posts it to the agent's service, whose answer is a queue
-- id. The agent posts chunks, responses and notifications to the webhook server, which records each
-- as a resource. A KubeCopilotCancel asks the agent to drop a queue id. A KubeCopilotMessage waits
-- for its answer instead. The policy controller validates policies, and only active ones are
-- enforced. An agent team sets its coordinator's delegates, a session gives a tenant a namespace of
-- its own, and a tool server is declared available.
--
-- Which file models which part (paths from the repository's root):
--   * Api and its children: api/v1/*_types.go, one record per struct. A pointer is an option, a map
--     an association list, a time a number of milliseconds. `ObjectMeta` has the fields that the
--     code looks at; `deleting` stands for a deletion timestamp.
--   * Phases: internal/controller/phases.go and the phases of single controllers.
--   * Policy: internal/controller/policy_evaluator.go. `evaluate` is EvaluatePolicies behind its
--     list, `scan_policies` and `scan_rules` its loops, `contains_pattern` containsPattern. Its
--     children: Words (ToLower, Fields and Join over code points), Windows and Reach (what a pattern
--     matches), Verdict and Verdict/Order (what is decided). Glob models filepath.Match on Unix: its
--     chunks, which stay at the first place behind a star that they match, and its stars, which
--     skip bytes. A text is UTF-8, since it comes from JSON, so a byte that is no rune occurs only
--     inside a rune that a star has entered; there it is `stray`.
--   * Send, Cancel, Message, PolicyController, ToolServer, Team, Agent, Session: the Reconcile method
--     of internal/controller/kubecopilot*_controller.go of that name (agentteam for Team). `handle`
--     is the method's body call by call, and `reconcile` runs it. Send/Payload has the request body, and
--     Session/Objects, Agent/Objects and Agent/Pods what the helpers create. `Settings` of
--     Agent/Objects holds the reconciler's fields and the library functions that it alone calls;
--     quantities are texts there.
--     Agent/Resources has the agent controller's helpers, Agent/Mounts what a pod must satisfy, and
--     Agent/Kept, Provided and Rights follow the log of a run helper by helper.
--     Send/Lifecycle has the machine of stages that a send moves through, and its histories.
--   * Webhook: the handlers of internal/webhook/server.go; Webhook/Routes its routes, and
--     Webhook/Names and Webhook/Chunks what is known of the names that it gives.
--   * Manager: cmd/main.go. `Runtime` is controller-runtime, with any answers, and `Step` what main
--     asks of it; an options record stands for the server that is made of it.
--   * Cli: the command line, cmd/cli. Table and Age are helpers.go, Agents, Sessions, Install,
--     Dashboard and Invoke the subcommands. A subcommand is an action whose prints stand in the log
--     between its calls. `ticks` of the stream is how many ticks the ticker gives before the
--     deadline; sort.Slice is an argument `order` with its documented law (`Sorts`), and
--     Invoke/Sorting has a sort that meets it. client-go, text/tabwriter, kubectl and the
--     port-forward are parameters.
--   * Env: what the code calls and this repository does not implement, as one record of parameters:
--     the API server behind controller-runtime's client, the agents behind the HTTP client, the
--     clock, and helpers of apimachinery. Nothing is assumed of it: each call takes a state to any
--     answer and any state, so other writers may act between two calls. Env/Exec is the monad of the
--     handlers, which logs every call with its answer; Env/Ensures, Env/Answers and Env/Ensure have
--     the rules by which a claim follows a handler call by call, and Env/Console those for what a
--     command prints. Env/Lawful states what an API server promises to a single writer; only the
--     claim that names it takes it for granted, and the server of Tests is shown to keep it.
--   * Common: shared names, Boolean tests, lists and texts over native numbers.
--   * Tests: an API server in memory and concrete runs.
--
-- Bounds. All loops are structural: over rules, policies, members, patterns and characters. The
-- window loop of the evaluator counts its remaining rounds, as many as there are places for the
-- window, and the printing of decimals has more fuel than a number has digits. Go's int of a
-- chunk's sequence is an integer of any size, but `next` of `invoke`, which adds one to it, wraps
-- where 64 bits end. Ages are in milliseconds.
--
-- Not modelled: generated code, the registration of schemes, the listener of the webhook
-- server, the registration of commands and flags, logging, and the agent container and the web UI,
-- which are Python.
-- The transition time of a condition is left out. encoding/json is a parameter (`Codec`, and the
-- decoding functions that the webhook's handlers take).
pub mod Cli
pub mod Common
pub mod Api
pub mod Env
pub mod Glob
pub mod Policy
pub mod Phases
pub mod Send
pub mod Cancel
pub mod Message
pub mod PolicyController
pub mod ToolServer
pub mod Team
pub mod Agent
pub mod Session
pub mod Webhook
pub mod Manager
pub mod Tests
