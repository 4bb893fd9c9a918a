-- ===== src/Lib.antt =====
-- agentops-operator: a Kubernetes operator that runs LLM agents and flows of agent steps, and the
-- ark CLI, which runs the same flows without a cluster.
--
-- A flow is a list of steps with dependencies between them. The operator and the CLI share the
-- flow logic of internal/flow: a validated flow gets one status per step; in every pass the loops
-- of finished steps are evaluated, the pending steps whose dependencies are complete are started
-- or skipped, results are recorded, and the phase of the flow is computed from the statuses, the
-- token sums and the clock.
--
-- The operator's reconcilers turn resources into Deployments, Services, flows and tasks on a Redis
-- stream. The agents poll the tasks, let a model answer them with the help of tools, and send back
-- results, and tokens where a client of the webhook server listens to the events of a flow.
--
-- Files and the code they model:
--   Prelude       names shared by all modules: Boolean tests, lists, Go's int64 as bit patterns
--                 (Prelude/Int64), Go's strings and strconv functions (Prelude/Text,
--                 Prelude/Decimal), and its maps with string keys as lists of pairs (Prelude/Maps)
--   Api           the resources of api/v1alpha1, one record per struct and one data type per enum
--   Flow/Dag      internal/flow/dag.go: ValidateDAG is validate_dag, its closure dfs is dfs with
--                 the loop visit, the map color a function from names
--   Flow/Status   internal/flow/dag.go: the map of BuildStatusByName as reads (status_of) and
--                 writes (modify) on the array that its pointers point into, DepsSucceeded
--   Flow/Template internal/flow/template.go: IsTruthy, ResolvePrompt, BuildTemplateData
--   Flow/Step     internal/flow/step.go: InitializeSteps, EvaluateLoops, ExtractJSON,
--                 ParseOutputJSON
--   Flow/Phase    internal/flow/phase.go: SumStepTokens, EnforceTimeout, UpdateFlowPhase
--   Local/Config, World internal/ark/local/executor.go: agentConfig, buildMCPManager; the records
--                 of results and events
--   Local/Executor internal/ark/local/executor.go: Run is run, its loop run_loop, with
--                 collectReadySteps, runStep and the loop that collects the results
--   Local/Loader  internal/ark/loader.go: ParseDocs is parse_docs, splitDocs is split_docs
--   Local/Cli     cmd/ark/main.go: runFlow is run_flow, the command validate is validate_command,
--                 initProject is init_project, with selectFlow, dryRun, buildProviderFunc and the
--                 printing of events and results
--   Operator/Redis, Results, Submit, Reconcile   internal/controller/arkflow_controller.go:
--                 collectResults, submitPendingSteps with submitTask, and Reconcile with its
--                 guards
--   Operator/Events   internal/controller/arkevent_controller.go: Cron is mostRecentSchedule, Fire
--                 is fire with buildFlow, Trigger the reconcilers of the three sources, Reconcile
--                 is Reconcile, Watches is flowToTriggers
--   Operator/Agents   internal/controller/arkagent_controller.go: Budget is reconcileDailyBudget,
--                 Prompt the system prompt and the watches, Env is buildEnvVars, Reconcile is
--                 Reconcile with buildDeployment, reconcileDeployment and syncStatus
--   Operator/Services internal/controller/arkservice_controller.go: Reconcile is
--                 reconcile_ark_service, with buildService and findServicesForAgent
--   Operator/Memories internal/controller/arkmemory_controller.go and arksettings_controller.go
--   Operator/History  the life of a flow: the writes of Reconcile and the edits of users as steps
--                 of a relation
--   Operator/Webhook  internal/controller/trigger_webhook_server.go: ServeHTTP is serve_http; Sync
--                 is handleSync with waitForFlow, Sse is handleSSE with startTokenStream,
--                 drainTokens, emitStepEvents and emitFlowTerminal
--   Runtime/Queue internal/agent/queue/queue.go: every operation as the Redis commands that it
--                 sends
--   Runtime/Config internal/agent/config/config.go: Load is load
--   Runtime/Tools internal/agent/mcp/mcp.go: NewManager is new_manager, CallTool is call_mcp_tool
--   Runtime/Provider  internal/agent/providers: the registry, with Anthropic, OpenAi and Mock,
--                 whose RunTask is run_task; Conversation is an independent description of a
--                 conversation with a model
--   Runtime/Runner internal/agent/runner/runner.go and internal/agent/health/health.go:
--                 buildTools, CallTool with callWebhook, and the readiness probe
--   Runtime/Agent runtime/agent/main.go: start is the part of main up to its loop, handle_task the
--                 goroutine of a task
--   Tests         runs of the definitions on small inputs
--
-- State is passed explicitly: an operation on a flow takes the flow and returns it. Times are
-- numbers of nanoseconds and an argument of every operation that reads the clock. Messages keep
-- their format and arguments, since no code reads them back. A pointer that may be nil is an
-- Option, a Go map that is only read is a list of pairs. Integers are 64-bit patterns, and
-- additions wrap.
--
-- A stream of events is a list of rounds, each with what its select takes: the end of the context,
-- a token, or a tick with what the flow then reads as. A provider returns the state of the outside
-- world with its result, and the chunks that it hands on; an agent's commands to Redis are a list,
-- in order.
--
-- Fuel: the depth-first search of ValidateDAG gets the number of steps as fuel, and a call on an
-- empty fuel is an outcome of its own. Run and mostRecentSchedule get their fuel as an argument,
-- and the theorems on them say how much is enough. The loops of the providers end when the model
-- asks for no more tools, which no bound on fuel can promise, so their fuel is an argument, too,
-- and what is stated of them quantifies over it.
--
-- Parameters: the JSON decoder, the template engine and apimachinery's condition helper are the
-- record Flow.External; the providers, the tool servers, the clock and the order of parallel
-- results are the record Local.World.World. The API server, Redis and the clock, as one call of a
-- reconciler or of the webhook server meets them, are Operator.Reconcile.Cluster,
-- Operator.Events.Surroundings, Operator.Agents.Reconcile.AgentWorld,
-- Operator.Services.ServiceWorld, Operator.Memories.ResourceWorld and Operator.Webhook.Server. The
-- SDKs of the models are the records Api of Anthropic and ChatApi of OpenAi, HTTP and the decoding
-- of replies the records Network and ToolCodec of Runtime.Tools, and the YAML decoder the record
-- Yaml of Local.Loader. None of them has laws: what is proved holds whatever they do, save that
-- the theorems on the daily budget assume what apimachinery documents of its condition helpers,
-- and the one on the configuration of an agent that its JSON reads back. A cron schedule is its
-- function Next, with the contract of cron.Schedule as a hypothesis of the theorems that need it.
-- That BLPOP takes the texts of a list in the order in which RPUSH has added them, and that the
-- commands of several clients interleave, is written out in Runtime.Agent.Pushes, which has no
-- expiry of keys; that a stream hands its readers what was added to it, numbers in
-- decimal, in Runtime.Queue.Answers and Runtime.Agent.Messages, and that a container sees its own
-- variables before those of a shared secret in Runtime.Config.Injected.
--
-- Not modelled: the HTTP and Redis clients, the Kubernetes client and its caches, the operator's
-- entry point cmd/main.go, which only wires the parts together, the declaration of commands and
-- flags, generated code, log lines, the delay of the mock provider, and the cancellation of a task
-- in the middle of a call.
mod Prelude
pub mod Api
pub mod Flow
pub mod Local
pub mod Operator
pub mod Runtime
mod Tests
