-- ===== src/Operator/Reconcile.antt =====
-- internal/controller/arkflow_controller.go: Reconcile, validateAgents, isTriggerTemplate, getRedis.
pub mod Guards
pub mod Timed
use agentops_operator.Prelude.{
  ℕ, String, Bool, true, false, ◌&&◌, ◌||◌, not, Option, none, some, List, [], ◌∷◌, ◌==◌,
  if◌then◌else◌, is_some, ◌*◌,
}
use agentops_operator.Api.Meta.{
  Message, plain, format, end, str, wrap, Result, ok, err, condition_false,
}
use agentops_operator.Api.Flow.{FlowPhase, FlowStep, StepStatus, Flow, FlowStatus}
use agentops_operator.Api.Agent.{ArkAgent}
use agentops_operator.Api.Event.{ArkEvent, EventTarget}
use agentops_operator.Flow.External.{External, TemplateData}
use agentops_operator.Flow.Dag.{DagResult, valid, unknown_step, cycle, out_of_fuel, validate_dag}
use agentops_operator.Flow.Status.{is_terminal_phase}
use agentops_operator.Flow.Template.{build_template_data}
use agentops_operator.Flow.Step.{set_condition, initialize_steps, parse_output_json, evaluate_loops}
use agentops_operator.Flow.Phase.{update_flow_phase, nanoseconds}
use agentops_operator.Operator.Redis.{StreamMessage, Reply}
use agentops_operator.Operator.Results.{collect_results}
use agentops_operator.Operator.Submit.{Task, Tasks, Submission, submit_pending_steps}

-- The reply of the API server to a read of one object.
pub data Get {ℓ} (A : Type ℓ) : Type ℓ where
  found : A → Get A
  not_found : Get A
  get_error : Message → Get A

-- What a call of Reconcile meets: the API server, Redis, the clock, and the order in which the map
-- of statuses is ranged over.
pub record Cluster : Type 0 where
  pub flow : Get Flow
  pub events : Result (List ArkEvent)
  pub agent : String → Get ArkAgent
  pub task_queue_url : String
  pub key_order : List StepStatus → List String
  pub results : Reply (List StreamMessage)
  pub result_clock : StreamMessage → ℕ
  pub tasks : Tasks
  pub now : ℕ
  pub update_status : Flow → Option Message

-- What a call does: the status updates that it sends, the tasks that it adds, and what it returns.
pub record Outcome : Type 0 where
  pub updates : List Flow
  pub tasks : List Task
  pub requeue_after : ℕ
  pub error : Option Message

abbrev quiet : Outcome
quiet = record { updates = []; tasks = []; requeue_after = 0; error = none }

abbrev failed_with : Message → Outcome
failed_with e = record quiet { error = some e }

-- `_ = r.Status().Update(ctx, f)`
abbrev updated : Flow → Outcome
updated f = record quiet { updates = f ∷ [] }

-- The error of ValidateDAG. The search does not run out of fuel.
unfoldable pub dag_error : DagResult → Option Message
dag_error valid = none
dag_error (unknown_step step dep) =
    some (format "step %q depends on unknown step %q" (str step (str dep end)))
dag_error (cycle step dep) =
    some (format "cycle detected: step %q → %q forms a cycle" (str step (str dep end)))
dag_error out_of_fuel = some (plain "")

unfoldable pub validate_agents : (String → Get ArkAgent) → List FlowStep → Option Message
validate_agents agent [] = none
validate_agents agent (s ∷ ss) = elim (agent s.ark_agent) [
  | found a ↦ validate_agents agent ss
  | not_found ↦
      some (format "step %q references missing ArkAgent %q" (str s.name (str s.ark_agent end)))
  | get_error e ↦ some e
]

targets_flow : String → List EventTarget → Bool
targets_flow name [] = false
targets_flow name (t ∷ ts) = t.pipeline == name || targets_flow name ts

unfoldable pub is_trigger_template : String → List ArkEvent → Bool
unfolding targets_flow
is_trigger_template name [] = false
is_trigger_template name (e ∷ es) = targets_flow name e.spec.targets || is_trigger_template name es

-- f.Annotations["arkonis.dev/stream-key"]
unfoldable pub annotation : String → List (String × String) → String
annotation key [] = ""
annotation key ((k, v) ∷ rest) = if k == key then v else annotation key rest

abbrev is_running_flow : FlowPhase → Bool
is_running_flow FlowPhase.running = true
is_running_flow _ = false

abbrev pub observed : Flow → Flow
observed f = record f { status = record (f.status) { observed_generation = f.meta.generation } }

abbrev pub with_statuses : Flow → List StepStatus → Flow
with_statuses f sts = record f { status = record (f.status) { steps = sts } }

module _ (ext : External) (c : Cluster) where
  open ext use {Json}

  -- The end of Reconcile, after the steps were submitted.
  unfoldable pub conclude : TemplateData Json → List Task → Flow → Outcome
  conclude data_map tasks f =
      let g = observed (update_flow_phase ext c.now data_map f) in
      elim (c.update_status g) [
        | some e ↦ record { updates = g ∷ []; tasks = tasks; requeue_after = 0; error = some e }
        | none ↦ record {
          updates = g ∷ [];
          tasks = tasks;
          requeue_after = if is_running_flow g.status.phase then 5 * nanoseconds else 0;
          error = none;
        }
      ]

  -- What follows submitPendingSteps: its error is returned after one more update of the status.
  unfoldable pub after_submit : TemplateData Json → Flow → Submission → Outcome
  unfolding conclude
  after_submit data_map f r = elim r.error [
    | some e ↦ record {
      updates = with_statuses f r.steps ∷ [];
      tasks = r.tasks;
      requeue_after = 0;
      error = some e;
    }
    | none ↦ conclude data_map r.tasks (with_statuses f r.steps)
  ]

  -- The statuses with the results collected: ParseOutputJSON, EvaluateLoops and submitPendingSteps.
  unfoldable pub advance : Flow → List StepStatus → Outcome
  unfolding after_submit
  advance f sts =
      let parsed = parse_output_json ext f.spec.steps sts in
      let data_map = build_template_data ext f.spec parsed in
      let looped = evaluate_loops ext data_map f.spec.steps parsed in
      after_submit data_map f (
        submit_pending_steps ext c.tasks (annotation "arkonis.dev/stream-key" f.meta.annotations)
          data_map f.spec.steps (record { steps = looped; tasks = []; error = none }))

  -- A flow that may run: from InitializeSteps on.
  unfoldable pub run_pass : Flow → Outcome
  unfolding advance
  run_pass f0 =
      let f = initialize_steps ext c.now f0 in
      elim (collect_results c.result_clock (c.key_order f.status.steps) c.results f.status.steps) [
        | err e ↦ failed_with (format "collecting step results: %w" (wrap e end))
        | ok sts ↦ advance f sts
      ]

  -- The flow is reported as not ready, and nothing else happens.
  unfoldable pub refused : String → Message → Flow → Outcome
  refused reason message f = updated (set_condition ext c.now condition_false reason message f)

  -- From the test for a terminal phase on.
  unfoldable pub admitted : Flow → Outcome
  unfolding run_pass refused
  admitted f =
      if is_terminal_phase f.status.phase
      then record (updated (observed f)) { error = c.update_status (observed f) }
      else if c.task_queue_url == ""
      then refused "NoTaskQueue" (plain "TASK_QUEUE_URL not set; flow execution requires Redis") f
      else run_pass f

  -- From ValidateDAG on.
  unfoldable pub validated : Flow → Outcome
  unfolding admitted refused
  validated f = elim (dag_error (validate_dag f.spec.steps)) [
    | some e ↦ refused "InvalidDAG" e f
    | none ↦ elim (validate_agents c.agent f.spec.steps) [
      | some e ↦ refused "DeploymentNotFound" e f
      | none ↦ admitted f
    ]
  ]

  unfoldable pub reconcile : Outcome
  unfolding validated
  reconcile = elim c.flow [
    | not_found ↦ quiet
    | get_error e ↦ failed_with e
    | found f ↦ if is_some f.meta.deleted then quiet else elim c.events [
      | err e ↦ failed_with e
      | ok es ↦ if is_trigger_template f.meta.name es then quiet else validated f
    ]
  ]
