-- ===== src/Tests/Operator.antt =====
-- The flow reconciler on small flows.
use agentops_operator.Prelude.{
  ℕ, ◌+◌, String, none, some, List, [], ◌∷◌, Memᴰ, ◌≡◌, refl, ◌⊎◌, inl, inr, arith, length,
  if◌then◌else◌, eq_iff,
}
use agentops_operator.Api.Meta.{ok}
use agentops_operator.Api.Flow.{FlowPhase, StepPhase, StepStatus, FlowStep, Flow}
use agentops_operator.Flow.External.{TemplateData}
use agentops_operator.Flow.Template.{build_template_data, resolve_prompt}
use agentops_operator.Flow.Status.{
  status_of, modify, modify_each, deps_succeeded, is_terminal_phase,
}
use agentops_operator.Flow.Dag.{validate_dag, contains, deps_of}
use agentops_operator.Flow.Step.{initialize_steps, evaluate_loops, parse_output_json}
use agentops_operator.Operator.Redis.{StreamMessage, text, reply}
use agentops_operator.Operator.Results.{is_waiting, waiting_of, collect_results}
use agentops_operator.Operator.Results.Delivery.{
  HasAllNames, HasDistinctTasks, messages_for, record_all, collect_results-delivery,
}
use agentops_operator.Operator.Submit.{
  Task, Tasks, Submission, submit_pending_steps, act, decide, is_ready, is_excluded, submit_task,
}
use agentops_operator.Operator.Submit.Order.{IsStarted, submit_pending_steps-IsStarted}
use agentops_operator.Operator.Submit.Count.{count_running, submit_pending_steps-count}
use agentops_operator.Operator.Reconcile.{
  Cluster, found, reconcile, run_pass, is_trigger_template, dag_error, validate_agents, annotation,
}
use agentops_operator.Operator.Reconcile.Guards.{MayRun, reconcile-guarded}
use agentops_operator.Tests.Samples.{step, status, flow, plain_external, worker}

abbrev pub under : String → StepStatus → StepStatus
under id st = record st { task_id = id }

abbrev pub waiting_pair : List StepStatus
waiting_pair = under "1-0" (status "a" StepPhase.running) ∷ status "b" StepPhase.pending ∷ []

abbrev answer : StreamMessage
answer = record {
  id = "7-0";
  values =
      ("task_id", text "1-0")
      ∷ ("result", text "fine")
      ∷ ("input_tokens", text "12")
      ∷ ("output_tokens", text "-3")
      ∷ [];
}

abbrev pub at_five : StreamMessage → ℕ
at_five msg = 5

pair_cases :
    (n : String) (st : StepStatus)
    → status_of n waiting_pair ≡ some st
    → ((n ≡ "a") × (st ≡ under "1-0" (status "a" StepPhase.running)))
      ⊎ ((n ≡ "b") × (st ≡ status "b" StepPhase.pending))
unfolding status_of
pair_cases n st h = ground (arith, eq_iff "a" n, eq_iff "b" n)

pub pair_names : HasAllNames ("a" ∷ "b" ∷ []) waiting_pair
pair_names n st h = elim (pair_cases n st h) [
  | inl (e, _) ↦ Memᴰ.head e
  | inr (e, _) ↦ Memᴰ.tail (Memᴰ.head e)
]

pub pair_tasks : HasDistinctTasks waiting_pair
unfolding is_waiting
pair_tasks i j a b ha hb wa wb same = ground (arith, pair_cases i a ha, pair_cases j b hb)

collect_results-delivery_example :
    (out : List StepStatus) × (collect_results at_five
        ("a" ∷ "b" ∷ [])
        (reply (answer ∷ []))
        waiting_pair
      ≡ ok out)
    × ((j : String) (st : StepStatus)
        → status_of j waiting_pair ≡ some st
        → status_of j out
          ≡ some (
              if is_waiting st
              then record_all at_five (messages_for st.task_id (answer ∷ [])) st
              else st))
collect_results-delivery_example =
    collect_results-delivery at_five ("a" ∷ "b" ∷ []) (answer ∷ []) waiting_pair pair_names
      pair_tasks

abbrev pub queue : Tasks
queue = record { clock = λ name. 5; xadd = λ tasks values. ok "9-0" }

abbrev pub chain : List FlowStep
chain = step "a" [] ∷ step "b" ("a" ∷ []) ∷ []

abbrev pub fresh : Flow
fresh = flow FlowPhase.unset chain []

abbrev half_way : Submission
half_way = record {
  steps = status "a" StepPhase.succeeded ∷ status "b" StepPhase.pending ∷ [];
  tasks = [];
  error = none;
}

abbrev no_data : TemplateData String
no_data = build_template_data plain_external fresh.spec []

abbrev b_runs : StepStatus
b_runs = record (status "b" StepPhase.running) { task_id = "9-0"; start_time = some 5 }

half_way_starts :
    status_of "b" (submit_pending_steps plain_external queue "" no_data chain half_way).steps
    ≡ some b_runs
unfolding submit_pending_steps status_of act decide is_ready deps_succeeded is_excluded
    resolve_prompt submit_task modify
half_way_starts = refl

submit_pending_steps-IsStarted_example :
    IsStarted plain_external queue "" no_data chain "b" b_runs
      (submit_pending_steps plain_external queue "" no_data chain half_way)
unfolding status_of
submit_pending_steps-IsStarted_example =
    submit_pending_steps-IsStarted plain_external queue "" no_data chain half_way "b"
      (status "b" StepPhase.pending) b_runs refl refl half_way_starts refl

submit_pending_steps-count_example :
    count_running (submit_pending_steps plain_external queue "" no_data chain half_way).steps
      + length half_way.tasks
    ≡ count_running half_way.steps
      + length (submit_pending_steps plain_external queue "" no_data chain half_way).tasks
submit_pending_steps-count_example =
    submit_pending_steps-count plain_external queue "" no_data chain half_way

abbrev pub cluster : Cluster
cluster = record {
  flow = found fresh;
  events = ok [];
  agent = λ name. found worker;
  task_queue_url = "redis://redis:6379";
  key_order = λ sts. "a" ∷ "b" ∷ [];
  results = reply [];
  result_clock = at_five;
  tasks = queue;
  now = 5;
  update_status = λ f. none;
}

abbrev first_task : Task
first_task = record { id = "9-0"; values = ("prompt", "") ∷ [] }

first_task_added : Memᴰ first_task (reconcile plain_external cluster).tasks
unfolding reconcile is_trigger_template dag_error validate_dag contains deps_of validate_agents
    is_terminal_phase collect_results waiting_of status_of initialize_steps submit_pending_steps act
    decide is_ready deps_succeeded is_excluded evaluate_loops parse_output_json modify_each
    resolve_prompt submit_task modify annotation
first_task_added = Memᴰ.head refl

reconcile-guarded_example :
    (f : Flow) × MayRun cluster f
    × (reconcile plain_external cluster ≡ run_pass plain_external cluster f)
reconcile-guarded_example = reconcile-guarded plain_external cluster first_task first_task_added
