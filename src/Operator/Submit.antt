-- ===== src/Operator/Submit.antt =====
-- internal/controller/arkflow_controller.go: submitPendingSteps and submitTask.
pub mod Effects
pub mod Passes
pub mod Order
pub mod Count
use agentops_operator.Prelude.{
  ℕ, String, Bool, true, false, ◌&&◌, not, Option, none, some, List, [], ◌∷◌, ◌++◌, ◌==◌,
  if◌then◌else◌,
}
use agentops_operator.Api.Meta.{Message, plain, format, end, str, wrap, Result, ok, err}
use agentops_operator.Api.Flow.{StepPhase, FlowStep, StepStatus}
use agentops_operator.Flow.External.{External, TemplateData}
use agentops_operator.Flow.Status.{status_of, modify, deps_succeeded, is_pending}
use agentops_operator.Flow.Template.{resolve_template, truthy_result, resolve_prompt}

-- A message that was added to the stream agent-tasks.
pub record Task : Type 0 where
  pub id : String
  pub values : List (String × String)

-- The state of a pass: the statuses, the tasks that it has added, and the error that ends it.
pub record Submission : Type 0 where
  pub steps : List StepStatus
  pub tasks : List Task
  pub error : Option Message

-- The clock, and the replies to XADD after the tasks that were added before.
pub record Tasks : Type 0 where
  pub clock : String → ℕ
  pub xadd : List Task → List (String × String) → Result String

unfoldable pub task_values : String → String → List (String × String)
task_values prompt stream_key =
    if stream_key == ""
    then ("prompt", prompt) ∷ []
    else ("prompt", prompt) ∷ ("stream_key", stream_key) ∷ []

-- submitTask
unfoldable pub submit_task : Tasks → List Task → String → String → Result String
unfolding task_values
submit_task q tasks prompt stream_key = elim (q.xadd tasks (task_values prompt stream_key)) [
  | ok id ↦ ok id
  | err e ↦ err (format "XADD %s: %w" (str "agent-tasks" (wrap e end)))
]

unfoldable pub skip_pending : ℕ → StepStatus → StepStatus
skip_pending now st = record st {
  phase = StepPhase.skipped;
  completion_time = some now;
  message = plain "skipped: if condition evaluated to false";
}

unfoldable pub fail_pending : ℕ → Message → StepStatus → StepStatus
fail_pending now e st = record st {
  phase = StepPhase.failed;
  completion_time = some now;
  message = format "input template error: %v" (wrap e end);
}

unfoldable pub start_pending : ℕ → String → StepStatus → StepStatus
start_pending now id st = record st {
  phase = StepPhase.running;
  task_id = id;
  start_time = some now;
}

-- What submitPendingSteps does with a step.
pub data Decision : Type 0 where
  leave skip : Decision
  fail : Message → Decision
  submit : String → Decision

module _ (q : Tasks) (stream_key : String) where
  unfoldable pub started : FlowStep → String → Result String → Submission → Submission
  unfolding start_pending
  started step prompt (ok id) r = record r {
    steps = modify step.name (start_pending (q.clock step.name) id) r.steps;
    tasks = r.tasks ++ record { id = id; values = task_values prompt stream_key } ∷ [];
  }
  started step prompt (err e) r = record r {
    error = some (format "submitting task for step %q: %w" (str step.name (wrap e end)));
  }

  unfoldable pub act : FlowStep → Decision → Submission → Submission
  unfolding started skip_pending fail_pending
  act step leave r = r
  act step skip r = record r { steps = modify step.name (skip_pending (q.clock step.name)) r.steps }
  act step (fail e) r = record r {
    steps = modify step.name (fail_pending (q.clock step.name) e) r.steps;
  }
  act step (submit prompt) r = started step prompt (submit_task q r.tasks prompt stream_key) r

-- The step is Pending and its dependencies have succeeded.
unfoldable pub is_ready : FlowStep → List StepStatus → Option StepStatus → Bool
is_ready step sts none = false
is_ready step sts (some st) = is_pending st.phase && deps_succeeded step.depends_on sts

module _ (ext : External) where
  open ext use {Json}

  unfoldable pub is_excluded : TemplateData Json → FlowStep → Bool
  is_excluded data_map step =
      not (step.if_expr == "") && not (truthy_result (resolve_template ext step.if_expr data_map))

  unfoldable pub decide : TemplateData Json → FlowStep → List StepStatus → Decision
  decide data_map step sts =
      if is_ready step sts (status_of step.name sts)
      then if is_excluded data_map step
        then skip
        else elim (resolve_prompt ext step data_map) [ ok prompt ↦ submit prompt | err e ↦ fail e ]
      else leave

  module _ (q : Tasks) (stream_key : String) where
    -- An error returns from the loop.
    unfoldable pub submit_pending_steps :
        TemplateData Json → List FlowStep → Submission → Submission
    submit_pending_steps data_map [] r = r
    submit_pending_steps data_map (s ∷ ss) r = elim r.error [
      | some e ↦ r
      | none ↦ submit_pending_steps data_map ss (act q stream_key s (decide data_map s r.steps) r)
    ]
