-- ===== src/Flow/Step.antt =====
-- internal/flow/step.go: conditions, initial statuses, JSON outputs and loops.
pub mod Loops
use agentops_operator.Prelude.{
  ℕ, ◌+◌, String, Bool, true, false, ◌&&◌, ◌||◌, not, Option, none, some, List, [], ◌∷◌, map, ◌==◌,
  if◌then◌else◌, is_some,
}
use text.Mathlib.Text.{starts_with}
use agentops_operator.Prelude.Int64.{add64, lt64}
use agentops_operator.Prelude.Text.{trim_space, split_lines, drop_bytes, take_bytes, index}
use agentops_operator.Api.Meta.{
  Message, plain, format, end, num, Result, Condition, ConditionStatus, condition_true,
  condition_false,
}
use agentops_operator.Api.Flow.{
  FlowPhase, StepPhase, LoopSpec, FlowStep, FlowSpec, StepStatus, Flow, FlowStatus,
}
use agentops_operator.Flow.External.{External, TemplateData}
use agentops_operator.Flow.Status.{status_of, modify, modify_each}
use agentops_operator.Flow.Template.{resolve_template, truthy_result}

abbrev pub is_unset : FlowPhase → Bool
is_unset FlowPhase.unset = true
is_unset _ = false

abbrev pub is_succeeded : StepPhase → Bool
is_succeeded StepPhase.succeeded = true
is_succeeded _ = false

-- The status that InitializeSteps gives a step.
unfoldable pub initial_status : FlowStep → StepStatus
initial_status step = record {
  name = step.name;
  phase = StepPhase.pending;
  task_id = "";
  output = "";
  output_json = "";
  start_time = none;
  completion_time = none;
  message = plain "";
  iterations = 0;
  token_usage = none;
}

unfoldable pub has_schema : List FlowStep → String → Bool
has_schema [] name = false
has_schema (s ∷ ss) name = (s.name == name && not (s.output_schema == "")) || has_schema ss name

-- `maxIter` of EvaluateLoops
unfoldable pub max_iterations_of : LoopSpec → ℕ
max_iterations_of l = if lt64 0 l.max_iterations then l.max_iterations else 10

-- The step is reset to Pending, to be submitted again.
unfoldable pub repeat_step : ℕ → StepStatus → StepStatus
repeat_step max_iter st = record {
  name = st.name;
  phase = StepPhase.pending;
  task_id = "";
  output = "";
  output_json = "";
  start_time = none;
  completion_time = none;
  message = format "loop iteration %d/%d" (num (add64 st.iterations 1) (num max_iter end));
  iterations = add64 st.iterations 1;
  token_usage = st.token_usage;
}

module _ (ext : External) where
  open ext use {Json, unmarshal, set_status_condition}

  unfoldable pub set_condition : ℕ → ConditionStatus → String → Message → Flow → Flow
  set_condition now status reason message f = record f {
    status = record (f.status) {
      conditions = set_status_condition now f.status.conditions (record {
        type = "Ready";
        status = status;
        observed_generation = f.meta.generation;
        last_transition_time = 0;
        reason = reason;
        message = message;
      });
    };
  }

  unfoldable pub initialize_steps : ℕ → Flow → Flow
  unfolding set_condition initial_status
  initialize_steps now f =
      if is_unset f.status.phase
      then set_condition now condition_true "Validated"
          (plain "Flow DAG is valid; execution started")
          (record f {
            status = record (f.status) {
              phase = FlowPhase.running;
              start_time = some now;
              steps = map initial_status f.spec.steps;
            };
          })
      else f

  -- json.Unmarshal succeeds
  unfoldable pub is_json : String → Bool
  is_json s = is_some (unmarshal s)

  json_or_empty : String → String
  unfolding is_json
  json_or_empty candidate = if is_json candidate then candidate else ""

  -- What ExtractJSON returns from the first line that starts an object or an array.
  from_fence : String → Option ℕ → String
  unfolding json_or_empty
  from_fence s none = ""
  from_fence s (some start) = elim (index (drop_bytes s start) "\n```") [
    | none ↦ json_or_empty (trim_space (drop_bytes s start))
    | some end_at ↦ json_or_empty (trim_space (take_bytes (drop_bytes s start) end_at))
  ]

  from_lines : String → List String → String
  unfolding from_fence
  from_lines s [] = ""
  from_lines s (l ∷ ls) =
      let line = trim_space l in
      let rest = from_lines s ls in
      if starts_with line "```"
      then rest
      else if starts_with line "{" || starts_with line "["
      then from_fence s (index s line)
      else rest

  unfoldable pub extract_json : String → String
  unfolding from_lines trim_space split_lines drop_bytes take_bytes
  extract_json s0 =
      let s = trim_space s0 in
      if s == "" then "" else if is_json s then s else from_lines s (split_lines s)

  -- The body of the loop of ParseOutputJSON.
  unfoldable pub parse_status : List FlowStep → StepStatus → StepStatus
  unfolding has_schema extract_json
  parse_status steps st =
      let raw = extract_json st.output in
      if has_schema steps st.name
        && is_succeeded st.phase
        && not (st.output == "")
        && st.output_json == ""
        && not (raw == "")
        && is_json raw
      then record st { output_json = raw }
      else st

  unfoldable pub parse_output_json : List FlowStep → List StepStatus → List StepStatus
  unfolding parse_status modify_each
  parse_output_json steps = modify_each (parse_status steps)

  -- The tests of EvaluateLoops on a step's status, in their order.
  unfoldable pub should_repeat : TemplateData Json → LoopSpec → StepStatus → Bool
  unfolding max_iterations_of resolve_template truthy_result
  should_repeat data_map l st =
      is_succeeded st.phase
      && lt64 st.iterations (max_iterations_of l)
      && truthy_result (resolve_template ext l.condition data_map)

  repeat_if :
      TemplateData Json → LoopSpec → String → Option StepStatus → List StepStatus → List StepStatus
  unfolding should_repeat repeat_step modify
  repeat_if data_map l name none sts = sts
  repeat_if data_map l name (some st) sts =
      if should_repeat data_map l st
      then modify name (repeat_step (max_iterations_of l)) sts
      else sts

  -- The body of the loop of EvaluateLoops.
  unfoldable pub evaluate_loop : TemplateData Json → FlowStep → List StepStatus → List StepStatus
  unfolding repeat_if status_of
  evaluate_loop data_map step sts = elim step.loop [
    | none ↦ sts
    | some l ↦ repeat_if data_map l step.name (status_of step.name sts) sts
  ]

  unfoldable pub evaluate_loops :
      TemplateData Json → List FlowStep → List StepStatus → List StepStatus
  unfolding evaluate_loop
  evaluate_loops data_map [] sts = sts
  evaluate_loops data_map (s ∷ ss) sts = evaluate_loops data_map ss (evaluate_loop data_map s sts)
