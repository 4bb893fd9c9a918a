-- ===== src/Local/Executor.antt =====
-- internal/ark/local/executor.go: Run, collectReadySteps and runStep.
pub mod Measure
pub mod Termination
pub mod Halts
pub mod Ready
use agentops_operator.Prelude.{
  ℕ, zero, suc, ◌+◌, String, Bool, true, false, ◌&&◌, ◌||◌, not, Option, none, some, List, [], ◌∷◌,
  ◌++◌, map, ◌==◌, if◌then◌else◌, is_some,
}
use agentops_operator.Prelude.Int64.{add64}
use agentops_operator.Api.Meta.{Message, plain, format, end, str, wrap, Result, ok, err}
use agentops_operator.Api.Flow.{
  TokenUsage, StepPhase, FlowPhase, FlowStep, FlowSpec, StepStatus, FlowStatus, Flow,
}
use agentops_operator.Api.Agent.{ArkAgent}
use agentops_operator.Flow.External.{External, TemplateData}
use agentops_operator.Flow.Status.{is_terminal_phase, status_of, modify, deps_succeeded, is_pending}
use agentops_operator.Flow.Template.{
  resolve_template, truthy_result, resolve_prompt, build_template_data,
}
use agentops_operator.Flow.Step.{initialize_steps, evaluate_loops, parse_output_json}
use agentops_operator.Flow.Phase.{update_flow_phase}
use agentops_operator.Local.World.{Usage, Completion, StepResult, StepEvent, World}
use agentops_operator.Runtime.Config.{Config, McpServerConfig}
use agentops_operator.Local.Config.{agent_config, mcp_servers_of}

abbrev pub no_usage : Usage
no_usage = record { input_tokens = 0; output_tokens = 0 }

unfoldable pub find_agent : String → List (String × ArkAgent) → Option ArkAgent
find_agent name [] = none
find_agent name ((n, a) ∷ rest) = if n == name then some a else find_agent name rest

unfoldable pub skip_step : ℕ → StepStatus → StepStatus
skip_step now st = record st {
  phase = StepPhase.skipped;
  completion_time = some now;
  message = plain "skipped: if condition evaluated to false";
}

unfoldable pub start_step : ℕ → StepStatus → StepStatus
start_step now st = record st { phase = StepPhase.running; start_time = some now }

-- A result that is received ends its step.
unfoldable pub end_step : StepResult → StepStatus → StepStatus
end_step r st = elim r.error [
  | some e ↦ record st { completion_time = some r.received; phase = StepPhase.failed; message = e }
  | none ↦ record st {
    completion_time = some r.received;
    phase = StepPhase.succeeded;
    output = r.output;
    token_usage = some (record {
      input_tokens = r.tokens.input_tokens;
      output_tokens = r.tokens.output_tokens;
      total_tokens = add64 r.tokens.input_tokens r.tokens.output_tokens;
    });
  }
]

phase_of_result : Option Message → StepPhase
phase_of_result none = StepPhase.succeeded
phase_of_result (some e) = StepPhase.failed

-- The loop that collects the results.
unfoldable pub receive_results : List StepResult → List StepStatus → List StepStatus
receive_results [] sts = sts
receive_results (r ∷ rs) sts = receive_results rs (modify r.name (end_step r) sts)

result_event : StepResult → StepEvent
unfolding phase_of_result
result_event r = record {
  step = r.name;
  phase = phase_of_result r.error;
  output = r.output;
  tokens = r.tokens;
  elapsed = r.elapsed;
  error = r.error;
}

running_event : FlowStep → StepEvent
running_event s = record {
  step = s.name;
  phase = StepPhase.running;
  output = "";
  tokens = no_usage;
  elapsed = 0;
  error = none;
}

pub data RunResult : Type 0 where
  finished : Flow → List StepEvent → RunResult
  out_of_fuel : RunResult

-- The tests on one step of collectReadySteps before its condition.
unfoldable pub is_candidate : FlowStep → List StepStatus → Option StepStatus → Bool
unfolding deps_succeeded
is_candidate step sts none = false
is_candidate step sts (some st) = is_pending st.phase && deps_succeeded step.depends_on sts

abbrev pub with_steps : Flow → List StepStatus → Flow
with_steps f sts = record f { status = record (f.status) { steps = sts } }

module _ (ext : External) where
  open ext use {Json}

  -- The condition is present and does not hold.
  unfoldable pub is_skipped : TemplateData Json → FlowStep → Bool
  is_skipped data_map step =
      not (step.if_expr == "") && not (truthy_result (resolve_template ext step.if_expr data_map))

  unfoldable pub collect_ready_steps :
      (FlowStep → ℕ)
      → TemplateData Json
      → List FlowStep
      → List StepStatus
      → List FlowStep × List StepStatus
  collect_ready_steps now data_map [] sts = ([], sts)
  collect_ready_steps now data_map (s ∷ ss) sts =
      let candidate = is_candidate s sts (status_of s.name sts) in
      let skip = is_skipped data_map s in
      let (ready, sts') =
        collect_ready_steps now data_map ss
          (if candidate && skip then modify s.name (skip_step (now s)) sts else sts) in
      (if candidate && not skip then s ∷ ready else ready, sts')

  module _ (w : World) where
    no_completion : Message → Completion
    no_completion e = record { output = ""; tokens = no_usage; error = some e }

    run_with : ℕ → FlowStep → String → ArkAgent → Result w.Provider → Completion
    unfolding no_completion
    run_with round step prompt agent (err e) =
        no_completion (format "step %q: %w" (str step.name (wrap e end)))
    run_with round step prompt agent (ok p) =
        let cfg = agent_config agent in
        w.run_task round p cfg (mcp_servers_of w.no_mcp w.reachable cfg.mcp_servers) step.name
          prompt

    unfoldable pub run_step : ℕ → FlowStep → List (String × ArkAgent) → String → Completion
    unfolding run_with
    run_step round step agents prompt = elim (find_agent step.ark_agent agents) [
      | none ↦ no_completion (
          format "step %q: ArkAgent %q not found in loaded YAML"
            (str step.name (str step.ark_agent end)))
      | some agent ↦ run_with round step prompt agent (w.provider agent.spec.model)
    ]

    -- `prompt, _ := flow.ResolvePrompt(...)`
    prompt_or_empty : Result String → String
    prompt_or_empty (ok s) = s
    prompt_or_empty (err e) = ""

    -- The goroutine of one ready step.
    unfoldable pub perform :
        ℕ → TemplateData Json → List (String × ArkAgent) → FlowStep → StepResult
    unfolding prompt_or_empty
    perform round data_map agents s =
        let c = run_step round s agents (prompt_or_empty (resolve_prompt ext s data_map)) in
        record {
          name = s.name;
          output = c.output;
          tokens = c.tokens;
          elapsed = w.elapsed round s.name;
          error = c.error;
          received = w.now round s.name;
        }

    unfoldable pub start_all : ℕ → List FlowStep → List StepStatus → List StepStatus
    start_all round [] sts = sts
    start_all round (s ∷ ss) sts =
        start_all round ss (modify s.name (start_step (w.now round s.name)) sts)

    -- One round of Run that found steps to execute: the statuses that it leaves, and its events.
    unfoldable pub execute_round :
        ℕ
        → TemplateData Json
        → List (String × ArkAgent)
        → List FlowStep
        → List StepStatus
        → List StepStatus × List StepEvent
    unfolding running_event result_event
    execute_round round data_map agents ready sts =
        let results = w.arrive round (map (perform round data_map agents) ready) in
        (
          receive_results results (start_all round ready sts),
          map running_event ready ++ map result_event results,
        )

    -- The last part of the loop's body.
    unfoldable pub close_round : ℕ → Flow → List StepStatus → Flow
    close_round round f sts =
        let sts' = parse_output_json ext f.spec.steps sts in
        update_flow_phase ext (w.now round "") (build_template_data ext f.spec sts')
          (with_steps f sts')

    -- The loop of Run. A round without ready steps is its last.
    unfoldable pub run_loop : ℕ → List (String × ArkAgent) → Flow → List StepEvent → RunResult
    run_loop zero agents f events = out_of_fuel
    run_loop (suc round) agents f events =
        let data_map = build_template_data ext f.spec f.status.steps in
        let looped = evaluate_loops ext data_map f.spec.steps f.status.steps in
        let (ready, sts) =
          collect_ready_steps (λ s. w.now round s.name) data_map f.spec.steps looped in
        elim (is_terminal_phase f.status.phase) [
          | true ↦ finished f events
          | false ↦ elim ready [
            | [] ↦
                finished (update_flow_phase ext (w.now round "") data_map (with_steps f sts)) events
            | s ∷ ss ↦
                let (sts', more) = execute_round round data_map agents (s ∷ ss) sts in
                run_loop round agents (close_round round f sts') (events ++ more)
          ]
        ]

    unfoldable pub run : ℕ → List (String × ArkAgent) → Flow → RunResult
    run fuel agents f = run_loop fuel agents (initialize_steps ext (w.now fuel "") f) []
