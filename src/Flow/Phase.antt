-- ===== src/Flow/Phase.antt =====
-- internal/flow/phase.go: token sums, the timeout, and the phase of a flow.
pub mod Outcome
pub mod Tokens
pub mod Tally
pub mod Frame
use agentops_operator.Prelude.{
  ℕ, ◌+◌, ◌-◌, String, Bool, true, false, ◌&&◌, ◌||◌, not, Option, none, some, List, [], ◌∷◌, ◌==◌,
  if◌then◌else◌, ltb,
}
use agentops_operator.Prelude.Int64.{two64, two63, add64, mul64, lt64}
use agentops_operator.Api.Meta.{
  Message, plain, format, end, num, ok, err, Result, condition_true, condition_false,
}
use agentops_operator.Api.Flow.{
  TokenUsage, StepPhase, FlowPhase, StepStatus, FlowSpec, FlowStatus, Flow,
}
use agentops_operator.Flow.External.{External, TemplateData}
use agentops_operator.Flow.Template.{resolve_template}
use agentops_operator.Flow.Step.{set_condition}

abbrev pub Sums : Type 0
Sums = ℕ × ℕ

-- One status of the loop of SumStepTokens: `totalIn` and `totalOut`.
abbrev pub add_usage : Option TokenUsage → Sums → Sums
add_usage none (total_in, total_out) = (total_in, total_out)
add_usage (some u) (total_in, total_out) =
    (add64 total_in u.input_tokens, add64 total_out u.output_tokens)

unfoldable pub token_sums : List StepStatus → Sums → Sums
token_sums [] t = t
token_sums (st ∷ sts) t = token_sums sts (add_usage st.token_usage t)

-- SumStepTokens: the grand total, and the flow with its total recorded.
unfoldable pub sum_step_tokens : Flow → ℕ × Flow
unfolding token_sums
sum_step_tokens f =
    let (total_in, total_out) = token_sums f.status.steps (0, 0) in
    (
      add64 total_in total_out,
      if lt64 0 total_in || lt64 0 total_out
          then record f {
            status = record (f.status) {
              total_token_usage = some (record {
                input_tokens = total_in;
                output_tokens = total_out;
                total_tokens = add64 total_in total_out;
              });
            };
          }
          else f,
    )

abbrev pub nanoseconds : ℕ
nanoseconds = 1000000000

-- now.After(start.Add(time.Duration(seconds) * time.Second)): the product wraps, and a wrapped
-- product may be negative.
unfoldable pub past_deadline : ℕ → ℕ → ℕ → Bool
past_deadline start seconds now =
    let d = mul64 seconds nanoseconds in
    if ltb d two63 then ltb (start + d) now else ltb start (now + (two64 - d))

unfoldable pub timed_out : FlowSpec → Option ℕ → ℕ → Bool
unfolding past_deadline
timed_out spec none now = false
timed_out spec (some start) now =
    lt64 0 spec.timeout_seconds && past_deadline start spec.timeout_seconds now

-- `failed` and `allDone` of UpdateFlowPhase after one more status.
unfoldable pub tally_phase : StepPhase → Bool × Bool → Bool × Bool
tally_phase StepPhase.failed (failed, all_done) = (true, all_done)
tally_phase StepPhase.succeeded (failed, all_done) = (failed, all_done)
tally_phase StepPhase.skipped (failed, all_done) = (failed, all_done)
tally_phase StepPhase.pending (failed, all_done) = (failed, false)
tally_phase StepPhase.running (failed, all_done) = (failed, false)

unfoldable pub tally : List StepStatus → Bool × Bool → Bool × Bool
unfolding tally_phase
tally [] t = t
tally (st ∷ sts) t = tally sts (tally_phase st.phase t)

-- `out, _ := ResolveTemplate(...)`: the text of a failed resolution is empty.
text_or_empty : Result String → String
text_or_empty (ok s) = s
text_or_empty (err e) = ""

-- The budget test of UpdateFlowPhase.
unfoldable pub over_budget : FlowSpec → ℕ → Bool
over_budget spec total = lt64 0 spec.max_tokens && lt64 spec.max_tokens total

module _ (ext : External) where
  open ext use {Json}

  -- The flow is ended at `now` as Failed.
  unfoldable pub fail_flow : ℕ → String → Message → Flow → Flow
  unfolding set_condition
  fail_flow now reason message f = set_condition ext now condition_false reason message (record f {
    status = record (f.status) { phase = FlowPhase.failed; completion_time = some now };
  })

  -- EnforceTimeout: whether the flow timed out, and the flow.
  unfoldable pub enforce_timeout : ℕ → Flow → Bool × Flow
  unfolding timed_out fail_flow
  enforce_timeout now f =
      if timed_out f.spec f.status.start_time now
      then (
        true,
        fail_flow now "TimedOut"
            (format "flow exceeded timeout of %ds" (num f.spec.timeout_seconds end)) f,
      )
      else (false, f)

  output_of : TemplateData Json → Flow → String
  unfolding resolve_template text_or_empty
  output_of data_map f =
      if f.spec.output == ""
      then f.status.output
      else text_or_empty (resolve_template ext f.spec.output data_map)

  unfoldable pub succeed_flow : ℕ → TemplateData Json → Flow → Flow
  unfolding set_condition output_of
  succeed_flow now data_map f =
      set_condition ext now condition_true "Succeeded" (plain "all steps completed successfully")
        (record f {
          status = record (f.status) {
            phase = FlowPhase.succeeded;
            completion_time = some now;
            output = output_of data_map f;
          };
        })

  -- The last switch of UpdateFlowPhase.
  unfoldable pub settle : ℕ → TemplateData Json → Bool × Bool → Flow → Flow
  unfolding fail_flow succeed_flow
  settle now data_map (failed, all_done) f =
      if failed
      then fail_flow now "StepFailed" (plain "one or more steps failed") f
      else if all_done
      then succeed_flow now data_map f
      else f

  after_tokens : ℕ → TemplateData Json → ℕ → Flow → Flow
  unfolding over_budget settle tally
  after_tokens now data_map total f =
      if over_budget f.spec total
      then fail_flow now "BudgetExceeded"
          (format "token budget of %d exceeded: used %d" (num f.spec.max_tokens (num total end))) f
      else settle now data_map (tally f.status.steps (false, true)) f

  unfoldable pub update_flow_phase : ℕ → TemplateData Json → Flow → Flow
  unfolding enforce_timeout sum_step_tokens after_tokens
  update_flow_phase now data_map f =
      let (timed, f1) = enforce_timeout now f in
      if timed
      then f1
      else let (total, f2) = sum_step_tokens f1 in after_tokens now data_map total f2
