-- ===== src/Local/Cli/Run.antt =====
-- cmd/ark/main.go: the command run. What is printed is a value.
use mathlib.Core.List as List
use agentops_operator.Prelude.{
  ℕ, String, Bool, ◌||◌, not, Option, none, some, List, [], ◌∷◌, map, ◌==◌, if◌then◌else◌,
}
use agentops_operator.Prelude.Int64.{add64}
use agentops_operator.Api.Meta.{Message, plain, format, end, str, wrap, Result, ok, err}
use agentops_operator.Api.Flow.{TokenUsage, StepPhase, FlowPhase, StepStatus, Flow}
use agentops_operator.Api.Agent.{ArkAgent}
use agentops_operator.Flow.External.{External}
use agentops_operator.Local.World.{StepEvent, World}
use agentops_operator.Local.Executor.{finished, out_of_fuel, run}
use agentops_operator.Local.Loader.{Loaded}
use agentops_operator.Runtime.Provider.{new_provider, detect}
use agentops_operator.Local.Cli.Check.{Checked, dry_run, select_flow}

-- buildProviderFunc
unfoldable pub provider_for :
    {Factory : Type 0} → List (String × Factory) → String → String → Result Factory
provider_for registry flag model =
    let name = if flag == "auto" then detect model else flag in
    elim (new_provider registry name) [
      | ok p ↦ ok p
      | err e ↦
          err (format "unknown provider %q — supported: anthropic, openai, mock" (str name end))
    ]

-- A line that --watch prints for an event; of a long output it prints the first 120 bytes.
pub data WatchLine : Type 0 where
  running_line : (step : String) → WatchLine
  done_line : (step : String) → (tokens elapsed : ℕ) → (output : String) → WatchLine
  skipped_line : (step : String) → WatchLine
  failed_line : (step : String) → Option Message → WatchLine

line_as : StepEvent → StepPhase → List WatchLine
line_as e StepPhase.running = running_line e.step ∷ []
line_as e StepPhase.succeeded =
    done_line e.step (add64 e.tokens.input_tokens e.tokens.output_tokens) e.elapsed e.output ∷ []
line_as e StepPhase.skipped = skipped_line e.step ∷ []
line_as e StepPhase.failed = failed_line e.step e.error ∷ []
line_as e StepPhase.pending = []

unfoldable pub watch_lines :
    (watch : Bool) → (output_format : String) → List StepEvent → List WatchLine
unfolding line_as
watch_lines watch output_format [] = []
watch_lines watch output_format (e ∷ es) =
    List.◌++◌ (if not watch || output_format == "json" then [] else line_as e e.phase)
      (watch_lines watch output_format es)

-- printJSON and printText
pub record StepOut : Type 0 where
  pub name : String
  pub status : StepPhase
  pub tokens : ℕ
  pub output : String

pub data Printed : Type 0 where
  json_result :
      (status : FlowPhase) → (elapsed total_tokens : ℕ) → (output : String) → List StepOut → Printed
  text_result : (status : FlowPhase) → (elapsed total_tokens : ℕ) → (output : String) → Printed

total_of : Option TokenUsage → ℕ
total_of none = 0
total_of (some u) = u.total_tokens

step_out : StepStatus → StepOut
unfolding total_of
step_out st = record {
  name = st.name;
  status = st.phase;
  tokens = total_of st.token_usage;
  output = st.output;
}

failed_error : FlowPhase → Option Message
failed_error FlowPhase.failed = some (plain "flow failed")
failed_error _ = none

-- What run prints of the result, and its error.
unfoldable pub print_result : Flow → ℕ → String → Printed × Option Message
unfolding step_out total_of failed_error
print_result f elapsed output_format =
    let st = f.status in
    let total = total_of st.total_token_usage in
    (
      (if output_format == "json"
          then json_result st.phase elapsed total st.output (map step_out st.steps)
          else text_result st.phase elapsed total st.output),
      failed_error st.phase,
    )

-- runFlags
pub record RunFlags : Type 0 where
  pub provider : String
  pub flow : String
  pub dry_run : Bool
  pub watch : Bool
  pub no_mcp : Bool
  pub output : String
  pub input : String

-- What the command run does: it fails, it only checks, or it runs the flow.
pub data Ran : Type 0 where
  run_error : Message → Ran
  checked : Checked → Ran
  ran : List WatchLine → Printed → Option Message → Ran
  not_ended : Ran

with_input : List (String × String) → Flow → Flow
with_input input f = record f { spec = record (f.spec) { input = input } }

-- The surroundings of a run: the registered providers, and the rest of the world.
module _ (ext : External) (w : World) (registry : List (String × w.Provider))
    (decode_input : String → Result (List (String × String))) where
  -- The flow with the input of the command line.
  override_input : String → Flow → Result Flow
  unfolding with_input
  override_input raw f = if raw == "" then ok f else elim (decode_input raw) [
    | ok input ↦ ok (with_input input f)
    | err e ↦ err (format "--input must be a JSON object of string values: %w" (wrap e end))
  ]

  -- local.Executor with its Provider and NoMCP
  executor_world : RunFlags → World
  unfolding provider_for
  executor_world flags = record w {
    provider = provider_for registry flags.provider;
    no_mcp = flags.no_mcp;
  }

  execute : RunFlags → ℕ → ℕ → List (String × ArkAgent) → Flow → Ran
  unfolding watch_lines print_result executor_world
  execute flags fuel elapsed agents f = elim (run ext (executor_world flags) fuel agents f) [
    | finished g events ↦
        let (printed, error) = print_result g elapsed flags.output in
        ran (watch_lines flags.watch flags.output events) printed error
    | out_of_fuel ↦ not_ended
  ]

  run_selected : RunFlags → ℕ → ℕ → List (String × ArkAgent) → Result Flow → Ran
  unfolding override_input execute dry_run
  run_selected flags fuel elapsed agents (err e) = run_error e
  run_selected flags fuel elapsed agents (ok f) = elim (override_input flags.input f) [
    | err e ↦ run_error e
    | ok g ↦
        if flags.dry_run then checked (dry_run agents g) else execute flags fuel elapsed agents g
  ]

  run_loaded : String → RunFlags → ℕ → ℕ → Loaded → List Flow → Ran
  unfolding run_selected select_flow
  run_loaded path flags fuel elapsed l [] =
      run_error (format "no ArkFlow resources found in %s" (str path end))
  run_loaded path flags fuel elapsed l (f ∷ fs) =
      run_selected flags fuel elapsed l.agents (select_flow f fs flags.flow)

  -- runFlow, on what LoadFile returns
  unfoldable pub run_flow : String → RunFlags → ℕ → ℕ → Result Loaded → Ran
  unfolding run_loaded
  run_flow path flags fuel elapsed (err e) = run_error e
  run_flow path flags fuel elapsed (ok l) = run_loaded path flags fuel elapsed l l.flows
