-- ===== src/Local/Cli/Check.antt =====
-- cmd/ark/main.go: selectFlow, dryRun and the command validate.

use agentops_operator.Prelude.{
  ℕ, String, Option, none, some, List, [], ◌∷◌, map, ◌==◌, if◌then◌else◌, length,
}
use agentops_operator.Prelude.Maps.{lookup}
use agentops_operator.Api.Meta.{Message, Args, format, end, str, num, wrap, Result, ok, err}
use agentops_operator.Api.Flow.{FlowStep, Flow}
use agentops_operator.Api.Agent.{ArkAgent}
use agentops_operator.Flow.Dag.{validate_dag}
use agentops_operator.Local.Loader.{Loaded}
use agentops_operator.Operator.Reconcile.{dag_error}

flow_named : String → List Flow → Option Flow
flow_named name [] = none
flow_named name (f ∷ fs) =
    let rest = flow_named name fs in if f.meta.name == name then some f else rest

flow_names : List Flow → Args
flow_names [] = end
flow_names (f ∷ fs) = str f.meta.name (flow_names fs)

-- The names as `%v` prints them.
names_of : List Flow → Message
unfolding flow_names
names_of fs = format "%v" (flow_names fs)

-- selectFlow, for the flows of a file, which are not none. The warning about several flows goes to
-- the standard error and is not kept.
unfoldable pub select_flow : Flow → List Flow → String → Result Flow
unfolding flow_named names_of
select_flow f fs name = if name == "" then ok f else elim (flow_named name (f ∷ fs)) [
  | some g ↦ ok g
  | none ↦ err (format "flow %q not found; available: %v" (str name (wrap (names_of (f ∷ fs)) end)))
]

-- One line of the summary: the step, the model of its agent, and its dependencies.
pub record SummaryLine : Type 0 where
  pub step : String
  pub model : String
  pub deps : List String

pub record Summary : Type 0 where
  pub flow : String
  pub steps : ℕ
  pub lines : List SummaryLine
  pub errors : List Message

-- What a command prints for a summary, and its error.
pub record Checked : Type 0 where
  pub summary : Option Summary
  pub error : Option Message

model_of : Option ArkAgent → String
model_of none = "<not found>"
model_of (some a) = a.spec.model

summary_line : List (String × ArkAgent) → FlowStep → SummaryLine
unfolding model_of lookup
summary_line agents s = record {
  step = s.name;
  model = model_of (lookup s.ark_agent agents);
  deps = s.depends_on;
}

unfoldable pub missing_agents : List (String × ArkAgent) → List FlowStep → List Message
unfolding lookup
missing_agents agents [] = []
missing_agents agents (s ∷ ss) =
    let rest = missing_agents agents ss in
    elim (lookup s.ark_agent agents) [
      | some a ↦ rest
      | none ↦
          format "step %q references unknown ArkAgent %q" (str s.name (str s.ark_agent end)) ∷ rest
    ]

unfoldable pub count_error : List Message → Option Message
count_error [] = none
count_error (m ∷ ms) = some (
    format "%d missing agent(s) — add the ArkAgent definitions to your YAML"
      (num (length (m ∷ ms)) end))

unfoldable pub dry_run : List (String × ArkAgent) → Flow → Checked
unfolding summary_line missing_agents count_error
dry_run agents f = elim (dag_error (validate_dag f.spec.steps)) [
  | some e ↦ record { summary = none; error = some (format "invalid DAG: %w" (wrap e end)) }
  | none ↦
      let missing = missing_agents agents f.spec.steps in
      record {
        summary = some (record {
          flow = f.meta.name;
          steps = length f.spec.steps;
          lines = map (summary_line agents) f.spec.steps;
          errors = missing;
        });
        error = count_error missing;
      }
]

abbrev only_error : Message → Checked
only_error e = record { summary = none; error = some e }

check_selected : List (String × ArkAgent) → Result Flow → Checked
unfolding dry_run
check_selected agents (err e) = only_error e
check_selected agents (ok f) = dry_run agents f

check_loaded : String → String → Loaded → List Flow → Checked
unfolding select_flow check_selected
check_loaded path name l [] = only_error (format "no ArkFlow resources found in %s" (str path end))
check_loaded path name l (f ∷ fs) = check_selected l.agents (select_flow f fs name)

-- The command validate, on what LoadFile returns.
unfoldable pub validate_command : String → String → Result Loaded → Checked
unfolding check_loaded
validate_command path name (err e) = only_error e
validate_command path name (ok l) = check_loaded path name l l.flows
