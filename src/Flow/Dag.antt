-- ===== src/Flow/Dag.antt =====
-- internal/flow/dag.go: ValidateDAG and its depth-first search.
pub mod Graph
mod Paint
mod Invariant
mod Searches
pub mod Known
pub mod Verdict
use agentops_operator.Prelude.{
  ℕ, zero, suc, String, Bool, true, false, ◌||◌, List, [], ◌∷◌, map, ◌==◌, if◌then◌else◌, length,
}
use agentops_operator.Api.Flow.{FlowStep}

-- The two errors that ValidateDAG builds, and the outcome that the search on fuel adds.
pub data DagResult : Type 0 where
  valid : DagResult
  unknown_step : (step dep : String) → DagResult
  cycle : (step dep : String) → DagResult
  out_of_fuel : DagResult

pub data Color : Type 0 where
  white gray black : Color

-- `color`, a map whose missing keys read as white.
abbrev pub Colors : Type 0
Colors = String → Color

unfoldable pub paint : String → Color → Colors → Colors
paint name col color n = if n == name then col else color n

-- `_, ok := stepNames[dep]`
unfoldable pub contains : List String → String → Bool
contains [] name = false
contains (n ∷ ns) name = n == name || contains ns name

unfoldable pub step_names : List FlowStep → List String
step_names steps = map (λ s. s.name) steps

-- The loop over one step's dependsOn: none of it is missing, or the first that is.
unfoldable pub check_deps : List String → String → List String → DagResult → DagResult
check_deps names step [] next = next
check_deps names step (d ∷ ds) next =
    if contains names d then check_deps names step ds next else unknown_step step d

unfoldable pub check_known : List String → List FlowStep → DagResult → DagResult
unfolding check_deps
check_known names [] next = next
check_known names (s ∷ ss) next = check_deps names s.name s.depends_on (check_known names ss next)

-- `adj[name]`: a later step of the same name overwrites an earlier one, and a missing key is nil.
unfoldable pub deps_of : List FlowStep → String → List String
deps_of [] name = []
deps_of (s ∷ ss) name =
    if contains (map (λ t. t.name) ss) name
    then deps_of ss name
    else if s.name == name
    then s.depends_on
    else []

-- What `dfs` returns: the colors that it leaves, or the error.
pub data Search : Type 0 where
  done : Colors → Search
  cycle_at : (step dep : String) → Search
  stopped : Search

-- The loop of `dfs` over the dependencies of `name`; `dfs` is the recursive call.
unfoldable pub visit : (String → Colors → Search) → String → List String → Colors → Search
visit dfs name [] color = done color
visit dfs name (d ∷ ds) color = elim (color d) [
  | gray ↦ cycle_at name d
  | white ↦ elim (dfs d color) [
    | done color' ↦ visit dfs name ds color'
    | cycle_at step dep ↦ cycle_at step dep
    | stopped ↦ stopped
  ]
  | black ↦ visit dfs name ds color
]

unfoldable pub finish : String → Search → Search
finish name (done color) = done (paint name black color)
finish name (cycle_at step dep) = cycle_at step dep
finish name stopped = stopped

module _ (steps : List FlowStep) where
  unfoldable pub dfs : ℕ → String → Colors → Search
  unfolding visit finish paint
  dfs zero name color = stopped
  dfs (suc fuel) name color =
      finish name (visit (dfs fuel) name (deps_of steps name) (paint name gray color))

  -- The last loop of ValidateDAG, over the steps' names.
  unfoldable pub search_all : ℕ → List String → Colors → DagResult
  unfolding dfs
  search_all fuel [] color = valid
  search_all fuel (n ∷ ns) color = elim (color n) [
    | white ↦ elim (dfs fuel n color) [
      | done color' ↦ search_all fuel ns color'
      | cycle_at step dep ↦ cycle step dep
      | stopped ↦ out_of_fuel
    ]
    | _ ↦ search_all fuel ns color
  ]

-- Every call of `dfs` paints one more of the steps' names, so their number is fuel enough.
unfoldable pub validate_dag : List FlowStep → DagResult
unfolding check_known step_names search_all
validate_dag steps =
    let names = step_names steps in
    check_known names steps (search_all steps (length names) names (λ _. white))
