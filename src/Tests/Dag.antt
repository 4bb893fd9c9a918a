-- ===== src/Tests/Dag.antt =====
-- ValidateDAG on small flows.
use agentops_operator.Prelude.{String, List, [], ◌∷◌, ◌≡◌, ◌≢◌, refl, ◌⊎◌, ◌↔◌}
use agentops_operator.Api.Flow.{FlowStep}
use agentops_operator.Flow.Dag.{
  valid, unknown_step, cycle, out_of_fuel, contains, step_names, deps_of, validate_dag,
}
use agentops_operator.Flow.Dag.Graph.{DependsOn, Chain, IsAcyclic, HasKnownDeps}
use agentops_operator.Flow.Dag.Known.{Unknown}
use agentops_operator.Flow.Dag.Verdict.{
  validate_dag-ne-out_of_fuel, validate_dag-valid_iff, validate_dag-cycle,
  validate_dag-unknown_step,
}
use agentops_operator.Tests.Samples.{step}

abbrev diamond : List FlowStep
diamond =
    step "report" ("left" ∷ "right" ∷ [])
    ∷ step "left" ("fetch" ∷ [])
    ∷ step "right" ("fetch" ∷ [])
    ∷ step "fetch" []
    ∷ []

abbrev ring : List FlowStep
ring = step "a" ("b" ∷ []) ∷ step "b" ("c" ∷ []) ∷ step "c" ("a" ∷ []) ∷ []

abbrev dangling : List FlowStep
dangling = step "a" ("gone" ∷ []) ∷ []

diamond_valid : validate_dag diamond ≡ valid
unfolding validate_dag contains deps_of
diamond_valid = refl

ring_cycle : validate_dag ring ≡ cycle "c" "a"
unfolding validate_dag contains deps_of
ring_cycle = refl

dangling_unknown : validate_dag dangling ≡ unknown_step "a" "gone"
unfolding validate_dag contains deps_of
dangling_unknown = refl

validate_dag-ne-out_of_fuel_example : validate_dag ring ≢ out_of_fuel
validate_dag-ne-out_of_fuel_example = validate_dag-ne-out_of_fuel ring

validate_dag-valid_iff_example :
    (validate_dag diamond ≡ valid) ↔ (HasKnownDeps diamond × IsAcyclic diamond)
validate_dag-valid_iff_example = validate_dag-valid_iff diamond

validate_dag-cycle_example :
    HasKnownDeps ring × DependsOn ring "c" "a" × (◌≡◌ {A = String} "a" "c" ⊎ Chain ring "a" "c")
validate_dag-cycle_example = validate_dag-cycle ring "c" "a" ring_cycle

validate_dag-unknown_step_example : Unknown (step_names dangling) dangling "a" "gone"
validate_dag-unknown_step_example = validate_dag-unknown_step dangling "a" "gone" dangling_unknown
