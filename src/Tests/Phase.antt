-- ===== src/Tests/Phase.antt =====
-- UpdateFlowPhase and SumStepTokens on small flows.
use agentops_operator.Prelude.{◌+◌, ◌%◌, [], ◌∷◌, ◌≡◌, refl, ◌⊎◌, ◌↔◌, some, arith}
use agentops_operator.Prelude.Int64.{two64}
use agentops_operator.Api.Flow.{FlowPhase, StepPhase, StepStatus, Flow}
use agentops_operator.Flow.Template.{build_template_data}
use agentops_operator.Flow.Phase.{sum_step_tokens, update_flow_phase}
use agentops_operator.Flow.Phase.Tokens.{input_sum, output_sum, sum_step_tokens-sum}
use agentops_operator.Flow.Phase.Outcome.{
  HasTimedOut, IsOverBudget, IsAllDone, HasFailedStep, InRange, update_flow_phase-succeeded_iff,
  update_flow_phase-failed_iff,
}
use agentops_operator.Tests.Samples.{step, status, flow, usage, plain_external}

abbrev spent : StepStatus
spent = record (status "a" StepPhase.succeeded) { token_usage = some (usage 30 12) }

abbrev half_done : Flow
half_done =
    flow FlowPhase.running (step "a" [] ∷ step "b" [] ∷ [])
      (spent ∷ status "b" StepPhase.skipped ∷ [])

spent_total : (sum_step_tokens half_done).0 ≡ 42
unfolding sum_step_tokens
spent_total = refl

half_done-InRange : InRange half_done
half_done-InRange = omega arith

sum_step_tokens-sum_example :
    (sum_step_tokens half_done).0
    ≡ (input_sum half_done.status.steps + output_sum half_done.status.steps) % two64
sum_step_tokens-sum_example = sum_step_tokens-sum half_done

update_flow_phase-succeeded_iff_example :
    ((update_flow_phase plain_external 5
        (build_template_data plain_external half_done.spec [])
        half_done).status.phase
      ≡ FlowPhase.succeeded)
    ↔ ((¬ HasTimedOut 5 half_done) × (¬ IsOverBudget half_done) × IsAllDone half_done)
update_flow_phase-succeeded_iff_example =
    update_flow_phase-succeeded_iff plain_external 5
      (build_template_data plain_external half_done.spec []) half_done half_done-InRange refl

update_flow_phase-failed_iff_example :
    ((update_flow_phase plain_external 5
        (build_template_data plain_external half_done.spec [])
        half_done).status.phase
      ≡ FlowPhase.failed)
    ↔ (HasTimedOut 5 half_done ⊎ IsOverBudget half_done ⊎ HasFailedStep half_done)
update_flow_phase-failed_iff_example =
    update_flow_phase-failed_iff plain_external 5
      (build_template_data plain_external half_done.spec []) half_done half_done-InRange refl
