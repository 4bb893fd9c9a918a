-- ===== src/Flow/Phase/Frame.antt =====
-- What UpdateFlowPhase leaves alone.
use agentops_operator.Prelude.{ℕ, ◌≡◌, arith, map}
use agentops_operator.Api.Flow.{Flow, FlowPhase}
use agentops_operator.Flow.External.{External, TemplateData}
use agentops_operator.Flow.Step.{initial_status, initialize_steps}
use agentops_operator.Flow.Phase.{update_flow_phase}

module _ (ext : External) where
  open ext use {Json}

  pub steps-update_flow_phase :
      (now : ℕ) (data_map : TemplateData Json) (f : Flow)
      → (update_flow_phase ext now data_map f).status.steps ≡ f.status.steps
  unfolding update_flow_phase
  steps-update_flow_phase now data_map f = ground arith

  pub spec-update_flow_phase :
      (now : ℕ) (data_map : TemplateData Json) (f : Flow)
      → (update_flow_phase ext now data_map f).spec ≡ f.spec
  unfolding update_flow_phase
  spec-update_flow_phase now data_map f = ground arith

  pub spec-initialize_steps : (now : ℕ) (f : Flow) → (initialize_steps ext now f).spec ≡ f.spec
  unfolding initialize_steps
  spec-initialize_steps now f = ground arith

  -- A flow without a phase gets one fresh status for each step.
  pub steps-initialize_steps :
      (now : ℕ) (f : Flow)
      → f.status.phase ≡ FlowPhase.unset
      → (initialize_steps ext now f).status.steps ≡ map initial_status f.spec.steps
  unfolding initialize_steps
  steps-initialize_steps now f e = ground arith
