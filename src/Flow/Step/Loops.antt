-- ===== src/Flow/Step/Loops.antt =====
-- What EvaluateLoops does to the statuses.
use agentops_operator.Prelude.{
  true, some, List, ◌≡◌, ◌⊎◌, inl, inr, arith, Bool-cases, Option-cases,
}
use agentops_operator.Prelude.Int64.{lt64}
use agentops_operator.Api.Flow.{FlowStep, StepStatus, LoopSpec}
use agentops_operator.Flow.External.{External, TemplateData}
use agentops_operator.Flow.Status.{status_of, modify}
use agentops_operator.Flow.Template.{resolve_template, truthy_result}
use agentops_operator.Flow.Step.{
  is_succeeded, should_repeat, repeat_step, max_iterations_of, evaluate_loop,
}

module _ (ext : External) where
  open ext use {Json}

  -- A step's loop is taken: it succeeded, has iterations left, and its condition holds.
  abbrev pub Repeats : TemplateData Json → LoopSpec → StepStatus → Type 0
  Repeats data_map l st =
      (is_succeeded st.phase ≡ true)
      × (lt64 st.iterations (max_iterations_of l) ≡ true)
      × (truthy_result (resolve_template ext l.condition data_map) ≡ true)

  should_repeat→Repeats :
      (data_map : TemplateData Json) (l : LoopSpec) (st : StepStatus)
      → should_repeat ext data_map l st ≡ true
      → Repeats data_map l st
  unfolding should_repeat
  should_repeat→Repeats data_map l st h = ground arith

  pub evaluate_loop_cases :
      (data_map : TemplateData Json) (s : FlowStep) (sts : List StepStatus)
      → (evaluate_loop ext data_map s sts ≡ sts)
        ⊎ ((l : LoopSpec) × (st : StepStatus) × (s.loop ≡ some l)
            × (status_of s.name sts ≡ some st)
            × Repeats data_map l st
            × (evaluate_loop ext data_map s sts
                ≡ modify s.name (repeat_step (max_iterations_of l)) sts))
  unfolding evaluate_loop
  evaluate_loop_cases data_map s sts = elim (Option-cases s.loop) [
    | inl e ↦ inl (ground arith)
    | inr (l, e) ↦ elim (Option-cases (status_of s.name sts)) [
      | inl n ↦ inl (ground arith)
      | inr (st, found) ↦ elim (Bool-cases (should_repeat ext data_map l st)) [
        | inr f ↦ inl (ground arith)
        | inl t ↦ inr (l, st, e, found, should_repeat→Repeats data_map l st t, ground arith)
      ]
    ]
  ]
