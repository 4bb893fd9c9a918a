-- ===== src/Operator/Submit/Effects.antt =====
-- What one step of submitPendingSteps may do to the state of the pass.
use agentops_operator.Prelude.{
  String, true, false, some, List, [], ◌∷◌, ◌++◌, ◌≡◌, refl, ◌⊎◌, inl, inr, arith, Bool-cases,
  Option-cases,
}
use agentops_operator.Api.Meta.{Message, Result, ok, err}
use agentops_operator.Api.Flow.{FlowStep, StepStatus}
use agentops_operator.Flow.External.{External, TemplateData}
use agentops_operator.Flow.Status.{status_of, modify, deps_succeeded, is_pending, is_running}
use agentops_operator.Flow.Status.Laws.{KeepsName}
use agentops_operator.Flow.Template.{resolve_prompt}
use agentops_operator.Operator.Submit.{
  Submission, Tasks, task_values, submit_task, skip_pending, fail_pending, start_pending, is_ready,
  is_excluded, decide, act,
}

-- The pending status `st` of a step, whose dependencies are complete, is replaced.
abbrev pub Replaces :
    FlowStep → StepStatus → (StepStatus → StepStatus) → Submission → Submission → Type 0
Replaces s st g r r' =
    (status_of s.name r.steps ≡ some st)
    × (is_pending st.phase ≡ true)
    × (deps_succeeded s.depends_on r.steps ≡ true)
    × KeepsName g
    × (r'.steps ≡ modify s.name g r.steps)

-- The step ends without a task.
abbrev pub Ends : StepStatus → Submission → Submission → Type 0
Ends st r r' = (is_pending st.phase ≡ false) × (is_running st.phase ≡ false) × (r'.tasks ≡ r.tasks)

pub Result-cases :
    {A : Type 0} (o : Result A) → ((a : A) × (o ≡ ok a)) ⊎ ((e : Message) × (o ≡ err e))
Result-cases (ok a) = inl (a, refl)
Result-cases (err e) = inr (e, refl)

module _ (ext : External) where
  open ext use {Json}

  -- The step runs under the id of a new task, whose prompt is the step's.
  abbrev pub Starts :
      String → TemplateData Json → FlowStep → StepStatus → Submission → Submission → Type 0
  Starts key data_map s st r r' =
      (is_running st.phase ≡ true)
      × (prompt : String) × (resolve_prompt ext s data_map ≡ ok prompt)
      × (r'.tasks ≡ r.tasks ++ record { id = st.task_id; values = task_values prompt key } ∷ [])

  abbrev pub Effect : String → TemplateData Json → FlowStep → Submission → Submission → Type 0
  Effect key data_map s r r' =
      ((r'.steps ≡ r.steps) × (r'.tasks ≡ r.tasks))
      ⊎ ((st : StepStatus) × (g : StepStatus → StepStatus) × Replaces s st g r r'
          × (Ends (g st) r r' ⊎ Starts key data_map s (g st) r r'))

  ready_lem :
      (s : FlowStep) (sts : List StepStatus)
      → is_ready s sts (status_of s.name sts) ≡ true
      → (st : StepStatus) × (status_of s.name sts ≡ some st)
        × (is_pending st.phase ≡ true)
        × (deps_succeeded s.depends_on sts ≡ true)
  unfolding is_ready
  ready_lem s sts h = elim (Option-cases (status_of s.name sts)) [
    | inl e ↦ absurd (ground arith)
    | inr (st, e) ↦ (st, e, ground arith, ground arith)
  ]

  module _ (q : Tasks) (key : String) where
    pub act-Effect :
        (data_map : TemplateData Json) (s : FlowStep) (r : Submission)
        → Effect key data_map s r (act q key s (decide ext data_map s r.steps) r)
    unfolding decide act skip_pending fail_pending start_pending
    act-Effect data_map s r = elim (Bool-cases (is_ready s r.steps (status_of s.name r.steps))) [
      | inr f ↦ rw (f, decide) (inl (refl, refl))
      | inl t ↦
          let (st, e, p, d) = ready_lem s r.steps t in
          elim (Bool-cases (is_excluded ext data_map s)) [
            | inl x ↦
                rw (t, x, decide)
                  (inr (
                    st,
                    skip_pending (q.clock s.name),
                    (e, p, d, λ _. refl, refl),
                    inl (refl, refl, refl),
                  ))
            | inr x ↦ elim (Result-cases (resolve_prompt ext s data_map)) [
              | inr (m, bad) ↦
                  rw (t, x, bad, decide)
                    (inr (
                      st,
                      fail_pending (q.clock s.name) m,
                      (e, p, d, λ _. refl, refl),
                      inl (refl, refl, refl),
                    ))
              | inl (prompt, good) ↦ elim (Result-cases (submit_task q r.tasks prompt key)) [
                | inr (m, refused) ↦ rw (t, x, good, decide, refused) (inl (refl, refl))
                | inl (id, added) ↦
                    rw (t, x, good, decide, added)
                      (inr (
                        st,
                        start_pending (q.clock s.name) id,
                        (e, p, d, λ _. refl, refl),
                        inr (refl, prompt, refl, refl),
                      ))
              ]
            ]
          ]
    ]
