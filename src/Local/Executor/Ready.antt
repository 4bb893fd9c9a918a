-- ===== src/Local/Executor/Ready.antt =====
-- The steps that a round of Run executes.
use agentops_operator.Prelude.{
  ℕ, true, false, some, List, [], ◌∷◌, ◌≡◌, refl, inl, inr, arith, Bool-cases, Option-cases, Memᴰ,
  All,
}
use agentops_operator.Api.Flow.{FlowStep, StepStatus}
use agentops_operator.Flow.External.{External, TemplateData}
use agentops_operator.Flow.Status.{status_of, modify, deps_succeeded, is_pending}
use agentops_operator.Flow.Status.Keeps.{Keeps, deps_succeeded-Keeps, modify-Keeps}
use agentops_operator.Local.Executor.{skip_step, is_candidate, is_skipped, collect_ready_steps}

module _ (ext : External) where
  open ext use {Json}

  -- The step is one of the list, its condition is absent or holds, and its dependencies are complete.
  abbrev pub IsReady : TemplateData Json → List FlowStep → List StepStatus → FlowStep → Type 0
  IsReady data_map steps sts s =
      Memᴰ s steps × (is_skipped ext data_map s ≡ false) × (deps_succeeded s.depends_on sts ≡ true)

  candidate_lem :
      (s : FlowStep) (sts : List StepStatus)
      → is_candidate s sts (status_of s.name sts) ≡ true
      → (st : StepStatus) × (status_of s.name sts ≡ some st)
        × (is_pending st.phase ≡ true)
        × (deps_succeeded s.depends_on sts ≡ true)
  unfolding is_candidate
  candidate_lem s sts h = elim (Option-cases (status_of s.name sts)) [
    | inl e ↦ absurd (ground arith)
    | inr (st, e) ↦ (st, e, ground arith, ground arith)
  ]

  IsReady-tail :
      (data_map : TemplateData Json) (s : FlowStep) (ss : List FlowStep) (sts : List StepStatus)
      (rs : List FlowStep)
      → All (IsReady data_map ss sts) rs
      → All (IsReady data_map (s ∷ ss) sts) rs
  IsReady-tail data_map s ss sts [] h = tt
  IsReady-tail data_map s ss sts (r ∷ rs) ((m, c, d), h) =
      ((Memᴰ.tail m, c, d), IsReady-tail data_map s ss sts rs h)

  module _ (now : FlowStep → ℕ) (data_map : TemplateData Json) where
    skipped-Keeps :
        (s : FlowStep) (sts : List StepStatus)
        → is_candidate s sts (status_of s.name sts) ≡ true
        → Keeps sts (modify s.name (skip_step (now s)) sts)
    unfolding skip_step
    skipped-Keeps s sts h =
        let (old, at, pend, _) = candidate_lem s sts h in
        modify-Keeps s.name (skip_step (now s)) sts old (λ _. refl) at pend

    collect-Keeps :
        (steps : List FlowStep) (sts : List StepStatus)
        → Keeps sts (collect_ready_steps ext now data_map steps sts).1
    unfolding collect_ready_steps
    collect-Keeps [] sts j st e p = e
    collect-Keeps (s ∷ ss) sts j st e p =
        elim (Bool-cases (is_candidate s sts (status_of s.name sts))) [
          | inr f ↦ rw f (collect-Keeps ss sts j st e p)
          | inl t ↦ elim (Bool-cases (is_skipped ext data_map s)) [
            | inl skip ↦
                rw (t, skip)
                  (collect-Keeps ss (modify s.name (skip_step (now s)) sts) j st
                    (skipped-Keeps s sts t j st e p) p)
            | inr run ↦ rw (t, run) (collect-Keeps ss sts j st e p)
          ]
        ]

    -- Every step that a round executes is a step of the flow whose condition is absent or holds, and
    -- whose dependencies are all Succeeded or Skipped in the statuses with which the round starts its
    -- steps.
    pub collect_ready_steps-IsReady :
        (steps : List FlowStep) (sts : List StepStatus)
        → All
            (IsReady data_map steps (collect_ready_steps ext now data_map steps sts).1)
            (collect_ready_steps ext now data_map steps sts).0
    unfolding collect_ready_steps
    collect_ready_steps-IsReady [] sts = tt
    collect_ready_steps-IsReady (s ∷ ss) sts =
        elim (Bool-cases (is_candidate s sts (status_of s.name sts))) [
          | inr f ↦ rw f (IsReady-tail data_map s ss _ _ (collect_ready_steps-IsReady ss sts))
          | inl t ↦ elim (Bool-cases (is_skipped ext data_map s)) [
            | inl skip ↦
                rw (t, skip)
                  (IsReady-tail data_map s ss _ _
                    (collect_ready_steps-IsReady ss (modify s.name (skip_step (now s)) sts)))
            | inr run ↦
                let (old, _, _, deps) = candidate_lem s sts t in
                rw (t, run)
                  (
                    (
                      Memᴰ.head refl,
                      run,
                      deps_succeeded-Keeps s.depends_on sts _ (collect-Keeps ss sts) deps,
                    ),
                    IsReady-tail data_map s ss _ _ (collect_ready_steps-IsReady ss sts),
                  )
          ]
        ]
