-- ===== src/Operator/Submit/Count.antt =====
-- A pass of submitPendingSteps adds one task for each step that it starts.
use agentops_operator.Prelude.{
  ℕ, ◌+◌, String, List, [], ◌∷◌, ◌++◌, if◌then◌else◌, ◌≡◌, refl, sym, ◌∙◌, inl, inr, arith, ap,
  length,
}
use agentops_operator.Api.Flow.{FlowStep, StepStatus}
use agentops_operator.Flow.External.{External, TemplateData}
use agentops_operator.Flow.Status.{is_running}
use agentops_operator.Flow.Status.Sums.{total, total-modify}
use agentops_operator.Operator.Submit.{Task, Submission, Tasks, submit_pending_steps}
use agentops_operator.Operator.Submit.Passes.{next, pass, next-Effect, pass_cases}

abbrev pub running_weight : StepStatus → ℕ
running_weight st = if is_running st.phase then 1 else 0

-- The number of steps that are Running.
abbrev pub count_running : List StepStatus → ℕ
count_running = total running_weight

length-snoc : (ts : List Task) (t : Task) → length (ts ++ t ∷ []) ≡ length ts + 1
length-snoc [] t = refl
length-snoc (x ∷ xs) t = omega (arith, length-snoc xs t)

length-added : (ts ts' : List Task) (t : Task) → ts' ≡ ts ++ t ∷ [] → length ts' ≡ length ts + 1
length-added ts ts' t e = ap (length {A = Task}) e ∙ length-snoc ts t

module _ (ext : External) (q : Tasks) (key : String) where
  open ext use {Json}

  module _ (data_map : TemplateData Json) where
    next-count :
        (s : FlowStep) (r : Submission)
        → count_running (next ext q key data_map s r).steps + length r.tasks
          ≡ count_running r.steps + length (next ext q key data_map s r).tasks
    next-count s r = elim (next-Effect ext q key data_map s r) [
      | inl (same, none_added) ↦
          omega (arith, ap count_running same, ap (length {A = Task}) none_added)
      | inr (old, g, (at, pend, _, _, w), inl (_, f, none_added)) ↦ ground (
        arith,
        ap count_running w,
        total-modify running_weight s.name g r.steps old at,
        ap (length {A = Task}) none_added,
      )
      | inr (old, g, (at, pend, _, _, w), inr (t, _, _, more)) ↦ ground (
        arith,
        ap count_running w,
        total-modify running_weight s.name g r.steps old at,
        length-added r.tasks _ _ more,
      )
    ]

    -- A pass adds as many tasks to the stream as it leaves more steps Running than it found, also
    -- when an error ends it.
    pub submit_pending_steps-count :
        (steps : List FlowStep) (r : Submission)
        → count_running (submit_pending_steps ext q key data_map steps r).steps + length r.tasks
          ≡ count_running r.steps + length (submit_pending_steps ext q key data_map steps r).tasks
    unfolding pass submit_pending_steps
    submit_pending_steps-count [] r = refl
    submit_pending_steps-count (s ∷ ss) r = elim (pass_cases ext q key data_map s ss r) [
      | inl stop ↦
          ap (λ x. count_running x.steps + length r.tasks) stop
          ∙ sym (ap (λ x. count_running r.steps + length x.tasks) stop)
      | inr go ↦
          let n = next ext q key data_map s r in
          omega (
            arith,
            ap (λ x. count_running x.steps) go,
            ap (λ x. length x.tasks) go,
            next-count s r,
            submit_pending_steps-count ss n,
          )
    ]
