-- ===== src/Local/Executor/Termination.antt =====
-- Run ends: the measure of its statuses falls in every round that executes steps.
use agentops_operator.Prelude.{
  ℕ, ◌+◌, ◌≤◌, ◌<◌, true, some, List, [], ◌∷◌, Memᴰ, ◌≡◌, refl, ◌⊎◌, inl, inr, arith, Bool-cases,
  Option-cases, All, ltb→lt,
}
use native.Mathlib.Nat.{le_refl, le_trans}
use agentops_operator.Prelude.Int64.{order64, order64-suc, lt64}
use agentops_operator.Api.Flow.{FlowStep, StepStatus, LoopSpec}
use agentops_operator.Flow.External.{External, TemplateData}
use agentops_operator.Flow.Status.{status_of, modify, is_pending}
use agentops_operator.Flow.Step.{
  is_succeeded, repeat_step, max_iterations_of, evaluate_loop, evaluate_loops, parse_status,
  parse_output_json,
}
use agentops_operator.Flow.Step.Loops.{evaluate_loop_cases}
use agentops_operator.Local.World.{World, StepResult}
use agentops_operator.Local.Executor.{
  skip_step, start_step, end_step, is_candidate, is_skipped, collect_ready_steps, receive_results,
  start_all, run,
}
use agentops_operator.Local.Executor.Measure.{weight, measure}
use agentops_operator.Flow.Status.Sums.{total-modify, total-modify_le, total-modify_each}

-- No loop allows a step more iterations than `k`.
abbrev pub BoundsLoops : ℕ → List FlowStep → Type 0
BoundsLoops k steps =
    (s : FlowStep)
    → Memᴰ s steps
    → (l : LoopSpec) → s.loop ≡ some l
    → order64 (max_iterations_of l) ≤ k

weight-skip_step :
    (k now : ℕ) (st : StepStatus)
    → is_pending st.phase ≡ true
    → weight k (skip_step now st) + 1 ≤ weight k st
unfolding weight skip_step
weight-skip_step k now st h = ground arith

weight-start_step : (k now : ℕ) (st : StepStatus) → weight k (start_step now st) ≤ weight k st
unfolding weight start_step
weight-start_step k now st = omega arith

weight-start_pending :
    (k now : ℕ) (st : StepStatus)
    → is_pending st.phase ≡ true
    → weight k (start_step now st) + 1 ≤ weight k st
unfolding weight start_step
weight-start_pending k now st h = ground arith

weight-end_step :
    (k : ℕ) (r : StepResult) (st : StepStatus) → weight k (end_step r st) ≤ weight k st
unfolding weight end_step
weight-end_step k r st = ground arith

weight-repeat_step :
    (k m : ℕ) (st : StepStatus)
    → is_succeeded st.phase ≡ true
    → lt64 st.iterations m ≡ true
    → order64 m ≤ k
    → weight k (repeat_step m st) + 1 ≤ weight k st
unfolding weight repeat_step
weight-repeat_step k m st h lt b =
    ground (arith, order64-suc st.iterations m lt, ltb→lt (order64 st.iterations) (order64 m) lt)

pub measure-receive_results :
    (k : ℕ) (rs : List StepResult) (sts : List StepStatus)
    → measure k (receive_results rs sts) ≤ measure k sts
unfolding receive_results
measure-receive_results k [] sts = le_refl _
measure-receive_results k (r ∷ rs) sts =
    le_trans (measure-receive_results k rs _)
      (total-modify_le (weight k) r.name (end_step r) sts (λ st _. weight-end_step k r st))

module _ (ext : External) where
  open ext use {Json}

  weight-parse_status :
      (k : ℕ) (steps : List FlowStep) (st : StepStatus)
      → weight k (parse_status ext steps st) ≡ weight k st
  unfolding weight parse_status
  weight-parse_status k steps st = ground arith

  measure-evaluate_loop :
      (k : ℕ) (data_map : TemplateData Json) (s : FlowStep) (sts : List StepStatus)
      → ((l : LoopSpec) → s.loop ≡ some l → order64 (max_iterations_of l) ≤ k)
      → measure k (evaluate_loop ext data_map s sts) ≤ measure k sts
  measure-evaluate_loop k data_map s sts b = elim (evaluate_loop_cases ext data_map s sts) [
    | inl same ↦ rw same (le_refl _)
    | inr (l, st, has, found, (done, room, _), e) ↦ rw e (
        omega (
          arith,
          total-modify (weight k) s.name (repeat_step (max_iterations_of l)) sts st found,
          (weight-repeat_step k (max_iterations_of l) st done room (b l has)),
        ))
  ]

  pub measure-evaluate_loops :
      (k : ℕ) (data_map : TemplateData Json) (steps : List FlowStep) (sts : List StepStatus)
      → BoundsLoops k steps
      → measure k (evaluate_loops ext data_map steps sts) ≤ measure k sts
  unfolding evaluate_loops
  measure-evaluate_loops k data_map [] sts b = le_refl _
  measure-evaluate_loops k data_map (s ∷ ss) sts b =
      le_trans
        (measure-evaluate_loops k data_map ss (evaluate_loop ext data_map s sts)
          (λ t m. b t (Memᴰ.tail m)))
        (measure-evaluate_loop k data_map s sts (b s (Memᴰ.head refl)))

  -- The step has a status that is pending.
  abbrev pub IsPendingIn : List StepStatus → FlowStep → Type 0
  IsPendingIn sts s =
      (st : StepStatus) × (status_of s.name sts ≡ some st) × (is_pending st.phase ≡ true)

  candidate-IsPendingIn :
      (s : FlowStep) (sts : List StepStatus)
      → is_candidate s sts (status_of s.name sts) ≡ true
      → IsPendingIn sts s
  unfolding is_candidate
  candidate-IsPendingIn s sts h = elim (Option-cases (status_of s.name sts)) [
    | inl e ↦ absurd (ground arith)
    | inr (st, e) ↦ (st, e, ground arith)
  ]

  -- A collection that skips no step leaves the statuses, and what it finds is pending there; one
  -- that skips a step lowers the measure.
  abbrev pub Collected : ℕ → List StepStatus → List FlowStep × List StepStatus → Type 0
  Collected k sts r = ((r.1 ≡ sts) × All (IsPendingIn sts) r.0) ⊎ (measure k r.1 < measure k sts)

  pub Collected-le :
      (k : ℕ) (sts : List StepStatus) (r : List FlowStep × List StepStatus)
      → Collected k sts r
      → measure k r.1 ≤ measure k sts
  Collected-le k sts r (inl (e, _)) = rw e (le_refl _)
  Collected-le k sts r (inr lt) = omega arith

  Collected-cons :
      (k : ℕ) (sts : List StepStatus) (s : FlowStep) (r : List FlowStep × List StepStatus)
      → IsPendingIn sts s
      → Collected k sts r
      → Collected k sts (s ∷ r.0, r.1)
  Collected-cons k sts s r p (inl (e, all)) = inl (e, (p, all))
  Collected-cons k sts s r p (inr lt) = inr lt

  measure-skip_step :
      (k now : ℕ) (s : FlowStep) (sts : List StepStatus)
      → IsPendingIn sts s
      → measure k (modify s.name (skip_step now) sts) < measure k sts
  measure-skip_step k now s sts (st, found, pend) = omega (
    arith,
    total-modify (weight k) s.name (skip_step now) sts st found,
    (weight-skip_step k now st pend),
  )

  pub collect-Collected :
      (k : ℕ) (now : FlowStep → ℕ) (data_map : TemplateData Json) (steps : List FlowStep)
      (sts : List StepStatus)
      → Collected k sts (collect_ready_steps ext now data_map steps sts)
  unfolding collect_ready_steps
  collect-Collected k now data_map [] sts = inl (refl, tt)
  collect-Collected k now data_map (s ∷ ss) sts =
      elim (Bool-cases (is_candidate s sts (status_of s.name sts))) [
        | inr f ↦ rw f (collect-Collected k now data_map ss sts)
        | inl t ↦ elim (Bool-cases (is_skipped ext data_map s)) [
          | inl skip ↦
              rw (t, skip)
                (inr (
                  omega (
                    arith,
                    measure-skip_step k (now s) s sts (candidate-IsPendingIn s sts t),
                    Collected-le k (modify s.name (skip_step (now s)) sts) _ (
                        collect-Collected k now data_map ss
                          (modify s.name (skip_step (now s)) sts)),
                  )))
          | inr run ↦
              rw (t, run)
                (Collected-cons k sts s (collect_ready_steps ext now data_map ss sts)
                  (candidate-IsPendingIn s sts t) (collect-Collected k now data_map ss sts))
        ]
      ]

  module _ (w : World) (k : ℕ) where
    pub measure-start_all :
        (round : ℕ) (ready : List FlowStep) (sts : List StepStatus)
        → measure k (start_all ext w round ready sts) ≤ measure k sts
    unfolding start_all
    measure-start_all round [] sts = le_refl _
    measure-start_all round (s ∷ ss) sts = le_trans (measure-start_all round ss _) (
        total-modify_le (weight k) s.name (start_step (w.now round s.name)) sts
          (λ st _. weight-start_step k (w.now round s.name) st))

    pub measure-start_pending :
        (round : ℕ) (s : FlowStep) (ss : List FlowStep) (sts : List StepStatus)
        → IsPendingIn sts s
        → measure k (start_all ext w round (s ∷ ss) sts) < measure k sts
    unfolding start_all
    measure-start_pending round s ss sts (st, found, pend) = omega (
      arith,
      measure-start_all round ss (modify s.name (start_step (w.now round s.name)) sts),
      total-modify (weight k) s.name (start_step (w.now round s.name)) sts st found,
      (weight-start_pending k (w.now round s.name) st pend),
    )

  pub measure-parse_output_json :
      (k : ℕ) (steps : List FlowStep) (sts : List StepStatus)
      → measure k (parse_output_json ext steps sts) ≡ measure k sts
  unfolding parse_output_json
  measure-parse_output_json k steps sts =
      total-modify_each (weight k) (parse_status ext steps) sts (weight-parse_status k steps)
