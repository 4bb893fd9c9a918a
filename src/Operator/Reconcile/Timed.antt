-- ===== src/Operator/Reconcile/Timed.antt =====
-- The times that Reconcile of a flow records with the statuses.
use agentops_operator.Prelude.{
  ℕ, String, true, false, Bool, List, [], ◌∷◌, map, ◌==◌, if◌then◌else◌, ◌≡◌, refl, sym, subst, inl,
  inr, All, Bool-cases, Option-cases,
}
use agentops_operator.Api.Flow.{FlowStep, StepStatus, Flow}
use agentops_operator.Flow.External.{External, TemplateData}
use agentops_operator.Flow.Status.{is_terminal_phase}
use agentops_operator.Flow.Status.Times.{IsTimed, All-modify, All-modify_each}
use agentops_operator.Flow.Step.{
  is_unset, set_condition, initial_status, initialize_steps, parse_status, parse_output_json,
  repeat_step, evaluate_loop, evaluate_loops,
}
use agentops_operator.Flow.Step.Loops.{evaluate_loop_cases}
use agentops_operator.Flow.Dag.{validate_dag}
use agentops_operator.Flow.Phase.{update_flow_phase}
use agentops_operator.Flow.Phase.Frame.{steps-update_flow_phase}
use agentops_operator.Operator.Results.{collect_results}
use agentops_operator.Operator.Submit.{
  Task, Submission, Tasks, act, decide, Decision, leave, skip, fail, submit, started,
  submit_pending_steps, submit_task, skip_pending, fail_pending, start_pending,
}
use agentops_operator.Operator.Submit.Effects.{Result-cases}
use agentops_operator.Operator.Submit.Passes.{next, pass, pass_cases}
use agentops_operator.Operator.Reconcile.{
  found, Cluster, Outcome, dag_error, validate_agents, is_trigger_template, observed, with_statuses,
  reconcile, admitted, validated, run_pass, advance, after_submit, conclude, refused,
}
use agentops_operator.Operator.Reconcile.Guards.{Get-cases}
use agentops_operator.Operator.Results.Timed.{collect_results-IsTimed}

if-IsTimed : (b : Bool) (x y : StepStatus) → IsTimed x → IsTimed y → IsTimed (if b then x else y)
if-IsTimed true x y h k = h
if-IsTimed false x y h k = k

initial_status-IsTimed : (steps : List FlowStep) → All IsTimed (map initial_status steps)
unfolding initial_status
initial_status-IsTimed [] = tt
initial_status-IsTimed (s ∷ ss) = (tt, initial_status-IsTimed ss)

-- Every status of a flow is timed.
abbrev pub HasTimes : Flow → Type 0
HasTimes f = All IsTimed f.status.steps

abbrev AllHaveTimes : Outcome → Type 0
AllHaveTimes r = All HasTimes r.updates

module _ (ext : External) where
  open ext use {Json}

  parse_output_json-IsTimed :
      (steps : List FlowStep) (sts : List StepStatus)
      → All IsTimed sts
      → All IsTimed (parse_output_json ext steps sts)
  unfolding parse_output_json parse_status
  parse_output_json-IsTimed steps sts =
      All-modify_each IsTimed (parse_status ext steps) sts
        (λ st t. if-IsTimed _ (record st { output_json = _ }) st t t)

  evaluate_loops-IsTimed :
      (data_map : TemplateData Json) (steps : List FlowStep) (sts : List StepStatus)
      → All IsTimed sts
      → All IsTimed (evaluate_loops ext data_map steps sts)
  unfolding evaluate_loops repeat_step
  evaluate_loops-IsTimed data_map [] sts timed = timed
  evaluate_loops-IsTimed data_map (s ∷ ss) sts timed =
      evaluate_loops-IsTimed data_map ss (evaluate_loop ext data_map s sts)
        (elim (evaluate_loop_cases ext data_map s sts) [
          | inl same ↦ subst (All IsTimed) (sym same) timed
          | inr (l, st, _, _, _, changed) ↦
              subst (All IsTimed) (sym changed)
                (All-modify IsTimed s.name (repeat_step _) sts (λ _ _ _. tt) timed)
        ])

  act-IsTimed :
      (q : Tasks) (key : String) (s : FlowStep) (d : Decision) (r : Submission)
      → All IsTimed r.steps
      → All IsTimed (act q key s d r).steps
  unfolding act started skip_pending fail_pending start_pending
  act-IsTimed q key s leave r timed = timed
  act-IsTimed q key s skip r timed = All-modify IsTimed s.name _ r.steps (λ _ _ _. tt) timed
  act-IsTimed q key s (fail e) r timed = All-modify IsTimed s.name _ r.steps (λ _ _ _. tt) timed
  act-IsTimed q key s (submit prompt) r timed =
      elim (Result-cases (submit_task q r.tasks prompt key)) [
        | inr (m, e) ↦ rw (e, act) timed
        | inl (id, e) ↦
            rw (e, act)
              (All-modify IsTimed s.name (start_pending _ id) r.steps (λ _ _ _. refl) timed)
      ]

  submit_pending_steps-IsTimed :
      (q : Tasks) (key : String) (data_map : TemplateData Json) (steps : List FlowStep)
      (r : Submission)
      → All IsTimed r.steps
      → All IsTimed (submit_pending_steps ext q key data_map steps r).steps
  unfolding pass submit_pending_steps next
  submit_pending_steps-IsTimed q key data_map [] r timed = timed
  submit_pending_steps-IsTimed q key data_map (s ∷ ss) r timed =
      elim (pass_cases ext q key data_map s ss r) [
        | inl stop ↦ subst (λ x. All IsTimed x.steps) (sym stop) timed
        | inr go ↦
            subst (λ x. All IsTimed x.steps) (sym go)
              (submit_pending_steps-IsTimed q key data_map ss (next ext q key data_map s r)
                (act-IsTimed q key s (decide ext data_map s r.steps) r timed))
      ]

  initialize_steps-HasTimes :
      (now : ℕ) (f : Flow) → HasTimes f → HasTimes (initialize_steps ext now f)
  unfolding initialize_steps
  initialize_steps-HasTimes now f h = elim (Bool-cases (is_unset f.status.phase)) [
    | inl e ↦ rw (e, initialize_steps) (initial_status-IsTimed f.spec.steps)
    | inr e ↦ rw (e, initialize_steps) h
  ]

  module _ (c : Cluster) where
    conclude-AllHaveTimes :
        (data_map : TemplateData Json) (tasks : List Task) (f : Flow)
        → HasTimes f
        → AllHaveTimes (conclude ext c data_map tasks f)
    unfolding conclude
    conclude-AllHaveTimes data_map tasks f h =
        let kept = subst (All IsTimed) (sym (steps-update_flow_phase ext c.now data_map f)) h in
        elim (Option-cases (c.update_status (observed (update_flow_phase ext c.now data_map f)))) [
          | inl e ↦ rw (e, conclude) (kept, tt)
          | inr (m, e) ↦ rw (e, conclude) (kept, tt)
        ]

    after_submit-AllHaveTimes :
        (data_map : TemplateData Json) (f : Flow) (r : Submission)
        → All IsTimed r.steps
        → AllHaveTimes (after_submit ext c data_map f r)
    unfolding after_submit
    after_submit-AllHaveTimes data_map f r h = elim (Option-cases r.error) [
      | inl e ↦
          rw (e, after_submit) (conclude-AllHaveTimes data_map r.tasks (with_statuses f r.steps) h)
      | inr (m, e) ↦ rw (e, after_submit) (h, tt)
    ]

    advance-AllHaveTimes :
        (f : Flow) (sts : List StepStatus) → All IsTimed sts → AllHaveTimes (advance ext c f sts)
    unfolding advance
    advance-AllHaveTimes f sts h = after_submit-AllHaveTimes _ f _ (
        submit_pending_steps-IsTimed c.tasks _ _ f.spec.steps _
          (evaluate_loops-IsTimed _ f.spec.steps _ (parse_output_json-IsTimed f.spec.steps sts h)))

    run_pass-AllHaveTimes : (f : Flow) → HasTimes f → AllHaveTimes (run_pass ext c f)
    unfolding run_pass
    run_pass-AllHaveTimes f0 h =
        let f = initialize_steps ext c.now f0 in
        let ready = initialize_steps-HasTimes c.now f0 h in
        elim (Result-cases
          (collect_results c.result_clock (c.key_order f.status.steps) c.results f.status.steps)) [
            | inr (m, e) ↦ rw (e, run_pass) tt
            | inl (sts, e) ↦
                rw (e, run_pass)
                  (advance-AllHaveTimes f sts (
                    collect_results-IsTimed c.result_clock (c.key_order f.status.steps) c.results
                      f.status.steps sts ready e))
          ]

    admitted-AllHaveTimes : (f : Flow) → HasTimes f → AllHaveTimes (admitted ext c f)
    unfolding admitted refused set_condition
    admitted-AllHaveTimes f h = elim (Bool-cases (is_terminal_phase f.status.phase)) [
      | inl t ↦ rw (t, admitted) (h, tt)
      | inr t ↦ elim (Bool-cases (c.task_queue_url == "")) [
        | inl u ↦ rw (t, u, admitted) (h, tt)
        | inr u ↦ rw (t, u, admitted) (run_pass-AllHaveTimes f h)
      ]
    ]

    validated-AllHaveTimes : (f : Flow) → HasTimes f → AllHaveTimes (validated ext c f)
    unfolding validated refused set_condition
    validated-AllHaveTimes f h = elim (Option-cases (dag_error (validate_dag f.spec.steps))) [
      | inr (e, bad) ↦ rw (bad, validated) (h, tt)
      | inl good ↦ elim (Option-cases (validate_agents c.agent f.spec.steps)) [
        | inr (e, bad) ↦ rw (good, bad, validated) (h, tt)
        | inl there ↦ rw (good, there, validated) (admitted-AllHaveTimes f h)
      ]
    ]

    -- Every status that Reconcile writes keeps the times: Running steps have a start time and
    -- Succeeded ones a completion time as well, if that holds of the flow that it reads.
    pub reconcile-HasTimes :
        ((f : Flow) → c.flow ≡ found f → HasTimes f) → All HasTimes (reconcile ext c).updates
    unfolding reconcile
    reconcile-HasTimes h = elim (Get-cases c.flow) [
      | inr (inl e) ↦ rw (e, reconcile) tt
      | inr (inr (m, e)) ↦ rw (e, reconcile) tt
      | inl (f, e) ↦ elim (Option-cases f.meta.deleted) [
        | inr (at, d) ↦ rw (e, d, reconcile) tt
        | inl d ↦ elim (Result-cases c.events) [
          | inr (m, bad) ↦ rw (e, d, bad, reconcile) tt
          | inl (es, good) ↦ elim (Bool-cases (is_trigger_template f.meta.name es)) [
            | inl t ↦ rw (e, d, good, t, reconcile) tt
            | inr t ↦ rw (e, d, good, t, reconcile) (validated-AllHaveTimes f (h f e))
          ]
        ]
      ]
    ]
