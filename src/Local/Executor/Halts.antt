-- ===== src/Local/Executor/Halts.antt =====
-- Enough fuel for Run: one more than the measure of the statuses that it starts from.
use agentops_operator.Prelude.{
  ℕ, zero, suc, ◌+◌, ◌*◌, ◌≤◌, ◌<◌, String, true, false, List, [], ◌∷◌, ◌++◌, map, Memᴰ, ◌≡◌, sym,
  ◌∙◌, inl, inr, arith, Bool-cases, List-cases, subst, length, ap, some,
}
use agentops_operator.Prelude.Int64.{two63}
use agentops_operator.Api.Flow.{FlowStep, StepStatus, LoopSpec, FlowPhase, Flow}
use agentops_operator.Api.Agent.{ArkAgent}
use agentops_operator.Flow.External.{External, TemplateData}
use agentops_operator.Flow.Status.{is_terminal_phase}
use agentops_operator.Flow.Template.{build_template_data}
use agentops_operator.Flow.Step.{
  max_iterations_of, evaluate_loops, parse_output_json, initial_status, initialize_steps,
}
use agentops_operator.Flow.Phase.{update_flow_phase}
use agentops_operator.Flow.Phase.Frame.{
  steps-update_flow_phase, spec-update_flow_phase, spec-initialize_steps, steps-initialize_steps,
}
use agentops_operator.Local.World.{World, StepEvent}
use agentops_operator.Local.Executor.{
  finished, collect_ready_steps, perform, start_all, execute_round, close_round, run_loop, run,
  with_steps,
}
use agentops_operator.Local.Executor.Measure.{weight, measure}
use agentops_operator.Local.Executor.Termination.{
  BoundsLoops, IsPendingIn, Collected, collect-Collected, measure-evaluate_loops, measure-start_all,
  measure-start_pending, measure-receive_results, measure-parse_output_json,
}

module _ (ext : External) (w : World) (agents : List (String × ArkAgent)) where
  open ext use {Json}

  measure-execute_round :
      (k round : ℕ) (data_map : TemplateData Json) (s : FlowStep) (ss : List FlowStep)
      (base sts : List StepStatus)
      → Collected ext k base (s ∷ ss, sts)
      → measure k (execute_round ext w round data_map agents (s ∷ ss) sts).0 < measure k base
  unfolding execute_round
  measure-execute_round k round data_map s ss base sts (inl (e, (p, _))) = omega (
    arith,
    measure-receive_results k (w.arrive round (map (perform ext w round data_map agents) (s ∷ ss)))
        (start_all ext w round (s ∷ ss) sts),
    measure-start_pending ext w k round s ss sts (subst (λ l. IsPendingIn ext l s) (sym e) p),
    ap (measure k) e,
  )
  measure-execute_round k round data_map s ss base sts (inr lt) = omega (
    arith,
    measure-receive_results k (w.arrive round (map (perform ext w round data_map agents) (s ∷ ss)))
        (start_all ext w round (s ∷ ss) sts),
    measure-start_all ext w k round (s ∷ ss) sts,
    lt,
  )

  -- The collection with which a round begins.
  abbrev pub collect : ℕ → Flow → List FlowStep × List StepStatus
  collect round f =
      let data_map = build_template_data ext f.spec f.status.steps in
      collect_ready_steps ext (λ s. w.now round s.name) data_map f.spec.steps
        (evaluate_loops ext data_map f.spec.steps f.status.steps)

  -- The flow after a round that executes `ready`.
  abbrev pub next : ℕ → Flow → List FlowStep → List StepStatus → Flow
  next round f ready sts =
      close_round ext w round f
        (execute_round ext w round (build_template_data ext f.spec f.status.steps) agents ready
          sts).0

  run_loop-terminal :
      (round : ℕ) (f : Flow) (events : List StepEvent)
      → is_terminal_phase f.status.phase ≡ true
      → run_loop ext w (suc round) agents f events ≡ finished f events
  unfolding run_loop
  run_loop-terminal round f events t = rw (t, run_loop)

  run_loop-idle :
      (round : ℕ) (f : Flow) (events : List StepEvent)
      → is_terminal_phase f.status.phase ≡ false
      → (collect round f).0 ≡ []
      → run_loop ext w (suc round) agents f events
        ≡ finished
            (update_flow_phase ext
              (w.now round "")
              (build_template_data ext f.spec f.status.steps)
              (with_steps f (collect round f).1))
            events
  unfolding run_loop
  run_loop-idle round f events t e = rw (t, e, run_loop)

  run_loop-next :
      (round : ℕ) (f : Flow) (events : List StepEvent) (s : FlowStep) (ss : List FlowStep)
      → is_terminal_phase f.status.phase ≡ false
      → (collect round f).0 ≡ s ∷ ss
      → (more : List StepEvent) × (run_loop ext w (suc round) agents f events
          ≡ run_loop ext w round agents
              (next round f (s ∷ ss) (collect round f).1)
              (events ++ more))
  unfolding run_loop
  run_loop-next round f events s ss t e = (
    (execute_round ext w round (build_template_data ext f.spec f.status.steps) agents (s ∷ ss)
        (collect round f).1).1,
    rw (t, e, run_loop),
  )

  -- A round that executes steps lowers the measure, and keeps the steps of the flow.
  measure-next :
      (k round : ℕ) (f : Flow) (s : FlowStep) (ss : List FlowStep)
      → BoundsLoops k f.spec.steps
      → (collect round f).0 ≡ s ∷ ss
      → measure k (next round f (s ∷ ss) (collect round f).1).status.steps
        < measure k f.status.steps
  unfolding close_round
  measure-next k round f s ss b e =
      let data_map = build_template_data ext f.spec f.status.steps in
      let sts = (collect round f).1 in
      let looped = evaluate_loops ext data_map f.spec.steps f.status.steps in
      let sts' = (execute_round ext w round data_map agents (s ∷ ss) sts).0 in
      let parsed = parse_output_json ext f.spec.steps sts' in
      omega (
        arith,
        ap (measure k) (
            steps-update_flow_phase ext (w.now round "") (build_template_data ext f.spec parsed)
              (with_steps f parsed)),
        measure-parse_output_json ext k f.spec.steps sts',
        measure-execute_round k round data_map s ss looped sts (
            subst (λ ready. Collected ext k looped (ready, sts)) e
              (collect-Collected ext k (λ s. w.now round s.name) data_map f.spec.steps looped)),
        measure-evaluate_loops ext k data_map f.spec.steps f.status.steps b,
      )

  spec-next :
      (round : ℕ) (f : Flow) (ready : List FlowStep) (sts : List StepStatus)
      → (next round f ready sts).spec ≡ f.spec
  unfolding close_round
  spec-next round f ready sts =
      let sts' =
        (execute_round ext w round (build_template_data ext f.spec f.status.steps) agents ready
          sts).0 in
      let parsed = parse_output_json ext f.spec.steps sts' in
      spec-update_flow_phase ext (w.now round "") (build_template_data ext f.spec parsed)
        (with_steps f parsed)

  -- Run from a flow whose measure is below the fuel ends.
  run_loop-finished :
      (k fuel : ℕ) (f : Flow) (events : List StepEvent)
      → BoundsLoops k f.spec.steps
      → measure k f.status.steps < fuel
      → (g : Flow) × (es : List StepEvent) × (run_loop ext w fuel agents f events ≡ finished g es)
  run_loop-finished k zero f events b h = absurd (omega arith)
  run_loop-finished k (suc round) f events b h =
      elim (Bool-cases (is_terminal_phase f.status.phase)) [
        | inl t ↦ (f, events, run_loop-terminal round f events t)
        | inr t ↦ elim (List-cases (collect round f).0) [
          | inl e ↦ (_, _, run_loop-idle round f events t e)
          | inr (s, ss, e) ↦
              let (more, step) = run_loop-next round f events s ss t e in
              let g = next round f (s ∷ ss) (collect round f).1 in
              let (g', es, end) =
                run_loop-finished k round g (events ++ more)
                  (subst (λ spec. BoundsLoops k spec.steps)
                    (sym (spec-next round f (s ∷ ss) (collect round f).1)) b)
                  (omega (arith, measure-next k round f s ss b e)) in
              (g', es, step ∙ end)
        ]
      ]

  -- The measure of fresh statuses.
  measure-initial :
      (m : ℕ) (steps : List FlowStep)
      → measure (m + two63) (map initial_status steps) ≡ length steps * (2 * m + 1)
  unfolding initial_status weight
  measure-initial m [] = omega arith
  measure-initial m (s ∷ ss) = omega (arith, measure-initial m ss)

  -- Run of a flow that was never started, with n steps whose loops allow at most m repetitions each,
  -- ends within n * (2 * m + 1) rounds, whatever the providers, the tool servers, the templates and
  -- the order of the parallel results are.
  pub run-finished :
      (m fuel : ℕ) (f : Flow)
      → f.status.phase ≡ FlowPhase.unset
      → m < two63
      → ((s : FlowStep)
          → Memᴰ s f.spec.steps
          → (l : LoopSpec) → s.loop ≡ some l
          → max_iterations_of l ≤ m)
      → length f.spec.steps * (2 * m + 1) < fuel
      → (g : Flow) × (es : List StepEvent) × (run ext w fuel agents f ≡ finished g es)
  unfolding run
  run-finished m fuel f fresh small b enough =
      let now = w.now fuel "" in
      run_loop-finished (m + two63) fuel (initialize_steps ext now f) []
        (subst (λ spec. BoundsLoops (m + two63) spec.steps) (sym (spec-initialize_steps ext now f))
          (λ s k l e. omega (arith, b s k l e)))
        (omega (
          arith,
          ap (measure (m + two63)) (steps-initialize_steps ext now f fresh),
          measure-initial m f.spec.steps,
        ))
