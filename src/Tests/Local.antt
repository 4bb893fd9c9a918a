-- ===== src/Tests/Local.antt =====
-- Local runs of small flows.
use agentops_operator.Prelude.{
  ◌≤◌, inl, inr, ap, sym, ◌∙◌, Option, String, All, List, [], ◌∷◌, Memᴰ, ◌≡◌, ◌≢◌, refl, some, none,
  arith, true,
}
use mathlib.Core.List.Memᴰ
use mathlib.Core.Option.{some-injective}
use agentops_operator.Api.Flow.{FlowPhase, StepPhase, StepStatus, FlowStep, LoopSpec, Flow}
use agentops_operator.Flow.Step.{max_iterations_of}
use agentops_operator.Flow.Status.{status_of, modify, deps_succeeded}
use agentops_operator.Local.World.{StepEvent}
use agentops_operator.Local.Executor.{
  is_candidate, is_skipped, skip_step, collect_ready_steps, finished, run,
}
use agentops_operator.Local.Executor.Ready.{IsReady, collect_ready_steps-IsReady}
use agentops_operator.Flow.External.{TemplateData}
use agentops_operator.Flow.Template.{build_template_data, truthy_result, resolve_template}
use agentops_operator.Local.Executor.Halts.{run-finished}
use agentops_operator.Tests.Samples.{status, step, flow, plain_external, quiet_world, worker}

abbrev twice_more : LoopSpec
twice_more = record { condition = "true"; max_iterations = 2 }

abbrev looping : FlowStep
looping = record (step "a" []) { loop = some twice_more }

abbrev fresh : Flow
fresh = flow FlowPhase.unset (looping ∷ step "b" ("a" ∷ []) ∷ []) []

fresh_loops :
    (s : FlowStep)
    → Memᴰ s fresh.spec.steps
    → (l : LoopSpec) → s.loop ≡ some l
    → max_iterations_of l ≤ 2
unfolding max_iterations_of
fresh_loops s m l e = elim (Memᴰ.cases_cons m) [
  | inl p ↦ ground (arith, some-injective (sym (ap (λ (t : FlowStep). t.loop) p) ∙ e))
  | inr m' ↦ elim (Memᴰ.cases_cons m') [
    | inl p ↦ absurd (none_not_some l (sym (ap (λ (t : FlowStep). t.loop) p) ∙ e))
    | inr m'' ↦ elim m'' [ ]
  ]
]
  where
    none_not_some : (k : LoopSpec) → ◌≢◌ {A = Option LoopSpec} none (some k)
    none_not_some k h = cc

run-finished_example :
    (g : Flow) × (es : List StepEvent) × (run plain_external quiet_world 11
        (("worker", worker) ∷ [])
        fresh
      ≡ finished g es)
run-finished_example =
    run-finished plain_external quiet_world (("worker", worker) ∷ []) 2 11 fresh refl (omega arith)
      fresh_loops (omega arith)

-- The first step is done, and the second is skipped before the third is looked at.
abbrev in_order : List FlowStep
in_order = step "a" [] ∷ record (step "b" ("a" ∷ [])) { if_expr = "no" } ∷ step "c" ("b" ∷ []) ∷ []

abbrev one_done : List StepStatus
one_done =
    status "a" StepPhase.succeeded
    ∷ status "b" StepPhase.pending
    ∷ status "c" StepPhase.pending
    ∷ []

abbrev no_data : TemplateData String
no_data = build_template_data plain_external fresh.spec []

-- Collecting skips the second step, and the third one is ready.
third_ready :
    (collect_ready_steps plain_external (λ s. 5) no_data in_order one_done).0
    ≡ step "c" ("b" ∷ []) ∷ []
unfolding collect_ready_steps is_candidate status_of is_skipped truthy_result resolve_template
    modify skip_step
third_ready = refl

-- In the other order the third step is looked at first: nothing is ready, although its dependency is
-- skipped afterwards.
abbrev reversed : List FlowStep
reversed = step "c" ("b" ∷ []) ∷ record (step "b" ("a" ∷ [])) { if_expr = "no" } ∷ step "a" [] ∷ []

none_ready : (collect_ready_steps plain_external (λ s. 5) no_data reversed one_done).0 ≡ []
unfolding collect_ready_steps is_candidate status_of is_skipped truthy_result resolve_template
    modify skip_step
none_ready = refl

waits_no_more :
    deps_succeeded
      ("b" ∷ [])
      (collect_ready_steps plain_external (λ s. 5) no_data reversed one_done).1
    ≡ true
unfolding collect_ready_steps is_candidate status_of is_skipped truthy_result resolve_template
    modify skip_step deps_succeeded
waits_no_more = refl

collect_ready_steps-IsReady_example :
    All
      (IsReady plain_external no_data in_order
        (collect_ready_steps plain_external (λ s. 5) no_data in_order one_done).1)
      (collect_ready_steps plain_external (λ s. 5) no_data in_order one_done).0
collect_ready_steps-IsReady_example =
    collect_ready_steps-IsReady plain_external (λ s. 5) no_data in_order one_done
