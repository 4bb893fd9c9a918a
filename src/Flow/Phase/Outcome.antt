-- ===== src/Flow/Phase/Outcome.antt =====
-- When UpdateFlowPhase ends a flow, and how.
use agentops_operator.Prelude.{
  ℕ, ◌+◌, ◌*◌, ◌<◌, Bool, true, false, some, Memᴰ, ◌≡◌, ◌≢◌, refl, sym, ◌∙◌, ◌⊎◌, inl, inr, ◌↔◌,
  arith, Option-cases, if◌then◌else◌,
}
use mathlib.Core.Bool.{false≢true}
use agentops_operator.Prelude.Int64.{two63}
use agentops_operator.Api.Flow.{StepStatus, StepPhase, FlowPhase, Flow}
use agentops_operator.Flow.External.{External, TemplateData}
use agentops_operator.Flow.Status.{is_completed}
use agentops_operator.Flow.Phase.{
  nanoseconds, timed_out, over_budget, sum_step_tokens, update_flow_phase,
}
use agentops_operator.Flow.Phase.Tally.{
  any_failed, all_done, tally_lem, any_failed→step, step→any_failed, all_done→steps, steps→all_done,
}
use agentops_operator.Flow.Phase.Tokens.{input_sum, output_sum, sum_step_tokens-sum}

-- The flow has a timeout, it started, and more than the timeout has passed.
abbrev pub HasTimedOut : ℕ → Flow → Type 0
HasTimedOut now f =
    (0 < f.spec.timeout_seconds)
    × (start : ℕ) × (f.status.start_time ≡ some start)
    × (start + f.spec.timeout_seconds * nanoseconds < now)

-- The flow has a budget, and its steps used more tokens.
abbrev pub IsOverBudget : Flow → Type 0
IsOverBudget f =
    (0 < f.spec.max_tokens)
    × (f.spec.max_tokens < input_sum f.status.steps + output_sum f.status.steps)

abbrev pub HasFailedStep : Flow → Type 0
HasFailedStep f = (st : StepStatus) × Memᴰ st f.status.steps × (st.phase ≡ StepPhase.failed)

-- Every step is Succeeded or Skipped.
abbrev pub IsAllDone : Flow → Type 0
IsAllDone f = (st : StepStatus) → Memᴰ st f.status.steps → is_completed st.phase ≡ true

-- No number of the flow reaches the sign bit.
pub record InRange (f : Flow) : Type 0 where
  pub timeout : f.spec.timeout_seconds * nanoseconds < two63
  pub budget : f.spec.max_tokens < two63
  pub tokens : input_sum f.status.steps + output_sum f.status.steps < two63

timed_out_iff :
    (now : ℕ) (f : Flow)
    → InRange f
    → (timed_out f.spec f.status.start_time now ≡ true) ↔ HasTimedOut now f
unfolding timed_out
timed_out_iff now f r = (to_spec, from_spec)
  where
    to_spec : timed_out f.spec f.status.start_time now ≡ true → HasTimedOut now f
    to_spec h = elim (Option-cases f.status.start_time) [
      | inl e ↦ absurd (ground arith)
      | inr (start, e) ↦ (ground arith, start, e, ground arith)
    ]

    from_spec : HasTimedOut now f → timed_out f.spec f.status.start_time now ≡ true
    from_spec (p, start, e, late) = ground arith

over_budget_iff :
    (f : Flow) → InRange f → (over_budget f.spec (sum_step_tokens f).0 ≡ true) ↔ IsOverBudget f
unfolding over_budget
over_budget_iff f r =
    (λ h. ground (arith, sum_step_tokens-sum f), λ h. ground (arith, sum_step_tokens-sum f))

not_true : (b : Bool) → (b ≢ true) → b ≡ false
not_true true h = absurd (h refl)
not_true false h = refl

module _ (ext : External) where
  open ext use {Json}

  -- The phase that UpdateFlowPhase leaves, by its tests.
  decided : ℕ → Flow → FlowPhase
  decided now f =
      if timed_out f.spec f.status.start_time now
      then FlowPhase.failed
      else if over_budget f.spec (sum_step_tokens f).0
      then FlowPhase.failed
      else if any_failed f.status.steps
      then FlowPhase.failed
      else if all_done f.status.steps
      then FlowPhase.succeeded
      else f.status.phase

  phase-update_flow_phase :
      (now : ℕ) (data_map : TemplateData Json) (f : Flow)
      → (update_flow_phase ext now data_map f).status.phase ≡ decided now f
  unfolding update_flow_phase decided
  phase-update_flow_phase now data_map f = ground (arith, tally_lem f.status.steps false true)

  module _ (now : ℕ) (f : Flow) (running : f.status.phase ≡ FlowPhase.running) where
    decided-succeeded :
        decided now f ≡ FlowPhase.succeeded
        → (timed_out f.spec f.status.start_time now ≡ false)
          × (over_budget f.spec (sum_step_tokens f).0 ≡ false)
          × (any_failed f.status.steps ≡ false)
          × (all_done f.status.steps ≡ true)
    unfolding decided
    decided-succeeded h = (ground arith, ground arith, ground arith, ground arith)

    decided-of_done :
        (timed_out f.spec f.status.start_time now ≡ false)
        → (over_budget f.spec (sum_step_tokens f).0 ≡ false)
        → (any_failed f.status.steps ≡ false)
        → (all_done f.status.steps ≡ true)
        → decided now f ≡ FlowPhase.succeeded
    unfolding decided
    decided-of_done t b a d = ground arith

    decided-of_timed_out :
        timed_out f.spec f.status.start_time now ≡ true → decided now f ≡ FlowPhase.failed
    unfolding decided
    decided-of_timed_out t = ground arith

    decided-of_over_budget :
        over_budget f.spec (sum_step_tokens f).0 ≡ true → decided now f ≡ FlowPhase.failed
    unfolding decided
    decided-of_over_budget t = ground arith

    decided-of_failed : any_failed f.status.steps ≡ true → decided now f ≡ FlowPhase.failed
    unfolding decided
    decided-of_failed t = ground arith

    decided-failed :
        decided now f ≡ FlowPhase.failed
        → (timed_out f.spec f.status.start_time now ≡ true)
          ⊎ ((over_budget f.spec (sum_step_tokens f).0 ≡ true) ⊎ (any_failed f.status.steps ≡ true))
    unfolding decided
    decided-failed h = ground arith

  -- UpdateFlowPhase makes a running flow Succeeded exactly when it has not timed out, is not over its
  -- token budget, and every step is Succeeded or Skipped. A flow is over its budget when its tokens
  -- exceed the limit; at the limit it is not. No number reaches the sign bit.
  pub update_flow_phase-succeeded_iff :
      (now : ℕ) (data_map : TemplateData Json) (f : Flow)
      → InRange f
      → f.status.phase ≡ FlowPhase.running
      → ((update_flow_phase ext now data_map f).status.phase ≡ FlowPhase.succeeded)
        ↔ ((¬ HasTimedOut now f) × (¬ IsOverBudget f) × IsAllDone f)
  update_flow_phase-succeeded_iff now data_map f r running =
      rw (phase-update_flow_phase now data_map f) (to_spec, from_spec)
    where
      to_spec :
          decided now f ≡ FlowPhase.succeeded
          → (¬ HasTimedOut now f) × (¬ IsOverBudget f) × IsAllDone f
      to_spec h =
          let (t, b, a, d) = decided-succeeded now f running h in
          (
            λ x. false≢true (sym t ∙ (timed_out_iff now f r).1 x),
            λ x. false≢true (sym b ∙ (over_budget_iff f r).1 x),
            all_done→steps f.status.steps a d,
          )

      from_spec :
          (¬ HasTimedOut now f) × (¬ IsOverBudget f) × IsAllDone f
          → decided now f ≡ FlowPhase.succeeded
      from_spec (in_time, in_budget, all) =
          let (a, d) = steps→all_done f.status.steps all in
          let t =
            not_true (timed_out f.spec f.status.start_time now)
              (λ e. in_time ((timed_out_iff now f r).0 e)) in
          let b =
            not_true (over_budget f.spec (sum_step_tokens f).0)
              (λ e. in_budget ((over_budget_iff f r).0 e)) in
          decided-of_done now f running t b a d

  -- UpdateFlowPhase makes a running flow Failed exactly when it has timed out, is over its token
  -- budget, or has a failed step. A flow is over its budget when its tokens exceed the limit; at the
  -- limit it is not. No number reaches the sign bit.
  pub update_flow_phase-failed_iff :
      (now : ℕ) (data_map : TemplateData Json) (f : Flow)
      → InRange f
      → f.status.phase ≡ FlowPhase.running
      → ((update_flow_phase ext now data_map f).status.phase ≡ FlowPhase.failed)
        ↔ (HasTimedOut now f ⊎ IsOverBudget f ⊎ HasFailedStep f)
  update_flow_phase-failed_iff now data_map f r running =
      rw (phase-update_flow_phase now data_map f) (to_spec, from_spec)
    where
      to_spec :
          decided now f ≡ FlowPhase.failed → HasTimedOut now f ⊎ IsOverBudget f ⊎ HasFailedStep f
      to_spec h = elim (decided-failed now f running h) [
        | inl t ↦ inl ((timed_out_iff now f r).0 t)
        | inr (inl b) ↦ inr (inl ((over_budget_iff f r).0 b))
        | inr (inr a) ↦ inr (inr (any_failed→step f.status.steps a))
      ]

      from_spec :
          HasTimedOut now f ⊎ IsOverBudget f ⊎ HasFailedStep f → decided now f ≡ FlowPhase.failed
      from_spec (inl x) = decided-of_timed_out now f running ((timed_out_iff now f r).1 x)
      from_spec (inr (inl x)) = decided-of_over_budget now f running ((over_budget_iff f r).1 x)
      from_spec (inr (inr (st, m, e))) =
          decided-of_failed now f running (step→any_failed f.status.steps st m e)
