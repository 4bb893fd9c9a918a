-- ===== src/Operator/History/Final.antt =====
-- A flow that has ended stays as it ended.
use agentops_operator.Prelude.{
  String, true, ◌≡◌, refl, sym, ◌∙◌, inl, inr, subst, All, All-mem, ap, Bool-cases, Option-cases,
}
use agentops_operator.Api.Meta.{Message}
use agentops_operator.Api.Flow.{FlowStatus, Flow}
use agentops_operator.Flow.External.{External}
use agentops_operator.Flow.Dag.{validate_dag}
use agentops_operator.Flow.Status.{is_terminal_phase}
use agentops_operator.Flow.Step.{set_condition}
use agentops_operator.Operator.Submit.Effects.{Result-cases}
use agentops_operator.Operator.Reconcile.{
  found, Cluster, dag_error, validate_agents, is_trigger_template, reconcile, validated, admitted,
  refused,
}
use agentops_operator.Operator.History.{Change, write, edit, Later, now, then_change}

-- What a finished flow keeps: its phase, the statuses of its steps, its output, its times and its usage.
pub record Same (s t : FlowStatus) : Type 0 where
  pub phase : s.phase ≡ t.phase
  pub steps : s.steps ≡ t.steps
  pub output : s.output ≡ t.output
  pub start_time : s.start_time ≡ t.start_time
  pub completion_time : s.completion_time ≡ t.completion_time
  pub total_token_usage : s.total_token_usage ≡ t.total_token_usage

Same-refl : (s : FlowStatus) → Same s s
Same-refl s = record {
  phase = refl;
  steps = refl;
  output = refl;
  start_time = refl;
  completion_time = refl;
  total_token_usage = refl;
}

Same-trans : {s t u : FlowStatus} → Same s t → Same t u → Same s u
Same-trans a b = record {
  phase = a.phase ∙ b.phase;
  steps = a.steps ∙ b.steps;
  output = a.output ∙ b.output;
  start_time = a.start_time ∙ b.start_time;
  completion_time = a.completion_time ∙ b.completion_time;
  total_token_usage = a.total_token_usage ∙ b.total_token_usage;
}

module _ (ext : External) where
  module _ (c : Cluster) (f : Flow) (ended : is_terminal_phase f.status.phase ≡ true) where
    abbrev IsKept : Flow → Type 0
    IsKept u = Same f.status u.status

    refused-Same : (reason : String) (m : Message) → All IsKept (refused ext c reason m f).updates
    unfolding refused set_condition
    refused-Same reason m = (
      record {
        phase = refl;
        steps = refl;
        output = refl;
        start_time = refl;
        completion_time = refl;
        total_token_usage = refl;
      },
      tt,
    )

    admitted-Same : All IsKept (admitted ext c f).updates
    unfolding admitted
    admitted-Same =
        rw (ended, admitted)
          (
            record {
              phase = refl;
              steps = refl;
              output = refl;
              start_time = refl;
              completion_time = refl;
              total_token_usage = refl;
            },
            tt,
          )

    validated-Same : All IsKept (validated ext c f).updates
    unfolding validated
    validated-Same = elim (Option-cases (dag_error (validate_dag f.spec.steps))) [
      | inr (e, bad) ↦ rw (bad, validated) (refused-Same "InvalidDAG" e)
      | inl good ↦ elim (Option-cases (validate_agents c.agent f.spec.steps)) [
        | inr (e, bad) ↦ rw (good, bad, validated) (refused-Same "DeploymentNotFound" e)
        | inl there ↦ rw (good, there, validated) admitted-Same
      ]
    ]

    reconcile-Same : c.flow ≡ found f → All IsKept (reconcile ext c).updates
    unfolding reconcile
    reconcile-Same e = elim (Option-cases f.meta.deleted) [
      | inr (at, d) ↦ rw (e, d, reconcile) tt
      | inl d ↦ elim (Result-cases c.events) [
        | inr (m, bad) ↦ rw (e, d, bad, reconcile) tt
        | inl (es, good) ↦ elim (Bool-cases (is_trigger_template f.meta.name es)) [
          | inl t ↦ rw (e, d, good, t, reconcile) tt
          | inr t ↦ rw (e, d, good, t, reconcile) validated-Same
        ]
      ]
    ]

  Change-Same :
      {f u : Flow}
      → Change ext f u
      → is_terminal_phase f.status.phase ≡ true
      → Same f.status u.status
  Change-Same (write {f} c e m) ended =
      All-mem (λ u. Same f.status u.status) (reconcile-Same c f ended e) m
  Change-Same (edit {f} same) ended = subst (Same f.status) (sym same) (Same-refl f.status)

  -- Once a flow has a terminal phase, no later call of Reconcile, on whatever cluster, and no edit of
  -- its specification changes its phase, the statuses of its steps, its output, its times or its token
  -- usage.
  pub Later-Same :
      {f u : Flow}
      → Later ext f u
      → is_terminal_phase f.status.phase ≡ true
      → Same f.status u.status
  Later-Same now ended = Same-refl _
  Later-Same (then_change l c) ended =
      let kept = Later-Same l ended in
      Same-trans kept (Change-Same c (ap is_terminal_phase (sym kept.phase) ∙ ended))
