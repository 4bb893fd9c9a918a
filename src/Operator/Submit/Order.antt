-- ===== src/Operator/Submit/Order.antt =====
-- A pass of submitPendingSteps starts steps after their dependencies, and one task for each.
use agentops_operator.Prelude.{
  String, true, some, List, [], ◌∷◌, ◌≡◌, ◌≢◌, refl, sym, ◌∙◌, ◌⊎◌, inl, inr, arith, name_cases,
  Memᴰ, subst, ap, eq_refl,
}
use mathlib.Core.List.Memᴰ
use agentops_operator.Api.Meta.{ok}
use agentops_operator.Api.Flow.{FlowStep, StepStatus}
use agentops_operator.Flow.External.{External, TemplateData}
use agentops_operator.Flow.Status.{status_of, deps_succeeded, is_pending, is_running}
use agentops_operator.Flow.Status.Keeps.{Keeps, deps_succeeded-Keeps}
use agentops_operator.Flow.Status.Laws.{status_of-modify}
use agentops_operator.Flow.Template.{resolve_prompt}
use agentops_operator.Operator.Submit.{Task, Submission, Tasks, task_values, submit_pending_steps}
use agentops_operator.Operator.Submit.Effects.{Replaces, Ends, Starts}
use agentops_operator.Operator.Submit.Passes.{next, pass, next-Effect, pass_cases}

same_status : {a b : StepStatus} → some a ≡ some b → a ≡ b
same_status {a = a} {b = b} h = ground arith

module _ (ext : External) where
  open ext use {Json}

  module _ (q : Tasks) (key : String) (data_map : TemplateData Json) where
    next-Keeps : (s : FlowStep) (r : Submission) → Keeps r.steps (next ext q key data_map s r).steps
    next-Keeps s r j st e p = elim (next-Effect ext q key data_map s r) [
      | inl (same, _) ↦ rw same e
      | inr (old, g, (at, pend, _, keep, w), _) ↦ elim (name_cases s.name j) [
        | inl (same, b) ↦ absurd (ground arith)
        | inr (other, b) ↦ rw w (status_of-modify s.name g keep j r.steps ∙ rw b e)
      ]
    ]

    pass-Keeps :
        (steps : List FlowStep) (r : Submission)
        → Keeps r.steps (pass ext q key data_map steps r).steps
    unfolding pass submit_pending_steps
    pass-Keeps [] r j st e p = e
    pass-Keeps (s ∷ ss) r j st e p = elim (pass_cases ext q key data_map s ss r) [
      | inl stop ↦ ap (λ x. status_of j x.steps) stop ∙ e
      | inr go ↦
          ap (λ x. status_of j x.steps) go
          ∙ pass-Keeps ss (next ext q key data_map s r) j st (next-Keeps s r j st e p) p
    ]

    next-extends :
        (s : FlowStep) (r : Submission) (t : Task)
        → Memᴰ t r.tasks
        → Memᴰ t (next ext q key data_map s r).tasks
    next-extends s r t m = elim (next-Effect ext q key data_map s r) [
      | inl (_, same) ↦ rw same m
      | inr (old, g, _, inl (_, _, same)) ↦ rw same m
      | inr (old, g, _, inr (_, prompt, _, more)) ↦ rw more (Memᴰ.append_left _ m)
    ]

    pass-extends :
        (steps : List FlowStep) (r : Submission) (t : Task)
        → Memᴰ t r.tasks
        → Memᴰ t (pass ext q key data_map steps r).tasks
    unfolding pass submit_pending_steps
    pass-extends [] r t m = m
    pass-extends (s ∷ ss) r t m = elim (pass_cases ext q key data_map s ss r) [
      | inl stop ↦ subst (λ x. Memᴰ t x.tasks) (sym stop) m
      | inr go ↦
          subst (λ x. Memᴰ t x.tasks) (sym go)
            (pass-extends ss (next ext q key data_map s r) t (next-extends s r t m))
    ]

    -- The step of a name was started properly: its dependencies are complete, and the task that it
    -- runs under is among the tasks and carries its prompt.
    abbrev pub IsStarted : List FlowStep → String → StepStatus → Submission → Type 0
    IsStarted steps j st out =
        (s : FlowStep) × Memᴰ s steps
        × (s.name ≡ j)
        × (deps_succeeded s.depends_on out.steps ≡ true)
        × (prompt : String) × (resolve_prompt ext s data_map ≡ ok prompt)
        × Memᴰ (record { id = st.task_id; values = task_values prompt key }) out.tasks

    IsStarted-tail :
        (s : FlowStep) (ss : List FlowStep) (j : String) (st : StepStatus) (out : Submission)
        → IsStarted ss j st out
        → IsStarted (s ∷ ss) j st out
    IsStarted-tail s ss j st out (t, m, n, d, p, e, k) = (t, Memᴰ.tail m, n, d, p, e, k)

    -- The first step starts: the rest of the pass keeps that.
    IsStarted-here :
        (s : FlowStep) (ss : List FlowStep) (r : Submission) (st st' : StepStatus)
        (g : StepStatus → StepStatus)
        → Replaces s st g r (next ext q key data_map s r)
        → Ends (g st) r (next ext q key data_map s r)
          ⊎ Starts ext key data_map s (g st) r (next ext q key data_map s r)
        → status_of s.name (pass ext q key data_map ss (next ext q key data_map s r)).steps
          ≡ some st'
        → is_running st'.phase ≡ true
        → IsStarted (s ∷ ss) s.name st' (pass ext q key data_map ss (next ext q key data_map s r))
    IsStarted-here s ss r st st' g (at, pend, deps, keep, w) how e running =
        let written : status_of s.name (next ext q key data_map s r).steps ≡ some (g st) =
          ap (status_of s.name) w
          ∙ status_of-modify s.name g keep s.name r.steps
          ∙ ground (arith, eq_refl s.name) in
        elim how [
          | inl (p, not_running, _) ↦
              absurd (
                ground (arith, pass-Keeps ss (next ext q key data_map s r) s.name (g st) written p))
          | inr (runs, prompt, resolved, more) ↦
              let same : st' ≡ g st = same_status (
                sym e
                ∙ pass-Keeps ss (next ext q key data_map s r) s.name (g st) written
                    (ground arith)) in
              (
                s,
                Memᴰ.head refl,
                refl,
                deps_succeeded-Keeps s.depends_on r.steps _
                    (λ j a b p.
                      pass-Keeps ss (next ext q key data_map s r) j a (next-Keeps s r j a b p) p)
                    deps,
                prompt,
                resolved,
                pass-extends ss (next ext q key data_map s r) _
                    (rw (more, same) (Memᴰ.append_right r.tasks (Memᴰ.head refl))),
              )
        ]

    not_both :
        (st st' : StepStatus)
        → is_pending st.phase ≡ true
        → some st ≡ some st'
        → is_running st'.phase ≢ true
    not_both st st' p e h = ground arith

    pass-IsStarted-next :
        (s : FlowStep) (ss : List FlowStep) (r : Submission) (j : String) (st st' : StepStatus)
        → status_of j r.steps ≡ some st
        → is_pending st.phase ≡ true
        → status_of j (pass ext q key data_map ss (next ext q key data_map s r)).steps ≡ some st'
        → is_running st'.phase ≡ true
        → ((r' : Submission)
            → status_of j r'.steps ≡ some st
            → status_of j (pass ext q key data_map ss r').steps ≡ some st'
            → IsStarted ss j st' (pass ext q key data_map ss r'))
        → IsStarted (s ∷ ss) j st' (pass ext q key data_map ss (next ext q key data_map s r))
    pass-IsStarted-next s ss r j st st' e p e' p' rest = elim (next-Effect ext q key data_map s r) [
      | inl (same, _) ↦
          IsStarted-tail s ss j st' (pass ext q key data_map ss (next ext q key data_map s r))
            (rest (next ext q key data_map s r) (ap (status_of j) same ∙ e) e')
      | inr (old, g, (at, pend, deps, keep, w), how) ↦ elim (name_cases s.name j) [
        | inl (same, b) ↦
            subst
              (λ n.
                IsStarted (s ∷ ss) n st' (pass ext q key data_map ss (next ext q key data_map s r)))
              same
              (IsStarted-here s ss r old st' g (at, pend, deps, keep, w) how
                (ap
                    (λ n.
                      status_of n (pass ext q key data_map ss (next ext q key data_map s r)).steps)
                    same
                  ∙ e')
                p')
        | inr (other, b) ↦
            IsStarted-tail s ss j st' (pass ext q key data_map ss (next ext q key data_map s r)) (
              rest (next ext q key data_map s r)
                (ap (status_of j) w ∙ status_of-modify s.name g keep j r.steps ∙ rw b e) e')
      ]
    ]

    pass-IsStarted :
        (steps : List FlowStep) (r : Submission) (j : String) (st st' : StepStatus)
        → status_of j r.steps ≡ some st
        → is_pending st.phase ≡ true
        → status_of j (pass ext q key data_map steps r).steps ≡ some st'
        → is_running st'.phase ≡ true
        → IsStarted steps j st' (pass ext q key data_map steps r)
    unfolding pass submit_pending_steps
    pass-IsStarted [] r j st st' e p e' p' = absurd (not_both st st' p (sym e ∙ e') p')
    pass-IsStarted (s ∷ ss) r j st st' e p e' p' = elim (pass_cases ext q key data_map s ss r) [
      | inl stop ↦
          absurd (not_both st st' p (sym e ∙ sym (ap (λ x. status_of j x.steps) stop) ∙ e') p')
      | inr go ↦ subst (IsStarted (s ∷ ss) j st') (sym go) (
          pass-IsStarted-next s ss r j st st' e p (sym (ap (λ x. status_of j x.steps) go) ∙ e') p'
            (λ r' e e'. pass-IsStarted ss r' j st st' e p e' p'))
    ]

    -- In a pass, every step that goes from Pending to Running is a step of the flow whose
    -- dependencies are all Succeeded or Skipped when the pass ends, and the stream has its task, with
    -- the step's prompt, under the id that its status records.
    pub submit_pending_steps-IsStarted :
        (steps : List FlowStep) (r : Submission) (j : String) (st st' : StepStatus)
        → status_of j r.steps ≡ some st
        → is_pending st.phase ≡ true
        → status_of j (submit_pending_steps ext q key data_map steps r).steps ≡ some st'
        → is_running st'.phase ≡ true
        → IsStarted steps j st' (submit_pending_steps ext q key data_map steps r)
    unfolding pass
    submit_pending_steps-IsStarted = pass-IsStarted
