-- ===== src/Operator/Submit/Passes.antt =====
-- submitPendingSteps, one step at a time.
use agentops_operator.Prelude.{String, none, some, List, ◌∷◌, ◌≡◌, refl, ◌⊎◌, inl, inr}
use agentops_operator.Api.Flow.{FlowStep}
use agentops_operator.Flow.External.{External, TemplateData}
use agentops_operator.Operator.Submit.{Submission, Tasks, decide, act, submit_pending_steps}
use agentops_operator.Operator.Submit.Effects.{Effect, act-Effect}

module _ (ext : External) (q : Tasks) (key : String) where
  open ext use {Json}

  module _ (data_map : TemplateData Json) where
    unfoldable pub next : FlowStep → Submission → Submission
    next s r = act q key s (decide ext data_map s r.steps) r

    unfoldable pub pass : List FlowStep → Submission → Submission
    pass = submit_pending_steps ext q key data_map

    pub next-Effect : (s : FlowStep) (r : Submission) → Effect ext key data_map s r (next s r)
    unfolding next
    next-Effect s r = act-Effect ext q key data_map s r

    -- An error ends the pass; otherwise the rest of it follows.
    pub pass_cases :
        (s : FlowStep) (ss : List FlowStep) (r : Submission)
        → (pass (s ∷ ss) r ≡ r) ⊎ (pass (s ∷ ss) r ≡ pass ss (next s r))
    unfolding pass submit_pending_steps next
    pass_cases s ss r =
        elim r.error
          as (λ o.
            let after : Submission = elim o [
              | some e ↦ r
              | none ↦
                  submit_pending_steps ext q key data_map ss
                    (act q key s (decide ext data_map s r.steps) r)
            ] in
            (after ≡ r)
            ⊎ (after
                ≡ submit_pending_steps ext q key data_map ss
                    (act q key s (decide ext data_map s r.steps) r))) [
                      | some e ↦ inl refl
                      | none ↦ inr refl
                    ]
