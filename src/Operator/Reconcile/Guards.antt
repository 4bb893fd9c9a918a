-- ===== src/Operator/Reconcile/Guards.antt =====
-- When Reconcile of a flow submits tasks.
use agentops_operator.Prelude.{
  String, false, none, List, [], ◌∷◌, ◌==◌, ◌≡◌, ◌≢◌, refl, ◌∙◌, ◌⊎◌, inl, inr, arith, Bool-cases,
  Option-cases, Memᴰ, ap, subst, eq_iff,
}
use agentops_operator.Api.Meta.{Message, ok}
use agentops_operator.Api.Flow.{FlowStep, Flow}
use agentops_operator.Api.Agent.{ArkAgent}
use agentops_operator.Api.Event.{ArkEvent}
use agentops_operator.Flow.External.{External}
use agentops_operator.Flow.Dag.{DagResult, valid, validate_dag}
use agentops_operator.Flow.Status.{is_terminal_phase}
use agentops_operator.Operator.Submit.{Task}
use agentops_operator.Operator.Submit.Effects.{Result-cases}
use agentops_operator.Operator.Reconcile.{
  Get, found, not_found, get_error, Cluster, Outcome, dag_error, validate_agents,
  is_trigger_template, reconcile, admitted, validated, run_pass,
}

-- The agents of all steps exist.
abbrev pub HasAgents : Cluster → Flow → Type 0
HasAgents c f =
    (s : FlowStep) → Memᴰ s f.spec.steps → (a : ArkAgent) × (c.agent s.ark_agent ≡ found a)

-- The flow is there, and may run.
abbrev pub MayRun : Cluster → Flow → Type 0
MayRun c f =
    (c.flow ≡ found f)
    × (f.meta.deleted ≡ none)
    × (es : List ArkEvent) × (c.events ≡ ok es)
    × (is_trigger_template f.meta.name es ≡ false)
    × (validate_dag f.spec.steps ≡ valid)
    × HasAgents c f
    × (is_terminal_phase f.status.phase ≡ false)
    × (c.task_queue_url ≢ "")

pub Get-cases :
    {A : Type 0} (r : Get A)
    → ((a : A) × (r ≡ found a)) ⊎ (r ≡ not_found) ⊎ ((e : Message) × (r ≡ get_error e))
Get-cases (found a) = inl (a, refl)
Get-cases not_found = inr (inl refl)
Get-cases (get_error e) = inr (inr (e, refl))

validate_agents-HasAgents :
    (agent : String → Get ArkAgent) (steps : List FlowStep)
    → validate_agents agent steps ≡ none
    → (s : FlowStep) → Memᴰ s steps
    → (a : ArkAgent) × (agent s.ark_agent ≡ found a)
unfolding validate_agents
validate_agents-HasAgents agent [] h s m = elim m [ ]
validate_agents-HasAgents agent (x ∷ xs) h s m = elim (Get-cases (agent x.ark_agent)) [
  | inr missing ↦ absurd (ground arith)
  | inl (a, e) ↦ elim m [
    | Memᴰ.head p ↦ (a, ap (λ (y : FlowStep). agent y.ark_agent) p ∙ e)
    | Memᴰ.tail m' ↦ validate_agents-HasAgents agent xs (ground arith) s m'
  ]
]

valid_lem : (r : DagResult) → dag_error r ≡ none → r ≡ valid
unfolding dag_error
valid_lem r h = ground arith

name_empty : (s : String) → (s == "") ≡ false → s ≢ ""
name_empty s h e = ground (arith, (eq_iff s "").1 e)

module _ (ext : External) (c : Cluster) where
  admitted_cases :
      (f : Flow)
      → ((admitted ext c f).tasks ≡ [])
        ⊎ ((is_terminal_phase f.status.phase ≡ false)
            × (c.task_queue_url ≢ "")
            × (admitted ext c f ≡ run_pass ext c f))
  unfolding admitted
  admitted_cases f = elim (Bool-cases (is_terminal_phase f.status.phase)) [
    | inl t ↦ inl (rw (t, admitted) refl)
    | inr t ↦ elim (Bool-cases (c.task_queue_url == "")) [
      | inl u ↦ inl (rw (t, u, admitted) refl)
      | inr u ↦ inr (t, name_empty c.task_queue_url u, rw (t, u, admitted) refl)
    ]
  ]

  validated_cases :
      (f : Flow)
      → ((validated ext c f).tasks ≡ [])
        ⊎ ((validate_dag f.spec.steps ≡ valid)
            × HasAgents c f
            × (validated ext c f ≡ admitted ext c f))
  unfolding validated
  validated_cases f = elim (Option-cases (dag_error (validate_dag f.spec.steps))) [
    | inr (e, bad) ↦ inl (rw (bad, validated) refl)
    | inl good ↦ elim (Option-cases (validate_agents c.agent f.spec.steps)) [
      | inr (e, bad) ↦ inl (rw (good, bad, validated) refl)
      | inl there ↦ inr (
        valid_lem (validate_dag f.spec.steps) good,
        validate_agents-HasAgents c.agent f.spec.steps there,
        rw (good, there, validated) refl,
      )
    ]
  ]

  reached_cases :
      ((reconcile ext c).tasks ≡ [])
      ⊎ ((f : Flow) × (c.flow ≡ found f)
          × (f.meta.deleted ≡ none)
          × (es : List ArkEvent) × (c.events ≡ ok es)
          × (is_trigger_template f.meta.name es ≡ false)
          × (reconcile ext c ≡ validated ext c f))
  unfolding reconcile
  reached_cases = elim (Get-cases c.flow) [
    | inr (inl e) ↦ inl (rw (e, reconcile) refl)
    | inr (inr (m, e)) ↦ inl (rw (e, reconcile) refl)
    | inl (f, e) ↦ elim (Option-cases f.meta.deleted) [
      | inr (at, d) ↦ inl (rw (e, d, reconcile) refl)
      | inl d ↦ elim (Result-cases c.events) [
        | inr (m, bad) ↦ inl (rw (e, d, bad, reconcile) refl)
        | inl (es, good) ↦ elim (Bool-cases (is_trigger_template f.meta.name es)) [
          | inl t ↦ inl (ground arith)
          | inr t ↦ inr (f, e, d, es, good, t, ground arith)
        ]
      ]
    ]
  ]

  no_member : (t : Task) (r : Outcome) → r.tasks ≡ [] → ¬ Memᴰ t r.tasks
  no_member t r e m = elim (subst (Memᴰ t) e m) [ ]

  -- Reconcile adds tasks to the stream only for a flow that exists, is not being deleted, is not the
  -- target of an event in its namespace, has a valid dependency graph and no terminal phase, whose
  -- steps' agents all exist, and with a task queue configured. The tasks are then those of its pass.
  pub reconcile-guarded :
      (t : Task)
      → Memᴰ t (reconcile ext c).tasks
      → (f : Flow) × MayRun c f × (reconcile ext c ≡ run_pass ext c f)
  reconcile-guarded t m = elim reached_cases [
    | inl idle ↦ absurd (no_member t (reconcile ext c) idle m)
    | inr (f, e, d, es, good, tmpl, same) ↦ elim (validated_cases f) [
      | inl idle ↦ absurd (no_member t (reconcile ext c) (ap (λ r. r.tasks) same ∙ idle) m)
      | inr (v, agents, same') ↦ elim (admitted_cases f) [
        | inl idle ↦
            absurd (no_member t (reconcile ext c) (ap (λ r. r.tasks) (same ∙ same') ∙ idle) m)
        | inr (open_phase, url, same'') ↦
            (f, (e, d, es, good, tmpl, v, agents, open_phase, url), same ∙ same' ∙ same'')
      ]
    ]
  ]
