-- ===== src/Local/Cli/Accepts.antt =====
-- What the command validate, and run with --dry-run, accept.
use agentops_operator.Prelude.{
  String, none, some, List, [], ◌∷◌, ◌≡◌, ◌↔◌, refl, ◌∙◌, ap, inl, inr, arith, Memᴰ, Option-cases,
}
use agentops_operator.Prelude.Maps.{lookup}
use agentops_operator.Api.Meta.{Message}
use agentops_operator.Api.Flow.{FlowStep, Flow}
use agentops_operator.Api.Agent.{ArkAgent}
use agentops_operator.Flow.External.{External}
use agentops_operator.Flow.Dag.{DagResult, valid, unknown_step, cycle, out_of_fuel, validate_dag}
use agentops_operator.Flow.Dag.Graph.{HasKnownDeps, IsAcyclic}
use agentops_operator.Flow.Dag.Verdict.{validate_dag-valid_iff}
use agentops_operator.Operator.Reconcile.{
  found, Cluster, dag_error, validate_agents, validated, admitted,
}
use agentops_operator.Local.Cli.Check.{dry_run, missing_agents, count_error}

-- Every step's agent is in the file.
abbrev pub HasKnownAgents : List (String × ArkAgent) → List FlowStep → Type 0
HasKnownAgents agents steps =
    (s : FlowStep) → Memᴰ s steps → (a : ArkAgent) × (lookup s.ark_agent agents ≡ some a)

dag_error-none : (r : DagResult) → (dag_error r ≡ none) ↔ (r ≡ valid)
unfolding dag_error
dag_error-none valid = (λ _. refl, λ _. refl)
dag_error-none (unknown_step s d) = (λ e. absurd (cc), λ e. absurd (cc))
dag_error-none (cycle s d) = (λ e. absurd (cc), λ e. absurd (cc))
dag_error-none out_of_fuel = (λ e. absurd (cc), λ e. absurd (cc))

missing_agents-nil :
    (agents : List (String × ArkAgent)) (steps : List FlowStep)
    → (missing_agents agents steps ≡ []) ↔ HasKnownAgents agents steps
unfolding missing_agents
missing_agents-nil agents [] = (λ e s m. elim m [ ], λ h. refl)
missing_agents-nil agents (x ∷ xs) = elim (Option-cases (lookup x.ark_agent agents)) [
  | inl gone ↦
      (λ e. absurd (ground arith), λ h. let (a, e) = h x (Memᴰ.head refl) in absurd (ground arith))
  | inr (a, there) ↦ (
    λ e s m. elim m [
      | Memᴰ.head p ↦ (a, ap (λ (y : FlowStep). lookup y.ark_agent agents) p ∙ there)
      | Memᴰ.tail m' ↦ (missing_agents-nil agents xs).0 (ground arith) s m'
    ],
    λ h.
        let rest = (missing_agents-nil agents xs).1 (λ s m. h s (Memᴰ.tail m)) in
        rw (there, missing_agents) rest,
  )
]

count_error-none : (ms : List Message) → (count_error ms ≡ none) ↔ (ms ≡ [])
unfolding count_error
count_error-none [] = (λ _. refl, λ _. refl)
count_error-none (m ∷ ms) = (λ e. absurd (cc), λ e. absurd (cc))

accepted_cases :
    (agents : List (String × ArkAgent)) (f : Flow)
    → ((dry_run agents f).error ≡ none)
      ↔ ((dag_error (validate_dag f.spec.steps) ≡ none) × (missing_agents agents f.spec.steps ≡ []))
unfolding dry_run
accepted_cases agents f = elim (Option-cases (dag_error (validate_dag f.spec.steps))) [
  | inr (m, bad) ↦ rw (bad, dry_run) (λ e. absurd (cc), λ e. absurd (cc))
  | inl good ↦
      rw (good, dry_run)
        (
          λ e. (refl, (count_error-none (missing_agents agents f.spec.steps)).0 e),
          λ h. (count_error-none (missing_agents agents f.spec.steps)).1 h.1,
        )
]

-- The check of a flow reports no error exactly when all dependencies name steps, there is no cycle of
-- dependencies, and the agent of every step is in the file.
pub dry_run-accepts_iff :
    (agents : List (String × ArkAgent)) (f : Flow)
    → ((dry_run agents f).error ≡ none)
      ↔ (HasKnownDeps f.spec.steps × IsAcyclic f.spec.steps × HasKnownAgents agents f.spec.steps)
dry_run-accepts_iff agents f =
    let cases = accepted_cases agents f in
    let graph = validate_dag-valid_iff f.spec.steps in
    let errors = dag_error-none (validate_dag f.spec.steps) in
    let known = missing_agents-nil agents f.spec.steps in
    (
      λ e.
          let (sound, none_missing) = cases.0 e in
          let (deps, acyclic) = graph.0 (errors.0 sound) in (deps, acyclic, known.0 none_missing),
      λ (deps, acyclic, agents_known).
          cases.1 (errors.1 (graph.1 (deps, acyclic)), known.1 agents_known),
    )

found-validate_agents :
    (agents : List (String × ArkAgent)) (c : Cluster) (steps : List FlowStep)
    → ((name : String) (a : ArkAgent) → lookup name agents ≡ some a → c.agent name ≡ found a)
    → HasKnownAgents agents steps
    → validate_agents c.agent steps ≡ none
unfolding validate_agents
found-validate_agents agents c [] there known = refl
found-validate_agents agents c (s ∷ ss) there known =
    let (a, e) = known s (Memᴰ.head refl) in
    rw (there s.ark_agent a e, validate_agents)
      (found-validate_agents agents c ss there (λ t m. known t (Memᴰ.tail m)))

-- A flow that the check accepts is admitted by the operator on a cluster that has the agents of the
-- file: Reconcile reports neither an invalid graph nor a missing agent.
pub dry_run-admitted :
    (ext : External) (c : Cluster) (agents : List (String × ArkAgent)) (f : Flow)
    → ((name : String) (a : ArkAgent) → lookup name agents ≡ some a → c.agent name ≡ found a)
    → (dry_run agents f).error ≡ none
    → validated ext c f ≡ admitted ext c f
unfolding validated
dry_run-admitted ext c agents f there accepted =
    let (sound, none_missing) = (accepted_cases agents f).0 accepted in
    let known = (missing_agents-nil agents f.spec.steps).0 none_missing in
    rw (sound, found-validate_agents agents c f.spec.steps there known, validated) refl
