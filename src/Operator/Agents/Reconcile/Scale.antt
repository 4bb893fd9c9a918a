-- ===== src/Operator/Agents/Reconcile/Scale.antt =====
-- The size of the Deployment that Reconcile of an agent writes.
use agentops_operator.Prelude.{
  ◌-◌, ◌<◌, String, Option, List, [], ◌∷◌, ◌≡◌, sym, ◌∙◌, ◌⊎◌, inl, inr, arith, Option-cases, Memᴰ,
  ap, subst,
}
use agentops_operator.Prelude.Int64.{two63}
use agentops_operator.Api.Meta.{ok}
use agentops_operator.Api.Flow.{Flow}
use agentops_operator.Api.Agent.{ArkAgent}
use agentops_operator.Api.Settings.{ArkSettings, ArkMemory}
use agentops_operator.Operator.Submit.Effects.{Result-cases}
use agentops_operator.Operator.Reconcile.{found}
use agentops_operator.Operator.Reconcile.Guards.{Get-cases}
use agentops_operator.Operator.Agents.Budget.{
  day, daily_limit, Budgeted, reconcile_daily_budget, replicas_of,
}
use agentops_operator.Operator.Agents.Budget.Limit.{
  IsConditions, window_tokens, IsExhausted, wanted, reconcile_daily_budget-replicas,
}
use agentops_operator.Operator.Agents.Prompt.{resolve_system_prompt}
use agentops_operator.Operator.Agents.Reconcile.{
  Deployment, AgentWorld, optional_ref, build_deployment, patched, write_deployment, deploy,
  prompted, with_memory, with_settings, reconcile_agent,
}

module _ (w : AgentWorld) where
  write_cases :
      (desired : Deployment)
      → ((write_deployment w desired).0 ≡ [])
        ⊎ ((write_deployment w desired).0 ≡ desired ∷ [])
        ⊎ ((d : Deployment) × ((write_deployment w desired).0 ≡ patched desired d ∷ []))
  unfolding write_deployment
  write_cases desired = elim (Option-cases (w.set_owner desired)) [
    | inr (e, bad) ↦ inl (ground arith)
    | inl owned ↦ elim (Get-cases (w.existing desired.name)) [
      | inl (d, e) ↦ inr (inr (d, ground arith))
      | inr (inl e) ↦ inr (inl (ground arith))
      | inr (inr (m, e)) ↦ inl (ground arith)
    ]
  ]

  only_member : (d e : Deployment) → Memᴰ d (e ∷ []) → d.replicas ≡ e.replicas
  only_member d e (Memᴰ.head p) = ap (λ (x : Deployment). x.replicas) p
  only_member d e (Memᴰ.tail m) = elim m [ ]

  -- Every Deployment that is written has the replicas that buildDeployment asks for.
  write_deployment-replicas :
      (desired d : Deployment)
      → Memᴰ d (write_deployment w desired).0
      → d.replicas ≡ desired.replicas
  unfolding patched
  write_deployment-replicas desired d m = elim (write_cases desired) [
    | inl e ↦ elim (subst (Memᴰ d) e m) [ ]
    | inr (inl e) ↦ only_member d desired (subst (Memᴰ d) e m)
    | inr (inr (x, e)) ↦ only_member d (patched desired x) (subst (Memᴰ d) e m)
  ]

  deployments-deploy :
      (settings : Option ArkSettings) (memory : Option ArkMemory) (prompt : String) (b : Budgeted)
      → (deploy w settings memory prompt b).deployments
        ≡ (write_deployment w (build_deployment w b.agent settings memory prompt)).0
  unfolding deploy
  deployments-deploy settings memory prompt b = ground arith

  prompted_cases :
      (a : ArkAgent) (settings : Option ArkSettings) (memory : Option ArkMemory)
      → ((prompted w a settings memory).deployments ≡ [])
        ⊎ ((prompt : String) × (b : Budgeted) × (reconcile_daily_budget w.conditions w.now w.flows a
              ≡ ok b)
            × (prompted w a settings memory ≡ deploy w settings memory prompt b))
  unfolding prompted
  prompted_cases a settings memory = elim (Result-cases (resolve_system_prompt w.sources a.spec)) [
    | inr (e, bad) ↦ inl (ground arith)
    | inl (prompt, good) ↦
        elim (Result-cases (reconcile_daily_budget w.conditions w.now w.flows a)) [
          | inr (e, bad) ↦ inl (ground arith)
          | inl (b, fine) ↦ inr (prompt, b, fine, ground arith)
        ]
  ]

  with_settings_cases :
      (a : ArkAgent)
      → ((with_settings w a).deployments ≡ [])
        ⊎ ((settings : Option ArkSettings) × (memory : Option ArkMemory) × (with_settings w a
              ≡ prompted w a settings memory))
  unfolding with_settings with_memory
  with_settings_cases a =
      elim (Result-cases
        (optional_ref "fetching ArkSettings %q: %w" w.settings a.spec.config_ref)) [
          | inr (e, bad) ↦ inl (ground arith)
          | inl (settings, good) ↦
              elim (Result-cases
                (optional_ref "fetching ArkMemory %q: %w" w.memory a.spec.memory_ref)) [
                  | inr (e, bad) ↦ inl (ground arith)
                  | inl (memory, fine) ↦ inr (settings, memory, ground arith)
                ]
        ]

  reconcile_agent_cases :
      (a : ArkAgent)
      → w.agent ≡ found a
      → ((reconcile_agent w).deployments ≡ []) ⊎ (reconcile_agent w ≡ with_settings w a)
  unfolding reconcile_agent
  reconcile_agent_cases a there = elim (Option-cases a.meta.deleted) [
    | inr (t, d) ↦ inl (ground arith)
    | inl d ↦ inr (ground arith)
  ]

  -- A Deployment comes from a pass that reconciled the budget.
  deployed :
      (a : ArkAgent) (d : Deployment)
      → w.agent ≡ found a
      → Memᴰ d (reconcile_agent w).deployments
      → (b : Budgeted) × (reconcile_daily_budget w.conditions w.now w.flows a ≡ ok b)
        × (d.replicas ≡ replicas_of w.conditions b.agent)
  unfolding build_deployment
  deployed a d there m = elim (reconcile_agent_cases a there) [
    | inl e ↦ elim (subst (Memᴰ d) e m) [ ]
    | inr same ↦ elim (with_settings_cases a) [
      | inl e ↦ elim (subst (Memᴰ d) (ap (λ r. r.deployments) same ∙ e) m) [ ]
      | inr (settings, memory, same') ↦ elim (prompted_cases a settings memory) [
        | inl e ↦ elim (subst (Memᴰ d) (ap (λ r. r.deployments) (same ∙ same') ∙ e) m) [ ]
        | inr (prompt, b, fine, same'') ↦ (
          b,
          fine,
          write_deployment-replicas (build_deployment w b.agent settings memory prompt) d (
              subst (Memᴰ d)
                (ap (λ r. r.deployments) (same ∙ same' ∙ same'')
                  ∙ deployments-deploy settings memory prompt b)
                m),
        )
      ]
    ]
  ]

  -- Every Deployment that Reconcile of an agent creates or patches has no replicas if the agent has a
  -- daily limit and the tokens of its steps that completed in the last 24 hours reach it, and the
  -- replicas that the agent asks for otherwise. The flows can be listed, and the limit and the tokens
  -- do not reach the sign bit.
  pub reconcile_agent-replicas :
      IsConditions w.conditions
      → (a : ArkAgent) (fs : List Flow) (d : Deployment) → w.agent ≡ found a
      → w.flows ≡ ok fs
      → daily_limit a.spec.limits < two63
      → window_tokens a.meta.name (w.now - day) fs < two63
      → Memᴰ d (reconcile_agent w).deployments
      → (IsExhausted w.now fs a × (d.replicas ≡ 0))
        ⊎ ((¬ IsExhausted w.now fs a) × (d.replicas ≡ wanted a.spec.replicas))
  reconcile_agent-replicas laws a fs d there listed small few m =
      let (b, e, size) = deployed a d there m in
      let (b', e', split) =
        reconcile_daily_budget-replicas w.conditions laws w.now fs a small few in
      let same : b ≡ b' =
        same_budget (sym e ∙ ap (λ l. reconcile_daily_budget w.conditions w.now l a) listed ∙ e') in
      elim split [
        | inl (full, z) ↦ inl (full, size ∙ ap (λ x. replicas_of w.conditions x.agent) same ∙ z)
        | inr (room, z) ↦ inr (room, size ∙ ap (λ x. replicas_of w.conditions x.agent) same ∙ z)
      ]
    where
      same_budget : {x y : Budgeted} → ok x ≡ ok y → x ≡ y
      same_budget {x = x} {y = y} h = ground arith
