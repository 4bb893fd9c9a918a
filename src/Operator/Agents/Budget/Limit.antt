-- ===== src/Operator/Agents/Budget/Limit.antt =====
-- The daily token budget of an agent, against the plain sum of the tokens in the window.
use agentops_operator.Prelude.{
  ℕ, ◌+◌, ◌-◌, ◌%◌, ◌<◌, ◌≤◌, String, true, false, Option, none, some, List, [], ◌∷◌, if◌then◌else◌,
  ◌≡◌, refl, ◌∙◌, ◌⊎◌, inl, inr, arith, Bool-cases, ltb,
}
use agentops_operator.Prelude.Int64.{two64, two63, lt64}
use agentops_operator.Api.Meta.{ok, Condition, condition_true}
use agentops_operator.Api.Flow.{TokenUsage, FlowStep, StepStatus, Flow}
use agentops_operator.Api.Agent.{ArkAgent}
use agentops_operator.Operator.Agents.Budget.{
  Conditions, day, no_usage, agent_of, is_step_of, Window, count_usage, count_step, count_steps,
  count_flows, daily_limit, Budgeted, requeue_time, clear_exceeded, set_exceeded,
  exceeded_condition, judge, reconcile_daily_budget, replicas_of,
}

-- What apimachinery documents of its three functions.
pub record IsConditions (c : Conditions) : Type 0 where
  pub set_true :
      (now : ℕ) (cs : List Condition) (x : Condition)
      → x.status ≡ condition_true
      → c.is_true (c.set now cs x) x.type ≡ true
  pub remove_false :
      (cs : List Condition) (type : String) → c.is_true (c.remove cs type) type ≡ false

-- The tokens of a status that completed since `start`.
abbrev pub recent_tokens : ℕ → Option TokenUsage → Option ℕ → ℕ
recent_tokens start none time = 0
recent_tokens start (some u) none = 0
recent_tokens start (some u) (some t) = if ltb t start then 0 else u.total_tokens

-- What one status adds.
abbrev pub step_tokens : String → ℕ → List FlowStep → StepStatus → ℕ
step_tokens name start steps st =
    if is_step_of name (agent_of steps st.name)
    then recent_tokens start st.token_usage st.completion_time
    else 0

abbrev pub steps_tokens : String → ℕ → List FlowStep → List StepStatus → ℕ
steps_tokens name start steps [] = 0
steps_tokens name start steps (st ∷ sts) =
    step_tokens name start steps st + steps_tokens name start steps sts

-- The tokens that the agent's steps used in all flows and that completed since `start`.
abbrev pub window_tokens : String → ℕ → List Flow → ℕ
window_tokens name start [] = 0
window_tokens name start (f ∷ fs) =
    steps_tokens name start f.spec.steps f.status.steps + window_tokens name start fs

count_usage-tokens :
    (start : ℕ) (u : Option TokenUsage) (time : Option ℕ) (w : Window)
    → w.usage.total_tokens < two64
    → (count_usage start u time w).usage.total_tokens
      ≡ (w.usage.total_tokens + recent_tokens start u time) % two64
unfolding count_usage
count_usage-tokens start none time w h = omega arith
count_usage-tokens start (some u) none w h = omega arith
count_usage-tokens start (some u) (some t) w h = elim (Bool-cases (ltb t start)) [
  | inl old ↦ rw old (omega arith)
  | inr recent ↦ rw recent refl
]

count_step-tokens :
    (name : String) (start : ℕ) (steps : List FlowStep) (st : StepStatus) (w : Window)
    → w.usage.total_tokens < two64
    → (count_step name start steps st w).usage.total_tokens
      ≡ (w.usage.total_tokens + step_tokens name start steps st) % two64
unfolding count_step
count_step-tokens name start steps st w h =
    elim (Bool-cases (is_step_of name (agent_of steps st.name))) [
      | inr other ↦ rw other (omega arith)
      | inl own ↦ rw own (count_usage-tokens start st.token_usage st.completion_time w h)
    ]

count_steps-tokens :
    (name : String) (start : ℕ) (steps : List FlowStep) (sts : List StepStatus) (w : Window)
    → w.usage.total_tokens < two64
    → (count_steps name start steps sts w).usage.total_tokens
      ≡ (w.usage.total_tokens + steps_tokens name start steps sts) % two64
unfolding count_steps
count_steps-tokens name start steps [] w h = omega arith
count_steps-tokens name start steps (st ∷ sts) w h =
    let e = count_step-tokens name start steps st w h in
    count_steps-tokens name start steps sts (count_step name start steps st w) (omega (arith, e))
    ∙ omega (arith, e)

count_flows-tokens :
    (name : String) (start : ℕ) (fs : List Flow) (w : Window)
    → w.usage.total_tokens < two64
    → (count_flows name start fs w).usage.total_tokens
      ≡ (w.usage.total_tokens + window_tokens name start fs) % two64
unfolding count_flows
count_flows-tokens name start [] w h = omega arith
count_flows-tokens name start (f ∷ fs) w h =
    let e = count_steps-tokens name start f.spec.steps f.status.steps w h in
    count_flows-tokens name start fs (count_steps name start f.spec.steps f.status.steps w)
      (omega (arith, e))
    ∙ omega (arith, e)

-- The replicas that the agent asks for.
abbrev pub wanted : Option ℕ → ℕ
wanted none = 1
wanted (some n) = n

-- There is a daily limit, and the tokens of the last 24 hours reach it.
abbrev pub IsExhausted : ℕ → List Flow → ArkAgent → Type 0
IsExhausted now fs a =
    (0 < daily_limit a.spec.limits)
    × (daily_limit a.spec.limits ≤ window_tokens a.meta.name (now - day) fs)

module _ (c : Conditions) (laws : IsConditions c) where
  replicas-exceeded :
      (now limit : ℕ) (a : ArkAgent) (u : TokenUsage)
      → replicas_of c (set_exceeded c now limit a u) ≡ 0
  unfolding replicas_of set_exceeded exceeded_condition
  replicas-exceeded now limit a u =
      ground (arith, laws.set_true now a.status.conditions (exceeded_condition now limit a u) refl)

  replicas-cleared :
      (a : ArkAgent) (u : Option TokenUsage)
      → replicas_of c (clear_exceeded c a u) ≡ wanted a.spec.replicas
  unfolding replicas_of clear_exceeded
  replicas-cleared a u = ground (arith, laws.remove_false a.status.conditions "BudgetExceeded")

  -- When the flows can be listed, the agent's Deployment gets no replicas after the budget was
  -- reconciled if the agent has a daily limit and the tokens of its steps that completed in the last
  -- 24 hours reach it, and the replicas that the agent asks for otherwise. The limit and the tokens
  -- do not reach the sign bit.
  pub reconcile_daily_budget-replicas :
      (now : ℕ) (fs : List Flow) (a : ArkAgent)
      → daily_limit a.spec.limits < two63
      → window_tokens a.meta.name (now - day) fs < two63
      → (b : Budgeted) × (reconcile_daily_budget c now (ok fs) a ≡ ok b)
        × ((IsExhausted now fs a × (replicas_of c b.agent ≡ 0))
            ⊎ ((¬ IsExhausted now fs a) × (replicas_of c b.agent ≡ wanted a.spec.replicas)))
  unfolding reconcile_daily_budget judge
  reconcile_daily_budget-replicas now fs a small few =
      let limit = daily_limit a.spec.limits in
      let w =
        count_flows a.meta.name (now - day) fs (record { usage = no_usage; earliest = none }) in
      let sum : w.usage.total_tokens ≡ window_tokens a.meta.name (now - day) fs =
        count_flows-tokens a.meta.name (now - day) fs (record { usage = no_usage; earliest = none })
          (omega arith)
        ∙ omega arith in
      elim (Bool-cases (lt64 0 limit)) [
        | inr f ↦ (
          record { agent = clear_exceeded c a none; requeue_at = none },
          rw (f, reconcile_daily_budget) refl,
          inr (λ (p, _). ground arith, replicas-cleared a none),
        )
        | inl t ↦ elim (Bool-cases (lt64 w.usage.total_tokens limit)) [
          | inl under ↦ (
            record { agent = clear_exceeded c a (some w.usage); requeue_at = none },
            rw (t, under, reconcile_daily_budget, judge) refl,
            inr (λ (p, q). ground (arith, sum), replicas-cleared a (some w.usage)),
          )
          | inr over ↦ (
            record {
              agent = set_exceeded c now limit a w.usage;
              requeue_at = some (requeue_time now w.earliest);
            },
            rw (t, over, reconcile_daily_budget, judge) refl,
            inl ((ground arith, ground (arith, sum)), replicas-exceeded now limit a w.usage),
          )
        ]
      ]
