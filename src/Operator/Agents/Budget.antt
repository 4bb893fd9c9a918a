-- ===== src/Operator/Agents/Budget.antt =====
-- internal/controller/arkagent_controller.go: reconcileDailyBudget, and the replicas that
-- buildDeployment asks for.
pub mod Limit
use agentops_operator.Prelude.{
  ℕ, ◌+◌, ◌-◌, ◌*◌, String, Bool, true, false, ◌&&◌, ◌||◌, not, Option, none, some, List, [], ◌∷◌,
  ◌==◌, if◌then◌else◌, ltb,
}
use agentops_operator.Prelude.Int64.{add64, lt64}
use agentops_operator.Api.Meta.{
  Message, format, end, num, wrap, Result, ok, err, Condition, ConditionStatus, condition_true,
}
use agentops_operator.Api.Flow.{TokenUsage, FlowStep, StepStatus, Flow}
use agentops_operator.Api.Agent.{ArkAgent, AgentStatus, ArkonisLimits}
use agentops_operator.Flow.Phase.{nanoseconds}

-- apimachinery's meta.SetStatusCondition (at a time that it reads itself), RemoveStatusCondition and
-- IsStatusConditionTrue.
pub record Conditions : Type 0 where
  pub set : ℕ → List Condition → Condition → List Condition
  pub remove : List Condition → String → List Condition
  pub is_true : List Condition → String → Bool

abbrev pub day : ℕ
day = 86400 * nanoseconds

abbrev pub no_usage : TokenUsage
no_usage = record { input_tokens = 0; output_tokens = 0; total_tokens = 0 }

-- `stepAgent[name]`: a later step of the same name overwrites an earlier one.
unfoldable pub agent_of : List FlowStep → String → Option String
agent_of [] name = none
agent_of (s ∷ ss) name = elim (agent_of ss name) [
  | some later ↦ some later
  | none ↦ if s.name == name then some s.ark_agent else none
]

-- A missing key reads as the empty name.
unfoldable pub is_step_of : String → Option String → Bool
is_step_of name none = "" == name
is_step_of name (some a) = a == name

-- `usage` and `earliestInWindow`
pub record Window : Type 0 where
  pub usage : TokenUsage
  pub earliest : Option ℕ

unfoldable pub earlier : ℕ → Option ℕ → Option ℕ
earlier t none = some t
earlier t (some e) = if ltb t e then some t else some e

-- One status with its tokens and its completion time.
count_usage : ℕ → Option TokenUsage → Option ℕ → Window → Window
unfolding earlier
count_usage start none time w = w
count_usage start (some u) none w = w
count_usage start (some u) (some t) w = if ltb t start then w else record {
  usage = record {
    input_tokens = add64 w.usage.input_tokens u.input_tokens;
    output_tokens = add64 w.usage.output_tokens u.output_tokens;
    total_tokens = add64 w.usage.total_tokens u.total_tokens;
  };
  earliest = earlier t w.earliest;
}

-- The body of the loop over the statuses of a flow.
unfoldable pub count_step : String → ℕ → List FlowStep → StepStatus → Window → Window
unfolding count_usage
count_step name start steps st w =
    if is_step_of name (agent_of steps st.name)
    then count_usage start st.token_usage st.completion_time w
    else w

unfoldable pub count_steps : String → ℕ → List FlowStep → List StepStatus → Window → Window
count_steps name start steps [] w = w
count_steps name start steps (st ∷ sts) w =
    count_steps name start steps sts (count_step name start steps st w)

unfoldable pub count_flows : String → ℕ → List Flow → Window → Window
count_flows name start [] w = w
count_flows name start (f ∷ fs) w =
    count_flows name start fs (count_steps name start f.spec.steps f.status.steps w)

unfoldable pub daily_limit : Option ArkonisLimits → ℕ
daily_limit none = 0
daily_limit (some l) = l.max_daily_tokens

-- The agent, and the time of the next call.
pub record Budgeted : Type 0 where
  pub agent : ArkAgent
  pub requeue_at : Option ℕ

unfoldable pub requeue_time : ℕ → Option ℕ → ℕ
requeue_time now none = now + 3600 * nanoseconds
requeue_time now (some t) = t + day + 60 * nanoseconds

unfoldable pub exceeded_condition : ℕ → ℕ → ArkAgent → TokenUsage → Condition
exceeded_condition now limit a usage = record {
  type = "BudgetExceeded";
  status = condition_true;
  observed_generation = a.meta.generation;
  last_transition_time = 0;
  reason = "DailyLimitReached";
  message =
      format "daily token usage %d exceeds limit %d; replicas scaled to 0"
        (num usage.total_tokens (num limit end));
}

module _ (c : Conditions) where
  unfoldable pub clear_exceeded : ArkAgent → Option TokenUsage → ArkAgent
  clear_exceeded a usage = record a {
    status = record (a.status) {
      conditions = c.remove a.status.conditions "BudgetExceeded";
      daily_token_usage = usage;
    };
  }

  unfoldable pub set_exceeded : ℕ → ℕ → ArkAgent → TokenUsage → ArkAgent
  set_exceeded now limit a usage = record a {
    status = record (a.status) {
      conditions = c.set now a.status.conditions (exceeded_condition now limit a usage);
      daily_token_usage = some usage;
    };
  }

  unfoldable pub judge : ℕ → ℕ → ArkAgent → Window → Budgeted
  judge now limit a w =
      if not (lt64 w.usage.total_tokens limit)
      then record {
        agent = set_exceeded now limit a w.usage;
        requeue_at = some (requeue_time now w.earliest);
      }
      else record { agent = clear_exceeded a (some w.usage); requeue_at = none }

  unfoldable pub reconcile_daily_budget : ℕ → Result (List Flow) → ArkAgent → Result Budgeted
  reconcile_daily_budget now flows a =
      let limit = daily_limit a.spec.limits in
      if not (lt64 0 limit)
      then ok (record { agent = clear_exceeded a none; requeue_at = none })
      else elim flows [
        | err e ↦ err (format "listing flows for budget: %w" (wrap e end))
        | ok fs ↦ ok (
            judge now limit a (
              count_flows a.meta.name (now - day) fs
                (record { usage = no_usage; earliest = none })))
      ]

  -- spec.replicas of the Deployment
  unfoldable pub replicas_of : ArkAgent → ℕ
  replicas_of a =
      if c.is_true a.status.conditions "BudgetExceeded"
      then 0
      else elim a.spec.replicas [ none ↦ 1 | some n ↦ n ]
