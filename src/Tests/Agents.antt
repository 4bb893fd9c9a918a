-- ===== src/Tests/Agents.antt =====
-- The agent reconciler on a small agent with a daily limit.
use agentops_operator.Prelude.{
  ◌-◌, ◌<◌, String, Bool, true, false, none, some, List, [], ◌∷◌, Memᴰ, ◌≡◌, ◌≢◌, refl, ◌⊎◌, ◌↔◌,
  arith, ◌==◌, if◌then◌else◌, eq_refl,
}
use agentops_operator.Api.Meta.{ok, Condition, ConditionStatus, condition_true}
use agentops_operator.Api.Flow.{FlowPhase, StepPhase, StepStatus, Flow}
use agentops_operator.Api.Agent.{ArkAgent}
use agentops_operator.Api.Settings.{ArkSettings, ArkMemory}
use agentops_operator.Operator.Reconcile.{found, not_found}
use agentops_operator.Operator.Agents.Budget.{
  Conditions, Budgeted, reconcile_daily_budget, replicas_of, day, daily_limit, judge, agent_of,
  is_step_of,
}
use agentops_operator.Operator.Agents.Budget.Limit.{
  IsConditions, window_tokens, IsExhausted, wanted, reconcile_daily_budget-replicas,
}
use agentops_operator.Operator.Agents.Env.{Marshal, build_env_vars}
use agentops_operator.Operator.Agents.Env.Backend.{
  env_value, expected_backend, build_env_vars-backend,
}
use agentops_operator.Operator.Agents.Prompt.{flow_to_agents, resolve_system_prompt}
use agentops_operator.Operator.Agents.Prompt.Watched.{Runs, IsNodup, flow_to_agents-mem_iff}
use agentops_operator.Operator.Agents.Reconcile.{
  Deployment, AgentWorld, reconcile_agent, prompted, deploy, write_deployment, build_deployment,
  optional_ref, sync_status,
}
use agentops_operator.Operator.Agents.Reconcile.Scale.{reconcile_agent-replicas}
use agentops_operator.Tests.Samples.{step, status, flow, worker, meta}

abbrev holds : ConditionStatus → Bool
holds condition_true = true
holds _ = false

abbrev is_true : List Condition → String → Bool
is_true [] type = false
is_true (c ∷ cs) type =
    let rest = is_true cs type in if c.type == type then holds c.status else rest

abbrev remove : List Condition → String → List Condition
remove [] type = []
remove (c ∷ cs) type = let rest = remove cs type in if c.type == type then rest else c ∷ rest

abbrev conditions : Conditions
conditions = record { set = λ now cs c. c ∷ cs; remove = remove; is_true = is_true }

remove_lem : (cs : List Condition) (type : String) → is_true (remove cs type) type ≡ false
remove_lem [] type = refl
remove_lem (c ∷ cs) type = ground (arith, remove_lem cs type)

conditions-IsConditions : IsConditions conditions
conditions-IsConditions = record {
  set_true = λ now cs x e. ground (arith, eq_refl x.type);
  remove_false = remove_lem;
}

abbrev limited : ArkAgent
limited = record worker {
  spec = record (worker.spec) {
    replicas = some 3;
    limits = some (record {
      max_tokens_per_call = 0;
      max_concurrent_tasks = 0;
      timeout_seconds = 0;
      max_daily_tokens = 40;
    });
  };
}

abbrev spent : StepStatus
spent = record (status "a" StepPhase.succeeded) {
  token_usage = some (record { input_tokens = 30; output_tokens = 12; total_tokens = 42 });
  completion_time = some 4;
}

abbrev busy : List Flow
busy = flow FlowPhase.running (step "a" [] ∷ step "b" ("a" ∷ []) ∷ []) (spent ∷ []) ∷ []

busy_tokens : window_tokens "worker" 0 busy ≡ 42
unfolding agent_of is_step_of
busy_tokens = refl

few : window_tokens limited.meta.name (5 - day) busy < 9223372036854775808
unfolding agent_of is_step_of
few = omega arith

small : daily_limit limited.spec.limits < 9223372036854775808
unfolding daily_limit
small = omega arith

reconcile_daily_budget-replicas_example :
    (b : Budgeted) × (reconcile_daily_budget conditions 5 (ok busy) limited ≡ ok b)
    × ((IsExhausted 5 busy limited × (replicas_of conditions b.agent ≡ 0))
        ⊎ ((¬ IsExhausted 5 busy limited)
            × (replicas_of conditions b.agent ≡ wanted limited.spec.replicas)))
reconcile_daily_budget-replicas_example =
    reconcile_daily_budget-replicas conditions conditions-IsConditions 5 busy limited small few

abbrev marshal : Marshal
marshal = record { servers = λ ss. "[]"; tools = λ ts. "[]" }

abbrev with_redis : ArkMemory
with_redis = record {
  meta = meta "notes";
  spec = record { backend = "redis"; redis = none; vector_store = none };
  status = record { observed_generation = 0; conditions = [] };
}

abbrev in_context : ArkSettings
in_context = record {
  meta = meta "house";
  spec = record {
    temperature = "0.2";
    output_format = "";
    memory_backend = "in-context";
    prompt_fragments = record { persona = "a clerk"; output_rules = "" };
  };
  status = record { observed_generation = 0; conditions = [] };
}

build_env_vars-backend_example :
    env_value "AGENT_MEMORY_BACKEND"
      (build_env_vars marshal limited (some in_context) (some with_redis) "be brief")
    ≡ expected_backend (some with_redis) (some in_context)
build_env_vars-backend_example =
    build_env_vars-backend marshal limited (some in_context) (some with_redis) "be brief"

abbrev both_by_worker : Flow
both_by_worker = flow FlowPhase.running (step "a" [] ∷ step "b" ("a" ∷ []) ∷ []) []

flow_to_agents-mem_iff_example :
    IsNodup (flow_to_agents both_by_worker)
    × ((n : String)
        → Memᴰ n (flow_to_agents both_by_worker) ↔ ((n ≢ "") × Runs n both_by_worker.spec.steps))
flow_to_agents-mem_iff_example = flow_to_agents-mem_iff both_by_worker

abbrev world : AgentWorld
world = record {
  agent = found limited;
  settings = λ name. not_found;
  memory = λ name. not_found;
  sources = record { config_map = λ name. not_found; secret = λ name. not_found };
  flows = ok busy;
  now = 5;
  conditions = conditions;
  marshal = marshal;
  sha256_hex = λ s. s;
  image = "agent:1";
  set_owner = λ d. none;
  existing = λ name. not_found;
  create = λ d. none;
  patch = λ d. none;
  after_write = λ name. not_found;
  update_status = λ a. none;
}

written : (d : Deployment) × Memᴰ d (reconcile_agent world).deployments
unfolding reconcile_agent optional_ref prompted resolve_system_prompt reconcile_daily_budget
    daily_limit deploy write_deployment build_deployment judge sync_status
written = (_, Memᴰ.head refl)

reconcile_agent-replicas_example :
    (IsExhausted 5 busy limited × (written.0.replicas ≡ 0))
    ⊎ ((¬ IsExhausted 5 busy limited) × (written.0.replicas ≡ wanted limited.spec.replicas))
reconcile_agent-replicas_example =
    reconcile_agent-replicas world conditions-IsConditions limited busy written.0 refl refl small
      few written.1
