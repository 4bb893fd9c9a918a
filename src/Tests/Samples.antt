-- ===== src/Tests/Samples.antt =====
-- Sample resources and a sample world.
use agentops_operator.Prelude.{ℕ, String, true, false, none, some, List, [], ◌∷◌}
use agentops_operator.Api.Meta.{ObjectMeta, plain, ok}
use agentops_operator.Api.Flow.{
  TokenUsage, StepPhase, FlowPhase, FlowStep, FlowSpec, StepStatus, Flow,
}
use agentops_operator.Api.Agent.{ArkAgent}
use agentops_operator.Flow.External.{External}
use agentops_operator.Local.World.{World}

abbrev pub meta : String → ObjectMeta
meta name = record {
  name = name;
  namespace = "default";
  generation = 1;
  annotations = [];
  labels = [];
  deleted = none;
}

abbrev pub step : String → List String → FlowStep
step name deps = record {
  name = name;
  ark_agent = "worker";
  inputs = [];
  depends_on = deps;
  output_schema = "";
  if_expr = "";
  loop = none;
}

abbrev pub status : String → StepPhase → StepStatus
status name phase = record {
  name = name;
  phase = phase;
  task_id = "";
  output = "";
  output_json = "";
  start_time = none;
  completion_time = none;
  message = plain "";
  iterations = 0;
  token_usage = none;
}

abbrev pub spec : List FlowStep → FlowSpec
spec steps = record {
  steps = steps;
  input = [];
  output = "";
  timeout_seconds = 60;
  max_tokens = 100;
}

abbrev pub flow : FlowPhase → List FlowStep → List StepStatus → Flow
flow phase steps sts = record {
  meta = meta "demo";
  spec = spec steps;
  status = record {
    phase = phase;
    steps = sts;
    start_time = some 0;
    completion_time = none;
    output = "";
    observed_generation = 0;
    total_token_usage = none;
    conditions = [];
  };
}

abbrev pub usage : ℕ → ℕ → TokenUsage
usage i o = record { input_tokens = i; output_tokens = o; total_tokens = 0 }

-- Templates are returned as they stand, every text is JSON, and conditions are prepended.
abbrev pub plain_external : External
plain_external = record {
  Json = String;
  unmarshal = λ s. some s;
  execute = λ t d. ok t;
  set_status_condition = λ now cs c. c ∷ cs;
}

-- Every model answers "done" and uses ten tokens each way; results arrive in the order of the steps.
abbrev pub quiet_world : World
quiet_world = record {
  Provider = String;
  provider = λ m. ok m;
  no_mcp = true;
  reachable = λ s. false;
  run_task = λ round p cfg servers task prompt. record {
    output = "done";
    tokens = record { input_tokens = 10; output_tokens = 10 };
    error = none;
  };
  now = λ round name. 5;
  elapsed = λ round name. 1;
  arrive = λ round rs. rs;
}

abbrev pub worker : ArkAgent
worker = record {
  meta = meta "worker";
  spec = record {
    replicas = none;
    model = "claude-x";
    system_prompt = "be brief";
    system_prompt_ref = none;
    mcp_servers = [];
    limits = none;
    liveness_probe = none;
    config_ref = none;
    memory_ref = none;
    tools = [];
  };
  status = record {
    ready_replicas = 0;
    replicas = 0;
    observed_generation = 0;
    daily_token_usage = none;
    conditions = [];
  };
}
