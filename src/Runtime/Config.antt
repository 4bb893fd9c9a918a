-- ===== src/Runtime/Config.antt =====
-- internal/agent/config/config.go: the configuration of an agent, from its environment.
pub mod Parts
pub mod Injected
use agentops_operator.Prelude.{ℕ, String, none, some, List, [], ◌==◌, if◌then◌else◌}
use agentops_operator.Prelude.Decimal.{atoi}
use agentops_operator.Prelude.Int64.{mul64}
use agentops_operator.Api.Meta.{format, end, str, wrap, Result, ok, err}
use agentops_operator.Flow.Phase.{nanoseconds}

pub record McpServerConfig : Type 0 where
  pub name : String
  pub url : String

pub record WebhookToolConfig : Type 0 where
  pub name : String
  pub description : String
  pub url : String
  pub method : String
  pub input_schema : String

pub record Config : Type 0 where
  pub provider : String
  pub model : String
  pub system_prompt : String
  pub mcp_servers : List McpServerConfig
  pub max_tokens_per_call : ℕ
  pub timeout_seconds : ℕ
  pub task_queue_url : String
  pub validator_prompt : String
  pub max_retries : ℕ
  pub webhook_tools : List WebhookToolConfig

-- json.Unmarshal into the two lists
pub record Decoder : Type 0 where
  pub servers : String → Result (List McpServerConfig)
  pub tools : String → Result (List WebhookToolConfig)

infixl 5 ◌>>=◌
abbrev pub ◌>>=◌ {ℓ κ} : {A : Type ℓ} {B : Type κ} → Result A → (A → Result B) → Result B
ok a >>= f = f a
err e >>= f = err e

-- The environment is os.Getenv: a variable that is not set reads as the empty text.
unfoldable pub require_env : (String → String) → String → Result String
require_env env key =
    let v = env key in
    if v == "" then err (format "required env var %s is not set" (str key end)) else ok v

-- An optional variable that strconv.Atoi reads.
unfoldable pub number_env : (String → String) → String → ℕ → Result ℕ
number_env env key fallback =
    let v = env key in
    if v == "" then ok fallback else elim (atoi v) [
      | some n ↦ ok n
      | none ↦ err (format "invalid %s %q: %w" (str key (str v end)))
    ]

-- An optional variable that holds a JSON list.
unfoldable pub list_env {ℓ} :
    {A : Type ℓ} → (String → Result (List A)) → (String → String) → String → Result (List A)
list_env decode env key =
    let v = env key in
    if v == "" then ok [] else elim (decode v) [
      | ok xs ↦ ok xs
      | err e ↦ err (format "invalid %s JSON: %w" (str key (wrap e end)))
    ]

unfoldable pub load : Decoder → (String → String) → Result Config
load d env = do
  model ← require_env env "AGENT_MODEL"
  system_prompt ← require_env env "AGENT_SYSTEM_PROMPT"
  queue_url ← require_env env "TASK_QUEUE_URL"
  max_tokens ← number_env env "AGENT_MAX_TOKENS" 8000
  timeout ← number_env env "AGENT_TIMEOUT_SECONDS" 120
  servers ← list_env d.servers env "AGENT_MCP_SERVERS"
  retries ← number_env env "AGENT_MAX_RETRIES" 3
  tools ← list_env d.tools env "AGENT_WEBHOOK_TOOLS"
  ok (record {
    provider = env "AGENT_PROVIDER";
    model = model;
    system_prompt = system_prompt;
    mcp_servers = servers;
    max_tokens_per_call = max_tokens;
    timeout_seconds = timeout;
    task_queue_url = queue_url;
    validator_prompt = env "AGENT_VALIDATOR_PROMPT";
    max_retries = retries;
    webhook_tools = tools;
  })

-- time.Duration(cfg.TimeoutSeconds) * time.Second
unfoldable pub task_timeout : Config → ℕ
task_timeout cfg = mul64 cfg.timeout_seconds nanoseconds
