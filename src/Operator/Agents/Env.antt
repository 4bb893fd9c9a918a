-- ===== src/Operator/Agents/Env.antt =====
-- internal/controller/arkagent_controller.go: buildEnvVars and its parts.
pub mod Backend
pub mod Names
pub mod Lookups
use agentops_operator.Prelude.{
  ℕ, String, Bool, true, false, ◌&&◌, not, Option, none, some, List, [], ◌∷◌, ◌++◌, ◌==◌,
  if◌then◌else◌,
}
use agentops_operator.Prelude.Int64.{lt64}
use agentops_operator.Api.Agent.{
  ArkAgent, AgentSpec, ArkonisLimits, ArkonisProbe, ProbeType, semantic, McpServerSpec,
  WebhookToolSpec,
}
use agentops_operator.Api.Settings.{
  ArkSettings, ArkMemory, RedisMemoryConfig, VectorStoreMemoryConfig,
}
use agentops_operator.Operator.Agents.Prompt.{merge_system_prompt}

-- The value of a variable: a text, a number formatted with %d, a key of a secret, or a field of the
-- pod.
pub data EnvValue : Type 0 where
  literal : String → EnvValue
  decimal : ℕ → EnvValue
  secret_key : (secret key : String) → EnvValue
  field_ref : String → EnvValue

pub record EnvVar : Type 0 where
  pub name : String
  pub value : EnvValue

abbrev pub var : String → EnvValue → EnvVar
var name value = record { name = name; value = value }

-- `if text != "" { envs = append(envs, ...) }`
unfoldable pub optional_text : String → String → List EnvVar
optional_text name value = if value == "" then [] else var name (literal value) ∷ []

-- `if n > 0 { envs = append(envs, ...) }`
unfoldable pub optional_number : String → ℕ → List EnvVar
optional_number name n = if lt64 0 n then var name (decimal n) ∷ [] else []

unfoldable pub build_settings_env_vars : Option ArkSettings → List EnvVar
unfolding optional_text
build_settings_env_vars none = []
build_settings_env_vars (some s) =
    optional_text "AGENT_TEMPERATURE" s.spec.temperature
    ++ optional_text "AGENT_OUTPUT_FORMAT" s.spec.output_format
    ++ optional_text "AGENT_MEMORY_BACKEND" s.spec.memory_backend

unfoldable pub build_redis_memory_env_vars : Option RedisMemoryConfig → List EnvVar
unfolding optional_number
build_redis_memory_env_vars none = []
build_redis_memory_env_vars (some m) =
    var "AGENT_MEMORY_REDIS_URL" (secret_key m.secret_ref "REDIS_URL")
      ∷ optional_number "AGENT_MEMORY_REDIS_TTL" m.ttl_seconds
    ++ optional_number "AGENT_MEMORY_REDIS_MAX_ENTRIES" m.max_entries

unfoldable pub optional_secret : Option String → List EnvVar
optional_secret none = []
optional_secret (some s) =
    var "AGENT_MEMORY_VECTOR_STORE_API_KEY" (secret_key s "VECTOR_STORE_API_KEY") ∷ []

unfoldable pub build_vector_store_memory_env_vars : Option VectorStoreMemoryConfig → List EnvVar
unfolding optional_number optional_secret
build_vector_store_memory_env_vars none = []
build_vector_store_memory_env_vars (some v) =
    var "AGENT_MEMORY_VECTOR_STORE_PROVIDER" (literal v.provider)
      ∷ var "AGENT_MEMORY_VECTOR_STORE_ENDPOINT" (literal v.endpoint)
      ∷ var "AGENT_MEMORY_VECTOR_STORE_COLLECTION" (literal v.collection)
      ∷ optional_secret v.secret_ref
    ++ optional_number "AGENT_MEMORY_VECTOR_STORE_TTL" v.ttl_seconds

-- The variables of one backend.
unfoldable pub backend_env_vars : ArkMemory → List EnvVar
unfolding build_redis_memory_env_vars build_vector_store_memory_env_vars
backend_env_vars m =
    if m.spec.backend == "redis"
    then build_redis_memory_env_vars m.spec.redis
    else if m.spec.backend == "vector-store"
    then build_vector_store_memory_env_vars m.spec.vector_store
    else []

unfoldable pub build_memory_env_vars : Option ArkMemory → List EnvVar
unfolding backend_env_vars
build_memory_env_vars none = []
build_memory_env_vars (some m) =
    var "AGENT_MEMORY_BACKEND" (literal m.spec.backend) ∷ backend_env_vars m

unfoldable pub positive_or : ℕ → ℕ → ℕ
positive_or n fallback = if lt64 0 n then n else fallback

unfoldable pub max_tokens_of : Option ArkonisLimits → ℕ
unfolding positive_or
max_tokens_of none = 8000
max_tokens_of (some l) = positive_or l.max_tokens_per_call 8000

unfoldable pub timeout_of : Option ArkonisLimits → ℕ
unfolding positive_or
timeout_of none = 120
timeout_of (some l) = positive_or l.timeout_seconds 120

-- Every probe type is semantic or ping.
unfoldable pub is_semantic : ProbeType → Bool
is_semantic semantic = true
is_semantic _ = false

unfoldable pub validator_env_vars : Option ArkonisProbe → List EnvVar
unfolding is_semantic optional_text
validator_env_vars none = []
validator_env_vars (some p) =
    if is_semantic p.type then optional_text "AGENT_VALIDATOR_PROMPT" p.validator_prompt else []

-- json.Marshal of the tool servers and of the tools
pub record Marshal : Type 0 where
  pub servers : List McpServerSpec → String
  pub tools : List WebhookToolSpec → String

unfoldable pub tool_env_vars : Marshal → List WebhookToolSpec → List EnvVar
tool_env_vars j [] = []
tool_env_vars j (t ∷ ts) = var "AGENT_WEBHOOK_TOOLS" (literal (j.tools (t ∷ ts))) ∷ []

-- The variables that every agent has.
unfoldable pub base_env_vars : Marshal → ArkAgent → Option ArkSettings → String → List EnvVar
unfolding max_tokens_of timeout_of merge_system_prompt
base_env_vars j a settings prompt =
    var "AGENT_MODEL" (literal a.spec.model)
    ∷ var "AGENT_SYSTEM_PROMPT" (literal (merge_system_prompt prompt settings))
    ∷ var "AGENT_MCP_SERVERS" (literal (j.servers a.spec.mcp_servers))
    ∷ var "AGENT_MAX_TOKENS" (decimal (max_tokens_of a.spec.limits))
    ∷ var "AGENT_TIMEOUT_SECONDS" (decimal (timeout_of a.spec.limits))
    ∷ var "POD_NAME" (field_ref "metadata.name")
    ∷ []

unfoldable pub build_env_vars :
    Marshal → ArkAgent → Option ArkSettings → Option ArkMemory → String → List EnvVar
unfolding base_env_vars validator_env_vars build_settings_env_vars build_memory_env_vars
    tool_env_vars
build_env_vars j a settings memory prompt =
    base_env_vars j a settings prompt
    ++ (validator_env_vars a.spec.liveness_probe
        ++ (build_settings_env_vars settings
            ++ (build_memory_env_vars memory ++ tool_env_vars j a.spec.tools)))
