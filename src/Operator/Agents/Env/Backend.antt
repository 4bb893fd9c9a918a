-- ===== src/Operator/Agents/Env/Backend.antt =====
-- The memory backend that an agent's container sees.
use agentops_operator.Prelude.{
  String, Option, none, some, List, [], ◌∷◌, ◌++◌, ◌==◌, if◌then◌else◌, ◌≡◌, refl, ◌∙◌, arith,
}
use agentops_operator.Api.Agent.{ArkAgent, ArkonisProbe, WebhookToolSpec}
use agentops_operator.Api.Settings.{
  ArkSettings, ArkMemory, RedisMemoryConfig, VectorStoreMemoryConfig,
}
use agentops_operator.Operator.Agents.Env.{
  EnvValue, literal, EnvVar, Marshal, optional_text, optional_number, optional_secret,
  build_settings_env_vars, build_redis_memory_env_vars, build_vector_store_memory_env_vars,
  backend_env_vars, build_memory_env_vars, validator_env_vars, tool_env_vars, base_env_vars,
  build_env_vars,
}

-- The value of a variable in a container: of two with one name the later one counts.
abbrev pub env_value : String → List EnvVar → Option EnvValue
env_value name [] = none
env_value name (v ∷ vs) = elim (env_value name vs) [
  | some later ↦ some later
  | none ↦ if v.name == name then some v.value else none
]

abbrev pub or_earlier : Option EnvValue → Option EnvValue → Option EnvValue
or_earlier none earlier = earlier
or_earlier (some v) earlier = some v

pub env_value-append :
    (name : String) (xs ys : List EnvVar)
    → env_value name (xs ++ ys) ≡ or_earlier (env_value name ys) (env_value name xs)
env_value-append name [] ys = ground arith
env_value-append name (x ∷ xs) ys = ground (arith, env_value-append name xs ys)

abbrev backend : String
backend = "AGENT_MEMORY_BACKEND"

-- The backend that a memory sets, or else the settings.
abbrev pub expected_backend : Option ArkMemory → Option ArkSettings → Option EnvValue
expected_backend (some m) settings = some (literal m.spec.backend)
expected_backend none none = none
expected_backend none (some s) =
    if s.spec.memory_backend == "" then none else some (literal s.spec.memory_backend)

base_lem :
    (j : Marshal) (a : ArkAgent) (settings : Option ArkSettings) (prompt : String)
    → env_value backend (base_env_vars j a settings prompt) ≡ none
unfolding base_env_vars
base_lem j a settings prompt = refl

validator_lem : (p : Option ArkonisProbe) → env_value backend (validator_env_vars p) ≡ none
unfolding validator_env_vars optional_text
validator_lem none = refl
validator_lem (some p) = ground arith

tools_lem :
    (j : Marshal) (ts : List WebhookToolSpec) → env_value backend (tool_env_vars j ts) ≡ none
unfolding tool_env_vars
tools_lem j [] = refl
tools_lem j (t ∷ ts) = refl

settings_lem :
    (settings : Option ArkSettings)
    → env_value backend (build_settings_env_vars settings) ≡ expected_backend none settings
unfolding build_settings_env_vars optional_text
settings_lem none = refl
settings_lem (some s) = ground arith

redis_lem :
    (m : Option RedisMemoryConfig) → env_value backend (build_redis_memory_env_vars m) ≡ none
unfolding build_redis_memory_env_vars optional_number
redis_lem none = refl
redis_lem (some m) = ground arith

vector_store_lem :
    (v : Option VectorStoreMemoryConfig)
    → env_value backend (build_vector_store_memory_env_vars v) ≡ none
unfolding build_vector_store_memory_env_vars optional_number optional_secret
vector_store_lem none = refl
vector_store_lem (some v) = ground arith

memory_lem :
    (memory : Option ArkMemory)
    → env_value backend (build_memory_env_vars memory) ≡ expected_backend memory none
unfolding build_memory_env_vars backend_env_vars
memory_lem none = refl
memory_lem (some m) = ground (arith, redis_lem m.spec.redis, vector_store_lem m.spec.vector_store)

combine :
    (memory : Option ArkMemory) (settings : Option ArkSettings)
    → or_earlier
        (or_earlier
          (or_earlier
            (or_earlier none (expected_backend memory none))
            (expected_backend none settings))
          none)
        none
      ≡ expected_backend memory settings
combine (some m) settings = refl
combine none none = refl
combine none (some s) = ground arith

-- The container of an agent sees the backend of its memory, if it has one, and otherwise the one of
-- its settings, if they name one.
pub build_env_vars-backend :
    (j : Marshal) (a : ArkAgent) (settings : Option ArkSettings) (memory : Option ArkMemory)
    (prompt : String)
    → env_value "AGENT_MEMORY_BACKEND" (build_env_vars j a settings memory prompt)
      ≡ expected_backend memory settings
unfolding build_env_vars
build_env_vars-backend j a settings memory prompt =
    let base = base_env_vars j a settings prompt in
    let probe = validator_env_vars a.spec.liveness_probe in
    let from_settings = build_settings_env_vars settings in
    let from_memory = build_memory_env_vars memory in
    let tools = tool_env_vars j a.spec.tools in
    env_value-append backend base (probe ++ (from_settings ++ (from_memory ++ tools)))
    ∙ rw
        (
          env_value-append backend probe (from_settings ++ (from_memory ++ tools)),
          env_value-append backend from_settings (from_memory ++ tools),
          env_value-append backend from_memory tools,
          base_lem j a settings prompt,
          validator_lem a.spec.liveness_probe,
          settings_lem settings,
          memory_lem memory,
          tools_lem j a.spec.tools,
        )
        (combine memory settings)
