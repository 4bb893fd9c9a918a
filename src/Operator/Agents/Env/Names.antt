-- ===== src/Operator/Agents/Env/Names.antt =====
-- The names of the variables that an agent's container gets, part by part.
use agentops_operator.Prelude.{
  ℕ, String, true, false, Option, none, some, List, [], ◌∷◌, ◌++◌, ◌≡◌, refl, sym, ◌∙◌, ap, inl,
  inr, All, name_cases, Bool-cases,
}
use agentops_operator.Prelude.Int64.{lt64}
use agentops_operator.Api.Agent.{ArkonisProbe, WebhookToolSpec}
use agentops_operator.Api.Settings.{
  ArkSettings, ArkMemory, RedisMemoryConfig, VectorStoreMemoryConfig,
}
use agentops_operator.Flow.Dag.{contains}
use agentops_operator.Operator.Agents.Env.{
  EnvVar, Marshal, optional_text, optional_number, optional_secret, build_settings_env_vars,
  build_redis_memory_env_vars, build_vector_store_memory_env_vars, backend_env_vars,
  build_memory_env_vars, validator_env_vars, tool_env_vars, is_semantic,
}
use agentops_operator.Operator.Agents.Env.Backend.{env_value}

-- Every variable has one of the names.
abbrev pub AreAmong : List String → List EnvVar → Type 0
AreAmong names vs = All (λ v. contains names v.name ≡ true) vs

-- A variable with no such name is not set.
pub env_value-absent :
    (name : String) (names : List String) (vs : List EnvVar)
    → contains names name ≡ false
    → AreAmong names vs
    → env_value name vs ≡ none
env_value-absent name names [] other h = refl
env_value-absent name names (v ∷ vs) other h = elim (name_cases v.name name) [
  | inl (same, b) ↦ absurd (differ (sym (h.0) ∙ ap (contains names) same ∙ other))
  | inr (apart, b) ↦ rw (env_value-absent name names vs other h.1, b) refl
]
  where
    differ : true ≡ false → ⊥
    differ e = cc

AreAmong-append :
    (names : List String) (xs ys : List EnvVar)
    → AreAmong names xs
    → AreAmong names ys
    → AreAmong names (xs ++ ys)
AreAmong-append names [] ys a b = b
AreAmong-append names (x ∷ xs) ys a b = (a.0, AreAmong-append names xs ys a.1 b)

optional_text-AreAmong :
    (names : List String) (name value : String)
    → contains names name ≡ true
    → AreAmong names (optional_text name value)
unfolding optional_text
optional_text-AreAmong names name value h = elim (name_cases value "") [
  | inl (e, b) ↦ rw (b, optional_text) tt
  | inr (e, b) ↦ rw (b, optional_text) (h, tt)
]

optional_number-AreAmong :
    (names : List String) (name : String) (n : ℕ)
    → contains names name ≡ true
    → AreAmong names (optional_number name n)
unfolding optional_number
optional_number-AreAmong names name n h = elim (Bool-cases (lt64 0 n)) [
  | inl b ↦ rw (b, optional_number) (h, tt)
  | inr b ↦ rw (b, optional_number) tt
]

abbrev pub validator_names : List String
validator_names = "AGENT_VALIDATOR_PROMPT" ∷ []

abbrev pub settings_names : List String
settings_names = "AGENT_TEMPERATURE" ∷ "AGENT_OUTPUT_FORMAT" ∷ "AGENT_MEMORY_BACKEND" ∷ []

abbrev pub memory_names : List String
memory_names =
    "AGENT_MEMORY_BACKEND" ∷ "AGENT_MEMORY_REDIS_URL" ∷ "AGENT_MEMORY_REDIS_TTL"
    ∷ "AGENT_MEMORY_REDIS_MAX_ENTRIES" ∷ "AGENT_MEMORY_VECTOR_STORE_PROVIDER"
    ∷ "AGENT_MEMORY_VECTOR_STORE_ENDPOINT" ∷ "AGENT_MEMORY_VECTOR_STORE_COLLECTION"
    ∷ "AGENT_MEMORY_VECTOR_STORE_API_KEY" ∷ "AGENT_MEMORY_VECTOR_STORE_TTL" ∷ []

abbrev pub tool_names : List String
tool_names = "AGENT_WEBHOOK_TOOLS" ∷ []

pub validator-AreAmong : (p : Option ArkonisProbe) → AreAmong validator_names (validator_env_vars p)
unfolding validator_env_vars contains
validator-AreAmong none = tt
validator-AreAmong (some p) = elim (Bool-cases (is_semantic p.type)) [
  | inl b ↦
      rw (b, validator_env_vars)
        (optional_text-AreAmong validator_names "AGENT_VALIDATOR_PROMPT" p.validator_prompt refl)
  | inr b ↦ rw (b, validator_env_vars) tt
]

pub settings-AreAmong :
    (settings : Option ArkSettings) → AreAmong settings_names (build_settings_env_vars settings)
unfolding build_settings_env_vars contains
settings-AreAmong none = tt
settings-AreAmong (some s) =
    AreAmong-append settings_names
      (optional_text "AGENT_TEMPERATURE" s.spec.temperature
        ++ optional_text "AGENT_OUTPUT_FORMAT" s.spec.output_format)
      _
      (AreAmong-append settings_names (optional_text "AGENT_TEMPERATURE" s.spec.temperature) _
        (optional_text-AreAmong settings_names "AGENT_TEMPERATURE" s.spec.temperature refl)
        (optional_text-AreAmong settings_names "AGENT_OUTPUT_FORMAT" s.spec.output_format refl))
      (optional_text-AreAmong settings_names "AGENT_MEMORY_BACKEND" s.spec.memory_backend refl)

redis-AreAmong :
    (m : Option RedisMemoryConfig) → AreAmong memory_names (build_redis_memory_env_vars m)
unfolding build_redis_memory_env_vars contains
redis-AreAmong none = tt
redis-AreAmong (some m) = (
  refl,
  AreAmong-append memory_names (optional_number "AGENT_MEMORY_REDIS_TTL" m.ttl_seconds) _
      (optional_number-AreAmong memory_names "AGENT_MEMORY_REDIS_TTL" m.ttl_seconds refl)
      (optional_number-AreAmong memory_names "AGENT_MEMORY_REDIS_MAX_ENTRIES" m.max_entries refl),
)

secret-AreAmong : (s : Option String) → AreAmong memory_names (optional_secret s)
unfolding optional_secret contains
secret-AreAmong none = tt
secret-AreAmong (some s) = (refl, tt)

vector-AreAmong :
    (v : Option VectorStoreMemoryConfig)
    → AreAmong memory_names (build_vector_store_memory_env_vars v)
unfolding build_vector_store_memory_env_vars contains
vector-AreAmong none = tt
vector-AreAmong (some v) = (
  refl,
  (
    refl,
    (
      refl,
      AreAmong-append memory_names (optional_secret v.secret_ref) _ (secret-AreAmong v.secret_ref) (
          optional_number-AreAmong memory_names "AGENT_MEMORY_VECTOR_STORE_TTL" v.ttl_seconds refl),
    ),
  ),
)

pub memory-AreAmong :
    (memory : Option ArkMemory) → AreAmong memory_names (build_memory_env_vars memory)
unfolding build_memory_env_vars backend_env_vars contains
memory-AreAmong none = tt
memory-AreAmong (some m) = (refl, backend)
  where
    backend : AreAmong memory_names (backend_env_vars m)
    backend = elim (name_cases m.spec.backend "redis") [
      | inl (e, b) ↦ rw (b, backend_env_vars) (redis-AreAmong m.spec.redis)
      | inr (e, b) ↦ elim (name_cases m.spec.backend "vector-store") [
        | inl (f, c) ↦ rw (b, c, backend_env_vars) (vector-AreAmong m.spec.vector_store)
        | inr (f, c) ↦ rw (b, c, backend_env_vars) tt
      ]
    ]

pub tools-AreAmong :
    (j : Marshal) (ts : List WebhookToolSpec) → AreAmong tool_names (tool_env_vars j ts)
unfolding tool_env_vars contains
tools-AreAmong j [] = tt
tools-AreAmong j (t ∷ ts) = (refl, tt)
