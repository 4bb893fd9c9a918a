-- ===== src/Operator/Memories/Connection.antt =====
-- What the acceptance of a memory means for the agents that use it.
use agentops_operator.Prelude.{
  String, Option, none, some, List, ◌∷◌, ◌==◌, ◌≡◌, ◌≢◌, ◌↔◌, sym, ap, false, true, inl, inr, refl,
  ◌∙◌, arith, eq_iff, Option-cases, name_cases,
}
use agentops_operator.Api.Settings.{ArkMemory, RedisMemoryConfig, VectorStoreMemoryConfig}
use agentops_operator.Operator.Agents.Env.{
  literal, secret_key, EnvVar, build_memory_env_vars, backend_env_vars, build_redis_memory_env_vars,
  build_vector_store_memory_env_vars, optional_number, optional_secret,
}
use agentops_operator.Operator.Agents.Env.Backend.{env_value}
use agentops_operator.Operator.Memories.{validate_memory, validate_redis, validate_vector_store}

abbrev redis_url : String
redis_url = "AGENT_MEMORY_REDIS_URL"

abbrev endpoint_name : String
endpoint_name = "AGENT_MEMORY_VECTOR_STORE_ENDPOINT"

redis_value :
    (r : RedisMemoryConfig)
    → env_value redis_url (build_redis_memory_env_vars (some r))
      ≡ some (secret_key r.secret_ref "REDIS_URL")
unfolding build_redis_memory_env_vars optional_number
redis_value r = ground arith

endpoint_value :
    (v : VectorStoreMemoryConfig)
    → env_value endpoint_name (build_vector_store_memory_env_vars (some v))
      ≡ some (literal v.endpoint)
unfolding build_vector_store_memory_env_vars optional_number optional_secret
endpoint_value v = elim (Option-cases v.secret_ref) [
  | inl e ↦ rw (e, build_vector_store_memory_env_vars, optional_secret) (ground arith)
  | inr (s, e) ↦ rw (e, build_vector_store_memory_env_vars, optional_secret) (ground arith)
]

-- An earlier variable of another name does not matter.
env_value-other :
    (name : String) (v : EnvVar) (vs : List EnvVar)
    → (v.name == name) ≡ false
    → env_value name (v ∷ vs) ≡ env_value name vs
env_value-other name v vs other = elim (Option-cases (env_value name vs)) [
  | inl e ↦ rw (e, other) refl
  | inr (x, e) ↦ rw e refl
]

-- The container of an agent with the memory has the variables that reach its backend: the URL from a
-- secret that is named, or an endpoint.
abbrev pub IsReached : ArkMemory → Type 0
IsReached m =
    (m.spec.backend ≡ "redis"
      → (secret : String) × (env_value "AGENT_MEMORY_REDIS_URL" (build_memory_env_vars (some m))
          ≡ some (secret_key secret "REDIS_URL"))
        × (secret ≢ ""))
    × (m.spec.backend ≡ "vector-store"
        → (endpoint : String) × (env_value "AGENT_MEMORY_VECTOR_STORE_ENDPOINT"
              (build_memory_env_vars (some m))
            ≡ some (literal endpoint))
          × (endpoint ≢ ""))

abbrev HasUrl : Option RedisMemoryConfig → Type 0
HasUrl r =
    (secret : String) × (env_value redis_url (build_redis_memory_env_vars r)
      ≡ some (secret_key secret "REDIS_URL"))
    × (secret ≢ "")

abbrev HasEndpoint : Option VectorStoreMemoryConfig → Type 0
HasEndpoint v =
    (endpoint : String) × (env_value endpoint_name (build_vector_store_memory_env_vars v)
      ≡ some (literal endpoint))
    × (endpoint ≢ "")

redis_iff : (r : Option RedisMemoryConfig) → (validate_redis r ≡ none) ↔ HasUrl r
unfolding validate_redis build_redis_memory_env_vars
redis_iff none = (λ e. absurd (cc), λ (secret, e, given). absurd (cc))
redis_iff (some r) = (
  λ e. (r.secret_ref, redis_value r, λ empty. ground (arith, (eq_iff r.secret_ref "").1 empty)),
  λ (secret, e, given).
      let same : r.secret_ref ≡ secret = cc (redis_value r) in
      ground (arith, eq_iff r.secret_ref ""),
)

vector_iff : (v : Option VectorStoreMemoryConfig) → (validate_vector_store v ≡ none) ↔ HasEndpoint v
unfolding validate_vector_store build_vector_store_memory_env_vars
vector_iff none = (λ e. absurd (cc), λ (endpoint, e, given). absurd (cc))
vector_iff (some v) = (
  λ e. (v.endpoint, endpoint_value v, λ empty. ground (arith, (eq_iff v.endpoint "").1 empty)),
  λ (endpoint, e, given).
      let same : v.endpoint ≡ endpoint = cc (endpoint_value v) in
      ground (arith, eq_iff v.endpoint ""),
)

module _ (m : ArkMemory) where
  abbrev backend_var : EnvVar
  backend_var = record { name = "AGENT_MEMORY_BACKEND"; value = literal m.spec.backend }

  redis_env :
      m.spec.backend ≡ "redis"
      → env_value redis_url (build_memory_env_vars (some m))
        ≡ env_value redis_url (build_redis_memory_env_vars m.spec.redis)
  unfolding build_memory_env_vars backend_env_vars
  redis_env e =
      let chosen : (m.spec.backend == "redis") ≡ true = ap (λ b. b == "redis") e in
      let vars : backend_env_vars m ≡ build_redis_memory_env_vars m.spec.redis =
        rw (chosen, backend_env_vars) refl in
      env_value-other redis_url backend_var (backend_env_vars m) refl
      ∙ ap (env_value redis_url) vars

  vector_env :
      m.spec.backend ≡ "vector-store"
      → env_value endpoint_name (build_memory_env_vars (some m))
        ≡ env_value endpoint_name (build_vector_store_memory_env_vars m.spec.vector_store)
  unfolding build_memory_env_vars backend_env_vars
  vector_env e =
      let other : (m.spec.backend == "redis") ≡ false = ap (λ b. b == "redis") e in
      let chosen : (m.spec.backend == "vector-store") ≡ true = ap (λ b. b == "vector-store") e in
      let vars : backend_env_vars m ≡ build_vector_store_memory_env_vars m.spec.vector_store =
        rw (other, chosen, backend_env_vars) refl in
      env_value-other endpoint_name backend_var (backend_env_vars m) refl
      ∙ ap (env_value endpoint_name) vars

  on_redis : m.spec.backend ≡ "redis" → validate_memory m.spec ≡ validate_redis m.spec.redis
  unfolding validate_memory
  on_redis e =
      let chosen : (m.spec.backend == "redis") ≡ true = ap (λ b. b == "redis") e in
      rw (chosen, validate_memory) refl

  on_vector :
      m.spec.backend ≡ "vector-store"
      → validate_memory m.spec ≡ validate_vector_store m.spec.vector_store
  unfolding validate_memory
  on_vector e =
      let other : (m.spec.backend == "redis") ≡ false = ap (λ b. b == "redis") e in
      let chosen : (m.spec.backend == "vector-store") ≡ true = ap (λ b. b == "vector-store") e in
      rw (other, chosen, validate_memory) refl

  not_both : m.spec.backend ≡ "redis" → m.spec.backend ≡ "vector-store" → ⊥
  not_both r v =
      let differ : (m.spec.backend == "redis") ≡ false = ap (λ b. b == "redis") v in
      let agree : (m.spec.backend == "redis") ≡ true = ap (λ b. b == "redis") r in cc

-- A memory is accepted exactly when the containers of the agents that use it can reach its backend.
pub validate_memory-IsReached : (m : ArkMemory) → (validate_memory m.spec ≡ none) ↔ IsReached m
unfolding validate_memory
validate_memory-IsReached m = elim (name_cases m.spec.backend "redis") [
  | inl (r, b) ↦ (
    λ e. (
      λ _.
          let (secret, found_url, given) = (redis_iff m.spec.redis).0 (sym (on_redis m r) ∙ e) in
          (secret, redis_env m r ∙ found_url, given),
      λ v. absurd (not_both m r v),
    ),
    λ reached.
        let (secret, found_url, given) = reached.0 r in
        on_redis m r ∙ (redis_iff m.spec.redis).1 (secret, sym (redis_env m r) ∙ found_url, given),
  )
  | inr (nr, b) ↦ elim (name_cases m.spec.backend "vector-store") [
    | inl (v, c) ↦ (
      λ e. (
        λ r. absurd (nr r),
        λ _.
            let (endpoint, found_one, given) =
              (vector_iff m.spec.vector_store).0 (sym (on_vector m v) ∙ e) in
            (endpoint, vector_env m v ∙ found_one, given),
      ),
      λ reached.
          let (endpoint, found_one, given) = reached.1 v in
          on_vector m v
          ∙ (vector_iff m.spec.vector_store).1 (endpoint, sym (vector_env m v) ∙ found_one, given),
    )
    | inr (nv, c) ↦
        (λ e. (λ r. absurd (nr r), λ v. absurd (nv v)), λ reached. rw (b, c, validate_memory) refl)
  ]
]
