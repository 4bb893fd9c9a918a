-- ===== src/Api/Settings.antt =====
-- api/v1alpha1/arksettings_types.go and api/v1alpha1/arkmemory_types.go. A backend is its text.
use agentops_operator.Prelude.{ℕ, String, Option, List}
use agentops_operator.Api.Meta.{Condition, ObjectMeta}

pub record PromptFragments : Type 0 where
  pub persona : String
  pub output_rules : String

pub record SettingsSpec : Type 0 where
  pub temperature : String
  pub output_format : String
  pub memory_backend : String
  pub prompt_fragments : PromptFragments

pub record ResourceStatus : Type 0 where
  pub observed_generation : ℕ
  pub conditions : List Condition

pub record ArkSettings : Type 0 where
  pub meta : ObjectMeta
  pub spec : SettingsSpec
  pub status : ResourceStatus

-- The secret is the name of a LocalObjectReference.
pub record RedisMemoryConfig : Type 0 where
  pub secret_ref : String
  pub ttl_seconds : ℕ
  pub max_entries : ℕ

pub record VectorStoreMemoryConfig : Type 0 where
  pub provider : String
  pub endpoint : String
  pub collection : String
  pub secret_ref : Option String
  pub ttl_seconds : ℕ

pub record MemorySpec : Type 0 where
  pub backend : String
  pub redis : Option RedisMemoryConfig
  pub vector_store : Option VectorStoreMemoryConfig

pub record ArkMemory : Type 0 where
  pub meta : ObjectMeta
  pub spec : MemorySpec
  pub status : ResourceStatus
