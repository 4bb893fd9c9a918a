-- ===== src/Api/Agent.antt =====
-- api/v1alpha1/arkagent_types.go
use agentops_operator.Prelude.{ℕ, String, Option, List}
use agentops_operator.Api.Meta.{Condition, ObjectMeta}
use agentops_operator.Api.Flow.{TokenUsage}

pub record McpServerSpec : Type 0 where
  pub name : String
  pub url : String

pub record WebhookToolSpec : Type 0 where
  pub name : String
  pub description : String
  pub url : String
  pub method : String
  pub input_schema : String

-- corev1.ConfigMapKeySelector and corev1.SecretKeySelector, as far as the program reads them
pub record KeySelector : Type 0 where
  pub name : String
  pub key : String

pub record SystemPromptSource : Type 0 where
  pub config_map_key_ref : Option KeySelector
  pub secret_key_ref : Option KeySelector

pub record ArkonisLimits : Type 0 where
  pub max_tokens_per_call : ℕ
  pub max_concurrent_tasks : ℕ
  pub timeout_seconds : ℕ
  pub max_daily_tokens : ℕ

pub data ProbeType : Type 0 where
  semantic ping : ProbeType

pub record ArkonisProbe : Type 0 where
  pub type : ProbeType
  pub interval_seconds : ℕ
  pub validator_prompt : String

pub record AgentSpec : Type 0 where
  pub replicas : Option ℕ
  pub model : String
  pub system_prompt : String
  pub system_prompt_ref : Option SystemPromptSource
  pub mcp_servers : List McpServerSpec
  pub limits : Option ArkonisLimits
  pub liveness_probe : Option ArkonisProbe
  pub config_ref : Option String
  pub memory_ref : Option String
  pub tools : List WebhookToolSpec

pub record AgentStatus : Type 0 where
  pub ready_replicas : ℕ
  pub replicas : ℕ
  pub observed_generation : ℕ
  pub daily_token_usage : Option TokenUsage
  pub conditions : List Condition

pub record ArkAgent : Type 0 where
  pub meta : ObjectMeta
  pub spec : AgentSpec
  pub status : AgentStatus
