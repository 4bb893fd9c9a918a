-- ===== src/Api/Service.antt =====
-- api/v1alpha1/arkservice_types.go
use agentops_operator.Prelude.{ℕ, String, List}
use agentops_operator.Api.Meta.{Condition, ObjectMeta}

-- A protocol is its text, "A2A" or "HTTP".
pub record ServicePort : Type 0 where
  pub protocol : String
  pub port : ℕ

pub record ServiceSelector : Type 0 where
  pub ark_agent : String

pub record ServiceRouting : Type 0 where
  pub strategy : String

pub record ServiceSpec : Type 0 where
  pub selector : ServiceSelector
  pub routing : ServiceRouting
  pub ports : List ServicePort

pub record ServiceStatus : Type 0 where
  pub ready_replicas : ℕ
  pub observed_generation : ℕ
  pub conditions : List Condition

pub record ArkService : Type 0 where
  pub meta : ObjectMeta
  pub spec : ServiceSpec
  pub status : ServiceStatus
