-- ===== src/Api/Event.antt =====
-- api/v1alpha1/arkevent_types.go
use agentops_operator.Prelude.{ℕ, String, Bool, Option, List}
use agentops_operator.Api.Meta.{Condition, ObjectMeta}
use agentops_operator.Api.Flow.{FlowPhase}

-- The three source types, and any other text.
pub data TriggerSourceType : Type 0 where
  cron webhook pipeline_output : TriggerSourceType
  other_source : String → TriggerSourceType

-- `unspecified` is any other text, the empty one included.
pub data ConcurrencyPolicy : Type 0 where
  allow forbid unspecified : ConcurrencyPolicy

pub record PipelineOutputSource : Type 0 where
  pub name : String
  pub on_phase : FlowPhase

pub record EventSource : Type 0 where
  pub type : TriggerSourceType
  pub cron_expr : String
  pub pipeline_output_ref : Option PipelineOutputSource

pub record EventTarget : Type 0 where
  pub pipeline : String
  pub input : List (String × String)

pub record EventSpec : Type 0 where
  pub source : EventSource
  pub targets : List EventTarget
  pub concurrency_policy : ConcurrencyPolicy
  pub suspended : Bool

pub record EventStatus : Type 0 where
  pub last_fired_at : Option ℕ
  pub next_fire_at : Option ℕ
  pub fired_count : ℕ
  pub webhook_url : String
  pub observed_generation : ℕ
  pub conditions : List Condition

pub record ArkEvent : Type 0 where
  pub meta : ObjectMeta
  pub spec : EventSpec
  pub status : EventStatus
