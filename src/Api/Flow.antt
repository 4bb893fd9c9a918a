-- ===== src/Api/Flow.antt =====
-- api/v1alpha1/arkflow_types.go. Integers are the bit patterns of Prelude/Int64, times are numbers
-- of nanoseconds, a pointer that may be nil is an `Option`, a map is a list of pairs.
use agentops_operator.Prelude.{ℕ, String, Option, List}
use agentops_operator.Api.Meta.{Message, Condition, ObjectMeta}

pub record TokenUsage : Type 0 where
  pub input_tokens : ℕ
  pub output_tokens : ℕ
  pub total_tokens : ℕ

pub data StepPhase : Type 0 where
  pending running succeeded failed skipped : StepPhase

pub record LoopSpec : Type 0 where
  pub condition : String
  pub max_iterations : ℕ

-- `unset` is the empty string, the phase of a flow that was never reconciled.
pub data FlowPhase : Type 0 where
  unset pending running succeeded failed : FlowPhase

pub record FlowStep : Type 0 where
  pub name : String
  pub ark_agent : String
  pub inputs : List (String × String)
  pub depends_on : List String
  pub output_schema : String
  pub if_expr : String
  pub loop : Option LoopSpec

pub record FlowSpec : Type 0 where
  pub steps : List FlowStep
  pub input : List (String × String)
  pub output : String
  pub timeout_seconds : ℕ
  pub max_tokens : ℕ

pub record StepStatus : Type 0 where
  pub name : String
  pub phase : StepPhase
  pub task_id : String
  pub output : String
  pub output_json : String
  pub start_time : Option ℕ
  pub completion_time : Option ℕ
  pub message : Message
  pub iterations : ℕ
  pub token_usage : Option TokenUsage

pub record FlowStatus : Type 0 where
  pub phase : FlowPhase
  pub steps : List StepStatus
  pub start_time : Option ℕ
  pub completion_time : Option ℕ
  pub output : String
  pub observed_generation : ℕ
  pub total_token_usage : Option TokenUsage
  pub conditions : List Condition

pub record Flow : Type 0 where
  pub meta : ObjectMeta
  pub spec : FlowSpec
  pub status : FlowStatus
