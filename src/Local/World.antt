-- ===== src/Local/World.antt =====
-- internal/ark/local/executor.go: what a run receives from its surroundings and reports to them.
use agentops_operator.Prelude.{ℕ, String, Bool, Option, List}
use agentops_operator.Api.Meta.{Message, Result}
use agentops_operator.Api.Flow.{StepPhase}
use agentops_operator.Runtime.Config.{Config, McpServerConfig}

-- queue.TokenUsage
pub record Usage : Type 0 where
  pub input_tokens : ℕ
  pub output_tokens : ℕ

-- What one call of runner.RunTask returns.
pub record Completion : Type 0 where
  pub output : String
  pub tokens : Usage
  pub error : Option Message

-- stepResult, with the time at which the loop receives it.
pub record StepResult : Type 0 where
  pub name : String
  pub output : String
  pub tokens : Usage
  pub elapsed : ℕ
  pub error : Option Message
  pub received : ℕ

pub record StepEvent : Type 0 where
  pub step : String
  pub phase : StepPhase
  pub output : String
  pub tokens : Usage
  pub elapsed : ℕ
  pub error : Option Message

-- What surrounds a run: the model providers, the tool servers, the clock, and the order in which the
-- parallel steps of a round (rounds are numbered downwards) hand in their results.
pub record World : Type 1 where
  pub Provider : Type 0
  pub provider : String → Result Provider
  pub no_mcp : Bool
  pub reachable : McpServerConfig → Bool
  pub run_task : ℕ → Provider → Config → List McpServerConfig → String → String → Completion
  pub now : ℕ → String → ℕ
  pub elapsed : ℕ → String → ℕ
  pub arrive : ℕ → List StepResult → List StepResult
