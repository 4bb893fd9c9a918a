-- ===== src/Operator/Events.antt =====
-- internal/controller/arkevent_controller.go: the firing of an event.
pub mod Cron
pub mod Fire
pub mod Trigger
pub mod Reconcile
pub mod Watches
use agentops_operator.Prelude.{ℕ, String, Option, List, Bool}
use agentops_operator.Api.Meta.{Message, Result}
use agentops_operator.Api.Flow.{Flow}
use agentops_operator.Operator.Reconcile.{Get}

-- FireContext; `Body` is the decoded JSON body of a webhook request.
pub record FireContext (Body : Type 0) : Type 0 where
  pub name : String
  pub fired_at : String
  pub output : String
  pub body : Option Body
  pub stream_key : String

-- What surrounds the reconciler of events: the template engine, the cron parser, the API server, the
-- clock's formats, and a source of random tokens. Times count from Go's zero time, which is 0.
pub record Surroundings : Type 1 where
  pub Body : Type 0
  pub Template : Type 0
  pub parse_template : String → Result Template
  pub execute_template : Template → FireContext Body → Result String
  pub parse_cron : String → Result (ℕ → ℕ)
  pub rfc3339 : ℕ → String
  pub compact_time : ℕ → String
  pub get_flow : String → Get {0} Flow
  pub list_flows : Result (List Flow)
  pub set_owner : Flow → Option Message
  pub create_flow : Flow → Option Message
  pub secret_exists : String → Get {0} Unit
  pub random_token : Result String
  pub create_secret : String → String → Option Message
  pub now : ℕ
