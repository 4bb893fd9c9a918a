-- ===== src/Runtime/Agent.antt =====
-- runtime/agent/main.go: the start of an agent, and what it does with the tasks that it polls.
pub mod Pushes
pub mod Messages
pub mod Delivery
pub mod Journey
use mathlib.Core.List as List
use agentops_operator.Prelude.{
  ℕ, String, Bool, true, false, Option, none, some, List, [], ◌∷◌, ◌==◌, if◌then◌else◌,
}
use agentops_operator.Prelude.Maps.{lookup}
use agentops_operator.Api.Meta.{Message, Result, ok, err}
use agentops_operator.Runtime.Config.{Config, Decoder, load}
use agentops_operator.Runtime.Tools.{Tool, ToolCodec, Network, new_manager}
use agentops_operator.Runtime.Queue.{
  Task, Queue, TokenCounts, Command, ack, nack, publish_chunk, done_chunk, new_queue,
}
use agentops_operator.Runtime.Provider.{TaskResult, new_provider}
use agentops_operator.Runtime.Runner.{Runner, stream_key_of}

-- The pushes of the chunks that the provider handed on.
unfoldable pub publish_all : String → List String → List Command
publish_all key [] = []
publish_all key (c ∷ cs) = List.◌++◌ (publish_chunk key c) (publish_all key cs)

unfoldable pub end_stream : String → List Command
end_stream key = if key == "" then [] else done_chunk key

-- The error of a task as the text that Nack gets; `text_of_error` is Error().
unfoldable pub finish : Queue → (Message → String) → Task → TaskResult → List Command
finish q text_of_error task result = elim result.error [
  | some e ↦ nack q task (text_of_error e)
  | none ↦ ack q task.id result.text result.usage
]

-- The goroutine of one task: the commands that it sends for the result of RunTask and its chunks. The
-- chunks are none if there is no stream key.
unfoldable pub handle_task :
    Queue → (Message → String) → Task → TaskResult → List String → List Command
unfolding publish_all end_stream finish
handle_task q text_of_error task result chunks =
    let key = stream_key_of task in
    List.◌++◌ (publish_all key chunks)
      (List.◌++◌ (end_stream key) (finish q text_of_error task result))

-- The loop over the polls up to the shutdown: the tasks that are started, in order.
unfoldable pub started_tasks : List (Result (Option Task)) → List Task
started_tasks [] = []
started_tasks (ok (some task) ∷ polls) = task ∷ started_tasks polls
started_tasks (ok none ∷ polls) = started_tasks polls
started_tasks (err e ∷ polls) = started_tasks polls

-- An agent that has started: its provider, and the runner with its queue.
pub record Started (Factory : Type 0) : Type 0 where
  pub provider : Factory
  pub runner : Runner
  pub queue : Queue

module _ {S : Type 0} (codec : ToolCodec) (net : Network S) where
  -- Tools of servers that could not be reached are left out, all of them.
  unfoldable pub connect : Config → S → List Tool × S
  connect cfg s =
      let (tools, s') = new_manager codec net cfg.mcp_servers [] s in
      elim tools [ ok ts ↦ (ts, s') | err e ↦ ([], s') ]

  unfoldable pub start :
      {Factory : Type 0}
      → Decoder
      → (String → String)
      → List (String × Factory)
      → S
      → Result (Started Factory) × S
  unfolding connect
  start d env registry s = elim (load d env) [
    | err e ↦ (err e, s)
    | ok cfg ↦
        let (tools, s') = connect cfg s in
        elim (new_provider registry cfg.provider) [
          | err e ↦ (err e, s')
          | ok provider ↦
              let q = new_queue (env "POD_NAME") cfg.max_retries in
              (
                ok (record {
                  provider = provider;
                  runner = record { config = cfg; mcp_tools = tools; queue = some q };
                  queue = q;
                }),
                s',
              )
        ]
  ]
