-- ===== src/Operator/Webhook/Sse.antt =====
-- internal/controller/trigger_webhook_server.go: the stream of server-sent events, handleSSE with
-- startTokenStream, drainTokens, emitStepEvents and emitFlowTerminal.
pub mod Tokens
pub mod Steps
pub mod Panics
use mathlib.Core.List as List
use agentops_operator.Prelude.{
  ℕ, zero, suc, String, Bool, true, false, Option, none, some, List, [], ◌∷◌, ◌==◌, if◌then◌else◌,
}
use agentops_operator.Prelude.Maps.{lookup, set_value}
use agentops_operator.Api.Meta.{Message, format, end, num, Result, ok, err}
use agentops_operator.Api.Flow.{TokenUsage, StepPhase, StepStatus, FlowPhase, Flow}
use agentops_operator.Operator.Redis.{Reply, reply, nil_reply, failure}
use agentops_operator.Operator.Webhook.Sync.{failure_message, milliseconds_between}

-- sseMsg, by its event
pub data SseEvent : Type 0 where
  token : String → SseEvent
  step_started : (step : String) → SseEvent
  step_completed : (step output : String) → (duration_ms : ℕ) → Option TokenUsage → SseEvent
  step_failed : (step : String) → SseEvent
  flow_completed : (output : String) → (duration_ms : ℕ) → Option TokenUsage → SseEvent
  flow_failed : Message → (duration_ms : ℕ) → SseEvent
  stream_error : Message → SseEvent

-- The goroutine of startTokenStream, on the replies to BLPOP until the context ends: the tokens that it
-- sends to the channel before it closes it.
unfoldable pub token_stream : List (Reply (List String)) → List String
token_stream [] = []
token_stream (nil_reply ∷ rs) = token_stream rs
token_stream (failure e ∷ rs) = []
token_stream (reply (k ∷ v ∷ more) ∷ rs) =
    let rest = token_stream rs in if v == "__EOF__" then [] else v ∷ rest
token_stream (reply _ ∷ rs) = token_stream rs

-- Without a key or without Redis the channel is closed at once.
unfoldable pub start_token_stream : Bool → String → List (Reply (List String)) → List String
unfolding token_stream
start_token_stream has_redis key replies =
    if key == "" then [] else if has_redis then token_stream replies else []

abbrev same_phase : StepPhase → StepPhase → Bool
same_phase StepPhase.pending StepPhase.pending = true
same_phase StepPhase.running StepPhase.running = true
same_phase StepPhase.succeeded StepPhase.succeeded = true
same_phase StepPhase.failed StepPhase.failed = true
same_phase StepPhase.skipped StepPhase.skipped = true
same_phase _ _ = false

-- stepPhases[step.Name] == step.Phase, where a missing key reads as the empty phase.
unfoldable pub is_known : Option StepPhase → StepPhase → Bool
is_known none phase = false
is_known (some before) phase = same_phase before phase

-- The event of a step's new phase. `none` is the panic of a nil CompletionTime or StartTime.
unfoldable pub step_event : StepStatus → StepPhase → Option (List SseEvent)
step_event st StepPhase.running = some (step_started st.name ∷ [])
step_event st StepPhase.succeeded = elim st.start_time [
  | none ↦ none
  | some start ↦ elim st.completion_time [
    | none ↦ none
    | some stop ↦
        some
          (step_completed st.name st.output (milliseconds_between start stop) st.token_usage ∷ [])
  ]
]
step_event st StepPhase.failed = some (step_failed st.name ∷ [])
step_event st _ = some []

unfoldable pub prepend :
    List SseEvent
    → Option (List SseEvent × List (String × StepPhase))
    → Option (List SseEvent × List (String × StepPhase))
prepend es none = none
prepend es (some (fs, phases)) = some (List.◌++◌ es fs, phases)

-- emitStepEvents: the events, and the map of the phases seen; `none` is a panic.
unfoldable pub emit_step_events :
    List StepStatus → List (String × StepPhase) → Option (List SseEvent × List (String × StepPhase))
unfolding prepend
emit_step_events [] phases = some ([], phases)
emit_step_events (st ∷ sts) phases = elim (is_known (lookup st.name phases) st.phase) [
  | true ↦ emit_step_events sts phases
  | false ↦ elim (step_event st st.phase) [
    | none ↦ none
    | some es ↦ prepend es (emit_step_events sts (set_value st.name st.phase phases))
  ]
]

unfoldable pub token_events : List String → List SseEvent
token_events [] = []
token_events (t ∷ ts) = token t ∷ token_events ts

-- How a stream ends: with the event of a flow that completed or failed, with an error, or by a panic.
pub data Close : Type 0 where
  completed failed broken panicked : Close

-- emitFlowTerminal; `pending` are the tokens that are not yet read, and `none` is that the flow goes
-- on.
unfoldable pub emit_flow_terminal :
    ℕ → Flow → FlowPhase → List String → Option (List SseEvent × Close)
unfolding token_events
emit_flow_terminal duration f FlowPhase.succeeded pending = some (
  List.◌++◌ (token_events pending)
      (flow_completed f.status.output duration f.status.total_token_usage ∷ []),
  completed,
)
emit_flow_terminal duration f FlowPhase.failed pending =
    some (flow_failed (failure_message f.status.conditions) duration ∷ [], Close.failed)
emit_flow_terminal duration f _ pending = none

-- drainTokens: the first `n` tokens are in the channel.
unfoldable pub drain_tokens : ℕ → List String → List SseEvent × List String
drain_tokens zero ts = ([], ts)
drain_tokens (suc n) [] = ([], [])
drain_tokens (suc n) (t ∷ ts) = let (es, rest) = drain_tokens n ts in (token t ∷ es, rest)

-- What the select of a round takes: the end of the context, the channel, or a tick, with the read of
-- the flow and the time since the start.
pub data Choice : Type 0 where
  expired : Choice
  received : Choice
  ticked : Result Flow → (duration_ms : ℕ) → Choice

pub record Round : Type 0 where
  pub ready : ℕ
  pub choice : Choice

-- The events of a stream and its end.
pub record Streamed : Type 0 where
  pub events : List SseEvent
  pub close : Close

abbrev pub after_events : List SseEvent → Streamed → Streamed
after_events es s = record { events = List.◌++◌ es s.events; close = s.close }

abbrev pub timed_out_stream : ℕ → Streamed
timed_out_stream timeout = record {
  events = stream_error (format "timed out after %s" (num timeout end)) ∷ [];
  close = broken;
}

-- A tick whose steps were emitted.
unfoldable pub finish_tick :
    (List String → List (String × StepPhase) → Streamed)
    → ℕ
    → Flow
    → List String
    → List SseEvent × List (String × StepPhase)
    → Streamed
unfolding emit_flow_terminal
finish_tick next duration f ts (es, phases) =
    elim (emit_flow_terminal duration f f.status.phase ts) [
      | some (fs, close) ↦ record { events = List.◌++◌ es fs; close = close }
      | none ↦ after_events es (next ts phases)
    ]

-- One round; `next` are the later rounds.
unfoldable pub run_choice :
    (List String → List (String × StepPhase) → Streamed)
    → ℕ
    → Choice
    → List String
    → List (String × StepPhase)
    → Streamed
unfolding finish_tick
run_choice next timeout expired ts phases = timed_out_stream timeout
run_choice next timeout received [] phases = next [] phases
run_choice next timeout received (t ∷ ts) phases = after_events (token t ∷ []) (next ts phases)
run_choice next timeout (ticked (err e) d) ts phases = record {
  events = stream_error e ∷ [];
  close = broken;
}
run_choice next timeout (ticked (ok f) d) ts phases =
    elim (emit_step_events f.status.steps phases) [
      | none ↦ record { events = []; close = panicked }
      | some emitted ↦ finish_tick next d f ts emitted
    ]

-- The loop of handleSSE over its rounds. The context has a deadline: where the rounds end, it is done.
unfoldable pub sse_loop : ℕ → List Round → List String → List (String × StepPhase) → Streamed
unfolding run_choice
sse_loop timeout [] ts phases = timed_out_stream timeout
sse_loop timeout (r ∷ rs) ts phases =
    let (es, rest) = drain_tokens r.ready ts in
    after_events es (run_choice (sse_loop timeout rs) timeout r.choice rest phases)

pub data SseResponse : Type 0 where
  refuse_sse : (status : ℕ) → String → SseResponse
  event_stream : Streamed → SseResponse

-- `flushes` is whether the response can be flushed; `rounds` depends on the flow that is read.
unfoldable pub handle_sse : Bool → ℕ → (Flow → List Round) → List String → List Flow → SseResponse
unfolding sse_loop
handle_sse flushes timeout rounds ts (f ∷ []) =
    if flushes
    then event_stream (sse_loop timeout (rounds f) ts [])
    else refuse_sse 500 "streaming not supported"
handle_sse flushes timeout rounds ts _ = refuse_sse 400 "sse mode requires exactly one target flow"
