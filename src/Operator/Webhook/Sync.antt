-- ===== src/Operator/Webhook/Sync.antt =====
-- internal/controller/trigger_webhook_server.go: handleSync and waitForFlow. The reads of the flow are a
-- list, one for each tick of the poll until the deadline; where the list ends the context is done.
use agentops_operator.Prelude.{
  ℕ, ◌-◌, ◌/◌, String, Bool, true, false, ◌&&◌, Option, none, some, List, [], ◌∷◌, ◌==◌,
  if◌then◌else◌, ltb,
}
use agentops_operator.Prelude.Int64.{two64, two63}
use agentops_operator.Api.Meta.{
  Message, format, plain, end, wrap, Condition, ConditionStatus, condition_false, Result, ok, err,
}
use agentops_operator.Api.Flow.{TokenUsage, FlowPhase, FlowStatus, Flow}

-- syncResult
pub record SyncResult : Type 0 where
  pub status : String
  pub output : String
  pub error : Option Message
  pub duration_ms : ℕ
  pub token_usage : Option TokenUsage

pub data Waited : Type 0 where
  finished : SyncResult → Waited
  wait_error : Message → (context_done : Bool) → Waited

-- A read of the flow, and whether the context has ended when it returns.
pub record Poll : Type 0 where
  pub flow : Result Flow
  pub context_done : Bool

is_false : ConditionStatus → Bool
is_false condition_false = true
is_false _ = false

unfoldable pub failure_message : List Condition → Message
unfolding is_false
failure_message [] = plain "flow failed"
failure_message (c ∷ cs) =
    let rest = failure_message cs in
    if c.type == "Ready" && is_false c.status then c.message else rest

unfoldable pub sync_result : FlowStatus → FlowPhase → Option SyncResult
unfolding failure_message
sync_result st FlowPhase.succeeded = some (record {
  status = "succeeded";
  output = st.output;
  error = none;
  duration_ms = 0;
  token_usage = st.total_token_usage;
})
sync_result st FlowPhase.failed = some (record {
  status = "failed";
  output = "";
  error = some (failure_message st.conditions);
  duration_ms = 0;
  token_usage = none;
})
sync_result st _ = none

unfoldable pub wait_for_flow : Message → List Poll → Waited
unfolding sync_result
wait_for_flow done [] = wait_error done true
wait_for_flow done (p ∷ ps) =
    let rest = wait_for_flow done ps in
    elim p.flow [
      | err e ↦ wait_error e p.context_done
      | ok f ↦ elim (sync_result f.status f.status.phase) [ some r ↦ finished r | none ↦ rest ]
    ]

negated : ℕ → ℕ
negated n = if ltb 0 n then two64 - n else 0

-- t.Sub(start).Milliseconds(), as a bit pattern; durations saturate.
unfoldable pub milliseconds_between : ℕ → ℕ → ℕ
unfolding negated
milliseconds_between start t =
    if ltb t start
    then negated ((if ltb two63 (start - t) then two63 else start - t) / 1000000)
    else (if ltb (t - start) two63 then t - start else two63 - 1) / 1000000

pub data SyncBody : Type 0 where
  error_text : Message → SyncBody
  timed_out_after : (timeout duration_ms : ℕ) → SyncBody
  json_result : SyncResult → SyncBody

pub record SyncResponse : Type 0 where
  pub status : ℕ
  pub body : SyncBody

unfoldable pub sync_response : (timeout duration_ms : ℕ) → Waited → SyncResponse
sync_response timeout duration (wait_error e true) = record {
  status = 504;
  body = timed_out_after timeout duration;
}
sync_response timeout duration (wait_error e false) = record {
  status = 500;
  body = error_text (format "waiting for flow: %v" (wrap e end));
}
sync_response timeout duration (finished r) = record {
  status = if r.status == "failed" then 500 else 200;
  body = json_result (record r { duration_ms = duration });
}

-- `polls` reads the flow of a name, `start` and `stop` are the times before and after the wait.
unfoldable pub handle_sync :
    (timeout start stop : ℕ) → Message → (Flow → List Poll) → List Flow → SyncResponse
unfolding wait_for_flow sync_response milliseconds_between
handle_sync timeout start stop done polls (f ∷ []) =
    sync_response timeout (milliseconds_between start stop) (wait_for_flow done (polls f))
handle_sync timeout start stop done polls _ = record {
  status = 400;
  body = error_text (plain "sync mode requires exactly one target flow");
}
