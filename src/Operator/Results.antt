-- ===== src/Operator/Results.antt =====
-- internal/controller/arkflow_controller.go: collectResults.
pub mod Delivery
pub mod Timed
use agentops_operator.Prelude.{
  ℕ, String, Bool, true, false, ◌&&◌, ◌||◌, not, Option, none, some, List, [], ◌∷◌, ◌==◌,
  if◌then◌else◌,
}
use agentops_operator.Prelude.Maps.{lookup}
use agentops_operator.Prelude.Int64.{add64, lt64}
use agentops_operator.Api.Meta.{format, end, str, Result, ok, err}
use agentops_operator.Api.Flow.{StepPhase, StepStatus}
use agentops_operator.Flow.Status.{status_of, modify, is_running}
use agentops_operator.Operator.Redis.{
  StreamMessage, Reply, reply, nil_reply, failure, text_of, to_int64,
}

abbrev pub task_id_of : StreamMessage → String
task_id_of msg = text_of (lookup "task_id" msg.values)

unfoldable pub is_waiting : StepStatus → Bool
is_waiting st = is_running st.phase && not (st.task_id == "")

-- One key of the loop that fills `waiting`, a map from task ids to names here.
unfoldable pub add_waiting :
    String → Option StepStatus → List (String × String) → List (String × String)
unfolding is_waiting
add_waiting name none waiting = waiting
add_waiting name (some st) waiting = if is_waiting st then (st.task_id, name) ∷ waiting else waiting

-- `waiting`, with the names of `statusByName` in the reverse of the order in which the map is ranged
-- over: the entry of a task id that was set last stands first.
unfoldable pub waiting_of : List String → List StepStatus → List (String × String)
unfolding add_waiting
waiting_of [] sts = []
waiting_of (n ∷ ns) sts = add_waiting n (status_of n sts) (waiting_of ns sts)

-- `st, ok := waiting[taskID]`
unfoldable pub find_waiting : String → List (String × String) → Option String
find_waiting id [] = none
find_waiting id ((i, name) ∷ rest) = if i == id then some name else find_waiting id rest

-- What a message does to the status that waits for it.
unfoldable pub record_result : (StreamMessage → ℕ) → StreamMessage → StepStatus → StepStatus
record_result clock msg st =
    let in_tok = to_int64 (lookup "input_tokens" msg.values) in
    let out_tok = to_int64 (lookup "output_tokens" msg.values) in
    record st {
      phase = StepPhase.succeeded;
      output = text_of (lookup "result" msg.values);
      completion_time = some (clock msg);
      token_usage =
          if lt64 0 in_tok || lt64 0 out_tok
          then some (record {
            input_tokens = in_tok;
            output_tokens = out_tok;
            total_tokens = add64 in_tok out_tok;
          })
          else st.token_usage;
    }

unfoldable pub deliver :
    (StreamMessage → ℕ) → StreamMessage → Option String → List StepStatus → List StepStatus
deliver clock msg none sts = sts
deliver clock msg (some name) sts = modify name (record_result clock msg) sts

-- The loop over the messages.
unfoldable pub deliver_all :
    (StreamMessage → ℕ)
    → List (String × String)
    → List StreamMessage
    → List StepStatus
    → List StepStatus
unfolding deliver
deliver_all clock waiting [] sts = sts
deliver_all clock waiting (msg ∷ msgs) sts =
    deliver_all clock waiting msgs (deliver clock msg (find_waiting (task_id_of msg) waiting) sts)

-- XRANGE over the whole results stream answers `range`.
unfoldable pub collect_results :
    (StreamMessage → ℕ)
    → List String
    → Reply (List StreamMessage)
    → List StepStatus
    → Result (List StepStatus)
collect_results clock names range sts = elim (waiting_of names sts) [
  | [] ↦ ok sts
  | w ∷ ws ↦ elim range [
    | reply msgs ↦ ok (deliver_all clock (w ∷ ws) msgs sts)
    | nil_reply ↦ ok sts
    | failure e ↦ err (format "XRANGE %s: %w" (str "agent-tasks-results" (str e end)))
  ]
]
