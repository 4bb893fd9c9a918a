-- ===== src/Runtime/Queue.antt =====
-- internal/agent/queue/queue.go. An operation is the list of the Redis commands that it sends; the
-- errors of these commands are ignored by the code.
pub mod Retries
pub mod Answers
use Prim.Native.String.{◌++◌}
use agentops_operator.Prelude.{
  ℕ, zero, suc, String, Bool, true, false, Option, none, some, List, [], ◌∷◌, ◌==◌, if◌then◌else◌,
}
use agentops_operator.Prelude.Decimal.{atoi, itoa}
use agentops_operator.Prelude.Int64.{add64, lt64}
use agentops_operator.Prelude.Maps.{lookup, set_value}
use agentops_operator.Api.Meta.{Message, format, plain, end, str, wrap, Result, ok, err}
use agentops_operator.Operator.Redis.{
  Value, int64, text, other_value, StreamMessage, Reply, reply, nil_reply, failure, text_of,
}

pub record Task : Type 0 where
  pub id : String
  pub prompt : String
  pub meta : List (String × String)

-- Queue, without its connection
pub record Queue : Type 0 where
  pub stream : String
  pub group : String
  pub consumer : String
  pub max_retries : ℕ

-- queue.TokenUsage
pub record TokenCounts : Type 0 where
  pub input_tokens : ℕ
  pub output_tokens : ℕ

pub data Command : Type 0 where
  xack : (stream group id : String) → Command
  xadd : (stream : String) → List (String × Value) → Command
  rpush : (key chunk : String) → Command
  expire : (key : String) → (seconds : ℕ) → Command

-- The pairs of a message that Poll copies to the task's meta.
unfoldable pub meta_of : List (String × Value) → List (String × String)
meta_of [] = []
meta_of ((k, v) ∷ rest) =
    let others = meta_of rest in
    if k == "prompt" then others else elim v [ text s ↦ (k, s) ∷ others | _ ↦ others ]

unfoldable pub task_of_message : StreamMessage → Task
unfolding meta_of
task_of_message msg = record {
  id = msg.id;
  prompt = text_of (lookup "prompt" msg.values);
  meta = meta_of msg.values;
}

first_message : List StreamMessage → Option Task
unfolding task_of_message
first_message [] = none
first_message (msg ∷ msgs) = some (task_of_message msg)

-- Poll, on the reply to XREADGROUP: the messages of each stream that was read.
unfoldable pub poll : Reply (List (List StreamMessage)) → Result (Option Task)
unfolding first_message
poll nil_reply = ok none
poll (failure e) = err (plain e)
poll (reply []) = ok none
poll (reply (msgs ∷ more)) = ok (first_message msgs)

-- Submit, on the reply to XADD
unfoldable pub submit_prompt : Queue → String → Command
submit_prompt q prompt = xadd q.stream (("prompt", text prompt) ∷ [])

unfoldable pub submitted : Queue → Result String → Result String
submitted q (ok id) = ok id
submitted q (err e) = err (format "XADD %s: %w" (str q.stream (wrap e end)))

unfoldable pub result_values : String → String → TokenCounts → List (String × Value)
result_values id result usage =
    ("task_id", text id)
    ∷ ("result", text result)
    ∷ ("input_tokens", int64 usage.input_tokens)
    ∷ ("output_tokens", int64 usage.output_tokens)
    ∷ []

unfoldable pub ack : Queue → String → String → TokenCounts → List Command
unfolding result_values
ack q id result usage =
    xack q.stream q.group id ∷ xadd (q.stream ++ "-results") (result_values id result usage) ∷ []

unfoldable pub or_zero : Option ℕ → ℕ
or_zero none = 0
or_zero (some n) = n

unfoldable pub text_or_none : Option String → String
text_or_none none = ""
text_or_none (some s) = s

-- `attempt` of Nack
unfoldable pub attempt_of : Task → ℕ
unfolding or_zero text_or_none
attempt_of task = or_zero (atoi (text_or_none (lookup "attempt" task.meta)))

-- `for k, v := range task.Meta`
unfoldable pub copy_meta : List (String × String) → List (String × Value) → List (String × Value)
copy_meta [] values = values
copy_meta ((k, v) ∷ rest) values =
    copy_meta rest (if k == "attempt" then values else set_value k (text v) values)

unfoldable pub retry_values : Task → List (String × Value)
unfolding copy_meta
retry_values task =
    copy_meta task.meta
      (("prompt", text task.prompt) ∷ ("attempt", text (itoa (add64 (attempt_of task) 1))) ∷ [])

unfoldable pub dead_values : Task → String → List (String × Value)
dead_values task reason =
    ("task_id", text task.id)
    ∷ ("prompt", text task.prompt)
    ∷ ("error", text reason)
    ∷ ("attempt", text (itoa (attempt_of task)))
    ∷ []

unfoldable pub nack : Queue → Task → String → List Command
nack q task reason =
    xack q.stream q.group task.id
    ∷ (if lt64 (attempt_of task) q.max_retries
        then xadd q.stream (retry_values task)
        else xadd (q.stream ++ "-dead") (dead_values task reason))
    ∷ []

unfoldable pub publish_chunk : String → String → List Command
publish_chunk key chunk = rpush key chunk ∷ []

unfoldable pub done_chunk : String → List Command
done_chunk key = rpush key "__EOF__" ∷ expire key 300 ∷ []

-- podName
unfoldable pub pod_name : String → String
pod_name env = if env == "" then "agent-local" else env

-- New
unfoldable pub new_queue : String → ℕ → Queue
unfolding pod_name
new_queue pod max_retries = record {
  stream = "agent-tasks";
  group = "agent-workers";
  consumer = pod_name pod;
  max_retries = max_retries;
}
