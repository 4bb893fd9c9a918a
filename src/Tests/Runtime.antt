-- ===== src/Tests/Runtime.antt =====
-- The task queue on small tasks.
use agentops_operator.Prelude.{
  ℕ, ◌+◌, String, true, none, some, List, [], ◌∷◌, ◌≡◌, refl, arith, suc,
}
use agentops_operator.Prelude.Decimal.{atoi}
use agentops_operator.Prelude.Int64.{add64, lt64}
use agentops_operator.Prelude.Maps.{lookup}
use agentops_operator.Operator.Redis.{Value}
use agentops_operator.Runtime.Queue.{
  Task, Queue, xack, xadd, task_of_message, attempt_of, nack, or_zero, text_or_none,
}
use agentops_operator.Runtime.Queue.Retries.{executions, nack-executions, nack-retry}

abbrev fresh_task : Task
fresh_task = record { id = "1-0"; prompt = "sum up"; meta = ("stream_key", "s1") ∷ [] }

abbrev numbered : ℕ → String
numbered n = "2-0"

no_attempt : lookup "attempt" fresh_task.meta ≡ none
unfolding lookup
no_attempt = refl

no_prompt : lookup "prompt" fresh_task.meta ≡ none
unfolding lookup
no_prompt = refl

first_attempt : lt64 (attempt_of fresh_task) 3 ≡ true
unfolding attempt_of lookup atoi or_zero text_or_none
first_attempt = refl

nack-executions_example : executions "pod-1" 3 "timeout" numbered (suc 3) fresh_task ≡ some (3 + 1)
nack-executions_example =
    nack-executions "pod-1" 3 "timeout" numbered fresh_task no_attempt (omega arith)

abbrev queue : Queue
queue = record {
  stream = "agent-tasks";
  group = "agent-workers";
  consumer = "pod-1";
  max_retries = 3;
}

nack-retry_example :
    (values : List (String × Value)) × (nack queue fresh_task "timeout"
      ≡ xack "agent-tasks" "agent-workers" "1-0" ∷ xadd "agent-tasks" values ∷ [])
    × ((task_of_message (record { id = "2-0"; values = values })).prompt ≡ "sum up")
    × (attempt_of (task_of_message (record { id = "2-0"; values = values }))
        ≡ add64 (attempt_of fresh_task) 1)
nack-retry_example = nack-retry queue fresh_task "timeout" "2-0" no_prompt first_attempt
