-- ===== src/Runtime/Agent/Messages.antt =====
-- The messages of a task: the one from which an agent reads it, and those that it adds to the results,
-- with what they do to the status of a step.
use mathlib.Core.List as List
use agentops_operator.Prelude.{
  ℕ, ◌<◌, String, true, ◌||◌, Option, none, some, List, [], ◌∷◌, ◌==◌, if◌then◌else◌, ◌≡◌, ◌≢◌,
  refl, sym, ap, ◌∙◌, inl, inr, Bool-cases, Option-cases, eq_iff, name_cases,
}
use agentops_operator.Prelude.Int64.{two64, add64, lt64}
use agentops_operator.Prelude.Maps.{lookup}
use agentops_operator.Api.Meta.{Message}
use agentops_operator.Api.Flow.{StepPhase, StepStatus}
use agentops_operator.Operator.Redis.{Value, text, StreamMessage, text_of}
use agentops_operator.Operator.Results.{is_waiting, task_id_of}
use agentops_operator.Operator.Results.Delivery.{messages_for, record_all}
use agentops_operator.Operator.Submit.{task_values}
use agentops_operator.Runtime.Queue.{
  attempt_of, Task, Command, xack, xadd, rpush, expire, task_of_message, new_queue, ack, nack,
  publish_chunk, done_chunk, text_or_none, meta_of,
}
use agentops_operator.Runtime.Queue.Answers.{
  stored, answer, answer-task_id, messages_for-other, ack-record_result,
}
use agentops_operator.Runtime.Provider.{TaskResult}
use agentops_operator.Runtime.Runner.{stream_key_of}
use agentops_operator.Runtime.Agent.{publish_all, end_stream, finish, handle_task}

abbrev texts : List (String × String) → List (String × Value)
texts [] = []
texts ((k, v) ∷ rest) = (k, text v) ∷ texts rest

-- The message that submitTask adds to the stream.
abbrev pub posted : String → String → String → StreamMessage
posted id prompt key = record { id = id; values = texts (task_values prompt key) }

-- The messages that commands add to the results stream; Redis gives each an id.
abbrev pub results_of : (List Command → String) → List Command → List StreamMessage
results_of ids [] = []
results_of ids (xadd s vs ∷ cs) =
    if s == "agent-tasks-results"
    then record { id = ids cs; values = stored vs } ∷ results_of ids cs
    else results_of ids cs
results_of ids (xack s g i ∷ cs) = results_of ids cs
results_of ids (rpush k v ∷ cs) = results_of ids cs
results_of ids (expire k n ∷ cs) = results_of ids cs

-- The agent reads the task that was posted.
pub task_of_message-posted :
    (id prompt key : String)
    → ((task_of_message (posted id prompt key)).id ≡ id)
      × ((task_of_message (posted id prompt key)).prompt ≡ prompt)
      × (stream_key_of (task_of_message (posted id prompt key)) ≡ key)
unfolding task_of_message task_values stream_key_of lookup text_or_none text_of meta_of
task_of_message-posted id prompt key = elim (name_cases key "") [
  | inl (empty, b) ↦ rw (b, task_values) (refl, refl, sym empty)
  | inr (_, b) ↦ rw (b, task_values) (refl, refl, refl)
]

results_of-publish :
    (ids : List Command → String) (key : String) (chunks : List String) (rest : List Command)
    → results_of ids (List.◌++◌ (publish_all key chunks) rest) ≡ results_of ids rest
unfolding publish_all publish_chunk
results_of-publish ids key [] rest = refl
results_of-publish ids key (c ∷ cs) rest = results_of-publish ids key cs rest

results_of-end :
    (ids : List Command → String) (key : String) (rest : List Command)
    → results_of ids (List.◌++◌ (end_stream key) rest) ≡ results_of ids rest
unfolding end_stream done_chunk
results_of-end ids key rest = elim (Bool-cases (key == "")) [
  | inl b ↦ rw (b, end_stream) refl
  | inr b ↦ rw (b, end_stream) refl
]

-- Of the commands for a task, the results stream gets an answer if the task has not failed.
abbrev pub answers : String → Task → TaskResult → Option Message → List StreamMessage
answers message_id task result none = answer message_id task.id result.text result.usage ∷ []
answers message_id task result (some e) = []

results_of-finish :
    (ids : List Command → String) (pod : String) (max_retries : ℕ)
    (text_of_error : Message → String) (task : Task) (result : TaskResult)
    → results_of ids (finish (new_queue pod max_retries) text_of_error task result)
      ≡ answers (ids []) task result result.error
unfolding finish new_queue ack nack
results_of-finish ids pod max_retries text_of_error task result = elim (Option-cases result.error) [
  | inl e ↦ rw (e, finish) refl
  | inr (m, e) ↦ elim (Bool-cases (lt64 (attempt_of task) max_retries)) [
    | inl more ↦ rw (e, finish) (rw (more, nack) refl)
    | inr none_left ↦ rw (e, finish) (rw (none_left, nack) refl)
  ]
]

pub results_of-handle_task :
    (ids : List Command → String) (pod : String) (max_retries : ℕ)
    (text_of_error : Message → String) (task : Task) (result : TaskResult) (chunks : List String)
    → results_of ids (handle_task (new_queue pod max_retries) text_of_error task result chunks)
      ≡ answers (ids []) task result result.error
unfolding handle_task
results_of-handle_task ids pod max_retries text_of_error task result chunks =
    let key = stream_key_of task in
    results_of-publish ids key chunks _
    ∙ results_of-end ids key _
    ∙ results_of-finish ids pod max_retries text_of_error task result

-- What becomes of the step that waits for a task, with the time at which the operator reads the result.
abbrev pub after_task : ℕ → TaskResult → Option Message → StepStatus → StepStatus
after_task now result (some e) st = st
after_task now result none st = record st {
  phase = StepPhase.succeeded;
  output = result.text;
  completion_time = some now;
  token_usage =
      if lt64 0 result.usage.input_tokens || lt64 0 result.usage.output_tokens
      then some (record {
        input_tokens = result.usage.input_tokens;
        output_tokens = result.usage.output_tokens;
        total_tokens = add64 result.usage.input_tokens result.usage.output_tokens;
      })
      else st.token_usage;
}

pub record_all-answers :
    (now : ℕ) (message_id : String) (task : Task) (result : TaskResult) (failed : Option Message)
    (st : StepStatus)
    → task.id ≡ st.task_id
    → result.usage.input_tokens < two64
    → result.usage.output_tokens < two64
    → record_all (λ msg. now) (messages_for st.task_id (answers message_id task result failed)) st
      ≡ after_task now result failed st
record_all-answers now message_id task result (some e) st same small_in small_out = refl
record_all-answers now message_id task result none st same small_in small_out =
    let (id_eq, recorded) =
      ack-record_result (λ msg. now) message_id task.id result.text result.usage st small_in
        small_out in
    let ours : (task_id_of (answer message_id task.id result.text result.usage) == st.task_id)
        ≡ true =
      (eq_iff _ st.task_id).1 (id_eq ∙ same) in
    rw ours recorded

-- A step that waits for another task gets nothing.
pub unanswered :
    (now : ℕ) (message_id : String) (task : Task) (result : TaskResult) (failed : Option Message)
    (other : StepStatus)
    → (is_waiting other ≡ true → other.task_id ≢ task.id)
    → (if is_waiting other
        then record_all
            (λ msg. now)
            (messages_for other.task_id (answers message_id task result failed))
            other
        else other)
      ≡ other
unanswered now message_id task result (some e) other apart = elim (Bool-cases (is_waiting other)) [
  | inl b ↦ rw b refl
  | inr b ↦ rw b refl
]
unanswered now message_id task result none other apart = elim (Bool-cases (is_waiting other)) [
  | inr b ↦ rw b refl
  | inl b ↦
      let given = answer message_id task.id result.text result.usage in
      let none_left : messages_for other.task_id (given ∷ []) ≡ [] =
        messages_for-other other.task_id given (λ same.
          apart b (sym same ∙ answer-task_id message_id task.id result.text result.usage)) in
      rw b (ap (λ ms. record_all (λ msg. now) ms other) none_left)
]
