-- ===== src/Runtime/Agent/Journey.antt =====
-- The journey of a task: from the stream to which the operator adds it, through an agent, back to the
-- status of the step that waits for it.

use agentops_operator.Prelude.{
  ℕ, ◌<◌, String, true, none, some, List, [], ◌∷◌, if◌then◌else◌, ◌≡◌, ◌≢◌, refl, sym, ap, ◌∙◌,
}
use agentops_operator.Prelude.Int64.{two64, lt64}
use agentops_operator.Prelude.Maps.{lookup}
use agentops_operator.Api.Meta.{Message, ok}
use agentops_operator.Api.Flow.{StepStatus}
use agentops_operator.Flow.Status.{status_of}
use agentops_operator.Operator.Redis.{Value, reply}
use agentops_operator.Operator.Results.{is_waiting, collect_results}
use agentops_operator.Operator.Results.Delivery.{
  HasAllNames, HasDistinctTasks, messages_for, record_all, collect_results-delivery,
}
use agentops_operator.Runtime.Queue.{
  attempt_of, Task, Command, xack, xadd, task_of_message, new_queue, nack,
}
use agentops_operator.Runtime.Queue.Retries.{nack-retry}
use agentops_operator.Runtime.Provider.{TaskResult}
use agentops_operator.Runtime.Runner.{stream_key_of}
use agentops_operator.Runtime.Agent.{handle_task}
use agentops_operator.Runtime.Agent.Messages.{
  posted, results_of, task_of_message-posted, results_of-handle_task, answers, after_task,
  record_all-answers, unanswered,
}

-- The journey of a task: the operator has added it for a step, which waits for its id, with a prompt and
-- a stream key; an agent reads it, finds the id, the prompt and the key, and handles it. When the
-- operator then collects the results that the agent's commands have added, the step is Succeeded with
-- the text, whatever it is, and the tokens of the agent if the task has not failed, and as it was if it
-- has, and every other step is as it was. All steps have distinct tasks, and the tokens are 64-bit
-- patterns. The text need not parse as JSON, also where the step has an output schema.
pub handle_task-collect_results :
    (pod : String) (max_retries : ℕ) (text_of_error : Message → String)
    (ids : List Command → String) (now : ℕ) (names : List String) (sts : List StepStatus)
    (j : String) (st : StepStatus) (prompt key : String) (result : TaskResult)
    (chunks : List String)
    → HasAllNames names sts
    → HasDistinctTasks sts
    → status_of j sts ≡ some st
    → is_waiting st ≡ true
    → result.usage.input_tokens < two64
    → result.usage.output_tokens < two64
    → (task : Task) × (task ≡ task_of_message (posted st.task_id prompt key))
      × (task.prompt ≡ prompt)
      × (stream_key_of task ≡ key)
      × (out : List StepStatus) × (collect_results
            (λ msg. now)
            names
            (reply (
              results_of ids
                (handle_task (new_queue pod max_retries) text_of_error task result chunks)))
            sts
          ≡ ok out)
      × (status_of j out ≡ some (after_task now result result.error st))
      × ((i : String) (other : StepStatus)
          → i ≢ j
          → status_of i sts ≡ some other
          → status_of i out ≡ some other)
handle_task-collect_results pod max_retries text_of_error ids now names sts j st prompt key result
      chunks all distinct there waits small_in small_out =
    let task = task_of_message (posted st.task_id prompt key) in
    let (id_eq, prompt_eq, key_eq) = task_of_message-posted st.task_id prompt key in
    let arrived = results_of-handle_task ids pod max_retries text_of_error task result chunks in
    let given = answers (ids []) task result result.error in
    let (out, e, each) = collect_results-delivery (λ msg. now) names given sts all distinct in
    (
      task,
      refl,
      prompt_eq,
      key_eq,
      out,
      ap (λ ms. collect_results (λ msg. now) names (reply ms) sts) arrived ∙ e,
      each j st there
          ∙ ap some (
              ap (λ b. if b then record_all (λ msg. now) (messages_for st.task_id given) st else st)
                waits
              ∙ record_all-answers now (ids []) task result result.error st id_eq small_in
                  small_out),
      λ i other apart at.
          each i other at
          ∙ ap some (
              unanswered now (ids []) task result result.error other
                (λ w same. apart (distinct i j other st at there w waits (same ∙ id_eq)))),
    )

-- The result of a retried task is lost: Nack acknowledges a failed task below the limit of retries and
-- adds it again, with its prompt, as a message to which Redis gives another id. When an agent handles
-- that message, whatever the result is, and the operator collects the results that it adds, the step
-- that waits for the id of the first message is as it was. All steps have distinct tasks, and the meta
-- of the task holds no prompt.
pub collect_results-nack :
    (pod : String) (max_retries : ℕ) (text_of_error : Message → String)
    (ids : List Command → String) (now : ℕ) (names : List String) (sts : List StepStatus)
    (j : String) (st : StepStatus) (task : Task) (reason id : String) (result : TaskResult)
    (chunks : List String)
    → HasAllNames names sts
    → HasDistinctTasks sts
    → status_of j sts ≡ some st
    → st.task_id ≡ task.id
    → id ≢ task.id
    → lookup "prompt" task.meta ≡ none
    → lt64 (attempt_of task) max_retries ≡ true
    → (values : List (String × Value)) × (nack (new_queue pod max_retries) task reason
        ≡ xack "agent-tasks" "agent-workers" task.id ∷ xadd "agent-tasks" values ∷ [])
      × ((task_of_message (record { id = id; values = values })).prompt ≡ task.prompt)
      × (out : List StepStatus) × (collect_results
            (λ msg. now)
            names
            (reply (
              results_of ids (
                handle_task
                  (new_queue pod max_retries)
                  text_of_error
                  (task_of_message (record { id = id; values = values }))
                  result
                  chunks)))
            sts
          ≡ ok out)
      × (status_of j out ≡ some st)
unfolding new_queue task_of_message
collect_results-nack pod max_retries text_of_error ids now names sts j st task reason id result
      chunks all distinct there waited fresh no_prompt below =
    let (values, sent, same_prompt, _) =
      nack-retry (new_queue pod max_retries) task reason id no_prompt below in
    let retry = task_of_message (record { id = id; values = values }) in
    let arrived = results_of-handle_task ids pod max_retries text_of_error retry result chunks in
    let given = answers (ids []) retry result result.error in
    let (out, e, each) = collect_results-delivery (λ msg. now) names given sts all distinct in
    (
      values,
      sent,
      same_prompt,
      out,
      ap (λ ms. collect_results (λ msg. now) names (reply ms) sts) arrived ∙ e,
      each j st there
          ∙ ap some (
              unanswered now (ids []) retry result result.error st
                (λ w same. fresh (sym same ∙ waited))),
    )
