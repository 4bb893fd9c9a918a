-- ===== src/Tests/Journey.antt =====
-- The journey of a task, on the two steps of the samples.
use agentops_operator.Prelude.{
  String, true, none, some, List, [], ◌∷◌, ◌≡◌, ◌≢◌, refl, arith, eq_iff,
}
use agentops_operator.Api.Meta.{Message, ok}
use agentops_operator.Api.Flow.{StepPhase, StepStatus}
use agentops_operator.Flow.Status.{status_of}
use agentops_operator.Operator.Redis.{Value, reply}
use agentops_operator.Operator.Results.{is_waiting, collect_results}
use agentops_operator.Prelude.Decimal.{atoi}
use agentops_operator.Prelude.Int64.{lt64}
use agentops_operator.Prelude.Maps.{lookup}
use agentops_operator.Runtime.Queue.{
  Task, Command, xack, xadd, task_of_message, new_queue, nack, attempt_of, or_zero, text_or_none,
}
use agentops_operator.Runtime.Provider.{TaskResult}
use agentops_operator.Runtime.Runner.{stream_key_of}
use agentops_operator.Runtime.Agent.{handle_task}
use agentops_operator.Runtime.Agent.Journey.{handle_task-collect_results, collect_results-nack}
use agentops_operator.Runtime.Agent.Messages.{posted, results_of, after_task}
use agentops_operator.Tests.Samples.{status}
use agentops_operator.Tests.Operator.{waiting_pair, under, pair_names, pair_tasks}

abbrev summary : TaskResult
summary = record {
  text = "in short";
  usage = record { input_tokens = 40; output_tokens = 8 };
  error = none;
}

abbrev numbered : List Command → String
numbered later = "7-0"

abbrev error_text : Message → String
error_text m = "error"

waits : is_waiting (under "1-0" (status "a" StepPhase.running)) ≡ true
unfolding is_waiting
waits = refl

handle_task-collect_results_example :
    (task : Task) × (task ≡ task_of_message (posted "1-0" "sum up" "s1"))
    × (task.prompt ≡ "sum up")
    × (stream_key_of task ≡ "s1")
    × (out : List StepStatus) × (collect_results
          (λ msg. 9)
          ("a" ∷ "b" ∷ [])
          (reply (
            results_of numbered
              (handle_task (new_queue "pod-1" 3) error_text task summary ("in short" ∷ []))))
          waiting_pair
        ≡ ok out)
    × (status_of "a" out
        ≡ some (after_task 9 summary none (under "1-0" (status "a" StepPhase.running))))
    × ((i : String) (other : StepStatus)
        → i ≢ "a"
        → status_of i waiting_pair ≡ some other
        → status_of i out ≡ some other)
unfolding status_of
handle_task-collect_results_example =
    handle_task-collect_results "pod-1" 3 error_text numbered 9 ("a" ∷ "b" ∷ []) waiting_pair "a"
      (under "1-0" (status "a" StepPhase.running)) "sum up" "s1" summary ("in short" ∷ [])
      pair_names pair_tasks refl waits (omega arith) (omega arith)

-- A task that has failed once, and the message under which it is added again.
abbrev failed_task : Task
failed_task = record { id = "1-0"; prompt = "sum up"; meta = ("stream_key", "s1") ∷ [] }

no_prompt : lookup "prompt" failed_task.meta ≡ none
unfolding lookup
no_prompt = refl

first_attempt : lt64 (attempt_of failed_task) 3 ≡ true
unfolding attempt_of lookup atoi or_zero text_or_none
first_attempt = refl

new_id : ◌≢◌ {A = String} "2-0" "1-0"
new_id h = ground (arith, (eq_iff "2-0" "1-0").1 h)

collect_results-nack_example :
    (values : List (String × Value)) × (nack (new_queue "pod-1" 3) failed_task "timeout"
      ≡ xack "agent-tasks" "agent-workers" "1-0" ∷ xadd "agent-tasks" values ∷ [])
    × ((task_of_message (record { id = "2-0"; values = values })).prompt ≡ "sum up")
    × (out : List StepStatus) × (collect_results
          (λ msg. 9)
          ("a" ∷ "b" ∷ [])
          (reply (
            results_of numbered (
              handle_task
                (new_queue "pod-1" 3)
                error_text
                (task_of_message (record { id = "2-0"; values = values }))
                summary
                ("in short" ∷ []))))
          waiting_pair
        ≡ ok out)
    × (status_of "a" out ≡ some (under "1-0" (status "a" StepPhase.running)))
unfolding status_of
collect_results-nack_example =
    collect_results-nack "pod-1" 3 error_text numbered 9 ("a" ∷ "b" ∷ []) waiting_pair "a"
      (under "1-0" (status "a" StepPhase.running)) failed_task "timeout" "2-0" summary
      ("in short" ∷ []) pair_names pair_tasks refl refl new_id no_prompt first_attempt
