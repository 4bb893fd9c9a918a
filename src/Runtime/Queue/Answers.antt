-- ===== src/Runtime/Queue/Answers.antt =====
-- What the operator reads of the results that agents acknowledge.
use agentops_operator.Prelude.{
  ℕ, ◌<◌, String, ◌||◌, some, List, [], ◌∷◌, if◌then◌else◌, ◌≡◌, ◌≢◌, refl, inl, inr, name_cases,
}
use agentops_operator.Prelude.Decimal.{itoa}
use agentops_operator.Prelude.Int64.{two64, add64, lt64}
use agentops_operator.Prelude.Maps.{lookup}
use agentops_operator.Api.Flow.{StepPhase, StepStatus}
use agentops_operator.Operator.Redis.{Value, int64, text, StreamMessage, text_of}
use agentops_operator.Operator.Redis.Wire.{to_int64-itoa}
use agentops_operator.Operator.Results.{task_id_of, record_result}
use agentops_operator.Operator.Results.Delivery.{messages_for}
use agentops_operator.Runtime.Queue.{TokenCounts, result_values}

-- Redis keeps texts: a number is written in decimal.
abbrev pub stored : List (String × Value) → List (String × Value)
stored [] = []
stored ((k, int64 n) ∷ rest) = (k, text (itoa n)) ∷ stored rest
stored ((k, v) ∷ rest) = (k, v) ∷ stored rest

-- The message that Ack leaves in the results stream.
abbrev pub answer : String → String → String → TokenCounts → StreamMessage
answer message_id id result usage = record {
  id = message_id;
  values = stored (result_values id result usage);
}

pub answer-task_id :
    (message_id id result : String) (usage : TokenCounts)
    → task_id_of (answer message_id id result usage) ≡ id
unfolding result_values lookup text_of
answer-task_id message_id id result usage = refl

-- A result that an agent acknowledges is what the operator records for the step: it carries the id of
-- the task, the step is Succeeded with the output, and the token counts are those of the agent,
-- unless both are zero or negative.
pub ack-record_result :
    (clock : StreamMessage → ℕ) (message_id id result : String) (usage : TokenCounts)
    (st : StepStatus)
    → usage.input_tokens < two64
    → usage.output_tokens < two64
    → (task_id_of (answer message_id id result usage) ≡ id)
      × (record_result clock (answer message_id id result usage) st ≡ record st {
        phase = StepPhase.succeeded;
        output = result;
        completion_time = some (clock (answer message_id id result usage));
        token_usage =
            if lt64 0 usage.input_tokens || lt64 0 usage.output_tokens
            then some (record {
              input_tokens = usage.input_tokens;
              output_tokens = usage.output_tokens;
              total_tokens = add64 usage.input_tokens usage.output_tokens;
            })
            else st.token_usage;
      })
unfolding result_values lookup text_of record_result
ack-record_result clock message_id id result usage st small_in small_out = (
  refl,
  rw (to_int64-itoa usage.input_tokens small_in, to_int64-itoa usage.output_tokens small_out) refl,
)

pub messages_for-other :
    (id : String) (m : StreamMessage) → task_id_of m ≢ id → messages_for id (m ∷ []) ≡ []
messages_for-other id m other = elim (name_cases (task_id_of m) id) [
  | inl (same, _) ↦ absurd (other same)
  | inr (_, b) ↦ rw b refl
]
