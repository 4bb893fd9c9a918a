-- ===== src/Tests/Provider.antt =====
-- Conversations with models that ask for a tool once, and the stream of one of their answers.
use mathlib.Core.List as List
use agentops_operator.Prelude.{
  ℕ, suc, String, true, false, none, List, [], ◌∷◌, ◌≡◌, ◌≢◌, ◌↔◌, refl, arith, eq_iff, eqb,
  if◌then◌else◌, inl, inr,
}
use agentops_operator.Prelude.Maps.{lookup}
use agentops_operator.Api.Meta.{Message, Result, ok}
use agentops_operator.Api.Flow.{FlowPhase}
use agentops_operator.Runtime.Config.{Config}
use agentops_operator.Runtime.Tools.{Tool}
use agentops_operator.Runtime.Queue.{
  Task, Queue, TokenCounts, Command, rpush, ack, done_chunk, publish_chunk, text_or_none,
}
use agentops_operator.Runtime.Provider.{TaskResult, returned, no_tokens}
use agentops_operator.Runtime.Provider.Conversation.{join}
use agentops_operator.Runtime.Provider.Conversation.Runs.{Explained}
use agentops_operator.Runtime.Provider.Anthropic as Anthropic
use agentops_operator.Runtime.Provider.Anthropic.Refines.{task_model, run_task-refines}
use agentops_operator.Runtime.Provider.OpenAi as OpenAi
use agentops_operator.Runtime.Provider.OpenAi.Refines as OpenAiRefines
use agentops_operator.Runtime.Provider.OpenAi.Refines.{run_task-Explained}
use agentops_operator.Runtime.Runner.{stream_key_of}
use agentops_operator.Runtime.Agent.{handle_task, publish_all, end_stream, finish}
use agentops_operator.Runtime.Agent.Delivery.{
  IsShared, handle_task-token_stream, handle_task-sse_loop,
}
use agentops_operator.Runtime.Agent.Pushes.{pushed, Merge, Reads}
use agentops_operator.Operator.Redis.{Reply, reply, nil_reply}
use agentops_operator.Operator.Webhook.Sse.{
  Round, ticked, completed, token_stream, sse_loop, run_choice, finish_tick, emit_step_events,
  emit_flow_terminal, token_events, drain_tokens,
}
use agentops_operator.Operator.Webhook.Sse.Tokens.{tokens_of}
use agentops_operator.Tests.Samples.{flow}

abbrev config : Config
config = record {
  provider = "";
  model = "claude-x";
  system_prompt = "be brief";
  mcp_servers = [];
  max_tokens_per_call = 8000;
  timeout_seconds = 120;
  task_queue_url = "redis:6379";
  validator_prompt = "";
  max_retries = 3;
  webhook_tools = [];
}

abbrev clock_tool : Tool
clock_tool = record {
  name = "clock";
  description = "tells the time";
  input_schema = "{}";
  server_url = "http://clock";
  original_name = "clock";
}

abbrev ten : TokenCounts
ten = record { input_tokens = 10; output_tokens = 5 }

-- The state counts what was asked. The model wants the clock first, and then answers.
abbrev reply_at : ℕ → Anthropic.Response
reply_at n =
    if eqb n 0
    then record {
      content = Anthropic.tool_use "t1" "clock" "{}" ∷ [];
      end_turn = false;
      usage = ten;
    }
    else record { content = Anthropic.text_block "noon" ∷ []; end_turn = true; usage = ten }

abbrev api : Anthropic.Api ℕ
api = record {
  Json = String;
  schema = λ raw. none;
  parse = λ raw. none;
  new_message = λ params n. (ok (reply_at n), suc n);
  events = λ params n. ([], none);
  after_events = λ params n. n;
}

abbrev call_clock : String → String → ℕ → Result String × ℕ
call_clock name input n = (ok "12:00", suc n)

abbrev noon : TaskResult
noon = record {
  text = "noon";
  usage = record { input_tokens = 20; output_tokens = 10 };
  error = none;
}

key_given : ◌≢◌ {A = String} "key" ""
key_given h = ground (arith, (eq_iff "key" "").1 h)

clock_given : true ≡ true → ◌≢◌ {A = List Tool} (clock_tool ∷ []) []
clock_given _ h = cc

run_task-refines_example :
    ((fuel : ℕ) × (Anthropic.run_task api call_clock fuel "key" config "what time is it"
          (clock_tool ∷ [])
          true
          0
        ≡ returned noon ("noon" ∷ []) 3))
    ↔ Explained
        (task_model api call_clock config (clock_tool ∷ []) true)
        call_clock
        true
        (Anthropic.user_message (Anthropic.text_part "what time is it" ∷ []) ∷ [])
        no_tokens
        0
        noon
        ("noon" ∷ [])
        3
run_task-refines_example =
    run_task-refines api call_clock config (clock_tool ∷ []) true "key" "what time is it" 0 noon
      ("noon" ∷ []) 3 key_given clock_given

asked :
    Anthropic.run_task api call_clock 2 "key" config "what time is it" (clock_tool ∷ []) true 0
    ≡ returned noon ("noon" ∷ []) 3
unfolding Anthropic.run_task
asked = refl

abbrev completion_at : ℕ → OpenAi.Completion
completion_at n =
    if eqb n 0
    then record {
      choices =
          record {
            content = "";
            tool_calls = record { id = "t1"; name = "clock"; arguments = "{}" } ∷ [];
            finish_reason = "tool_calls";
          }
          ∷ [];
      usage = ten;
    }
    else record {
      choices = record { content = "noon"; tool_calls = []; finish_reason = "stop" } ∷ [];
      usage = ten;
    }

abbrev chat_api : OpenAi.ChatApi ℕ
chat_api = record {
  Json = String;
  parse = λ raw. none;
  empty_object = "{}";
  new_completion = λ params n. (ok (completion_at n), suc n);
  chunks = λ params n. ([], none);
  after_chunks = λ params n. n;
}

run_task-Explained_example :
    ((fuel : ℕ) × (OpenAi.run_task chat_api call_clock fuel "key" config "what time is it"
          (clock_tool ∷ [])
          true
          0
        ≡ returned noon ("noon" ∷ []) 3))
    ↔ Explained
        (OpenAiRefines.task_model chat_api call_clock config (clock_tool ∷ []) true)
        call_clock
        true
        (OpenAi.system_message "be brief" ∷ OpenAi.user_message "what time is it" ∷ [])
        no_tokens
        0
        noon
        ("noon" ∷ [])
        3
run_task-Explained_example =
    run_task-Explained chat_api call_clock config (clock_tool ∷ []) true "key" "what time is it" 0
      noon ("noon" ∷ []) 3 key_given clock_given

asked_chat :
    OpenAi.run_task chat_api call_clock 2 "key" config "what time is it" (clock_tool ∷ []) true 0
    ≡ returned noon ("noon" ∷ []) 3
unfolding OpenAi.run_task
asked_chat = refl

abbrev task : Task
task = record { id = "1-0"; prompt = "what time is it"; meta = ("stream_key", "s1") ∷ [] }

abbrev agents : Queue
agents = record {
  stream = "agent-tasks";
  group = "agent-workers";
  consumer = "pod-1";
  max_retries = 3;
}

abbrev error_text : Message → String
error_text m = "error"

has_key : stream_key_of task ≢ ""
unfolding stream_key_of lookup text_or_none
has_key h = absurd (ground (arith, (eq_iff "s1" "").1 h))

noon_plain : ◌≢◌ {A = String} "noon" "__EOF__"
noon_plain h = ground (arith, (eq_iff "noon" "__EOF__").1 h)

abbrev sent : List Command
sent = handle_task agents error_text task noon ("noon" ∷ [])

-- Another step of the flow pushes a chunk under the key before the task does.
abbrev with_other : List Command
with_other = rpush "s1" "and" ∷ sent

Merge-self : {A : Type 0} (xs : List A) → Merge xs [] xs
Merge-self [] = (refl, refl)
Merge-self (x ∷ xs) = inl (xs, refl, Merge-self xs)

both_read :
    Reads
      (stream_key_of task)
      (pushed (stream_key_of task) with_other)
      (reply ("s1" ∷ "and" ∷ [])
        ∷ nil_reply
        ∷ reply ("s1" ∷ "noon" ∷ [])
        ∷ reply ("s1" ∷ "__EOF__" ∷ [])
        ∷ [])
      []
unfolding stream_key_of lookup text_or_none handle_task publish_all end_stream finish ack done_chunk
    publish_chunk
both_read = Reads.takes (Reads.waits (Reads.takes (Reads.takes Reads.stops)))

handle_task-token_stream_example :
    IsShared ("noon" ∷ []) (pushed (stream_key_of task) (rpush "s1" "and" ∷ [])) [] (
      token_stream (
        reply ("s1" ∷ "and" ∷ [])
        ∷ nil_reply
        ∷ reply ("s1" ∷ "noon" ∷ [])
        ∷ reply ("s1" ∷ "__EOF__" ∷ [])
        ∷ []))
handle_task-token_stream_example =
    handle_task-token_stream agents error_text task noon ("noon" ∷ []) (rpush "s1" "and" ∷ [])
      with_other
      (reply ("s1" ∷ "and" ∷ [])
        ∷ nil_reply
        ∷ reply ("s1" ∷ "noon" ∷ [])
        ∷ reply ("s1" ∷ "__EOF__" ∷ [])
        ∷ [])
      [] has_key (noon_plain, tt) (inr ([], refl, Merge-self sent)) both_read

-- Another step uses another key while the task runs, and the next step of the flow uses the same key later.
abbrev apart : List Command
apart = rpush "s2" "or" ∷ sent

abbrev later : List Command
later = rpush "s1" "more" ∷ []

abbrev replies : List (Reply (List String))
replies =
    reply ("s1" ∷ "noon" ∷ []) ∷ reply ("s1" ∷ "__EOF__" ∷ []) ∷ reply ("s1" ∷ "more" ∷ []) ∷ []

quiet : pushed (stream_key_of task) (rpush "s2" "or" ∷ []) ≡ []
unfolding stream_key_of lookup text_or_none
quiet = refl

all_read :
    Reads (stream_key_of task) (pushed (stream_key_of task) (List.◌++◌ apart later)) replies []
unfolding stream_key_of lookup text_or_none handle_task publish_all end_stream finish ack done_chunk
    publish_chunk
all_read = Reads.takes (Reads.takes (Reads.takes Reads.stops))

abbrev rounds : List Round
rounds = record { ready = 1; choice = ticked (ok (flow FlowPhase.succeeded [] [])) 7 } ∷ []

streamed_all : (sse_loop 60 rounds (token_stream replies) []).close ≡ completed
unfolding sse_loop run_choice finish_tick emit_step_events emit_flow_terminal token_events
    drain_tokens token_stream
streamed_all = refl

handle_task-sse_loop_example :
    join (tokens_of (sse_loop 60 rounds (token_stream replies) []).events) ≡ "noon"
handle_task-sse_loop_example =
    handle_task-sse_loop api call_clock config 2 "key" (clock_tool ∷ []) 0 3 agents error_text task
      noon ("noon" ∷ []) (rpush "s2" "or" ∷ []) apart later replies 60 rounds asked refl has_key
      (noon_plain, tt) (inr ([], refl, Merge-self sent)) quiet all_read streamed_all
