-- ===== src/Runtime/Provider/OpenAi.antt =====
-- internal/agent/providers/openai/provider.go: RunTask with its tool-use loop and its streaming turn.
-- The SDK is a parameter; the client's options are part of it.
pub mod Refines
pub mod Chunks
use Prim.Native.String.{◌++◌}
use mathlib.Core.List as List
use agentops_operator.Prelude.{
  ℕ, zero, suc, String, Bool, true, false, ◌&&◌, ◌||◌, not, Option, none, some, List, [], ◌∷◌, map,
  ◌==◌, if◌then◌else◌, snoc,
}
use agentops_operator.Prelude.Int64.{lt64}
use agentops_operator.Api.Meta.{Message, format, plain, end, wrap, Result, ok, err}
use agentops_operator.Runtime.Config.{Config}
use agentops_operator.Runtime.Tools.{Tool}
use agentops_operator.Runtime.Queue.{TokenCounts}
use agentops_operator.Runtime.Provider.{
  TaskResult, Run, returned, out_of_fuel, no_tokens, add_tokens,
}
use agentops_operator.Runtime.Provider.Anthropic.{is_empty}

-- ChatCompletionMessageToolCall
pub record ToolCall : Type 0 where
  pub id : String
  pub name : String
  pub arguments : String

-- ChatCompletionMessageParamUnion. The content of a tool message is an output, or the text of an error.
pub data ChatMessage : Type 0 where
  system_message : String → ChatMessage
  user_message : String → ChatMessage
  assistant_message : String → List ToolCall → ChatMessage
  tool_message : Message → (id : String) → ChatMessage

-- ChatCompletionToolParam; `none` where the tool has no schema. `Json` is a decoded JSON object.
pub record ToolParam (Json : Type 0) : Type 0 where
  pub name : String
  pub description : String
  pub parameters : Option Json

pub record Params (Json : Type 0) : Type 0 where
  pub model : String
  pub messages : List ChatMessage
  pub max_completion_tokens : Option ℕ
  pub tools : List (ToolParam Json)

pub record Choice : Type 0 where
  pub content : String
  pub tool_calls : List ToolCall
  pub finish_reason : String

pub record Completion : Type 0 where
  pub choices : List Choice
  pub usage : TokenCounts

-- A chunk of a stream, with the delta of its first choice; without choices it is empty.
pub record Chunk : Type 0 where
  pub usage : TokenCounts
  pub delta : String

-- The SDK, and encoding/json on objects.
pub record ChatApi (S : Type 0) : Type 1 where
  pub Json : Type 0
  pub parse : String → Option Json
  pub empty_object : Json
  pub new_completion : Params Json → S → Result Completion × S
  pub chunks : Params Json → S → List Chunk × Option Message
  pub after_chunks : Params Json → S → S

unfoldable pub tool_output : Result String → Message
tool_output (ok output) = plain output
tool_output (err e) = e

unfoldable pub stream_text : List Chunk → String
stream_text [] = ""
stream_text (c ∷ cs) = c.delta ++ stream_text cs

-- An empty delta is not handed on.
unfoldable pub stream_chunks : List Chunk → List String
stream_chunks [] = []
stream_chunks (c ∷ cs) =
    let rest = stream_chunks cs in if c.delta == "" then rest else c.delta ∷ rest

-- The usage of the last chunk that reports one.
stream_usage : TokenCounts → List Chunk → TokenCounts
stream_usage u [] = u
stream_usage u (c ∷ cs) = stream_usage (if lt64 0 c.usage.output_tokens then c.usage else u) cs

module _ {S : Type 0} (api : ChatApi S) (call_tool : String → String → S → Result String × S) where
  open api use {Json, parse, empty_object, new_completion, chunks, after_chunks}

  unfoldable pub raw_to_map : String → Json
  raw_to_map raw = elim (parse raw) [ none ↦ empty_object | some m ↦ m ]

  to_tool_param : Tool → ToolParam Json
  unfolding raw_to_map
  to_tool_param t = record {
    name = t.name;
    description = t.description;
    parameters = if t.input_schema == "" then none else some (raw_to_map t.input_schema);
  }

  unfoldable pub to_openai_tools : List Tool → List (ToolParam Json)
  unfolding to_tool_param
  to_openai_tools ts = map to_tool_param ts

  -- The requested calls, in order, with the messages that they add.
  unfoldable pub execute_calls : List ToolCall → S → List ChatMessage × S
  unfolding tool_output
  execute_calls [] s = ([], s)
  execute_calls (tc ∷ tcs) s =
      let (out, s1) = call_tool tc.name tc.arguments s in
      let (messages, s2) = execute_calls tcs s1 in
      (tool_message (tool_output out) tc.id ∷ messages, s2)

  module _ (cfg : Config) (tools : List (ToolParam Json)) (streaming : Bool) where
    unfoldable pub params_of : List ChatMessage → Params Json
    params_of messages = record {
      model = cfg.model;
      messages = messages;
      max_completion_tokens =
          if lt64 0 cfg.max_tokens_per_call then some cfg.max_tokens_per_call else none;
      tools = tools;
    }

    -- runStreamingTurn, with what RunTask makes of it.
    unfoldable pub run_streaming_turn : List ChatMessage → TokenCounts → S → Run S
    unfolding params_of stream_text stream_chunks stream_usage
    run_streaming_turn messages usage s =
        let (cs, error) = chunks (params_of messages) s in
        let s' = after_chunks (params_of messages) s in
        elim error [
          | some e ↦
              returned
                (record {
                  text = "";
                  usage = usage;
                  error = some (format "openai streaming error: %w" (wrap e end));
                })
                (stream_chunks cs) s'
          | none ↦
              returned
                (record {
                  text = stream_text cs;
                  usage = add_tokens usage (stream_usage no_tokens cs);
                  error = none;
                })
                (stream_chunks cs) s'
        ]

    -- The first choice decides what follows; `next` is the next round of the loop.
    unfoldable pub after_choice :
        (List ChatMessage → TokenCounts → S → Run S)
        → List ChatMessage
        → TokenCounts
        → Choice
        → S
        → Run S
    unfolding execute_calls is_empty
    after_choice next messages usage choice s =
        let messages' = snoc messages (assistant_message choice.content choice.tool_calls) in
        let (results, s') = execute_calls choice.tool_calls s in
        if not (choice.finish_reason == "tool_calls") || is_empty choice.tool_calls
        then returned (record { text = choice.content; usage = usage; error = none })
            (if streaming then choice.content ∷ [] else []) s
        else next (List.◌++◌ messages' results) usage s'

    unfoldable pub after_choices :
        (List ChatMessage → TokenCounts → S → Run S)
        → List ChatMessage
        → TokenCounts
        → List Choice
        → S
        → Run S
    unfolding after_choice
    after_choices next messages usage [] s =
        returned
          (record {
            text = "";
            usage = usage;
            error = some (plain "openai: empty choices in response");
          })
          [] s
    after_choices next messages usage (choice ∷ more) s = after_choice next messages usage choice s

    unfoldable pub received :
        (List ChatMessage → TokenCounts → S → Run S)
        → List ChatMessage
        → TokenCounts
        → Result Completion × S
        → Run S
    unfolding after_choices
    received next messages usage (ok resp, s) =
        after_choices next messages (add_tokens usage resp.usage) resp.choices s
    received next messages usage (err e, s) =
        returned
          (record {
            text = "";
            usage = usage;
            error = some (format "openai API error: %w" (wrap e end));
          })
          [] s

    -- The loop of RunTask.
    unfoldable pub run_turns : ℕ → List ChatMessage → TokenCounts → S → Run S
    unfolding received run_streaming_turn is_empty params_of
    run_turns zero messages usage s = out_of_fuel
    run_turns (suc fuel) messages usage s = elim (streaming && is_empty tools) [
      | true ↦ run_streaming_turn messages usage s
      | false ↦ received (run_turns fuel) messages usage (new_completion (params_of messages) s)
    ]

  unfoldable pub run_task : ℕ → String → Config → String → List Tool → Bool → S → Run S
  unfolding run_turns to_openai_tools
  run_task fuel api_key cfg prompt tools streaming s =
      if api_key == ""
      then returned
          (record {
            text = "";
            usage = no_tokens;
            error = some (plain "OPENAI_API_KEY is not set; required for the openai provider");
          })
          [] s
      else run_turns cfg (to_openai_tools tools) streaming fuel
          (system_message cfg.system_prompt ∷ user_message prompt ∷ []) no_tokens s
