-- ===== src/Runtime/Provider/Anthropic.antt =====
-- internal/agent/providers/anthropic/provider.go: RunTask with its tool-use loop and its streaming turn.
-- The SDK is a parameter: a request is its parameters, a response its content blocks.
pub mod Refines
pub mod Chunks
use Prim.Native.String.{◌++◌}
use agentops_operator.Prelude.{
  ℕ, zero, suc, String, Bool, true, false, ◌&&◌, Option, none, some, List, [], ◌∷◌, map, ◌==◌,
  if◌then◌else◌, snoc,
}
use agentops_operator.Api.Meta.{Message, format, plain, end, wrap, Result, ok, err}
use agentops_operator.Runtime.Config.{Config}
use agentops_operator.Runtime.Tools.{Tool}
use agentops_operator.Runtime.Queue.{TokenCounts}
use agentops_operator.Runtime.Provider.{
  TaskResult, Run, returned, out_of_fuel, no_tokens, add_tokens,
}

-- ContentBlockUnion by its type
pub data Block : Type 0 where
  text_block : String → Block
  tool_use : (id name input : String) → Block
  other_block : Block

-- ContentBlockParamUnion. The content of a result is an output, or the text of an error.
pub data Part : Type 0 where
  text_part : String → Part
  tool_use_part : (id input name : String) → Part
  tool_result : (id : String) → Message → (is_error : Bool) → Part

pub data MessageParam : Type 0 where
  user_message : List Part → MessageParam
  assistant_message : List Part → MessageParam

-- ToolInputSchemaParam. `Json` is a parsed value.
pub data Schema (Json : Type 0) : Type 0 where
  no_schema : Schema Json
  raw_schema : String → Schema Json
  parsed_schema : Json → List String → Schema Json

pub record ToolParam (Json : Type 0) : Type 0 where
  pub name : String
  pub description : String
  pub input_schema : Schema Json

pub record Params (Json : Type 0) : Type 0 where
  pub model : String
  pub max_tokens : ℕ
  pub system : String
  pub messages : List MessageParam
  pub tools : List (ToolParam Json)

pub record Response : Type 0 where
  pub content : List Block
  pub end_turn : Bool
  pub usage : TokenCounts

-- The events of a stream that are read.
pub data StreamEvent : Type 0 where
  message_start : TokenCounts → StreamEvent
  message_delta : (output_tokens : ℕ) → StreamEvent
  text_delta : String → StreamEvent
  other_event : StreamEvent

-- The SDK, and encoding/json: `schema` reads the raw properties, which are empty if there are none, and
-- the required names.
pub record Api (S : Type 0) : Type 1 where
  pub Json : Type 0
  pub schema : String → Option (String × List String)
  pub parse : String → Option Json
  pub new_message : Params Json → S → Result Response × S
  pub events : Params Json → S → List StreamEvent × Option Message
  pub after_events : Params Json → S → S

parse_properties :
    {Json : Type 0} → (String → Option Json) → String → String × List String → Schema Json
parse_properties parse raw (properties, required) =
    if properties == "" then raw_schema raw else elim (parse properties) [
      | none ↦ raw_schema raw
      | some props ↦ parsed_schema props required
    ]

unfoldable pub extract_text : List Block → String
extract_text [] = ""
extract_text (text_block s ∷ bs) = s
extract_text (b ∷ bs) = extract_text bs

unfoldable pub assistant_parts : List Block → List Part
assistant_parts [] = []
assistant_parts (text_block s ∷ bs) = text_part s ∷ assistant_parts bs
assistant_parts (tool_use id name input ∷ bs) = tool_use_part id input name ∷ assistant_parts bs
assistant_parts (other_block ∷ bs) = assistant_parts bs

unfoldable pub tool_result_of : String → Result String → Part
tool_result_of id (ok output) = tool_result id (plain output) false
tool_result_of id (err e) = tool_result id e true

unfoldable pub stream_text : List StreamEvent → String
stream_text [] = ""
stream_text (text_delta s ∷ es) = s ++ stream_text es
stream_text (e ∷ es) = stream_text es

unfoldable pub stream_chunks : List StreamEvent → List String
stream_chunks [] = []
stream_chunks (text_delta s ∷ es) = s ∷ stream_chunks es
stream_chunks (e ∷ es) = stream_chunks es

stream_usage : TokenCounts → List StreamEvent → TokenCounts
stream_usage u [] = u
stream_usage u (message_start t ∷ es) = stream_usage (add_tokens u t) es
stream_usage u (message_delta n ∷ es) =
    stream_usage (add_tokens u (record { input_tokens = 0; output_tokens = n })) es
stream_usage u (text_delta s ∷ es) = stream_usage u es
stream_usage u (other_event ∷ es) = stream_usage u es

-- len(xs) == 0
unfoldable pub is_empty : {A : Type 0} → List A → Bool
is_empty [] = true
is_empty (x ∷ xs) = false

module _ {S : Type 0} (api : Api S) (call_tool : String → String → S → Result String × S) where
  open api use {Json, schema, parse, new_message, events, after_events}

  unfoldable pub parse_tool_schema : String → Schema Json
  unfolding parse_properties
  parse_tool_schema raw =
      if raw == ""
      then no_schema
      else elim (schema raw) [ none ↦ raw_schema raw | some full ↦ parse_properties parse raw full ]

  to_tool_param : Tool → ToolParam Json
  unfolding parse_tool_schema
  to_tool_param t = record {
    name = t.name;
    description = t.description;
    input_schema = parse_tool_schema t.input_schema;
  }

  unfoldable pub to_anthropic_tools : List Tool → List (ToolParam Json)
  unfolding to_tool_param
  to_anthropic_tools ts = map to_tool_param ts

  -- Every tool_use block is executed, in order.
  unfoldable pub execute_tools : List Block → S → List Part × S
  unfolding tool_result_of
  execute_tools [] s = ([], s)
  execute_tools (tool_use id name input ∷ bs) s =
      let (out, s1) = call_tool name input s in
      let (parts, s2) = execute_tools bs s1 in (tool_result_of id out ∷ parts, s2)
  execute_tools (text_block t ∷ bs) s = execute_tools bs s
  execute_tools (other_block ∷ bs) s = execute_tools bs s

  module _ (cfg : Config) (tools : List (ToolParam Json)) (streaming : Bool) where
    unfoldable pub params_of : List MessageParam → Params Json
    params_of messages = record {
      model = cfg.model;
      max_tokens = cfg.max_tokens_per_call;
      system = cfg.system_prompt;
      messages = messages;
      tools = tools;
    }

    -- runStreamingTurn, with what RunTask makes of it.
    unfoldable pub run_streaming_turn : List MessageParam → TokenCounts → S → Run S
    unfolding params_of stream_text stream_chunks stream_usage
    run_streaming_turn messages usage s =
        let (es, error) = events (params_of messages) s in
        let s' = after_events (params_of messages) s in
        elim error [
          | some e ↦
              returned
                (record {
                  text = "";
                  usage = usage;
                  error = some (format "anthropic streaming error: %w" (wrap e end));
                })
                (stream_chunks es) s'
          | none ↦
              returned
                (record {
                  text = stream_text es;
                  usage = add_tokens usage (stream_usage no_tokens es);
                  error = none;
                })
                (stream_chunks es) s'
        ]

    -- The final turn: the whole text is one chunk.
    unfoldable pub final_turn : List Block → TokenCounts → S → Run S
    unfolding extract_text
    final_turn content usage s =
        let text = extract_text content in
        returned (record { text = text; usage = usage; error = none })
          (if streaming then text ∷ [] else []) s

    -- What follows a response; `next` is the next round of the loop.
    unfoldable pub after_response :
        (List MessageParam → TokenCounts → S → Run S)
        → List MessageParam
        → TokenCounts
        → Response
        → S
        → Run S
    unfolding final_turn execute_tools assistant_parts is_empty
    after_response next messages usage resp s =
        let usage' = add_tokens usage resp.usage in
        let messages' = snoc messages (assistant_message (assistant_parts resp.content)) in
        let (results, s') = execute_tools resp.content s in
        if resp.end_turn
        then final_turn resp.content usage' s
        else if is_empty results
        then final_turn resp.content usage' s'
        else next (snoc messages' (user_message results)) usage' s'

    unfoldable pub received :
        (List MessageParam → TokenCounts → S → Run S)
        → List MessageParam
        → TokenCounts
        → Result Response × S
        → Run S
    unfolding after_response
    received next messages usage (ok resp, s) = after_response next messages usage resp s
    received next messages usage (err e, s) =
        returned
          (record {
            text = "";
            usage = usage;
            error = some (format "anthropic API error: %w" (wrap e end));
          })
          [] s

    -- The loop of RunTask.
    unfoldable pub run_turns : ℕ → List MessageParam → TokenCounts → S → Run S
    unfolding received run_streaming_turn is_empty params_of
    run_turns zero messages usage s = out_of_fuel
    run_turns (suc fuel) messages usage s = elim (streaming && is_empty tools) [
      | true ↦ run_streaming_turn messages usage s
      | false ↦ received (run_turns fuel) messages usage (new_message (params_of messages) s)
    ]

  unfoldable pub run_task : ℕ → String → Config → String → List Tool → Bool → S → Run S
  unfolding run_turns to_anthropic_tools
  run_task fuel api_key cfg prompt tools streaming s =
      if api_key == ""
      then returned
          (record {
            text = "";
            usage = no_tokens;
            error =
                some (plain "ANTHROPIC_API_KEY is not set; required for the anthropic provider");
          })
          [] s
      else run_turns cfg (to_anthropic_tools tools) streaming fuel
          (user_message (text_part prompt ∷ []) ∷ []) no_tokens s
