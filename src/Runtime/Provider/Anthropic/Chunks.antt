-- ===== src/Runtime/Provider/Anthropic/Chunks.antt =====
-- The chunks that the anthropic provider hands on.
use Prim.Native.String.{◌++◌}
use agentops_operator.Prelude.{
  ℕ, zero, suc, String, true, List, [], ◌∷◌, ◌==◌, ◌≡◌, refl, sym, ap, inl, inr, Bool-cases,
  Option-cases, subst,
}
use agentops_operator.Api.Meta.{Result}
use agentops_operator.Runtime.Queue.{TokenCounts}
use agentops_operator.Runtime.Config.{Config}
use agentops_operator.Runtime.Tools.{Tool}
use agentops_operator.Runtime.Provider.{no_tokens}
use agentops_operator.Runtime.Provider.Conversation.{join, IsWhole}
use agentops_operator.Runtime.Provider.Conversation.Runs.{converse-IsWhole}
use agentops_operator.Runtime.Provider.Anthropic.{
  StreamEvent, message_start, message_delta, text_delta, other_event, user_message, text_part,
  stream_text, stream_chunks, Api, MessageParam, ToolParam, is_empty, run_turns, run_streaming_turn,
  params_of, run_task, to_anthropic_tools,
}
use agentops_operator.Runtime.Provider.Anthropic.Refines.{anthropic_model, run_turns-eq}

join-stream_chunks : (es : List StreamEvent) → join (stream_chunks es) ≡ stream_text es
unfolding stream_chunks stream_text
join-stream_chunks [] = refl
join-stream_chunks (text_delta s ∷ es) = ap (λ t. s ++ t) (join-stream_chunks es)
join-stream_chunks (message_start u ∷ es) = join-stream_chunks es
join-stream_chunks (message_delta n ∷ es) = join-stream_chunks es
join-stream_chunks (other_event ∷ es) = join-stream_chunks es

module _ {S : Type 0} (api : Api S) (call_tool : String → String → S → Result String × S)
    (cfg : Config) where
  streaming_turn-IsWhole :
      (tools : List (ToolParam api.Json)) (messages : List MessageParam) (u : TokenCounts) (s : S)
      → IsWhole (run_streaming_turn api call_tool cfg tools true messages u s)
  unfolding run_streaming_turn
  streaming_turn-IsWhole tools messages u s =
      let reply = api.events (params_of api call_tool cfg tools true messages) s in
      elim (Option-cases reply.1) [
        | inr (m, e) ↦ rw (e, run_streaming_turn) (λ fine. absurd (cc))
        | inl e ↦ rw (e, run_streaming_turn) (λ fine. join-stream_chunks reply.0)
      ]

  run_turns-IsWhole :
      (tools : List (ToolParam api.Json)) (fuel : ℕ) (messages : List MessageParam) (s : S)
      → IsWhole (run_turns api call_tool cfg tools true fuel messages no_tokens s)
  unfolding run_turns
  run_turns-IsWhole tools zero messages s = tt
  run_turns-IsWhole tools (suc fuel) messages s = elim (Bool-cases (is_empty tools)) [
    | inl e ↦ rw (e, run_turns) (streaming_turn-IsWhole tools messages no_tokens s)
    | inr e ↦
        subst IsWhole
          (sym (
            ap (λ f. f messages no_tokens s)
              (run_turns-eq api call_tool cfg tools true e (suc fuel))))
          (converse-IsWhole (anthropic_model api call_tool cfg tools true) call_tool true (suc fuel)
            messages s refl)
  ]

  -- When chunks are wanted, the chunks that RunTask hands on make up the text that it returns, whether
  -- they come from the streaming API or after a loop of tool calls; a run that reports an error is
  -- excepted.
  pub run_task-IsWhole :
      (fuel : ℕ) (api_key prompt : String) (tools : List Tool) (s : S)
      → IsWhole (run_task api call_tool fuel api_key cfg prompt tools true s)
  unfolding run_task
  run_task-IsWhole fuel api_key prompt tools s = elim (Bool-cases (api_key == "")) [
    | inl e ↦ rw (e, run_task) (λ fine. absurd (cc))
    | inr e ↦
        rw (e, run_task)
          (run_turns-IsWhole (to_anthropic_tools api call_tool tools) fuel
            (user_message (text_part prompt ∷ []) ∷ []) s)
  ]
