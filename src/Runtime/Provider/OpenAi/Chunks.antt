-- ===== src/Runtime/Provider/OpenAi/Chunks.antt =====
-- The chunks that the openai provider hands on.
use Prim.Native.String.{◌++◌}
use agentops_operator.Prelude.{
  ℕ, zero, suc, String, true, List, [], ◌∷◌, ◌==◌, ◌≡◌, refl, sym, ap, ◌∙◌, inl, inr, eq_iff,
  Bool-cases, Option-cases, subst,
}
use agentops_operator.Api.Meta.{Result}
use agentops_operator.Runtime.Queue.{TokenCounts}
use agentops_operator.Runtime.Config.{Config}
use agentops_operator.Runtime.Tools.{Tool}
use agentops_operator.Runtime.Provider.{no_tokens}
use agentops_operator.Runtime.Provider.Conversation.{join, IsWhole}
use agentops_operator.Runtime.Provider.Conversation.Runs.{converse-IsWhole}
use agentops_operator.Runtime.Provider.Anthropic.{is_empty}
use text.Mathlib.TextLemmas.{nil-append}
use agentops_operator.Runtime.Provider.OpenAi.{
  Chunk, system_message, user_message, stream_text, stream_chunks, ChatApi, ChatMessage, ToolParam,
  run_turns, run_streaming_turn, params_of, run_task, to_openai_tools,
}
use agentops_operator.Runtime.Provider.OpenAi.Refines.{openai_model, run_turns-eq}

join-stream_chunks : (cs : List Chunk) → join (stream_chunks cs) ≡ stream_text cs
unfolding stream_chunks stream_text
join-stream_chunks [] = refl
join-stream_chunks (c ∷ cs) = elim (Bool-cases (c.delta == "")) [
  | inl none_new ↦ rw none_new (
      join-stream_chunks cs
      ∙ sym (nil-append (stream_text cs))
      ∙ sym (ap (λ d. d ++ stream_text cs) ((eq_iff c.delta "").0 none_new)))
  | inr some_new ↦ rw some_new (ap (λ t. c.delta ++ t) (join-stream_chunks cs))
]

module _ {S : Type 0} (api : ChatApi S) (call_tool : String → String → S → Result String × S)
    (cfg : Config) where
  streaming_turn-IsWhole :
      (tools : List (ToolParam api.Json)) (messages : List ChatMessage) (u : TokenCounts) (s : S)
      → IsWhole (run_streaming_turn api call_tool cfg tools true messages u s)
  unfolding run_streaming_turn
  streaming_turn-IsWhole tools messages u s =
      let reply = api.chunks (params_of api call_tool cfg tools true messages) s in
      elim (Option-cases reply.1) [
        | inr (m, e) ↦ rw (e, run_streaming_turn) (λ fine. absurd (cc))
        | inl e ↦ rw (e, run_streaming_turn) (λ fine. join-stream_chunks reply.0)
      ]

  run_turns-IsWhole :
      (tools : List (ToolParam api.Json)) (fuel : ℕ) (messages : List ChatMessage) (s : S)
      → IsWhole (run_turns api call_tool cfg tools true fuel messages no_tokens s)
  unfolding run_turns
  run_turns-IsWhole tools zero messages s = tt
  run_turns-IsWhole tools (suc fuel) messages s = elim (Bool-cases (is_empty tools)) [
    | inl e ↦ rw (e, run_turns) (streaming_turn-IsWhole tools messages no_tokens s)
    | inr e ↦
        subst IsWhole
          (sym (
            ap (λ f. f messages no_tokens s)
              (run_turns-eq api call_tool cfg tools true e (suc fuel))))
          (converse-IsWhole (openai_model api call_tool cfg tools true) call_tool true (suc fuel)
            messages s refl)
  ]

  -- When chunks are wanted, the chunks that RunTask hands on make up the text that it returns, whether
  -- they come from the streaming API or after a loop of tool calls; a run that reports an error is
  -- excepted.
  pub run_task-chunks :
      (fuel : ℕ) (api_key prompt : String) (tools : List Tool) (s : S)
      → IsWhole (run_task api call_tool fuel api_key cfg prompt tools true s)
  unfolding run_task
  run_task-chunks fuel api_key prompt tools s = elim (Bool-cases (api_key == "")) [
    | inl e ↦ rw (e, run_task) (λ fine. absurd (cc))
    | inr e ↦
        rw (e, run_task)
          (run_turns-IsWhole (to_openai_tools api call_tool tools) fuel
            (system_message cfg.system_prompt ∷ user_message prompt ∷ []) s)
  ]
