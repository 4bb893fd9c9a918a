-- ===== src/Runtime/Provider/Anthropic/Refines.antt =====
-- RunTask of the anthropic provider as a conversation.
use mathlib.Core.Path.{fun_ext}
use agentops_operator.Prelude.{
  ℕ, zero, suc, String, Bool, true, false, ◌&&◌, List, [], ◌∷◌, map, if◌then◌else◌, ◌≡◌, ◌≢◌, ◌↔◌,
  refl, sym, ap, ◌∙◌, arith, snoc, eq_iff, ◌==◌,
}
use agentops_operator.Api.Meta.{format, end, wrap, Result, ok, err}
use agentops_operator.Runtime.Queue.{TokenCounts}
use agentops_operator.Runtime.Config.{Config}
use agentops_operator.Runtime.Tools.{Tool}
use agentops_operator.Runtime.Provider.{TaskResult, Run, returned, no_tokens, add_tokens}
use agentops_operator.Runtime.Provider.Conversation.{Call, Model, call_all}
use agentops_operator.Runtime.Provider.Conversation.Runs.{
  converse, converse_iff, heard, acted, Explained,
}
use agentops_operator.Runtime.Provider.Anthropic.{
  Block, text_block, tool_use, other_block, Part, text_part, MessageParam, user_message,
  assistant_message, ToolParam, Response, Api, extract_text, assistant_parts, tool_result_of,
  execute_tools, params_of, final_turn, is_empty, after_response, received, run_turns, run_task,
  to_anthropic_tools,
}

-- The tools that a response asks for.
abbrev pub calls_of : List Block → List Call
calls_of [] = []
calls_of (tool_use id name input ∷ bs) =
    record { id = id; name = name; input = input } ∷ calls_of bs
calls_of (text_block s ∷ bs) = calls_of bs
calls_of (other_block ∷ bs) = calls_of bs

abbrev pub part_of : Call × Result String → Part
part_of (c, out) = tool_result_of c.id out

module _ {S : Type 0} (api : Api S) (call_tool : String → String → S → Result String × S)
    (cfg : Config) (tools : List (ToolParam api.Json)) (streaming : Bool) where
  abbrev reply_of : Result Response → Result Response
  reply_of (ok r) = ok r
  reply_of (err e) = err (format "anthropic API error: %w" (wrap e end))

  -- The API as a model: a response that ends the turn asks for no tool.
  abbrev pub anthropic_model : Model S
  anthropic_model = record {
    History = List MessageParam;
    Reply = Response;
    ask = λ messages s.
        let (reply, s') =
          api.new_message (params_of api call_tool cfg tools streaming messages) s in
        (reply_of reply, s');
    tokens = λ r. r.usage;
    read = λ r. ok (record {
      text = extract_text r.content;
      calls = if r.end_turn then [] else calls_of r.content;
    });
    extend = λ messages r results.
        snoc (snoc messages (assistant_message (assistant_parts r.content)))
          (user_message (map part_of results));
  }

  execute_tools-eq :
      (bs : List Block) (s : S)
      → execute_tools api call_tool bs s ≡ (
        map part_of (call_all anthropic_model call_tool (calls_of bs) s).0,
        (call_all anthropic_model call_tool (calls_of bs) s).1,
      )
  unfolding execute_tools
  execute_tools-eq [] s = refl
  execute_tools-eq (tool_use id name input ∷ bs) s =
      rw (execute_tools-eq bs (call_tool name input s).1) refl
  execute_tools-eq (text_block t ∷ bs) s = execute_tools-eq bs s
  execute_tools-eq (other_block ∷ bs) s = execute_tools-eq bs s

  -- What follows a response, by whether it ends the turn and by the tools that it asks for.
  next_turn-eq :
      (next : List MessageParam → TokenCounts → S → Run S) (messages : List MessageParam)
      (u : TokenCounts) (r : Response) (s : S) (end_turn : Bool) (cs : List Call)
      (results : List Part) (s1 : S)
      → results ≡ map part_of (call_all anthropic_model call_tool cs s).0
      → s1 ≡ (call_all anthropic_model call_tool cs s).1
      → (if end_turn
          then final_turn api call_tool cfg tools streaming r.content u s
          else if is_empty results
          then final_turn api call_tool cfg tools streaming r.content u s1
          else next
              (snoc
                (snoc messages (assistant_message (assistant_parts r.content)))
                (user_message results))
              u
              s1)
        ≡ acted anthropic_model call_tool streaming next messages u r s
            (extract_text r.content)
            (if end_turn then [] else cs)
  unfolding final_turn is_empty
  next_turn-eq next messages u r s true cs results s1 p q = refl
  next_turn-eq next messages u r s false [] results s1 p q = rw (p, q) refl
  next_turn-eq next messages u r s false (c ∷ cs) results s1 p q = rw (p, q) refl

  received-eq :
      (next : List MessageParam → TokenCounts → S → Run S) (messages : List MessageParam)
      (u : TokenCounts) (reply : Result Response × S)
      → received api call_tool cfg tools streaming next messages u reply
        ≡ heard anthropic_model call_tool streaming next messages u (reply_of reply.0, reply.1)
  unfolding received after_response
  received-eq next messages u (err e, s) = refl
  received-eq next messages u (ok r, s) =
      let e = execute_tools-eq r.content s in
      next_turn-eq next messages (add_tokens u r.usage) r s r.end_turn (calls_of r.content)
        (execute_tools api call_tool r.content s).0 (execute_tools api call_tool r.content s).1
        (ap (λ z. z.0) e) (ap (λ z. z.1) e)

  pub run_turns-eq :
      (streaming && is_empty tools) ≡ false
      → (fuel : ℕ)
      → run_turns api call_tool cfg tools streaming fuel
        ≡ converse anthropic_model call_tool streaming fuel
  unfolding run_turns converse
  run_turns-eq h zero = refl
  run_turns-eq h (suc fuel) = fun_ext (λ messages. fun_ext (λ u. fun_ext (λ s.
      rw (h, run_turns)
        (received-eq (run_turns api call_tool cfg tools streaming fuel) messages u
            (api.new_message (params_of api call_tool cfg tools streaming messages) s)
          ∙ ap
              (λ next.
                heard anthropic_model call_tool streaming next messages u
                  (anthropic_model.ask messages s))
              (run_turns-eq h fuel)))))

deferred :
    {S : Type 0} (api : Api S) (call_tool : String → String → S → Result String × S)
    (streaming : Bool) (ts : List Tool)
    → (streaming ≡ true → ts ≢ [])
    → (streaming && is_empty (to_anthropic_tools api call_tool ts)) ≡ false
unfolding to_anthropic_tools is_empty
deferred api call_tool false ts h = refl
deferred api call_tool true [] h = absurd (h refl refl)
deferred api call_tool true (t ∷ ts) h = refl

module _ {S : Type 0} (api : Api S) (call_tool : String → String → S → Result String × S)
    (cfg : Config) (tools : List Tool) (streaming : Bool) where
  abbrev pub task_model : Model S
  task_model = anthropic_model api call_tool cfg (to_anthropic_tools api call_tool tools) streaming

  -- RunTask returns exactly what a conversation with the model explains, which starts with the prompt of
  -- the task: its text, error and chunks are those of the ending, its usage counts the tokens of all
  -- replies, and the calls made are those that the model asked for, in order. There is an API key, and
  -- where chunks are wanted there is a tool.
  pub run_task-refines :
      (api_key prompt : String) (s : S) (res : TaskResult) (chunks : List String) (s' : S)
      → api_key ≢ ""
      → (streaming ≡ true → tools ≢ [])
      → ((fuel : ℕ) × (run_task api call_tool fuel api_key cfg prompt tools streaming s
            ≡ returned res chunks s'))
        ↔ Explained task_model call_tool streaming
            (user_message (text_part prompt ∷ []) ∷ [])
            no_tokens
            s
            res
            chunks
            s'
  unfolding run_task
  run_task-refines api_key prompt s res chunks s' key some_tool =
      let start = user_message (text_part prompt ∷ []) ∷ [] in
      let given : (api_key == "") ≡ false = ground (arith, eq_iff api_key "") in
      let same : (fuel : ℕ)
          → run_task api call_tool fuel api_key cfg prompt tools streaming s
            ≡ converse task_model call_tool streaming fuel start no_tokens s =
        λ fuel.
          rw (given, run_task)
            (ap (λ f. f start no_tokens s)
              (run_turns-eq api call_tool cfg (to_anthropic_tools api call_tool tools) streaming
                (deferred api call_tool streaming tools some_tool) fuel)) in
      let runs = converse_iff task_model call_tool streaming start s res chunks s' in
      (
        λ (fuel, e). runs.0 (fuel, sym (same fuel) ∙ e),
        λ x. let (fuel, e) = runs.1 x in (fuel, same fuel ∙ e),
      )
