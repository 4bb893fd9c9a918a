-- ===== src/Runtime/Provider/OpenAi/Refines.antt =====
-- RunTask of the openai provider as a conversation.
use mathlib.Core.Path.{fun_ext}
use mathlib.Core.List as List
use agentops_operator.Prelude.{
  ℕ, zero, suc, String, Bool, true, false, ◌&&◌, ◌||◌, not, none, List, [], ◌∷◌, map, if◌then◌else◌,
  ◌≡◌, ◌≢◌, ◌↔◌, refl, sym, ap, ◌∙◌, arith, eq_iff, ◌==◌,
}
use agentops_operator.Api.Meta.{format, plain, end, wrap, Result, ok, err}
use agentops_operator.Runtime.Queue.{TokenCounts}
use agentops_operator.Runtime.Config.{Config}
use agentops_operator.Runtime.Tools.{Tool}
use agentops_operator.Runtime.Provider.{TaskResult, Run, returned, no_tokens, add_tokens}
use agentops_operator.Runtime.Provider.Conversation.{Call, Turn, Model, call_all}
use agentops_operator.Runtime.Provider.Conversation.Runs.{
  converse, converse_iff, heard, spoken, acted, Explained,
}
use agentops_operator.Runtime.Provider.Anthropic.{is_empty}
use agentops_operator.Runtime.Provider.OpenAi.{
  ToolCall, ChatMessage, system_message, user_message, assistant_message, tool_message, ToolParam,
  Choice, Completion, ChatApi, tool_output, execute_calls, params_of, after_choice, after_choices,
  received, run_turns, run_task, to_openai_tools,
}

abbrev pub call_of : ToolCall → Call
call_of tc = record { id = tc.id; name = tc.name; input = tc.arguments }

abbrev pub message_of : Call × Result String → ChatMessage
message_of (c, out) = tool_message (tool_output out) c.id

-- What a response says: its first choice, which asks for tools if it was finished for that reason.
abbrev pub turn_of : List Choice → Result Turn
turn_of [] = err (plain "openai: empty choices in response")
turn_of (c ∷ more) = ok (record {
  text = c.content;
  calls = if c.finish_reason == "tool_calls" then map call_of c.tool_calls else [];
})

-- The assistant's turn as it enters the history.
abbrev pub spoken_messages : List Choice → List ChatMessage
spoken_messages [] = []
spoken_messages (c ∷ more) = assistant_message c.content c.tool_calls ∷ []

module _ {S : Type 0} (api : ChatApi S) (call_tool : String → String → S → Result String × S)
    (cfg : Config) (tools : List (ToolParam api.Json)) (streaming : Bool) where
  abbrev reply_of : Result Completion → Result Completion
  reply_of (ok r) = ok r
  reply_of (err e) = err (format "openai API error: %w" (wrap e end))

  abbrev pub openai_model : Model S
  openai_model = record {
    History = List ChatMessage;
    Reply = Completion;
    ask = λ messages s.
        let (reply, s') =
          api.new_completion (params_of api call_tool cfg tools streaming messages) s in
        (reply_of reply, s');
    tokens = λ r. r.usage;
    read = λ r. turn_of r.choices;
    extend = λ messages r results.
        List.◌++◌ (List.◌++◌ messages (spoken_messages r.choices)) (map message_of results);
  }

  execute_calls-eq :
      (tcs : List ToolCall) (s : S)
      → execute_calls api call_tool tcs s ≡ (
        map message_of (call_all openai_model call_tool (map call_of tcs) s).0,
        (call_all openai_model call_tool (map call_of tcs) s).1,
      )
  unfolding execute_calls
  execute_calls-eq [] s = refl
  execute_calls-eq (tc ∷ tcs) s =
      rw (execute_calls-eq tcs (call_tool tc.name tc.arguments s).1) refl

  -- What follows a choice, by whether it was finished for its tools and by the tools that it names.
  after_choice-eq :
      (next : List ChatMessage → TokenCounts → S → Run S) (messages : List ChatMessage)
      (u : TokenCounts) (r : Completion) (s : S) (content : String) (said : List ChatMessage)
      (for_tools : Bool) (tcs : List ToolCall) (results : List ChatMessage) (s1 : S)
      → results ≡ map message_of (call_all openai_model call_tool (map call_of tcs) s).0
      → s1 ≡ (call_all openai_model call_tool (map call_of tcs) s).1
      → said ≡ List.◌++◌ messages (spoken_messages r.choices)
      → (if not for_tools || is_empty tcs
          then returned
              (record { text = content; usage = u; error = none })
              (if streaming then content ∷ [] else [])
              s
          else next (List.◌++◌ said results) u s1)
        ≡ acted openai_model call_tool streaming next messages u r s content
            (if for_tools then map call_of tcs else [])
  unfolding is_empty
  after_choice-eq next messages u r s content said false tcs results s1 p q e = refl
  after_choice-eq next messages u r s content said true [] results s1 p q e = refl
  after_choice-eq next messages u r s content said true (tc ∷ tcs) results s1 p q e =
      rw (p, q, e) refl

  after_choices-eq :
      (next : List ChatMessage → TokenCounts → S → Run S) (messages : List ChatMessage)
      (u : TokenCounts) (r : Completion) (s : S) (cs : List Choice)
      → r.choices ≡ cs
      → after_choices api call_tool cfg tools streaming next messages u cs s
        ≡ spoken openai_model call_tool streaming next messages u r s (turn_of cs)
  unfolding after_choices after_choice
  after_choices-eq next messages u r s [] h = refl
  after_choices-eq next messages u r s (c ∷ more) h =
      let e = execute_calls-eq c.tool_calls s in
      after_choice-eq next messages u r s c.content _ (c.finish_reason == "tool_calls") c.tool_calls
        (execute_calls api call_tool c.tool_calls s).0
        (execute_calls api call_tool c.tool_calls s).1 (ap (λ z. z.0) e) (ap (λ z. z.1) e)
        (ap (λ z. List.◌++◌ messages (spoken_messages z)) (sym h))

  received-eq :
      (next : List ChatMessage → TokenCounts → S → Run S) (messages : List ChatMessage)
      (u : TokenCounts) (reply : Result Completion × S)
      → received api call_tool cfg tools streaming next messages u reply
        ≡ heard openai_model call_tool streaming next messages u (reply_of reply.0, reply.1)
  unfolding received
  received-eq next messages u (err e, s) = refl
  received-eq next messages u (ok r, s) =
      after_choices-eq next messages (add_tokens u r.usage) r s r.choices refl

  pub run_turns-eq :
      (streaming && is_empty tools) ≡ false
      → (fuel : ℕ)
      → run_turns api call_tool cfg tools streaming fuel
        ≡ converse openai_model call_tool streaming fuel
  unfolding run_turns converse
  run_turns-eq h zero = refl
  run_turns-eq h (suc fuel) = fun_ext (λ messages. fun_ext (λ u. fun_ext (λ s.
      rw (h, run_turns)
        (received-eq (run_turns api call_tool cfg tools streaming fuel) messages u
            (api.new_completion (params_of api call_tool cfg tools streaming messages) s)
          ∙ ap
              (λ next.
                heard openai_model call_tool streaming next messages u
                  (openai_model.ask messages s))
              (run_turns-eq h fuel)))))

deferred :
    {S : Type 0} (api : ChatApi S) (call_tool : String → String → S → Result String × S)
    (streaming : Bool) (ts : List Tool)
    → (streaming ≡ true → ts ≢ [])
    → (streaming && is_empty (to_openai_tools api call_tool ts)) ≡ false
unfolding to_openai_tools is_empty
deferred api call_tool false ts h = refl
deferred api call_tool true [] h = absurd (h refl refl)
deferred api call_tool true (t ∷ ts) h = refl

module _ {S : Type 0} (api : ChatApi S) (call_tool : String → String → S → Result String × S)
    (cfg : Config) (tools : List Tool) (streaming : Bool) where
  abbrev pub task_model : Model S
  task_model = openai_model api call_tool cfg (to_openai_tools api call_tool tools) streaming

  -- RunTask returns exactly what a conversation with the model explains, which starts with the prompt of
  -- the task: its text, error and chunks are those of the ending, its usage counts the tokens of all
  -- replies, and the calls made are those that the model asked for, in order. There is an API key, and
  -- where chunks are wanted there is a tool.
  pub run_task-Explained :
      (api_key prompt : String) (s : S) (res : TaskResult) (chunks : List String) (s' : S)
      → api_key ≢ ""
      → (streaming ≡ true → tools ≢ [])
      → ((fuel : ℕ) × (run_task api call_tool fuel api_key cfg prompt tools streaming s
            ≡ returned res chunks s'))
        ↔ Explained task_model call_tool streaming
            (system_message cfg.system_prompt ∷ user_message prompt ∷ [])
            no_tokens
            s
            res
            chunks
            s'
  unfolding run_task
  run_task-Explained api_key prompt s res chunks s' key some_tool =
      let start = system_message cfg.system_prompt ∷ user_message prompt ∷ [] in
      let given : (api_key == "") ≡ false = ground (arith, eq_iff api_key "") in
      let same : (fuel : ℕ)
          → run_task api call_tool fuel api_key cfg prompt tools streaming s
            ≡ converse task_model call_tool streaming fuel start no_tokens s =
        λ fuel.
          rw (given, run_task)
            (ap (λ f. f start no_tokens s)
              (run_turns-eq api call_tool cfg (to_openai_tools api call_tool tools) streaming
                (deferred api call_tool streaming tools some_tool) fuel)) in
      let runs = converse_iff task_model call_tool streaming start s res chunks s' in
      (
        λ (fuel, e). runs.0 (fuel, sym (same fuel) ∙ e),
        λ x. let (fuel, e) = runs.1 x in (fuel, same fuel ∙ e),
      )
