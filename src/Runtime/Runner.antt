-- ===== src/Runtime/Runner.antt =====
-- internal/agent/runner/runner.go: the tools of an agent and their dispatch, and
-- internal/agent/health/health.go: the readiness probe.
use Prim.Native.String.{◌++◌}
use mathlib.Core.List as List
use agentops_operator.Prelude.{
  ℕ, String, Bool, ◌&&◌, ◌||◌, not, Option, none, some, List, [], ◌∷◌, map, ◌==◌, if◌then◌else◌,
  is_some, ltb, leb,
}
use agentops_operator.Prelude.Text.{trim_space, index}
use agentops_operator.Prelude.Maps.{lookup}
use agentops_operator.Api.Meta.{Message, format, plain, end, str, num, wrap, Result, ok, err}
use agentops_operator.Runtime.Config.{Config, WebhookToolConfig}
use agentops_operator.Runtime.Tools.{
  Tool, HttpReply, no_reply, http_reply, ToolCodec, Network, call_mcp_tool,
}
use agentops_operator.Runtime.Queue.{Task, Queue, Command, submit_prompt, submitted, text_or_none}
use agentops_operator.Runtime.Provider.{TaskResult}

abbrev pub submit_subtask_tool : String
submit_subtask_tool = "submit_subtask"

abbrev submit_schema : String
submit_schema =
    "{\"type\":\"object\",\"properties\":{\"prompt\":{\"type\":\"string\",\"description\":\"The task prompt to execute\"}},\"required\":[\"prompt\"]}"

-- Runner; its tools are computed by build_tools.
pub record Runner : Type 0 where
  pub config : Config
  pub mcp_tools : List Tool
  pub queue : Option Queue

webhook_tool : WebhookToolConfig → Tool
webhook_tool wt = record {
  name = wt.name;
  description = wt.description;
  input_schema = if wt.input_schema == "" then "{}" else wt.input_schema;
  server_url = "";
  original_name = "";
}

abbrev pub subtask_tool : Tool
subtask_tool = record {
  name = submit_subtask_tool;
  description =
      "Enqueue a new agent task for asynchronous processing. Returns the assigned task ID.";
  input_schema = submit_schema;
  server_url = "";
  original_name = "";
}

built_in_tools : Option Queue → List Tool
built_in_tools none = []
built_in_tools (some q) = subtask_tool ∷ []

unfoldable pub build_tools : Runner → List Tool
unfolding webhook_tool built_in_tools
build_tools r =
    List.◌++◌ (List.◌++◌ r.mcp_tools (map webhook_tool r.config.webhook_tools))
      (built_in_tools r.queue)

unfoldable pub find_webhook : String → List WebhookToolConfig → Option WebhookToolConfig
find_webhook name [] = none
find_webhook name (wt ∷ wts) =
    let rest = find_webhook name wts in if wt.name == name then some wt else rest

-- What a call of a tool reaches: the network, Redis, and the functions of the standard library that
-- read JSON or turn a text to upper case. `prompt_of` decodes the input of submit_subtask.
pub record Reached (S : Type 0) : Type 0 where
  pub codec : ToolCodec
  pub net : Network S
  pub upper : String → String
  pub prompt_of : String → Result String
  pub xadd : Command → S → Result String × S

-- The reply to a webhook.
webhook_answer : String → HttpReply → Result String
webhook_answer name (no_reply e) =
    err (format "webhook tool %q: request failed: %w" (str name (wrap e end)))
webhook_answer name (http_reply status (err e)) =
    err (format "webhook tool %q: reading response: %w" (str name (wrap e end)))
webhook_answer name (http_reply status (ok body)) =
    if ltb status 200 || leb 300 status
    then err
        (format "webhook tool %q: server returned %d: %s" (str name (num status (str body end))))
    else ok body

module _ {S : Type 0} (w : Reached S) where
  unfoldable pub method_of : WebhookToolConfig → String
  method_of wt = let method = w.upper wt.method in if method == "" then "POST" else method

  unfoldable pub call_webhook : WebhookToolConfig → String → S → Result String × S
  unfolding webhook_answer method_of
  call_webhook wt input s =
      let method = method_of wt in
      let body = if not (method == "GET") && not (input == "") then some input else none in
      elim (w.net.valid method wt.url) [
        | some e ↦
            (err (format "webhook tool %q: building request: %w" (str wt.name (wrap e end))), s)
        | none ↦ (
          webhook_answer wt.name (w.net.send method wt.url body s),
          w.net.after method wt.url body s,
        )
      ]

  id_message : Result String → Result String
  id_message (ok id) = ok ("subtask submitted with id: " ++ id)
  id_message (err e) = err e

  -- The built-in tool.
  unfoldable pub submit_subtask : Queue → String → S → Result String × S
  unfolding id_message
  submit_subtask q input s = elim (w.prompt_of input) [
    | err e ↦ (err (format "submit_subtask: invalid input: %w" (wrap e end)), s)
    | ok prompt ↦
        if trim_space prompt == ""
        then (err (plain "submit_subtask: prompt must not be empty"), s)
        else (
          id_message (submitted q (w.xadd (submit_prompt q prompt) s).0),
          (w.xadd (submit_prompt q prompt) s).1,
        )
  ]

  -- The tools of the configuration, and then those of the servers.
  call_configured : Runner → String → String → S → Result String × S
  unfolding find_webhook
  call_configured r name input s = elim (find_webhook name r.config.webhook_tools) [
    | some wt ↦ call_webhook wt input s
    | none ↦ call_mcp_tool w.codec w.net r.mcp_tools name input s
  ]

  unfoldable pub call_tool : Runner → String → String → S → Result String × S
  unfolding call_configured
  call_tool r name input s = elim r.queue [
    | none ↦ call_configured r name input s
    | some q ↦
        if name == submit_subtask_tool
        then submit_subtask q input s
        else call_configured r name input s
  ]

-- task.Meta["stream_key"]
unfoldable pub stream_key_of : Task → String
unfolding text_or_none
stream_key_of task = text_or_none (lookup "stream_key" task.meta)

-- Whether RunTask hands a chunk function to the provider.
unfoldable pub is_streaming : Runner → Task → Bool
unfolding stream_key_of
is_streaming r task = not (stream_key_of task == "") && is_some r.queue

-- GET /readyz: the status, and the text of the answer. `run` is RunTask on the validator prompt.
unfoldable pub readyz : String → (String → TaskResult) → ℕ × Message
readyz validator_prompt run =
    if validator_prompt == ""
    then (200, plain "ready")
    else let result = run validator_prompt in
      elim result.error [
        | some e ↦ (503, format "semantic check failed: %s" (wrap e end))
        | none ↦
            if is_some (index result.text "HEALTHY")
            then (200, plain "ready")
            else (503, format "unexpected response: %s" (str result.text end))
      ]
