-- ===== src/Runtime/Config/Injected.antt =====
-- The configuration of an agent whose container the operator has made: from the environment that
-- buildEnvVars writes to what Load reads.
use agentops_operator.Prelude.{
  String, Option, none, some, List, [], ◌∷◌, map, if◌then◌else◌, ◌≡◌, ◌≢◌, ◌<◌, refl, sym, ◌∙◌, ap,
  inl, inr, name_cases, Bool-cases, Option-cases,
}
use agentops_operator.Prelude.Int64.{two64}
use agentops_operator.Prelude.Decimal.{itoa}
use agentops_operator.Api.Meta.{ok}
use agentops_operator.Api.Agent.{ArkAgent, ArkonisProbe, WebhookToolSpec}
use agentops_operator.Api.Settings.{ArkSettings, ArkMemory}
use agentops_operator.Flow.Dag.{contains}
use agentops_operator.Local.Config.{agent_config, apply_limits, server_config}
use agentops_operator.Operator.Agents.Prompt.{merge_system_prompt}
use agentops_operator.Operator.Agents.Env.{
  EnvValue, literal, decimal, secret_key, field_ref, EnvVar, Marshal, optional_text,
  validator_env_vars, tool_env_vars, base_env_vars, build_env_vars, is_semantic, max_tokens_of,
  timeout_of, positive_or,
}
use agentops_operator.Operator.Agents.Env.Backend.{env_value}
use agentops_operator.Operator.Agents.Env.Lookups.{env_value-base, env_value-probe, env_value-tools}
use agentops_operator.Runtime.Config.{WebhookToolConfig, Config, Decoder, list_env, load}
use agentops_operator.Runtime.Config.Parts.{
  given, number_given, number_absent, list_given, list_absent, load-parts,
}

-- What Kubernetes gives to a container: the variables of a shared secret, which those of the container
-- override, the fields of its pod, and the keys of secrets.
pub record Container : Type 0 where
  pub shared : String → String
  pub field : String → String
  pub secret : String → String → String

abbrev value_text : Container → EnvValue → String
value_text c (literal s) = s
value_text c (decimal n) = itoa n
value_text c (secret_key s k) = c.secret s k
value_text c (field_ref p) = c.field p

abbrev text_or : Container → String → Option EnvValue → String
text_or c name none = c.shared name
text_or c name (some v) = value_text c v

-- os.Getenv in the container.
abbrev pub environment : Container → List EnvVar → String → String
environment c vs name = text_or c name (env_value name vs)

abbrev pub tool_config : WebhookToolSpec → WebhookToolConfig
tool_config t = record {
  name = t.name;
  description = t.description;
  url = t.url;
  method = t.method;
  input_schema = t.input_schema;
}

-- The prompt of a semantic probe.
abbrev pub probe_prompt : Option ArkonisProbe → String
probe_prompt none = ""
probe_prompt (some p) = if is_semantic p.type then p.validator_prompt else ""

-- The configuration that ark run makes of the agent, with what only a cluster has.
abbrev pub in_cluster : Container → ArkAgent → Option ArkSettings → String → Config
in_cluster c a settings prompt = record (agent_config a) {
  provider = c.shared "AGENT_PROVIDER";
  system_prompt = merge_system_prompt prompt settings;
  task_queue_url = c.shared "TASK_QUEUE_URL";
  validator_prompt = probe_prompt a.spec.liveness_probe;
  max_retries = 3;
  webhook_tools = map tool_config a.spec.tools;
}

-- agentConfig and buildEnvVars read an agent alike.
local_fields :
    (a : ArkAgent)
    → ((agent_config a).model ≡ a.spec.model)
      × ((agent_config a).mcp_servers ≡ map server_config a.spec.mcp_servers)
      × ((agent_config a).max_tokens_per_call ≡ max_tokens_of a.spec.limits)
      × ((agent_config a).timeout_seconds ≡ timeout_of a.spec.limits)
unfolding agent_config apply_limits max_tokens_of timeout_of positive_or
local_fields a = elim (Option-cases a.spec.limits) [
  | inl e ↦ rw (e, agent_config) (refl, refl, refl, refl)
  | inr (l, e) ↦ rw (e, agent_config) (refl, refl, refl, refl)
]

probe_value :
    (c : Container) (p : Option ArkonisProbe)
    → c.shared "AGENT_VALIDATOR_PROMPT" ≡ ""
    → text_or c "AGENT_VALIDATOR_PROMPT" (env_value "AGENT_VALIDATOR_PROMPT" (validator_env_vars p))
      ≡ probe_prompt p
unfolding validator_env_vars optional_text
probe_value c none unset = unset
probe_value c (some p) unset = elim (Bool-cases (is_semantic p.type)) [
  | inr b ↦ rw (b, validator_env_vars) unset
  | inl b ↦ elim (name_cases p.validator_prompt "") [
    | inl (empty, e) ↦ rw (b, e, validator_env_vars, optional_text) (unset ∙ sym empty)
    | inr (_, e) ↦ rw (b, e, validator_env_vars, optional_text) refl
  ]
]

tools_value :
    (c : Container) (j : Marshal) (d : Decoder) (env : String → String) (ts : List WebhookToolSpec)
    → c.shared "AGENT_WEBHOOK_TOOLS" ≡ ""
    → d.tools (j.tools ts) ≡ ok (map tool_config ts)
    → j.tools ts ≢ ""
    → env "AGENT_WEBHOOK_TOOLS"
      ≡ text_or c "AGENT_WEBHOOK_TOOLS" (env_value "AGENT_WEBHOOK_TOOLS" (tool_env_vars j ts))
    → list_env d.tools env "AGENT_WEBHOOK_TOOLS" ≡ ok (map tool_config ts)
unfolding tool_env_vars
tools_value c j d env [] unset back text e =
    list_absent d.tools env "AGENT_WEBHOOK_TOOLS" (e ∙ unset)
tools_value c j d env (t ∷ ts) unset back text e =
    list_given d.tools env "AGENT_WEBHOOK_TOOLS" (j.tools (t ∷ ts)) (map tool_config (t ∷ ts)) e
      text back

module _ (c : Container) (j : Marshal) (a : ArkAgent) (settings : Option ArkSettings)
    (memory : Option ArkMemory) (prompt : String) where
  abbrev env : String → String
  env = environment c (build_env_vars j a settings memory prompt)

  -- A container that the operator makes for an agent, with a task queue in the shared secret, starts with
  -- the configuration that ark run makes of the agent, save for the prompt, which is the resolved one
  -- with the fragments of the settings, and with the provider and the queue of the secret, the prompt
  -- of its semantic probe, three retries and its tools. The model and the prompt are not empty, the
  -- limits are 64-bit patterns, the secret sets no validator prompt, retries or tools, and the JSON
  -- of its servers and tools is a text that reads back.
  pub load-build_env_vars :
      (d : Decoder)
      → a.spec.model ≢ ""
      → merge_system_prompt prompt settings ≢ ""
      → c.shared "TASK_QUEUE_URL" ≢ ""
      → c.shared "AGENT_VALIDATOR_PROMPT" ≡ ""
      → c.shared "AGENT_MAX_RETRIES" ≡ ""
      → c.shared "AGENT_WEBHOOK_TOOLS" ≡ ""
      → max_tokens_of a.spec.limits < two64
      → timeout_of a.spec.limits < two64
      → d.servers (j.servers a.spec.mcp_servers) ≡ ok (map server_config a.spec.mcp_servers)
      → j.servers a.spec.mcp_servers ≢ ""
      → d.tools (j.tools a.spec.tools) ≡ ok (map tool_config a.spec.tools)
      → j.tools a.spec.tools ≢ ""
      → load d (environment c (build_env_vars j a settings memory prompt))
        ≡ ok (in_cluster c a settings prompt)
  unfolding base_env_vars contains
  load-build_env_vars d model some_prompt url no_probe no_retries no_tools small_tokens
        small_timeout servers_back servers_text tools_back tools_text =
      let at : (name : String)
          → env_value name (build_env_vars j a settings memory prompt)
            ≡ env_value name (base_env_vars j a settings prompt)
          → env name ≡ text_or c name (env_value name (base_env_vars j a settings prompt)) =
        λ name e. ap (text_or c name) e in
      let (model_eq, servers_eq, tokens_eq, timeout_eq) = local_fields a in
      let set = env_value-base j a settings memory prompt in
      load-parts d env a.spec.model (merge_system_prompt prompt settings)
        (c.shared "TASK_QUEUE_URL") (max_tokens_of a.spec.limits) (timeout_of a.spec.limits) 3
        (map server_config a.spec.mcp_servers) (map tool_config a.spec.tools)
        (given env "AGENT_MODEL" a.spec.model
          (at "AGENT_MODEL" (set "AGENT_MODEL" refl refl refl refl)) model)
        (given env "AGENT_SYSTEM_PROMPT" (merge_system_prompt prompt settings)
          (at "AGENT_SYSTEM_PROMPT" (set "AGENT_SYSTEM_PROMPT" refl refl refl refl)) some_prompt)
        (given env "TASK_QUEUE_URL" (c.shared "TASK_QUEUE_URL")
          (at "TASK_QUEUE_URL" (set "TASK_QUEUE_URL" refl refl refl refl)) url)
        (number_given env "AGENT_MAX_TOKENS" 8000 (max_tokens_of a.spec.limits)
          (at "AGENT_MAX_TOKENS" (set "AGENT_MAX_TOKENS" refl refl refl refl)) small_tokens)
        (number_given env "AGENT_TIMEOUT_SECONDS" 120 (timeout_of a.spec.limits)
          (at "AGENT_TIMEOUT_SECONDS" (set "AGENT_TIMEOUT_SECONDS" refl refl refl refl))
          small_timeout)
        (list_given d.servers env "AGENT_MCP_SERVERS" (j.servers a.spec.mcp_servers)
          (map server_config a.spec.mcp_servers)
          (at "AGENT_MCP_SERVERS" (set "AGENT_MCP_SERVERS" refl refl refl refl)) servers_text
          servers_back)
        (number_absent env "AGENT_MAX_RETRIES" 3
          (at "AGENT_MAX_RETRIES" (set "AGENT_MAX_RETRIES" refl refl refl refl) ∙ no_retries))
        (tools_value c j d env a.spec.tools no_tools tools_back tools_text (
          ap (text_or c "AGENT_WEBHOOK_TOOLS")
            (env_value-tools j a settings memory prompt "AGENT_WEBHOOK_TOOLS" refl refl refl refl)))
      ∙ ap ok (
          rw
            (
              model_eq,
              servers_eq,
              tokens_eq,
              timeout_eq,
              at "AGENT_PROVIDER" (set "AGENT_PROVIDER" refl refl refl refl),
              ap (text_or c "AGENT_VALIDATOR_PROMPT") (
                  env_value-probe j a settings memory prompt "AGENT_VALIDATOR_PROMPT" refl refl refl
                    refl),
              probe_value c a.spec.liveness_probe no_probe,
            )
            refl)
