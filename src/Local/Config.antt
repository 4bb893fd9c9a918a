-- ===== src/Local/Config.antt =====
-- internal/ark/local/executor.go: agentConfig and buildMCPManager.
use agentops_operator.Prelude.{
  String, Bool, ◌&&◌, Option, none, some, List, [], ◌∷◌, map, ◌==◌, if◌then◌else◌, is_some,
}
use agentops_operator.Prelude.Int64.{lt64}
use agentops_operator.Api.Agent.{ArkAgent, ArkonisLimits, McpServerSpec}
use agentops_operator.Runtime.Config.{Config, McpServerConfig}

abbrev pub ref_warning : String
ref_warning =
    "[warning: systemPromptRef cannot be resolved locally — set systemPrompt inline for ark run]"

unfoldable pub apply_limits : Option ArkonisLimits → Config → Config
apply_limits none cfg = cfg
apply_limits (some l) cfg = record cfg {
  max_tokens_per_call =
      if lt64 0 l.max_tokens_per_call then l.max_tokens_per_call else cfg.max_tokens_per_call;
  timeout_seconds = if lt64 0 l.timeout_seconds then l.timeout_seconds else cfg.timeout_seconds;
}

abbrev pub server_config : McpServerSpec → McpServerConfig
server_config s = record { name = s.name; url = s.url }

unfoldable pub agent_config : ArkAgent → Config
unfolding apply_limits
agent_config agent =
    let prompt = agent.spec.system_prompt in
    let cfg : Config = apply_limits agent.spec.limits (record {
      provider = "";
      model = agent.spec.model;
      system_prompt =
          if prompt == "" && is_some agent.spec.system_prompt_ref then ref_warning else prompt;
      mcp_servers = [];
      max_tokens_per_call = 8000;
      timeout_seconds = 120;
      task_queue_url = "";
      validator_prompt = "";
      max_retries = 0;
      webhook_tools = [];
    }) in
    record cfg { mcp_servers = map server_config agent.spec.mcp_servers }

-- The servers that buildMCPManager hands to the manager: those that answer, when `reachable` says
-- which do.
unfoldable pub reachable_servers :
    (McpServerConfig → Bool) → List McpServerConfig → List McpServerConfig
reachable_servers reachable [] = []
reachable_servers reachable (s ∷ ss) =
    let rest = reachable_servers reachable ss in if reachable s then s ∷ rest else rest

unfoldable pub mcp_servers_of :
    Bool → (McpServerConfig → Bool) → List McpServerConfig → List McpServerConfig
unfolding reachable_servers
mcp_servers_of no_mcp reachable servers = if no_mcp then [] else reachable_servers reachable servers
