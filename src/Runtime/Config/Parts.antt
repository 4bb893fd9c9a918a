-- ===== src/Runtime/Config/Parts.antt =====
-- The parts of Load on a variable that is set, and on one that is not.
use agentops_operator.Prelude.{
  ℕ, String, List, [], ◌≡◌, ◌≢◌, ◌<◌, refl, sym, ◌∙◌, ap, inl, inr, name_cases,
}
use agentops_operator.Prelude.Int64.{two64}
use agentops_operator.Prelude.Decimal.{itoa, atoi-itoa, itoa_cases}
use agentops_operator.Api.Meta.{Result, ok}
use agentops_operator.Runtime.Config.{
  McpServerConfig, WebhookToolConfig, Decoder, require_env, number_env, list_env, load,
}

pub given :
    (env : String → String) (key v : String) → env key ≡ v → v ≢ "" → require_env env key ≡ ok v
unfolding require_env
given env key v e some_text = elim (name_cases (env key) "") [
  | inl (empty, b) ↦ absurd (some_text (sym e ∙ empty))
  | inr (_, b) ↦ rw (b, require_env) (ap ok e)
]

itoa-ne-empty : (n : ℕ) → n < two64 → itoa n ≢ ""
itoa-ne-empty n h e = elim (itoa_cases n h) [ inl (_, c, s, f, _) ↦ cc | inr (_, s, f, _) ↦ cc ]

pub number_given :
    (env : String → String) (key : String) (fallback n : ℕ)
    → env key ≡ itoa n
    → n < two64
    → number_env env key fallback ≡ ok n
unfolding number_env
number_given env key fallback n e h = elim (name_cases (env key) "") [
  | inl (empty, b) ↦ absurd (itoa-ne-empty n h (sym e ∙ empty))
  | inr (_, b) ↦ rw (b, number_env) (rw (e, atoi-itoa n h) refl)
]

pub number_absent :
    (env : String → String) (key : String) (fallback : ℕ)
    → env key ≡ ""
    → number_env env key fallback ≡ ok fallback
unfolding number_env
number_absent env key fallback e = rw (e, number_env) refl

module _ {ℓ} {A : Type ℓ} (decode : String → Result (List A)) (env : String → String)
    (key : String) where
  pub list_given :
      (text : String) (xs : List A)
      → env key ≡ text
      → text ≢ ""
      → decode text ≡ ok xs
      → list_env decode env key ≡ ok xs
  unfolding list_env
  list_given text xs e some_text back = elim (name_cases (env key) "") [
    | inl (empty, b) ↦ absurd (some_text (sym e ∙ empty))
    | inr (_, b) ↦ rw (b, list_env) (rw (e, back) refl)
  ]

  pub list_absent : env key ≡ "" → list_env decode env key ≡ ok []
  unfolding list_env
  list_absent e = rw (e, list_env) refl

-- Load, from the results of its parts.
pub load-parts :
    (d : Decoder) (env : String → String) (model prompt url : String) (tokens timeout retries : ℕ)
    (servers : List McpServerConfig) (tools : List WebhookToolConfig)
    → require_env env "AGENT_MODEL" ≡ ok model
    → require_env env "AGENT_SYSTEM_PROMPT" ≡ ok prompt
    → require_env env "TASK_QUEUE_URL" ≡ ok url
    → number_env env "AGENT_MAX_TOKENS" 8000 ≡ ok tokens
    → number_env env "AGENT_TIMEOUT_SECONDS" 120 ≡ ok timeout
    → list_env d.servers env "AGENT_MCP_SERVERS" ≡ ok servers
    → number_env env "AGENT_MAX_RETRIES" 3 ≡ ok retries
    → list_env d.tools env "AGENT_WEBHOOK_TOOLS" ≡ ok tools
    → load d env
      ≡ ok (record {
        provider = env "AGENT_PROVIDER";
        model = model;
        system_prompt = prompt;
        mcp_servers = servers;
        max_tokens_per_call = tokens;
        timeout_seconds = timeout;
        task_queue_url = url;
        validator_prompt = env "AGENT_VALIDATOR_PROMPT";
        max_retries = retries;
        webhook_tools = tools;
      })
unfolding load
load-parts d env model prompt url tokens timeout retries servers tools h1 h2 h3 h4 h5 h6 h7 h8 =
    rw (h1, h2, h3, h4, h5, h6, h7, h8, load) refl
