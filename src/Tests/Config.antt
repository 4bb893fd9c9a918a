-- ===== src/Tests/Config.antt =====
-- The configuration of an agent in its container.
use agentops_operator.Prelude.{
  String, false, none, some, [], ◌∷◌, ◌==◌, if◌then◌else◌, ◌≡◌, ◌≢◌, refl, arith, eq_iff,
}
use agentops_operator.Api.Meta.{ok}
use agentops_operator.Api.Agent.{ArkAgent}
use agentops_operator.Operator.Agents.Prompt.{merge_system_prompt}
use agentops_operator.Operator.Agents.Env.{
  Marshal, build_env_vars, max_tokens_of, timeout_of, positive_or,
}
use agentops_operator.Runtime.Config.{Decoder, load}
use agentops_operator.Runtime.Config.Injected.{
  Container, environment, in_cluster, load-build_env_vars,
}
use agentops_operator.Tests.Samples.{worker}

abbrev agent : ArkAgent
agent = record worker {
  spec = record worker.spec {
    mcp_servers = record { name = "files"; url = "http://files" } ∷ [];
    limits = some (record {
      max_tokens_per_call = 4000;
      max_concurrent_tasks = 0;
      timeout_seconds = 0;
      max_daily_tokens = 0;
    });
  };
}

abbrev marshal : Marshal
marshal = record { servers = λ ss. "[files]"; tools = λ ts. "[]" }

abbrev decoder : Decoder
decoder = record {
  servers = λ text. ok (record { name = "files"; url = "http://files" } ∷ []);
  tools = λ text. ok [];
}

abbrev container : Container
container = record {
  shared = λ name. if name == "TASK_QUEUE_URL" then "redis:6379" else "";
  field = λ path. "pod-1";
  secret = λ name key. "";
}

no_text : (s t : String) → (s == t) ≡ false → s ≢ t
no_text s t h e = ground (arith, (eq_iff s t).1 e)

load-build_env_vars_example :
    load decoder (environment container (build_env_vars marshal agent none none "be brief"))
    ≡ ok (in_cluster container agent none "be brief")
unfolding max_tokens_of timeout_of positive_or merge_system_prompt
load-build_env_vars_example =
    load-build_env_vars container marshal agent none none "be brief" decoder
      (no_text "claude-x" "" refl) (no_text "be brief" "" refl) (no_text "redis:6379" "" refl) refl
      refl refl (omega arith) (omega arith) refl (no_text "[files]" "" refl) refl
      (no_text "[]" "" refl)
