-- ===== src/Tests/Cli.antt =====
-- The command line, and memories, on small resources.
use agentops_operator.Prelude.{String, none, some, List, [], ◌∷◌, ◌≡◌, ◌↔◌, refl, length}
use agentops_operator.Api.Agent.{ArkAgent}
use agentops_operator.Api.Flow.{FlowPhase, Flow}
use agentops_operator.Api.Settings.{ArkMemory}
use agentops_operator.Flow.Dag.Graph.{HasKnownDeps, IsAcyclic}
use agentops_operator.Local.Loader.{split_docs}
use agentops_operator.Local.Cli.Init.{init_quickstart_yaml}
use agentops_operator.Local.Cli.Check.{dry_run}
use agentops_operator.Local.Cli.Accepts.{HasKnownAgents, dry_run-accepts_iff}
use agentops_operator.Operator.Memories.{validate_memory}
use agentops_operator.Operator.Memories.Connection.{IsReached, validate_memory-IsReached}
use agentops_operator.Tests.Samples.{meta, step, flow, worker}

abbrev pair : Flow
pair = flow FlowPhase.unset (step "b" ("a" ∷ []) ∷ step "a" [] ∷ []) []

abbrev known : List (String × ArkAgent)
known = ("worker", worker) ∷ []

dry_run-accepts_iff_example : ((dry_run known pair).error ≡ none) ↔ (
    HasKnownDeps pair.spec.steps × IsAcyclic pair.spec.steps × HasKnownAgents known pair.spec.steps)
dry_run-accepts_iff_example = dry_run-accepts_iff known pair

abbrev memory : ArkMemory
memory = record {
  meta = meta "memory";
  spec = record {
    backend = "redis";
    redis = some (record { secret_ref = "redis-url"; ttl_seconds = 0; max_entries = 0 });
    vector_store = none;
  };
  status = record { observed_generation = 0; conditions = [] };
}

validate_memory-IsReached_example : (validate_memory memory.spec ≡ none) ↔ IsReached memory
validate_memory-IsReached_example = validate_memory-IsReached memory

-- The project that init writes has an agent and a flow.
quickstart_docs : length (split_docs (init_quickstart_yaml "demo")) ≡ 2
unfolding split_docs init_quickstart_yaml
quickstart_docs = refl
