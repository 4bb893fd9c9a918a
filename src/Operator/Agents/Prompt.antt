-- ===== src/Operator/Agents/Prompt.antt =====
-- internal/controller/arkagent_controller.go: mergeSystemPrompt, resolveSystemPrompt, flowToAgents,
-- configMapToAgents and secretToAgents.
pub mod Watched
use Prim.Native.String.{◌++◌}
use agentops_operator.Prelude.{
  String, Bool, true, false, ◌||◌, Option, none, some, List, [], ◌∷◌, ◌==◌, if◌then◌else◌,
}
use agentops_operator.Api.Meta.{Message, format, plain, end, str, wrap, Result, ok, err}
use agentops_operator.Api.Flow.{FlowStep, Flow}
use agentops_operator.Api.Agent.{ArkAgent, AgentSpec, SystemPromptSource, KeySelector}
use agentops_operator.Api.Settings.{ArkSettings}
use agentops_operator.Operator.Reconcile.{Get, found, not_found, get_error}

unfoldable pub merge_system_prompt : String → Option ArkSettings → String
merge_system_prompt base none = base
merge_system_prompt base (some s) =
    let persona = s.spec.prompt_fragments.persona in
    let rules = s.spec.prompt_fragments.output_rules in
    let start = if persona == "" then base else persona ++ "\n\n" ++ base in
    if rules == "" then start else start ++ "\n\n" ++ rules

-- The data of a ConfigMap or a Secret.
unfoldable pub data_value : String → List (String × String) → Option String
data_value key [] = none
data_value key ((k, v) ∷ rest) = if k == key then some v else data_value key rest

-- A read of one key, with the formats of its two errors.
unfoldable pub read_key :
    String → String → KeySelector → Get {0} (List (String × String)) → Result String
unfolding data_value
read_key unread missing sel not_found =
    err (format unread (str sel.name (wrap (plain "not found") end)))
read_key unread missing sel (get_error e) = err (format unread (str sel.name (wrap e end)))
read_key unread missing sel (found data_map) = elim (data_value sel.key data_map) [
  | none ↦ err (format missing (str sel.key (str sel.name end)))
  | some v ↦ ok v
]

-- The reads of a ConfigMap and of a Secret in the agent's namespace.
pub record Sources : Type 0 where
  pub config_map : String → Get {0} (List (String × String))
  pub secret : String → Get {0} (List (String × String))

unfoldable pub read_source : Sources → AgentSpec → SystemPromptSource → Result String
unfolding read_key
read_source src spec ref = elim ref.config_map_key_ref [
  | some sel ↦
      read_key "reading ConfigMap %q for systemPromptRef: %w" "key %q not found in ConfigMap %q" sel
        (src.config_map sel.name)
  | none ↦ elim ref.secret_key_ref [
    | some sel ↦
        read_key "reading Secret %q for systemPromptRef: %w" "key %q not found in Secret %q" sel
          (src.secret sel.name)
    | none ↦ ok spec.system_prompt
  ]
]

unfoldable pub resolve_system_prompt : Sources → AgentSpec → Result String
unfolding read_source
resolve_system_prompt src spec = elim spec.system_prompt_ref [
  | none ↦ ok spec.system_prompt
  | some ref ↦ read_source src spec ref
]

is_seen : String → List String → Bool
is_seen name [] = false
is_seen name (n ∷ ns) = n == name || is_seen name ns

agents_of : List FlowStep → List String → List String
unfolding is_seen
agents_of [] seen = []
agents_of (s ∷ ss) seen =
    let same = agents_of ss seen in
    let more = agents_of ss (s.ark_agent ∷ seen) in
    if s.ark_agent == ""
    then same
    else if is_seen s.ark_agent seen
    then same
    else s.ark_agent ∷ more

-- The names of the agents to reconcile, each once.
unfoldable pub flow_to_agents : Flow → List String
unfolding agents_of
flow_to_agents f = agents_of f.spec.steps []

refers_to : String → Option KeySelector → Bool
refers_to name none = false
refers_to name (some sel) = sel.name == name

by_config_map : String → Option SystemPromptSource → Bool
unfolding refers_to
by_config_map name none = false
by_config_map name (some ref) = refers_to name ref.config_map_key_ref

by_secret : String → Option SystemPromptSource → Bool
unfolding refers_to
by_secret name none = false
by_secret name (some ref) = refers_to name ref.secret_key_ref

unfoldable pub config_map_to_agents : String → List ArkAgent → List String
unfolding by_config_map
config_map_to_agents name [] = []
config_map_to_agents name (a ∷ rest) =
    let others = config_map_to_agents name rest in
    if by_config_map name a.spec.system_prompt_ref then a.meta.name ∷ others else others

unfoldable pub secret_to_agents : String → List ArkAgent → List String
unfolding by_secret
secret_to_agents name [] = []
secret_to_agents name (a ∷ rest) =
    let others = secret_to_agents name rest in
    if by_secret name a.spec.system_prompt_ref then a.meta.name ∷ others else others
