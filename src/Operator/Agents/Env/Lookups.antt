-- ===== src/Operator/Agents/Env/Lookups.antt =====
-- Which part of an agent's container a variable comes from.
use agentops_operator.Prelude.{String, false, Option, none, some, List, ◌++◌, ◌≡◌, refl, ◌∙◌}
use agentops_operator.Api.Agent.{ArkAgent}
use agentops_operator.Api.Settings.{ArkSettings, ArkMemory}
use agentops_operator.Flow.Dag.{contains}
use agentops_operator.Operator.Agents.Env.{
  EnvValue, EnvVar, Marshal, build_settings_env_vars, build_memory_env_vars, base_env_vars,
  build_env_vars, validator_env_vars, tool_env_vars,
}
use agentops_operator.Operator.Agents.Env.Backend.{env_value, or_earlier, env_value-append}
use agentops_operator.Operator.Agents.Env.Names.{
  env_value-absent, validator_names, settings_names, memory_names, tool_names, validator-AreAmong,
  settings-AreAmong, memory-AreAmong, tools-AreAmong,
}

or_last : (x : Option EnvValue) → or_earlier x none ≡ x
or_last none = refl
or_last (some v) = refl

or_none :
    (x y z : Option EnvValue)
    → or_earlier (or_earlier (or_earlier (or_earlier x none) none) y) z
      ≡ or_earlier (or_earlier x y) z
or_none none y z = refl
or_none (some v) y z = refl

-- The variables of a container, part by part.
module _ (j : Marshal) (a : ArkAgent) (settings : Option ArkSettings) (memory : Option ArkMemory)
    (prompt : String) where
  abbrev vars : List EnvVar
  vars = build_env_vars j a settings memory prompt

  abbrev base : List EnvVar
  base = base_env_vars j a settings prompt

  abbrev probe : List EnvVar
  probe = validator_env_vars a.spec.liveness_probe

  abbrev tools : List EnvVar
  tools = tool_env_vars j a.spec.tools

  module _ (name : String) (not_settings : contains settings_names name ≡ false)
      (not_memory : contains memory_names name ≡ false) where
    -- A variable that is neither of the settings nor of the memory.
    env_value-parts :
        env_value name vars
        ≡ or_earlier
            (or_earlier (env_value name tools) (env_value name probe))
            (env_value name base)
    unfolding build_env_vars
    env_value-parts =
        let from_settings = build_settings_env_vars settings in
        let from_memory = build_memory_env_vars memory in
        env_value-append name base (probe ++ (from_settings ++ (from_memory ++ tools)))
        ∙ rw
            (
              env_value-append name probe (from_settings ++ (from_memory ++ tools)),
              env_value-append name from_settings (from_memory ++ tools),
              env_value-append name from_memory tools,
              env_value-absent name settings_names from_settings not_settings
                  (settings-AreAmong settings),
              env_value-absent name memory_names from_memory not_memory (memory-AreAmong memory),
            )
            (or_none (env_value name tools) (env_value name probe) (env_value name base))

    pub env_value-base :
        contains validator_names name ≡ false
        → contains tool_names name ≡ false
        → env_value name vars ≡ env_value name base
    env_value-base not_probe not_tools =
        env_value-parts
        ∙ rw
            (
              env_value-absent name tool_names tools not_tools (tools-AreAmong j a.spec.tools),
              env_value-absent name validator_names probe not_probe
                  (validator-AreAmong a.spec.liveness_probe),
            )
            refl

    pub env_value-probe :
        contains tool_names name ≡ false
        → env_value name base ≡ none
        → env_value name vars ≡ env_value name probe
    env_value-probe not_tools not_base =
        env_value-parts
        ∙ rw
            (
              env_value-absent name tool_names tools not_tools (tools-AreAmong j a.spec.tools),
              not_base,
            )
            (or_last (env_value name probe))

    pub env_value-tools :
        contains validator_names name ≡ false
        → env_value name base ≡ none
        → env_value name vars ≡ env_value name tools
    env_value-tools not_probe not_base =
        env_value-parts
        ∙ rw
            (
              env_value-absent name validator_names probe not_probe
                  (validator-AreAmong a.spec.liveness_probe),
              not_base,
            )
            (or_last (or_earlier (env_value name tools) none) ∙ or_last (env_value name tools))
