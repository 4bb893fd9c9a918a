-- ===== src/Runtime/Provider.antt =====
-- internal/agent/providers/provider.go: the registry of model providers, and what a provider returns.
pub mod Conversation
pub mod Anthropic
pub mod OpenAi
pub mod Mock
use text.Mathlib.Text.{starts_with}
use agentops_operator.Prelude.{String, Bool, ◌||◌, Option, none, some, List, ◌==◌, if◌then◌else◌}
use agentops_operator.Prelude.Int64.{add64}
use agentops_operator.Prelude.Maps.{lookup, set_value}
use agentops_operator.Api.Meta.{Message, format, end, str, Result, ok, err}
use agentops_operator.Runtime.Queue.{TokenCounts}

-- What RunTask returns, besides its error: the text, and the tokens of all calls.
pub record TaskResult : Type 0 where
  pub text : String
  pub usage : TokenCounts
  pub error : Option Message

-- A run of RunTask: its result, the chunks that it handed to chunkFn, and the state of what its calls
-- reach.
pub data Run (S : Type 0) : Type 0 where
  returned : TaskResult → (chunks : List String) → S → Run S
  out_of_fuel : Run S

abbrev pub no_tokens : TokenCounts
no_tokens = record { input_tokens = 0; output_tokens = 0 }

-- usage.InputTokens += ..., usage.OutputTokens += ...
abbrev pub add_tokens : TokenCounts → TokenCounts → TokenCounts
add_tokens u t = record {
  input_tokens = add64 u.input_tokens t.input_tokens;
  output_tokens = add64 u.output_tokens t.output_tokens;
}

abbrev default_provider : String
default_provider = "anthropic"

module _ {Factory : Type 0} where
  unfoldable pub register : String → Factory → List (String × Factory) → List (String × Factory)
  unfolding set_value
  register name factory registry = set_value name factory registry

  unfoldable pub new_provider : List (String × Factory) → String → Result Factory
  new_provider registry given =
      let name = if given == "" then default_provider else given in
      elim (lookup name registry) [
        | some factory ↦ ok factory
        | none ↦
            err (format "unsupported provider %q; import its package to register it" (str name end))
      ]

unfoldable pub detect : String → String
detect model =
    if starts_with model "claude-"
    then default_provider
    else if starts_with model "gpt-"
        || starts_with model "o1"
        || starts_with model "o3"
        || starts_with model "o4"
    then "openai"
    else "openai"
