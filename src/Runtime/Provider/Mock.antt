-- ===== src/Runtime/Provider/Mock.antt =====
-- internal/agent/providers/mock/provider.go: canned replies.
use Prim.Native.String.{[], ◌∷◌, len}
use Prim.Native.Char.{code}
use agentops_operator.Prelude.{
  ℕ, ◌/◌, String, Bool, Option, none, some, List, ◌==◌, if◌then◌else◌, is_some,
}
use agentops_operator.Prelude.Text.{is_space, index}
use agentops_operator.Prelude.Int64.{lt64}
use agentops_operator.Api.Meta.{Message}
use agentops_operator.Runtime.Provider.{TaskResult, no_tokens}

-- Provider. The responses come in the order in which the map is ranged over.
pub record MockProvider : Type 0 where
  pub responses : List (String × String)
  pub fallback : String
  pub delay : ℕ

-- strings.Fields: the word that is being read, and the words after it.
fields_from : String → String × List String
unfolding is_space
fields_from [] = ("", List.[])
fields_from (c ∷ s) =
    let (word, words) = fields_from s in
    if is_space (code c)
    then ("", if word == "" then words else List.◌∷◌ word words)
    else (c ∷ word, words)

unfoldable pub fields : String → List String
unfolding fields_from
fields s = let (word, words) = fields_from s in if word == "" then words else List.◌∷◌ word words

-- The chunks of a reply: its words, with a space before each but the first.
later_chunks : List String → List String
later_chunks List.[] = List.[]
later_chunks (List.◌∷◌ w ws) = List.◌∷◌ " " (List.◌∷◌ w (later_chunks ws))

unfoldable pub word_chunks : List String → List String
unfolding later_chunks
word_chunks List.[] = List.[]
word_chunks (List.◌∷◌ w ws) = List.◌∷◌ w (later_chunks ws)

-- `lower` is strings.ToLower.
module _ (lower : String → String) where
  matching : String → List (String × String) → Option String
  matching prompt List.[] = none
  matching prompt (List.◌∷◌ (key, reply) rest) =
      let others = matching prompt rest in
      if is_some (index prompt (lower key)) then some reply else others

  unfoldable pub match_reply : MockProvider → String → String
  unfolding matching
  match_reply p prompt = elim (matching (lower prompt) p.responses) [
    | some reply ↦ reply
    | none ↦ if p.fallback == "" then "mock response" else p.fallback
  ]

  -- RunTask; `cancelled` is the error of a context that ends during the delay.
  unfoldable pub run_task : MockProvider → Option Message → String → Bool → TaskResult × List String
  unfolding match_reply fields word_chunks
  run_task p cancelled prompt streaming =
      let reply = match_reply p prompt in
      elim (if lt64 0 p.delay then cancelled else none) [
        | some e ↦ (record { text = ""; usage = no_tokens; error = some e }, List.[])
        | none ↦ (
          record {
            text = reply;
            usage = record { input_tokens = len prompt / 4; output_tokens = len reply / 4 };
            error = none;
          },
          if streaming then word_chunks (fields reply) else List.[],
        )
      ]
