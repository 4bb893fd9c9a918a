-- ===== src/Local/Loader.antt =====
-- internal/ark/loader.go: the flows and agents of a file of YAML documents. The YAML decoder is a
-- parameter.
use Prim.Native.String.{[], ◌∷◌}
use text.Mathlib.Text.{starts_with}
use mathlib.Core.List as List
use agentops_operator.Prelude.{
  ℕ, zero, suc, ◌+◌, String, true, false, Option, none, some, List, ◌==◌, if◌then◌else◌,
}
use agentops_operator.Prelude.Text.{trim_space, drop_bytes}
use agentops_operator.Prelude.Maps.{set_value}
use agentops_operator.Prelude.Text.{push}
use agentops_operator.Api.Meta.{Message, format, end, num, wrap, Result, ok, err}
use agentops_operator.Api.Flow.{Flow}
use agentops_operator.Api.Agent.{ArkAgent}

-- bytes.SplitSeq(data, "\n---"); the first number counts the bytes of a separator that are still to be
-- passed over.
split_at_separators : ℕ → String → List String
unfolding push
split_at_separators skip [] = List.◌∷◌ "" List.[]
split_at_separators (suc skip) (c ∷ s) = split_at_separators skip s
split_at_separators zero (c ∷ s) = elim (starts_with (c ∷ s) "\n---") [
  | true ↦ List.◌∷◌ "" (split_at_separators 3 s)
  | false ↦ push c (split_at_separators zero s)
]

trim_marker : String → String
trim_marker s = if starts_with s "---" then drop_bytes s 3 else s

-- The documents that are not empty.
documents : List String → List String
unfolding trim_marker trim_space
documents List.[] = List.[]
documents (List.◌∷◌ part parts) =
    let rest = documents parts in
    let doc = trim_space (trim_marker (trim_space part)) in
    if doc == "" then rest else List.◌∷◌ doc rest

unfoldable pub split_docs : String → List String
unfolding split_at_separators documents
split_docs content = documents (split_at_separators zero content)

-- sigsyaml.Unmarshal: the kind of a document, which is empty where there is none; `none` is an error.
pub record Yaml : Type 0 where
  pub kind : String → Option String
  pub flow : String → Result Flow
  pub agent : String → Result ArkAgent

-- What was loaded. The agents are a map by name.
pub record Loaded : Type 0 where
  pub flows : List Flow
  pub agents : List (String × ArkAgent)

document_error : ℕ → String → Message → Message
document_error i kind e = format kind (num i (wrap e end))

unfoldable pub add_flow : ℕ → Result Flow → Loaded → Result Loaded
unfolding document_error
add_flow i (ok f) l = ok (record l { flows = List.◌++◌ l.flows (List.◌∷◌ f List.[]) })
add_flow i (err e) l = err (document_error i "document %d (ArkFlow): %w" e)

unfoldable pub add_agent : ℕ → Result ArkAgent → Loaded → Result Loaded
unfolding document_error set_value
add_agent i (ok a) l = ok (record l { agents = set_value a.meta.name a l.agents })
add_agent i (err e) l = err (document_error i "document %d (ArkAgent): %w" e)

-- One document; other kinds are skipped.
unfoldable pub add_document : Yaml → ℕ → String → Loaded → Result Loaded
unfolding add_flow add_agent
add_document y i part l = elim (y.kind part) [
  | none ↦ ok l
  | some kind ↦
      if kind == "ArkFlow"
      then add_flow i (y.flow part) l
      else if kind == "ArkAgent"
      then add_agent i (y.agent part) l
      else ok l
]

unfoldable pub add_documents : Yaml → ℕ → List String → Loaded → Result Loaded
unfolding add_document
add_documents y i List.[] l = ok l
add_documents y i (List.◌∷◌ part parts) l = elim (add_document y i part l) [
  | ok l' ↦ add_documents y (i + 1) parts l'
  | err e ↦ err e
]

unfoldable pub parse_docs : Yaml → String → Result Loaded
unfolding add_documents split_docs
parse_docs y content =
    add_documents y 0 (split_docs content) (record { flows = List.[]; agents = List.[] })
