-- ===== src/Flow/Template.antt =====
-- internal/flow/template.go: truth values, template resolution, prompts and template data.
use Prim.Native.String.{◌++◌}
use agentops_operator.Prelude.{
  ℕ, ◌+◌, String, Bool, true, false, ◌&&◌, not, none, List, [], ◌∷◌, ◌==◌, if◌then◌else◌, is_some,
  leb, eqb,
}
use agentops_operator.Prelude.Text.{codes, trim_space}
use agentops_operator.Api.Meta.{format, end, str, wrap, Result, ok, err}
use agentops_operator.Api.Flow.{FlowStep, FlowSpec, StepStatus}
use agentops_operator.Flow.External.{External, StepEntry, TemplateData}
use agentops_operator.Flow.Status.{status_of}

-- unicode.ToLower, on the letters of ASCII alone: no other letter has a lower case that occurs in
-- the words that is_truthy compares with.
to_lower : ℕ → ℕ
to_lower c = if leb b'A' c && leb c b'Z' then c + 32 else c

same_lower : List ℕ → List ℕ → Bool
unfolding to_lower
same_lower [] [] = true
same_lower (c ∷ s) (d ∷ w) = eqb (to_lower c) d && same_lower s w
same_lower _ _ = false

-- strings.ToLower(s) == w. Lower case changes no space, so the text may be trimmed first.
unfoldable pub is_word : String → String → Bool
unfolding same_lower
is_word s w = same_lower (codes s) (codes w)

unfoldable pub is_truthy : String → Bool
unfolding is_word trim_space
is_truthy s =
    let t = trim_space s in
    not (t == "") && not (is_word t "false") && not (is_word t "0") && not (is_word t "no")

unfoldable pub truthy_result : Result String → Bool
unfolding is_truthy
truthy_result (ok s) = is_truthy s
truthy_result (err e) = false

-- The part of ResolvePrompt below its loop.
append_schema : String → String → String
append_schema schema buf =
    if schema == ""
    then buf
    else buf ++ "\nRespond with valid JSON matching this schema:\n" ++ schema ++ "\n"

module _ (ext : External) where
  open ext use {Json, unmarshal, execute}

  unfoldable pub resolve_template : String → TemplateData Json → Result String
  resolve_template tmpl data_map = execute tmpl data_map

  -- `for key, tmplStr := range step.Inputs`, in the order in which the map is ranged over.
  resolve_inputs : TemplateData Json → List (String × String) → String → Result String
  unfolding resolve_template
  resolve_inputs data_map [] buf = ok buf
  resolve_inputs data_map ((key, tmpl) ∷ rest) buf = elim (resolve_template tmpl data_map) [
    | ok resolved ↦ resolve_inputs data_map rest (buf ++ key ++ ": " ++ resolved ++ "\n")
    | err e ↦ err (format "input %q: %w" (str key (wrap e end)))
  ]

  finish_prompt : String → Result String → Result String
  unfolding append_schema
  finish_prompt schema (ok buf) = ok (append_schema schema buf)
  finish_prompt schema (err e) = err e

  unfoldable pub resolve_prompt : FlowStep → TemplateData Json → Result String
  unfolding resolve_inputs finish_prompt
  resolve_prompt step data_map =
      finish_prompt step.output_schema (resolve_inputs data_map step.inputs "")

  unfoldable pub entry_of : StepStatus → StepEntry Json
  entry_of st = record {
    output = st.output;
    data_json = if st.output_json == "" then none else unmarshal st.output_json;
  }

  -- `for name, st := range statusByName`: a status that a later one shadows is not in the map.
  unfoldable pub step_entries : List StepStatus → List (String × StepEntry Json)
  unfolding entry_of status_of
  step_entries [] = []
  step_entries (st ∷ sts) =
      let rest = step_entries sts in
      if is_some (status_of st.name sts) then rest else (st.name, entry_of st) ∷ rest

  unfoldable pub build_template_data : FlowSpec → List StepStatus → TemplateData Json
  unfolding step_entries
  build_template_data spec sts = record { input = spec.input; steps = step_entries sts }
