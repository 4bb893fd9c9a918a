-- ===== src/Flow/External.antt =====
-- Code outside the repository, and the template engine, as a record of functions without laws:
-- what is proved with it holds whatever they do.
use agentops_operator.Prelude.{ℕ, String, List, Option}
use agentops_operator.Api.Meta.{Condition, Result}

-- One entry of `.steps` in a template's data; `data` is the parsed JSON, where there is some.
pub record StepEntry (Json : Type 0) : Type 0 where
  pub output : String
  pub data_json : Option Json

-- The data that BuildTemplateData assembles: `.pipeline.input` and `.steps`.
pub record TemplateData (Json : Type 0) : Type 0 where
  pub input : List (String × String)
  pub steps : List (String × StepEntry Json)

pub record External : Type 1 where
  -- encoding/json: a parsed value, and `none` for an error
  pub Json : Type 0
  pub unmarshal : String → Option Json
  -- text/template: parse and execute with missingkey=zero
  pub execute : String → TemplateData Json → Result String
  -- apimachinery's meta.SetStatusCondition, at a time that it reads itself
  pub set_status_condition : ℕ → List Condition → Condition → List Condition
