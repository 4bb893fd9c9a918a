-- ===== src/Local/Cli/Init.antt =====
-- cmd/ark/main.go: the command init. The file system is a parameter.
use Prim.Native.String.{◌++◌}
use agentops_operator.Prelude.{String, Bool, Option, none, some, List, [], ◌∷◌, if◌then◌else◌}
use agentops_operator.Api.Meta.{Message, format, end, str}

abbrev lines_of : List String → String
lines_of [] = ""
lines_of (l ∷ ls) = l ++ "\n" ++ lines_of ls

unfoldable pub init_quickstart_yaml : String → String
init_quickstart_yaml name = lines_of (
    "apiVersion: arkonis.dev/v1alpha1"
    ∷ "kind: ArkAgent"
    ∷ "metadata:"
    ∷ ("  name: " ++ name ++ "-agent")
    ∷ "spec:"
    ∷ "  model: claude-sonnet-4-20250514"
    ∷ "  systemPrompt: |"
    ∷ "    You are a helpful assistant. Answer questions clearly and concisely."
    ∷ "  limits:"
    ∷ "    maxTokensPerCall: 4000"
    ∷ "    timeoutSeconds: 60"
    ∷ "---"
    ∷ "apiVersion: arkonis.dev/v1alpha1"
    ∷ "kind: ArkFlow"
    ∷ "metadata:"
    ∷ ("  name: " ++ name ++ "-flow")
    ∷ "spec:"
    ∷ "  input:"
    ∷ "    question: \"What is a Kubernetes operator?\""
    ∷ "  steps:"
    ∷ "    - name: answer"
    ∷ ("      arkAgent: " ++ name ++ "-agent")
    ∷ "      inputs:"
    ∷ "        prompt: \"{{ .pipeline.input.question }}\""
    ∷ "  output: \"{{ .steps.answer.output }}\""
    ∷ [])

init_env_example : String
init_env_example = lines_of (
    "# Copy this file to .env and fill in your API keys." ∷ "" ∷ "# Required: LLM provider API key."
    ∷ "ANTHROPIC_API_KEY=sk-ant-..." ∷ "# OPENAI_API_KEY=sk-..." ∷ ""
    ∷ "# Required for Kubernetes deployments (not needed for ark run locally)."
    ∷ "TASK_QUEUE_URL=redis.ark-system.svc.cluster.local:6379" ∷ [])

init_docker_compose : String
init_docker_compose = lines_of (
    "# Local Redis for task queue — used when running the operator in a cluster."
    ∷ "# Not required for ark run locally." ∷ "services:" ∷ "  redis:" ∷ "    image: redis:7-alpine"
    ∷ "    ports:" ∷ "      - \"6379:6379\"" ∷ [])

-- What os.Stat, os.MkdirAll and os.WriteFile answer; `exists` is a Stat without an error. `order` is the
-- order in which the map of files is ranged over.
pub record FileSystem : Type 0 where
  pub exists : String → Bool
  pub mkdir_all : String → Option Message
  pub write_file : (path content : String) → Option Message
  pub order : List (String × String) → List (String × String)

-- The files that were written, the last of them perhaps not, and the error.
pub record Written : Type 0 where
  pub files : List (String × String)
  pub error : Option Message

unfoldable pub init_files : String → List (String × String)
unfolding init_quickstart_yaml init_env_example init_docker_compose
init_files name =
    ("quickstart.yaml", init_quickstart_yaml name)
    ∷ (".env.example", init_env_example)
    ∷ ("docker-compose.yml", init_docker_compose)
    ∷ []

module _ (fs : FileSystem) (name : String) where
  unfoldable pub write_files : List (String × String) → Written
  write_files [] = record { files = []; error = none }
  write_files ((filename, content) ∷ rest) =
      let path = name ++ "/" ++ filename in
      let later = write_files rest in
      elim (fs.write_file path content) [
        | some e ↦ record { files = (path, content) ∷ []; error = some e }
        | none ↦ record { files = (path, content) ∷ later.files; error = later.error }
      ]

  unfoldable pub init_project : Written
  unfolding write_files init_files
  init_project =
      if fs.exists name
      then record { files = []; error = some (format "directory %q already exists" (str name end)) }
      else elim (fs.mkdir_all name) [
        | some e ↦ record { files = []; error = some e }
        | none ↦ write_files (fs.order (init_files name))
      ]
