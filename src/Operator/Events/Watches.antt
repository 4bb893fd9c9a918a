-- ===== src/Operator/Events/Watches.antt =====
-- internal/controller/arkevent_controller.go: flowToTriggers of SetupWithManager.
use agentops_operator.Prelude.{
  String, Bool, true, false, ◌&&◌, Option, none, some, List, [], ◌∷◌, ◌==◌, if◌then◌else◌,
}
use agentops_operator.Api.Flow.{Flow}
use agentops_operator.Api.Event.{ArkEvent, PipelineOutputSource, TriggerSourceType, pipeline_output}
use agentops_operator.Flow.Status.{is_terminal_phase}

is_pipeline_output : TriggerSourceType → Bool
is_pipeline_output pipeline_output = true
is_pipeline_output _ = false

names_flow : String → Option PipelineOutputSource → Bool
names_flow name none = false
names_flow name (some src) = src.name == name

unfoldable pub watches_flow : String → ArkEvent → Bool
unfolding is_pipeline_output names_flow
watches_flow name e =
    is_pipeline_output e.spec.source.type && names_flow name e.spec.source.pipeline_output_ref

watching : String → List ArkEvent → List String
unfolding watches_flow
watching name [] = []
watching name (e ∷ es) =
    let rest = watching name es in if watches_flow name e then e.meta.name ∷ rest else rest

-- The events to reconcile after a change of a flow, among those of its namespace.
unfoldable pub flow_to_triggers : Flow → List ArkEvent → List String
unfolding watching
flow_to_triggers f events =
    if is_terminal_phase f.status.phase then watching f.meta.name events else []
