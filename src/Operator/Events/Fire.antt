-- ===== src/Operator/Events/Fire.antt =====
-- internal/controller/arkevent_controller.go: hasRunningFlow, resolveTriggerTemplate, buildFlow and
-- fire.
pub mod Dispatch
use Prim.Native.String.{◌++◌}
use agentops_operator.Prelude.{
  ℕ, String, Bool, true, false, ◌&&◌, ◌||◌, Option, none, some, List, [], ◌∷◌, ◌==◌, if◌then◌else◌,
  snoc,
}
use agentops_operator.Prelude.Maps.{set_value, lookup}
use agentops_operator.Api.Meta.{Message, format, plain, end, str, wrap, Result, ok, err, ObjectMeta}
use agentops_operator.Api.Flow.{FlowPhase, Flow, FlowSpec, FlowStatus}
use agentops_operator.Api.Event.{
  ArkEvent, EventTarget, ConcurrencyPolicy, allow, forbid, unspecified,
}
use agentops_operator.Operator.Reconcile.{Get, found, not_found, get_error}
use agentops_operator.Operator.Events.{FireContext, Surroundings}

unfoldable pub has_label : String → String → List (String × String) → Bool
has_label key value [] = false
has_label key value ((k, v) ∷ rest) = if k == key then v == value else has_label key value rest

abbrev pub is_forbid : ConcurrencyPolicy → Bool
is_forbid forbid = true
is_forbid _ = false

abbrev pub is_running_phase : FlowPhase → Bool
is_running_phase FlowPhase.running = true
is_running_phase _ = false

-- The loop of hasRunningFlow, over the flows with the label of the event.
unfoldable pub any_running : String → List Flow → Bool
unfolding has_label
any_running trigger [] = false
any_running trigger (f ∷ fs) =
    (has_label "arkonis.dev/trigger" trigger f.meta.labels && is_running_phase f.status.phase)
    || any_running trigger fs

unfoldable pub has_running_flow : String → Result (List Flow) → Result Bool
has_running_flow trigger (ok fs) = ok (any_running trigger fs)
has_running_flow trigger (err e) = err e

abbrev empty_status : FlowStatus
empty_status = record {
  phase = FlowPhase.unset;
  steps = [];
  start_time = none;
  completion_time = none;
  output = "";
  observed_generation = 0;
  total_token_usage = none;
  conditions = [];
}

-- The flows that `fire` created, and the error that it returns.
pub record Fired : Type 0 where
  pub created : List Flow
  pub error : Option Message

-- The result of SetControllerReference.
unfoldable pub owned : Flow → Option Message → Result Flow
owned f none = ok f
owned f (some e) = err e

module _ (w : Surroundings) where
  -- A text that does not parse as a template is taken as it stands.
  unfoldable pub resolve_trigger_template : String → FireContext w.Body → Result String
  resolve_trigger_template expr ctx = elim (w.parse_template expr) [
    | err e ↦ ok expr
    | ok tmpl ↦ w.execute_template tmpl ctx
  ]

  -- `for k, expr := range target.Input`
  unfoldable pub resolve_input :
      FireContext w.Body
      → List (String × String)
      → List (String × String)
      → Result (List (String × String))
  resolve_input ctx [] resolved = ok resolved
  resolve_input ctx ((k, expr) ∷ rest) resolved = elim (resolve_trigger_template expr ctx) [
    | err e ↦ err (format "resolving input %q: %w" (str k (wrap e end)))
    | ok v ↦ resolve_input ctx rest (set_value k v resolved)
  ]

  unfoldable pub instance_of :
      ArkEvent → EventTarget → FireContext w.Body → Flow → List (String × String) → Flow
  instance_of trigger target ctx tmpl input = record {
    meta = record {
      name = trigger.meta.name ++ "-" ++ target.pipeline ++ "-" ++ w.compact_time w.now;
      namespace = trigger.meta.namespace;
      generation = 0;
      annotations =
          if ctx.stream_key == "" then [] else ("arkonis.dev/stream-key", ctx.stream_key) ∷ [];
      labels =
          ("arkonis.dev/trigger", trigger.meta.name)
          ∷ ("arkonis.dev/trigger-template", target.pipeline)
          ∷ [];
      deleted = none;
    };
    spec = record {
      steps = tmpl.spec.steps;
      input = input;
      output = tmpl.spec.output;
      timeout_seconds = tmpl.spec.timeout_seconds;
      max_tokens = tmpl.spec.max_tokens;
    };
    status = empty_status;
  }

  unfoldable pub from_template :
      ArkEvent
      → EventTarget
      → FireContext w.Body
      → Flow
      → Result (List (String × String))
      → Result Flow
  unfolding owned instance_of
  from_template trigger target ctx tmpl (err e) = err e
  from_template trigger target ctx tmpl (ok input) =
      let f = instance_of trigger target ctx tmpl input in owned f (w.set_owner f)

  unfoldable pub build_flow : ArkEvent → EventTarget → FireContext w.Body → Result Flow
  unfolding from_template
  build_flow trigger target ctx = elim (w.get_flow target.pipeline) [
    | not_found ↦ err (
        format "flow template %q not found: %w"
          (str target.pipeline (wrap (plain "not found") end)))
    | get_error e ↦ err (format "flow template %q not found: %w" (str target.pipeline (wrap e end)))
    | found tmpl ↦
        from_template trigger target ctx tmpl (resolve_input ctx target.input tmpl.spec.input)
  ]

  -- The loop of `fire` over the targets.
  unfoldable pub dispatch : ArkEvent → FireContext w.Body → List EventTarget → List Flow → Fired
  dispatch trigger ctx [] created = record { created = created; error = none }
  dispatch trigger ctx (t ∷ ts) created = elim (build_flow trigger t ctx) [
    | err e ↦ record {
      created = created;
      error = some (format "building flow for target %q: %w" (str t.pipeline (wrap e end)));
    }
    | ok f ↦ elim (w.create_flow f) [
      | some e ↦ record {
        created = created;
        error = some (format "creating flow for target %q: %w" (str t.pipeline (wrap e end)));
      }
      | none ↦ dispatch trigger ctx ts (snoc created f)
    ]
  ]

  -- Forbid, when the flows of the event could be listed.
  unfoldable pub fire_unless_running : ArkEvent → FireContext w.Body → Result Bool → Fired
  fire_unless_running trigger ctx (err e) = record { created = []; error = some e }
  fire_unless_running trigger ctx (ok true) = record { created = []; error = none }
  fire_unless_running trigger ctx (ok false) = dispatch trigger ctx trigger.spec.targets []

  unfoldable pub fire : ArkEvent → FireContext w.Body → Fired
  unfolding fire_unless_running
  fire trigger ctx =
      if is_forbid trigger.spec.concurrency_policy
      then fire_unless_running trigger ctx (has_running_flow trigger.meta.name w.list_flows)
      else dispatch trigger ctx trigger.spec.targets []
