-- ===== src/Operator/Events/Trigger.antt =====
-- internal/controller/arkevent_controller.go: Reconcile and the reconcilers of the three sources.
pub mod Firing
use Prim.Native.String.{◌++◌}
use agentops_operator.Prelude.{
  ℕ, ◌+◌, String, Bool, true, false, ◌&&◌, ◌||◌, not, Option, none, some, List, [], ◌∷◌, ◌==◌,
  if◌then◌else◌, ltb,
}
use agentops_operator.Prelude.Int64.{add64}
use agentops_operator.Api.Meta.{
  Message, format, plain, end, str, wrap, Result, ok, err, Condition, ConditionStatus,
  condition_true, condition_false,
}
use agentops_operator.Api.Flow.{FlowPhase, Flow, FlowStatus}
use agentops_operator.Api.Event.{
  ArkEvent, EventStatus, EventSource, PipelineOutputSource, TriggerSourceType, cron, webhook,
  pipeline_output, other_source,
}
use agentops_operator.Flow.Phase.{nanoseconds}
use agentops_operator.Operator.Reconcile.{Get, found, not_found, get_error}
use agentops_operator.Operator.Events.{FireContext, Surroundings}
use agentops_operator.Operator.Events.Cron.{Recent, recent, most_recent_schedule}
use agentops_operator.Operator.Events.Fire.{Fired, fire}

-- The loop of setCondition.
replace_condition : Condition → List Condition → List Condition
replace_condition new [] = new ∷ []
replace_condition new (c ∷ cs) =
    let rest = replace_condition new cs in
    if c.type == "Ready"
    then record c {
      status = new.status;
      reason = new.reason;
      message = new.message;
      last_transition_time = new.last_transition_time;
    }
      ∷ cs
    else c ∷ rest

unfoldable pub set_event_condition :
    ℕ → ConditionStatus → String → Message → EventStatus → EventStatus
unfolding replace_condition
set_event_condition now status reason message st = record st {
  conditions =
      replace_condition
        (record {
          type = "Ready";
          status = status;
          observed_generation = 0;
          last_transition_time = now;
          reason = reason;
          message = message;
        })
        st.conditions;
}

-- LastFiredAt and FiredCount after a firing.
unfoldable pub count_firing : ℕ → EventStatus → EventStatus
count_firing now st = record st { last_fired_at = some now; fired_count = add64 st.fired_count 1 }

-- What the reconciler of a source leaves: the status in memory, the flows that it created, the time
-- at which it wants to be called again, and its error. `out_of_fuel`: mostRecentSchedule did not end.
pub data Pass : Type 0 where
  pass : EventStatus → List Flow → Option ℕ → Option Message → Pass
  out_of_fuel : Pass

abbrev quiet_pass : EventStatus → Pass
quiet_pass st = pass st [] none none

abbrev pub phase_text : FlowPhase → String
phase_text FlowPhase.unset = ""
phase_text FlowPhase.pending = "Pending"
phase_text FlowPhase.running = "Running"
phase_text FlowPhase.succeeded = "Succeeded"
phase_text FlowPhase.failed = "Failed"

-- lastScheduled != nil && (lastFiredAt == nil || lastScheduled.After(lastFiredAt))
unfoldable pub should_fire : Option ℕ → Option ℕ → Bool
should_fire none last_fired = false
should_fire (some scheduled) none = true
should_fire (some scheduled) (some last_fired) = ltb last_fired scheduled

unfoldable pub desired_phase : FlowPhase → FlowPhase
desired_phase FlowPhase.unset = FlowPhase.succeeded
desired_phase p = p

-- The flow did not complete after the last firing.
unfoldable pub already_fired : Option ℕ → Option ℕ → Bool
already_fired (some completed) (some last_fired) = not (ltb last_fired completed)
already_fired _ _ = false

module _ (w : Surroundings) where
  unfoldable pub fire_context : ArkEvent → String → FireContext w.Body
  fire_context trigger output = record {
    name = trigger.meta.name;
    fired_at = w.rfc3339 w.now;
    output = output;
    body = none;
    stream_key = "";
  }

  -- What follows a firing in reconcileCron.
  unfoldable pub schedule_next : (ℕ → ℕ) → EventStatus → List Flow → Pass
  unfolding set_event_condition
  schedule_next next st created =
      let at = next w.now in
      pass
        (set_event_condition w.now condition_true "Active"
          (format "next fire at %s" (str (w.rfc3339 at) end))
          (record st { next_fire_at = some at }))
        created (some (at + nanoseconds)) none

  unfoldable pub after_cron_fire : (ℕ → ℕ) → EventStatus → Fired → Pass
  unfolding count_firing schedule_next
  after_cron_fire next st r = elim r.error [
    | some e ↦ pass st r.created none (some e)
    | none ↦ schedule_next next (count_firing w.now st) r.created
  ]

  unfoldable pub cron_due : (ℕ → ℕ) → ArkEvent → Recent → Pass
  unfolding should_fire after_cron_fire fire_context
  cron_due next trigger Recent.out_of_fuel = out_of_fuel
  cron_due next trigger (recent scheduled) =
      if should_fire scheduled trigger.status.last_fired_at
      then after_cron_fire next trigger.status (fire w trigger (fire_context trigger ""))
      else schedule_next next trigger.status []

  unfoldable pub reconcile_cron : ℕ → ArkEvent → Pass
  reconcile_cron fuel trigger =
      let expr = trigger.spec.source.cron_expr in
      if expr == ""
      then quiet_pass (
          set_event_condition w.now condition_false "InvalidCron"
            (plain "spec.source.cron is required for cron type") trigger.status)
      else elim (w.parse_cron expr) [
        | err e ↦ quiet_pass (
            set_event_condition w.now condition_false "InvalidCron"
              (format "invalid cron expression %q: %v" (str expr (wrap e end))) trigger.status)
        | ok next ↦
            cron_due next trigger
              (most_recent_schedule next w.now fuel trigger.status.last_fired_at)
      ]

  create_token : String → Result String → Option Message
  create_token secret (err e) = some (format "generating webhook token: %w" (wrap e end))
  create_token secret (ok token) = w.create_secret secret token

  -- ensureWebhookToken: its error
  unfoldable pub ensure_webhook_token : ArkEvent → Option Message
  unfolding create_token
  ensure_webhook_token trigger =
      let secret = trigger.meta.name ++ "-webhook-token" in
      elim (w.secret_exists secret) [
        | found u ↦ none
        | get_error e ↦ some e
        | not_found ↦ create_token secret w.random_token
      ]

  -- The status of an event whose token exists.
  unfoldable pub webhook_status : String → ArkEvent → EventStatus
  unfolding set_event_condition
  webhook_status base trigger =
      set_event_condition w.now condition_true "Ready" (plain "waiting for webhook POST")
        (record (trigger.status) {
          webhook_url =
              if base == ""
              then trigger.status.webhook_url
              else base ++ "/triggers/" ++ trigger.meta.namespace ++ "/" ++ trigger.meta.name
                ++ "/fire";
        })

  unfoldable pub reconcile_webhook : String → ArkEvent → Pass
  unfolding webhook_status
  reconcile_webhook base trigger = elim (ensure_webhook_token trigger) [
    | some e ↦ pass trigger.status [] none (some e)
    | none ↦ quiet_pass (webhook_status base trigger)
  ]

  after_output_fire : EventStatus → Fired → Pass
  unfolding count_firing set_event_condition
  after_output_fire st r = elim r.error [
    | some e ↦ pass st r.created none (some e)
    | none ↦
        pass
          (set_event_condition w.now condition_true "Active" (plain "fired on flow completion")
            (count_firing w.now st))
          r.created none none
  ]

  -- The watched flow was found.
  unfoldable pub watch_flow : ArkEvent → PipelineOutputSource → Flow → Pass
  unfolding set_event_condition after_output_fire fire_context
  watch_flow trigger src f =
      let wanted = desired_phase src.on_phase in
      let st = trigger.status in
      if not (phase_text f.status.phase == phase_text wanted)
      then quiet_pass (
          set_event_condition w.now condition_true "Watching"
            (format "waiting for flow %q to reach phase %s (current: %s)"
              (str src.name (str (phase_text wanted) (str (phase_text f.status.phase) end))))
            st)
      else if already_fired f.status.completion_time st.last_fired_at
      then quiet_pass (
          set_event_condition w.now condition_true "Active"
            (plain "already fired for this flow completion") st)
      else after_output_fire st (fire w trigger (fire_context trigger f.status.output))

  missing_flow : EventStatus → String → Message → EventStatus
  unfolding set_event_condition
  missing_flow st name e =
      set_event_condition w.now condition_false "PipelineNotFound"
        (format "flow %q not found: %v" (str name (wrap e end))) st

  unfoldable pub watch_named : ArkEvent → PipelineOutputSource → Pass
  unfolding missing_flow watch_flow
  watch_named trigger src = elim (w.get_flow src.name) [
    | not_found ↦ quiet_pass (missing_flow trigger.status src.name (plain "not found"))
    | get_error e ↦ pass (missing_flow trigger.status src.name e) [] none (some e)
    | found f ↦ watch_flow trigger src f
  ]

  invalid_source : EventStatus → EventStatus
  unfolding set_event_condition
  invalid_source =
      set_event_condition w.now condition_false "InvalidSource"
        (plain "spec.source.pipelineOutput.name is required for pipeline-output type")

  unfoldable pub reconcile_pipeline_output : ArkEvent → Pass
  unfolding invalid_source watch_named
  reconcile_pipeline_output trigger = elim trigger.spec.source.pipeline_output_ref [
    | none ↦ quiet_pass (invalid_source trigger.status)
    | some src ↦
        if src.name == ""
        then quiet_pass (invalid_source trigger.status)
        else watch_named trigger src
  ]
