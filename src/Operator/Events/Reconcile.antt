-- ===== src/Operator/Events/Reconcile.antt =====
-- internal/controller/arkevent_controller.go: Reconcile.
pub mod Writes
use agentops_operator.Prelude.{
  ℕ, String, Bool, true, false, Option, none, some, List, [], ◌∷◌, if◌then◌else◌,
}
use agentops_operator.Api.Meta.{Message, format, plain, end, str, ConditionStatus, condition_false}
use agentops_operator.Api.Flow.{Flow}
use agentops_operator.Api.Event.{
  ArkEvent, EventStatus, TriggerSourceType, cron, webhook, pipeline_output, other_source,
}
use agentops_operator.Operator.Reconcile.{Get, found, not_found, get_error}
use agentops_operator.Operator.Events.{Surroundings}
use agentops_operator.Operator.Events.Trigger.{
  Pass, pass, set_event_condition, reconcile_cron, reconcile_webhook, reconcile_pipeline_output,
}

-- The API server for one event: the two reads of Reconcile, and the reply to a status update.
pub record EventApi : Type 0 where
  pub read : Get {0} ArkEvent
  pub read_again : Get {0} ArkEvent
  pub update_status : ArkEvent → Option Message

-- The events whose status was sent, the flows that were created, the time of the next call, and the
-- error; `stuck` is a call that does not return.
pub data EventOutcome : Type 0 where
  outcome : List ArkEvent → List Flow → Option ℕ → Option Message → EventOutcome
  stuck : EventOutcome

abbrev nothing : EventOutcome
nothing = outcome [] [] none none

abbrev pub with_status : ArkEvent → EventStatus → ArkEvent
with_status e st = record e { status = record st { observed_generation = e.meta.generation } }

module _ (w : Surroundings) (api : EventApi) (base : String) where
  -- A status that ends the call at once.
  unfoldable pub report : String → Message → ArkEvent → EventOutcome
  report reason message trigger =
      let u =
        with_status trigger
          (set_event_condition w.now condition_false reason message trigger.status) in
      outcome (u ∷ []) [] none (api.update_status u)

  -- The status of the pass replaces that of the event read again.
  unfoldable pub write_back : EventStatus → List Flow → Option ℕ → Get {0} ArkEvent → EventOutcome
  write_back st created requeue not_found = outcome [] created none none
  write_back st created requeue (get_error e) = outcome [] created none (some e)
  write_back st created requeue (found latest) =
      let u = with_status latest st in
      elim (api.update_status u) [
        | some e ↦ outcome (u ∷ []) created none (some e)
        | none ↦ outcome (u ∷ []) created requeue none
      ]

  unfoldable pub finish_pass : Pass → EventOutcome
  unfolding write_back
  finish_pass Pass.out_of_fuel = stuck
  finish_pass (pass st created requeue (some e)) = outcome [] created none (some e)
  finish_pass (pass st created requeue none) = write_back st created requeue api.read_again

  -- The switch over the source's type.
  unfoldable pub reconcile_source : ℕ → TriggerSourceType → ArkEvent → EventOutcome
  unfolding finish_pass report
  reconcile_source fuel cron trigger = finish_pass (reconcile_cron w fuel trigger)
  reconcile_source fuel webhook trigger = finish_pass (reconcile_webhook w base trigger)
  reconcile_source fuel pipeline_output trigger = finish_pass (reconcile_pipeline_output w trigger)
  reconcile_source fuel (other_source s) trigger =
      report "InvalidSource" (format "unknown source type %q" (str s end)) trigger

  unfoldable pub reconcile_event : ℕ → EventOutcome
  unfolding reconcile_source report
  reconcile_event fuel = elim api.read [
    | not_found ↦ nothing
    | get_error e ↦ outcome [] [] none (some e)
    | found trigger ↦
        if trigger.spec.suspended
        then report "Suspended" (plain "trigger is suspended") trigger
        else reconcile_source fuel trigger.spec.source.type trigger
  ]

unfoldable pub written : EventOutcome → List ArkEvent
written (outcome us created requeue e) = us
written stuck = []

unfoldable pub created_flows : EventOutcome → List Flow
created_flows (outcome us created requeue e) = created
created_flows stuck = []
