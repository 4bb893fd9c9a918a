-- ===== src/Tests/Events.antt =====
-- Events on small inputs: a schedule that is due at every even time, and a webhook.
use agentops_operator.Prelude.{
  ℕ, ◌+◌, ◌*◌, ◌/◌, ◌<◌, ◌≤◌, String, false, Option, none, some, List, [], ◌∷◌, Memᴰ, ◌≡◌, ◌≢◌,
  refl, ◌⊎◌, arith, eq_iff,
}
use agentops_operator.Api.Meta.{Message, ok}
use agentops_operator.Api.Flow.{FlowPhase, Flow}
use agentops_operator.Api.Event.{ArkEvent, EventStatus, TriggerSourceType, cron, webhook, forbid}
use agentops_operator.Operator.Reconcile.{found, not_found}
use agentops_operator.Operator.Events.{FireContext, Surroundings}
use agentops_operator.Operator.Events.Cron.{
  step_forward, out_of_fuel, lookback_of, most_recent_schedule,
}
use agentops_operator.Operator.Events.Cron.Due.{IsNext, most_recent_schedule-never}
use agentops_operator.Operator.Events.Fire.{
  has_label, fire, has_running_flow, build_flow, dispatch, any_running, resolve_input,
  resolve_trigger_template,
}
use agentops_operator.Operator.Events.Fire.Dispatch.{Instances, IsHeldBack, fire-Instances}
use agentops_operator.Operator.Events.Trigger.{
  pass, cron_due, set_event_condition, should_fire, fire_context, schedule_next, after_cron_fire,
  count_firing, reconcile_cron, reconcile_webhook, ensure_webhook_token,
}
use agentops_operator.Operator.Events.Trigger.Firing.{
  reconcile_cron-IsHeldBack, IsDueSince, reconcile_cron-once,
}
use agentops_operator.Operator.Events.Reconcile.{
  EventApi, written, reconcile_event, reconcile_source, finish_pass,
}
use agentops_operator.Operator.Events.Reconcile.Writes.{SameFirings, reconcile_event-stale_firings}
use agentops_operator.Tests.Samples.{step, flow, meta}

abbrev IsEven : ℕ → Type 0
IsEven u = (k : ℕ) × (u ≡ 2 * k)

abbrev next_even : ℕ → ℕ
next_even t = 2 * (t / 2 + 1)

IsEven-schedule : IsNext IsEven next_even
IsEven-schedule = record {
  later = λ t. omega arith;
  due = λ t. (t / 2 + 1, refl);
  first = λ t u lo hi d. omega (arith, d.1);
}

most_recent_schedule-never_example : most_recent_schedule (λ t. 0) 5 1000 none ≡ out_of_fuel
most_recent_schedule-never_example = most_recent_schedule-never (λ t. 0) 5 1000 none (λ u. refl)

abbrev template : Flow
template = flow FlowPhase.unset (step "a" [] ∷ []) []

abbrev pub surroundings : Surroundings
surroundings = record {
  Body = String;
  Template = String;
  parse_template = λ s. ok s;
  execute_template = λ t ctx. ok t;
  parse_cron = λ s. ok next_even;
  rfc3339 = λ t. "now";
  compact_time = λ t. "20260101-000000";
  get_flow = λ name. found template;
  list_flows = ok [];
  set_owner = λ f. none;
  create_flow = λ f. none;
  secret_exists = λ name. not_found;
  random_token = ok "00ff";
  create_secret = λ name token. none;
  now = 5;
}

abbrev pub event : TriggerSourceType → ArkEvent
event type = record {
  meta = meta "nightly";
  spec = record {
    source = record { type = type; cron_expr = "*/2 * * * *"; pipeline_output_ref = none };
    targets = record { pipeline = "demo"; input = ("topic", "tea") ∷ [] } ∷ [];
    concurrency_policy = forbid;
    suspended = false;
  };
  status = record {
    last_fired_at = some 4;
    next_fire_at = none;
    fired_count = 2;
    webhook_url = "";
    observed_generation = 0;
    conditions = [];
  };
}

expression_given : (event cron).spec.source.cron_expr ≢ ""
expression_given h = ground (arith, (eq_iff "*/2 * * * *" "").1 h)

-- The event fires at 6, and is reconciled again at 7.
abbrev at_six : Surroundings
at_six = record surroundings { now = 6 }

abbrev at_seven : Surroundings
at_seven = record surroundings { now = 7 }

fired_at_six :
    (st : EventStatus) × (created : List Flow) × (at : Option ℕ) × (reconcile_cron at_six 7
        (event cron)
      ≡ pass st created at none)
unfolding reconcile_cron cron_due after_cron_fire schedule_next count_firing set_event_condition
    fire_context most_recent_schedule step_forward lookback_of should_fire fire has_running_flow
    build_flow dispatch any_running resolve_input resolve_trigger_template
fired_at_six = (_, _, _, refl)

IsEven-above_six : (u : ℕ) → 6 < u → u ≤ 7 → ¬ IsEven u
IsEven-above_six u lo hi (k, e) = omega arith

reconcile_cron-once_example :
    (◌≡◌ {A = Option Message} none none
      × (reconcile_cron at_seven 8 (record (event cron) { status = fired_at_six.0 })
          ≡ schedule_next at_seven next_even fired_at_six.0 []))
    ⊎ ((m : Message) × (none ≡ some m) × (fired_at_six.0 ≡ (event cron).status))
reconcile_cron-once_example =
    reconcile_cron-once IsEven next_even IsEven-schedule at_six at_seven 7 8 (event cron)
      fired_at_six.0 fired_at_six.1 fired_at_six.2 none expression_given refl refl (omega arith)
      (omega arith) (omega arith) IsEven-above_six fired_at_six.3

abbrev context : FireContext String
context = record { name = "nightly"; fired_at = "now"; output = ""; body = none; stream_key = "" }

fires : (fire surroundings (event cron) context).error ≡ none
unfolding fire has_running_flow build_flow dispatch any_running resolve_input
    resolve_trigger_template
fires = refl

fire-Instances_example :
    Instances surroundings
      (event cron)
      context
      (event cron).spec.targets
      (fire surroundings (event cron) context).created
    ⊎ (IsHeldBack surroundings (event cron) context
        × ((fire surroundings (event cron) context).created ≡ []))
fire-Instances_example = fire-Instances surroundings (event cron) context fires

-- Between its two reads the webhook server has counted a third firing.
abbrev third_firing : ArkEvent
third_firing = record (event webhook) {
  status = record ((event webhook).status) { last_fired_at = some 5; fired_count = 3 };
}

abbrev api : EventApi
api = record {
  read = found (event webhook);
  read_again = found third_firing;
  update_status = λ e. none;
}

has_written : (u : ArkEvent) × Memᴰ u (written (reconcile_event surroundings api "http://ops" 6))
unfolding reconcile_event reconcile_source finish_pass reconcile_webhook ensure_webhook_token
    written
has_written = (_, Memᴰ.head refl)

reconcile_event-stale_firings_example : SameFirings has_written.0.status (event webhook).status
reconcile_event-stale_firings_example =
    reconcile_event-stale_firings surroundings api "http://ops" 6 (event webhook) has_written.0 refl
      refl refl has_written.1

-- The same event in a cluster where one of its flows is running, one tick later.
abbrev running_flow : Flow
running_flow = record (flow FlowPhase.running (step "a" [] ∷ []) []) {
  meta = record (meta "nightly-demo") { labels = ("arkonis.dev/trigger", "nightly") ∷ [] };
}

abbrev crowded : Surroundings
crowded = record surroundings { list_flows = ok (running_flow ∷ []); now = 6 }

held : IsHeldBack crowded (event cron) (fire_context crowded (event cron) "")
unfolding any_running has_label
held = (refl, running_flow ∷ [], refl, refl)

due_at_six : IsDueSince IsEven 6 (some 4)
unfolding lookback_of
due_at_six = (6, omega arith, omega arith, (3, refl))

reconcile_cron-IsHeldBack_example :
    reconcile_cron crowded 7 (event cron)
    ≡ schedule_next crowded next_even (count_firing 6 (event cron).status) []
reconcile_cron-IsHeldBack_example =
    reconcile_cron-IsHeldBack crowded IsEven next_even IsEven-schedule 7 (event cron) due_at_six
      held expression_given refl (omega arith)
