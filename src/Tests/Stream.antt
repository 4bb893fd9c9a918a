-- ===== src/Tests/Stream.antt =====
-- The life of a flow, and the stream of its events.
use agentops_operator.Prelude.{
  String, true, some, List, [], ◌∷◌, ◌≡◌, ◌≢◌, refl, arith, Memᴰ, eq_iff,
}
use agentops_operator.Api.Meta.{ok}
use agentops_operator.Api.Flow.{FlowPhase, StepPhase, StepStatus, Flow}
use agentops_operator.Flow.Status.{
  status_of, modify, modify_each, deps_succeeded, is_terminal_phase,
}
use agentops_operator.Flow.Dag.{validate_dag, contains, deps_of}
use agentops_operator.Flow.Step.{initialize_steps, evaluate_loops, parse_output_json, set_condition}
use agentops_operator.Flow.Template.{resolve_prompt}
use agentops_operator.Flow.Phase.{update_flow_phase}
use agentops_operator.Operator.Results.{waiting_of, collect_results}
use agentops_operator.Operator.Submit.{
  submit_pending_steps, act, decide, is_ready, is_excluded, submit_task,
}
use agentops_operator.Operator.Reconcile.{
  Cluster, found, reconcile, is_trigger_template, dag_error, validate_agents, annotation, validated,
  admitted,
}
use agentops_operator.Operator.History.{write, now, then_change}
use agentops_operator.Operator.History.Final.{Same, Later-Same}
use agentops_operator.Operator.Webhook.Sse.{
  panicked, Round, received, ticked, emit_step_events, sse_loop,
}
use agentops_operator.Operator.Webhook.Sse.Steps.{
  HasDistinctNames, announced, emit_step_events-once,
}
use agentops_operator.Operator.Webhook.Sse.Panics.{sse_loop-ne-panicked}
use agentops_operator.Tests.Samples.{status, flow, plain_external}
use agentops_operator.Tests.Operator.{chain, fresh, cluster}

abbrev first_or : Flow → List Flow → Flow
first_or f [] = f
first_or f (u ∷ us) = u

-- What Reconcile writes for a flow that has just been created.
abbrev begun : Flow
begun = first_or fresh (reconcile plain_external cluster).updates

begun_written : Memᴰ begun (reconcile plain_external cluster).updates
unfolding reconcile is_trigger_template dag_error validate_dag contains deps_of validate_agents
    is_terminal_phase collect_results waiting_of status_of initialize_steps submit_pending_steps act
    decide is_ready deps_succeeded is_excluded evaluate_loops parse_output_json modify_each
    resolve_prompt submit_task modify annotation update_flow_phase set_condition
begun_written = Memᴰ.head refl

abbrev polls : List Round
polls =
    record { ready = 0; choice = ticked (ok fresh) 1 }
    ∷ record { ready = 0; choice = received }
    ∷ record { ready = 0; choice = ticked (ok begun) 2 }
    ∷ []

sse_loop-ne-panicked_example : (sse_loop 60 polls ("to" ∷ "ken" ∷ []) []).close ≢ panicked
sse_loop-ne-panicked_example =
    sse_loop-ne-panicked plain_external fresh 60 polls ("to" ∷ "ken" ∷ []) refl
      (now, (tt, (then_change now (write cluster refl begun_written), tt)))

abbrev ended : Flow
ended =
    flow FlowPhase.succeeded chain
      (status "a" StepPhase.succeeded ∷ status "b" StepPhase.skipped ∷ [])

abbrev ended_cluster : Cluster
ended_cluster = record cluster { flow = found ended }

abbrev read_again : Flow
read_again = first_or ended (reconcile plain_external ended_cluster).updates

again_written : Memᴰ read_again (reconcile plain_external ended_cluster).updates
unfolding reconcile is_trigger_template validated admitted dag_error validate_dag contains deps_of
    validate_agents is_terminal_phase
again_written = Memᴰ.head refl

is_over : is_terminal_phase ended.status.phase ≡ true
unfolding is_terminal_phase
is_over = refl

Later-Same_example : Same ended.status read_again.status
Later-Same_example =
    Later-Same plain_external (then_change now (write ended_cluster refl again_written)) is_over

abbrev half_run : List StepStatus
half_run =
    record (status "a" StepPhase.succeeded) { start_time = some 1; completion_time = some 4 }
    ∷ record (status "b" StepPhase.running) { start_time = some 5 }
    ∷ []

half_run_names : HasDistinctNames half_run
half_run_names = ((λ e. ground (arith, (eq_iff "a" "b").1 e), tt), (tt, tt))

abbrev seen : List (String × StepPhase)
seen = ("a", StepPhase.running) ∷ []

emit_step_events-once_example :
    (phases : List (String × StepPhase)) × (emit_step_events half_run seen
      ≡ some (announced seen half_run, phases))
    × (emit_step_events half_run phases ≡ some ([], phases))
emit_step_events-once_example =
    emit_step_events-once half_run seen half_run_names ((refl, refl), (refl, tt))
