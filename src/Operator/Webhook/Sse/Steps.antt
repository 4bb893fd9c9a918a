-- ===== src/Operator/Webhook/Sse/Steps.antt =====
-- The events of steps that emitStepEvents writes.
use mathlib.Core.List as List
use mathlib.Core.List.{append_assoc}
use agentops_operator.Prelude.{
  ℕ, String, true, Option, none, some, List, [], ◌∷◌, if◌then◌else◌, ◌≡◌, ◌≢◌, refl, ◌∙◌, inl, inr,
  arith, All, Bool-cases, Option-cases, eq_iff, eq_refl,
}
use agentops_operator.Prelude.Maps.{lookup, set_value, lookup-set_value}
use agentops_operator.Api.Flow.{StepPhase, StepStatus}
use agentops_operator.Flow.Status.Times.{IsTimed, IsTimedAs}
use agentops_operator.Operator.Webhook.Sync.{milliseconds_between}
use agentops_operator.Operator.Webhook.Sse.{
  SseEvent, step_started, step_completed, step_failed, is_known, step_event, prepend,
  emit_step_events,
}

abbrev time_or_zero : Option ℕ → ℕ
time_or_zero none = 0
time_or_zero (some t) = t

abbrev news_as : StepStatus → StepPhase → List SseEvent
news_as st StepPhase.running = step_started st.name ∷ []
news_as st StepPhase.succeeded =
    step_completed st.name st.output
      (milliseconds_between (time_or_zero st.start_time) (time_or_zero st.completion_time))
      st.token_usage
    ∷ []
news_as st StepPhase.failed = step_failed st.name ∷ []
news_as st _ = []

-- The news of a status: that the step has started, completed or failed.
abbrev pub news : StepStatus → List SseEvent
news st = news_as st st.phase

-- The news of the statuses whose phases differ from those seen before.
abbrev pub announced : List (String × StepPhase) → List StepStatus → List SseEvent
announced phases [] = []
announced phases (st ∷ sts) =
    List.◌++◌ (if is_known (lookup st.name phases) st.phase then [] else news st)
      (announced phases sts)

abbrev pub IsFresh : String → List StepStatus → Type 0
IsFresh name sts = All (λ st. name ≢ st.name) sts

abbrev pub HasDistinctNames : List StepStatus → Type 0
HasDistinctNames [] = Unit
HasDistinctNames (st ∷ sts) = IsFresh st.name sts × HasDistinctNames sts

pub step_event-news : (st : StepStatus) → IsTimed st → step_event st st.phase ≡ some (news st)
unfolding step_event
step_event-news st timed = as_phase st.phase timed
  where
    as_phase :
        (phase : StepPhase)
        → IsTimedAs phase st.start_time st.completion_time
        → step_event st phase ≡ some (news_as st phase)
    as_phase StepPhase.pending t = refl
    as_phase StepPhase.running t = refl
    as_phase StepPhase.failed t = refl
    as_phase StepPhase.skipped t = refl
    as_phase StepPhase.succeeded t = elim (Option-cases st.start_time) [
      | inl e ↦ absurd (ground arith)
      | inr (start, e) ↦ elim (Option-cases st.completion_time) [
        | inl f ↦ absurd (ground arith)
        | inr (stop, f) ↦ rw (e, f, step_event) refl
      ]
    ]

is_known→eq : (o : Option StepPhase) (phase : StepPhase) → is_known o phase ≡ true → o ≡ some phase
unfolding is_known
is_known→eq o phase h = ground arith

is_known_self : (phase : StepPhase) → is_known (some phase) phase ≡ true
unfolding is_known
is_known_self phase = ground arith

-- A phase that was seen of another step does not matter.
announced-set_value :
    (name : String) (phase : StepPhase) (phases : List (String × StepPhase)) (sts : List StepStatus)
    → IsFresh name sts
    → announced (set_value name phase phases) sts ≡ announced phases sts
announced-set_value name phase phases [] fresh = refl
announced-set_value name phase phases (st ∷ sts) fresh =
    let kept : lookup st.name (set_value name phase phases) ≡ lookup st.name phases =
      ground (arith, lookup-set_value st.name name phase phases, eq_iff name st.name, fresh.0) in
    rw (kept, announced-set_value name phase phases sts fresh.1) refl

-- What emitStepEvents returns: the news, and a map that has every step's phase and is otherwise as it
-- was.
abbrev pub Announces :
    List StepStatus → List (String × StepPhase) → List (String × StepPhase) → Type 0
Announces sts phases phases' =
    (emit_step_events sts phases ≡ some (announced phases sts, phases'))
    × All (λ st. lookup st.name phases' ≡ some st.phase) sts
    × ((name : String) → IsFresh name sts → lookup name phases' ≡ lookup name phases)

emit_step_events-announced :
    (sts : List StepStatus) (phases : List (String × StepPhase))
    → HasDistinctNames sts
    → All IsTimed sts
    → (phases' : List (String × StepPhase)) × Announces sts phases phases'
unfolding emit_step_events prepend
emit_step_events-announced [] phases distinct timed = (phases, (refl, tt, λ name fresh. refl))
emit_step_events-announced (st ∷ sts) phases distinct timed =
    elim (Bool-cases (is_known (lookup st.name phases) st.phase)) [
      | inl old ↦
          let (phases', (e, all, others)) =
            emit_step_events-announced sts phases distinct.1 timed.1 in
          (
            phases',
            (
              rw (old, emit_step_events) e,
              (others st.name distinct.0 ∙ is_known→eq _ st.phase old, all),
              λ name fresh. others name fresh.1,
            ),
          )
      | inr new ↦
          let seen = set_value st.name st.phase phases in
          let (phases', (e, all, others)) =
            emit_step_events-announced sts seen distinct.1 timed.1 in
          (
            phases',
            (
              rw
                  (
                    new,
                    step_event-news st timed.0,
                    e,
                    announced-set_value st.name st.phase phases sts distinct.0,
                    emit_step_events,
                  )
                  refl,
              (
                others st.name distinct.0
                    ∙ lookup-set_value st.name st.name st.phase phases
                    ∙ rw (eq_refl st.name) refl,
                all,
              ),
              λ name fresh.
                  others name fresh.1
                  ∙ lookup-set_value name st.name st.phase phases
                  ∙ ground (arith, eq_iff st.name name, fresh.0),
            ),
          )
    ]

known-silent :
    (sts : List StepStatus) (phases : List (String × StepPhase))
    → All (λ st. lookup st.name phases ≡ some st.phase) sts
    → emit_step_events sts phases ≡ some ([], phases)
unfolding emit_step_events is_known
known-silent [] phases all = refl
known-silent (st ∷ sts) phases all =
    rw (all.0, is_known_self st.phase, emit_step_events) (known-silent sts phases all.1)

-- A poll of the stream writes, for every step whose phase differs from the one that it saw before, in
-- the order of the steps, the event of its new phase, and nothing else; and if the flow has not changed
-- at the next poll, that writes nothing. The steps have distinct names and the times that Reconcile
-- records.
pub emit_step_events-once :
    (sts : List StepStatus) (phases : List (String × StepPhase))
    → HasDistinctNames sts
    → All IsTimed sts
    → (phases' : List (String × StepPhase)) × (emit_step_events sts phases
        ≡ some (announced phases sts, phases'))
      × (emit_step_events sts phases' ≡ some ([], phases'))
emit_step_events-once sts phases distinct timed =
    let (phases', (e, all, others)) = emit_step_events-announced sts phases distinct timed in
    (phases', e, known-silent sts phases' all)
