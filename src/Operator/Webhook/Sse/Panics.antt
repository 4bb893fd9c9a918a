-- ===== src/Operator/Webhook/Sse/Panics.antt =====
-- The stream of events reads times through pointers, and panics on a nil one. It does not on a flow that
-- Reconcile wrote.
use mathlib.Core.List as List
use agentops_operator.Prelude.{
  ℕ, String, some, List, [], ◌∷◌, ◌≡◌, ◌≢◌, refl, sym, ap, ◌∙◌, inl, inr, All, Bool-cases,
}
use agentops_operator.Prelude.Maps.{lookup, set_value}
use agentops_operator.Api.Meta.{ok, err}
use agentops_operator.Api.Flow.{StepPhase, StepStatus, FlowPhase, Flow}
use agentops_operator.Flow.External.{External}
use agentops_operator.Flow.Status.Times.{IsTimed}
use agentops_operator.Operator.Reconcile.Timed.{HasTimes}
use agentops_operator.Operator.History.{Later}
use agentops_operator.Operator.History.Times.{Later-HasTimes}
use agentops_operator.Operator.Webhook.Sse.{
  SseEvent, is_known, prepend, emit_step_events, drain_tokens, Choice, expired, received, ticked,
  Round, panicked, Streamed, finish_tick, emit_flow_terminal, run_choice, sse_loop,
}
use agentops_operator.Operator.Webhook.Sse.Steps.{step_event-news, news}

emit_step_events-some :
    (sts : List StepStatus) (phases : List (String × StepPhase))
    → All IsTimed sts
    → (out : List SseEvent × List (String × StepPhase)) × (emit_step_events sts phases ≡ some out)
unfolding emit_step_events prepend
emit_step_events-some [] phases timed = (([], phases), refl)
emit_step_events-some (st ∷ sts) phases timed =
    elim (Bool-cases (is_known (lookup st.name phases) st.phase)) [
      | inl old ↦
          let (out, e) = emit_step_events-some sts phases timed.1 in
          (out, rw (old, emit_step_events) e)
      | inr new ↦
          let (out, e) = emit_step_events-some sts (set_value st.name st.phase phases) timed.1 in
          (
            (List.◌++◌ (news st) out.0, out.1),
            rw (new, step_event-news st timed.0, e, emit_step_events) refl,
          )
    ]

-- What a choice reads, if it reads a flow, has the property.
abbrev pub Reads : (Flow → Type 0) → Choice → Type 0
Reads P (ticked (ok f) d) = P f
Reads P _ = Unit

module _ (next : List String → List (String × StepPhase) → Streamed)
    (calm : (ts : List String) (phases : List (String × StepPhase))
      → (next ts phases).close ≢ panicked) where
  finish_tick-ne-panicked :
      (d : ℕ) (f : Flow) (phase : FlowPhase) (ts : List String) (es : List SseEvent)
      (phases : List (String × StepPhase))
      → f.status.phase ≡ phase
      → (finish_tick next d f ts (es, phases)).close ≢ panicked
  unfolding finish_tick emit_flow_terminal
  finish_tick-ne-panicked d f FlowPhase.succeeded ts es phases a = rw (a, finish_tick) (λ e. cc)
  finish_tick-ne-panicked d f FlowPhase.failed ts es phases a = rw (a, finish_tick) (λ e. cc)
  finish_tick-ne-panicked d f FlowPhase.running ts es phases a =
      rw (a, finish_tick) (calm ts phases)
  finish_tick-ne-panicked d f FlowPhase.pending ts es phases a =
      rw (a, finish_tick) (calm ts phases)
  finish_tick-ne-panicked d f FlowPhase.unset ts es phases a = rw (a, finish_tick) (calm ts phases)

  run_choice-ne-panicked :
      (timeout : ℕ) (c : Choice) (ts : List String) (phases : List (String × StepPhase))
      → Reads HasTimes c
      → (run_choice next timeout c ts phases).close ≢ panicked
  unfolding run_choice
  run_choice-ne-panicked timeout expired ts phases h e = cc
  run_choice-ne-panicked timeout received [] phases h e = calm [] phases e
  run_choice-ne-panicked timeout received (t ∷ ts) phases h e = calm ts phases e
  run_choice-ne-panicked timeout (ticked (err m) d) ts phases h e = cc
  run_choice-ne-panicked timeout (ticked (ok f) d) ts phases h e =
      let ((es, seen), q) = emit_step_events-some f.status.steps phases h in
      let same : run_choice next timeout (ticked (ok f) d) ts phases
          ≡ finish_tick next d f ts (es, seen) =
        rw (q, run_choice) refl in
      finish_tick-ne-panicked d f f.status.phase ts es seen refl
        (sym (ap (λ (s : Streamed). s.close) same) ∙ e)

timed-ne-panicked :
    (timeout : ℕ) (rs : List Round) (ts : List String) (phases : List (String × StepPhase))
    → All (λ r. Reads HasTimes r.choice) rs
    → (sse_loop timeout rs ts phases).close ≢ panicked
unfolding sse_loop
timed-ne-panicked timeout [] ts phases h e = cc
timed-ne-panicked timeout (r ∷ rs) ts phases h e =
    run_choice-ne-panicked (sse_loop timeout rs)
      (λ ts' phases'. timed-ne-panicked timeout rs ts' phases' h.1) timeout r.choice
      (drain_tokens r.ready ts).1 phases h.0 e

Reads-HasTimes :
    (ext : External) (f : Flow) (c : Choice)
    → f.status.steps ≡ []
    → Reads (Later ext f) c
    → Reads HasTimes c
Reads-HasTimes ext f expired fresh h = tt
Reads-HasTimes ext f received fresh h = tt
Reads-HasTimes ext f (ticked (err m) d) fresh h = tt
Reads-HasTimes ext f (ticked (ok u) d) fresh h = Later-HasTimes ext h fresh

All-Reads :
    (ext : External) (f : Flow) (rs : List Round)
    → f.status.steps ≡ []
    → All (λ r. Reads (Later ext f) r.choice) rs
    → All (λ r. Reads HasTimes r.choice) rs
All-Reads ext f [] fresh h = tt
All-Reads ext f (r ∷ rs) fresh h =
    (Reads-HasTimes ext f r.choice fresh h.0, All-Reads ext f rs fresh h.1)

-- The stream of events of a flow never panics, whenever it reads the flow during its life: a flow that
-- starts without statuses, and that calls of Reconcile and edits of its specification have changed.
pub sse_loop-ne-panicked :
    (ext : External) (f : Flow) (timeout : ℕ) (rs : List Round) (ts : List String)
    → f.status.steps ≡ []
    → All (λ r. Reads (Later ext f) r.choice) rs
    → (sse_loop timeout rs ts []).close ≢ panicked
sse_loop-ne-panicked ext f timeout rs ts fresh h =
    timed-ne-panicked timeout rs ts [] (All-Reads ext f rs fresh h)
