-- ===== src/Operator/Webhook/Sse/Tokens.antt =====
-- The tokens that a client of the stream gets.
use mathlib.Core.List as List
use mathlib.Core.List.{append_assoc, append-nil}
use agentops_operator.Prelude.{
  ℕ, zero, suc, String, Option, none, some, List, [], ◌∷◌, ◌≡◌, refl, sym, ap, ◌∙◌, Option-cases,
  Bool-cases, subst, inl, inr,
}
use agentops_operator.Prelude.Maps.{lookup, set_value}
use agentops_operator.Api.Meta.{ok, err}
use agentops_operator.Api.Flow.{StepPhase, StepStatus, FlowPhase, Flow}
use agentops_operator.Operator.Webhook.Sync.{failure_message}
use agentops_operator.Operator.Webhook.Sse.{
  SseEvent, token, step_started, step_completed, step_failed, flow_completed, flow_failed,
  stream_error, step_event, emit_step_events, prepend, is_known, token_events, emit_flow_terminal,
  drain_tokens, Choice, expired, received, ticked, Round, completed, panicked, Streamed,
  after_events, finish_tick, run_choice, sse_loop,
}

-- The tokens among the events of a stream.
abbrev pub tokens_of : List SseEvent → List String
tokens_of [] = []
tokens_of (token t ∷ es) = t ∷ tokens_of es
tokens_of (step_started s ∷ es) = tokens_of es
tokens_of (step_completed s o d u ∷ es) = tokens_of es
tokens_of (step_failed s ∷ es) = tokens_of es
tokens_of (flow_completed o d u ∷ es) = tokens_of es
tokens_of (flow_failed m d ∷ es) = tokens_of es
tokens_of (stream_error m ∷ es) = tokens_of es

tokens_of-append :
    (es fs : List SseEvent) → tokens_of (List.◌++◌ es fs) ≡ List.◌++◌ (tokens_of es) (tokens_of fs)
tokens_of-append [] fs = refl
tokens_of-append (token t ∷ es) fs = ap (λ r. t ∷ r) (tokens_of-append es fs)
tokens_of-append (step_started s ∷ es) fs = tokens_of-append es fs
tokens_of-append (step_completed s o d u ∷ es) fs = tokens_of-append es fs
tokens_of-append (step_failed s ∷ es) fs = tokens_of-append es fs
tokens_of-append (flow_completed o d u ∷ es) fs = tokens_of-append es fs
tokens_of-append (flow_failed m d ∷ es) fs = tokens_of-append es fs
tokens_of-append (stream_error m ∷ es) fs = tokens_of-append es fs

silent-append :
    (es fs : List SseEvent) → tokens_of es ≡ [] → tokens_of (List.◌++◌ es fs) ≡ tokens_of fs
silent-append es fs b = tokens_of-append es fs ∙ ap (λ z. List.◌++◌ z (tokens_of fs)) b

tokens_of-token_events : (ts : List String) → tokens_of (token_events ts) ≡ ts
unfolding token_events
tokens_of-token_events [] = refl
tokens_of-token_events (t ∷ ts) = ap (λ r. t ∷ r) (tokens_of-token_events ts)

-- No token is among the events of steps.
abbrev IsSilentEvent : Option (List SseEvent) → Type 0
IsSilentEvent none = Unit
IsSilentEvent (some es) = tokens_of es ≡ []

abbrev IsSilent : Option (List SseEvent × List (String × StepPhase)) → Type 0
IsSilent none = Unit
IsSilent (some (es, phases)) = tokens_of es ≡ []

step_event-IsSilentEvent :
    (st : StepStatus) (phase : StepPhase) → IsSilentEvent (step_event st phase)
unfolding step_event
step_event-IsSilentEvent st StepPhase.pending = refl
step_event-IsSilentEvent st StepPhase.running = refl
step_event-IsSilentEvent st StepPhase.failed = refl
step_event-IsSilentEvent st StepPhase.skipped = refl
step_event-IsSilentEvent st StepPhase.succeeded = elim (Option-cases st.start_time) [
  | inl e ↦ rw e tt
  | inr (start, e) ↦ elim (Option-cases st.completion_time) [
    | inl f ↦ rw (e, f) tt
    | inr (stop, f) ↦ rw (e, f) refl
  ]
]

prepend-IsSilent :
    (es : List SseEvent) (o : Option (List SseEvent × List (String × StepPhase)))
    → tokens_of es ≡ []
    → IsSilent o
    → IsSilent (prepend es o)
unfolding prepend
prepend-IsSilent es none a b = tt
prepend-IsSilent es (some (fs, phases)) a b = tokens_of-append es fs ∙ rw (a, b) refl

next_event-IsSilent :
    (o : Option (List SseEvent)) (later : Option (List SseEvent × List (String × StepPhase)))
    → IsSilentEvent o
    → IsSilent later
    → IsSilent (elim o [ none ↦ none | some es ↦ prepend es later ])
next_event-IsSilent none later a b = tt
next_event-IsSilent (some es) later a b = prepend-IsSilent es later a b

emit-IsSilent :
    (sts : List StepStatus) (phases : List (String × StepPhase))
    → IsSilent (emit_step_events sts phases)
unfolding emit_step_events
emit-IsSilent [] phases = refl
emit-IsSilent (st ∷ sts) phases = elim (Bool-cases (is_known (lookup st.name phases) st.phase)) [
  | inl e ↦ rw (e, emit_step_events) (emit-IsSilent sts phases)
  | inr e ↦
      rw (e, emit_step_events)
        (next_event-IsSilent (step_event st st.phase) _ (step_event-IsSilentEvent st st.phase)
          (emit-IsSilent sts (set_value st.name st.phase phases)))
]

-- A stream has written the tokens up to some point, and all of them if it was completed.
abbrev pub HasWritten : List String → Streamed → Type 0
HasWritten ts s =
    (rest : List String) × (ts ≡ List.◌++◌ (tokens_of s.events) rest)
    × (s.close ≡ completed → rest ≡ [])

after_events-HasWritten :
    (es : List SseEvent) (ts : List String) (s : Streamed)
    → HasWritten ts s
    → HasWritten (List.◌++◌ (tokens_of es) ts) (after_events es s)
after_events-HasWritten es ts s (rest, e, f) = (
  rest,
  rw (e, tokens_of-append es s.events)
      (sym (append_assoc (tokens_of es) (tokens_of s.events) rest)),
  f,
)

module _ (next : List String → List (String × StepPhase) → Streamed)
    (follows : (ts : List String) (phases : List (String × StepPhase))
      → HasWritten ts (next ts phases)) where
  goes_on :
      (es : List SseEvent) (ts : List String) (phases : List (String × StepPhase))
      → tokens_of es ≡ []
      → HasWritten ts (after_events es (next ts phases))
  goes_on es ts phases b =
      let (rest, e, f) = after_events-HasWritten es ts (next ts phases) (follows ts phases) in
      (rest, sym (ap (λ z. List.◌++◌ z ts) b) ∙ e, f)

  finish_tick-HasWritten :
      (d : ℕ) (f : Flow) (phase : FlowPhase) (ts : List String) (es : List SseEvent)
      (phases : List (String × StepPhase))
      → f.status.phase ≡ phase
      → tokens_of es ≡ []
      → HasWritten ts (finish_tick next d f ts (es, phases))
  unfolding finish_tick emit_flow_terminal
  finish_tick-HasWritten d f FlowPhase.succeeded ts es phases a b =
      let last = flow_completed f.status.output d f.status.total_token_usage in
      rw (a, finish_tick)
        (
          [],
          sym (
              ap (λ z. List.◌++◌ z [])
                (silent-append es (List.◌++◌ (token_events ts) (last ∷ [])) b
                  ∙ tokens_of-append (token_events ts) (last ∷ [])
                  ∙ append-nil (tokens_of (token_events ts))
                  ∙ tokens_of-token_events ts)
              ∙ append-nil ts),
          λ e. refl,
        )
  finish_tick-HasWritten d f FlowPhase.failed ts es phases a b =
      rw (a, finish_tick)
        (
          ts,
          sym (
              ap (λ z. List.◌++◌ z ts)
                (silent-append es (flow_failed (failure_message f.status.conditions) d ∷ []) b)),
          λ e. absurd (cc),
        )
  finish_tick-HasWritten d f FlowPhase.running ts es phases a b =
      rw (a, finish_tick) (goes_on es ts phases b)
  finish_tick-HasWritten d f FlowPhase.pending ts es phases a b =
      rw (a, finish_tick) (goes_on es ts phases b)
  finish_tick-HasWritten d f FlowPhase.unset ts es phases a b =
      rw (a, finish_tick) (goes_on es ts phases b)

  tick-HasWritten :
      (d : ℕ) (f : Flow) (ts : List String) (o : Option (List SseEvent × List (String × StepPhase)))
      → IsSilent o
      → HasWritten ts (elim o [
        | none ↦ record { events = []; close = panicked }
        | some emitted ↦ finish_tick next d f ts emitted
      ])
  tick-HasWritten d f ts none silent = (ts, refl, λ e. absurd (cc))
  tick-HasWritten d f ts (some (es, phases)) silent =
      finish_tick-HasWritten d f f.status.phase ts es phases refl silent

  run_choice-HasWritten :
      (timeout : ℕ) (c : Choice) (ts : List String) (phases : List (String × StepPhase))
      → HasWritten ts (run_choice next timeout c ts phases)
  unfolding run_choice
  run_choice-HasWritten timeout expired ts phases = (ts, refl, λ e. absurd (cc))
  run_choice-HasWritten timeout received [] phases = follows [] phases
  run_choice-HasWritten timeout received (t ∷ ts) phases =
      after_events-HasWritten (token t ∷ []) ts (next ts phases) (follows ts phases)
  run_choice-HasWritten timeout (ticked (err e) d) ts phases = (ts, refl, λ c. absurd (cc))
  run_choice-HasWritten timeout (ticked (ok f) d) ts phases =
      tick-HasWritten d f ts _ (emit-IsSilent f.status.steps phases)

drain_tokens-eq :
    (n : ℕ) (ts : List String)
    → ts ≡ List.◌++◌ (tokens_of (drain_tokens n ts).0) (drain_tokens n ts).1
unfolding drain_tokens
drain_tokens-eq zero ts = refl
drain_tokens-eq (suc n) [] = refl
drain_tokens-eq (suc n) (t ∷ ts) = ap (λ r. t ∷ r) (drain_tokens-eq n ts)

-- Whatever the rounds are, the tokens that a client gets are the first of those that the agent
-- pushed, in their order, and all of them if the stream ends with the flow.
pub sse_loop-HasWritten :
    (timeout : ℕ) (rs : List Round) (ts : List String) (phases : List (String × StepPhase))
    → HasWritten ts (sse_loop timeout rs ts phases)
unfolding sse_loop
sse_loop-HasWritten timeout [] ts phases = (ts, refl, λ e. absurd (cc))
sse_loop-HasWritten timeout (r ∷ rs) ts phases =
    let (es, rest) = drain_tokens r.ready ts in
    subst (λ z. HasWritten z (sse_loop timeout (r ∷ rs) ts phases))
      (sym (drain_tokens-eq r.ready ts))
      (after_events-HasWritten es rest _ (
        run_choice-HasWritten (sse_loop timeout rs) (sse_loop-HasWritten timeout rs) timeout
          r.choice rest phases))
