-- ===== src/Operator/Results/Timed.antt =====
-- The times of the statuses under the collection of results.
use agentops_operator.Prelude.{
  ℕ, String, true, some, List, [], ◌∷◌, ◌==◌, is_some, ◌≡◌, refl, subst, inl, inr, arith, All,
  Bool-cases, Option-cases,
}
use agentops_operator.Api.Meta.{format, end, str, ok, err}
use agentops_operator.Api.Flow.{StepPhase, StepStatus}
use agentops_operator.Flow.Status.{status_of, modify}
use agentops_operator.Flow.Status.Laws.{status_of-modify}
use agentops_operator.Flow.Status.Times.{IsTimed, IsTimedAs, All-status_of, All-modify}
use agentops_operator.Operator.Redis.{StreamMessage, Reply, reply, nil_reply, failure}
use agentops_operator.Operator.Results.{
  is_waiting, add_waiting, waiting_of, find_waiting, task_id_of, record_result, deliver,
  deliver_all, collect_results,
}

-- The status under a name, if there is one, has a start time.
abbrev HasStarted : List StepStatus → String → Type 0
HasStarted sts name =
    (st : StepStatus) → status_of name sts ≡ some st → is_some st.start_time ≡ true

abbrev AllStarted : List StepStatus → List (String × String) → Type 0
AllStarted sts waiting = All (λ w. HasStarted sts w.1) waiting

started_of_waiting :
    (st : StepStatus) → is_waiting st ≡ true → IsTimed st → is_some st.start_time ≡ true
unfolding is_waiting
started_of_waiting st h timed = timed_as st.phase refl timed
  where
    timed_as :
        (phase : StepPhase)
        → st.phase ≡ phase
        → IsTimedAs phase st.start_time st.completion_time
        → is_some st.start_time ≡ true
    timed_as StepPhase.running e t = t
    timed_as StepPhase.succeeded e t = t.0
    timed_as StepPhase.pending e t = absurd (ground arith)
    timed_as StepPhase.failed e t = absurd (ground arith)
    timed_as StepPhase.skipped e t = absurd (ground arith)

waiting_of-AllStarted :
    (names : List String) (sts : List StepStatus)
    → All IsTimed sts
    → AllStarted sts (waiting_of names sts)
unfolding waiting_of add_waiting
waiting_of-AllStarted [] sts timed = tt
waiting_of-AllStarted (n ∷ ns) sts timed = elim (Option-cases (status_of n sts)) [
  | inl e ↦ rw e (waiting_of-AllStarted ns sts timed)
  | inr (st, e) ↦ elim (Bool-cases (is_waiting st)) [
    | inr w ↦ rw (e, w) (waiting_of-AllStarted ns sts timed)
    | inl w ↦
        rw (e, w)
          (
            λ st' e'.
                started_of_waiting st' (ground arith) (All-status_of IsTimed n sts st' timed e'),
            waiting_of-AllStarted ns sts timed,
          )
  ]
]

record_result-HasStarted :
    (clock : StreamMessage → ℕ) (msg : StreamMessage) (name j : String) (sts : List StepStatus)
    → HasStarted sts j
    → HasStarted (modify name (record_result clock msg) sts) j
unfolding record_result
record_result-HasStarted clock msg name j sts h st e =
    let changed = status_of-modify name (record_result clock msg) (λ _. refl) j sts in
    elim (Option-cases (status_of j sts)) [
      | inl gone ↦ absurd (ground (arith, changed))
      | inr (old, f) ↦ ground (arith, changed, h old f)
    ]

AllStarted-deliver :
    (clock : StreamMessage → ℕ) (msg : StreamMessage) (name : String) (sts : List StepStatus)
    (waiting : List (String × String))
    → AllStarted sts waiting
    → AllStarted (modify name (record_result clock msg) sts) waiting
AllStarted-deliver clock msg name sts [] h = tt
AllStarted-deliver clock msg name sts ((i, n) ∷ ws) h = (
  record_result-HasStarted clock msg name n sts h.0,
  AllStarted-deliver clock msg name sts ws h.1,
)

find_waiting-HasStarted :
    (id : String) (sts : List StepStatus) (waiting : List (String × String)) (name : String)
    → AllStarted sts waiting
    → find_waiting id waiting ≡ some name
    → HasStarted sts name
unfolding find_waiting
find_waiting-HasStarted id sts [] name h e = absurd (cc)
find_waiting-HasStarted id sts ((i, n) ∷ ws) name h e = elim (Bool-cases (i == id)) [
  | inl same ↦ subst (HasStarted sts) (ground arith) h.0
  | inr other ↦ find_waiting-HasStarted id sts ws name h.1 (ground arith)
]

deliver_all-IsTimed :
    (clock : StreamMessage → ℕ) (waiting : List (String × String)) (msgs : List StreamMessage)
    (sts : List StepStatus)
    → AllStarted sts waiting
    → All IsTimed sts
    → All IsTimed (deliver_all clock waiting msgs sts)
unfolding deliver_all deliver record_result
deliver_all-IsTimed clock waiting [] sts h timed = timed
deliver_all-IsTimed clock waiting (msg ∷ msgs) sts h timed =
    elim (Option-cases (find_waiting (task_id_of msg) waiting)) [
      | inl e ↦ rw (e, deliver_all) (deliver_all-IsTimed clock waiting msgs sts h timed)
      | inr (name, e) ↦
          rw (e, deliver_all)
            (deliver_all-IsTimed clock waiting msgs (modify name (record_result clock msg) sts)
              (AllStarted-deliver clock msg name sts waiting h)
              (All-modify IsTimed name (record_result clock msg) sts
                (λ st f t.
                  (find_waiting-HasStarted (task_id_of msg) sts waiting name h e st f, refl))
                timed))
    ]

pub collect_results-IsTimed :
    (clock : StreamMessage → ℕ) (names : List String) (range : Reply (List StreamMessage))
    (sts out : List StepStatus)
    → All IsTimed sts
    → collect_results clock names range sts ≡ ok out
    → All IsTimed out
unfolding collect_results
collect_results-IsTimed clock names range sts out timed e =
    collected (waiting_of names sts) range (waiting_of-AllStarted names sts timed) e
  where
    collected :
        (waiting : List (String × String)) (answer : Reply (List StreamMessage))
        → AllStarted sts waiting
        → (elim waiting [
          | [] ↦ ok sts
          | w ∷ ws ↦ elim answer [
            | reply msgs ↦ ok (deliver_all clock (w ∷ ws) msgs sts)
            | nil_reply ↦ ok sts
            | failure f ↦ err (format "XRANGE %s: %w" (str "agent-tasks-results" (str f end)))
          ]
        ])
          ≡ ok out
        → All IsTimed out
    collected [] answer h f = subst (All IsTimed) (cc) timed
    collected (w ∷ ws) nil_reply h f = subst (All IsTimed) (cc) timed
    collected (w ∷ ws) (failure m) h f = absurd (cc)
    collected (w ∷ ws) (reply msgs) h f =
        subst (All IsTimed) (cc) (deliver_all-IsTimed clock (w ∷ ws) msgs sts h timed)
