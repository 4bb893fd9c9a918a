-- ===== src/Operator/Results/Delivery.antt =====
-- What a step receives of the results stream.
use agentops_operator.Prelude.{
  ℕ, String, true, ◌&&◌, Option, none, some, List, [], ◌∷◌, ◌==◌, if◌then◌else◌, ◌≡◌, ◌≢◌, refl,
  ◌∙◌, Memᴰ, arith, inl, inr, Bool-cases, Option-cases, name_cases, eq_iff, eq_refl, ap, List-cases,
}
use agentops_operator.Api.Meta.{ok}
use agentops_operator.Api.Flow.{StepStatus}
use agentops_operator.Flow.Status.{status_of}
use agentops_operator.Flow.Status.Laws.{KeepsName, status_of-modify}
use agentops_operator.Operator.Redis.{StreamMessage, reply}
use agentops_operator.Operator.Results.{
  task_id_of, is_waiting, waiting_of, find_waiting, record_result, deliver, deliver_all,
  collect_results,
}

-- The messages that carry a task id, and their effect on one status.
abbrev pub messages_for : String → List StreamMessage → List StreamMessage
messages_for id [] = []
messages_for id (m ∷ ms) =
    let rest = messages_for id ms in if task_id_of m == id then m ∷ rest else rest

abbrev pub record_all : (StreamMessage → ℕ) → List StreamMessage → StepStatus → StepStatus
record_all clock [] st = st
record_all clock (m ∷ ms) st = record_all clock ms (record_result clock m st)

-- The list has every key of the map of statuses.
abbrev pub HasAllNames : List String → List StepStatus → Type 0
HasAllNames names sts = (n : String) (st : StepStatus) → status_of n sts ≡ some st → Memᴰ n names

-- No two steps wait for one task.
abbrev pub HasDistinctTasks : List StepStatus → Type 0
HasDistinctTasks sts =
    (i j : String) (a b : StepStatus)
    → status_of i sts ≡ some a
    → status_of j sts ≡ some b
    → is_waiting a ≡ true
    → is_waiting b ≡ true
    → a.task_id ≡ b.task_id
    → i ≡ j

record_result-KeepsName :
    (clock : StreamMessage → ℕ) (m : StreamMessage) → KeepsName (record_result clock m)
unfolding record_result
record_result-KeepsName clock m st = refl

-- An entry of `waiting` names a status that waits for its task.
waiting_of_sound :
    (names : List String) (sts : List StepStatus) (id n : String)
    → find_waiting id (waiting_of names sts) ≡ some n
    → (st : StepStatus) × (status_of n sts ≡ some st) × (is_waiting st ≡ true) × (st.task_id ≡ id)
unfolding find_waiting waiting_of
waiting_of_sound [] sts id n h = cc
waiting_of_sound (x ∷ xs) sts id n h = elim (Option-cases (status_of x sts)) [
  | inl e ↦ waiting_of_sound xs sts id n (ground arith)
  | inr (st, e) ↦ elim (Bool-cases (is_waiting st)) [
    | inr f ↦ waiting_of_sound xs sts id n (ground arith)
    | inl t ↦ elim (name_cases st.task_id id) [
      | inl (same, b) ↦ (st, ground arith, t, same)
      | inr (other, b) ↦ waiting_of_sound xs sts id n (ground arith)
    ]
  ]
]

waiting_of-found :
    (names : List String) (sts : List StepStatus) (n : String) (st : StepStatus)
    → Memᴰ n names
    → status_of n sts ≡ some st
    → is_waiting st ≡ true
    → (m : String) × (find_waiting st.task_id (waiting_of names sts) ≡ some m)
unfolding find_waiting waiting_of
waiting_of-found [] sts n st mem e t = elim mem [ ]
waiting_of-found (x ∷ xs) sts n st (Memᴰ.head p) e t =
    (x, ground (arith, ap (λ k. status_of k sts) p, eq_refl st.task_id))
waiting_of-found (x ∷ xs) sts n st (Memᴰ.tail mem) e t =
    let (m, found) = waiting_of-found xs sts n st mem e t in
    elim (Option-cases (status_of x sts)) [
      | inl absent ↦ (m, ground arith)
      | inr (other, there) ↦ elim (Bool-cases (is_waiting other && (other.task_id == st.task_id))) [
        | inl here ↦ (x, ground arith)
        | inr away ↦ (m, ground arith)
      ]
    ]

deliver-other :
    (clock : StreamMessage → ℕ) (m : StreamMessage) (target : Option String) (j : String)
    (sts : List StepStatus)
    → target ≢ some j
    → status_of j (deliver clock m target sts) ≡ status_of j sts
unfolding deliver
deliver-other clock m none j sts h = refl
deliver-other clock m (some n) j sts h = ground (
  arith,
  status_of-modify n (record_result clock m) (record_result-KeepsName clock m) j sts,
  eq_iff n j,
  h,
)

deliver-here :
    (clock : StreamMessage → ℕ) (m : StreamMessage) (target : Option String) (j : String)
    (sts : List StepStatus) (st : StepStatus)
    → target ≡ some j
    → status_of j sts ≡ some st
    → status_of j (deliver clock m target sts) ≡ some (record_result clock m st)
unfolding deliver
deliver-here clock m none j sts st h e = cc
deliver-here clock m (some n) j sts st h e = ground (
  arith,
  status_of-modify n (record_result clock m) (record_result-KeepsName clock m) j sts,
  eq_iff n j,
)

-- A step that waits for no task receives nothing.
deliver_all-other :
    (clock : StreamMessage → ℕ) (waiting : List (String × String)) (msgs : List StreamMessage)
    (j : String) (sts : List StepStatus)
    → ((id : String) → find_waiting id waiting ≢ some j)
    → status_of j (deliver_all clock waiting msgs sts) ≡ status_of j sts
unfolding deliver_all
deliver_all-other clock waiting [] j sts h = refl
deliver_all-other clock waiting (m ∷ ms) j sts h =
    deliver_all-other clock waiting ms j _ h ∙ deliver-other clock m _ j sts (h (task_id_of m))

-- A step that waits for one task receives the messages for it.
deliver_all-here :
    (clock : StreamMessage → ℕ) (waiting : List (String × String)) (msgs : List StreamMessage)
    (j id : String) (sts : List StepStatus) (st : StepStatus)
    → find_waiting id waiting ≡ some j
    → ((i : String) → find_waiting i waiting ≡ some j → i ≡ id)
    → status_of j sts ≡ some st
    → status_of j (deliver_all clock waiting msgs sts)
      ≡ some (record_all clock (messages_for id msgs) st)
unfolding deliver_all
deliver_all-here clock waiting [] j id sts st found unique e = e
deliver_all-here clock waiting (m ∷ ms) j id sts st found unique e =
    elim (name_cases (task_id_of m) id) [
      | inl (same, b) ↦ rw b (
          deliver_all-here clock waiting ms j id _ (record_result clock m st) found unique
            (deliver-here clock m _ j sts st (ap (λ i. find_waiting i waiting) same ∙ found) e))
      | inr (other, b) ↦ rw b (
          deliver_all-here clock waiting ms j id _ st found unique
            (deliver-other clock m _ j sts (λ h. other (unique (task_id_of m) h)) ∙ e))
    ]

deliver_all-lem :
    (clock : StreamMessage → ℕ) (names : List String) (msgs : List StreamMessage)
    (sts : List StepStatus)
    → HasAllNames names sts
    → HasDistinctTasks sts
    → (j : String) (st : StepStatus) → status_of j sts ≡ some st
    → status_of j (deliver_all clock (waiting_of names sts) msgs sts)
      ≡ some (if is_waiting st then record_all clock (messages_for st.task_id msgs) st else st)
deliver_all-lem clock names msgs sts all distinct j st e = elim (Bool-cases (is_waiting st)) [
  | inr f ↦ rw f (
      deliver_all-other clock (waiting_of names sts) msgs j sts
        (λ id h. let (a, at, w, _) = waiting_of_sound names sts id j h in absurd (ground arith))
      ∙ e)
  | inl t ↦
      let (m, found) = waiting_of-found names sts j st (all j st e) e t in
      let (a, at, w, same) = waiting_of_sound names sts st.task_id m found in
      rw t (
        deliver_all-here clock (waiting_of names sts) msgs j st.task_id sts st
          (found ∙ ap some (distinct m j a st at e w t same))
          (λ i h. let (b, bt, bw, bsame) = waiting_of_sound names sts i j h in ground arith) e)
]

deliver_all-idle :
    (clock : StreamMessage → ℕ) (msgs : List StreamMessage) (sts : List StepStatus)
    → deliver_all clock [] msgs sts ≡ sts
unfolding deliver_all find_waiting deliver
deliver_all-idle clock [] sts = refl
deliver_all-idle clock (m ∷ ms) sts = deliver_all-idle clock ms sts

collect_results-reply :
    (clock : StreamMessage → ℕ) (names : List String) (msgs : List StreamMessage)
    (sts : List StepStatus)
    → collect_results clock names (reply msgs) sts
      ≡ ok (deliver_all clock (waiting_of names sts) msgs sts)
unfolding collect_results
collect_results-reply clock names msgs sts = elim (List-cases (waiting_of names sts)) [
  | inl e ↦ rw (e, collect_results) (rw (deliver_all-idle clock msgs sts) refl)
  | inr (w, ws, e) ↦ rw (e, collect_results) refl
]

-- When the results stream answers, every step that is Running under a task id has received all
-- messages of the stream that carry the id, in their order, and every other step is as it was; no
-- two running steps have one task id.
pub collect_results-delivery :
    (clock : StreamMessage → ℕ) (names : List String) (msgs : List StreamMessage)
    (sts : List StepStatus)
    → HasAllNames names sts
    → HasDistinctTasks sts
    → (out : List StepStatus) × (collect_results clock names (reply msgs) sts ≡ ok out)
      × ((j : String) (st : StepStatus)
          → status_of j sts ≡ some st
          → status_of j out
            ≡ some
                (if is_waiting st then record_all clock (messages_for st.task_id msgs) st else st))
collect_results-delivery clock names msgs sts all distinct = (
  deliver_all clock (waiting_of names sts) msgs sts,
  collect_results-reply clock names msgs sts,
  deliver_all-lem clock names msgs sts all distinct,
)
