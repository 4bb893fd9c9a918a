-- ===== src/Runtime/Queue/Retries.antt =====
-- A task that fails again and again.
use agentops_operator.Prelude.{
  ℕ, zero, suc, ◌+◌, ◌<◌, String, true, false, Option, none, some, List, [], ◌∷◌, ◌==◌,
  if◌then◌else◌, ◌≡◌, ◌≢◌, refl, ◌∙◌, inl, inr, ◌⊎◌, arith, Bool-cases, ap, eq_iff,
}
use mathlib.Core.Option
use agentops_operator.Prelude.Decimal.{atoi, itoa, atoi-itoa}
use agentops_operator.Prelude.Int64.{two63, add64, lt64, lt64_lem}
use agentops_operator.Prelude.Maps.{lookup, set_value, lookup-set_value}
use agentops_operator.Operator.Redis.{Value, text, text_of}
use agentops_operator.Runtime.Queue.{
  Task, Queue, Command, xack, xadd, meta_of, task_of_message, attempt_of, copy_meta, retry_values,
  nack, new_queue, or_zero, text_or_none,
}

-- The task that Poll gives for the message which Nack adds under `id`.
abbrev pub retried : String → Task → Task
retried id task = task_of_message (record { id = id; values = retry_values task })

abbrev as_text : Option Value → Option String
as_text (some (text s)) = some s
as_text _ = none

-- All values are texts.
abbrev AllText : List (String × Value) → Type 0
AllText [] = Unit
AllText ((k, v) ∷ rest) = ((s : String) × (v ≡ text s)) × AllText rest

AllText-set_value :
    (k s : String) (values : List (String × Value))
    → AllText values
    → AllText (set_value k (text s) values)
unfolding set_value
AllText-set_value k s [] h = ((s, refl), tt)
AllText-set_value k s ((j, v) ∷ rest) h = elim (Bool-cases (j == k)) [
  | inl b ↦ rw b ((s, refl), h.1)
  | inr b ↦ rw b (h.0, AllText-set_value k s rest h.1)
]

AllText-copy_meta :
    (meta : List (String × String)) (values : List (String × Value))
    → AllText values
    → AllText (copy_meta meta values)
unfolding copy_meta
AllText-copy_meta [] values h = h
AllText-copy_meta ((k, v) ∷ rest) values h = elim (Bool-cases (k == "attempt")) [
  | inl b ↦ rw b (AllText-copy_meta rest values h)
  | inr b ↦
      rw b (AllText-copy_meta rest (set_value k (text v) values) (AllText-set_value k v values h))
]

lookup-meta_of :
    (k : String) (values : List (String × Value))
    → AllText values
    → k ≢ "prompt"
    → lookup k (meta_of values) ≡ as_text (lookup k values)
unfolding lookup meta_of
lookup-meta_of k [] h other = refl
lookup-meta_of k ((j, v) ∷ rest) ((s, e), h) other =
    rw e (ground (arith, lookup-meta_of k rest h other, eq_iff j k, eq_iff j "prompt"))

-- Copying the meta changes neither the attempt nor a key that the meta does not have.
lookup-copy_meta :
    (key : String) (meta : List (String × String)) (values : List (String × Value))
    → (key ≡ "attempt") ⊎ (lookup key meta ≡ none)
    → lookup key (copy_meta meta values) ≡ lookup key values
unfolding copy_meta lookup
lookup-copy_meta key [] values h = refl
lookup-copy_meta key ((k, v) ∷ rest) values h = ground (
  arith,
  lookup-copy_meta key rest values,
  lookup-copy_meta key rest (set_value k (text v) values),
  lookup-set_value key k (text v) values,
  eq_iff k key,
  eq_iff k "attempt",
)

retry_values-AllText : (task : Task) → AllText (retry_values task)
unfolding retry_values
retry_values-AllText task =
    AllText-copy_meta task.meta _
      ((task.prompt, refl), ((itoa (add64 (attempt_of task) 1), refl), tt))

retried-attempt :
    (id : String) (task : Task) → attempt_of (retried id task) ≡ add64 (attempt_of task) 1
unfolding attempt_of task_of_message retry_values lookup or_zero text_or_none
retried-attempt id task =
    let a = add64 (attempt_of task) 1 in
    let base : List (String × Value) =
      ("prompt", text task.prompt) ∷ ("attempt", text (itoa a)) ∷ [] in
    ap (λ o. or_zero (atoi (text_or_none o)))
      (lookup-meta_of "attempt" (retry_values task) (retry_values-AllText task)
          (λ e. ground (arith, (eq_iff "attempt" "prompt").1 e))
        ∙ ap as_text (lookup-copy_meta "attempt" task.meta base (inl refl)))
    ∙ ap or_zero (atoi-itoa a (omega arith))

retried-prompt :
    (id : String) (task : Task)
    → lookup "prompt" task.meta ≡ none
    → (retried id task).prompt ≡ task.prompt
unfolding task_of_message retry_values lookup text_of
retried-prompt id task h = ap text_of (
    lookup-copy_meta "prompt" task.meta
      (("prompt", text task.prompt) ∷ ("attempt", text (itoa (add64 (attempt_of task) 1))) ∷ [])
      (inr h))

-- The message that the commands add to the task stream.
abbrev pub requeue_of : List Command → Option (List (String × Value))
requeue_of [] = none
requeue_of (xadd stream values ∷ cs) =
    let rest = requeue_of cs in if stream == "agent-tasks" then some values else rest
requeue_of (_ ∷ cs) = requeue_of cs

module _ (pod : String) (max_retries : ℕ) (reason : String) where
  requeue-nack :
      (task : Task)
      → requeue_of (nack (new_queue pod max_retries) task reason)
        ≡ (if lt64 (attempt_of task) max_retries then some (retry_values task) else none)
  unfolding nack new_queue
  requeue-nack task = elim (Bool-cases (lt64 (attempt_of task) max_retries)) [
    | inl b ↦ rw b refl
    | inr b ↦ rw b refl
  ]

  -- One more execution, if a message was added.
  abbrev again : (Task → Option ℕ) → String → Option (List (String × Value)) → Option ℕ
  again rest id none = some 1
  again rest id (some values) =
      Option.map (λ n. n + 1) (rest (task_of_message (record { id = id; values = values })))

  -- How often a task that always fails is executed until Nack no longer adds it to the task stream;
  -- `ids` are the message ids that Redis gives.
  unfoldable pub executions : (ℕ → String) → ℕ → Task → Option ℕ
  executions ids zero task = none
  executions ids (suc fuel) task =
      again (executions ids fuel) (ids fuel)
        (requeue_of (nack (new_queue pod max_retries) task reason))

  executions-again :
      (ids : ℕ → String) (fuel : ℕ) (task : Task)
      → executions ids (suc fuel) task
        ≡ again
            (executions ids fuel)
            (ids fuel)
            (if lt64 (attempt_of task) max_retries then some (retry_values task) else none)
  unfolding executions
  executions-again ids fuel task = ap (again (executions ids fuel) (ids fuel)) (requeue-nack task)

  executions-last :
      (ids : ℕ → String) (fuel : ℕ) (task : Task)
      → lt64 (attempt_of task) max_retries ≡ false
      → executions ids (suc fuel) task ≡ some 1
  executions-last ids fuel task h = executions-again ids fuel task ∙ rw h refl

  executions-retry :
      (ids : ℕ → String) (fuel : ℕ) (task : Task)
      → lt64 (attempt_of task) max_retries ≡ true
      → executions ids (suc fuel) task
        ≡ Option.map (λ n. n + 1) (executions ids fuel (retried (ids fuel) task))
  executions-retry ids fuel task h = executions-again ids fuel task ∙ rw h refl

  executions-left :
      (ids : ℕ → String) (left : ℕ) (task : Task)
      → attempt_of task + left ≡ max_retries
      → max_retries < two63
      → executions ids (suc left) task ≡ some (left + 1)
  executions-left ids zero task e small =
      executions-last ids zero task
        (lt64_lem (attempt_of task) max_retries (omega arith) small ∙ ground arith)
  executions-left ids (suc left) task e small =
      executions-retry ids (suc left) task
        (lt64_lem (attempt_of task) max_retries (omega arith) small ∙ ground arith)
      ∙ ap (Option.map (λ n. n + 1)) (
          executions-left ids left (retried (ids (suc left)) task)
            (omega (arith, retried-attempt (ids (suc left)) task)) small)
      ∙ ap some (omega arith)

  -- A task whose message has no attempt counter, and which fails every time it is executed, is
  -- executed one time more than maxRetries before Nack no longer adds it to the task stream. The
  -- limit is not negative.
  pub nack-executions :
      (ids : ℕ → String) (task : Task)
      → lookup "attempt" task.meta ≡ none
      → max_retries < two63
      → executions ids (suc max_retries) task ≡ some (max_retries + 1)
  unfolding attempt_of text_or_none or_zero atoi
  nack-executions ids task first small =
      executions-left ids max_retries task
        (omega (arith, ap (λ o. or_zero (atoi (text_or_none o))) first)) small

-- Nack acknowledges the task and, below the limit of retries, adds a message from which Poll reads a
-- task with the same prompt and an attempt counter that is one higher. The task's meta holds no
-- prompt, as for every task of Poll.
pub nack-retry :
    (q : Queue) (task : Task) (reason id : String)
    → lookup "prompt" task.meta ≡ none
    → lt64 (attempt_of task) q.max_retries ≡ true
    → (values : List (String × Value)) × (nack q task reason
        ≡ xack q.stream q.group task.id ∷ xadd q.stream values ∷ [])
      × ((task_of_message (record { id = id; values = values })).prompt ≡ task.prompt)
      × (attempt_of (task_of_message (record { id = id; values = values }))
          ≡ add64 (attempt_of task) 1)
unfolding nack
nack-retry q task reason id h below =
    (retry_values task, rw below refl, retried-prompt id task h, retried-attempt id task)
