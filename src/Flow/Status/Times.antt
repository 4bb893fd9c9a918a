-- ===== src/Flow/Status/Times.antt =====
-- The times that a status records, and properties of all statuses under writes.
use agentops_operator.Prelude.{
  ℕ, String, true, Option, some, List, [], ◌∷◌, ◌≡◌, refl, sym, subst, inl, inr, arith, is_some,
  All, Bool-cases, Option-cases, ◌==◌,
}
use agentops_operator.Api.Flow.{StepPhase, StepStatus}
use agentops_operator.Flow.Status.{status_of, modify, modify_each}
use agentops_operator.Flow.Status.Laws.{modify-none}

-- A Running status has a start time, and a Succeeded one a completion time as well.
abbrev pub IsTimedAs : StepPhase → Option ℕ → Option ℕ → Type 0
IsTimedAs StepPhase.running start stop = is_some start ≡ true
IsTimedAs StepPhase.succeeded start stop = (is_some start ≡ true) × (is_some stop ≡ true)
IsTimedAs _ start stop = Unit

abbrev pub IsTimed : StepStatus → Type 0
IsTimed st = IsTimedAs st.phase st.start_time st.completion_time

module _ (P : StepStatus → Type 0) where
  pub All-status_of :
      (name : String) (sts : List StepStatus) (st : StepStatus)
      → All P sts
      → status_of name sts ≡ some st
      → P st
  unfolding status_of
  All-status_of name [] st h e = absurd (cc)
  All-status_of name (x ∷ xs) st h e = elim (Option-cases (status_of name xs)) [
    | inr (later, f) ↦ subst P (cc) (All-status_of name xs later h.1 f)
    | inl f ↦ elim (Bool-cases (x.name == name)) [
      | inl same ↦ subst P (ground arith) h.0
      | inr other ↦ absurd (ground arith)
    ]
  ]

  -- A write keeps a property of all statuses if it keeps it for the status that it changes.
  pub All-modify :
      (name : String) (g : StepStatus → StepStatus) (sts : List StepStatus)
      → ((st : StepStatus) → status_of name sts ≡ some st → P st → P (g st))
      → All P sts
      → All P (modify name g sts)
  unfolding modify status_of
  All-modify name g [] keep h = tt
  All-modify name g (x ∷ xs) keep h = elim (Option-cases (status_of name xs)) [
    | inr (later, f) ↦ (rw f h.0, All-modify name g xs (λ st e. keep st (rw e refl)) h.1)
    | inl f ↦ elim (Bool-cases (x.name == name)) [
      | inl same ↦ (
        rw (f, same) (keep x (ground arith) h.0),
        subst (All P) (sym (modify-none name g xs f)) h.1,
      )
      | inr other ↦ (rw (f, other) h.0, subst (All P) (sym (modify-none name g xs f)) h.1)
    ]
  ]

  pub All-modify_each :
      (g : StepStatus → StepStatus) (sts : List StepStatus)
      → ((st : StepStatus) → P st → P (g st))
      → All P sts
      → All P (modify_each g sts)
  unfolding modify_each
  All-modify_each g [] keep h = tt
  All-modify_each g (x ∷ xs) keep h = elim (Bool-cases (is_some (status_of x.name xs))) [
    | inl e ↦ (rw e h.0, All-modify_each g xs keep h.1)
    | inr e ↦ (rw e (keep x h.0), All-modify_each g xs keep h.1)
  ]
