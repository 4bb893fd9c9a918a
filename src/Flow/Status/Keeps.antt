-- ===== src/Flow/Status/Keeps.antt =====
-- Statuses that have left Pending, and the dependencies that they complete.
use agentops_operator.Prelude.{
  String, true, false, some, List, [], ◌∷◌, ◌≡◌, refl, ◌∙◌, inl, inr, arith, Option-cases,
  name_cases,
}
use agentops_operator.Api.Flow.{StepStatus}
use agentops_operator.Flow.Status.{status_of, modify, deps_succeeded, is_pending, is_completed}
use agentops_operator.Flow.Status.Laws.{KeepsName, status_of-modify}

-- Statuses that are not Pending stay as they are.
abbrev pub Keeps : List StepStatus → List StepStatus → Type 0
Keeps sts sts' =
    (j : String) (st : StepStatus)
    → status_of j sts ≡ some st
    → is_pending st.phase ≡ false
    → status_of j sts' ≡ some st

-- Dependencies that are complete stay complete.
pub deps_succeeded-Keeps :
    (ds : List String) (sts sts' : List StepStatus)
    → Keeps sts sts'
    → deps_succeeded ds sts ≡ true
    → deps_succeeded ds sts' ≡ true
unfolding deps_succeeded is_completed
deps_succeeded-Keeps [] sts sts' keeps h = refl
deps_succeeded-Keeps (d ∷ ds) sts sts' keeps h = elim (Option-cases (status_of d sts)) [
  | inl e ↦ absurd (ground arith)
  | inr (st, e) ↦
      ground
        (arith, keeps d st e (ground arith), deps_succeeded-Keeps ds sts sts' keeps (ground arith))
]

-- A write to a status that is Pending keeps the others.
pub modify-Keeps :
    (name : String) (g : StepStatus → StepStatus) (sts : List StepStatus) (old : StepStatus)
    → KeepsName g
    → status_of name sts ≡ some old
    → is_pending old.phase ≡ true
    → Keeps sts (modify name g sts)
modify-Keeps name g sts old keep at pend j st e p = elim (name_cases name j) [
  | inl (same, b) ↦ absurd (ground arith)
  | inr (other, b) ↦ status_of-modify name g keep j sts ∙ rw b e
]
