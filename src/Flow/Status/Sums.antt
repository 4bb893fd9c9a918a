-- ===== src/Flow/Status/Sums.antt =====
-- Sums over the statuses, and what writes through the map of statuses do to them.
use agentops_operator.Prelude.{
  ℕ, ◌+◌, ◌≤◌, ◌≡◌, refl, String, List, [], ◌∷◌, some, inl, inr, arith, Option-cases,
}
use native.Mathlib.Nat.{le_refl}
use agentops_operator.Api.Flow.{StepStatus}
use agentops_operator.Flow.Status.{status_of, modify, modify_each}
use agentops_operator.Flow.Status.Laws.{modify-none}

-- The sum of a weight over the statuses.
abbrev pub total : (StepStatus → ℕ) → List StepStatus → ℕ
total w [] = 0
total w (st ∷ sts) = w st + total w sts

-- A write replaces the summand of the status that is written.
pub total-modify :
    (w : StepStatus → ℕ) (name : String) (g : StepStatus → StepStatus) (sts : List StepStatus)
    (st : StepStatus)
    → status_of name sts ≡ some st
    → total w (modify name g sts) + w st ≡ total w sts + w (g st)
unfolding status_of modify
total-modify w name g [] st e = cc
total-modify w name g (x ∷ xs) st e = elim (Option-cases (status_of name xs)) [
  | inl none_later ↦ ground (arith, modify-none name g xs none_later)
  | inr (later, there) ↦ ground (arith, total-modify w name g xs st)
]

pub total-modify_le :
    (w : StepStatus → ℕ) (name : String) (g : StepStatus → StepStatus) (sts : List StepStatus)
    → ((st : StepStatus) → status_of name sts ≡ some st → w (g st) ≤ w st)
    → total w (modify name g sts) ≤ total w sts
total-modify_le w name g sts h = elim (Option-cases (status_of name sts)) [
  | inl absent ↦ rw (modify-none name g sts absent) (le_refl _)
  | inr (st, there) ↦ omega (arith, total-modify w name g sts st there, h st there)
]

pub total-modify_each :
    (w : StepStatus → ℕ) (g : StepStatus → StepStatus) (sts : List StepStatus)
    → ((st : StepStatus) → w (g st) ≡ w st)
    → total w (modify_each g sts) ≡ total w sts
unfolding modify_each
total-modify_each w g [] h = refl
total-modify_each w g (x ∷ xs) h = ground (arith, total-modify_each w g xs h, h x)
