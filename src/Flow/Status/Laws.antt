-- ===== src/Flow/Status/Laws.antt =====
-- Reads through the map of statuses after writes through it.
use agentops_operator.Prelude.{
  String, none, some, List, [], ◌∷◌, map, ◌≡◌, refl, ◌==◌, if◌then◌else◌, arith, eq_iff,
}
use mathlib.Core.Option
use agentops_operator.Api.Flow.{StepStatus}
use agentops_operator.Flow.Status.{status_of, modify}

-- A change of a status that leaves its name.
abbrev pub KeepsName : (StepStatus → StepStatus) → Type 0
KeepsName g = (st : StepStatus) → (g st).name ≡ st.name

pub status_of-name :
    (name : String) (sts : List StepStatus) (st : StepStatus)
    → status_of name sts ≡ some st
    → st.name ≡ name
unfolding status_of
status_of-name name [] st h = cc
status_of-name name (x ∷ xs) st h = ground (arith, status_of-name name xs st, eq_iff x.name name)

pub status_of-modify :
    (name : String) (g : StepStatus → StepStatus)
    → KeepsName g
    → (j : String) (sts : List StepStatus)
    → status_of j (modify name g sts)
      ≡ (if name == j then Option.map g (status_of j sts) else status_of j sts)
unfolding status_of modify
status_of-modify name g keep j [] = ground arith
status_of-modify name g keep j (x ∷ xs) = ground (
  arith,
  status_of-modify name g keep j xs,
  eq_iff name j,
  eq_iff x.name j,
  eq_iff x.name name,
  eq_iff (g x).name j,
  keep x,
)

pub map-name-modify :
    (name : String) (g : StepStatus → StepStatus)
    → KeepsName g
    → (sts : List StepStatus) → map (λ st. st.name) (modify name g sts) ≡ map (λ st. st.name) sts
unfolding modify
map-name-modify name g keep [] = refl
map-name-modify name g keep (x ∷ xs) = ground (arith, map-name-modify name g keep xs, keep x)

-- A write through a missing key changes nothing.
pub modify-none :
    (name : String) (g : StepStatus → StepStatus) (sts : List StepStatus)
    → status_of name sts ≡ none
    → modify name g sts ≡ sts
unfolding status_of modify
modify-none name g [] h = refl
modify-none name g (x ∷ xs) h = ground (arith, modify-none name g xs)
