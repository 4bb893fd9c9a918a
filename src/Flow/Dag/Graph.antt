-- ===== src/Flow/Dag/Graph.antt =====
-- The dependency graph of a flow's steps, as an independent description of what ValidateDAG decides.
use agentops_operator.Prelude.{String, List, Memᴰ, ◌≡◌, refl, ◌⊎◌, inl, inr}
use mathlib.Core.WellFounded.{Acc}
use agentops_operator.Api.Flow.{FlowStep}
use agentops_operator.Flow.Dag.{
  Color, white, gray, black, Colors, Search, done, deps_of, step_names,
}

-- `dep` is among the dependencies of `name`.
abbrev pub DependsOn : List FlowStep → String → String → Type 0
DependsOn steps name dep = Memᴰ dep (deps_of steps name)

-- A walk of one or more dependencies.
pub data Chain (steps : List FlowStep) : String → String → Type 0 where
  one : {a b : String} → DependsOn steps a b → Chain steps a b
  more : {a b c : String} → DependsOn steps a b → Chain steps b c → Chain steps a c

abbrev pub IsAcyclic : List FlowStep → Type 0
IsAcyclic steps = (name : String) → ¬ Chain steps name name

-- Every dependency of every step names a step.
abbrev pub HasKnownDeps : List FlowStep → Type 0
HasKnownDeps steps =
    (s : FlowStep) → Memᴰ s steps → (d : String) → Memᴰ d s.depends_on → Memᴰ d (step_names steps)

-- The converse of `DependsOn`, along which the search descends.
abbrev pub Below : List FlowStep → String → String → Type 0
Below steps dep name = DependsOn steps name dep

pub Chain-snoc :
    {steps : List FlowStep} {a b c : String}
    → Chain steps a b
    → DependsOn steps b c
    → Chain steps a c
Chain-snoc (one e) d = more e (one d)
Chain-snoc (more e w) d = more e (Chain-snoc w d)

-- No walk leads from an accessible name back to it.
pub Acc-no_cycle :
    {steps : List FlowStep} {name : String} → Acc (Below steps) name → ¬ Chain steps name name
Acc-no_cycle (Acc.intro n smaller) (one d) = Acc-no_cycle (smaller n d) (one d)
Acc-no_cycle (Acc.intro n smaller) (more {b = b} d w) = Acc-no_cycle (smaller b d) (Chain-snoc w d)

pub Color-cases : (c : Color) → (c ≡ white) ⊎ (c ≡ gray) ⊎ (c ≡ black)
Color-cases white = inl refl
Color-cases gray = inr (inl refl)
Color-cases black = inr (inr refl)

-- A statement about the colors that a search leaves, when it leaves any.
abbrev pub OnDone : Search → (Colors → Type 0) → Type 0
OnDone (done c) P = P c
OnDone _ P = Unit
