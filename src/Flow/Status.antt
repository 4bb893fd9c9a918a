-- ===== src/Flow/Status.antt =====
-- internal/flow/dag.go: IsTerminalPhase, BuildStatusByName and DepsSucceeded.
-- The map of BuildStatusByName holds pointers into the array of step statuses, and a later status
-- overwrites an earlier one of the same name. A read through it is `status_of`, and a write through
-- it is `modify`, on the array itself.
pub mod Laws
pub mod Sums
pub mod Keeps
pub mod Times
use agentops_operator.Prelude.{
  String, Bool, true, false, ◌&&◌, ◌||◌, Option, none, some, List, [], ◌∷◌, ◌==◌, if◌then◌else◌,
  is_some,
}
use agentops_operator.Api.Flow.{FlowPhase, StepPhase, StepStatus}

unfoldable pub is_terminal_phase : FlowPhase → Bool
is_terminal_phase FlowPhase.succeeded = true
is_terminal_phase FlowPhase.failed = true
is_terminal_phase _ = false

-- `*statusByName[name]`; `none` is the nil of a missing key.
unfoldable pub status_of : String → List StepStatus → Option StepStatus
status_of name [] = none
status_of name (st ∷ sts) = elim (status_of name sts) [
  | some later ↦ some later
  | none ↦ if st.name == name then some st else none
]

-- `*statusByName[name] = g(*statusByName[name])`
unfoldable pub modify : String → (StepStatus → StepStatus) → List StepStatus → List StepStatus
unfolding status_of
modify name g [] = []
modify name g (st ∷ sts) =
    (if is_some (status_of name sts) then st else if st.name == name then g st else st)
    ∷ modify name g sts

-- `for name, st := range statusByName`, where the body changes `*st` alone.
unfoldable pub modify_each : (StepStatus → StepStatus) → List StepStatus → List StepStatus
unfolding status_of
modify_each g [] = []
modify_each g (st ∷ sts) =
    (if is_some (status_of st.name sts) then st else g st) ∷ modify_each g sts

abbrev pub is_pending : StepPhase → Bool
is_pending StepPhase.pending = true
is_pending _ = false

abbrev pub is_running : StepPhase → Bool
is_running StepPhase.running = true
is_running _ = false

-- Succeeded and Skipped both count as completed.
unfoldable pub is_completed : StepPhase → Bool
is_completed StepPhase.succeeded = true
is_completed StepPhase.skipped = true
is_completed _ = false

unfoldable pub is_completed_status : Option StepStatus → Bool
unfolding is_completed
is_completed_status none = false
is_completed_status (some st) = is_completed st.phase

unfoldable pub deps_succeeded : List String → List StepStatus → Bool
unfolding is_completed_status
deps_succeeded [] sts = true
deps_succeeded (d ∷ ds) sts = is_completed_status (status_of d sts) && deps_succeeded ds sts
