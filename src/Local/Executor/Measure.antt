-- ===== src/Local/Executor/Measure.antt =====
-- A measure on the statuses that falls in every round of Run: a step that is pending may run once
-- more, and each repetition that its loop still allows gives it two more.
use agentops_operator.Prelude.{ℕ, ◌+◌, ◌*◌, ◌-◌, List, if◌then◌else◌}
use agentops_operator.Prelude.Int64.{order64}
use agentops_operator.Api.Flow.{StepStatus}
use agentops_operator.Flow.Status.{is_pending}
use agentops_operator.Flow.Status.Sums.{total}

unfoldable pub weight : ℕ → StepStatus → ℕ
weight k st = 2 * (k - order64 st.iterations) + (if is_pending st.phase then 1 else 0)

abbrev pub measure : ℕ → List StepStatus → ℕ
measure k = total (weight k)
