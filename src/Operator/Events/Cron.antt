-- ===== src/Operator/Events/Cron.antt =====
-- internal/controller/arkevent_controller.go: mostRecentSchedule. A schedule is its function `Next`.
pub mod Due
use agentops_operator.Prelude.{
  ℕ, zero, suc, ◌-◌, ◌*◌, Bool, true, false, Option, none, some, if◌then◌else◌, ltb,
}
use agentops_operator.Flow.Phase.{nanoseconds}

pub data Recent : Type 0 where
  recent : Option ℕ → Recent
  out_of_fuel : Recent

abbrev pub day : ℕ
day = 86400 * nanoseconds

-- `lookback`
unfoldable pub lookback_of : ℕ → Option ℕ → ℕ
lookback_of now none = now - day
lookback_of now (some last_fired) = if ltb (now - day) last_fired then last_fired else now - day

module _ (next : ℕ → ℕ) (now : ℕ) where
  -- The loop that steps forward until it passes `now`.
  unfoldable pub step_forward : ℕ → ℕ → Option ℕ → Recent
  step_forward zero t last = out_of_fuel
  step_forward (suc fuel) t last = elim (ltb now (next t)) [
    | true ↦ recent last
    | false ↦ step_forward fuel (next t) (some (next t))
  ]

  unfoldable pub most_recent_schedule : ℕ → Option ℕ → Recent
  unfolding step_forward lookback_of
  most_recent_schedule fuel last_fired = step_forward fuel (lookback_of now last_fired) none
