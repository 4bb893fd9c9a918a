-- ===== src/Operator/Events/Cron/Due.antt =====
-- What mostRecentSchedule finds, for a schedule that keeps the contract of cron.Schedule.
use agentops_operator.Prelude.{
  ℕ, zero, suc, ◌-◌, ◌<◌, ◌≤◌, false, Option, none, some, ltb, ◌≡◌, refl, inl, inr, arith,
  Bool-cases, ltb→lt,
}
use agentops_operator.Operator.Events.Cron.{
  recent, out_of_fuel, lookback_of, step_forward, most_recent_schedule,
}

-- `Next` gives the first time after its argument at which the schedule is due.
pub record IsNext (Due : ℕ → Type 0) (next : ℕ → ℕ) : Type 0 where
  pub later : (t : ℕ) → t < next t
  pub due : (t : ℕ) → Due (next t)
  pub first : (t u : ℕ) → t < u → u < next t → ¬ Due u

-- The last due time in the interval from `from` (excluded) to `now` (included), if there is one.
abbrev pub IsLastDue : (ℕ → Type 0) → ℕ → ℕ → Option ℕ → Type 0
IsLastDue Due from now none = (u : ℕ) → from < u → u ≤ now → ¬ Due u
IsLastDue Due from now (some x) =
    Due x × (from < x) × (x ≤ now) × ((u : ℕ) → x < u → u ≤ now → ¬ Due u)

-- What the loop has found when it stands at `t`.
abbrev Found : (ℕ → Type 0) → ℕ → ℕ → ℕ → Option ℕ → Type 0
Found Due from now t none = t ≡ from
Found Due from now t (some x) = (t ≡ x) × Due x × (from < x) × (x ≤ now)

module _ (Due : ℕ → Type 0) (next : ℕ → ℕ) (is_next : IsNext Due next) (now : ℕ) where
  Found-last :
      (from t : ℕ) (last : Option ℕ)
      → Found Due from now t last
      → now < next t
      → IsLastDue Due from now last
  Found-last from t none h late = λ u lo hi. is_next.first t u (omega arith) (omega arith)
  Found-last from t (some x) (e, d, lo, hi) late =
      (d, lo, hi, λ u a b. is_next.first t u (omega arith) (omega arith))

  step_forward-last :
      (fuel from t : ℕ) (last : Option ℕ)
      → Found Due from now t last
      → from ≤ t
      → now - t < fuel
      → (o : Option ℕ) × (step_forward next now fuel t last ≡ recent o) × IsLastDue Due from now o
  unfolding step_forward
  step_forward-last zero from t last h le enough = absurd (omega arith)
  step_forward-last (suc fuel) from t last h le enough = elim (Bool-cases (ltb now (next t))) [
    | inl late ↦
        (last, rw (late, step_forward) refl, Found-last from t last h (ltb→lt now (next t) late))
    | inr early ↦
        let later = is_next.later t in
        let (o, e, k) =
          step_forward-last fuel from (next t) (some (next t))
            (refl, is_next.due t, omega arith, not_late (next t) early) (omega arith)
            (less (next t) early later) in
        (o, rw (early, step_forward) e, k)
  ]
    where
      not_late : (n : ℕ) → ltb now n ≡ false → n ≤ now
      not_late n h = ground arith

      less : (n : ℕ) → ltb now n ≡ false → t < n → now - n < fuel
      less n h lt = ground arith

  pub most_recent_schedule-IsLastDue :
      (fuel : ℕ) (last_fired : Option ℕ)
      → now < fuel
      → (o : Option ℕ) × (most_recent_schedule next now fuel last_fired ≡ recent o)
        × IsLastDue Due (lookback_of now last_fired) now o
  unfolding most_recent_schedule
  most_recent_schedule-IsLastDue fuel last_fired enough =
      step_forward-last fuel (lookback_of now last_fired) (lookback_of now last_fired) none refl
        (omega arith) (omega arith)

-- A schedule that is never due, for which `Next` answers the zero time: the loop does not end.
step_forward-stuck :
    (next : ℕ → ℕ) (now fuel t : ℕ) (last : Option ℕ)
    → ((u : ℕ) → next u ≡ 0)
    → step_forward next now fuel t last ≡ out_of_fuel
unfolding step_forward
step_forward-stuck next now zero t last never = refl
step_forward-stuck next now (suc fuel) t last never = elim (Bool-cases (ltb now (next t))) [
  | inl late ↦ absurd (ground (arith, never t))
  | inr early ↦
      rw (early, step_forward) (step_forward-stuck next now fuel (next t) (some (next t)) never)
]

-- For a schedule that is never due, whose `Next` answers the zero time, mostRecentSchedule does not
-- end, however long it runs.
pub most_recent_schedule-never :
    (next : ℕ → ℕ) (now fuel : ℕ) (last_fired : Option ℕ)
    → ((u : ℕ) → next u ≡ 0)
    → most_recent_schedule next now fuel last_fired ≡ out_of_fuel
unfolding most_recent_schedule
most_recent_schedule-never next now fuel last_fired never =
    step_forward-stuck next now fuel (lookback_of now last_fired) none never
