-- ===== src/Operator/Events/Trigger/Firing.antt =====
-- When an event fires.
use agentops_operator.Prelude.{
  ℕ, ◌<◌, ◌≤◌, true, Option, none, some, [], ◌≡◌, ◌≢◌, refl, sym, ◌∙◌, ◌⊎◌, inl, inr, arith, ap,
  eq_iff, subst, List, Option-cases, Bool-cases, ltb,
}
use agentops_operator.Api.Meta.{Message, ok}
use agentops_operator.Api.Flow.{Flow}
use agentops_operator.Api.Event.{ArkEvent, EventStatus}
use agentops_operator.Operator.Events.{Surroundings}
use agentops_operator.Operator.Events.Cron.{recent, lookback_of, most_recent_schedule}
use agentops_operator.Operator.Events.Cron.Due.{IsNext, IsLastDue, most_recent_schedule-IsLastDue}
use agentops_operator.Operator.Events.Fire.{Fired, fire}
use agentops_operator.Operator.Events.Fire.Dispatch.{IsHeldBack, fire-IsHeldBack}
use agentops_operator.Operator.Events.Trigger.{
  count_firing, Pass, pass, set_event_condition, should_fire, fire_context, schedule_next,
  after_cron_fire, cron_due, reconcile_cron,
}

-- The schedule was due after the last firing, within the last 24 hours.
abbrev pub IsDueSince : (ℕ → Type 0) → ℕ → Option ℕ → Type 0
IsDueSince Due now last_fired = (u : ℕ) × (lookback_of now last_fired < u) × (u ≤ now) × Due u

lookback_of-le : (now l u : ℕ) → lookback_of now (some l) < u → l < u
unfolding lookback_of
lookback_of-le now l u h = ground arith

should_fire_lem :
    (now x : ℕ) (last_fired : Option ℕ)
    → lookback_of now last_fired < x
    → should_fire (some x) last_fired ≡ true
unfolding should_fire
should_fire_lem now x none h = refl
should_fire_lem now x (some l) h = ground (arith, lookback_of-le now l x h)

module _ (w : Surroundings) (Due : ℕ → Type 0) (next : ℕ → ℕ) (is_next : IsNext Due next) (fuel : ℕ)
    (trigger : ArkEvent) where
  reconcile_cron-parsed :
      trigger.spec.source.cron_expr ≢ ""
      → w.parse_cron trigger.spec.source.cron_expr ≡ ok next
      → reconcile_cron w fuel trigger
        ≡ cron_due w next trigger
            (most_recent_schedule next w.now fuel trigger.status.last_fired_at)
  unfolding reconcile_cron
  reconcile_cron-parsed given parsed = ground (arith, eq_iff trigger.spec.source.cron_expr "")

  -- The two outcomes of a valid schedule.
  abbrev Fires : Pass → Type 0
  Fires p =
      (IsDueSince Due w.now trigger.status.last_fired_at
        × (p ≡ after_cron_fire w next trigger.status (fire w trigger (fire_context w trigger ""))))
      ⊎ ((¬ IsDueSince Due w.now trigger.status.last_fired_at)
          × (p ≡ schedule_next w next trigger.status []))

  cron_due_cases :
      (o : Option ℕ)
      → IsLastDue Due (lookback_of w.now trigger.status.last_fired_at) w.now o
      → Fires (cron_due w next trigger (recent o))
  unfolding cron_due should_fire
  cron_due_cases none last = inr (λ (u, lo, hi, d). last u lo hi d, refl)
  cron_due_cases (some x) (d, lo, hi, _) =
      inl ((x, lo, hi, d), rw (should_fire_lem w.now x trigger.status.last_fired_at lo) refl)

  pub reconcile_cron-fires :
      trigger.spec.source.cron_expr ≢ ""
      → w.parse_cron trigger.spec.source.cron_expr ≡ ok next
      → w.now < fuel
      → (IsDueSince Due w.now trigger.status.last_fired_at
          × (reconcile_cron w fuel trigger
              ≡ after_cron_fire w next trigger.status (fire w trigger (fire_context w trigger ""))))
        ⊎ ((¬ IsDueSince Due w.now trigger.status.last_fired_at)
            × (reconcile_cron w fuel trigger ≡ schedule_next w next trigger.status []))
  reconcile_cron-fires given parsed enough =
      let (o, e, last) =
        most_recent_schedule-IsLastDue Due next is_next w.now fuel trigger.status.last_fired_at
          enough in
      subst Fires (sym (reconcile_cron-parsed given parsed ∙ ap (cron_due w next trigger) e))
        (cron_due_cases o last)

  -- When the schedule is due but the event forbids parallel runs and one of its flows is Running, no
  -- flow is created, and the status is counted up as after a firing: lastFiredAt is the current time
  -- and firedCount one more, so the due time is not made up for.
  pub reconcile_cron-IsHeldBack :
      IsDueSince Due w.now trigger.status.last_fired_at
      → IsHeldBack w trigger (fire_context w trigger "")
      → trigger.spec.source.cron_expr ≢ ""
      → w.parse_cron trigger.spec.source.cron_expr ≡ ok next
      → w.now < fuel
      → reconcile_cron w fuel trigger ≡ schedule_next w next (count_firing w.now trigger.status) []
  unfolding after_cron_fire
  reconcile_cron-IsHeldBack due held given parsed enough =
      elim (reconcile_cron-fires given parsed enough) [
        | inr (not_due, _) ↦ absurd (not_due due)
        | inl (_, e) ↦
            e
            ∙ ap (after_cron_fire w next trigger.status)
                (fire-IsHeldBack w trigger (fire_context w trigger "") held)
      ]

abbrev last_fired_of : Pass → Option ℕ
last_fired_of (pass st created at e) = st.last_fired_at
last_fired_of Pass.out_of_fuel = none

abbrev error_of : Pass → Option Message
error_of (pass st created at e) = e
error_of Pass.out_of_fuel = none

abbrev status_in : EventStatus → Pass → EventStatus
status_in default (pass st created at e) = st
status_in default Pass.out_of_fuel = default

lookback_of_mono :
    (now now' : ℕ) (l : Option ℕ) → now ≤ now' → lookback_of now l ≤ lookback_of now' l
unfolding lookback_of
lookback_of_mono now now' none h = omega arith
lookback_of_mono now now' (some l) h = ground arith

lt_cases : (a b : ℕ) → (a < b) ⊎ (b ≤ a)
lt_cases a b = elim (Bool-cases (ltb a b)) [
  | inl e ↦ inl (ground arith)
  | inr e ↦ inr (ground arith)
]

-- A firing without an error records its time.
fired-last_fired :
    (w : Surroundings) (next : ℕ → ℕ) (st : EventStatus) (r : Fired)
    → error_of (after_cron_fire w next st r) ≡ none
    → last_fired_of (after_cron_fire w next st r) ≡ some w.now
unfolding after_cron_fire schedule_next set_event_condition count_firing
fired-last_fired w next st r fine = elim (Option-cases r.error) [
  | inl e ↦ rw (e, after_cron_fire) refl
  | inr (m, e) ↦ absurd (ground (arith, fine))
]

-- A firing with an error leaves the status as it was.
failed-status :
    (w : Surroundings) (next : ℕ → ℕ) (st st' : EventStatus) (r : Fired) (created : List Flow)
    (at : Option ℕ) (m : Message)
    → after_cron_fire w next st r ≡ pass st' created at (some m)
    → st' ≡ st
unfolding after_cron_fire schedule_next
failed-status w next st st' r created at m failed = elim (Option-cases r.error) [
  | inl e ↦
      let fine : error_of (after_cron_fire w next st r) ≡ none = rw (e, after_cron_fire) refl in
      absurd (ground (arith, sym (ap error_of failed) ∙ fine))
  | inr (m', e) ↦
      let same : status_in st' (after_cron_fire w next st r) ≡ st = rw (e, after_cron_fire) refl in
      sym (ap (status_in st') failed) ∙ same
]

idle-last_fired :
    (w : Surroundings) (next : ℕ → ℕ) (st : EventStatus)
    → last_fired_of (schedule_next w next st []) ≡ st.last_fired_at
unfolding schedule_next set_event_condition
idle-last_fired w next st = refl

module _ (Due : ℕ → Type 0) (next : ℕ → ℕ) (is_next : IsNext Due next) (w w' : Surroundings)
    (fuel fuel' : ℕ) (trigger : ArkEvent) where
  -- Nothing is due after a pass until the schedule is due again.
  settled :
      (l : Option ℕ)
      → w.now ≤ w'.now
      → ((u : ℕ) → w.now < u → u ≤ w'.now → ¬ Due u)
      → (l ≡ some w.now)
        ⊎ ((l ≡ trigger.status.last_fired_at)
            × (¬ IsDueSince Due w.now trigger.status.last_fired_at))
      → ¬ IsDueSince Due w'.now l
  settled l later idle how (u, lo, hi, d) = elim (lt_cases w.now u) [
    | inl after ↦ idle u after hi d
    | inr before ↦ elim how [
      | inl fired ↦ absurd (
          omega (
            arith,
            before,
            lookback_of-le w'.now w.now u (subst (λ k. lookback_of w'.now k < u) fired lo),
          ))
      | inr (same, not_due) ↦ not_due (
        u,
        omega (
          arith,
          lookback_of_mono w.now w'.now trigger.status.last_fired_at later,
          subst (λ k. lookback_of w'.now k < u) same lo,
        ),
        before,
        d,
      )
    ]
  ]

  once_fine :
      (st : EventStatus) (created : List Flow) (at : Option ℕ)
      → trigger.spec.source.cron_expr ≢ ""
      → w.parse_cron trigger.spec.source.cron_expr ≡ ok next
      → w'.parse_cron trigger.spec.source.cron_expr ≡ ok next
      → w.now < fuel
      → w'.now < fuel'
      → w.now ≤ w'.now
      → ((u : ℕ) → w.now < u → u ≤ w'.now → ¬ Due u)
      → reconcile_cron w fuel trigger ≡ pass st created at none
      → reconcile_cron w' fuel' (record trigger { status = st }) ≡ schedule_next w' next st []
  once_fine st created at given parsed parsed' enough enough' later idle first =
      let how : (st.last_fired_at ≡ some w.now)
          ⊎ ((st.last_fired_at ≡ trigger.status.last_fired_at)
              × (¬ IsDueSince Due w.now trigger.status.last_fired_at)) =
        elim (reconcile_cron-fires w Due next is_next fuel trigger given parsed enough) [
          | inl (_, e) ↦
              let same = sym e ∙ first in
              inl (
                sym (ap last_fired_of same)
                ∙ fired-last_fired w next trigger.status _ (ap error_of same))
          | inr (not_due, e) ↦ inr (
            sym (ap last_fired_of (sym e ∙ first)) ∙ idle-last_fired w next trigger.status,
            not_due,
          )
        ] in
      elim (reconcile_cron-fires w' Due next is_next fuel' (record trigger { status = st }) given
        parsed' enough') [
          | inr (_, e) ↦ e
          | inl (due, _) ↦ absurd (settled st.last_fired_at later idle how due)
        ]

  -- A pass over an event with a valid schedule that reports no error, whether it fires or not, leaves a
  -- status with which a later pass, before the schedule is due again, creates no flow and records only
  -- the next time. A pass that reports an error leaves the status as it was.
  pub reconcile_cron-once :
      (st : EventStatus) (created : List Flow) (at : Option ℕ) (e : Option Message)
      → trigger.spec.source.cron_expr ≢ ""
      → w.parse_cron trigger.spec.source.cron_expr ≡ ok next
      → w'.parse_cron trigger.spec.source.cron_expr ≡ ok next
      → w.now < fuel
      → w'.now < fuel'
      → w.now ≤ w'.now
      → ((u : ℕ) → w.now < u → u ≤ w'.now → ¬ Due u)
      → reconcile_cron w fuel trigger ≡ pass st created at e
      → ((e ≡ none)
          × (reconcile_cron w' fuel' (record trigger { status = st })
              ≡ schedule_next w' next st []))
        ⊎ ((m : Message) × (e ≡ some m) × (st ≡ trigger.status))
  unfolding schedule_next
  reconcile_cron-once st created at none given parsed parsed' enough enough' later idle first =
      inl (refl, once_fine st created at given parsed parsed' enough enough' later idle first)
  reconcile_cron-once st created at (some m) given parsed parsed' enough enough' later idle first =
      inr (
        m,
        refl,
        elim (reconcile_cron-fires w Due next is_next fuel trigger given parsed enough) [
          | inl (_, e) ↦ failed-status w next trigger.status st _ created at m (sym e ∙ first)
          | inr (_, e) ↦ absurd (ground (arith, ap error_of (sym e ∙ first)))
        ],
      )
