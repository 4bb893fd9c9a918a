-- ===== src/Operator/Events/Reconcile/Writes.antt =====
-- What Reconcile of an event writes to its status.
use agentops_operator.Prelude.{
  ℕ, String, false, Option, none, some, List, [], ◌∷◌, ◌≡◌, refl, ◌∙◌, ◌⊎◌, inl, inr, arith,
  Option-cases, Memᴰ, ap, subst,
}
use agentops_operator.Api.Meta.{Message}
use agentops_operator.Api.Flow.{Flow}
use agentops_operator.Api.Event.{ArkEvent, EventStatus, webhook}
use agentops_operator.Operator.Reconcile.{Get, found, not_found, get_error}
use agentops_operator.Operator.Events.{Surroundings}
use agentops_operator.Operator.Events.Trigger.{
  pass, set_event_condition, ensure_webhook_token, webhook_status, reconcile_webhook,
}
use agentops_operator.Operator.Events.Reconcile.{
  EventApi, with_status, write_back, finish_pass, reconcile_source, reconcile_event, written,
}

-- A status with the firings of another.
abbrev pub SameFirings : EventStatus → EventStatus → Type 0
SameFirings s t = (s.last_fired_at ≡ t.last_fired_at) × (s.fired_count ≡ t.fired_count)

module _ (w : Surroundings) (api : EventApi) (base : String) where
  written-write_back :
      (st : EventStatus) (created : List Flow) (requeue : Option ℕ) (latest : ArkEvent)
      → written (write_back w api base st created requeue (found latest))
        ≡ with_status latest st ∷ []
  unfolding write_back written
  written-write_back st created requeue latest =
      elim (Option-cases (api.update_status (with_status latest st))) [
        | inr (e, bad) ↦ ground arith
        | inl good ↦ ground arith
      ]

  write_back-firings :
      (st : EventStatus) (created : List Flow) (requeue : Option ℕ) (again : Get {0} ArkEvent)
      (u : ArkEvent)
      → Memᴰ u (written (write_back w api base st created requeue again))
      → SameFirings u.status st
  unfolding write_back written
  write_back-firings st created requeue not_found u m = elim m [ ]
  write_back-firings st created requeue (get_error e) u m = elim m [ ]
  write_back-firings st created requeue (found latest) u m =
      only (subst (Memᴰ u) (written-write_back st created requeue latest) m)
    where
      only : Memᴰ u (with_status latest st ∷ []) → SameFirings u.status st
      only (Memᴰ.head e) = (
        ap (λ (x : ArkEvent). x.status.last_fired_at) e,
        ap (λ (x : ArkEvent). x.status.fired_count) e,
      )
      only (Memᴰ.tail m') = elim m' [ ]

  webhook_cases :
      (trigger : ArkEvent)
      → ((e : Message) × (reconcile_webhook w base trigger ≡ pass trigger.status [] none (some e)))
        ⊎ ((st : EventStatus) × SameFirings st trigger.status
            × (reconcile_webhook w base trigger ≡ pass st [] none none))
  unfolding reconcile_webhook webhook_status set_event_condition
  webhook_cases trigger = elim (Option-cases (ensure_webhook_token w trigger)) [
    | inr (e, bad) ↦ inl (e, rw (bad, reconcile_webhook) refl)
    | inl good ↦
        inr (webhook_status w base trigger, (refl, refl), rw (good, reconcile_webhook) refl)
  ]

  finish_webhook-firings :
      (trigger u : ArkEvent)
      → Memᴰ u (written (finish_pass w api base (reconcile_webhook w base trigger)))
      → SameFirings u.status trigger.status
  unfolding finish_pass written
  finish_webhook-firings trigger u m = elim (webhook_cases trigger) [
    | inl (e, failed) ↦ elim (subst (λ p. Memᴰ u (written (finish_pass w api base p))) failed m) [ ]
    | inr (st, (same_time, same_count), done) ↦
        let (a, b) =
          write_back-firings st [] none api.read_again u
            (subst (λ p. Memᴰ u (written (finish_pass w api base p))) done m) in
        (a ∙ same_time, b ∙ same_count)
  ]

  webhook_source :
      (fuel : ℕ) (trigger : ArkEvent)
      → api.read ≡ found trigger
      → trigger.spec.suspended ≡ false
      → trigger.spec.source.type ≡ webhook
      → reconcile_event w api base fuel ≡ finish_pass w api base (reconcile_webhook w base trigger)
  unfolding reconcile_event reconcile_source
  webhook_source fuel trigger read awake type = ground arith

  -- For an event of type webhook, every status that Reconcile writes has the time and the number of
  -- firings of the first read, whatever the second read says: firings that the webhook server records
  -- in between are lost. The event is not suspended.
  pub reconcile_event-stale_firings :
      (fuel : ℕ) (trigger u : ArkEvent)
      → api.read ≡ found trigger
      → trigger.spec.suspended ≡ false
      → trigger.spec.source.type ≡ webhook
      → Memᴰ u (written (reconcile_event w api base fuel))
      → SameFirings u.status trigger.status
  unfolding reconcile_event reconcile_source
  reconcile_event-stale_firings fuel trigger u read awake type m =
      finish_webhook-firings trigger u
        (subst (λ o. Memᴰ u (written o)) (webhook_source fuel trigger read awake type) m)
