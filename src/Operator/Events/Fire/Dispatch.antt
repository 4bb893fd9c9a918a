-- ===== src/Operator/Events/Fire/Dispatch.antt =====
-- What a firing creates.
use agentops_operator.Prelude.{
  String, true, Option, none, some, List, [], ◌∷◌, ◌++◌, ◌≡◌, ◌≢◌, refl, sym, ◌∙◌, ◌⊎◌, inl, inr,
  arith, Bool-cases, Option-cases, ap, subst, snoc, eq_refl,
}
use mathlib.Core.List.{append-nil, append_assoc}
use agentops_operator.Prelude.Maps.{set_value, lookup, lookup-set_value}
use agentops_operator.Api.Meta.{Message, ok}
use agentops_operator.Api.Flow.{FlowPhase, Flow}
use agentops_operator.Api.Event.{ArkEvent, EventTarget}
use agentops_operator.Operator.Submit.Effects.{Result-cases}
use agentops_operator.Operator.Reconcile.{found}
use agentops_operator.Operator.Reconcile.Guards.{Get-cases}
use agentops_operator.Operator.Events.{FireContext, Surroundings}
use agentops_operator.Operator.Events.Fire.{
  has_label, is_forbid, any_running, has_running_flow, resolve_trigger_template, resolve_input,
  instance_of, owned, build_flow, dispatch, fire_unless_running, fire,
}

module _ (w : Surroundings) (trigger : ArkEvent) (ctx : FireContext w.Body) where
  -- Keys that the target does not set keep the template's value.
  resolve_input-kept :
      (input base out : List (String × String)) (k : String)
      → resolve_input w ctx input base ≡ ok out
      → lookup k input ≡ none
      → lookup k out ≡ lookup k base
  unfolding resolve_input lookup
  resolve_input-kept [] base out k h absent = ground arith
  resolve_input-kept ((j, expr) ∷ rest) base out k h absent =
      elim (Result-cases (resolve_trigger_template w expr ctx)) [
        | inr (e, bad) ↦ absurd (ground arith)
        | inl (v, good) ↦
            ground (
              arith,
              resolve_input-kept rest (set_value j v base) out k,
              lookup-set_value k j v base,
            )
      ]

  -- The flow is a run of the target's template for this event.
  pub record IsInstance (target : EventTarget) (f : Flow) : Type 0 where
    pub tmpl : Flow
    pub template_found : w.get_flow target.pipeline ≡ found tmpl
    pub steps : f.spec.steps ≡ tmpl.spec.steps
    pub output : f.spec.output ≡ tmpl.spec.output
    pub timeout : f.spec.timeout_seconds ≡ tmpl.spec.timeout_seconds
    pub budget : f.spec.max_tokens ≡ tmpl.spec.max_tokens
    pub input :
        (k : String)
        → lookup k target.input ≡ none
        → lookup k f.spec.input ≡ lookup k tmpl.spec.input
    pub fresh : f.status.phase ≡ FlowPhase.unset
    pub labelled : has_label "arkonis.dev/trigger" trigger.meta.name f.meta.labels ≡ true
    pub created : w.create_flow f ≡ none

  -- One flow for each target, in order.
  abbrev pub Instances : List EventTarget → List Flow → Type 0
  Instances [] [] = Unit
  Instances (t ∷ ts) (f ∷ fs) = IsInstance t f × Instances ts fs
  Instances _ _ = ⊥

  owned_lem : (f g : Flow) (o : Option Message) → owned f o ≡ ok g → f ≡ g
  unfolding owned
  owned_lem f g none h = ground arith
  owned_lem f g (some e) h = absurd (ground arith)

  build_flow-instance_of :
      (t : EventTarget) (f : Flow)
      → build_flow w trigger t ctx ≡ ok f
      → (tmpl : Flow) × (w.get_flow t.pipeline ≡ found tmpl)
        × (input : List (String × String)) × (resolve_input w ctx t.input tmpl.spec.input
            ≡ ok input)
        × (instance_of w trigger t ctx tmpl input ≡ f)
  unfolding build_flow
  build_flow-instance_of t f h = elim (Get-cases (w.get_flow t.pipeline)) [
    | inr (inl e) ↦ absurd (ground arith)
    | inr (inr (m, e)) ↦ absurd (ground arith)
    | inl (tmpl, e) ↦ elim (Result-cases (resolve_input w ctx t.input tmpl.spec.input)) [
      | inr (m, bad) ↦ absurd (ground arith)
      | inl (input, good) ↦
          let g = instance_of w trigger t ctx tmpl input in
          (tmpl, e, input, good, owned_lem g f (w.set_owner g) (ground arith))
    ]
  ]

  build_flow-IsInstance :
      (t : EventTarget) (f : Flow)
      → build_flow w trigger t ctx ≡ ok f
      → w.create_flow f ≡ none
      → IsInstance t f
  unfolding instance_of has_label
  build_flow-IsInstance t f h made =
      let (tmpl, there, input, resolved, same) = build_flow-instance_of t f h in
      let keep : IsInstance t (instance_of w trigger t ctx tmpl input) = record {
        tmpl = tmpl;
        template_found = there;
        steps = refl;
        output = refl;
        timeout = refl;
        budget = refl;
        input = λ k absent. resolve_input-kept t.input tmpl.spec.input input k resolved absent;
        fresh = refl;
        labelled = eq_refl trigger.meta.name;
        created = ap w.create_flow same ∙ made;
      } in
      subst (IsInstance t) same keep

  dispatch_cases :
      (t : EventTarget) (ts : List EventTarget) (before : List Flow)
      → (dispatch w trigger ctx (t ∷ ts) before).error ≡ none
      → (f : Flow) × (build_flow w trigger t ctx ≡ ok f)
        × (w.create_flow f ≡ none)
        × (dispatch w trigger ctx (t ∷ ts) before ≡ dispatch w trigger ctx ts (snoc before f))
  unfolding dispatch
  dispatch_cases t ts before h = elim (Result-cases (build_flow w trigger t ctx)) [
    | inr (e, bad) ↦ absurd (ground arith)
    | inl (f, good) ↦ elim (Option-cases (w.create_flow f)) [
      | inr (e, bad) ↦ absurd (ground arith)
      | inl made ↦ (f, good, made, rw (good, dispatch) (rw made refl))
    ]
  ]

  dispatch-Instances :
      (ts : List EventTarget) (before : List Flow)
      → (dispatch w trigger ctx ts before).error ≡ none
      → (more : List Flow) × ((dispatch w trigger ctx ts before).created ≡ before ++ more)
        × Instances ts more
  unfolding dispatch
  dispatch-Instances [] before h = ([], sym (append-nil before), tt)
  dispatch-Instances (t ∷ ts) before h =
      let (f, good, made, go) = dispatch_cases t ts before h in
      let (more, e, rest) =
        dispatch-Instances ts (snoc before f) (sym (ap (λ r. r.error) go) ∙ h) in
      (
        f ∷ more,
        ap (λ r. r.created) go ∙ e ∙ append_assoc before (f ∷ []) more,
        (build_flow-IsInstance t f good made, rest),
      )

  -- The event forbids runs in parallel, and one of its flows is running.
  abbrev pub IsHeldBack : Type 0
  IsHeldBack =
      (is_forbid trigger.spec.concurrency_policy ≡ true)
      × (fs : List Flow) × (w.list_flows ≡ ok fs)
      × (any_running trigger.meta.name fs ≡ true)

  -- A firing that is held back reports neither a flow nor an error.
  pub fire-IsHeldBack : IsHeldBack → fire w trigger ctx ≡ record { created = []; error = none }
  unfolding fire fire_unless_running has_running_flow
  fire-IsHeldBack (t, fs, good, busy) = ground arith

  fire_cases :
      ((fire w trigger ctx).error ≢ none)
      ⊎ (IsHeldBack × ((fire w trigger ctx).created ≡ []))
      ⊎ (fire w trigger ctx ≡ dispatch w trigger ctx trigger.spec.targets [])
  unfolding fire fire_unless_running has_running_flow
  fire_cases = elim (Bool-cases (is_forbid trigger.spec.concurrency_policy)) [
    | inr f ↦ inr (inr (ground arith))
    | inl t ↦ elim (Result-cases w.list_flows) [
      | inr (e, bad) ↦ inl (λ h. ground arith)
      | inl (fs, good) ↦ elim (Bool-cases (any_running trigger.meta.name fs)) [
        | inl busy ↦ inr (inl ((t, fs, good, busy), ground arith))
        | inr idle ↦ inr (inr (ground arith))
      ]
    ]
  ]

  -- A firing that reports no error has created one flow for each target, in the order of the targets:
  -- an unstarted run of the target's template, labelled with the event, with the template's steps,
  -- output, timeout and budget, and its inputs where the target sets none. Or it has created nothing,
  -- which happens only if the event forbids parallel runs and a flow with its label is Running.
  pub fire-Instances :
      (fire w trigger ctx).error ≡ none
      → Instances trigger.spec.targets (fire w trigger ctx).created
        ⊎ (IsHeldBack × ((fire w trigger ctx).created ≡ []))
  fire-Instances h = elim fire_cases [
    | inl bad ↦ absurd (bad h)
    | inr (inl held) ↦ inr held
    | inr (inr go) ↦
        let (more, e, all) =
          dispatch-Instances trigger.spec.targets [] (sym (ap (λ r. r.error) go) ∙ h) in
        inl (subst (Instances trigger.spec.targets) (sym (ap (λ r. r.created) go ∙ e)) all)
  ]
