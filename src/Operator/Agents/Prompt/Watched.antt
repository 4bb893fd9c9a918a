-- ===== src/Operator/Agents/Prompt/Watched.antt =====
-- The agents that a changed flow wakes.
use agentops_operator.Prelude.{
  String, true, false, List, [], ◌∷◌, ◌≡◌, ◌≢◌, refl, sym, ◌∙◌, ◌⊎◌, inl, inr, ◌↔◌, arith,
  Bool-cases, Memᴰ, ap, name_cases, eq_iff, subst,
}
use mathlib.Core.List.Memᴰ
use agentops_operator.Api.Flow.{FlowStep, Flow}
use agentops_operator.Operator.Agents.Prompt.{is_seen, agents_of, flow_to_agents}

-- Some step of the list runs the agent.
abbrev pub Runs : String → List FlowStep → Type 0
Runs name steps = (s : FlowStep) × Memᴰ s steps × (s.ark_agent ≡ name)

-- No name stands twice.
abbrev pub IsNodup : List String → Type 0
IsNodup [] = Unit
IsNodup (n ∷ ns) = (¬ Memᴰ n ns) × IsNodup ns

-- The step adds its agent, or it does not: the agent is empty or was seen.
agents_of_cases :
    (s : FlowStep) (ss : List FlowStep) (seen : List String)
    → ((agents_of (s ∷ ss) seen ≡ agents_of ss seen)
        × ((s.ark_agent ≡ "") ⊎ (is_seen s.ark_agent seen ≡ true)))
      ⊎ ((agents_of (s ∷ ss) seen ≡ s.ark_agent ∷ agents_of ss (s.ark_agent ∷ seen))
          × (s.ark_agent ≢ "")
          × (is_seen s.ark_agent seen ≡ false))
unfolding agents_of
agents_of_cases s ss seen = elim (name_cases s.ark_agent "") [
  | inl (e, b) ↦ inl (rw (b, agents_of) refl, inl e)
  | inr (e, b) ↦ elim (Bool-cases (is_seen s.ark_agent seen)) [
    | inl t ↦ inl (rw (b, t, agents_of) refl, inr t)
    | inr f ↦ inr (rw (b, f, agents_of) refl, e, f)
  ]
]

is_seen_cons :
    (n x : String) (seen : List String)
    → is_seen n (x ∷ seen) ≡ false
    → (x ≢ n) × (is_seen n seen ≡ false)
unfolding is_seen
is_seen_cons n x seen h = (λ e. ground (arith, (eq_iff x n).1 e), ground arith)

is_seen_other :
    (n x : String) (seen : List String)
    → x ≢ n
    → is_seen n seen ≡ false
    → is_seen n (x ∷ seen) ≡ false
unfolding is_seen
is_seen_other n x seen other h = ground (arith, eq_iff x n)

agents_of-found :
    (ss : List FlowStep) (seen : List String) (n : String)
    → Memᴰ n (agents_of ss seen)
    → (n ≢ "") × (is_seen n seen ≡ false) × Runs n ss
unfolding agents_of
agents_of-found [] seen n m = elim m [ ]
agents_of-found (s ∷ ss) seen n m = elim (agents_of_cases s ss seen) [
  | inl (e, _) ↦
      let (a, b, (t, mt, r)) = agents_of-found ss seen n (subst (Memᴰ n) e m) in
      (a, b, (t, Memᴰ.tail mt, r))
  | inr (e, given, new) ↦ elim (Memᴰ.cases_cons (subst (Memᴰ n) e m)) [
    | inl p ↦ (λ q. given (sym p ∙ q), ap (λ k. is_seen k seen) p ∙ new, (s, Memᴰ.head refl, sym p))
    | inr m' ↦
        let (a, b, (t, mt, r)) = agents_of-found ss (s.ark_agent ∷ seen) n m' in
        (a, (is_seen_cons n s.ark_agent seen b).1, (t, Memᴰ.tail mt, r))
  ]
]

agents_of-all :
    (ss : List FlowStep) (seen : List String) (n : String)
    → n ≢ ""
    → is_seen n seen ≡ false
    → Runs n ss
    → Memᴰ n (agents_of ss seen)
agents_of-all [] seen n given new (t, m, r) = elim m [ ]
agents_of-all (s ∷ ss) seen n given new (t, m, r) = elim (name_cases s.ark_agent n) [
  | inl (same, _) ↦ elim (agents_of_cases s ss seen) [
    | inl (e, inl empty) ↦ absurd (given (sym same ∙ empty))
    | inl (e, inr seen_before) ↦ absurd (ground (arith, ap (λ k. is_seen k seen) same))
    | inr (e, _, _) ↦ subst (Memᴰ n) (sym e) (Memᴰ.head (sym same))
  ]
  | inr (other, _) ↦ elim (Memᴰ.cases_cons m) [
    | inl p ↦ absurd (other (sym (ap (λ (x : FlowStep). x.ark_agent) p) ∙ r))
    | inr m' ↦ elim (agents_of_cases s ss seen) [
      | inl (e, _) ↦ subst (Memᴰ n) (sym e) (agents_of-all ss seen n given new (t, m', r))
      | inr (e, _, _) ↦ subst (Memᴰ n) (sym e) (
          Memᴰ.tail (
            agents_of-all ss (s.ark_agent ∷ seen) n given
              (is_seen_other n s.ark_agent seen other new) (t, m', r)))
    ]
  ]
]

agents_of-IsNodup : (ss : List FlowStep) (seen : List String) → IsNodup (agents_of ss seen)
unfolding agents_of
agents_of-IsNodup [] seen = tt
agents_of-IsNodup (s ∷ ss) seen = elim (agents_of_cases s ss seen) [
  | inl (e, _) ↦ subst IsNodup (sym e) (agents_of-IsNodup ss seen)
  | inr (e, _, _) ↦ subst IsNodup (sym e) (
    λ m.
        let (_, b, _) = agents_of-found ss (s.ark_agent ∷ seen) s.ark_agent m in
        (is_seen_cons s.ark_agent s.ark_agent seen b).0 refl,
    agents_of-IsNodup ss (s.ark_agent ∷ seen),
  )
]

-- A changed flow wakes exactly the agents that its steps name, each once: no name is empty and none
-- stands twice.
pub flow_to_agents-mem_iff :
    (f : Flow)
    → IsNodup (flow_to_agents f)
      × ((n : String) → Memᴰ n (flow_to_agents f) ↔ ((n ≢ "") × Runs n f.spec.steps))
unfolding flow_to_agents is_seen
flow_to_agents-mem_iff f = (
  agents_of-IsNodup f.spec.steps [],
  λ n. (
    λ m. let (a, _, r) = agents_of-found f.spec.steps [] n m in (a, r),
    λ h. agents_of-all f.spec.steps [] n h.0 refl h.1,
  ),
)
