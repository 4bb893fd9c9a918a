-- ===== src/Flow/Dag/Verdict.antt =====
-- ValidateDAG as a whole: it ends, it accepts the acyclic flows with known dependencies and no
-- others, and each of its errors is true.
use agentops_operator.Prelude.{
  ℕ, ◌≤◌, String, List, [], ◌∷◌, Memᴰ, ◌≡◌, ◌≢◌, refl, sym, ◌⊎◌, inl, inr, ◌↔◌, subst, arith,
  length,
}
use native.Mathlib.Nat.{le_trans}
use mathlib.Core.List.Memᴰ
use mathlib.Core.WellFounded.{Acc}
use agentops_operator.Api.Flow.{FlowStep}
use agentops_operator.Flow.Dag.{
  DagResult, valid, unknown_step, cycle, out_of_fuel, white, gray, black, Colors, Search, done,
  cycle_at, stopped, step_names, dfs, search_all, validate_dag,
}
use agentops_operator.Flow.Dag.Graph.{
  DependsOn, Chain, one, more, IsAcyclic, HasKnownDeps, Below, Acc-no_cycle, Color-cases,
}
use agentops_operator.Flow.Dag.Paint.{whites, whites_mono, whites-all}
use agentops_operator.Flow.Dag.Invariant.{Post, IsSound, Outcome}
use agentops_operator.Flow.Dag.Searches.{dfs-Finds}
use agentops_operator.Flow.Dag.Known.{Unknown, check_known_cases, deps_of-declared, mem-step_names}

module _ (steps : List FlowStep) where
  -- What the loop over `ns` may return.
  abbrev Searched : List String → DagResult → Type 0
  Searched ns valid = (n : String) → Memᴰ n ns → Acc (Below steps) n
  Searched ns (cycle x y) = DependsOn steps x y × ((y ≡ x) ⊎ Chain steps y x)
  Searched ns (unknown_step s d) = ⊥
  Searched ns out_of_fuel = ⊥

  Searched-cons :
      (n : String) (ns : List String) (r : DagResult)
      → Acc (Below steps) n
      → Searched ns r
      → Searched (n ∷ ns) r
  Searched-cons n ns valid a h = λ m k. elim (Memᴰ.cases_cons k) [
    | inl e ↦ subst (Acc (Below steps)) (sym e) a
    | inr t ↦ h m t
  ]
  Searched-cons n ns (cycle x y) a h = h
  Searched-cons n ns (unknown_step s d) a h = h
  Searched-cons n ns out_of_fuel a h = h

  -- After the search from one step's name.
  abbrev continue : ℕ → List String → Search → DagResult
  continue fuel ns (done c') = search_all steps fuel ns c'
  continue fuel ns (cycle_at x y) = cycle x y
  continue fuel ns stopped = out_of_fuel

  search_all-cons_white :
      (fuel : ℕ) (n : String) (ns : List String) (c : Colors)
      → c n ≡ white
      → search_all steps fuel (n ∷ ns) c ≡ continue fuel ns (dfs steps fuel n c)
  unfolding search_all
  search_all-cons_white fuel n ns c e = ground arith

  search_all-cons_black :
      (fuel : ℕ) (n : String) (ns : List String) (c : Colors)
      → c n ≡ black
      → search_all steps fuel (n ∷ ns) c ≡ search_all steps fuel ns c
  unfolding search_all
  search_all-cons_black fuel n ns c e = rw (e, search_all)

  module _ (names : List String) (known : (n d : String) → DependsOn steps n d → Memᴰ d names)
      (fuel : ℕ) where
    continue-Searched :
        (n : String) (ns : List String) (c : Colors)
        → ((g : String) → c g ≢ gray)
        → whites names c ≤ fuel
        → ((c' : Colors)
            → IsSound steps c'
            → ((g : String) → c' g ≢ gray)
            → whites names c' ≤ fuel
            → Searched ns (search_all steps fuel ns c'))
        → (r : Search) → Outcome steps (λ c'. Post steps c c' × (c' n ≡ black)) r
        → Searched (n ∷ ns) (continue fuel ns r)
    continue-Searched n ns c clear room ih (done c') (q, b) =
        Searched-cons n ns (search_all steps fuel ns c') (q.sound n b) (
          ih c' q.sound (λ g e. clear g (q.grays g e))
            (le_trans (whites_mono names c c' q.shrinks) room))
    continue-Searched n ns c clear room ih (cycle_at x y) h = h
    continue-Searched n ns c clear room ih stopped h = h

    search_all-Searched :
        (ns : List String) (c : Colors)
        → ((n : String) → Memᴰ n ns → Memᴰ n names)
        → IsSound steps c
        → ((g : String) → c g ≢ gray)
        → whites names c ≤ fuel
        → Searched ns (search_all steps fuel ns c)
    search_all-Searched [] c sub s clear room = unfold search_all in λ n m. elim m [ ]
    search_all-Searched (n ∷ ns) c sub s clear room = elim (Color-cases (c n)) [
      | inl e ↦ rw (search_all-cons_white fuel n ns c e) (
          continue-Searched n ns c clear room
            (λ c'. search_all-Searched ns c' (λ m k. sub m (Memᴰ.tail k))) (dfs steps fuel n c)
            (dfs-Finds steps names known fuel n c (record {
              sound = s;
              reach = λ g x. absurd (clear g x);
              fresh = e;
              named = sub n (Memᴰ.head refl);
              room = room;
            })))
      | inr (inl e) ↦ absurd (clear n e)
      | inr (inr e) ↦ rw (search_all-cons_black fuel n ns c e) (
          Searched-cons n ns (search_all steps fuel ns c) (s n e)
            (search_all-Searched ns c (λ m k. sub m (Memᴰ.tail k)) s clear room))
    ]

-- What each result of ValidateDAG says of the steps.
abbrev pub Verdict : List FlowStep → DagResult → Type 0
Verdict steps valid = HasKnownDeps steps × IsAcyclic steps
Verdict steps (unknown_step step dep) = Unknown (step_names steps) steps step dep
Verdict steps (cycle step dep) =
    HasKnownDeps steps × DependsOn steps step dep × ((dep ≡ step) ⊎ Chain steps dep step)
Verdict steps out_of_fuel = ⊥

deps-named :
    (steps : List FlowStep)
    → HasKnownDeps steps
    → (n d : String) → DependsOn steps n d
    → Memᴰ d (step_names steps)
deps-named steps known n d m = let (s, k, e, x) = deps_of-declared steps n d m in known s k d x

-- A name with a dependency is the name of a step.
dep-named : (steps : List FlowStep) {a b : String} → DependsOn steps a b → Memᴰ a (step_names steps)
dep-named steps {a} {b} m =
    let (s, k, e, x) = deps_of-declared steps a b m in
    subst (λ n. Memᴰ n (step_names steps)) e (mem-step_names steps s k)

chain-named : (steps : List FlowStep) {a b : String} → Chain steps a b → Memᴰ a (step_names steps)
chain-named steps (one d) = dep-named steps d
chain-named steps (more d w) = dep-named steps d

Searched→Verdict :
    (steps : List FlowStep)
    → HasKnownDeps steps
    → (r : DagResult) → Searched steps (step_names steps) r
    → Verdict steps r
Searched→Verdict steps known valid h = (known, λ n w. Acc-no_cycle (h n (chain-named steps w)) w)
Searched→Verdict steps known (cycle x y) h = (known, h.0, h.1)
Searched→Verdict steps known (unknown_step s d) h = absurd h
Searched→Verdict steps known out_of_fuel h = absurd h

validate_dag-Verdict : (steps : List FlowStep) → Verdict steps (validate_dag steps)
unfolding validate_dag
validate_dag-Verdict steps = elim (check_known_cases names steps found) [
  | inr (step, dep, u, e) ↦ rw e u
  | inl (known, e) ↦ rw e (
      Searched→Verdict steps known found (
        search_all-Searched steps names (deps-named steps known) (length names) names (λ _. white)
          (λ n m. m) (λ n x. cc) (λ g x. cc) (omega (arith, whites-all names))))
]
  where
    names : List String
    names = step_names steps

    found : DagResult
    found = search_all steps (length names) names (λ _. white)

-- The search of ValidateDAG ends: the number of steps is fuel enough, whatever the steps are.
pub validate_dag-ne-out_of_fuel : (steps : List FlowStep) → validate_dag steps ≢ out_of_fuel
validate_dag-ne-out_of_fuel steps e = subst (Verdict steps) e (validate_dag-Verdict steps)

accepts :
    (steps : List FlowStep) (r : DagResult)
    → Verdict steps r
    → HasKnownDeps steps
    → IsAcyclic steps
    → r ≡ valid
accepts steps valid v known acyclic = refl
accepts steps (unknown_step step dep) (s, m, n, d, absent) known acyclic =
    absurd (absent (known s m dep d))
accepts steps (cycle step dep) (_, d, inl e) known acyclic =
    absurd (acyclic step (subst (Chain steps step) e (one d)))
accepts steps (cycle step dep) (_, d, inr w) known acyclic = absurd (acyclic step (more d w))
accepts steps out_of_fuel v known acyclic = absurd v

-- ValidateDAG accepts exactly the steps whose dependencies all name steps and in which no name is
-- led back to itself by dependencies.
pub validate_dag-valid_iff :
    (steps : List FlowStep) → (validate_dag steps ≡ valid) ↔ (HasKnownDeps steps × IsAcyclic steps)
validate_dag-valid_iff steps = (
  λ e. subst (Verdict steps) e (validate_dag-Verdict steps),
  λ h. accepts steps (validate_dag steps) (validate_dag-Verdict steps) h.0 h.1,
)

-- When ValidateDAG reports a cycle by a step and a dependency, that dependency is one of the step's
-- and is the step itself or leads back to it; and every dependency of the flow names a step.
pub validate_dag-cycle :
    (steps : List FlowStep) (step dep : String)
    → validate_dag steps ≡ cycle step dep
    → HasKnownDeps steps × DependsOn steps step dep × ((dep ≡ step) ⊎ Chain steps dep step)
validate_dag-cycle steps step dep e = subst (Verdict steps) e (validate_dag-Verdict steps)

-- When ValidateDAG reports an unknown step, some step of the reported name has the reported
-- dependency, and no step has that name.
pub validate_dag-unknown_step :
    (steps : List FlowStep) (step dep : String)
    → validate_dag steps ≡ unknown_step step dep
    → Unknown (step_names steps) steps step dep
validate_dag-unknown_step steps step dep e = subst (Verdict steps) e (validate_dag-Verdict steps)
