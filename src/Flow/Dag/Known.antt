-- ===== src/Flow/Dag/Known.antt =====
-- The first check of ValidateDAG: every dependency names a step.
use agentops_operator.Prelude.{
  String, true, false, List, [], ◌∷◌, map, Memᴰ, ◌≡◌, refl, sym, ◌∙◌, ◌⊎◌, inl, inr, Bool-cases,
  name_cases, arith, subst, ap, eq_iff,
}
use agentops_operator.Api.Flow.{FlowStep}
use agentops_operator.Flow.Dag.{
  DagResult, unknown_step, contains, step_names, check_deps, check_known, deps_of,
}

pub contains→mem : (ns : List String) (n : String) → contains ns n ≡ true → Memᴰ n ns
unfolding contains
contains→mem [] n h = cc
contains→mem (m ∷ ns) n h = elim (name_cases m n) [
  | inl (e, t) ↦ Memᴰ.head (sym e)
  | inr (e, t) ↦ Memᴰ.tail (contains→mem ns n (ground (arith, t)))
]

pub mem→contains : (ns : List String) (n : String) → Memᴰ n ns → contains ns n ≡ true
unfolding contains
mem→contains [] n m = elim m [ ]
mem→contains (x ∷ ns) n (Memᴰ.head e) = ground (arith, (eq_iff x n).1 (sym e))
mem→contains (x ∷ ns) n (Memᴰ.tail m) = ground (arith, mem→contains ns n m)

pub contains-false : (ns : List String) (n : String) → contains ns n ≡ false → ¬ Memᴰ n ns
contains-false ns n h m = cc (mem→contains ns n m)

-- A step of `steps` with a dependency that is no name of a step.
abbrev pub Unknown : List String → List FlowStep → String → String → Type 0
Unknown names steps step dep =
    (s : FlowStep) × Memᴰ s steps × (s.name ≡ step) × Memᴰ dep s.depends_on × (¬ Memᴰ dep names)

abbrev AllKnown : List String → List FlowStep → Type 0
AllKnown names steps =
    (s : FlowStep) → Memᴰ s steps → (d : String) → Memᴰ d s.depends_on → Memᴰ d names

check_deps_cases :
    (names : List String) (step : String) (ds : List String) (next : DagResult)
    → (((d : String) → Memᴰ d ds → Memᴰ d names) × (check_deps names step ds next ≡ next))
      ⊎ ((d : String) × Memᴰ d ds
          × (¬ Memᴰ d names)
          × (check_deps names step ds next ≡ unknown_step step d))
unfolding check_deps
check_deps_cases names step [] next = inl (λ d m. elim m [ ], refl)
check_deps_cases names step (d ∷ ds) next = elim (Bool-cases (contains names d)) [
  | inr f ↦ inr (d, Memᴰ.head refl, contains-false names d f, rw f)
  | inl t ↦ elim (check_deps_cases names step ds next) [
    | inl (all, e) ↦ inl (each t all, rw t e)
    | inr (x, m, absent, e) ↦ inr (x, Memᴰ.tail m, absent, rw t e)
  ]
]
  where
    each :
        contains names d ≡ true
        → ((x : String) → Memᴰ x ds → Memᴰ x names)
        → (x : String) → Memᴰ x (d ∷ ds)
        → Memᴰ x names
    each t all x (Memᴰ.head e) = subst (λ y. Memᴰ y names) (sym e) (contains→mem names d t)
    each t all x (Memᴰ.tail m) = all x m

pub check_known_cases :
    (names : List String) (steps : List FlowStep) (next : DagResult)
    → (AllKnown names steps × (check_known names steps next ≡ next))
      ⊎ ((step : String) × (dep : String) × Unknown names steps step dep
          × (check_known names steps next ≡ unknown_step step dep))
unfolding check_known
check_known_cases names [] next = inl (λ s m. elim m [ ], refl)
check_known_cases names (s ∷ ss) next =
    elim (check_deps_cases names s.name s.depends_on (check_known names ss next)) [
      | inr (d, m, absent, e) ↦ inr (s.name, d, (s, Memᴰ.head refl, refl, m, absent), e)
      | inl (all, e) ↦ elim (check_known_cases names ss next) [
        | inl (rest, f) ↦ inl (each all rest, e ∙ f)
        | inr (step, dep, (t, m, n, k, absent), f) ↦
            inr (step, dep, (t, Memᴰ.tail m, n, k, absent), e ∙ f)
      ]
    ]
  where
    each :
        ((d : String) → Memᴰ d s.depends_on → Memᴰ d names)
        → AllKnown names ss
        → AllKnown names (s ∷ ss)
    each all rest t (Memᴰ.head e) =
        subst (λ u. (d : String) → Memᴰ d u.depends_on → Memᴰ d names) (sym e) all
    each all rest t (Memᴰ.tail m) = rest t m

-- What `adj[name]` holds is declared by a step of that name.
pub deps_of-declared :
    (steps : List FlowStep) (name dep : String)
    → Memᴰ dep (deps_of steps name)
    → (s : FlowStep) × Memᴰ s steps × (s.name ≡ name) × Memᴰ dep s.depends_on
unfolding deps_of
deps_of-declared [] name dep m = elim m [ ]
deps_of-declared (s ∷ ss) name dep m = elim (Bool-cases (contains (map (λ t. t.name) ss) name)) [
  | inl t ↦ let (u, k, e, d) = deps_of-declared ss name dep (rw t at m) in (u, Memᴰ.tail k, e, d)
  | inr f ↦ elim (name_cases s.name name) [
    | inl (e, t) ↦ (s, Memᴰ.head refl, e, rw (f, t) at m)
    | inr (e, t) ↦ elim (rw (f, t) at m) [ ]
  ]
]

pub mem-step_names :
    (steps : List FlowStep) (s : FlowStep) → Memᴰ s steps → Memᴰ s.name (step_names steps)
unfolding step_names
mem-step_names [] s m = elim m [ ]
mem-step_names (t ∷ ts) s (Memᴰ.head e) = Memᴰ.head (ap (λ (u : FlowStep). u.name) e)
mem-step_names (t ∷ ts) s (Memᴰ.tail m) = Memᴰ.tail (mem-step_names ts s m)
