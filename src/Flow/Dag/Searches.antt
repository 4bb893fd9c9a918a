-- ===== src/Flow/Dag/Searches.antt =====
-- `dfs` keeps its invariant, ends within its fuel, and reports true cycles.
use agentops_operator.Prelude.{
  ℕ, zero, suc, String, List, [], ◌∷◌, Memᴰ, ◌≡◌, refl, sym, ◌∙◌, subst, inl, inr, arith,
}
use mathlib.Core.WellFounded.{Acc}
use agentops_operator.Api.Flow.{FlowStep}
use agentops_operator.Flow.Dag.{
  white, gray, black, Colors, Search, done, cycle_at, stopped, deps_of, paint, visit, finish, dfs,
}
use agentops_operator.Flow.Dag.Graph.{DependsOn, Below, Color-cases}
use agentops_operator.Flow.Dag.Paint.{
  paint_cases, paint_self, paint_ne, paint_old, whites_pos, whites-paint_lt,
}
use agentops_operator.Flow.Dag.Invariant.{
  Post, Outcome, Post-refl, Pre, Finds, PreVisit, PreVisit-tail, PreVisit-Pre, Visited,
  Visited-cons,
}

module _ (steps : List FlowStep) (names : List String) where
  -- What follows the recursive call on the first dependency.
  abbrev continue :
      (rec : String → Colors → Search) (name : String) (ds : List String) → Search → Search
  continue rec name ds (done c') = visit rec name ds c'
  continue rec name ds (cycle_at x y) = cycle_at x y
  continue rec name ds stopped = stopped

  visit-cons_white :
      (rec : String → Colors → Search) (name d : String) (ds : List String) (c : Colors)
      → c d ≡ white
      → visit rec name (d ∷ ds) c ≡ continue rec name ds (rec d c)
  unfolding visit
  visit-cons_white rec name d ds c e = ground arith

  visit-cons_gray :
      (rec : String → Colors → Search) (name d : String) (ds : List String) (c : Colors)
      → c d ≡ gray
      → visit rec name (d ∷ ds) c ≡ cycle_at name d
  unfolding visit
  visit-cons_gray rec name d ds c e = rw (e, visit)

  visit-cons_black :
      (rec : String → Colors → Search) (name d : String) (ds : List String) (c : Colors)
      → c d ≡ black
      → visit rec name (d ∷ ds) c ≡ visit rec name ds c
  unfolding visit
  visit-cons_black rec name d ds c e = rw (e, visit)

  module _ (fuel : ℕ) (rec : String → Colors → Search) (hrec : Finds steps names fuel rec)
      (name : String) where
    -- The rest of the loop, after the call on `d` ended as `r`.
    continue-Visited :
        (d : String) (ds : List String) (c : Colors)
        → PreVisit steps names fuel name (d ∷ ds) c
        → ((c' : Colors)
            → PreVisit steps names fuel name ds c'
            → Outcome steps (Visited steps names c' ds) (visit rec name ds c'))
        → (r : Search) → Outcome steps (λ c'. Post steps c c' × (c' d ≡ black)) r
        → Outcome steps (Visited steps names c (d ∷ ds)) (continue rec name ds r)
    continue-Visited d ds c p ih (done c') (q, b) =
        Visited-cons steps names d ds q b (visit rec name ds c')
          (ih c' (PreVisit-tail steps names p q))
    continue-Visited d ds c p ih (cycle_at x y) h = h
    continue-Visited d ds c p ih stopped h = h

    visit-Visited :
        (ds : List String) (c : Colors)
        → PreVisit steps names fuel name ds c
        → Outcome steps (Visited steps names c ds) (visit rec name ds c)
    visit-Visited [] c p = unfold visit in (Post-refl steps c p.sound, λ d m. elim m [ ])
    visit-Visited (d ∷ ds) c p = elim (Color-cases (c d)) [
      | inl e ↦ rw (visit-cons_white rec name d ds c e) (
          continue-Visited d ds c p (visit-Visited ds) (rec d c)
            (hrec d c (PreVisit-Pre steps names p e)))
      | inr (inl e) ↦
          rw (visit-cons_gray rec name d ds c e) (p.edges d (Memᴰ.head refl), p.reach d e)
      | inr (inr e) ↦ rw (visit-cons_black rec name d ds c e) (
          Visited-cons steps names d ds (Post-refl steps c p.sound) e (visit rec name ds c)
            (visit-Visited ds c (PreVisit-tail steps names p (Post-refl steps c p.sound))))
    ]

  module _ (known : (n d : String) → DependsOn steps n d → Memᴰ d names) where
    -- Entering `name` paints it gray, which uses one unit of the fuel.
    enter-PreVisit :
        (fuel : ℕ) (name : String) (c : Colors)
        → Pre steps names (suc fuel) name c
        → PreVisit steps names fuel name (deps_of steps name) (paint name gray c)
    enter-PreVisit fuel name c p = record {
      sound = λ n e. p.sound n (paint_old name gray c n (λ x. cc) e);
      reach = λ g e. elim (paint_cases name gray c g) [
        | inl (same, _) ↦ inl same
        | inr (_, f) ↦ inr (p.reach g (sym f ∙ e))
      ];
      edges = λ d m. m;
      known = λ d m. known name d m;
      room = omega (arith, whites-paint_lt names c name gray p.named p.fresh (λ e. cc), p.room);
    }

    -- Leaving `name` paints it black: all of its dependencies are.
    finish-Post :
        (name : String) (c : Colors)
        → c name ≡ white
        → (r : Search)
        → Outcome steps (Visited steps names (paint name gray c) (deps_of steps name)) r
        → Outcome steps (λ c'. Post steps c c' × (c' name ≡ black)) (finish name r)
    unfolding finish
    finish-Post name c w (done c') (q, h) = (
      record {
        sound = λ n e. elim (paint_cases name black c' n) [
          | inl (same, _) ↦
              subst (Acc (Below steps)) (sym same) (Acc.intro name (λ d m. q.sound d (h d m)))
          | inr (_, f) ↦ q.sound n (sym f ∙ e)
        ];
        keeps = λ n e. elim (paint_cases name black c' n) [
          | inl (_, f) ↦ f
          | inr (other, f) ↦ f ∙ q.keeps n (paint_ne name gray c n other ∙ e)
        ];
        grays = λ n e. elim (paint_cases name black c' n) [
          | inl (_, f) ↦ cc
          | inr (other, f) ↦ sym (paint_ne name gray c n other) ∙ q.grays n (sym f ∙ e)
        ];
        shrinks = λ n e.
            paint_old name gray c n (λ x. cc) (q.shrinks n (paint_old name black c' n (λ x. cc) e));
      },
      paint_self name black c',
    )
    finish-Post name c w (cycle_at x y) h = h
    finish-Post name c w stopped h = h

    pub dfs-Finds : (fuel : ℕ) → Finds steps names fuel (dfs steps fuel)
    unfolding dfs
    dfs-Finds zero name c p =
        absurd (omega (arith, whites_pos names c name p.named p.fresh, p.room))
    dfs-Finds (suc fuel) name c p = finish-Post name c p.fresh _ (
        visit-Visited fuel (dfs steps fuel) (dfs-Finds fuel) name (deps_of steps name)
          (paint name gray c) (enter-PreVisit fuel name c p))
