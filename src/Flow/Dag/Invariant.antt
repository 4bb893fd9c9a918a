-- ===== src/Flow/Dag/Invariant.antt =====
-- One call of `dfs`: what it needs of the colors, what it leaves of them, and what its error says.
use agentops_operator.Prelude.{
  ℕ, ◌≤◌, String, List, ◌∷◌, Memᴰ, ◌≡◌, refl, sym, subst, ◌⊎◌, inl, inr,
}
use native.Mathlib.Nat.{le_trans}
use mathlib.Core.WellFounded.{Acc}
use agentops_operator.Api.Flow.{FlowStep}
use agentops_operator.Flow.Dag.{white, gray, black, Colors, Search, done, cycle_at, stopped}
use agentops_operator.Flow.Dag.Graph.{DependsOn, Chain, one, Chain-snoc, Below}
use agentops_operator.Flow.Dag.Paint.{whites, whites_mono}

-- The colors `c'` that a search leaves, against those that it found.
pub record Post (steps : List FlowStep) (c c' : Colors) : Type 0 where
  pub sound : (n : String) → c' n ≡ black → Acc (Below steps) n
  pub keeps : (n : String) → c n ≡ black → c' n ≡ black
  pub grays : (n : String) → c' n ≡ gray → c n ≡ gray
  pub shrinks : (n : String) → c' n ≡ white → c n ≡ white

module _ (steps : List FlowStep) where
  abbrev pub IsSound : Colors → Type 0
  IsSound c = (n : String) → c n ≡ black → Acc (Below steps) n

  -- A search ends, and the edge that it reports closes a walk.
  abbrev pub Outcome : (Colors → Type 0) → Search → Type 0
  Outcome P (done c) = P c
  Outcome P (cycle_at x y) = DependsOn steps x y × ((y ≡ x) ⊎ Chain steps y x)
  Outcome P stopped = ⊥

  pub Post-refl : (c : Colors) → IsSound c → Post steps c c
  Post-refl c s = record { sound = s; keeps = λ n e. e; grays = λ n e. e; shrinks = λ n e. e }

  pub Post-trans : {a b c : Colors} → Post steps a b → Post steps b c → Post steps a c
  Post-trans p q = record {
    sound = q.sound;
    keeps = λ n e. q.keeps n (p.keeps n e);
    grays = λ n e. p.grays n (q.grays n e);
    shrinks = λ n e. p.shrinks n (q.shrinks n e);
  }

-- Every dependency is among `names`.
module _ (steps : List FlowStep) (names : List String) where
  -- Before `dfs d` with `fuel`: what is gray leads to `d`.
  pub record Pre (fuel : ℕ) (d : String) (c : Colors) : Type 0 where
    pub sound : IsSound steps c
    pub reach : (g : String) → c g ≡ gray → Chain steps g d
    pub fresh : c d ≡ white
    pub named : Memᴰ d names
    pub room : whites names c ≤ fuel

  abbrev pub Finds : ℕ → (String → Colors → Search) → Type 0
  Finds fuel rec =
      (d : String) (c : Colors)
      → Pre fuel d c
      → Outcome steps (λ c'. Post steps c c' × (c' d ≡ black)) (rec d c)

  -- Before the loop over dependencies of `name`.
  pub record PreVisit (fuel : ℕ) (name : String) (ds : List String) (c : Colors) : Type 0 where
    pub sound : IsSound steps c
    pub reach : (g : String) → c g ≡ gray → (g ≡ name) ⊎ Chain steps g name
    pub edges : (d : String) → Memᴰ d ds → DependsOn steps name d
    pub known : (d : String) → Memᴰ d ds → Memᴰ d names
    pub room : whites names c ≤ fuel

  pub PreVisit-tail :
      {fuel : ℕ} {name d : String} {ds : List String} {c c' : Colors}
      → PreVisit fuel name (d ∷ ds) c
      → Post steps c c'
      → PreVisit fuel name ds c'
  PreVisit-tail {c} {c'} p q = record {
    sound = q.sound;
    reach = λ g e. p.reach g (q.grays g e);
    edges = λ d m. p.edges d (Memᴰ.tail m);
    known = λ d m. p.known d (Memᴰ.tail m);
    room = le_trans (whites_mono names c c' q.shrinks) p.room;
  }

  pub PreVisit-Pre :
      {fuel : ℕ} {name d : String} {ds : List String} {c : Colors}
      → PreVisit fuel name (d ∷ ds) c
      → c d ≡ white
      → Pre fuel d c
  PreVisit-Pre {name} {d} p w = record {
    sound = p.sound;
    reach = λ g e. join g (p.reach g e);
    fresh = w;
    named = p.known d (Memᴰ.head refl);
    room = p.room;
  }
    where
      edge : DependsOn steps name d
      edge = p.edges d (Memᴰ.head refl)

      join : (g : String) → (g ≡ name) ⊎ Chain steps g name → Chain steps g d
      join g (inl e) = one (subst (λ x. DependsOn steps x d) (sym e) edge)
      join g (inr w) = Chain-snoc w edge

  abbrev pub Visited : Colors → List String → Colors → Type 0
  Visited c ds c' = Post steps c c' × ((d : String) → Memᴰ d ds → c' d ≡ black)

  pub Visited-cons :
      {c c' : Colors} (d : String) (ds : List String)
      → Post steps c c'
      → c' d ≡ black
      → (r : Search) → Outcome steps (Visited c' ds) r
      → Outcome steps (Visited c (d ∷ ds)) r
  Visited-cons d ds p b (done c'') (q, h) = (Post-trans steps p q, each)
    where
      each : (x : String) → Memᴰ x (d ∷ ds) → c'' x ≡ black
      each x (Memᴰ.head e) = subst (λ y. c'' y ≡ black) (sym e) (q.keeps d b)
      each x (Memᴰ.tail m) = h x m
  Visited-cons d ds p b (cycle_at x y) h = h
  Visited-cons d ds p b stopped h = h
