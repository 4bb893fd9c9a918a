-- ===== src/Flow/Phase/Tally.antt =====
-- The loop of UpdateFlowPhase over the statuses, as two tests on all of them.
use agentops_operator.Prelude.{
  Bool, true, false, ◌&&◌, ◌||◌, List, [], ◌∷◌, Memᴰ, ◌≡◌, refl, ◌∙◌, inl, inr, arith, ap,
  Bool-cases,
}
use agentops_operator.Api.Flow.{StepStatus, StepPhase}
use agentops_operator.Flow.Status.{is_completed}
use agentops_operator.Flow.Phase.{tally, tally_phase}

abbrev pub is_failed : StepPhase → Bool
is_failed StepPhase.failed = true
is_failed _ = false

abbrev pub any_failed : List StepStatus → Bool
any_failed [] = false
any_failed (st ∷ sts) = is_failed st.phase || any_failed sts

abbrev pub all_done : List StepStatus → Bool
all_done [] = true
all_done (st ∷ sts) = (is_failed st.phase || is_completed st.phase) && all_done sts

tally_phase_lem :
    (p : StepPhase) (x y : Bool)
    → tally_phase p (x, y) ≡ (x || is_failed p, y && (is_failed p || is_completed p))
unfolding tally_phase is_completed
tally_phase_lem p x y = ground arith

||_assoc : (x y z : Bool) → ((x || y) || z) ≡ (x || (y || z))
||_assoc x y z = ground arith

&&_assoc : (x y z : Bool) → ((x && y) && z) ≡ (x && (y && z))
&&_assoc x y z = ground arith

pub tally_lem :
    (sts : List StepStatus) (x y : Bool)
    → tally sts (x, y) ≡ (x || any_failed sts, y && all_done sts)
unfolding tally
tally_lem [] x y = ground arith
tally_lem (st ∷ sts) x y = rw tally_phase_lem (
    tally_lem sts (x || is_failed st.phase) (y && (is_failed st.phase || is_completed st.phase))
    ∙ rw (||_assoc, &&_assoc))

pub any_failed→step :
    (sts : List StepStatus)
    → any_failed sts ≡ true
    → (st : StepStatus) × Memᴰ st sts × (st.phase ≡ StepPhase.failed)
any_failed→step [] h = cc
any_failed→step (x ∷ xs) h = elim (Bool-cases (is_failed x.phase)) [
  | inl t ↦ (x, Memᴰ.head refl, ground arith)
  | inr f ↦ let (st, m, e) = any_failed→step xs (ground arith) in (st, Memᴰ.tail m, e)
]

pub step→any_failed :
    (sts : List StepStatus) (st : StepStatus)
    → Memᴰ st sts
    → st.phase ≡ StepPhase.failed
    → any_failed sts ≡ true
step→any_failed [] st m e = elim m [ ]
step→any_failed (x ∷ xs) st (Memᴰ.head h) e = ground (arith, ap (λ (s : StepStatus). s.phase) h)
step→any_failed (x ∷ xs) st (Memᴰ.tail m) e = ground (arith, step→any_failed xs st m e)

pub all_done→steps :
    (sts : List StepStatus)
    → any_failed sts ≡ false
    → all_done sts ≡ true
    → (st : StepStatus) → Memᴰ st sts
    → is_completed st.phase ≡ true
all_done→steps [] f h st m = elim m [ ]
all_done→steps (x ∷ xs) f h st (Memᴰ.head e) = rw e (ground arith)
all_done→steps (x ∷ xs) f h st (Memᴰ.tail m) = all_done→steps xs (ground arith) (ground arith) st m

pub steps→all_done :
    (sts : List StepStatus)
    → ((st : StepStatus) → Memᴰ st sts → is_completed st.phase ≡ true)
    → (any_failed sts ≡ false) × (all_done sts ≡ true)
unfolding is_completed
steps→all_done [] h = (refl, refl)
steps→all_done (x ∷ xs) h =
    let rest = steps→all_done xs (λ st m. h st (Memᴰ.tail m)) in
    let here = h x (Memᴰ.head refl) in (ground arith, ground arith)
