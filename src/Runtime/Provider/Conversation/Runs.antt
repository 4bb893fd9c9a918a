-- ===== src/Runtime/Provider/Conversation/Runs.antt =====
-- Conversations as runs: the loop that a provider's RunTask is, over any model, and what its results
-- say of the exchange.
use agentops_operator.Prelude.{
  ℕ, zero, suc, ◌<◌, String, Bool, true, none, List, [], ◌∷◌, ◌≡◌, ◌≢◌, ◌↔◌, ◌⊎◌, inl, inr, refl,
  sym, ap, ◌∙◌, arith, length,
}
use text.Mathlib.TextLemmas.{append-nil}
use agentops_operator.Prelude.Int64.{two64}
use agentops_operator.Api.Meta.{Message, Result, ok, err}
use agentops_operator.Runtime.Queue.{TokenCounts}
use agentops_operator.Runtime.Provider.{
  TaskResult, Run, returned, out_of_fuel, add_tokens, no_tokens,
}
use agentops_operator.Runtime.Provider.Conversation.{
  Call, Turn, Model, Ending, answered, failed, call_all, Exchange, breaks, garbled, ends, goes_on,
  usage_after, result_of, chunks_of, join, IsWhole,
}

pub Result-cases {ℓ} :
    {A : Type ℓ} (r : Result A) → ((a : A) × (r ≡ ok a)) ⊎ ((e : Message) × (r ≡ err e))
Result-cases (ok a) = inl (a, refl)
Result-cases (err e) = inr (e, refl)

abbrev IsInRange : TokenCounts → Type 0
IsInRange u = (u.input_tokens < two64) × (u.output_tokens < two64)

module _ {S : Type 0} (m : Model S) (call_tool : String → String → S → Result String × S)
    (streaming : Bool) where
  open m use {History, Reply, ask, tokens, read, extend}

  abbrev pub acted :
      (History → TokenCounts → S → Run S)
      → History
      → TokenCounts
      → Reply
      → S
      → String
      → List Call
      → Run S
  acted next h u r s text [] =
      returned (result_of (answered text) u) (chunks_of streaming (answered text)) s
  acted next h u r s text (c ∷ cs) =
      next (extend h r (call_all m call_tool (c ∷ cs) s).0) u (call_all m call_tool (c ∷ cs) s).1

  abbrev pub spoken :
      (History → TokenCounts → S → Run S) → History → TokenCounts → Reply → S → Result Turn → Run S
  spoken next h u r s (err e) = returned (result_of (failed e) u) [] s
  spoken next h u r s (ok t) = acted next h u r s t.text t.calls

  abbrev pub heard :
      (History → TokenCounts → S → Run S) → History → TokenCounts → Result Reply × S → Run S
  heard next h u (err e, s) = returned (result_of (failed e) u) [] s
  heard next h u (ok r, s) = spoken next h (add_tokens u (tokens r)) r s (read r)

  unfoldable pub converse : ℕ → History → TokenCounts → S → Run S
  converse zero h u s = out_of_fuel
  converse (suc fuel) h u s = heard (converse fuel) h u (ask h s)

  abbrev pub Explained : History → TokenCounts → S → TaskResult → List String → S → Type 0
  Explained h u s res chunks s' =
      (rs : List Reply) × (x : Ending) × Exchange m call_tool h s rs x s'
      × (res ≡ result_of x (usage_after m call_tool u rs))
      × (chunks ≡ chunks_of streaming x)

  usage_after-cons :
      (u : TokenCounts) (r : Reply) (rs : List Reply)
      → usage_after m call_tool (add_tokens u (tokens r)) rs ≡ usage_after m call_tool u (r ∷ rs)
  usage_after-cons u r rs = ground arith

  add_tokens-IsInRange : (u t : TokenCounts) → IsInRange (add_tokens u t)
  add_tokens-IsInRange u t = ground arith

  usage_after-nil : (u : TokenCounts) → IsInRange u → u ≡ usage_after m call_tool u []
  usage_after-nil u h = ground arith

  usage_after-one :
      (u : TokenCounts) (r : Reply) → add_tokens u (tokens r) ≡ usage_after m call_tool u (r ∷ [])
  usage_after-one u r = ground arith

  acted-next :
      (next : History → TokenCounts → S → Run S) (h : History) (u : TokenCounts) (r : Reply) (s : S)
      (text : String) (cs : List Call)
      → cs ≢ []
      → acted next h u r s text cs
        ≡ next (extend h r (call_all m call_tool cs s).0) u (call_all m call_tool cs s).1
  acted-next next h u r s text [] some_left = absurd (some_left refl)
  acted-next next h u r s text (c ∷ cs) some_left = refl

  -- One round, when what follows it is explained.
  module _ (res : TaskResult) (chunks : List String) (s' : S)
      (next : History → TokenCounts → S → Run S)
      (follows : (h : History) (u : TokenCounts) (s : S)
        → IsInRange u
        → next h u s ≡ returned res chunks s'
        → Explained h u s res chunks s') where
    acted-Explained :
        (h : History) (u : TokenCounts) (s s1 : S) (r : Reply) (t : Turn) (cs : List Call)
        → ask h s ≡ (ok r, s1)
        → read r ≡ ok t
        → t.calls ≡ cs
        → acted next h (add_tokens u (tokens r)) r s1 t.text cs ≡ returned res chunks s'
        → Explained h u s res chunks s'
    acted-Explained h u s s1 r t [] a b c d =
        (r ∷ [], answered t.text, ends (cc) b c, cc (usage_after-one u r), cc)
    acted-Explained h u s s1 r t (k ∷ ks) a b c d =
        let (rs, x, exchange, e, f) = follows _ _ _ (add_tokens-IsInRange u (tokens r)) d in
        (
          r ∷ rs,
          x,
          goes_on a b (λ none_left. cc) (rw c exchange),
          e ∙ ap (result_of x) (usage_after-cons u r rs),
          f,
        )

    spoken-Explained :
        (h : History) (u : TokenCounts) (s s1 : S) (r : Reply) (turn : Result Turn)
        → ask h s ≡ (ok r, s1)
        → read r ≡ turn
        → spoken next h (add_tokens u (tokens r)) r s1 turn ≡ returned res chunks s'
        → Explained h u s res chunks s'
    spoken-Explained h u s s1 r (err e) a b d =
        (r ∷ [], failed e, garbled (cc) b, cc (usage_after-one u r), cc)
    spoken-Explained h u s s1 r (ok t) a b d = acted-Explained h u s s1 r t t.calls a b refl d

    heard-Explained :
        (h : History) (u : TokenCounts) (s : S) (reply : Result Reply × S)
        → IsInRange u
        → ask h s ≡ reply
        → heard next h u reply ≡ returned res chunks s'
        → Explained h u s res chunks s'
    heard-Explained h u s (err e, s1) range a d =
        ([], failed e, breaks (cc), cc (usage_after-nil u range), cc)
    heard-Explained h u s (ok r, s1) range a d = spoken-Explained h u s s1 r (read r) a refl d

  -- Every run that returns is explained by an exchange.
  pub converse-Explained :
      (res : TaskResult) (chunks : List String) (s' : S) (fuel : ℕ) (h : History) (u : TokenCounts)
      (s : S)
      → IsInRange u
      → converse fuel h u s ≡ returned res chunks s'
      → Explained h u s res chunks s'
  unfolding converse
  converse-Explained res chunks s' zero h u s range e = absurd (cc)
  converse-Explained res chunks s' (suc fuel) h u s range e =
      heard-Explained res chunks s' (converse fuel) (converse-Explained res chunks s' fuel) h u s
        (ask h s) range refl e

  -- Every exchange is a run, when the fuel exceeds the number of its replies.
  pub Exchange-converse :
      (fuel : ℕ) {h : History} {s s' : S} {rs : List Reply} {x : Ending}
      → Exchange m call_tool h s rs x s'
      → (u : TokenCounts) → IsInRange u
      → length rs < fuel
      → converse fuel h u s
        ≡ returned (result_of x (usage_after m call_tool u rs)) (chunks_of streaming x) s'
  unfolding converse
  Exchange-converse zero exchange u range enough = absurd (omega arith)
  Exchange-converse (suc fuel) {s' = s'} (breaks {e} a) u range enough =
      rw a (ap (λ v. returned (result_of (failed e) v) [] s') (usage_after-nil u range))
  Exchange-converse (suc fuel) {s' = s'} (garbled {r} {e} a b) u range enough =
      rw (a, b) (ap (λ v. returned (result_of (failed e) v) [] s') (usage_after-one u r))
  Exchange-converse (suc fuel) {s' = s'} (ends {r} {t} a b c) u range enough =
      rw (a, b, c)
        (ap
          (λ v. returned (result_of (answered t.text) v) (chunks_of streaming (answered t.text)) s')
          (usage_after-one u r))
  Exchange-converse (suc fuel) {s' = s'} (goes_on {r} {t} {rs} {x} a b c rest) u range enough =
      rw (a, b)
        (acted-next (converse fuel) _ (add_tokens u (tokens r)) r _ t.text t.calls c
          ∙ Exchange-converse fuel rest (add_tokens u (tokens r))
              (add_tokens-IsInRange u (tokens r)) (omega arith)
          ∙ ap (λ v. returned (result_of x v) (chunks_of streaming x) s') (usage_after-cons u r rs))

  -- A run returns exactly what some exchange explains, whatever the fuel that it takes.
  pub converse_iff :
      (h : History) (s : S) (res : TaskResult) (chunks : List String) (s' : S)
      → ((fuel : ℕ) × (converse fuel h no_tokens s ≡ returned res chunks s'))
        ↔ Explained h no_tokens s res chunks s'
  converse_iff h s res chunks s' = (
    λ (fuel, e). converse-Explained res chunks s' fuel h no_tokens s (omega arith) e,
    λ (rs, x, exchange, e, f). (
      suc (length rs),
      Exchange-converse (suc (length rs)) exchange no_tokens (omega arith) (omega arith)
          ∙ (λ i. returned (sym e i) (sym f i) s'),
    ),
  )

  whole_ending :
      (x : Ending) (u : TokenCounts)
      → streaming ≡ true
      → (result_of x u).error ≡ none
      → join (chunks_of streaming x) ≡ (result_of x u).text
  whole_ending (answered text) u on e = rw on (append-nil text)
  whole_ending (failed m) u on e = absurd (cc)

  -- With a chunk function, the chunks of a conversation without error make up its text.
  pub converse-IsWhole :
      (fuel : ℕ) (h : History) (s : S) → streaming ≡ true → IsWhole (converse fuel h no_tokens s)
  converse-IsWhole fuel h s on = by_run (converse fuel h no_tokens s) refl
    where
      by_run : (r : Run S) → converse fuel h no_tokens s ≡ r → IsWhole r
      by_run out_of_fuel e = tt
      by_run (returned res chunks s') e =
          let (rs, x, exchange, p, q) =
            converse-Explained res chunks s' fuel h no_tokens s (omega arith) e in
          λ fine.
            ap join q
            ∙ whole_ending x (usage_after m call_tool no_tokens rs) on
                (sym (ap (λ (r : TaskResult). r.error) p) ∙ fine)
            ∙ sym (ap (λ (r : TaskResult). r.text) p)
