-- ===== src/Runtime/Agent/Delivery.antt =====
-- From the chunks of a provider to the tokens of a client: what an agent pushes for a task, between what
-- others push under the same key, and what the webhook server reads of it.
use mathlib.Core.List as List
use mathlib.Core.List.{append-nil, append_assoc}
use agentops_operator.Prelude.{
  ℕ, String, true, none, List, [], ◌∷◌, ◌==◌, ◌≡◌, ◌≢◌, refl, sym, ap, ◌∙◌, subst, inl, inr, ◌⊎◌,
  eq_iff, name_cases,
}
use agentops_operator.Api.Meta.{Message, Result}
use agentops_operator.Operator.Redis.{Reply}
use agentops_operator.Operator.Webhook.Sse.{Round, completed, token_stream, sse_loop}
use agentops_operator.Operator.Webhook.Sse.Tokens.{tokens_of, sse_loop-HasWritten}
use agentops_operator.Runtime.Config.{Config}
use agentops_operator.Runtime.Tools.{Tool}
use agentops_operator.Runtime.Queue.{Task, Queue, Command}
use agentops_operator.Runtime.Provider.{TaskResult, returned}
use agentops_operator.Runtime.Provider.Conversation.{join, IsWhole}
use agentops_operator.Runtime.Provider.Anthropic.{Api, run_task}
use agentops_operator.Runtime.Provider.Anthropic.Chunks.{run_task-IsWhole}
use agentops_operator.Runtime.Runner.{stream_key_of}
use agentops_operator.Runtime.Agent.{handle_task}
use agentops_operator.Runtime.Agent.Pushes.{
  pushed, Merge, Reads, IsPlain, before_end, Reads-before_end, before_end-ended, Merge-nil,
  pushed-append, Merge-pushed, pushed-handle_task,
}

-- `out` is an interleaving of a first part of `chunks` and a first part of `ys`. All of `chunks` is in it,
-- unless the next of `ys` is the marker of the end or texts are left.
abbrev pub IsShared : List String → List String → List String → List String → Type 0
IsShared chunks ys left out =
    (p r q s : List String) × (chunks ≡ List.◌++◌ p r)
    × (ys ≡ List.◌++◌ q s)
    × Merge p q out
    × ((r ≡ []) ⊎ ((rest : List String) × (s ≡ "__EOF__" ∷ rest)) ⊎ (left ≢ []))

IsShared-left :
    (c t : String) (cs ys left out : List String)
    → c ≡ t
    → IsShared cs ys left out
    → IsShared (c ∷ cs) ys left (t ∷ out)
IsShared-left c t cs ys left out same (p, r, q, s, e, f, m, why) =
    (c ∷ p, r, q, s, ap (λ k. c ∷ k) e, f, inl (p, ap (λ k. k ∷ p) same, m), why)

IsShared-right :
    (t : String) (cs ys zs left out : List String)
    → ys ≡ t ∷ zs
    → IsShared cs zs left out
    → IsShared cs ys left (t ∷ out)
IsShared-right t cs ys zs left out first (p, r, q, s, e, f, m, why) =
    (p, r, t ∷ q, s, e, first ∙ ap (λ k. t ∷ k) f, inr (q, refl, m), why)

rest_of : {x y : String} {xs ys : List String} → x ∷ xs ≡ y ∷ ys → ys ≡ xs
rest_of e = cc

before_end-IsShared :
    (chunks ys taken left : List String)
    → IsPlain chunks
    → Merge (List.◌++◌ chunks ("__EOF__" ∷ [])) ys (List.◌++◌ taken left)
    → IsShared chunks ys left (before_end taken)
before_end-IsShared [] ys [] left h m = ([], [], [], ys, refl, refl, (refl, refl), inl refl)
before_end-IsShared (c ∷ cs) ys [] left h m = (
  [],
  c ∷ cs,
  [],
  ys,
  refl,
  refl,
  (refl, refl),
  inr (
      inr (λ e.
        let stuck : c ∷ List.◌++◌ cs ("__EOF__" ∷ []) ≡ [] =
          (subst (Merge (c ∷ List.◌++◌ cs ("__EOF__" ∷ [])) ys) e m).0 in
        cc)),
)
before_end-IsShared [] ys (t ∷ ts) left h (inl (r, e, m)) =
    let first : "__EOF__" ≡ t = cc in
    let ended : (t == "__EOF__") ≡ true = (eq_iff t "__EOF__").1 (sym first) in
    rw ended ([], [], [], ys, refl, refl, (refl, refl), inl refl)
before_end-IsShared (c ∷ cs) ys (t ∷ ts) left h (inl (r, e, m)) =
    let first : c ≡ t = cc in
    elim (name_cases t "__EOF__") [
      | inl (same, b) ↦ absurd (h.0 (first ∙ same))
      | inr (other, b) ↦ rw b (
          IsShared-left c t cs ys left _ first (
            before_end-IsShared cs ys ts left h.1
              (subst (λ k. Merge k ys (List.◌++◌ ts left)) (rest_of e) m)))
    ]
before_end-IsShared chunks ys (t ∷ ts) left h (inr (r, e, m)) = elim (name_cases t "__EOF__") [
  | inl (same, b) ↦
      rw b ([], chunks, [], ys, refl, refl, (refl, refl), inr (inl (r, e ∙ ap (λ k. k ∷ r) same)))
  | inr (other, b) ↦
      rw b (IsShared-right t chunks ys r left _ e (before_end-IsShared chunks r ts left h m))
]

-- The commands of an agent for a task with a stream key get to Redis in order, between any `others`, such as
-- those for the parallel steps of the flow. No chunk of the task is the marker of the end, and the key does
-- not expire before it is read. Then the tokens that the webhook server reads of the key are an interleaving
-- of a first part of the task's chunks and a first part of what the others push under the key. All chunks of
-- the task are among them, unless another marker under the key comes first, or the reading ends, by an error
-- or its context, when texts are left.
pub handle_task-token_stream :
    (q : Queue) (text_of_error : Message → String) (task : Task) (result : TaskResult)
    (chunks : List String) (others all : List Command) (rs : List (Reply (List String)))
    (left : List String)
    → stream_key_of task ≢ ""
    → IsPlain chunks
    → Merge (handle_task q text_of_error task result chunks) others all
    → Reads (stream_key_of task) (pushed (stream_key_of task) all) rs left
    → IsShared chunks (pushed (stream_key_of task) others) left (token_stream rs)
handle_task-token_stream q text_of_error task result chunks others all rs left given plain m reads =
    let key = stream_key_of task in
    let (taken, e, f) = Reads-before_end reads in
    subst (IsShared chunks (pushed key others) left) (sym f) (
      before_end-IsShared chunks (pushed key others) taken left plain (
        subst (Merge (List.◌++◌ chunks ("__EOF__" ∷ [])) (pushed key others)) e (
          subst (λ k. Merge k (pushed key others) (pushed key all))
            (pushed-handle_task q text_of_error task result chunks given)
            (Merge-pushed key (handle_task q text_of_error task result chunks) others all m))))

-- Nothing else is pushed under the key until the marker of the task is: the reader gets its chunks alone.
alone-token_stream :
    (q : Queue) (text_of_error : Message → String) (task : Task) (result : TaskResult)
    (chunks : List String) (others all later : List Command) (rs : List (Reply (List String)))
    → stream_key_of task ≢ ""
    → IsPlain chunks
    → Merge (handle_task q text_of_error task result chunks) others all
    → pushed (stream_key_of task) others ≡ []
    → Reads (stream_key_of task) (pushed (stream_key_of task) (List.◌++◌ all later)) rs []
    → token_stream rs ≡ chunks
alone-token_stream q text_of_error task result chunks others all later rs given plain m quiet
      reads =
    let key = stream_key_of task in
    let (taken, e, f) = Reads-before_end reads in
    let mine : pushed key all ≡ List.◌++◌ chunks ("__EOF__" ∷ []) =
      Merge-nil (pushed key (handle_task q text_of_error task result chunks)) (pushed key all) (
        subst
          (λ k.
            Merge (pushed key (handle_task q text_of_error task result chunks)) k (pushed key all))
          quiet (Merge-pushed key (handle_task q text_of_error task result chunks) others all m))
      ∙ pushed-handle_task q text_of_error task result chunks given in
    f
    ∙ ap before_end (
        sym (append-nil taken)
        ∙ sym e
        ∙ pushed-append key all later
        ∙ ap (λ ts. List.◌++◌ ts (pushed key later)) mine
        ∙ append_assoc chunks ("__EOF__" ∷ []) (pushed key later))
    ∙ before_end-ended chunks (pushed key later) plain

-- From end to end: an agent runs a task with a stream key through the anthropic provider without an error, no
-- chunk being the marker of the end. Its commands get to Redis in order, between `others` that push nothing
-- under the key; whatever is pushed `later` comes after. The webhook server reads all that is pushed under
-- the key, maybe with time-outs but without an error, before the key expires. If the stream of events then
-- ends with a completed flow, its tokens make up the text that the agent reports, whatever the rounds of the
-- stream are.
pub handle_task-sse_loop :
    {S : Type 0} (api : Api S) (call_tool : String → String → S → Result String × S) (cfg : Config)
    (fuel : ℕ) (api_key : String) (tools : List Tool) (s s' : S) (q : Queue)
    (text_of_error : Message → String) (task : Task) (result : TaskResult) (chunks : List String)
    (others all later : List Command) (rs : List (Reply (List String))) (timeout : ℕ)
    (rounds : List Round)
    → run_task api call_tool fuel api_key cfg task.prompt tools true s ≡ returned result chunks s'
    → result.error ≡ none
    → stream_key_of task ≢ ""
    → IsPlain chunks
    → Merge (handle_task q text_of_error task result chunks) others all
    → pushed (stream_key_of task) others ≡ []
    → Reads (stream_key_of task) (pushed (stream_key_of task) (List.◌++◌ all later)) rs []
    → (sse_loop timeout rounds (token_stream rs) []).close ≡ completed
    → join (tokens_of (sse_loop timeout rounds (token_stream rs) []).events) ≡ result.text
handle_task-sse_loop api call_tool cfg fuel api_key tools s s' q text_of_error task result chunks
      others all later rs timeout rounds ran fine given plain m quiet reads ended =
    let stream = token_stream rs in
    let (rest, e, none_left) = sse_loop-HasWritten timeout rounds stream [] in
    let written : stream ≡ tokens_of (sse_loop timeout rounds stream []).events =
      e
      ∙ ap (List.◌++◌ (tokens_of (sse_loop timeout rounds stream []).events)) (none_left ended)
      ∙ append-nil _ in
    ap join (
      sym written
      ∙ alone-token_stream q text_of_error task result chunks others all later rs given plain m
          quiet reads)
    ∙ subst IsWhole ran (run_task-IsWhole api call_tool cfg fuel api_key task.prompt tools s) fine
