-- ===== src/Runtime/Agent/Pushes.antt =====
-- What agents push under the key of a stream, in the order in which Redis gets it from several of them, and
-- what the webhook server reads of it.
use mathlib.Core.List as List
use mathlib.Core.List.{append-nil, append_assoc}
use agentops_operator.Prelude.{
  String, false, List, [], ◌∷◌, ◌==◌, if◌then◌else◌, ◌≡◌, ◌≢◌, refl, sym, ap, ◌∙◌, subst, inl, inr,
  ◌⊎◌, arith, All, eq_iff, eq_refl, name_cases, Bool-cases, Option-cases,
}
use agentops_operator.Prelude.Int64.{lt64}
use agentops_operator.Api.Meta.{Message}
use agentops_operator.Operator.Redis.{Reply, reply, nil_reply, failure}
use agentops_operator.Operator.Webhook.Sse.{token_stream}
use agentops_operator.Runtime.Queue.{
  Task, Queue, Command, xack, xadd, rpush, expire, publish_chunk, done_chunk, ack, nack, attempt_of,
}
use agentops_operator.Runtime.Provider.{TaskResult}
use agentops_operator.Runtime.Runner.{stream_key_of}
use agentops_operator.Runtime.Agent.{publish_all, end_stream, finish, handle_task}

-- The texts that commands push under a key.
abbrev pub pushed : String → List Command → List String
pushed key [] = []
pushed key (rpush k v ∷ cs) = let rest = pushed key cs in if k == key then v ∷ rest else rest
pushed key (xack s g i ∷ cs) = pushed key cs
pushed key (xadd s vs ∷ cs) = pushed key cs
pushed key (expire k n ∷ cs) = pushed key cs

-- `zs` is an interleaving of `xs` and `ys`.
abbrev pub Merge {ℓ} : {A : Type ℓ} → List A → List A → List A → Type ℓ
Merge xs ys [] = (xs ≡ []) × (ys ≡ [])
Merge {A = A} xs ys (z ∷ zs) =
    ((r : List A) × (xs ≡ z ∷ r) × Merge r ys zs) ⊎ ((r : List A) × (ys ≡ z ∷ r) × Merge xs r zs)

-- BLPOP takes the texts of a list in the order in which RPUSH has added them. It may time out in between,
-- and the reading ends with an error or with the context; the texts that are left then were not read.
pub data Reads (key : String)
    : List String → List (Reply (List String)) → List String → Type 0 where
  stops : {ts : List String} → Reads key ts [] ts
  fails :
      {ts : List String} {rs : List (Reply (List String))} (e : String)
      → Reads key ts (failure e ∷ rs) ts
  waits :
      {ts left : List String} {rs : List (Reply (List String))}
      → Reads key ts rs left
      → Reads key ts (nil_reply ∷ rs) left
  takes :
      {t : String} {ts left : List String} {rs : List (Reply (List String))}
      → Reads key ts rs left
      → Reads key (t ∷ ts) (reply (key ∷ t ∷ []) ∷ rs) left

-- A chunk is not the marker of the end of a stream.
abbrev pub IsPlain : List String → Type 0
IsPlain chunks = All (λ c. c ≢ "__EOF__") chunks

abbrev pub before_end : List String → List String
before_end [] = []
before_end (t ∷ ts) = let rest = before_end ts in if t == "__EOF__" then [] else t ∷ rest

pub Reads-before_end :
    {key : String} {ts left : List String} {rs : List (Reply (List String))}
    → Reads key ts rs left
    → (taken : List String) × (ts ≡ List.◌++◌ taken left) × (token_stream rs ≡ before_end taken)
unfolding token_stream
Reads-before_end stops = ([], refl, refl)
Reads-before_end (fails e) = ([], refl, refl)
Reads-before_end (waits h) = Reads-before_end h
Reads-before_end (takes {t} h) =
    let (taken, e, f) = Reads-before_end h in
    (t ∷ taken, ap (λ r. t ∷ r) e, ap (λ r. if t == "__EOF__" then [] else t ∷ r) f)

pub before_end-ended :
    (chunks rest : List String)
    → IsPlain chunks
    → before_end (List.◌++◌ chunks ("__EOF__" ∷ rest)) ≡ chunks
before_end-ended [] rest h = refl
before_end-ended (c ∷ cs) rest h = elim (name_cases c "__EOF__") [
  | inl (same, b) ↦ absurd (h.0 same)
  | inr (other, b) ↦ rw b (ap (λ r. c ∷ r) (before_end-ended cs rest h.1))
]

pub Merge-nil {ℓ} : {A : Type ℓ} (xs zs : List A) → Merge xs [] zs → zs ≡ xs
Merge-nil xs [] m = sym m.0
Merge-nil xs (z ∷ zs) (inl (r, e, m)) = ap (λ k. z ∷ k) (Merge-nil r zs m) ∙ sym e
Merge-nil xs (z ∷ zs) (inr (r, e, m)) = cc

pub pushed-append :
    (key : String) (cs ds : List Command)
    → pushed key (List.◌++◌ cs ds) ≡ List.◌++◌ (pushed key cs) (pushed key ds)
pushed-append key [] ds = refl
pushed-append key (rpush k v ∷ cs) ds = elim (Bool-cases (k == key)) [
  | inl b ↦ rw b (ap (λ r. v ∷ r) (pushed-append key cs ds))
  | inr b ↦ rw b (pushed-append key cs ds)
]
pushed-append key (xack s g i ∷ cs) ds = pushed-append key cs ds
pushed-append key (xadd s vs ∷ cs) ds = pushed-append key cs ds
pushed-append key (expire k n ∷ cs) ds = pushed-append key cs ds

-- A first command adds its texts to an interleaving, from either side.
module _ (key : String) (xs ys zs : List String) (m : Merge xs ys zs) where
  abbrev one : Command → List String
  one c = pushed key (c ∷ [])

  on_left : (c : Command) → Merge (List.◌++◌ (one c) xs) ys (List.◌++◌ (one c) zs)
  on_left (rpush k v) = elim (Bool-cases (k == key)) [
    | inl b ↦ rw b (inl (xs, refl, m))
    | inr b ↦ rw b m
  ]
  on_left (xack s g i) = m
  on_left (xadd s vs) = m
  on_left (expire k n) = m

  on_right : (c : Command) → Merge xs (List.◌++◌ (one c) ys) (List.◌++◌ (one c) zs)
  on_right (rpush k v) = elim (Bool-cases (k == key)) [
    | inl b ↦ rw b (inr (ys, refl, m))
    | inr b ↦ rw b m
  ]
  on_right (xack s g i) = m
  on_right (xadd s vs) = m
  on_right (expire k n) = m

pub Merge-pushed :
    (key : String) (cs ds all : List Command)
    → Merge cs ds all
    → Merge (pushed key cs) (pushed key ds) (pushed key all)
Merge-pushed key cs ds [] m = (ap (pushed key) m.0, ap (pushed key) m.1)
Merge-pushed key cs ds (c ∷ all) (inl (r, e, m)) =
    subst (λ k. Merge k (pushed key ds) (pushed key (c ∷ all)))
      (sym (ap (pushed key) e ∙ pushed-append key (c ∷ []) r))
      (subst (Merge (List.◌++◌ (pushed key (c ∷ [])) (pushed key r)) (pushed key ds))
        (sym (pushed-append key (c ∷ []) all))
        (on_left key (pushed key r) (pushed key ds) (pushed key all) (Merge-pushed key r ds all m)
          c))
Merge-pushed key cs ds (c ∷ all) (inr (r, e, m)) =
    subst (λ k. Merge (pushed key cs) k (pushed key (c ∷ all)))
      (sym (ap (pushed key) e ∙ pushed-append key (c ∷ []) r))
      (subst (Merge (pushed key cs) (List.◌++◌ (pushed key (c ∷ [])) (pushed key r)))
        (sym (pushed-append key (c ∷ []) all))
        (on_right key (pushed key cs) (pushed key r) (pushed key all) (Merge-pushed key cs r all m)
          c))

pushed-publish_all :
    (key : String) (chunks : List String) → pushed key (publish_all key chunks) ≡ chunks
unfolding publish_all publish_chunk
pushed-publish_all key [] = refl
pushed-publish_all key (c ∷ cs) = rw (eq_refl key) (ap (λ r. c ∷ r) (pushed-publish_all key cs))

pushed-end_stream : (key : String) → key ≢ "" → pushed key (end_stream key) ≡ "__EOF__" ∷ []
unfolding end_stream done_chunk
pushed-end_stream key given =
    let some_key : (key == "") ≡ false = ground (arith, eq_iff key "") in
    rw (some_key, end_stream) (rw (eq_refl key) refl)

pushed-finish :
    (key : String) (q : Queue) (text_of_error : Message → String) (task : Task)
    (result : TaskResult)
    → pushed key (finish q text_of_error task result) ≡ []
unfolding finish ack nack
pushed-finish key q text_of_error task result = elim (Option-cases result.error) [
  | inl e ↦ rw (e, finish) refl
  | inr (m, e) ↦ elim (Bool-cases (lt64 (attempt_of task) q.max_retries)) [
    | inl more ↦ rw (e, finish) (rw (more, nack) refl)
    | inr none_left ↦ rw (e, finish) (rw (none_left, nack) refl)
  ]
]

-- The pushes of one task: its chunks, and the marker of the end.
pub pushed-handle_task :
    (q : Queue) (text_of_error : Message → String) (task : Task) (result : TaskResult)
    (chunks : List String)
    → stream_key_of task ≢ ""
    → pushed (stream_key_of task) (handle_task q text_of_error task result chunks)
      ≡ List.◌++◌ chunks ("__EOF__" ∷ [])
unfolding handle_task
pushed-handle_task q text_of_error task result chunks given =
    let key = stream_key_of task in
    let settled = finish q text_of_error task result in
    pushed-append key (publish_all key chunks) (List.◌++◌ (end_stream key) settled)
    ∙ ap (List.◌++◌ (pushed key (publish_all key chunks))) (
        pushed-append key (end_stream key) settled
        ∙ ap (List.◌++◌ (pushed key (end_stream key)))
            (pushed-finish key q text_of_error task result)
        ∙ append-nil _
        ∙ pushed-end_stream key given)
    ∙ ap (λ cs. List.◌++◌ cs ("__EOF__" ∷ [])) (pushed-publish_all key chunks)
