-- ===== src/Runtime/Provider/Conversation.antt =====
-- What RunTask of every provider promises: a conversation with a model that calls the tools which the
-- model asks for, in order, until the model asks for none.
pub mod Runs
use Prim.Native.String.{◌++◌}
use agentops_operator.Prelude.{
  ℕ, zero, suc, ◌+◌, ◌%◌, String, Bool, true, false, none, some, List, [], ◌∷◌, if◌then◌else◌, ◌≡◌,
  ◌≢◌,
}
use agentops_operator.Prelude.Int64.{two64}
use agentops_operator.Api.Meta.{Message, Result, ok, err}
use agentops_operator.Runtime.Queue.{TokenCounts}
use agentops_operator.Runtime.Provider.{TaskResult, Run, returned, out_of_fuel, add_tokens}

pub record Call : Type 0 where
  pub id : String
  pub name : String
  pub input : String

-- The answer of a model in one turn: a text, and the tools that it wants to be called.
pub record Turn : Type 0 where
  pub text : String
  pub calls : List Call

-- A model behind some API: how it is asked, what its reply says, and how a conversation goes on with the
-- results of the calls. `S` is the state of all that is reached.
pub record Model (S : Type 0) : Type 1 where
  pub History : Type 0
  pub Reply : Type 0
  pub ask : History → S → Result Reply × S
  pub tokens : Reply → TokenCounts
  pub read : Reply → Result Turn
  pub extend : History → Reply → List (Call × Result String) → History

pub data Ending : Type 0 where
  answered : String → Ending
  failed : Message → Ending

module _ {S : Type 0} (m : Model S) (call_tool : String → String → S → Result String × S) where
  open m use {History, Reply, ask, tokens, read, extend}

  -- The calls of a turn, one after the other.
  abbrev pub call_all : List Call → S → List (Call × Result String) × S
  call_all [] s = ([], s)
  call_all (c ∷ cs) s =
      let (out, s1) = call_tool c.name c.input s in
      let (outs, s2) = call_all cs s1 in ((c, out) ∷ outs, s2)

  -- `Exchange h s rs x s'`: from the history h the model replies rs, the conversation ends with x, and
  -- the state changes from s to s'.
  pub data Exchange : History → S → List Reply → Ending → S → Type 0 where
    breaks :
        {h : History} {s s' : S} {e : Message}
        → ask h s ≡ (err e, s')
        → Exchange h s [] (failed e) s'
    garbled :
        {h : History} {s s' : S} {r : Reply} {e : Message}
        → ask h s ≡ (ok r, s')
        → read r ≡ err e
        → Exchange h s (r ∷ []) (failed e) s'
    ends :
        {h : History} {s s' : S} {r : Reply} {t : Turn}
        → ask h s ≡ (ok r, s')
        → read r ≡ ok t
        → t.calls ≡ []
        → Exchange h s (r ∷ []) (answered t.text) s'
    goes_on :
        {h : History} {s s1 s' : S} {r : Reply} {t : Turn} {rs : List Reply} {x : Ending}
        → ask h s ≡ (ok r, s1)
        → read r ≡ ok t
        → t.calls ≢ []
        → Exchange (extend h r (call_all t.calls s1).0) (call_all t.calls s1).1 rs x s'
        → Exchange h s (r ∷ rs) x s'

  abbrev pub input_sum : List Reply → ℕ
  input_sum [] = 0
  input_sum (r ∷ rs) = (tokens r).input_tokens + input_sum rs

  abbrev pub output_sum : List Reply → ℕ
  output_sum [] = 0
  output_sum (r ∷ rs) = (tokens r).output_tokens + output_sum rs

  -- The tokens of all replies, as 64-bit sums, after those counted before.
  abbrev pub usage_after : TokenCounts → List Reply → TokenCounts
  usage_after u rs = record {
    input_tokens = (u.input_tokens + input_sum rs) % two64;
    output_tokens = (u.output_tokens + output_sum rs) % two64;
  }

abbrev pub result_of : Ending → TokenCounts → TaskResult
result_of (answered text) u = record { text = text; usage = u; error = none }
result_of (failed e) u = record { text = ""; usage = u; error = some e }

-- With a chunk function the whole text is one chunk.
abbrev pub chunks_of : Bool → Ending → List String
chunks_of streaming (answered text) = if streaming then text ∷ [] else []
chunks_of streaming (failed e) = []

-- The text that a list of chunks makes up.
abbrev pub join : List String → String
join [] = ""
join (c ∷ cs) = c ++ join cs

-- The chunks of a run that reports no error make up its text.
abbrev pub IsWhole : {S : Type 0} → Run S → Type 0
IsWhole out_of_fuel = Unit
IsWhole (returned res chunks s) = res.error ≡ none → join chunks ≡ res.text
