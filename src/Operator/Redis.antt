-- ===== src/Operator/Redis.antt =====
-- What the program reads from and writes to Redis streams: the values of a message, and their
-- conversions (internal/flow/step.go: ToInt64).
pub mod Wire
use Prim.Native.Char.{code}
use Prim.Native.String.{[], ◌∷◌}
use agentops_operator.Prelude.{
  ℕ, ◌+◌, ◌*◌, ◌-◌, String, Bool, true, false, ◌&&◌, Option, none, some, List, ◌==◌, if◌then◌else◌,
  leb, ltb, eqb,
}
use agentops_operator.Prelude.Decimal.{unsigned}
use agentops_operator.Prelude.Int64.{two64, two63}

-- A value of a message, as an interface value: an integer, a text, or anything else.
pub data Value : Type 0 where
  int64 : ℕ → Value
  text : String → Value
  other_value : Value

pub record StreamMessage : Type 0 where
  pub id : String
  pub values : List (String × Value)

-- The reply to a command: a value, redis.Nil, or another error.
pub data Reply {ℓ} (A : Type ℓ) : Type ℓ where
  reply : A → Reply A
  nil_reply : Reply A
  failure : String → Reply A

-- `s, _ := v.(string)`
unfoldable pub text_of : Option Value → String
text_of (some (text s)) = s
text_of _ = ""

-- The number that strconv.ParseUint reads, without its error: from 2 ^ 64 on it stops, at the greatest number,
-- and does not look at the characters that follow. `none` is a syntax error.
unfoldable pub saturated : ℕ → String → Option ℕ
saturated n [] = some n
saturated n (c ∷ s) =
    let n' = n * 10 + (code c - b'0') in
    let rest = saturated n' s in
    if leb b'0' (code c) && leb (code c) b'9'
    then if ltb n' two64 then rest else some (two64 - 1)
    else none

unfoldable pub parse_uint : String → Option ℕ
unfolding saturated
parse_uint [] = none
parse_uint (c ∷ s) = saturated 0 (c ∷ s)

-- strconv.ParseInt(s, 10, 64) without its error: a number out of range is the nearest in range.
clamp : Bool → Option ℕ → ℕ
clamp negative none = 0
clamp true (some n) = if ltb two63 n then two63 else if ltb 0 n then two64 - n else 0
clamp false (some n) = if ltb n two63 then n else two63 - 1

unfoldable pub parse_int : String → ℕ
unfolding clamp
parse_int [] = 0
parse_int (c ∷ s) =
    if eqb (code c) b'-'
    then clamp true (parse_uint s)
    else if eqb (code c) b'+'
    then clamp false (parse_uint s)
    else clamp false (parse_uint (c ∷ s))

unfoldable pub to_int64 : Option Value → ℕ
unfolding parse_int
to_int64 (some (int64 n)) = n
to_int64 (some (text s)) = parse_int s
to_int64 _ = 0
