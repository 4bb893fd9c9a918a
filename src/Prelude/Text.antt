-- ===== src/Prelude/Text.antt =====
-- The functions of Go's `strings` that the program calls, on texts of valid UTF-8.
use Prim.Native.Char.{Char, code}
use Prim.Native.String.{String, [], ◌∷◌, slice, len}
use Prim.Native.Nat.{ℕ}
use mathlib.Core.Bool.{Bool, ◌&&◌, ◌||◌}
use mathlib.Core.Option.{Option}
use mathlib.Core.List.{List}
use text.Mathlib.Text.{◌==◌, find?}
use agentops_operator.Prelude.Tests.{leb, eqb, if◌then◌else◌}

abbrev pub codes : String → List ℕ
codes [] = List.[]
codes (c ∷ s) = List.◌∷◌ (code c) (codes s)

-- unicode.IsSpace
unfoldable pub is_space : ℕ → Bool
is_space c =
    (leb 9 c && leb c 13)
    || eqb c 32
    || eqb c 0x85
    || eqb c 0xa0
    || eqb c 0x1680
    || (leb 0x2000 c && leb c 0x200a)
    || eqb c 0x2028
    || eqb c 0x2029
    || eqb c 0x202f
    || eqb c 0x205f
    || eqb c 0x3000

unfoldable pub trim_left : String → String
unfolding is_space
trim_left [] = []
trim_left (c ∷ s) = let rest = trim_left s in if is_space (code c) then rest else c ∷ s

unfoldable pub trim_right : String → String
unfolding is_space
trim_right [] = []
trim_right (c ∷ s) =
    let rest = trim_right s in if rest == "" && is_space (code c) then "" else c ∷ rest

-- strings.TrimSpace
unfoldable pub trim_space : String → String
unfolding trim_left trim_right
trim_space s = trim_right (trim_left s)

unfoldable pub push : Char → List String → List String
push c List.[] = List.◌∷◌ (c ∷ []) List.[]
push c (List.◌∷◌ l ls) = List.◌∷◌ (c ∷ l) ls

-- strings.Split at a character of one byte
unfoldable pub split_on : ℕ → String → List String
unfolding push
split_on at [] = List.◌∷◌ [] List.[]
split_on at (c ∷ s) =
    let rest = split_on at s in if eqb (code c) at then List.◌∷◌ [] rest else push c rest

-- strings.SplitSeq(s, "\n")
unfoldable pub split_lines : String → List String
unfolding split_on
split_lines s = split_on 10 s

-- s[i:]
unfoldable pub drop_bytes : String → ℕ → String
drop_bytes s i = slice s i (len s)

-- s[:i]
unfoldable pub take_bytes : String → ℕ → String
take_bytes s i = slice s 0 i

-- strings.Index
abbrev pub index : String → String → Option ℕ
index s t = find? s t
