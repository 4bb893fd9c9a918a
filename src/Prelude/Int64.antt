-- ===== src/Prelude/Int64.antt =====
-- Go's `int64` and `int`, as the bit pattern of the two's complement form: a number below 2 ^ 64,
-- where the patterns from 2 ^ 63 on stand for the negative values.
use agentops_operator.Prelude.{ℕ, ◌+◌, ◌%◌, ◌*◌, ◌<◌, Bool, ◌≡◌, ltb, arith, true}

abbrev pub two64 : ℕ
two64 = 18446744073709551616

abbrev pub two63 : ℕ
two63 = 9223372036854775808

-- a + b
abbrev pub add64 : ℕ → ℕ → ℕ
add64 a b = (a + b) % two64

-- a * b
abbrev pub mul64 : ℕ → ℕ → ℕ
mul64 a b = (a * b) % two64

-- The signed values in order: adding 2 ^ 63 turns their order into that of the patterns.
abbrev pub order64 : ℕ → ℕ
order64 a = (a + two63) % two64

-- a < b on the signed values
abbrev pub lt64 : ℕ → ℕ → Bool
lt64 a b = ltb (order64 a) (order64 b)

-- On patterns without the sign bit the order is that of the numbers.
pub lt64_lem : (a b : ℕ) → a < two63 → b < two63 → lt64 a b ≡ ltb a b
lt64_lem a b h k = ground arith

-- Below another value, adding one does not wrap.
pub order64-suc : (a b : ℕ) → lt64 a b ≡ true → order64 (add64 a 1) ≡ order64 a + 1
order64-suc a b h = ground arith
