-- ===== src/Operator/Redis/Wire.antt =====
-- Numbers on their way through Redis.
use agentops_operator.Prelude.{
  ℕ, ◌+◌, ◌*◌, ◌-◌, ◌<◌, ◌≤◌, String, Option, some, ◌≡◌, ◌∙◌, inl, inr, arith, ap,
}
use Prim.Native.Char.{Char, code}
use Prim.Native.String.{[], ◌∷◌}
use agentops_operator.Prelude.Decimal.{digits, unsigned, itoa, itoa_cases}
use agentops_operator.Prelude.Int64.{two64, two63}
use agentops_operator.Operator.Redis.{text, saturated, parse_uint, clamp, parse_int, to_int64}

digits-grows : (n m : ℕ) (s : String) → digits n s ≡ some m → n ≤ m
unfolding digits
digits-grows n m [] h =
    let read : ◌≡◌ {A = Option ℕ} (some n) (some m) = h in
    let same : n ≡ m = cc in omega (arith, same)
digits-grows n m (c ∷ s) h =
    let grown = digits-grows (n * 10 + (code c - 48)) m s in ground (arith, h, grown)

saturated-digits : (n m : ℕ) (s : String) → digits n s ≡ some m → m < two64 → saturated n s ≡ some m
unfolding digits saturated
saturated-digits n m [] h small = h
saturated-digits n m (c ∷ s) h small =
    let grown = digits-grows (n * 10 + (code c - 48)) m s in
    let read = saturated-digits (n * 10 + (code c - 48)) m s in
    ground (arith, h, small, grown, read)

parse_uint-unsigned : (s : String) (m : ℕ) → unsigned s ≡ some m → m < two64 → parse_uint s ≡ some m
unfolding parse_uint unsigned
parse_uint-unsigned [] m h small = absurd cc
parse_uint-unsigned (c ∷ s) m h small = saturated-digits 0 m (c ∷ s) h small

parse_int-digits :
    (c : Char) (s : String) (n : ℕ) → digits 0 (c ∷ s) ≡ some n → n < two63 → parse_int (c ∷ s) ≡ n
unfolding parse_int clamp unsigned digits
parse_int-digits c s n h small =
    let read = parse_uint-unsigned (c ∷ s) n h (omega (arith, small)) in
    ground (arith, h, small, read)

parse_int-negative :
    (s : String) (m : ℕ) → unsigned s ≡ some m → 0 < m → m ≤ two63 → parse_int ("-" ∷ s) ≡ two64 - m
unfolding parse_int clamp
parse_int-negative s m h pos le =
    rw (parse_uint-unsigned s m h (omega (arith, le)), clamp) (ground arith)

-- A number that is written in decimal is read back by ToInt64.
pub to_int64-itoa : (n : ℕ) → n < two64 → to_int64 (some (text (itoa n))) ≡ n
unfolding to_int64
to_int64-itoa n h = elim (itoa_cases n h) [
  | inl (small, c, s, e, d) ↦ ap parse_int e ∙ parse_int-digits c s n d small
  | inr (large, s, e, d) ↦
      ap parse_int e ∙ parse_int-negative s (two64 - n) d (omega arith) (omega arith) ∙ omega arith
]
