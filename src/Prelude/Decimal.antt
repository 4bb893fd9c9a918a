-- ===== src/Prelude/Decimal.antt =====
-- Go's strconv on decimal numbers: Atoi and Itoa.
use Prim.Native.Char.{Char, code}
use Prim.Native.String.{String, [], ◌∷◌}
use Prim.Native.Nat.{ℕ, zero, suc, ◌+◌, ◌-◌, ◌*◌, ◌/◌, ◌%◌, ◌<◌, ◌≤◌}
use mathlib.Core.Path.{◌≡◌, refl, ◌∙◌, sym, ap}
use mathlib.Core.Bool.{Bool, true, false, ◌&&◌}
use mathlib.Core.Option.{Option, none, some}
use native.Mathlib.Omega.{arith}
use agentops_operator.Prelude.Tests.{ltb, leb, eqb, if◌then◌else◌, Bool-cases, ltb→lt}
use mathlib.Core.Logic.{◌⊎◌, inl, inr}
use agentops_operator.Prelude.Int64.{two64, two63}

-- The decimal digits of a text as a number; `none` if there is no digit or another character.
unfoldable pub digits : ℕ → String → Option ℕ
digits n [] = some n
digits n (c ∷ s) =
    let rest = digits (n * 10 + (code c - b'0')) s in
    if leb b'0' (code c) && leb (code c) b'9' then rest else none

unfoldable pub unsigned : String → Option ℕ
unfolding digits
unsigned [] = none
unsigned (c ∷ s) = digits 0 (c ∷ s)

digit : ℕ → Char
digit n =
    if eqb n 0
    then "0"
    else if eqb n 1
    then "1"
    else if eqb n 2
    then "2"
    else if eqb n 3
    then "3"
    else if eqb n 4
    then "4"
    else if eqb n 5
    then "5"
    else if eqb n 6
    then "6"
    else if eqb n 7
    then "7"
    else if eqb n 8
    then "8"
    else "9"

-- The digits of n, before a text; n + 1 is fuel enough.
print_before : ℕ → ℕ → String → String
unfolding digit
print_before zero n s = s
print_before (suc fuel) n s =
    let more = print_before fuel (n / 10) (digit (n % 10) ∷ s) in
    if ltb n 10 then digit n ∷ s else more

-- strconv.Itoa
unfoldable pub itoa : ℕ → String
unfolding print_before
itoa n =
    if ltb n two63
    then print_before (suc n) n ""
    else "-" ∷ print_before (suc (two64 - n)) (two64 - n) ""

in_range : Bool → Option ℕ → Option ℕ
in_range negative none = none
in_range true (some n) = if leb n two63 then some ((two64 - n) % two64) else none
in_range false (some n) = if ltb n two63 then some n else none

-- strconv.Atoi; `none` is an error.
unfoldable pub atoi : String → Option ℕ
unfolding unsigned in_range
atoi [] = none
atoi (c ∷ s) =
    if eqb (code c) b'-'
    then in_range true (unsigned s)
    else if eqb (code c) b'+'
    then in_range false (unsigned s)
    else in_range false (unsigned (c ∷ s))

code-if : (b : Bool) (c d : Char) → code (if b then c else d) ≡ (if b then code c else code d)
code-if true c d = refl
code-if false c d = refl

code-digit : (n : ℕ) → n < 10 → code (digit n) ≡ 48 + n
unfolding digit
code-digit n h = simp code-if (ground arith)

digits-digit : (a n : ℕ) (s : String) → n < 10 → digits a (digit n ∷ s) ≡ digits (a * 10 + n) s
unfolding digits
digits-digit a n s h =
    let e = code-digit n h in
    let same : a * 10 + (code (digit n) - 48) ≡ a * 10 + n = omega (arith, e) in
    ground (arith, e, ap (λ k. digits k s) same)

-- Reading what was printed before a text continues as if its number had been read.
digits-print_before :
    (fuel n : ℕ) (s : String) → n < fuel → digits 0 (print_before fuel n s) ≡ digits n s
unfolding print_before
digits-print_before zero n s h = absurd (omega arith)
digits-print_before (suc fuel) n s h = elim (Bool-cases (ltb n 10)) [
  | inl small ↦
      rw small (digits-digit 0 n s (ltb→lt n 10 small) ∙ ap (λ k. digits k s) (omega arith))
  | inr large ↦ rw large (
      digits-print_before fuel (n / 10) (digit (n % 10) ∷ s) (less large)
      ∙ digits-digit (n / 10) (n % 10) s (omega arith)
      ∙ ap (λ k. digits k s) (omega arith))
]
  where
    less : ltb n 10 ≡ false → n / 10 < fuel
    less f = ground arith

-- What is printed starts with a character.
abbrev Starts : String → Type 0
Starts s = (c : Char) × (t : String) × (s ≡ c ∷ t)

print_before-Starts : (fuel n : ℕ) (s : String) → Starts s → Starts (print_before fuel n s)
unfolding print_before
print_before-Starts zero n s h = h
print_before-Starts (suc fuel) n s h = elim (Bool-cases (ltb n 10)) [
  | inl small ↦ rw small (digit n, s, refl)
  | inr large ↦
      rw large (print_before-Starts fuel (n / 10) (digit (n % 10) ∷ s) (digit (n % 10), s, refl))
]

printed-Starts : (fuel n : ℕ) → Starts (print_before (suc fuel) n "")
unfolding print_before
printed-Starts fuel n = elim (Bool-cases (ltb n 10)) [
  | inl small ↦ rw small (digit n, "", refl)
  | inr large ↦
      rw large (print_before-Starts fuel (n / 10) (digit (n % 10) ∷ "") (digit (n % 10), "", refl))
]

unsigned-print_before : (n : ℕ) → unsigned (print_before (suc n) n "") ≡ some n
unfolding unsigned digits
unsigned-print_before n =
    let (c, t, e) = printed-Starts n n in
    ap unsigned e ∙ sym (ap (digits 0) e) ∙ digits-print_before (suc n) n "" (omega arith)

-- A text of digits has no sign.
atoi-digits :
    (c : Char) (s : String) (n : ℕ) → digits 0 (c ∷ s) ≡ some n → n < two63 → atoi (c ∷ s) ≡ some n
unfolding atoi unsigned digits in_range
atoi-digits c s n h small = ground arith

atoi-negative :
    (s : String) (m : ℕ)
    → unsigned s ≡ some m
    → m ≤ two63
    → atoi ("-" ∷ s) ≡ some ((two64 - m) % two64)
unfolding atoi in_range
atoi-negative s m h le = ground arith

-- Reading what was printed gives the number back.
pub atoi-itoa : (n : ℕ) → n < two64 → atoi (itoa n) ≡ some n
unfolding itoa unsigned
atoi-itoa n h = elim (Bool-cases (ltb n two63)) [
  | inl small ↦
      let (c, t, e) = printed-Starts n n in
      rw small (
        ap atoi e
        ∙ atoi-digits c t n (sym (ap unsigned e) ∙ unsigned-print_before n) (ltb→lt n two63 small))
  | inr large ↦ rw large (
      atoi-negative _ (two64 - n) (unsigned-print_before (two64 - n)) (less large)
      ∙ ap some (back large))
]
  where
    less : ltb n two63 ≡ false → two64 - n ≤ two63
    less f = ground arith

    back : ltb n two63 ≡ false → (two64 - (two64 - n)) % two64 ≡ n
    back f = ground arith

-- What is printed: digits, or a minus sign before digits.
pub itoa_cases :
    (n : ℕ)
    → n < two64
    → ((n < two63) × (c : Char) × (s : String) × (itoa n ≡ c ∷ s) × (digits 0 (c ∷ s) ≡ some n))
      ⊎ ((two63 ≤ n) × (s : String) × (itoa n ≡ "-" ∷ s) × (unsigned s ≡ some (two64 - n)))
unfolding itoa unsigned
itoa_cases n h = elim (Bool-cases (ltb n two63)) [
  | inl small ↦
      let (c, t, e) = printed-Starts n n in
      inl (ltb→lt n two63 small, c, t, rw small e, sym (ap unsigned e) ∙ unsigned-print_before n)
  | inr large ↦ inr (
    not_less large,
    print_before (suc (two64 - n)) (two64 - n) "",
    rw large refl,
    unsigned-print_before (two64 - n),
  )
]
  where
    not_less : ltb n two63 ≡ false → two63 ≤ n
    not_less f = ground arith
