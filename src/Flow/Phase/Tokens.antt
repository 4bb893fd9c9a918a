-- ===== src/Flow/Phase/Tokens.antt =====
-- The token sums of SumStepTokens against plain addition.
use agentops_operator.Prelude.{
  ℕ, ◌+◌, ◌%◌, ◌<◌, Option, none, some, List, [], ◌∷◌, ◌≡◌, refl, ◌∙◌, arith,
}
use agentops_operator.Prelude.Int64.{two64}
use agentops_operator.Api.Flow.{TokenUsage, StepStatus, Flow}
use agentops_operator.Flow.Phase.{add_usage, token_sums, sum_step_tokens}

abbrev pub input_of : Option TokenUsage → ℕ
input_of none = 0
input_of (some u) = u.input_tokens

abbrev pub output_of : Option TokenUsage → ℕ
output_of none = 0
output_of (some u) = u.output_tokens

abbrev pub input_sum : List StepStatus → ℕ
input_sum [] = 0
input_sum (st ∷ sts) = input_of st.token_usage + input_sum sts

abbrev pub output_sum : List StepStatus → ℕ
output_sum [] = 0
output_sum (st ∷ sts) = output_of st.token_usage + output_sum sts

add_usage-fst :
    (u : Option TokenUsage) (a b : ℕ)
    → a < two64
    → (add_usage u (a, b)).0 ≡ (a + input_of u) % two64
add_usage-fst none a b h = omega arith
add_usage-fst (some u) a b h = refl

add_usage-snd :
    (u : Option TokenUsage) (a b : ℕ)
    → b < two64
    → (add_usage u (a, b)).1 ≡ (b + output_of u) % two64
add_usage-snd none a b h = omega arith
add_usage-snd (some u) a b h = refl

token_sums-fst :
    (sts : List StepStatus) (a b : ℕ)
    → a < two64
    → (token_sums sts (a, b)).0 ≡ (a + input_sum sts) % two64
unfolding token_sums
token_sums-fst [] a b h = omega arith
token_sums-fst (st ∷ sts) a b h =
    let next = add_usage st.token_usage (a, b) in
    let step = add_usage-fst st.token_usage a b h in
    let rest : (token_sums sts next).0 ≡ (next.0 + input_sum sts) % two64 =
      token_sums-fst sts next.0 next.1 (omega (arith, step)) in
    rest ∙ omega (arith, step)

token_sums-snd :
    (sts : List StepStatus) (a b : ℕ)
    → b < two64
    → (token_sums sts (a, b)).1 ≡ (b + output_sum sts) % two64
unfolding token_sums
token_sums-snd [] a b h = omega arith
token_sums-snd (st ∷ sts) a b h =
    let next = add_usage st.token_usage (a, b) in
    let step = add_usage-snd st.token_usage a b h in
    let rest : (token_sums sts next).1 ≡ (next.1 + output_sum sts) % two64 =
      token_sums-snd sts next.0 next.1 (omega (arith, step)) in
    rest ∙ omega (arith, step)

-- SumStepTokens returns the sum of all recorded input and output tokens, modulo 2 ^ 64.
pub sum_step_tokens-sum :
    (f : Flow)
    → (sum_step_tokens f).0 ≡ (input_sum f.status.steps + output_sum f.status.steps) % two64
unfolding sum_step_tokens
sum_step_tokens-sum f = omega (
  arith,
  token_sums-fst f.status.steps 0 0 (omega arith),
  token_sums-snd f.status.steps 0 0 (omega arith),
)
