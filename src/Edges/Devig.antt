-- ===== src/Edges/Devig.antt =====
-- edges/devig.py: removing the bookmaker's margin from two-way and N-way markets.
pub mod Shares
pub mod Two
pub mod Root
use bookie_breaker_agent.Prelude.{
  ℕ, zero, suc, String, List, map, length, all, ltb, Bool, not, ◌&&◌, Result, ok, raise,
  value_error, ◌>>=◌, ◌>>◌, reject_if, if◌then◌else◌,
}
use bookie_breaker_agent.Float.{Float, ◌+◌, ◌-◌, ◌*◌, ◌/◌, ◌<?◌, whole, sum}

pub data DevigMethod : Type 0 where
  multiplicative additive shin : DevigMethod

abbrev pub out_of_unit : String
out_of_unit = "Raw implied probabilities must be in (0, 1)"

abbrev pub no_vig : String
no_vig = "Raw implied probabilities sum to less than 1.0 (no vig to remove)"

-- 2, 4, …, 1024
abbrev pub max_rounds : ℕ
max_rounds = 10

-- How the search for the upper end of the bracket ends: with the end, with the ValueError, or out
-- of the rounds that the model allows.
pub data Bracket {ℓ} (F : Type ℓ) : Type ℓ where
  found : F → Bracket F
  failed : Bracket F
  out_of_rounds : Bracket F

module _ {ℓ} {F : Type ℓ} ⦃f : Float F⦄ where
  abbrev pub in_unit : F → Bool
  in_unit p = (whole 0 <? p) && (p <? whole 1)

  unfoldable pub validate : F → F → Result (Unit {0})
  validate prob_a prob_b = do
    reject_if (not (in_unit prob_a && in_unit prob_b)) out_of_unit
    reject_if (prob_a + prob_b <? whole 1) no_vig

  unfoldable pub multiplicative_devig : F → F → Result (F × F)
  unfolding validate
  multiplicative_devig prob_a prob_b = do
    validate prob_a prob_b
    let total = prob_a + prob_b
    ok (prob_a / total, prob_b / total)

  unfoldable pub additive_devig : F → F → Result (F × F)
  unfolding validate
  additive_devig prob_a prob_b = do
    validate prob_a prob_b
    let excess = prob_a + prob_b - whole 1
    ok (prob_a - excess / whole 2, prob_b - excess / whole 2)

  -- `while overround(high) > 0: high *= 2; if high > 1024: raise ValueError`
  unfoldable pub find_high : ℕ → (F → F) → F → Bracket F
  find_high zero overround high = out_of_rounds
  find_high (suc rounds) overround high =
      let doubled = high * whole 2 in
      let rest = find_high rounds overround doubled in
      let next = if whole 1024 <? doubled then failed else rest in
      if whole 0 <? overround high then next else found high

  -- `abs(x)`
  abbrev pub abs : F → F
  abs x = if x <? whole 0 then whole 0 - x else x

  -- `for _ in range(max_iterations)` with its `break`
  unfoldable pub bisect : ℕ → (F → F) → F → F → F → F × F
  bisect zero overround tolerance low high = (low, high)
  bisect (suc rounds) overround tolerance low high =
      let mid = (low + high) / whole 2 in
      let upper_half = bisect rounds overround tolerance mid high in
      let lower_half = bisect rounds overround tolerance low mid in
      if abs (overround mid) <? tolerance
      then (low, high)
      else if whole 0 <? overround mid
      then upper_half
      else lower_half

  -- From a bracket that was found: the exponent z.
  abbrev exponent : (F → F) → F → F
  exponent overround high =
      let (low, high') = bisect 200 overround (f.decimal 1 9) (whole 1) high in
      (low + high') / whole 2

  abbrev pub solve : (F → F) → Bracket F → Result F
  solve overround (found high) = ok (exponent overround high)
  solve overround failed = raise (value_error "Shin devig failed to bracket a root")
  solve overround out_of_rounds = raise (value_error "the model ran out of rounds")

  unfoldable pub shin_devig : F → F → Result (F × F)
  unfolding validate find_high bisect
  shin_devig prob_a prob_b = do
    validate prob_a prob_b
    let overround = λ (z : F). f.power prob_a z + f.power prob_b z - whole 1
    z ← solve overround (find_high max_rounds overround (whole 2))
    ok (f.power prob_a z, f.power prob_b z)

  unfoldable pub devig : DevigMethod → F → F → Result (F × F)
  unfolding multiplicative_devig additive_devig shin_devig
  devig multiplicative prob_a prob_b = multiplicative_devig prob_a prob_b
  devig additive prob_a prob_b = additive_devig prob_a prob_b
  devig shin prob_a prob_b = shin_devig prob_a prob_b

  unfoldable pub validate_many : List F → Result (Unit {0})
  validate_many probs = do
    reject_if (ltb (length probs) 2) "De-vigging requires at least two outcomes"
    reject_if (not (all in_unit probs)) out_of_unit
    reject_if (sum probs <? whole 1) no_vig

  unfoldable pub multiplicative_devig_n : List F → Result (List F)
  unfolding validate_many
  multiplicative_devig_n probs = do
    validate_many probs
    let total = sum probs
    ok (map (λ p. p / total) probs)

  unfoldable pub additive_devig_n : List F → Result (List F)
  unfolding validate_many
  additive_devig_n probs = do
    validate_many probs
    let excess = sum probs - whole 1
    ok (map (λ p. p - excess / whole (length probs)) probs)

  unfoldable pub shin_devig_n : List F → Result (List F)
  unfolding validate_many find_high bisect
  shin_devig_n probs = do
    validate_many probs
    let overround = λ (z : F). sum (map (λ p. f.power p z) probs) - whole 1
    z ← solve overround (find_high max_rounds overround (whole 2))
    ok (map (λ p. f.power p z) probs)

  unfoldable pub devig_many : DevigMethod → List F → Result (List F)
  unfolding multiplicative_devig_n additive_devig_n shin_devig_n
  devig_many multiplicative probs = multiplicative_devig_n probs
  devig_many additive probs = additive_devig_n probs
  devig_many shin probs = shin_devig_n probs
