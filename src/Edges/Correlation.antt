-- ===== src/Edges/Correlation.antt =====
-- edges/correlation.py: joint probabilities of parlay legs and the prior correlations of leg pairs.
-- The dictionaries that `correlated_parlay_ev` returns are the record `ParlayEv`.
pub mod Frechet
pub mod Prior
use Prim.Native.Nat
use bookie_breaker_agent.Prelude.{
  ℕ, zero, suc, String, List, [], ◌∷◌, map, length, ◌==◌, Bool, true, false, not, ◌&&◌, ◌||◌,
  Option, none, some, Result, ok, raise, value_error, other, ◌>>=◌, ◌>>◌, reject_if, if◌then◌else◌,
  upper, lower, str_eq,
}
use bookie_breaker_agent.Prelude.Int.{ℤ, pos, ◌+ℤ◌}
use bookie_breaker_agent.Float.{Float, ◌+◌, ◌-◌, ◌*◌, ◌/◌, ◌≤?◌, ◌<?◌, whole, min, max, sum, prod}
use bookie_breaker_agent.Edges.Odds.{american_to_decimal, american_to_implied_prob}

pub record ParlayEv {ℓ} (F : Type ℓ) : Type ℓ where
  pub joint_probability : F
  pub independent_probability : F
  pub correlation_edge : F
  -- present when a price was offered, and when it was not
  pub implied_probability : Option F
  pub parlay_decimal_odds : Option F
  pub ev : F
  pub ev_pct : F

-- The prop identity of a leg: the keyword arguments of `correlation_prior`.
pub record PriorLeg : Type 0 where
  pub market : String
  pub side : Option String
  pub player : Option String
  pub stat : Option String
  pub player_team : Option String

-- `side.upper() if side else None`
abbrev pub upper_side : Option String → Option String
upper_side none = none
upper_side (some s) = if str_eq s "" then none else some (upper s)

abbrev pub opt_eq : Option String → Option String → Bool
opt_eq none none = true
opt_eq (some a) (some b) = str_eq a b
opt_eq _ _ = false

-- `(text or "")`
abbrev pub or_empty : Option String → String
or_empty none = ""
or_empty (some s) = s

abbrev pub is_team_market : String → Bool
is_team_market m = str_eq m "SPREAD" || str_eq m "MONEYLINE"

-- `frozenset({a, b}) == frozenset({x, y})`
abbrev pub same_pair : String → String → String → String → Bool
same_pair a b x y = (str_eq a x && str_eq b y) || (str_eq a y && str_eq b x)

-- HOME or AWAY
abbrev pub is_team_side : Option String → Bool
is_team_side s = opt_eq s (some "HOME") || opt_eq s (some "AWAY")

-- The message of the ValueError for opposite sides of one market.
abbrev pub opposite_sides : String
opposite_sides = "opposite sides of the same market cannot be parlayed in the same game"

-- `sum` of integers
abbrev pub sum_ℤ : List ℤ → ℤ
sum_ℤ [] = pos 0
sum_ℤ (a ∷ as') = a +ℤ sum_ℤ as'

-- The first lines of `correlation_prior`: markets and sides in upper case.
abbrev pub normalized : PriorLeg → PriorLeg
normalized leg = record leg { market = upper leg.market; side = upper_side leg.side }

unfoldable pub same_prop_instance : PriorLeg → PriorLeg → Bool
same_prop_instance a b =
    not (opt_eq a.player none)
    && (opt_eq a.player b.player && str_eq (lower (or_empty a.stat)) (lower (or_empty b.stat)))

module _ {ℓ} {F : Type ℓ} ⦃f : Float F⦄ where
  abbrev pub correlation_priors : List (String × String × F)
  correlation_priors =
      ("SPREAD", "TOTAL", f.decimal 15 2)
      ∷ ("MONEYLINE", "TOTAL", f.decimal 15 2)
      ∷ ("MONEYLINE", "SPREAD", f.decimal 30 2)
      ∷ ("MONEYLINE", "PLAYER_PROP", f.decimal 20 2)
      ∷ ("SPREAD", "PLAYER_PROP", f.decimal 15 2)
      ∷ ("TOTAL", "TOTAL", f.decimal 45 2)
      ∷ []

  abbrev pub lookup_pair_of : String → String → List (String × String × F) → Option F
  lookup_pair_of a b [] = none
  lookup_pair_of a b ((x, y, v) ∷ rest) =
      if same_pair a b x y then some v else lookup_pair_of a b rest

  -- `min(xs)` of a sequence: the first smallest; a ValueError on the empty sequence.
  abbrev pub min_from : F → List F → F
  min_from best [] = best
  min_from best (x ∷ xs) = min_from (min best x) xs

  unfoldable pub frechet_clamp : F → List F → Result F
  frechet_clamp joint [] = raise (value_error "min() arg is an empty sequence")
  frechet_clamp joint (m ∷ ms) =
      let marginals = m ∷ ms in
      let lower = max (whole 0) (sum marginals - whole (Nat.◌-◌ (length marginals) 1)) in
      ok (min (max joint lower) (min_from m ms))

  abbrev pub zip_with : (F → F → F) → List F → List F → List F
  zip_with g (x ∷ xs) (y ∷ ys) = g x y ∷ zip_with g xs ys
  zip_with g _ _ = []

  -- x == y of two floats
  abbrev pub float_eq : F → F → Bool
  float_eq x y = (x ≤? y) && (y ≤? x)

  -- `sum(outcomes) / n` and `sum((a - mean) ** 2 for a in outcomes)`
  abbrev pub mean : List ℤ → F
  mean outcomes = f.of_ℤ (sum_ℤ outcomes) / whole (length outcomes)

  abbrev pub deviations : List ℤ → List F
  deviations outcomes = map (λ a. f.of_ℤ a - mean outcomes) outcomes

  abbrev pub variance : List ℤ → F
  variance outcomes = sum (map (λ d. f.power d (whole 2)) (deviations outcomes))

  unfoldable pub estimate_correlation : List ℤ → List ℤ → Result F
  estimate_correlation outcomes_a outcomes_b = do
    reject_if (not (length outcomes_a == length outcomes_b)) "outcome series must have equal length"
    reject_if (length outcomes_a == 0) "outcome series must be non-empty"
    let var_a : F = variance outcomes_a
    let var_b : F = variance outcomes_b
    let covariance = sum (zip_with (λ x y. x * y) (deviations outcomes_a) (deviations outcomes_b))
    if float_eq var_a (whole 0) || float_eq var_b (whole 0)
        then ok (whole 0)
        else ok (covariance / f.sqrt (var_a * var_b))

  -- The standard deviations' product of two legs.
  abbrev pub spread_of : F → F → F
  spread_of p q = f.sqrt (p * (whole 1 - p) * q * (whole 1 - q))

  -- The price that a parlay is offered at, or the product of its legs' prices.
  unfoldable pub correlated_parlay_ev : F → F → ℤ → ℤ → F → Option ℤ → Result (ParlayEv F)
  unfolding frechet_clamp
  correlated_parlay_ev prob_a prob_b odds_a odds_b rho parlay_odds = do
    joint_prob ←
        frechet_clamp (prob_a * prob_b + rho * spread_of prob_a prob_b) (prob_a ∷ prob_b ∷ [])
    let independent_prob = prob_a * prob_b
    elim parlay_odds [
      | some offered ↦ do
        implied_prob ← american_to_implied_prob offered
        decimal ← american_to_decimal offered
        let ev = joint_prob * decimal - whole 1
        ok (record {
          joint_probability = joint_prob;
          independent_probability = independent_prob;
          correlation_edge = joint_prob - independent_prob;
          implied_probability = some implied_prob;
          parlay_decimal_odds = none;
          ev = ev;
          ev_pct = ev * whole 100;
        })
      | none ↦ do
        decimal_a ← american_to_decimal odds_a
        decimal_b ← american_to_decimal odds_b
        let parlay_decimal = decimal_a * decimal_b
        let ev = joint_prob * parlay_decimal - whole 1
        ok (record {
          joint_probability = joint_prob;
          independent_probability = independent_prob;
          correlation_edge = joint_prob - independent_prob;
          implied_probability = none;
          parlay_decimal_odds = some parlay_decimal;
          ev = ev;
          ev_pct = ev * whole 100;
        })
    ]

  -- `probs[i]`
  abbrev pub at : List F → ℕ → Result F
  at [] i = raise (other "IndexError")
  at (x ∷ xs) zero = ok x
  at (x ∷ xs) (suc i) = at xs i

  -- The loop over `correlations.items()`.
  unfoldable pub adjust : List F → F → F → List (ℕ × ℕ × F) → Result F
  adjust probs base adjustment [] = ok adjustment
  adjust probs base adjustment ((i, j, rho) ∷ rest) = do
    p ← at probs i
    q ← at probs j
    let other_prod = if whole 0 <? p * q then base / (p * q) else whole 0
    adjust probs base (adjustment + rho * spread_of p q * other_prod) rest

  unfoldable pub multi_leg_parlay_prob : List F → List (ℕ × ℕ × F) → Result F
  unfolding adjust frechet_clamp
  multi_leg_parlay_prob probs correlations = do
    let base = prod probs
    adjustment ← adjust probs base (whole 0) correlations
    frechet_clamp (base + adjustment) probs

  unfoldable pub scaled_joint_probability : F → List F → List F → Result F
  unfolding frechet_clamp
  scaled_joint_probability sim_joint sim_marginals calibrated_marginals = do
    reject_if (not (length sim_marginals == length calibrated_marginals))
        "marginal sequences must have equal length"
    let scale =
        prod
          (zip_with (λ sim cal. cal / max sim (f.decimal 1 6)) sim_marginals calibrated_marginals)
    frechet_clamp (sim_joint * scale) calibrated_marginals

  -- -x
  abbrev pub negate : F → F
  negate x = whole 0 - x

  unfoldable pub total_direction : String → Option String → F
  total_direction market_type side =
      if str_eq market_type "PLAYER_PROP" && (opt_eq side (some "UNDER") || opt_eq side (some "NO"))
      then negate (whole 1)
      else if str_eq market_type "TOTAL" && opt_eq side (some "UNDER")
      then negate (whole 1)
      else whole 1

  -- The team-agreement sign: only where both the leg's side and the player's team are known.
  abbrev pub agreement : Option String → Option String → F
  agreement team_side player_team =
      if is_team_side team_side && is_team_side player_team
      then (if opt_eq team_side player_team then whole 1 else negate (whole 1))
      else whole 1

  -- The body of the `prop_pairs` loop at a leg that is a team market.
  abbrev pub team_prop_prior : F → F → F → Option String → Option String → F
  team_prop_prior base dir_a dir_b team_side player_team =
      if opt_eq team_side (some "DRAW")
      then whole 0
      else base * agreement team_side player_team * dir_a * dir_b

  -- What follows once the pair has a prior of its own.
  unfoldable pub signed_prior : F → PriorLeg → PriorLeg → F
  unfolding total_direction
  signed_prior base a b =
      let dir_a = total_direction a.market a.side in
      let dir_b = total_direction b.market b.side in
      if is_team_market a.market && is_team_market b.market
      then (if opt_eq a.side b.side then base else negate base)
      else if is_team_market a.market
      then team_prop_prior base dir_a dir_b a.side b.player_team
      else if is_team_market b.market
      then team_prop_prior base dir_a dir_b b.side a.player_team
      else base * dir_a * dir_b

  unfoldable pub correlation_prior_normalized : PriorLeg → PriorLeg → Bool → Result F
  unfolding signed_prior same_prop_instance
  correlation_prior_normalized a b same_game =
      if same_game
        && (str_eq a.market b.market
            && (not (opt_eq a.side b.side)
                && (not (str_eq a.market "PLAYER_PROP") || same_prop_instance a b)))
      then raise (value_error opposite_sides)
      else if not same_game
      then ok (whole 0)
      else elim (lookup_pair_of a.market b.market correlation_priors) [
        | none ↦ ok (whole 0)
        | some base ↦ ok (signed_prior base a b)
      ]

  unfoldable pub correlation_prior : PriorLeg → PriorLeg → Bool → Result F
  unfolding correlation_prior_normalized
  correlation_prior leg_a leg_b same_game =
      correlation_prior_normalized (normalized leg_a) (normalized leg_b) same_game
