-- ===== src/Core/Parlay/Joint.antt =====
-- core/parlay.py, `_joint_probability` and `_group_joint`: the probability that all legs win, from
-- the simulation of each game or from the prior correlations. `simulation` stands for the two calls
-- of the simulation service for a game.
pub mod Bounds
use bookie_breaker_agent.Prelude.{
  ℕ, zero, suc, String, List, [], ◌∷◌, ◌++◌, map, length, Option, none, some, Bool, true, false,
  not, Result, ok, raise, api_error, other, ◌>>=◌, lookup, all, is_set, str_eq, if◌then◌else◌, put,
  find,
}
use bookie_breaker_agent.Float.{Float, ◌*◌, whole}
use bookie_breaker_agent.Edges.Correlation.{
  PriorLeg, correlation_prior, multi_leg_parlay_prob, scaled_joint_probability,
}
use bookie_breaker_agent.Core.Parlay.{is_in, item_of}
use bookie_breaker_agent.Core.Parlay.Evaluate.{EvaluatedLeg}

abbrev pub method_independent : String
method_independent = "independent"

abbrev pub method_simulation : String
method_simulation = "simulation_scaled"

abbrev pub method_prior : String
method_prior = "prior_first_order"

abbrev pub method_mixed : String
method_mixed = "mixed"

-- The fields of the simulation's answer that are read.
pub record CorrelationsData {ℓ} (F : Type ℓ) : Type ℓ where
  pub legs : List String
  pub matrix : List (List F)
  pub joint_probability : Option F
  pub marginals : List (String × F)

module _ {ℓ} {A : Type ℓ} where
  -- `xs[i]`, and none for an IndexError
  abbrev pub nth : List A → ℕ → Option A
  nth [] i = none
  nth (x ∷ xs) zero = some x
  nth (x ∷ xs) (suc i) = nth xs i

  abbrev pub number_from : ℕ → List A → List (ℕ × A)
  number_from n [] = []
  number_from n (x ∷ xs) = (n, x) ∷ number_from (suc n) xs

  -- The pairs of an earlier and a later entry.
  abbrev pub pairs : List A → List (A × A)
  pairs [] = []
  pairs (x ∷ xs) = map (λ y. (x, y)) xs ++ pairs xs

-- `legs.index(key)`, from the position n on, if the key is there
abbrev pub position : ℕ → String → List String → Option ℕ
position n key [] = none
position n key (leg ∷ legs) =
    let later = position (suc n) key legs in if str_eq leg key then some n else later

-- The method of a parlay, from the methods of its groups.
unfoldable pub method_of : List String → String
method_of [] = method_independent
method_of (m ∷ ms) = if all (str_eq m) ms then m else method_mixed

module _ {ℓ} {F : Type ℓ} ⦃f : Float F⦄ where
  abbrev pub prior_leg : EvaluatedLeg F → PriorLeg
  prior_leg leg = record {
    market = leg.market_type;
    side = some leg.side;
    player = leg.player_external_id;
    stat = leg.stat_type;
    player_team = leg.player_team;
  }

  abbrev pub entry_of : Option (List F) → ℕ → Option F
  entry_of none pos_b = none
  entry_of (some row) pos_b = nth row pos_b

  -- `matrix[pos_a][pos_b]`, and none when a position is None or an IndexError is raised
  abbrev pub matrix_entry : List (List F) → Option ℕ → Option ℕ → Option F
  matrix_entry matrix (some pos_a) (some pos_b) = entry_of (nth matrix pos_a) pos_b
  matrix_entry _ _ _ = none

  abbrev pub add_rho : ℕ → ℕ → Option F → List (ℕ × ℕ × F) → List (ℕ × ℕ × F)
  add_rho a b (some rho) rhos = (a, b, rho) ∷ rhos
  add_rho a b none rhos = rhos

  unfoldable pub matrix_rhos :
      List String → List (List F) → List ((ℕ × String) × (ℕ × String)) → List (ℕ × ℕ × F)
  matrix_rhos legs matrix [] = []
  matrix_rhos legs matrix (((a, key_a), (b, key_b)) ∷ rest) =
      add_rho a b (matrix_entry matrix (position 0 key_a legs) (position 0 key_b legs))
        (matrix_rhos legs matrix rest)

  unfoldable pub prior_rhos :
      List ((ℕ × EvaluatedLeg F) × (ℕ × EvaluatedLeg F)) → Result (List (ℕ × ℕ × F))
  prior_rhos [] = ok []
  prior_rhos (((a, leg_a), (b, leg_b)) ∷ rest) = do
    rho ← correlation_prior (prior_leg leg_a) (prior_leg leg_b) true
    rhos ← prior_rhos rest
    ok ((a, b, rho) ∷ rhos)

  abbrev pub add_marginal : Option F → Option (List F) → Option (List F)
  add_marginal (some m) (some ms) = some (m ∷ ms)
  add_marginal _ _ = none

  -- `[data.marginals[key] for key in leg_keys]`, and none when a key is missing
  abbrev pub marginals_of : List (String × F) → List String → Option (List F)
  marginals_of marginals [] = some []
  marginals_of marginals (key ∷ keys) =
      add_marginal (lookup key marginals) (marginals_of marginals keys)

  abbrev pub calibrated : List (EvaluatedLeg F) → List F
  calibrated legs = map (λ leg. leg.predicted_probability) legs

  abbrev pub leg_keys : List (EvaluatedLeg F) → List String
  leg_keys legs = map (λ leg. leg.sim_leg_key) legs

  -- The prior path.
  unfoldable pub prior_joint : List (EvaluatedLeg F) → Result (F × List (ℕ × ℕ × F) × String)
  unfolding prior_rhos
  prior_joint group_legs = do
    rhos ← prior_rhos (pairs (number_from 0 group_legs))
    joint ← multi_leg_parlay_prob (calibrated group_legs) rhos
    ok (joint, rhos, method_prior)

  -- The simulation path, with the joint probability and the marginals if they are all there.
  unfoldable pub simulated_joint :
      CorrelationsData F
      → Option F
      → Option (List F)
      → List (EvaluatedLeg F)
      → Result (F × List (ℕ × ℕ × F) × String)
  unfolding matrix_rhos prior_joint
  simulated_joint found (some sim_joint) (some sim_marginals) group_legs = do
    joint ← scaled_joint_probability sim_joint sim_marginals (calibrated group_legs)
    let rhos = matrix_rhos found.legs found.matrix (pairs (number_from 0 (leg_keys group_legs)))
    ok (joint, rhos, method_simulation)
  simulated_joint found _ _ group_legs = prior_joint group_legs

  -- `_group_joint`, from what the simulation answers
  unfoldable pub group_joint :
      Result (CorrelationsData F) → List (EvaluatedLeg F) → Result (F × List (ℕ × ℕ × F) × String)
  unfolding simulated_joint prior_joint
  group_joint (ok found) group_legs =
      simulated_joint found found.joint_probability
        (marginals_of found.marginals (leg_keys group_legs)) group_legs
  group_joint (raise (api_error e)) group_legs = prior_joint group_legs
  group_joint (raise e) group_legs = raise e
