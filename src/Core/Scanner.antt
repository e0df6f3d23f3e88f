-- ===== src/Core/Scanner.antt =====
-- core/parlay_scanner.py, `select_candidates` and `enumerate_combinations`: the same-game parlays that
-- are evaluated.
pub mod Combos
use bookie_breaker_agent.Prelude.{
  ℕ, zero, suc, String, List, [], ◌∷◌, ◌++◌, map, length, any, all, Option, none, some, Bool, true,
  false, not, ◌&&◌, ◌||◌, leb, ltb, find, put, str_eq, is_set, if◌then◌else◌,
}
use bookie_breaker_agent.Float.{Float, ◌*◌, ◌<?◌, whole}
use bookie_breaker_agent.Edges.Ev.{min_ev_pct_for_league}
use bookie_breaker_agent.Core.Detector.Markets.{option_eq}
use bookie_breaker_agent.Core.Detector.Candidates.{EdgeCandidate}
use bookie_breaker_agent.Core.Parlay.{allowed_markets, is_in}

abbrev pub max_candidate_edges : ℕ
max_candidate_edges = 6

abbrev pub max_combinations : ℕ
max_combinations = 20

abbrev pub max_prop_legs_per_combo : ℕ
max_prop_legs_per_combo = 2

-- `a == b` of texts that may be None
abbrev pub text_eq : Option String → Option String → Bool
text_eq none none = true
text_eq (some a) (some b) = str_eq a b
text_eq _ _ = false

abbrev pub is_some : Option String → Bool
is_some none = false
is_some (some a) = true

-- `xs[:n]`
abbrev pub first_n {ℓ} : {A : Type ℓ} → ℕ → List A → List A
first_n zero xs = []
first_n (suc n) [] = []
first_n (suc n) (x ∷ xs) = x ∷ first_n n xs

-- `itertools.combinations`, in its order
unfoldable pub combinations {ℓ} : {A : Type ℓ} → ℕ → List A → List (List A)
combinations zero xs = [] ∷ []
combinations (suc n) [] = []
combinations (suc n) (x ∷ xs) = map (λ c. x ∷ c) (combinations n xs) ++ combinations (suc n) xs

module _ {ℓ} {F : Type ℓ} where
  -- `edge.market_type == PLAYER_PROP_MARKET`
  abbrev pub is_prop : EdgeCandidate F → Bool
  is_prop edge = str_eq edge.market_type "PLAYER_PROP"

  -- Equal `_combo_key`s: of market, player and statistic.
  unfoldable pub same_combo_key : EdgeCandidate F → EdgeCandidate F → Bool
  same_combo_key a b =
      str_eq a.market_type b.market_type
      && (text_eq a.player_external_id b.player_external_id && text_eq a.stat_type b.stat_type)

  unfoldable pub prop_legs : List (EdgeCandidate F) → ℕ
  prop_legs [] = 0
  prop_legs (edge ∷ edges) = let rest = prop_legs edges in if is_prop edge then suc rest else rest

  -- `len(set(combo_keys)) != len(combo_keys)`
  unfoldable pub repeats : List (EdgeCandidate F) → Bool
  unfolding same_combo_key
  repeats [] = false
  repeats (edge ∷ edges) = any (same_combo_key edge) edges || repeats edges

  module _ ⦃f : Float F⦄ where
    -- Equal `_leg_key`s.
    unfoldable pub same_leg_key : EdgeCandidate F → EdgeCandidate F → Bool
    same_leg_key a b =
        str_eq a.market_type b.market_type
        && (text_eq a.side b.side
            && (option_eq a.line_value b.line_value
                && (text_eq a.player_external_id b.player_external_id
                    && text_eq a.stat_type b.stat_type)))

    -- The edge enters the scan.
    unfoldable pub is_eligible : Bool → F → EdgeCandidate F → Bool
    is_eligible include_props min_edge_ratio edge =
        is_in edge.market_type allowed_markets
        && (is_some edge.side
            && ((not (is_prop edge)
                  || (include_props && (is_set edge.player_external_id && is_set edge.stat_type)))
                && not (
                    edge.expected_value * whole 100
                    <? min_edge_ratio * min_ev_pct_for_league edge.league)))

    -- `best_by_key[key] = edge`: the keys are those of edges.
    abbrev pub replace_if_higher :
        Option (EdgeCandidate F)
        → EdgeCandidate F
        → List (EdgeCandidate F × EdgeCandidate F)
        → List (EdgeCandidate F × EdgeCandidate F)
    replace_if_higher none edge best = put same_leg_key edge edge best
    replace_if_higher (some current) edge best =
        if current.expected_value <? edge.expected_value
        then put same_leg_key edge edge best
        else best

    unfoldable pub best_by_key :
        Bool
        → F
        → List (EdgeCandidate F)
        → List (EdgeCandidate F × EdgeCandidate F)
        → List (EdgeCandidate F × EdgeCandidate F)
    unfolding same_leg_key is_eligible
    best_by_key include_props min_edge_ratio [] best = best
    best_by_key include_props min_edge_ratio (edge ∷ edges) best =
        best_by_key include_props min_edge_ratio edges (
          if is_eligible include_props min_edge_ratio edge
          then replace_if_higher (find same_leg_key edge best) edge best
          else best)

    -- `sorted(…, key=expected_value, reverse=True)`: equal values keep their order.
    unfoldable pub insert_ranked : EdgeCandidate F → List (EdgeCandidate F) → List (EdgeCandidate F)
    insert_ranked edge [] = edge ∷ []
    insert_ranked edge (e ∷ es) =
        let rest = insert_ranked edge es in
        if e.expected_value <? edge.expected_value then edge ∷ e ∷ es else e ∷ rest

    unfoldable pub rank : List (EdgeCandidate F) → List (EdgeCandidate F) → List (EdgeCandidate F)
    unfolding insert_ranked
    rank [] ranked = ranked
    rank (edge ∷ edges) ranked = rank edges (insert_ranked edge ranked)

    unfoldable pub select_candidates : Bool → F → List (EdgeCandidate F) → List (EdgeCandidate F)
    unfolding best_by_key rank
    select_candidates include_props min_edge_ratio edges =
        first_n max_candidate_edges
          (rank (map (λ e. e.1) (best_by_key include_props min_edge_ratio edges [])) [])

    -- Equal `identity` sets of leg keys.
    unfoldable pub same_identity : List (EdgeCandidate F) → List (EdgeCandidate F) → Bool
    unfolding same_leg_key
    same_identity a b = all (λ x. any (same_leg_key x) b) a && all (λ y. any (same_leg_key y) a) b

    -- The loop over the combinations; `seen` holds the identities of the ones kept.
    unfoldable pub keep_combos :
        List (List (EdgeCandidate F))
        → List (List (EdgeCandidate F))
        → List (List (EdgeCandidate F))
    unfolding repeats prop_legs same_identity
    keep_combos [] combos = combos
    keep_combos (c ∷ cs) combos =
        let skipped = keep_combos cs combos in
        let kept = keep_combos cs (combos ++ (c ∷ [])) in
        if leb max_combinations (length combos)
        then combos
        else if repeats c
            || (ltb max_prop_legs_per_combo (prop_legs c) || any (same_identity c) combos)
        then skipped
        else kept

    unfoldable pub enumerate_combinations : List (EdgeCandidate F) → List (List (EdgeCandidate F))
    unfolding combinations keep_combos
    enumerate_combinations candidates =
        keep_combos (combinations 3 candidates) (keep_combos (combinations 2 candidates) [])
