-- ===== src/Edges/Correlation/Prior.antt =====
-- The prior correlation of two legs does not depend on which one is named first.
use bookie_breaker_agent.Prelude.{
  ◌≡◌, refl, ap, ◌∙◌, true, not, ◌&&◌, ◌||◌, ◌⊎◌, inl, inr, Bool, Bool-cases, if◌then◌else◌, String,
  str_eq, lower, eq_iff, Option, none, some, Result, ok, raise, value_error, List, [], ◌∷◌, arith,
}
use bookie_breaker_agent.Float.{Float, IsFloat, ◌*◌, whole}
use bookie_breaker_agent.Edges.Correlation.{
  opposite_sides, PriorLeg, or_empty, team_prop_prior, opt_eq, same_pair, is_team_market,
  same_prop_instance, lookup_pair_of, negate, total_direction, signed_prior,
  correlation_prior_normalized, correlation_prior, normalized, correlation_priors, agreement,
}

str_eq_comm : (a b : String) → str_eq a b ≡ str_eq b a
str_eq_comm a b = ground (arith, eq_iff a b, eq_iff b a)

opt_eq_comm : (a b : Option String) → opt_eq a b ≡ opt_eq b a
opt_eq_comm none none = refl
opt_eq_comm none (some b) = refl
opt_eq_comm (some a) none = refl
opt_eq_comm (some a) (some b) = str_eq_comm a b

same_pair_comm : (a b x y : String) → same_pair a b x y ≡ same_pair b a x y
same_pair_comm a b x y = ground arith

opt_eq-none : (a b : Option String) → opt_eq a b ≡ true → opt_eq a none ≡ opt_eq b none
opt_eq-none none none h = refl
opt_eq-none none (some b) h = cc
opt_eq-none (some a) none h = cc
opt_eq-none (some a) (some b) h = refl

same_prop_instance_comm : (a b : PriorLeg) → same_prop_instance a b ≡ same_prop_instance b a
unfolding same_prop_instance
same_prop_instance_comm a b = ground (
  arith,
  opt_eq_comm (a.player) (b.player),
  opt_eq-none (a.player) (b.player),
  str_eq_comm (lower (or_empty a.stat)) (lower (or_empty b.stat)),
)

str_eq-same : (a b c : String) → str_eq a b ≡ true → str_eq a c ≡ str_eq b c
str_eq-same a b c h = ap (λ x. str_eq x c) ((eq_iff a b).0 h)

-- The test of `correlation_prior` for opposite sides of one market.
abbrev is_opposite : PriorLeg → PriorLeg → Bool → Bool
is_opposite a b same_game =
    same_game
    && (str_eq a.market b.market
        && (not (opt_eq a.side b.side)
            && (not (str_eq a.market "PLAYER_PROP") || same_prop_instance a b)))

is_opposite_comm :
    (a b : PriorLeg) (same_game : Bool) → is_opposite a b same_game ≡ is_opposite b a same_game
is_opposite_comm a b same_game = ground (
  arith,
  str_eq_comm (a.market) (b.market),
  opt_eq_comm (a.side) (b.side),
  same_prop_instance_comm a b,
  str_eq-same (a.market) (b.market) "PLAYER_PROP",
)

module _ {ℓ} {F : Type ℓ} ⦃f : Float F⦄ where
  lookup_pair_of_comm :
      (a b : String) (priors : List (String × String × F))
      → lookup_pair_of a b priors ≡ lookup_pair_of b a priors
  lookup_pair_of_comm a b [] = refl
  lookup_pair_of_comm a b ((x, y, v) ∷ rest) =
      rw (same_pair_comm a b x y, lookup_pair_of_comm a b rest) refl

  -- 1 or -1
  abbrev IsSign : F → Type ℓ
  IsSign x = (x ≡ whole 1) ⊎ (x ≡ negate (whole 1))

  total_direction-IsSign :
      (market : String) (side : Option String) → IsSign (total_direction market side)
  unfolding total_direction
  total_direction-IsSign market side =
      elim (Bool-cases
        (str_eq market "PLAYER_PROP" && (opt_eq side (some "UNDER") || opt_eq side (some "NO")))) [
          | inl e ↦ rw e (inr refl)
          | inr e ↦ elim (Bool-cases (str_eq market "TOTAL" && opt_eq side (some "UNDER"))) [
            | inl g ↦ rw (e, g) (inr refl)
            | inr g ↦ rw (e, g) (inl refl)
          ]
        ]

  module _ (laws : IsFloat F) where
    open laws use {mul_one}

    mul-mul-IsSign_comm : (base x y : F) → IsSign x → IsSign y → base * x * y ≡ base * y * x
    mul-mul-IsSign_comm base x y (inl h) k = rw (h, mul_one base, mul_one (base * y)) refl
    mul-mul-IsSign_comm base x y (inr h) (inl k) = rw (k, mul_one base, mul_one (base * x)) refl
    mul-mul-IsSign_comm base x y (inr h) (inr k) = rw (h, k) refl

    directions_comm :
        (base : F) (a b : PriorLeg)
        → base * total_direction a.market a.side * total_direction b.market b.side
          ≡ base * total_direction b.market b.side * total_direction a.market a.side
    directions_comm base a b =
        mul-mul-IsSign_comm base _ _ (total_direction-IsSign a.market a.side)
          (total_direction-IsSign b.market b.side)

    team_prop_prior_comm :
        (base x y : F) (side team : Option String)
        → IsSign x
        → IsSign y
        → team_prop_prior base x y side team ≡ team_prop_prior base y x side team
    team_prop_prior_comm base x y side team h k = elim (Bool-cases (opt_eq side (some "DRAW"))) [
      | inl e ↦ rw e refl
      | inr e ↦ rw e (mul-mul-IsSign_comm (base * agreement side team) x y h k)
    ]

    signed_prior_comm : (base : F) (a b : PriorLeg) → signed_prior base a b ≡ signed_prior base b a
    unfolding signed_prior
    signed_prior_comm base a b = elim (Bool-cases (is_team_market a.market)) [
      | inl e ↦ elim (Bool-cases (is_team_market b.market)) [
        | inl g ↦ rw (e, g, opt_eq_comm (a.side) (b.side)) refl
        | inr g ↦
            rw (e, g)
              (team_prop_prior_comm base _ _ a.side b.player_team
                (total_direction-IsSign a.market a.side) (total_direction-IsSign b.market b.side))
      ]
      | inr e ↦ elim (Bool-cases (is_team_market b.market)) [
        | inl g ↦
            rw (e, g)
              (team_prop_prior_comm base _ _ b.side a.player_team
                (total_direction-IsSign a.market a.side) (total_direction-IsSign b.market b.side))
        | inr g ↦ rw (e, g) (directions_comm base a b)
      ]
    ]

    -- The last step of `correlation_prior`, at what the table holds.
    abbrev prior_of : PriorLeg → PriorLeg → Option F → Result F
    prior_of a b none = ok (whole 0)
    prior_of a b (some base) = ok (signed_prior base a b)

    prior_of_comm : (a b : PriorLeg) (prior : Option F) → prior_of a b prior ≡ prior_of b a prior
    prior_of_comm a b none = refl
    prior_of_comm a b (some base) = ap ok (signed_prior_comm base a b)

    looked_up_comm :
        (a b : PriorLeg)
        → prior_of a b (lookup_pair_of a.market b.market correlation_priors)
          ≡ prior_of b a (lookup_pair_of b.market a.market correlation_priors)
    looked_up_comm a b =
        prior_of_comm a b _
        ∙ ap (prior_of b a) (lookup_pair_of_comm a.market b.market correlation_priors)

    -- What the tests of `correlation_prior` make of the last step.
    abbrev prior_if : Bool → Bool → Result F → Result F
    prior_if is_error same_game prior =
        if is_error
        then raise (value_error opposite_sides)
        else if not same_game
        then ok (whole 0)
        else prior

    -- The prior correlation of two legs, or the error for opposite sides of one market, does not
    -- depend on the order of the legs.
    pub correlation_prior_comm :
        (a b : PriorLeg) (same_game : Bool)
        → correlation_prior {F = F} a b same_game ≡ correlation_prior b a same_game
    unfolding correlation_prior correlation_prior_normalized
    correlation_prior_comm a b same_game i =
        prior_if (is_opposite_comm (normalized a) (normalized b) same_game i) same_game
          (looked_up_comm (normalized a) (normalized b) i)
