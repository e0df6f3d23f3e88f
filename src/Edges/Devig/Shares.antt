-- ===== src/Edges/Devig/Shares.antt =====
-- What the three methods of de-vigging do to each price: none raises a probability, and two of them
-- keep it from becoming negative.
use bookie_breaker_agent.Prelude.{
  ℕ, ◌≡◌, refl, true, false, not, List, [], ◌∷◌, map, length, all, All, All₂, ltb, ok, ok-injective,
  >>=-eq-ok, reject_if, reject_if-passed, arith,
}
use Prim.Native.Nat
use mathlib.Core.Path.{subst}
use bookie_breaker_agent.Float.{Float, IsFloat, IsPower, ◌-◌, ◌/◌, ◌≤◌, ◌<◌, ◌<?◌, whole, sum}
use bookie_breaker_agent.Float.Order.{le_of_not_lt, le_of_lt, div_nonneg, sub_nonneg}
use bookie_breaker_agent.Edges.Devig.{
  Bracket, DevigMethod, multiplicative, additive, shin, in_unit, validate_many,
  multiplicative_devig_n, additive_devig_n, shin_devig_n, devig_many, find_high, bisect, solve,
  found, failed, out_of_rounds, max_rounds, exponent,
}
use bookie_breaker_agent.Edges.Devig.Root.{bisect-IsInside, find_high-found}

module _ {ℓ} {F : Type ℓ} ⦃f : Float F⦄ where
  -- A raw implied probability that passes the validation.
  abbrev pub IsRaw : F → Type 0
  IsRaw p = (whole 0 < p) × (p < whole 1)

  -- What the validation lets through.
  abbrev pub IsMarket : List F → Type 0
  IsMarket probs = Nat.◌≤◌ 2 (length probs) × All IsRaw probs × ((sum probs <? whole 1) ≡ false)

  all-in_unit : (probs : List F) → all in_unit probs ≡ true → All IsRaw probs
  all-in_unit [] h = tt
  all-in_unit (p ∷ probs) h = ((ground arith, ground arith), all-in_unit probs (ground arith))

  pub validate_many-IsMarket :
      (probs : List F) (u : Unit {0}) → validate_many probs ≡ ok u → IsMarket probs
  unfolding validate_many
  validate_many-IsMarket probs u h =
      let (_, a, h') = >>=-eq-ok (reject_if (ltb (length probs) 2) _) _ h in
      let (_, b, c) = >>=-eq-ok (reject_if (not (all in_unit probs)) _) _ h' in
      let few = reject_if-passed (ltb (length probs) 2) _ _ a in
      let outside = reject_if-passed (not (all in_unit probs)) _ _ b in
      (
        ground arith,
        all-in_unit probs (ground arith),
        reject_if-passed (sum probs <? whole 1) _ _ c,
      )

  -- a share at most the raw probability
  abbrev IsLowered : F → F → Type 0
  IsLowered p share = share ≤ p

  map-IsLowered :
      (g : F → F) (probs : List F)
      → ((p : F) → IsRaw p → g p ≤ p)
      → All IsRaw probs
      → All₂ IsLowered probs (map g probs)
  map-IsLowered g [] lower h = tt
  map-IsLowered g (p ∷ probs) lower (h, hs) = (lower p h, map-IsLowered g probs lower hs)

  module _ (laws : IsFloat F) where
    open laws use {
      le_refl, le_trans, div_anti, div_one, sub_mono, sub_zero, sub_self, decimal_pos, decimal_mono,
      midpoint,
    }

    -- A total that was not rejected is at least 1, so that dividing by it lowers.
    quotient-le : (total p : F) → (total <? whole 1) ≡ false → IsRaw p → p / total ≤ p
    quotient-le total p h (positive, _) = rw (div_one p) at (
        div_anti p (whole 1) total (le_of_lt laws (whole 0) p positive)
          (decimal_pos 1 0 (omega arith) (omega arith)) (le_of_not_lt laws total (whole 1) h))

    minus-le : (excess p : F) → whole 0 ≤ excess → p - excess ≤ p
    minus-le excess p h = rw (sub_zero p) at (sub_mono p p excess (whole 0) (le_refl p) h)

    share_of_excess_nonneg :
        (n : ℕ) (total : F)
        → Nat.◌≤◌ 2 n
        → (total <? whole 1) ≡ false
        → whole 0 ≤ (total - whole 1) / f.decimal n 0
    share_of_excess_nonneg n total h e =
        div_nonneg laws (total - whole 1) (f.decimal n 0)
          (decimal_pos n 0 (omega arith) (omega arith))
          (sub_nonneg laws total (whole 1) (le_of_not_lt laws total (whole 1) e))

    multiplicative_devig_n-IsLowered :
        (probs shares : List F)
        → multiplicative_devig_n probs ≡ ok shares
        → All₂ IsLowered probs shares
    unfolding multiplicative_devig_n
    multiplicative_devig_n-IsLowered probs shares e =
        let (u, v, e') = >>=-eq-ok (validate_many probs) _ e in
        let (_, raw, total) = validate_many-IsMarket probs u v in
        subst (All₂ IsLowered probs) (ok-injective _ shares e')
          (map-IsLowered _ probs (λ p. quotient-le (sum probs) p total) raw)

    additive_devig_n-IsLowered :
        (probs shares : List F) → additive_devig_n probs ≡ ok shares → All₂ IsLowered probs shares
    unfolding additive_devig_n
    additive_devig_n-IsLowered probs shares e =
        let (u, v, e') = >>=-eq-ok (validate_many probs) _ e in
        let (many, raw, total) = validate_many-IsMarket probs u v in
        subst (All₂ IsLowered probs) (ok-injective _ shares e') (
          map-IsLowered _ probs
            (λ p _. minus-le _ p (share_of_excess_nonneg (length probs) (sum probs) many total))
            raw)

    module _ (powers : IsPower F) where
      open powers use {power_one, power_anti}

      map-power_one :
          (probs : List F) → All IsRaw probs → map (λ p. f.power p (whole 1)) probs ≡ probs
      map-power_one [] h = refl
      map-power_one (p ∷ probs) ((positive, _), hs) =
          rw (power_one p positive, map-power_one probs hs) refl

      -- An exponent of at least 1 lowers a probability.
      power-le : (z p : F) → whole 1 ≤ z → IsRaw p → f.power p z ≤ p
      power-le z p h (positive, below) =
          rw (power_one p positive) at
            (power_anti p (whole 1) z positive (le_of_lt laws p (whole 1) below) h)

      -- The overround of a market at an exponent, as Shin's method computes it.
      abbrev overround_of : List F → F → F
      overround_of probs z = sum (map (λ p. f.power p z) probs) - whole 1

      overround_one-nonneg :
          (probs : List F) → IsMarket probs → whole 0 ≤ overround_of probs (whole 1)
      overround_one-nonneg probs (_, raw, total) =
          rw (map-power_one probs raw)
            (sub_nonneg laws (sum probs) (whole 1) (le_of_not_lt laws _ _ total))

      solve-found :
          (overround : F → F) (b : Bracket F) (z : F)
          → solve overround b ≡ ok z
          → (high : F) × (b ≡ found high) × (exponent overround high ≡ z)
      unfolding bisect
      solve-found overround (found high) z h = (high, refl, ok-injective _ z h)
      solve-found overround failed z h = cc
      solve-found overround out_of_rounds z h = cc

      -- The exponent that is found is at least 1, where the search starts.
      one-le-exponent :
          (overround : F → F) (high : F)
          → whole 0 ≤ overround (whole 1)
          → find_high max_rounds overround (whole 2) ≡ found high
          → whole 1 ≤ exponent overround high
      unfolding bisect
      one-le-exponent overround high h e =
          let (two, root) = find_high-found laws max_rounds 2 overround high (omega arith) e in
          let up : whole 1 ≤ high =
            le_trans (whole 1) (whole 2) high (decimal_mono 1 0 2 0 (omega arith)) two in
          let ((between, _, _), left, _) =
            bisect-IsInside laws 200 overround (f.decimal 1 9) (whole 1) high (up, h, root) in
          le_trans (whole 1) _ _ left (midpoint _ _ between).0

      shin_devig_n-IsLowered :
          (probs shares : List F) → shin_devig_n probs ≡ ok shares → All₂ IsLowered probs shares
      unfolding shin_devig_n
      shin_devig_n-IsLowered probs shares e =
          let (u, v, e') = >>=-eq-ok (validate_many probs) _ e in
          let market = validate_many-IsMarket probs u v in
          let overround = overround_of probs in
          let (z, ez, e'') =
            >>=-eq-ok (solve overround (find_high max_rounds overround (whole 2))) _ e' in
          let (high, eh, same) = solve-found overround _ z ez in
          let above : whole 1 ≤ z =
            subst (λ x. whole 1 ≤ x) same
              (one-le-exponent overround high (overround_one-nonneg probs market) eh) in
          subst (All₂ IsLowered probs) (ok-injective _ shares e'')
            (map-IsLowered (λ p. f.power p z) probs (λ p. power-le z p above) (market.1))

      -- By every de-vigging method, each fair probability that comes out is at most the raw
      -- implied probability of the same outcome, and none is added or lost.
      pub devig_many-IsLowered :
          (method : DevigMethod) (probs shares : List F)
          → devig_many method probs ≡ ok shares
          → All₂ IsLowered probs shares
      unfolding devig_many
      devig_many-IsLowered multiplicative probs shares e =
          multiplicative_devig_n-IsLowered probs shares e
      devig_many-IsLowered additive probs shares e = additive_devig_n-IsLowered probs shares e
      devig_many-IsLowered shin probs shares e = shin_devig_n-IsLowered probs shares e
