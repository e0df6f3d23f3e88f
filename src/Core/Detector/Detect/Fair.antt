-- ===== src/Core/Detector/Detect/Fair.antt =====
-- The fair probability of a line: the market's prices without the bookmaker's margin.
use bookie_breaker_agent.Prelude.{
  List, [], ◌∷◌, ◌≡◌, refl, Option, none, some, Result, ok, raise, value_error, api_error, other,
  ok-injective, some-injective, >>=-eq-ok, All,
}
use mathlib.Core.Path.{subst}
use bookie_breaker_agent.Float.{Float, ◌+◌, ◌/◌, whole, check_divisor}
use bookie_breaker_agent.Clients.Payloads.{LineSnapshot}
use bookie_breaker_agent.Edges.Odds.{american_to_implied_prob}
use bookie_breaker_agent.Core.Detector.Markets.{
  map_result, none_on_value_error, zip_strict, zip_probs, true_probs, devig_group,
}
use bookie_breaker_agent.Core.Detector.Candidates.{Detector}
use bookie_breaker_agent.Core.Detector.Detect.{Priced, price_group}

-- The line stands in the first list where the probability stands in the second.
pub data IsAt {ℓ} {F : Type ℓ} (priced : Priced F) : List (LineSnapshot F) → List F → Type ℓ where
  at_head :
      (lines : List (LineSnapshot F)) (ps : List F) → IsAt priced (priced.0 ∷ lines) (priced.1 ∷ ps)
  at_tail :
      (line : LineSnapshot F) (p : F) (lines : List (LineSnapshot F)) (ps : List F)
      → IsAt priced lines ps
      → IsAt priced (line ∷ lines) (p ∷ ps)

uncaught {ℓ} :
    {A : Type ℓ} (step : Result A) (a : A) → none_on_value_error step ≡ ok (some a) → step ≡ ok a
uncaught (ok b) a h = cc
uncaught (raise (value_error m)) a h = cc
uncaught (raise (api_error e)) a h = cc
uncaught (raise (other m)) a h = cc

module _ {ℓ} {F : Type ℓ} ⦃f : Float F⦄ where
  -- The implied probability of the line's own odds.
  abbrev pub IsRaw : LineSnapshot F → F → Type ℓ
  IsRaw line raw = american_to_implied_prob line.odds_american ≡ ok raw

  -- The implied probabilities of the lines' own odds, in order.
  abbrev pub AreRaw : List (LineSnapshot F) → List F → Type ℓ
  AreRaw lines raws =
      map_result (λ (line : LineSnapshot F). american_to_implied_prob line.odds_american) lines
      ≡ ok raws

  -- A line alone is discounted by the haircut; the lines of a market are de-vigged together, from
  -- the implied probabilities of all of them.
  pub data IsFair (detector : Detector F) (lines : List (LineSnapshot F)) (priced : Priced F)
      : Type ℓ where
    alone :
        (raw : F)
        → lines ≡ priced.0 ∷ []
        → IsRaw (priced.0) raw
        → priced.1 ≡ raw / (whole 1 + detector.single_sided_haircut)
        → IsFair detector lines priced
    in_market :
        (raws fair : List F)
        → AreRaw lines raws
        → true_probs detector.devig_method raws ≡ ok fair
        → IsAt priced lines fair
        → IsFair detector lines priced

  All-later :
      (line : LineSnapshot F) (p : F) (lines : List (LineSnapshot F)) (ps : List F)
      (all : List (Priced F))
      → All (λ priced. IsAt priced lines ps) all
      → All (λ priced. IsAt priced (line ∷ lines) (p ∷ ps)) all
  All-later line p lines ps [] h = tt
  All-later line p lines ps (e ∷ all) (h, hs) =
      (at_tail line p lines ps h, All-later line p lines ps all hs)

  zip_strict-IsAt :
      (lines : List (LineSnapshot F)) (ps : List F) (all : List (Priced F))
      → zip_strict lines ps ≡ ok all
      → All (λ priced. IsAt priced lines ps) all
  zip_strict-IsAt [] [] all h = subst (All _) (ok-injective [] all h) tt
  zip_strict-IsAt [] (p ∷ ps) all h = cc
  zip_strict-IsAt (line ∷ lines) [] all h = cc
  zip_strict-IsAt (line ∷ lines) (p ∷ ps) all h =
      let (rest, e, h₁) = >>=-eq-ok (zip_strict lines ps) _ h in
      subst (All (λ priced. IsAt priced (line ∷ lines) (p ∷ ps))) (ok-injective _ all h₁)
        (at_head lines ps, All-later line p lines ps rest (zip_strict-IsAt lines ps rest e))

  All-IsFair :
      (detector : Detector F) (lines : List (LineSnapshot F)) (raws fair : List F)
      (all : List (Priced F))
      → AreRaw lines raws
      → true_probs detector.devig_method raws ≡ ok fair
      → All (λ priced. IsAt priced lines fair) all
      → All (IsFair detector lines) all
  All-IsFair detector lines raws fair [] r t h = tt
  All-IsFair detector lines raws fair (e ∷ all) r t (h, hs) =
      (in_market raws fair r t h, All-IsFair detector lines raws fair all r t hs)

  -- The result of a group, by what the methods found.
  zipped-IsFair :
      (detector : Detector F) (lines : List (LineSnapshot F)) (raws : List F)
      (probs : Option (List F)) (all : List (Priced F))
      → AreRaw lines raws
      → none_on_value_error (true_probs detector.devig_method raws) ≡ ok probs
      → zip_probs lines probs ≡ ok (some all)
      → All (IsFair detector lines) all
  zipped-IsFair detector lines raws none all r t h = cc
  zipped-IsFair detector lines raws (some ps) all r t h =
      let (z, e, h₁) = >>=-eq-ok (zip_strict lines ps) _ h in
      subst (All (IsFair detector lines)) (some-injective z all (ok-injective _ _ h₁)) (
        All-IsFair detector lines raws ps z r
          (uncaught (true_probs detector.devig_method raws) ps t) (zip_strict-IsAt lines ps z e))

  devig_group-IsFair :
      (detector : Detector F) (lines : List (LineSnapshot F)) (all : List (Priced F))
      → devig_group detector.devig_method lines ≡ ok (some all)
      → All (IsFair detector lines) all
  unfolding devig_group
  devig_group-IsFair detector lines all h =
      let (raws, e, h₁) =
        >>=-eq-ok
          (map_result (λ (l : LineSnapshot F). american_to_implied_prob l.odds_american) lines) _
          h in
      let (probs, t, h₂) =
        >>=-eq-ok (none_on_value_error (true_probs detector.devig_method raws)) _ h₁ in
      zipped-IsFair detector lines raws probs all e t h₂

  -- Every line that is priced has its fair probability.
  pub price_group-IsFair :
      (detector : Detector F) (lines : List (LineSnapshot F)) (all : List (Priced F))
      → price_group detector lines ≡ ok (some all)
      → All (IsFair detector lines) all
  unfolding price_group
  price_group-IsFair detector [] all h = devig_group-IsFair detector [] all h
  price_group-IsFair detector (only ∷ []) all h =
      let (raw, e, h₁) = >>=-eq-ok (american_to_implied_prob only.odds_american) _ h in
      let (_, _, h₂) = >>=-eq-ok (check_divisor (whole 1 + detector.single_sided_haircut)) _ h₁ in
      subst (All (IsFair detector (only ∷ []))) (some-injective _ all (ok-injective _ _ h₂))
        (alone raw refl e refl, tt)
  price_group-IsFair detector (a ∷ b ∷ lines) all h =
      devig_group-IsFair detector (a ∷ b ∷ lines) all h
