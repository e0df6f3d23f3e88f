-- ===== src/Core/Parlay/Valid.antt =====
-- What a set of legs that passes `_validate_legs` is, and how the check fails.
use bookie_breaker_agent.Prelude.{
  String, List, [], ◌∷◌, length, any, ◌≡◌, refl, true, false, inl, inr, Option, none, some, Bool,
  not, ◌&&◌, ◌||◌, ltb, ◌≤◌, All, Result, ok, raise, api_error, unprocessable, ◌>>=◌, ◌>>◌,
  >>=-eq-ok, ok-injective, some-injective, lookup, upper, text_of, is_set, str_eq, eq_iff, ap, sym,
  Bool-cases, if◌then◌else◌, arith,
}
use mathlib.Core.Path.{subst}
use bookie_breaker_agent.Float.{Float}
use bookie_breaker_agent.Core.Parlay.{
  ParlayLegSpec, allowed_markets, unsupported_prop_markets, sides_by_market, prop_type_by_side,
  is_in, refuse_if, item_of, is_none, normalized_prop_type, validate_prop_leg, validate_leg,
  is_player_prop, opposes, same_leg, check_each, validate_legs,
}

refuse_if-passed : (t : Bool) (m : String) (u : Unit {0}) → refuse_if t m ≡ ok u → t ≡ false
refuse_if-passed true m u h = cc
refuse_if-passed false m u h = refl

item_of-some {ℓ} : {V : Type ℓ} (o : Option V) (v : V) → item_of o ≡ ok v → o ≡ some v
item_of-some none v h = cc
item_of-some (some w) v h = ap some (ok-injective w v h)

-- The check passes, or raises UnprocessableError.
pub data OnlyUnprocessable {ℓ} {A : Type ℓ} : Result A → Type ℓ where
  passes : (a : A) → OnlyUnprocessable (ok a)
  refuses : (m : String) → OnlyUnprocessable (raise (api_error (unprocessable m)))

>>=-OnlyUnprocessable {ℓ κ} :
    {A : Type ℓ} {B : Type κ} {step : Result A} {next : A → Result B}
    → OnlyUnprocessable step
    → ((a : A) → step ≡ ok a → OnlyUnprocessable (next a))
    → OnlyUnprocessable (step >>= next)
>>=-OnlyUnprocessable (passes a) hs = hs a refl
>>=-OnlyUnprocessable (refuses m) hs = refuses m

refuse_if-OnlyUnprocessable : (t : Bool) (m : String) → OnlyUnprocessable (refuse_if t m)
refuse_if-OnlyUnprocessable true m = refuses m
refuse_if-OnlyUnprocessable false m = passes tt

-- A test before the rest of a check.
refuse_if-then {ℓ} :
    {A : Type ℓ} (t : Bool) (m : String) (rest : Result A)
    → (t ≡ false → OnlyUnprocessable rest)
    → OnlyUnprocessable (refuse_if t m >> rest)
refuse_if-then true m rest h = refuses m
refuse_if-then false m rest h = h refl

-- A key that is among those of the dict has a value.
lookup-any {ℓ} :
    {V : Type ℓ} (key : String) (d : List (String × V))
    → any (λ e. str_eq key (e.0)) d ≡ true
    → (v : V) × (lookup key d ≡ some v)
unfolding lookup
lookup-any key [] h = cc
lookup-any key ((name, v) ∷ d) h = elim (Bool-cases (str_eq name key)) [
  | inl e ↦ (v, rw e refl)
  | inr e ↦
      let (w, g) = lookup-any key d (ground (arith, eq_iff name key, eq_iff key name)) in
      (w, rw (e, g) refl)
]

-- An allowed market has its sides, and a side of a player prop has its type: no look-up fails.
market-sides :
    (market : String)
    → is_in market allowed_markets ≡ true
    → (sides : List String) × (lookup market sides_by_market ≡ some sides)
market-sides market h = lookup-any market sides_by_market (ground arith)

side-prop_type :
    (side : String) (sides : List String)
    → lookup "PLAYER_PROP" sides_by_market ≡ some sides
    → is_in side sides ≡ true
    → (prop_type : String) × (lookup side prop_type_by_side ≡ some prop_type)
unfolding lookup
side-prop_type side sides e h =
    lookup-any side prop_type_by_side
      (subst (λ ss. is_in side ss ≡ true) (sym (some-injective _ sides e)) h)

module _ {ℓ} {F : Type ℓ} where
  -- The market can be in a parlay, the side is one of the market, and a prop names its player and
  -- its statistic.
  pub record IsLeg (spec : ParlayLegSpec F) : Type ℓ where
    pub market_allowed : is_in (upper spec.market_type) allowed_markets ≡ true
    pub sides : List String
    pub sides_of_market : lookup (upper spec.market_type) sides_by_market ≡ some sides
    pub side_allowed : is_in (upper spec.side) sides ≡ true
    pub names_player : is_player_prop spec ≡ true → is_set spec.player_external_id ≡ true
    pub names_stat : is_player_prop spec ≡ true → is_set spec.stat_type ≡ true

  prop_leg-named :
      (t : Bool) (spec : ParlayLegSpec F) (u : Unit {0})
      → (if t then validate_prop_leg spec else ok tt) ≡ ok u
      → t ≡ true
      → (is_set spec.player_external_id ≡ true) × (is_set spec.stat_type ≡ true)
  prop_leg-named false spec u h e = cc
  prop_leg-named true spec u h e =
      let (a, ea, h₁) = >>=-eq-ok (refuse_if (not (is_set spec.player_external_id)) _) _ h in
      let (b, eb, h₂) = >>=-eq-ok (refuse_if (not (is_set spec.stat_type)) _) _ h₁ in
      let pa = refuse_if-passed _ _ a ea in
      let pb = refuse_if-passed _ _ b eb in (ground arith, ground arith)

  validate_leg-IsLeg :
      (spec : ParlayLegSpec F) (u : Unit {0}) → validate_leg spec ≡ ok u → IsLeg spec
  unfolding validate_leg
  validate_leg-IsLeg spec u h =
      let market = upper spec.market_type in
      let (_, _, h₁) = >>=-eq-ok (refuse_if (is_in market unsupported_prop_markets) _) _ h in
      let (a, ea, h₂) = >>=-eq-ok (refuse_if (not (is_in market allowed_markets)) _) _ h₁ in
      let (sides, es, h₃) = >>=-eq-ok (item_of (lookup market sides_by_market)) _ h₂ in
      let (b, eb, h₄) = >>=-eq-ok (refuse_if (not (is_in (upper spec.side) sides)) _) _ h₃ in
      let pa = refuse_if-passed _ _ a ea in
      let pb = refuse_if-passed _ _ b eb in
      record {
        market_allowed = ground arith;
        sides = sides;
        sides_of_market = item_of-some _ sides es;
        side_allowed = ground arith;
        names_player = λ e. (prop_leg-named (is_player_prop spec) spec u h₄ e).0;
        names_stat = λ e. (prop_leg-named (is_player_prop spec) spec u h₄ e).1;
      }

  -- No leg is on the other side of a market of another.
  abbrev pub NoneOpposes : List (ParlayLegSpec F) → Type 0
  NoneOpposes legs = any (λ spec. any (opposes spec) legs) legs ≡ false

  module _ ⦃f : Float F⦄ where
    -- No leg comes again after itself.
    abbrev pub NoneRepeats : List (ParlayLegSpec F) → Type 0
    NoneRepeats [] = Unit
    NoneRepeats (spec ∷ legs) = All (λ leg. same_leg leg spec ≡ false) legs × NoneRepeats legs

    pub record IsParlay (legs : List (ParlayLegSpec F)) : Type ℓ where
      pub at_least_two : 2 ≤ length legs
      pub at_most_six : length legs ≤ 6
      pub all_legs : All IsLeg legs
      pub none_repeats : NoneRepeats legs
      pub none_opposes : NoneOpposes legs

    -- Legs that are apart from the ones seen and one more.
    unseen-split :
        (spec : ParlayLegSpec F) (seen legs : List (ParlayLegSpec F))
        → All (λ leg. any (same_leg leg) (spec ∷ seen) ≡ false) legs
        → All (λ leg. same_leg leg spec ≡ false) legs
          × All (λ leg. any (same_leg leg) seen ≡ false) legs
    unseen-split spec seen [] h = (tt, tt)
    unseen-split spec seen (leg ∷ legs) (h, hs) =
        let (first, others) = unseen-split spec seen legs hs in
        ((ground arith, first), (ground arith, others))

    check_each-passed :
        (seen legs : List (ParlayLegSpec F)) (u : Unit {0})
        → check_each seen legs ≡ ok u
        → All IsLeg legs × NoneRepeats legs × All (λ leg. any (same_leg leg) seen ≡ false) legs
    unfolding check_each
    check_each-passed seen [] u h = (tt, tt, tt)
    check_each-passed seen (spec ∷ legs) u h =
        let (a, ea, h₁) = >>=-eq-ok (validate_leg spec) _ h in
        let (b, eb, h₂) = >>=-eq-ok (refuse_if (any (same_leg spec) seen) _) _ h₁ in
        let (all, apart, unseen) = check_each-passed (spec ∷ seen) legs u h₂ in
        let (first, others) = unseen-split spec seen legs unseen in
        ((validate_leg-IsLeg spec a ea, all), (first, apart), (refuse_if-passed _ _ b eb, others))

    -- Legs that are accepted are two to six, each is of an allowed market and side and names its
    -- player and statistic if it is a prop, no two have one identity, and no two are on opposite
    -- sides of a team market.
    pub validate_legs-IsParlay :
        (legs : List (ParlayLegSpec F)) (u : Unit {0}) → validate_legs legs ≡ ok u → IsParlay legs
    unfolding validate_legs
    validate_legs-IsParlay legs u h =
        let (a, ea, h₁) =
          >>=-eq-ok (refuse_if (ltb (length legs) 2 || ltb 6 (length legs)) _) _ h in
        let (b, eb, h₂) = >>=-eq-ok (check_each [] legs) _ h₁ in
        let (all, apart, _) = check_each-passed [] legs b eb in
        let count = refuse_if-passed _ _ a ea in
        record {
          at_least_two = ground arith;
          at_most_six = ground arith;
          all_legs = all;
          none_repeats = apart;
          none_opposes = refuse_if-passed _ _ u h₂;
        }

module _ {ℓ} {F : Type ℓ} where
  validate_prop_leg-OnlyUnprocessable :
      (spec : ParlayLegSpec F) (prop_type : String)
      → lookup (upper spec.side) prop_type_by_side ≡ some prop_type
      → OnlyUnprocessable (validate_prop_leg spec)
  unfolding normalized_prop_type
  validate_prop_leg-OnlyUnprocessable spec prop_type h =
      let mismatch =
        is_set spec.prop_type && not (str_eq (upper (text_of spec.prop_type)) prop_type) in
      rw h (
        refuse_if-then (not (is_set spec.player_external_id))
          "PLAYER_PROP legs require player_external_id" _
          (λ _.
            refuse_if-then (not (is_set spec.stat_type)) "PLAYER_PROP legs require stat_type" _
              (λ _.
                >>=-OnlyUnprocessable
                  (refuse_if-then mismatch "side does not match prop_type" (ok prop_type)
                    (λ _. passes prop_type))
                  (λ found _.
                    refuse_if-then (str_eq found "YES_NO" && not (is_none spec.line_value))
                      "YES_NO prop legs take no line_value" _
                      (λ _.
                        refuse_if-OnlyUnprocessable
                          (str_eq found "OVER_UNDER" && is_none spec.line_value)
                          "OVER_UNDER prop legs require a line_value")))))

  prop_stage :
      (t : Bool) (spec : ParlayLegSpec F)
      → (t ≡ true → (p : String) × (lookup (upper spec.side) prop_type_by_side ≡ some p))
      → OnlyUnprocessable (if t then validate_prop_leg spec else ok tt)
  prop_stage false spec h = passes tt
  prop_stage true spec h = let (p, e) = h refl in validate_prop_leg-OnlyUnprocessable spec p e

  validate_leg-OnlyUnprocessable : (spec : ParlayLegSpec F) → OnlyUnprocessable (validate_leg spec)
  unfolding validate_leg
  validate_leg-OnlyUnprocessable spec =
      let market = upper spec.market_type in
      refuse_if-then (is_in market unsupported_prop_markets)
        "market_type is not supported in parlays" _
        (λ _.
          refuse_if-then (not (is_in market allowed_markets))
            "market_type is not supported in parlays" _
            (λ allowed.
              let (sides, e) = market-sides market (ground arith) in
              rw e (
                refuse_if-then (not (is_in (upper spec.side) sides)) "side is invalid" _ (λ inside.
                  prop_stage (str_eq market "PLAYER_PROP") spec (λ t.
                    side-prop_type (upper spec.side) sides
                      (subst (λ z. lookup z sides_by_market ≡ some sides)
                        ((eq_iff market "PLAYER_PROP").0 t) e)
                      (ground arith))))))

  module _ ⦃f : Float F⦄ where
    check_each-OnlyUnprocessable :
        (seen legs : List (ParlayLegSpec F)) → OnlyUnprocessable (check_each seen legs)
    unfolding check_each
    check_each-OnlyUnprocessable seen [] = passes tt
    check_each-OnlyUnprocessable seen (spec ∷ legs) =
        >>=-OnlyUnprocessable (validate_leg-OnlyUnprocessable spec) (λ _ _.
          refuse_if-then (any (same_leg spec) seen) "duplicate or mutually exclusive leg" _
            (λ _. check_each-OnlyUnprocessable (spec ∷ seen) legs))

    -- Any set of legs is accepted or refused with an UnprocessableError: no look-up fails.
    pub validate_legs-OnlyUnprocessable :
        (legs : List (ParlayLegSpec F)) → OnlyUnprocessable (validate_legs legs)
    unfolding validate_legs
    validate_legs-OnlyUnprocessable legs =
        refuse_if-then (ltb (length legs) 2 || ltb 6 (length legs)) "parlays take 2-6 legs" _ (λ _.
          >>=-OnlyUnprocessable (check_each-OnlyUnprocessable [] legs) (λ _ _.
            refuse_if-OnlyUnprocessable (any (λ spec. any (opposes spec) legs) legs)
              "legs on opposite sides of the same market are mutually exclusive"))
