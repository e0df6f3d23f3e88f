-- ===== src/Core/Detector/Detect/Best.antt =====
-- The best price wins: no line of the game makes a candidate that pays more than the edge returned
-- for its market, side, line, player and statistic.
use bookie_breaker_agent.Prelude.{
  String, List, [], ◌∷◌, ◌≡◌, refl, true, inl, inr, Option, none, some, ok, ok-injective,
  some-injective, >>=-eq-ok, Bool-cases, Any, here, there, find, put, arith, eq_refl, sym, ◌∙◌,
}
use mathlib.Core.Path.{subst}
use bookie_breaker_agent.Float.{Float, IsFloat, ◌≤◌, ◌<?◌}
use bookie_breaker_agent.Float.Order.{le_of_lt, le_of_not_lt}
use bookie_breaker_agent.Float.Time.{DateTime}
use bookie_breaker_agent.Edges.Odds.{american_to_decimal}
use bookie_breaker_agent.Core.Detector.Markets.{Sides}
use bookie_breaker_agent.Core.Detector.Markets.Groups.{option_eq-IsEquality}
use bookie_breaker_agent.Core.Detector.Matching.{Maps}
use bookie_breaker_agent.Core.Detector.Candidates.{EdgeCandidate, Detector, Context}
use bookie_breaker_agent.Core.Detector.Detect.{
  Best, Priced, CandidateKey, values, same_key, candidate_key, price_group, replace_if_better,
  keep_best, offer, add_lines, add_priced, add_groups,
}

module _ {ℓ} {F : Type ℓ} ⦃f : Float F⦄ where
  -- `d` pays at least what `c` pays.
  abbrev pub PaysAtLeast : EdgeCandidate F → EdgeCandidate F → Type ℓ
  PaysAtLeast c d =
      (a b : F)
      → american_to_decimal c.odds_american ≡ ok a
      → american_to_decimal d.odds_american ≡ ok b
      → a ≤ b

  abbrev pub Covers : EdgeCandidate F → CandidateKey F × EdgeCandidate F → Type ℓ
  Covers c entry = (same_key (entry.0) (candidate_key c) ≡ true) × PaysAtLeast c (entry.1)

  module _ (laws : IsFloat F) where
    open laws use {le_refl, le_trans}

    pub same_key_refl : (a : CandidateKey F) → same_key a a ≡ true
    same_key_refl a = ground (
      arith,
      (option_eq-IsEquality laws).same_refl a.line,
      eq_refl a.market,
      eq_refl a.side,
      eq_refl a.player,
      eq_refl a.stat,
    )

    PaysAtLeast-refl : (c : EdgeCandidate F) → PaysAtLeast c c
    PaysAtLeast-refl c a b ea eb = subst (λ z. z ≤ b) (ok-injective b a (sym eb ∙ ea)) (le_refl b)

    -- What is assigned is there.
    put-Covers_new :
        (c : EdgeCandidate F) (best : Best F)
        → Any (Covers c) (put same_key (candidate_key c) c best)
    unfolding put
    put-Covers_new c [] = here _ _ (same_key_refl (candidate_key c), PaysAtLeast-refl c)
    put-Covers_new c ((k, v) ∷ best) = elim (Bool-cases (same_key k (candidate_key c))) [
      | inl e ↦ rw e (here _ _ (e, PaysAtLeast-refl c))
      | inr e ↦ rw e (there _ _ (put-Covers_new c best))
    ]

    -- An assignment that pays at least what the old value paid keeps what was covered.
    put-Covers_old :
        (c d : EdgeCandidate F) (best : Best F)
        → ((old : EdgeCandidate F)
            → find same_key (candidate_key c) best ≡ some old
            → PaysAtLeast d old
            → PaysAtLeast d c)
        → Any (Covers d) best
        → Any (Covers d) (put same_key (candidate_key c) c best)
    unfolding put find
    put-Covers_old c d [] better h = elim h [ ]
    put-Covers_old c d ((k, v) ∷ best) better (here _ _ (s, p)) =
        elim (Bool-cases (same_key k (candidate_key c))) [
          | inl e ↦ rw e (here _ _ (s, better v (rw e refl) p))
          | inr e ↦ rw e (here _ _ (s, p))
        ]
    put-Covers_old c d ((k, v) ∷ best) better (there _ _ h) =
        elim (Bool-cases (same_key k (candidate_key c))) [
          | inl e ↦ rw e (there _ _ h)
          | inr e ↦ rw e (there _ _ (put-Covers_old c d best (λ old o. better old (rw e o)) h))
        ]

    -- A value that is found covers what pays no more.
    find-Covers :
        (c old : EdgeCandidate F) (best : Best F)
        → find same_key (candidate_key c) best ≡ some old
        → PaysAtLeast c old
        → Any (Covers c) best
    unfolding find
    find-Covers c old [] e p = cc
    find-Covers c old ((k, v) ∷ best) e p = elim (Bool-cases (same_key k (candidate_key c))) [
      | inl s ↦ here _ _ (s, subst (PaysAtLeast c) (sym (some-injective v old (rw s at e))) p)
      | inr s ↦ there _ _ (find-Covers c old best (rw s at e) p)
    ]

    abbrev Grows : Best F → Best F → Type ℓ
    Grows best kept = (d : EdgeCandidate F) → Any (Covers d) best → Any (Covers d) kept

    replace_if_better-Covers :
        (c : EdgeCandidate F) (old : Option (EdgeCandidate F)) (best kept : Best F)
        → find same_key (candidate_key c) best ≡ old
        → replace_if_better c old best ≡ ok kept
        → Any (Covers c) kept × Grows best kept
    replace_if_better-Covers c none best kept o e =
        subst (λ z. Any (Covers c) z × Grows best z) (ok-injective _ kept e)
          (put-Covers_new c best, λ d. put-Covers_old c d best (λ old found. cc))
    replace_if_better-Covers c (some old) best kept o e =
        let (pays, ec, e₁) = >>=-eq-ok (american_to_decimal {F = F} c.odds_american) _ e in
        let (paid, eo, e₂) = >>=-eq-ok (american_to_decimal {F = F} old.odds_american) _ e₁ in
        elim (Bool-cases (paid <? pays)) [
          | inl t ↦
              subst (λ z. Any (Covers c) z × Grows best z) (ok-injective _ kept (rw t at e₂))
                (
                  put-Covers_new c best,
                  λ d. put-Covers_old c d best (λ older found p a b ea eb.
                      le_trans a paid b
                        (p a paid ea (rw (some-injective older old (sym found ∙ o)) eo))
                        (subst (λ z. paid ≤ z) (ok-injective pays b (sym ec ∙ eb))
                          (le_of_lt laws paid pays t))),
                )
          | inr t ↦
              subst (λ z. Any (Covers c) z × Grows best z) (ok-injective best kept (rw t at e₂))
                (
                  find-Covers c old best o (λ a b ea eb.
                      rw (ok-injective a pays (sym ea ∙ ec), ok-injective b paid (sym eb ∙ eo))
                        (le_of_not_lt laws paid pays t)),
                  λ d h. h,
                )
        ]

    keep_best-Covers :
        (offered : Option (EdgeCandidate F)) (best kept : Best F)
        → keep_best offered best ≡ ok kept
        → ((c : EdgeCandidate F) → offered ≡ some c → Any (Covers c) kept) × Grows best kept
    unfolding keep_best
    keep_best-Covers none best kept e =
        (λ c n. cc, subst (Grows best) (ok-injective best kept e) (λ d h. h))
    keep_best-Covers (some c) best kept e =
        let (own, grows) =
          replace_if_better-Covers c (find same_key (candidate_key c) best) best kept refl e in
        (λ d o. subst (λ z. Any (Covers z) kept) (some-injective c d o) own, grows)

    module _ (normalize : String → String) (parse_datetime : String → Option DateTime)
        (uuid_of : String → Option String) (detector : Detector F) where
      module _ (ctx : Context) (maps : Maps F) where
        -- A line of the group makes the candidate.
        unfoldable pub OffersIn : Sides F → EdgeCandidate F → Priced F → Type ℓ
        OffersIn group c priced =
            offer normalize parse_datetime uuid_of detector ctx maps group priced ≡ ok (some c)

        -- A priced line of the group makes the candidate.
        unfoldable pub Offers : EdgeCandidate F → Sides F → Type ℓ
        unfolding OffersIn
        Offers c group =
            (priced : List (Priced F)) × (price_group detector (values group) ≡ ok (some priced))
            × Any (OffersIn group c) priced

        add_lines-Covers :
            (group : Sides F) (lines : List (Priced F)) (best kept : Best F)
            → add_lines normalize parse_datetime uuid_of detector ctx maps group lines best
              ≡ ok kept
            → ((c : EdgeCandidate F) → Any (OffersIn group c) lines → Any (Covers c) kept)
              × Grows best kept
        unfolding add_lines OffersIn
        add_lines-Covers group [] best kept e =
            (λ c h. elim h [ ], subst (Grows best) (ok-injective best kept e) (λ d h. h))
        add_lines-Covers group (priced ∷ lines) best kept e =
            let (offered, eo, e₁) =
              >>=-eq-ok (offer normalize parse_datetime uuid_of detector ctx maps group priced) _
                e in
            let (mid, em, e₂) = >>=-eq-ok (keep_best offered best) _ e₁ in
            let (own, grows) = keep_best-Covers offered best mid em in
            let (others, grows_on) = add_lines-Covers group lines mid kept e₂ in
            (
              λ c h. elim h [
                | here _ _ o ↦ grows_on c (own c (ok-injective offered (some c) (sym eo ∙ o)))
                | there _ _ h ↦ others c h
              ],
              λ d h. grows_on d (grows d h),
            )

        add_priced-Covers :
            (group : Sides F) (devigged : Option (List (Priced F))) (best kept : Best F)
            → price_group detector (values group) ≡ ok devigged
            → add_priced normalize parse_datetime uuid_of detector ctx maps group devigged best
              ≡ ok kept
            → ((c : EdgeCandidate F) → Offers c group → Any (Covers c) kept) × Grows best kept
        unfolding Offers
        add_priced-Covers group none best kept p e =
            (λ c (priced, q, h). cc, subst (Grows best) (ok-injective best kept e) (λ d h. h))
        add_priced-Covers group (some lines) best kept p e =
            let (own, grows) = add_lines-Covers group lines best kept e in
            (
              λ c (priced, q, h). own c (
                  subst (Any (OffersIn group c))
                    (some-injective priced lines (ok-injective _ _ (sym q ∙ p))) h),
              grows,
            )

        pub add_groups-Covers :
            (groups : List (Sides F)) (best kept : Best F)
            → add_groups normalize parse_datetime uuid_of detector ctx maps groups best ≡ ok kept
            → ((c : EdgeCandidate F) → Any (Offers c) groups → Any (Covers c) kept)
              × Grows best kept
        unfolding add_groups
        add_groups-Covers [] best kept e =
            (λ c h. elim h [ ], subst (Grows best) (ok-injective best kept e) (λ d h. h))
        add_groups-Covers (group ∷ groups) best kept e =
            let (devigged, p, e₁) = >>=-eq-ok (price_group detector (values group)) _ e in
            let (mid, em, e₂) =
              >>=-eq-ok
                (add_priced normalize parse_datetime uuid_of detector ctx maps group devigged best)
                _ e₁ in
            let (own, grows) = add_priced-Covers group devigged best mid p em in
            let (others, grows_on) = add_groups-Covers groups mid kept e₂ in
            (
              λ c h. elim h [ here _ _ o ↦ grows_on c (own c o) | there _ _ h ↦ others c h ],
              λ d h. grows_on d (grows d h),
            )
