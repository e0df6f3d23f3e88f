-- ===== src/Core/Bettor/Plan/Stakes.antt =====
-- How much a run's plan bets.
use bookie_breaker_agent.Prelude.{
  String, List, [], ◌∷◌, map, ◌≡◌, refl, ◌∙◌, ap, true, false, inl, inr, ◌⊎◌, Option, some, Bool,
  All, Any, here, there, insert, lookup, lookup-insert, Bool-cases, str_eq, eq_iff, if◌then◌else◌,
}
use bookie_breaker_agent.Float.{Float, ◌*◌, ◌/◌, ◌≤?◌, ◌<?◌, whole}
use bookie_breaker_agent.Float.Time.{DateTime}
use bookie_breaker_agent.Edges.Kelly.{BetSizing, total_exposure, rescale, scale_simultaneous_bets}
use bookie_breaker_agent.Core.Detector.Candidates.{EdgeCandidate}
use bookie_breaker_agent.Core.Bettor.{
  BetPlan, Format, should_bet, over_threshold, bettable, available_exposure, sizing_of, size_all,
  add_bets, sizings, empty_plan, plan,
}
use bookie_breaker_agent.Core.Bettor.Plan.{
  Any-select, Any-mono, Any-map, All-mono, HasId, IsGated, add_bets-ids, size_all-to_bet,
}

module _ {ℓ} {F : Type ℓ} ⦃f : Float F⦄ where
  -- The fraction that a bet keeps where the bets of a run together want the total.
  abbrev pub share : F → F → F → F
  share total available fraction =
      if total ≤? available then fraction else fraction * (available / total)

  -- The plan has this fraction for the key, and the stake of it.
  abbrev pub IsStakedAt : BetPlan F → F → String → F → Type ℓ
  IsStakedAt planned bankroll key fraction =
      (lookup key planned.kelly ≡ some fraction)
      × (lookup key planned.stakes ≡ some (f.round_to 2 (fraction * bankroll)))

  -- The plan after the bet.
  abbrev with_bet : F → BetSizing F → BetPlan F → BetPlan F
  with_bet bankroll b p = record p {
    stakes = insert b.game_id (f.round_to 2 (b.kelly * bankroll)) p.stakes;
    kelly = insert b.game_id b.kelly p.kelly;
  }

  add_bets-stakes :
      (bankroll : F) (b : BetSizing F) (bets : List (BetSizing F)) (p : BetPlan F)
      → ((add_bets bankroll (b ∷ bets) p).kelly
          ≡ (add_bets bankroll bets (with_bet bankroll b p)).kelly)
        × ((add_bets bankroll (b ∷ bets) p).stakes
            ≡ (add_bets bankroll bets (with_bet bankroll b p)).stakes)
  unfolding add_bets
  add_bets-stakes bankroll b bets p =
      elim (Bool-cases (whole 0 <? f.round_to 2 (b.kelly * bankroll))) [
        | inl e ↦ rw e (refl, refl)
        | inr e ↦ rw e (refl, refl)
      ]

  -- The bet of the key.
  abbrev IsBetOf : BetPlan F → F → String → BetSizing F → Type ℓ
  IsBetOf planned bankroll key b = HasId key b × IsStakedAt planned bankroll key b.kelly

  abbrev SameAt : BetPlan F → BetPlan F → String → Type ℓ
  SameAt p q key =
      (lookup key p.kelly ≡ lookup key q.kelly) × (lookup key p.stakes ≡ lookup key q.stakes)

  -- A key that has a bet has the fraction and the stake of one; another is as it was.
  staked :
      (bankroll : F) (bets : List (BetSizing F)) (p : BetPlan F) (key : String)
      → Any (IsBetOf (add_bets bankroll bets p) bankroll key) bets
        ⊎ (All (λ b. str_eq b.game_id key ≡ false) bets × SameAt (add_bets bankroll bets p) p key)
  unfolding add_bets
  staked bankroll [] p key = inr (tt, (refl, refl))
  staked bankroll (b ∷ bets) p key =
      let (k, s) = add_bets-stakes bankroll b bets p in
      elim (staked bankroll bets (with_bet bankroll b p) key) [
        | inl m ↦
            inl (there b bets (Any-mono bets (λ c (id, (ck, cs)). (id, (rw k ck, rw s cs))) m))
        | inr (out, (rk, rs)) ↦ elim (Bool-cases (str_eq b.game_id key)) [
          | inl e ↦ inl (
              here b bets (
                (eq_iff b.game_id key).0 e,
                (
                  ap (lookup key) k ∙ rk ∙ rw (lookup-insert b.game_id key b.kelly p.kelly, e) refl,
                  ap (lookup key) s ∙ rs ∙ rw (lookup-insert b.game_id key _ p.stakes, e) refl,
                ),
              ))
          | inr e ↦ inr (
            (e, out),
            (
              ap (lookup key) k ∙ rk ∙ rw (lookup-insert b.game_id key b.kelly p.kelly, e) refl,
              ap (lookup key) s ∙ rs ∙ rw (lookup-insert b.game_id key _ p.stakes, e) refl,
            ),
          )
        ]
      ]

  not_out :
      (key : String) (bets : List (BetSizing F))
      → Any (HasId key) bets
      → All (λ b. str_eq b.game_id key ≡ false) bets
      → ⊥
  not_out key (b ∷ bets) (here _ _ id) (out, outs) = let same = (eq_iff b.game_id key).1 id in cc
  not_out key (b ∷ bets) (there _ _ m) (out, outs) = not_out key bets m outs
  not_out key [] m out = elim m [ ]

  -- Every key that is bet has the bet's fraction and stake.
  bets-IsBetOf :
      (bankroll : F) (bets : List (BetSizing F)) (p : BetPlan F)
      → p.to_bet ≡ []
      → All
          (λ key. Any (IsBetOf (add_bets bankroll bets p) bankroll key) bets)
          (add_bets bankroll bets p).to_bet
  bets-IsBetOf bankroll bets p h =
      All-mono _
        (λ key m. elim (staked bankroll bets p key) [
          | inl b ↦ b
          | inr (out, _) ↦ absurd (not_out key bets m out)
        ])
        (add_bets-ids bankroll bets p h)

  -- A bet that was scaled has its share of the fraction before.
  scaled-share :
      (planned : BetPlan F) (bankroll : F) (key : String) (bets : List (BetSizing F)) (limit : F)
      → Any (IsBetOf planned bankroll key) (scale_simultaneous_bets bets limit)
      → Any
          (λ b.
            HasId key b
            × IsStakedAt planned bankroll key (share (total_exposure bets) limit b.kelly))
          bets
  unfolding scale_simultaneous_bets
  scaled-share planned bankroll key bets limit h =
      elim (Bool-cases (total_exposure bets ≤? limit)) [
        | inl e ↦ rw e (rw e at h)
        | inr e ↦ rw e (
            Any-map (IsBetOf planned bankroll key) (rescale (limit / total_exposure bets)) bets
              (rw e at h))
      ]

  -- What the bets of a run want together, before they are scaled.
  abbrev pub wanted : Format F → List (EdgeCandidate F) → DateTime → Option F → F
  wanted format candidates now threshold =
      total_exposure (map (sizing_of format) (bettable candidates now threshold))

  -- Every bet of a plan stands for a candidate that passes the gates, and its fraction and its
  -- stake are those of the candidate's share: the whole fraction where the bets together want no
  -- more than the exposure that is left, and else the fraction times what is left over what is
  -- wanted. The stake is that share of the bankroll, rounded to two places.
  pub plan-IsStakedAt :
      (format : Format F) (limit : F) (candidates : List (EdgeCandidate F)) (bankroll exposure : F)
      (auto_bet : Bool) (now : DateTime) (threshold : Option F)
      → All
          (λ key.
            Any
              (λ c.
                IsGated format now threshold key c
                × IsStakedAt
                    (plan format limit candidates bankroll exposure auto_bet now threshold)
                    bankroll
                    key
                    (share
                      (wanted format candidates now threshold)
                      (available_exposure limit bankroll exposure)
                      c.kelly))
              candidates)
          (plan format limit candidates bankroll exposure auto_bet now threshold).to_bet
  unfolding plan sizings
  plan-IsStakedAt format limit candidates bankroll exposure false now threshold =
      rw (size_all-to_bet format bankroll candidates empty_plan) tt
  plan-IsStakedAt format limit candidates bankroll exposure true now threshold =
      All-mono _
        (λ key m.
          Any-mono candidates (λ c (gate, (over, (id, staked_at))). ((id, gate, over), staked_at))
            (Any-select _ (λ c. should_bet c now) candidates
              (Any-select _ (over_threshold threshold) _ (
                Any-map _ (sizing_of format) (bettable candidates now threshold) (
                  scaled-share (plan format limit candidates bankroll exposure true now threshold)
                    bankroll key _ _ m)))))
        (bets-IsBetOf bankroll _ (size_all format bankroll candidates empty_plan)
          (size_all-to_bet format bankroll candidates empty_plan))
