-- ===== src/Core/Detector/Detect/Unique.antt =====
-- The edges that `detect` returns: one for each market, side, line, player and statistic, at the
-- best price that the lines offer.
use bookie_breaker_agent.Prelude.{
  String, List, [], ◌∷◌, map, ◌≡◌, true, false, Option, none, some, Bool, ok, ok-injective,
  some-injective, >>=-eq-ok, All, Any, here, there, put, put-entries, put-Apart, Apart, sym, arith,
  eq_iff,
}
use mathlib.Core.Path.{subst}
use bookie_breaker_agent.Float.{Float, IsFloat}
use bookie_breaker_agent.Float.Time.{DateTime}
use bookie_breaker_agent.Clients.Payloads.{Game, LineSnapshot, PredictionItem}
use bookie_breaker_agent.Core.Detector.Markets.{Sides, group_markets}
use bookie_breaker_agent.Core.Detector.Markets.Groups.{option_eq-IsEquality}
use bookie_breaker_agent.Core.Detector.Matching.{Maps, no_maps, prediction_maps}
use bookie_breaker_agent.Core.Detector.Candidates.{EdgeCandidate, Detector, Context}
use bookie_breaker_agent.Core.Detector.Detect.{
  Priced, Best, CandidateKey, same_key, candidate_key, add_groups, detect_until, detect,
}
use bookie_breaker_agent.Core.Detector.Detect.Invariant.{add_groups-keeps}
use bookie_breaker_agent.Core.Detector.Detect.Best.{
  PaysAtLeast, Covers, Offers, add_groups-Covers, same_key_refl,
}

-- The call's arguments as the candidates record them.
abbrev pub context_of : Game → String → Option String → DateTime → Bool → DateTime → Context
context_of game external_id run now mark_live expires_at = record {
  game = game;
  game_external_id = external_id;
  simulation_run_id = run;
  expires_at = expires_at;
  now = now;
  is_live = mark_live;
}

All-any {ℓ} : {A : Type ℓ} (xs : List A) → All {ℓ, 0} (λ x. Unit) xs
All-any [] = tt
All-any (x ∷ xs) = (tt, All-any xs)

module _ {ℓ} {F : Type ℓ} ⦃f : Float F⦄ where
  -- The edges differ in their keys.
  abbrev pub OnePerKey : List (EdgeCandidate F) → Type 0
  OnePerKey [] = Unit
  OnePerKey (c ∷ edges) =
      All (λ d. same_key (candidate_key c) (candidate_key d) ≡ false) edges × OnePerKey edges

  -- An edge of the same key that pays at least as much.
  abbrev pub IsBeatenBy : EdgeCandidate F → EdgeCandidate F → Type ℓ
  IsBeatenBy c edge = (same_key (candidate_key edge) (candidate_key c) ≡ true) × PaysAtLeast c edge

  module _ (laws : IsFloat F) where
    same_key_sym : (a b : CandidateKey F) → same_key a b ≡ true → same_key b a ≡ true
    same_key_sym a b h = ground (
      arith,
      (option_eq-IsEquality laws).same_sym a.line b.line,
      eq_iff a.market b.market,
      eq_iff b.market a.market,
      eq_iff a.side b.side,
      eq_iff b.side a.side,
      eq_iff a.player b.player,
      eq_iff b.player a.player,
      eq_iff a.stat b.stat,
      eq_iff b.stat a.stat,
    )

    same_key_trans :
        (a b c : CandidateKey F) → same_key a b ≡ true → same_key b c ≡ true → same_key a c ≡ true
    same_key_trans a b c h k = ground (
      arith,
      (option_eq-IsEquality laws).same_trans a.line b.line c.line,
      eq_iff a.market b.market,
      eq_iff b.market c.market,
      eq_iff a.market c.market,
      eq_iff a.side b.side,
      eq_iff b.side c.side,
      eq_iff a.side c.side,
      eq_iff a.player b.player,
      eq_iff b.player c.player,
      eq_iff a.player c.player,
      eq_iff a.stat b.stat,
      eq_iff b.stat c.stat,
      eq_iff a.stat c.stat,
    )

    abbrev AnyGroup : Sides F → Type 0
    AnyGroup group = Unit

    abbrev AnyPriced : Sides F → Priced F → Type 0
    AnyPriced group priced = Unit

    -- Every candidate stands under its key, and the keys differ.
    abbrev Keyed : CandidateKey F → EdgeCandidate F → Type 0
    Keyed k c = same_key k (candidate_key c) ≡ true

    abbrev IsDict : Best F → Type 0
    IsDict best = All (λ e. Keyed (e.0) (e.1)) best × Apart same_key best

    put-IsDict :
        (c : EdgeCandidate F) (best : Best F)
        → IsDict best
        → IsDict (put same_key (candidate_key c) c best)
    put-IsDict c best (keyed, apart) = (
      put-entries same_key Keyed (candidate_key c) c best (same_key_refl laws (candidate_key c))
          (λ k e. e) keyed,
      put-Apart same_key (candidate_key c) c best apart,
    )

    -- Different keys are those of different candidates.
    values-apart :
        (k : CandidateKey F) (c : EdgeCandidate F) (best : Best F)
        → Keyed k c
        → All (λ e. Keyed (e.0) (e.1)) best
        → All (λ e. same_key k (e.0) ≡ false) best
        → All (λ d. same_key (candidate_key c) (candidate_key d) ≡ false) (map (λ e. e.1) best)
    values-apart k c [] kc hs ds = tt
    values-apart k c ((l, d) ∷ best) kc (h, hs) (apart, ds) = (
      ground (
        arith,
        same_key_trans k (candidate_key c) (candidate_key d),
        same_key_sym l (candidate_key d),
        same_key_trans k (candidate_key d) l,
      ),
      values-apart k c best kc hs ds,
    )

    values-OnePerKey : (best : Best F) → IsDict best → OnePerKey (map (λ e. e.1) best)
    values-OnePerKey [] h = tt
    values-OnePerKey ((k, c) ∷ best) ((h, hs), (d, ds)) =
        (values-apart k c best h hs d, values-OnePerKey best (hs, ds))

    values-IsBeatenBy :
        (c : EdgeCandidate F) (best : Best F)
        → All (λ e. Keyed (e.0) (e.1)) best
        → Any (Covers c) best
        → Any (IsBeatenBy c) (map (λ e. e.1) best)
    values-IsBeatenBy c [] h m = elim m [ ]
    values-IsBeatenBy c ((k, d) ∷ best) (h, hs) (here _ _ (s, p)) = here _ _ (
      same_key_trans (candidate_key d) k (candidate_key c) (same_key_sym k (candidate_key d) h) s,
      p,
    )
    values-IsBeatenBy c ((k, d) ∷ best) (h, hs) (there _ _ m) =
        there _ _ (values-IsBeatenBy c best hs m)

    module _ (normalize : String → String) (parse_datetime : String → Option DateTime)
        (uuid_of : String → Option String) (detector : Detector F) (game : Game)
        (external_id : String) (predictions : List (PredictionItem F))
        (lines : List (LineSnapshot F)) (run : Option String) (now : DateTime)
        (mark_live : Bool) where
      add_groups-IsDict :
          (ctx : Context) (maps : Maps F) (groups : List (Sides F)) (kept : Best F)
          → add_groups normalize parse_datetime uuid_of detector ctx maps groups [] ≡ ok kept
          → IsDict kept
      add_groups-IsDict ctx maps groups kept e =
          add_groups-keeps normalize parse_datetime uuid_of detector ctx maps IsDict AnyGroup
            AnyPriced (λ group all d. All-any all)
            (λ group priced c best g q o h. put-IsDict c best h) groups [] kept (All-any groups)
            (tt, tt) e

      -- What the two theorems say of edges that stand in for the result.
      abbrev Holds : Option DateTime → List (EdgeCandidate F) → Type ℓ
      Holds start edges =
          OnePerKey edges
          × ((expires_at : DateTime) (c : EdgeCandidate F)
              → start ≡ some expires_at
              → Any
                  (Offers laws normalize parse_datetime uuid_of detector
                    (context_of game external_id run now mark_live expires_at)
                    (prediction_maps normalize predictions no_maps) c)
                  (group_markets lines)
              → Any (IsBeatenBy c) edges)

      detect_until-Holds :
          (start : Option DateTime) (edges : List (EdgeCandidate F))
          → detect_until normalize parse_datetime uuid_of detector game external_id predictions
              lines run now mark_live start
            ≡ ok edges
          → Holds start edges
      detect_until-Holds none edges h =
          subst (Holds none) (ok-injective [] edges h) (tt, λ t c e m. cc)
      detect_until-Holds (some t) edges h =
          let ctx = context_of game external_id run now mark_live in
          let maps = prediction_maps normalize predictions no_maps in
          let (best, e, h₁) =
            >>=-eq-ok
              (add_groups normalize parse_datetime uuid_of detector (ctx t) maps
                (group_markets lines) [])
              _ h in
          let (keyed, apart) = add_groups-IsDict (ctx t) maps (group_markets lines) best e in
          let (covered, _) =
            add_groups-Covers laws normalize parse_datetime uuid_of detector (ctx t) maps
              (group_markets lines) [] best e in
          subst (Holds (some t)) (ok-injective _ edges h₁) (
            values-OnePerKey best (keyed, apart),
            λ u c s m. values-IsBeatenBy c best keyed (
                covered c (
                  subst
                    (λ z.
                      Any (Offers laws normalize parse_datetime uuid_of detector (ctx z) maps c)
                        (group_markets lines))
                    (sym (some-injective t u s)) m)),
          )

      -- At most one edge is returned for a market, side, line, player and statistic.
      pub detect-OnePerKey :
          (edges : List (EdgeCandidate F))
          → detect normalize parse_datetime uuid_of detector game external_id predictions lines run
              now mark_live
            ≡ ok edges
          → OnePerKey edges
      unfolding detect
      detect-OnePerKey edges h =
          (detect_until-Holds (parse_datetime game.scheduled_start) edges h).0

      -- Where the start of the game parses, every candidate that a priced line of the game makes
      -- is matched by a returned edge of the same market, side, line, player and statistic that
      -- pays at least as much.
      pub detect-best_price :
          (edges : List (EdgeCandidate F)) (expires_at : DateTime) (c : EdgeCandidate F)
          → detect normalize parse_datetime uuid_of detector game external_id predictions lines run
              now mark_live
            ≡ ok edges
          → parse_datetime game.scheduled_start ≡ some expires_at
          → Any
              (Offers laws normalize parse_datetime uuid_of detector
                (context_of game external_id run now mark_live expires_at)
                (prediction_maps normalize predictions no_maps)
                c)
              (group_markets lines)
          → Any (IsBeatenBy c) edges
      unfolding detect
      detect-best_price edges expires_at c h start offered =
          (detect_until-Holds (parse_datetime game.scheduled_start) edges h).1 expires_at c start
            offered
