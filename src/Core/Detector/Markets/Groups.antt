-- ===== src/Core/Detector/Markets/Groups.antt =====
-- The groups that `_group_markets` returns are markets: one sportsbook, one market, one line, one
-- player and one statistic each.
use bookie_breaker_agent.Prelude.{
  String, List, [], ◌∷◌, ◌≡◌, refl, true, inl, inr, Option, none, some, ◌||◌, All, find,
  put-entries, find-entry, insert, insert-entries, or_else, IsEquality, Bool-cases, str_eq, arith,
  eq_iff, eq_refl,
}
use bookie_breaker_agent.Float.{Float, IsFloat}
use bookie_breaker_agent.Clients.Payloads.{LineSnapshot}
use bookie_breaker_agent.Core.Detector.Markets.{
  MarketKey, Sides, is_zero, is_complete, option_eq, same_market, market_key, add_line, group_lines,
  complete_markets, group_markets,
}
use bookie_breaker_agent.Core.Detector.Markets.Total.{IsQuoted}

module _ {ℓ} {F : Type ℓ} ⦃f : Float F⦄ where
  -- The line stands under its side, has a price, and is of the market.
  pub record IsLineOf (key : MarketKey F) (side : String) (line : LineSnapshot F) : Type 0 where
    pub under_side : side ≡ line.side
    pub quoted : IsQuoted line
    pub of_market : same_market (market_key line) key ≡ true

  abbrev pub AllOf : MarketKey F → Sides F → Type 0
  AllOf key sides = All (λ e. IsLineOf key (e.0) (e.1)) sides

  -- A group of lines of one market, whose sides make it complete.
  pub record IsMarket (sides : Sides F) : Type ℓ where
    pub key : MarketKey F
    pub complete : is_complete key.market sides ≡ true
    pub lines_of : AllOf key sides

  module _ (laws : IsFloat F) where
    open laws use {le_refl, le_trans}

    option_eq_refl : (a : Option F) → option_eq a a ≡ true
    option_eq_refl none = refl
    option_eq_refl (some a) = rw (le_refl a) refl

    option_eq_sym : (a b : Option F) → option_eq a b ≡ true → option_eq b a ≡ true
    option_eq_sym none none h = refl
    option_eq_sym (some a) (some b) h = ground arith
    option_eq_sym none (some b) h = cc
    option_eq_sym (some a) none h = cc

    option_eq_trans :
        (a b c : Option F) → option_eq a b ≡ true → option_eq b c ≡ true → option_eq a c ≡ true
    option_eq_trans none none c h k = k
    option_eq_trans (some a) (some b) (some c) h k = ground (arith, le_trans a b c, le_trans c b a)
    option_eq_trans none (some b) c h k = cc
    option_eq_trans (some a) none c h k = cc
    option_eq_trans (some a) (some b) none h k = cc

    pub option_eq-IsEquality : IsEquality (Option F) option_eq
    option_eq-IsEquality = record {
      same_refl = option_eq_refl;
      same_sym = option_eq_sym;
      same_trans = option_eq_trans;
    }

    same_market_sym : (a b : MarketKey F) → same_market a b ≡ true → same_market b a ≡ true
    same_market_sym a b h = ground (
      arith,
      option_eq_sym a.line b.line,
      eq_iff a.sportsbook b.sportsbook,
      eq_iff b.sportsbook a.sportsbook,
      eq_iff a.market b.market,
      eq_iff b.market a.market,
      eq_iff a.player b.player,
      eq_iff b.player a.player,
      eq_iff a.stat b.stat,
      eq_iff b.stat a.stat,
    )

    same_market_trans :
        (a b c : MarketKey F)
        → same_market a b ≡ true
        → same_market b c ≡ true
        → same_market a c ≡ true
    same_market_trans a b c h k = ground (
      arith,
      option_eq_trans a.line b.line c.line,
      eq_iff a.sportsbook b.sportsbook,
      eq_iff b.sportsbook c.sportsbook,
      eq_iff a.sportsbook c.sportsbook,
      eq_iff a.market b.market,
      eq_iff b.market c.market,
      eq_iff a.market c.market,
      eq_iff a.player b.player,
      eq_iff b.player c.player,
      eq_iff a.player c.player,
      eq_iff a.stat b.stat,
      eq_iff b.stat c.stat,
      eq_iff a.stat c.stat,
    )

    same_market_refl : (a : MarketKey F) → same_market a a ≡ true
    same_market_refl a = ground (
      arith,
      option_eq_refl a.line,
      eq_refl a.sportsbook,
      eq_refl a.market,
      eq_refl a.player,
      eq_refl a.stat,
    )

    -- Lines of a market are lines of an equal one.
    AllOf-same :
        (a b : MarketKey F) (sides : Sides F)
        → same_market a b ≡ true
        → AllOf a sides
        → AllOf b sides
    AllOf-same a b [] h hs = tt
    AllOf-same a b ((side, line) ∷ sides) h (l, hs) = (
      record {
        under_side = l.under_side;
        quoted = l.quoted;
        of_market = same_market_trans (market_key line) a b l.of_market h;
      },
      AllOf-same a b sides h hs,
    )

    abbrev AllGroups : List (MarketKey F × Sides F) → Type 0
    AllGroups groups = All (λ g. AllOf (g.0) (g.1)) groups

    -- The lines so far of the market of a new line.
    found_lines :
        (key : MarketKey F) (groups : List (MarketKey F × Sides F)) (old : Option (Sides F))
        → find same_market key groups ≡ old
        → AllGroups groups
        → AllOf key (or_else [] old)
    found_lines key groups none e h = tt
    found_lines key groups (some sides) e h =
        let (k, same, lines) = find-entry same_market AllOf key groups sides e h in
        AllOf-same k key sides same lines

    add_line-AllGroups :
        (line : LineSnapshot F) (groups : List (MarketKey F × Sides F))
        → AllGroups groups
        → AllGroups (add_line line groups)
    unfolding add_line
    add_line-AllGroups line groups h =
        elim (Bool-cases (str_eq line.side "" || is_zero line.odds_american)) [
          | inl e ↦ rw e h
          | inr e ↦
              let key = market_key line in
              let sides = or_else [] (find same_market key groups) in
              let own : IsLineOf key line.side line = record {
                under_side = refl;
                quoted = ground arith;
                of_market = same_market_refl key;
              } in
              let grown : AllOf key (insert line.side line sides) =
                insert-entries (IsLineOf key) line.side line sides own
                  (found_lines key groups (find same_market key groups) refl h) in
              rw e (
                put-entries same_market AllOf key (insert line.side line sides) groups grown
                  (λ k same. AllOf-same key k _ (same_market_sym k key same) grown) h)
        ]

    group_lines-AllGroups :
        (lines : List (LineSnapshot F)) (groups : List (MarketKey F × Sides F))
        → AllGroups groups
        → AllGroups (group_lines lines groups)
    unfolding group_lines
    group_lines-AllGroups [] groups h = h
    group_lines-AllGroups (line ∷ lines) groups h =
        group_lines-AllGroups lines (add_line line groups) (add_line-AllGroups line groups h)

    complete_markets-IsMarket :
        (groups : List (MarketKey F × Sides F))
        → AllGroups groups
        → All IsMarket (complete_markets groups)
    unfolding complete_markets
    complete_markets-IsMarket [] h = tt
    complete_markets-IsMarket ((key, sides) ∷ groups) (h, hs) =
        elim (Bool-cases (is_complete key.market sides)) [
          | inl e ↦ rw e (
            record { key = key; complete = e; lines_of = h },
            complete_markets-IsMarket groups hs,
          )
          | inr e ↦ rw e (complete_markets-IsMarket groups hs)
        ]

    -- Every group that is de-vigged is complete, and its lines all have a price, stand under
    -- their side, and share the sportsbook, the market, the absolute line, and for props the
    -- player and the statistic.
    pub group_markets-IsMarket :
        (lines : List (LineSnapshot F)) → All IsMarket (group_markets lines)
    unfolding group_markets
    group_markets-IsMarket lines =
        complete_markets-IsMarket (group_lines lines []) (group_lines-AllGroups lines [] tt)
