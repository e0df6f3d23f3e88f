-- ===== src/Core/PropExamples.antt =====
-- Prop requests for lines of two sportsbooks.
use bookie_breaker_agent.Prelude.{
  String, List, [], ◌∷◌, ◌≡◌, refl, some, none, false, upper, lookup, insert,
}
use bookie_breaker_agent.Prelude.Int.{pos, negsuc}
use bookie_breaker_agent.Float.Fixed.{Fixed, fixed_float}
use bookie_breaker_agent.Clients.Payloads.{LineSnapshot}
use bookie_breaker_agent.Core.Props.{
  Bridge, BridgedPlayer, Distribution, build_player_bridge, build_prop_requests,
}
use bookie_breaker_agent.Core.Props.Rewrite.{slug_for_uuid, slug_for_uuid-lookup}
use bookie_breaker_agent.Core.Props.Requests.{NoRepeat, build_prop_requests-NoRepeat}

abbrev one_player : Bridge
one_player =
    (
      "jane-doe",
      record {
        player_uuid = "u1";
        name = "Jane Doe";
        slug = "jane-doe";
        stat_types = "points" ∷ [];
        team_side = "HOME";
      },
    )
    ∷ []

abbrev points_line : String → LineSnapshot Fixed
points_line side = record {
  id = "l1";
  game_id = "g1";
  sportsbook_key = "book";
  selection = "Jane Doe points";
  prop_type = some "OVER_UNDER";
  odds_american = negsuc 109;
  odds_decimal = pos 1_909_090;
  implied_probability = none;
  is_opening = false;
  is_closing = false;
  is_live = false;
  timestamp = "";
  market_type = "PLAYER_PROP";
  player_external_id = some "jane-doe";
  stat_type = some "Points";
  line_value = some (pos 22_500_000);
  side = side;
}

-- The first two ask for the same.
abbrev three_lines : List (LineSnapshot Fixed)
three_lines = points_line "over" ∷ points_line "OVER" ∷ points_line "under" ∷ []

build_prop_requests-NoRepeat_example : NoRepeat (build_prop_requests one_player three_lines [])
build_prop_requests-NoRepeat_example = build_prop_requests-NoRepeat one_player three_lines

abbrev payload : List (String × Distribution)
payload =
    ("u1", record { name = "jane-doe"; team = "home"; stats = [] })
    ∷ ("u2", record { name = "john-roe"; team = "away"; stats = [] })
    ∷ []

abbrev same_slug : String → String
same_slug name = name

abbrev john : BridgedPlayer
john = record {
  player_uuid = "u2";
  name = "john-roe";
  slug = "john-roe";
  stat_types = [];
  team_side = "AWAY";
}

slug_for_uuid-lookup_example :
    slug_for_uuid (build_player_bridge same_slug payload []) "u2" ≡ some "john-roe"
unfolding build_player_bridge insert lookup upper
slug_for_uuid-lookup_example =
    slug_for_uuid-lookup same_slug payload "john-roe" john ((refl, tt), (tt, tt)) refl
