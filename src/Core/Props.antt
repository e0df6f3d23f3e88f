-- ===== src/Core/Props.antt =====
-- core/props.py: the bridge between player slugs and simulated players, and the prop requests that
-- are sent for the lines. `player_slug` normalizes Unicode and is a parameter.
pub mod Requests
pub mod Rewrite
use bookie_breaker_agent.Prelude.{
  String, List, [], ◌∷◌, map, any, Option, none, some, Bool, true, false, not, ◌&&◌, lookup, insert,
  lower, upper, str_eq, text_of, is_set, if◌then◌else◌,
}
use bookie_breaker_agent.Float.{Float, ◌≤?◌}
use bookie_breaker_agent.Clients.Payloads.{LineSnapshot}

-- An entry of `PlayerDistributions.players`; `stats` holds the keys of its dict.
pub record Distribution : Type 0 where
  pub name : String
  pub team : String
  pub stats : List String

pub record BridgedPlayer : Type 0 where
  pub player_uuid : String
  pub name : String
  pub slug : String
  pub stat_types : List String
  pub team_side : String

pub record PropRequest {ℓ} (F : Type ℓ) : Type ℓ where
  pub player_external_id : String
  pub player_name : String
  pub stat_type : Option String
  pub line : Option F
  pub side : String

-- (player, stat, line, side)
pub record RequestKey {ℓ} (F : Type ℓ) : Type ℓ where
  pub player : String
  pub stat : String
  pub line : Option F
  pub side : String

abbrev pub Bridge : Type 0
Bridge = List (String × BridgedPlayer)

-- `players[slug] = …` unless the slug is taken
abbrev pub keep_first : Option BridgedPlayer → BridgedPlayer → Bridge → Bridge
keep_first (some _) player players = players
keep_first none player players = insert player.slug player players

unfoldable pub build_player_bridge :
    (String → String) → List (String × Distribution) → Bridge → Bridge
build_player_bridge player_slug [] players = players
build_player_bridge player_slug ((player_uuid, entry) ∷ entries) players =
    let slug = player_slug entry.name in
    let player : BridgedPlayer = record {
      player_uuid = player_uuid;
      name = entry.name;
      slug = slug;
      stat_types = map lower entry.stats;
      team_side = upper entry.team;
    } in
    let added = keep_first (lookup slug players) player players in
    build_player_bridge player_slug entries (if str_eq slug "" then players else added)

-- `player.stat_types and stat not in player.stat_types`
abbrev pub lacks : List String → String → Bool
lacks [] stat = false
lacks (s ∷ ss) stat = not (any (str_eq stat) (s ∷ ss))

module _ {ℓ} {F : Type ℓ} where
  unfoldable pub prop_lines : List (LineSnapshot F) → List (LineSnapshot F)
  prop_lines [] = []
  prop_lines (line ∷ lines) =
      let rest = prop_lines lines in
      if str_eq (upper line.market_type) "PLAYER_PROP"
        && (is_set line.player_external_id && is_set line.stat_type)
      then line ∷ rest
      else rest

  abbrev pub key_of : PropRequest F → RequestKey F
  key_of r = record {
    player = r.player_external_id;
    stat = lower (text_of r.stat_type);
    line = r.line;
    side = r.side;
  }

  -- The request for a line, at the player that its slug resolves to.
  unfoldable pub request_for : Option BridgedPlayer → LineSnapshot F → Option (PropRequest F)
  request_for none line = none
  request_for (some player) line =
      if lacks player.stat_types (lower (text_of line.stat_type))
      then none
      else some (record {
        player_external_id = player.player_uuid;
        player_name = player.name;
        stat_type = line.stat_type;
        line = line.line_value;
        side = upper line.side;
      })

  module _ ⦃f : Float F⦄ where
    abbrev pub line_eq : Option F → Option F → Bool
    line_eq none none = true
    line_eq (some a) (some b) = (a ≤? b) && (b ≤? a)
    line_eq _ _ = false

    abbrev pub key_eq : RequestKey F → RequestKey F → Bool
    key_eq a b =
        str_eq a.player b.player
        && (str_eq a.stat b.stat && (line_eq a.line b.line && str_eq a.side b.side))

    -- The test of `seen`, and what the rest of the loop adds.
    unfoldable pub emit :
        Option (PropRequest F)
        → List (RequestKey F)
        → (List (RequestKey F) → List (PropRequest F))
        → List (PropRequest F)
    emit none seen rest = rest seen
    emit (some r) seen rest =
        if any (key_eq (key_of r)) seen then rest seen else r ∷ rest (key_of r ∷ seen)

    -- The loop of `build_prop_requests`, which starts with nothing seen.
    unfoldable pub build_prop_requests :
        Bridge → List (LineSnapshot F) → List (RequestKey F) → List (PropRequest F)
    unfolding emit request_for
    build_prop_requests bridge [] seen = []
    build_prop_requests bridge (line ∷ lines) seen =
        emit (request_for (lookup (text_of line.player_external_id) bridge) line) seen
          (build_prop_requests bridge lines)
