-- ===== src/Clients/Payloads.antt =====
-- The payloads of the other services that the agent reads: `LineSnapshot` of clients/lines.py,
-- `PredictionItem` of clients/prediction.py, `Game` of clients/statistics.py.
use bookie_breaker_agent.Prelude.{ℕ, String, Bool, Option}
use bookie_breaker_agent.Prelude.Int.{ℤ}

pub record LineSnapshot {ℓ} (F : Type ℓ) : Type ℓ where
  pub id : String
  pub game_id : String
  pub sportsbook_key : String
  pub market_type : String
  pub selection : String
  pub side : String
  pub line_value : Option F
  pub player_external_id : Option String
  pub stat_type : Option String
  pub prop_type : Option String
  pub odds_american : ℤ
  pub odds_decimal : F
  pub implied_probability : Option F
  pub is_opening : Bool
  pub is_closing : Bool
  pub is_live : Bool
  pub timestamp : String

pub record PredictionItem {ℓ} (F : Type ℓ) : Type ℓ where
  pub id : String
  pub market_type : String
  pub selection : String
  pub side : Option String
  pub predicted_probability : F
  pub player_external_id : Option String
  pub stat_type : Option String
  pub prop_type : Option String
  pub prop_line : Option F
  pub confidence_lower : Option F
  pub confidence_upper : Option F

pub record TeamRef : Type 0 where
  pub id : String
  pub name : String
  pub abbreviation : String

pub record Game : Type 0 where
  pub id : String
  pub league : String
  pub status : String
  pub home_team : TeamRef
  pub away_team : TeamRef
  pub scheduled_start : String
  pub home_score : Option ℕ
  pub away_score : Option ℕ
