-- ===== src/Core/Live/State.antt =====
-- core/live.py, `derive_live_state`. `_parse_datetime` wraps `datetime.fromisoformat`: the parser is
-- a parameter.
pub mod Fraction
use Prim.Native.Nat.{ℕ}
use bookie_breaker_agent.Prelude.{
  String, List, [], ◌∷◌, Option, none, some, Bool, not, upper, lookup, str_eq, if◌then◌else◌,
}
use bookie_breaker_agent.Float.{Float, ◌-◌, ◌/◌, whole, min, max}
use bookie_breaker_agent.Float.Time.{DateTime, total_seconds}
use bookie_breaker_agent.Edges.Ev.{get_or}

-- The fields of a statistics game that are read here.
pub record LiveGame : Type 0 where
  pub status : String
  pub league : String
  pub scheduled_start : String
  pub home_score : Option ℕ
  pub away_score : Option ℕ

pub record LiveState {ℓ} (F : Type ℓ) : Type ℓ where
  pub home : ℕ
  pub away : ℕ
  pub fraction_remaining : F

-- `score or 0`
abbrev pub or_zero : Option ℕ → ℕ
or_zero none = 0
or_zero (some n) = n

module _ {ℓ} {F : Type ℓ} ⦃f : Float F⦄ where
  abbrev pub nominal_duration_hours : List (String × F)
  nominal_duration_hours =
      ("EPL", f.decimal 19 1)
      ∷ ("FIFA_WC", f.decimal 19 1)
      ∷ ("NBA", f.decimal 22 1)
      ∷ ("NCAA_BB", f.decimal 22 1)
      ∷ ("NFL", f.decimal 31 1)
      ∷ ("NCAA_FB", f.decimal 31 1)
      ∷ ("MLB", f.decimal 29 1)
      ∷ ("NCAA_BSB", f.decimal 29 1)
      ∷ ("NHL", f.decimal 26 1)
      ∷ ("NCAA_HKY", f.decimal 26 1)
      ∷ []

  abbrev pub default_nominal_duration_hours : F
  default_nominal_duration_hours = f.decimal 25 1

  abbrev pub elapsed_hours : Option DateTime → DateTime → F
  elapsed_hours none now = f.decimal 0 1
  elapsed_hours (some started_at) now =
      max (total_seconds now started_at / whole 3600) (f.decimal 0 1)

  -- `min(max(1.0 - elapsed / duration, 0.05), 0.95)`
  unfoldable pub fraction_of : F → F → F
  fraction_of elapsed duration =
      min (max (f.decimal 10 1 - elapsed / duration) (f.decimal 5 2)) (f.decimal 95 2)

  unfoldable pub derive_live_state :
      (String → Option DateTime) → LiveGame → DateTime → Option (LiveState F)
  unfolding fraction_of
  derive_live_state parse_datetime game now =
      let duration_hours =
        get_or default_nominal_duration_hours (lookup (upper game.league) nominal_duration_hours) in
      if not (str_eq (upper game.status) "IN_PROGRESS")
      then none
      else some (record {
        home = or_zero game.home_score;
        away = or_zero game.away_score;
        fraction_remaining =
            f.round_to 4 (
              fraction_of (elapsed_hours (parse_datetime game.scheduled_start) now) duration_hours);
      })
