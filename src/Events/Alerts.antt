-- ===== src/Events/Alerts.antt =====
-- core/alerts.py, `AlertService`, with `edge_priority` of events/publisher.py. The language model, the
-- template and the stores are parameters; `publish_edge_detected` logs its own failures.
pub mod Cap
use bookie_breaker_agent.Prelude.{
  ℕ, zero, suc, String, List, [], ◌∷◌, Option, none, some, Bool, true, false, ◌&&◌, ltb, Result, ok,
  raise, if◌then◌else◌,
}
use bookie_breaker_agent.Float.{Float, ◌≤?◌}
use bookie_breaker_agent.Core.Bettor.Place.{EdgeRecord}

pub data Priority : Type 0 where
  high medium low : Priority

-- An alert that was sent: its row, its text and priority, whether the model was asked for the text,
-- and whether the delivery was stored.
pub record Alert : Type 0 where
  pub edge_id : String
  pub description : String
  pub priority : Priority
  pub asked_model : Bool
  pub stored : Bool

-- The settings, and whether there is a model.
pub record AlertConfig : Type 0 where
  pub llm_enabled : Bool
  pub has_llm : Bool
  pub llm_max_per_run : ℕ

-- `try: …; except Exception: log`
abbrev pub succeeded : Result (Unit {0}) → Bool
succeeded (ok u) = true
succeeded (raise e) = false

-- `_describe`: the model's text, or the template where the model fails.
abbrev pub or_template : Result String → String → String
or_template (ok text) template = text
or_template (raise e) template = template

module _ {ℓ} {F : Type ℓ} where
  unfoldable pub describe :
      (EdgeRecord F → Result String) → (EdgeRecord F → String) → EdgeRecord F → Bool → String
  describe complete template row use_llm =
      if use_llm then or_template (complete row) (template row) else template row

  module _ ⦃f : Float F⦄ where
    unfoldable pub edge_priority : Option F → Priority
    edge_priority none = low
    edge_priority (some confidence) =
        if f.decimal 75 2 ≤? confidence
        then high
        else if f.decimal 5 1 ≤? confidence
        then medium
        else low

    module _ (config : AlertConfig) (complete : EdgeRecord F → Result String)
        (template : EdgeRecord F → String) (store : EdgeRecord F → String → Result (Unit {0})) where
      abbrev pub use_llm_at : ℕ → Bool
      use_llm_at index = config.llm_enabled && (config.has_llm && ltb index config.llm_max_per_run)

      unfoldable pub alert_of : ℕ → EdgeRecord F → Alert
      unfolding describe edge_priority
      alert_of index row =
          let description = describe complete template row (use_llm_at index) in
          record {
            edge_id = row.id;
            description = description;
            priority = edge_priority (some row.edge.confidence);
            asked_model = use_llm_at index;
            stored = succeeded (store row description);
          }

      -- The loop, from an index on; `dispatch_all` starts at 0.
      unfoldable pub dispatch_from : ℕ → List (EdgeRecord F) → List Alert
      unfolding alert_of
      dispatch_from index [] = []
      dispatch_from index (row ∷ rows) = alert_of index row ∷ dispatch_from (suc index) rows

      unfoldable pub dispatch_all : List (EdgeRecord F) → List Alert
      unfolding dispatch_from
      dispatch_all rows = dispatch_from 0 rows
