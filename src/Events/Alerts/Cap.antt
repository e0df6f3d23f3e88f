-- ===== src/Events/Alerts/Cap.antt =====
-- Every edge is announced once, in order, and the model is asked for a bounded number of texts.
use bookie_breaker_agent.Prelude.{
  ℕ, suc, ◌≤◌, ◌-◌, String, List, [], ◌∷◌, map, ◌≡◌, refl, ap, Result, if◌then◌else◌, arith,
}
use bookie_breaker_agent.Float.{Float}
use bookie_breaker_agent.Core.Bettor.Place.{EdgeRecord}
use bookie_breaker_agent.Events.Alerts.{Alert, AlertConfig, alert_of, dispatch_from, dispatch_all}

-- How many texts the model was asked for.
unfoldable pub asked : List Alert → ℕ
asked [] = 0
asked (a ∷ alerts) = let rest = asked alerts in if a.asked_model then suc rest else rest

module _ {ℓ} {F : Type ℓ} ⦃f : Float F⦄ (config : AlertConfig)
    (complete : EdgeRecord F → Result String) (template : EdgeRecord F → String)
    (store : EdgeRecord F → String → Result (Unit {0})) where
  dispatch_from-ids :
      (index : ℕ) (rows : List (EdgeRecord F))
      → map (λ a. a.edge_id) (dispatch_from config complete template store index rows)
        ≡ map (λ r. r.id) rows
  unfolding dispatch_from alert_of
  dispatch_from-ids index [] = refl
  dispatch_from-ids index (row ∷ rows) =
      ap (λ ids. row.id ∷ ids) (dispatch_from-ids (suc index) rows)

  dispatch_from-asked :
      (index : ℕ) (rows : List (EdgeRecord F))
      → asked (dispatch_from config complete template store index rows)
        ≤ config.llm_max_per_run - index
  unfolding dispatch_from alert_of asked
  dispatch_from-asked index [] = omega arith
  dispatch_from-asked index (row ∷ rows) =
      let rest = dispatch_from-asked (suc index) rows in ground arith

  -- Whatever the model and the store do, every edge is announced once and in order, and the
  -- model is asked for at most the configured number of texts.
  pub dispatch_all-asked :
      (rows : List (EdgeRecord F))
      → (map (λ a. a.edge_id) (dispatch_all config complete template store rows)
          ≡ map (λ r. r.id) rows)
        × (asked (dispatch_all config complete template store rows) ≤ config.llm_max_per_run)
  unfolding dispatch_all
  dispatch_all-asked rows =
      let few = dispatch_from-asked 0 rows in (dispatch_from-ids 0 rows, omega arith)
