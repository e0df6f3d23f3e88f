-- ===== src/Core/Pipeline/Run/Status.antt =====
-- The final status of a run.
use bookie_breaker_agent.Prelude.{
  ◌+◌, String, List, [], ◌∷◌, length, ◌≡◌, refl, true, false, inl, inr, ◌↔◌, ◌⊎◌, ◌≢◌, All,
  Bool-cases, ◌==◌, ◌&&◌, not, arith,
}
use bookie_breaker_agent.Core.Pipeline.{GameOutcome, failed}
use bookie_breaker_agent.Core.Pipeline.Run.{
  RunStatus, completed, completed_with_errors, run_failed, games_processed, games_failed,
  run_status,
}

module _ {ℓ} {F : Type ℓ} where
  abbrev pub AllFailed : List (GameOutcome F) → Type 0
  AllFailed outcomes = All (λ o. failed o ≡ true) outcomes

  abbrev pub NoneFailed : List (GameOutcome F) → Type 0
  NoneFailed outcomes = All (λ o. failed o ≡ false) outcomes

  games_failed-NoneFailed :
      (outcomes : List (GameOutcome F)) → games_failed outcomes ≡ 0 ↔ NoneFailed outcomes
  unfolding games_failed
  games_failed-NoneFailed [] = (λ h. tt, λ h. refl)
  games_failed-NoneFailed (o ∷ outcomes) =
      let (to, from) = games_failed-NoneFailed outcomes in
      elim (Bool-cases (failed o)) [
        | inl e ↦ rw e (λ h. absurd (omega arith), λ (h, hs). cc)
        | inr e ↦ rw e (λ h. (refl, to h), λ (h, hs). from hs)
      ]

  games_processed-AllFailed :
      (outcomes : List (GameOutcome F)) → games_processed outcomes ≡ 0 ↔ AllFailed outcomes
  unfolding games_processed
  games_processed-AllFailed [] = (λ h. tt, λ h. refl)
  games_processed-AllFailed (o ∷ outcomes) =
      let (to, from) = games_processed-AllFailed outcomes in
      elim (Bool-cases (failed o)) [
        | inr e ↦ rw e (λ h. absurd (omega arith), λ (h, hs). cc)
        | inl e ↦ rw e (λ h. (refl, to h), λ (h, hs). from hs)
      ]

  -- The conditions of each status.
  abbrev pub StatusMeans : List (GameOutcome F) → List (String × String) → RunStatus → Type 0
  StatusMeans outcomes bet_errors completed = NoneFailed outcomes × (length bet_errors ≡ 0)
  StatusMeans outcomes bet_errors run_failed = AllFailed outcomes × (length outcomes ≢ 0)
  StatusMeans outcomes bet_errors completed_with_errors =
      ((length outcomes ≡ 0) ⊎ ¬ AllFailed outcomes)
      × ¬ (NoneFailed outcomes × (length bet_errors ≡ 0))
  StatusMeans outcomes bet_errors _ = ⊥

  -- A run is COMPLETED exactly when no game and no bet failed, FAILED when all of its games
  -- failed, of which there is one, and COMPLETED_WITH_ERRORS otherwise.
  pub run_status-StatusMeans :
      (outcomes : List (GameOutcome F)) (bet_errors : List (String × String))
      → StatusMeans outcomes bet_errors (run_status outcomes bet_errors)
  unfolding run_status
  run_status-StatusMeans outcomes bet_errors =
      let (none_to, none_from) = games_failed-NoneFailed outcomes in
      let (all_to, all_from) = games_processed-AllFailed outcomes in
      elim (Bool-cases (games_failed outcomes + length bet_errors == 0)) [
        | inl e ↦ rw e (none_to (ground arith), ground arith)
        | inr e ↦
            elim (Bool-cases ((games_processed outcomes == 0) && not (length outcomes == 0))) [
              | inl g ↦ rw (e, g) (all_to (ground arith), λ n. ground arith)
              | inr g ↦
                  rw (e, g)
                    (
                      elim (Bool-cases (length outcomes == 0)) [
                        | inl z ↦ inl (ground arith)
                        | inr z ↦ inr (λ all. let none = all_from all in ground arith)
                      ],
                      λ (n, b). let none = none_from n in ground arith,
                    )
            ]
      ]
