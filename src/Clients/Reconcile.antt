-- ===== src/Clients/Reconcile.antt =====
-- clients/reconcile.py, `GameReconciler.resolve`: the lines service's id of a game, by the name of a
-- team. The cache, the lines client, `_normalize` and `_game_date` are parameters.
use bookie_breaker_agent.Prelude.{
  String, List, [], ◌∷◌, ◌≡◌, refl, true, inl, inr, ◌⊎◌, Option, none, some, Bool, ◌&&◌, ◌||◌,
  Result, ok, raise, Any, here, there, Bool-cases, str_eq, starts_with, if◌then◌else◌,
  some-injective,
}
use bookie_breaker_agent.Clients.Payloads.{Game, LineSnapshot}

-- The id, and what is written to the cache for 24 hours.
pub record Resolved : Type 0 where
  pub external_id : Option String
  pub cached : Option String

-- `except Exception: …`
abbrev pub or_default {ℓ} : {A : Type ℓ} → A → Result A → A
or_default d (ok a) = a
or_default d (raise e) = d

-- `if cached: return str(cached)`
abbrev pub from_cache : Option String → Resolved → Resolved
from_cache none fresh = fresh
from_cache (some id) fresh =
    if str_eq id "" then fresh else record { external_id = some id; cached = none }

from_cache-cases :
    (cache : Option String) (fresh : Resolved)
    → (from_cache cache fresh ≡ fresh)
      ⊎ ((id : String) × (cache ≡ some id) × ((from_cache cache fresh).external_id ≡ some id))
from_cache-cases none fresh = inl refl
from_cache-cases (some id) fresh = elim (Bool-cases (str_eq id "")) [
  | inl e ↦ inl (rw e refl)
  | inr e ↦ inr (id, refl, rw e refl)
]

module _ {ℓ} {F : Type ℓ} (normalize : String → String) where
  -- The selection is of the game's home side or of its away side.
  unfoldable pub names_team : Game → LineSnapshot F → Bool
  names_team game snapshot =
      let selection = normalize snapshot.selection in
      (str_eq snapshot.side "HOME" && starts_with selection (normalize game.home_team.name))
      || (str_eq snapshot.side "AWAY" && starts_with selection (normalize game.away_team.name))

  unfoldable pub match_snapshot : Game → List (LineSnapshot F) → Resolved
  unfolding names_team
  match_snapshot game [] = record { external_id = none; cached = none }
  match_snapshot game (snapshot ∷ snapshots) =
      let rest = match_snapshot game snapshots in
      if names_team game snapshot
      then record { external_id = some snapshot.game_id; cached = some snapshot.game_id }
      else rest

  -- The reply of the cache, and that of the lines service for the game's league and date.
  unfoldable pub resolve_game :
      Game → Result (Option String) → Result (List (LineSnapshot F)) → Resolved
  unfolding match_snapshot
  resolve_game game cache snapshots =
      from_cache (or_default none cache) (match_snapshot game (or_default [] snapshots))

  abbrev IsMatchIn : Game → String → LineSnapshot F → Type 0
  IsMatchIn game id snapshot = (names_team game snapshot ≡ true) × (snapshot.game_id ≡ id)

  match_snapshot-IsMatch :
      (game : Game) (snapshots : List (LineSnapshot F)) (id : String)
      → (match_snapshot game snapshots).external_id ≡ some id
      → ((match_snapshot game snapshots).cached ≡ some id) × Any (IsMatchIn game id) snapshots
  unfolding match_snapshot
  match_snapshot-IsMatch game [] id h = cc
  match_snapshot-IsMatch game (snapshot ∷ snapshots) id h =
      elim (Bool-cases (names_team game snapshot)) [
        | inl e ↦
            rw e (
              rw e at h,
              here snapshot snapshots (e, some-injective snapshot.game_id id (rw e at h)),
            )
        | inr e ↦
            let (written, found) = match_snapshot-IsMatch game snapshots id (rw e at h) in
            rw e (written, there snapshot snapshots found)
      ]

  -- A game that is resolved to an id had it in the cache, or has a line of the lines service under
  -- that id which names its home or away team on that side, and then the id is cached.
  pub resolve_game_sound :
      (game : Game) (cache : Result (Option String)) (snapshots : Result (List (LineSnapshot F)))
      (id : String)
      → (resolve_game game cache snapshots).external_id ≡ some id
      → (or_default none cache ≡ some id)
        ⊎ (((resolve_game game cache snapshots).cached ≡ some id)
            × Any (IsMatchIn game id) (or_default [] snapshots))
  unfolding resolve_game
  resolve_game_sound game cache snapshots id h =
      let fresh = match_snapshot game (or_default [] snapshots) in
      elim (from_cache-cases (or_default none cache) fresh) [
        | inl e ↦ inr (rw e (match_snapshot-IsMatch game (or_default [] snapshots) id (rw e at h)))
        | inr (other, e, g) ↦ inl cc
      ]
