-- ===== src/Core/Live/State/Fraction.antt =====
-- The fraction of a live game that remains: within its clamp, and falling with time.
use Prim.Native.Nat
use bookie_breaker_agent.Prelude.{
  ℕ, ap, ◌≡◌, ◌≢◌, String, List, [], ◌∷◌, All, Option, none, some, upper, lookup, str_eq, not,
  Bool-cases, inl, inr, arith,
}
use bookie_breaker_agent.Prelude.Int.{ -ℤ_mono}
use bookie_breaker_agent.Float.{Float, IsFloat, ◌≤◌, ◌<◌, whole}
use bookie_breaker_agent.Float.Order.{le-min, min-le_right, le-max_right, min_mono, max_mono}
use bookie_breaker_agent.Float.Time.{DateTime}
use bookie_breaker_agent.Edges.Ev.{get_or}
use bookie_breaker_agent.Core.Live.State.{
  LiveGame, LiveState, fraction_of, derive_live_state, elapsed_hours, nominal_duration_hours,
  default_nominal_duration_hours,
}

none-ne-some {ℓ} : {A : Type ℓ} (a : A) → none ≢ some a
none-ne-some a h = cc

-- What holds of the default and of every value of a table holds of what is looked up.
get_or-lookup {ℓ} :
    {F : Type ℓ} ⦃f : Float F⦄ (P : F → Type 0) (d : F) (key : String) (table : List (String × F))
    → P d
    → All (λ e. P e.1) table
    → P (get_or d (lookup key table))
unfolding lookup
get_or-lookup P d key [] h _ = h
get_or-lookup P d key ((name, v) ∷ table) h (hv, hs) = elim (Bool-cases (str_eq name key)) [
  | inl e ↦ rw e hv
  | inr e ↦ rw e (get_or-lookup P d key table h hs)
]

module _ {ℓ} {F : Type ℓ} ⦃f : Float F⦄ (laws : IsFloat F) where
  open laws use {le_refl, decimal_mono, decimal_pos, round_mono, div_mono, sub_mono, of_ℤ_mono}

  fraction_of_bounds :
      (elapsed duration : F)
      → (f.decimal 5 2 ≤ fraction_of elapsed duration)
        × (fraction_of elapsed duration ≤ f.decimal 95 2)
  unfolding fraction_of
  fraction_of_bounds elapsed duration = (
    le-min laws _ _ (f.decimal 5 2) (le-max_right laws _ (f.decimal 5 2))
        (decimal_mono 5 2 95 2 (omega arith)),
    min-le_right laws _ (f.decimal 95 2),
  )

  fraction_of_anti :
      (elapsed elapsed' duration : F)
      → whole 0 < duration
      → elapsed ≤ elapsed'
      → fraction_of elapsed' duration ≤ fraction_of elapsed duration
  unfolding fraction_of
  fraction_of_anti elapsed elapsed' duration p h =
      min_mono laws _ _ _ _
        (max_mono laws _ _ _ _
          (sub_mono _ _ _ _ (le_refl (f.decimal 10 1)) (div_mono elapsed elapsed' duration p h))
          (le_refl (f.decimal 5 2)))
        (le_refl (f.decimal 95 2))

  elapsed_hours_mono :
      (start : Option DateTime) (now later : DateTime)
      → Nat.◌≤◌ now later
      → elapsed_hours {F = F} start now ≤ elapsed_hours start later
  elapsed_hours_mono none now later h = le_refl (f.decimal 0 1)
  elapsed_hours_mono (some s) now later h =
      max_mono laws _ _ _ _
        (div_mono _ _ (whole 3600) (decimal_pos 3600 0 (omega arith) (omega arith)) (
          div_mono _ _ (whole 1_000_000) (decimal_pos 1_000_000 0 (omega arith) (omega arith))
            (of_ℤ_mono _ _ (-ℤ_mono now s later s h (omega arith)))))
        (le_refl (f.decimal 0 1))

  hours_pos : (n : ℕ) → Nat.◌<◌ 0 n → whole 0 < f.decimal n 1
  hours_pos n h = decimal_pos n 1 h (omega arith)

  duration_pos :
      (league : String)
      → whole 0
        < get_or (default_nominal_duration_hours {F = F}) (lookup league nominal_duration_hours)
  duration_pos league =
      get_or-lookup {F = F} (λ d. whole 0 < d) default_nominal_duration_hours league
        nominal_duration_hours (hours_pos 25 (omega arith))
        (
          hours_pos 19 (omega arith),
          (
            hours_pos 19 (omega arith),
            (
              hours_pos 22 (omega arith),
              (
                hours_pos 22 (omega arith),
                (
                  hours_pos 31 (omega arith),
                  (
                    hours_pos 31 (omega arith),
                    (
                      hours_pos 29 (omega arith),
                      (
                        hours_pos 29 (omega arith),
                        (hours_pos 26 (omega arith), (hours_pos 26 (omega arith), tt)),
                      ),
                    ),
                  ),
                ),
              ),
            ),
          ),
        )

  module _ (parse_datetime : String → Option DateTime) (game : LiveGame) where
    abbrev fraction_at : DateTime → F
    fraction_at now =
        fraction_of (elapsed_hours (parse_datetime game.scheduled_start) now) (
          get_or default_nominal_duration_hours (lookup (upper game.league) nominal_duration_hours))

    abbrev fraction_or : F → Option (LiveState F) → F
    fraction_or d none = d
    fraction_or d (some st) = st.fraction_remaining

    derive_live_state-fraction :
        (now : DateTime) (st : LiveState F)
        → derive_live_state parse_datetime game now ≡ some st
        → f.round_to 4 (fraction_at now) ≡ st.fraction_remaining
    unfolding derive_live_state
    derive_live_state-fraction now st h =
        elim (Bool-cases (not (str_eq (upper game.status) "IN_PROGRESS"))) [
          | inl e ↦ absurd (none-ne-some st (rw e at h))
          | inr e ↦ ap (fraction_or st.fraction_remaining) (rw e at h)
        ]

    -- The fraction of a live game that remains lies between 0.05 and 0.95, both rounded to four
    -- digits, whatever the start.
    pub derive_live_state_bounds :
        (now : DateTime) (st : LiveState F)
        → derive_live_state parse_datetime game now ≡ some st
        → (f.round_to 4 (f.decimal 5 2) ≤ st.fraction_remaining)
          × (st.fraction_remaining ≤ f.round_to 4 (f.decimal 95 2))
    derive_live_state_bounds now st h =
        let (low, high) =
          fraction_of_bounds (elapsed_hours (parse_datetime game.scheduled_start) now) (
            get_or default_nominal_duration_hours
              (lookup (upper game.league) nominal_duration_hours)) in
        rw (← derive_live_state-fraction now st h) (round_mono 4 _ _ low, round_mono 4 _ _ high)

    -- As time passes, the fraction of a live game that remains never grows.
    pub derive_live_state_anti :
        (now later : DateTime) (st st' : LiveState F)
        → Nat.◌≤◌ now later
        → derive_live_state parse_datetime game now ≡ some st
        → derive_live_state parse_datetime game later ≡ some st'
        → st'.fraction_remaining ≤ st.fraction_remaining
    derive_live_state_anti now later st st' h e e' =
        rw (← derive_live_state-fraction now st e, ← derive_live_state-fraction later st' e')
          (round_mono 4 _ _ (
            fraction_of_anti _ _ _ (duration_pos (upper game.league))
              (elapsed_hours_mono (parse_datetime game.scheduled_start) now later h)))
