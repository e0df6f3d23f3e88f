-- ===== src/Edges/Decay/Timing.antt =====
-- When the timing decision bets, waits and passes.
use bookie_breaker_agent.Prelude.{
  ℕ, String, ◌≡◌, ◌≢◌, true, false, ◌&&◌, inl, inr, List, [], ◌∷◌, upper, str_eq, Bool-cases, arith,
  All, ◌^◌,
}
use Prim.Native.Nat
use bookie_breaker_agent.Float.{Float, IsFloat, IsPower, ◌/◌, ◌≤◌, ◌<◌, ◌≤?◌, whole}
use bookie_breaker_agent.Float.Order.{
  mul-le_self, mul_nonneg, div_nonneg, lt_of_le_of_lt, lt_of_lt_of_le, not_le_of_lt,
}
use bookie_breaker_agent.Edges.Ev.{get_or}
use bookie_breaker_agent.Edges.Decay.{
  bet_now, wait, pass, lookup_pair, half_lives, default_half_life_hours, estimate_edge_remaining,
  expecting_new_info, should_bet_now,
}

-- What holds of the default and of every value of a table holds of what is looked up.
pub get_or-lookup_pair {ℓ} :
    {F : Type ℓ} ⦃f : Float F⦄ (P : F → Type 0) (d : F) (l m : String)
    (table : List (String × String × F))
    → P d
    → All (λ e. P e.2) table
    → P (get_or d (lookup_pair l m table))
get_or-lookup_pair P d l m [] h _ = h
get_or-lookup_pair P d l m ((j, k, v) ∷ table) h (hv, hs) =
    elim (Bool-cases (str_eq j l && str_eq k m)) [
      | inl e ↦ rw e hv
      | inr e ↦ rw e (get_or-lookup_pair P d l m table h hs)
    ]

module _ {ℓ} {F : Type ℓ} ⦃f : Float F⦄ where
  abbrev IsPositive : F → Type 0
  IsPositive x = whole 0 < x

  -- An edge of at least 3.0 is never passed over.
  pub should_bet_now-ne-pass :
      (edge quality hours : F) (league market : String)
      → f.decimal 30 1 ≤ edge
      → should_bet_now edge quality hours league market ≢ pass
  unfolding should_bet_now
  should_bet_now-ne-pass edge quality hours league market h = ground arith

  module _ (laws : IsFloat F) where
    open laws use {le_refl, le_trans, decimal_mono, decimal_pos, whole_lt, lt-eq-not-le}

    -- With less than an hour to go, an edge of at least 2.0 is bet.
    pub should_bet_now-urgent :
        (edge quality hours : F) (league market : String)
        → hours < f.decimal 10 1
        → f.decimal 20 1 ≤ edge
        → should_bet_now edge quality hours league market ≡ bet_now
    unfolding should_bet_now
    should_bet_now-urgent edge quality hours league market h k = ground arith

    -- Waiting needs more than three hours until the game.
    expecting_new_info-early :
        (hours : F) (league : String) → expecting_new_info hours league ≡ true → whole 3 < hours
    unfolding expecting_new_info
    expecting_new_info-early hours league h = ground (
      arith,
      lt_of_le_of_lt laws (whole 3) (whole 48) hours (decimal_mono 3 0 48 0 (omega arith)),
      lt_of_le_of_lt laws (whole 3) (whole 6) hours (decimal_mono 3 0 6 0 (omega arith)),
    )

    -- The decision to wait is taken only more than three hours before the game, for an edge that
    -- is estimated to keep at least 2.0 until then, and not for one of 5.0 or more with a
    -- quality of 0.7 or more.
    pub should_bet_now-wait :
        (edge quality hours : F) (league market : String)
        → should_bet_now edge quality hours league market ≡ wait
        → (whole 3 < hours)
          × (f.decimal 20 1 ≤ estimate_edge_remaining edge hours (whole 0) league market)
          × (((f.decimal 50 1 ≤? edge) && (f.decimal 7 1 ≤? quality)) ≡ false)
    unfolding should_bet_now
    should_bet_now-wait edge quality hours league market h =
        ground (arith, expecting_new_info-early hours league)

    module _ (powers : IsPower F) where
      open powers use {power_nonneg, power-le_one}

      hours_pos : (n : ℕ) → Nat.◌<◌ 0 n → Nat.◌≤◌ n (2 ^ 53) → whole 0 < f.decimal n 0
      hours_pos = whole_lt 0

      half_pos : whole 0 < f.decimal 5 1
      half_pos = decimal_pos 5 1 (omega arith) (omega arith)

      -- Every half-life of the table is positive, and so is the default.
      half_life_pos :
          (l m : String)
          → IsPositive (get_or (default_half_life_hours {F = F}) (lookup_pair l m half_lives))
      half_life_pos l m =
          get_or-lookup_pair {F = F} IsPositive default_half_life_hours l m half_lives
            (lt_of_lt_of_le laws (whole 0) (whole 12) (f.decimal 120 1)
              (hours_pos 12 (omega arith) (omega arith)) (decimal_mono 12 0 120 1 (omega arith)))
            (
              hours_pos 24 (omega arith) (omega arith),
              (
                hours_pos 18 (omega arith) (omega arith),
                (
                  hours_pos 24 (omega arith) (omega arith),
                  (
                    hours_pos 8 (omega arith) (omega arith),
                    (
                      hours_pos 6 (omega arith) (omega arith),
                      (
                        hours_pos 8 (omega arith) (omega arith),
                        (
                          hours_pos 4 (omega arith) (omega arith),
                          (
                            hours_pos 4 (omega arith) (omega arith),
                            (
                              hours_pos 36 (omega arith) (omega arith),
                              (
                                hours_pos 12 (omega arith) (omega arith),
                                (
                                  hours_pos 10 (omega arith) (omega arith),
                                  (
                                    hours_pos 12 (omega arith) (omega arith),
                                    (hours_pos 12 (omega arith) (omega arith), tt),
                                  ),
                                ),
                              ),
                            ),
                          ),
                        ),
                      ),
                    ),
                  ),
                ),
              ),
            )

      -- Decay never enlarges an edge nor turns its sign, for an edge and a time that are not
      -- negative.
      pub estimate_edge_remaining_bounds :
          (edge since until : F) (league market : String)
          → whole 0 ≤ edge
          → whole 0 ≤ since
          → (whole 0 ≤ estimate_edge_remaining edge since until league market)
            × (estimate_edge_remaining edge since until league market ≤ edge)
      unfolding estimate_edge_remaining
      estimate_edge_remaining_bounds edge since until league market h k =
          let half_life =
            get_or default_half_life_hours (lookup_pair (upper league) (upper market) half_lives) in
          let factor = f.power (f.decimal 5 1) (since / half_life) in
          let elapsed : whole 0 ≤ since / half_life =
            div_nonneg laws since half_life (half_life_pos (upper league) (upper market)) k in
          (
            mul_nonneg laws edge factor h
                (power_nonneg (f.decimal 5 1) (since / half_life) half_pos),
            mul-le_self laws edge factor h (
                power-le_one (f.decimal 5 1) (since / half_life) half_pos
                  (decimal_mono 5 1 1 0 (omega arith)) elapsed),
          )

      -- An edge below 2.0 is passed over, if neither it nor the time until the game is negative.
      pub should_bet_now-pass :
          (edge quality hours : F) (league market : String)
          → whole 0 ≤ edge
          → whole 0 ≤ hours
          → edge < f.decimal 20 1
          → should_bet_now edge quality hours league market ≡ pass
      unfolding should_bet_now
      should_bet_now-pass edge quality hours league market h k small =
          let remaining = estimate_edge_remaining edge hours (whole 0) league market in
          let two = f.decimal 20 1 in
          let decayed : (two ≤? remaining) ≡ false = not_le_of_lt laws remaining two (
            lt_of_le_of_lt laws remaining edge two
              (estimate_edge_remaining_bounds edge hours (whole 0) league market h k).1 small) in
          rw
            (
              not_le_of_lt laws edge two small,
              decayed,
              not_le_of_lt laws edge (f.decimal 30 1)
                  (lt_of_lt_of_le laws edge two _ small (decimal_mono 20 1 30 1 (omega arith))),
              not_le_of_lt laws edge (f.decimal 50 1)
                  (lt_of_lt_of_le laws edge two _ small (decimal_mono 20 1 50 1 (omega arith))),
            )
            (ground arith)
