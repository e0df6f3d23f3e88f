-- ===== src/Core/Props/Requests.antt =====
-- The prop requests hold no duplicate, and each asks for a simulated stat of a simulated player.
use bookie_breaker_agent.Prelude.{
  ◌≡◌, refl, String, List, [], ◌∷◌, All, any, Option, none, some, false, lookup, lower, text_of,
  inl, inr, Bool-cases, arith,
}
use bookie_breaker_agent.Float.{Float}
use bookie_breaker_agent.Clients.Payloads.{LineSnapshot}
use bookie_breaker_agent.Core.Props.{
  Bridge, BridgedPlayer, PropRequest, RequestKey, key_of, key_eq, lacks, text_of, request_for, emit,
  build_prop_requests,
}

module _ {ℓ} {F : Type ℓ} ⦃f : Float F⦄ where
  -- No key comes a second time.
  abbrev pub NoRepeat : List (PropRequest F) → Type 0
  NoRepeat [] = Unit
  NoRepeat (r ∷ rs) = All (λ r'. key_eq (key_of r') (key_of r) ≡ false) rs × NoRepeat rs

  abbrev IsUnseen : List (RequestKey F) → List (PropRequest F) → Type 0
  IsUnseen seen rs = All (λ r. any (key_eq (key_of r)) seen ≡ false) rs

  drop_first :
      (k : RequestKey F) (seen : List (RequestKey F)) (rs : List (PropRequest F))
      → IsUnseen (k ∷ seen) rs
      → IsUnseen seen rs
  drop_first k seen [] h = tt
  drop_first k seen (r ∷ rs) (h, hs) = (ground arith, drop_first k seen rs hs)

  apart_first :
      (k : RequestKey F) (seen : List (RequestKey F)) (rs : List (PropRequest F))
      → IsUnseen (k ∷ seen) rs
      → All (λ r. key_eq (key_of r) k ≡ false) rs
  apart_first k seen [] h = tt
  apart_first k seen (r ∷ rs) (h, hs) = (ground arith, apart_first k seen rs hs)

  abbrev IsFresh : List (RequestKey F) → List (PropRequest F) → Type 0
  IsFresh seen rs = IsUnseen seen rs × NoRepeat rs

  emit-IsFresh :
      (c : Option (PropRequest F)) (seen : List (RequestKey F))
      (rest : List (RequestKey F) → List (PropRequest F))
      → ((seen' : List (RequestKey F)) → IsFresh seen' (rest seen'))
      → IsFresh seen (emit c seen rest)
  unfolding emit
  emit-IsFresh none seen rest h = h seen
  emit-IsFresh (some r) seen rest h = elim (Bool-cases (any (key_eq (key_of r)) seen)) [
    | inl e ↦ rw e (h seen)
    | inr e ↦
        let k = key_of r in
        let (unseen, distinct) = h (k ∷ seen) in
        rw e (
          (e, drop_first k seen (rest (k ∷ seen)) unseen),
          (apart_first k seen (rest (k ∷ seen)) unseen, distinct),
        )
  ]

  build-IsFresh :
      (bridge : Bridge) (lines : List (LineSnapshot F)) (seen : List (RequestKey F))
      → IsFresh seen (build_prop_requests bridge lines seen)
  unfolding build_prop_requests
  build-IsFresh bridge [] seen = (tt, tt)
  build-IsFresh bridge (line ∷ lines) seen =
      emit-IsFresh _ seen (build_prop_requests bridge lines) (build-IsFresh bridge lines)

  -- The prop requests that are built for any lines never ask twice for the same player, stat,
  -- line and side.
  pub build_prop_requests-NoRepeat :
      (bridge : Bridge) (lines : List (LineSnapshot F))
      → NoRepeat (build_prop_requests bridge lines [])
  build_prop_requests-NoRepeat bridge lines = (build-IsFresh bridge lines []).1

  -- The request is for a player of the bridge, and for a stat that was simulated for the player, if
  -- any were named.
  abbrev pub IsSimulated : Bridge → PropRequest F → Type 0
  IsSimulated bridge r =
      (slug : String) × (player : BridgedPlayer) × (lookup slug bridge ≡ some player)
      × (r.player_external_id ≡ player.player_uuid)
      × (lacks player.stat_types (lower (text_of r.stat_type)) ≡ false)

  abbrev HoldsOf : (PropRequest F → Type 0) → Option (PropRequest F) → Type 0
  HoldsOf P none = Unit
  HoldsOf P (some r) = P r

  emit-All :
      (P : PropRequest F → Type 0) (c : Option (PropRequest F)) (seen : List (RequestKey F))
      (rest : List (RequestKey F) → List (PropRequest F))
      → HoldsOf P c
      → ((seen' : List (RequestKey F)) → All P (rest seen'))
      → All P (emit c seen rest)
  unfolding emit
  emit-All P none seen rest h hs = hs seen
  emit-All P (some r) seen rest h hs = elim (Bool-cases (any (key_eq (key_of r)) seen)) [
    | inl e ↦ rw e (hs seen)
    | inr e ↦ rw e (h, hs (key_of r ∷ seen))
  ]

  request_for-IsSimulated :
      (bridge : Bridge) (slug : String) (found : Option BridgedPlayer) (line : LineSnapshot F)
      → lookup slug bridge ≡ found
      → HoldsOf (IsSimulated bridge) (request_for found line)
  unfolding request_for
  request_for-IsSimulated bridge slug none line e = tt
  request_for-IsSimulated bridge slug (some player) line e =
      elim (Bool-cases (lacks player.stat_types (lower (text_of line.stat_type)))) [
        | inl g ↦ rw g tt
        | inr g ↦ rw g (slug, player, e, refl, g)
      ]

  -- Every prop request that is built is for a player of the bridge, and for a stat that was
  -- simulated for that player wherever the simulation named its stats.
  pub build_prop_requests-IsSimulated :
      (bridge : Bridge) (lines : List (LineSnapshot F)) (seen : List (RequestKey F))
      → All (IsSimulated bridge) (build_prop_requests bridge lines seen)
  unfolding build_prop_requests
  build_prop_requests-IsSimulated bridge [] seen = tt
  build_prop_requests-IsSimulated bridge (line ∷ lines) seen =
      emit-All (IsSimulated bridge) _ seen (build_prop_requests bridge lines)
        (request_for-IsSimulated bridge (text_of line.player_external_id) _ line refl)
        (build_prop_requests-IsSimulated bridge lines)
