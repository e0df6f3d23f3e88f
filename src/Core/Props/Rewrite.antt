-- ===== src/Core/Props/Rewrite.antt =====
-- core/props.py, `PlayerBridge` and `rewrite_predictions_to_slugs`: prop predictions go back from the
-- players' UUIDs to the slugs that the lines carry.
use bookie_breaker_agent.Prelude.{
  String, List, [], ◌∷◌, ◌≡◌, refl, ◌∙◌, ap, false, inl, inr, Option, none, some, some-injective,
  All, lookup, insert, lookup-insert, insert-entries, str_eq, text_of, is_set, not, Bool-cases,
  eq_iff, eq_refl, if◌then◌else◌, arith,
}
use mathlib.Core.Path.{subst}
use bookie_breaker_agent.Clients.Payloads.{PredictionItem}
use bookie_breaker_agent.Core.Props.{
  Bridge, BridgedPlayer, Distribution, keep_first, build_player_bridge,
}

-- `{player.player_uuid: slug for slug, player in players.items()}`
unfoldable pub slug_by_uuid : Bridge → List (String × String) → List (String × String)
slug_by_uuid [] index = index
slug_by_uuid ((slug, player) ∷ players) index =
    slug_by_uuid players (insert player.player_uuid slug index)

unfoldable pub slug_for_uuid : Bridge → String → Option String
unfolding slug_by_uuid
slug_for_uuid bridge player_uuid = lookup player_uuid (slug_by_uuid bridge [])

-- `item.model_copy(update={"player_external_id": slug})`
abbrev pub with_slug {ℓ} : {F : Type ℓ} → PredictionItem F → String → PredictionItem F
with_slug item slug = record item { player_external_id = some slug }

abbrev pub keep_item {ℓ} :
    {F : Type ℓ}
    → PredictionItem F
    → Option String
    → List (PredictionItem F)
    → List (PredictionItem F)
keep_item item none rest = rest
keep_item item (some slug) rest = with_slug item slug ∷ rest

unfoldable pub rewrite_predictions_to_slugs {ℓ} :
    {F : Type ℓ} → List (PredictionItem F) → Bridge → List (PredictionItem F)
unfolding slug_for_uuid
rewrite_predictions_to_slugs [] bridge = []
rewrite_predictions_to_slugs (item ∷ items) bridge =
    let rest = rewrite_predictions_to_slugs items bridge in
    if not (is_set item.player_external_id)
    then rest
    else keep_item item (slug_for_uuid bridge (text_of item.player_external_id)) rest

-- The UUID is not that of the player, or of the entry.
abbrev IsOther : String → BridgedPlayer → Type 0
IsOther u player = str_eq player.player_uuid u ≡ false

-- No two players share a UUID.
abbrev UuidsDiffer : Bridge → Type 0
UuidsDiffer [] = Unit
UuidsDiffer ((slug, player) ∷ players) =
    All (λ e. IsOther player.player_uuid (e.1)) players × UuidsDiffer players

-- The keys of the payload's dict differ.
abbrev pub KeysDiffer : List (String × Distribution) → Type 0
KeysDiffer [] = Unit
KeysDiffer ((u, d) ∷ entries) = All (λ e. str_eq u (e.0) ≡ false) entries × KeysDiffer entries

-- The players come from other entries.
abbrev IsApart : List (String × Distribution) → Bridge → Type 0
IsApart entries players = All (λ p. All (λ e. IsOther (e.0) (p.1)) entries) players

slug_by_uuid-other :
    (u : String) (players : Bridge) (index : List (String × String))
    → All (λ e. IsOther u (e.1)) players
    → lookup u (slug_by_uuid players index) ≡ lookup u index
unfolding slug_by_uuid
slug_by_uuid-other u [] index h = refl
slug_by_uuid-other u ((slug, player) ∷ players) index (h, hs) =
    slug_by_uuid-other u players (insert player.player_uuid slug index) hs
    ∙ rw (lookup-insert player.player_uuid u slug index, h) refl

slug_by_uuid-lookup :
    (slug : String) (player : BridgedPlayer) (players : Bridge) (index : List (String × String))
    → UuidsDiffer players
    → lookup slug players ≡ some player
    → lookup player.player_uuid (slug_by_uuid players index) ≡ some slug
unfolding slug_by_uuid lookup
slug_by_uuid-lookup slug player [] index d h = cc
slug_by_uuid-lookup slug player ((name, p) ∷ players) index (d, ds) h =
    elim (Bool-cases (str_eq name slug)) [
      | inr e ↦ slug_by_uuid-lookup slug player players _ ds (rw e at h)
      | inl e ↦
          let same : p ≡ player = some-injective p player (rw e at h) in
          subst
            (λ q.
              lookup q.player_uuid (slug_by_uuid players (insert p.player_uuid name index))
              ≡ some slug)
            same
            (slug_by_uuid-other p.player_uuid players _ d
              ∙ rw (lookup-insert p.player_uuid p.player_uuid name index, eq_refl p.player_uuid)
                  (ap some ((eq_iff name slug).0 e)))
    ]

insert-UuidsDiffer :
    (slug : String) (player : BridgedPlayer) (players : Bridge)
    → All (λ e. IsOther player.player_uuid (e.1)) players
    → UuidsDiffer players
    → UuidsDiffer (insert slug player players)
unfolding insert
insert-UuidsDiffer slug player [] h d = (tt, tt)
insert-UuidsDiffer slug player ((name, p) ∷ players) (h, hs) (d, ds) =
    elim (Bool-cases (str_eq name slug)) [
      | inl e ↦ rw e (hs, ds)
      | inr e ↦ rw e (
        insert-entries (λ _ q. IsOther p.player_uuid q) slug player players
            (ground (
              arith,
              eq_iff p.player_uuid player.player_uuid,
              eq_iff player.player_uuid p.player_uuid,
            ))
            d,
        insert-UuidsDiffer slug player players hs ds,
      )
    ]

-- The first entry is left out.
IsApart-tail :
    (u : String) (entry : Distribution) (entries : List (String × Distribution)) (players : Bridge)
    → IsApart ((u, entry) ∷ entries) players
    → All (λ p. IsOther u (p.1)) players × IsApart entries players
IsApart-tail u entry entries [] h = (tt, tt)
IsApart-tail u entry entries (p ∷ players) ((h, hs), rest) =
    let (first, others) = IsApart-tail u entry entries players rest in ((h, first), (hs, others))

keep_first-UuidsDiffer :
    (old : Option BridgedPlayer) (player : BridgedPlayer) (players : Bridge)
    → All (λ e. IsOther player.player_uuid (e.1)) players
    → UuidsDiffer players
    → UuidsDiffer (keep_first old player players)
keep_first-UuidsDiffer none player players h d = insert-UuidsDiffer player.slug player players h d
keep_first-UuidsDiffer (some old) player players h d = d

keep_first-IsApart :
    (entries : List (String × Distribution)) (old : Option BridgedPlayer) (player : BridgedPlayer)
    (players : Bridge)
    → All (λ e. IsOther (e.0) player) entries
    → IsApart entries players
    → IsApart entries (keep_first old player players)
keep_first-IsApart entries none player players h d =
    insert-entries (λ _ q. All (λ e. IsOther (e.0) q) entries) player.slug player players h d
keep_first-IsApart entries (some old) player players h d = d

build-UuidsDiffer :
    (player_slug : String → String) (entries : List (String × Distribution)) (players : Bridge)
    → KeysDiffer entries
    → IsApart entries players
    → UuidsDiffer players
    → UuidsDiffer (build_player_bridge player_slug entries players)
unfolding build_player_bridge
build-UuidsDiffer player_slug [] players k a d = d
build-UuidsDiffer player_slug ((u, entry) ∷ entries) players (k, ks) a d =
    let (first, others) = IsApart-tail u entry entries players a in
    elim (Bool-cases (str_eq (player_slug entry.name) "")) [
      | inl e ↦ rw e (build-UuidsDiffer player_slug entries players ks others d)
      | inr e ↦ rw e (
          build-UuidsDiffer player_slug entries _ ks
            (keep_first-IsApart entries (lookup (player_slug entry.name) players) _ players k
              others)
            (keep_first-UuidsDiffer (lookup (player_slug entry.name) players) _ players first d))
    ]

-- In the bridge of a simulation run, whose players have different UUIDs, the UUID that a slug
-- resolved to is turned back into that slug.
pub slug_for_uuid-lookup :
    (player_slug : String → String) (entries : List (String × Distribution)) (slug : String)
    (player : BridgedPlayer)
    → KeysDiffer entries
    → lookup slug (build_player_bridge player_slug entries []) ≡ some player
    → slug_for_uuid (build_player_bridge player_slug entries []) player.player_uuid ≡ some slug
unfolding slug_for_uuid
slug_for_uuid-lookup player_slug entries slug player k h =
    slug_by_uuid-lookup slug player _ [] (build-UuidsDiffer player_slug entries [] k tt tt) h
