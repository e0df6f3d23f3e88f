-- ===== src/Core/Bettor/Plan.antt =====
-- What a run's plan bets on.
pub mod Stakes
use bookie_breaker_agent.Prelude.{
  String, List, [], ◌∷◌, map, select, ◌≡◌, refl, true, false, inl, inr, ◌⊎◌, Option, some, Bool,
  All, Any, here, there, insert, lookup, lookup-insert, Bool-cases, str_eq, arith, eq_refl,
}
use bookie_breaker_agent.Float.{Float, IsFloat, ◌*◌, ◌/◌, ◌≤◌, ◌≤?◌, ◌<?◌, whole}
use bookie_breaker_agent.Float.Order.{le-max_right}
use bookie_breaker_agent.Float.Time.{DateTime}
use bookie_breaker_agent.Edges.Kelly.{BetSizing, total_exposure, rescale, scale_simultaneous_bets}
use bookie_breaker_agent.Core.Detector.Candidates.{EdgeCandidate}
use bookie_breaker_agent.Core.Bettor.{
  BetPlan, Format, candidate_key, should_bet, over_threshold, bettable, available_exposure,
  sizing_of, size_all, add_bets, sizings, empty_plan, plan,
}

module _ {ℓ} {A : Type ℓ} where
  -- What is selected was there, and passed the test.
  pub Any-select {κ} :
      (P : A → Type κ) (test : A → Bool) (xs : List A)
      → Any P (select test xs)
      → Any (λ x. (test x ≡ true) × P x) xs
  Any-select P test [] h = elim h [ ]
  Any-select P test (x ∷ xs) h = elim (Bool-cases (test x)) [
    | inr e ↦ there x xs (Any-select P test xs (rw e at h))
    | inl e ↦ elim (rw e at h) [
      | here _ _ p ↦ here x xs (e, p)
      | there _ _ m ↦ there x xs (Any-select P test xs m)
    ]
  ]

  pub Any-mono {κ μ} :
      {P : A → Type κ} {Q : A → Type μ} (xs : List A) → ((x : A) → P x → Q x) → Any P xs → Any Q xs
  Any-mono (x ∷ xs) g (here _ _ p) = here x xs (g x p)
  Any-mono (x ∷ xs) g (there _ _ m) = there x xs (Any-mono xs g m)
  Any-mono [] g h = elim h [ ]

pub Any-map {ℓ κ μ} :
    {A : Type ℓ} {B : Type κ} (P : B → Type μ) (g : A → B) (xs : List A)
    → Any P (map g xs)
    → Any (λ x. P (g x)) xs
Any-map P g [] h = elim h [ ]
Any-map P g (x ∷ xs) (here _ _ p) = here x xs p
Any-map P g (x ∷ xs) (there _ _ m) = there x xs (Any-map P g xs m)

pub All-mono {ℓ κ μ} :
    {A : Type ℓ} {P : A → Type κ} {Q : A → Type μ} (xs : List A)
    → ((x : A) → P x → Q x)
    → All P xs
    → All Q xs
All-mono [] g h = tt
All-mono (x ∷ xs) g (p, h) = (g x p, All-mono xs g h)

-- The key has a value.
abbrev pub HasKey {ℓ} : {V : Type ℓ} → List (String × V) → String → Type ℓ
HasKey {V = V} d key = (v : V) × (lookup key d ≡ some v)

pub insert-HasKey {ℓ} :
    {V : Type ℓ} (key name : String) (v : V) (d : List (String × V))
    → (str_eq key name ≡ true) ⊎ HasKey d name
    → HasKey (insert key v d) name
insert-HasKey key name v d h = elim (Bool-cases (str_eq key name)) [
  | inl e ↦ (v, rw (lookup-insert key name v d, e) refl)
  | inr e ↦ elim h [ inl g ↦ cc | inr (w, g) ↦ (w, rw (lookup-insert key name v d, e, g) refl) ]
]

module _ {ℓ} {F : Type ℓ} ⦃f : Float F⦄ where
  -- The plan has a stake and a fraction for the key: reading them raises no KeyError.
  abbrev pub IsSizedIn : BetPlan F → String → Type ℓ
  IsSizedIn plan key = HasKey plan.stakes key × HasKey plan.kelly key

  -- The candidate passes the gates of the run, under the key.
  abbrev pub IsGated : Format F → DateTime → Option F → String → EdgeCandidate F → Type 0
  IsGated format now min_edge_threshold key c =
      (candidate_key format c ≡ key)
      × (should_bet c now ≡ true)
      × (over_threshold min_edge_threshold c ≡ true)

  size_all-IsSizedIn_old :
      (format : Format F) (bankroll : F) (candidates : List (EdgeCandidate F)) (p : BetPlan F)
      (key : String)
      → IsSizedIn p key
      → IsSizedIn (size_all format bankroll candidates p) key
  unfolding size_all
  size_all-IsSizedIn_old format bankroll [] p key h = h
  size_all-IsSizedIn_old format bankroll (c ∷ candidates) p key (s, k) =
      size_all-IsSizedIn_old format bankroll candidates _ key
        (insert-HasKey _ key _ p.stakes (inr s), insert-HasKey _ key _ p.kelly (inr k))

  size_all-IsSizedIn :
      (format : Format F) (bankroll : F) (candidates : List (EdgeCandidate F)) (p : BetPlan F)
      → All
          (λ c. IsSizedIn (size_all format bankroll candidates p) (candidate_key format c))
          candidates
  unfolding size_all
  size_all-IsSizedIn format bankroll [] p = tt
  size_all-IsSizedIn format bankroll (c ∷ candidates) p =
      let key = candidate_key format c in
      (
        size_all-IsSizedIn_old format bankroll candidates _ key (
          insert-HasKey key key _ p.stakes (inl (eq_refl key)),
          insert-HasKey key key _ p.kelly (inl (eq_refl key)),
        ),
        size_all-IsSizedIn format bankroll candidates _,
      )

  -- Adding bets to a plan keeps its stakes' keys.
  add_bets-IsSizedIn :
      (bankroll : F) (bets : List (BetSizing F)) (p : BetPlan F) (key : String)
      → IsSizedIn p key
      → IsSizedIn (add_bets bankroll bets p) key
  unfolding add_bets
  add_bets-IsSizedIn bankroll [] p key h = h
  add_bets-IsSizedIn bankroll (b ∷ bets) p key (s, k) =
      let h =
        add_bets-IsSizedIn bankroll bets
          (record p {
            stakes = insert b.game_id (f.round_to 2 (b.kelly * bankroll)) p.stakes;
            kelly = insert b.game_id b.kelly p.kelly;
          })
          key (insert-HasKey _ key _ p.stakes (inr s), insert-HasKey _ key _ p.kelly (inr k)) in
      elim (Bool-cases (whole 0 <? f.round_to 2 (b.kelly * bankroll))) [
        | inl e ↦ rw e h
        | inr e ↦ rw e h
      ]

  -- Every candidate has a stake and a fraction in the plan, so that a run that looks them up
  -- raises no KeyError.
  pub plan-IsSizedIn :
      (format : Format F) (limit : F) (candidates : List (EdgeCandidate F)) (bankroll exposure : F)
      (auto_bet : Bool) (now : DateTime) (threshold : Option F)
      → All
          (λ c.
            IsSizedIn
              (plan format limit candidates bankroll exposure auto_bet now threshold)
              (candidate_key format c))
          candidates
  unfolding plan
  plan-IsSizedIn format limit candidates bankroll exposure false now threshold =
      size_all-IsSizedIn format bankroll candidates empty_plan
  plan-IsSizedIn format limit candidates bankroll exposure true now threshold =
      All-mono candidates (λ c h. add_bets-IsSizedIn bankroll _ _ (candidate_key format c) h)
        (size_all-IsSizedIn format bankroll candidates empty_plan)

  -- The sizing of a bet, under its key.
  abbrev pub HasId : String → BetSizing F → Type 0
  HasId key b = b.game_id ≡ key

  pub add_bets-ids :
      (bankroll : F) (bets : List (BetSizing F)) (p : BetPlan F)
      → p.to_bet ≡ []
      → All (λ key. Any (HasId key) bets) (add_bets bankroll bets p).to_bet
  unfolding add_bets
  add_bets-ids bankroll [] p h = rw h tt
  add_bets-ids bankroll (b ∷ bets) p h =
      let sized = record p {
        stakes = insert b.game_id (f.round_to 2 (b.kelly * bankroll)) p.stakes;
        kelly = insert b.game_id b.kelly p.kelly;
      } in
      let rest : All (λ key. Any (HasId key) (b ∷ bets)) (add_bets bankroll bets sized).to_bet =
        All-mono _ (λ key m. there b bets m) (add_bets-ids bankroll bets sized h) in
      elim (Bool-cases (whole 0 <? f.round_to 2 (b.kelly * bankroll))) [
        | inl e ↦ rw e (here b bets refl, rest)
        | inr e ↦ rw e rest
      ]

  pub size_all-to_bet :
      (format : Format F) (bankroll : F) (candidates : List (EdgeCandidate F)) (p : BetPlan F)
      → (size_all format bankroll candidates p).to_bet ≡ p.to_bet
  unfolding size_all
  size_all-to_bet format bankroll [] p = refl
  size_all-to_bet format bankroll (c ∷ candidates) p = size_all-to_bet format bankroll candidates _

  -- Scaling keeps the keys.
  scaled-id :
      (key : String) (bets : List (BetSizing F)) (limit : F)
      → Any (HasId key) (scale_simultaneous_bets bets limit)
      → Any (HasId key) bets
  unfolding scale_simultaneous_bets
  scaled-id key bets limit h = elim (Bool-cases (total_exposure bets ≤? limit)) [
    | inl e ↦ rw e at h
    | inr e ↦ Any-map (HasId key) (rescale (limit / total_exposure bets)) bets (rw e at h)
  ]

  -- A run bets only when betting is on, and only on a candidate that clears the league's
  -- threshold and the timing decision, and the caller's threshold where one is given.
  pub plan-IsGated :
      (format : Format F) (limit : F) (candidates : List (EdgeCandidate F)) (bankroll exposure : F)
      (auto_bet : Bool) (now : DateTime) (threshold : Option F)
      → All
          (λ key. (auto_bet ≡ true) × Any (IsGated format now threshold key) candidates)
          (plan format limit candidates bankroll exposure auto_bet now threshold).to_bet
  unfolding plan sizings
  plan-IsGated format limit candidates bankroll exposure false now threshold =
      rw (size_all-to_bet format bankroll candidates empty_plan) tt
  plan-IsGated format limit candidates bankroll exposure true now threshold =
      All-mono _
        (λ key m. (
          refl,
          Any-mono candidates (λ c (gate, (over, id)). (id, gate, over))
              (Any-select _ (λ c. should_bet c now) candidates
                (Any-select _ (over_threshold threshold) _ (
                  Any-map (HasId key) (sizing_of format) (bettable candidates now threshold)
                    (scaled-id key _ _ m)))),
        ))
        (add_bets-ids bankroll _ (size_all format bankroll candidates empty_plan)
          (size_all-to_bet format bankroll candidates empty_plan))
