-- ===== src/Core/Pipeline/Run/Total.antt =====
-- What storing the edges of a run and placing its bets can raise: the keys of the plan are those of
-- the stored edges, so that no look-up fails, and an ApiError of a bet is an error of its game.
use bookie_breaker_agent.Prelude.{
  String, List, [], ◌∷◌, ◌≡◌, refl, ◌∙◌, ap, inl, inr, Option, none, some, Bool, All, Any, here,
  there, Result, ok, raise, Exception, api_error, value_error, other, Yields, yielded, failed_with,
  >>=-Yields, Yields-mono, AnyValue, yields, insert, eq_refl,
}
use mathlib.Core.Path.{subst}
use bookie_breaker_agent.Float.{Float}
use bookie_breaker_agent.Float.Time.{DateTime}
use bookie_breaker_agent.Core.Detector.Candidates.{EdgeCandidate}
use bookie_breaker_agent.Core.Bettor.{BetPlan, Format, candidate_key, plan}
use bookie_breaker_agent.Core.Bettor.Plan.{
  HasKey, insert-HasKey, All-mono, IsSizedIn, IsGated, plan-IsSizedIn, plan-IsGated,
}
use bookie_breaker_agent.Core.Bettor.Place.{
  EdgeRecord, BetBody, Emulator, Store, World, bad_uuid, set_paper_bet, link, place_unless,
  place_bet,
}
use bookie_breaker_agent.Core.Pipeline.Outcome.{IsUnexpected, unexpected_value, unexpected_other}
use bookie_breaker_agent.Core.Pipeline.Run.{Bets, insert_edges, record_bet, place_bets, bet_on}

-- What a bet can raise: what the emulator raises, the ValueError of a bet id that is no UUID, and what
-- the write of the link raises.
pub data BetCause {ℓ κ} {F : Type ℓ} {S : Type κ} (emulator : Emulator F S) (store : Store)
    (e : Exception) : Type (ℓ ⊔ κ) where
  by_emulator :
      (key : String) (body : BetBody F) (s : S)
      → (emulator.post_bet key body s).0 ≡ raise e
      → BetCause emulator store e
  by_uuid :
      (bet_id : String) → store.uuid_of bet_id ≡ none → bad_uuid ≡ e → BetCause emulator store e
  by_write :
      (edge_id bet_id : String)
      → store.write_error edge_id bet_id ≡ some e
      → BetCause emulator store e

-- What a run can raise from the storing of its edges on.
pub data RunCause {ℓ κ} {F : Type ℓ} {S : Type κ} (emulator : Emulator F S) (store : Store)
    (insert_edge : EdgeCandidate F → F → Result (EdgeRecord F)) (e : Exception) : Type (ℓ ⊔ κ) where
  by_insert :
      (c : EdgeCandidate F) (stake : F)
      → insert_edge c stake ≡ raise e
      → RunCause emulator store insert_edge e
  by_bet : IsUnexpected e → BetCause emulator store e → RunCause emulator store insert_edge e

-- The exception of a result is the one that it raised.
abbrev raised_by {ℓ} : {A : Type ℓ} → Exception → Result A → Exception
raised_by d (ok a) = d
raised_by d (raise e) = e

module _ {ℓ κ} {F : Type ℓ} {S : Type κ} (format : Format F) (uuid5 : String → String)
    (emulator : Emulator F S) (store : Store)
    (insert_edge : EdgeCandidate F → F → Result (EdgeRecord F)) where
  abbrev Cause : Exception → Type (ℓ ⊔ κ)
  Cause = RunCause emulator store insert_edge

  -- Storing the edges gives a row for every candidate, and keeps those of before.
  abbrev AreStored :
      List (EdgeCandidate F) → List (String × EdgeRecord F) → List (String × EdgeRecord F) → Type ℓ
  AreStored cs records rows =
      All (λ c. HasKey rows (candidate_key format c)) cs
      × ((key : String) → HasKey records key → HasKey rows key)

  insert_edges-Yields :
      (planned : BetPlan F) (cs : List (EdgeCandidate F)) (records : List (String × EdgeRecord F))
      → All (λ c. HasKey planned.stakes (candidate_key format c)) cs
      → Yields Cause (AreStored cs records) (insert_edges format insert_edge planned cs records)
  unfolding insert_edges
  insert_edges-Yields planned [] records h = yielded records (tt, λ key k. k)
  insert_edges-Yields planned (c ∷ cs) records ((stake, e), hs) =
      let key = candidate_key format c in
      rw e (
        >>=-Yields (yields Cause (insert_edge c stake) (λ e. by_insert c stake)) (λ row u.
          Yields-mono (insert_edges-Yields planned cs (insert key row records) hs)
            (λ rows (all, keeps). (
              (keeps key (insert-HasKey key key row records (inl (eq_refl key))), all),
              λ k h. keeps k (insert-HasKey key k row records (inr h)),
            ))))

  -- What the link raises is a cause.
  set_paper_bet-BetCause :
      (edge_id bet_id : String) (paper_bet_id : Option String) (failure : Option Exception)
      (world : World S) (e : Exception)
      → store.uuid_of bet_id ≡ paper_bet_id
      → store.write_error edge_id bet_id ≡ failure
      → (set_paper_bet format uuid5 emulator store edge_id bet_id paper_bet_id failure world).0
        ≡ raise e
      → BetCause emulator store e
  set_paper_bet-BetCause edge_id bet_id none failure world e u w h =
      by_uuid bet_id u (ap (raised_by e) h)
  set_paper_bet-BetCause edge_id bet_id (some id) (some e₀) world e u w h =
      by_write edge_id bet_id (w ∙ ap some (ap (raised_by e) h))
  set_paper_bet-BetCause edge_id bet_id (some id) none world e u w h = cc

  link-BetCause :
      (id : String) (world : World S) (reply : Result String × S) (e : Exception)
      → (reply.0 ≡ raise e → BetCause emulator store e)
      → (link format uuid5 emulator store id world reply).0 ≡ raise e
      → BetCause emulator store e
  link-BetCause id world (raise e₀, s) e cause h = cause (ap raise (ap (raised_by e) h))
  link-BetCause id world (ok bet_id, s) e cause h =
      set_paper_bet-BetCause id bet_id (store.uuid_of bet_id) (store.write_error id bet_id) _ e refl
        refl h

  place_unless-BetCause :
      (linked : Option String) (row : EdgeRecord F) (stake kelly : F) (world : World S)
      (e : Exception)
      → (place_unless format uuid5 emulator store linked row stake kelly world).0 ≡ raise e
      → BetCause emulator store e
  place_unless-BetCause (some id) row stake kelly world e h = cc
  place_unless-BetCause none row stake kelly world e h =
      link-BetCause row.id world _ e (by_emulator _ _ world.emulator) h

  record_bet-Yields :
      (row : EdgeRecord F) (bets : Bets S) (result : Result (Option String) × World S)
      → ((e : Exception) → result.0 ≡ raise e → BetCause emulator store e)
      → Yields Cause AnyValue (record_bet format uuid5 emulator store row bets result)
  unfolding record_bet
  record_bet-Yields row bets (ok none, world) h = yielded _ tt
  record_bet-Yields row bets (ok (some id), world) h = yielded _ tt
  record_bet-Yields row bets (raise (api_error e), world) h = yielded _ tt
  record_bet-Yields row bets (raise (value_error m), world) h =
      failed_with _ (by_bet (unexpected_value m) (h _ refl))
  record_bet-Yields row bets (raise (other m), world) h =
      failed_with _ (by_bet (unexpected_other m) (h _ refl))

  place_bets-Yields :
      (planned : BetPlan F) (rows : List (String × EdgeRecord F)) (keys : List String)
      (bets : Bets S)
      → All (λ key. HasKey rows key × (HasKey planned.stakes key × HasKey planned.kelly key)) keys
      → Yields Cause AnyValue (place_bets format uuid5 emulator store planned rows keys bets)
  unfolding place_bets place_bet
  place_bets-Yields planned rows [] bets h = yielded bets tt
  place_bets-Yields planned rows (key ∷ keys) bets (((row, r), ((stake, s), (kelly, k))), hs) =
      rw (r, s, k)
        (>>=-Yields
          (record_bet-Yields row bets
            (place_unless format uuid5 emulator store row.paper_bet_id row stake kelly bets.world)
            (place_unless-BetCause row.paper_bet_id row stake kelly bets.world))
          (λ mid u. place_bets-Yields planned rows keys mid hs))

  -- What holds of every candidate's key holds of a key that a candidate has.
  key-of {μ} :
      (P : String → Type μ) (gate : String → EdgeCandidate F → Type 0) (key : String)
      (cs : List (EdgeCandidate F))
      → ((c : EdgeCandidate F) → gate key c → candidate_key format c ≡ key)
      → All (λ c. P (candidate_key format c)) cs
      → Any (gate key) cs
      → P key
  key-of P gate key (c ∷ cs) same (h, hs) (here _ _ g) = subst P (same c g) h
  key-of P gate key (c ∷ cs) same (h, hs) (there _ _ m) = key-of P gate key cs same hs m
  key-of P gate key [] same h m = elim m [ ]

  module _ ⦃f : Float F⦄ where
    -- Whatever the emulator and the database do, storing the edges of a run and placing the bets
    -- of its plan look up no key that is missing. They return, or raise what the insertion of an
    -- edge raised, or an exception that is not an ApiError: one of the emulator, the ValueError
    -- of a bet id that is no UUID, or one of the write of the link.
    pub bet_on-Yields :
        (limit : F) (candidates : List (EdgeCandidate F)) (bankroll exposure : F) (auto_bet : Bool)
        (now : DateTime) (threshold : Option F) (world : World S)
        → Yields (RunCause emulator store insert_edge) AnyValue (
            bet_on format uuid5 emulator store insert_edge
              (plan format limit candidates bankroll exposure auto_bet now threshold)
              candidates
              world)
    unfolding bet_on
    bet_on-Yields limit candidates bankroll exposure auto_bet now threshold world =
        let planned = plan format limit candidates bankroll exposure auto_bet now threshold in
        let sized =
          plan-IsSizedIn format limit candidates bankroll exposure auto_bet now threshold in
        >>=-Yields
          (insert_edges-Yields planned candidates []
            (All-mono candidates (λ c (stake, _). stake) sized))
          (λ rows (all, _).
            place_bets-Yields planned rows planned.to_bet
              record { world = world; bets_placed = 0; bet_errors = [] }
              (All-mono planned.to_bet
                (λ key (on, gated). (
                  key-of (HasKey rows) (IsGated format now threshold) key candidates
                      (λ c (id, _, _). id) all gated,
                  key-of (IsSizedIn planned) (IsGated format now threshold) key candidates
                      (λ c (id, _, _). id) sized gated,
                ))
                (plan-IsGated format limit candidates bankroll exposure auto_bet now threshold)))
