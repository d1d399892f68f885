-- ===== src/Engine/Verdicts.antt =====
-- Who wins, and what `resolve_market` leaves behind.
use ratio.Base.{
  ℕ, ◌+◌, ◌<◌, ◌≡◌, refl, ap, ◌∙◌, Option, none, some, List, [], ◌∷◌, String, string_eq, arith, ◌⊎◌,
  inl, inr, ◌↔◌, if◌then◌else◌,
}
use ratio.Base.Maps.{adjust}
use ratio.Store.Records.{
  MarketRecord, Side, side_b, MarketStatus, settled, forfeited, LikeSampleRecord,
}
use ratio.Store.Memory.{list_like_samples, update_market, save_bet}
use ratio.Engine.World.{
  Result, ok, throw, Services, EngineConfig, World, History, read_tweet, asked_settle, usd, XTweet,
  Odds,
}
use ratio.Engine.Frames.{Frame, Moves-bind, Moves-reads}
use ratio.Flow.Ends.{
  Ends, Ends-pure, Ends-ask, Ends-tell, Ends-reads, Ends-writes, Ends-branch, Ends-cases-none,
  Ends-cases-some, Ends-ask_both, Ends-bind, Ends-catch,
}
use ratio.Engine.Walk.Settlement.{Moves-pay_all, Moves-announce}
use ratio.Engine.Settlement.{
  verdict, Outcome, close, raised_usd, rescue, backed_odds, finish, settle_on, outcome_of,
  resolve_market,
}

-- What a side counts for: nothing if it cannot be read, else its likes and one.
abbrev pub standing : Option XTweet → ℕ
standing none = 0
standing (some t) = t.like_count + 1

-- Side B wins exactly when it stands above side A: it can be read, and side A cannot be or has
-- fewer likes. In a tie, or if neither can be read, side A wins.
pub verdict-eq-side_b_iff :
    (a b : Option XTweet) → (verdict a b ≡ side_b) ↔ (standing a < standing b)
unfolding verdict
verdict-eq-side_b_iff (some a) (some b) = (λ h. ground arith, λ h. ground arith)
verdict-eq-side_b_iff (some a) none = (λ h. cc, λ h. absurd (omega arith))
verdict-eq-side_b_iff none (some b) = (λ h. omega arith, λ h. refl)
verdict-eq-side_b_iff none none = (λ h. cc, λ h. absurd (omega arith))

-- The verdicts that were sent to the chain, the latest first.
abbrev pub settles : History → List (String × Side)
settles [] = []
settles (asked_settle refs winner ∷ h) = (refs, winner) ∷ settles h
settles (e ∷ h) = settles h

-- A market ends as settled if both tweets could be read, and as a forfeit otherwise.
abbrev pub IsStatus : Option XTweet → Option XTweet → MarketStatus → Type 0
IsStatus (some a) (some b) status = status ≡ settled
IsStatus _ _ status = status ≡ forfeited

-- The count of a tweet that could be read is its likes.
abbrev pub IsCount : Option XTweet → ℕ → Type 0
IsCount none likes = Unit
IsCount (some t) likes = likes ≡ t.like_count

-- An outcome that is true to what was found.
abbrev pub Fits : Option XTweet → Option XTweet → Outcome → Type 0
Fits a b o =
    IsStatus a b (if o.forfeit then forfeited else settled)
    × IsCount a o.likes_a
    × IsCount b o.likes_b

pub outcome_of-Fits :
    (services : Services) (config : EngineConfig) (r : MarketRecord) (a b : Option XTweet)
    (samples : List LikeSampleRecord)
    → Fits a b (outcome_of services config r a b samples)
unfolding outcome_of
outcome_of-Fits services config r (some a) (some b) samples = (refl, refl, refl)
outcome_of-Fits services config r (some a) none samples = (refl, refl, tt)
outcome_of-Fits services config r none (some b) samples = (refl, tt, refl)
outcome_of-Fits services config r none none samples = (refl, tt, tt)

-- No verdict was sent and no market has changed.
abbrev pub Waits : World → World → Type 0
Waits v w = (settles w.history ≡ settles v.history) × (w.store.markets ≡ v.store.markets)

abbrev Quiet : Frame
Quiet = record {
  Rel = Waits;
  rel_refl = λ w. (refl, refl);
  rel_trans = λ u v w p q. (q.0 ∙ p.0, q.1 ∙ p.1);
}

module _ (services : Services) (config : EngineConfig) where
  -- Somebody backed the winner by the odds that are settled on: a bettor, or the treasury.
  abbrev pub IsBacked : MarketRecord → Side → Odds → Type 0
  IsBacked r winner odds =
      ((h : History) × (services.get_odds h r.chain_refs ≡ ok odds))
      × ((0 < raised_usd odds winner)
          ⊎ ((h : History) × (tokens : ℕ) × (services.place_bet h (record {
            refs = r.chain_refs;
            side = winner;
            stake = usd config.seed_per_side_usd;
            bettor = config.protocol_wallet;
          })
                ≡ ok tokens)))

  -- What `resolve_market` does with a verdict, of what was found of the two tweets.
  pub data IsResolved (r : MarketRecord) (asked : Side) (a b : Option XTweet) (v w : World)
      : Type 0 where
    -- It is not sent.
    waits : Waits v w → IsResolved r asked a b v w
    -- The chain refuses it, and the market stays open.
    refused :
        (odds : Odds) (h : History) (e : String)
        → IsBacked r asked odds
        → services.settle h r.chain_refs asked ≡ throw e
        → settles w.history ≡ (r.chain_refs, asked) ∷ settles v.history
        → w.store.markets ≡ v.store.markets
        → IsResolved r asked a b v w
    -- The market closes with the winner that the chain answers.
    closed :
        (odds : Odds) (h : History) (winner : Side) (status : MarketStatus) (likes_a likes_b : ℕ)
        → IsBacked r asked odds
        → services.settle h r.chain_refs asked ≡ ok winner
        → settles w.history ≡ (r.chain_refs, asked) ∷ settles v.history
        → IsStatus a b status
        → IsCount a likes_a
        → IsCount b likes_b
        → w.store.markets
          ≡ adjust r.id
              (λ m. record m {
                status = status;
                winner = some winner;
                likes_a_final = some likes_a;
                likes_b_final = some likes_b;
                final_implied_a = some odds.implied_a;
                final_pot_usd = some (odds.raised_usd_a + odds.raised_usd_b);
              })
              v.store.markets
        → IsResolved r asked a b v w

  abbrev Rescued : MarketRecord → Side → World → Result Odds → World → Type 0
  Rescued r winner v (ok odds) w = Waits v w × IsBacked r winner odds
  Rescued r winner v (throw e) w = Waits v w

  rescue-Ends :
      (r : MarketRecord) (winner : Side) (w : World)
      → Ends (Rescued r winner w) (rescue services config r winner) w
  unfolding rescue save_bet
  rescue-Ends r winner w =
      let P = Rescued r winner w in
      Ends-ask P _ _ _ _ (λ _ _. (refl, refl))
        λ tokens bought.
          Ends-ask P _ _ _ _ (λ _ _. (refl, refl))
            λ at _. Ends-writes P _ _ _ (
              Ends-tell P _ _ _ (λ _ _. (refl, refl))
                λ odds read. ((refl, refl), ((_, read), inr (_, tokens, bought))))

  abbrev Backed : MarketRecord → Side → World → Result (Option Odds) → World → Type 0
  Backed r winner v (ok (some odds)) w = Waits v w × IsBacked r winner odds
  Backed r winner v _ w = Waits v w

  backed_odds-Ends :
      (r : MarketRecord) (winner : Side) (odds : Odds) (h : History) (w : World)
      → services.get_odds h r.chain_refs ≡ ok odds
      → Ends (Backed r winner w) (backed_odds services config r winner odds) w
  unfolding backed_odds
  backed_odds-Ends r winner odds h w read =
      let P = Backed r winner w in
      Ends-branch P _ _ _ _
        (λ _.
          Ends-catch P {Q = P} _ _ _
            (Ends-bind P {Q = Rescued r winner w} _ _ _ (rescue-Ends r winner w) (λ e v q. q)
              λ again v q. Ends-pure P _ _ q)
            (elim [ none ↦ λ v q. q | some o ↦ λ v q. q ]) (λ e v q. Ends-pure P _ _ q))
        (λ some_money.
          Ends-pure P _ _ ((refl, refl), ((h, read), inl (ground (arith, some_money)))))

  abbrev Resolved :
      MarketRecord
      → Side
      → Option XTweet
      → Option XTweet
      → World
      → Result (Unit {0})
      → World
      → Type 0
  Resolved r asked a b v res w = IsResolved r asked a b v w

  finish-Ends :
      (r : MarketRecord) (o : Outcome) (odds : Odds) (a b : Option XTweet) (v w : World)
      → Fits a b o
      → Waits v w
      → IsBacked r o.winner odds
      → Ends (Resolved r o.winner a b v) (finish services config r o odds) w
  unfolding finish update_market close
  finish-Ends r o odds a b v w (status, count_a, count_b) q backed =
      let P = Resolved r o.winner a b v in
      Ends-ask P _ _ _ _
        (λ e no_way.
          refused odds w.history e backed no_way (ap (λ l. (r.chain_refs, o.winner) ∷ l) q.0) q.1)
        λ winner declared. Ends-writes P _ _ _ (record {
          ends =
              let rest =
                (Moves-bind Quiet _ _ (Moves-reads Quiet _) λ paid.
                    Moves-bind Quiet _ _
                      (Moves-pay_all Quiet services config (λ x w. (refl, refl))
                        (λ refs win b w. (refl, refl)) r winner [] paid)
                      λ _.
                        Moves-announce Quiet services config (λ to m link w. (refl, refl)) r o odds
                          winner).rel
                  _ in
              closed odds w.history winner _ o.likes_a o.likes_b backed declared
                (rest.0 ∙ ap (λ l. (r.chain_refs, o.winner) ∷ l) q.0) status count_a count_b
                (rest.1 ∙ ap (adjust r.id (close o odds winner)) q.1);
        })

  settle_on-Ends :
      (r : MarketRecord) (o : Outcome) (a b : Option XTweet) (v w : World)
      → Fits a b o
      → Waits v w
      → Ends (Resolved r o.winner a b v) (settle_on services config r o) w
  unfolding settle_on
  settle_on-Ends r o a b v w fits q =
      let P = Resolved r o.winner a b v in
      Ends-ask P _ _ _ _ (λ _ _. waits q)
        λ odds read.
          Ends-bind P {Q = Backed r o.winner w} _ _ _
            (backed_odds-Ends r o.winner odds w.history _ read)
            (λ e u q'. waits (Quiet.rel_trans v w u q q'))
            (elim [
              | none ↦ λ u q'.
                  Ends-cases-none P _ _ _ (Ends-pure P _ _ (waits (Quiet.rel_trans v w u q q')))
              | some odds' ↦ λ u q'.
                  Ends-cases-some P _ _ _ _
                    (finish-Ends r o odds' a b v u fits (Quiet.rel_trans v w u q q'.0) q'.1)
            ])

-- What follows from the two tweets that were found: one verdict, which is for side B exactly if that
-- stands above side A, and what becomes of it.
abbrev pub Concludes :
    Services → EngineConfig → MarketRecord → Option XTweet → Option XTweet → World → World → Type 0
Concludes services config r a b v w =
    (asked : Side) × ((asked ≡ side_b) ↔ (standing a < standing b))
    × IsResolved services config r asked a b v w

pub resolve_market-IsResolved :
    (services : Services) (config : EngineConfig) (r : MarketRecord) (w : World)
    → let w' = (resolve_market services config r w).1 in
      Waits w w'
      ⊎ ((a : Option XTweet) × (b : Option XTweet) × (services.get_tweet w.history r.tweet_a_id
            ≡ ok a)
          × (services.get_tweet (read_tweet r.tweet_a_id ∷ w.history) r.tweet_b_id ≡ ok b)
          × Concludes services config r a b w w')
unfolding resolve_market
resolve_market-IsResolved services config r w =
    (Ends-ask_both P _ _ _ _ _ _ (λ e. inl (refl, refl))
      λ a b found_a found_b. Ends-reads P _ _ _ (
        let o = outcome_of services config r a b (list_like_samples r.id w.store) in
        record {
          ends = inr (
            a,
            b,
            found_a,
            found_b,
            (
              o.winner,
              unfold outcome_of in verdict-eq-side_b_iff a b,
              (settle_on-Ends services config r o a b w _ (outcome_of-Fits services config r a b _)
                  (refl, refl)).ends,
            ),
          );
        })).ends
  where
    P : Result (Unit {0}) → World → Type 0
    P res w' =
        Waits w w'
        ⊎ ((a : Option XTweet) × (b : Option XTweet) × (services.get_tweet w.history r.tweet_a_id
              ≡ ok a)
            × (services.get_tweet (read_tweet r.tweet_a_id ∷ w.history) r.tweet_b_id ≡ ok b)
            × Concludes services config r a b w w')
