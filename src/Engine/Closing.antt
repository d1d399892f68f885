-- ===== src/Engine/Closing.antt =====
-- `resolveMarket` (apps/agent/src/engine.ts) closes its market when the services answer.
use ratio.Base.{ℕ, ◌+◌, ◌≡◌, refl, ap, subst, ◌∙◌, Option, none, some, [], String, string_eq}
use ratio.Base.Maps.{adjust}
use ratio.Store.Records.{MarketRecord, MarketStatus, Side}
use ratio.Store.Memory.{list_like_samples, update_market, save_bet}
use ratio.Engine.World.{
  Result, ok, throw, Services, EngineConfig, World, History, Odds, XTweet, Order,
}
use ratio.Engine.Monad.{done, cases}
use ratio.Engine.Frames.{Frame, Moves-bind, Moves-reads}
use ratio.Flow.Ends.{
  Ends, Ends-pure, Ends-reads, Ends-writes, Ends-bind, Ends-answered, Ends-answered_both, Ends-tell,
  Ends-catch, Ends-branch, Ends-cases-some,
}
use ratio.Engine.Walk.Settlement.{Moves-announce, Moves-pay_all}
use ratio.Engine.Verdicts.{IsStatus, IsCount, Fits, outcome_of-Fits}
use ratio.Engine.Settlement.{
  verdict, close, rescue, backed_odds, finish, settle_on, outcome_of, resolve_market, Outcome,
}

-- The markets of the store stay as they are.
abbrev SameMarkets : Frame
SameMarkets = record {
  Rel = λ v w. w.store.markets ≡ v.store.markets;
  rel_refl = λ w. refl;
  rel_trans = λ u v w p q. q ∙ p;
}

-- The odds to settle on are there, as they were read, and no market has changed.
abbrev Ready : Services → MarketRecord → World → Result (Option Odds) → World → Type 0
Ready services r v (ok (some again)) w =
    ((h : History) × (services.get_odds h r.chain_refs ≡ ok again))
    × (w.store.markets ≡ v.store.markets)
Ready services r v _ w = ⊥

-- The market, and no other, has closed: with the winner that the chain answered, as settled if both
-- tweets could be read and as a forfeit if not, with the likes that were read, and odds and pot.
pub record IsEnded (services : Services) (r : MarketRecord) (a b : Option XTweet) (v w : World)
    : Type 0 where
  pub asked_at : History
  pub winner : Side
  pub answered : services.settle asked_at r.chain_refs (verdict a b) ≡ ok winner
  pub read_at : History
  pub odds : Odds
  pub read : services.get_odds read_at r.chain_refs ≡ ok odds
  pub status : MarketStatus
  pub ending : IsStatus a b status
  pub likes_a : ℕ
  pub likes_b : ℕ
  pub counted_a : IsCount a likes_a
  pub counted_b : IsCount b likes_b
  pub ended :
      w.store.markets
      ≡ adjust r.id
          (λ m. record m {
            status = status;
            winner = some winner;
            likes_a_final = some likes_a;
            likes_b_final = some likes_b;
            final_implied_a = some odds.implied_a;
            final_pot_usd = some (odds.raised_usd_a + odds.raised_usd_b);
          })
          v.store.markets

module _ (services : Services) (config : EngineConfig) (r : MarketRecord)
    (odds_of : (h : History) → (odds : Odds) × (services.get_odds h r.chain_refs ≡ ok odds))
    (swap_of : (h : History) (o : Order)
      → (tokens : ℕ) × (services.place_bet h o ≡ ok tokens)) where
  backed_odds-Ready :
      (winner : Side) (odds : Odds) (h : History) (w : World)
      → services.get_odds h r.chain_refs ≡ ok odds
      → Ends (Ready services r w) (backed_odds services config r winner odds) w
  unfolding backed_odds rescue save_bet
  backed_odds-Ready winner odds h w read =
      let P = Ready services r w in
      Ends-branch P _ _ _ _
        (λ _.
          Ends-catch P {Q = P} _ _ _
            (Ends-bind P {Q = Rescued} _ _ _
              (Ends-answered Rescued _ _ _ _ _ (swap_of _ _).1 (
                Ends-answered Rescued _ _ _ _ _ refl (
                  Ends-writes Rescued _ _ _ (
                    Ends-tell Rescued _ _ _ (λ e failed. no_odds _ e failed)
                      λ again got. ((_, got), refl)))))
              (λ e v q. q) λ again v q. Ends-pure P _ _ q)
            (λ o v q. q) (λ e v q. absurd q))
        (λ _. Ends-pure P _ _ ((h, read), refl))
    where
      Rescued : Result Odds → World → Type 0
      Rescued (ok again) v =
          ((k : History) × (services.get_odds k r.chain_refs ≡ ok again))
          × (v.store.markets ≡ w.store.markets)
      Rescued (throw e) v = ⊥

      no_odds : (k : History) (e : String) → services.get_odds k r.chain_refs ≡ throw e → ⊥
      no_odds k e failed = cc (failed, (odds_of k).1)

  finish-IsEnded :
      (a b : Option XTweet) (o : Outcome) (odds : Odds) (h : History) (v w : World)
      → o.winner ≡ verdict a b
      → Fits a b o
      → services.get_odds h r.chain_refs ≡ ok odds
      → w.store.markets ≡ v.store.markets
      → ((k : History) (side : Side)
          → (winner : Side) × (services.settle k r.chain_refs side ≡ ok winner))
      → Ends
          (λ (res : Result (Unit {0})) w'. IsEnded services r a b v w')
          (finish services config r o odds)
          w
  unfolding finish update_market close
  finish-IsEnded a b o odds h v w asks (status, count_a, count_b) read same settles =
      let P = λ (res : Result (Unit {0})) (w' : World). IsEnded services r a b v w' in
      let (winner, settled_so) = settles w.history o.winner in
      Ends-answered P _ _ _ _ winner settled_so (
        Ends-writes P _ _ _ (record {
          ends = record {
            asked_at = w.history;
            winner = winner;
            answered =
                subst (λ s. services.settle w.history r.chain_refs s ≡ ok winner) asks settled_so;
            read_at = h;
            odds = odds;
            read = read;
            status = _;
            ending = status;
            likes_a = o.likes_a;
            likes_b = o.likes_b;
            counted_a = count_a;
            counted_b = count_b;
            ended =
                (Moves-bind SameMarkets _ _ (Moves-reads SameMarkets _) λ bets.
                    Moves-bind SameMarkets _ _
                      (Moves-pay_all SameMarkets services config (λ x u. refl)
                        (λ refs win c u. refl) r winner [] bets)
                      λ _.
                        Moves-announce SameMarkets services config (λ to m link u. refl) r o odds
                          winner).rel
                  _
                ∙ ap (adjust r.id (close o odds winner)) same;
          };
        }))

-- A market closes: both lookups are answered, and the chain answers every read of the odds, every
-- stake and every settlement. Then, whoever has backed it, the job closes exactly this market with
-- the chain's answer to the verdict, as settled if both tweets could be read and as a forfeit if not,
-- with the likes that were read and with odds that were read, whatever becomes of the payouts and of
-- the recap.
pub resolve_market-closes :
    (services : Services) (config : EngineConfig) (r : MarketRecord) (w : World)
    (a b : Option XTweet)
    → ((h : History) → services.get_tweet h r.tweet_a_id ≡ ok a)
    → ((h : History) → services.get_tweet h r.tweet_b_id ≡ ok b)
    → ((h : History) → (odds : Odds) × (services.get_odds h r.chain_refs ≡ ok odds))
    → ((h : History) (o : Order) → (tokens : ℕ) × (services.place_bet h o ≡ ok tokens))
    → ((h : History) (side : Side)
        → (winner : Side) × (services.settle h r.chain_refs side ≡ ok winner))
    → IsEnded services r a b w (resolve_market services config r w).1
unfolding resolve_market settle_on
resolve_market-closes services config r w a b read_a read_b odds_of swap_of settles =
    let o = outcome_of services config r a b (list_like_samples r.id w.store) in
    let P = λ (res : Result (Unit {0})) (w' : World). IsEnded services r a b w w' in
    (Ends-answered_both P _ _ _ _ _ _ a b (read_a _) (read_b _) (
      Ends-reads P _ _ _ (
        Ends-answered P _ _ _ _ _ (odds_of _).1 (
          Ends-bind P {Q = Ready services r w} _
            (λ found. cases found done (finish services config r o)) _
            (backed_odds-Ready services config r odds_of swap_of o.winner _ _ _ (odds_of _).1)
            (λ e v q. absurd q)
            (elim [
              | none ↦ λ v q. absurd q
              | some again ↦ λ v q. Ends-cases-some P again done (finish services config r o) v (
                  finish-IsEnded services config r odds_of swap_of a b o again q.0.0 w v
                    (unfold outcome_of in refl)
                    (outcome_of-Fits services config r a b (list_like_samples r.id w.store)) q.0.1
                    q.1 settles)
            ]))))).ends
