-- ===== src/Engine/Walk/Settlement.antt =====
-- The methods of Engine/Settlement and the entry points of Engine/Loops, walked.
use ratio.Base.{ℕ, Option, none, some, List, [], ◌∷◌, String}
use ratio.Store.Records.{MarketRecord, BetRecord, LikeSampleRecord, Side}
use ratio.Store.Memory.{save_bet, update_market, save_like_sample}
use ratio.Engine.World.{
  World, Message, got_wallet, asked_claim, posted_reply, Services, EngineConfig, XTweet, Odds,
}
use ratio.Engine.Monad.{writes}
use ratio.Engine.Frames.{
  Frame, Ignores, Moves, Moves-pure, Moves-reads, Moves-bind, Moves-both, Moves-catch, Moves-branch,
  Moves-cases, Moves-for_each, Moves-call, Moves-ask, Moves-tell,
}
use ratio.Engine.Settlement.{
  Outcome, close, rescue, backed_odds, wallet_of, pay, pay_all, announce, finish, settle_on,
  resolve_market,
}
use ratio.Engine.Loops.{sample, save_pair, sample_likes_due_markets, resolve_due_markets}

-- The payouts and the recap: three kinds of events.
module _ (F : Frame) (services : Services) (config : EngineConfig)
    (wallets : (x : String) (w : World) → F.Rel w (record w { history = got_wallet x ∷ w.history }))
    (claims : (refs : String) (winner : Side) (bettor : String) (w : World)
      → F.Rel w (record w { history = asked_claim refs winner bettor ∷ w.history })) where
  Moves-wallet_of : (b : BetRecord) → Moves F (wallet_of services config b)
  unfolding wallet_of
  Moves-wallet_of b = Moves-branch F _ _ _ (λ _. Moves-pure F _) (λ _. Moves-call F _ _ (wallets _))

  Moves-pay :
      (r : MarketRecord) (winner : Side) (b : BetRecord) → Moves F (pay services config r winner b)
  unfolding pay
  Moves-pay r winner b =
      Moves-catch F _ _
        (Moves-bind F _ _ (Moves-wallet_of b)
          λ bettor. Moves-bind F _ _ (Moves-call F _ _ (claims _ _ _)) λ _. Moves-pure F tt)
        (λ _. Moves-pure F tt)

  pub Moves-pay_all :
      (r : MarketRecord) (winner : Side) (seen : List String) (bets : List BetRecord)
      → Moves F (pay_all services config r winner seen bets)
  unfolding pay_all
  Moves-pay_all r winner seen [] = Moves-pure F tt
  Moves-pay_all r winner seen (b ∷ bets) =
      Moves-branch F _ _ _ (λ _. Moves-pay_all r winner seen bets)
        λ _.
          Moves-bind F _ _ (Moves-pay r winner b)
            (λ _. Moves-pay_all r winner (b.x_user_id ∷ seen) bets)

module _ (F : Frame) (services : Services) (config : EngineConfig)
    (replies : (to : String) (m : Message) (link : Option String) (w : World)
      → F.Rel w (record w { history = posted_reply to m link ∷ w.history })) where
  pub Moves-announce :
      (r : MarketRecord) (o : Outcome) (odds : Odds) (winner : Side)
      → Moves F (announce services config r o odds winner)
  unfolding announce
  Moves-announce r o odds winner =
      Moves-bind F _ _ (Moves-call F _ _ (replies _ _ _)) λ _. Moves-pure F tt

module _ (F : Frame) (event : Ignores F) (services : Services) (config : EngineConfig) where
  module _ (bets : (b : BetRecord) → Moves F (writes (save_bet b))) where
    pub Moves-rescue :
        (r : MarketRecord) (winner : Side) → Moves F (rescue services config r winner)
    unfolding rescue
    Moves-rescue r winner = Moves-ask F event _ _ _ λ tokens.
        Moves-ask F event _ _ _ λ at. Moves-bind F _ _ (bets _) λ _. Moves-tell F event _ _

    pub Moves-backed_odds :
        (r : MarketRecord) (winner : Side) (odds : Odds)
        → Moves F (backed_odds services config r winner odds)
    unfolding backed_odds
    Moves-backed_odds r winner odds =
        Moves-branch F _ _ _
          (λ _.
            Moves-catch F _ _ (Moves-bind F _ _ (Moves-rescue r winner) λ again. Moves-pure F _)
              (λ _. Moves-pure F none))
          (λ _. Moves-pure F _)

    module _
        (closing : (id : String) (o : Outcome) (odds : Odds) (winner : Side)
          → Moves F (writes (update_market id (close o odds winner)))) where
      pub Moves-finish :
          (r : MarketRecord) (o : Outcome) (odds : Odds) → Moves F (finish services config r o odds)
      unfolding finish
      Moves-finish r o odds = Moves-ask F event _ _ _ λ winner.
          Moves-bind F _ _ (closing _ o odds winner) λ _. Moves-bind F _ _ (Moves-reads F _) λ paid.
            Moves-bind F _ _
              (Moves-pay_all F services config (λ x. event _) (λ refs win b. event _) r winner []
                paid)
              λ _. Moves-announce F services config (λ to m link. event _) r o odds winner

      Moves-settle_on : (r : MarketRecord) (o : Outcome) → Moves F (settle_on services config r o)
      unfolding settle_on
      Moves-settle_on r o = Moves-ask F event _ _ _ λ snapshot.
          Moves-bind F _ _ (Moves-backed_odds r o.winner snapshot)
            λ odds. Moves-cases F _ _ _ (λ _. Moves-pure F tt) (λ odds' _. Moves-finish r o odds')

      pub Moves-resolve_market : (r : MarketRecord) → Moves F (resolve_market services config r)
      unfolding resolve_market
      Moves-resolve_market r =
          Moves-bind F _ _ (Moves-both F _ _ (Moves-tell F event _ _) (Moves-tell F event _ _))
            λ tweets. Moves-bind F _ _ (Moves-reads F _) λ samples. Moves-settle_on r _

      pub Moves-resolve_due_markets : Moves F (resolve_due_markets services config)
      unfolding resolve_due_markets
      Moves-resolve_due_markets = Moves-ask F event _ _ _ λ at.
          Moves-bind F _ _ (Moves-reads F _) λ due. Moves-for_each F _ due Moves-resolve_market

  module _
      (sampled : (id : String) (at : ℕ)
        → Moves F (writes (update_market id (λ m. record m { last_likes_sample_at_ms = some at }))))
      (saved : (x : LikeSampleRecord) → Moves F (writes (save_like_sample x))) where
    Moves-save_pair :
        (at : ℕ) (r : MarketRecord) (a b : Option XTweet) → Moves F (save_pair at r a b)
    unfolding save_pair
    Moves-save_pair at r (some a) (some b) = saved _
    Moves-save_pair at r _ _ = Moves-pure F tt

    Moves-sample : (at : ℕ) (r : MarketRecord) → Moves F (sample services config at r)
    unfolding sample
    Moves-sample at r =
        Moves-bind F _ _ (Moves-both F _ _ (Moves-tell F event _ _) (Moves-tell F event _ _))
          λ tweets. Moves-bind F _ _ (sampled r.id at) λ _. Moves-save_pair at r tweets.0 tweets.1

    pub Moves-sample_likes_due_markets : Moves F (sample_likes_due_markets services config)
    unfolding sample_likes_due_markets
    Moves-sample_likes_due_markets =
        Moves-ask F event _ _ _
          λ at. Moves-bind F _ _ (Moves-reads F _) λ due. Moves-for_each F _ due (Moves-sample at)
