-- ===== src/Engine/Success.antt =====
-- What the engine (apps/agent/src/engine.ts) gets done when the services answer.
use ratio.Base.{
  ℕ, ◌+◌, ◌<◌, ◌≤◌, ◌≡◌, refl, true, false, some, ◌∷◌, String, string_eq, arith, ltb, leb,
}
use ratio.Store.Records.{MarketRecord, Side, is_open, buy}
use ratio.Store.Memory.{save_bet, get_market_by_tweet}
use ratio.Engine.World.{
  Result, ok, Services, EngineConfig, World, History, XMention, TweetRef, SideChoice, StakeUnit,
  Stake, Order,
}
use ratio.Flow.Ends.{
  Ends-pure, Ends-ask, Ends-reads, Ends-writes, Ends-answered, Ends-then, Ends-else, Ends-given,
}
use ratio.Engine.Bets.{
  headroom, cap_stake, swap_and_record, place_capped, place_bet, resolve_side, stake_of, bet_on,
  handle_bet,
}
use ratio.Engine.Orders.{orders}

-- One order more, and its bet in the store.
pub record IsPlaced (mention : XMention) (r : MarketRecord) (o : Order) (amount tokens : ℕ)
    (v w : World) : Type 0 where
  pub placed_at_ms : ℕ
  pub sent : orders w.history ≡ o ∷ orders v.history
  pub saved :
      w.store
      ≡ save_bet
          (record {
            market_id = r.id;
            x_user_id = mention.author_id;
            handle = mention.author_handle;
            side = o.side;
            direction = buy;
            amount_usd = amount;
            tokens_out = tokens;
            placed_at_ms = placed_at_ms;
            is_seed = false;
          })
          v.store

-- A stake goes through: the mention answers a market that is open and not yet due, it names a
-- side, the stake is at least the minimum and can be capped, the author's balance covers it and
-- the chain swaps. Then exactly one order goes to the chain, and its bet, with the capped amount
-- and the tokens that the chain answered, is saved, even if the odds or the reply fail.
pub handle_bet-places :
    (services : Services) (config : EngineConfig) (mention : XMention) (choice : SideChoice)
    (amount : ℕ) (unit : StakeUnit) (w : World) (target : TweetRef) (r : MarketRecord) (side : Side)
    (stake : Stake) (asked capped balance tokens : ℕ) (bettor : String)
    → mention.target ≡ some target
    → get_market_by_tweet target.tweet_id w.store ≡ some r
    → is_open r.status ≡ true
    → ((h : History) → services.now h < r.settles_at_ms)
    → resolve_side services config r choice ≡ some side
    → ((h : History) → services.stake_usd h (stake_of services config unit amount) ≡ ok asked)
    → config.min_stake_usd ≤ asked
    → cap_stake config.max_stake_usd asked (stake_of services config unit amount) ≡ some stake
    → ((h : History) → services.stake_usd h stake ≡ ok capped)
    → ((h : History) → services.get_wallet h mention.author_id ≡ ok bettor)
    → ((h : History) → services.balance_usd h bettor ≡ ok balance)
    → capped + headroom ≤ balance
    → ((h : History) (o : Order) → services.place_bet h o ≡ ok tokens)
    → IsPlaced mention r
        (record { refs = r.chain_refs; side = side; stake = stake; bettor = bettor })
        capped
        tokens
        w
        (handle_bet services config mention choice amount unit w).1
unfolding handle_bet bet_on place_bet place_capped swap_and_record
handle_bet-places services config mention choice amount unit w target r side stake asked capped
      balance tokens bettor answers found opened early named price enough capping reprice own funds
      covers swaps =
    (Ends-given P _ _ _ _ target answers (
      Ends-reads P _ _ _ (
        Ends-given P _ _ _ _ r found (
          Ends-then P _ _ _ _ opened (
            Ends-answered P _ _ _ _ (services.now w.history) refl (
              Ends-else P (leb r.settles_at_ms (services.now w.history)) _ _ _
                (ground (arith, early w.history))
                (Ends-given P _ _ _ _ side named (
                  Ends-answered P _ _ _ _ asked (price _) (
                    Ends-else P (ltb asked config.min_stake_usd) _ _ _ (ground arith) (
                      Ends-given P _ _ _ _ stake capping (
                        Ends-answered P _ _ _ _ capped (reprice _) (
                          Ends-answered P _ _ _ _ bettor (own _) (
                            Ends-answered P _ _ _ _ balance (funds _) (
                              Ends-else P (ltb balance (capped + headroom)) _ _ _ (ground arith) (
                                Ends-answered P _ _ _ _ tokens (swaps _ _) (
                                  Ends-answered P _ _ _ _ _ refl (
                                    Ends-writes P _ _ _ (
                                      Ends-ask P _ _ _ _
                                        (λ _ _. record {
                                          placed_at_ms = _;
                                          sent = refl;
                                          saved = refl;
                                        })
                                        λ odds _.
                                          Ends-ask P _ _ _ _
                                            (λ _ _. record {
                                              placed_at_ms = _;
                                              sent = refl;
                                              saved = refl;
                                            })
                                            λ _ _. Ends-pure P _ _ (record {
                                              placed_at_ms = _;
                                              sent = refl;
                                              saved = refl;
                                            }))))))))))))))))))).ends
  where
    P : Result (Unit {0}) → World → Type 0
    P res w' =
        IsPlaced mention r
          (record { refs = r.chain_refs; side = side; stake = stake; bettor = bettor }) capped
          tokens w w'
