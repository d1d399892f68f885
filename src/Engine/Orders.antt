-- ===== src/Engine/Orders.antt =====
-- When the engine places a stake: every test between a mention and the swap.
use ratio.Base.{
  ℕ, ◌+◌, ◌≤◌, ◌<◌, ◌≡◌, refl, true, some, List, [], ◌∷◌, String, arith, ◌⊎◌, inl, inr, ltb→le,
  leb→lt,
}
use ratio.Store.Records.{MarketRecord, Side, is_open}
use ratio.Store.Memory.{get_market_by_tweet}
use ratio.Engine.World.{
  Result, ok, Services, EngineConfig, World, History, placed_bet, Order, Stake, XMention, TweetRef,
  SideChoice, StakeUnit,
}
use ratio.Flow.Ends.{
  Ends, after, Ends-pure, Ends-ask, Ends-reads, Ends-writes, Ends-branch, Ends-cases,
}
use ratio.Engine.Bets.{
  headroom, cap_stake, swap_and_record, place_capped, place_bet, resolve_side, stake_of, bet_on,
  handle_bet,
}

-- The stakes that were sent to the chain, the latest first.
abbrev pub orders : History → List Order
orders [] = []
orders (placed_bet o ∷ h) = o ∷ orders h
orders (e ∷ h) = orders h

module _ (services : Services) (config : EngineConfig) where
  -- A stake that the policy lets through: at least the minimum, capped, and covered by the
  -- balance of the author's wallet, as the chain and the wallets answered on the way.
  pub record IsAllowed (mention : XMention) (r : MarketRecord) (side : Side) (stake : Stake)
      (o : Order) : Type 0 where
    pub market : o.refs ≡ r.chain_refs
    pub same_side : o.side ≡ side
    pub priced_at : History
    pub amount : ℕ
    pub price : services.stake_usd priced_at stake ≡ ok amount
    pub at_least : config.min_stake_usd ≤ amount
    pub capped : cap_stake config.max_stake_usd amount stake ≡ some o.stake
    pub repriced_at : History
    pub capped_amount : ℕ
    pub reprice : services.stake_usd repriced_at o.stake ≡ ok capped_amount
    pub wallet_at : History
    pub own_wallet : services.get_wallet wallet_at mention.author_id ≡ ok o.bettor
    pub balance_at : History
    pub balance : ℕ
    pub funds : services.balance_usd balance_at o.bettor ≡ ok balance
    pub covered : capped_amount + headroom ≤ balance

  -- Nothing was sent since `h`, or one stake of which `P` holds.
  abbrev pub AtMostOne : (Order → Type 0) → History → World → Type 0
  AtMostOne P h w =
      (orders w.history ≡ orders h) ⊎ ((o : Order) × (orders w.history ≡ o ∷ orders h) × P o)

  abbrev Sent : (Order → Type 0) → History → Result (Unit {0}) → World → Type 0
  Sent P h res w = AtMostOne P h w

  swap-Ends :
      (P : Order → Type 0) (h : History) (mention : XMention) (r : MarketRecord) (side : Side)
      (stake : Stake) (amount : ℕ) (bettor : String) (w : World)
      → orders w.history ≡ orders h
      → P (record { refs = r.chain_refs; side = side; stake = stake; bettor = bettor })
      → Ends (Sent P h) (swap_and_record services config mention r side stake amount bettor) w
  unfolding swap_and_record
  swap-Ends P h mention r side stake amount bettor w e p =
      let one : AtMostOne P h (after (placed_bet _) w) = inr (_, ground arith, p) in
      Ends-ask (Sent P h) _ _ _ _ (λ _ _. one)
        λ tokens _.
          Ends-ask (Sent P h) _ _ _ _ (λ _ _. one)
            λ at _. Ends-writes (Sent P h) _ _ _ (
              Ends-ask (Sent P h) _ _ _ _ (λ _ _. one)
                λ odds _.
                  Ends-ask (Sent P h) _ _ _ _ (λ _ _. one) λ _ _. Ends-pure (Sent P h) _ _ one)

  place_capped-Ends :
      (P : Order → Type 0) (h : History) (mention : XMention) (r : MarketRecord) (side : Side)
      (stake : Stake) (w : World)
      → orders w.history ≡ orders h
      → ((h₁ h₂ h₃ : History) (capped balance : ℕ) (bettor : String)
          → services.stake_usd h₁ stake ≡ ok capped
          → services.get_wallet h₂ mention.author_id ≡ ok bettor
          → services.balance_usd h₃ bettor ≡ ok balance
          → capped + headroom ≤ balance
          → P (record { refs = r.chain_refs; side = side; stake = stake; bettor = bettor }))
      → Ends (Sent P h) (place_capped services config mention r side stake) w
  unfolding place_capped
  place_capped-Ends P h mention r side stake w e p =
      Ends-ask (Sent P h) _ _ _ _ (λ _ _. inl e)
        λ capped priced.
          Ends-ask (Sent P h) _ _ _ _ (λ _ _. inl e)
            λ bettor own.
              Ends-ask (Sent P h) _ _ _ _ (λ _ _. inl e)
                λ balance read.
                  Ends-branch (Sent P h) _ _ _ _
                    (λ _.
                      Ends-ask (Sent P h) _ _ _ _ (λ _ _. inl e)
                        λ _ _. Ends-pure (Sent P h) _ _ (inl e))
                    (λ rich.
                      swap-Ends P h mention r side stake capped bettor _ e
                        (p _ _ _ capped balance bettor priced own read (ltb→le _ _ rich)))

  place_bet-Ends :
      (h : History) (mention : XMention) (r : MarketRecord) (side : Side) (stake : Stake)
      (w : World)
      → orders w.history ≡ orders h
      → Ends
          (Sent (IsAllowed mention r side stake) h)
          (place_bet services config mention r side stake)
          w
  unfolding place_bet
  place_bet-Ends h mention r side stake w e =
      let P = Sent (IsAllowed mention r side stake) h in
      Ends-ask P _ _ _ _ (λ _ _. inl e)
        λ amount price.
          Ends-branch P _ _ _ _ (λ _. Ends-pure P _ _ (inl e))
            λ enough.
              Ends-cases P _ _ _ _ (λ _. Ends-pure P _ _ (inl e))
                λ stake' capped.
                  place_capped-Ends (IsAllowed mention r side stake) h mention r side stake' _ e
                    λ h₁ h₂ h₃ capped_amount balance bettor reprice own funds covered. record {
                      market = refl;
                      same_side = refl;
                      priced_at = w.history;
                      amount = amount;
                      price = price;
                      at_least = ltb→le _ _ enough;
                      capped = capped;
                      repriced_at = h₁;
                      capped_amount = capped_amount;
                      reprice = reprice;
                      wallet_at = h₂;
                      own_wallet = own;
                      balance_at = h₃;
                      balance = balance;
                      funds = funds;
                      covered = covered;
                    }

  -- Everything that has been tested when a mention's stake is sent.
  pub record IsVetted (mention : XMention) (choice : SideChoice) (amount : ℕ) (unit : StakeUnit)
      (w : World) (o : Order) : Type 0 where
    pub target : TweetRef
    pub answers : mention.target ≡ some target
    pub r : MarketRecord
    pub found : get_market_by_tweet target.tweet_id w.store ≡ some r
    pub is_open_market : is_open r.status ≡ true
    pub in_time : services.now w.history < r.settles_at_ms
    pub side : Side
    pub named : resolve_side services config r choice ≡ some side
    pub allowed : IsAllowed mention r side (stake_of services config unit amount) o

  handle_bet-Ends :
      (mention : XMention) (choice : SideChoice) (amount : ℕ) (unit : StakeUnit) (w : World)
      → Ends
          (Sent (IsVetted mention choice amount unit w) w.history)
          (handle_bet services config mention choice amount unit)
          w
  unfolding handle_bet bet_on
  handle_bet-Ends mention choice amount unit w =
      let P = Sent (IsVetted mention choice amount unit w) w.history in
      Ends-cases P _ _ _ _ (λ _. Ends-pure P _ _ (inl refl))
        λ target answers. Ends-reads P _ _ _ (
          Ends-cases P _ _ _ _ (λ _. Ends-pure P _ _ (inl refl))
            λ r found.
              Ends-branch P _ _ _ _
                (λ opened.
                  Ends-ask P _ _ _ _ (λ _ _. inl refl)
                    λ at clock.
                      Ends-branch P _ _ _ _ (λ _. Ends-pure P _ _ (inl refl))
                        λ early.
                          Ends-cases P _ _ _ _ (λ _. Ends-pure P _ _ (inl refl))
                            λ side named.
                              let sent =
                                (place_bet-Ends w.history mention r side
                                  (stake_of services config unit amount) _ refl).ends in
                              record {
                                ends = elim sent [
                                  | inl none_sent ↦ inl none_sent
                                  | inr (o, one, allowed) ↦ inr (
                                    o,
                                    one,
                                    record {
                                      target = target;
                                      answers = answers;
                                      r = r;
                                      found = found;
                                      is_open_market = opened;
                                      in_time = ground (arith, leb→lt _ _ early, clock);
                                      side = side;
                                      named = named;
                                      allowed = allowed;
                                    },
                                  )
                                ];
                              })
                (λ _. Ends-pure P _ _ (inl refl)))

-- A mention that reads as a stake sends at most one to the chain, and then only on the market
-- that it answers, open and before its close; on the side that the handle or letter names; of at
-- least the minimum and capped; from the author's own wallet, with a balance that covers it.
pub handle_bet-IsVetted :
    (services : Services) (config : EngineConfig) (mention : XMention) (choice : SideChoice)
    (amount : ℕ) (unit : StakeUnit) (w : World)
    → let w' = (handle_bet services config mention choice amount unit w).1 in
      (orders w'.history ≡ orders w.history)
      ⊎ ((o : Order) × (orders w'.history ≡ o ∷ orders w.history)
          × IsVetted services config mention choice amount unit w o)
handle_bet-IsVetted services config mention choice amount unit w =
    (handle_bet-Ends services config mention choice amount unit w).ends
