-- ===== src/Web/Ledger.antt =====
-- What a bet from the web (apps/web/lib/betServer.ts) swaps and records.
use ratio.Base.{
  ℕ, ◌+◌, ◌≤◌, ◌<◌, ◌≡◌, refl, ap, ◌∙◌, true, false, some, [], ◌∷◌, String, leb, ltb→le, leb→lt,
}
use ratio.Texts.{Text}
use ratio.Flow.{Result, ok, throw, Machine}
use ratio.Flow.Ends.{Ends, after, Ends-pure, Ends-raise, Ends-ask, Ends-branch, Ends-cases}
use ratio.Store.Records.{Side}
use ratio.Web.BetServer.{
  Viewer, MarketState, Call, swapped, recorded, Calls, Site, reserve, bet_row, record_bet,
  swap_from_wallet, bet_on, place_real_bet,
}

abbrev pub World : Type 0
World = Machine (Unit {0}) Call

-- Only the swaps and the records.
abbrev pub effects : Calls → Calls
effects [] = []
effects (swapped m s a b ∷ h) = swapped m s a b ∷ effects h
effects (recorded b ∷ h) = recorded b ∷ effects h
effects (c ∷ h) = effects h

module _ (site : Site) (viewer : Viewer) (market_id : String) (side : Side) (amount_usd : ℕ) where
  -- The market took bets, and the stake and the wallet are within bounds.
  pub record IsAllowed (wallet : Text) : Type 0 where
    pub market : MarketState
    pub looked_up : (h : Calls) × (site.look_up h market_id ≡ ok (some market))
    pub still_open : market.open_status ≡ true
    pub before_close : (h : Calls) × (site.now h < market.settles_at_ms)
    pub at_least : site.min_stake_usd ≤ amount_usd
    pub at_most : amount_usd ≤ site.max_stake_usd
    pub covered :
        (h : Calls) × (balance : ℕ) × (site.balance_usd h wallet ≡ ok balance)
        × (amount_usd + reserve ≤ balance)

  pub data IsPlaced (v : World) : Result Text → World → Type 0 where
    refused :
        (e : String) (w : World) → effects w.history ≡ effects v.history → IsPlaced v (throw e) w
    unlanded :
        (e : String) (w : World) (wallet : Text)
        → IsAllowed wallet
        → effects w.history ≡ swapped market_id side amount_usd wallet ∷ effects v.history
        → IsPlaced v (throw e) w
    unrecorded :
        (e : String) (w : World) (wallet : Text) (tokens at : ℕ)
        → IsAllowed wallet
        → effects w.history
          ≡ recorded (bet_row viewer market_id side amount_usd tokens at)
            ∷ swapped market_id side amount_usd wallet
            ∷ effects v.history
        → IsPlaced v (throw e) w
    placed :
        (w : World) (wallet signature : Text) (tokens at : ℕ)
        → IsAllowed wallet
        → ((h : Calls) × (site.swap h market_id side amount_usd wallet ≡ ok (tokens, signature)))
        → effects w.history
          ≡ recorded (bet_row viewer market_id side amount_usd tokens at)
            ∷ swapped market_id side amount_usd wallet
            ∷ effects v.history
        → IsPlaced v (ok signature) w

  abbrev Places : World → Result Text → World → Type 0
  Places v res w = IsPlaced v res w

  swap_from_wallet-Ends :
      (m : MarketState) (v w : World)
      → ((h : Calls) × (site.look_up h market_id ≡ ok (some m)))
      → m.open_status ≡ true
      → ((h : Calls) × (site.now h < m.settles_at_ms))
      → site.min_stake_usd ≤ amount_usd
      → amount_usd ≤ site.max_stake_usd
      → effects w.history ≡ effects v.history
      → Ends (Places v) (swap_from_wallet site viewer market_id side amount_usd) w
  unfolding swap_from_wallet record_bet
  swap_from_wallet-Ends m v w found opened early least most same =
      let P = Places v in
      Ends-ask P _ _ _ _ (λ e _. refused e _ same)
        λ wallet _.
          Ends-ask P _ _ _ _ (λ e _. refused e _ same)
            λ balance got.
              Ends-branch P _ _ _ _ (λ _. Ends-raise P _ _ (refused _ _ same))
                λ enough.
                  let allowed : IsAllowed wallet = record {
                    market = m;
                    looked_up = found;
                    still_open = opened;
                    before_close = early;
                    at_least = least;
                    at_most = most;
                    covered = (_, balance, got, ltb→le _ _ enough);
                  } in
                  Ends-ask P _ _ _ _
                    (λ e _.
                      unlanded e _ wallet allowed
                        (ap (λ l. swapped market_id side amount_usd wallet ∷ l) same))
                    (λ landed swap_ok.
                      Ends-ask P _ _ _ _ (λ e no_throw. cc no_throw)
                        λ at _.
                          Ends-ask P _ _ _ _
                            (λ e _. unrecorded e _ wallet landed.0 at allowed (
                              ap
                                (λ l.
                                  recorded (bet_row viewer market_id side amount_usd landed.0 at)
                                  ∷ swapped market_id side amount_usd wallet
                                  ∷ l)
                                same))
                            λ _ _. Ends-pure P _ _ (
                              placed _ wallet landed.1 landed.0 at allowed (_, swap_ok)
                                (ap
                                  (λ l.
                                    recorded (bet_row viewer market_id side amount_usd landed.0 at)
                                    ∷ swapped market_id side amount_usd wallet
                                    ∷ l)
                                  same)))

before_close_at :
    (at now_ms settles_at_ms : ℕ)
    → ok at ≡ ok now_ms
    → leb settles_at_ms now_ms ≡ false
    → at < settles_at_ms
before_close_at at now_ms settles_at_ms clock early =
    let same : at ≡ now_ms = cc clock in rw same (leb→lt settles_at_ms now_ms early)

-- A bet from the web swaps at most once, and only on a market that was read to be open and before its
-- close, within the least and the most stake, from a wallet whose balance covers it and five cents. An
-- answer means that the swap landed, that exactly its bet, with the tokens of the swap, was recorded
-- behind it, and that the signature is the swap's; a failure to record comes after the swap and throws.
pub place_real_bet-IsPlaced :
    (site : Site) (viewer : Viewer) (market_id : String) (side : Side) (amount_usd : ℕ) (w : World)
    → let (res, w') = place_real_bet site viewer market_id side amount_usd w in
      IsPlaced site viewer market_id side amount_usd w res w'
unfolding place_real_bet bet_on
place_real_bet-IsPlaced site viewer market_id side amount_usd w =
    let P = Places site viewer market_id side amount_usd w in
    (Ends-ask P (Call.looked_up market_id) (λ h. site.look_up h market_id) _ w
      (λ e _. refused e _ refl)
      λ found got.
        Ends-cases P _ _ _ _ (λ _. Ends-raise P _ _ (refused _ _ refl))
          λ m there.
            Ends-branch P _ _ _ _
              (λ opened.
                Ends-ask P Call.asked_time (λ h. ok (site.now h)) _
                  (after (Call.looked_up market_id) w) (λ e no_throw. cc no_throw)
                  λ now_ms clock.
                    Ends-branch P _ _ _ _ (λ _. Ends-raise P _ _ (refused _ _ refl))
                      λ early.
                        Ends-branch P _ _ _ _ (λ _. Ends-raise P _ _ (refused _ _ refl))
                          λ least.
                            Ends-branch P _ _ _ _ (λ _. Ends-raise P _ _ (refused _ _ refl))
                              λ most.
                                swap_from_wallet-Ends site viewer market_id side amount_usd m w _
                                  (_, got ∙ ap ok there) opened
                                  (_, before_close_at _ _ _ clock early) (ltb→le _ _ least)
                                  (ltb→le _ _ most) refl)
              (λ _. Ends-raise P _ _ (refused _ _ refl))).ends
