-- ===== src/Web/BetServer.antt =====
-- Bets from the web: `placeRealBet` (apps/web/lib/betServer.ts). The database, the wallets, the chain and
-- the clock answer by the calls so far. Dollars are whole millionths.
use ratio.Base.{ℕ, ◌+◌, Bool, false, Option, List, String, ltb, leb}
use ratio.Texts.{Text}
use ratio.Flow.{Result, ok, Flow, ◌>>=◌, pure, call, branch, cases, rethrow}
use ratio.Store.Records.{BetRecord, Side, buy}

pub record Viewer : Type 0 where
  pub x_user_id : String
  pub handle : String

-- What is read of a market's row.
pub record MarketState : Type 0 where
  pub open_status : Bool
  pub settles_at_ms : ℕ

pub data Call : Type 0 where
  looked_up : (market_id : String) → Call
  asked_time : Call
  got_wallet : (x_user_id : String) → Call
  read_balance : (address : Text) → Call
  swapped : (market_id : String) → (side : Side) → (amount_usd : ℕ) → (bettor : Text) → Call
  recorded : BetRecord → Call

abbrev pub Calls : Type 0
Calls = List Call

pub record Site : Type 0 where
  pub look_up : Calls → String → Result (Option MarketState)
  pub now : Calls → ℕ
  pub get_wallet : Calls → Viewer → Result Text
  pub balance_usd : Calls → Text → Result ℕ
  -- The tokens and the signature of a swap.
  pub swap : Calls → String → Side → ℕ → Text → Result (ℕ × Text)
  pub insert_bet : Calls → BetRecord → Result (Unit {0})
  pub min_stake_usd : ℕ
  pub max_stake_usd : ℕ

abbrev pub Action : Type 0 → Type 0
Action A = Flow (Unit {0}) Call A

-- Five cents.
abbrev pub reserve : ℕ
reserve = 50000

abbrev pub bet_row : Viewer → String → Side → ℕ → ℕ → ℕ → BetRecord
bet_row viewer market_id side amount_usd tokens_out placed_at_ms = record {
  market_id = market_id;
  x_user_id = viewer.x_user_id;
  handle = viewer.handle;
  side = side;
  direction = buy;
  amount_usd = amount_usd;
  tokens_out = tokens_out;
  placed_at_ms = placed_at_ms;
  is_seed = false;
}

module _ (site : Site) where
  -- The insertion of a bet that has landed.
  unfoldable pub record_bet : Viewer → String → Side → ℕ → ℕ × Text → Action Text
  record_bet viewer market_id side amount_usd (tokens_out, signature) = do
    placed_at_ms ← call asked_time (λ h. ok (site.now h))
    _ ←
        call (recorded (bet_row viewer market_id side amount_usd tokens_out placed_at_ms)) (λ h.
          site.insert_bet h (bet_row viewer market_id side amount_usd tokens_out placed_at_ms))
    pure signature

  -- From the wallet on.
  unfoldable pub swap_from_wallet : Viewer → String → Side → ℕ → Action Text
  swap_from_wallet viewer market_id side amount_usd = do
    wallet ← call (got_wallet viewer.x_user_id) (λ h. site.get_wallet h viewer)
    balance ← call (read_balance wallet) (λ h. site.balance_usd h wallet)
    branch (ltb balance (amount_usd + reserve)) (rethrow "not enough in your wallet") (do
      landed ←
          call (swapped market_id side amount_usd wallet)
            (λ h. site.swap h market_id side amount_usd wallet)
      record_bet viewer market_id side amount_usd landed)

  -- On a market that is there.
  unfoldable pub bet_on : Viewer → String → Side → ℕ → MarketState → Action Text
  bet_on viewer market_id side amount_usd m =
      branch m.open_status
        (do
          now_ms ← call asked_time (λ h. ok (site.now h))
          branch (leb m.settles_at_ms now_ms) (rethrow "market has ended") (
              branch (ltb amount_usd site.min_stake_usd) (rethrow "minimum stake") (
                branch (ltb site.max_stake_usd amount_usd) (rethrow "maximum stake")
                  (swap_from_wallet viewer market_id side amount_usd))))
        (rethrow "market is decided")

  unfoldable pub place_real_bet : Viewer → String → Side → ℕ → Action Text
  place_real_bet viewer market_id side amount_usd = do
    m ← call (looked_up market_id) (λ h. site.look_up h market_id)
    cases m (rethrow "no such market") (bet_on viewer market_id side amount_usd)
