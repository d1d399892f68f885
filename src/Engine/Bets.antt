-- ===== src/Engine/Bets.antt =====
-- The bets of `RatioEngine` (apps/agent/src/engine.ts): `placeBet`, and the branch of
-- `handleMention` that leads to it.
use ratio.Base.{
  ℕ, ◌+◌, ◌/◌, false, Option, none, some, String, ltb, leb, if◌then◌else◌, ◌==◌, string_eq,
}
use ratio.Store.Records.{Side, side_a, side_b, MarketRecord, buy, is_open}
use ratio.Store.Memory.{get_market_by_tweet, save_bet}
use ratio.Engine.World.{
  Services, EngineConfig, XMention, Stake, usd, native, StakeUnit, usd_unit, eth_unit, SideChoice,
  by_letter, by_handle, bet_confirm, insufficient_funds,
}
use ratio.Engine.Monad
use ratio.Engine.Monad.{M, ◌>>=◌, ◌>>◌, done, reads, writes, branch, cases}

-- 0.05 dollars.
abbrev pub headroom : ℕ
headroom = 50000

-- `Math.round(implied * 100)`, half up.
abbrev pub percent : ℕ → ℕ
percent p = (p + 5000) / 10000

-- The cap: a dollar stake shrinks to it, a stake in the chain's asset is refused.
unfoldable pub cap_stake : ℕ → ℕ → Stake → Option Stake
cap_stake limit amount (usd x) = if ltb limit amount then some (usd limit) else some (usd x)
cap_stake limit amount (native x) = if ltb limit amount then none else some (native x)

unfoldable pub backed_handle : MarketRecord → Side → String
backed_handle r side_a = r.author_a_handle
backed_handle r side_b = r.author_b_handle

module _ (services : Services) (config : EngineConfig) where
  -- From the swap on.
  unfoldable pub swap_and_record :
      XMention → MarketRecord → Side → Stake → ℕ → String → M (Unit {0})
  swap_and_record mention r side stake usd_amount bettor = do
    tokens ←
        Monad.place_bet services
          (record { refs = r.chain_refs; side = side; stake = stake; bettor = bettor })
    at ← Monad.now services
    writes (
        save_bet (record {
          market_id = r.id;
          x_user_id = mention.author_id;
          handle = mention.author_handle;
          side = side;
          direction = buy;
          amount_usd = usd_amount;
          tokens_out = tokens;
          placed_at_ms = at;
          is_seed = false;
        }))
    odds ← Monad.get_odds services r.chain_refs
    _ ←
        Monad.post_reply services mention.mention_tweet_id
          (bet_confirm mention.author_handle usd_amount (backed_handle r side) r.author_a_handle
            (percent odds.implied_a))
          none
    done

  -- From the wallet on, with the stake capped.
  unfoldable pub place_capped : XMention → MarketRecord → Side → Stake → M (Unit {0})
  place_capped mention r side stake = do
    capped_usd ← Monad.stake_usd services stake
    bettor ← Monad.get_wallet services mention.author_id
    balance ← Monad.balance_usd services bettor
    branch (ltb balance (capped_usd + headroom))
        (do
          _ ←
              Monad.post_reply services mention.mention_tweet_id
                (insufficient_funds mention.author_handle) none
          done)
        (swap_and_record mention r side stake capped_usd bettor)

  unfoldable pub place_bet : XMention → MarketRecord → Side → Stake → M (Unit {0})
  place_bet mention r side stake = do
    amount_usd ← Monad.stake_usd services stake
    branch (ltb amount_usd config.min_stake_usd) done
        (cases (cap_stake config.max_stake_usd amount_usd stake) done (place_capped mention r side))

  -- A handle is compared with the two that the market keeps, letter case aside.
  unfoldable pub resolve_side : MarketRecord → SideChoice → Option Side
  resolve_side r (by_letter s) = some s
  resolve_side r (by_handle h) =
      let low = services.to_lower_case h in
      if low == services.to_lower_case r.author_a_handle
      then some side_a
      else if low == services.to_lower_case r.author_b_handle
      then some side_b
      else none

  unfoldable pub stake_of : StakeUnit → ℕ → Stake
  stake_of usd_unit x = usd x
  stake_of eth_unit x = native x

  -- The market is found, and open by the store.
  unfoldable pub bet_on : XMention → MarketRecord → SideChoice → ℕ → StakeUnit → M (Unit {0})
  bet_on mention r choice amount unit = do
    at ← Monad.now services
    branch (leb r.settles_at_ms at) done
        (cases (resolve_side r choice) done λ side. place_bet mention r side (stake_of unit amount))

  unfoldable pub handle_bet : XMention → SideChoice → ℕ → StakeUnit → M (Unit {0})
  handle_bet mention choice amount unit = cases mention.target done λ target. do
    found ← reads (get_market_by_tweet target.tweet_id)
    cases found done λ r. branch (is_open r.status) (bet_on mention r choice amount unit) done
