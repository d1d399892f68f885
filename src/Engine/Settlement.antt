-- ===== src/Engine/Settlement.antt =====
-- `resolveMarket` of `RatioEngine` (apps/agent/src/engine.ts): the verdict, the rescue of a side
-- that nobody backed, the settlement on the chain, the payouts and the recap.
use ratio.Base.{
  ℕ, ◌+◌, Bool, true, false, not, ◌||◌, Option, none, some, List, [], ◌∷◌, String, ltb,
  if◌then◌else◌, or_else, ◌==◌, string_eq, nat_eq, includes,
}
use ratio.Store.Records.{
  Side, side_a, side_b, side_beq, MarketRecord, BetRecord, LikeSampleRecord, buy, settled,
  forfeited,
}
use ratio.Store.Memory.{list_like_samples, list_bets, update_market, save_bet}
use ratio.Engine.World.{Services, EngineConfig, XTweet, usd, Odds, Message, recap, forfeit_recap}
use ratio.Engine.Monad
use ratio.Engine.Monad.{M, ◌>>=◌, ◌>>◌, done, pure, reads, writes, catch, both, branch, cases}
use ratio.Engine.Bets.{percent, backed_handle}

abbrev pub likes_of : Option XTweet → Option ℕ
likes_of none = none
likes_of (some t) = some t.like_count

abbrev pub is_forfeit : Option XTweet → Option XTweet → Bool
is_forfeit (some a) (some b) = false
is_forfeit _ _ = true

-- Who wins: the side that can still be read, the more liked one of two, side A otherwise.
unfoldable pub verdict : Option XTweet → Option XTweet → Side
verdict (some a) (some b) = if ltb a.like_count b.like_count then side_b else side_a
verdict (some a) none = side_a
verdict none (some b) = side_b
verdict none none = side_a

-- `samples.at(-1)`
unfoldable pub last {ℓ} : {A : Type ℓ} → List A → Option A
last [] = none
last (x ∷ xs) = some (or_else (last xs) x)

-- The count that is recorded: what is read now, else the last sample, else the count at creation.
abbrev pub known_likes : Option XTweet → Option ℕ → ℕ → ℕ
known_likes (some t) sampled at_create = t.like_count
known_likes none sampled at_create = or_else sampled at_create

abbrev sampled_a : Option LikeSampleRecord → Option ℕ
sampled_a none = none
sampled_a (some x) = some x.likes_a

abbrev sampled_b : Option LikeSampleRecord → Option ℕ
sampled_b none = none
sampled_b (some x) = some x.likes_b

abbrev pub raised_usd : Odds → Side → ℕ
raised_usd o side_a = o.raised_usd_a
raised_usd o side_b = o.raised_usd_b

abbrev pub other_side : Side → Side
other_side side_a = side_b
other_side side_b = side_a

abbrev pub treasury : String
treasury = "ratio:treasury"

-- What is known when the winner is about to be declared.
pub record Outcome : Type 0 where
  pub forfeit : Bool
  pub winner : Side
  pub likes_a : ℕ
  pub likes_b : ℕ

unfoldable pub close : Outcome → Odds → Side → MarketRecord → MarketRecord
close o odds winner m = record m {
  status = if o.forfeit then forfeited else settled;
  winner = some winner;
  likes_a_final = some o.likes_a;
  likes_b_final = some o.likes_b;
  final_implied_a = some odds.implied_a;
  final_pot_usd = some (odds.raised_usd_a + odds.raised_usd_b);
}

unfoldable pub final_message : MarketRecord → Outcome → Odds → Side → Message
final_message r o odds winner =
    if o.forfeit
    then forfeit_recap (backed_handle r winner) (backed_handle r (other_side winner))
    else recap winner o.likes_a o.likes_b (percent odds.implied_a) (o.likes_a == o.likes_b)
        r.author_a_handle r.author_b_handle

module _ (services : Services) (config : EngineConfig) where
  -- The treasury backs the winner, and the odds are read again.
  unfoldable pub rescue : MarketRecord → Side → M Odds
  rescue r winner = do
    tokens ← Monad.place_bet services (record {
      refs = r.chain_refs;
      side = winner;
      stake = usd config.seed_per_side_usd;
      bettor = config.protocol_wallet;
    })
    at ← Monad.now services
    writes (
        save_bet (record {
          market_id = r.id;
          x_user_id = treasury;
          handle = "ratio";
          side = winner;
          direction = buy;
          amount_usd = config.seed_per_side_usd;
          tokens_out = tokens;
          placed_at_ms = at;
          is_seed = true;
        }))
    Monad.get_odds services r.chain_refs

  -- `none`: the rescue failed, and the market waits for the next tick.
  unfoldable pub backed_odds : MarketRecord → Side → Odds → M (Option Odds)
  backed_odds r winner odds =
      branch (raised_usd odds winner == 0)
        (catch (do again ← rescue r winner; pure (some again)) (λ _. pure none)) (pure (some odds))

  unfoldable pub wallet_of : BetRecord → M String
  wallet_of bet =
      branch (bet.x_user_id == treasury) (pure config.protocol_wallet)
        (Monad.get_wallet services bet.x_user_id)

  -- One payout. A failure is logged and goes no further.
  unfoldable pub pay : MarketRecord → Side → BetRecord → M (Unit {0})
  pay r winner bet =
      catch
        (do bettor ← wallet_of bet; _ ← Monad.claim_for services r.chain_refs winner bettor; done)
        (λ _. done)

  -- The loop over the bets; `seen` is `winnersSeen`.
  unfoldable pub pay_all : MarketRecord → Side → List String → List BetRecord → M (Unit {0})
  pay_all r winner seen [] = done
  pay_all r winner seen (bet ∷ bets) =
      let skip = pay_all r winner seen bets in
      let paid = pay_all r winner (bet.x_user_id ∷ seen) bets in
      branch (not (side_beq bet.side winner) || includes seen bet.x_user_id) skip
        (do pay r winner bet; paid)

  unfoldable pub announce : MarketRecord → Outcome → Odds → Side → M (Unit {0})
  announce r o odds winner = do
    _ ←
        Monad.post_reply services
          (if o.forfeit then or_else r.card_tweet_id r.tweet_b_id else r.tweet_b_id)
          (final_message r o odds winner) none
    done

  -- From the settlement on the chain on.
  unfoldable pub finish : MarketRecord → Outcome → Odds → M (Unit {0})
  finish r o odds = do
    winner ← Monad.settle services r.chain_refs o.winner
    writes (update_market r.id (close o odds winner))
    bets ← reads (list_bets r.id)
    pay_all r winner [] bets
    announce r o odds winner

  unfoldable pub settle_on : MarketRecord → Outcome → M (Unit {0})
  settle_on r o = do
    snapshot ← Monad.get_odds services r.chain_refs
    odds ← backed_odds r o.winner snapshot
    cases odds done (finish r o)

  unfoldable pub outcome_of :
      MarketRecord → Option XTweet → Option XTweet → List LikeSampleRecord → Outcome
  outcome_of r a b samples = record {
    forfeit = is_forfeit a b;
    winner = verdict a b;
    likes_a = known_likes a (sampled_a (last samples)) r.likes_a_at_create;
    likes_b = known_likes b (sampled_b (last samples)) r.likes_b_at_create;
  }

  unfoldable pub resolve_market : MarketRecord → M (Unit {0})
  resolve_market r = do
    (a, b) ← both (Monad.get_tweet services r.tweet_a_id) (Monad.get_tweet services r.tweet_b_id)
    samples ← reads (list_like_samples r.id)
    settle_on r (outcome_of r a b samples)
