-- ===== src/Engine/World.antt =====
-- What the engine of apps/agent/src/engine.ts works on: its configuration, the tweets and mentions
-- of apps/agent/src/x.ts, the stakes and odds of packages/chain/src/index.ts and the services that
-- it calls.
--
-- A call of a service is an event of the history, newest first. The answer of a service is a
-- function of the whole history, so no assumption is made on what X, the wallets and the chain
-- answer, nor that they answer twice the same. A method keeps its changes when it throws.
use ratio.Base.{ℕ, Bool, Option, List, String}
use ratio.Store.Records.{Side}
use ratio.Store.Memory.{Store}
pub use ratio.Flow.{Result, ok, throw, Machine}

pub data RefType : Type 0 where
  quoted replied_to : RefType

pub record TweetRef : Type 0 where
  pub tweet_id : String
  pub ref_type : RefType

pub record XTweet : Type 0 where
  pub tweet_id : String
  pub author_id : String
  pub author_handle : String
  pub text : String
  pub created_at_ms : ℕ
  pub like_count : ℕ
  pub referenced_tweet : Option TweetRef

pub record XMention : Type 0 where
  pub mention_tweet_id : String
  pub author_id : String
  pub author_handle : String
  pub text : String
  pub target : Option TweetRef

-- Dollars, or the chain's own asset, in millionths.
pub data Stake : Type 0 where
  usd native : ℕ → Stake

pub data StakeUnit : Type 0 where
  usd_unit eth_unit : StakeUnit

pub data SideChoice : Type 0 where
  by_letter : Side → SideChoice
  by_handle : String → SideChoice

pub data ParsedIntent : Type 0 where
  create : ParsedIntent
  bet : SideChoice → ℕ → StakeUnit → ParsedIntent
  ignore : ParsedIntent

pub record Odds : Type 0 where
  pub implied_a : ℕ
  pub raised_usd_a : ℕ
  pub raised_usd_b : ℕ

pub record FeeBeneficiary : Type 0 where
  pub wallet : String
  pub share_bps : ℕ

pub data RejectionReason : Type 0 where
  not_reply_or_quote too_old same_author own_post unreadable : RejectionReason

-- The texts that the bot posts, each by its template of packages/config/src/copy.ts and the
-- values that go in.
pub data Message : Type 0 where
  rejection : RejectionReason → (bot_handle : String) → Message
  duplicate_pointer : Message
  market_card : (quoted_handle opponent_handle : String) (closes_in_ms : ℕ) → Message
  insufficient_funds : (handle : String) → Message
  bet_confirm :
      (handle : String) (amount_usd : ℕ) (backed_handle side_a_handle : String) (implied_a_pct : ℕ)
      → Message
  recap :
      (winner : Side) (likes_a likes_b money_implied_a_pct : ℕ) (tie : Bool)
      (side_a_handle side_b_handle : String)
      → Message
  forfeit_recap : (winner_handle loser_handle : String) → Message
  hidden_notice : Message

pub record Order : Type 0 where
  pub refs : String
  pub side : Side
  pub stake : Stake
  pub bettor : String

pub record Launch : Type 0 where
  pub nonce : String
  pub fee_beneficiaries : List FeeBeneficiary
  pub handle_a : String
  pub handle_b : String
  pub settles_at_ms : ℕ

pub data Event : Type 0 where
  asked_time fetched_mentions : Event
  read_tweet : (id : String) → Event
  posted_reply : (in_reply_to : String) → Message → (link : Option String) → Event
  posted_quote : (quoted_id : String) → Message → (link : Option String) → Event
  got_wallet : (x_user_id : String) → Event
  launched : Launch → Event
  priced : Stake → Event
  read_balance : (address : String) → Event
  placed_bet : Order → Event
  read_odds : (refs : String) → Event
  asked_settle : (refs : String) → Side → Event
  asked_claim : (refs : String) → Side → (bettor : String) → Event

abbrev pub History : Type 0
History = List Event

-- The implementations of `XClient`, `WalletProvider`, `MarketChain`, and the parser of mentions.
pub record Services : Type 0 where
  pub now : History → ℕ
  pub fetch_mentions : History → Result (List XMention)
  pub get_tweet : History → String → Result (Option XTweet)
  pub post_reply : History → String → Message → Option String → Result String
  pub post_quote : History → String → Message → Option String → Result String
  pub get_wallet : History → String → Result String
  pub create_market : History → Launch → Result String
  pub stake_usd : History → Stake → Result ℕ
  pub balance_usd : History → String → Result ℕ
  pub place_bet : History → Order → Result ℕ
  pub get_odds : History → String → Result Odds
  pub settle : History → String → Side → Result Side
  pub claim_for : History → String → Side → String → Result (Option ℕ)
  pub parse_mention : String → String → ParsedIntent
  pub substantive_text : String → String
  pub to_lower_case : String → String

pub record FeeShareBps : Type 0 where
  pub doppler : ℕ
  pub tagger : ℕ
  pub side_a : ℕ
  pub side_b : ℕ
  pub protocol : ℕ

pub record EngineConfig : Type 0 where
  pub bot_handle : String
  pub freshness_window_ms : ℕ
  pub market_duration_ms : ℕ
  pub seed_per_side_usd : ℕ
  pub likes_sample_interval_ms : ℕ
  pub min_stake_usd : ℕ
  pub max_stake_usd : ℕ
  pub hidden_report_threshold : ℕ
  pub protocol_wallet : String
  pub fee_share_bps : FeeShareBps
  pub doppler_wallet : String
  pub market_url : String → String

-- The engine's store, and the calls so far.
abbrev pub World : Type 0
World = Machine Store Event
