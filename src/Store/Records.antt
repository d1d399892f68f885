-- ===== src/Store/Records.antt =====
-- The records of apps/agent/src/store.ts and of packages/chain/src/index.ts that the store keeps.
-- A time is in milliseconds. An amount of dollars is a number of millionths of a dollar, a
-- probability a number of millionths: the source's floats, at that precision.
use ratio.Base.Int.{ℤ}
use ratio.Base.{ℕ, Bool, Option, List, String, true, false}

pub data PairType : Type 0 where
  quote reply : PairType

pub data MarketStatus : Type 0 where
  open_market settled forfeited : MarketStatus

-- `"a" | "b"` and `0 | 1`.
pub data Side : Type 0 where
  side_a side_b : Side

pub data Selector : Type 0 where
  tagger auto : Selector

pub data TradeDirection : Type 0 where
  buy sell : TradeDirection

pub record MarketRecord : Type 0 where
  pub id : String
  pub tweet_a_id : String
  pub tweet_b_id : String
  pub author_a_x_id : String
  pub author_b_x_id : String
  pub tagger_x_id : String
  pub pair_type : PairType
  pub b_selected_by : Selector
  pub created_at_ms : ℕ
  pub settles_at_ms : ℕ
  pub tweet_b_age_at_create_ms : ℤ
  pub likes_a_at_create : ℕ
  pub likes_b_at_create : ℕ
  pub status : MarketStatus
  pub winner : Option Side
  pub likes_a_final : Option ℕ
  pub likes_b_final : Option ℕ
  pub final_implied_a : Option ℕ
  pub final_pot_usd : Option ℕ
  pub last_likes_sample_at_ms : Option ℕ
  pub hidden_reporter_ids : List String
  pub hidden_report_count : ℕ
  pub hidden_reported_at_ms : Option ℕ
  pub card_tweet_id : Option String
  pub chain_refs : String
  pub doppler_pool_id : Option String
  pub author_a_handle : String
  pub author_b_handle : String
  pub tagger_handle : String
  pub text_a : Option String
  pub text_b : Option String

pub record BetRecord : Type 0 where
  pub market_id : String
  pub x_user_id : String
  pub handle : String
  pub side : Side
  pub direction : TradeDirection
  pub amount_usd : ℕ
  pub tokens_out : ℕ
  pub placed_at_ms : ℕ
  pub is_seed : Bool

pub record LikeSampleRecord : Type 0 where
  pub market_id : String
  pub at_ms : ℕ
  pub likes_a : ℕ
  pub likes_b : ℕ

abbrev pub side_beq : Side → Side → Bool
side_beq side_a side_a = true
side_beq side_b side_b = true
side_beq _ _ = false

abbrev pub is_open : MarketStatus → Bool
is_open open_market = true
is_open _ = false

abbrev pub is_reply : PairType → Bool
is_reply reply = true
is_reply quote = false

abbrev pub is_buy : TradeDirection → Bool
is_buy buy = true
is_buy sell = false
