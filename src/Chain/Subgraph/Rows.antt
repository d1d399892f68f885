-- ===== src/Chain/Subgraph/Rows.antt =====
-- The queries, rows and results of `RatioSubgraph` (packages/chain/src/evm/subgraph.ts). What the
-- server answers is a function of the queries before; a decimal text that `BigInt` or `Number` reads
-- is its number.
use ratio.Base.{ℕ, Bool, Option, List, String, nat_eq}
use ratio.Base.Int.{ℤ}
use ratio.Texts.{Text}
use ratio.Flow.{Result}
use ratio.Store.Records.{Side}

-- The rows of the queries, with the fields that they ask for.
pub record EntryRow : Type 0 where
  pub side : ℕ
  pub staked : ℕ
  pub trade_count : ℕ
  pub claimable_supply : ℕ

pub record TradeRow : Type 0 where
  pub market_id : ℕ
  pub side : ℕ
  pub bettor : Text
  pub amount_in : ℕ
  pub tokens_out : ℕ
  pub price : ℕ
  pub timestamp : ℕ
  pub tx_hash : Text

pub record MarketRow : Type 0 where
  pub id : Text
  pub market_id : ℕ
  pub settles_at : ℕ
  pub total_staked : ℕ
  pub net_staked : ℕ
  pub trade_count : ℕ
  pub resolved : Bool
  pub winner_side : Option ℕ
  pub forfeit : Bool
  pub total_pot : ℕ
  pub total_claimed : ℕ
  pub entries : List EntryRow

pub record UserRow : Type 0 where
  pub id : Text
  pub total_staked : ℕ
  pub total_paid_out : ℕ
  pub realised_profit : ℤ
  pub wins : ℕ
  pub losses : ℕ

pub record PositionRow : Type 0 where
  pub market : Text
  pub side : ℕ
  pub tokens : ℕ
  pub net_staked : ℕ
  pub claimed : Bool

pub record ProtocolRow : Type 0 where
  pub market_count : ℕ
  pub trade_count : ℕ
  pub total_staked : ℕ

pub data Query : Type 0 where
  side_totals_query : (oracle : Text) → Query
  trending_query : (limit : ℕ) → (resolved : List Bool) → Query
  trades_query : (oracle : Text) → (limit : ℕ) → Query
  traders_query : (limit : ℕ) → Query
  positions_query : (bettor : Text) → Query
  health_query : Query
  world_query : (markets trades : ℕ) → Query

-- The answer of the server to one POST.
pub record Response (T : Type 0) : Type 0 where
  pub is_ok : Bool
  pub status : String
  pub errors : List String
  pub body : Option T

-- The rows of one market, and of the whole world.
abbrev pub SideRows : Type 0
SideRows = Option (List EntryRow × List TradeRow)

abbrev pub WorldRows : Type 0
WorldRows = List MarketRow × List TradeRow

pub record Graph : Type 0 where
  pub side_rows : List Query → Text → Result (Response SideRows)
  pub trending_rows : List Query → ℕ → List Bool → Result (Response (List MarketRow))
  pub trade_rows : List Query → Text → ℕ → Result (Response (List TradeRow))
  pub trader_rows : List Query → ℕ → Result (Response (List UserRow))
  pub position_rows : List Query → Text → Result (Response (List PositionRow))
  pub protocol_row : List Query → Result (Response (Option ProtocolRow))
  pub world_rows : List Query → ℕ → ℕ → Result (Response WorldRows)

pub record SideTotals : Type 0 where
  pub raised_wei : ℕ × ℕ
  pub tokens : ℕ × ℕ
  pub trade_count : ℕ

pub record TrendingMarket : Type 0 where
  pub oracle : Text
  pub market_id : ℕ
  pub total_staked_wei : ℕ
  pub trade_count : ℕ
  pub resolved : Bool
  pub settles_at : ℕ

pub record TradePoint : Type 0 where
  pub side : Side
  pub bettor : Text
  pub amount_in_wei : ℕ
  pub tokens_out : ℕ
  pub price_wad : ℕ
  pub timestamp : ℕ

pub record LeaderRow : Type 0 where
  pub address : Text
  pub total_staked_wei : ℕ
  pub total_paid_out_wei : ℕ
  pub realised_profit_wei : ℤ
  pub wins : ℕ
  pub losses : ℕ

pub record OpenPosition : Type 0 where
  pub oracle : Text
  pub side : Side
  pub tokens : ℕ
  pub net_staked_wei : ℕ
  pub claimed : Bool

pub record Health : Type 0 where
  pub market_count : ℕ
  pub trade_count : ℕ
  pub total_staked_wei : ℕ

pub record IndexedMarket : Type 0 where
  pub oracle : Text
  pub market_id : ℕ
  pub settles_at : ℕ
  pub staked_wei : ℕ × ℕ
  pub claimable_supply : ℕ × ℕ
  pub total_staked_wei : ℕ
  pub net_staked_wei : ℕ
  pub trade_count : ℕ
  pub resolved : Bool
  pub winner_side : Option Side
  pub forfeit : Bool
  pub pot_wei : ℕ
  pub claimed_wei : ℕ

pub record IndexedTrade : Type 0 where
  pub market_id : ℕ
  pub side : Side
  pub bettor : Text
  pub amount_in_wei : ℕ
  pub tokens_out : ℕ
  pub price_wad : ℕ
  pub at_ms : ℕ
  pub tx_hash : Text

pub record IndexedWorld : Type 0 where
  pub markets : List IndexedMarket
  pub trades : List IndexedTrade
