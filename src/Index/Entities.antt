-- ===== src/Index/Entities.antt =====
-- The entities of subgraph/schema.graphql, and the look-ups of subgraph/src/shared.ts. Identifiers
-- are bytes, kept as texts; counters are i32, kept by their 32 bits; a `BigInt` that is never
-- negative is a natural number.
use ratio.Base.{ℕ, ◌+◌, ◌%◌, Bool, Option, none, some, List, [], String, string_eq, or_else}
use ratio.Base.Int.{ℤ, pos}
use ratio.Base.Maps.{get}

pub record Market : Type 0 where
  pub market_id : ℕ
  pub settles_at : ℕ
  pub created_at_block : ℕ
  pub created_at_time : ℕ
  pub total_staked : ℕ
  pub net_staked : ℕ
  pub trade_count : ℕ
  pub resolved : Bool
  pub winner_side : ℕ
  pub winning_token : Option String
  pub forfeit : Bool
  pub likes_a : Option ℕ
  pub likes_b : Option ℕ
  pub resolved_at_time : Option ℕ
  pub total_pot : ℕ
  pub total_claimed : ℕ

pub record Entry : Type 0 where
  pub id : String
  pub market : String
  pub side : ℕ
  pub token : String
  pub numeraire : String
  pub pool_id : String
  pub staked : ℕ
  pub trade_count : ℕ
  pub migrated : Bool
  pub contribution : ℕ
  pub claimable_supply : ℕ

pub record Pool : Type 0 where
  pub entry : String
  pub market : String

pub record Trade : Type 0 where
  pub id : String
  pub market : String
  pub entry : String
  pub side : ℕ
  pub bettor : String
  pub amount_in : ℕ
  pub tokens_out : ℕ
  pub price : ℕ
  pub block_number : ℕ
  pub timestamp : ℕ
  pub tx_hash : String

pub record Position : Type 0 where
  pub market : String
  pub entry : String
  pub bettor : String
  pub side : ℕ
  pub tokens : ℕ
  pub net_staked : ℕ
  pub trade_count : ℕ
  pub claimed : Bool
  pub payout : ℕ

pub record Claim : Type 0 where
  pub id : String
  pub market : String
  pub claimer : String
  pub tokens_burned : ℕ
  pub payout : ℕ
  pub timestamp : ℕ
  pub tx_hash : String

pub record User : Type 0 where
  pub total_staked : ℕ
  pub total_paid_out : ℕ
  pub realised_profit : ℤ
  pub trade_count : ℕ
  pub wins : ℕ
  pub losses : ℕ

pub record Protocol : Type 0 where
  pub market_count : ℕ
  pub trade_count : ℕ
  pub total_staked : ℕ
  pub total_paid_out : ℕ

-- The entities that have been saved, each kind by its id.
pub record Index : Type 0 where
  pub markets : List (String × Market)
  pub entries : List (String × Entry)
  pub pools : List (String × Pool)
  pub positions : List (String × Position)
  pub users : List (String × User)
  pub protocol : Protocol
  pub trades : List (String × Trade)
  pub claims : List (String × Claim)
  -- The oracles that the factory's template listens to.
  pub oracles : List String

-- What the handlers use of the graph library: bytes put together, the suffix `":" + side`, the hash
-- of a pool key, and the conversion of an unsigned number to i32, which may abort.
pub record Host : Type 0 where
  pub concat : String → String → String
  pub concat_i32 : String → ℕ → String
  pub side_suffix : ℕ → String
  pub pool_id_for : String → String
  pub to_i32 : ℕ → Option ℕ

-- `n + 1` on i32.
abbrev pub bump : ℕ → ℕ
bump n = (n + 1) % 4294967296

abbrev pub wad : ℕ
wad = 1000000000000000000

abbrev pub new_protocol : Protocol
new_protocol = record { market_count = 0; trade_count = 0; total_staked = 0; total_paid_out = 0 }

abbrev pub new_user : User
new_user = record {
  total_staked = 0;
  total_paid_out = 0;
  realised_profit = pos 0;
  trade_count = 0;
  wins = 0;
  losses = 0;
}

abbrev pub empty_index : Index
empty_index = record {
  markets = [];
  entries = [];
  pools = [];
  positions = [];
  users = [];
  protocol = new_protocol;
  trades = [];
  claims = [];
  oracles = [];
}

-- `User.load(addr)`, or a new one.
abbrev pub user : String → Index → User
user a ix = or_else (get a ix.users) new_user

unfoldable pub entry_by_pool : String → Index → Option Entry
entry_by_pool id ix = elim (get id ix.pools) [ none ↦ none | some p ↦ get p.entry ix.entries ]

module _ (host : Host) where
  abbrev pub entry_id : String → ℕ → String
  entry_id market side = host.concat market (host.side_suffix side)

  abbrev pub position_id : String → String → ℕ → String
  position_id market bettor side = host.concat (host.concat market bettor) (host.side_suffix side)

  -- The side that an entry's 32 bytes spell.
  abbrev pub bytes32_to_i32 : ℕ → Option ℕ
  bytes32_to_i32 = host.to_i32
