-- ===== src/Chain/Subgraph/Tests.antt =====
-- The client of the index against a server of one market with one trade, and its answers to errors.
use mathlib.Core.List.Perm
use Prim.Native.String.{◌++◌}
use ratio.Base.{◌≡◌, refl, false, none, some, List, [], ◌∷◌, ltb, if◌then◌else◌, take, arith}
use ratio.Base.Int.{pos, negsuc}
use ratio.Flow.{Result, ok, throw, Machine, monad, ◌>>=◌, pure}
use ratio.Flow.Ends.{Ends}
use ratio.Texts.{codes}
use ratio.Index.Entities.{Host, Index, empty_index}
use ratio.Base.Maps.{get, set}
use ratio.Index.Entities.{entry_by_pool}
use ratio.Index.Handlers.{
  Origin, Event, oracle_created, swap, entry_registered, sync, handle, handle_oracle_created,
  add_market, handle_entry_registered, handle_swap, record_buy,
}
use ratio.Chain.Subgraph.Rows.{EntryRow, MarketRow, TradeRow, Query, Graph, Health, IndexedWorld}
use ratio.Chain.Subgraph.Client.{
  totals_of, add_entries, sold, body_of, query, positions, health, world,
}
use ratio.Chain.Subgraph.Agreement.{answered, Serves, Agrees, health-world}

abbrev host : Host
host = record {
  concat = λ a b. a ++ b;
  concat_i32 = λ b n. b;
  side_suffix = λ n. if ltb n 1 then ":0" else ":1";
  pool_id_for = λ token. "pool " ++ token;
  to_i32 = λ n. if ltb n 2147483648 then some n else none;
}

abbrev origin : Origin
origin = record {
  block_number = 5;
  block_time = 100;
  tx_hash = "hash";
  tx_from = "dave";
  log_index = 0;
}

abbrev events : List Event
events =
    oracle_created origin "oracle" 2 1000
    ∷ entry_registered origin "oracle" 1 "token b" "eth"
    ∷ swap origin "pool token b" (negsuc 9) (pos 20)
    ∷ []

abbrev indexed : Index
indexed = record {
  markets =
      (
        "oracle",
        record {
          market_id = 2;
          settles_at = 1000;
          created_at_block = 5;
          created_at_time = 100;
          total_staked = 10;
          net_staked = 10;
          trade_count = 1;
          resolved = false;
          winner_side = 0;
          winning_token = none;
          forfeit = false;
          likes_a = none;
          likes_b = none;
          resolved_at_time = none;
          total_pot = 0;
          total_claimed = 0;
        },
      )
      ∷ [];
  entries =
      (
        "oracle:1",
        record {
          id = "oracle:1";
          market = "oracle";
          side = 1;
          token = "token b";
          numeraire = "eth";
          pool_id = "pool token b";
          staked = 10;
          trade_count = 1;
          migrated = false;
          contribution = 0;
          claimable_supply = 0;
        },
      )
      ∷ [];
  pools = ("pool token b", record { entry = "oracle:1"; market = "oracle" }) ∷ [];
  positions =
      (
        "oracledave:1",
        record {
          market = "oracle";
          entry = "oracle:1";
          bettor = "dave";
          side = 1;
          tokens = 20;
          net_staked = 10;
          trade_count = 1;
          claimed = false;
          payout = 0;
        },
      )
      ∷ [];
  users =
      (
        "dave",
        record {
          total_staked = 10;
          total_paid_out = 0;
          realised_profit = pos 0;
          trade_count = 1;
          wins = 0;
          losses = 0;
        },
      )
      ∷ [];
  protocol = record { market_count = 1; trade_count = 1; total_staked = 10; total_paid_out = 0 };
  trades =
      (
        "hash",
        record {
          id = "hash";
          market = "oracle";
          entry = "oracle:1";
          side = 1;
          bettor = "dave";
          amount_in = 10;
          tokens_out = 20;
          price = 500000000000000000;
          block_number = 5;
          timestamp = 100;
          tx_hash = "hash";
        },
      )
      ∷ [];
  claims = [];
  oracles = "oracle" ∷ [];
}

abbrev entry_row : EntryRow
entry_row = record { side = 1; staked = 10; trade_count = 1; claimable_supply = 0 }

abbrev market_row : MarketRow
market_row = record {
  id = codes "oracle";
  market_id = 2;
  settles_at = 1000;
  total_staked = 10;
  net_staked = 10;
  trade_count = 1;
  resolved = false;
  winner_side = none;
  forfeit = false;
  total_pot = 0;
  total_claimed = 0;
  entries = entry_row ∷ [];
}

abbrev trade_row : TradeRow
trade_row = record {
  market_id = 2;
  side = 1;
  bettor = codes "dave";
  amount_in = 10;
  tokens_out = 20;
  price = 500000000000000000;
  timestamp = 100;
  tx_hash = codes "hash";
}

abbrev graph : Graph
graph = record {
  side_rows = λ h oracle. ok (answered (some (entry_row ∷ [], trade_row ∷ [])));
  trending_rows = λ h limit resolved. ok (answered (market_row ∷ []));
  trade_rows = λ h oracle limit. ok (answered (trade_row ∷ []));
  trader_rows = λ h limit. throw "fetch failed";
  position_rows = λ h bettor. ok (record (answered []) { errors = "bad id" ∷ [] });
  protocol_row =
      λ h. ok (answered (some (record { market_count = 1; trade_count = 1; total_staked = 10 })));
  world_rows = λ h m n. ok (answered (take m (market_row ∷ []), take n (trade_row ∷ [])));
}

abbrev start : Machine (Unit {0}) Query
start = record { store = tt; history = [] }

synced : sync host events empty_index ≡ some indexed
unfolding sync handle get set handle_oracle_created add_market handle_entry_registered handle_swap
    record_buy entry_by_pool
synced = refl

served : Serves indexed graph
served = record {
  serves_protocol = λ h. refl;
  serves_world = λ h m n _ _. (market_row ∷ [], trade_row ∷ [], refl, Perm.rfl, Perm.rfl);
}

health-world_example :
    Ends
      (λ (res : Result (Health × IndexedWorld)) w. Agrees res)
      (health graph >>= λ totals. world graph 200 1000 >>= λ w. pure (totals, w))
      start
health-world_example =
    health-world host events indexed graph 200 1000 start (tt, ((1, refl), ((0, refl), tt)))
      (refl, tt) synced served (omega arith) (omega arith) (omega arith) (omega arith)

-- What was sold stands in for the supply, on the side of the trade.
totals_of_sold :
    totals_of (some (entry_row ∷ [], trade_row ∷ []))
    ≡ record { raised_wei = (0, 10); tokens = (0, 20); trade_count = 1 }
unfolding totals_of add_entries sold
totals_of_sold = refl

positions_refused : (positions graph (codes "0xAB") start).0 ≡ throw "bad id"
unfolding monad positions query body_of
positions_refused = refl
