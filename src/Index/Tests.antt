-- ===== src/Index/Tests.antt =====
-- The index (subgraph/src) on one market: it opens, both sides register, a user buys and claims.
use Prim.Native.String.{◌++◌}
use ratio.Base.{◌≡◌, refl, none, some, List, [], ◌∷◌, false, ltb, if◌then◌else◌}
use ratio.Base.Int.{pos, negsuc}
use ratio.Index.Entities.{Host, Index, empty_index}
use ratio.Index.Handlers.{
  Origin, Event, oracle_created, ratio_resolved, swap, entry_registered, entry_migrated, claimed,
  sync,
}
use ratio.Index.Totals.{IsBalanced}
use ratio.Index.Synced.{sync-IsBalanced}

abbrev host : Host
host = record {
  concat = λ a b. a ++ b;
  concat_i32 = λ b n. b ++ (if ltb n 1 then "0" else "1");
  side_suffix = λ n. if ltb n 1 then ":0" else ":1";
  pool_id_for = λ token. "pool " ++ token;
  to_i32 = λ n. if ltb n 2147483648 then some n else none;
}

abbrev origin : Origin
origin = record {
  block_number = 5;
  block_time = 100;
  tx_hash = "hash";
  tx_from = "dave";
  log_index = 0;
}

abbrev events : List Event
events =
    oracle_created origin "oracle" 2 1000
    ∷ entry_registered origin "oracle" 0 "token a" "eth"
    ∷ entry_registered origin "oracle" 1 "token b" "eth"
    ∷ swap origin "pool token b" (negsuc 9) (pos 20)
    ∷ ratio_resolved origin "oracle" 1 4 9 false
    ∷ entry_migrated origin "oracle" 1 10 20
    ∷ claimed (record origin { log_index = 1 }) "oracle" "dave" 20 9
    ∷ []

sync-IsBalanced_example : (ix : Index) × (sync host events empty_index ≡ some ix) × IsBalanced ix
sync-IsBalanced_example =
    sync-IsBalanced host events
      (tt, ((0, refl), ((1, refl), ((0, refl), (tt, ((1, refl), ((1, refl), tt)))))))
      (refl, (refl, tt))
