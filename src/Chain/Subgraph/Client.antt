-- ===== src/Chain/Subgraph/Client.antt =====
-- The methods of `RatioSubgraph` (packages/chain/src/evm/subgraph.ts), with its queries recorded.
use Prim.Native.String.{◌++◌}
use ratio.Base.{
  ℕ, ◌+◌, ◌*◌, Bool, true, false, Option, none, some, List, [], ◌∷◌, map, String, nat_eq, ◌==◌,
  if◌then◌else◌, not,
}
use ratio.Texts.{Text, lower}
use ratio.Flow.{Result, Flow, ◌>>=◌, pure, call, branch, cases, rethrow}
use ratio.Store.Records.{Side, side_a, side_b}
use ratio.Chain.Subgraph.Rows.{
  EntryRow, TradeRow, MarketRow, UserRow, PositionRow, ProtocolRow, Query, Response, Graph,
  SideTotals, TrendingMarket, TradePoint, LeaderRow, OpenPosition, Health, IndexedMarket,
  IndexedTrade, IndexedWorld, SideRows, WorldRows, side_totals_query, trending_query, trades_query,
  traders_query, positions_query, health_query, world_query,
}

-- `x === 0 ? 0 : 1`
abbrev pub side_of : ℕ → Side
side_of n = if n == 0 then side_a else side_b

-- `pair[side] = n`, `pair[side] += n` and `pair[side]`.
abbrev pub put : Side → ℕ → ℕ × ℕ → ℕ × ℕ
put side_a n (a, b) = (n, b)
put side_b n (a, b) = (a, n)

abbrev pub add_to : Side → ℕ → ℕ × ℕ → ℕ × ℕ
add_to side_a n (a, b) = (a + n, b)
add_to side_b n (a, b) = (a, b + n)

-- `map` and `.reverse()`
abbrev pub reverse_onto : {A : Type 0} → List A → List A → List A
reverse_onto [] acc = acc
reverse_onto (x ∷ xs) acc = reverse_onto xs (x ∷ acc)

-- The loop over the entries.
unfoldable pub add_entries : List EntryRow → SideTotals → SideTotals
add_entries [] s = s
add_entries (e ∷ es) s = add_entries es (record {
  raised_wei = put (side_of e.side) e.staked s.raised_wei;
  tokens =
      if e.claimable_supply == 0
      then s.tokens
      else put (side_of e.side) e.claimable_supply s.tokens;
  trade_count = s.trade_count + e.trade_count;
})

unfoldable pub sold : List TradeRow → ℕ × ℕ → ℕ × ℕ
sold [] acc = acc
sold (t ∷ ts) acc = sold ts (add_to (side_of t.side) t.tokens_out acc)

abbrev pub no_totals : SideTotals
no_totals = record { raised_wei = (0, 0); tokens = (0, 0); trade_count = 0 }

-- What was sold stands in for a supply that is not known yet.
unfoldable pub totals_of : SideRows → SideTotals
totals_of none = no_totals
totals_of (some (entries, trades)) =
    let s = add_entries entries no_totals in
    let n = sold trades (0, 0) in
    record s {
      tokens = (
        if s.tokens.0 == 0 then n.0 else s.tokens.0,
        if s.tokens.1 == 0 then n.1 else s.tokens.1,
      );
    }

unfoldable pub trending_market : MarketRow → TrendingMarket
trending_market m = record {
  oracle = m.id;
  market_id = m.market_id;
  total_staked_wei = m.total_staked;
  trade_count = m.trade_count;
  resolved = m.resolved;
  settles_at = m.settles_at;
}

unfoldable pub trade_point : TradeRow → TradePoint
trade_point t = record {
  side = side_of t.side;
  bettor = t.bettor;
  amount_in_wei = t.amount_in;
  tokens_out = t.tokens_out;
  price_wad = t.price;
  timestamp = t.timestamp;
}

unfoldable pub leader_row : UserRow → LeaderRow
leader_row u = record {
  address = u.id;
  total_staked_wei = u.total_staked;
  total_paid_out_wei = u.total_paid_out;
  realised_profit_wei = u.realised_profit;
  wins = u.wins;
  losses = u.losses;
}

unfoldable pub open_position : PositionRow → OpenPosition
open_position p = record {
  oracle = p.market;
  side = side_of p.side;
  tokens = p.tokens;
  net_staked_wei = p.net_staked;
  claimed = p.claimed;
}

unfoldable pub health_of : Option ProtocolRow → Health
health_of none = record { market_count = 0; trade_count = 0; total_staked_wei = 0 }
health_of (some p) = record {
  market_count = p.market_count;
  trade_count = p.trade_count;
  total_staked_wei = p.total_staked;
}

-- The loop over the entries of one market: stakes and claimable supplies by side.
unfoldable pub by_side : List EntryRow → (ℕ × ℕ) × (ℕ × ℕ) → (ℕ × ℕ) × (ℕ × ℕ)
by_side [] acc = acc
by_side (e ∷ es) (staked, claimable) =
    by_side es
      (put (side_of e.side) e.staked staked, put (side_of e.side) e.claimable_supply claimable)

unfoldable pub indexed_market : MarketRow → IndexedMarket
indexed_market m =
    let (staked, claimable) = by_side m.entries ((0, 0), (0, 0)) in
    record {
      oracle = m.id;
      market_id = m.market_id;
      settles_at = m.settles_at * 1000;
      staked_wei = staked;
      claimable_supply = claimable;
      total_staked_wei = m.total_staked;
      net_staked_wei = m.net_staked;
      trade_count = m.trade_count;
      resolved = m.resolved;
      winner_side = elim m.winner_side [ none ↦ none | some n ↦ some (side_of n) ];
      forfeit = m.forfeit;
      pot_wei = m.total_pot;
      claimed_wei = m.total_claimed;
    }

unfoldable pub indexed_trade : TradeRow → IndexedTrade
indexed_trade t = record {
  market_id = t.market_id;
  side = side_of t.side;
  bettor = t.bettor;
  amount_in_wei = t.amount_in;
  tokens_out = t.tokens_out;
  price_wad = t.price;
  at_ms = t.timestamp * 1000;
  tx_hash = t.tx_hash;
}

-- The trades come latest first and are handed on oldest first.
unfoldable pub indexed_world : WorldRows → IndexedWorld
indexed_world (markets, trades) = record {
  markets = map indexed_market markets;
  trades = reverse_onto (map indexed_trade trades) [];
}

abbrev pub Asks : Type 0 → Type 0
Asks A = Flow (Unit {0}) Query A

abbrev pub join : String → List String → String
join sep [] = ""
join sep (x ∷ []) = x
join sep (x ∷ y ∷ xs) = x ++ (sep ++ join sep (y ∷ xs))

-- What `query` makes of a response.
unfoldable pub body_of : {T : Type 0} → Response T → Asks T
body_of r = branch (not r.is_ok) (rethrow ("subgraph -> " ++ r.status)) (elim r.errors [
  | e ∷ es ↦ rethrow (join "; " (e ∷ es))
  | [] ↦ cases r.body (rethrow "subgraph returned no data") (λ rows. pure rows)
])

unfoldable pub query : {T : Type 0} → Query → (List Query → Result (Response T)) → Asks T
query q answer = call q answer >>= body_of

module _ (graph : Graph) where
  unfoldable pub side_totals : Text → Asks SideTotals
  side_totals oracle =
      query (side_totals_query (lower oracle)) (λ h. graph.side_rows h (lower oracle)) >>= λ rows.
      pure (totals_of rows)

  unfoldable pub trending : ℕ → Bool → Asks (List TrendingMarket)
  trending limit open_only =
      let resolved = if open_only then false ∷ [] else true ∷ false ∷ [] in
      query (trending_query limit resolved) (λ h. graph.trending_rows h limit resolved) >>= λ rows.
      pure (map trending_market rows)

  unfoldable pub trades : Text → ℕ → Asks (List TradePoint)
  trades oracle limit =
      query (trades_query (lower oracle) limit) (λ h. graph.trade_rows h (lower oracle) limit)
      >>= λ rows. pure (map trade_point rows)

  unfoldable pub trader_leaderboard : ℕ → Asks (List LeaderRow)
  trader_leaderboard limit =
      query (traders_query limit) (λ h. graph.trader_rows h limit) >>= λ rows.
      pure (map leader_row rows)

  unfoldable pub positions : Text → Asks (List OpenPosition)
  positions bettor =
      query (positions_query (lower bettor)) (λ h. graph.position_rows h (lower bettor)) >>= λ rows.
      pure (map open_position rows)

  unfoldable pub health : Asks Health
  health = query health_query graph.protocol_row >>= λ p. pure (health_of p)

  unfoldable pub world : ℕ → ℕ → Asks IndexedWorld
  world markets trades =
      query (world_query markets trades) (λ h. graph.world_rows h markets trades) >>= λ rows.
      pure (indexed_world rows)
