-- ===== src/Index/Handlers.antt =====
-- The event handlers of subgraph/src: factory.ts, oracle.ts, swaps.ts, migrator.ts. A handler that
-- aborts leaves no index.
use ratio.Base.{
  ℕ, ◌+◌, ◌*◌, ◌/◌, Bool, true, false, not, ◌&&◌, Option, none, some, List, [], ◌∷◌, String,
  string_eq, nat_eq, ◌==◌, if◌then◌else◌, or_else, keep, ltb,
}
use ratio.Base.Int.{ℤ, pos, pos_part, neg_part, ◌+ℤ◌, ◌-ℤ◌}
use ratio.Base.Maps.{get, set, values}
use ratio.Index.Entities.{
  Market, Entry, Position, Index, Host, bump, wad, user, entry_by_pool, entry_id, position_id,
  bytes32_to_i32,
}

-- The parts of an event that every handler may read.
pub record Origin : Type 0 where
  pub block_number : ℕ
  pub block_time : ℕ
  pub tx_hash : String
  pub tx_from : String
  pub log_index : ℕ

pub data Event : Type 0 where
  oracle_created market_opened : Origin → (oracle : String) → (market_id settles_at : ℕ) → Event
  entry_tokens_set : Origin → (oracle : String) → Event
  ratio_resolved :
      Origin → (oracle : String) → (winner_side likes_a likes_b : ℕ) → (forfeit : Bool) → Event
  swap : Origin → (pool : String) → (amount0 amount1 : ℤ) → Event
  entry_registered : Origin → (oracle : String) → (entry : ℕ) → (token numeraire : String) → Event
  entry_migrated : Origin → (oracle : String) → (entry contribution claimable_supply : ℕ) → Event
  claimed : Origin → (oracle claimer : String) → (tokens_burned numeraire_received : ℕ) → Event

-- `if (x == null) …`
abbrev pub maybe {ℓ κ} : {A : Type ℓ} {B : Type κ} → Option A → B → (A → B) → B
maybe none b f = b
maybe (some a) b f = f a

abbrev pub new_market : Origin → ℕ → ℕ → Market
new_market o market_id settles_at = record {
  market_id = market_id;
  settles_at = settles_at;
  created_at_block = o.block_number;
  created_at_time = o.block_time;
  total_staked = 0;
  net_staked = 0;
  trade_count = 0;
  resolved = false;
  winner_side = 0;
  winning_token = none;
  forfeit = false;
  likes_a = none;
  likes_b = none;
  resolved_at_time = none;
  total_pot = 0;
  total_claimed = 0;
}

-- A market is saved for the first time, and counted.
unfoldable pub add_market : Origin → String → ℕ → ℕ → Index → Index
add_market o oracle market_id settles_at ix = record ix {
  markets = set oracle (new_market o market_id settles_at) ix.markets;
  protocol = record ix.protocol { market_count = bump ix.protocol.market_count };
}

unfoldable pub handle_oracle_created : Origin → String → ℕ → ℕ → Index → Index
handle_oracle_created o oracle market_id settles_at ix =
    let listening = record ix { oracles = oracle ∷ ix.oracles } in
    maybe (get oracle ix.markets) (add_market o oracle market_id settles_at listening)
      (λ m. listening)

unfoldable pub handle_market_opened : Origin → String → ℕ → ℕ → Index → Index
handle_market_opened o oracle market_id settles_at ix =
    maybe (get oracle ix.markets) (add_market o oracle market_id settles_at ix) (λ m. record ix {
      markets = set oracle (record m { market_id = market_id; settles_at = settles_at }) ix.markets;
    })

-- Entries are made by the migrator's event; this one changes nothing.
unfoldable pub handle_entry_tokens_set : Index → Index
handle_entry_tokens_set ix = ix

-- The record of one position's owner, when the market is decided.
unfoldable pub book : ℕ → Position → Index → Index
book winner_side p ix =
    let u = user p.bettor ix in
    record ix {
      users =
          set p.bettor
            (if p.side == winner_side then record u { wins = bump u.wins } else record u {
              losses = bump u.losses;
              realised_profit = u.realised_profit -ℤ pos p.net_staked;
            })
            ix.users;
    }

unfoldable pub book_all : ℕ → List Position → Index → Index
book_all winner_side [] ix = ix
book_all winner_side (p ∷ ps) ix = book_all winner_side ps (book winner_side p ix)

unfoldable pub handle_ratio_resolved : Origin → String → ℕ → ℕ → ℕ → Bool → Index → Index
handle_ratio_resolved o oracle winner_side likes_a likes_b forfeit ix =
    maybe (get oracle ix.markets) ix λ m.
      book_all winner_side (keep (λ p. p.market == oracle) (values ix.positions)) (record ix {
        markets =
            set oracle
              (record m {
                resolved = true;
                winner_side = winner_side;
                likes_a = some likes_a;
                likes_b = some likes_b;
                forfeit = forfeit;
                resolved_at_time = some o.block_time;
              })
              ix.markets;
      })

abbrev pub magnitude : ℤ → ℕ
magnitude z = pos_part z + neg_part z

-- ETH goes in, and tokens come out.
abbrev pub is_buy : ℤ → ℤ → Bool
is_buy amount0 amount1 = ltb 0 (neg_part amount0) && ltb 0 (pos_part amount1)

module _ (host : Host) where
  abbrev pub new_position : String → Entry → String → Position
  new_position market e bettor = record {
    market = market;
    entry = e.id;
    bettor = bettor;
    side = e.side;
    tokens = 0;
    net_staked = 0;
    trade_count = 0;
    claimed = false;
    payout = 0;
  }

  -- What a buy saves: the trade, under the transaction and the log's index, which has to fit an i32,
  -- and the totals of the entry, market, position, user and protocol.
  unfoldable pub record_buy : Origin → Entry → Market → ℕ → ℕ → Index → Option Index
  record_buy o e m amount_in tokens_out ix = maybe (host.to_i32 o.log_index) none λ i.
      let id = host.concat_i32 o.tx_hash i in
      let key = position_id host e.market o.tx_from e.side in
      let p = or_else (get key ix.positions) (new_position e.market e o.tx_from) in
      let u = user o.tx_from ix in
      some (record ix {
        trades =
            set id
              (record {
                id = id;
                market = e.market;
                entry = e.id;
                side = e.side;
                bettor = o.tx_from;
                amount_in = amount_in;
                tokens_out = tokens_out;
                price = amount_in * wad / tokens_out;
                block_number = o.block_number;
                timestamp = o.block_time;
                tx_hash = o.tx_hash;
              })
              ix.trades;
        entries =
            set e.id (record e { staked = e.staked + amount_in; trade_count = bump e.trade_count })
              ix.entries;
        markets =
            set e.market
              (record m {
                total_staked = m.total_staked + amount_in;
                net_staked = m.net_staked + amount_in;
                trade_count = bump m.trade_count;
              })
              ix.markets;
        positions =
            set key
              (record p {
                tokens = p.tokens + tokens_out;
                net_staked = p.net_staked + amount_in;
                trade_count = bump p.trade_count;
              })
              ix.positions;
        users =
            set o.tx_from
              (record u {
                total_staked = u.total_staked + amount_in;
                trade_count = bump u.trade_count;
              })
              ix.users;
        protocol = record ix.protocol {
          trade_count = bump ix.protocol.trade_count;
          total_staked = ix.protocol.total_staked + amount_in;
        };
      })

  unfoldable pub handle_swap : Origin → String → ℤ → ℤ → Index → Option Index
  handle_swap o pool amount0 amount1 ix = maybe (entry_by_pool pool ix) (some ix) λ e.
      maybe (get e.market ix.markets) (some ix) λ m.
        if magnitude amount1 == 0
        then some ix
        else if not (is_buy amount0 amount1)
        then some ix
        else record_buy o e m (magnitude amount0) (magnitude amount1) ix

  abbrev pub new_entry : String → ℕ → String → String → Entry
  new_entry oracle side token numeraire = record {
    id = entry_id host oracle side;
    market = oracle;
    side = side;
    token = token;
    numeraire = numeraire;
    pool_id = host.pool_id_for token;
    staked = 0;
    trade_count = 0;
    migrated = false;
    contribution = 0;
    claimable_supply = 0;
  }

  -- The market is looked up before the side is read; reading the side may abort.
  unfoldable pub handle_entry_registered :
      Origin → String → ℕ → String → String → Index → Option Index
  handle_entry_registered o oracle entry token numeraire ix =
      maybe (get oracle ix.markets) (some ix) λ m. maybe (bytes32_to_i32 host entry) none λ side.
        if not (side == 0) && not (side == 1)
        then some ix
        else some (record ix {
          entries =
              set (entry_id host oracle side) (new_entry oracle side token numeraire) ix.entries;
          pools =
              set (host.pool_id_for token)
                (record { entry = entry_id host oracle side; market = oracle }) ix.pools;
        })

  unfoldable pub handle_entry_migrated : Origin → String → ℕ → ℕ → ℕ → Index → Option Index
  handle_entry_migrated o oracle entry contribution claimable_supply ix =
      maybe (bytes32_to_i32 host entry) none λ side.
        maybe (get (entry_id host oracle side) ix.entries) (some ix) λ e.
          let moved = record ix {
            entries =
                set (entry_id host oracle side)
                  (record e {
                    migrated = true;
                    contribution = contribution;
                    claimable_supply = claimable_supply;
                  })
                  ix.entries;
          } in
          maybe (get oracle ix.markets) (some moved) λ m. some (record moved {
            markets =
                set oracle
                  (record m {
                    total_pot = m.total_pot + contribution;
                    winning_token =
                        if m.resolved && (m.winner_side == side)
                        then some e.token
                        else m.winning_token;
                  })
                  ix.markets;
          })

  -- The winning position is marked, and its profit booked.
  unfoldable pub settle_position : Market → String → String → ℕ → Index → Index
  settle_position m oracle claimer received ix =
      let key = position_id host oracle claimer m.winner_side in
      if m.resolved
      then maybe (get key ix.positions) ix (λ p.
        let u = user claimer ix in
        record ix {
          positions =
              set key (record p { claimed = true; payout = p.payout + received }) ix.positions;
          users =
              set claimer
                (record u {
                  realised_profit = u.realised_profit +ℤ pos received -ℤ pos p.net_staked;
                })
                ix.users;
        })
      else ix

  -- The claim, under the transaction and the log's index, which has to fit an i32, and the totals of
  -- the market, user and protocol.
  unfoldable pub record_claim : Origin → Market → String → String → ℕ → ℕ → Index → Option Index
  record_claim o m oracle claimer tokens_burned received ix =
      maybe (host.to_i32 o.log_index) none λ i.
        let id = host.concat_i32 o.tx_hash i in
        let u = user claimer ix in
        some (record ix {
          claims =
              set id
                (record {
                  id = id;
                  market = oracle;
                  claimer = claimer;
                  tokens_burned = tokens_burned;
                  payout = received;
                  timestamp = o.block_time;
                  tx_hash = o.tx_hash;
                })
                ix.claims;
          markets = set oracle (record m { total_claimed = m.total_claimed + received }) ix.markets;
          users = set claimer (record u { total_paid_out = u.total_paid_out + received }) ix.users;
          protocol = record ix.protocol { total_paid_out = ix.protocol.total_paid_out + received };
        })

  unfoldable pub handle_claimed : Origin → String → String → ℕ → ℕ → Index → Option Index
  handle_claimed o oracle claimer tokens_burned received ix =
      maybe (get oracle ix.markets) (some ix) λ m.
        maybe (record_claim o m oracle claimer tokens_burned received ix) none
          λ recorded. some (settle_position m oracle claimer received recorded)

  unfoldable pub handle : Event → Index → Option Index
  handle (oracle_created o a i t) ix = some (handle_oracle_created o a i t ix)
  handle (market_opened o a i t) ix = some (handle_market_opened o a i t ix)
  handle (entry_tokens_set o a) ix = some (handle_entry_tokens_set ix)
  handle (ratio_resolved o a w x y f) ix = some (handle_ratio_resolved o a w x y f ix)
  handle (swap o p x y) ix = handle_swap o p x y ix
  handle (entry_registered o a e t n) ix = handle_entry_registered o a e t n ix
  handle (entry_migrated o a e c s) ix = handle_entry_migrated o a e c s ix
  handle (claimed o a c t n) ix = handle_claimed o a c t n ix

  -- An abort stops the sync.
  unfoldable pub sync : List Event → Index → Option Index
  sync [] ix = some ix
  sync (e ∷ es) ix = maybe (handle e ix) none (sync es)
