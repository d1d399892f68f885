-- ===== src/Store/Supabase.antt =====
-- `SupabaseStore` of apps/agent/src/storeSupabase.ts: writing markets to the database, and reading
-- all rows back into an in-memory store for the boards. The database is a parameter.
use ratio.Base.{ℕ, ◌≡◌, Option, none, some, List, [], ◌∷◌, String, string_eq, ◌==◌, if◌then◌else◌}
use ratio.Base.Int.{pos}
use ratio.Base.Maps.{set}
use ratio.Flow.{Result, ok}
use ratio.Store.Records.{MarketStatus, Side, MarketRecord}
use ratio.Store.Memory.{Store, empty, save_market, save_bet}
use ratio.Store.Rows.{
  Value, text, number, texts, Row, column, to_row, from_row, bet_from_row, option_text,
  option_number, status_text, winner_text,
}

-- The columns of one row over those of another.
unfoldable pub set_columns : Row → Row → Row
set_columns [] row = row
set_columns ((c, v) ∷ cs) row = set_columns cs (set c v row)

-- The table of markets: its rows by primary key, an upsert that inserts or sets the given columns, and
-- an update of the row with an id. A refused write is an error.
pub record MarketTable (D : Type 0) : Type 0 where
  pub row : String → D → Option Row
  pub upsert : Row → D → Result D
  pub update : (id : String) → Row → D → Result D
  pub row_upsert :
      (own : String) (r : Row) (d d' : D)
      → column "id" r ≡ text own
      → upsert r d ≡ ok d'
      → (id : String)
      → row id d' ≡ (
          if own == id
          then some (elim (row id d) [ none ↦ r | some old ↦ set_columns r old ])
          else row id d)
  pub row_update :
      (own : String) (cs : Row) (d d' : D)
      → update own cs d ≡ ok d'
      → (id : String)
      → row id d' ≡ (
          if own == id
          then elim (row id d) [ none ↦ none | some old ↦ some (set_columns cs old) ]
          else row id d)

-- One field of a `Partial<MarketRecord>`: those that `columnFor` names, and the others.
pub data Assignment : Type 0 where
  status : MarketStatus → Assignment
  winner : Option Side → Assignment
  likes_a_final likes_b_final final_implied_a final_pot_usd : Option ℕ → Assignment
  last_likes_sample_at_ms hidden_reported_at_ms : Option ℕ → Assignment
  hidden_reporter_ids : List String → Assignment
  hidden_report_count settles_at_ms : ℕ → Assignment
  card_tweet_id doppler_pool_id : Option String → Assignment
  author_a_handle author_b_handle tagger_handle : String → Assignment
  other : (MarketRecord → MarketRecord) → Assignment

-- `Object.assign(m, patch)`, for one field.
unfoldable pub assign : Assignment → MarketRecord → MarketRecord
assign (status x) m = record m { status = x }
assign (winner x) m = record m { winner = x }
assign (likes_a_final x) m = record m { likes_a_final = x }
assign (likes_b_final x) m = record m { likes_b_final = x }
assign (final_implied_a x) m = record m { final_implied_a = x }
assign (final_pot_usd x) m = record m { final_pot_usd = x }
assign (last_likes_sample_at_ms x) m = record m { last_likes_sample_at_ms = x }
assign (hidden_reported_at_ms x) m = record m { hidden_reported_at_ms = x }
assign (hidden_reporter_ids x) m = record m { hidden_reporter_ids = x }
assign (hidden_report_count x) m = record m { hidden_report_count = x }
assign (settles_at_ms x) m = record m { settles_at_ms = x }
assign (card_tweet_id x) m = record m { card_tweet_id = x }
assign (doppler_pool_id x) m = record m { doppler_pool_id = x }
assign (author_a_handle x) m = record m { author_a_handle = x }
assign (author_b_handle x) m = record m { author_b_handle = x }
assign (tagger_handle x) m = record m { tagger_handle = x }
assign (other f) m = f m

unfoldable pub assign_all : List Assignment → MarketRecord → MarketRecord
assign_all [] m = m
assign_all (a ∷ patch) m = assign_all patch (assign a m)

-- `columnFor`, with the value of `toRow` for the column.
unfoldable pub column_for : Assignment → Option (String × Value)
column_for (status x) = some ("status", status_text x)
column_for (winner x) = some ("winner", winner_text x)
column_for (likes_a_final x) = some ("likes_a_final", option_number x)
column_for (likes_b_final x) = some ("likes_b_final", option_number x)
column_for (final_implied_a x) = some ("final_implied_a", option_number x)
column_for (final_pot_usd x) = some ("final_pot_usd", option_number x)
column_for (last_likes_sample_at_ms x) = some ("last_likes_sample_at_ms", option_number x)
column_for (hidden_reported_at_ms x) = some ("hidden_reported_at_ms", option_number x)
column_for (hidden_reporter_ids x) = some ("hidden_reporter_ids", texts x)
column_for (hidden_report_count x) = some ("hidden_report_count", number (pos x))
column_for (settles_at_ms x) = some ("settles_at_ms", number (pos x))
column_for (card_tweet_id x) = some ("card_tweet_id", option_text x)
column_for (doppler_pool_id x) = some ("doppler_pool_id", option_text x)
column_for (author_a_handle x) = some ("author_a_handle", text x)
column_for (author_b_handle x) = some ("author_b_handle", text x)
column_for (tagger_handle x) = some ("tagger_handle", text x)
column_for (other f) = none

-- The row of an update: the fields without a column are passed over.
unfoldable pub patch_row : List Assignment → Row
patch_row [] = []
patch_row (a ∷ patch) = elim (column_for a) [
  | none ↦ patch_row patch
  | some c ↦ c ∷ patch_row patch
]

module _ {D : Type 0} (table : MarketTable D) where
  unfoldable pub save_row : MarketRecord → D → Result D
  save_row m d = table.upsert (to_row m) d

  -- Nothing is written where there is nothing to set.
  unfoldable pub update_row : String → List Assignment → D → Result D
  update_row id patch d = elim (patch_row patch) [ [] ↦ ok d | c ∷ cs ↦ table.update id (c ∷ cs) d ]

unfoldable pub hydrate_bets : List Row → Store → Option Store
hydrate_bets [] mem = some mem
hydrate_bets (r ∷ rs) mem = elim (bet_from_row r) [
  | none ↦ none
  | some b ↦ hydrate_bets rs (save_bet b mem)
]

unfoldable pub hydrate_markets : List Row → Store → Option Store
hydrate_markets [] mem = some mem
hydrate_markets (r ∷ rs) mem = elim (from_row r) [
  | none ↦ none
  | some m ↦ hydrate_markets rs (save_market m mem)
]

-- The rows of both tables, as an in-memory store.
unfoldable pub hydrate : (markets bets : List Row) → Option Store
hydrate markets bets = elim (hydrate_markets markets empty) [
  | none ↦ none
  | some mem ↦ hydrate_bets bets mem
]
