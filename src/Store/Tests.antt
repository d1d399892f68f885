-- ===== src/Store/Tests.antt =====
-- The boards (apps/agent/src/store.ts) on two posts, and the database
-- (apps/agent/src/storeSupabase.ts) as a list of rows.
use mathlib.Core.Option
use ratio.Base.{
  ◌≡◌, refl, ◌∙◌, sym, ap, subst, Bool-cases, inl, inr, eq_of_beq, Option, none, some, List, [],
  ◌∷◌, String, string_eq, ◌==◌, if◌then◌else◌, false,
}
use ratio.Base.Int.{pos}
use ratio.Base.Maps.{get, set, adjust, get-set, get-adjust}
use ratio.Flow.{Result, ok, throw}
use ratio.Store.Records.{
  MarketRecord, BetRecord, reply, open_market, settled, tagger, side_a, side_b, buy, sell,
  TradeDirection,
}
use ratio.Store.Memory.{Store, empty}
use ratio.Store.Boards.{trending_posts}
use ratio.Store.Rows.{
  Value, text, Row, column, to_row, from_row, bet_to_row, bet_from_row, sample_to_row,
  sample_from_row,
}
use ratio.Store.Columns.{rows_back}
use ratio.Store.Supabase.{
  column_for, save_row, update_row, patch_row, set_columns, MarketTable, status, winner,
}
use ratio.Store.Mirror.{Mirrors, saves, updates, write_memory, write_rows-Mirrors}
use ratio.Store.Ranking.{IsTrending, trending_posts-IsTrending}

abbrev trade : String → TradeDirection → BetRecord
trade id direction = record {
  market_id = id;
  x_user_id = "dave";
  handle = "Dave";
  side = side_a;
  direction = direction;
  amount_usd = 5;
  tokens_out = 7;
  placed_at_ms = 40;
  is_seed = false;
}

abbrev two_posts : Store
two_posts = record empty {
  bets = trade "2" buy ∷ trade "4" buy ∷ trade "4" sell ∷ trade "5" buy ∷ [];
  by_post = ("1", "2" ∷ []) ∷ ("3", "4" ∷ "5" ∷ []) ∷ [];
}

trending_posts-IsTrending_example : IsTrending 1 two_posts (trending_posts 1 two_posts)
trending_posts-IsTrending_example = trending_posts-IsTrending 1 two_posts

abbrev market : MarketRecord
market = record {
  id = "2";
  tweet_a_id = "1";
  tweet_b_id = "2";
  author_a_x_id = "ann";
  author_b_x_id = "bob";
  tagger_x_id = "carol";
  pair_type = reply;
  b_selected_by = tagger;
  created_at_ms = 10;
  settles_at_ms = 110;
  tweet_b_age_at_create_ms = pos 5;
  likes_a_at_create = 3;
  likes_b_at_create = 4;
  status = open_market;
  winner = none;
  likes_a_final = none;
  likes_b_final = none;
  final_implied_a = none;
  final_pot_usd = none;
  last_likes_sample_at_ms = some 40;
  hidden_reporter_ids = "erin" ∷ [];
  hidden_report_count = 1;
  hidden_reported_at_ms = none;
  card_tweet_id = some "card";
  chain_refs = "2";
  doppler_pool_id = none;
  author_a_handle = "Ann";
  author_b_handle = "Bob";
  tagger_handle = "Carol";
  text_a = some "hello";
  text_b = none;
}

rows_back_example :
    (from_row (to_row market) ≡ some market)
    × (bet_from_row (bet_to_row (trade "2" sell)) ≡ some (trade "2" sell))
    × (sample_from_row
          (sample_to_row (record { market_id = "2"; at_ms = 4; likes_a = 1; likes_b = 0 }))
        ≡ some (record { market_id = "2"; at_ms = 4; likes_a = 1; likes_b = 0 }))
rows_back_example =
    rows_back market (trade "2" sell)
      (record { market_id = "2"; at_ms = 4; likes_a = 1; likes_b = 0 })

-- A table as a list of rows by primary key, which refuses a row without one.
abbrev over : Row → Option Row → Row
over r none = r
over r (some old) = set_columns r old

abbrev upsert_as : Value → Row → List (String × Row) → Result (List (String × Row))
upsert_as (text own) r d = ok (set own (over r (get own d)) d)
upsert_as _ r d = throw "no primary key"

table-upsert :
    (own : String) (r : Row) (d d' : List (String × Row))
    → column "id" r ≡ text own
    → upsert_as (column "id" r) r d ≡ ok d'
    → (id : String)
    → get id d' ≡ (
        if own == id
        then some (elim (get id d) [ none ↦ r | some old ↦ set_columns r old ])
        else get id d)
table-upsert own r d d' key e id =
    let stored : set own (over r (get own d)) d ≡ d' =
      cc (subst (λ v. upsert_as v r d ≡ ok d') key e) in
    ap (get id) (sym stored)
    ∙ get-set own id (over r (get own d)) d
    ∙ elim (Bool-cases (own == id)) [
      | inr differ ↦ rw differ refl
      | inl hit ↦
          rw hit (ap some (ap (λ i. over r (get i d)) (eq_of_beq own id hit) ∙ merged (get id d)))
    ]
  where
    merged : (o : Option Row) → over r o ≡ elim o [ none ↦ r | some old ↦ set_columns r old ]
    merged none = refl
    merged (some old) = refl

table-update :
    (own : String) (cs : Row) (d d' : List (String × Row))
    → ok (adjust own (set_columns cs) d) ≡ ok d'
    → (id : String)
    → get id d' ≡ (
        if own == id
        then elim (get id d) [ none ↦ none | some old ↦ some (set_columns cs old) ]
        else get id d)
table-update own cs d d' e id =
    let stored : adjust own (set_columns cs) d ≡ d' = cc e in
    ap (get id) (sym stored)
    ∙ get-adjust own id (set_columns cs) d
    ∙ ap (λ o. if own == id then o else get id d) (mapped (get id d))
  where
    mapped :
        (o : Option Row)
        → Option.map (set_columns cs) o
          ≡ elim o [ none ↦ none | some old ↦ some (set_columns cs old) ]
    mapped none = refl
    mapped (some old) = refl

abbrev table : MarketTable (List (String × Row))
table = record {
  row = get;
  upsert = λ r d. upsert_as (column "id" r) r d;
  update = λ own cs d. ok (adjust own (set_columns cs) d);
  row_upsert = table-upsert;
  row_update = table-update;
}

write_rows-Mirrors_example :
    Mirrors table (("2", to_row (record market { status = settled; winner = some side_b })) ∷ []) (
      write_memory
        (saves market ∷ updates "2" (status settled ∷ winner (some side_b) ∷ []) ∷ [])
        empty)
unfolding column_for get save_row to_row update_row patch_row adjust set set_columns
write_rows-Mirrors_example =
    write_rows-Mirrors table
      (saves market ∷ updates "2" (status settled ∷ winner (some side_b) ∷ []) ∷ []) []
      (("2", to_row (record market { status = settled; winner = some side_b })) ∷ []) empty
      (tt, ((refl, (refl, tt)), tt)) (λ id. refl) refl
