-- ===== src/Store/Columns.antt =====
-- Records survive the rows of apps/agent/src/storeSupabase.ts.
use ratio.Base.{ℕ, ◌≡◌, refl, Option, none, some, String, string_eq, nat_eq}
use ratio.Base.Maps.{get}
use ratio.Store.Records.{
  PairType, quote, reply, MarketStatus, open_market, settled, forfeited, Side, side_a, side_b,
  Selector, tagger, auto, TradeDirection, buy, sell, MarketRecord, BetRecord, LikeSampleRecord,
}
use ratio.Store.Rows.{
  to_row, from_row, bet_to_row, bet_from_row, sample_to_row, sample_from_row, option_text,
  option_number, pair_text, selector_text, status_text, winner_text, as_option_text, num_or_undef,
  as_pair, as_selector, as_status, as_winner, side_number, as_side, direction_text, as_direction,
}

text_back : (o : Option String) → as_option_text (option_text o) ≡ some o
text_back none = refl
text_back (some s) = refl

number_back : (o : Option ℕ) → num_or_undef (option_number o) ≡ some o
number_back none = refl
number_back (some n) = refl

pair_back : (p : PairType) → as_pair (pair_text p) ≡ some p
pair_back quote = refl
pair_back reply = refl

selector_back : (x : Selector) → as_selector (selector_text x) ≡ some x
selector_back tagger = refl
selector_back auto = refl

status_back : (x : MarketStatus) → as_status (status_text x) ≡ some x
status_back open_market = refl
status_back settled = refl
status_back forfeited = refl

winner_back : (x : Option Side) → as_winner (winner_text x) ≡ some x
winner_back none = refl
winner_back (some side_a) = refl
winner_back (some side_b) = refl

side_back : (s : Side) → as_side (side_number s) ≡ some s
side_back side_a = refl
side_back side_b = refl

direction_back : (d : TradeDirection) → as_direction (direction_text d) ≡ some d
direction_back buy = refl
direction_back sell = refl

pub bet_from_row-bet_to_row : (b : BetRecord) → bet_from_row (bet_to_row b) ≡ some b
unfolding bet_from_row bet_to_row get
bet_from_row-bet_to_row b = rw (side_back b.side, direction_back b.direction) refl

sample_from_row-sample_to_row : (x : LikeSampleRecord) → sample_from_row (sample_to_row x) ≡ some x
unfolding sample_from_row sample_to_row get
sample_from_row-sample_to_row x = refl

pub from_row-to_row : (m : MarketRecord) → from_row (to_row m) ≡ some m
unfolding from_row to_row get
from_row-to_row m =
    rw
      (
        pair_back m.pair_type,
        selector_back m.b_selected_by,
        status_back m.status,
        winner_back m.winner,
        number_back m.likes_a_final,
        number_back m.likes_b_final,
        number_back m.final_implied_a,
        number_back m.final_pot_usd,
        number_back m.last_likes_sample_at_ms,
        number_back m.hidden_reported_at_ms,
        text_back m.card_tweet_id,
        text_back m.doppler_pool_id,
        text_back m.text_a,
        text_back m.text_b,
      )
      refl

-- What is written to a row reads back as it was: every field of a market, with what is absent as null,
-- of a bet and of a sample of likes.
pub rows_back :
    (m : MarketRecord) (b : BetRecord) (x : LikeSampleRecord)
    → (from_row (to_row m) ≡ some m)
      × (bet_from_row (bet_to_row b) ≡ some b)
      × (sample_from_row (sample_to_row x) ≡ some x)
rows_back m b x = (from_row-to_row m, bet_from_row-bet_to_row b, sample_from_row-sample_to_row x)
