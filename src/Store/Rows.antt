-- ===== src/Store/Rows.antt =====
-- The rows of apps/agent/src/storeSupabase.ts: how records go into the columns of the database
-- (apps/agent/migrations) and come back. A row whose columns are not of the types that the casts name
-- is refused.
use ratio.Base.{
  ℕ, Bool, true, false, Option, none, some, List, [], ◌∷◌, String, string_eq, nat_eq, ◌==◌,
  if◌then◌else◌,
}
use ratio.Base.Int.{ℤ, pos, negsuc}
use ratio.Base.Maps.{get}
use ratio.Store.Records.{
  PairType, quote, reply, MarketStatus, open_market, settled, forfeited, Side, side_a, side_b,
  Selector, tagger, auto, TradeDirection, buy, sell, MarketRecord, BetRecord, LikeSampleRecord,
}

-- A value of a column. Numbers are in the units of the records.
pub data Value : Type 0 where
  undefined null : Value
  text : String → Value
  number : ℤ → Value
  boolean : Bool → Value
  texts : List String → Value
  refs : (market_id : String) → Value

abbrev pub Row : Type 0
Row = List (String × Value)

-- `r.column`
abbrev pub column : String → Row → Value
column c r = elim (get c r) [ none ↦ undefined | some v ↦ v ]

abbrev pub option_text : Option String → Value
option_text none = null
option_text (some s) = text s

abbrev pub option_number : Option ℕ → Value
option_number none = null
option_number (some n) = number (pos n)

abbrev pub pair_text : PairType → Value
pair_text quote = text "quote"
pair_text reply = text "reply"

abbrev pub selector_text : Selector → Value
selector_text tagger = text "tagger"
selector_text auto = text "auto"

abbrev pub status_text : MarketStatus → Value
status_text open_market = text "open"
status_text settled = text "settled"
status_text forfeited = text "forfeited"

abbrev pub winner_text : Option Side → Value
winner_text none = null
winner_text (some side_a) = text "a"
winner_text (some side_b) = text "b"

unfoldable pub to_row : MarketRecord → Row
to_row m =
    ("id", text m.id)
    ∷ ("tweet_a_id", text m.tweet_a_id)
    ∷ ("tweet_b_id", text m.tweet_b_id)
    ∷ ("author_a_x_id", text m.author_a_x_id)
    ∷ ("author_b_x_id", text m.author_b_x_id)
    ∷ ("tagger_x_id", text m.tagger_x_id)
    ∷ ("pair_type", pair_text m.pair_type)
    ∷ ("b_selected_by", selector_text m.b_selected_by)
    ∷ ("created_at_ms", number (pos m.created_at_ms))
    ∷ ("settles_at_ms", number (pos m.settles_at_ms))
    ∷ ("tweet_b_age_at_create_ms", number m.tweet_b_age_at_create_ms)
    ∷ ("likes_a_at_create", number (pos m.likes_a_at_create))
    ∷ ("likes_b_at_create", number (pos m.likes_b_at_create))
    ∷ ("status", status_text m.status)
    ∷ ("winner", winner_text m.winner)
    ∷ ("likes_a_final", option_number m.likes_a_final)
    ∷ ("likes_b_final", option_number m.likes_b_final)
    ∷ ("final_implied_a", option_number m.final_implied_a)
    ∷ ("final_pot_usd", option_number m.final_pot_usd)
    ∷ ("last_likes_sample_at_ms", option_number m.last_likes_sample_at_ms)
    ∷ ("hidden_reporter_ids", texts m.hidden_reporter_ids)
    ∷ ("hidden_report_count", number (pos m.hidden_report_count))
    ∷ ("hidden_reported_at_ms", option_number m.hidden_reported_at_ms)
    ∷ ("card_tweet_id", option_text m.card_tweet_id)
    ∷ ("chain_refs", refs m.chain_refs)
    ∷ ("doppler_pool_id", option_text m.doppler_pool_id)
    ∷ ("author_a_handle", text m.author_a_handle)
    ∷ ("author_b_handle", text m.author_b_handle)
    ∷ ("tagger_handle", text m.tagger_handle)
    ∷ ("text_a", option_text m.text_a)
    ∷ ("text_b", option_text m.text_b)
    ∷ []

abbrev pub as_text : Value → Option String
as_text (text s) = some s
as_text _ = none

-- `(v ?? undefined) as string | undefined`
abbrev pub as_option_text : Value → Option (Option String)
as_option_text undefined = some none
as_option_text null = some none
as_option_text (text s) = some (some s)
as_option_text _ = none

-- `Number(v)`, where it is an integer.
abbrev pub as_integer : Value → Option ℤ
as_integer null = some (pos 0)
as_integer (number n) = some n
as_integer (boolean true) = some (pos 1)
as_integer (boolean false) = some (pos 0)
as_integer _ = none

abbrev pub natural : ℤ → Option ℕ
natural (pos n) = some n
natural (negsuc n) = none

abbrev pub as_natural : Value → Option ℕ
as_natural v = elim (as_integer v) [ none ↦ none | some n ↦ natural n ]

abbrev pub num_or_undef : Value → Option (Option ℕ)
num_or_undef undefined = some none
num_or_undef null = some none
num_or_undef v = elim (as_natural v) [ none ↦ none | some n ↦ some (some n) ]

abbrev pub as_pair : Value → Option PairType
as_pair (text s) = if s == "quote" then some quote else if s == "reply" then some reply else none
as_pair _ = none

abbrev pub as_selector : Value → Option Selector
as_selector (text s) =
    if s == "tagger" then some tagger else if s == "auto" then some auto else none
as_selector _ = none

abbrev pub as_status : Value → Option MarketStatus
as_status (text s) =
    if s == "open"
    then some open_market
    else if s == "settled"
    then some settled
    else if s == "forfeited"
    then some forfeited
    else none
as_status _ = none

abbrev pub as_winner : Value → Option (Option Side)
as_winner undefined = some none
as_winner null = some none
as_winner (text s) =
    if s == "a" then some (some side_a) else if s == "b" then some (some side_b) else none
as_winner _ = none

-- `(v ?? []) as string[]`
abbrev pub as_texts : Value → Option (List String)
as_texts undefined = some []
as_texts null = some []
as_texts (texts l) = some l
as_texts _ = none

abbrev pub as_refs : Value → Option String
as_refs (refs id) = some id
as_refs _ = none

-- `Number(v ?? 0)`
abbrev pub as_count : Value → Option ℕ
as_count undefined = some 0
as_count v = as_natural v

infixl 5 ◌>>=◌
abbrev ◌>>=◌ {ℓ κ} : {A : Type ℓ} {B : Type κ} → Option A → (A → Option B) → Option B
none >>= f = none
some a >>= f = f a

unfoldable pub from_row : Row → Option MarketRecord
from_row r = do
  id ← as_text (column "id" r)
  tweet_a_id ← as_text (column "tweet_a_id" r)
  tweet_b_id ← as_text (column "tweet_b_id" r)
  author_a_x_id ← as_text (column "author_a_x_id" r)
  author_b_x_id ← as_text (column "author_b_x_id" r)
  tagger_x_id ← as_text (column "tagger_x_id" r)
  pair_type ← as_pair (column "pair_type" r)
  b_selected_by ← as_selector (column "b_selected_by" r)
  created_at_ms ← as_natural (column "created_at_ms" r)
  settles_at_ms ← as_natural (column "settles_at_ms" r)
  tweet_b_age_at_create_ms ← as_integer (column "tweet_b_age_at_create_ms" r)
  likes_a_at_create ← as_natural (column "likes_a_at_create" r)
  likes_b_at_create ← as_natural (column "likes_b_at_create" r)
  status ← as_status (column "status" r)
  winner ← as_winner (column "winner" r)
  likes_a_final ← num_or_undef (column "likes_a_final" r)
  likes_b_final ← num_or_undef (column "likes_b_final" r)
  final_implied_a ← num_or_undef (column "final_implied_a" r)
  final_pot_usd ← num_or_undef (column "final_pot_usd" r)
  last_likes_sample_at_ms ← num_or_undef (column "last_likes_sample_at_ms" r)
  hidden_reporter_ids ← as_texts (column "hidden_reporter_ids" r)
  hidden_report_count ← as_count (column "hidden_report_count" r)
  hidden_reported_at_ms ← num_or_undef (column "hidden_reported_at_ms" r)
  card_tweet_id ← as_option_text (column "card_tweet_id" r)
  chain_refs ← as_refs (column "chain_refs" r)
  doppler_pool_id ← as_option_text (column "doppler_pool_id" r)
  author_a_handle ← as_text (column "author_a_handle" r)
  author_b_handle ← as_text (column "author_b_handle" r)
  tagger_handle ← as_text (column "tagger_handle" r)
  text_a ← as_option_text (column "text_a" r)
  text_b ← as_option_text (column "text_b" r)
  some (record {
    id = id;
    tweet_a_id = tweet_a_id;
    tweet_b_id = tweet_b_id;
    author_a_x_id = author_a_x_id;
    author_b_x_id = author_b_x_id;
    tagger_x_id = tagger_x_id;
    pair_type = pair_type;
    b_selected_by = b_selected_by;
    created_at_ms = created_at_ms;
    settles_at_ms = settles_at_ms;
    tweet_b_age_at_create_ms = tweet_b_age_at_create_ms;
    likes_a_at_create = likes_a_at_create;
    likes_b_at_create = likes_b_at_create;
    status = status;
    winner = winner;
    likes_a_final = likes_a_final;
    likes_b_final = likes_b_final;
    final_implied_a = final_implied_a;
    final_pot_usd = final_pot_usd;
    last_likes_sample_at_ms = last_likes_sample_at_ms;
    hidden_reporter_ids = hidden_reporter_ids;
    hidden_report_count = hidden_report_count;
    hidden_reported_at_ms = hidden_reported_at_ms;
    card_tweet_id = card_tweet_id;
    chain_refs = chain_refs;
    doppler_pool_id = doppler_pool_id;
    author_a_handle = author_a_handle;
    author_b_handle = author_b_handle;
    tagger_handle = tagger_handle;
    text_a = text_a;
    text_b = text_b;
  })

abbrev pub side_number : Side → Value
side_number side_a = number (pos 0)
side_number side_b = number (pos 1)

abbrev pub direction_text : TradeDirection → Value
direction_text buy = text "buy"
direction_text sell = text "sell"

unfoldable pub bet_to_row : BetRecord → Row
bet_to_row b =
    ("market_id", text b.market_id)
    ∷ ("x_user_id", text b.x_user_id)
    ∷ ("handle", text b.handle)
    ∷ ("side", side_number b.side)
    ∷ ("direction", direction_text b.direction)
    ∷ ("amount_usd", number (pos b.amount_usd))
    ∷ ("tokens_out", number (pos b.tokens_out))
    ∷ ("placed_at_ms", number (pos b.placed_at_ms))
    ∷ ("is_seed", boolean b.is_seed)
    ∷ []

abbrev pub as_side : Value → Option Side
as_side v = elim (as_natural v) [
  | none ↦ none
  | some n ↦ if n == 0 then some side_a else if n == 1 then some side_b else none
]

abbrev pub as_direction : Value → Option TradeDirection
as_direction (text s) = if s == "buy" then some buy else if s == "sell" then some sell else none
as_direction _ = none

-- `Boolean(v)`
abbrev pub as_boolean : Value → Bool
as_boolean undefined = false
as_boolean null = false
as_boolean (text s) = if s == "" then false else true
as_boolean (number (pos n)) = if n == 0 then false else true
as_boolean (boolean b) = b
as_boolean _ = true

unfoldable pub bet_from_row : Row → Option BetRecord
bet_from_row r = do
  market_id ← as_text (column "market_id" r)
  x_user_id ← as_text (column "x_user_id" r)
  handle ← as_text (column "handle" r)
  side ← as_side (column "side" r)
  direction ← as_direction (column "direction" r)
  amount_usd ← as_natural (column "amount_usd" r)
  tokens_out ← as_natural (column "tokens_out" r)
  placed_at_ms ← as_natural (column "placed_at_ms" r)
  some (record {
    market_id = market_id;
    x_user_id = x_user_id;
    handle = handle;
    side = side;
    direction = direction;
    amount_usd = amount_usd;
    tokens_out = tokens_out;
    placed_at_ms = placed_at_ms;
    is_seed = as_boolean (column "is_seed" r);
  })

unfoldable pub sample_to_row : LikeSampleRecord → Row
sample_to_row x =
    ("market_id", text x.market_id)
    ∷ ("at_ms", number (pos x.at_ms))
    ∷ ("likes_a", number (pos x.likes_a))
    ∷ ("likes_b", number (pos x.likes_b))
    ∷ []

unfoldable pub sample_from_row : Row → Option LikeSampleRecord
sample_from_row r = do
  market_id ← as_text (column "market_id" r)
  at_ms ← as_natural (column "at_ms" r)
  likes_a ← as_natural (column "likes_a" r)
  likes_b ← as_natural (column "likes_b" r)
  some (record { market_id = market_id; at_ms = at_ms; likes_a = likes_a; likes_b = likes_b })
