-- ===== src/Store/Memory.antt =====
-- `InMemoryStore` of apps/agent/src/store.ts: the collections and the operations on them.
-- A market's object is shared between the map and the callers; callers here take a copy, which
-- reads the same since they read no field after they have patched it.
use ratio.Base.{
  ℕ, ◌+◌, Bool, true, false, not, ◌&&◌, ◌||◌, Option, none, some, List, [], ◌∷◌, ◌++◌, String, leb,
  ltb, if◌then◌else◌, or_else, keep, includes, map, ◌==◌, string_eq,
}
use ratio.Base.Maps.{get, set, adjust, values}
use ratio.Store.Records.{MarketRecord, BetRecord, LikeSampleRecord, is_open}

pub record Store : Type 0 where
  pub mentions : List String
  pub markets : List (String × MarketRecord)
  pub bets : List BetRecord
  pub like_samples : List LikeSampleRecord
  pub by_post : List (String × List String)

abbrev pub empty : Store
empty = record { mentions = []; markets = []; bets = []; like_samples = []; by_post = [] }

-- The result says whether the mention is new.
unfoldable pub mark_mention_processed : String → Store → Bool × Store
mark_mention_processed id s =
    if includes s.mentions id then (false, s) else (true, record s { mentions = id ∷ s.mentions })

-- The first value that a test accepts, in insertion order.
unfoldable pub find : (MarketRecord → Bool) → List (String × MarketRecord) → Option MarketRecord
find p [] = none
find p ((k, m) ∷ ms) = if p m then some m else find p ms

unfoldable pub get_market_by_pair : String → String → Store → Option MarketRecord
get_market_by_pair a b s = find (λ m. (m.tweet_a_id == a) && (m.tweet_b_id == b)) s.markets

-- `m.cardTweetId === tweetId`, false while there is no card.
abbrev pub is_card : Option String → String → Bool
is_card none id = false
is_card (some c) id = c == id

unfoldable pub get_market_by_tweet : String → Store → Option MarketRecord
get_market_by_tweet id s =
    find (λ m. (m.tweet_a_id == id) || ((m.tweet_b_id == id) || is_card m.card_tweet_id id))
      s.markets

unfoldable pub save_market : MarketRecord → Store → Store
save_market m s =
    let ids = or_else (get m.tweet_a_id s.by_post) [] in
    record s {
      markets = set m.id m s.markets;
      by_post = set m.tweet_a_id (if includes ids m.id then ids else ids ++ m.id ∷ []) s.by_post;
    }

unfoldable pub update_market : String → (MarketRecord → MarketRecord) → Store → Store
update_market id patch s = record s { markets = adjust id patch s.markets }

unfoldable pub save_bet : BetRecord → Store → Store
save_bet b s = record s { bets = s.bets ++ b ∷ [] }

unfoldable pub list_bets : String → Store → List BetRecord
list_bets id s = keep (λ b. (b.market_id == id) && not b.is_seed) s.bets

unfoldable pub save_like_sample : LikeSampleRecord → Store → Store
save_like_sample x s = record s { like_samples = s.like_samples ++ x ∷ [] }

-- `Array.prototype.sort` by time is stable: an equal sample goes behind those that stood before it.
unfoldable pub insert_sample : LikeSampleRecord → List LikeSampleRecord → List LikeSampleRecord
insert_sample x [] = x ∷ []
insert_sample x (y ∷ ys) = if leb x.at_ms y.at_ms then x ∷ y ∷ ys else y ∷ insert_sample x ys

unfoldable pub sort_samples : List LikeSampleRecord → List LikeSampleRecord
unfolding insert_sample
sort_samples [] = []
sort_samples (x ∷ xs) = insert_sample x (sort_samples xs)

unfoldable pub list_like_samples : String → Store → List LikeSampleRecord
unfolding sort_samples
list_like_samples id s = sort_samples (keep (λ x. x.market_id == id) s.like_samples)

unfoldable pub list_open_markets_due : ℕ → Store → List MarketRecord
list_open_markets_due now s =
    keep (λ m. is_open m.status && leb m.settles_at_ms now) (values s.markets)

-- `now - t >= interval` on numbers that may be negative, without the subtraction.
unfoldable pub list_open_markets_needing_likes_sample : ℕ → ℕ → Store → List MarketRecord
list_open_markets_needing_likes_sample interval now s =
    keep
      (λ m.
        is_open m.status
        && (ltb now m.settles_at_ms
            && leb (interval + or_else m.last_likes_sample_at_ms m.created_at_ms) now))
      (values s.markets)

-- `none` stands for the `undefined` that the source's `!` rules out.
unfoldable pub list_markets_by_post : String → Store → List (Option MarketRecord)
list_markets_by_post a s = map (λ id. get id s.markets) (or_else (get a s.by_post) [])

unfoldable pub list_markets_by_participant : String → Store → List MarketRecord
list_markets_by_participant x s =
    keep (λ m. (m.author_a_x_id == x) || ((m.author_b_x_id == x) || (m.tagger_x_id == x)))
      (values s.markets)
