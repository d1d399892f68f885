-- ===== src/Store/Boards.antt =====
-- The boards of `InMemoryStore` (apps/agent/src/store.ts): trending posts, markets by volume, the
-- fee leaderboard, and the count of sells near a ramp.
use ratio.Base.{
  ℕ, ◌+◌, ◌*◌, Bool, true, ◌&&◌, none, some, List, [], ◌∷◌, String, string_eq, ltb, leb,
  if◌then◌else◌, or_else, keep, includes, length, take, map,
}
use ratio.Base.Int.{ℤ, pos, pos_part, neg_part, ◌+ℤ◌, ◌-ℤ◌}
use ratio.Base.Maps.{get, set, values}
use ratio.Store.Records.{MarketRecord, BetRecord, is_buy, is_open}
use ratio.Store.Memory.{Store}
use ratio.Engine.Shares.{sum, merge_into}

-- `sort((x, y) => key(y) - key(x))`, which is stable; `at_least x y` says that x's key is not less.
unfoldable pub insert_by {ℓ} : {A : Type ℓ} → (A → A → Bool) → A → List A → List A
insert_by at_least x [] = x ∷ []
insert_by at_least x (y ∷ ys) =
    let rest = insert_by at_least x ys in if at_least x y then x ∷ y ∷ ys else y ∷ rest

unfoldable pub sort_by {ℓ} : {A : Type ℓ} → (A → A → Bool) → List A → List A
sort_by at_least [] = []
sort_by at_least (x ∷ xs) = insert_by at_least x (sort_by at_least xs)

pub record PostView : Type 0 where
  pub tweet_a_id : String
  pub market_count : ℕ
  pub staked_volume_usd : ℕ

-- The buys, each with its market.
unfoldable pub buys : List BetRecord → List (String × ℕ)
buys [] = []
buys (b ∷ bets) =
    let rest = buys bets in if is_buy b.direction then (b.market_id, b.amount_usd) ∷ rest else rest

unfoldable pub post_view : List (String × ℕ) → String × List String → PostView
post_view volume_by_market (tweet_a_id, ids) = record {
  tweet_a_id = tweet_a_id;
  market_count = length ids;
  staked_volume_usd = sum (map (λ id. or_else (get id volume_by_market) 0) ids);
}

abbrev pub more_staked : PostView → PostView → Bool
more_staked x y = leb y.staked_volume_usd x.staked_volume_usd

unfoldable pub trending_posts : ℕ → Store → List PostView
trending_posts limit s =
    take limit (sort_by more_staked (map (post_view (merge_into [] (buys s.bets))) s.by_post))

-- A trade's amount, negative for a sell.
abbrev pub signed : BetRecord → ℤ
signed t = if is_buy t.direction then pos t.amount_usd else pos 0 -ℤ pos t.amount_usd

unfoldable pub net_volumes : List BetRecord → List (String × ℤ) → List (String × ℤ)
net_volumes [] net = net
net_volumes (t ∷ ts) net =
    net_volumes ts (set t.market_id (or_else (get t.market_id net) (pos 0) +ℤ signed t) net)

abbrev pub at_least_ℤ : ℤ → ℤ → Bool
at_least_ℤ a b = leb (pos_part b + neg_part a) (pos_part a + neg_part b)

unfoldable pub list_markets_by_volume :
    (since_ms limit : ℕ) → (open_only : Bool) → Store → List MarketRecord
list_markets_by_volume since_ms limit open_only s =
    let net = net_volumes s.bets [] in
    let active = map (λ t. t.market_id) (keep (λ t. leb since_ms t.placed_at_ms) s.bets) in
    let volume = λ (m : MarketRecord). or_else (get m.id net) (pos 0) in
    take limit (
      sort_by (λ x y. at_least_ℤ (volume x) (volume y))
        (keep (λ m. (if open_only then is_open m.status else true) && includes active m.id)
          (values s.markets)))

pub data Role : Type 0 where
  as_side_a as_side_b as_tagger : Role

pub record FeeLeaderboardRow : Type 0 where
  pub x_user_id : String
  pub handle : String
  pub total_fee_usd : ℕ
  pub fee_side_a : ℕ
  pub fee_side_b : ℕ
  pub fee_tagger : ℕ

abbrev pub new_row : String → String → FeeLeaderboardRow
new_row x_user_id handle = record {
  x_user_id = x_user_id;
  handle = handle;
  total_fee_usd = 0;
  fee_side_a = 0;
  fee_side_b = 0;
  fee_tagger = 0;
}

unfoldable pub add_fee : Role → ℕ → FeeLeaderboardRow → FeeLeaderboardRow
add_fee as_side_a usd r = record r {
  total_fee_usd = r.total_fee_usd + usd;
  fee_side_a = r.fee_side_a + usd;
}
add_fee as_side_b usd r = record r {
  total_fee_usd = r.total_fee_usd + usd;
  fee_side_b = r.fee_side_b + usd;
}
add_fee as_tagger usd r = record r {
  total_fee_usd = r.total_fee_usd + usd;
  fee_tagger = r.fee_tagger + usd;
}

unfoldable pub credit :
    String
    → String
    → Role
    → ℕ
    → List (String × FeeLeaderboardRow)
    → List (String × FeeLeaderboardRow)
credit x_user_id handle role usd rows =
    set x_user_id (add_fee role usd (or_else (get x_user_id rows) (new_row x_user_id handle))) rows

-- Fees in 10^-8 of the unit of the stakes, so that no share is rounded.
abbrev pub swap_fee_bps : ℕ
swap_fee_bps = 125

-- `FEE_SHARE_BPS`, for the roles of the board.
abbrev pub fee_share_bps : Role → ℕ
fee_share_bps as_side_a = 1800
fee_share_bps as_side_b = 1800
fee_share_bps as_tagger = 1150

unfoldable pub credit_bet :
    MarketRecord → ℕ → List (String × FeeLeaderboardRow) → List (String × FeeLeaderboardRow)
credit_bet m amount_usd rows =
    let fee = amount_usd * swap_fee_bps in
    credit m.tagger_x_id m.tagger_handle as_tagger (fee * fee_share_bps as_tagger) (
      credit m.author_b_x_id m.author_b_handle as_side_b (fee * fee_share_bps as_side_b)
        (credit m.author_a_x_id m.author_a_handle as_side_a (fee * fee_share_bps as_side_a) rows))

unfoldable pub fee_rows :
    ℕ
    → List (String × MarketRecord)
    → List BetRecord
    → List (String × FeeLeaderboardRow)
    → List (String × FeeLeaderboardRow)
fee_rows since_ms markets [] rows = rows
fee_rows since_ms markets (b ∷ bets) rows =
    let counted : List (String × FeeLeaderboardRow) = elim (get b.market_id markets) [
      | none ↦ rows
      | some m ↦ credit_bet m b.amount_usd rows
    ] in
    fee_rows since_ms markets bets (if ltb b.placed_at_ms since_ms then rows else counted)

unfoldable pub fee_leaderboard : (since_ms limit : ℕ) → Store → List FeeLeaderboardRow
fee_leaderboard since_ms limit s = take limit (
    sort_by (λ x y. leb y.total_fee_usd x.total_fee_usd)
      (values (fee_rows since_ms s.markets s.bets [])))

-- The sells up to a window before the ramp of their market starts, and up to one after it.
unfoldable pub count_sells : ℕ → ℕ → List (String × MarketRecord) → List BetRecord → ℕ × ℕ
count_sells ramp_start_ms window_ms markets [] = (0, 0)
count_sells ramp_start_ms window_ms markets (t ∷ ts) =
    let rest = count_sells ramp_start_ms window_ms markets ts in
    if is_buy t.direction then rest else elim (get t.market_id markets) [
      | none ↦ rest
      | some m ↦
          let start = m.created_at_ms + ramp_start_ms in
          if leb start (t.placed_at_ms + window_ms) && ltb t.placed_at_ms start
          then (rest.0 + 1, rest.1)
          else if leb start t.placed_at_ms && leb t.placed_at_ms (start + window_ms)
          then (rest.0, rest.1 + 1)
          else rest
    ]

unfoldable pub sells_near_ramp_start : (ramp_start_ms window_ms : ℕ) → Store → ℕ × ℕ
sells_near_ramp_start ramp_start_ms window_ms s =
    count_sells ramp_start_ms window_ms s.markets s.bets
