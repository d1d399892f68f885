-- ===== src/Engine/Tests.antt =====
-- The engine (apps/agent/src/engine.ts) on a small world: a post of ann, the answer of bob, carol's
-- mention below the answer, and dave's stake.
use ratio.Base.{
  ℕ, ◌+◌, ◌<◌, ◌≡◌, refl, ◌↔◌, ◌⊎◌, false, Option, none, some, List, [], ◌∷◌, ◌*◌, String,
  if◌then◌else◌, ◌==◌, string_eq, includes, NoDup, arith,
}
use ratio.Base.Int.{pos}
use ratio.Base.Maps.{keys, values}
use ratio.Store.Records.{
  MarketRecord, BetRecord, Side, side_a, side_b, reply, open_market, tagger, buy,
}
use ratio.Store.Memory.{empty, get_market_by_tweet, find}
use ratio.Engine.World.{
  ok, Services, EngineConfig, XTweet, XMention, create, bet, by_letter, usd_unit, Stake, usd,
  native, Order, World, replied_to, read_tweet,
}
use ratio.Engine.Loops.{for_each, process}
use ratio.Engine.Bets.{handle_bet, resolve_side, stake_of, cap_stake}
use ratio.Engine.Creation.{fee_beneficiaries}
use ratio.Engine.Settlement.{verdict, resolve_market, pay_all}
use ratio.Engine.Once.{process_again}
use ratio.Engine.Orders.{orders, IsVetted, handle_bet-IsVetted}
use ratio.Engine.Invariant.{IsSoundStore}
use ratio.Engine.Runs.{
  run, start, mentions, settlement, likes_sampler, hidden_report, run-IsSoundStore,
}
use ratio.Engine.Verdicts.{Waits, Concludes, resolve_market-IsResolved, verdict-eq-side_b_iff}
use ratio.Engine.Success.{IsPlaced, handle_bet-places}
use ratio.Engine.Closing.{IsEnded, resolve_market-closes}
use ratio.Engine.Payouts.{claims, backers, claim_all, pay_all-once}
use ratio.Engine.Rescues.{IsPaidOut, resolve_market-pays}
use ratio.Engine.Shares.{sum, share_of}
use ratio.Engine.Fees.{entries, parties, fee_beneficiaries-merged}

abbrev post : XTweet
post = record {
  tweet_id = "1";
  author_id = "ann";
  author_handle = "Ann";
  text = "hello";
  created_at_ms = 10;
  like_count = 4;
  referenced_tweet = none;
}

abbrev answer : XTweet
answer = record {
  tweet_id = "2";
  author_id = "bob";
  author_handle = "Bob";
  text = "no";
  created_at_ms = 20;
  like_count = 9;
  referenced_tweet = some (record { tweet_id = "1"; ref_type = replied_to });
}

abbrev mention : XMention
mention = record {
  mention_tweet_id = "3";
  author_id = "carol";
  author_handle = "Carol";
  text = "ratio";
  target = some (record { tweet_id = "2"; ref_type = replied_to });
}

abbrev staking : XMention
staking = record {
  mention_tweet_id = "4";
  author_id = "dave";
  author_handle = "Dave";
  text = "3 on b";
  target = some (record { tweet_id = "2"; ref_type = replied_to });
}

abbrev tweet_of : String → Option XTweet
tweet_of id = if id == "1" then some post else if id == "2" then some answer else none

abbrev price : Stake → ℕ
price (usd x) = x
price (native x) = 2000 * x

abbrev address : String → String
address x = x

abbrev services : Services
services = record {
  now = λ h. 30;
  fetch_mentions = λ h. ok (mention ∷ staking ∷ []);
  get_tweet = λ h id. ok (tweet_of id);
  post_reply = λ h to m link. ok "reply";
  post_quote = λ h to m link. ok "card";
  get_wallet = λ h x. ok (address x);
  create_market = λ h l. ok "refs";
  stake_usd = λ h s. ok (price s);
  balance_usd = λ h a. ok 5000000;
  place_bet = λ h o. ok 7;
  get_odds = λ h refs. ok (record { implied_a = 500000; raised_usd_a = 0; raised_usd_b = 3000000 });
  settle = λ h refs winner. ok winner;
  claim_for = λ h refs winner bettor. ok none;
  parse_mention =
      λ text bot. if text == "ratio" then create else bet (by_letter side_b) 3000000 usd_unit;
  substantive_text = λ text. text;
  to_lower_case = λ text. text;
}

abbrev config : EngineConfig
config = record {
  bot_handle = "bot";
  freshness_window_ms = 100;
  market_duration_ms = 1000;
  seed_per_side_usd = 1000000;
  likes_sample_interval_ms = 10;
  min_stake_usd = 1000000;
  max_stake_usd = 50000000;
  hidden_report_threshold = 2;
  protocol_wallet = "treasury";
  fee_share_bps = record {
    doppler = 750;
    tagger = 1150;
    side_a = 1800;
    side_b = 1800;
    protocol = 4500;
  };
  doppler_wallet = "doppler";
  market_url = λ id. id;
}

abbrev market : MarketRecord
market = record {
  id = "2";
  tweet_a_id = "1";
  tweet_b_id = "2";
  author_a_x_id = "ann";
  author_b_x_id = "bob";
  tagger_x_id = "carol";
  pair_type = reply;
  b_selected_by = tagger;
  created_at_ms = 30;
  settles_at_ms = 1030;
  tweet_b_age_at_create_ms = pos 10;
  likes_a_at_create = 4;
  likes_b_at_create = 9;
  status = open_market;
  winner = none;
  likes_a_final = none;
  likes_b_final = none;
  final_implied_a = none;
  final_pot_usd = none;
  last_likes_sample_at_ms = none;
  hidden_reporter_ids = [];
  hidden_report_count = 0;
  hidden_reported_at_ms = none;
  card_tweet_id = some "card";
  chain_refs = "refs";
  doppler_pool_id = none;
  author_a_handle = "Ann";
  author_b_handle = "Bob";
  tagger_handle = "Carol";
  text_a = some "hello";
  text_b = some "no";
}

abbrev bet_of : String → Side → BetRecord
bet_of x side = record {
  market_id = "2";
  x_user_id = x;
  handle = x;
  side = side;
  direction = buy;
  amount_usd = 3000000;
  tokens_out = 7;
  placed_at_ms = 40;
  is_seed = false;
}

-- The market is open, with two stakes of dave and one of erin on it.
abbrev running : World
running = record {
  store = record empty {
    markets = ("2", market) ∷ [];
    bets = bet_of "dave" side_b ∷ bet_of "erin" side_a ∷ bet_of "dave" side_b ∷ [];
  };
  history = [];
}

market_found : get_market_by_tweet "2" running.store ≡ some market
unfolding get_market_by_tweet find
market_found = refl

process_again_example :
    let w' = (for_each (process services config) (mention ∷ staking ∷ []) start).1 in
    (for_each (process services config) (mention ∷ staking ∷ []) w').1 ≡ w'
process_again_example = process_again services config (mention ∷ staking ∷ []) start

handle_bet-IsVetted_example :
    let w' = (handle_bet services config staking (by_letter side_b) 3000000 usd_unit running).1 in
    (orders w'.history ≡ [])
    ⊎ ((o : Order) × (orders w'.history ≡ o ∷ [])
        × IsVetted services config staking (by_letter side_b) 3000000 usd_unit running o)
handle_bet-IsVetted_example =
    handle_bet-IsVetted services config staking (by_letter side_b) 3000000 usd_unit running

run-IsSoundStore_example :
    IsSoundStore config
      (run services config
        (mentions ∷ likes_sampler ∷ hidden_report "2" "erin" ∷ settlement ∷ [])
        start).store
run-IsSoundStore_example =
    run-IsSoundStore services config
      (mentions ∷ likes_sampler ∷ hidden_report "2" "erin" ∷ settlement ∷ [])

verdict-eq-side_b_iff_example : (verdict (some post) (some answer) ≡ side_b) ↔ (5 < 10)
verdict-eq-side_b_iff_example = verdict-eq-side_b_iff (some post) (some answer)

resolve_market-IsResolved_example :
    let w' = (resolve_market services config market running).1 in
    Waits running w'
    ⊎ ((a : Option XTweet) × (b : Option XTweet) × (services.get_tweet [] "1" ≡ ok a)
        × (services.get_tweet (read_tweet "1" ∷ []) "2" ≡ ok b)
        × Concludes services config market a b running w')
resolve_market-IsResolved_example = resolve_market-IsResolved services config market running

pay_all-once_example :
    let w' = pay_all services config market side_b [] running.store.bets running in
    (w'.0 ≡ ok tt)
    × ((ids : List String) × NoDup ids
        × ((x : String) → includes ids x ≡ includes (backers side_b running.store.bets) x)
        × (claims w'.1.history
            ≡ claim_all services config address (λ h x. refl) "refs" side_b ids []))
pay_all-once_example =
    pay_all-once services config address (λ h x. refl) market side_b running.store.bets running

resolve_market-pays_example :
    let w' = (resolve_market services config market running).1 in
    (claims w'.history ≡ []) ⊎ IsPaidOut services config address (λ h x. refl) market running w'
resolve_market-pays_example =
    resolve_market-pays services config address (λ h x. refl) market running

fee_beneficiaries-merged_example :
    let fees = entries (fee_beneficiaries services config "bob" "ann" "bob") in
    NoDup (keys fees)
    × ((wallet : String)
        → share_of wallet fees ≡ share_of wallet (parties config "bob" "ann" "bob"))
    × (sum (values fees) ≡ 750 + 1150 + 1800 + 1800 + 4500)
fee_beneficiaries-merged_example = fee_beneficiaries-merged services config "bob" "ann" "bob"

handle_bet-places_example :
    IsPlaced staking market
      (record { refs = "refs"; side = side_b; stake = usd 3000000; bettor = "dave" })
      3000000
      7
      running
      (handle_bet services config staking (by_letter side_b) 3000000 usd_unit running).1
unfolding resolve_side stake_of cap_stake
handle_bet-places_example =
    handle_bet-places services config staking (by_letter side_b) 3000000 usd_unit running
      (record { tweet_id = "2"; ref_type = replied_to }) market side_b (usd 3000000) 3000000 3000000
      5000000 7 "dave" refl market_found refl (λ h. omega arith) refl (λ h. refl) (omega arith) refl
      (λ h. refl) (λ h. refl) (λ h. refl) (omega arith) (λ h o. refl)

resolve_market-closes_example :
    IsEnded services market
      (some post)
      (some answer)
      running
      (resolve_market services config market running).1
resolve_market-closes_example =
    resolve_market-closes services config market running (some post) (some answer) (λ h. refl)
      (λ h. refl) (λ h. (_, refl)) (λ h o. (_, refl)) (λ h side. (_, refl))
