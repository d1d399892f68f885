-- ===== src/Engine/Loops.antt =====
-- The entry points of `RatioEngine` (apps/agent/src/engine.ts): `tick`, the two crons and the
-- report of a hidden reply.
use ratio.Base.{
  ℕ, Bool, not, ◌&&◌, ◌||◌, Option, none, some, List, [], ◌∷◌, ◌++◌, String, leb, or_else, includes,
  string_eq, length, is_none,
}
use ratio.Store.Records.{MarketRecord, is_open, is_reply}
use ratio.Store.Memory.{
  mark_mention_processed, get_market_by_tweet, update_market, save_like_sample,
  list_open_markets_due, list_open_markets_needing_likes_sample,
}
use ratio.Engine.World.{
  ok, Services, EngineConfig, XMention, ParsedIntent, ignore, create, bet, hidden_notice, XTweet,
}
use ratio.Engine.Monad
use ratio.Engine.Monad.{M, ◌>>=◌, ◌>>◌, done, pure, reads, writes, catch, both, branch, cases}
use ratio.Engine.Bets.{handle_bet}
use ratio.Engine.Creation.{create_market}
use ratio.Engine.Settlement.{resolve_market}

-- `store.markMentionProcessed(id)`
unfoldable pub claim_mention : String → M Bool
claim_mention id w =
    let (fresh, s) = mark_mention_processed id w.store in (ok fresh, record w { store = s })

-- A `for` loop whose body catches what it throws.
unfoldable pub for_each {ℓ} : {A : Type ℓ} → (A → M (Unit {0})) → List A → M (Unit {0})
for_each body [] = done
for_each body (x ∷ xs) = do catch (body x) (λ _. done); for_each body xs

-- Reports count for open reply markets, once for each reporter.
abbrev pub refuses_report : MarketRecord → String → Bool
refuses_report r reporter =
    not (is_open r.status)
    || (not (is_reply r.pair_type) || includes r.hidden_reporter_ids reporter)

-- Only two readable sides make a sample.
unfoldable pub save_pair : ℕ → MarketRecord → Option XTweet → Option XTweet → M (Unit {0})
save_pair at r (some a) (some b) = writes (
    save_like_sample
      (record { market_id = r.id; at_ms = at; likes_a = a.like_count; likes_b = b.like_count }))
save_pair at r _ _ = done

module _ (services : Services) (config : EngineConfig) where
  unfoldable pub act : XMention → ParsedIntent → M (Unit {0})
  act mention ignore = done
  act mention (bet choice amount unit) = handle_bet services config mention choice amount unit
  act mention create = create_market services config mention

  unfoldable pub handle_mention : XMention → M (Unit {0})
  handle_mention mention = act mention (services.parse_mention mention.text config.bot_handle)

  -- A mention that was seen before is passed over.
  unfoldable pub process : XMention → M (Unit {0})
  process mention = do
    fresh ← claim_mention mention.mention_tweet_id
    branch fresh (handle_mention mention) done

  unfoldable pub tick : M (Unit {0})
  tick = do mentions ← Monad.fetch_mentions services; for_each process mentions

  -- A sample is saved when both sides can be read.
  unfoldable pub sample : ℕ → MarketRecord → M (Unit {0})
  sample at r = do
    (a, b) ← both (Monad.get_tweet services r.tweet_a_id) (Monad.get_tweet services r.tweet_b_id)
    writes (update_market r.id (λ m. record m { last_likes_sample_at_ms = some at }))
    save_pair at r a b

  unfoldable pub sample_likes_due_markets : M (Unit {0})
  sample_likes_due_markets = do
    at ← Monad.now services
    due ← reads (list_open_markets_needing_likes_sample config.likes_sample_interval_ms at)
    for_each (sample at) due

  unfoldable pub resolve_due_markets : M (Unit {0})
  resolve_due_markets = do
    at ← Monad.now services
    due ← reads (list_open_markets_due at)
    for_each (resolve_market services config) due

  -- The badge goes live with this report.
  abbrev pub crosses_threshold : MarketRecord → List String → Bool
  crosses_threshold r ids =
      is_none r.hidden_reported_at_ms && leb config.hidden_report_threshold (length ids)

  -- The notice, once, in the bot's own thread.
  unfoldable pub notify_hidden : MarketRecord → M (Unit {0})
  notify_hidden r = do
    _ ← Monad.post_reply services (or_else r.card_tweet_id r.tweet_b_id) hidden_notice none
    done

  unfoldable pub count_report : MarketRecord → List String → M (Unit {0})
  count_report r ids =
      branch (crosses_threshold r ids)
        (do
          at ← Monad.now services
          writes (
              update_market r.id (λ m. record m {
                hidden_reporter_ids = ids;
                hidden_report_count = length ids;
                hidden_reported_at_ms = some at;
              }))
          notify_hidden r)
        (writes (
          update_market r.id
            (λ m. record m { hidden_reporter_ids = ids; hidden_report_count = length ids })))

  unfoldable pub report_hidden : String → String → M (Unit {0})
  report_hidden market_id reporter = do
    found ← reads (get_market_by_tweet market_id)
    cases found done λ r.
        branch (refuses_report r reporter) done
          (count_report r (r.hidden_reporter_ids ++ reporter ∷ []))
