-- ===== src/Engine/Creation.antt =====
-- `resolvePair` and `createMarket` of `RatioEngine` (apps/agent/src/engine.ts).
use ratio.Base.{
  ℕ, ◌+◌, ◌-◌, Bool, true, false, not, ◌&&◌, Option, none, some, List, [], ◌∷◌, map, String, leb,
  ◌==◌, string_eq,
}
use ratio.Base.Int.{sub_ℕ}
use ratio.Store.Records.{MarketRecord, PairType, quote, reply, tagger, open_market}
use ratio.Store.Memory.{get_market_by_pair, save_market, update_market}
use ratio.Engine.World.{
  Services, EngineConfig, RefType, quoted, replied_to, TweetRef, XTweet, XMention, RejectionReason,
  not_reply_or_quote, too_old, same_author, own_post, unreadable, rejection, duplicate_pointer,
  market_card, FeeBeneficiary, Message,
}
use ratio.Engine.Monad
use ratio.Engine.Monad.{
  M, ◌>>=◌, ◌>>◌, done, pure, reads, writes, catch, both, rethrow, branch, cases, mentions_text,
}
use ratio.Engine.Shares.{merge_into}

pub record ResolvedPair : Type 0 where
  pub side_a : XTweet
  pub side_b : XTweet
  pub pair_type : PairType

pub data Resolution : Type 0 where
  paired : ResolvedPair → Resolution
  refused : RejectionReason → Resolution

abbrev pub is_quoted : RefType → Bool
is_quoted quoted = true
is_quoted replied_to = false

abbrev pub pair_type_of : RefType → PairType
pair_type_of quoted = quote
pair_type_of replied_to = reply

module _ (services : Services) where
  -- The target answers another tweet.
  unfoldable pub pair_with_reference : XTweet → TweetRef → M Resolution
  pair_with_reference target ref = do
    found ← Monad.get_tweet services ref.tweet_id
    cases found (pure (refused unreadable)) λ a.
        pure
          (paired (record { side_a = a; side_b = target; pair_type = pair_type_of ref.ref_type }))

  -- The target stands alone: the mention itself may be side B.
  unfoldable pub pair_with_mention : XMention → TweetRef → XTweet → M Resolution
  pair_with_mention mention ref target =
      branch (not (is_quoted ref.ref_type) && (services.substantive_text mention.text == ""))
        (pure (refused not_reply_or_quote))
        (do
          found ← Monad.get_tweet services mention.mention_tweet_id
          cases found (pure (refused unreadable)) λ b. pure (
              paired
                (record { side_a = target; side_b = b; pair_type = pair_type_of ref.ref_type })))

  unfoldable pub pair_target : XMention → TweetRef → XTweet → M Resolution
  pair_target mention ref target =
      cases target.referenced_tweet (pair_with_mention mention ref target)
        (pair_with_reference target)

  unfoldable pub resolve_pair : XMention → M Resolution
  resolve_pair mention = cases mention.target (pure (refused not_reply_or_quote)) λ ref. do
    found ← Monad.get_tweet services ref.tweet_id
    cases found (pure (refused unreadable)) (pair_target mention ref)

module _ (services : Services) (config : EngineConfig) where
  -- The rejection reply. X refuses a text that it has seen, and that refusal is swallowed.
  unfoldable pub reject : XMention → RejectionReason → M (Unit {0})
  reject mention reason =
      catch
        (do
          _ ←
              Monad.post_reply services mention.mention_tweet_id
                (rejection reason config.bot_handle) none
          done)
        (λ e. branch (mentions_text e "duplicate content") done (rethrow e))

  -- The five fee parties, merged by wallet.
  unfoldable pub fee_beneficiaries : String → String → String → List FeeBeneficiary
  fee_beneficiaries tagger_wallet wallet_a wallet_b =
      let share = config.fee_share_bps in
      map (λ p. record { wallet = p.0; share_bps = p.1 })
        (merge_into [] (
          (config.doppler_wallet, share.doppler)
          ∷ (tagger_wallet, share.tagger)
          ∷ (wallet_a, share.side_a)
          ∷ (wallet_b, share.side_b)
          ∷ (config.protocol_wallet, share.protocol)
          ∷ []))

  unfoldable pub new_record : XMention → ResolvedPair → ℕ → String → MarketRecord
  new_record mention pair at refs = record {
    id = pair.side_b.tweet_id;
    tweet_a_id = pair.side_a.tweet_id;
    tweet_b_id = pair.side_b.tweet_id;
    author_a_x_id = pair.side_a.author_id;
    author_b_x_id = pair.side_b.author_id;
    tagger_x_id = mention.author_id;
    pair_type = pair.pair_type;
    b_selected_by = tagger;
    created_at_ms = at;
    settles_at_ms = at + config.market_duration_ms;
    tweet_b_age_at_create_ms = sub_ℕ at pair.side_b.created_at_ms;
    likes_a_at_create = pair.side_a.like_count;
    likes_b_at_create = pair.side_b.like_count;
    status = open_market;
    winner = none;
    likes_a_final = none;
    likes_b_final = none;
    final_implied_a = none;
    final_pot_usd = none;
    last_likes_sample_at_ms = none;
    hidden_reporter_ids = [];
    hidden_report_count = 0;
    hidden_reported_at_ms = none;
    card_tweet_id = none;
    chain_refs = refs;
    doppler_pool_id = none;
    author_a_handle = pair.side_a.author_handle;
    author_b_handle = pair.side_b.author_handle;
    tagger_handle = mention.author_handle;
    text_a = some pair.side_a.text;
    text_b = some pair.side_b.text;
  }

  abbrev card_for : ℕ → XTweet → XTweet → Message
  card_for closes_in quoted_tweet opponent =
      market_card quoted_tweet.author_handle opponent.author_handle closes_in

  -- The card quotes side A; where quoting is restricted, side B; else it answers the mention.
  unfoldable pub post_card : XMention → ResolvedPair → ℕ → Option String → M String
  post_card mention pair closes_in link =
      catch
        (Monad.post_quote services pair.side_a.tweet_id (card_for closes_in pair.side_a pair.side_b)
          link)
        (λ e.
          branch (mentions_text e "not-authorized-for-resource")
            (catch
              (Monad.post_quote services pair.side_b.tweet_id
                (card_for closes_in pair.side_b pair.side_a) link)
              (λ e'.
                branch (mentions_text e' "not-authorized-for-resource")
                  (Monad.post_reply services mention.mention_tweet_id
                    (card_for closes_in pair.side_a pair.side_b) link)
                  (rethrow e')))
            (rethrow e))

  -- From the wallets on: the pair is eligible and has no market.
  unfoldable pub launch : XMention → ResolvedPair → ℕ → M (Unit {0})
  launch mention pair at = do
    (tagger_wallet, (wallet_a, wallet_b)) ← both (Monad.get_wallet services mention.author_id) (
        both (Monad.get_wallet services pair.side_a.author_id)
          (Monad.get_wallet services pair.side_b.author_id))
    refs ← Monad.create_market services (record {
      nonce = pair.side_b.tweet_id;
      fee_beneficiaries = fee_beneficiaries tagger_wallet wallet_a wallet_b;
      handle_a = pair.side_a.author_handle;
      handle_b = pair.side_b.author_handle;
      settles_at_ms = at + config.market_duration_ms;
    })
    let r = new_record mention pair at refs
    writes (save_market r)
    card ← post_card mention pair (r.settles_at_ms - at) (some (config.market_url r.id))
    writes (update_market r.id (λ m. record m { card_tweet_id = some card }))

  -- The last gate: a pair that has a market is answered with a link to it.
  unfoldable pub open_fresh : XMention → ResolvedPair → ℕ → M (Unit {0})
  open_fresh mention pair at = do
    existing ← reads (get_market_by_pair pair.side_a.tweet_id pair.side_b.tweet_id)
    cases existing (launch mention pair at) λ m. do
      _ ←
          Monad.post_reply services mention.mention_tweet_id duplicate_pointer
            (some (config.market_url m.id))
      done

  -- The eligibility gate, in the order of the source.
  unfoldable pub open_pair : XMention → ResolvedPair → ℕ → M (Unit {0})
  open_pair mention pair at =
      branch (pair.side_a.author_id == pair.side_b.author_id) (reject mention same_author) (
        branch (mention.author_id == pair.side_a.author_id) (reject mention own_post) (
          branch (leb (pair.side_b.created_at_ms + config.freshness_window_ms) at)
            (reject mention too_old) (open_fresh mention pair at)))

  -- What a pair leads to: a rejection, or the gate.
  unfoldable pub open_resolution : XMention → ℕ → Resolution → M (Unit {0})
  open_resolution mention at (refused reason) = reject mention reason
  open_resolution mention at (paired pair) = open_pair mention pair at

  unfoldable pub create_market : XMention → M (Unit {0})
  create_market mention = do
    at ← Monad.now services
    resolution ← resolve_pair services mention
    open_resolution mention at resolution
