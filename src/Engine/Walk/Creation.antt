-- ===== src/Engine/Walk/Creation.antt =====
-- The methods of Engine/Creation, walked. What the gate has tested is a hypothesis of the rule for
-- a new market.
use ratio.Base.{ℕ, ◌+◌, ◌<◌, ◌≢◌, Option, some, String, string_eq, leb→lt, ne_of_beq}
use ratio.Store.Memory.{save_market, update_market}
use ratio.Engine.World.{Services, EngineConfig, XMention, XTweet, TweetRef, RejectionReason}
use ratio.Engine.Monad.{writes}
use ratio.Engine.Frames.{
  Frame, Ignores, Moves, Moves-pure, Moves-reads, Moves-rethrow, Moves-bind, Moves-both,
  Moves-catch, Moves-branch, Moves-cases, Moves-ask, Moves-tell, Moves-post,
}
use ratio.Engine.Creation.{
  ResolvedPair, paired, refused, pair_with_reference, pair_with_mention, pair_target, resolve_pair,
  reject, new_record, post_card, launch, open_fresh, open_pair, open_resolution, create_market,
}

-- What the gate lets through.
pub record IsEligible (config : EngineConfig) (mention : XMention) (pair : ResolvedPair) (at : ℕ)
    : Type 0 where
  pub two_authors : pair.side_a.author_id ≢ pair.side_b.author_id
  pub not_own_post : mention.author_id ≢ pair.side_a.author_id
  pub fresh : at < pair.side_b.created_at_ms + config.freshness_window_ms

module _ (F : Frame) (event : Ignores F) (services : Services) where
  Moves-pair_with_reference :
      (target : XTweet) (ref : TweetRef) → Moves F (pair_with_reference services target ref)
  unfolding pair_with_reference
  Moves-pair_with_reference target ref =
      Moves-ask F event _ _ _
        λ found. Moves-cases F _ _ _ (λ _. Moves-pure F _) (λ a _. Moves-pure F _)

  Moves-pair_with_mention :
      (mention : XMention) (ref : TweetRef) (target : XTweet)
      → Moves F (pair_with_mention services mention ref target)
  unfolding pair_with_mention
  Moves-pair_with_mention mention ref target =
      Moves-branch F _ _ _ (λ _. Moves-pure F _)
        λ _.
          Moves-ask F event _ _ _
            λ found. Moves-cases F _ _ _ (λ _. Moves-pure F _) (λ b _. Moves-pure F _)

  Moves-pair_target :
      (mention : XMention) (ref : TweetRef) (target : XTweet)
      → Moves F (pair_target services mention ref target)
  unfolding pair_target
  Moves-pair_target mention ref target =
      Moves-cases F _ _ _ (λ _. Moves-pair_with_mention mention ref target)
        (λ inner _. Moves-pair_with_reference target inner)

  pub Moves-resolve_pair : (mention : XMention) → Moves F (resolve_pair services mention)
  unfolding resolve_pair
  Moves-resolve_pair mention =
      Moves-cases F _ _ _ (λ _. Moves-pure F _)
        λ ref _. Moves-ask F event _ _ _ λ found.
          Moves-cases F _ _ _ (λ _. Moves-pure F _)
            (λ target _. Moves-pair_target mention ref target)

module _ (F : Frame) (event : Ignores F) (services : Services) (config : EngineConfig) where
  pub Moves-reject :
      (mention : XMention) (reason : RejectionReason)
      → Moves F (reject services config mention reason)
  unfolding reject
  Moves-reject mention reason =
      Moves-catch F _ _ (Moves-post F event _ _)
        (λ e. Moves-branch F _ _ _ (λ _. Moves-pure F tt) (λ _. Moves-rethrow F e))

  pub Moves-post_card :
      (mention : XMention) (pair : ResolvedPair) (closes_in : ℕ) (link : Option String)
      → Moves F (post_card services config mention pair closes_in link)
  unfolding post_card
  Moves-post_card mention pair closes_in link = Moves-catch F _ _ (Moves-tell F event _ _) λ e.
      Moves-branch F _ _ _
        (λ _.
          Moves-catch F _ _ (Moves-tell F event _ _)
            λ e'. Moves-branch F _ _ _ (λ _. Moves-tell F event _ _) (λ _. Moves-rethrow F e'))
        (λ _. Moves-rethrow F e)

  module _
      (market : (mention : XMention) (pair : ResolvedPair) (at : ℕ) (refs : String)
        → IsEligible config mention pair at
        → Moves F (writes (save_market (new_record services config mention pair at refs))))
      (card : (id c : String)
        → Moves F (writes (update_market id (λ m. record m { card_tweet_id = some c })))) where
    Moves-launch :
        (mention : XMention) (pair : ResolvedPair) (at : ℕ)
        → IsEligible config mention pair at
        → Moves F (launch services config mention pair at)
    unfolding launch
    Moves-launch mention pair at e =
        Moves-bind F _ _
          (Moves-both F _ _ (Moves-tell F event _ _)
            (Moves-both F _ _ (Moves-tell F event _ _) (Moves-tell F event _ _)))
          λ wallets. Moves-ask F event _ _ _ λ refs.
            Moves-bind F _ _ (market mention pair at refs e)
              λ _. Moves-bind F _ _ (Moves-post_card mention pair _ _) λ c. card _ c

    Moves-open_fresh :
        (mention : XMention) (pair : ResolvedPair) (at : ℕ)
        → IsEligible config mention pair at
        → Moves F (open_fresh services config mention pair at)
    unfolding open_fresh
    Moves-open_fresh mention pair at e = Moves-bind F _ _ (Moves-reads F _) λ existing.
        Moves-cases F _ _ _ (λ _. Moves-launch mention pair at e) (λ m _. Moves-post F event _ _)

    Moves-open_pair :
        (mention : XMention) (pair : ResolvedPair) (at : ℕ)
        → Moves F (open_pair services config mention pair at)
    unfolding open_pair
    Moves-open_pair mention pair at =
        Moves-branch F _ _ _ (λ _. Moves-reject mention _)
          λ two.
            Moves-branch F _ _ _ (λ _. Moves-reject mention _)
              λ other.
                Moves-branch F _ _ _ (λ _. Moves-reject mention _)
                  λ young. Moves-open_fresh mention pair at (record {
                    two_authors = ne_of_beq _ _ two;
                    not_own_post = ne_of_beq _ _ other;
                    fresh = leb→lt _ _ young;
                  })

    pub Moves-create_market : (mention : XMention) → Moves F (create_market services config mention)
    unfolding create_market open_resolution
    Moves-create_market mention = Moves-ask F event _ _ _ λ at.
        Moves-bind F _ _ (Moves-resolve_pair F event services mention) (elim [
          | refused reason ↦ Moves-reject mention reason
          | paired pair ↦ Moves-open_pair mention pair at
        ])
