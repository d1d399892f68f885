-- ===== src/Engine/Monad.antt =====
-- The services that `RatioEngine` (apps/agent/src/engine.ts) calls, as steps of its methods.
use text.Mathlib.Text.{find?}
use ratio.Base.{ℕ, Bool, Option, List, String, is_none, not}
use ratio.Store.Records.{Side}
use ratio.Store.Memory.{Store}
use ratio.Flow.{Flow, call}
unfoldable pub use ratio.Flow.{
  follow, ◌>>=◌, ◌>>◌, pure, done, recover, catch, both_results, both, reads, writes, call, rethrow,
  branch, cases, monad,
}
use ratio.Engine.World.{
  ok, Event, asked_time, fetched_mentions, read_tweet, posted_reply, posted_quote, got_wallet,
  launched, priced, read_balance, placed_bet, read_odds, asked_settle, asked_claim, Services, Order,
  Launch, Stake, Odds, XTweet, XMention, Message,
}

abbrev pub M {ℓ} : Type ℓ → Type ℓ
M A = Flow Store Event A

-- `err.message.includes(part)`
abbrev pub mentions_text : String → String → Bool
mentions_text message part = not (is_none (find? message part))

module _ (services : Services) where
  abbrev pub now : M ℕ
  now = call asked_time (λ h. ok (services.now h))

  abbrev pub fetch_mentions : M (List XMention)
  fetch_mentions = call fetched_mentions services.fetch_mentions

  abbrev pub get_tweet : String → M (Option XTweet)
  get_tweet id = call (read_tweet id) (λ h. services.get_tweet h id)

  abbrev pub post_reply : String → Message → Option String → M String
  post_reply to m link = call (posted_reply to m link) (λ h. services.post_reply h to m link)

  abbrev pub post_quote : String → Message → Option String → M String
  post_quote id m link = call (posted_quote id m link) (λ h. services.post_quote h id m link)

  abbrev pub get_wallet : String → M String
  get_wallet x = call (got_wallet x) (λ h. services.get_wallet h x)

  abbrev pub create_market : Launch → M String
  create_market l = call (launched l) (λ h. services.create_market h l)

  abbrev pub stake_usd : Stake → M ℕ
  stake_usd s = call (priced s) (λ h. services.stake_usd h s)

  abbrev pub balance_usd : String → M ℕ
  balance_usd a = call (read_balance a) (λ h. services.balance_usd h a)

  abbrev pub place_bet : Order → M ℕ
  place_bet o = call (placed_bet o) (λ h. services.place_bet h o)

  abbrev pub get_odds : String → M Odds
  get_odds refs = call (read_odds refs) (λ h. services.get_odds h refs)

  abbrev pub settle : String → Side → M Side
  settle refs winner = call (asked_settle refs winner) (λ h. services.settle h refs winner)

  abbrev pub claim_for : String → Side → String → M (Option ℕ)
  claim_for refs winner bettor =
      call (asked_claim refs winner bettor) (λ h. services.claim_for h refs winner bettor)
