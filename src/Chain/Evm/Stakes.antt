-- ===== src/Chain/Evm/Stakes.antt =====
-- What bets and quotes of `EvmMarketChain` (packages/chain/src/evm/index.ts) send and answer.
use ratio.Base.{
  ℕ, ◌+◌, ◌%◌, ◌^◌, ◌≤◌, ◌≡◌, ◌≢◌, ◌∙◌, ap, ◌∷◌, ◌⊎◌, String, arith, nat_eq, ne_of_beq, true,
}
use ratio.Texts.{Text}
use ratio.Store.Records.{Side}
use ratio.Engine.World.{Stake}
use ratio.Flow.{Result, ok, throw}
use ratio.Flow.Ends.{Ends-pure, Ends-raise, Ends-ask, Ends-branch, Ends-bind}
use ratio.Chain.Evm.Node.{Receipt, swap, Calls, Node, Host, EvmConfig, Bet}
use ratio.Chain.Evm.Logs.{tokens_received}
use ratio.Chain.Evm.Client.{token_of}
use ratio.Chain.Evm.Markets.{low_magnitude, place_bet, preview_stake}
use ratio.Chain.Evm.Trace.{sent, World, IsSent, failed, mined, send-Ends}
use ratio.Chain.Evm.Known.{
  IsTokenFor, IsSized, token_of-IsTokenOf, Finds, entry_tokens-Finds, Sizes, stake_to_wei-Sizes,
}

module _ (node : Node) (host : Host) (config : EvmConfig) where
  -- What a bet swaps: the token of its side, for the wei of its stake.
  pub record IsOrder (b : Bet) (v : World) (token : Text) (wei : ℕ) : Type 0 where
    pub backed : IsTokenFor node host config b.market_id b.side v token
    pub sized : IsSized node host config b.stake wei

  pub data IsStaked (b : Bet) (v : World) : Result (ℕ × Text) → World → Type 0 where
    unsent : (e : String) (w : World) → sent w.history ≡ sent v.history → IsStaked b v (throw e) w
    lost :
        (e : String) (w : World) (token : Text) (wei : ℕ)
        → IsOrder b v token wei
        → sent w.history ≡ (config.signer_for b.bettor, swap token wei) ∷ sent v.history
        → IsStaked b v (throw e) w
    staked :
        (w : World) (token : Text) (wei : ℕ) (r : Receipt)
        → IsOrder b v token wei
        → ((h k : Calls) × (hash : Text) × (node.wait h hash ≡ ok r)
            × (node.write k (config.signer_for b.bettor) (swap token wei) ≡ ok hash))
        → r.success ≡ true
        → tokens_received r.logs token (config.signer_for b.bettor) ≢ 0
        → sent w.history ≡ (config.signer_for b.bettor, swap token wei) ∷ sent v.history
        → IsStaked b v
            (ok (
              host.to_number (tokens_received r.logs token (config.signer_for b.bettor)),
              r.transaction_hash,
            ))
            w

  abbrev Stakes : Bet → World → Result (ℕ × Text) → World → Type 0
  Stakes b v res w = IsStaked b v res w

-- A bet writes at most one transaction, a swap from the bettor's own account. What it buys is the
-- token of the side that was bet on, among the two that were kept for the market or that its oracle
-- names, and what it pays are the wei of the stake, for dollars at a price that the source gave and
-- that is not zero. It answers only when that one was mined and did not revert, and then, as a
-- number, the tokens that the receipt's logs credit to the account, at least one, and the hash of
-- the receipt.
pub place_bet-IsStaked :
    (node : Node) (host : Host) (config : EvmConfig) (b : Bet) (w : World)
    → let (res, w') = place_bet node host config b w in IsStaked node host config b w res w'
unfolding place_bet
place_bet-IsStaked node host config b w =
    let P = Stakes node host config b w in
    let account = config.signer_for b.bettor in
    (Ends-bind P {Q = Finds node host config b.market_id w} _ _ _
      (entry_tokens-Finds node host config b.market_id w) (λ e u q. unsent e u q)
      λ tokens u q.
        Ends-bind P {Q = Sizes node host config b.stake u} _ _ _
          (stake_to_wei-Sizes node host config b.stake u) (λ e x l. unsent e x (l.0 ∙ q.0))
          λ wei x l.
            let token = token_of tokens b.side in
            let before = l.0.0 ∙ q.0 in
            let order : IsOrder node host config b w token wei = record {
              backed = record {
                tokens = tokens;
                entry = q.1;
                chosen = token_of-IsTokenOf tokens b.side;
              };
              sized = l.1;
            } in
            Ends-bind P {Q = IsSent node host config account (swap token wei) x} _ _ _
              (send-Ends node host config _ _ x)
              (λ e y m. elim m [
                | failed _ _ s t ↦
                    lost e y token wei order
                      (s ∙ ap (λ rest. (account, swap token wei) ∷ rest) before)
              ])
              λ r y m. elim m [
                | mined _ _ h hash got success s t ↦
                    let one = s ∙ ap (λ rest. (account, swap token wei) ∷ rest) before in
                    Ends-branch P _ _ _ _ (λ _. Ends-raise P _ _ (lost _ y token wei order one))
                      (λ some_tokens. Ends-pure P _ _ (
                        staked y token wei r order (h, got.1.0, hash, got.0, got.1.1) success
                          (ne_of_beq _ 0 some_tokens) one))
              ]).ends

-- The magnitude of the signed number in the lower 128 bits of a word.
abbrev pub IsMagnitude : ℕ → ℕ → Type 0
IsMagnitude word m = (m ≤ 2 ^ 127) × ((word % 2 ^ 128 ≡ m) ⊎ (word % 2 ^ 128 + m ≡ 2 ^ 128))

low_magnitude-IsMagnitude : (word : ℕ) → IsMagnitude word (low_magnitude word)
low_magnitude-IsMagnitude word = ground arith

-- A quote is the answer to a simulated swap.
pub record IsQuoted (node : Node) (host : Host) (config : EvmConfig) (market_id : String)
    (side : Side) (stake : Stake) (v : World) (n : ℕ) : Type 0 where
  pub token : Text
  pub wei : ℕ
  pub asked : IsTokenFor node host config market_id side v token
  pub sized : IsSized node host config stake wei
  pub at : Calls
  pub word : ℕ
  pub simulated : node.simulate_swap at token wei ≡ ok word
  pub tokens_out : ℕ
  pub low : IsMagnitude word tokens_out
  pub answer : n ≡ host.to_number tokens_out

-- A quote writes no transaction. Its answer is, as a number, the magnitude of the signed number in
-- the lower half of what the node simulated, at most 2 ^ 127, and what the node simulated is the swap
-- of the stake's wei for the token of the side that was asked for.
pub preview_stake-IsQuoted :
    (node : Node) (host : Host) (config : EvmConfig) (market_id : String) (side : Side)
    (stake : Stake) (w : World)
    → let (res, w') = preview_stake node host config market_id side stake w in
      (sent w'.history ≡ sent w.history)
      × ((n : ℕ) → res ≡ ok n → IsQuoted node host config market_id side stake w n)
unfolding preview_stake
preview_stake-IsQuoted node host config market_id side stake w =
    (Ends-bind P {Q = Finds node host config market_id w} _ _ _
      (entry_tokens-Finds node host config market_id w) (λ e u q. (q, λ n no_quote. cc))
      λ tokens u q.
        Ends-bind P {Q = Sizes node host config stake u} _ _ _
          (stake_to_wei-Sizes node host config stake u) (λ e x l. (l.0 ∙ q.0, λ n no_quote. cc))
          λ wei x l.
            Ends-ask P _ _ _ _ (λ e _. (l.0.0 ∙ q.0, λ n no_quote. cc))
              λ word got. Ends-pure P _ _ (
                l.0.0 ∙ q.0,
                λ n same. record {
                  token = token_of tokens side;
                  wei = wei;
                  asked = record {
                    tokens = tokens;
                    entry = q.1;
                    chosen = token_of-IsTokenOf tokens side;
                  };
                  sized = l.1;
                  at = x.history;
                  word = word;
                  simulated = got;
                  tokens_out = low_magnitude word;
                  low = low_magnitude-IsMagnitude word;
                  answer = cc same;
                },
              )).ends
  where
    P : Result ℕ → World → Type 0
    P res v =
        (sent v.history ≡ sent w.history)
        × ((n : ℕ) → res ≡ ok n → IsQuoted node host config market_id side stake w n)
