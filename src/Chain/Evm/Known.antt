-- ===== src/Chain/Evm/Known.antt =====
-- The entry tokens and the amounts that `EvmMarketChain` (packages/chain/src/evm/index.ts) works
-- with, told apart from how it looks them up.
use ratio.Base.{ℕ, ◌≡◌, ◌≢◌, refl, some, String, string_eq, nat_eq, ne_of_beq}
use ratio.Base.Maps.{get}
use ratio.Texts.{Text}
use ratio.Store.Records.{Side, side_a, side_b}
use ratio.Engine.World.{Stake, usd, native}
use ratio.Flow.{Result, ok, throw}
use ratio.Flow.Ends.{
  Ends, after, Ends-pure, Ends-ask, Ends-reads, Ends-writes, Ends-branch, Ends-cases, Ends-ask_both,
  Ends-raise,
}
use ratio.Chain.Evm.Node.{Call, Calls, Node, Host, EvmConfig}
use ratio.Chain.Evm.Client.{
  token_of, usd_to_wei, stake_to_wei, oracle_address, fetch_tokens, entry_tokens,
}
use ratio.Chain.Evm.Trace.{World, Reads, Looks}

-- The first token is side A's, and the second side B's.
abbrev pub IsTokenOf : Text × Text → Side → Text → Type 0
IsTokenOf tokens side_a token = token ≡ tokens.0
IsTokenOf tokens side_b token = token ≡ tokens.1

pub token_of-IsTokenOf :
    (tokens : Text × Text) (side : Side) → IsTokenOf tokens side (token_of tokens side)
token_of-IsTokenOf tokens side_a = refl
token_of-IsTokenOf tokens side_b = refl

module _ (node : Node) (host : Host) (config : EvmConfig) where
  abbrev pub IsOracle : String → Text → Type 0
  IsOracle market_id oracle = (h : Calls) × (node.predict_oracle h market_id ≡ ok oracle)

  -- The tokens of a market: those that were kept for it, or those that its oracle names.
  pub data IsEntry (market_id : String) (v : World) (tokens : Text × Text) : Type 0 where
    kept : get market_id v.store.tokens_by_market ≡ some tokens → IsEntry market_id v tokens
    named :
        (oracle : Text) (h k : Calls)
        → IsOracle market_id oracle
        → node.entry_token h oracle side_a ≡ ok tokens.0
        → node.entry_token k oracle side_b ≡ ok tokens.1
        → IsEntry market_id v tokens

  pub IsEntry-asked :
      (market_id : String) (v : World) (tokens : Text × Text) (c : Call)
      → IsEntry market_id (after c v) tokens
      → IsEntry market_id v tokens
  IsEntry-asked market_id v tokens c (kept known) = kept known
  IsEntry-asked market_id v tokens c (named oracle h k o a b) = named oracle h k o a b

  -- The token of one side of a market.
  pub record IsTokenFor (market_id : String) (side : Side) (v : World) (token : Text) : Type 0 where
    pub tokens : Text × Text
    pub entry : IsEntry market_id v tokens
    pub chosen : IsTokenOf tokens side token

  -- The wei of a stake: of dollars, at a price that the source gave and that is not zero.
  abbrev pub IsSized : Stake → ℕ → Type 0
  IsSized (native amount) wei = wei ≡ host.native_to_wei amount
  IsSized (usd amount) wei =
      (h : Calls) × (price : ℕ) × (node.eth_usd h ≡ ok price)
      × (price ≢ 0)
      × (wei ≡ host.usd_to_wei amount price)

  abbrev pub Finds : String → World → Result (Text × Text) → World → Type 0
  Finds market_id v (ok tokens) w =
      Reads {A = Text × Text} v (ok tokens) w × IsEntry market_id v tokens
  Finds market_id v (throw e) w = Reads {A = Text × Text} v (throw e) w

  pub entry_tokens-Finds :
      (market_id : String) (w : World)
      → Ends (Finds market_id w) (entry_tokens node host config market_id) w
  unfolding entry_tokens fetch_tokens oracle_address
  entry_tokens-Finds market_id w =
      let P = Finds market_id w in
      Ends-reads P _ _ _ (
        Ends-cases P _ _ _ _
          (λ _.
            Ends-ask P _ _ _ _ (λ _ _. refl)
              λ oracle predicted.
                Ends-ask_both P _ _ _ _ _ _ (λ _. refl)
                  λ a b got_a got_b.
                    Ends-branch P _ _ _ _ (λ _. Ends-raise P _ _ refl)
                      (λ _.
                        Ends-writes P _ _ _
                          (Ends-pure P _ _ (refl, named oracle _ _ (_, predicted) got_a got_b))))
          (λ tokens known. Ends-pure P _ _ (refl, kept known)))

  abbrev pub Sizes : Stake → World → Result ℕ → World → Type 0
  Sizes stake v (ok wei) w = Looks {A = ℕ} v (ok wei) w × IsSized stake wei
  Sizes stake v (throw e) w = Looks {A = ℕ} v (throw e) w

  pub stake_to_wei-Sizes :
      (stake : Stake) (w : World) → Ends (Sizes stake w) (stake_to_wei node host config stake) w
  unfolding stake_to_wei usd_to_wei
  stake_to_wei-Sizes (native amount) w =
      Ends-pure (Sizes (native amount) w) _ _ ((refl, refl), refl)
  stake_to_wei-Sizes (usd amount) w =
      let P = Sizes (usd amount) w in
      Ends-ask P _ _ _ _ (λ _ _. (refl, refl))
        λ price got.
          Ends-branch P _ _ _ _ (λ _. Ends-raise P _ _ (refl, refl))
            (λ not_zero.
              Ends-pure P _ _ ((refl, refl), (_, price, got, ne_of_beq price 0 not_zero, refl)))
