-- ===== src/Chain/Evm/Client.antt =====
-- The steps that the methods of `EvmMarketChain` (packages/chain/src/evm/index.ts) share: sending a
-- transaction, sizing a stake, and the entry tokens of a market.
use ratio.Base.{ℕ, ◌||◌, ◌∷◌, String, string_eq, nat_eq, ◌==◌, if◌then◌else◌, includes}
use ratio.Base.Maps.{get, set}
use ratio.Texts.{Text, codes, text_eq, lower}
use ratio.Flow.{
  Result, ok, throw, ◌>>=◌, ◌>>◌, pure, reads, writes, both, branch, cases, call, rethrow,
}
use ratio.Store.Records.{Side, side_a, side_b}
use ratio.Engine.World.{Stake, usd, native}
use ratio.Chain.Evm.Node.{
  Receipt, Tx, asked_price, predicted_oracle, read_entry_token, wrote, waited, Node, Host,
  EvmConfig, Client, Evm,
}

-- `address(0)`, which sorts before every token: ether.
abbrev pub zero_address : Text
zero_address = codes "0x0000000000000000000000000000000000000000"

abbrev pub fail : {A : Type 0} → String → Evm A
fail message = rethrow message

abbrev pub lift : {A : Type 0} → Result A → Evm A
lift (ok a) = pure a
lift (throw e) = rethrow e

abbrev pub token_of : Text × Text → Side → Text
token_of tokens side_a = tokens.0
token_of tokens side_b = tokens.1

-- A client for an account, by its address in lower case.
unfoldable pub keep_wallet : Text → Client → Client
keep_wallet account c =
    if includes c.wallets (lower account)
    then c
    else record c { wallets = lower account ∷ c.wallets }

unfoldable pub keep_tokens : String → Text × Text → Client → Client
keep_tokens market_id tokens c = record c {
  tokens_by_market = set market_id tokens c.tokens_by_market;
}

module _ (node : Node) (host : Host) (config : EvmConfig) where
  -- One transaction, written and waited for; a receipt of a reverted one is thrown.
  unfoldable pub send : Text → Tx → Evm Receipt
  send account tx = do
    writes (keep_wallet account)
    hash ← call (wrote account tx) (λ h. node.write h account tx)
    receipt ← call (waited hash) (λ h. node.wait h hash)
    branch receipt.success (pure receipt) (fail "transaction reverted")

  abbrev pub ask_price : Evm ℕ
  ask_price = call asked_price node.eth_usd

  unfoldable pub usd_to_wei : ℕ → Evm ℕ
  usd_to_wei amount = do
    price ← ask_price
    branch (price == 0) (fail "refusing to size a bet on it") (pure (host.usd_to_wei amount price))

  -- A stake in ether does not consult the price.
  unfoldable pub stake_to_wei : Stake → Evm ℕ
  stake_to_wei (native amount) = pure (host.native_to_wei amount)
  stake_to_wei (usd amount) = usd_to_wei amount

  unfoldable pub stake_usd : Stake → Evm ℕ
  stake_usd (usd amount) = pure amount
  stake_usd (native amount) = do price ← ask_price; pure (host.native_to_usd amount price)

  unfoldable pub wei_to_usd : ℕ → Evm ℕ
  wei_to_usd wei = do price ← ask_price; pure (host.wei_to_usd wei price)

  unfoldable pub oracle_address : String → Evm Text
  oracle_address market_id =
      call (predicted_oracle market_id) (λ h. node.predict_oracle h market_id)

  abbrev pub read_token : Text → Side → Evm Text
  read_token oracle side = call (read_entry_token oracle side) (λ h. node.entry_token h oracle side)

  -- The tokens of a market that is not known yet. Those that are not attached yet are not kept.
  unfoldable pub fetch_tokens : String → Evm (Text × Text)
  fetch_tokens market_id = do
    oracle ← oracle_address market_id
    (a, b) ← both (read_token oracle side_a) (read_token oracle side_b)
    branch ((a == zero_address) || (b == zero_address)) (fail "entry tokens not attached yet")
        (do writes (keep_tokens market_id (a, b)); pure (a, b))

  unfoldable pub entry_tokens : String → Evm (Text × Text)
  entry_tokens market_id = do
    known ← reads (λ c. get market_id c.tokens_by_market)
    cases known (fetch_tokens market_id) (λ tokens. pure tokens)
