-- ===== src/Chain/Evm/Markets.antt =====
-- Opening a market, betting, quoting and the wallet of `EvmMarketChain`
-- (packages/chain/src/evm/index.ts).
use ratio.Base.{ℕ, ◌+◌, ◌-◌, ◌/◌, ◌%◌, ◌^◌, Bool, [], String, nat_eq, ◌==◌, ltb, if◌then◌else◌}
use ratio.Texts.{Text, is_address}
use ratio.Flow.{◌>>=◌, ◌>>◌, pure, writes, both, branch, cases, call}
use ratio.Store.Records.{Side, side_a, side_b}
use ratio.Engine.World.{Stake, usd, ok}
use ratio.Chain.Beneficiaries.{build_beneficiaries}
use ratio.Chain.Evm.Node.{
  create_oracle, create, set_entry_tokens, swap, transfer, asked_time, read_owner, read_raised,
  read_balance, simulated_swap, Creation, Node, Host, EvmConfig, Evm, Opening, Bet,
}
use ratio.Chain.Evm.Logs.{tokens_received, asset_from_create_receipt}
use ratio.Chain.Evm.Client.{
  fail, lift, token_of, keep_tokens, send, stake_to_wei, wei_to_usd, oracle_address, entry_tokens,
}

abbrev pub symbol_of : Side → String
symbol_of side_a = "RTOA"
symbol_of side_b = "RTOB"

-- The lower half of a `BalanceDelta` as an int128, without its sign.
abbrev pub low_magnitude : ℕ → ℕ
low_magnitude word = let low = word % 2 ^ 128 in if ltb low (2 ^ 127) then low else 2 ^ 128 - low

pub record EvmOdds : Type 0 where
  pub implied_a : ℕ
  pub raised_usd_a : ℕ
  pub raised_usd_b : ℕ

module _ (node : Node) (host : Host) (config : EvmConfig) where
  -- What an entry is created with. No fee split is passed on.
  abbrev pub creation : Text → Side → String → String → Creation
  creation oracle side label market_id = record {
    token_name = host.prefix 32 label;
    symbol = symbol_of side;
    oracle = oracle;
    entry_id = side;
    salt_id = market_id;
    pool_beneficiaries = [];
  }

  -- One side's entry: its token, as the receipt tells it.
  unfoldable pub create_entry : Text → Side → String → String → Evm Text
  create_entry oracle side label market_id = do
    receipt ← send node host config config.operator (create (creation oracle side label market_id))
    cases (asset_from_create_receipt host receipt.logs config.addresses.airlock)
        (fail "no asset in receipt") (λ asset. pure asset)

  -- From the oracle on.
  unfoldable pub create_entries : Opening → Text → Evm String
  create_entries p oracle = do
    token_a ← create_entry oracle side_a p.outcome_a p.nonce
    token_b ← create_entry oracle side_b p.outcome_b p.nonce
    _ ← send node host config config.operator (set_entry_tokens oracle token_a token_b)
    writes (keep_tokens p.nonce (token_a, token_b))
    pure p.nonce

  -- With the time of settlement known. The split is built to be checked.
  unfoldable pub create_settling : Opening → ℕ → Evm String
  create_settling p settles_at_ms = do
    airlock_owner ← call read_owner node.owner
    _ ← lift (build_beneficiaries p.fee_beneficiaries airlock_owner)
    _ ← send node host config config.operator (create_oracle p.nonce (settles_at_ms / 1000))
    oracle ← oracle_address node host config p.nonce
    create_entries p oracle

  unfoldable pub create_market : Opening → Evm String
  create_market p =
      cases p.settles_at_ms
        (do
          at ← call asked_time (λ h. ok (node.now h))
          create_settling p (at + config.market_duration_ms))
        (create_settling p)

  -- The tokens, out of the receipt.
  unfoldable pub place_bet : Bet → Evm (ℕ × Text)
  place_bet b = do
    tokens ← entry_tokens node host config b.market_id
    wei ← stake_to_wei node host config b.stake
    let account = config.signer_for b.bettor
    receipt ← send node host config account (swap (token_of tokens b.side) wei)
    let received = tokens_received receipt.logs (token_of tokens b.side) account
    branch (received == 0) (fail "bet landed but yielded no tokens")
        (pure (host.to_number received, receipt.transaction_hash))

  -- A quote by simulation: no transaction.
  unfoldable pub preview_stake : String → Side → Stake → Evm ℕ
  preview_stake market_id side stake = do
    tokens ← entry_tokens node host config market_id
    wei ← stake_to_wei node host config stake
    word ←
        call (simulated_swap (token_of tokens side) wei)
          (λ h. node.simulate_swap h (token_of tokens side) wei)
    pure (host.to_number (low_magnitude word))

  unfoldable pub get_odds : String → Evm EvmOdds
  get_odds market_id = do
    (a, b) ← call (read_raised market_id) (λ h. node.raised_wei h market_id)
    (usd_a, usd_b) ← both (wei_to_usd node host config a) (wei_to_usd node host config b)
    pure (record {
      implied_a = if a + b == 0 then 500000 else host.implied a (a + b);
      raised_usd_a = usd_a;
      raised_usd_b = usd_b;
    })

  unfoldable pub balance_usd : Text → Evm ℕ
  balance_usd address = do
    wei ← call (read_balance address) (λ h. node.balance h address)
    wei_to_usd node host config wei

  abbrev pub reserved_usd : Evm ℕ
  reserved_usd = pure 0

  unfoldable pub transfer_usd : Text → Text → ℕ → Evm Text
  transfer_usd from to amount_usd = do
    wei ← stake_to_wei node host config (usd amount_usd)
    receipt ← send node host config (config.signer_for from) (transfer to wei)
    pure receipt.transaction_hash

  abbrev pub is_valid_address : Text → Bool
  is_valid_address candidate = is_address candidate

  unfoldable pub airlock_owner : Evm Text
  airlock_owner = call read_owner node.owner
