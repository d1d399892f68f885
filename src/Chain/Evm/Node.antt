-- ===== src/Chain/Evm/Node.antt =====
-- What `EvmMarketChain` (packages/chain/src/evm/index.ts) talks to: the contracts' transactions and
-- reads, receipts with their logs, and what it keeps itself. The answers of the node, of the signers
-- and of the price source are a function of the calls so far; the hash, the encoding of
-- arguments and the decoding of one event, the library's, are parameters. Amounts are in wei.
use ratio.Base.{ℕ, Bool, Option, List, String}
use ratio.Texts.{Text}
use ratio.Flow.{Result, Flow}
use ratio.Store.Records.{Side}
use ratio.Engine.World.{Stake}
use ratio.Chain.Beneficiaries.{Party}

pub record Log : Type 0 where
  pub address : Text
  pub topics : List Text
  pub payload : Text

pub record Receipt : Type 0 where
  pub success : Bool
  pub transaction_hash : Text
  pub logs : List Log

-- The arguments of `Airlock.create` that differ between entries.
pub record Creation : Type 0 where
  pub token_name : String
  pub symbol : String
  pub oracle : Text
  pub entry_id : Side
  pub salt_id : String
  pub pool_beneficiaries : List (Text × ℕ)

-- The transactions, each to its contract.
pub data Tx : Type 0 where
  create_oracle : (market_id : String) → (settles_at : ℕ) → Tx
  create : Creation → Tx
  set_entry_tokens : (oracle token_a token_b : Text) → Tx
  swap : (token : Text) → (wei : ℕ) → Tx
  declare_winner : (oracle : Text) → Side → Tx
  migrate : (token : Text) → Tx
  approve : (token spender : Text) → (amount : ℕ) → Tx
  claim : (oracle : Text) → (amount : ℕ) → Tx
  transfer : (to : Text) → (wei : ℕ) → Tx

-- A call that leaves the client.
pub data Call : Type 0 where
  asked_price asked_time read_owner : Call
  slept : (ms : ℕ) → Call
  read_raised predicted_oracle : (market_id : String) → Call
  read_entry_token : (oracle : Text) → Side → Call
  read_winner read_finalized : (oracle : Text) → Call
  read_preview : (oracle : Text) → (amount : ℕ) → Call
  read_allowance : (token owner spender : Text) → Call
  read_token_balance : (token owner : Text) → Call
  read_balance : (address : Text) → Call
  simulated_swap : (token : Text) → (wei : ℕ) → Call
  -- A transaction is written by its account, and then waited for.
  wrote : (account : Text) → Tx → Call
  waited : (hash : Text) → Call

abbrev pub Calls : Type 0
Calls = List Call

pub record Node : Type 0 where
  -- In millionths of a dollar. The price source throws where it has no price.
  pub eth_usd : Calls → Result ℕ
  pub now : Calls → ℕ
  pub owner : Calls → Result Text
  pub raised_wei : Calls → String → Result (ℕ × ℕ)
  pub predict_oracle : Calls → String → Result Text
  pub entry_token : Calls → Text → Side → Result Text
  pub get_winner : Calls → Text → Result (Text × Bool)
  pub is_finalized : Calls → Text → Result Bool
  pub preview_claim : Calls → Text → ℕ → Result ℕ
  pub allowance : Calls → Text → Text → Text → Result ℕ
  pub token_balance : Calls → Text → Text → Result ℕ
  pub balance : Calls → Text → Result ℕ
  pub simulate_swap : Calls → Text → ℕ → Result ℕ
  pub write : Calls → Text → Tx → Result Text
  pub wait : Calls → Text → Result Receipt

-- The library, and the arithmetic of floating-point numbers: millionths of a dollar, at a price of
-- ether in millionths of a dollar.
pub record Host : Type 0 where
  pub usd_to_wei : (usd price : ℕ) → ℕ
  pub native_to_wei : ℕ → ℕ
  pub native_to_usd : (native price : ℕ) → ℕ
  pub wei_to_usd : (wei price : ℕ) → ℕ
  pub implied : (part total : ℕ) → ℕ
  -- `Number` of a bigint, which rounds above 2 ^ 53.
  pub to_number : ℕ → ℕ
  pub prefix : ℕ → String → String
  pub decode_create : Log → Option Text
  pub claimed_topic : Text

pub record EvmAddresses : Type 0 where
  pub airlock : Text
  pub prediction_migrator : Text
  pub swap_router : Text

pub record EvmConfig : Type 0 where
  pub addresses : EvmAddresses
  pub operator : Text
  -- The address of the account that signs for a wallet.
  pub signer_for : Text → Text
  pub market_duration_ms : ℕ

-- What the client keeps: the entry tokens it knows, and the accounts that it has a client for.
pub record Client : Type 0 where
  pub tokens_by_market : List (String × (Text × Text))
  pub wallets : List Text

abbrev pub Evm : Type 0 → Type 0
Evm A = Flow Client Call A

pub record Opening : Type 0 where
  pub nonce : String
  pub fee_beneficiaries : List Party
  pub outcome_a : String
  pub outcome_b : String
  pub settles_at_ms : Option ℕ

pub record Bet : Type 0 where
  pub market_id : String
  pub side : Side
  pub stake : Stake
  pub bettor : Text
