-- ===== src/Doppler/Node.antt =====
-- What `RatioMarketClient` (packages/doppler/src/pairMarket.ts), the transactions of
-- packages/doppler/src/tx.ts and `DopplerMarketChain` (packages/chain/src/solana.ts) talk to: the
-- SDK's derivations and builders, and a Solana node, whose answers are a function of the calls so far.
-- A signer is named by its address; amounts are in lamports or in the base units of a token.
use ratio.Base.{ℕ, Bool, Option, List, String}
use ratio.Texts.{Text}
use ratio.Flow.{Result, Flow}
use ratio.Store.Records.{Side, side_a, side_b}

pub data Role : Type 0 where
  readonly writable readonly_signer writable_signer : Role

pub record Account : Type 0 where
  pub address : Text
  pub role : Role

pub record FeeBeneficiary : Type 0 where
  pub wallet : Text
  pub share_bps : ℕ

pub record Metadata : Type 0 where
  pub metadata_name : Text
  pub metadata_symbol : Text
  pub metadata_uri : Text

-- What the SDK derives of a launch.
pub record LaunchAddresses : Type 0 where
  pub config : Text
  pub launch : Text
  pub launch_authority : Text
  pub launch_fee_state : Text
  pub metadata_account : Text

pub record LaunchSeed : Type 0 where
  pub namespace : Text
  pub launch_id : Text
  pub base_mint : Text
  pub metadata : Option Metadata

-- The accounts and the arguments of `initialize_launch` that are not the same in every launch.
pub record InitializeLaunch : Type 0 where
  pub addresses : LaunchAddresses
  pub base_mint : Text
  pub quote_mint : Text
  pub base_vault : Text
  pub quote_vault : Text
  pub payer : Text
  pub authority : Text
  pub namespace : Text
  pub launch_id : Text
  pub base_decimals : ℕ
  pub base_total_supply : ℕ
  pub base_for_distribution : ℕ
  pub base_for_liquidity : ℕ
  pub curve_virtual_base : ℕ
  pub curve_virtual_quote : ℕ
  pub swap_fee_bps : ℕ
  pub allow_buy : Bool
  pub allow_sell : Bool
  pub migrator_init_payload : Text
  pub migrator_migrate_payload : Text
  pub hook_remaining_accounts_hash : Text
  pub migrator_init_remaining_accounts_hash : Text
  pub migrator_remaining_accounts_hash : Text
  pub fee_beneficiaries : List FeeBeneficiary
  pub metadata : Metadata

pub record MigrateLaunch : Type 0 where
  pub config : Text
  pub launch : Text
  pub launch_authority : Text
  pub base_mint : Text
  pub quote_mint : Text
  pub base_vault : Text
  pub quote_vault : Text
  pub launch_fee_state : Text
  pub payer : Text

pub record Claim : Type 0 where
  pub market : Text
  pub pot_vault : Text
  pub winner_mint : Text
  pub quote_mint : Text
  pub entry_by_mint : Text
  pub claimer_winner_ata : Text
  pub claimer_quote_ata : Text
  pub claimer : Text
  pub payer : Text
  pub burn_amount : ℕ

-- An instruction of a transaction; `built` is one that the SDK returns in a list of its own.
pub data Ix : Type 0 where
  initialize_oracle :
      (oracle_authority oracle_state : Text) → (nonce : ℕ) → (quote_mint : Text) → Ix
  initialize_launch : InitializeLaunch → Ix
  transfer_sol : (source destination : Text) → (amount : ℕ) → Ix
  sync_native : (account : Text) → Ix
  finalize : (oracle_authority oracle_state winning_mint : Text) → Ix
  migrate_launch : MigrateLaunch → (accounts : List Account) → Ix
  claim : Claim → Ix
  close_account : (account destination owner : Text) → Ix
  built : Text → Ix

-- A transaction under its recent blockhash; one that is too large goes through a lookup table.
pub record Transaction : Type 0 where
  pub payer : Text
  pub blockhash : Text
  pub instructions : List Ix
  pub table : List Text

pub record Swap : Type 0 where
  pub launch : Text
  pub launch_authority : Text
  pub base_vault : Text
  pub quote_vault : Text
  pub launch_fee_state : Text
  pub base_mint : Text
  pub quote_mint : Text
  pub payer : Text
  pub user : Text
  pub amount_in : ℕ
  pub min_amount_out : ℕ
  pub remaining_accounts : List Text
  pub wrap_sol : Bool

pub record SwapPlan : Type 0 where
  pub instructions : List Ix
  pub user_base_account : Text
  pub user_quote_account : Text

pub record LookupTable : Type 0 where
  pub create_instruction : Ix
  pub extend_instructions : List Ix

pub record Sdk : Type 0 where
  pub oracle_state_address : (operator : Text) → (nonce : ℕ) → Text
  pub prediction_market_address : (oracle_state quote_mint : Text) → Text
  pub pot_vault_address : (market : Text) → Text
  pub market_authority_address : (market : Text) → Text
  pub entry_address : (market entry_id : Text) → Text
  pub entry_by_mint_address : (market mint : Text) → Text
  pub launch_addresses : LaunchSeed → LaunchAddresses
  pub associated_token : (mint owner : Text) → Text
  pub register_payload : (entry_id : Text) → Text
  pub migrate_payload : (entry_id : Text) → Text
  pub remaining_accounts_hash : List Text → Text
  pub migrate_accounts : MigrateLaunch → Option (List Account)
  pub table_addresses : Ix → List Text
  pub lookup_table : (authority payer : Text) → (slot : ℕ) → List Text → LookupTable
  -- The first signature of a signed transaction.
  pub signature : Transaction → Text
  -- `new TextEncoder().encode`
  pub utf8 : Text → Text

pub data Commitment : Type 0 where
  confirmed finalized : Commitment

-- A call that leaves the client.
pub data Call : Type 0 where
  asked_account : (address : Text) → Call
  made_keypair asked_blockhash : Call
  signed : Transaction → Call
  submitted : Transaction → Call
  simulated : Transaction → Call
  asked_slot : Commitment → Call
  slept : (ms : ℕ) → Call
  fetched_entry : (address : Text) → Call
  fetched_launch : (address : Text) → Call
  asked_balance : (address : Text) → Call
  asked_token_balance : (account : Text) → Call
  asked_token_accounts : (owner : Text) → Call
  planned_swap : Swap → Call
  asked_labels : (market_id : String) → Call

abbrev pub Calls : Type 0
Calls = List Call

pub record Vaults : Type 0 where
  pub base_vault : Text
  pub quote_vault : Text

pub record Node : Type 0 where
  pub account_exists : Calls → Text → Result Bool
  pub keypair : Calls → Text
  pub blockhash : Calls → Result Text
  pub sign : Calls → Transaction → Result (Unit {0})
  pub submit : Calls → Transaction → Result (Unit {0})
  pub simulate : Calls → Transaction → Result (Unit {0})
  pub slot : Calls → Commitment → Result ℕ
  -- The mint of an entry; it throws where there is none.
  pub entry_mint : Calls → Text → Result Text
  pub launch_vaults : Calls → Text → Result (Option Vaults)
  pub balance : Calls → Text → Result ℕ
  pub token_balance : Calls → Text → Result ℕ
  -- The lamports of each token account of an owner.
  pub token_accounts : Calls → Text → Result (List ℕ)
  pub plan_swap : Calls → Swap → Result SwapPlan
  pub labels_for : Calls → String → Result (Text × Text)

pub record OutcomeRefs : Type 0 where
  pub label : Text
  pub entry_id : Text
  pub launch : Text
  pub launch_authority : Text
  pub config : Text
  pub base_mint : Text
  pub base_vault : Text
  pub quote_vault : Text
  pub launch_fee_state : Text
  pub entry_address : Text
  pub entry_by_mint : Text

pub record PairMarketRefs : Type 0 where
  pub nonce : ℕ
  pub quote_mint : Text
  pub oracle_state : Text
  pub market : Text
  pub pot_vault : Text
  pub market_authority : Text
  pub outcome_a : OutcomeRefs
  pub outcome_b : OutcomeRefs

-- The pairs of the source that are read by a side.
abbrev pub at_side : {A : Type 0} → Side → A → A → A
at_side side_a x y = x
at_side side_b x y = y

-- What the chain keeps: the addresses of the markets that it knows.
pub record Known : Type 0 where
  pub refs_by_id : List (String × PairMarketRefs)

abbrev pub Dop : Type 0 → Type 0
Dop A = Flow Known Call A
