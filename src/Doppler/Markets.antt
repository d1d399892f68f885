-- ===== src/Doppler/Markets.antt =====
-- `RatioMarketClient` and the functions beside it (packages/doppler/src/pairMarket.ts).
use ratio.Base.{
  ℕ, ◌*◌, ◌^◌, Bool, true, Option, none, some, List, [], ◌∷◌, ◌++◌, take, length, ltb, or_else,
  nat_eq, ◌==◌, if◌then◌else◌,
}
use ratio.Texts.{Text, codes, text_eq, lower}
use ratio.Flow.{◌>>=◌, ◌>>◌, pure, done, call, branch, cases, rethrow}
use ratio.Store.Records.{Side}
use ratio.Doppler.Node.{
  readonly, writable, Account, FeeBeneficiary, Metadata, LaunchAddresses, InitializeLaunch,
  initialize_oracle, initialize_launch, Sdk, asked_account, fetched_entry, fetched_launch, Vaults,
  Node, OutcomeRefs, PairMarketRefs, Dop,
}
use ratio.Doppler.Tx.{
  sleep, generate_keypair, send_instructions, send_initialize_launch_with_lookup_table,
}

pub record OutcomeParams : Type 0 where
  pub label : Text
  pub symbol : Text
  pub metadata_uri : Option Text

pub record PairMarketParams : Type 0 where
  pub nonce : ℕ
  pub outcome_a : OutcomeParams
  pub outcome_b : OutcomeParams
  pub quote_mint : Text
  pub swap_fee_bps : ℕ
  pub fee_beneficiaries : List FeeBeneficiary
  pub curve_virtual_quote : Option ℕ
  pub base_decimals : Option ℕ
  pub base_total_supply : Option ℕ

pub record OddsView : Type 0 where
  pub raised_a : ℕ
  pub raised_b : ℕ
  -- In millionths.
  pub implied_0 : ℕ

pub record Stake : Type 0 where
  pub refs : PairMarketRefs
  pub side : Side
  pub amount_in : ℕ
  pub bettor : Text
  pub min_amount_out : Option ℕ
  pub wrap_sol : Bool
  pub rent_payer : Option Text

pub record Placed : Type 0 where
  pub signature : Text
  pub outcome_token_account : Text
  pub quote_token_account : Text

-- `new Uint8Array(32)` with the first bytes of a text set.
abbrev pub pad_with : ℕ → Text → Text
pad_with Prim.Native.Nat.zero t = []
pad_with (Prim.Native.Nat.suc n) [] = 0 ∷ pad_with n []
pad_with (Prim.Native.Nat.suc n) (c ∷ t) = c ∷ pad_with n t

-- `array.splice(array.length - 1, 0, …)`
abbrev pub before_last : {A : Type 0} → List A → List A → List A
before_last new [] = new
before_last new (x ∷ []) = new ++ x ∷ []
before_last new (x ∷ y ∷ xs) = x ∷ before_last new (y ∷ xs)

abbrev pub max_fee_beneficiaries : ℕ
max_fee_beneficiaries = 5

-- The market's own addresses, from its oracle.
pub record MarketAddresses : Type 0 where
  pub oracle_state : Text
  pub market : Text
  pub pot_vault : Text
  pub market_authority : Text

unfoldable pub writable_mint : Text → Account → Account
writable_mint mint a = if a.address == mint then record a { role = writable } else a

unfoldable pub remaining_accounts : PairMarketRefs → OutcomeRefs → List Account
remaining_accounts refs side =
    record { address = refs.oracle_state; role = readonly }
    ∷ record { address = refs.market; role = writable }
    ∷ record { address = refs.pot_vault; role = writable }
    ∷ record { address = refs.market_authority; role = readonly }
    ∷ record { address = side.entry_address; role = writable }
    ∷ record { address = side.entry_by_mint; role = writable }
    ∷ []

-- A market with its outcomes in the order of the source's array.
abbrev pub refs_of : ℕ → Text → MarketAddresses → OutcomeRefs → OutcomeRefs → PairMarketRefs
refs_of nonce quote_mint m a b = record {
  nonce = nonce;
  quote_mint = quote_mint;
  oracle_state = m.oracle_state;
  market = m.market;
  pot_vault = m.pot_vault;
  market_authority = m.market_authority;
  outcome_a = a;
  outcome_b = b;
}

module _ (sdk : Sdk) (node : Node) where
  unfoldable pub entry_id_of : Text → Text
  entry_id_of label = pad_with 32 (take 32 (sdk.utf8 label))

  unfoldable pub market_addresses : Text → ℕ → Text → MarketAddresses
  market_addresses operator nonce quote_mint =
      let oracle = sdk.oracle_state_address operator nonce in
      let market = sdk.prediction_market_address oracle quote_mint in
      record {
        oracle_state = oracle;
        market = market;
        pot_vault = sdk.pot_vault_address market;
        market_authority = sdk.market_authority_address market;
      }

  -- Every address of an outcome, from its mint and its vaults.
  unfoldable pub outcome_refs :
      MarketAddresses → Text → Text → Vaults → LaunchAddresses → OutcomeRefs
  outcome_refs m label mint vaults addresses = record {
    label = label;
    entry_id = entry_id_of label;
    launch = addresses.launch;
    launch_authority = addresses.launch_authority;
    config = addresses.config;
    base_mint = mint;
    base_vault = vaults.base_vault;
    quote_vault = vaults.quote_vault;
    launch_fee_state = addresses.launch_fee_state;
    entry_address = sdk.entry_address m.market (entry_id_of label);
    entry_by_mint = sdk.entry_by_mint_address m.market mint;
  }

  unfoldable pub metadata_of : OutcomeParams → Metadata
  metadata_of o = record {
    metadata_name = take 32 (codes "ratio: " ++ o.label);
    metadata_symbol = take 10 o.symbol;
    metadata_uri =
        or_else o.metadata_uri (codes "https://ratio.wtf/meta/" ++ lower o.symbol ++ codes ".json");
  }

  -- The addresses of a launch by its mint.
  unfoldable pub launch_of : MarketAddresses → Text → Text → Option Metadata → LaunchAddresses
  launch_of m label mint metadata = sdk.launch_addresses (record {
    namespace = m.oracle_state;
    launch_id = entry_id_of label;
    base_mint = mint;
    metadata = metadata;
  })

  unfoldable pub hashed_accounts : MarketAddresses → Text → Text → Text
  hashed_accounts m label mint = sdk.remaining_accounts_hash (
      m.oracle_state
      ∷ m.market
      ∷ m.pot_vault
      ∷ m.market_authority
      ∷ sdk.entry_address m.market (entry_id_of label)
      ∷ sdk.entry_by_mint_address m.market mint
      ∷ [])

  unfoldable pub launch_instruction :
      Text → PairMarketParams → MarketAddresses → OutcomeParams → Text → Vaults → InitializeLaunch
  launch_instruction operator params m o mint vaults =
      let decimals = or_else params.base_decimals 6 in
      let supply = or_else params.base_total_supply (1000000000 * 10 ^ decimals) in
      record {
        addresses = launch_of m o.label mint (some (metadata_of o));
        base_mint = mint;
        quote_mint = params.quote_mint;
        base_vault = vaults.base_vault;
        quote_vault = vaults.quote_vault;
        payer = operator;
        authority = operator;
        namespace = m.oracle_state;
        launch_id = entry_id_of o.label;
        base_decimals = decimals;
        base_total_supply = supply;
        base_for_distribution = 0;
        base_for_liquidity = 0;
        curve_virtual_base = supply;
        curve_virtual_quote = or_else params.curve_virtual_quote 500000000;
        swap_fee_bps = params.swap_fee_bps;
        allow_buy = true;
        allow_sell = true;
        migrator_init_payload = sdk.register_payload (entry_id_of o.label);
        migrator_migrate_payload = sdk.migrate_payload (entry_id_of o.label);
        hook_remaining_accounts_hash = sdk.remaining_accounts_hash (m.oracle_state ∷ []);
        migrator_init_remaining_accounts_hash = hashed_accounts m o.label mint;
        migrator_remaining_accounts_hash = hashed_accounts m o.label mint;
        fee_beneficiaries = params.fee_beneficiaries;
        metadata = metadata_of o;
      }

  -- One round of the loop over the outcomes.
  unfoldable pub launch_outcome :
      Text → PairMarketParams → MarketAddresses → OutcomeParams → Dop OutcomeRefs
  launch_outcome operator params m o = do
    mint ← generate_keypair sdk node
    base ← generate_keypair sdk node
    quote ← generate_keypair sdk node
    let vaults : Vaults = record { base_vault = base; quote_vault = quote }
    _ ←
        send_initialize_launch_with_lookup_table sdk node operator
          (initialize_launch (launch_instruction operator params m o mint vaults))
    pure (outcome_refs m o.label mint vaults (launch_of m o.label mint (some (metadata_of o))))

  -- An oracle that is there from a launch that failed is not initialized again.
  unfoldable pub ensure_oracle : Text → PairMarketParams → Text → Dop (Unit {0})
  ensure_oracle operator params oracle = do
    there ← call (asked_account oracle) (λ h. node.account_exists h oracle)
    branch there done (
        send_instructions sdk node operator
          (initialize_oracle operator oracle params.nonce params.quote_mint ∷ [])
        >>= λ _. done)

  unfoldable pub create_market : Text → PairMarketParams → Dop PairMarketRefs
  create_market operator params =
      branch (ltb max_fee_beneficiaries (length params.fee_beneficiaries))
        (rethrow "feeBeneficiaries: max 5")
        (do
          let m = market_addresses operator params.nonce params.quote_mint
          ensure_oracle operator params m.oracle_state
          a ← launch_outcome operator params m params.outcome_a
          sleep 2000
          b ← launch_outcome operator params m params.outcome_b
          pure (refs_of params.nonce params.quote_mint m a b))

  unfoldable pub recover_outcome : MarketAddresses → Text → Dop OutcomeRefs
  recover_outcome m label = do
    let entry = sdk.entry_address m.market (entry_id_of label)
    mint ← call (fetched_entry entry) (λ h. node.entry_mint h entry)
    let addresses = launch_of m label mint none
    found ← call (fetched_launch addresses.launch) (λ h. node.launch_vaults h addresses.launch)
    cases found (rethrow "no launch account")
        (λ vaults. pure (outcome_refs m label mint vaults addresses))

  unfoldable pub recover_refs : Text → ℕ → Text → Text × Text → Dop PairMarketRefs
  recover_refs operator nonce quote_mint labels = do
    let m = market_addresses operator nonce quote_mint
    a ← recover_outcome m labels.0
    b ← recover_outcome m labels.1
    pure (refs_of nonce quote_mint m a b)
