-- ===== src/Doppler/Tests.antt =====
-- One market on a small Solana, opened, found again, bet on and settled.
use ratio.Base.{
  ℕ, ◌≡◌, refl, true, none, some, [], ◌∷◌, ◌++◌, string_eq, nat_eq, take, length, if◌then◌else◌,
  ◌==◌, ◌+◌,
}
use ratio.Base.Maps.{get, set}
use ratio.Texts.{Text, codes, text_eq}
use ratio.Flow.{Result, ok, monad}
use ratio.Flow.Ends.{Ends}
use ratio.Store.Records.{side_a, side_b}
use ratio.Engine.World.{usd}
use ratio.Doppler.Node.{
  readonly, LaunchAddresses, LaunchSeed, built, Sdk, Node, OutcomeRefs, PairMarketRefs, Swap, Ix,
}
use ratio.Doppler.Tx.{
  with_retry, retry, sign_message, sign_instructions, send_and_confirm, send_instructions_once,
  send_instructions, wait_for_slot_after, send_compressed, send_initialize_launch_with_lookup_table,
}
use ratio.Doppler.Markets.{
  pad_with, entry_id_of, market_addresses, outcome_refs, metadata_of, launch_of, hashed_accounts,
  launch_instruction, launch_outcome, ensure_oracle, create_market,
}
use ratio.Doppler.Trades.{swap_of, bet_instructions, place_bet}
use ratio.Doppler.Chain.{
  sponsor, params_of, keep_refs, Rates, Config, Opening, Bet, amount_in, open_market, refs_for,
  place_stake, settle,
}
use ratio.Doppler.Sends.{World}
use ratio.Doppler.Plans.{IsSettled, settle-IsFollowed}
use ratio.Doppler.Stakes.{IsPlaced, EndsWithSwap, place_stake-IsPlaced}
use ratio.Doppler.Rebuilt.{IsApart, Holds}
use ratio.Doppler.Restart.{refs_for-open_market}

abbrev derived : LaunchSeed → LaunchAddresses
derived s = record {
  config = codes "config";
  launch = 76 ∷ take 1 s.launch_id;
  launch_authority = codes "authority";
  launch_fee_state = codes "fees";
  metadata_account = codes "metadata";
}

abbrev sdk : Sdk
sdk = record {
  oracle_state_address = λ operator nonce. nonce ∷ operator;
  prediction_market_address = λ oracle quote. oracle ++ quote;
  pot_vault_address = λ market. codes "pot";
  market_authority_address = λ market. codes "authority";
  entry_address = λ market id. 69 ∷ take 1 id;
  entry_by_mint_address = λ market mint. 77 ∷ mint;
  launch_addresses = derived;
  associated_token = λ mint owner. mint ++ owner;
  register_payload = λ id. id;
  migrate_payload = λ id. id;
  remaining_accounts_hash = λ accounts. [];
  migrate_accounts = λ m. some (record { address = m.base_mint; role = readonly } ∷ []);
  table_addresses = λ ix. [];
  lookup_table = λ authority payer slot addresses. record {
    create_instruction = built authority;
    extend_instructions = [];
  };
  signature = λ tx. tx.blockhash;
  utf8 = λ t. t;
}

-- The first mint of a process that starts afresh, and the second.
abbrev node : Node
node = record {
  account_exists = λ h address. ok true;
  keypair = λ h. length h ∷ [];
  blockhash = λ h. ok (codes "hash");
  sign = λ h tx. ok tt;
  submit = λ h tx. ok tt;
  simulate = λ h tx. ok tt;
  slot = λ h c. ok (length h);
  entry_mint = λ h entry. ok (if entry == codes "EA" then 1 ∷ [] else 15 ∷ []);
  launch_vaults = λ h launch. ok (
      some (
        if launch == codes "LA"
        then record { base_vault = 2 ∷ []; quote_vault = 3 ∷ [] }
        else record { base_vault = 16 ∷ []; quote_vault = 17 ∷ [] }));
  balance = λ h address. ok 7000000;
  token_balance = λ h account. ok 5;
  token_accounts = λ h owner. ok (1 ∷ 2 ∷ []);
  plan_swap = λ h swap. ok (record {
    instructions = built (codes "ata") ∷ built swap.launch ∷ [];
    user_base_account = codes "base";
    user_quote_account = codes "quote";
  });
  labels_for = λ h id. ok (codes "A @a", codes "B @b");
}

abbrev rates : Rates
rates = record {
  native_to_usd = λ n. n;
  round_usd = λ n. n;
  usd_to_lamports = λ n. n;
  lamports_to_usd = λ n. n;
  paid_to_usd = λ n. n;
  implied = λ a t. 0;
}

abbrev config : Config
config = record {
  operator = codes "operator";
  wsol_mint = codes "wsol";
  swap_fee_bps = 125;
  lamports_per_usd = 1000;
  signer_for = λ t. ok t;
  address = λ t. ok t;
  big_int = λ s. ok 7;
  sponsor_address = some (codes "treasury");
}

abbrev opening : Opening
opening = record {
  nonce = "7";
  fee_beneficiaries = [];
  outcome_a = codes "A @a";
  outcome_b = codes "B @b";
}

abbrev fresh : World
fresh = record { store = record { refs_by_id = [] }; history = [] }

abbrev outcome : Text → ℕ → OutcomeRefs
outcome label mint = record {
  label = label;
  entry_id = pad_with 32 label;
  launch = 76 ∷ take 1 label;
  launch_authority = codes "authority";
  config = codes "config";
  base_mint = mint ∷ [];
  base_vault = (mint + 1) ∷ [];
  quote_vault = (mint + 2) ∷ [];
  launch_fee_state = codes "fees";
  entry_address = 69 ∷ take 1 label;
  entry_by_mint = 77 ∷ mint ∷ [];
}

abbrev refs : PairMarketRefs
refs = record {
  nonce = 7;
  quote_mint = codes "wsol";
  oracle_state = 7 ∷ codes "operator";
  market = 7 ∷ codes "operatorwsol";
  pot_vault = codes "pot";
  market_authority = codes "authority";
  outcome_a = outcome (codes "A @a") 1;
  outcome_b = outcome (codes "B @b") 15;
}

-- Names every definition that a launch computes with.
abbrev launching : Unit {0}
unfolding monad get set open_market params_of create_market market_addresses ensure_oracle
    launch_outcome outcome_refs entry_id_of metadata_of launch_of launch_instruction hashed_accounts
    keep_refs send_initialize_launch_with_lookup_table with_retry retry send_instructions
    send_instructions_once sign_instructions sign_message send_and_confirm send_compressed
    wait_for_slot_after
launching = tt

returned : (open_market sdk node rates config opening fresh).0 ≡ ok "7"
unfolding launching
returned = refl

known : get "7" (open_market sdk node rates config opening fresh).1.store.refs_by_id ≡ some refs
unfolding launching
known = refl

launches_apart : IsApart sdk node
unfolding launch_of
launches_apart = record {
  config_apart = λ m label mint d. refl;
  launch_apart = λ m label mint d. refl;
  authority_apart = λ m label mint d. refl;
  fees_apart = λ m label mint d. refl;
}

held_a : Holds sdk node refs.outcome_a
held_a = record { holds_mint = λ h. refl; holds_vaults = λ h. refl }

held_b : Holds sdk node refs.outcome_b
held_b = record { holds_mint = λ h. refl; holds_vaults = λ h. refl }

unknown : get "7" fresh.store.refs_by_id ≡ none
unfolding get
unknown = refl

abbrev knowing : World
knowing = record { store = record { refs_by_id = ("7", refs) ∷ [] }; history = [] }

known_there : get "7" knowing.store.refs_by_id ≡ some refs
unfolding get
known_there = refl

abbrev swap_ix : Swap → Ix
swap_ix swap = built swap.launch

swap_last : EndsWithSwap sdk node rates config swap_ix
swap_last h swap plan got = (built (codes "ata") ∷ [], cc got)

abbrev bet : Bet
bet = record { market_id = "7"; side = side_b; stake = usd 5; bettor = codes "bettor" }

refs_for-open_market_example :
    Ends
      (λ (res : Result PairMarketRefs) w.
        (res ≡ ok refs) × (get "7" w.store.refs_by_id ≡ some refs))
      (refs_for sdk node rates config "7")
      fresh
refs_for-open_market_example =
    refs_for-open_market sdk node rates config opening 7 "7" refs fresh fresh launches_apart refl
      refl returned known (λ h. refl) held_a held_b unknown

settle-IsFollowed_example :
    Ends
      (IsSettled sdk node rates config refs side_a knowing)
      (settle sdk node rates config "7" side_a)
      knowing
settle-IsFollowed_example =
    settle-IsFollowed sdk node rates config "7" side_a refs knowing known_there

place_stake-IsPlaced_example :
    Ends
      (IsPlaced sdk node rates config swap_ix refs side_b
        (amount_in sdk node rates config (usd 5))
        (codes "bettor")
        knowing)
      (place_stake sdk node rates config bet)
      knowing
place_stake-IsPlaced_example =
    place_stake-IsPlaced sdk node rates config swap_ix bet (codes "bettor") refs knowing swap_last
      known_there refl

-- The bet that the sponsor pays for is confirmed.
placed : (place_stake sdk node rates config bet knowing).0 ≡ ok (0, codes "hash")
unfolding monad get place_stake refs_for sponsor place_bet bet_instructions swap_of with_retry retry
    send_instructions send_instructions_once sign_instructions sign_message send_and_confirm
placed = refl
