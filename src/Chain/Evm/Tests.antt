-- ===== src/Chain/Evm/Tests.antt =====
-- `EvmMarketChain` (packages/chain/src/evm/index.ts) on a node that answers every call: one market,
-- whose entries are tokens ending in 1 and 2.
use ratio.Base.{ℕ, ◌^◌, ◌≡◌, refl, ◌-◌, Bool, true, false, none, some, [], ◌∷◌}
use ratio.Base.Maps.{get}
use ratio.Texts.{Text, codes}
use ratio.Store.Records.{side_a, side_b}
use ratio.Flow.{Result, ok}
use ratio.Engine.World.{usd, native}
use ratio.Chain.Evm.Node.{Log, Receipt, Calls, slept, Node, Host, EvmConfig, Opening, Bet}
use ratio.Chain.Evm.Logs.{transfer_topic}
use ratio.Chain.Evm.Markets.{create_market, place_bet, preview_stake}
use ratio.Chain.Evm.Settle.{migrate_all, settle, claim_for}
use ratio.Chain.Evm.Trace.{World, sent}
use ratio.Chain.Evm.Verdict.{IsSettled, settle-IsSettled}
use ratio.Chain.Evm.Claims.{IsClaimed, claim_for-IsClaimed}
use ratio.Chain.Evm.Openings.{IsOpened, create_market-IsOpened}
use ratio.Chain.Evm.Stakes.{IsStaked, place_bet-IsStaked, IsQuoted, preview_stake-IsQuoted}
use ratio.Chain.Evm.Verdict.{standing_side}
use ratio.Chain.Evm.Progress.{settle-settles}
use ratio.Chain.Evm.Patience.{IsOver, migrate_all-IsOver}

abbrev airlock : Text
airlock = codes "0xaa096f558f3d4c9226de77e7cc05f18e180b2544"

abbrev migrator : Text
migrator = codes "0x00000000000000000000000000000000000000f1"

abbrev operator : Text
operator = codes "0x00000000000000000000000000000000000000aB"

abbrev bettor : Text
bettor = codes "0x00000000000000000000000000000000000000Be"

abbrev oracle : Text
oracle = codes "0x000000000000000000000000000000000000000c"

abbrev token_a : Text
token_a = codes "0x0000000000000000000000000000000000000001"

abbrev token_b : Text
token_b = codes "0x0000000000000000000000000000000000000002"

abbrev claimed_topic : Text
claimed_topic = codes "0xc1"

-- A credit of 32 tokens of side A to the bettor.
abbrev credit : Log
credit = record {
  address = token_a;
  topics =
      transfer_topic
      ∷ codes "0x00"
      ∷ codes "0x00000000000000000000000000000000000000000000000000000000000000be"
      ∷ [];
  payload = codes "0x20";
}

abbrev created : Log
created = record { address = airlock; topics = []; payload = codes "0x" }

abbrev receipt_of : Text → Receipt
receipt_of hash = record { success = true; transaction_hash = hash; logs = credit ∷ created ∷ [] }

-- Finality is read on the second look.
abbrev seen_final : Calls → Result Bool
seen_final [] = ok false
seen_final (slept ms ∷ h) = ok true
seen_final (c ∷ h) = seen_final h

abbrev node : Node
node = record {
  eth_usd = λ h. ok 4000000000;
  now = λ h. 1700000000500;
  owner = λ h. ok airlock;
  raised_wei = λ h market. ok (3, 1);
  predict_oracle = λ h market. ok oracle;
  entry_token = λ h o side. elim side [ side_a ↦ ok token_a | side_b ↦ ok token_b ];
  get_winner = λ h o. ok (token_b, false);
  is_finalized = λ h o. seen_final h;
  preview_claim = λ h o amount. ok amount;
  allowance = λ h token owner spender. ok 1000;
  token_balance = λ h token owner. ok 32;
  balance = λ h address. ok 7;
  simulate_swap = λ h token wei. ok (2 ^ 128 - 5);
  write = λ h account tx. ok (codes "0xbeef");
  wait = λ h hash. ok (receipt_of hash);
}

abbrev host : Host
host = record {
  usd_to_wei = λ dollars price. dollars;
  native_to_wei = λ wei. wei;
  native_to_usd = λ wei price. wei;
  wei_to_usd = λ wei price. wei;
  implied = λ part total. part;
  to_number = λ n. n;
  prefix = λ n label. label;
  decode_create = λ log. some token_a;
  claimed_topic = claimed_topic;
}

abbrev config : EvmConfig
config = record {
  addresses = record {
    airlock = airlock;
    prediction_migrator = migrator;
    swap_router = codes "0xdd";
  };
  operator = operator;
  signer_for = λ wallet. wallet;
  market_duration_ms = 86400000;
}

abbrev start : World
start = record { store = record { tokens_by_market = []; wallets = [] }; history = [] }

abbrev opening : Opening
opening = record {
  nonce = "77";
  fee_beneficiaries =
      record { wallet = airlock; share_bps = some 500 }
      ∷ record { wallet = operator; share_bps = some 9500 }
      ∷ [];
  outcome_a = "ann";
  outcome_b = "bob";
  settles_at_ms = none;
}

abbrev stake : Bet
stake = record { market_id = "77"; side = side_a; stake = usd 25000000; bettor = bettor }

settle-IsSettled_example :
    let (res, w) = settle node host config "77" side_a start in
    IsSettled node host config side_a start res w
settle-IsSettled_example = settle-IsSettled node host config "77" side_a start

claim_for-IsClaimed_example :
    let (res, w) = claim_for node host config "77" side_a bettor start in
    IsClaimed node host config "77" side_a bettor start start res w
claim_for-IsClaimed_example = claim_for-IsClaimed node host config "77" side_a bettor start

create_market-IsOpened_example :
    let (res, w) = create_market node host config opening start in
    IsOpened node host config opening start res w
create_market-IsOpened_example = create_market-IsOpened node host config opening start

place_bet-IsStaked_example :
    let (res, w) = place_bet node host config stake start in
    IsStaked node host config stake start res w
place_bet-IsStaked_example = place_bet-IsStaked node host config stake start

preview_stake-IsQuoted_example :
    let (res, w) = preview_stake node host config "77" side_b (native 9) start in
    (sent w.history ≡ [])
    × ((n : ℕ) → res ≡ ok n → IsQuoted node host config "77" side_b (native 9) start n)
preview_stake-IsQuoted_example =
    preview_stake-IsQuoted node host config "77" side_b (native 9) start

migrate_all-IsOver_example :
    let (res, w) = migrate_all node host config oracle (token_a, token_b) side_a start in
    IsOver node oracle 30 start res w
migrate_all-IsOver_example =
    migrate_all-IsOver node host config oracle (token_a, token_b) side_a start

-- The market is known, and its oracle reads final.
abbrev known_start : World
known_start = record {
  store = record { tokens_by_market = ("77", (token_a, token_b)) ∷ []; wallets = [] };
  history = [];
}

abbrev ready_node : Node
ready_node = record node { is_finalized = λ h o. ok true }

settle-settles_example :
    (settle ready_node host config "77" side_a known_start).0
    ≡ ok (standing_side (token_a, token_b) side_a (token_b, false))
unfolding get
settle-settles_example =
    settle-settles ready_node host config "77" side_a oracle (token_a, token_b) (token_b, false)
      known_start refl (λ h. refl) (λ h. refl)
      (λ undeclared. ((λ h. (codes "0xbeef", refl)), (λ h hash. (receipt_of hash, refl, refl))))
      (λ h. refl) (λ h. (1, refl))
