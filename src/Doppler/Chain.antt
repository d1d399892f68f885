-- ===== src/Doppler/Chain.antt =====
-- `DopplerMarketChain` (packages/chain/src/solana.ts): the market behind the chain's interface.
use ratio.Base.{
  ℕ, ◌+◌, ◌*◌, Bool, true, ◌&&◌, ◌||◌, Option, none, some, List, [], ◌∷◌, String, take, length, leb,
  ltb, string_eq, nat_eq,
}
use ratio.Base.Maps.{get, set}
use ratio.Base.Int.{ℤ}
use ratio.Texts.{Text, codes}
use ratio.Flow.{
  Result, ok, throw, ◌>>=◌, ◌>>◌, pure, reads, writes, call, catch, branch, cases, rethrow,
}
use ratio.Store.Records.{Side}
use ratio.Engine.World.{Stake, usd, native}
use ratio.Doppler.Node.{
  FeeBeneficiary, transfer_sol, Sdk, asked_token_accounts, asked_labels, Node, Known,
  PairMarketRefs, Dop,
}
use ratio.Doppler.Tx.{send_instructions}
use ratio.Doppler.Markets.{PairMarketParams, create_market, recover_refs}
use ratio.Doppler.Trades.{place_bet, resolve_and_migrate, get_balance, claim_and_unwrap, read_odds}

-- The floating-point numbers, as in the other chain: millionths of a dollar, and units of 10⁻¹⁸ of
-- the native currency.
pub record Rates : Type 0 where
  -- (stake.native * 1e9) / Number(lamportsPerUsd)
  pub native_to_usd : ℕ → ℕ
  -- Math.round of an amount in dollars, and of one in lamports.
  pub round_usd : ℕ → ℕ
  pub usd_to_lamports : ℕ → ℕ
  pub lamports_to_usd : ℕ → ℕ
  pub paid_to_usd : ℤ → ℤ
  pub implied : ℕ → ℕ → ℕ

pub record Config : Type 0 where
  -- The address of the operator, which also signs for the market client.
  pub operator : Text
  pub wsol_mint : Text
  pub swap_fee_bps : ℕ
  pub lamports_per_usd : ℕ
  -- The address of the signer for a wallet, and `address(…)` of a text.
  pub signer_for : Text → Result Text
  pub address : Text → Result Text
  -- `BigInt(…)` of an identifier.
  pub big_int : String → Result ℕ
  pub sponsor_address : Option Text

pub record Opening : Type 0 where
  pub nonce : String
  pub fee_beneficiaries : List FeeBeneficiary
  pub outcome_a : Text
  pub outcome_b : Text

pub record Bet : Type 0 where
  pub market_id : String
  pub side : Side
  pub stake : ratio.Engine.World.Stake
  pub bettor : Text

pub record Odds : Type 0 where
  pub implied_a : ℕ
  pub raised_usd : ℕ × ℕ

abbrev pub lift : {A : Type 0} → Result A → Dop A
lift (ok a) = pure a
lift (throw e) = rethrow e

-- `/[1-9A-HJ-NP-Za-km-z]/`
abbrev pub is_base58 : ℕ → Bool
is_base58 c =
    (leb 49 c && leb c 57)
    || ((leb 65 c && leb c 72)
        || ((leb 74 c && leb c 78)
            || ((leb 80 c && leb c 90) || ((leb 97 c && leb c 107) || (leb 109 c && leb c 122)))))

abbrev pub all_base58 : Text → Bool
all_base58 [] = true
all_base58 (c ∷ cs) = is_base58 c && all_base58 cs

unfoldable pub is_valid_address : Text → Bool
is_valid_address t = leb 32 (length t) && (leb (length t) 44 && all_base58 t)

-- `address` of every beneficiary's wallet.
abbrev pub addressed : (Text → Result Text) → List FeeBeneficiary → Dop (List FeeBeneficiary)
addressed f [] = pure []
addressed f (b ∷ bs) = do
  wallet ← lift (f b.wallet)
  rest ← addressed f bs
  pure (record { wallet = wallet; share_bps = b.share_bps } ∷ rest)

abbrev pub sum : List ℕ → ℕ
sum [] = 0
sum (x ∷ xs) = x + sum xs

unfoldable pub keep_refs : String → PairMarketRefs → Known → Known
keep_refs market_id refs k = record k { refs_by_id = set market_id refs k.refs_by_id }

-- An empty address counts as none.
abbrev pub given : Option Text → Option Text
given (some (c ∷ cs)) = some (c ∷ cs)
given _ = none

-- What a sponsor must hold to sponsor a bet.
abbrev pub headroom : ℕ
headroom = 6000000

module _ (sdk : Sdk) (node : Node) (rates : Rates) (config : Config) where
  unfoldable pub sponsor : Dop (Option Text)
  sponsor = cases (given config.sponsor_address) (pure none) λ addr.
      catch
        (do
          a ← lift (config.address addr)
          value ← get_balance sdk node a
          branch (ltb value headroom) (pure none)
              (do signer ← lift (config.signer_for addr); pure (some signer)))
        (λ _. pure none)

  unfoldable pub params_of : Opening → ℕ → List FeeBeneficiary → PairMarketParams
  params_of o nonce beneficiaries = record {
    nonce = nonce;
    outcome_a = record { label = take 32 o.outcome_a; symbol = codes "RTOA"; metadata_uri = none };
    outcome_b = record { label = take 32 o.outcome_b; symbol = codes "RTOB"; metadata_uri = none };
    quote_mint = config.wsol_mint;
    swap_fee_bps = config.swap_fee_bps;
    fee_beneficiaries = beneficiaries;
    curve_virtual_quote = none;
    base_decimals = none;
    base_total_supply = none;
  }

  unfoldable pub open_market : Opening → Dop String
  open_market o = do
    nonce ← lift (config.big_int o.nonce)
    beneficiaries ← addressed config.address o.fee_beneficiaries
    refs ← create_market sdk node config.operator (params_of o nonce beneficiaries)
    writes (keep_refs o.nonce refs)
    pure o.nonce

  -- The refs of a market that this process has not seen.
  unfoldable pub recover : String → Dop PairMarketRefs
  recover market_id = do
    labels ← call (asked_labels market_id) (λ h. node.labels_for h market_id)
    operator ← lift (config.address config.operator)
    nonce ← lift (config.big_int market_id)
    refs ← recover_refs sdk node operator nonce config.wsol_mint labels
    writes (keep_refs market_id refs)
    pure refs

  unfoldable pub refs_for : String → Dop PairMarketRefs
  refs_for market_id = do
    hit ← reads (λ k. get market_id k.refs_by_id)
    cases hit (recover market_id) (λ refs. pure refs)

  unfoldable pub stake_usd : ratio.Engine.World.Stake → ℕ
  stake_usd (usd amount) = amount
  stake_usd (native amount) = rates.native_to_usd amount

  -- The lamports that are bet: the dollars are rounded to a whole number first.
  unfoldable pub amount_in : ratio.Engine.World.Stake → ℕ
  amount_in s = rates.round_usd (stake_usd s) * config.lamports_per_usd

  -- The tokens of a bet are not reported: zero stands for them.
  unfoldable pub place_stake : Bet → Dop (ℕ × Text)
  place_stake b = do
    refs ← refs_for b.market_id
    bettor ← lift (config.signer_for b.bettor)
    rent_payer ← sponsor
    placed ← place_bet sdk node (record {
      refs = refs;
      side = b.side;
      amount_in = amount_in b.stake;
      bettor = bettor;
      min_amount_out = none;
      wrap_sol = true;
      rent_payer = rent_payer;
    })
    pure (0, placed.signature)

  unfoldable pub preview_stake : Bet → Dop (ℕ × ℕ)
  preview_stake b =
      rethrow "previewStake: wire previewSwapExactIn simulation before exposing quotes"

  unfoldable pub get_odds : String → Dop Odds
  get_odds market_id = do
    refs ← refs_for market_id
    view ← read_odds sdk node rates.implied refs
    pure (record {
      implied_a = view.implied_0;
      raised_usd = (rates.lamports_to_usd view.raised_a, rates.lamports_to_usd view.raised_b);
    })

  unfoldable pub balance_usd : Text → Dop ℕ
  balance_usd wallet = do
    a ← lift (config.address wallet)
    value ← get_balance sdk node a
    pure (rates.lamports_to_usd value)

  unfoldable pub reserved_usd : Text → Dop ℕ
  reserved_usd wallet = do
    a ← lift (config.address wallet)
    accounts ← call (asked_token_accounts a) (λ h. node.token_accounts h a)
    pure (rates.lamports_to_usd (sum accounts))

  unfoldable pub transfer_usd : Text → Text → ℕ → Dop Text
  transfer_usd from to amount = do
    signer ← lift (config.signer_for from)
    destination ← lift (config.address to)
    send_instructions sdk node signer
        (transfer_sol signer destination (rates.usd_to_lamports amount) ∷ [])

  unfoldable pub settle : String → Side → Dop Side
  settle market_id winner = do
    refs ← refs_for market_id
    _ ← resolve_and_migrate sdk node config.operator refs winner
    pure winner

  unfoldable pub claim_for : String → Side → Text → Dop (Option ℤ)
  claim_for market_id winner bettor = do
    refs ← refs_for market_id
    claimer ← lift (config.signer_for bettor)
    result ← claim_and_unwrap sdk node refs winner claimer
    cases result (pure none) (λ p. pure (some (rates.paid_to_usd p.paid_lamports)))
