-- ===== src/Doppler/Trades.antt =====
-- Bets, settlement, claims and odds of a two-tweet market (packages/doppler/src/pairMarket.ts).
use ratio.Base.{
  ℕ, ◌+◌, false, Option, none, some, List, [], ◌∷◌, ◌++◌, map, or_else, nat_eq, ◌==◌, if◌then◌else◌,
}
use ratio.Base.Int.{ℤ, sub_ℕ}
use ratio.Texts.{Text}
use ratio.Flow.{◌>>=◌, pure, call, catch, branch, both}
use ratio.Store.Records.{Side}
use ratio.Doppler.Node.{
  MigrateLaunch, Claim, Ix, transfer_sol, sync_native, finalize, migrate_launch, claim,
  close_account, Swap, SwapPlan, Sdk, asked_balance, asked_token_balance, planned_swap, Node,
  OutcomeRefs, PairMarketRefs, at_side, Dop,
}
use ratio.Doppler.Tx.{with_retry, send_instructions}
use ratio.Doppler.Markets.{OddsView, Stake, Placed, before_last, writable_mint, remaining_accounts}

abbrev pub outcome_of : PairMarketRefs → Side → OutcomeRefs
outcome_of refs side = at_side side refs.outcome_a refs.outcome_b

-- The swap that is asked of the SDK; it never wraps.
unfoldable pub swap_of : Stake → Swap
swap_of s =
    let side = outcome_of s.refs s.side in
    record {
      launch = side.launch;
      launch_authority = side.launch_authority;
      base_vault = side.base_vault;
      quote_vault = side.quote_vault;
      launch_fee_state = side.launch_fee_state;
      base_mint = side.base_mint;
      quote_mint = s.refs.quote_mint;
      payer = or_else s.rent_payer s.bettor;
      user = s.bettor;
      amount_in = s.amount_in;
      min_amount_out = or_else s.min_amount_out 0;
      remaining_accounts = s.refs.oracle_state ∷ [];
      wrap_sol = false;
    }

-- Where the quote is wrapped SOL, the bettor's stake is moved right before the swap.
unfoldable pub bet_instructions : Stake → SwapPlan → List Ix
bet_instructions s plan =
    if s.wrap_sol
    then before_last
        (transfer_sol s.bettor plan.user_quote_account s.amount_in
          ∷ sync_native plan.user_quote_account
          ∷ [])
        plan.instructions
    else plan.instructions

unfoldable pub claim_of : PairMarketRefs → Side → Text → Text → Text → ℕ → Claim
claim_of refs winner claimer winner_ata quote_ata amount =
    let side = outcome_of refs winner in
    record {
      market = refs.market;
      pot_vault = refs.pot_vault;
      winner_mint = side.base_mint;
      quote_mint = refs.quote_mint;
      entry_by_mint = side.entry_by_mint;
      claimer_winner_ata = winner_ata;
      claimer_quote_ata = quote_ata;
      claimer = claimer;
      payer = claimer;
      burn_amount = amount;
    }

unfoldable pub migrate_of : Text → PairMarketRefs → OutcomeRefs → MigrateLaunch
migrate_of operator refs side = record {
  config = side.config;
  launch = side.launch;
  launch_authority = side.launch_authority;
  base_mint = side.base_mint;
  quote_mint = refs.quote_mint;
  base_vault = side.base_vault;
  quote_vault = side.quote_vault;
  launch_fee_state = side.launch_fee_state;
  payer = operator;
}

pub record Resolved : Type 0 where
  pub finalize_sig : Text
  pub migrate_sigs : Text × Text

pub record Payout : Type 0 where
  pub signature : Text
  pub paid_lamports : ℤ

module _ (sdk : Sdk) (node : Node) where
  unfoldable pub place_bet : Stake → Dop Placed
  place_bet s = do
    plan ← call (planned_swap (swap_of s)) (λ h. node.plan_swap h (swap_of s))
    signature ← send_instructions sdk node (or_else s.rent_payer s.bettor) (bet_instructions s plan)
    pure (record {
      signature = signature;
      outcome_token_account = plan.user_base_account;
      quote_token_account = plan.user_quote_account;
    })

  -- The base mint becomes writable, and the accounts of the market follow.
  unfoldable pub migrate_instruction : Text → PairMarketRefs → OutcomeRefs → Ix
  migrate_instruction operator refs side =
      let m = migrate_of operator refs side in
      migrate_launch m (
        map (writable_mint side.base_mint) (or_else (sdk.migrate_accounts m) [])
        ++ remaining_accounts refs side)

  unfoldable pub resolve_and_migrate : Text → PairMarketRefs → Side → Dop Resolved
  resolve_and_migrate operator refs winner = do
    finalized ←
        send_instructions sdk node operator
          (finalize operator refs.oracle_state (outcome_of refs winner).base_mint ∷ [])
    a ← send_instructions sdk node operator (migrate_instruction operator refs refs.outcome_a ∷ [])
    b ← send_instructions sdk node operator (migrate_instruction operator refs refs.outcome_b ∷ [])
    pure (record { finalize_sig = finalized; migrate_sigs = (a, b) })

  -- `RatioMarketClient.claim`
  unfoldable pub claim_winnings : PairMarketRefs → Side → Text → Text → Text → ℕ → Dop Text
  claim_winnings refs winner claimer winner_ata quote_ata amount =
      send_instructions sdk node claimer
        (claim (claim_of refs winner claimer winner_ata quote_ata amount) ∷ [])

  abbrev pub get_balance : Text → Dop ℕ
  get_balance address = call (asked_balance address) (λ h. node.balance h address)

  abbrev pub get_token_balance : Text → Dop ℕ
  get_token_balance account = call (asked_token_balance account) (λ h. node.token_balance h account)

  -- The claim, and the close that unwraps what it pays.
  unfoldable pub payout_instructions : PairMarketRefs → Side → Text → ℕ → List Ix
  payout_instructions refs winner claimer amount =
      let quote_ata = sdk.associated_token refs.quote_mint claimer in
      claim (
        claim_of refs winner claimer
          (sdk.associated_token (outcome_of refs winner).base_mint claimer) quote_ata amount)
      ∷ close_account quote_ata claimer claimer
      ∷ []

  unfoldable pub claim_and_unwrap : PairMarketRefs → Side → Text → Dop (Option Payout)
  claim_and_unwrap refs winner claimer = do
    amount ←
        catch (get_token_balance (sdk.associated_token (outcome_of refs winner).base_mint claimer))
          (λ _. pure 0)
    branch (amount == 0) (pure none) (do
      before ← get_balance claimer
      signature ←
          send_instructions sdk node claimer (payout_instructions refs winner claimer amount)
      after ← get_balance claimer
      pure (some (record { signature = signature; paid_lamports = sub_ℕ after before })))

  -- The share of side A in the pot; a half where it is empty.
  unfoldable pub read_odds : (ℕ → ℕ → ℕ) → PairMarketRefs → Dop OddsView
  read_odds implied refs = do
    (a, b) ←
        both (with_retry (get_token_balance refs.outcome_a.quote_vault))
          (with_retry (get_token_balance refs.outcome_b.quote_vault))
    pure (record {
      raised_a = a;
      raised_b = b;
      implied_0 = if a + b == 0 then 500000 else implied a (a + b);
    })
