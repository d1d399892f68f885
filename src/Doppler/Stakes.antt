-- ===== src/Doppler/Stakes.antt =====
-- What a bet on Solana submits (`placeBet` of packages/chain/src/solana.ts and of
-- packages/doppler/src/pairMarket.ts).
use ratio.Base.{
  ℕ, ◌≡◌, ◌⊎◌, inl, inr, refl, ◌∙◌, ap, true, false, Option, none, some, List, [], ◌∷◌, ◌++◌,
  string_eq, or_else,
}
use ratio.Base.Maps.{get}
use ratio.Texts.{Text}
use ratio.Flow.{Result, ok, throw}
use ratio.Flow.Ends.{Ends, after, Ends-pure, Ends-ask, Ends-bind}
use ratio.Store.Records.{Side, side_a, side_b}
use ratio.Doppler.Node.{
  Ix, Transaction, transfer_sol, sync_native, planned_swap, Swap, SwapPlan, Sdk, Calls, Node,
  PairMarketRefs, OutcomeRefs,
}
use ratio.Doppler.Markets.{Stake, Placed, before_last}
use ratio.Doppler.Trades.{outcome_of, swap_of, bet_instructions, place_bet}
use ratio.Doppler.Chain.{Rates, Config, Bet, amount_in, place_stake}
use ratio.Doppler.Sponsors.{
  Pays, Sponsored, Sponsors, sponsor-Sponsors, payer_of, quiet_sponsor, no_error,
}
use ratio.Doppler.Sends.{World, submissions, Attempted, Delivered, Sends, Quiet, send-Sends}
use ratio.Doppler.Plans.{lift-known, known-refs}

pub before_last-append :
    {A : Type 0} (new front : List A) (x : A)
    → before_last new (front ++ x ∷ []) ≡ front ++ (new ++ x ∷ [])
before_last-append new [] x = refl
before_last-append new (y ∷ []) x = refl
before_last-append new (y ∷ z ∷ front) x = ap (λ l. y ∷ l) (before_last-append new (z ∷ front) x)

module _ (sdk : Sdk) (node : Node) (rates : Rates) (config : Config) where
  -- The SDK's list of a swap ends with the swap.
  abbrev pub EndsWithSwap : (Swap → Ix) → Type 0
  EndsWithSwap swap_ix =
      (h : Calls) (swap : Swap) (plan : SwapPlan)
      → node.plan_swap h swap ≡ ok plan
      → (front : List Ix) × (plan.instructions ≡ front ++ swap_ix swap ∷ [])

  abbrev pub IsOutcome : PairMarketRefs → Side → OutcomeRefs → Type 0
  IsOutcome refs side_a outcome = outcome ≡ refs.outcome_a
  IsOutcome refs side_b outcome = outcome ≡ refs.outcome_b

  -- The instructions of a bet: a swap on the curve of the side, by the bettor, and right before it
  -- the stake, which leaves the bettor's wallet for the account that the swap pays from.
  pub record IsBet (swap_ix : Swap → Ix) (refs : PairMarketRefs) (side : Side) (amount : ℕ)
      (bettor payer : Text) (ixs : List Ix) : Type 0 where
    pub outcome : OutcomeRefs
    pub chosen : IsOutcome refs side outcome
    pub request : Swap
    pub requested : request ≡ record {
      launch = outcome.launch;
      launch_authority = outcome.launch_authority;
      base_vault = outcome.base_vault;
      quote_vault = outcome.quote_vault;
      launch_fee_state = outcome.launch_fee_state;
      base_mint = outcome.base_mint;
      quote_mint = refs.quote_mint;
      payer = payer;
      user = bettor;
      amount_in = amount;
      min_amount_out = 0;
      remaining_accounts = refs.oracle_state ∷ [];
      wrap_sol = false;
    }
    pub at : Calls
    pub plan : SwapPlan
    pub planned : node.plan_swap at request ≡ ok plan
    pub front : List Ix
    pub listed : plan.instructions ≡ front ++ swap_ix request ∷ []
    pub moved :
        ixs
        ≡ front
          ++ (transfer_sol bettor plan.user_quote_account amount
              ∷ sync_native plan.user_quote_account
              ∷ swap_ix request
              ∷ [])

  -- The client's report of a bet is the chain's, but for the tokens.
  reported : Result Placed → Result (ℕ × Text)
  reported (ok p) = ok (0, p.signature)
  reported (throw e) = throw e

  -- What a bet submits, one who pays for it, and how that ends.
  abbrev Submits :
      (Swap → Ix)
      → PairMarketRefs
      → Side
      → ℕ
      → Text
      → World
      → World
      → (Text → List Ix → List Transaction → Type 0)
      → Type 0
  Submits swap_ix refs side amount bettor v w How =
      (payer : Text) × (ixs : List Ix) × (txs : List Transaction) × Pays sdk node rates config
        bettor payer
      × IsBet swap_ix refs side amount bettor payer ixs
      × How payer ixs txs
      × (submissions w.history ≡ txs ++ submissions v.history)

  abbrev pub IsPlaced :
      (Swap → Ix) → PairMarketRefs → Side → ℕ → Text → World → Result (ℕ × Text) → World → Type 0
  IsPlaced swap_ix refs side amount bettor v (ok (tokens, signature)) w =
      (tokens ≡ 0)
      × Submits swap_ix refs side amount bettor v w
          (λ payer ixs txs. Delivered sdk node payer ixs 4 signature txs)
  IsPlaced swap_ix refs side amount bettor v (throw e) w =
      Quiet sdk node v w
      ⊎ Submits swap_ix refs side amount bettor v w
          (λ payer ixs txs. Attempted sdk node payer ixs 4 txs)

  abbrev stake_of : PairMarketRefs → ℕ → Text → Side → Option Text → Stake
  stake_of refs amount bettor side rent_payer = record {
    refs = refs;
    side = side;
    amount_in = amount;
    bettor = bettor;
    min_amount_out = none;
    wrap_sol = true;
    rent_payer = rent_payer;
  }

  outcome_of-IsOutcome :
      (refs : PairMarketRefs) (side : Side) → IsOutcome refs side (outcome_of refs side)
  outcome_of-IsOutcome refs side_a = refl
  outcome_of-IsOutcome refs side_b = refl

  IsBet-planned :
      (swap_ix : Swap → Ix) (refs : PairMarketRefs) (side : Side) (amount : ℕ) (bettor : Text)
      (o : Option Text) (at : Calls) (plan : SwapPlan)
      → EndsWithSwap swap_ix
      → node.plan_swap at (swap_of (stake_of refs amount bettor side o)) ≡ ok plan
      → IsBet swap_ix refs side amount bettor
          (or_else o bettor)
          (bet_instructions (stake_of refs amount bettor side o) plan)
  unfolding bet_instructions swap_of
  IsBet-planned swap_ix refs side amount bettor o at plan swaps got =
      let (front, same) = swaps at _ plan got in
      record {
        outcome = outcome_of refs side;
        chosen = outcome_of-IsOutcome refs side;
        request = swap_of (stake_of refs amount bettor side o);
        requested = refl;
        at = at;
        plan = plan;
        planned = got;
        front = front;
        listed = same;
        moved = ap (before_last _) same ∙ before_last-append _ front _;
      }

  place_bet-IsPlaced :
      (swap_ix : Swap → Ix) (refs : PairMarketRefs) (side : Side) (amount : ℕ) (bettor : Text)
      (o : Option Text) (v : World)
      → EndsWithSwap swap_ix
      → Sponsored sdk node rates config o
      → Ends
          (λ (res : Result Placed). IsPlaced swap_ix refs side amount bettor v (reported res))
          (place_bet sdk node (stake_of refs amount bettor side o))
          v
  unfolding place_bet reported
  place_bet-IsPlaced swap_ix refs side amount bettor o v swaps sponsored =
      let P = λ (res : Result Placed). IsPlaced swap_ix refs side amount bettor v (reported res) in
      let s = stake_of refs amount bettor side o in
      let payer = or_else o bettor in
      let pays = payer_of sdk node rates config bettor o sponsored in
      Ends-ask P _ _ _ _ (λ _ _. inl refl)
        λ plan got.
          let ixs = bet_instructions s plan in
          let bet = IsBet-planned swap_ix refs side amount bettor o v.history plan swaps got in
          let u = after (planned_swap (swap_of s)) v in
          Ends-bind P {Q = Sends sdk node payer ixs 4 u} _ _ _ (send-Sends sdk node payer ixs u)
            (λ e u q. inr (payer, ixs, q.0, pays, bet, q.1, q.2))
            λ signature u q. Ends-pure P _ _ (refl, (payer, ixs, q.0, pays, bet, q.1, q.2))

  later :
      (swap_ix : Swap → Ix) (refs : PairMarketRefs) (side : Side) (amount : ℕ) (bettor : Text)
      (v u : World) (res : Result (ℕ × Text)) (w : World)
      → Quiet sdk node v u
      → IsPlaced swap_ix refs side amount bettor u res w
      → IsPlaced swap_ix refs side amount bettor v res w
  later swap_ix refs side amount bettor v u (ok (tokens, signature)) w q
        (z, (payer, ixs, txs, pays, bet, d, added)) =
      (z, (payer, ixs, txs, pays, bet, d, added ∙ ap (λ l. txs ++ l) q))
  later swap_ix refs side amount bettor v u (throw e) w q (inl same) = inl (same ∙ q)
  later swap_ix refs side amount bettor v u (throw e) w q
        (inr (payer, ixs, txs, pays, bet, d, added)) =
      inr (payer, ixs, txs, pays, bet, d, added ∙ ap (λ l. txs ++ l) q)

  -- A bet on Solana in a market that the process knows, where the SDK's list of a swap ends with the
  -- swap that it builds from the request. Every submitted transaction carries the same instructions:
  -- the SDK's for a buy of the side that was bet on, with its launch, vaults and mint, by the bettor
  -- and for the stake's lamports, in which, right before the swap, those lamports leave the
  -- bettor's own wallet for the account that the plan names for the quote. They are paid for by the
  -- bettor or by a sponsor whose balance the node gave as at least the headroom. At most four are
  -- submitted, and each before the last was answered by an error; where the bet returns, the last was
  -- confirmed, its signature is the result and the tokens are reported as zero, and where it throws,
  -- none was submitted or each was answered by an error.
  pub place_stake-IsPlaced :
      (swap_ix : Swap → Ix) (b : Bet) (bettor : Text) (refs : PairMarketRefs) (v : World)
      → EndsWithSwap swap_ix
      → get b.market_id v.store.refs_by_id ≡ some refs
      → config.signer_for b.bettor ≡ ok bettor
      → Ends
          (IsPlaced swap_ix refs b.side (amount_in sdk node rates config b.stake) bettor v)
          (place_stake sdk node rates config b)
          v
  unfolding place_stake
  place_stake-IsPlaced swap_ix b bettor refs v swaps known signs =
      let amount = amount_in sdk node rates config b.stake in
      let P = IsPlaced swap_ix refs b.side amount bettor v in
      known-refs sdk node rates config P b.market_id refs _ v known (
        lift-known P _ bettor _ _ signs (
          Ends-bind P {Q = Sponsors sdk node rates config v} _ _ _
            (sponsor-Sponsors sdk node rates config v)
            (λ e u q. no_error sdk node rates config v u e q)
            λ o u q.
              let r = quiet_sponsor sdk node rates config v u o q in
              let again = later swap_ix refs b.side amount bettor v u in
              Ends-bind P
                {Q = λ (res : Result Placed).
                  IsPlaced swap_ix refs b.side amount bettor u (reported res)}
                _ _ _ (place_bet-IsPlaced swap_ix refs b.side amount bettor o u swaps r.1)
                (λ e w i. again (throw e) w r.0 (unfold reported in i))
                λ p w i.
                  Ends-pure P _ _ (again (ok (0, p.signature)) w r.0 (unfold reported in i))))
