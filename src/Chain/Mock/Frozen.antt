-- ===== src/Chain/Mock/Frozen.antt =====
-- A settled market of `MockMarketChain` (packages/chain/src/index.ts) stays as it is.
use ratio.Base.{
  ℕ, ◌≡◌, refl, subst, Bool, true, false, some, List, String, string_eq, if◌then◌else◌, inl, inr,
  All, Option-cases, beq_self,
}
use ratio.Base.Maps.{get, set, get-set}
use ratio.Flow.{ok, throw}
use ratio.Store.Records.{Side}
use ratio.Chain.Mock.{
  Floats, is_open, is_settled, State, MockMarket, Mock, Bet, Answer, if_open, place_bet, settle,
  claim_quote, share_of,
}
use ratio.Chain.Mock.Steps.{Op, Spares, play, play-kept}

module _ (floats : Floats) (swap_fee_bps : ℕ) where
  -- What a settled market answers.
  pub record IsFrozen (id : String) (winner : Side) (m : MockMarket) (c : Mock) : Type 0 where
    pub found : get id c.markets ≡ some m
    pub winner_kept : m.winner ≡ some winner
    pub no_bets :
        (b : Bet)
        → b.market_id ≡ id
        → place_bet floats swap_fee_bps b c ≡ (throw "market not open", c)
    pub no_verdict :
        (side : Side) → settle floats swap_fee_bps id side c ≡ (throw "market not open", c)
    pub pays :
        (burned : ℕ)
        → claim_quote floats swap_fee_bps id burned c
          ≡ (ok (share_of floats swap_fee_bps m winner burned), c)

  frozen :
      (id : String) (winner : Side) (m : MockMarket) (c : Mock)
      → get id c.markets ≡ some m
      → m.state ≡ is_settled
      → m.winner ≡ some winner
      → IsFrozen id winner m c
  unfolding place_bet settle claim_quote
  frozen id winner m c found done won = record {
    found = found;
    winner_kept = won;
    no_bets = λ b same.
        let there : get b.market_id c.markets ≡ some m = rw same found in rw there (rw done refl);
    no_verdict = λ side. rw found (rw done refl);
    pays = λ burned. rw found (rw (done, won) refl);
  }

  -- The market right after its settlement.
  IsSettledAs : String → Side → Answer Side → Type 0
  IsSettledAs id winner (ok side, c) =
      (m : MockMarket) × (get id c.markets ≡ some m)
      × (m.state ≡ is_settled)
      × (m.winner ≡ some winner)
      × (side ≡ winner)
  IsSettledAs id winner (throw e, c) = Unit {0}

  kept_set :
      (id : String) (m : MockMarket) (ms : List (String × MockMarket))
      → get id (set id m ms) ≡ some m
  kept_set id m ms = rw (get-set id id m ms, beq_self id) refl

  IsSettledAs-if :
      (id : String) (winner : Side) (m : MockMarket) (c : Mock) (b : Bool)
      → m.state ≡ is_settled
      → m.winner ≡ some winner
      → IsSettledAs id winner (
          if◌then◌else◌ {A = Answer Side} b
            (throw "ZeroClaimableSupply", c)
            (ok winner, record c { markets = set id m c.markets }))
  unfolding IsSettledAs
  IsSettledAs-if id winner m c true done won = tt
  IsSettledAs-if id winner m c false done won = (m, kept_set id m c.markets, done, won, refl)

  IsSettledAs-open :
      (id : String) (winner : Side) (s : State) (c : Mock) (a : Answer Side)
      → IsSettledAs id winner a
      → IsSettledAs id winner (if_open s c a)
  unfolding IsSettledAs
  IsSettledAs-open id winner is_open c a h = h
  IsSettledAs-open id winner is_settled c a h = tt

  settle-IsSettledAs :
      (id : String) (winner : Side) (c : Mock)
      → IsSettledAs id winner (settle floats swap_fee_bps id winner c)
  unfolding settle
  settle-IsSettledAs id winner c = elim (Option-cases (get id c.markets)) [
    | inl missing ↦ rw missing (unfold IsSettledAs in tt)
    | inr (m, there) ↦
        rw there (IsSettledAs-open id winner m.state c _ (IsSettledAs-if id winner _ c _ refl refl))
  ]

  -- A market of the simulated chain, once it is settled, which answers the winner that was asked for:
  -- whatever is called then, but an opening of a
  -- market of the same name, it is still there and still has the winner it was settled with, bets on
  -- it and further settlements are refused without a change, and a claim is quoted at the winner's
  -- share of the pot by tokens, as of the settlement.
  pub settle-IsFrozen :
      (id : String) (winner side : Side) (ops : List Op) (c c' : Mock)
      → settle floats swap_fee_bps id winner c ≡ (ok side, c')
      → All (Spares id) ops
      → (side ≡ winner)
        × ((m : MockMarket) × (get id c'.markets ≡ some m)
            × IsFrozen id winner m (play floats swap_fee_bps ops c'))
  unfolding IsSettledAs
  settle-IsFrozen id winner side ops c c' settled spares =
      let h : IsSettledAs id winner (ok side, c') =
        subst (IsSettledAs id winner) settled (settle-IsSettledAs id winner c) in
      let (m, there, done, won, same) = h in
      (
        same,
        (
          m,
          there,
          frozen id winner m (play floats swap_fee_bps ops c')
              (play-kept floats swap_fee_bps id m ops c' done spares there) done won,
        ),
      )
