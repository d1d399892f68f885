-- ===== src/Engine/Rescues.antt =====
-- Who is paid when `resolve_market` closes a market (apps/agent/src/engine.ts): the backers that were
-- there before it, never the treasury that rescues the winning side.
use ratio.Base.{
  ◌≡◌, refl, ◌∙◌, ap, true, not, ◌&&◌, Option, none, some, List, [], ◌∷◌, ◌++◌, String, string_eq,
  ◌==◌, includes, NoDup, keep, arith, ◌⊎◌, inl, inr,
}
use ratio.Store.Records.{MarketRecord, BetRecord, Side}
use ratio.Store.Memory.{Store, list_bets, save_bet, update_market}
use ratio.Engine.World.{Result, ok, Services, EngineConfig, World, History, Odds}
use ratio.Engine.Frames.{Frame}
use ratio.Flow.Ends.{
  Ends, Ends-pure, Ends-ask, Ends-tell, Ends-reads, Ends-writes, Ends-branch, Ends-cases-none,
  Ends-cases-some, Ends-ask_both, Ends-bind, Ends-catch,
}
use ratio.Engine.Walk.Settlement.{Moves-announce}
use ratio.Engine.Payouts.{
  claims, backers, claim_all, Claimed, pay_all-Ends, payees, payees-NoDup, includes-payees,
}
use ratio.Engine.Settlement.{
  Outcome, rescue, backed_odds, finish, settle_on, outcome_of, resolve_market,
}

-- The bets that are listed are those that are no seed.
list_bets-save_bet :
    (id : String) (b : BetRecord) (s : Store)
    → b.is_seed ≡ true
    → list_bets id (save_bet b s) ≡ list_bets id s
unfolding list_bets save_bet
list_bets-save_bet id b s h = go s.bets
  where
    go :
        (bets : List BetRecord)
        → keep (λ c. (c.market_id == id) && not c.is_seed) (bets ++ b ∷ [])
          ≡ keep (λ c. (c.market_id == id) && not c.is_seed) bets
    go [] = ground (arith, h)
    go (c ∷ bets) = ground (arith, go bets)

-- The claims that were sent stay as they are.
abbrev SameClaims : Frame
SameClaims = record {
  Rel = λ v w. claims w.history ≡ claims v.history;
  rel_refl = λ w. refl;
  rel_trans = λ u v w p q. q ∙ p;
}

-- No claim has been sent, and the same bets are listed for the market.
abbrev Unpaid : String → World → World → Type 0
Unpaid id v w =
    (claims w.history ≡ claims v.history) × (list_bets id w.store ≡ list_bets id v.store)

module _ (services : Services) (config : EngineConfig) (address : String → String)
    (own : (h : History) (x : String) → services.get_wallet h x ≡ ok (address x)) where
  -- Each backer of the winner among the bets before gets one claim, and nobody else.
  pub record IsPaidOut (r : MarketRecord) (v w : World) : Type 0 where
    pub declared : Side
    pub winner : Side
    pub settled_at : History
    pub settles : services.settle settled_at r.chain_refs declared ≡ ok winner
    pub ids : List String
    pub once : NoDup ids
    pub whom : (x : String) → includes ids x ≡ includes (backers winner (list_bets r.id v.store)) x
    pub sent :
        claims w.history
        ≡ claim_all services config address own r.chain_refs winner ids (claims v.history)

  abbrev PaidOrNot : MarketRecord → World → World → Type 0
  PaidOrNot r v w = (claims w.history ≡ claims v.history) ⊎ IsPaidOut r v w

  abbrev Pays : MarketRecord → World → Result (Unit {0}) → World → Type 0
  Pays r v res w = PaidOrNot r v w

  abbrev StillUnpaid {ℓ} : {A : Type ℓ} → String → World → Result A → World → Type 0
  StillUnpaid id v res w = Unpaid id v w

  rescue-Ends :
      (r : MarketRecord) (winner : Side) (w : World)
      → Ends (StillUnpaid r.id w) (rescue services config r winner) w
  unfolding rescue
  rescue-Ends r winner w =
      let P = StillUnpaid {A = Odds} r.id w in
      Ends-ask P _ _ _ _ (λ _ _. (refl, refl))
        λ tokens bought.
          Ends-ask P _ _ _ _ (λ _ _. (refl, refl))
            λ at _.
              let same = list_bets-save_bet r.id _ w.store refl in
              Ends-writes P _ _ _
                (Ends-tell P _ _ _ (λ _ _. (refl, same)) λ odds read. (refl, same))

  backed_odds-Ends :
      (r : MarketRecord) (winner : Side) (odds : Odds) (w : World)
      → Ends (StillUnpaid r.id w) (backed_odds services config r winner odds) w
  unfolding backed_odds
  backed_odds-Ends r winner odds w =
      let P = StillUnpaid {A = Option Odds} r.id w in
      Ends-branch P _ _ _ _
        (λ _.
          Ends-catch P {Q = P} _ _ _
            (Ends-bind P {Q = StillUnpaid r.id w} _ _ _ (rescue-Ends r winner w) (λ e v q. q)
              λ again v q. Ends-pure P _ _ q)
            (λ o v q. q) (λ e v q. Ends-pure P _ _ q))
        (λ _. Ends-pure P _ _ (refl, refl))

  finish-Ends :
      (r : MarketRecord) (o : Outcome) (odds : Odds) (v w : World)
      → Unpaid r.id v w
      → Ends (Pays r v) (finish services config r o odds) w
  unfolding finish update_market list_bets
  finish-Ends r o odds v w q =
      let P = Pays r v in
      Ends-ask P _ _ _ _ (λ e _. inl q.0)
        λ winner settles. Ends-writes P _ _ _ (
          Ends-reads P _ _ _ (
            let listed = list_bets r.id w.store in
            Ends-bind P
              {Q = Claimed services config address own (
                claim_all services config address own r.chain_refs winner (payees winner [] listed)
                  (claims w.history))}
              _ _ _ (pay_all-Ends services config address own r winner [] listed _)
              (λ e u p. cc p.0)
              λ _ u p. record {
                ends = inr (record {
                  declared = o.winner;
                  winner = winner;
                  settled_at = w.history;
                  settles = settles;
                  ids = payees winner [] listed;
                  once = payees-NoDup winner [] listed;
                  whom = λ x.
                      includes-payees winner [] listed x
                      ∙ ap (λ l. includes (backers winner l) x) q.1;
                  sent =
                      (Moves-announce SameClaims services config (λ to m link w. refl) r o odds
                          winner).rel
                        u
                      ∙ p.1
                      ∙ ap
                          (claim_all services config address own r.chain_refs winner
                            (payees winner [] listed))
                          q.0;
                });
              }))

  settle_on-Ends :
      (r : MarketRecord) (o : Outcome) (v w : World)
      → Unpaid r.id v w
      → Ends (Pays r v) (settle_on services config r o) w
  unfolding settle_on
  settle_on-Ends r o v w q =
      let P = Pays r v in
      Ends-ask P _ _ _ _ (λ _ _. inl q.0)
        λ odds read.
          Ends-bind P {Q = StillUnpaid r.id w} _ _ _ (backed_odds-Ends r o.winner odds _)
            (λ e u q'. inl (q'.0 ∙ q.0))
            (elim [
              | none ↦ λ u q'. Ends-cases-none P _ _ _ (Ends-pure P _ _ (inl (q'.0 ∙ q.0)))
              | some odds' ↦ λ u q'.
                  Ends-cases-some P _ _ _ _ (finish-Ends r o odds' v u (q'.0 ∙ q.0, q'.1 ∙ q.1))
            ])

-- When the job for a market that is due is over, either no claim has been sent, or the chain has
-- answered a winner and one claim was sent for each user whose bet on that winner was listed
-- before the job, and for no other: a rescue of the job's own gets no claim. The hypothesis is that
-- the wallet service answers, the same for the same user.
pub resolve_market-pays :
    (services : Services) (config : EngineConfig) (address : String → String)
    (own : (h : History) (x : String) → services.get_wallet h x ≡ ok (address x)) (r : MarketRecord)
    (w : World)
    → let w' = (resolve_market services config r w).1 in
      (claims w'.history ≡ claims w.history) ⊎ IsPaidOut services config address own r w w'
unfolding resolve_market
resolve_market-pays services config address own r w =
    let P = Pays services config address own r w in
    (Ends-ask_both P _ _ _ _ _ _ (λ e. inl refl)
      λ a b _ _. Ends-reads P _ _ _ (
        settle_on-Ends services config address own r (outcome_of services config r a b _) w _
          (refl, refl))).ends
