-- ===== src/Engine/Payouts.antt =====
-- Who is paid: the loop over the bets in `resolve_market` (apps/agent/src/engine.ts).
use ratio.Base.{
  ◌≡◌, refl, not, ◌&&◌, ◌||◌, List, [], ◌∷◌, String, string_eq, ◌==◌, if◌then◌else◌, includes,
  NoDup, keep, map, arith, subst,
}
use text.Mathlib.TextEquality.{eq_iff}
use ratio.Store.Records.{MarketRecord, BetRecord, Side, side_beq}
use ratio.Engine.World.{Result, ok, Services, EngineConfig, World, History, asked_claim}
use ratio.Flow.Ends.{Ends, Ends-pure, Ends-ask, Ends-tell, Ends-branch, Ends-bind, Ends-catch}
use ratio.Engine.Settlement.{treasury, wallet_of, pay, pay_all}

-- A claim on the chain: the market, the winning side and the wallet.
abbrev pub Claim : Type 0
Claim = String × Side × String

-- The claims that were sent to the chain, the latest first.
abbrev pub claims : History → List Claim
claims [] = []
claims (asked_claim refs winner bettor ∷ h) = (refs, winner, bettor) ∷ claims h
claims (e ∷ h) = claims h

-- The users with a bet on a side.
abbrev pub backers : Side → List BetRecord → List String
backers winner bets = map (λ b. b.x_user_id) (keep (λ b. side_beq b.side winner) bets)

-- Each of them once, in the order of their first bets, less those in `seen`.
unfoldable pub payees : Side → List String → List BetRecord → List String
payees winner seen [] = []
payees winner seen (b ∷ bets) =
    let skip = payees winner seen bets in
    let paid = b.x_user_id ∷ payees winner (b.x_user_id ∷ seen) bets in
    if not (side_beq b.side winner) || includes seen b.x_user_id then skip else paid

pub includes-payees :
    (winner : Side) (seen : List String) (bets : List BetRecord) (x : String)
    → includes (payees winner seen bets) x
      ≡ (not (includes seen x) && includes (backers winner bets) x)
unfolding payees
includes-payees winner seen [] x = ground arith
includes-payees winner seen (b ∷ bets) x = ground (
  arith,
  includes-payees winner seen bets x,
  includes-payees winner (b.x_user_id ∷ seen) bets x,
  eq_iff b.x_user_id x,
)

pub payees-NoDup :
    (winner : Side) (seen : List String) (bets : List BetRecord) → NoDup (payees winner seen bets)
unfolding payees
payees-NoDup winner seen [] = tt
payees-NoDup winner seen (b ∷ bets) = ground (
  arith,
  payees-NoDup winner seen bets,
  payees-NoDup winner (b.x_user_id ∷ seen) bets,
  includes-payees winner (b.x_user_id ∷ seen) bets b.x_user_id,
  eq_iff b.x_user_id b.x_user_id,
)

module _ (services : Services) (config : EngineConfig) (address : String → String)
    (own : (h : History) (x : String) → services.get_wallet h x ≡ ok (address x)) where
  -- Where a user's payout goes.
  abbrev pub payout_address : String → String
  payout_address x = if x == treasury then config.protocol_wallet else address x

  -- The claims for a list of users, on top of those before.
  abbrev pub claim_all : String → Side → List String → List Claim → List Claim
  claim_all refs winner [] cs = cs
  claim_all refs winner (x ∷ xs) cs =
      claim_all refs winner xs ((refs, winner, payout_address x) ∷ cs)

  abbrev pub Claimed : List Claim → Result (Unit {0}) → World → Type 0
  Claimed cs res w = (res ≡ ok tt) × (claims w.history ≡ cs)

  abbrev Found : BetRecord → World → Result String → World → Type 0
  Found b v res w = (res ≡ ok (payout_address b.x_user_id)) × (claims w.history ≡ claims v.history)

  wallet_of-Ends : (b : BetRecord) (w : World) → Ends (Found b w) (wallet_of services config b) w
  unfolding wallet_of
  wallet_of-Ends b w =
      Ends-branch (Found b w) _ _ _ _
        (λ is_treasury. Ends-pure (Found b w) _ _ (ground arith, refl))
        (λ other.
          Ends-tell (Found b w) _ _ _ (λ e no_way. cc (own w.history b.x_user_id))
            (λ a got. (ground (arith, own w.history b.x_user_id), refl)))

  abbrev Tried : List Claim → Result (Unit {0}) → World → Type 0
  Tried cs res w = claims w.history ≡ cs

  pay-Ends :
      (r : MarketRecord) (winner : Side) (b : BetRecord) (w : World)
      → Ends
          (Claimed ((r.chain_refs, winner, payout_address b.x_user_id) ∷ claims w.history))
          (pay services config r winner b)
          w
  unfolding pay
  pay-Ends r winner b w =
      let cs = (r.chain_refs, winner, payout_address b.x_user_id) ∷ claims w.history in
      Ends-catch (Claimed cs) {Q = Tried cs} _ _ _
        (Ends-bind (Tried cs) {Q = Found b w} _ _ _ (wallet_of-Ends b w) (λ e v q. cc q.0)
          λ bettor v q.
            Ends-ask (Tried cs) _ _ _ _ (λ e _. ground (arith, q.0, q.1))
              λ p _. Ends-pure (Tried cs) _ _ (ground (arith, q.0, q.1)))
        (λ b v q. (refl, q)) (λ e v q. Ends-pure (Claimed cs) _ _ (refl, q))

  pub pay_all-Ends :
      (r : MarketRecord) (winner : Side) (seen : List String) (bets : List BetRecord) (w : World)
      → Ends
          (Claimed (claim_all r.chain_refs winner (payees winner seen bets) (claims w.history)))
          (pay_all services config r winner seen bets)
          w
  unfolding pay_all payees
  pay_all-Ends r winner seen [] w = Ends-pure (Claimed (claims w.history)) _ _ (refl, refl)
  pay_all-Ends r winner seen (b ∷ bets) w =
      let P =
        Claimed
          (claim_all r.chain_refs winner (payees winner seen (b ∷ bets)) (claims w.history)) in
      Ends-branch P _ _ _ _
        (λ skip. record { ends = rw skip (pay_all-Ends r winner seen bets w).ends })
        (λ paid.
          Ends-bind P
            {Q = Claimed ((r.chain_refs, winner, payout_address b.x_user_id) ∷ claims w.history)} _
            _ _ (pay-Ends r winner b w) (λ e v q. cc q.0)
            λ _ v q. record {
              ends = rw paid (
                  subst
                    (λ cs.
                      Claimed
                        (claim_all r.chain_refs winner (payees winner (b.x_user_id ∷ seen) bets) cs)
                        (pay_all services config r winner (b.x_user_id ∷ seen) bets v).0
                        (pay_all services config r winner (b.x_user_id ∷ seen) bets v).1)
                    q.1 (pay_all-Ends r winner (b.x_user_id ∷ seen) bets v).ends);
            })

-- Whatever the chain answers to a claim, and even if it throws, the payouts run to the end and
-- send one claim for each user with a bet on the winning side, to the wallet of that user (the
-- treasury's is the protocol's), and none to anyone else. The hypothesis
-- is that the wallet service answers, the same for the same user.
pub pay_all-once :
    (services : Services) (config : EngineConfig) (address : String → String)
    (own : (h : History) (x : String) → services.get_wallet h x ≡ ok (address x)) (r : MarketRecord)
    (winner : Side) (bets : List BetRecord) (w : World)
    → let w' = pay_all services config r winner [] bets w in
      (w'.0 ≡ ok tt)
      × ((ids : List String) × NoDup ids
          × ((x : String) → includes ids x ≡ includes (backers winner bets) x)
          × (claims w'.1.history
              ≡ claim_all services config address own r.chain_refs winner ids (claims w.history)))
pay_all-once services config address own r winner bets w =
    let q = (pay_all-Ends services config address own r winner [] bets w).ends in
    (q.0, (payees winner [] bets, payees-NoDup winner [] bets, includes-payees winner [] bets, q.1))
