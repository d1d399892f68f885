-- ===== src/Engine/Fees.antt =====
-- Who shares the fees of a market: `createMarket` (apps/agent/src/engine.ts).
use ratio.Base.{ℕ, ◌+◌, ◌≡◌, refl, ap, List, [], ◌∷◌, String, string_eq, NoDup, map, arith}
use ratio.Base.Maps.{keys, values}
use ratio.Engine.World.{EngineConfig, FeeBeneficiary, Services}
use ratio.Engine.Shares.{
  sum, merge_into, share_of, sum-merge_into, share_of-merge_into, merge_into-NoDup,
}
use ratio.Engine.Creation.{fee_beneficiaries}

-- The beneficiaries as entries of a map.
abbrev pub entries : List FeeBeneficiary → List (String × ℕ)
entries [] = []
entries (f ∷ fs) = (f.wallet, f.share_bps) ∷ entries fs

entries-map :
    (es : List (String × ℕ)) → entries (map (λ p. record { wallet = p.0; share_bps = p.1 }) es) ≡ es
entries-map [] = refl
entries-map (p ∷ es) = ap (λ rest. p ∷ rest) (entries-map es)

-- The five parties and their shares, one wallet possibly several times.
abbrev pub parties : EngineConfig → String → String → String → List (String × ℕ)
parties config tagger wallet_a wallet_b =
    let share = config.fee_share_bps in
    (config.doppler_wallet, share.doppler)
    ∷ (tagger, share.tagger)
    ∷ (wallet_a, share.side_a)
    ∷ (wallet_b, share.side_b)
    ∷ (config.protocol_wallet, share.protocol)
    ∷ []

-- The fee beneficiaries of a launch name no wallet twice, even if the tagger is an author or the
-- treasury; each wallet has the sum of the shares of its parties, and nothing is lost or made up.
pub fee_beneficiaries-merged :
    (services : Services) (config : EngineConfig) (tagger wallet_a wallet_b : String)
    → let fees = entries (fee_beneficiaries services config tagger wallet_a wallet_b) in
      NoDup (keys fees)
      × ((wallet : String)
          → share_of wallet fees ≡ share_of wallet (parties config tagger wallet_a wallet_b))
      × (sum (values fees)
          ≡ config.fee_share_bps.doppler + config.fee_share_bps.tagger + config.fee_share_bps.side_a
            + config.fee_share_bps.side_b + config.fee_share_bps.protocol)
unfolding fee_beneficiaries
fee_beneficiaries-merged services config tagger wallet_a wallet_b =
    let all = parties config tagger wallet_a wallet_b in
    let plain = entries-map (merge_into [] all) in
    rw plain (
      merge_into-NoDup [] all tt,
      (λ wallet. omega (arith, share_of-merge_into wallet [] all)),
      (omega (arith, sum-merge_into [] all)),
    )
