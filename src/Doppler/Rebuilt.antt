-- ===== src/Doppler/Rebuilt.antt =====
-- What `recoverRefs` rebuilds of a market that `createMarket` launched
-- (packages/doppler/src/pairMarket.ts).
use ratio.Base.{◌≡◌, refl, sym, ap, Option, none, some, string_eq, subst}
use ratio.Texts.{Text}
use ratio.Flow.{Result, ok, throw}
use ratio.Flow.Ends.{
  Ends, Ends-pure, Ends-raise, Ends-ask, Ends-answered, Ends-branch, Ends-given, Ends-bind,
}
use ratio.Doppler.Node.{Metadata, Sdk, Calls, Vaults, Node, OutcomeRefs, PairMarketRefs, Dop}
use ratio.Doppler.Markets.{
  PairMarketParams, OutcomeParams, MarketAddresses, refs_of, market_addresses, outcome_refs,
  metadata_of, launch_of, launch_outcome, create_market, recover_outcome, recover_refs,
}
use ratio.Doppler.Sends.{World}

abbrev pub Any : {A : Type 0} → Result A → World → Type 0
Any res w = Unit {0}

pub Any-end : {A : Type 0} (m : Dop A) (v : World) → Ends Any m v
Any-end m v = record { ends = tt }

module _ (sdk : Sdk) (node : Node) where
  -- The metadata of a launch decides nothing but the address of its metadata.
  pub record IsApart : Type 0 where
    pub config_apart :
        (m : MarketAddresses) (label mint : Text) (metadata : Option Metadata)
        → (launch_of sdk node m label mint metadata).config
          ≡ (launch_of sdk node m label mint none).config
    pub launch_apart :
        (m : MarketAddresses) (label mint : Text) (metadata : Option Metadata)
        → (launch_of sdk node m label mint metadata).launch
          ≡ (launch_of sdk node m label mint none).launch
    pub authority_apart :
        (m : MarketAddresses) (label mint : Text) (metadata : Option Metadata)
        → (launch_of sdk node m label mint metadata).launch_authority
          ≡ (launch_of sdk node m label mint none).launch_authority
    pub fees_apart :
        (m : MarketAddresses) (label mint : Text) (metadata : Option Metadata)
        → (launch_of sdk node m label mint metadata).launch_fee_state
          ≡ (launch_of sdk node m label mint none).launch_fee_state

  -- The chain holds an outcome: its entry has the mint, and its launch the vaults.
  pub record Holds (o : OutcomeRefs) : Type 0 where
    pub holds_mint : (h : Calls) → node.entry_mint h o.entry_address ≡ ok o.base_mint
    pub holds_vaults :
        (h : Calls)
        → node.launch_vaults h o.launch
          ≡ ok (some (record { base_vault = o.base_vault; quote_vault = o.quote_vault }))

  -- What a launch leaves of an outcome, by its mint and its vaults.
  abbrev pub launched : MarketAddresses → OutcomeParams → Text → Vaults → OutcomeRefs
  launched m o mint vaults =
      outcome_refs sdk node m o.label mint vaults
        (launch_of sdk node m o.label mint (some (metadata_of sdk node o)))

  IsLaunched : MarketAddresses → OutcomeParams → Result OutcomeRefs → World → Type 0
  IsLaunched m o (ok refs) w = (mint : Text) × (vaults : Vaults) × (refs ≡ launched m o mint vaults)
  IsLaunched m o (throw e) w = Unit {0}

  launch-IsLaunched :
      (operator : Text) (params : PairMarketParams) (m : MarketAddresses) (o : OutcomeParams)
      (v : World)
      → Ends (IsLaunched m o) (launch_outcome sdk node operator params m o) v
  unfolding launch_outcome IsLaunched
  launch-IsLaunched operator params m o v =
      let P = IsLaunched m o in
      Ends-ask P _ _ _ _ (λ _ _. tt)
        λ mint _.
          Ends-ask P _ _ _ _ (λ _ _. tt)
            λ base _.
              Ends-ask P _ _ _ _ (λ _ _. tt)
                λ quote _.
                  Ends-bind P {Q = Any} _ _ _ (Any-end _ _) (λ _ _ _. tt)
                    λ _ _ _.
                      Ends-pure P _ _
                        (mint, record { base_vault = base; quote_vault = quote }, refl)

  unfoldable pub IsCreated : Text → PairMarketParams → Result PairMarketRefs → World → Type 0
  IsCreated operator params (ok refs) w =
      let m = market_addresses sdk node operator params.nonce params.quote_mint in
      (ma mb : Text) × (va vb : Vaults) × (refs
        ≡ refs_of params.nonce params.quote_mint m (launched m params.outcome_a ma va)
            (launched m params.outcome_b mb vb))
  IsCreated operator params (throw e) w = Unit {0}

  pub anywhere :
      (operator : Text) (params : PairMarketParams) (refs : PairMarketRefs) (v w : World)
      → IsCreated operator params (ok refs) v
      → IsCreated operator params (ok refs) w
  unfolding IsCreated
  anywhere operator params refs v w q = q

  pub create-IsCreated :
      (operator : Text) (params : PairMarketParams) (v : World)
      → Ends (IsCreated operator params) (create_market sdk node operator params) v
  unfolding create_market IsCreated IsLaunched
  create-IsCreated operator params v =
      let P = IsCreated operator params in
      let m = market_addresses sdk node operator params.nonce params.quote_mint in
      Ends-branch P _ _ _ _ (λ _. Ends-raise P _ _ tt)
        λ _.
          Ends-bind P {Q = Any} _ _ _ (Any-end _ _) (λ _ _ _. tt)
            λ _ _ _.
              Ends-bind P {Q = IsLaunched m params.outcome_a} _ _ _
                (launch-IsLaunched operator params m params.outcome_a _) (λ _ _ _. tt)
                λ a _ qa.
                  Ends-ask P _ _ _ _ (λ _ _. tt)
                    λ _ _.
                      Ends-bind P {Q = IsLaunched m params.outcome_b} _ _ _
                        (launch-IsLaunched operator params m params.outcome_b _) (λ _ _ _. tt)
                        λ b _ qb. Ends-pure P _ _ (
                          qa.0,
                          qb.0,
                          qa.1,
                          qb.1,
                          λ i. refs_of params.nonce params.quote_mint m (qa.2 i) (qb.2 i),
                        )

  launched_same :
      (m : MarketAddresses) (o : OutcomeParams) (mint : Text) (vaults : Vaults)
      → IsApart
      → launched m o mint vaults
        ≡ outcome_refs sdk node m o.label mint vaults (launch_of sdk node m o.label mint none)
  unfolding outcome_refs
  launched_same m o mint vaults a =
      let d = some (metadata_of sdk node o) in
      rw
        (
          a.config_apart m o.label mint d,
          a.launch_apart m o.label mint d,
          a.authority_apart m o.label mint d,
          a.fees_apart m o.label mint d,
        )
        refl

  found_plain :
      (m : MarketAddresses) (o : OutcomeParams) (mint : Text) (vaults : Vaults) (h : Calls)
      → IsApart
      → Holds (launched m o mint vaults)
      → node.launch_vaults h (launch_of sdk node m o.label mint none).launch ≡ ok (some vaults)
  unfolding outcome_refs
  found_plain m o mint vaults h a held =
      rw (← a.launch_apart m o.label mint (some (metadata_of sdk node o))) (held.holds_vaults h)

  recover-Holds :
      (m : MarketAddresses) (o : OutcomeParams) (mint : Text) (vaults : Vaults) (v : World)
      → IsApart
      → Holds (launched m o mint vaults)
      → Ends
          (λ (res : Result OutcomeRefs) w. res ≡ ok (launched m o mint vaults))
          (recover_outcome sdk node m o.label)
          v
  unfolding recover_outcome
  recover-Holds m o mint vaults v a h =
      let P = λ (res : Result OutcomeRefs) (w : World). res ≡ ok (launched m o mint vaults) in
      let there = launch_of sdk node m o.label mint none in
      Ends-answered P _ _ _ _ mint (unfold outcome_refs in h.holds_mint _) (
        Ends-answered P _ _ _ _ (some vaults) (found_plain m o mint vaults _ a h) (
          Ends-given P _ _ _ _ vaults refl
            (Ends-pure P _ _ (ap ok (sym (launched_same m o mint vaults a))))))

  pub recover_refs-Holds :
      (operator : Text) (params : PairMarketParams) (refs : PairMarketRefs) (v w : World)
      → IsApart
      → Holds refs.outcome_a
      → Holds refs.outcome_b
      → IsCreated operator params (ok refs) w
      → Ends
          (λ (res : Result PairMarketRefs) x. res ≡ ok refs)
          (recover_refs sdk node operator params.nonce params.quote_mint
            (params.outcome_a.label, params.outcome_b.label))
          v
  unfolding recover_refs IsCreated
  recover_refs-Holds operator params refs v w apart ha hb (ma, mb, va, vb, same) =
      let P = λ (res : Result PairMarketRefs) (x : World). res ≡ ok refs in
      let m = market_addresses sdk node operator params.nonce params.quote_mint in
      let a = launched m params.outcome_a ma va in
      let b = launched m params.outcome_b mb vb in
      let ha' : Holds a = subst (λ r. Holds (PairMarketRefs.outcome_a r)) same ha in
      let hb' : Holds b = subst (λ r. Holds (PairMarketRefs.outcome_b r)) same hb in
      Ends-bind P {Q = λ (res : Result OutcomeRefs) x. res ≡ ok a} _ _ _
        (recover-Holds m params.outcome_a ma va v apart ha') (λ e x bad. cc bad)
        λ a' x ea.
          Ends-bind P {Q = λ (res : Result OutcomeRefs) x. res ≡ ok b} _ _ _
            (recover-Holds m params.outcome_b mb vb x apart hb') (λ e y bad. cc bad)
            λ b' y eb. Ends-pure P _ _ (cc (ea, eb, same))
