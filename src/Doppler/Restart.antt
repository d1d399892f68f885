-- ===== src/Doppler/Restart.antt =====
-- A process that starts afresh finds the markets of an earlier one: `recoverRefs` rebuilds what
-- `createMarket` returned (packages/doppler/src/pairMarket.ts, packages/chain/src/solana.ts).
use ratio.Base.{ℕ, ◌≡◌, refl, Option, none, some, List, String, string_eq, take, beq_self}
use ratio.Base.Maps.{get, set, get-set}
use ratio.Flow.{Result, ok, throw}
use ratio.Flow.Ends.{Ends, Ends-pure, Ends-answered, Ends-reads, Ends-writes, Ends-cases, Ends-bind}
use ratio.Doppler.Node.{FeeBeneficiary, Sdk, Calls, Node, PairMarketRefs}
use ratio.Doppler.Chain.{
  Rates, Config, Opening, keep_refs, params_of, open_market, recover, refs_for,
}
use ratio.Doppler.Sends.{World}
use ratio.Doppler.Plans.{lift-known}
use ratio.Doppler.Rebuilt.{
  Any, Any-end, IsApart, Holds, IsCreated, anywhere, create-IsCreated, recover_refs-Holds,
}

module _ (sdk : Sdk) (node : Node) (rates : Rates) (config : Config) where
  kept :
      (id : String) (refs : PairMarketRefs) (m : List (String × PairMarketRefs))
      → get id (set id refs m) ≡ some refs
  kept id refs m = rw (get-set id id refs m, beq_self id) refl

  kept_as :
      (id : String) (found refs : PairMarketRefs) (m : List (String × PairMarketRefs))
      → ◌≡◌ {A = Result PairMarketRefs} (ok found) (ok refs)
      → get id (set id found m) ≡ some refs
  kept_as id found refs m same = let e : found ≡ refs = cc same in rw e (kept id refs m)

  Opened : Opening → ℕ → Result String → World → Type 0
  Opened o nonce (ok id) w =
      (refs : PairMarketRefs) × (get o.nonce w.store.refs_by_id ≡ some refs)
      × ((beneficiaries : List FeeBeneficiary) × IsCreated sdk node config.operator
            (params_of sdk node rates config o nonce beneficiaries) (ok refs) w)
  Opened o nonce (throw e) w = Unit {0}

  open-Opened :
      (o : Opening) (nonce : ℕ) (v : World)
      → config.big_int o.nonce ≡ ok nonce
      → Ends (Opened o nonce) (open_market sdk node rates config o) v
  unfolding open_market Opened keep_refs
  open-Opened o nonce v numbered =
      let P = Opened o nonce in
      lift-known P _ nonce _ _ numbered (
        Ends-bind P {Q = Any} _ _ _ (Any-end _ _) (λ _ _ _. tt)
          λ bs x _.
            let params = params_of sdk node rates config o nonce bs in
            Ends-bind P {Q = IsCreated sdk node config.operator params} _ _ _
              (create-IsCreated sdk node config.operator params x) (λ _ _ _. tt)
              λ refs y q. Ends-writes P _ _ _ (
                Ends-pure P _ _ (
                  refs,
                  kept o.nonce refs y.store.refs_by_id,
                  (bs, anywhere sdk node config.operator params refs y _ q),
                )))

  recover-Holds_all :
      (o : Opening) (nonce : ℕ) (refs : PairMarketRefs) (v u : World)
      → IsApart sdk node
      → config.big_int o.nonce ≡ ok nonce
      → config.address config.operator ≡ ok config.operator
      → ((h : Calls) → node.labels_for h o.nonce ≡ ok (take 32 o.outcome_a, take 32 o.outcome_b))
      → Holds sdk node refs.outcome_a
      → Holds sdk node refs.outcome_b
      → (beneficiaries : List FeeBeneficiary)
      → IsCreated sdk node config.operator
          (params_of sdk node rates config o nonce beneficiaries)
          (ok refs)
          v
      → Ends
          (λ (res : Result PairMarketRefs) w.
            (res ≡ ok refs) × (get o.nonce w.store.refs_by_id ≡ some refs))
          (recover sdk node rates config o.nonce)
          u
  unfolding recover keep_refs params_of
  recover-Holds_all o nonce refs v u apart numbered named labels ha hb bs created =
      let P = λ (res : Result PairMarketRefs) (w : World).
        (res ≡ ok refs) × (get o.nonce w.store.refs_by_id ≡ some refs) in
      let params = params_of sdk node rates config o nonce bs in
      Ends-answered P _ _ _ _ _ (labels _) (
        lift-known P _ config.operator _ _ named (
          lift-known P _ nonce _ _ numbered (
            Ends-bind P {Q = λ (res : Result PairMarketRefs) x. res ≡ ok refs} _ _ _
              (recover_refs-Holds sdk node config.operator params refs _ v apart ha hb created)
              (λ e x bad. cc bad)
              λ found x same.
                Ends-writes P _ _ _
                  (Ends-pure P _ _ (same, kept_as o.nonce found refs x.store.refs_by_id same)))))

  Opened-as :
      (o : Opening) (nonce : ℕ) (refs : PairMarketRefs) (id : String) (r : Result String)
      (w : World)
      → r ≡ ok id
      → get o.nonce w.store.refs_by_id ≡ some refs
      → Opened o nonce r w
      → (beneficiaries : List FeeBeneficiary) × IsCreated sdk node config.operator
          (params_of sdk node rates config o nonce beneficiaries)
          (ok refs)
          w
  unfolding Opened IsCreated
  Opened-as o nonce refs id (ok _) w returned known (refs', there, (bs, created)) =
      let same : refs' ≡ refs = cc (known, there) in (bs, rw (← same) created)
  Opened-as o nonce refs id (throw e) w returned known h = cc returned

  -- A market that was opened on Solana, in a process that does not know it: where the chain holds the
  -- mint of each outcome in its entry and the vaults in its launch, the records give the two labels
  -- that were launched, the market's name is a number and the operator's an address, and the metadata
  -- of a launch decides no address but its own, the addresses
  -- that are looked up are those that were kept when the market was opened, and they are kept again.
  pub refs_for-open_market :
      (o : Opening) (nonce : ℕ) (id : String) (refs : PairMarketRefs) (v u : World)
      → IsApart sdk node
      → config.big_int o.nonce ≡ ok nonce
      → config.address config.operator ≡ ok config.operator
      → (open_market sdk node rates config o v).0 ≡ ok id
      → get o.nonce (open_market sdk node rates config o v).1.store.refs_by_id ≡ some refs
      → ((h : Calls) → node.labels_for h o.nonce ≡ ok (take 32 o.outcome_a, take 32 o.outcome_b))
      → Holds sdk node refs.outcome_a
      → Holds sdk node refs.outcome_b
      → get o.nonce u.store.refs_by_id ≡ none
      → Ends
          (λ (res : Result PairMarketRefs) w.
            (res ≡ ok refs) × (get o.nonce w.store.refs_by_id ≡ some refs))
          (refs_for sdk node rates config o.nonce)
          u
  unfolding refs_for
  refs_for-open_market o nonce id refs v u apart numbered named returned known labels ha hb fresh =
      let P = λ (res : Result PairMarketRefs) (w : World).
        (res ≡ ok refs) × (get o.nonce w.store.refs_by_id ≡ some refs) in
      let (bs, created) =
        Opened-as o nonce refs id _ _ returned known (open-Opened o nonce v numbered).ends in
      Ends-reads P _ _ _ (
        Ends-cases P _ _ _ _
          (λ _. recover-Holds_all o nonce refs _ u apart numbered named labels ha hb bs created)
          λ found there. absurd (apart_from fresh there))
    where
      apart_from : {r : Option PairMarketRefs} {a : PairMarketRefs} → r ≡ none → r ≡ some a → ⊥
      apart_from x y = cc (x, y)
