-- ===== src/Chain/Evm/Claims.antt =====
-- What `claimFor` of `EvmMarketChain` (packages/chain/src/evm/index.ts) sends, and what it answers.
use ratio.Base.{
  ℕ, ◌≤◌, ◌≡◌, ◌≢◌, refl, ◌∙◌, ap, sym, Bool, true, false, Option, none, some, List, [], ◌∷◌, ◌++◌,
  String, leb, nat_eq, ne_of_beq, eq_of_beq, leb→le,
}
use ratio.Texts.{Text}
use ratio.Store.Records.{Side}
use ratio.Flow.{Result, ok, throw}
use ratio.Flow.Ends.{Ends, after, Ends-pure, Ends-ask, Ends-branch, Ends-bind}
use ratio.Chain.Evm.Node.{
  Tx, approve, claim, Calls, read_allowance, read_preview, predicted_oracle, Node, Host, EvmConfig,
}
use ratio.Chain.Evm.Client.{token_of, oracle_address}
use ratio.Chain.Evm.Settle.{allows, claim_held, claim_for}
use ratio.Chain.Evm.Trace.{
  sent, World, Looks, IsPart, IsSent, failed, mined, send-Ends, wei_to_usd-Ends, Tests, Waited,
  wait_until-Ends,
}
use ratio.Chain.Evm.Known.{
  IsOracle, IsTokenFor, IsEntry-asked, token_of-IsTokenOf, Finds, entry_tokens-Finds,
}

-- An approval of the whole balance, and then a claim of it.
abbrev pub redemption : EvmConfig → Text → Text → Text → ℕ → List (Text × Tx)
redemption config oracle token account held =
    (account, claim oracle held)
    ∷ (account, approve token config.addresses.prediction_migrator held)
    ∷ []

module _ (node : Node) (host : Host) (config : EvmConfig) (market_id : String) (side : Side)
    (bettor : Text) (start : World) where
  -- What the winner's account was read to hold of the token of the winning side.
  pub record IsHolding (token : Text) (held : ℕ) : Type 0 where
    pub winning : IsTokenFor node host config market_id side start token
    pub read_at : Calls
    pub balance : node.token_balance read_at token (config.signer_for bettor) ≡ ok held

  pub data IsClaimed (v : World) : Result (Option ℕ) → World → Type 0 where
    stopped_early :
        (e : String) (w : World) → sent w.history ≡ sent v.history → IsClaimed v (throw e) w
    nothing_held :
        (w : World) (token : Text)
        → IsHolding token 0
        → sent w.history ≡ sent v.history
        → IsClaimed v (ok none) w
    stopped :
        (e : String) (w : World) (oracle token : Text) (held : ℕ)
        → IsOracle node host config market_id oracle
        → IsHolding token held
        → held ≢ 0
        → IsPart (redemption config oracle token (config.signer_for bettor) held) v w
        → IsClaimed v (throw e) w
    claimed :
        (paid : ℕ) (w : World) (oracle token : Text) (held : ℕ)
        → IsOracle node host config market_id oracle
        → IsHolding token held
        → held ≢ 0
        → ((h : Calls) × (allowed : ℕ) × (node.allowance h token
                (config.signer_for bettor)
                config.addresses.prediction_migrator
              ≡ ok allowed)
            × (held ≤ allowed))
        → sent w.history
          ≡ redemption config oracle token (config.signer_for bettor) held ++ sent v.history
        → IsClaimed v (ok (some paid)) w

  abbrev Claims : World → Result (Option ℕ) → World → Type 0
  Claims v res w = IsClaimed v res w

  abbrev IsAllowed : Text → ℕ → Type 0
  IsAllowed token held =
      (h : Calls) × (allowed : ℕ) × (node.allowance h token (config.signer_for bettor)
          config.addresses.prediction_migrator
        ≡ ok allowed)
      × (held ≤ allowed)

  allows-Ends :
      (token : Text) (held : ℕ) (w : World)
      → Ends
          (Tests node host config
            (IsAllowed token held)
            (allows node host config token (config.signer_for bettor) held)
            w)
          (allows node host config token (config.signer_for bettor) held)
          w
  allows-Ends token held w =
      let P =
        Tests node host config (IsAllowed token held)
          (allows node host config token (config.signer_for bettor) held) w in
      Ends-ask P _ _ _ _ (λ _ _. (refl, refl))
        λ allowed got. Ends-pure P _ _ (tested allowed got (leb held allowed) refl)
    where
      tested :
          (allowed : ℕ)
          → node.allowance w.history token
              (config.signer_for bettor)
              config.addresses.prediction_migrator
            ≡ ok allowed
          → (b : Bool) → leb held allowed ≡ b
          → Tests node host config
              (IsAllowed token held)
              (allows node host config token (config.signer_for bettor) held)
              w
              (ok b)
              (after
                (read_allowance token
                  (config.signer_for bettor)
                  config.addresses.prediction_migrator)
                w)
      tested allowed got true enough = ((refl, refl), (_, allowed, got, leb→le _ _ enough))
      tested allowed got false enough = (refl, refl)

  claim_held-Ends :
      (oracle token : Text) (held : ℕ) (v w : World)
      → IsOracle node host config market_id oracle
      → IsHolding token held
      → held ≢ 0
      → sent w.history ≡ sent v.history
      → Ends (Claims v) (claim_held node host config oracle token (config.signer_for bettor) held) w
  unfolding claim_held
  claim_held-Ends oracle token held v w of_market holding some_held same =
      let P = Claims v in
      let account = config.signer_for bettor in
      let test = allows node host config token account held in
      Ends-ask P _ _ _ _
        (λ e _. stopped e _ oracle token held of_market holding some_held (2, same))
        λ payout _.
          Ends-bind P
            {Q = IsSent node host config account
              (approve token config.addresses.prediction_migrator held)
              (after (read_preview oracle held) w)}
            _ _ _ (send-Ends node host config _ _ (after (read_preview oracle held) w))
            (λ e u q. elim q [
              | failed _ _ s t ↦ stopped e u oracle token held of_market holding some_held (
                1,
                s
                    ∙ ap
                        (λ l.
                          (account, approve token config.addresses.prediction_migrator held) ∷ l)
                        same,
              )
            ])
            λ r u q.
              let approved : sent u.history
                  ≡ (account, approve token config.addresses.prediction_migrator held)
                    ∷ sent v.history =
                elim q [
                  | mined _ _ _ _ _ _ s t ↦
                      s
                      ∙ ap
                          (λ l.
                            (account, approve token config.addresses.prediction_migrator held) ∷ l)
                          same
                ] in
              Ends-bind P {Q = Waited node host config (IsAllowed token held) test u} _ _ _
                (wait_until-Ends node host config (IsAllowed token held) test _
                  (allows-Ends token held) 30 u)
                (λ e x q'.
                  stopped e x oracle token held of_market holding some_held (1, q'.0 ∙ approved))
                λ _ x q'.
                  Ends-bind P {Q = IsSent node host config account (claim oracle held) x} _ _ _
                    (send-Ends node host config _ _ x)
                    (λ e y p. elim p [
                      | failed _ _ s t ↦
                          stopped e y oracle token held of_market holding some_held
                            (0, cc (s, q'.0.0, approved))
                    ])
                    λ receipt y p.
                      let all : sent y.history
                          ≡ redemption config oracle token account held ++ sent v.history =
                        elim p [ mined _ _ _ _ _ _ s t ↦ cc (s, q'.0.0, approved) ] in
                      Ends-bind P {Q = Looks y} _ _ _ (wei_to_usd-Ends node host config _ y)
                        (λ e z l.
                          stopped e z oracle token held of_market holding some_held (0, l.0 ∙ all))
                        λ paid z l. Ends-pure P _ _ (
                          claimed paid z oracle token held of_market holding some_held q'.1
                            (l.0 ∙ all))

pub claim_for-IsClaimed :
    (node : Node) (host : Host) (config : EvmConfig) (market_id : String) (side : Side)
    (bettor : Text) (w : World)
    → let (res, w') = claim_for node host config market_id side bettor w in
      IsClaimed node host config market_id side bettor w w res w'
unfolding claim_for oracle_address
claim_for-IsClaimed node host config market_id side bettor w =
    let P = Claims node host config market_id side bettor w w in
    (Ends-ask P _ _ _ _ (λ e _. stopped_early e _ refl)
      λ oracle predicted.
        Ends-bind P {Q = Finds node host config market_id (after (predicted_oracle market_id) w)} _
          _ _ (entry_tokens-Finds node host config market_id (after (predicted_oracle market_id) w))
          (λ e u q. stopped_early e u q)
          λ tokens u q.
            Ends-ask P _ _ _ _ (λ e _. stopped_early e _ q.0)
              λ held got.
                let winning : IsTokenFor node host config market_id side w (token_of tokens side) =
                  record {
                    tokens = tokens;
                    entry = IsEntry-asked node host config market_id w tokens _ q.1;
                    chosen = token_of-IsTokenOf tokens side;
                  } in
                let holding : IsHolding node host config market_id side bettor w
                    (token_of tokens side) held =
                  record { winning = winning; read_at = u.history; balance = got } in
                Ends-branch P _ _ _ _
                  (λ zero_held. Ends-pure P _ _ (
                    nothing_held _ (token_of tokens side)
                      (record {
                        winning = winning;
                        read_at = u.history;
                        balance = rw (sym (eq_of_beq held 0 zero_held)) got;
                      })
                      q.0))
                  (λ some_held.
                    claim_held-Ends node host config market_id side bettor w oracle
                      (token_of tokens side) held w _ (_, predicted) holding
                      (ne_of_beq held 0 some_held) q.0)).ends
