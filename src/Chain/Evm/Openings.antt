-- ===== src/Chain/Evm/Openings.antt =====
-- What `createMarket` of `EvmMarketChain` (packages/chain/src/evm/index.ts) sends and keeps.
use ratio.Base.{
  ℕ, ◌+◌, ◌/◌, ◌≡◌, refl, ◌∙◌, ap, true, none, some, List, [], ◌∷◌, ◌++◌, String, string_eq, ◌⊎◌,
  inl, inr,
}
use ratio.Base.Maps.{set}
use ratio.Texts.{Text}
use ratio.Store.Records.{Side, side_a, side_b}
use ratio.Flow.{Result, ok, throw, ◌>>=◌, call}
use ratio.Flow.Ends.{
  Ends, after, Ends-pure, Ends-raise, Ends-ask, Ends-writes, Ends-cases, Ends-bind,
}
use ratio.Chain.Beneficiaries.{DopplerBeneficiary, build_beneficiaries}
use ratio.Chain.Evm.Node.{
  Receipt, Tx, create_oracle, create, set_entry_tokens, Calls, predicted_oracle, read_owner, Node,
  Host, EvmConfig, Opening,
}
use ratio.Chain.Evm.Client.{lift, keep_tokens, send, oracle_address}
use ratio.Chain.Evm.Markets.{creation, create_entry, create_entries, create_settling, create_market}
use ratio.Chain.Evm.Logs.{asset_from_create_receipt}
use ratio.Chain.Evm.Trace.{sent, World, Adds, IsSent, failed, mined, send-Ends, send-Adds}
use ratio.Chain.Evm.Known.{IsOracle}

module _ (node : Node) (host : Host) (config : EvmConfig) where
  -- What an entry is created with: in particular, no fee split.
  abbrev pub entry_call : Text → Side → String → String → String → Tx
  entry_call oracle side symbol label market_id = create (record {
    token_name = host.prefix 32 label;
    symbol = symbol;
    oracle = oracle;
    entry_id = side;
    salt_id = market_id;
    pool_beneficiaries = [];
  })

  -- A token that the airlock created, by the receipt of the transaction.
  pub record IsCreated (tx : Tx) (token : Text) : Type 0 where
    pub put_at : Calls
    pub at : Calls
    pub hash : Text
    pub receipt : Receipt
    pub put : node.write put_at config.operator tx ≡ ok hash
    pub received : node.wait at hash ≡ ok receipt
    pub success : receipt.success ≡ true
    pub told : asset_from_create_receipt host receipt.logs config.addresses.airlock ≡ some token

  abbrev Makes : Tx → World → Result Text → World → Type 0
  Makes tx v (ok token) w =
      Adds {A = Text} ((config.operator, tx) ∷ []) v (ok token) w × IsCreated tx token
  Makes tx v (throw e) w = Adds {A = Text} ((config.operator, tx) ∷ []) v (throw e) w

  create_entry-Makes :
      (oracle : Text) (side : Side) (label market_id : String) (w : World)
      → Ends
          (Makes (create (creation node host config oracle side label market_id)) w)
          (create_entry node host config oracle side label market_id)
          w
  unfolding create_entry
  create_entry-Makes oracle side label market_id w =
      let tx = create (creation node host config oracle side label market_id) in
      let P = Makes tx w in
      Ends-bind P {Q = IsSent node host config config.operator tx w} _ _ _
        (send-Ends node host config _ _ w) (λ e v q. elim q [ failed _ _ s t ↦ (s, t) ])
        λ receipt v q. elim q [
          | mined _ _ h hash got success s t ↦
              Ends-cases P _ _ _ _ (λ _. Ends-raise P _ _ (s, t))
                (λ asset told. Ends-pure P _ _ (
                  (s, t),
                  record {
                    put_at = got.1.0;
                    at = h;
                    hash = hash;
                    receipt = receipt;
                    put = got.1.1;
                    received = got.0;
                    success = success;
                    told = told;
                  },
                ))
        ]

  -- The four transactions of an opening, the latest first.
  abbrev pub opening : Opening → ℕ → Text → Text → Text → List (Text × Tx)
  opening p settles_at oracle token_a token_b =
      (config.operator, set_entry_tokens oracle token_a token_b)
      ∷ (config.operator, entry_call oracle side_b "RTOB" p.outcome_b p.nonce)
      ∷ (config.operator, entry_call oracle side_a "RTOA" p.outcome_a p.nonce)
      ∷ (config.operator, create_oracle p.nonce settles_at)
      ∷ []

  -- The split that was asked for is one that the initializer takes, with the owner that was read.
  abbrev pub SplitFits : Opening → Type 0
  SplitFits p =
      (owner : Text) × ((h : Calls) × (node.owner h ≡ ok owner))
      × (out : List DopplerBeneficiary) × (build_beneficiaries p.fee_beneficiaries owner ≡ ok out)

  -- The engine's time of settlement, or the client's own where none is given.
  abbrev pub SettlesAt : Opening → ℕ → Type 0
  SettlesAt p ms =
      (p.settles_at_ms ≡ some ms)
      ⊎ ((p.settles_at_ms ≡ none) × ((h : Calls) × (ms ≡ node.now h + config.market_duration_ms)))

  pub data IsOpened (p : Opening) (v : World) : Result String → World → Type 0 where
    stopped :
        (e : String) (w : World)
        → (sent w.history ≡ sent v.history) ⊎ SplitFits p
        → w.store.tokens_by_market ≡ v.store.tokens_by_market
        → IsOpened p v (throw e) w
    opened :
        (w : World) (oracle token_a token_b : Text) (ms : ℕ)
        → SplitFits p
        → SettlesAt p ms
        → IsOracle node host config p.nonce oracle
        → IsCreated (entry_call oracle side_a "RTOA" p.outcome_a p.nonce) token_a
        → IsCreated (entry_call oracle side_b "RTOB" p.outcome_b p.nonce) token_b
        → sent w.history ≡ opening p (ms / 1000) oracle token_a token_b ++ sent v.history
        → w.store.tokens_by_market ≡ set p.nonce (token_a, token_b) v.store.tokens_by_market
        → IsOpened p v (ok p.nonce) w

  abbrev Opens : Opening → World → Result String → World → Type 0
  Opens p v res w = IsOpened p v res w

  create_entries-Ends :
      (p : Opening) (oracle : Text) (ms : ℕ) (v w : World)
      → SplitFits p
      → SettlesAt p ms
      → IsOracle node host config p.nonce oracle
      → Adds {A = Text} ((config.operator, create_oracle p.nonce (ms / 1000)) ∷ []) v (ok oracle) w
      → Ends (Opens p v) (create_entries node host config p oracle) w
  unfolding create_entries keep_tokens
  create_entries-Ends p oracle ms v w fits at predicted q =
      let P = Opens p v in
      Ends-bind P
        {Q = Makes (create (creation node host config oracle side_a p.outcome_a p.nonce)) w} _ _ _
        (create_entry-Makes oracle side_a p.outcome_a p.nonce w)
        (λ e x a. stopped e x (inr fits) (a.1 ∙ q.1))
        λ token_a x a.
          Ends-bind P
            {Q = Makes (create (creation node host config oracle side_b p.outcome_b p.nonce)) x} _ _
            _ (create_entry-Makes oracle side_b p.outcome_b p.nonce x)
            (λ e y b. stopped e y (inr fits) (b.1 ∙ a.0.1 ∙ q.1))
            λ token_b y b.
              Ends-bind P
                {Q = Adds ((config.operator, set_entry_tokens oracle token_a token_b) ∷ []) y} _ _ _
                (send-Adds node host config _ _ y)
                (λ e z c. stopped e z (inr fits) (c.1 ∙ b.0.1 ∙ a.0.1 ∙ q.1))
                λ r z c. Ends-writes P _ _ _ (
                  Ends-pure P _ _ (
                    opened _ oracle token_a token_b ms fits at predicted a.1 b.1
                      (cc (c.0, b.0.0, a.0.0, q.0))
                      (ap (set p.nonce (token_a, token_b)) (c.1 ∙ b.0.1 ∙ a.0.1 ∙ q.1))))

  create_settling-Ends :
      (p : Opening) (ms : ℕ) (v w : World)
      → SettlesAt p ms
      → Adds {A = ℕ} [] v (ok ms) w
      → Ends (Opens p v) (create_settling node host config p ms) w
  unfolding create_settling oracle_address
  create_settling-Ends p ms v w at q =
      let P = Opens p v in
      Ends-ask P _ _ _ _ (λ e _. stopped e _ (inl q.0) q.1)
        λ owner read. split owner (_, read) (build_beneficiaries p.fee_beneficiaries owner) refl
    where
      P : Result String → World → Type 0
      P = Opens p v

      split :
          (owner : Text)
          → ((h : Calls) × (node.owner h ≡ ok owner))
          → (r : Result (List DopplerBeneficiary))
          → build_beneficiaries p.fee_beneficiaries owner ≡ r
          → Ends P
              (lift r >>= λ _.
                send node host config config.operator (create_oracle p.nonce (ms / 1000)) >>= λ _.
                call (predicted_oracle p.nonce) (λ h. node.predict_oracle h p.nonce) >>= λ oracle.
                create_entries node host config p oracle)
              (after read_owner w)
      split owner read (throw e) no_fit =
          Ends-bind P {Q = λ res u. (res ≡ throw e) × (u ≡ after read_owner w)} _ _ _
            (Ends-raise _ e _ (refl, refl))
            (λ e' u x.
              stopped e' u (inl (ap (λ m. sent m.history) x.1 ∙ q.0))
                (ap (λ m. m.store.tokens_by_market) x.1 ∙ q.1))
            λ _ u x. cc x.0
      split owner read (ok out) fit =
          let fits : SplitFits p = (owner, read, out, fit) in
          Ends-bind P {Q = λ res u. u ≡ after read_owner w} _ _ _ (Ends-pure _ out _ refl)
            (λ e u x. stopped e u (inr fits) (ap (λ m. m.store.tokens_by_market) x ∙ q.1))
            λ _ u x.
              Ends-bind P {Q = Adds ((config.operator, create_oracle p.nonce (ms / 1000)) ∷ []) u} _
                _ _ (send-Adds node host config _ _ u)
                (λ e y a. stopped e y (inr fits) (a.1 ∙ ap (λ m. m.store.tokens_by_market) x ∙ q.1))
                λ r y a.
                  let txs : Adds {A = Text}
                      ((config.operator, create_oracle p.nonce (ms / 1000)) ∷ []) v (throw "") y =
                    (
                      cc (a.0, ap (λ m. sent m.history) x, q.0),
                      a.1 ∙ ap (λ m. m.store.tokens_by_market) x ∙ q.1,
                    ) in
                  Ends-ask P _ _ _ _ (λ e _. stopped e _ (inr fits) txs.1)
                    λ oracle predicted.
                      create_entries-Ends p oracle ms v _ fits at (_, predicted) txs

-- Nothing is sent for a market whose fee split the initializer would refuse, with the owner that the
-- node names. An opening that ends well has sent the oracle, with its time of settlement in whole
-- seconds, the entry of each side for the oracle that the node predicts, with its label and an empty
-- list of pool beneficiaries, and the two tokens, in this order and nothing else. The tokens are
-- those that the receipt of each entry tells, and are kept for the market; an opening that stops
-- keeps the tokens that were known as they were.
pub create_market-IsOpened :
    (node : Node) (host : Host) (config : EvmConfig) (p : Opening) (w : World)
    → let (res, w') = create_market node host config p w in IsOpened node host config p w res w'
unfolding create_market
create_market-IsOpened node host config p w =
    let P = Opens node host config p w in
    (Ends-cases P _ _ _ _
      (λ absent.
        Ends-ask P _ _ _ _ (λ e no_throw. cc no_throw)
          λ at clock.
            create_settling-Ends node host config p _ w _ (inr (absent, (w.history, cc clock)))
              (refl, refl))
      (λ ms given. create_settling-Ends node host config p ms w w (inl given) (refl, refl))).ends
