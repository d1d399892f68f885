-- ===== src/Chain/Evm/Trace.antt =====
-- The transactions that the methods of `EvmMarketChain` (packages/chain/src/evm/index.ts) send, and
-- what each shared step adds to them.
use ratio.Base.{
  ℕ, zero, suc, ◌≡◌, refl, ◌∙◌, Bool, true, false, List, [], ◌∷◌, ◌++◌, String, string_eq, drop,
  Bool-cases, includes, inl, inr,
}
use ratio.Texts.{Text, text_eq, lower}
use ratio.Flow.{Result, ok, throw, Machine}
use ratio.Flow.Ends.{
  Ends, after, Ends-pure, Ends-ask, Ends-reads, Ends-writes, Ends-branch, Ends-cases, Ends-ask_both,
  Ends-bind, Ends-catch, Ends-raise,
}
use ratio.Chain.Evm.Node.{
  Receipt, Tx, migrate, Call, slept, wrote, Calls, Node, Host, EvmConfig, Client, Evm,
}
use ratio.Chain.Evm.Client.{
  keep_wallet, send, wei_to_usd, oracle_address, fetch_tokens, entry_tokens,
}
use ratio.Chain.Evm.Settle.{wait_until, migrate_entry}

-- The transactions that were written, each with its account, the latest first.
abbrev pub sent : Calls → List (Text × Tx)
sent [] = []
sent (wrote account tx ∷ h) = (account, tx) ∷ sent h
sent (c ∷ h) = sent h

abbrev pub World : Type 0
World = Machine Client Call

-- No transaction was written.
abbrev pub Reads : {A : Type 0} → World → Result A → World → Type 0
Reads v res w = sent w.history ≡ sent v.history

-- No transaction was written, and what is kept is as it was.
abbrev pub Looks : {A : Type 0} → World → Result A → World → Type 0
Looks v res w = (sent w.history ≡ sent v.history) × (w.store ≡ v.store)

-- These transactions were written, the latest first, and the known entry tokens are as they were.
abbrev pub Adds : {A : Type 0} → List (Text × Tx) → World → Result A → World → Type 0
Adds txs v res w =
    (sent w.history ≡ txs ++ sent v.history) × (w.store.tokens_by_market ≡ v.store.tokens_by_market)

-- Only an initial part of the plan was carried out; a plan has the latest transaction first.
abbrev pub IsPart : List (Text × Tx) → World → World → Type 0
IsPart plan v w = (left : ℕ) × (sent w.history ≡ drop left plan ++ sent v.history)

module _ (node : Node) (host : Host) (config : EvmConfig) where
  -- The transaction was written once; a receipt that is handed on is its own, and successful.
  pub data IsSent (account : Text) (tx : Tx) (v : World) : Result Receipt → World → Type 0 where
    failed :
        (e : String) (w : World)
        → sent w.history ≡ (account, tx) ∷ sent v.history
        → w.store.tokens_by_market ≡ v.store.tokens_by_market
        → IsSent account tx v (throw e) w
    mined :
        (r : Receipt) (w : World) (h : Calls) (hash : Text)
        → (node.wait h hash ≡ ok r) × ((k : Calls) × (node.write k account tx ≡ ok hash))
        → r.success ≡ true
        → sent w.history ≡ (account, tx) ∷ sent v.history
        → w.store.tokens_by_market ≡ v.store.tokens_by_market
        → IsSent account tx v (ok r) w

  same_tokens :
      (account : Text) (c : Client) → (keep_wallet account c).tokens_by_market ≡ c.tokens_by_market
  unfolding keep_wallet
  same_tokens account c = elim (Bool-cases (includes c.wallets (lower account))) [
    | inl old ↦ rw old refl
    | inr new ↦ rw new refl
  ]

  pub send-Ends :
      (account : Text) (tx : Tx) (w : World)
      → Ends (IsSent account tx w) (send node host config account tx) w
  unfolding send
  send-Ends account tx w =
      let P = IsSent account tx w in
      let kept = same_tokens account w.store in
      Ends-writes P _ _ _ (
        Ends-ask P _ _ _ _ (λ e _. failed e _ refl kept)
          λ hash put.
            Ends-ask P _ _ _ _ (λ e _. failed e _ refl kept)
              λ r got.
                Ends-branch P _ _ _ _
                  (λ success. Ends-pure P _ _ (mined r _ _ hash (got, (_, put)) success refl kept))
                  (λ _. Ends-raise P _ _ (failed _ _ refl kept)))

  sent_once :
      (account : Text) (tx : Tx) (w : World) (res : Result Receipt) (v : World)
      → IsSent account tx w res v
      → Adds ((account, tx) ∷ []) w res v
  sent_once account tx w _ _ (failed e v s t) = (s, t)
  sent_once account tx w _ _ (mined r v h hash got success s t) = (s, t)

  pub send-Adds :
      (account : Text) (tx : Tx) (w : World)
      → Ends (Adds ((account, tx) ∷ []) w) (send node host config account tx) w
  send-Adds account tx w = record {
    ends = sent_once account tx w _ _ (send-Ends account tx w).ends;
  }

  -- A failed migration is no error, and it was sent all the same.
  pub migrate_entry-Ends :
      (token : Text) (w : World)
      → Ends
          (λ (res : Result (Unit {0})) v.
            (res ≡ ok tt) × (sent v.history ≡ (config.operator, migrate token) ∷ sent w.history))
          (migrate_entry node host config token)
          w
  unfolding migrate_entry
  migrate_entry-Ends token w =
      let P = λ (res : Result (Unit {0})) (v : World).
        (res ≡ ok tt) × (sent v.history ≡ (config.operator, migrate token) ∷ sent w.history) in
      let Q = Adds {A = Unit {0}} ((config.operator, migrate token) ∷ []) w in
      Ends-catch P {Q = Q} _ _ _
        (Ends-bind Q {Q = Adds ((config.operator, migrate token) ∷ []) w} _ _ _ (send-Adds _ _ w)
          (λ e v s. s) λ r v s. Ends-pure Q _ _ s)
        (λ b v q. (refl, q.0)) (λ e v q. Ends-pure P _ _ (refl, q.0))

  pub wei_to_usd-Ends : (wei : ℕ) (w : World) → Ends (Looks w) (wei_to_usd node host config wei) w
  unfolding wei_to_usd
  wei_to_usd-Ends wei w =
      Ends-ask (Looks w) _ _ _ _ (λ _ _. (refl, refl))
        λ price _. Ends-pure (Looks w) _ _ (refl, refl)

  pub entry_tokens-Ends :
      (market_id : String) (w : World) → Ends (Reads w) (entry_tokens node host config market_id) w
  unfolding entry_tokens fetch_tokens oracle_address
  entry_tokens-Ends market_id w =
      let P = Reads {A = Text × Text} w in
      Ends-reads P _ _ _ (
        Ends-cases P _ _ _ _
          (λ _.
            Ends-ask P _ _ _ _ (λ _ _. refl)
              λ oracle _.
                Ends-ask_both P _ _ _ _ _ _ (λ _. refl)
                  λ a b _ _.
                    Ends-branch P _ _ _ _ (λ _. Ends-raise P _ _ refl)
                      (λ _. Ends-writes P _ _ _ (Ends-pure P _ _ refl)))
          (λ tokens _. Ends-pure P _ _ refl))

  -- A test that only reads, and what is known where it holds.
  module _ (Q : Type 0) (test : Evm Bool) where
    abbrev pub Tests : World → Result Bool → World → Type 0
    Tests w (ok true) v = Looks {A = Bool} w (ok true) v × Q
    Tests w res v = Looks w res v

    abbrev pub Waited : World → Result (Unit {0}) → World → Type 0
    Waited w (ok _) v = Looks w (ok tt) v × Q
    Waited w (throw e) v = Looks {A = Unit {0}} w (throw e) v

    pub wait_until-Ends :
        (message : String)
        → ((w : World) → Ends (Tests w) test w)
        → (left : ℕ) (w : World) → Ends (Waited w) (wait_until node host config test message left) w
    unfolding wait_until
    wait_until-Ends message tests zero w =
        Ends-bind (Waited w) {Q = Tests w} _ _ _ (tests w) (λ e v q. q)
          (elim [
            | true ↦
                λ v q. Ends-branch (Waited w) _ _ _ _ (λ _. Ends-pure (Waited w) _ _ q) (λ x. cc)
            | false ↦
                λ v q. Ends-branch (Waited w) _ _ _ _ (λ x. cc) (λ _. Ends-raise (Waited w) _ _ q)
          ])
    wait_until-Ends message tests (suc left) w =
        Ends-bind (Waited w) {Q = Tests w} _ _ _ (tests w) (λ e v q. q)
          (elim [
            | true ↦
                λ v q. Ends-branch (Waited w) _ _ _ _ (λ _. Ends-pure (Waited w) _ _ q) (λ x. cc)
            | false ↦ λ v q.
                Ends-branch (Waited w) _ _ _ _ (λ x. cc)
                  (λ _.
                    Ends-ask (Waited w) _ _ _ _ (λ _ _. q)
                      λ _ _. record {
                        ends = later w v q _ (wait_until-Ends message tests left (after _ v)).ends;
                      })
          ])
      where
        later :
            (w v : World)
            → Looks {A = Bool} w (ok false) v
            → (r : Result (Unit {0}) × World) → Waited (after (slept 1000) v) r.0 r.1
            → Waited w r.0 r.1
        later w v q (ok _, u) h = ((h.0.0 ∙ q.0, h.0.1 ∙ q.1), h.1)
        later w v q (throw e, u) h = (h.0 ∙ q.0, h.1 ∙ q.1)
