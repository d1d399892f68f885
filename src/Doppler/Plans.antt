-- ===== src/Doppler/Plans.antt =====
-- Several transactions in a row: what stands on the chain after a method that sends them, and the
-- settlement of a market (packages/doppler/src/pairMarket.ts, packages/chain/src/solana.ts).
use ratio.Base.{
  ◌≡◌, ◌⊎◌, inl, inr, refl, sym, ◌∙◌, ap, some, List, [], ◌∷◌, ◌++◌, String, string_eq, nat_eq,
  append_assoc,
}
use ratio.Base.Maps.{get}
use ratio.Texts.{Text, text_eq}
use ratio.Flow.{Result, ok, throw, ◌>>=◌, follow, pure, rethrow, reads, cases}
use ratio.Flow.Ends.{Ends, Ends-pure, Ends-bind}
use ratio.Store.Records.{Side}
use ratio.Doppler.Node.{Ix, Transaction, finalize, Sdk, Node, OutcomeRefs, PairMarketRefs, Dop}
use ratio.Doppler.Tx.{send_instructions}
use ratio.Doppler.Trades.{Resolved, outcome_of, migrate_instruction, resolve_and_migrate}
use ratio.Doppler.Chain.{Rates, Config, lift, refs_for, settle}
use ratio.Doppler.Sends.{World, submissions, Attempted, Delivered, Sends, send-Sends}

pub Ends-lift :
    {A B : Type 0} (P : Result B → World → Type 0) (r : Result A) (f : A → Dop B) (v : World)
    → ((e : String) → r ≡ throw e → P (throw e) v)
    → ((a : A) → r ≡ ok a → Ends P (f a) v)
    → Ends P (lift r >>= f) v
unfolding ◌>>=◌ follow pure rethrow
Ends-lift P (ok a) f v h k = record { ends = (k a refl).ends }
Ends-lift P (throw e) f v h k = record { ends = h e refl }

pub lift-known :
    {A B : Type 0} (P : Result B → World → Type 0) (r : Result A) (a : A) (f : A → Dop B)
    (v : World)
    → r ≡ ok a
    → Ends P (f a) v
    → Ends P (lift r >>= f) v
unfolding ◌>>=◌ follow pure
lift-known P r a f v same h = record { ends = rw same h.ends }

-- A payer, and the instructions of a transaction.
abbrev pub Step : Type 0
Step = Text × List Ix

module _ (sdk : Sdk) (node : Node) where
  -- Every step of the plan was confirmed, in order; submissions have the latest first.
  abbrev pub Full : List Step → List Transaction → Type 0
  Full [] txs = txs ≡ []
  Full ((payer, ixs) ∷ plan) txs =
      (rest block : List Transaction) × (signature : Text) × Delivered sdk node payer ixs 4
        signature block
      × Full plan rest
      × (txs ≡ rest ++ block)

  -- An initial part was confirmed, and what follows it was tried or not.
  abbrev pub Partial : List Step → List Transaction → Type 0
  Partial [] txs = txs ≡ []
  Partial ((payer, ixs) ∷ plan) txs =
      Attempted sdk node payer ixs 4 txs
      ⊎ ((rest block : List Transaction) × (signature : Text) × Delivered sdk node payer ixs 4
            signature block
          × Partial plan rest
          × (txs ≡ rest ++ block))

  -- A method that returns carried out the plan, one that throws an initial part of it.
  abbrev pub Follows : {A : Type 0} → List Step → World → Result A → World → Type 0
  Follows plan v (ok _) w =
      (txs : List Transaction) × Full plan txs
      × (submissions w.history ≡ txs ++ submissions v.history)
  Follows plan v (throw _) w =
      (txs : List Transaction) × Partial plan txs
      × (submissions w.history ≡ txs ++ submissions v.history)

  Follows-on :
      {A : Type 0} (payer : Text) (ixs : List Ix) (plan : List Step) (signature : Text)
      (res : Result A) (v u w : World)
      → Sends sdk node payer ixs 4 v (ok signature) u
      → Follows plan u res w
      → Follows ((payer, ixs) ∷ plan) v res w
  Follows-on payer ixs plan signature (ok a) v u w (block, d, there) (rest, full, then) = (
    rest ++ block,
    (rest, block, signature, d, full, refl),
    then ∙ ap (λ l. rest ++ l) there ∙ sym (append_assoc rest block (submissions v.history)),
  )
  Follows-on payer ixs plan signature (throw e) v u w (block, d, there) (rest, part, then) = (
    rest ++ block,
    inr (rest, block, signature, d, part, refl),
    then ∙ ap (λ l. rest ++ l) there ∙ sym (append_assoc rest block (submissions v.history)),
  )

  pub Follows-send :
      {A : Type 0} (payer : Text) (ixs : List Ix) (plan : List Step) (f : Text → Dop A) (v : World)
      → ((signature : Text) (u : World) → Ends (Follows plan u) (f signature) u)
      → Ends (Follows ((payer, ixs) ∷ plan) v) (send_instructions sdk node payer ixs >>= f) v
  Follows-send payer ixs plan f v next =
      let P = Follows ((payer, ixs) ∷ plan) v in
      Ends-bind P {Q = Sends sdk node payer ixs 4 v} _ _ _ (send-Sends sdk node payer ixs v)
        (λ e u q. (q.0, inl q.1, q.2))
        λ s u q. record { ends = Follows-on payer ixs plan s _ v u _ q (next s u).ends }

  -- The relay of the verdict.
  abbrev pub verdict_step : Text → PairMarketRefs → Side → Step
  verdict_step operator refs winner =
      (operator, finalize operator refs.oracle_state (outcome_of refs winner).base_mint ∷ [])

  abbrev pub migrate_step : Text → PairMarketRefs → OutcomeRefs → Step
  migrate_step operator refs side = (operator, migrate_instruction sdk node operator refs side ∷ [])

  -- The verdict, and then both migrations.
  abbrev pub settlement : Text → PairMarketRefs → Side → List Step
  settlement operator refs winner =
      verdict_step operator refs winner
      ∷ migrate_step operator refs refs.outcome_a
      ∷ migrate_step operator refs refs.outcome_b
      ∷ []

  resolve-Follows :
      (operator : Text) (refs : PairMarketRefs) (winner : Side) (v : World)
      → Ends
          (Follows (settlement operator refs winner) v)
          (resolve_and_migrate sdk node operator refs winner)
          v
  unfolding resolve_and_migrate
  resolve-Follows operator refs winner v =
      let b = migrate_step operator refs refs.outcome_b in
      let a = migrate_step operator refs refs.outcome_a in
      Follows-send _ _ (a ∷ b ∷ []) _ v λ _ u.
        Follows-send _ _ (b ∷ []) _ u
          λ _ x. Follows-send _ _ [] _ x λ _ y. Ends-pure (Follows [] y) _ _ ([], refl, refl)

module _ (sdk : Sdk) (node : Node) (rates : Rates) (config : Config) where
  -- A market that the process knows is not looked up again.
  pub known-refs :
      {A : Type 0} (P : Result A → World → Type 0) (market_id : String) (refs : PairMarketRefs)
      (f : PairMarketRefs → Dop A) (v : World)
      → get market_id v.store.refs_by_id ≡ some refs
      → Ends P (f refs) v
      → Ends P (refs_for sdk node rates config market_id >>= f) v
  unfolding refs_for ◌>>=◌ follow pure reads cases
  known-refs P market_id refs f v known h = record { ends = rw known h.ends }

  -- What the settlement of a market leaves behind: the plan or an initial part of it, and the winner.
  abbrev pub IsSettled : PairMarketRefs → Side → World → Result Side → World → Type 0
  IsSettled refs winner v res w =
      Follows sdk node (settlement sdk node config.operator refs winner) v res w
      × ((side : Side) → res ≡ ok side → side ≡ winner)

  -- The settlement of a market that the process knows relays the verdict for the winner's mint and
  -- then migrates side A and then side B, all by the operator. Where it returns, the three were
  -- confirmed in this order and the result is the winner; where it throws, an initial part was. Each
  -- of the three is submitted at most four times, and again only after the node's answer was an error.
  pub settle-IsFollowed :
      (market_id : String) (winner : Side) (refs : PairMarketRefs) (v : World)
      → get market_id v.store.refs_by_id ≡ some refs
      → Ends (IsSettled refs winner v) (settle sdk node rates config market_id winner) v
  unfolding settle
  settle-IsFollowed market_id winner refs v known =
      let P = IsSettled refs winner v in
      let plan = settlement sdk node config.operator refs winner in
      let Q = λ (res : Result Resolved). Follows sdk node plan v res in
      known-refs P market_id refs _ v known (
        Ends-bind P {Q = Q} _ _ _ (resolve-Follows sdk node config.operator refs winner v)
          (λ e u q. (q, λ side bad. cc bad)) λ _ u q. Ends-pure P _ _ (q, λ side same. cc same))
