-- ===== src/Chain/Evm/Progress.antt =====
-- `settle` of `EvmMarketChain` (packages/chain/src/evm/index.ts) goes through where the node answers.
use ratio.Base.{
  ◌∷◌, string_eq, ℕ, zero, suc, ◌≡◌, refl, ◌∙◌, ap, subst, Bool, true, false, Option, none, some,
  List, String,
}
use ratio.Base.Maps.{get}
use ratio.Texts.{Text}
use ratio.Store.Records.{Side}
use ratio.Flow.{Result, ok, throw, ◌>>=◌}
use ratio.Flow.Ends.{
  Ends, after, Ends-pure, Ends-ask, Ends-reads, Ends-writes, Ends-branch, Ends-cases, Ends-bind,
}
use ratio.Chain.Evm.Node.{
  Receipt, Tx, declare_winner, migrate, predicted_oracle, Node, Host, EvmConfig,
}
use ratio.Chain.Evm.Client.{send, oracle_address, entry_tokens}
use ratio.Chain.Evm.Settle.{wait_until, declared_side, read_is_finalized, migrate_all, settle}
use ratio.Chain.Evm.Trace.{World, sent, migrate_entry-Ends}
use ratio.Chain.Evm.Verdict.{standing_side}

clash : {A : Type 0} {B : Type 0} {r : Result A} {a : A} {e : String} → r ≡ throw e → r ≡ ok a → B
clash bad good = absurd (apart bad good)
  where
    apart : {A : Type 0} {r : Result A} {a : A} {e : String} → r ≡ throw e → r ≡ ok a → ⊥
    apart bad good = cc (bad, good)

stops : {A : Type 0} {B : Type 0} {a : A} {e : String} → ◌≡◌ {A = Result A} (throw e) (ok a) → B
stops bad = clash {r = throw _} refl bad

answer_same : {A : Type 0} {r : Result A} {a b : A} → r ≡ ok a → r ≡ ok b → a ≡ b
answer_same one two = cc (one, two)

module _ (node : Node) (host : Host) (config : EvmConfig) where
  -- That a transaction is mined and does not revert.
  abbrev pub Lands : Text → Tx → Type 0
  Lands account tx =
      ((h : List _) → (hash : Text) × (node.write h account tx ≡ ok hash))
      × ((h : List _) (hash : Text)
          → (r : Receipt) × (node.wait h hash ≡ ok r) × (r.success ≡ true))

  send-Lands :
      (account : Text) (tx : Tx) (w : World)
      → Lands account tx
      → Ends
          (λ (res : Result Receipt) v. (r : Receipt) × (res ≡ ok r))
          (send node host config account tx)
          w
  unfolding send
  send-Lands account tx w lands =
      let P = λ (res : Result Receipt) (v : World). (r : Receipt) × (res ≡ ok r) in
      Ends-writes P _ _ _ (
        Ends-ask P _ _ _ _ (λ e bad. clash bad (lands.0 _).1)
          λ hash _.
            Ends-ask P _ _ _ _ (λ e bad. clash bad (lands.1 _ hash).1)
              λ r got.
                Ends-branch P _ _ _ _ (λ _. Ends-pure P _ _ (r, refl))
                  (λ reverted. absurd (
                    success_twice reverted (
                      ap (λ x. x.success) (answer_same got (lands.1 _ hash).1)
                      ∙ (lands.1 _ hash).2))))
    where
      success_twice : {b : Bool} → b ≡ false → b ≡ true → ⊥
      success_twice x y = cc (x, y)

  wait-passes :
      (oracle : Text) (message : String) (left : ℕ) (w : World)
      → ((h : List _) → node.is_finalized h oracle ≡ ok true)
      → Ends
          (λ (res : Result (Unit {0})) v. res ≡ ok tt)
          (wait_until node host config (read_is_finalized node host config oracle) message left)
          w
  unfolding wait_until
  wait-passes oracle message zero w final =
      let P = λ (res : Result (Unit {0})) (v : World). res ≡ ok tt in
      Ends-ask P _ _ _ _ (λ e bad. clash bad (final _))
        λ b got.
          Ends-branch P _ _ _ _ (λ _. Ends-pure P _ _ refl)
            (λ no. absurd (never no (answer_same got (final _))))
    where
      never : {b : Bool} → b ≡ false → b ≡ true → ⊥
      never x y = cc (x, y)
  wait-passes oracle message (suc left) w final =
      let P = λ (res : Result (Unit {0})) (v : World). res ≡ ok tt in
      Ends-ask P _ _ _ _ (λ e bad. clash bad (final _))
        λ b got.
          Ends-branch P _ _ _ _ (λ _. Ends-pure P _ _ refl)
            (λ no. absurd (never no (answer_same got (final _))))
    where
      never : {b : Bool} → b ≡ false → b ≡ true → ⊥
      never x y = cc (x, y)

  migrate_all-passes :
      (oracle : Text) (tokens : Text × Text) (s : Side) (w : World)
      → ((h : List _) → node.is_finalized h oracle ≡ ok true)
      → ((h : List _) → (amount : ℕ) × (node.preview_claim h oracle 1 ≡ ok amount))
      → Ends (λ (res : Result Side) v. res ≡ ok s) (migrate_all node host config oracle tokens s) w
  unfolding migrate_all
  migrate_all-passes oracle tokens s w final claimable =
      let P = λ (res : Result Side) (v : World). res ≡ ok s in
      let Done = λ (res : Result (Unit {0})) (v : World). res ≡ ok tt in
      Ends-bind P {Q = Done} _ _ _ (wait-passes oracle _ 30 w final) (λ e u bad. stops bad)
        λ _ u _.
          Ends-bind P
            {Q = λ res x.
              (res ≡ ok tt)
              × (sent x.history ≡ (config.operator, migrate tokens.0) ∷ sent u.history)}
            _ _ _ (migrate_entry-Ends node host config tokens.0 u) (λ e x bad. stops bad.0)
            λ _ x _.
              Ends-bind P
                {Q = λ res y.
                  (res ≡ ok tt)
                  × (sent y.history ≡ (config.operator, migrate tokens.1) ∷ sent x.history)}
                _ _ _ (migrate_entry-Ends node host config tokens.1 x) (λ e y bad. stops bad.0)
                λ _ y _.
                  Ends-ask P _ _ _ _ (λ e bad. clash bad (claimable _).1)
                    λ amount _. Ends-pure P _ _ refl

  declared_side-passes :
      (oracle : Text) (tokens : Text × Text) (winner : Side) (verdict : Text × Bool) (w : World)
      → (verdict.1 ≡ false → Lands config.operator (declare_winner oracle winner))
      → Ends
          (λ (res : Result Side) v. res ≡ ok (standing_side tokens winner verdict))
          (declared_side node host config oracle tokens winner verdict)
          w
  unfolding declared_side
  declared_side-passes oracle tokens winner (token, true) w lands =
      let P =
        λ (res : Result Side) (v : World). res ≡ ok (standing_side tokens winner (token, true)) in
      Ends-branch P _ _ _ _ (λ _. Ends-pure P _ _ refl) (λ x. cc x)
  declared_side-passes oracle tokens winner (token, false) w lands =
      let P =
        λ (res : Result Side) (v : World). res ≡ ok (standing_side tokens winner (token, false)) in
      let Q = λ (res : Result Receipt) (v : World). (r : Receipt) × (res ≡ ok r) in
      Ends-branch P _ _ _ _ (λ x. cc x)
        (λ _.
          Ends-bind P {Q = Q} _ _ _
            (send-Lands config.operator (declare_winner oracle winner) w (lands refl))
            (λ e u bad. stops bad.1) λ r u _. Ends-pure P _ _ refl)

  entry_tokens-passes :
      (market_id : String) (tokens : Text × Text) (w : World)
      → get market_id w.store.tokens_by_market ≡ some tokens
      → Ends
          (λ (res : Result (Text × Text)) v. res ≡ ok tokens)
          (entry_tokens node host config market_id)
          w
  unfolding entry_tokens
  entry_tokens-passes market_id tokens w known =
      let P = λ (res : Result (Text × Text)) (v : World). res ≡ ok tokens in
      Ends-reads P _ _ _ (
        Ends-cases P _ _ _ _ (λ unknown. absurd (no_tokens unknown known))
          (λ t given. Ends-pure P _ _ (ap ok (same_tokens given known))))
    where
      no_tokens : {o : Option (Text × Text)} → o ≡ none → o ≡ some tokens → ⊥
      no_tokens x y = cc (x, y)

      same_tokens :
          {o : Option (Text × Text)} {t : Text × Text} → o ≡ some t → o ≡ some tokens → t ≡ tokens
      same_tokens x y = cc (x, y)

  tail-passes :
      (oracle o : Text) (tokens t : Text × Text) (winner : Side) (verdict v : Text × Bool)
      (w : World)
      → o ≡ oracle
      → t ≡ tokens
      → v ≡ verdict
      → (verdict.1 ≡ false → Lands config.operator (declare_winner oracle winner))
      → ((h : List _) → node.is_finalized h oracle ≡ ok true)
      → ((h : List _) → (amount : ℕ) × (node.preview_claim h oracle 1 ≡ ok amount))
      → Ends
          (λ (res : Result Side) x. res ≡ ok (standing_side tokens winner verdict))
          (declared_side node host config o t winner v >>= λ d. migrate_all node host config o t d)
          w
  tail-passes oracle o tokens t winner verdict v w oe te ve lands final claimable =
      let P = λ (res : Result Side) (x : World). res ≡ ok (standing_side tokens winner verdict) in
      rw (oe, te, ve)
        (Ends-bind P {Q = P} _ _ _ (declared_side-passes oracle tokens winner verdict w lands)
          (λ e u bad. bad)
          λ d u same.
            subst (λ s. Ends P (migrate_all node host config oracle tokens s) u)
              (answer_same same refl)
              (migrate_all-passes oracle tokens (standing_side tokens winner verdict) u final
                claimable))

-- A settlement goes through, even if neither entry migrates: the entry tokens are known, the oracle's
-- address, the chain's verdict, finality and the claimable pot are read, and the declaration lands if
-- the chain holds no verdict. It then answers the verdict that stands.
pub settle-settles :
    (node : Node) (host : Host) (config : EvmConfig) (market_id : String) (winner : Side)
    (oracle : Text) (tokens : Text × Text) (verdict : Text × Bool) (w : World)
    → get market_id w.store.tokens_by_market ≡ some tokens
    → ((h : List _) → node.predict_oracle h market_id ≡ ok oracle)
    → ((h : List _) → node.get_winner h oracle ≡ ok verdict)
    → (verdict.1 ≡ false → Lands node host config config.operator (declare_winner oracle winner))
    → ((h : List _) → node.is_finalized h oracle ≡ ok true)
    → ((h : List _) → (amount : ℕ) × (node.preview_claim h oracle 1 ≡ ok amount))
    → (settle node host config market_id winner w).0 ≡ ok (standing_side tokens winner verdict)
unfolding settle oracle_address
settle-settles node host config market_id winner oracle tokens verdict w known predicted held lands
      final claimable =
    let P = λ (res : Result Side) (v : World). res ≡ ok (standing_side tokens winner verdict) in
    (Ends-ask P (predicted_oracle market_id) (λ h. node.predict_oracle h market_id) _ w
      (λ e bad. clash bad (predicted _))
      λ o found.
        Ends-bind P {Q = λ (res : Result (Text × Text)) (v : World). res ≡ ok tokens} _ _ _
          (entry_tokens-passes node host config market_id tokens
            (after (predicted_oracle market_id) w) known)
          (λ e u bad. stops bad)
          λ t u same.
            let oe = answer_same found (predicted _) in
            Ends-ask P _ _ _ _ (λ e bad. clash bad (ap (node.get_winner _) oe ∙ held _))
              λ v got.
                tail-passes node host config oracle o tokens t winner verdict v _ oe
                  (answer_same refl same) (answer_same got (ap (node.get_winner _) oe ∙ held _))
                  lands final claimable).ends
