-- ===== src/Chain/Evm/Verdict.antt =====
-- What `settle` of `EvmMarketChain` (packages/chain/src/evm/index.ts) sends, and what it answers.
use ratio.Base.{
  ℕ, ◌≡◌, refl, ◌∙◌, ap, Bool, true, false, List, [], ◌∷◌, ◌++◌, String, or_else, if◌then◌else◌,
}
use ratio.Texts.{Text}
use ratio.Store.Records.{Side}
use ratio.Flow.{Result, ok, throw}
use ratio.Flow.Ends.{Ends, after, Ends-pure, Ends-ask, Ends-tell, Ends-branch, Ends-bind}
use ratio.Chain.Evm.Node.{
  Tx, declare_winner, migrate, Calls, read_winner, predicted_oracle, Node, Host, EvmConfig,
}
use ratio.Chain.Evm.Client.{oracle_address}
use ratio.Chain.Evm.Settle.{side_of_token, declared_side, read_is_finalized, migrate_all, settle}
use ratio.Chain.Evm.Trace.{
  sent, World, Reads, IsPart, IsSent, failed, mined, send-Ends, migrate_entry-Ends,
  entry_tokens-Ends, Tests, Waited, wait_until-Ends,
}

-- The transactions of one settlement, the latest first: a declaration, if the chain holds no
-- verdict, and then the two migrations.
abbrev pub declaration : EvmConfig → Text → Side → Bool → List (Text × Tx)
declaration config oracle winner already_final =
    if already_final then [] else (config.operator, declare_winner oracle winner) ∷ []

abbrev pub settlement : EvmConfig → Text → Text × Text → Side → Bool → List (Text × Tx)
settlement config oracle tokens winner already_final =
    (config.operator, migrate tokens.1)
    ∷ (config.operator, migrate tokens.0)
    ∷ declaration config oracle winner already_final

-- The verdict that stands: the chain's own, where it has one.
abbrev pub standing_side : Text × Text → Side → Text × Bool → Side
standing_side tokens winner (token, already_final) =
    if already_final then or_else (side_of_token tokens token) winner else winner

module _ (node : Node) (host : Host) (config : EvmConfig) (winner : Side) where
  -- What the chain held when it was asked.
  pub record IsHeld (oracle : Text) (verdict : Text × Bool) : Type 0 where
    pub asked_at : Calls
    pub answer : node.get_winner asked_at oracle ≡ ok verdict

  pub data IsSettled (v : World) : Result Side → World → Type 0 where
    stopped_early :
        (e : String) (w : World) → sent w.history ≡ sent v.history → IsSettled v (throw e) w
    stopped :
        (e : String) (w : World) (oracle : Text) (tokens : Text × Text) (verdict : Text × Bool)
        → IsHeld oracle verdict
        → IsPart (settlement config oracle tokens winner verdict.1) v w
        → IsSettled v (throw e) w
    settled_as :
        (w : World) (oracle : Text) (tokens : Text × Text) (verdict : Text × Bool)
        → IsHeld oracle verdict
        → sent w.history ≡ settlement config oracle tokens winner verdict.1 ++ sent v.history
        → ((h : Calls) × (node.is_finalized h oracle ≡ ok true))
        → ((h : Calls) × (amount : ℕ) × (node.preview_claim h oracle 1 ≡ ok amount))
        → IsSettled v (ok (standing_side tokens winner verdict)) w

  abbrev Declares : Text → Text × Text → Text × Bool → World → Result Side → World → Type 0
  Declares oracle tokens verdict w (ok s) v =
      (s ≡ standing_side tokens winner verdict)
      × (sent v.history ≡ declaration config oracle winner verdict.1 ++ sent w.history)
  Declares oracle tokens verdict w (throw e) v =
      sent v.history ≡ declaration config oracle winner verdict.1 ++ sent w.history

  declared_side-Ends :
      (oracle : Text) (tokens : Text × Text) (verdict : Text × Bool) (w : World)
      → Ends
          (Declares oracle tokens verdict w)
          (declared_side node host config oracle tokens winner verdict)
          w
  unfolding declared_side
  declared_side-Ends oracle tokens (token, true) w =
      let P = Declares oracle tokens (token, true) w in
      Ends-branch P _ _ _ _ (λ _. Ends-pure P _ _ (refl, refl)) (λ x. cc)
  declared_side-Ends oracle tokens (token, false) w =
      let P = Declares oracle tokens (token, false) w in
      Ends-branch P _ _ _ _ (λ x. cc)
        λ _.
          Ends-bind P {Q = IsSent node host config config.operator (declare_winner oracle winner) w}
            _ _ _ (send-Ends node host config _ _ w) (λ e v q. elim q [ failed _ _ s t ↦ s ])
            (λ r v q. elim q [ mined _ _ _ _ _ _ s t ↦ Ends-pure P _ _ (refl, s) ])

  abbrev Settles : World → Result Side → World → Type 0
  Settles v res w = IsSettled v res w

  read_is_finalized-Ends :
      (oracle : Text) (w : World)
      → Ends
          (Tests node host config
            ((h : Calls) × (node.is_finalized h oracle ≡ ok true))
            (read_is_finalized node host config oracle)
            w)
          (read_is_finalized node host config oracle)
          w
  read_is_finalized-Ends oracle w =
      Ends-tell
        (Tests node host config ((h : Calls) × (node.is_finalized h oracle ≡ ok true))
          (read_is_finalized node host config oracle) w)
        _ _ _ (λ _ _. (refl, refl))
        (elim [ true ↦ λ got. ((refl, refl), (_, got)) | false ↦ λ _. (refl, refl) ])

  migrate_all-Ends :
      (oracle : Text) (tokens : Text × Text) (verdict : Text × Bool) (v w : World)
      → IsHeld oracle verdict
      → sent w.history ≡ declaration config oracle winner verdict.1 ++ sent v.history
      → Ends
          (Settles v)
          (migrate_all node host config oracle tokens (standing_side tokens winner verdict))
          w
  unfolding migrate_all
  migrate_all-Ends oracle tokens verdict v w held declared =
      let P = Settles v in
      let finalized = (h : Calls) × (node.is_finalized h oracle ≡ ok true) in
      Ends-bind P
        {Q = Waited node host config finalized (read_is_finalized node host config oracle) w} _ _ _
        (wait_until-Ends node host config finalized (read_is_finalized node host config oracle) _
          (read_is_finalized-Ends oracle) 30 w)
        (λ e u q. stopped e u oracle tokens verdict held (2, q.0 ∙ declared))
        λ _ u q.
          Ends-bind P
            {Q = λ res x.
              (res ≡ ok tt)
              × (sent x.history ≡ (config.operator, migrate tokens.0) ∷ sent u.history)}
            _ _ _ (migrate_entry-Ends node host config tokens.0 u) (λ e x q'. cc q'.0)
            λ _ x first.
              Ends-bind P
                {Q = λ res y.
                  (res ≡ ok tt)
                  × (sent y.history ≡ (config.operator, migrate tokens.1) ∷ sent x.history)}
                _ _ _ (migrate_entry-Ends node host config tokens.1 x) (λ e y q'. cc q'.0)
                λ _ y second.
                  let all : sent y.history
                      ≡ settlement config oracle tokens winner verdict.1 ++ sent v.history =
                    cc (second.1, first.1, q.0.0, declared) in
                  Ends-ask P _ _ _ _ (λ e _. stopped e _ oracle tokens verdict held (0, all))
                    λ amount claimable.
                      Ends-pure P _ _
                        (settled_as _ oracle tokens verdict held all q.1 (_, amount, claimable))

-- A settlement declares a verdict only if the chain holds none when it is asked, and then at most
-- once; if the chain holds one, that one stands, whatever was computed. An answer comes only after
-- both entries were sent to migrate behind the declaration, the oracle has read finalized and the pot
-- has read claimable. A settlement that stops has sent an initial part of the same transactions, so that
-- it can be run again.
pub settle-IsSettled :
    (node : Node) (host : Host) (config : EvmConfig) (market_id : String) (winner : Side)
    (w : World)
    → let (res, w') = settle node host config market_id winner w in
      IsSettled node host config winner w res w'
unfolding settle oracle_address
settle-IsSettled node host config market_id winner w =
    let P = Settles node host config winner w in
    (Ends-ask P _ _ _ _ (λ e _. stopped_early e _ refl)
      λ oracle _.
        Ends-bind P {Q = Reads {A = Text × Text} (after (predicted_oracle market_id) w)} _ _ _
          (entry_tokens-Ends node host config market_id _) (λ e u q. stopped_early e u q)
          λ tokens u q.
            Ends-ask P _ _ _ _ (λ e _. stopped_early e _ q)
              λ verdict got.
                let held : IsHeld node host config winner oracle verdict = record {
                  asked_at = u.history;
                  answer = got;
                } in
                Ends-bind P
                  {Q = Declares node host config winner oracle tokens verdict
                    (after (read_winner oracle) u)}
                  _ _ _ (declared_side-Ends node host config winner oracle tokens verdict _)
                  (λ e x d.
                    stopped e x oracle tokens verdict held
                      (2, d ∙ ap (λ l. declaration config oracle winner verdict.1 ++ l) q))
                  λ s x d. rw d.0 (
                    migrate_all-Ends node host config winner oracle tokens verdict w x held
                      (d.1 ∙ ap (λ l. declaration config oracle winner verdict.1 ++ l) q))).ends
