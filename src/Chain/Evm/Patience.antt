-- ===== src/Chain/Evm/Patience.antt =====
-- The wait for finality of `settle` (packages/chain/src/evm/index.ts) comes to an end.
use ratio.Base.{
  ℕ, zero, suc, ◌+◌, ◌*◌, ◌≤◌, ◌≡◌, refl, ap, ◌∙◌, true, [], ◌∷◌, String, arith, ◌⊎◌, inl, inr,
}
use ratio.Texts.{Text}
use ratio.Store.Records.{Side}
use ratio.Flow.{Result, ok, throw}
use ratio.Flow.Ends.{
  Ends, after, Ends-pure, Ends-raise, Ends-ask, Ends-branch, Ends-writes, Ends-bind, Ends-catch,
}
use ratio.Chain.Evm.Node.{Tx, Receipt, Calls, slept, read_finalized, Node, Host, EvmConfig}
use ratio.Chain.Evm.Client.{send}
use ratio.Chain.Evm.Settle.{wait_until, read_is_finalized, migrate_entry, migrate_all}
use ratio.Chain.Evm.Trace.{World}

-- How often finality was read, and how many milliseconds were slept.
abbrev pub polls : Calls → ℕ
polls [] = 0
polls (read_finalized oracle ∷ h) = 1 + polls h
polls (c ∷ h) = polls h

abbrev pub rested : Calls → ℕ
rested [] = 0
rested (slept ms ∷ h) = ms + rested h
rested (c ∷ h) = rested h

-- Neither a read of finality nor a sleep.
abbrev Calm : {A : Type 0} → World → Result A → World → Type 0
Calm v res w = (polls w.history ≡ polls v.history) × (rested w.history ≡ rested v.history)

module _ (node : Node) (host : Host) (config : EvmConfig) where
  send-Calm :
      (account : Text) (tx : Tx) (w : World) → Ends (Calm w) (send node host config account tx) w
  unfolding send
  send-Calm account tx w =
      let P = Calm {A = Receipt} w in
      Ends-writes P _ _ _ (
        Ends-ask P _ _ _ _ (λ _ _. (refl, refl))
          λ hash _.
            Ends-ask P _ _ _ _ (λ _ _. (refl, refl))
              λ r _.
                Ends-branch P _ _ _ _ (λ _. Ends-pure P _ _ (refl, refl))
                  (λ _. Ends-raise P _ _ (refl, refl)))

  migrate_entry-Calm :
      (token : Text) (w : World) → Ends (Calm w) (migrate_entry node host config token) w
  unfolding migrate_entry
  migrate_entry-Calm token w =
      let P = Calm {A = Unit {0}} w in
      Ends-catch P {Q = P} _ _ _
        (Ends-bind P {Q = Calm {A = Receipt} w} _ _ _ (send-Calm _ _ w) (λ e v c. c)
          λ r v c. Ends-pure P _ _ c)
        (λ b v c. c) (λ e v c. Ends-pure P _ _ c)

module _ (node : Node) (oracle : Text) where
  abbrev IsFinal : Type 0
  IsFinal = (h : Calls) × (node.is_finalized h oracle ≡ ok true)

  abbrev Bounds : ℕ → World → World → Type 0
  Bounds left v w =
      (polls w.history ≤ polls v.history + left + 1)
      × (rested w.history ≤ rested v.history + 1000 * left)

  abbrev GivesUp : ℕ → World → String → World → Type 0
  GivesUp left v e w =
      ((h : Calls) × (node.is_finalized h oracle ≡ throw e))
      ⊎ ((polls w.history ≡ polls v.history + left + 1)
          × (rested w.history ≡ rested v.history + 1000 * left))

  -- The wait: it ends well on a read that said so; one that gives up has read no to the end of its
  -- patience, unless a read failed.
  abbrev Waits : ℕ → World → Result (Unit {0}) → World → Type 0
  Waits left v (ok _) w = Bounds left v w × IsFinal
  Waits left v (throw e) w = Bounds left v w × GivesUp left v e w

  -- What comes behind the wait may fail too, but only where finality was read.
  abbrev pub IsOver : ℕ → World → Result Side → World → Type 0
  IsOver left v (ok _) w = Bounds left v w × IsFinal
  IsOver left v (throw e) w = Bounds left v w × (IsFinal ⊎ GivesUp left v e w)

  wait-Ends :
      (host : Host) (config : EvmConfig) (message : String) (left : ℕ) (w : World)
      → Ends
          (Waits left w)
          (wait_until node host config (read_is_finalized node host config oracle) message left)
          w
  unfolding wait_until
  wait-Ends host config message zero w =
      let P = Waits zero w in
      Ends-ask P _ _ _ _ (λ e failed. ((omega arith, omega arith), inl (_, failed)))
        λ b got.
          Ends-branch P _ _ _ _
            (λ yes_final. Ends-pure P _ _ ((omega arith, omega arith), (_, got ∙ ap ok yes_final)))
            (λ _. Ends-raise P _ _ ((omega arith, omega arith), inr (omega arith, omega arith)))
  wait-Ends host config message (suc left) w =
      let P = Waits (suc left) w in
      Ends-ask P _ _ _ _ (λ e failed. ((omega arith, omega arith), inl (_, failed)))
        λ b got.
          Ends-branch P _ _ _ _
            (λ yes_final. Ends-pure P _ _ ((omega arith, omega arith), (_, got ∙ ap ok yes_final)))
            (λ _.
              Ends-ask P _ _ _ _ (λ e no_throw. cc no_throw)
                λ _ _. record {
                  ends =
                      later (after (slept 1000) (after (read_finalized oracle) w)) refl refl _
                        (wait-Ends host config message left
                          (after (slept 1000) (after (read_finalized oracle) w))).ends;
                })
    where
      later :
          (v : World)
          → polls v.history ≡ 1 + polls w.history
          → rested v.history ≡ 1000 + rested w.history
          → (r : Result (Unit {0}) × World) → Waits left v r.0 r.1
          → Waits (suc left) w r.0 r.1
      later v p n (ok _, u) h = ((omega (arith, h.0.0), omega (arith, h.0.1)), h.1)
      later v p n (throw e, u) h = (
        (omega (arith, h.0.0), omega (arith, h.0.1)),
        elim h.1 [
          | inl failed ↦ inl failed
          | inr all ↦ inr (omega (arith, all.0), omega (arith, all.1))
        ],
      )

-- From the verdict on, settlement reads finality at most 31 times and sleeps at most 30000
-- milliseconds in all, whatever the node answers. It ends well only if a read said that the oracle is
-- final; if it throws, then behind such a read, or since a read failed, or after all 31 reads, with
-- all 30000 milliseconds slept.
pub migrate_all-IsOver :
    (node : Node) (host : Host) (config : EvmConfig) (oracle : Text) (tokens : Text × Text)
    (winner : Side) (w : World)
    → let (res, w') = migrate_all node host config oracle tokens winner w in
      IsOver node oracle 30 w res w'
unfolding migrate_all
migrate_all-IsOver node host config oracle tokens winner w =
    let P = λ (res : Result Side) (w' : World). IsOver node oracle 30 w res w' in
    let entry = migrate_entry-Calm node host config in
    (Ends-bind P {Q = Waits node oracle 30 w} _ _ _ (wait-Ends node oracle host config _ 30 w)
      (λ e v q. (q.0, inr q.1))
      λ _ v q.
        let more : (x : World) → Calm {A = Unit {0}} v (ok tt) x → Bounds node oracle 30 w x =
          λ x c. (omega (arith, q.0.0, c.0), omega (arith, q.0.1, c.1)) in
        Ends-bind P {Q = Calm v} _ _ _ (entry tokens.0 v) (λ e x c. (more x c, inl q.1))
          λ _ x c.
            Ends-bind P {Q = Calm x} _ _ _ (entry tokens.1 x)
              (λ e y d. (more y (d.0 ∙ c.0, d.1 ∙ c.1), inl q.1))
              λ _ y d.
                let all = more y (d.0 ∙ c.0, d.1 ∙ c.1) in
                Ends-ask P _ _ _ _ (λ e _. (all, inl q.1)) λ _ _. Ends-pure P _ _ (all, q.1)).ends
