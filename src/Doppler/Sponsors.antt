-- ===== src/Doppler/Sponsors.antt =====
-- Who pays the rent and the fee of a bet on Solana (`sponsor` of packages/chain/src/solana.ts).
use ratio.Base.{
  ℕ, ◌≤◌, ◌≡◌, ◌⊎◌, inl, inr, refl, Option, none, some, String, string_eq, or_else, ltb→le,
}
use ratio.Texts.{Text}
use ratio.Flow.{Result, ok, throw}
use ratio.Flow.Ends.{Ends, Ends-pure, Ends-ask, Ends-branch, Ends-cases, Ends-catch}
use ratio.Doppler.Node.{Sdk, Calls, Node}
use ratio.Doppler.Chain.{Rates, Config, given, headroom, sponsor}
use ratio.Doppler.Sends.{World, Quiet}
use ratio.Doppler.Plans.{Ends-lift}

module _ (sdk : Sdk) (node : Node) (rates : Rates) (config : Config) where
  -- A sponsor has the headroom, as the node answered.
  pub record IsSponsor (payer : Text) : Type 0 where
    pub name : Text
    pub configured : given config.sponsor_address ≡ some name
    pub address : Text
    pub read_as : config.address name ≡ ok address
    pub signs : config.signer_for name ≡ ok payer
    pub at : Calls
    pub balance : ℕ
    pub answered : node.balance at address ≡ ok balance
    pub affords : headroom ≤ balance

  pub Sponsors : World → Result (Option Text) → World → Type 0
  Sponsors v (ok none) w = Quiet sdk node v w
  Sponsors v (ok (some s)) w = Quiet sdk node v w × IsSponsor s
  Sponsors v (throw e) w = ⊥

  -- A sponsor that was found can afford it.
  pub Sponsored : Option Text → Type 0
  Sponsored none = Unit {0}
  Sponsored (some s) = IsSponsor s

  -- The same, but that an error is still to be caught.
  Tries : World → Result (Option Text) → World → Type 0
  Tries v (ok none) w = Quiet sdk node v w
  Tries v (ok (some s)) w = Quiet sdk node v w × IsSponsor s
  Tries v (throw e) w = Quiet sdk node v w

  pub sponsor-Sponsors : (v : World) → Ends (Sponsors v) (sponsor sdk node rates config) v
  unfolding sponsor Sponsors Tries
  sponsor-Sponsors v =
      let P = Sponsors v in
      let Q = Tries v in
      Ends-cases P _ _ _ _ (λ _. Ends-pure P _ _ refl)
        λ name given_name.
          Ends-catch P {Q = Q} _ _ _
            (Ends-lift Q _ _ _ (λ _ _. refl)
              λ a read.
                Ends-ask Q _ _ _ _ (λ _ _. refl)
                  λ value got.
                    Ends-branch Q _ _ _ _ (λ _. Ends-pure Q _ _ refl)
                      λ enough.
                        Ends-lift Q _ _ _ (λ _ _. refl)
                          λ s signs. Ends-pure Q _ _ (
                            refl,
                            record {
                              name = name;
                              configured = given_name;
                              address = a;
                              read_as = read;
                              signs = signs;
                              at = v.history;
                              balance = value;
                              answered = got;
                              affords = ltb→le value headroom enough;
                            },
                          ))
            (λ o w q. caught o w q) λ e w q. Ends-pure P _ _ q
    where
      caught : (o : Option Text) (w : World) → Tries v (ok o) w → Sponsors v (ok o) w
      caught none w q = q
      caught (some s) w q = q

  -- The rent and the fee are the bettor's, or those of a sponsor who can afford them.
  abbrev pub Pays : Text → Text → Type 0
  Pays bettor payer = (payer ≡ bettor) ⊎ IsSponsor payer

  pub payer_of : (bettor : Text) (o : Option Text) → Sponsored o → Pays bettor (or_else o bettor)
  unfolding Sponsored
  payer_of bettor none h = inl refl
  payer_of bettor (some s) h = inr h

  pub quiet_sponsor :
      (v u : World) (o : Option Text) → Sponsors v (ok o) u → Quiet sdk node v u × Sponsored o
  unfolding Sponsors Sponsored
  quiet_sponsor v u none q = (q, tt)
  quiet_sponsor v u (some s) q = q

  pub no_error : (v u : World) (e : String) {B : Type 0} → Sponsors v (throw e) u → B
  unfolding Sponsors
  no_error v u e bad = absurd bad
