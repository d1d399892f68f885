-- ===== src/Engine/Walk/Bets.antt =====
-- The methods of Engine/Bets, walked: a relation that events and a saved bet respect is respected.
use ratio.Base.{ℕ, String}
use ratio.Store.Records.{MarketRecord, BetRecord, Side}
use ratio.Store.Memory.{save_bet}
use ratio.Engine.World.{Services, EngineConfig, XMention, Stake, SideChoice, StakeUnit}
use ratio.Engine.Monad.{writes}
use ratio.Engine.Frames.{
  Frame, Ignores, Moves, Moves-pure, Moves-reads, Moves-bind, Moves-branch, Moves-cases, Moves-ask,
  Moves-post,
}
use ratio.Engine.Bets.{swap_and_record, place_capped, place_bet, bet_on, handle_bet}

module _ (F : Frame) (event : Ignores F) (services : Services) (config : EngineConfig)
    (bet : (b : BetRecord) → Moves F (writes (save_bet b))) where
  pub Moves-swap_and_record :
      (mention : XMention) (r : MarketRecord) (side : Side) (stake : Stake) (amount : ℕ)
      (bettor : String)
      → Moves F (swap_and_record services config mention r side stake amount bettor)
  unfolding swap_and_record
  Moves-swap_and_record mention r side stake amount bettor = Moves-ask F event _ _ _ λ tokens.
      Moves-ask F event _ _ _
        λ at. Moves-bind F _ _ (bet _) λ _. Moves-ask F event _ _ _ λ odds. Moves-post F event _ _

  Moves-place_capped :
      (mention : XMention) (r : MarketRecord) (side : Side) (stake : Stake)
      → Moves F (place_capped services config mention r side stake)
  unfolding place_capped
  Moves-place_capped mention r side stake = Moves-ask F event _ _ _ λ amount.
      Moves-ask F event _ _ _ λ bettor. Moves-ask F event _ _ _ λ balance.
        Moves-branch F _ _ _ (λ _. Moves-post F event _ _)
          (λ _. Moves-swap_and_record mention r side stake amount bettor)

  pub Moves-place_bet :
      (mention : XMention) (r : MarketRecord) (side : Side) (stake : Stake)
      → Moves F (place_bet services config mention r side stake)
  unfolding place_bet
  Moves-place_bet mention r side stake = Moves-ask F event _ _ _ λ amount.
      Moves-branch F _ _ _ (λ _. Moves-pure F tt)
        λ _.
          Moves-cases F _ _ _ (λ _. Moves-pure F tt)
            (λ stake' _. Moves-place_capped mention r side stake')

  Moves-bet_on :
      (mention : XMention) (r : MarketRecord) (choice : SideChoice) (amount : ℕ) (unit : StakeUnit)
      → Moves F (bet_on services config mention r choice amount unit)
  unfolding bet_on
  Moves-bet_on mention r choice amount unit = Moves-ask F event _ _ _ λ at.
      Moves-branch F _ _ _ (λ _. Moves-pure F tt)
        λ _. Moves-cases F _ _ _ (λ _. Moves-pure F tt) (λ side _. Moves-place_bet mention r side _)

  pub Moves-handle_bet :
      (mention : XMention) (choice : SideChoice) (amount : ℕ) (unit : StakeUnit)
      → Moves F (handle_bet services config mention choice amount unit)
  unfolding handle_bet
  Moves-handle_bet mention choice amount unit =
      Moves-cases F _ _ _ (λ _. Moves-pure F tt)
        λ target _. Moves-bind F _ _ (Moves-reads F _) λ found.
          Moves-cases F _ _ _ (λ _. Moves-pure F tt)
            λ r _.
              Moves-branch F _ _ _ (λ _. Moves-bet_on mention r choice amount unit)
                (λ _. Moves-pure F tt)
