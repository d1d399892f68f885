-- ===== src/Chain/Mock/Tests.antt =====
-- One market of the simulated chain, over whole numbers in place of floating-point ones.
use ratio.Base.{◌+◌, ◌-◌, ◌*◌, ◌/◌, ◌≡◌, refl, some, List, [], ◌∷◌, string_eq, nat_eq, ◌==◌}
use ratio.Base.Maps.{get, set}
use ratio.Texts.{codes}
use ratio.Flow.{ok}
use ratio.Store.Records.{side_a, side_b}
use ratio.Engine.World.{usd}
use ratio.Chain.Mock.{
  Floats, FeeBeneficiary, MockMarket, Mock, Bet, create_market, curve_tokens_out, fee_of, bought,
  place_bet, settle,
}
use ratio.Chain.Mock.Steps.{betting, settling, funding, play}
use ratio.Chain.Mock.Frozen.{IsFrozen, settle-IsFrozen}

abbrev floats : Floats
floats = record {
  plus = λ a b. a + b;
  minus = λ a b. a - b;
  times = λ a b. a * b;
  divide = λ a b. a / b;
  whole = λ n. n;
  is_zero = λ n. n == 0;
  half = 0;
  infinity = 1000000;
}

abbrev empty : Mock
empty = record { markets = []; bets = 0; balances = []; transfers = [] }

abbrev parties : List FeeBeneficiary
parties = record { wallet = codes "w"; share_bps = 10000 } ∷ []

abbrev bet : Bet
bet = record { market_id = "7"; side = side_b; stake = usd 100; bettor = codes "dave" }

abbrev opened : Mock
opened = (create_market floats 100 "7" parties empty).1

abbrev staked : Mock
staked = (place_bet floats 100 bet opened).1

abbrev settled : Mock
settled = (settle floats 100 "7" side_b staked).1

settled_by_b : settle floats 100 "7" side_b staked ≡ (ok side_b, settled)
unfolding settle place_bet create_market get set bought fee_of curve_tokens_out
settled_by_b = refl

settle-IsFrozen_example :
    (side_b ≡ side_b)
    × ((m : MockMarket) × (get "7" settled.markets ≡ some m)
        × IsFrozen floats 100 "7" side_b m (
            play floats 100
              (betting bet ∷ settling "7" side_a ∷ funding (codes "w") 5 ∷ [])
              settled))
settle-IsFrozen_example =
    settle-IsFrozen floats 100 "7" side_b side_b
      (betting bet ∷ settling "7" side_a ∷ funding (codes "w") 5 ∷ []) staked settled settled_by_b
      (tt, (tt, (tt, tt)))
