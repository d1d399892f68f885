-- ===== src/Chain/Tests.antt =====
-- `buildBeneficiaries` (packages/chain/src/evm/beneficiaries.ts) on two addresses, one of them twice
-- and in two letter cases; the queue (serial.ts) and the price source (price.ts) beside it.
use ratio.Texts.{Text, codes, lower, is_address, text_eq}
use ratio.Base.{ℕ, ◌≤◌, false, some, ◌≡◌, refl, List, [], ◌∷◌, map, arith}
use ratio.Engine.World.{ok}
use ratio.Chain.Beneficiaries.{DopplerBeneficiary, build_beneficiaries}
use ratio.Chain.Payees.{IsAccepted}
use ratio.Chain.Accepted.{party_of, build_beneficiaries-IsAccepted}
use ratio.Chain.Serial.{
  Event, asked, started, ended, is_running, run, start, settle, step, play, has_settled, is_ready,
}
use ratio.Base.Maps.{get, set}
use ratio.Chain.Serial.InFlight.{count, play-one_running, play-starts}
use ratio.Chain.Price as Price
use ratio.Chain.Price.Freshness.{AllHonest, calls, answers, play-AllHonest, play-answered}

abbrev airlock : Text
airlock = codes "0xaa096f558f3d4c9226de77e7cc05f18e180b2544"

abbrev airlock_checksummed : Text
airlock_checksummed = codes "0xAA096F558f3d4c9226De77E7Cc05f18E180B2544"

abbrev treasury_wallet : Text
treasury_wallet = codes "0x00000000000000000000000000000000000000Fe"

abbrev split : List (Text × ℕ)
split = (airlock, 750) ∷ (treasury_wallet, 4500) ∷ (airlock_checksummed, 4750) ∷ []

build_beneficiaries-IsAccepted_example :
    (out : List DopplerBeneficiary) × (build_beneficiaries (map party_of split) airlock_checksummed
      ≡ ok out)
    × IsAccepted airlock_checksummed out
unfolding is_address lower
build_beneficiaries-IsAccepted_example =
    build_beneficiaries-IsAccepted airlock_checksummed split
      ((refl, omega arith), ((refl, omega arith), ((refl, omega arith), tt))) refl (omega arith)

-- Two calls for one account, in two letter cases, of which the first has failed.
abbrev sends : List Event
sends = ended 0 false ∷ started 1 ∷ started 0 ∷ asked airlock_checksummed ∷ asked airlock ∷ []

play-one_running_example : count is_running (lower airlock) (play (started 1 ∷ sends)).jobs ≤ 1
play-one_running_example = play-one_running (started 1 ∷ sends) airlock

play-starts_example : (id : ℕ) × (count is_running (lower airlock) (start id (play sends).jobs) ≡ 1)
unfolding play step run start settle lower has_settled is_ready get set
play-starts_example = play-starts sends airlock refl (λ e. omega (arith, e))

abbrev price_opts : Price.CoinbasePriceOpts
price_opts = record { ttl_ms = some 60; max_stale_ms = some 600 }

-- A price is fetched for two callers, is answered to a third, and bridges a failed request.
abbrev quotes : List Price.Event
quotes =
    Price.responded (Price.refused 503) 300
    ∷ Price.called 4 290
    ∷ Price.called 3 50
    ∷ Price.responded (Price.spot (some 4000)) 12
    ∷ Price.called 2 11
    ∷ Price.called 1 10
    ∷ []

play-AllHonest_example : AllHonest price_opts (Price.play price_opts quotes).log
play-AllHonest_example = play-AllHonest price_opts quotes

play-answered_example :
    calls (Price.play price_opts quotes).log ≡ answers (Price.play price_opts quotes).log
unfolding Price.play Price.step Price.ask Price.await_rate Price.young Price.land Price.load_result
    Price.fallback Price.answer_all
play-answered_example = play-answered price_opts quotes refl
