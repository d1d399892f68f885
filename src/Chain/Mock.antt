-- ===== src/Chain/Mock.antt =====
-- `MockMarketChain` (packages/chain/src/index.ts), the chain of the simulations: two curves for each
-- market, kept in memory. A floating-point number is kept by its bits, and its arithmetic is a
-- parameter; a signature is its template's number.
use ratio.Base.{
  ℕ, ◌+◌, Bool, true, false, ◌&&◌, not, Option, none, some, List, [], ◌∷◌, String, length,
  string_eq, nat_eq, ◌==◌, if◌then◌else◌, or_else, ltb,
}
use ratio.Base.Maps.{get, set}
use ratio.Texts.{Text, codes, text_eq, starts_with}
use ratio.Flow.{Result, ok, throw}
use ratio.Store.Records.{Side, side_a, side_b}
use ratio.Engine.World.{Stake, usd, native}
pub mod Steps
pub mod Frozen
pub mod Quotes
mod Tests

pub record Floats : Type 0 where
  pub plus : ℕ → ℕ → ℕ
  pub minus : ℕ → ℕ → ℕ
  pub times : ℕ → ℕ → ℕ
  pub divide : ℕ → ℕ → ℕ
  -- A whole number, and the tests and constants of the source.
  pub whole : ℕ → ℕ
  pub is_zero : ℕ → Bool
  pub half : ℕ
  pub infinity : ℕ

pub record FeeBeneficiary : Type 0 where
  pub wallet : Text
  pub share_bps : ℕ

pub data State : Type 0 where
  is_open is_settled : State

pub record MockSide : Type 0 where
  pub virtual_base : ℕ
  pub virtual_quote : ℕ
  pub raised_usd : ℕ
  pub tokens_out : ℕ

pub record MockMarket : Type 0 where
  pub sides : MockSide × MockSide
  pub fee_beneficiaries : List FeeBeneficiary
  pub fees_usd : ℕ
  pub state : State
  pub winner : Option Side

pub record Transfer : Type 0 where
  pub from : Text
  pub to : Text
  pub amount_usd : ℕ

pub record Mock : Type 0 where
  pub markets : List (String × MockMarket)
  pub bets : ℕ
  pub balances : List (Text × ℕ)
  pub transfers : List Transfer

pub record Bet : Type 0 where
  pub market_id : String
  pub side : Side
  pub stake : Stake
  pub bettor : Text

pub record Odds : Type 0 where
  pub implied_a : ℕ
  pub raised_usd : ℕ × ℕ

-- An answer, and the chain behind it.
abbrev pub Answer : Type 0 → Type 0
Answer A = Result A × Mock

abbrev pub at : Side → MockSide × MockSide → MockSide
at side_a s = s.0
at side_b s = s.1

abbrev pub put : Side → MockSide → MockSide × MockSide → MockSide × MockSide
put side_a x s = (x, s.1)
put side_b x s = (s.0, x)

abbrev pub total_bps : List FeeBeneficiary → ℕ
total_bps [] = 0
total_bps (b ∷ bs) = b.share_bps + total_bps bs

-- `market`: what follows it is not reached for a market that is not there.
abbrev pub if_found : {A : Type 0} → Option MockMarket → Mock → (MockMarket → Answer A) → Answer A
if_found none c f = (throw "no market", c)
if_found (some m) c f = f m

abbrev pub with_market : {A : Type 0} → String → Mock → (MockMarket → Answer A) → Answer A
with_market id c f = if_found (get id c.markets) c f

abbrev pub if_open : {A : Type 0} → State → Mock → Answer A → Answer A
if_open is_open c a = a
if_open is_settled c a = (throw "market not open", c)

-- Mock world: one native unit is one dollar.
abbrev pub stake_usd : Stake → ℕ
stake_usd (usd amount) = amount
stake_usd (native amount) = amount

unfoldable pub set_balance : Text → ℕ → Mock → Mock
set_balance wallet amount c = record c { balances = set wallet amount c.balances }

unfoldable pub transfer_usd : Transfer → Mock → Answer ℕ
transfer_usd t c = (ok (length c.transfers + 1), record c { transfers = t ∷ c.transfers })

unfoldable pub is_valid_address : Text → Bool
is_valid_address t = starts_with (codes "wallet:") t && ltb (length (codes "wallet:")) (length t)

module _ (floats : Floats) (swap_fee_bps : ℕ) where
  abbrev pub new_side : MockSide
  new_side = record {
    virtual_base = floats.whole 1000;
    virtual_quote = floats.whole 1000;
    raised_usd = floats.whole 0;
    tokens_out = floats.whole 0;
  }

  unfoldable pub create_market : String → List FeeBeneficiary → Mock → Answer String
  create_market nonce parties c =
      if total_bps parties == 10000
      then (
        ok nonce,
        record c {
          markets =
              set nonce
                (record {
                  sides = (new_side, new_side);
                  fee_beneficiaries = parties;
                  fees_usd = floats.whole 0;
                  state = is_open;
                  winner = none;
                })
                c.markets;
        },
      )
      else (throw "feeBeneficiaries shareBps must sum to 10000", c)

  unfoldable pub curve_tokens_out : MockSide → ℕ → ℕ
  curve_tokens_out s net = floats.minus s.virtual_base (
      floats.divide (floats.times s.virtual_base s.virtual_quote) (floats.plus s.virtual_quote net))

  unfoldable pub fee_of : ℕ → ℕ
  fee_of amount =
      floats.divide (floats.times amount (floats.whole swap_fee_bps)) (floats.whole 10000)

  -- The curve of a side after a bet.
  unfoldable pub bought : MockSide → ℕ → MockSide
  bought s net =
      let out = curve_tokens_out s net in
      record {
        virtual_base = floats.minus s.virtual_base out;
        virtual_quote = floats.plus s.virtual_quote net;
        raised_usd = floats.plus s.raised_usd net;
        tokens_out = floats.plus s.tokens_out out;
      }

  -- The tokens and the number of the bet.
  unfoldable pub place_bet : Bet → Mock → Answer (ℕ × ℕ)
  place_bet b c =
      let amount = stake_usd b.stake in
      let fee = fee_of amount in
      let net = floats.minus amount fee in
      with_market b.market_id c λ m. if_open m.state c (
        ok (curve_tokens_out (at b.side m.sides) net, c.bets + 1),
        record c {
          markets =
              set b.market_id
                (record m {
                  sides = put b.side (bought (at b.side m.sides) net) m.sides;
                  fees_usd = floats.plus m.fees_usd fee;
                })
                c.markets;
          bets = c.bets + 1;
        },
      )

  -- The tokens and the fee.
  unfoldable pub preview_stake : Bet → Mock → Answer (ℕ × ℕ)
  preview_stake b c =
      let amount = stake_usd b.stake in
      let fee = fee_of amount in
      with_market b.market_id c λ m.
        if_open m.state c
          (ok (curve_tokens_out (at b.side m.sides) (floats.minus amount fee), fee), c)

  unfoldable pub get_odds : String → Mock → Answer Odds
  get_odds id c = with_market id c λ m.
      let a = m.sides.0.raised_usd in
      let total = floats.plus a m.sides.1.raised_usd in
      (
        ok (record {
          implied_a = if floats.is_zero total then floats.half else floats.divide a total;
          raised_usd = (a, m.sides.1.raised_usd);
        }),
        c,
      )

  unfoldable pub balance_usd : Text → Mock → ℕ
  balance_usd wallet c = or_else (get wallet c.balances) floats.infinity

  unfoldable pub settle : String → Side → Mock → Answer Side
  settle id winner c = with_market id c λ m. if_open m.state c (
      if floats.is_zero (at winner m.sides).tokens_out then (throw "ZeroClaimableSupply", c) else (
        ok winner,
        record c {
          markets = set id (record m { state = is_settled; winner = some winner }) c.markets;
        },
      ))

  -- The share of the pot that so many tokens are worth.
  abbrev pub share_of : MockMarket → Side → ℕ → ℕ
  share_of m winner burned =
      floats.times (floats.divide burned (at winner m.sides).tokens_out)
        (floats.plus m.sides.0.raised_usd m.sides.1.raised_usd)

  abbrev pub quoted : MockMarket → State → Option Side → ℕ → Result ℕ
  quoted m is_settled (some winner) burned = ok (share_of m winner burned)
  quoted m is_settled none burned = throw "not settled"
  quoted m is_open w burned = throw "not settled"

  unfoldable pub claim_quote : String → ℕ → Mock → Answer ℕ
  claim_quote id burned c = with_market id c λ m. (quoted m m.state m.winner burned, c)

-- No rent in the mock world, and no payouts: they are the simulation's.
unfoldable pub reserved_usd : ℕ
reserved_usd = 0

unfoldable pub claim_for : Option ℕ
claim_for = none
