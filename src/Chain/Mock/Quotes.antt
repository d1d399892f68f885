-- ===== src/Chain/Mock/Quotes.antt =====
-- A quote of `MockMarketChain` (packages/chain/src/index.ts) is what a bet then gives.
use ratio.Base.{ℕ, ◌≡◌, refl, string_eq, inl, inr, Option-cases}
use ratio.Base.Maps.{get}
use ratio.Flow.{Result, ok, throw}
use ratio.Chain.Mock.{
  Floats, is_open, is_settled, State, Mock, Bet, Answer, if_open, place_bet, preview_stake,
}

-- The tokens of an answer, or its error.
pub tokens_of : Result (ℕ × ℕ) → Result ℕ
tokens_of (ok (tokens, n)) = ok tokens
tokens_of (throw e) = throw e

module _ (floats : Floats) (swap_fee_bps : ℕ) where
  open_alike :
      (s : State) (c : Mock) (p q : Answer (ℕ × ℕ))
      → p.1 ≡ c
      → tokens_of p.0 ≡ tokens_of q.0
      → ((if_open s c p).1 ≡ c) × (tokens_of (if_open s c p).0 ≡ tokens_of (if_open s c q).0)
  open_alike is_open c p q same tokens = (same, tokens)
  open_alike is_settled c p q same tokens = (refl, refl)

  -- A quote and a bet with the same arguments: the quote changes nothing, the tokens of the bet are
  -- those that were quoted, and the one is refused exactly when the other is, with the same error.
  pub preview_stake-place_bet :
      (b : Bet) (c : Mock)
      → ((preview_stake floats swap_fee_bps b c).1 ≡ c)
        × (tokens_of (preview_stake floats swap_fee_bps b c).0
            ≡ tokens_of (place_bet floats swap_fee_bps b c).0)
  unfolding preview_stake place_bet tokens_of
  preview_stake-place_bet b c = elim (Option-cases (get b.market_id c.markets)) [
    | inl missing ↦ rw missing (refl, refl)
    | inr (m, there) ↦ rw there (open_alike m.state c _ _ refl refl)
  ]
