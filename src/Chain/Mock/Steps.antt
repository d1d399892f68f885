-- ===== src/Chain/Mock/Steps.antt =====
-- Calls of `MockMarketChain` (packages/chain/src/index.ts), one after another.
use ratio.Base.{
  ℕ, ◌≡◌, ◌≢◌, Bool, true, false, some, List, [], ◌∷◌, String, string_eq, ◌==◌, if◌then◌else◌,
  Bool-cases, inl, inr, All, Option-cases, eq_of_beq,
}
use ratio.Base.Maps.{get, set, get-set}
use ratio.Texts.{Text}
use ratio.Flow.{Result, ok, throw}
use ratio.Store.Records.{Side}
use ratio.Chain.Mock.{
  Floats, is_open, is_settled, FeeBeneficiary, State, MockMarket, Transfer, Mock, Bet, Answer,
  with_market, if_open, set_balance, transfer_usd, create_market, place_bet, preview_stake,
  get_odds, settle, claim_quote,
}

-- A call of a method.
pub data Op : Type 0 where
  creating : String → List FeeBeneficiary → Op
  betting : Bet → Op
  previewing : Bet → Op
  asking : String → Op
  funding : Text → ℕ → Op
  moving : Transfer → Op
  settling : String → Side → Op
  quoting : String → ℕ → Op

-- A call that does not open a market of this name anew.
abbrev pub Spares : String → Op → Type 0
Spares id (creating nonce parties) = nonce ≢ id
Spares id _ = Unit {0}

module _ (floats : Floats) (swap_fee_bps : ℕ) where
  -- The chain behind a call, whatever it answers.
  abbrev pub step : Op → Mock → Mock
  step (creating nonce parties) c = (create_market floats swap_fee_bps nonce parties c).1
  step (betting b) c = (place_bet floats swap_fee_bps b c).1
  step (previewing b) c = (preview_stake floats swap_fee_bps b c).1
  step (asking id) c = (get_odds floats swap_fee_bps id c).1
  step (funding wallet amount) c = set_balance wallet amount c
  step (moving t) c = (transfer_usd t c).1
  step (settling id winner) c = (settle floats swap_fee_bps id winner c).1
  step (quoting id burned) c = (claim_quote floats swap_fee_bps id burned c).1

  abbrev pub play : List Op → Mock → Mock
  play [] c = c
  play (op ∷ ops) c = play ops (step op c)

  ne_beq : (j id : String) → j ≢ id → (j == id) ≡ false
  ne_beq j id apart = elim (Bool-cases (j == id)) [
    | inl same ↦ absurd (apart (eq_of_beq j id same))
    | inr differs ↦ differs
  ]

  other :
      (id j : String) (m v : MockMarket) (ms : List (String × MockMarket))
      → (j == id) ≡ false
      → get id ms ≡ some m
      → get id (set j v ms) ≡ some m
  other id j m v ms differs found = rw (get-set j id v ms, differs) found

  unopened :
      {A : Type 0} (s : State) (c : Mock) (a : Answer A) (id : String) (m : MockMarket)
      → get id c.markets ≡ some m
      → get id a.1.markets ≡ some m
      → get id (if_open s c a).1.markets ≡ some m
  unopened is_open c a id m found after = after
  unopened is_settled c a id m found after = found

  -- A change that waits for an open market leaves a settled one, and one of another name.
  guarded :
      {A : Type 0} (id j : String) (m : MockMarket) (c : Mock) (change : MockMarket → Answer A)
      → m.state ≡ is_settled
      → get id c.markets ≡ some m
      → ((m' : MockMarket) → (j == id) ≡ false → get id (change m').1.markets ≡ some m)
      → get id (with_market j c (λ m'. if_open m'.state c (change m'))).1.markets ≡ some m
  guarded id j m c change done found elsewhere = elim (Option-cases (get j c.markets)) [
    | inl missing ↦ rw missing found
    | inr (m', there) ↦ elim (Bool-cases (j == id)) [
      | inl same ↦
          let key : j ≡ id = eq_of_beq j id same in
          let there' : get id c.markets ≡ some m' = rw (← key) there in
          let one : m' ≡ m = cc (found, there') in
          let shut : m'.state ≡ is_settled = rw one done in rw there (rw shut found)
      | inr differs ↦ rw there (unopened m'.state c (change m') id m found (elsewhere m' differs))
    ]
  ]

  looked :
      {A : Type 0} (id j : String) (m : MockMarket) (c : Mock) (f : MockMarket → Result A)
      → get id c.markets ≡ some m
      → get id (with_market j c (λ m'. (f m', c))).1.markets ≡ some m
  looked id j m c f found = elim (Option-cases (get j c.markets)) [
    | inl missing ↦ rw missing found
    | inr (m', there) ↦ rw there found
  ]

  created :
      (id j : String) (m v : MockMarket) (c : Mock) (b : Bool)
      → j ≢ id
      → get id c.markets ≡ some m
      → get id
          (if◌then◌else◌ {A = Answer String} b
            (ok j, record c { markets = set j v c.markets })
            (throw "feeBeneficiaries shareBps must sum to 10000", c)).1.markets
        ≡ some m
  created id j m v c true apart found = other id j m v c.markets (ne_beq j id apart) found
  created id j m v c false apart found = found

  settled_by :
      (id j : String) (m v : MockMarket) (c : Mock) (winner : Side) (b : Bool)
      → (j == id) ≡ false
      → get id c.markets ≡ some m
      → get id
          (if◌then◌else◌ {A = Answer Side} b
            (throw "ZeroClaimableSupply", c)
            (ok winner, record c { markets = set j v c.markets })).1.markets
        ≡ some m
  settled_by id j m v c winner true differs found = found
  settled_by id j m v c winner false differs found = other id j m v c.markets differs found

  step-kept :
      (id : String) (m : MockMarket) (op : Op) (c : Mock)
      → m.state ≡ is_settled
      → Spares id op
      → get id c.markets ≡ some m
      → get id (step op c).markets ≡ some m
  unfolding create_market place_bet preview_stake get_odds set_balance transfer_usd settle
      claim_quote
  step-kept id m (creating nonce parties) c done spares found =
      created id nonce m _ c _ spares found
  step-kept id m (betting b) c done spares found =
      guarded id b.market_id m c _ done found
        (λ m' differs. other id b.market_id m _ c.markets differs found)
  step-kept id m (previewing b) c done spares found =
      guarded id b.market_id m c _ done found (λ m' differs. found)
  step-kept id m (asking j) c done spares found = looked id j m c _ found
  step-kept id m (funding wallet amount) c done spares found = found
  step-kept id m (moving t) c done spares found = found
  step-kept id m (settling j winner) c done spares found =
      guarded id j m c _ done found (λ m' differs. settled_by id j m _ c winner _ differs found)
  step-kept id m (quoting j burned) c done spares found = looked id j m c _ found

  pub play-kept :
      (id : String) (m : MockMarket) (ops : List Op) (c : Mock)
      → m.state ≡ is_settled
      → All (Spares id) ops
      → get id c.markets ≡ some m
      → get id (play ops c).markets ≡ some m
  play-kept id m [] c done spares found = found
  play-kept id m (op ∷ ops) c done spares found =
      play-kept id m ops (step op c) done spares.1 (step-kept id m op c done spares.0 found)
