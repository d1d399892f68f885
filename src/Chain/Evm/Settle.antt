-- ===== src/Chain/Evm/Settle.antt =====
-- `settle` and `claimFor` of `EvmMarketChain` (packages/chain/src/evm/index.ts).
use ratio.Base.{
  ℕ, zero, suc, Bool, Option, none, some, String, nat_eq, ◌==◌, leb, if◌then◌else◌, or_else,
}
use ratio.Texts.{Text, text_eq, lower}
use ratio.Flow.{◌>>=◌, ◌>>◌, pure, done, catch, branch, call, ok}
use ratio.Store.Records.{Side, side_a, side_b}
use ratio.Chain.Evm.Node.{
  declare_winner, migrate, approve, claim, slept, read_winner, read_finalized, read_preview,
  read_allowance, read_token_balance, Node, Host, EvmConfig, Evm,
}
use ratio.Chain.Evm.Logs.{claimed_from_logs}
use ratio.Chain.Evm.Client.{fail, token_of, send, wei_to_usd, oracle_address, entry_tokens}

-- `tokens.findIndex`, letter case aside.
unfoldable pub side_of_token : Text × Text → Text → Option Side
side_of_token tokens token =
    if lower tokens.0 == lower token
    then some side_a
    else if lower tokens.1 == lower token
    then some side_b
    else none

module _ (node : Node) (host : Host) (config : EvmConfig) where
  abbrev pub sleep : Evm (Unit {0})
  sleep = call (slept 1000) (λ _. ok tt)

  -- A read that is repeated, with a second in between: `left` times more after the first.
  unfoldable pub wait_until : Evm Bool → String → ℕ → Evm (Unit {0})
  wait_until test message zero = do holds ← test; branch holds done (fail message)
  wait_until test message (suc left) =
      let again = wait_until test message left in
      do holds ← test; branch holds done (do sleep; again)

  -- The verdict that settlement goes on with: the chain's if it has one, else the one that is declared.
  unfoldable pub declared_side : Text → Text × Text → Side → Text × Bool → Evm Side
  declared_side oracle tokens winner (declared_token, already_final) =
      branch already_final (pure (or_else (side_of_token tokens declared_token) winner))
        (do _ ← send node host config config.operator (declare_winner oracle winner); pure winner)

  abbrev pub read_is_finalized : Text → Evm Bool
  read_is_finalized oracle = call (read_finalized oracle) (λ h. node.is_finalized h oracle)

  -- An entry that has migrated before reverts, which is no error here.
  unfoldable pub migrate_entry : Text → Evm (Unit {0})
  migrate_entry token =
      catch (do _ ← send node host config config.operator (migrate token); done) (λ _. done)

  abbrev pub preview : Text → ℕ → Evm ℕ
  preview oracle amount =
      call (read_preview oracle amount) (λ h. node.preview_claim h oracle amount)

  -- From the verdict on.
  unfoldable pub migrate_all : Text → Text × Text → Side → Evm Side
  migrate_all oracle tokens winner = do
    wait_until (read_is_finalized oracle) "oracle still reads unfinalized after declareWinner" 30
    migrate_entry tokens.0
    migrate_entry tokens.1
    _ ← preview oracle 1
    pure winner

  unfoldable pub settle : String → Side → Evm Side
  settle market_id winner = do
    oracle ← oracle_address node host config market_id
    tokens ← entry_tokens node host config market_id
    verdict ← call (read_winner oracle) (λ h. node.get_winner h oracle)
    declared ← declared_side oracle tokens winner verdict
    migrate_all oracle tokens declared

  abbrev pub allows : Text → Text → ℕ → Evm Bool
  allows token account held = do
    allowed ←
        call (read_allowance token account config.addresses.prediction_migrator)
          (λ h. node.allowance h token account config.addresses.prediction_migrator)
    pure (leb held allowed)

  -- From a balance on the winning side on.
  unfoldable pub claim_held : Text → Text → Text → ℕ → Evm (Option ℕ)
  claim_held oracle token account held = do
    payout ← preview oracle held
    _ ← send node host config account (approve token config.addresses.prediction_migrator held)
    wait_until (allows token account held) "claim blocked: allowance after approve" 30
    receipt ← send node host config account (claim oracle held)
    paid ←
        wei_to_usd node host config (
          or_else (claimed_from_logs host receipt.logs config.addresses.prediction_migrator) payout)
    pure (some paid)

  unfoldable pub claim_for : String → Side → Text → Evm (Option ℕ)
  claim_for market_id winner bettor = do
    oracle ← oracle_address node host config market_id
    tokens ← entry_tokens node host config market_id
    let token = token_of tokens winner
    let account = config.signer_for bettor
    held ← call (read_token_balance token account) (λ h. node.token_balance h token account)
    branch (held == 0) (pure none) (claim_held oracle token account held)
