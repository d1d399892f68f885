-- ===== src/Engine.antt =====
-- apps/agent/src/engine.ts: mentions, bets, markets, settlement.
pub mod World
pub mod Monad
pub mod Bets
pub mod Shares
pub mod Creation
pub mod Settlement
pub mod Loops
pub mod Frames
pub mod Walk
pub mod Once
pub mod Fees
pub mod Invariant
pub mod Reports
pub mod Runs
pub mod Orders
pub mod Success
pub mod Closing
pub mod Payouts
pub mod Rescues
pub mod Verdicts
mod Tests
