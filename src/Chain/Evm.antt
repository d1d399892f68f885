-- ===== src/Chain/Evm.antt =====
-- `EvmMarketChain` (packages/chain/src/evm/index.ts).
pub mod Node
pub mod Logs
pub mod Client
pub mod Markets
pub mod Settle
pub mod Trace
pub mod Known
pub mod Verdict
pub mod Claims
pub mod Openings
pub mod Stakes
pub mod Patience
pub mod Progress
mod Tests
