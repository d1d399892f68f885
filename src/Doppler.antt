-- ===== src/Doppler.antt =====
-- The two-tweet market on Solana: packages/doppler/src and packages/chain/src/solana.ts.
pub mod Node
pub mod Tx
pub mod Markets
pub mod Trades
pub mod Chain
pub mod Sends
pub mod Plans
pub mod Sponsors
pub mod Stakes
pub mod Rebuilt
pub mod Restart
mod Tests
