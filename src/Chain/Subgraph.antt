-- ===== src/Chain/Subgraph.antt =====
-- `RatioSubgraph` (packages/chain/src/evm/subgraph.ts), the client of the index.
pub mod Rows
pub mod Client
pub mod Agreement
mod Tests
