-- ===== src/Store.antt =====
-- apps/agent/src/store.ts: what the agent remembers, and the in-memory store.
pub mod Records
pub mod Memory
pub mod Rows
pub mod Columns
pub mod Supabase
pub mod Mirror
pub mod Boards
pub mod Ranking
mod Tests
