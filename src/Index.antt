-- ===== src/Index.antt =====
-- subgraph/src: the index of the chain's events.
pub mod Entities
pub mod Handlers
pub mod Totals
pub mod Balance
pub mod Keys
pub mod Synced
mod Tests
