-- ===== src/Web.antt =====
-- apps/web: the access wall, the market scanner and the bets of the web.
pub mod Access
pub mod Wall
pub mod Scanner
pub mod Matched
pub mod Firing
pub mod BetServer
pub mod Ledger
mod Tests
