-- ===== src/Chain.antt =====
-- packages/chain/src: the fee beneficiaries of a launch on the chain.
pub mod Beneficiaries
pub mod Evm
pub mod Payees
pub mod Accepted
pub mod Price
pub mod Mock
pub mod Serial
pub mod Subgraph
mod Tests
