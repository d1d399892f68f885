-- ===== src/Engine/Walk.antt =====
-- Every method of the engine, walked once: a relation that each single effect respects is
-- respected by the methods.
pub mod Bets
pub mod Creation
pub mod Settlement
