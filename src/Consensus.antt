-- ===== src/Consensus.antt =====
-- The consensus rules of layer1-talanton/core/consensus.
pub mod Issuance
pub mod Difficulty
pub mod Tests
