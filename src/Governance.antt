-- ===== src/Governance.antt =====
-- The governance of the first layer (layer1-talanton/governance).
pub mod Emergency
pub mod EventLog
pub mod FeeRouter
pub mod Vesting
pub mod Treasury
pub mod Tests
