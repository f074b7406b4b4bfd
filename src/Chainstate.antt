-- ===== src/Chainstate.antt =====
-- The chain state of layer1-talanton/core/chainstate: coins, supplies, and connected blocks.
pub mod Utxo
pub mod Amounts
pub mod Tallies
pub mod Supply
pub mod Spending
pub mod Chain
pub mod Samples
mod Tests
