-- ===== src/Settlement.antt =====
-- Settlement conditions of the first layer (layer1-talanton/settlement).
pub mod Multisig
pub mod Escrow
pub mod DestinationTag
mod Tests
