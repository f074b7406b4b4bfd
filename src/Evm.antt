-- ===== src/Evm.antt =====
-- The virtual machine of the third layer (layer3-obolos/evm).
pub mod Word
pub mod State
pub mod Opcodes
pub mod Machine
mod Tests
