-- ===== src/Primitives.antt =====
-- The value types of layer1-talanton/core/primitives: checked arithmetic, assets, and the byte
-- encoding of transactions.
pub mod SafeMath
pub mod Amount
pub mod Asset
pub mod Bytes
pub mod Compact
pub mod Transaction
pub mod Wire
pub mod Block
pub mod Merkle
pub mod Samples
pub mod Tests
