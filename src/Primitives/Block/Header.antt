-- ===== src/Primitives/Block/Header.antt =====
-- Reading a block header back from its 104 bytes (layer1-talanton/core/primitives/block.cpp).
use pantheon_chain.Prelude.{
  ℕ, ◌<◌, ◌≡◌, refl, List, ◌++◌, append_assoc, length, length-append, arith,
}
use pantheon_chain.Prelude.Words.{u64_mod, u32_mod}
use pantheon_chain.Primitives.Bytes.{write_u32, write_u64, read-write_u32, read-write_u64}
use pantheon_chain.Primitives.Compact.{parsed, ◌>>=◌}
use pantheon_chain.Primitives.Transaction.{Hash}
use pantheon_chain.Primitives.Wire.Items.{take_of_length, drop_of_length, length-write_u32}
use pantheon_chain.Primitives.Block.{
  BlockHeader, serialize_header, deserialize_header, raw_u32, raw_u64, raw_hash,
}

pub record IsHeader (h : BlockHeader) : Type 0 where
  pub version_word : h.version < u32_mod
  pub prev_bytes : length h.prev_block_hash ≡ 32
  pub root_bytes : length h.merkle_root ≡ 32
  pub timestamp_word : h.timestamp < u32_mod
  pub bits_word : h.bits < u32_mod
  pub nonce_word : h.nonce < u32_mod
  pub base_fee_word : h.base_fee_per_gas < u64_mod
  pub gas_used_word : h.gas_used < u64_mod
  pub gas_limit_word : h.gas_limit < u64_mod

length-write_u64 : (v : ℕ) → length (write_u64 v) ≡ 8
unfolding write_u64
length-write_u64 v = refl

raw_u32_lem : (v : ℕ) (rest : List ℕ) → v < u32_mod → raw_u32 (write_u32 v ++ rest) ≡ parsed v rest
unfolding raw_u32
raw_u32_lem v rest h =
    rw (read-write_u32 v rest h, drop_of_length 4 (write_u32 v) rest (length-write_u32 v))

raw_u64_lem : (v : ℕ) (rest : List ℕ) → v < u64_mod → raw_u64 (write_u64 v ++ rest) ≡ parsed v rest
unfolding raw_u64
raw_u64_lem v rest h =
    rw (read-write_u64 v rest h, drop_of_length 8 (write_u64 v) rest (length-write_u64 v))

raw_hash_lem : (v : Hash) (rest : List ℕ) → length v ≡ 32 → raw_hash (v ++ rest) ≡ parsed v rest
unfolding raw_hash
raw_hash_lem v rest h = rw (take_of_length 32 v rest h, drop_of_length 32 v rest h)

pub length-serialize_header : (h : BlockHeader) → IsHeader h → length (serialize_header h) ≡ 104
unfolding serialize_header
length-serialize_header h k = grind (arith, length-append, length-write_u32, length-write_u64, k)

-- A header is read back from its bytes, whatever follows them.
pub deserialize-serialize_header :
    (h : BlockHeader) (rest : List ℕ)
    → IsHeader h
    → deserialize_header (serialize_header h ++ rest) ≡ parsed h rest
unfolding deserialize_header serialize_header
deserialize-serialize_header h rest k =
    let limit = write_u64 h.gas_limit ++ rest in
    let used = write_u64 h.gas_used ++ limit in
    let fee = write_u64 h.base_fee_per_gas ++ used in
    let nonce = write_u32 h.nonce ++ fee in
    let bits = write_u32 h.bits ++ nonce in
    let time = write_u32 h.timestamp ++ bits in
    let root = h.merkle_root ++ time in
    let prev = h.prev_block_hash ++ root in
    simp append_assoc (
      rw (
        raw_u32_lem h.version prev k.version_word,
        raw_hash_lem h.prev_block_hash root k.prev_bytes,
        raw_hash_lem h.merkle_root time k.root_bytes,
        raw_u32_lem h.timestamp bits k.timestamp_word,
        raw_u32_lem h.bits nonce k.bits_word,
        raw_u32_lem h.nonce fee k.nonce_word,
        raw_u64_lem h.base_fee_per_gas used k.base_fee_word,
        raw_u64_lem h.gas_used limit k.gas_used_word,
        raw_u64_lem h.gas_limit rest k.gas_limit_word,
        ◌>>=◌,
      ))
