-- ===== src/Primitives/Block.antt =====
-- Blocks and their byte encoding (layer1-talanton/core/primitives/block.h and block.cpp).
pub mod Header
pub mod RoundTrip
pub mod Validity
use pantheon_chain.Prelude.{
  ℕ, ◌-◌, List, [], ◌∷◌, ◌++◌, ◌||◌, ltb, leb, ◌==◌, if◌then◌else◌, length, take, drop,
}
use pantheon_chain.Primitives.Bytes.{write_u32, write_u64, read_u16, read_u32, read_u64}
use pantheon_chain.Primitives.Compact.{
  Parse, Parser, parsed, rejected, thrown, ◌>>=◌, pure, write_compact_size,
}
use pantheon_chain.Primitives.Transaction.{Hash, Transaction}
use pantheon_chain.Primitives.Wire.{serialize_all, deserialize_all, deserialize_prefix}
use pantheon_chain.Primitives.Wire

pub record BlockHeader : Type 0 where
  pub version : ℕ
  pub prev_block_hash : Hash
  pub merkle_root : Hash
  pub timestamp : ℕ
  pub bits : ℕ
  pub nonce : ℕ
  pub base_fee_per_gas : ℕ
  pub gas_used : ℕ
  pub gas_limit : ℕ

pub record Block : Type 0 where
  pub header : BlockHeader
  pub transactions : List Transaction

unfoldable pub serialize_header : BlockHeader → List ℕ
serialize_header h =
    write_u32 h.version
    ++ (h.prev_block_hash
        ++ (h.merkle_root
            ++ (write_u32 h.timestamp
                ++ (write_u32 h.bits
                    ++ (write_u32 h.nonce
                        ++ (write_u64 h.base_fee_per_gas
                            ++ (write_u64 h.gas_used ++ write_u64 h.gas_limit)))))))

-- A field read at the pointer, which then moves past it.
pub raw_u32 : Parser ℕ
raw_u32 input = parsed (read_u32 input) (drop 4 input)

pub raw_u64 : Parser ℕ
raw_u64 input = parsed (read_u64 input) (drop 8 input)

pub raw_hash : Parser Hash
raw_hash input = parsed (take 32 input) (drop 32 input)

pub deserialize_header : Parser BlockHeader
deserialize_header = do
  version ← raw_u32
  prev_block_hash ← raw_hash
  merkle_root ← raw_hash
  timestamp ← raw_u32
  bits ← raw_u32
  nonce ← raw_u32
  base_fee_per_gas ← raw_u64
  gas_used ← raw_u64
  gas_limit ← raw_u64
  pure (record {
    version = version;
    prev_block_hash = prev_block_hash;
    merkle_root = merkle_root;
    timestamp = timestamp;
    bits = bits;
    nonce = nonce;
    base_fee_per_gas = base_fee_per_gas;
    gas_used = gas_used;
    gas_limit = gas_limit;
  })

-- The reader of this file refuses a size that a shorter form could hold.
minimal : ℕ → ℕ → (List ℕ → ℕ) → Parser ℕ
minimal n least read rest =
    if ltb (length rest) n
    then rejected
    else if ltb (read rest) least
    then rejected
    else parsed (read rest) (drop n rest)

pub read_minimal_size : Parser ℕ
unfolding minimal
read_minimal_size [] = rejected
read_minimal_size (first ∷ rest) =
    if ltb first 253
    then parsed first rest
    else if first == 253
    then minimal 2 253 read_u16 rest
    else if first == 254
    then minimal 4 0x1_0000 read_u32 rest
    else minimal 8 0x1_0000_0000 read_u64 rest

pub serialize : Block → List ℕ
serialize b =
    serialize_header b.header
    ++ (write_compact_size (length b.transactions) ++ serialize_all Wire.serialize b.transactions)

-- One round of the loop over transactions, with its test of `consumed`.
pub read_transaction : Parser Transaction
read_transaction input = elim (deserialize_prefix input) [
  | parsed tx rest ↦
      let consumed = length input - length rest in
      if consumed == 0 || ltb (length input) consumed then rejected else parsed tx rest
  | rejected ↦ rejected
  | thrown ↦ thrown
]

abbrev pub max_transactions : ℕ
max_transactions = 1_000_000

pub counted_transactions : ℕ → Parser (List Transaction)
counted_transactions tx_count input =
    if tx_count == 0 || ltb max_transactions tx_count
    then rejected
    else deserialize_all read_transaction tx_count input

pub read_block : Parser Block
read_block = do
  header ← deserialize_header
  tx_count ← read_minimal_size
  transactions ← counted_transactions tx_count
  pure (record { header = header; transactions = transactions })

pub deserialize : List ℕ → Parse Block
deserialize input = if ltb (length input) 105 then rejected else elim (read_block input) [
  | parsed b rest ↦ if length rest == 0 then parsed b rest else rejected
  | rejected ↦ rejected
  | thrown ↦ thrown
]
