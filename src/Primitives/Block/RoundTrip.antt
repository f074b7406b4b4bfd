-- ===== src/Primitives/Block/RoundTrip.antt =====
-- Reading a block back from its bytes (layer1-talanton/core/primitives/block.cpp).
use pantheon_chain.Prelude.{
  ℕ, ◌<◌, ◌≤◌, ◌≡◌, List, [], ◌++◌, append_assoc, append-nil, false, ltb, le→ltb, ◌==◌, ◌||◌,
  length, length-append, All, arith,
}
use pantheon_chain.Prelude.Words.{u64_mod}
use pantheon_chain.Primitives.Bytes.{write_u16, write_u32, write_u64, read_u16, read_u32, read_u64}
use pantheon_chain.Primitives.Compact.{parsed, ◌>>=◌, write_compact_size, length-write_compact_size}
use pantheon_chain.Primitives.Transaction.{Transaction}
use pantheon_chain.Primitives.Wire
use pantheon_chain.Primitives.Wire.{serialize_all, deserialize_all}
use pantheon_chain.Primitives.Wire.RoundTrip.{
  IsTransaction, deserialize_prefix-serialize, deserialize-serialize_all, length-serialize,
}
use pantheon_chain.Primitives.Block.{
  Block, read_minimal_size, serialize, read_transaction, max_transactions, counted_transactions,
  read_block, deserialize,
}
use pantheon_chain.Primitives.Block.Header.{
  IsHeader, length-serialize_header, deserialize-serialize_header,
}

pub record IsBlock (b : Block) : Type 0 where
  pub header_words : IsHeader b.header
  pub some_transaction : 0 < length b.transactions
  pub count_fits : length b.transactions ≤ max_transactions
  pub each_transaction : All IsTransaction b.transactions

-- The writer uses the shortest form, which is all that this reader takes.
read_minimal_size-write :
    (size : ℕ) (rest : List ℕ)
    → size < u64_mod
    → read_minimal_size (write_compact_size size ++ rest) ≡ parsed size rest
unfolding read_minimal_size write_compact_size write_u16 write_u32 write_u64 read_u16 read_u32
    read_u64
read_minimal_size-write size rest h = ground arith

read_transaction-serialize :
    (tx : Transaction) (rest : List ℕ)
    → IsTransaction tx
    → read_transaction (Wire.serialize tx ++ rest) ≡ parsed tx rest
unfolding read_transaction
read_transaction-serialize tx rest h =
    rw (deserialize_prefix-serialize tx rest h, read_transaction)
      (ground (arith, length-append (Wire.serialize tx) rest, length-serialize tx))

counted_transactions_lem :
    (b : Block) (rest : List ℕ)
    → IsBlock b
    → counted_transactions
        (length b.transactions)
        (serialize_all Wire.serialize b.transactions ++ rest)
      ≡ parsed b.transactions rest
unfolding counted_transactions
counted_transactions_lem b rest h =
    let n = length b.transactions in
    let sane : (n == 0 || ltb max_transactions n) ≡ false =
      ground (arith, h.some_transaction, h.count_fits) in
    rw sane (
      deserialize-serialize_all IsTransaction read_transaction Wire.serialize
        read_transaction-serialize b.transactions rest h.each_transaction)

read_block-serialize :
    (b : Block) (rest : List ℕ) → IsBlock b → read_block (serialize b ++ rest) ≡ parsed b rest
unfolding read_block serialize
read_block-serialize b rest h =
    let body = serialize_all Wire.serialize b.transactions ++ rest in
    let size = write_compact_size (length b.transactions) ++ body in
    simp append_assoc (
      rw (
        deserialize-serialize_header b.header size h.header_words,
        read_minimal_size-write (length b.transactions) body (omega (arith, h.count_fits)),
        counted_transactions_lem b rest h,
        ◌>>=◌,
      ))

long_enough : (b : Block) → IsBlock b → 105 ≤ length (serialize b)
unfolding serialize
long_enough b h = grind (
  arith,
  length-append,
  length-serialize_header b.header h.header_words,
  length-write_compact_size (length b.transactions),
)

-- A block of at least one and at most a million transactions, whose fields fit their C++ types, is what
-- `Deserialize` returns on the bytes of `Serialize`.
pub deserialize-serialize_block : (b : Block) → IsBlock b → deserialize (serialize b) ≡ parsed b []
unfolding deserialize
deserialize-serialize_block b h =
    rw (le→ltb (length (serialize b)) 105 (long_enough b h))
      (rw (← append-nil (serialize b)) (rw (read_block-serialize b [] h, deserialize)))
