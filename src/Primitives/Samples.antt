-- ===== src/Primitives/Samples.antt =====
-- Sample data for the tests: a hash function, transactions and a block.
use pantheon_chain.Prelude.{ℕ, ◌%◌, List, [], ◌∷◌, ◌++◌, length}
use pantheon_chain.Primitives.Transaction.{
  Hash, zero_hash, coinbase_vout_index, OutPoint, TxInput, TxOutput, Transaction,
}
use pantheon_chain.Primitives.Asset.{talanton}
use pantheon_chain.Primitives.Block.{BlockHeader, Block}

-- A hash that tells byte strings apart by their length, and is small as a number.
abbrev pub length_hash : List ℕ → Hash
length_hash xs =
    length xs % 256
    ∷ 0
    ∷ 0
    ∷ 0
    ∷ 0
    ∷ 0
    ∷ 0
    ∷ 0
    ∷ 0
    ∷ 0
    ∷ 0
    ∷ 0
    ∷ 0
    ∷ 0
    ∷ 0
    ∷ 0
    ∷ 0
    ∷ 0
    ∷ 0
    ∷ 0
    ∷ 0
    ∷ 0
    ∷ 0
    ∷ 0
    ∷ 0
    ∷ 0
    ∷ 0
    ∷ 0
    ∷ 0
    ∷ 0
    ∷ 0
    ∷ 0
    ∷ []

abbrev pub old_point : OutPoint
old_point = record { txid = zero_hash; vout = 7 }

abbrev pub other_point : OutPoint
other_point = record { txid = zero_hash; vout = 8 }

abbrev pub coinbase_point : OutPoint
coinbase_point = record { txid = zero_hash; vout = coinbase_vout_index }

abbrev pub unsigned : OutPoint → TxInput
unsigned o = record { prevout = o; signature_script = []; sequence = 0 }

abbrev pub pays : ℕ → TxOutput
pays amount = record {
  value = record { asset = talanton; amount = amount };
  pubkey_script = 81 ∷ [];
}

-- Two inputs, two outputs.
abbrev pub transfer : Transaction
transfer = record {
  version = 1;
  inputs = unsigned old_point ∷ unsigned other_point ∷ [];
  outputs = pays 30 ∷ pays 12 ∷ [];
  locktime = 0;
}

abbrev pub coinbase : Transaction
coinbase = record {
  version = 1;
  inputs = unsigned coinbase_point ∷ [];
  outputs = pays 5_000_000_000 ∷ [];
  locktime = 0;
}

abbrev pub header : Hash → Hash → BlockHeader
header parent root = record {
  version = 1;
  prev_block_hash = parent;
  merkle_root = root;
  timestamp = 100;
  bits = 0x1D00FFFF;
  nonce = 0;
  base_fee_per_gas = 1;
  gas_used = 0;
  gas_limit = 1000;
}

-- A coinbase and a transfer; the root is that of the two under `length_hash`.
abbrev pub block : Block
block = record {
  header = header zero_hash (length_hash (zero_hash ++ zero_hash));
  transactions = coinbase ∷ transfer ∷ [];
}
