-- ===== src/Primitives/Block/Validity.antt =====
-- `Block::IsValid` and the hash of a header (layer1-talanton/core/primitives/block.cpp).
use pantheon_chain.Prelude.{List, [], ◌∷◌, ℕ, Bool, true, false, not, none, some, if◌then◌else◌}
use pantheon_chain.Prelude.Maps.{bytes_beq}
use pantheon_chain.Primitives.Transaction.{Hash, Transaction, is_coinbase}
use pantheon_chain.Primitives.Transaction
use pantheon_chain.Primitives.Merkle.{calculate_merkle_root}
use pantheon_chain.Primitives.Block.{BlockHeader, Block, serialize_header}
use pantheon_chain.Consensus.Difficulty.{check_proof_of_work}

unfoldable pub any_coinbase : List Transaction → Bool
any_coinbase [] = false
any_coinbase (tx ∷ txs) = if is_coinbase tx then true else any_coinbase txs

unfoldable pub all_valid : List Transaction → Bool
all_valid [] = true
all_valid (tx ∷ txs) = if not (Transaction.is_valid tx) then false else all_valid txs

-- There is a first transaction, it is a coinbase, and no other is.
unfoldable pub coinbase_first : List Transaction → Bool
coinbase_first [] = false
coinbase_first (tx ∷ txs) = if not (is_coinbase tx) then false else not (any_coinbase txs)

module _ (sha256d : List ℕ → Hash) where
  unfoldable pub get_hash : BlockHeader → Hash
  get_hash h = sha256d (serialize_header h)

  unfoldable pub meets_difficulty_target : BlockHeader → Bool
  meets_difficulty_target h = check_proof_of_work (get_hash h) h.bits

  -- The root of a list is always found (`Merkle.calculate_root_total`).
  unfoldable pub merkle_root_matches : Block → Bool
  merkle_root_matches b = elim (calculate_merkle_root sha256d b.transactions) [
    | none ↦ false
    | some root ↦ bytes_beq root b.header.merkle_root
  ]

  unfoldable pub is_valid : Block → Bool
  is_valid b =
      if not (coinbase_first b.transactions)
      then false
      else if not (all_valid b.transactions)
      then false
      else if not (merkle_root_matches b)
      then false
      else meets_difficulty_target b.header
